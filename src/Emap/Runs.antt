-- ===== src/Emap/Runs.antt =====
-- Runs of any length: `lc_addEmapExtent` and `lc_removeInodeExtents`.
use lcfs.Prelude.{
  ℕ, zero, suc, ◌+◌, ◌-◌, ◌≤◌, ◌<◌, ◌^◌, ◌≡◌, refl, true, false, List, ltb, leb, ◌==◌, arith,
  Option, none, some, if◌then◌else◌, Bool-cases, inl, inr, ◌||◌,
}
use lcfs.Prelude.Words.{add64}
use lcfs.Extent.{Extent, emap_max}
use lcfs.ExtentList.{add_extent, remove_extent}
use lcfs.ExtentList.View.{within, covers, maps, total, IsEmapList, IsSpaceBag}
use lcfs.ExtentList.EmapInsert.{Unmapped}
use lcfs.ExtentList.EmapLaws.{add_extent-emap, remove_extent-emap}
use lcfs.ExtentList.Unsorted.{add_extent-unsorted}
use lcfs.Block.{add_space_extent, invalid_block}
use lcfs.Emap.{Inode, remove_inode_extents, add_emap_loop, add_emap_extent, remove_runs}

module _ (tblocks : ℕ) (tb : tblocks < 2 ^ 48) where
  -- The run of pages is mapped anew, and the other pages as before.
  unfoldable pub Mapped : (lo : ℕ) → List Extent → List Extent → (page block count : ℕ) → Type 0
  Mapped lo es es' page block count =
      IsEmapList tblocks lo es'
      × ((x : ℕ)
          → maps es' x ≡ (if within page count x then some (block + (x - page)) else maps es x))

  Mapped-trans :
      (lo : ℕ) (es₀ es₁ es₂ : List Extent) (page block k count : ℕ)
      → k ≤ count
      → Mapped lo es₀ es₁ page block k
      → Mapped lo es₁ es₂ (page + k) (block + k) (count - k)
      → Mapped lo es₀ es₂ page block count
  unfolding Mapped
  Mapped-trans lo es₀ es₁ es₂ page block k count l m n = (n.0, λ x. ground (arith, m.1 x, n.1 x))

  add_round :
      (fuel : ℕ) (es es₁ es₂ : List Extent) (page block count k : ℕ)
      → page + count ≤ 2 ^ 52
      → block + count ≤ tblocks
      → (count == 0) ≡ false
      → k ≤ count
      → (if ltb emap_max count then emap_max else count) ≡ k
      → add_extent tblocks es page block k true ≡ some es₁
      → add_emap_loop fuel tblocks es₁ (page + k) (block + k) (count - k) ≡ some es₂
      → add_emap_loop (suc fuel) tblocks es page block count ≡ some es₂
  unfolding add_emap_loop
  add_round fuel es es₁ es₂ page block count k pg b c l e run go =
      let same : add64 page k ≡ page + k = ground arith in
      let same' : add64 block k ≡ block + k = ground arith in
      rw c (rw e (rw run (rw (same, same') go)))

  -- The rounds after the first.
  add_rest :
      (fuel lo : ℕ) (es es₁ : List Extent) (page block count k : ℕ)
      → page + count ≤ 2 ^ 52
      → block + count ≤ tblocks
      → (count == 0) ≡ false
      → k ≤ count
      → (if ltb emap_max count then emap_max else count) ≡ k
      → add_extent tblocks es page block k true ≡ some es₁
      → IsEmapList tblocks lo es₁
      → ((x : ℕ) → maps es₁ x ≡ (if within page k x then some (block + (x - page)) else maps es x))
      → ((es' : List Extent) × (add_emap_loop fuel tblocks es₁ (page + k) (block + k) (count - k)
            ≡ some es')
          × Mapped lo es₁ es' (page + k) (block + k) (count - k))
      → (es' : List Extent) × (add_emap_loop (suc fuel) tblocks es page block count ≡ some es')
        × Mapped lo es es' page block count
  unfolding Mapped
  add_rest fuel lo es es₁ page block count k pg d c kl e run s m (es₂, go, rest) = (
    es₂,
    add_round fuel es es₁ es₂ page block count k pg d c kl e run go,
    Mapped-trans lo es es₁ es₂ page block k count kl (s, m) rest,
  )

  add_emap_loop-Mapped :
      (fuel lo : ℕ) (es : List Extent) (page block count : ℕ)
      → count ≤ fuel
      → page + count ≤ 2 ^ 52
      → 0 < block
      → block + count ≤ tblocks
      → lo ≤ page
      → IsEmapList tblocks lo es
      → Unmapped page count es
      → (es' : List Extent) × (add_emap_loop fuel tblocks es page block count ≡ some es')
        × Mapped lo es es' page block count
  unfolding add_emap_loop Mapped
  add_emap_loop-Mapped zero lo es page block count f pg b d l s u =
      (es, ground arith, (s, λ x. ground arith))
  add_emap_loop-Mapped (suc fuel) lo es page block count f pg b d l s u =
      elim (Bool-cases (count == 0)) [
        | inl z ↦ (es, ground arith, (s, λ x. ground arith))
        | inr nz ↦
            let k : ℕ = if ltb emap_max count then emap_max else count in
            let k-pos : 0 < k = ground arith in
            let k-le : k ≤ count = ground arith in
            let (es₁, run, s₁, m) =
              add_extent-emap tblocks lo page block k es tb k-pos (ground arith) (omega arith) b
                (omega arith) l s (λ x w. u x (ground arith)) in
            add_rest fuel lo es es₁ page block count k pg d nz k-le refl run s₁ m (
              add_emap_loop-Mapped fuel lo es₁ (page + k) (block + k) (count - k) (omega arith)
                (omega arith) (omega arith) (omega arith) (omega arith) s₁
                (λ x w. ground (arith, m x, u x)))
      ]

  -- The run of pages is unmapped, its blocks joined the freed ones, and the rest is as before.
  unfoldable Unmaps :
      (lo : ℕ) → (es es' freed freed' : List Extent) → (page block count : ℕ) → Type 0
  Unmaps lo es es' freed freed' page block count =
      IsEmapList tblocks lo es'
      × IsSpaceBag tblocks freed'
      × ((x : ℕ) → maps es' x ≡ (if within page count x then none else maps es x))
      × ((x : ℕ) → covers freed' x ≡ (within block count x || covers freed x))
      × (total freed' ≡ count + total freed)

  -- The run maps to the blocks.
  abbrev Runs : List Extent → (page block count : ℕ) → Type 0
  Runs es page block count =
      (x : ℕ) → within page count x ≡ true → maps es x ≡ some (block + (x - page))

  remove_round :
      (fuel : ℕ) (es es₁ freed freed₁ : List Extent) (r : Option (List Extent × List Extent))
      (page block count k : ℕ)
      → page + count ≤ 2 ^ 52
      → 0 < block
      → block + count ≤ tblocks
      → (count == 0) ≡ false
      → 0 < k
      → k ≤ count
      → remove_extent tblocks es page count ≡ some (k, es₁)
      → add_extent tblocks freed block 0 k false ≡ some freed₁
      → remove_runs fuel tblocks es₁ (page + k) (block + k) (count - k) freed₁ ≡ r
      → remove_runs (suc fuel) tblocks es page block count freed ≡ r
  unfolding remove_runs add_space_extent
  remove_round fuel es es₁ freed freed₁ r page block count k pg b d c kp kl run add go =
      let same : add64 page k ≡ page + k = ground arith in
      let same' : add64 block k ≡ block + k = ground arith in
      let t₁ : ltb 0 k ≡ true = ground arith in
      let t₂ : leb k count ≡ true = ground arith in
      let t₃ : ltb 0 block ≡ true = ground arith in
      let t₄ : (block == invalid_block) ≡ false = ground arith in
      rw c (rw run (rw (t₁, t₂, t₃, t₄) (rw add (rw (same, same') go))))

  remove_rest :
      (fuel lo : ℕ) (es es₁ freed freed₁ : List Extent) (page block count k : ℕ)
      → page + count ≤ 2 ^ 52
      → 0 < block
      → block + count ≤ tblocks
      → (count == 0) ≡ false
      → 0 < k
      → k ≤ count
      → remove_extent tblocks es page count ≡ some (k, es₁)
      → add_extent tblocks freed block 0 k false ≡ some freed₁
      → ((x : ℕ) → maps es₁ x ≡ (if within page k x then none else maps es x))
      → ((x : ℕ) → covers freed₁ x ≡ (within block k x || covers freed x))
      → (total freed₁ ≡ k + total freed)
      → ((es' : List Extent) × (freed' : List Extent) × (remove_runs fuel tblocks es₁
              (page + k)
              (block + k)
              (count - k)
              freed₁
            ≡ some (es', freed'))
          × Unmaps lo es₁ es' freed₁ freed' (page + k) (block + k) (count - k))
      → (es' : List Extent) × (freed' : List Extent) × (remove_runs
            (suc fuel)
            tblocks
            es
            page
            block
            count
            freed
          ≡ some (es', freed'))
        × Unmaps lo es es' freed freed' page block count
  unfolding Unmaps
  remove_rest fuel lo es es₁ freed freed₁ page block count k pg b d c kp kl run add m v t
        (es', freed', go, (s, bag, m', v', t')) =
      (
        es',
        freed',
        remove_round fuel es es₁ freed freed₁ (some (es', freed')) page block count k pg b d c kp kl
            run add go,
        (s, bag, λ x. ground (arith, m x, m' x), λ x. ground (arith, v x, v' x), omega arith),
      )

  remove_runs-Unmaps :
      (fuel lo : ℕ) (es freed : List Extent) (page block count : ℕ)
      → count ≤ fuel
      → page + count ≤ 2 ^ 52
      → 0 < block
      → block + count ≤ tblocks
      → IsEmapList tblocks lo es
      → IsSpaceBag tblocks freed
      → Runs es page block count
      → (es' : List Extent) × (freed' : List Extent) × (remove_runs fuel tblocks es page block count
            freed
          ≡ some (es', freed'))
        × Unmaps lo es es' freed freed' page block count
  unfolding remove_runs Unmaps
  remove_runs-Unmaps zero lo es freed page block count f pg b d s bag r =
      (es, freed, ground arith, (s, bag, λ x. ground arith, λ x. ground arith, omega arith))
  remove_runs-Unmaps (suc fuel) lo es freed page block count f pg b d s bag r =
      elim (Bool-cases (count == 0)) [
        | inl z ↦
            (es, freed, ground arith, (s, bag, λ x. ground arith, λ x. ground arith, ground arith))
        | inr nz ↦
            let at_page : maps es page ≡ some block = ground (arith, r page) in
            let (k, es₁, run, kp, kl, whole, s₁, before, m) =
              remove_extent-emap tblocks lo page count block es tb (ground arith) s at_page in
            let (freed₁, add, bag₁, apart, v, t) =
              add_extent-unsorted tblocks block k freed tb b kp (omega arith) bag in
            remove_rest fuel lo es es₁ freed freed₁ page block count k pg b d nz kp kl run add m v t
              (remove_runs-Unmaps fuel lo es₁ freed₁ (page + k) (block + k) (count - k)
                (omega arith) (omega arith) (omega arith) (omega arith) s₁ bag₁
                (λ x w. ground (arith, r x, m x)))
      ]

-- Adding a run of pages of any length that are not mapped to an ordered emap stops at no `assert`
-- and ends; afterwards the emap is in order, exactly those pages are mapped anew, each to its
-- block, and the other pages as before. The pages are below 2^52, the blocks on the device, of fewer
-- than 2^48 blocks.
pub add_emap_extent-Mapped :
    (tblocks lo : ℕ) (es : List Extent) (page block count : ℕ)
    → tblocks < 2 ^ 48
    → page + count ≤ 2 ^ 52
    → 0 < block
    → block + count ≤ tblocks
    → lo ≤ page
    → IsEmapList tblocks lo es
    → Unmapped page count es
    → (es' : List Extent) × (add_emap_extent tblocks es page block count ≡ some es')
      × IsEmapList tblocks lo es'
      × ((x : ℕ)
          → maps es' x ≡ (if within page count x then some (block + (x - page)) else maps es x))
unfolding add_emap_extent Mapped
add_emap_extent-Mapped tblocks lo es page block count tb pg b d l s u =
    let (es', run, (s', m)) =
      add_emap_loop-Mapped tblocks tb count lo es page block count (omega arith) pg b d l s u in
    (es', run, s', m)

-- On a device of fewer than 2^48 blocks, removing from an ordered emap a run of pages below 2^52
-- that maps to a run of blocks of the device, over one extent or several, stops at no `assert` and
-- ends; afterwards the emap is in order, exactly those pages are unmapped, and the list of freed
-- blocks, an unordered list of extents of the device, covers exactly those blocks and the ones it
-- covered before, and its counts sum up to that many more.
pub remove_inode_extents-maps :
    (tblocks lo : ℕ) (inode : Inode) (freed : List Extent) (page block count : ℕ)
    → tblocks < 2 ^ 48
    → page + count ≤ 2 ^ 52
    → 0 < block
    → block + count ≤ tblocks
    → IsEmapList tblocks lo inode.emap_list
    → IsSpaceBag tblocks freed
    → ((x : ℕ) → within page count x ≡ true → maps inode.emap_list x ≡ some (block + (x - page)))
    → (es' : List Extent) × (freed' : List Extent) × (remove_inode_extents tblocks inode page block
          count freed
        ≡ some (record inode { emap_list = es' }, freed'))
      × IsEmapList tblocks lo es'
      × IsSpaceBag tblocks freed'
      × ((x : ℕ) → maps es' x ≡ (if within page count x then none else maps inode.emap_list x))
      × ((x : ℕ) → covers freed' x ≡ (within block count x || covers freed x))
      × (total freed' ≡ count + total freed)
unfolding remove_inode_extents Unmaps
remove_inode_extents-maps tblocks lo inode freed page block count tb pg b d s bag r =
    let (es', freed', run, (s', bag', m, v, t)) =
      remove_runs-Unmaps tblocks tb count lo inode.emap_list freed page block count (omega arith) pg
        b d s bag r in
    (es', freed', rw run refl, s', bag', m, v, t)

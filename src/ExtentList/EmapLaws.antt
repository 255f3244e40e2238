-- ===== src/ExtentList/EmapLaws.antt =====
-- The emap of a file under insertion and removal: which pages map to which blocks.
use lcfs.Prelude.{
  ℕ, ◌+◌, ◌-◌, ◌≤◌, ◌<◌, ◌^◌, ◌≡◌, refl, true, ltb, leb, Option, List, [], ◌∷◌, arith, none, some,
  inl, inr, Bool-cases, ◌==◌, if◌then◌else◌,
}
use lcfs.Extent.{Extent, emap, emap_max}
use lcfs.Extent.Fits.{drop_front, make}
use lcfs.ExtentList.{add_extent, remove_extent}
use lcfs.ExtentList.Cut.{cut, back}
use lcfs.ExtentList.Remove.{overlap, freed, remove, remove_extent-remove, freed-le}
use lcfs.ExtentList.View.{
  within, maps, IsEmapList, maps-below, IsEmapList-weaken, IsEmapList-AllFit,
}
use lcfs.ExtentList.EmapInsert.{
  follows, join_emap, insert_emap, Unmapped, Unmapped-cons, IsEmapList-after, add_loop-insert_emap,
}

maps-join_emap : (e : Extent) (es : List Extent) (x : ℕ) → maps (join_emap e es) x ≡ maps (e ∷ es) x
unfolding maps join_emap
maps-join_emap e [] x = refl
maps-join_emap e (n ∷ es) x = ground arith

maps-insert_emap :
    (tblocks lo start block count : ℕ) (es : List Extent) (x : ℕ)
    → 0 < count
    → IsEmapList tblocks lo es
    → Unmapped start count es
    → maps (insert_emap start block count es) x
      ≡ (if within start count x then some (block + (x - start)) else maps es x)
unfolding maps insert_emap
maps-insert_emap tblocks lo start block count [] x c s a = refl
maps-insert_emap tblocks lo start block count (e ∷ es) x c s a =
    let (side, rest) = Unmapped-cons start count e es c s.2 a in
    ground (
      arith,
      side,
      maps-insert_emap tblocks (e.ex_start + e.ex_count) start block count es x c s.7 rest,
      maps-join_emap (record e { ex_count = e.ex_count + count }) es x,
    )

maps-cut :
    (e : Extent) (start k x : ℕ) (es : List Extent)
    → e.ex_type ≡ emap
    → e.ex_start ≤ start
    → start + k ≤ e.ex_start + e.ex_count
    → 0 < k
    → (within start k x ≡ true → maps es x ≡ none)
    → maps (cut e start k es) x ≡ (if within start k x then none else maps (e ∷ es) x)
unfolding maps cut drop_front back make
maps-cut e start k x es t l h p away = ground arith

maps-remove :
    (tblocks lo : ℕ) (es : List Extent) (start count x : ℕ)
    → 0 < count
    → IsEmapList tblocks lo es
    → maps (remove es start count) x
      ≡ (if within start (freed es start count) x then none else maps es x)
unfolding maps remove freed
maps-remove tblocks lo [] start count x c s = ground arith
maps-remove tblocks lo (e ∷ es) start count x c s = ground (
  arith,
  maps-remove tblocks (e.ex_start + e.ex_count) es start count x c s.7,
  maps-cut e start (overlap e start count) x es s.0,
  maps-below tblocks (e.ex_start + e.ex_count) x es s.7,
)

module _ (tblocks start block count : ℕ) (c : 0 < count) (small : count ≤ emap_max)
    (page : start + count ≤ 2 ^ 52) (bl : 0 < block) (b : block + count ≤ tblocks) where
  join_emap-IsEmapList :
      (lo : ℕ) (e : Extent) (es : List Extent)
      → IsEmapList tblocks lo (e ∷ es)
      → IsEmapList tblocks lo (join_emap e es)
  unfolding join_emap
  join_emap-IsEmapList lo e [] s = s
  join_emap-IsEmapList lo e (n ∷ es) s = ground arith

  insert_emap-IsEmapList :
      (lo : ℕ) (es : List Extent)
      → lo ≤ start
      → IsEmapList tblocks lo es
      → Unmapped start count es
      → IsEmapList tblocks lo (insert_emap start block count es)
  unfolding insert_emap
  insert_emap-IsEmapList lo [] l s a = (refl, l, c, small, page, bl, b, tt)
  insert_emap-IsEmapList lo (e ∷ es) l s a =
      let (side, rest) = Unmapped-cons start count e es c s.2 a in
      elim side [
        | inl before ↦
            elim (Bool-cases (follows e.ex_start e.ex_block e.ex_count start block count)) [
              | inl never ↦ absurd (ground arith)
              | inr apart ↦ ground arith
            ]
        | inr behind ↦
            elim (Bool-cases (follows e.ex_start e.ex_block e.ex_count start block count)) [
              | inl touch ↦
                  let after =
                    IsEmapList-after tblocks (e.ex_start + e.ex_count) start count
                      (e.ex_start + (e.ex_count + count)) es c (ground arith) (ground arith) s.7
                      rest in
                  rw touch (
                    join_emap-IsEmapList lo (record e { ex_count = e.ex_count + count }) es
                      (s.0, s.1, omega arith, ground arith, ground arith, s.5, ground arith, after))
              | inr apart ↦ elim (Bool-cases (e.ex_start + e.ex_count == start)) [
                | inl next ↦
                    let after =
                      IsEmapList-after tblocks (e.ex_start + e.ex_count) start count (start + count)
                        es c (ground arith) (omega arith) s.7 rest in
                    ground arith
                | inr far ↦
                    let ih = insert_emap-IsEmapList (e.ex_start + e.ex_count) es behind s.7 rest in
                    ground arith
              ]
            ]
      ]

cut-IsEmapList :
    (tblocks lo : ℕ) (e : Extent) (es : List Extent) (start k : ℕ)
    → 0 < k
    → e.ex_start ≤ start
    → start + k ≤ e.ex_start + e.ex_count
    → IsEmapList tblocks lo (e ∷ es)
    → IsEmapList tblocks lo (cut e start k es)
unfolding cut drop_front back make
cut-IsEmapList tblocks lo e es start k c l h s =
    let rest = λ (hi : ℕ) (m : hi ≤ e.ex_start + e.ex_count).
      IsEmapList-weaken tblocks (e.ex_start + e.ex_count) hi es s.7 m in
    let whole = rest lo (omega arith) in
    elim (Bool-cases (e.ex_start == start)) [
      | inl front ↦ elim (Bool-cases (e.ex_count == k)) [
        | inl all ↦ rw (front, all) whole
        | inr part ↦
            let after = rest (e.ex_start + k + (e.ex_count - k)) (ground arith) in ground arith
      ]
      | inr later ↦ elim (Bool-cases (start + k == e.ex_start + e.ex_count)) [
        | inl end ↦ let after = rest (e.ex_start + (e.ex_count - k)) (omega arith) in ground arith
        | inr middle ↦
            let after = rest (start + k + (e.ex_start + e.ex_count - (start + k))) (ground arith) in
            ground arith
      ]
    ]

remove-IsEmapList :
    (tblocks lo : ℕ) (es : List Extent) (start count : ℕ)
    → 0 < count
    → IsEmapList tblocks lo es
    → IsEmapList tblocks lo (remove es start count)
unfolding remove
remove-IsEmapList tblocks lo [] start count c s = tt
remove-IsEmapList tblocks lo (e ∷ es) start count c s = ground (
  arith,
  remove-IsEmapList tblocks (e.ex_start + e.ex_count) es start count c s.7,
  cut-IsEmapList tblocks lo e es start (overlap e start count),
)

-- The pages that are taken off were mapped in one run.
maps-freed :
    (tblocks lo : ℕ) (es : List Extent) (start count x b : ℕ)
    → IsEmapList tblocks lo es
    → within start (freed es start count) x ≡ true
    → maps es start ≡ some b
    → maps es x ≡ some (b + (x - start))
unfolding maps freed
maps-freed tblocks lo [] start count x b s w m = ground arith
maps-freed tblocks lo (e ∷ es) start count x b s w m =
    ground (arith, maps-freed tblocks (e.ex_start + e.ex_count) es start count x b s.7)

freed-pos :
    (tblocks lo : ℕ) (es : List Extent) (start count b : ℕ)
    → 0 < count
    → IsEmapList tblocks lo es
    → maps es start ≡ some b
    → 0 < freed es start count
unfolding maps freed
freed-pos tblocks lo [] start count b c s m = ground arith
freed-pos tblocks lo (e ∷ es) start count b c s m = ground (
  arith,
  freed-pos tblocks (e.ex_start + e.ex_count) es start count b c s.7,
  maps-below tblocks (e.ex_start + e.ex_count) start es s.7,
)

-- The extent of an emap that holds a page
abbrev pub extent_at : List Extent → (page : ℕ) → Option Extent
extent_at [] page = none
extent_at (e ∷ es) page = if within e.ex_start e.ex_count page then some e else extent_at es page

freed-extent :
    (tblocks lo : ℕ) (es : List Extent) (start count b : ℕ)
    → IsEmapList tblocks lo es
    → maps es start ≡ some b
    → (e : Extent) × (extent_at es start ≡ some e)
      × (freed es start count ≡ (
          if leb (start + count) (e.ex_start + e.ex_count)
          then count
          else e.ex_start + e.ex_count - start))
unfolding maps freed
freed-extent tblocks lo [] start count b s m = absurd (ground arith)
freed-extent tblocks lo (e ∷ es) start count b s m =
    let hi : ℕ = e.ex_start + e.ex_count in
    elim (Bool-cases (ltb start hi)) [
      | inl near ↦ elim (Bool-cases (ltb start e.ex_start)) [
        | inl before ↦ absurd (ground (arith, maps-below tblocks hi start es s.7))
        | inr here ↦ (e, ground arith, ground arith)
      ]
      | inr past ↦
          let (found, at, size) = freed-extent tblocks hi es start count b s.7 (ground arith) in
          (found, ground (arith, at), ground (arith, size))
    ]

-- On a device of fewer than 2^48 blocks, adding to an ordered emap a run of 1 to 65535 pages below
-- 2^52, none of them mapped, with blocks of the device, stops at no `assert`; afterwards exactly
-- those pages are mapped anew, each to its block, the others as before, and the emap is in order.
pub add_extent-emap :
    (tblocks lo start block count : ℕ) (es : List Extent)
    → tblocks < 2 ^ 48
    → 0 < count
    → count ≤ emap_max
    → start + count ≤ 2 ^ 52
    → 0 < block
    → block + count ≤ tblocks
    → lo ≤ start
    → IsEmapList tblocks lo es
    → Unmapped start count es
    → (es' : List Extent) × (add_extent tblocks es start block count true ≡ some es')
      × IsEmapList tblocks lo es'
      × ((x : ℕ)
          → maps es' x ≡ (if within start count x then some (block + (x - start)) else maps es x))
unfolding add_extent
add_extent-emap tblocks lo start block count es tb c small page bl b l s a =
    let added = add_loop-insert_emap tblocks start block count tb c small page bl b lo es s a in
    (
      insert_emap start block count es,
      ground (arith, added),
      insert_emap-IsEmapList tblocks start block count c small page bl b lo es l s a,
      λ x. maps-insert_emap tblocks lo start block count es x c s a,
    )

-- On a device of fewer than 2^48 blocks, removing from an ordered emap a run of at least one page
-- whose first page maps to the block `b` stops at no `assert`. Some extent of the emap holds the
-- first page, and the run is unmapped up to its own end or the end of this extent, whichever comes
-- first: `f` pages, at least one, which mapped to the blocks from `b`. All other pages map as
-- before, and the emap is in order.
pub remove_extent-emap :
    (tblocks lo start count b : ℕ) (es : List Extent)
    → tblocks < 2 ^ 48
    → 0 < count
    → IsEmapList tblocks lo es
    → maps es start ≡ some b
    → (f : ℕ) × (es' : List Extent) × (remove_extent tblocks es start count ≡ some (f, es'))
      × (0 < f)
      × (f ≤ count)
      × ((e : Extent) × (extent_at es start ≡ some e)
          × (f ≡ (
              if leb (start + count) (e.ex_start + e.ex_count)
              then count
              else e.ex_start + e.ex_count - start)))
      × IsEmapList tblocks lo es'
      × ((x : ℕ) → within start f x ≡ true → maps es x ≡ some (b + (x - start)))
      × ((x : ℕ) → maps es' x ≡ (if within start f x then none else maps es x))
remove_extent-emap tblocks lo start count b es tb c s m = (
  freed es start count,
  remove es start count,
  remove_extent-remove tblocks start count es tb c (IsEmapList-AllFit tblocks lo es s),
  freed-pos tblocks lo es start count b c s m,
  freed-le es start count,
  freed-extent tblocks lo es start count b s m,
  remove-IsEmapList tblocks lo es start count c s,
  λ x w. maps-freed tblocks lo es start count x b s w m,
  λ x. maps-remove tblocks lo es start count x c s,
)

-- ===== src/Chain.antt =====
-- Chains of metadata blocks on the device: what the flushes of directories, extended attributes,
-- emaps and lists of extents (lcfs/dir.c, xattr.c, emap.c, block.c) have in common.
-- A page holds the entries that were copied to it, in order; the rest of it is zeros. `Store` is the
-- device as the pages that are written back reach it. Magic numbers and checksums are not modelled.
pub mod Pack
pub mod Link
pub mod Flush
use lcfs.Prelude.{
  ℕ, zero, suc, ◌-◌, Bool, true, false, ◌||◌, Option, none, some, List, [], ◌∷◌, ltb, leb, ◌==◌,
  if◌then◌else◌, assert, ◌>>=◌, ◌>>◌,
}
use lcfs.Prelude.Words.{add64, sub64}
use lcfs.Block.{invalid_block}

pub record Page {ℓ} (A : Type ℓ) : Type ℓ where
  pub next : ℕ
  pub entries : List A

abbrev pub Store {ℓ} : Type ℓ → Type ℓ
Store A = ℕ → Option (Page A)

abbrev pub write {ℓ} : {A : Type ℓ} → Store A → (block : ℕ) → Page A → Store A
write st block p b = if b == block then some p else st b

-- The loop that copies the entries to pages of `cap` bytes, of which `remain` are left in the page
-- at hand: what goes to that page, and the further pages. An entry that does not fit in a page would
-- be written past its end, which is `none`.
module _ {ℓ} {A : Type ℓ} (size : A → ℕ) (cap : ℕ) where
  unfoldable pub pack : (remain : ℕ) → List A → Option (List A × List (List A))
  pack remain [] = some ([], [])
  pack remain (x ∷ xs) =
      let fits = leb (size x) remain in
      let packed = pack ((if fits then remain else cap) - size x) xs in
      assert (fits || leb (size x) cap)
      >> (packed >>= λ (here, pages).
          some (if fits then (x ∷ here, pages) else ([], (x ∷ here) ∷ pages)))

-- The loop that gives `count` pages their blocks, the last page first, and links each to the next.
unfoldable pub link_pages {ℓ} :
    {A : Type ℓ} → (first : Bool) → (block count : ℕ) → List (List A) → Store A → Option (Store A)
link_pages first block count [] st = assert (count == 0) >> some st
link_pages first block count (p ∷ ps) st =
    let c = sub64 count 1 in
    let next = if first then invalid_block else add64 (add64 block c) 1 in
    link_pages false block c ps (write st (add64 block c) (record { next = next; entries = p }))

-- The loop that reads a chain. It does not end on a chain with a cycle, so it takes fuel.
unfoldable pub read_chain {ℓ κ} :
    {A : Type ℓ} {S : Type κ}
    → (fuel : ℕ) → Store A
    → (block : ℕ) → (S → ℕ → List A → Option S)
    → S
    → Option S
read_chain zero st block f s = if block == invalid_block then some s else none
read_chain (suc fuel) st block f s =
    if block == invalid_block
    then some s
    else (st block >>= λ p. f s block p.entries >>= λ s'. read_chain fuel st p.next f s')

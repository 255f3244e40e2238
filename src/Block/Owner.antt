-- ===== src/Block/Owner.antt =====
-- Who holds a block: the abstract view of the allocator, and its invariant.
use lcfs.Prelude.{
  ℕ, ◌+◌, ◌<◌, ◌≡◌, ◌≢◌, refl, ◌∙◌, ap, inl, inr, Bool-cases, Bool, true, false, not, ◌&&◌, ◌||◌,
  List, ◌==◌, arith, if◌then◌else◌,
}
use lcfs.Extent.{Extent}
use lcfs.ExtentList.View.{within, covers, total, IsSpaceList, IsSpaceBag, NoOverlap}
use lcfs.Block.{Fs, State, invalid_block}

-- The lists: free blocks, freed ones that wait for a commit, and a layer's reserve and allocations.
pub data Place : Type 0 where
  free deferred : Place
  reserved allocated : ℕ → Place

abbrev pub list_at : State → Place → List Extent
list_at s free = s.extents
list_at s deferred = s.fextents
list_at s (reserved i) = (s.fs i).extents
list_at s (allocated i) = (s.fs i).aextents

abbrev pub holds : State → Place → ℕ → Bool
holds s p x = covers (list_at s p) x

pub record IsLayer (tblocks : ℕ) (f : Fs) : Type 0 where
  pub bag : IsSpaceBag tblocks f.extents
  pub apart : NoOverlap f.extents
  pub reserve : total f.extents ≡ f.reserved_blocks
  pub ordered : IsSpaceList tblocks 1 f.aextents

-- No block is held at two places.
abbrev pub Exclusive : State → Type 0
Exclusive s = (p q : Place) → p ≢ q → (x : ℕ) → holds s p x ≡ true → holds s q x ≡ false

-- The lists are sound, no block is held twice, and the free blocks, those that wait and those in
-- use add up to the device.
pub record IsSound (s : State) : Type 0 where
  pub bound : s.tblocks < invalid_block
  pub free_list : IsSpaceList s.tblocks 1 s.extents
  pub deferred_list : IsSpaceList s.tblocks 1 s.fextents
  pub layers : (i : ℕ) → IsLayer s.tblocks (s.fs i)
  pub balance : total s.extents + total s.fextents + s.sb_blocks ≡ s.tblocks
  pub exclusive : Exclusive s

-- The part of a layer that is neither a place of blocks nor a count of those: the list of the blocks
-- that it freed, how many it freed, its flags and its extents on the device
abbrev pub rest_of : Fs → List Extent × ℕ × Bool × Bool × ℕ × ℕ
rest_of f = (f.fextents, f.freed, f.dirty, f.frozen, f.sb_extent_block, f.sb_extent_count)

abbrev pub KeepsRest : State → State → Type 0
KeepsRest s s' = (j : ℕ) → rest_of (s'.fs j) ≡ rest_of (s.fs j)

pub KeepsRest-trans : (s t u : State) → KeepsRest s t → KeepsRest t u → KeepsRest s u
KeepsRest-trans s t u a b j = b j ∙ a j

-- Nothing holds a block of the range.
abbrev pub Unheld : State → (start count : ℕ) → Type 0
Unheld s start count = (p : Place) (x : ℕ) → within start count x ≡ true → holds s p x ≡ false

abbrev pub same_place : Place → Place → Bool
same_place free free = true
same_place deferred deferred = true
same_place (reserved i) (reserved j) = i == j
same_place (allocated i) (allocated j) = i == j
same_place _ _ = false

pub same_place-eq : (p q : Place) → same_place p q ≡ true → p ≡ q
same_place-eq free free h = refl
same_place-eq deferred deferred h = refl
same_place-eq (reserved i) (reserved j) h = ground arith
same_place-eq (allocated i) (allocated j) h = ground arith
same_place-eq _ _ h = cc

same_place_refl : (p : Place) → same_place p p ≡ true
same_place_refl free = refl
same_place_refl deferred = refl
same_place_refl (reserved i) = ground arith
same_place_refl (allocated i) = ground arith

pub same_place-ne : (p q : Place) → same_place p q ≡ false → p ≢ q
same_place-ne p q h e = cc (same_place_refl p, ap (same_place p) e)

-- `s'` holds what `s` does, but that the range left `p`.
abbrev pub Takes : State → State → Place → (start count : ℕ) → Type 0
Takes s s' p start count =
    (r : Place) (x : ℕ)
    → holds s' r x
      ≡ (if same_place p r then holds s r x && not (within start count x) else holds s r x)

-- `s'` holds what `s` does, and the range at `p` too.
abbrev pub Gives : State → State → Place → (start count : ℕ) → Type 0
Gives s s' p start count =
    (r : Place) (x : ℕ)
    → holds s' r x ≡ (if same_place p r then within start count x || holds s r x else holds s r x)

module _ (s s' : State) (p : Place) (start count : ℕ) where
  pub Takes-Exclusive : Takes s s' p start count → Exclusive s → Exclusive s'
  Takes-Exclusive t e q r ne x h = ground (arith, t q x, t r x, e q r ne x)

  pub Takes-Unheld :
      Takes s s' p start count
      → Exclusive s
      → ((x : ℕ) → within start count x ≡ true → holds s p x ≡ true)
      → Unheld s' start count
  Takes-Unheld t e inside r x w = elim (Bool-cases (same_place p r)) [
    | inl same ↦ ground (arith, t r x)
    | inr other ↦ let away = e p r (same_place-ne p r other) x (inside x w) in ground (arith, t r x)
  ]

  pub Gives-Exclusive : Gives s s' p start count → Unheld s start count → Exclusive s → Exclusive s'
  Gives-Exclusive g u e q r ne x h =
      ground (arith, g q x, g r x, u q x, u r x, e q r ne x, same_place-eq p q, same_place-eq p r)

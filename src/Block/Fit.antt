-- ===== src/Block/Fit.antt =====
-- The first fit in a list of free extents, as a plain function.
use mathlib.Core.Option
use lcfs.Prelude.{
  ℕ, ◌+◌, ◌-◌, ◌≤◌, ◌<◌, ◌^◌, ◌≡◌, refl, true, not, ◌&&◌, List, [], ◌∷◌, leb, ◌==◌, arith, Option,
  none, some, if◌then◌else◌, Bool-cases, inl, inr,
}
use lcfs.Extent.{Extent}
use lcfs.Extent.Fits.{drop_front, decr_count_all, decr_count-eq_some, incr_start-none-eq_some}
use lcfs.ExtentList.View.{
  within, covers, total, IsSpaceList, IsSpaceBag, NoOverlap, AllFit, IsSpaceList-weaken,
}
use lcfs.Block.{first_fit}

-- The start of the first extent of at least `count` blocks, if there is one, and what is left of
-- the list when its first `count` blocks are gone.
unfoldable pub fit_start : List Extent → ℕ → Option ℕ
fit_start [] count = none
fit_start (e ∷ es) count = if leb count e.ex_count then some e.ex_start else fit_start es count

unfoldable pub fit_rest : List Extent → ℕ → List Extent
unfolding drop_front
fit_rest [] count = []
fit_rest (e ∷ es) count =
    if leb count e.ex_count
    then (if e.ex_count == count then es else drop_front e count ∷ es)
    else e ∷ fit_rest es count

pub first_fit-fit :
    (tblocks count : ℕ) (es : List Extent)
    → tblocks < 2 ^ 48
    → 0 < count
    → AllFit tblocks es
    → first_fit tblocks es count
      ≡ some (Option.map (λ block. (block, fit_rest es count)) (fit_start es count))
unfolding first_fit fit_start fit_rest
first_fit-fit tblocks count [] tb c s = refl
first_fit-fit tblocks count (e ∷ es) tb c s = ground (
  arith,
  first_fit-fit tblocks count es tb c s.1,
  decr_count_all tblocks e,
  decr_count-eq_some tblocks e count tb s.0,
  incr_start-none-eq_some tblocks e count tb s.0,
)

module _ (tblocks count block : ℕ) (c : 0 < count) where
  pub fit-within :
      (es : List Extent)
      → fit_start es count ≡ some block
      → IsSpaceBag tblocks es
      → (0 < block) × (block + count ≤ tblocks)
  unfolding fit_start
  fit-within [] f s = ground arith
  fit-within (e ∷ es) f s = ground (arith, fit-within es)

  pub fit-covers :
      (es : List Extent) (x : ℕ)
      → fit_start es count ≡ some block
      → within block count x ≡ true
      → covers es x ≡ true
  unfolding fit_start covers
  fit-covers [] x f w = ground arith
  fit-covers (e ∷ es) x f w = ground (arith, fit-covers es x)

  pub total-fit_rest :
      (es : List Extent)
      → fit_start es count ≡ some block
      → total (fit_rest es count) + count ≡ total es
  unfolding fit_start fit_rest total
  total-fit_rest [] f = ground arith
  total-fit_rest (e ∷ es) f = ground (arith, total-fit_rest es)

  pub covers-fit_rest :
      (es : List Extent) (x : ℕ)
      → fit_start es count ≡ some block
      → NoOverlap es
      → covers (fit_rest es count) x ≡ (covers es x && not (within block count x))
  unfolding fit_start fit_rest covers
  covers-fit_rest [] x f s = ground arith
  covers-fit_rest (e ∷ es) x f s = ground (arith, covers-fit_rest es x, s.0 x, fit-covers es x)

  pub fit_rest-IsSpaceBag :
      (es : List Extent) → IsSpaceBag tblocks es → IsSpaceBag tblocks (fit_rest es count)
  unfolding fit_rest drop_front
  fit_rest-IsSpaceBag [] s = tt
  fit_rest-IsSpaceBag (e ∷ es) s = elim (Bool-cases (leb count e.ex_count)) [
    | inr small ↦ rw small (s.0, s.1, s.2, s.3, fit_rest-IsSpaceBag es s.4)
    | inl large ↦ elim (Bool-cases (e.ex_count == count)) [
      | inl whole ↦ rw (large, whole) s.4
      | inr part ↦ rw (large, part) (s.0, omega arith, ground arith, ground arith, s.4)
    ]
  ]

  pub fit_rest-NoOverlap :
      (es : List Extent)
      → fit_start es count ≡ some block
      → NoOverlap es
      → NoOverlap (fit_rest es count)
  unfolding fit_start fit_rest
  fit_rest-NoOverlap [] f s = tt
  fit_rest-NoOverlap (e ∷ es) f s = elim (Bool-cases (leb count e.ex_count)) [
    | inr small ↦
        let f' : fit_start es count ≡ some block = ground arith in
        rw small (
          λ x w. ground (arith, s.0 x w, covers-fit_rest es x f' s.1),
          fit_rest-NoOverlap es f' s.1,
        )
    | inl large ↦ elim (Bool-cases (e.ex_count == count)) [
      | inl whole ↦ rw (large, whole) s.1
      | inr part ↦ rw (large, part) (λ x w. ground (arith, s.0 x), s.1)
    ]
  ]

  pub fit_rest-IsSpaceList :
      (es : List Extent) (lo : ℕ)
      → IsSpaceList tblocks lo es
      → IsSpaceList tblocks lo (fit_rest es count)
  unfolding fit_rest drop_front
  fit_rest-IsSpaceList [] lo s = tt
  fit_rest-IsSpaceList (e ∷ es) lo s = elim (Bool-cases (leb count e.ex_count)) [
    | inr small ↦
        rw small (s.0, s.1, s.2, s.3, fit_rest-IsSpaceList es (e.ex_start + e.ex_count + 1) s.4)
    | inl large ↦ elim (Bool-cases (e.ex_count == count)) [
      | inl whole ↦
          rw (large, whole)
            (IsSpaceList-weaken tblocks (e.ex_start + e.ex_count + 1) lo es s.4 (omega arith))
      | inr part ↦
          rw (large, part)
            (
              s.0,
              omega arith,
              ground arith,
              ground arith,
              IsSpaceList-weaken tblocks (e.ex_start + e.ex_count + 1)
                  (e.ex_start + count + (e.ex_count - count) + 1) es s.4 (ground arith),
            )
    ]
  ]

-- No extent of the list has `count` blocks.
abbrev pub AllSmaller : (count : ℕ) → List Extent → Type 0
AllSmaller count [] = Unit
AllSmaller count (e ∷ es) = (e.ex_count < count) × AllSmaller count es

pub fit_start-none :
    (count : ℕ) (es : List Extent) → fit_start es count ≡ none → AllSmaller count es
unfolding fit_start
fit_start-none count [] f = tt
fit_start-none count (e ∷ es) f = (ground arith, fit_start-none count es (ground arith))

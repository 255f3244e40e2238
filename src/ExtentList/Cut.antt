-- ===== src/ExtentList/Cut.antt =====
-- Taking a range off one extent, for extents of space and of emaps alike.
use lcfs.Prelude.{
  ℕ, ◌+◌, ◌-◌, ◌≤◌, ◌<◌, ◌^◌, ◌≡◌, inl, inr, List, ◌∷◌, arith, some, ◌==◌, if◌then◌else◌,
  Bool-cases,
}
use lcfs.Extent.{Extent, get_block, init_extent}
use lcfs.Extent.Fits.{
  Fits, drop_front, make, decr_count-eq_some, incr_start-eq_some, decr_count_all,
}
use lcfs.ExtentList.{update_extent}
use lcfs.Prelude.Words.{add64, sub64}

-- What stands behind a range that is taken out of the middle of `e`.
unfoldable pub back : Extent → (start freed : ℕ) → Extent
unfolding make
back e start freed =
    make e.ex_type (start + freed) (e.ex_block + (start - e.ex_start) + freed)
      (e.ex_start + e.ex_count - (start + freed))

-- The extents that are left of `e`, in front of `es`.
unfoldable pub cut : Extent → (start freed : ℕ) → List Extent → List Extent
unfolding drop_front back
cut e start freed es =
    if e.ex_start == start
    then (if e.ex_count == freed then es else drop_front e freed ∷ es)
    else if start + freed == e.ex_start + e.ex_count
    then record e { ex_count = e.ex_count - freed } ∷ es
    else record e { ex_count = start - e.ex_start } ∷ back e start freed ∷ es

module _ (tblocks : ℕ) (e : Extent) (es : List Extent) (start freed : ℕ) (tb : tblocks < 2 ^ 48)
    (fits : Fits tblocks e) (l : e.ex_start ≤ start) (f : 0 < freed)
    (h : start + freed ≤ e.ex_start + e.ex_count) where
  back-Fits : start + freed < e.ex_start + e.ex_count → Fits tblocks (back e start freed)
  unfolding back
  back-Fits m = ground arith

  init_extent-back :
      start + freed < e.ex_start + e.ex_count
      → init_extent
          (some tblocks)
          e.ex_type
          (add64 start freed)
          (add64 (add64 (get_block e) (sub64 start e.ex_start)) freed)
          (sub64 (add64 e.ex_start e.ex_count) (add64 start freed))
        ≡ some (back e start freed)
  unfolding init_extent back make
  init_extent-back m = ground arith

  pub update_extent-cut :
      update_extent tblocks e es e.ex_start e.ex_count start freed ≡ some (cut e start freed es)
  unfolding update_extent cut
  update_extent-cut = elim (Bool-cases (e.ex_start == start)) [
    | inl front ↦ elim (Bool-cases (e.ex_count == freed)) [
      | inl whole ↦ ground (arith, decr_count_all tblocks e)
      | inr part ↦ ground (
        arith,
        decr_count-eq_some tblocks e freed tb fits,
        incr_start-eq_some tblocks e freed tb fits,
      )
    ]
    | inr later ↦ elim (Bool-cases (start + freed == e.ex_start + e.ex_count)) [
      | inl end ↦ ground (arith, decr_count-eq_some tblocks e freed tb fits)
      | inr middle ↦
          let made = init_extent-back (ground arith) in
          let less = decr_count-eq_some tblocks e (e.ex_start + e.ex_count - start) tb fits in
          ground (arith, made, less)
    ]
  ]

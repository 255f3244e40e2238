-- ===== src/ExtentList/EmapInsert.antt =====
-- `lc_addExtent` on the emap of a file, against a plain function.
use lcfs.Prelude.{
  ℕ, ◌+◌, ◌≤◌, ◌<◌, ◌^◌, ◌≡◌, refl, Bool, true, ◌&&◌, List, [], ◌∷◌, ltb, leb, arith, none, some,
  ◌⊎◌, inl, inr, Bool-cases, ◌==◌, if◌then◌else◌,
}
use lcfs.Extent.{Extent, emap, emap_max, incr_count, decr_start, adjacent}
use lcfs.ExtentList.{merge_next, merge_prev, new_extent, add_loop}
use lcfs.ExtentList.View.{within, maps, IsEmapList}

abbrev pub emap_extent : (start block count : ℕ) → Extent
emap_extent start block count = record {
  ex_type = emap;
  ex_start = start;
  ex_count = count;
  ex_block = block;
}

-- Pages and blocks follow one another, and the count of both fits in its field.
abbrev pub follows : (start block count start' block' count' : ℕ) → Bool
follows start block count start' block' count' =
    leb (count' + count) emap_max && (start + count == start' && block + count == block')

unfoldable pub join_emap : Extent → List Extent → List Extent
join_emap e [] = e ∷ []
join_emap e (n ∷ es) =
    if follows e.ex_start e.ex_block e.ex_count n.ex_start n.ex_block n.ex_count
    then record e { ex_count = e.ex_count + n.ex_count } ∷ es
    else e ∷ n ∷ es

unfoldable pub insert_emap : (start block count : ℕ) → List Extent → List Extent
insert_emap start block count [] = emap_extent start block count ∷ []
insert_emap start block count (e ∷ es) =
    if follows e.ex_start e.ex_block e.ex_count start block count
    then join_emap (record e { ex_count = e.ex_count + count }) es
    else if follows start block count e.ex_start e.ex_block e.ex_count
    then record e { ex_start = start; ex_block = block; ex_count = e.ex_count + count } ∷ es
    else if ltb start e.ex_start
    then emap_extent start block count ∷ e ∷ es
    else if e.ex_start + e.ex_count == start
    then e ∷ emap_extent start block count ∷ es
    else e ∷ insert_emap start block count es

-- No page of the range is mapped.
abbrev pub Unmapped : (start count : ℕ) → List Extent → Type 0
Unmapped start count es = (x : ℕ) → within start count x ≡ true → maps es x ≡ none

pub Unmapped-cons :
    (start count : ℕ) (e : Extent) (es : List Extent)
    → 0 < count
    → 0 < e.ex_count
    → Unmapped start count (e ∷ es)
    → ((start + count ≤ e.ex_start) ⊎ (e.ex_start + e.ex_count ≤ start)) × Unmapped start count es
unfolding maps
Unmapped-cons start count e es hc he a =
    (ground (arith, a start, a e.ex_start), λ x h. ground (arith, a x))

pub IsEmapList-after :
    (tblocks lo start count hi : ℕ) (es : List Extent)
    → 0 < count
    → start ≤ lo
    → hi ≤ start + count
    → IsEmapList tblocks lo es
    → Unmapped start count es
    → IsEmapList tblocks hi es
unfolding maps
IsEmapList-after tblocks lo start count hi [] c h k s a = tt
IsEmapList-after tblocks lo start count hi (e ∷ es) c h k s a =
    let side = (Unmapped-cons start count e es c s.2 a).0 in
    (s.0, omega arith, s.2, s.3, s.4, s.5, s.6, s.7)

merge_next-join_emap :
    (tblocks : ℕ) (e : Extent) (es : List Extent)
    → tblocks < 2 ^ 48
    → IsEmapList tblocks e.ex_start (e ∷ es)
    → merge_next tblocks e es ≡ some (join_emap e es)
unfolding merge_next join_emap
merge_next-join_emap tblocks e [] tb s = refl
merge_next-join_emap tblocks e (n ∷ es) tb s = ground arith

adjacent-follows :
    (start block count start' block' count' : ℕ)
    → 0 < block
    → start + count ≤ 2 ^ 52
    → block + count ≤ 2 ^ 52
    → count' ≤ emap_max
    → adjacent start block count start' block' count'
      ≡ some (follows start block count start' block' count')
unfolding adjacent
adjacent-follows start block count start' block' count' p s b c = ground arith

-- The range that is added, and what it finds.
module _ (tblocks start block count : ℕ) (tb : tblocks < 2 ^ 48) (c : 0 < count)
    (small : count ≤ emap_max) (page : start + count ≤ 2 ^ 52) (bl : 0 < block)
    (b : block + count ≤ tblocks) where
  new_extent-emap :
      (lo : ℕ) (es : List Extent)
      → IsEmapList tblocks lo es
      → start + count ≤ lo
      → new_extent start block count es true ≡ some (emap_extent start block count ∷ es)
  unfolding new_extent
  new_extent-emap lo [] s h = ground arith
  new_extent-emap lo (e ∷ es) s h = ground arith

  -- An extent grows at its end.
  incr_count-emap :
      (e : Extent)
      → e.ex_type ≡ emap
      → 0 < e.ex_block
      → e.ex_count + count ≤ emap_max
      → e.ex_block + (e.ex_count + count) ≤ tblocks
      → incr_count (some tblocks) e count ≡ some (record e { ex_count = e.ex_count + count })
  unfolding incr_count
  incr_count-emap e t p m d = ground arith

  -- An extent grows at its front.
  decr_start-emap :
      (e : Extent)
      → e.ex_type ≡ emap
      → start + count ≡ e.ex_start
      → block + count ≡ e.ex_block
      → 0 < e.ex_count
      → decr_start none e count ≡ some (record e { ex_start = start; ex_block = block })
  unfolding decr_start
  decr_start-emap e t p q n = ground arith

  merge_prev-emap :
      (e : Extent)
      → (es : List Extent) → e.ex_type ≡ emap
      → 0 < e.ex_block
      → 0 < e.ex_count
      → e.ex_count ≤ emap_max
      → e.ex_start + e.ex_count ≤ 2 ^ 52
      → merge_prev e es ≡ some (e ∷ es)
  unfolding merge_prev
  merge_prev-emap e es t p n m q = ground arith

  pub add_loop-insert_emap :
      (lo : ℕ) (es : List Extent)
      → IsEmapList tblocks lo es
      → Unmapped start count es
      → add_loop tblocks true start block count es ≡ some (insert_emap start block count es)
  unfolding add_loop insert_emap
  add_loop-insert_emap lo [] s a = new_extent-emap (start + count) [] tt (omega arith)
  add_loop-insert_emap lo (e ∷ es) s a =
      let (side, rest) = Unmapped-cons start count e es c s.2 a in
      let ahead =
        adjacent-follows start block count e.ex_start e.ex_block e.ex_count bl page (omega arith)
          s.3 in
      let behind_it =
        adjacent-follows e.ex_start e.ex_block e.ex_count start block count s.5 s.4 (omega arith)
          small in
      elim side [
        | inl before ↦
            elim (Bool-cases (follows start block count e.ex_start e.ex_block e.ex_count)) [
              | inl touch ↦
                  let e₁ : Extent = record e { ex_start = start; ex_block = block } in
                  let e₂ : Extent = record e₁ { ex_count = e.ex_count + count } in
                  let front = decr_start-emap e s.0 (ground arith) (ground arith) s.2 in
                  let grown = incr_count-emap e₁ s.0 bl (ground arith) (ground arith) in
                  let kept =
                    merge_prev-emap e₂ es s.0 bl (omega arith) (ground arith) (ground arith) in
                  ground (arith, front, grown, kept, ahead)
              | inr apart ↦ ground (
                arith,
                new_extent-emap (start + count) (e ∷ es)
                    (s.0, before, s.2, s.3, s.4, s.5, s.6, s.7),
                ahead,
                behind_it,
              )
            ]
        | inr behind ↦
            elim (Bool-cases (follows e.ex_start e.ex_block e.ex_count start block count)) [
              | inl touch ↦
                  let e' : Extent = record e { ex_count = e.ex_count + count } in
                  let after =
                    IsEmapList-after tblocks (e.ex_start + e.ex_count) start count
                      (e'.ex_start + e'.ex_count) es c (ground arith) (ground arith) s.7 rest in
                  let merged = merge_next-join_emap tblocks e' es tb (
                    s.0,
                    omega arith,
                    omega arith,
                    ground arith,
                    ground arith,
                    s.5,
                    ground arith,
                    after,
                  ) in
                  ground (arith, merged, behind_it, incr_count-emap e s.0 s.5)
              | inr apart ↦ elim (Bool-cases (e.ex_start + e.ex_count == start)) [
                | inl next ↦
                    let after =
                      IsEmapList-after tblocks (e.ex_start + e.ex_count) start count (start + count)
                        es c (ground arith) (omega arith) s.7 rest in
                    ground (arith, new_extent-emap (start + count) es after, ahead, behind_it)
                | inr far ↦ ground (
                  arith,
                  add_loop-insert_emap (e.ex_start + e.ex_count) es s.7 rest,
                  ahead,
                  behind_it,
                )
              ]
            ]
      ]

-- ===== src/ExtentList/Insert.antt =====
-- `lc_addExtent` with `sort` set against a plain function, for a list of space in order.
use lcfs.Prelude.{
  ℕ, ◌+◌, ◌≤◌, ◌<◌, ◌^◌, ◌≡◌, refl, true, ◌||◌, List, [], ◌∷◌, ltb, arith, none, some, inl, inr,
  Bool-cases, ◌==◌, if◌then◌else◌,
}
use lcfs.Extent.{Extent, space, incr_count, decr_start, adjacent}
use lcfs.ExtentList.{merge_next, merge_prev, new_extent, add_loop, add_extent}
use lcfs.ExtentList.View.{
  within, covers, total, IsSpaceList, Apart, covers-below, Apart-cons, IsSpaceList-after,
}

abbrev pub space_extent : ℕ → ℕ → Extent
space_extent start count = record {
  ex_type = space;
  ex_start = start;
  ex_count = count;
  ex_block = 0;
}

unfoldable pub join_next : Extent → List Extent → List Extent
join_next e [] = e ∷ []
join_next e (n ∷ es) =
    if e.ex_start + e.ex_count == n.ex_start
    then record e { ex_count = e.ex_count + n.ex_count } ∷ es
    else e ∷ n ∷ es

unfoldable pub insert : (start count : ℕ) → List Extent → List Extent
unfolding join_next
insert start count [] = space_extent start count ∷ []
insert start count (e ∷ es) =
    if e.ex_start + e.ex_count == start
    then join_next (record e { ex_count = e.ex_count + count }) es
    else if start + count == e.ex_start
    then record e { ex_start = start; ex_count = e.ex_count + count } ∷ es
    else if ltb start e.ex_start
    then space_extent start count ∷ e ∷ es
    else e ∷ insert start count es

merge_next-join_next :
    (tblocks : ℕ) (e : Extent) (es : List Extent)
    → tblocks < 2 ^ 48
    → e.ex_type ≡ space
    → 0 < e.ex_count
    → e.ex_start + e.ex_count ≤ tblocks
    → IsSpaceList tblocks (e.ex_start + e.ex_count) es
    → merge_next tblocks e es ≡ some (join_next e es)
unfolding merge_next join_next
merge_next-join_next tblocks e [] tb t c b s = refl
merge_next-join_next tblocks e (n ∷ es) tb t c b s = ground arith

pub add_loop-insert :
    (tblocks lo start count : ℕ) (es : List Extent)
    → tblocks < 2 ^ 48
    → 0 < count
    → start + count ≤ tblocks
    → IsSpaceList tblocks lo es
    → Apart start count es
    → add_loop tblocks true start 0 count es ≡ some (insert start count es)
unfolding add_loop merge_prev new_extent incr_count decr_start adjacent insert
add_loop-insert tblocks lo start count [] tb c b s a = ground arith
add_loop-insert tblocks lo start count (e ∷ es) tb c b s a =
    let (side, rest) = Apart-cons start count e es c s.2 a in
    elim side [
      | inl before ↦ ground arith
      | inr behind ↦ elim (Bool-cases (e.ex_start + e.ex_count == start)) [
        | inl touch ↦
            let e' : Extent = record e { ex_count = e.ex_count + count } in
            let at : e.ex_start + e.ex_count ≡ start = ground arith in
            let after =
              IsSpaceList-after tblocks (e.ex_start + e.ex_count + 1) start count
                (e'.ex_start + e'.ex_count) es c (omega arith) (omega arith) s.4 rest in
            let merged =
              merge_next-join_next tblocks e' es tb s.0 (omega arith) (omega arith) after in
            ground (arith, merged)
        | inr apart ↦ ground (
          arith,
          add_loop-insert tblocks (e.ex_start + e.ex_count + 1) start count es tb c b s.4 rest,
        )
      ]
    ]

join_next-IsSpaceList :
    (tblocks lo : ℕ) (e : Extent) (es : List Extent)
    → e.ex_type ≡ space
    → lo ≤ e.ex_start
    → 0 < e.ex_count
    → e.ex_start + e.ex_count ≤ tblocks
    → IsSpaceList tblocks (e.ex_start + e.ex_count) es
    → IsSpaceList tblocks lo (join_next e es)
unfolding join_next
join_next-IsSpaceList tblocks lo e [] t l c b s = (t, l, c, b, tt)
join_next-IsSpaceList tblocks lo e (n ∷ es) t l c b s = ground arith

pub insert-IsSpaceList :
    (tblocks lo start count : ℕ) (es : List Extent)
    → 0 < count
    → lo ≤ start
    → start + count ≤ tblocks
    → IsSpaceList tblocks lo es
    → Apart start count es
    → IsSpaceList tblocks lo (insert start count es)
unfolding insert join_next
insert-IsSpaceList tblocks lo start count [] c l b s a = (refl, l, c, b, tt)
insert-IsSpaceList tblocks lo start count (e ∷ es) c l b s a =
    let (side, rest) = Apart-cons start count e es c s.2 a in
    elim side [
      | inl before ↦ ground arith
      | inr behind ↦ elim (Bool-cases (e.ex_start + e.ex_count == start)) [
        | inl touch ↦
            let at : e.ex_start + e.ex_count ≡ start = ground arith in
            rw touch (
              join_next-IsSpaceList tblocks lo (record e { ex_count = e.ex_count + count }) es s.0
                s.1 (omega arith) (omega arith)
                (IsSpaceList-after tblocks (e.ex_start + e.ex_count + 1) start count
                  (e.ex_start + (e.ex_count + count)) es c (omega arith) (omega arith) s.4 rest))
        | inr apart ↦ ground (
          arith,
          insert-IsSpaceList tblocks (e.ex_start + e.ex_count + 1) start count es c,
          s.4,
          rest,
        )
      ]
    ]

pub covers-join_next :
    (e : Extent) (es : List Extent) (x : ℕ) → covers (join_next e es) x ≡ covers (e ∷ es) x
unfolding covers join_next
covers-join_next e [] x = refl
covers-join_next e (n ∷ es) x = ground arith

pub covers-insert :
    (start count : ℕ) (es : List Extent) (x : ℕ)
    → covers (insert start count es) x ≡ (within start count x || covers es x)
unfolding covers insert
covers-insert start count [] x = refl
covers-insert start count (e ∷ es) x = ground (
  arith,
  covers-insert start count es x,
  covers-join_next (record e { ex_count = e.ex_count + count }) es x,
)

pub total-join_next :
    (e : Extent) (es : List Extent) → total (join_next e es) ≡ e.ex_count + total es
unfolding total join_next
total-join_next e [] = refl
total-join_next e (n ∷ es) = ground arith

pub total-insert :
    (start count : ℕ) (es : List Extent) → total (insert start count es) ≡ count + total es
unfolding total insert
total-insert start count [] = refl
total-insert start count (e ∷ es) = ground (
  arith,
  total-insert start count es,
  total-join_next (record e { ex_count = e.ex_count + count }) es,
)

pub add_extent-insert :
    (tblocks lo start count : ℕ) (es : List Extent)
    → tblocks < 2 ^ 48
    → 0 < count
    → start + count ≤ tblocks
    → IsSpaceList tblocks lo es
    → Apart start count es
    → add_extent tblocks es start 0 count true ≡ some (insert start count es)
unfolding add_extent
add_extent-insert tblocks lo start count es tb c b s a =
    ground (arith, add_loop-insert tblocks lo start count es tb c b s a)

-- On a device of fewer than 2^48 blocks, adding a range of the device that is not empty and that
-- the list avoids to a list of free space in order stops at no `assert`; the result is in order
-- with no two extents that touch, covers exactly the old blocks and the range, and its counts sum
-- up to that many blocks more.
pub add_extent-sorted :
    (tblocks lo start count : ℕ) (es : List Extent)
    → tblocks < 2 ^ 48
    → 0 < count
    → lo ≤ start
    → start + count ≤ tblocks
    → IsSpaceList tblocks lo es
    → Apart start count es
    → (es' : List Extent) × (add_extent tblocks es start 0 count true ≡ some es')
      × IsSpaceList tblocks lo es'
      × ((x : ℕ) → covers es' x ≡ (within start count x || covers es x))
      × (total es' ≡ count + total es)
add_extent-sorted tblocks lo start count es tb c l b s a = (
  insert start count es,
  add_extent-insert tblocks lo start count es tb c b s a,
  insert-IsSpaceList tblocks lo start count es c l b s a,
  covers-insert start count es,
  total-insert start count es,
)

add_loop-twice :
    (tblocks lo start count : ℕ) (es : List Extent)
    → tblocks < 2 ^ 48
    → 0 < count
    → start + count ≤ tblocks
    → IsSpaceList tblocks lo es
    → covers es start ≡ true
    → add_loop tblocks true start 0 count es ≡ none
unfolding add_loop merge_prev new_extent incr_count decr_start adjacent covers
add_loop-twice tblocks lo start count [] tb c b s h = cc
add_loop-twice tblocks lo start count (e ∷ es) tb c b s h =
    elim (Bool-cases (within e.ex_start e.ex_count start)) [
      | inl here ↦ ground arith
      | inr there ↦
          let later = covers-below tblocks (e.ex_start + e.ex_count + 1) start es s.4 in
          let ih = add_loop-twice tblocks (e.ex_start + e.ex_count + 1) start count es tb c b s.4 in
          ground (arith, later, ih)
    ]

-- On a device of fewer than 2^48 blocks, adding to a list of free space in order a range of the
-- device that is not empty and whose first block stands in the list already, a block freed twice,
-- stops at an `assert`.
pub add_extent-twice :
    (tblocks lo start count : ℕ) (es : List Extent)
    → tblocks < 2 ^ 48
    → 0 < count
    → start + count ≤ tblocks
    → IsSpaceList tblocks lo es
    → covers es start ≡ true
    → add_extent tblocks es start 0 count true ≡ none
unfolding add_extent
add_extent-twice tblocks lo start count es tb c b s h =
    ground (arith, add_loop-twice tblocks lo start count es tb c b s h)

-- ===== src/ExtentList/Unsorted.antt =====
-- `lc_addExtent` with `sort` false: the lists of reserved and of freed blocks of a layer.
use lcfs.Prelude.{
  ℕ, ◌+◌, ◌≤◌, ◌<◌, ◌^◌, ◌≡◌, refl, false, ◌||◌, List, [], ◌∷◌, arith, some, inl, inr, Bool-cases,
  ◌==◌, if◌then◌else◌,
}
use lcfs.Extent.{Extent, space, incr_count, decr_start, adjacent}
use lcfs.ExtentList.{merge_next, merge_prev, new_extent, add_loop, add_extent}
use lcfs.ExtentList.View.{within, covers, total, IsSpaceBag, NoOverlap, Apart}
use lcfs.ExtentList.Insert.{space_extent, join_next, covers-join_next, total-join_next}

unfoldable pub insert_first : (start count : ℕ) → List Extent → List Extent
insert_first start count [] = space_extent start count ∷ []
insert_first start count (e ∷ es) =
    if e.ex_start + e.ex_count == start
    then join_next (record e { ex_count = e.ex_count + count }) es
    else if start + count == e.ex_start
    then record e { ex_start = start; ex_count = e.ex_count + count } ∷ es
    else space_extent start count ∷ e ∷ es

merge_next-join_next :
    (tblocks : ℕ) (e : Extent) (es : List Extent)
    → tblocks < 2 ^ 48
    → e.ex_type ≡ space
    → 0 < e.ex_count
    → e.ex_start + e.ex_count ≤ tblocks
    → IsSpaceBag tblocks es
    → merge_next tblocks e es ≡ some (join_next e es)
unfolding merge_next join_next
merge_next-join_next tblocks e [] tb t c b s = refl
merge_next-join_next tblocks e (n ∷ es) tb t c b s = ground arith

join_next-IsSpaceBag :
    (tblocks : ℕ) (e : Extent) (es : List Extent)
    → e.ex_type ≡ space
    → 0 < e.ex_start
    → 0 < e.ex_count
    → e.ex_start + e.ex_count ≤ tblocks
    → IsSpaceBag tblocks es
    → IsSpaceBag tblocks (join_next e es)
unfolding join_next
join_next-IsSpaceBag tblocks e [] t p c b s = (t, p, c, b, tt)
join_next-IsSpaceBag tblocks e (n ∷ es) t p c b s = ground arith

add_loop-insert_first :
    (tblocks start count : ℕ) (es : List Extent)
    → tblocks < 2 ^ 48
    → 0 < count
    → start + count ≤ tblocks
    → IsSpaceBag tblocks es
    → add_loop tblocks false start 0 count es ≡ some (insert_first start count es)
unfolding add_loop merge_prev new_extent incr_count decr_start adjacent insert_first
add_loop-insert_first tblocks start count [] tb c b s = ground arith
add_loop-insert_first tblocks start count (e ∷ es) tb c b s =
    let e' : Extent = record e { ex_count = e.ex_count + count } in
    let merged = merge_next-join_next tblocks e' es tb s.0 in ground (arith, merged)

pub insert_first-IsSpaceBag :
    (tblocks start count : ℕ) (es : List Extent)
    → 0 < start
    → 0 < count
    → start + count ≤ tblocks
    → IsSpaceBag tblocks es
    → IsSpaceBag tblocks (insert_first start count es)
unfolding insert_first
insert_first-IsSpaceBag tblocks start count [] p c b s = (refl, p, c, b, tt)
insert_first-IsSpaceBag tblocks start count (e ∷ es) p c b s =
    ground
      (arith, join_next-IsSpaceBag tblocks (record e { ex_count = e.ex_count + count }) es s.0, s.4)

pub covers-insert_first :
    (start count : ℕ) (es : List Extent) (x : ℕ)
    → covers (insert_first start count es) x ≡ (within start count x || covers es x)
unfolding covers insert_first
covers-insert_first start count [] x = refl
covers-insert_first start count (e ∷ es) x =
    ground (arith, covers-join_next (record e { ex_count = e.ex_count + count }) es x)

pub total-insert_first :
    (start count : ℕ) (es : List Extent) → total (insert_first start count es) ≡ count + total es
unfolding total insert_first
total-insert_first start count [] = refl
total-insert_first start count (e ∷ es) =
    ground (arith, total-join_next (record e { ex_count = e.ex_count + count }) es)

join_next-NoOverlap :
    (e : Extent) (es : List Extent)
    → Apart e.ex_start e.ex_count es
    → NoOverlap es
    → NoOverlap (join_next e es)
unfolding join_next covers
join_next-NoOverlap e [] a n = (a, tt)
join_next-NoOverlap e (f ∷ es) a n = elim (Bool-cases (e.ex_start + e.ex_count == f.ex_start)) [
  | inl touch ↦ rw touch (λ x w. ground (arith, a x, n.0 x), n.1)
  | inr gap ↦ rw gap (a, n)
]

pub insert_first-NoOverlap :
    (start count : ℕ) (es : List Extent)
    → Apart start count es
    → NoOverlap es
    → NoOverlap (insert_first start count es)
unfolding insert_first covers
insert_first-NoOverlap start count [] a n = (a, tt)
insert_first-NoOverlap start count (e ∷ es) a n =
    elim (Bool-cases (e.ex_start + e.ex_count == start)) [
      | inl touch ↦ rw touch (
          join_next-NoOverlap (record e { ex_count = e.ex_count + count }) es
            (λ x w. ground (arith, a x, n.0 x)) n.1)
      | inr gap ↦ elim (Bool-cases (start + count == e.ex_start)) [
        | inl touch ↦ rw (gap, touch) (λ x w. ground (arith, a x, n.0 x), n.1)
        | inr far ↦ rw (gap, far) (a, n)
      ]
    ]

pub add_extent-insert_first :
    (tblocks start count : ℕ) (es : List Extent)
    → tblocks < 2 ^ 48
    → 0 < count
    → start + count ≤ tblocks
    → IsSpaceBag tblocks es
    → add_extent tblocks es start 0 count false ≡ some (insert_first start count es)
unfolding add_extent
add_extent-insert_first tblocks start count es tb c b s =
    ground (arith, add_loop-insert_first tblocks start count es tb c b s)

-- On a device of fewer than 2^48 blocks, adding a range of the device that is not empty and does
-- not start at 0 to an unordered list of extents of the device stops at no `assert`; the result
-- covers exactly the old blocks and the range, and its counts sum up to that many more. If no two
-- extents of the list met and the range avoids the list, no two extents of the result meet.
pub add_extent-unsorted :
    (tblocks start count : ℕ) (es : List Extent)
    → tblocks < 2 ^ 48
    → 0 < start
    → 0 < count
    → start + count ≤ tblocks
    → IsSpaceBag tblocks es
    → (es' : List Extent) × (add_extent tblocks es start 0 count false ≡ some es')
      × IsSpaceBag tblocks es'
      × (Apart start count es → NoOverlap es → NoOverlap es')
      × ((x : ℕ) → covers es' x ≡ (within start count x || covers es x))
      × (total es' ≡ count + total es)
add_extent-unsorted tblocks start count es tb p c b s = (
  insert_first start count es,
  add_extent-insert_first tblocks start count es tb c b s,
  insert_first-IsSpaceBag tblocks start count es p c b s,
  insert_first-NoOverlap start count es,
  covers-insert_first start count es,
  total-insert_first start count es,
)

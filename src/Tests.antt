-- ===== src/Tests.antt =====
-- The theorems at concrete values, and runs of the code.
mod Emaps
mod Blocks
mod Hlinks
mod Tables
mod Dirs
mod Xattrs
use lcfs.Prelude.{
  ℕ, ◌+◌, ◌-◌, ◌≤◌, ◌<◌, ◌^◌, ◌≡◌, ◌⊎◌, refl, Bool, true, false, not, ◌&&◌, ◌||◌, List, [], ◌∷◌,
  ltb, leb, arith, Option, none, some,
}
use lcfs.Extent.{Extent, space, emap, adjacent, incr_count, decr_count}
use lcfs.ExtentList.{add_extent, remove_extent, merge_next, update_extent}
use lcfs.ExtentList.View.{within, covers, total, IsSpaceList, IsSpaceBag, Apart, NoOverlap}
use lcfs.ExtentList.Insert.{add_extent-sorted, add_extent-twice}
use lcfs.ExtentList.Remove.{remove_extent-space}
use lcfs.ExtentList.Unsorted.{add_extent-unsorted}

abbrev pub space_extent : (start count : ℕ) → Extent
space_extent start count = record {
  ex_type = space;
  ex_start = start;
  ex_count = count;
  ex_block = 0;
}

abbrev pub emap_extent : (page block count : ℕ) → Extent
emap_extent page block count = record {
  ex_type = emap;
  ex_start = page;
  ex_count = count;
  ex_block = block;
}

abbrev two_extents : List Extent
two_extents = space_extent 10 5 ∷ space_extent 20 5 ∷ []

two_extents-IsSpaceList : IsSpaceList 100 1 two_extents
two_extents-IsSpaceList =
    (refl, omega arith, omega arith, omega arith, (refl, omega arith, omega arith, omega arith, tt))

two_extents-IsSpaceBag : IsSpaceBag 100 two_extents
two_extents-IsSpaceBag =
    (refl, omega arith, omega arith, omega arith, (refl, omega arith, omega arith, omega arith, tt))

two_extents-Apart : Apart 15 5 two_extents
unfolding covers
two_extents-Apart x w = ground arith

-- The range fills the gap between the two.
filled_gap : add_extent 100 two_extents 15 0 5 true ≡ some (space_extent 10 15 ∷ [])
unfolding add_extent adjacent incr_count merge_next
filled_gap = refl

-- The blocks 22 to 24 come first and stop at the end of their extent.
removed_tail :
    remove_extent 100 two_extents 22 9 ≡ some (3, space_extent 10 5 ∷ space_extent 20 2 ∷ [])
unfolding remove_extent update_extent decr_count
removed_tail = refl

add_extent-sorted_example :
    (es' : List Extent) × (add_extent 100 two_extents 15 0 5 true ≡ some es')
    × IsSpaceList 100 1 es'
    × ((x : ℕ) → covers es' x ≡ (within 15 5 x || covers two_extents x))
    × (total es' ≡ 5 + total two_extents)
add_extent-sorted_example =
    add_extent-sorted 100 1 15 5 two_extents (omega arith) (omega arith) (omega arith) (omega arith)
      two_extents-IsSpaceList two_extents-Apart

covered : covers two_extents 22 ≡ true
unfolding covers
covered = refl

add_extent-twice_example : add_extent 100 two_extents 22 0 4 true ≡ none
add_extent-twice_example =
    add_extent-twice 100 1 22 4 two_extents (omega arith) (omega arith) (omega arith)
      two_extents-IsSpaceList covered

remove_extent-space_example :
    (f : ℕ) × (es' : List Extent) × (remove_extent 100 two_extents 22 9 ≡ some (f, es'))
    × (f ≤ 9)
    × (covers two_extents 22 ≡ ltb 0 f)
    × ((f ≡ 9) ⊎ (covers two_extents (22 + f) ≡ false))
    × ((x : ℕ) → within 22 f x ≡ true → covers two_extents x ≡ true)
    × ((x : ℕ) → covers es' x ≡ (covers two_extents x && not (within 22 f x)))
    × (total es' + f ≡ total two_extents)
    × IsSpaceList 100 1 es'
remove_extent-space_example =
    remove_extent-space 100 1 22 9 two_extents (omega arith) (omega arith) two_extents-IsSpaceList

add_extent-unsorted_example :
    (es' : List Extent) × (add_extent 100 two_extents 15 0 5 false ≡ some es')
    × IsSpaceBag 100 es'
    × (Apart 15 5 two_extents → NoOverlap two_extents → NoOverlap es')
    × ((x : ℕ) → covers es' x ≡ (within 15 5 x || covers two_extents x))
    × (total es' ≡ 5 + total two_extents)
add_extent-unsorted_example =
    add_extent-unsorted 100 15 5 two_extents (omega arith) (omega arith) (omega arith) (omega arith)
      two_extents-IsSpaceBag

-- ===== src/Tests/Emaps.antt =====
-- The emap's theorems at concrete values: a file of which two runs of pages are mapped.
use lcfs.Prelude.{
  Bool, ℕ, ◌+◌, ◌-◌, ◌≤◌, ◌<◌, ◌≡◌, refl, true, false, leb, ◌||◌, List, [], ◌∷◌, arith, none, some,
  if◌then◌else◌,
}
use mathlib.Core.Option.{get_or}
use lcfs.Extent.{Extent}
use lcfs.ExtentList.{add_extent, remove_extent}
use lcfs.ExtentList.View.{within, covers, total, maps, IsEmapList, IsSpaceBag}
use lcfs.ExtentList.EmapInsert.{Unmapped}
use lcfs.ExtentList.EmapLaws.{extent_at, add_extent-emap, remove_extent-emap}
use lcfs.Emap.{
  expand_emap, copy_emap, Inode, page_hole, emap_extent_lookup, add_emap_extent,
  remove_inode_extents,
}
use lcfs.Emap.Lookup.{file_maps, from_page, emap_extent_lookup-from_page}
use lcfs.Emap.Copy.{expand_emap-file_maps, copy_emap_id}
use lcfs.Emap.Runs.{add_emap_extent-Mapped, remove_inode_extents-maps}
use lcfs.Block.{State}
use lcfs.Emap.Truncate.File.{FileTruncated, emap_truncate-FileTruncated}
use lcfs.Tests.Dirs.{device}
use lcfs.Tests.{emap_extent, space_extent}

-- Pages 0 to 3, and 6 to 9.
abbrev two_runs : List Extent
two_runs = emap_extent 0 100 4 ∷ emap_extent 6 200 4 ∷ []

-- Pages 0 to 7 in one run of blocks, over two extents.
abbrev one_run : List Extent
one_run = emap_extent 0 100 4 ∷ emap_extent 4 104 4 ∷ []

abbrev file : List Extent → Inode
file es = record {
  extent_length = 0;
  extent_block = 0;
  emap_list = es;
  blocks = 8;
  shared = false;
  emap_dirty = false;
  private = true;
}

two_runs-IsEmapList : IsEmapList 100000 0 two_runs
two_runs-IsEmapList = ground arith

one_run-IsEmapList : IsEmapList 100000 0 one_run
one_run-IsEmapList = ground arith

two_runs-Unmapped : Unmapped 4 2 two_runs
unfolding maps
two_runs-Unmapped x w = ground arith

page_six : maps two_runs 6 ≡ some 200
unfolding maps
page_six = refl

all_mapped : (x : ℕ) → within 1 6 x ≡ true → maps one_run x ≡ some (101 + (x - 1))
unfolding maps
all_mapped x w = ground arith

beyond : Unmapped 10 70000 two_runs
unfolding maps
beyond x w = ground arith

none_mapped : Unmapped 0 8 []
unfolding maps
none_mapped x w = refl

add_extent-emap_example :
    (es' : List Extent) × (add_extent 100000 two_runs 4 300 2 true ≡ some es')
    × IsEmapList 100000 0 es'
    × ((x : ℕ) → maps es' x ≡ (if within 4 2 x then some (300 + (x - 4)) else maps two_runs x))
add_extent-emap_example =
    add_extent-emap 100000 0 4 300 2 two_runs (omega arith) (omega arith) (omega arith)
      (omega arith) (omega arith) (omega arith) (omega arith) two_runs-IsEmapList two_runs-Unmapped

remove_extent-emap_example :
    (f : ℕ) × (es' : List Extent) × (remove_extent 100000 two_runs 6 9 ≡ some (f, es'))
    × (0 < f)
    × (f ≤ 9)
    × ((e : Extent) × (extent_at two_runs 6 ≡ some e)
        × (f ≡ (if leb (6 + 9) (e.ex_start + e.ex_count) then 9 else e.ex_start + e.ex_count - 6)))
    × IsEmapList 100000 0 es'
    × ((x : ℕ) → within 6 f x ≡ true → maps two_runs x ≡ some (200 + (x - 6)))
    × ((x : ℕ) → maps es' x ≡ (if within 6 f x then none else maps two_runs x))
remove_extent-emap_example =
    remove_extent-emap 100000 0 6 9 200 two_runs (omega arith) (omega arith) two_runs-IsEmapList
      page_six

add_emap_extent-Mapped_example :
    (es' : List Extent) × (add_emap_extent 100000 two_runs 10 300 70000 ≡ some es')
    × IsEmapList 100000 0 es'
    × ((x : ℕ)
        → maps es' x ≡ (if within 10 70000 x then some (300 + (x - 10)) else maps two_runs x))
add_emap_extent-Mapped_example =
    add_emap_extent-Mapped 100000 0 two_runs 10 300 70000 (omega arith) (omega arith) (omega arith)
      (omega arith) (omega arith) two_runs-IsEmapList beyond

remove_inode_extents-maps_example :
    (es' : List Extent) × (freed' : List Extent) × (remove_inode_extents 100000
        (file one_run)
        1
        101
        6
        (space_extent 90 5 ∷ [])
      ≡ some (record (file one_run) { emap_list = es' }, freed'))
    × IsEmapList 100000 0 es'
    × IsSpaceBag 100000 freed'
    × ((x : ℕ) → maps es' x ≡ (if within 1 6 x then none else maps one_run x))
    × ((x : ℕ) → covers freed' x ≡ (within 101 6 x || covers (space_extent 90 5 ∷ []) x))
    × (total freed' ≡ 6 + total (space_extent 90 5 ∷ []))
remove_inode_extents-maps_example =
    remove_inode_extents-maps 100000 0 (file one_run) (space_extent 90 5 ∷ []) 1 101 6 (omega arith)
      (omega arith) (omega arith) (omega arith) one_run-IsEmapList
      (refl, omega arith, omega arith, omega arith, tt) all_mapped

emap_extent_lookup-from_page_example :
    emap_extent_lookup 100000 (from_page two_runs 5) 8
    ≡ some (get_or (maps two_runs 8) page_hole, from_page (from_page two_runs 5) 8)
emap_extent_lookup-from_page_example =
    emap_extent_lookup-from_page 100000 (omega arith) two_runs 5 8 two_runs-IsEmapList (omega arith)

abbrev direct : Inode
direct = record (file []) { extent_length = 8; extent_block = 100 }

expand_emap-file_maps_example :
    (inode' : Inode) × (expand_emap 100000 direct ≡ some inode')
    × IsEmapList 100000 0 inode'.emap_list
    × (inode'.extent_length ≡ 0)
    × ((x : ℕ) → file_maps inode' x ≡ file_maps direct x)
expand_emap-file_maps_example =
    expand_emap-file_maps 100000 direct (omega arith) refl (omega arith) (omega arith) tt
      none_mapped

copy_emap_id_example :
    copy_emap 100000 (file two_runs) ≡ some (record (file two_runs) { shared = false })
copy_emap_id_example = copy_emap_id 100000 (file two_runs) (omega arith) refl two_runs-IsEmapList

-- The file is cut in the middle of its page 8.
counted : (file two_runs).blocks ≡ total two_runs
unfolding total
counted = refl

emap_truncate-FileTruncated_example :
    (s' : State) × (inode' : Inode) × (zero_page : Bool) × FileTruncated device 2
      (file two_runs)
      32868
      8
      s'
      inode'
      zero_page
emap_truncate-FileTruncated_example =
    emap_truncate-FileTruncated device 2 (file two_runs) 32868 8 (omega arith) refl refl
      (ground arith) counted (omega arith) tt

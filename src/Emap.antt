-- ===== src/Emap.antt =====
-- lcfs/emap.c: the map of a file's pages to blocks.
-- `Inode` holds the fields of `struct inode` that these functions use. `tblocks` is that of the
-- superblock. The inode is a regular file.
pub mod Lookup
pub mod Update
pub mod Runs
pub mod Copy
pub mod Truncate
use lcfs.Prelude.{
  ℕ, zero, suc, ◌+◌, ◌-◌, ◌*◌, ◌%◌, ◌^◌, Bool, true, false, not, ◌&&◌, ◌||◌, Option, none, some,
  List, [], ◌∷◌, ◌++◌, ltb, leb, ◌==◌, if◌then◌else◌, assert, ◌>>=◌, ◌>>◌,
}
use lcfs.Prelude.Words.{u64_mod, add64, sub64}
use lcfs.Extent.{
  Extent, ExtentType, space, emap, emap_max, is_space, get_start, get_block, get_count, validate,
  decr_count,
}
use lcfs.ExtentList.{add_extent, remove_extent, free_extent}
use lcfs.Block.{add_space_extent}

-- LC_PAGE_HOLE
abbrev pub page_hole : ℕ
page_hole = u64_mod - 1

pub record Inode : Type 0 where
  pub extent_length : ℕ
  pub extent_block : ℕ
  pub emap_list : List Extent
  pub blocks : ℕ
  pub shared : Bool
  pub emap_dirty : Bool
  pub private : Bool

-- `lc_addEmapExtent`: a run that is too long for one extent is broken up. Each round takes at least
-- one block off `count`, so that many rounds are enough.
unfoldable pub add_emap_loop :
    (fuel : ℕ) → ℕ → List Extent → (page block count : ℕ) → Option (List Extent)
add_emap_loop zero tblocks es page block count = if count == 0 then some es else none
add_emap_loop (suc fuel) tblocks es page block count =
    if count == 0
    then some es
    else let ecount = if ltb emap_max count then emap_max else count in
      add_extent tblocks es page block ecount true >>= λ es'.
      add_emap_loop fuel tblocks es' (add64 page ecount) (add64 block ecount) (count - ecount)

unfoldable pub add_emap_extent : ℕ → List Extent → (page block count : ℕ) → Option (List Extent)
add_emap_extent tblocks es page block count = add_emap_loop count tblocks es page block count

-- The loop of `lc_inodeEmapExtentLookup`: the rest of the list from the extent it stops at.
unfoldable pub skip_extents : ℕ → List Extent → (page : ℕ) → Option (List Extent)
skip_extents tblocks [] page = some []
skip_extents tblocks (e ∷ es) page =
    let rest = skip_extents tblocks es page in
    if leb (add64 (get_start e) (get_count e)) page
    then (do assert (not (is_space e.ex_type)); validate (some tblocks) e; rest)
    else some (e ∷ es)

-- The extent holds the page.
abbrev pub has_page : Extent → (page : ℕ) → Bool
has_page e page = leb (get_start e) page && ltb page (add64 (get_start e) (get_count e))

-- `lc_inodeEmapExtentLookup` from a place in the list: the block, and the place to go on from
unfoldable pub emap_extent_lookup : ℕ → List Extent → (page : ℕ) → Option (ℕ × List Extent)
emap_extent_lookup tblocks es page = skip_extents tblocks es page >>= λ es'. elim es' [
  | [] ↦ some (page_hole, [])
  | e ∷ rest ↦ some (
    if has_page e page then add64 (get_block e) (sub64 page (get_start e)) else page_hole,
    e ∷ rest,
  )
]

-- `lc_inodeEmapLookup` with no saved extent
unfoldable pub inode_emap_lookup : ℕ → Inode → (page : ℕ) → Option ℕ
inode_emap_lookup tblocks inode page =
    if ltb 0 inode.extent_length && ltb page inode.extent_length
    then some (add64 inode.extent_block page)
    else (emap_extent_lookup tblocks inode.emap_list page >>= λ (block, es). some block)

-- `lc_removeInodeExtents`: the emap and the list of freed extents
unfoldable pub remove_runs :
    (fuel : ℕ)
    → ℕ
    → List Extent
    → (page block count : ℕ) → List Extent
    → Option (List Extent × List Extent)
remove_runs zero tblocks es page block count freed = if count == 0 then some (es, freed) else none
remove_runs (suc fuel) tblocks es page block count freed =
    if count == 0 then some (es, freed) else (do
      (ecount, es') ← remove_extent tblocks es page count
      assert (ltb 0 ecount)
      assert (leb ecount count)
      freed' ← add_space_extent tblocks freed block ecount false
      remove_runs fuel tblocks es' (add64 page ecount) (add64 block ecount) (count - ecount) freed')

unfoldable pub remove_inode_extents :
    ℕ → Inode → (page block count : ℕ) → List Extent → Option (Inode × List Extent)
remove_inode_extents tblocks inode page block count freed = do
  (es, freed') ← remove_runs count tblocks inode.emap_list page block count freed
  some (record inode { emap_list = es }, freed')

-- `lc_expandEmap`
unfoldable pub expand_emap : ℕ → Inode → Option Inode
expand_emap tblocks inode = do
  assert (inode.blocks == inode.extent_length)
  es ← add_emap_extent tblocks inode.emap_list 0 inode.extent_block inode.extent_length
  some (record inode { extent_block = 0; extent_length = 0; emap_list = es; emap_dirty = true })

-- The loop of `lc_copyEmap`: the copy of each extent becomes the tail of the one before it.
unfoldable pub copy_extents : ℕ → List Extent → Option (List Extent)
copy_extents tblocks [] = some []
copy_extents tblocks (e ∷ es) = do
  assert (not (is_space e.ex_type))
  validate (some tblocks) e
  copied ← add_emap_extent tblocks [] (get_start e) (get_block e) (get_count e)
  rest ← copy_extents tblocks es
  some (copied ++ rest)

-- `lc_copyEmap`
unfoldable pub copy_emap : ℕ → Inode → Option Inode
copy_emap tblocks inode = do
  assert (inode.extent_length == 0)
  es ← copy_extents tblocks inode.emap_list
  some (record inode { emap_list = es; shared = false })

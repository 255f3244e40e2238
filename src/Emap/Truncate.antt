-- ===== src/Emap/Truncate.antt =====
-- lc_emapTruncate and lc_freeInodeDataBlocks (lcfs/emap.c). `remove` is set: without it the list is only
-- freed. `partial` is `size % LC_BLOCK_SIZE != 0`: the page `pg` is kept, and is to be cleared. Pages of
-- the cache (lc_invalPage) and the layer's mark as changed are not modelled.
pub mod Cut
pub mod Round
pub mod Loop
pub mod Freed
pub mod File
use lcfs.Prelude.{
  ℕ, ◌+◌, ◌-◌, ◌%◌, Bool, true, false, not, ◌&&◌, ◌||◌, Option, none, some, List, [], ◌∷◌, ◌++◌,
  ltb, leb, ◌==◌, if◌then◌else◌, assert, ◌>>=◌, ◌>>◌,
}
use lcfs.Prelude.Words.{add64, sub64}
use lcfs.Extent.{Extent, is_space, validate, get_start, get_block, get_count, decr_count}
use lcfs.Block.{State, block_size, add_space_extent}
use lcfs.Block.Release.{add_freed_blocks}
use lcfs.Emap.{Inode, expand_emap}

-- What the loop has: the extents that it keeps, the list of freed extents, `bcount` and `zero`
pub record Trimmed : Type 0 where
  pub kept : List Extent
  pub freed : List Extent
  pub bcount : ℕ
  pub zero_page : Bool

-- The extent that holds the page `pg`, of which `freed` blocks go
unfoldable pub trim_extent :
    (tblocks : ℕ)
    → Extent
    → (count : ℕ) → (zero_page : Bool) → (freed : List Extent) → (bcount : ℕ) → Option Trimmed
trim_extent tblocks e count zero_page freed bcount =
    if count == 0
    then some (record { kept = e ∷ []; freed = freed; bcount = bcount; zero_page = zero_page })
    else (do
      freed' ←
          add_space_extent tblocks freed (sub64 (add64 (get_block e) (get_count e)) count) count
            false
      kept ←
          (if count == get_count e
            then some []
            else (decr_count (some tblocks) e count >>= λ (e', gone). some (e' ∷ [])))
      some (record {
        kept = kept;
        freed = freed';
        bcount = add64 bcount count;
        zero_page = zero_page;
      }))

-- A round of the loop of `lc_emapTruncate`
unfoldable pub truncate_extent :
    (tblocks pg : ℕ)
    → (partial : Bool) → Extent
    → (freed : List Extent) → (bcount : ℕ) → (zero_page : Bool) → Option Trimmed
truncate_extent tblocks pg partial e freed bcount zero_page = do
  assert (not (is_space e.ex_type))
  validate (some tblocks) e
  if ltb pg (get_start e)
      then (add_space_extent tblocks freed (get_block e) (get_count e) false >>= λ freed'.
          some (record {
            kept = [];
            freed = freed';
            bcount = add64 bcount (get_count e);
            zero_page = zero_page;
          }))
      else (if ltb pg (add64 (get_start e) (get_count e))
          then (let count = sub64 (add64 (get_start e) (get_count e)) pg in
              if partial
              then trim_extent tblocks e (sub64 count 1) true freed bcount
              else trim_extent tblocks e count zero_page freed bcount)
          else (assert (bcount == 0)
              >> some (record {
                kept = e ∷ [];
                freed = freed;
                bcount = bcount;
                zero_page = zero_page;
              })))

unfoldable pub truncate_loop :
    (tblocks pg : ℕ)
    → (partial : Bool) → List Extent
    → (freed : List Extent) → (bcount : ℕ) → (zero_page : Bool) → Option Trimmed
truncate_loop tblocks pg partial [] freed bcount zero_page =
    some (record { kept = []; freed = freed; bcount = bcount; zero_page = zero_page })
truncate_loop tblocks pg partial (e ∷ es) freed bcount zero_page = do
  t ← truncate_extent tblocks pg partial e freed bcount zero_page
  r ← truncate_loop tblocks pg partial es t.freed t.bcount t.zero_page
  some (record r { kept = t.kept ++ r.kept })

-- `lc_freeInodeDataBlocks`
unfoldable pub free_inode_data_blocks : State → (i : ℕ) → List Extent → Option State
free_inode_data_blocks s i [] = some s
free_inode_data_blocks s i (e ∷ es) = do
  s' ← add_freed_blocks s i (get_start e) (get_count e)
  free_inode_data_blocks s' i es

abbrev pub is_empty : List Extent → Bool
is_empty [] = true
is_empty (e ∷ es) = false

-- The part for a file with a single extent: the inode, the freed extents and their blocks
unfoldable pub truncate_single :
    (tblocks : ℕ) → Inode → (pg : ℕ) → (partial : Bool) → Option (Inode × List Extent × ℕ)
truncate_single tblocks inode pg partial =
    if inode.extent_length == 0
    then some (inode, [], 0)
    else (assert (is_empty inode.emap_list)
        >> (if partial
            then (expand_emap tblocks inode >>= λ inode'. some (inode', [], 0))
            else (if ltb pg inode.extent_length
                then (do
                  let count = inode.extent_length - pg
                  freed ← add_space_extent tblocks [] (add64 inode.extent_block pg) count false
                  some (
                    record inode {
                      extent_length = pg;
                      extent_block = if pg == 0 then 0 else inode.extent_block;
                    },
                    freed,
                    count,
                  ))
                else some (inode, [], 0))))

-- The freed blocks go to the layer `i`, and come off the count of the file's blocks.
unfoldable pub free_truncated : State → (i : ℕ) → Inode → Trimmed → Option (State × Inode)
free_truncated s i inode t =
    if t.bcount == 0
    then (assert (is_empty t.freed) >> some (s, record inode { emap_list = t.kept }))
    else (do
      s' ← free_inode_data_blocks s i t.freed
      assert (leb t.bcount inode.blocks)
      some (s', record inode { emap_list = t.kept; blocks = inode.blocks - t.bcount }))

-- `lc_emapTruncate` of the inode in the layer `i`, and whether the page `pg` is to be cleared
unfoldable pub emap_truncate :
    State → (i : ℕ) → Inode → (size pg : ℕ) → Option (State × Inode × Bool)
emap_truncate s i inode size pg = do
  let partial = not (size % block_size == 0)
  (inode', freed, bcount) ← truncate_single s.tblocks inode pg partial
  t ← truncate_loop s.tblocks pg partial inode'.emap_list freed bcount false
  (s', inode'') ← free_truncated s i inode' t
  assert (not (size == 0) || inode''.blocks == 0 && is_empty inode''.emap_list)
  some (s', record inode'' { private = inode''.private || size == 0 }, t.zero_page)

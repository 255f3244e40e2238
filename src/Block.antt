-- ===== src/Block.antt =====
-- lcfs/block.c: the state of the block allocator, and the lists that track space.
-- `State` holds the fields of `struct gfs` and of the global superblock that the allocator uses, and
-- the layers by index; the layer 0 is the global file system, whose superblock is the global one.
-- The locks are not modelled: every function runs alone, as the code runs it under `gfs_alock` and
-- `fs_alock`. Memory allocation does not fail.
pub mod Fit
pub mod Owner
pub mod Alloc
pub mod Moves
pub mod Reserve
pub mod Allocated
pub mod Find
pub mod Release
pub mod Free
pub mod FreeLayer
pub mod Replace
pub mod Grow
use mathlib.Core.Option
use lcfs.Prelude.{
  ℕ, ◌-◌, ◌*◌, ◌/◌, ◌^◌, Bool, true, false, not, ◌&&◌, ◌||◌, Option, none, some, List, [], ◌∷◌, ltb,
  leb, ◌==◌, if◌then◌else◌, assert, ◌>>=◌, ◌>>◌,
}
use lcfs.Prelude.Words.{add64}
use lcfs.Extent.{Extent, space, get_start, get_count, init_extent, incr_start, decr_count}
use lcfs.ExtentList.{add_extent, free_extent}

-- LC_INVALID_BLOCK
abbrev pub invalid_block : ℕ
invalid_block = 0xFFFF_FFFF_FFFF

-- LC_START_BLOCK
abbrev pub start_block : ℕ
start_block = 1

-- LC_RESERVED_BLOCKS, a percentage
abbrev pub reserved_percent : ℕ
reserved_percent = 10

-- LC_BLOCK_RESERVE
abbrev pub block_reserve : ℕ
block_reserve = 8192

-- LC_BLOCK_SIZE
abbrev pub block_size : ℕ
block_size = 4096

-- `struct fs`
pub record Fs : Type 0 where
  pub extents : List Extent
  pub aextents : List Extent
  pub fextents : List Extent
  pub reserved_blocks : ℕ
  pub blocks : ℕ
  pub freed : ℕ
  pub extents_dirty : Bool
  pub dirty : Bool
  pub frozen : Bool
  pub sb_extent_block : ℕ
  pub sb_extent_count : ℕ

-- `struct gfs`, with `sb_tblocks` and `sb_blocks` of the global superblock
pub record State : Type 0 where
  pub tblocks : ℕ
  pub sb_blocks : ℕ
  pub blocks_reserved : ℕ
  pub dcount : ℕ
  pub extents : List Extent
  pub fextents : List Extent
  pub fs : ℕ → Fs

abbrev pub update_fs : State → ℕ → Fs → State
update_fs s i f = record s { fs = λ j. if j == i then f else s.fs j }

unfoldable pub mark_extents_dirty : State → ℕ → State
mark_extents_dirty s i = let f = s.fs i in update_fs s i (record f { extents_dirty = true })

-- `lc_blockAllocatorInit`
unfoldable pub block_allocator_init : State → Option State
unfolding init_extent
block_allocator_init s = do
  e ← init_extent (some s.tblocks) space start_block 0 (s.tblocks - start_block)
  some (record s { extents = e ∷ []; blocks_reserved = s.tblocks * reserved_percent / 100 })

-- `lc_addSpaceExtent`
unfoldable pub add_space_extent : ℕ → List Extent → (start count : ℕ) → Bool → Option (List Extent)
add_space_extent tblocks es start count sort = do
  assert (ltb 0 start && ltb 0 count)
  assert (not (start == invalid_block))
  add_extent tblocks es start 0 count sort

-- The loop of `lc_allocateBlock`: the first extent that is large enough gives its front. `some none`
-- means that there is none.
unfoldable pub first_fit : ℕ → List Extent → ℕ → Option (Option (ℕ × List Extent))
first_fit tblocks [] count = some none
first_fit tblocks (e ∷ es) count =
    let rest = first_fit tblocks es count in
    if leb count (get_count e)
    then (decr_count (some tblocks) e count >>= λ (e', release).
        if release
        then some (some (get_start e, free_extent e' es))
        else (incr_start none e' count >>= λ e''. some (some (get_start e, e'' ∷ es))))
    else (rest >>= λ found. some (Option.map (λ (block, es'). (block, e ∷ es')) found))

-- `lc_addSpaceExtent(gfs, fs, &fs->fs_aextents, block, count, true)`
unfoldable pub track_allocated : State → ℕ → (block count : ℕ) → Option State
track_allocated s i block count = do
  es ← add_space_extent s.tblocks (s.fs i).aextents block count true
  some (update_fs s i (record (s.fs i) { aextents = es }))

-- `fs->fs_blocks += count`
unfoldable pub count_blocks : State → ℕ → (count : ℕ) → State
count_blocks s i count = update_fs s i (record (s.fs i) { blocks = add64 (s.fs i).blocks count })

-- The end of `lc_allocateBlock` for a layer, and for the global pool. A block taken from the reserve
-- is listed as allocated, but for the global file system.
unfoldable pub take_reserved :
    State → ℕ → (count : ℕ) → Option (ℕ × List Extent) → Option (ℕ × State)
take_reserved s i count none = some (invalid_block, s)
take_reserved s i count (some (block, es)) = do
  let f = s.fs i
  assert (leb count f.reserved_blocks)
  let s₁ = update_fs s i (record f { extents = es; reserved_blocks = f.reserved_blocks - count })
  s₂ ←
      (if i == 0
        then some s₁
        else (track_allocated s₁ i block count >>= λ s'. some (count_blocks s' i count)))
  assert (ltb block s.tblocks)
  some (block, s₂)

unfoldable pub take_global : State → (count : ℕ) → Option (ℕ × List Extent) → Option (ℕ × State)
take_global s count none = some (invalid_block, s)
take_global s count (some (block, es)) = do
  let used = add64 s.sb_blocks count
  assert (ltb used s.tblocks)
  assert (ltb block s.tblocks)
  some (block, record s { extents = es; sb_blocks = used })

-- `lc_allocateBlock` with `layer` set, and clear
unfoldable pub allocate_reserved : State → ℕ → (count : ℕ) → Option (ℕ × State)
allocate_reserved s i count = first_fit s.tblocks (s.fs i).extents count >>= take_reserved s i count

unfoldable pub allocate_global : State → (count : ℕ) → Option (ℕ × State)
allocate_global s count = first_fit s.tblocks s.extents count >>= take_global s count

-- The blocks of a chunk that are not asked for go to the reserve.
unfoldable pub keep_reserved : State → ℕ → (start count : ℕ) → Option State
keep_reserved s i start count = do
  es ← add_space_extent s.tblocks (s.fs i).extents start count false
  some (
      update_fs s i
        (record (s.fs i) { extents = es; reserved_blocks = add64 (s.fs i).reserved_blocks count }))

-- The chunk of `rsize` blocks at `block` that a layer got: its first `count` blocks are allocated.
unfoldable pub take_chunk : State → ℕ → (block count rsize : ℕ) → Option State
take_chunk s i block count rsize = do
  s₁ ←
      (if i == 0
        then some s
        else (track_allocated s i block count >>= λ s'. some (mark_extents_dirty s' 0)))
  let s₂ = count_blocks s₁ i count
  if ltb count rsize then keep_reserved s₂ i (add64 block count) (rsize - count) else some s₂

-- The part of `lc_findFreeBlock` for a layer whose reserve does not serve. The nested calls have
-- `layer` false, so each is `lc_allocateBlock` from the global pool.
unfoldable pub reserve_sized : State → ℕ → (count rsize : ℕ) → Option (ℕ × State)
reserve_sized s i count rsize = do
  (first, s₁) ← allocate_global s rsize
  let again = first == invalid_block && ltb count rsize
  (block, s₂) ← (if again then allocate_global s₁ count else some (first, s₁))
  let got = if again then count else rsize
  if block == invalid_block
      then some (invalid_block, s₂)
      else (take_chunk s₂ i block count got >>= λ s₃. some (block, s₃))

unfoldable pub reserve_chunk : State → ℕ → (count : ℕ) → Bool → Option (ℕ × State)
reserve_chunk s i count reserve =
    reserve_sized s i count
      (if not reserve || ltb block_reserve count then count else block_reserve)

-- `lc_findFreeBlock` with `layer` set
unfoldable pub find_free_block : State → ℕ → (count : ℕ) → Bool → Option (ℕ × State)
find_free_block s i count reserve = do
  (block, s') ← allocate_reserved s i count
  if block == invalid_block then reserve_chunk s' i count reserve else some (block, s')

-- `lc_blockAlloc`; its arguments `meta` and `reserve` are not used
unfoldable pub block_alloc : State → ℕ → (count : ℕ) → Option (ℕ × State)
block_alloc s i count = do
  (block, s') ← find_free_block s i count true
  assert (ltb (add64 block count) s.tblocks || block == invalid_block)
  some (block, mark_extents_dirty s' i)

-- `lc_blockAllocExact`
unfoldable pub block_alloc_exact : State → ℕ → (count : ℕ) → Option (ℕ × State)
block_alloc_exact s i count = do
  (block, s') ← block_alloc s i count
  assert (not (block == invalid_block))
  some (block, s')

-- ===== src/Block/Release.antt =====
-- lcfs/block.c: the operations that give blocks back.
use lcfs.Prelude.{
  ℕ, zero, suc, ◌-◌, Bool, true, false, not, ◌&&◌, Option, none, some, List, [], ◌∷◌, ◌++◌, ltb,
  leb, ◌==◌, if◌then◌else◌, assert, ◌>>=◌, ◌>>◌,
}
use lcfs.Prelude.Words.{add64}
use lcfs.Extent.{Extent, space, is_space, get_start, get_count, init_extent, validate}
use lcfs.ExtentList.{remove_extent}
use lcfs.Block.{Fs, State, update_fs, invalid_block, add_space_extent, mark_extents_dirty}

-- `lc_freeExtentBlocks`; `j` is the layer that it marks when it takes the lock itself
unfoldable pub free_extent_blocks : State → (j block count : ℕ) → (lock : Bool) → Option State
free_extent_blocks s j block count lock = do
  assert (leb count s.sb_blocks)
  fextents ← add_space_extent s.tblocks s.fextents block count true
  let s' = record s { sb_blocks = s.sb_blocks - count; fextents = fextents }
  some (if lock then mark_extents_dirty s' j else s')

-- One round of the loop of `lc_freeLayerExtent`: how far it goes, how many blocks it freed, and the
-- state.
unfoldable pub free_layer_round : State → (i block count : ℕ) → Option (ℕ × ℕ × State)
free_layer_round s i block count =
    remove_extent s.tblocks (s.fs i).aextents block count >>= λ (freed, es).
    let s' = update_fs s i (record (s.fs i) { aextents = es }) in
    if ltb 0 freed
    then (free_extent_blocks s' 0 block freed true >>= λ s''. some (freed, freed, s''))
    else some (1, 0, s')

-- The loop. Each round takes at least one block off `count`, so that many rounds are enough.
unfoldable pub free_layer_loop : (fuel : ℕ) → State → (i block count total : ℕ) → Option (ℕ × State)
free_layer_loop zero s i block count total = if count == 0 then some (total, s) else none
free_layer_loop (suc fuel) s i block count total =
    if count == 0
    then some (total, s)
    else (free_layer_round s i block count >>= λ (step, freed, s').
        free_layer_loop fuel s' i (add64 block step) (count - step) (add64 total freed))

-- `lc_freeLayerExtent`
unfoldable pub free_layer_extent : State → (i block count : ℕ) → Option (ℕ × State)
free_layer_extent s i block count = do
  assert (not (i == 0))
  free_layer_loop count s i block count 0

-- `lc_atomicUpdate(fs, &fs->fs_freed, count, true)`
unfoldable pub count_freed : State → (i count : ℕ) → State
count_freed s i count = update_fs s i (record (s.fs i) { freed = add64 (s.fs i).freed count })

-- `lc_blockFreeLayer`
unfoldable pub block_free_layer : State → (i block count : ℕ) → (reuse : Bool) → Option State
block_free_layer s i block count reuse =
    if not (i == 0)
    then (free_layer_extent s i block count >>= λ (total, s'). some (count_freed s' i total))
    else if reuse
    then (do
      es ← add_space_extent s.tblocks (s.fs i).extents block count false
      let f = record (s.fs i) {
        extents = es;
        reserved_blocks = add64 (s.fs i).reserved_blocks count;
      }
      some (count_freed (update_fs s i f) i count))
    else (free_extent_blocks s 0 block count true >>= λ s'. some (count_freed s' i count))

-- The end of `lc_blockFree` with `layer` clear
unfoldable pub block_free_global : State → (block count : ℕ) → (reuse : Bool) → Option State
block_free_global s block count reuse = do
  es ← add_space_extent s.tblocks (if reuse then s.extents else s.fextents) block count true
  assert (leb count s.sb_blocks)
  let s' = record s { sb_blocks = s.sb_blocks - count }
  some (
      if reuse
      then record s' { extents = es }
      else mark_extents_dirty (record s' { fextents = es }) 0)

-- `lc_blockFree`
unfoldable pub block_free : State → (i block count : ℕ) → (layer reuse : Bool) → Option State
block_free s i block count layer reuse = do
  assert (ltb 0 block && ltb 0 count)
  assert (not (block == invalid_block))
  assert (ltb (add64 block count) s.tblocks)
  let s' = if reuse then s else mark_extents_dirty s i
  if layer then block_free_layer s' i block count reuse else block_free_global s' block count reuse

-- `lc_blockFreeExtents` with LC_EXTENT_FLUSH clear: the number of blocks freed
unfoldable pub free_extents :
    State → ℕ → List Extent → (efree layer reuse : Bool) → (freed : ℕ) → Option (ℕ × State)
free_extents s i [] efree layer reuse freed = some (freed, s)
free_extents s i (e ∷ es) efree layer reuse freed = do
  assert (is_space e.ex_type)
  validate (some s.tblocks) e
  s' ← (if efree then block_free s i (get_start e) (get_count e) layer reuse else some s)
  free_extents s' i es efree layer reuse (if efree then add64 freed (get_count e) else freed)

-- `lc_releaseReservedBlocks`
unfoldable pub release_reserved_blocks : State → ℕ → Option (ℕ × State)
release_reserved_blocks s i = elim (s.fs i).extents [
  | [] ↦ some (0, s)
  | e ∷ es ↦ (do
    (freed, s') ← free_extents s i (e ∷ es) true false true 0
    assert ((s'.fs i).reserved_blocks == freed)
    some (freed, update_fs s' i (record (s'.fs i) { reserved_blocks = 0; extents = [] })))
]

-- `lc_addFreedBlocks`
unfoldable pub add_freed_blocks : State → (i block count : ℕ) → Option State
add_freed_blocks s i block count = do
  es ← add_space_extent s.tblocks (s.fs i).fextents block count false
  some (update_fs s i (record (s.fs i) { fextents = es }))

-- `lc_moveExtents`: the list `extent` in front of `extents`
unfoldable pub move_extents : (extents extent : List Extent) → (empty : Bool) → Option (List Extent)
move_extents [] extent true = some extent
move_extents (e ∷ es) extent true = none
move_extents extents [] false = none
move_extents extents (x ∷ xs) false = some ((x ∷ xs) ++ extents)

-- `lc_addFreedExtents`
unfoldable pub add_freed_extents : State → ℕ → List Extent → Bool → Option State
add_freed_extents s i extent empty = do
  es ← move_extents (s.fs i).fextents extent empty
  some (update_fs s i (record (s.fs i) { fextents = es }))

-- `lc_replaceFreedExtents`: the state and the new `*extents`. The node of the first extent is used
-- for the new one, which sets its `ex_next` to NULL before that is read: the loop ends there.
unfoldable pub replace_freed_extents :
    State → ℕ → List Extent → (block count : ℕ) → Option (State × List Extent)
replace_freed_extents s i es block count =
    if (s.fs i).frozen then elim es [ [] ↦ some (s, []) | e ∷ es' ↦ none ] else (do
      assert (ltb (add64 block count) s.tblocks)
      elim es [
        | [] ↦ (add_space_extent s.tblocks [] block count false >>= λ es'. some (s, es'))
        | e ∷ es' ↦ (do
          assert (is_space e.ex_type)
          validate (some s.tblocks) e
          s' ← add_freed_blocks s i (get_start e) (get_count e)
          new ← init_extent none space block 0 count
          some (s', new ∷ []))
      ])

-- `lc_inodeAddMetaExtent` as it is built without DEBUG
unfoldable pub inode_add_meta_extent :
    (tblocks : ℕ) → Fs → List Extent → (start count : ℕ) → (sort : Bool) → Option (List Extent)
inode_add_meta_extent tblocks fs es start count sort =
    if fs.frozen then some es else add_space_extent tblocks es start count sort

-- `lc_countExtents`: the number of extents and that of their blocks
unfoldable pub count_extents : ℕ → List Extent → Option (ℕ × ℕ)
count_extents tblocks [] = some (0, 0)
count_extents tblocks (e ∷ es) = do
  assert (is_space e.ex_type)
  validate (some tblocks) e
  (count, blocks) ← count_extents tblocks es
  some (add64 1 count, add64 (get_count e) blocks)

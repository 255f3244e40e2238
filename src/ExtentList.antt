-- ===== src/ExtentList.antt =====
-- lcfs/extent.c: the operations on a linked list of extents, as functions on lists.
-- An argument `tblocks` is `gfs->gfs_super->sb_tblocks`.
pub mod View
pub mod Insert
pub mod Unsorted
pub mod Cut
pub mod Remove
pub mod EmapInsert
pub mod EmapLaws
pub mod Count
use lcfs.Prelude.{
  ℕ, ◌+◌, ◌-◌, Bool, true, false, not, ◌&&◌, ◌||◌, Option, none, some, List, [], ◌∷◌, ltb, leb,
  ◌==◌, if◌then◌else◌, assert, ◌>>=◌, ◌>>◌,
}
use lcfs.Prelude.Words.{add64, sub64}
use lcfs.Extent.{
  ExtentType, space, emap, Extent, is_space, get_start, get_block, get_count, init_extent,
  incr_count, incr_start, decr_start, decr_count, adjacent,
}

-- `lc_extentAdjacent` on two extents.
abbrev touches : Extent → Extent → Option Bool
touches e n =
    adjacent (get_start e) (get_block e) (get_count e) (get_start n) (get_block n) (get_count n)

-- `lc_mergeExtents(gfs, fs, extent, extent->ex_next, NULL)`
unfoldable pub merge_next : ℕ → Extent → List Extent → Option (List Extent)
unfolding incr_count adjacent
merge_next tblocks e [] = some (e ∷ [])
merge_next tblocks e (n ∷ es) = touches e n >>= λ joined.
    if joined
    then (incr_count (some tblocks) e (get_count n) >>= λ e'. some (e' ∷ es))
    else some (e ∷ n ∷ es)

-- `lc_mergeExtents(gfs, fs, extent, NULL, *prev)`: there `*prev` is `extent` itself. Were the extent
-- adjacent to itself, it would be freed while it stands in the list, which is a fault.
unfoldable pub merge_prev : Extent → List Extent → Option (List Extent)
unfolding adjacent
merge_prev e es = touches e e >>= λ joined. if joined then none else some (e ∷ es)

abbrev starts_after : List Extent → ℕ → Bool
starts_after [] end = true
starts_after (e ∷ es) end = leb end (get_start e)

-- The new extent stands in front of `es`.
unfoldable pub new_extent : (start block count : ℕ) → List Extent → Bool → Option (List Extent)
unfolding init_extent
new_extent start block count es sort = do
  e ← init_extent none (if ltb 0 block then emap else space) start block count
  assert (not sort || starts_after es (add64 (get_start e) (get_count e)))
  some (e ∷ es)

-- The loop of `lc_addExtent`, from the extent that it stands at.
unfoldable pub add_loop : ℕ → Bool → (start block count : ℕ) → List Extent → Option (List Extent)
add_loop tblocks sort start block count [] = new_extent start block count [] sort
add_loop tblocks sort start block count (e ∷ es) =
    let rest = add_loop tblocks sort start block count es in
    let estart = get_start e in
    let eblock = get_block e in
    let ecount = get_count e in
    adjacent estart eblock ecount start block count >>= λ before.
    if before
    then (incr_count (some tblocks) e count >>= λ e'. merge_next tblocks e' es)
    else (adjacent start block count estart eblock ecount >>= λ after.
        if after
        then (do
          e₁ ← decr_start none e count
          e₂ ← incr_count (some tblocks) e₁ count
          merge_prev e₂ es)
        else if not sort
        then (assert (block == 0) >> new_extent start block count (e ∷ es) sort)
        else if ltb start estart || (ltb 0 block && add64 start count == estart)
        then new_extent start block count (e ∷ es) sort
        else if ltb 0 block && add64 estart ecount == start
        then (new_extent start block count es sort >>= λ es'. some (e ∷ es'))
        else (do assert (ltb (add64 estart ecount) start); es' ← rest; some (e ∷ es')))

unfoldable pub add_extent : ℕ → List Extent → (start block count : ℕ) → Bool → Option (List Extent)
unfolding add_loop
add_extent tblocks es start block count sort = do
  assert (leb (add64 (if ltb 0 block then block else start) count) tblocks)
  add_loop tblocks sort start block count es

-- `lc_freeExtent` unlinks the extent: what stands behind it takes its place.
abbrev pub free_extent : Extent → List Extent → List Extent
free_extent e es = es

-- `lc_updateExtent`: what stands in the place of `e ∷ es` when `freed` blocks from `start` are taken
-- off `e`.
unfoldable pub update_extent :
    ℕ → Extent → List Extent → (estart ecount start freed : ℕ) → Option (List Extent)
update_extent tblocks e es estart ecount start freed = do
  assert (leb estart start)
  assert (leb (add64 start freed) (add64 estart ecount))
  if estart == start
      then (decr_count (some tblocks) e freed >>= λ (e', release).
          if release
          then some (free_extent e' es)
          else (incr_start (some tblocks) e' freed >>= λ e''. some (e'' ∷ es)))
      else if add64 start freed == add64 estart ecount
      then (do
        (e', release) ← decr_count (some tblocks) e freed
        assert (not release)
        some (e' ∷ es))
      else (do
        new ←
            init_extent (some tblocks) e.ex_type (add64 start freed)
              (add64 (add64 (get_block e) (sub64 start estart)) freed)
              (sub64 (add64 estart ecount) (add64 start freed))
        (e', release) ← decr_count (some tblocks) e (add64 freed (get_count new))
        assert (not release)
        some (e' ∷ new ∷ es))

-- `lc_removeExtent`: the number of blocks taken off, and the list.
unfoldable pub remove_extent : ℕ → List Extent → (start count : ℕ) → Option (ℕ × List Extent)
remove_extent tblocks [] start count = some (0, [])
remove_extent tblocks (e ∷ es) start count =
    let rest = remove_extent tblocks es start count in
    let estart = get_start e in
    let ecount = get_count e in
    let left = sub64 (add64 estart ecount) start in
    let freed = if ltb count left then count else left in
    if ltb start estart
    then some (0, e ∷ es)
    else if ltb start (add64 estart ecount)
    then (update_extent tblocks e es estart ecount start freed >>= λ es'. some (freed, es'))
    else (rest >>= λ (freed', es'). some (freed', e ∷ es'))

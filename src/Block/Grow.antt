-- ===== src/Block/Grow.antt =====
-- `lc_grow`: the file system takes up a device that became larger.
use lcfs.Prelude.{ℕ, ◌-◌, ◌*◌, ◌/◌, true, leb, Option, some, if◌then◌else◌, ◌>>=◌, ◌>>◌, assert}
use lcfs.Extent.{Extent}
use lcfs.ExtentList.Insert.{insert}
use lcfs.Block.{
  State, add_space_extent, reserved_percent, block_size, mark_extents_dirty, update_fs,
}
use lcfs.Block.Owner.{IsSound}

-- `lc_grow`; `size` is the size of the device in bytes. The mark on the superblock is not modelled.
unfoldable pub grow : State → (size : ℕ) → Option State
grow s size = do
  assert (leb (s.tblocks * block_size) size)
  let block = size / block_size
  if leb block s.tblocks then some s else (do
    es ← add_space_extent block s.extents s.tblocks (block - s.tblocks) true
    some (
        mark_extents_dirty
          (record s {
            tblocks = block;
            extents = es;
            blocks_reserved = block * reserved_percent / 100;
          })
          0))

abbrev marked : State → State
marked s = update_fs s 0 (record (s.fs 0) { extents_dirty = true })

module _ (s : State) (sound : IsSound s) where
  abbrev grown : (block : ℕ) → State
  grown block = record s {
    tblocks = block;
    extents = insert s.tblocks (block - s.tblocks) s.extents;
    blocks_reserved = block * reserved_percent / 100;
  }

-- ===== src/Xattr/Disk.antt =====
-- lcfs/xattr.c: the attributes of an inode on the device, in a chain of blocks.
-- `struct dxattr` with what follows it is `Xattr`: the lengths of the name and of the value are those
-- of their lists, and below 2 ^ 16, since an attribute that does not fit in a block is not written.
-- An inode that is flushed is dirty.
pub mod Refill
pub mod RoundTrip
use lcfs.Prelude.{
  ℕ, zero, suc, ◌+◌, ◌-◌, ◌%◌, ◌^◌, Bool, true, false, not, ◌||◌, Option, none, some, List, [], ◌∷◌,
  length, ltb, leb, ◌==◌, if◌then◌else◌, assert, ◌>>=◌, ◌>>◌,
}
use lcfs.Prelude.Words.{u64_mod, sub64}
use lcfs.Extent.{Extent}
use lcfs.Block.{State, Fs, invalid_block, block_size}
use lcfs.Block.Release.{inode_add_meta_extent}
use lcfs.Chain.{Store, pack, read_chain}
use lcfs.Chain.Flush.{Flushed, flush_pages}
use lcfs.Xattr.{Xattr, Ixattr, XattrInode, XattrLayer, empty_data, xattr_link, enable}

-- sizeof(struct dxattr), and the room for attributes in a block
abbrev pub dxattr_size : ℕ
dxattr_size = 4

abbrev pub xattr_block_size : ℕ
xattr_block_size = block_size - 16

abbrev pub xattr_dsize : Xattr → ℕ
xattr_dsize x = dxattr_size + length x.x_name + length x.x_value

-- What is left of `size` after the names of the list
unfoldable pub size_left : (size : ℕ) → List Xattr → ℕ
size_left size [] = size
size_left size (x ∷ xs) = size_left (sub64 size (length x.x_name + 1)) xs

-- `lc_xattrFlush` of an inode with attributes: its blocks, and the inode
unfoldable pub xattr_flush :
    State → ℕ → Store Xattr → XattrInode → Ixattr → Option (Flushed Xattr × XattrInode)
xattr_flush s i st inode d = do
  (_, pages) ← pack xattr_dsize xattr_block_size 0 d.xattrs
  flushed ← flush_pages s i d.extents pages st
  assert (size_left d.xsize d.xattrs == 0)
  some (
    flushed,
    record inode {
      xattr_data = some (record d { extents = flushed.extents });
      xattr_dirty = false;
    },
  )

-- The attributes of a block. `remain` is compared as a `size_t`. Behind the attributes come zeros.
unfoldable pub read_attributes : (remain : ℕ) → List Xattr → Ixattr → Option Ixattr
read_attributes remain [] d = some d
read_attributes remain (x ∷ xs) d =
    if not (ltb dxattr_size remain) || length x.x_name == 0
    then some d
    else (xattr_link d x.x_name x.x_value >>= λ d'.
        read_attributes (sub64 remain (xattr_dsize x)) xs d')

unfoldable pub read_xattr_page :
    (tblocks : ℕ) → Fs → Ixattr → (block : ℕ) → List Xattr → Option Ixattr
read_xattr_page tblocks fs d block xs = do
  es ← inode_add_meta_extent tblocks fs d.extents block 1 false
  read_attributes xattr_block_size xs (record d { extents = es })

-- `lc_xattrRead`, from the chain that begins at `block`
unfoldable pub xattr_read :
    (fuel tblocks : ℕ)
    → Fs
    → XattrLayer
    → Store Xattr
    → (block : ℕ) → XattrInode
    → Option (XattrLayer × XattrInode)
xattr_read fuel tblocks fs l st block inode = elim (inode.xattr_data) [
  | some _ ↦ none
  | none ↦
      if block == invalid_block
      then some (l, inode)
      else (read_chain fuel st block (read_xattr_page tblocks fs) empty_data >>= λ d.
          some (enable l, record inode { xattr_data = some d }))
]

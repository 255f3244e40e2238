-- ===== src/Lib.antt =====
-- LCFS, a file system whose layers are clones of their parents: how it manages the blocks of its
-- device, the maps of its files, its directories and its extended attributes.
--
-- The parts, from the bottom up:
--
-- * Extent (lcfs/extent.h): one extent, a run of blocks of the device (`space`) or a run of pages of
--   a file with its blocks (`emap`). `Extent.Fits` says when the accessors stop at no `assert`.
-- * ExtentList (lcfs/extent.c): lists of extents. `add_extent` is `lc_addExtent`, `remove_extent` is
--   `lc_removeExtent`, with their loops as recursion on the list; `merge_next` and `merge_prev` are
--   the two ways to call `lc_mergeExtents`. `ExtentList.View` gives what a list stands for: the blocks
--   that it covers, their sum, and the map from pages to blocks, with the orders that the code keeps.
--   `ExtentList.Insert`, `Unsorted`, `Cut`, `Remove`, `EmapInsert` and `EmapLaws` prove the operations
--   against plain functions, and those against the view.
-- * Block (lcfs/block.c): the allocator. `State` is `struct gfs` with its superblock and its layers,
--   each an `Fs` (`struct fs`). `find_free_block` is `lc_findFreeBlock` for a layer, split into
--   `allocate_reserved` and `allocate_global` (`lc_allocateBlock`), `reserve_chunk` and `take_chunk`.
--   `Block.Release` has the operations that give blocks back: `block_free` (`lc_blockFree`),
--   `free_layer_extent` (`lc_freeLayerExtent`), `release_reserved_blocks`, and the lists of freed
--   blocks.
--   `Block.Owner` is the abstract view: the four kinds of places that hold blocks, and the invariant
--   `IsSound` that no block is held twice and that the free blocks, those that wait for a commit and
--   those in use add up to the device. A layer's list of freed blocks is none of these places;
--   `KeepsRest` says that it stays, as do the number of the blocks in it, the flags fs_dirty and
--   fs_frozen, and the layer's extents on the device. `Block.Find`, `Free` and `FreeLayer` prove the
--   operations against it, `Block.Replace` what `lc_replaceFreedExtents` does.
--   `Block.Grow` has `lc_grow`, whose device's size is an argument.
-- * Emap (lcfs/emap.c): the map of a file from pages to blocks, over extent lists:
--   `inode_emap_lookup`, `add_emap_extent`, `remove_inode_extents`, and `inode_emap_update` with the
--   variables of its loop in a record `Scan` (Emap.Update). `Emap.Lookup`, `Runs` and `Copy` prove
--   the lookup, the addition and removal of runs, the expansion and the copy against the map that the
--   lists stand for; no theorem is about `inode_emap_update`. `Emap.Truncate` has `emap_truncate`
--   (`lc_emapTruncate`) with the record `Trimmed` of what its loop has, and
--   `free_inode_data_blocks`; its children go from one extent (`Cut`, `Round`) over the loop (`Loop`)
--   and the freed blocks (`Freed`) to the file (`File`).
-- * Chain (lcfs/dir.c, lcfs/xattr.c): what the flushes of directories and attributes share. `pack` copies entries to pages
--   of a size, `link_pages` gives the pages consecutive blocks and links them (`lc_dirFlushBlocks`,
--   `lc_xattrFlushBlocks`), `read_chain` follows the links, and `flush_pages` takes the blocks from the
--   allocator and puts them on the inode's list of extents. The device is a `Store` of pages, each the
--   list of its entries.
-- * Dir (lcfs/dir.c): a directory, its entries in one list or in a hash table (`Entries`). `dir_add`,
--   `dir_lookup`, `dir_remove`, `dir_rename` and `dir_copy` are `lc_dirAdd` and so on; `Dir.Table` says
--   when a directory is in order and what its lookup is. `Dir.Disk` has `dir_flush` and `dir_read`.
-- * Xattr (lcfs/xattr.c): the attributes of an inode and the requests on them, with their errors:
--   `xattr_add`, `xattr_get`, `xattr_list`, `xattr_remove`, `xattr_copy`. `Xattr.Names` reads the list
--   as a map from names to values, `Xattr.Strays` says which `x_value` no one has set, and
--   `Xattr.Values` what the values are in a layer. `Xattr.Disk` has `xattr_flush` and `xattr_read`.
-- * Hlink (lcfs/hlink.c): the records of hard links of a layer. `add_hlink` and `remove_hlink` are
--   `lc_addHlink` and `lc_removeHlink`; `Hlink.Count` says how many links the records count.
-- * Layers (lcfs/fs.c): the tree of layers as a store of nodes with pointers, and the table of layers:
--   `add_child`, `remove_child`, `add_layer`, `remove_layers` and `get_layer_for_removal`.
--   `Layers.Slots` says which index a layer gets. At most LC_LAYER_MAX zombies
--   are removed at once, since each has an index.
--
-- The parts interact by calls: the allocator and the emaps change their lists by `add_extent` and
-- `remove_extent` only, and an emap puts the blocks that it gives up on a list that the allocator
-- frees later. A flush asks the allocator for one range of blocks (`block_alloc_exact`) and replaces the
-- extents of the inode (`replace_freed_extents`); `HasRoom` says that both succeed.
--
-- A failed `assert` is `none`: the program is built with them. A `uint64_t` wraps where the code adds
-- or subtracts it (`add64`, `sub64`), the numbers on the device and the state are natural numbers.
-- Lists with a `next` pointer are lists, and a `prev` pointer is the place in the recursion. Loops
-- that go down a count take the count as fuel, which is enough since each round takes at least one
-- block or page; the theorems on these functions show that they end. The loops of `inode_emap_update`
-- have fuel too, and it is not shown that it is enough. A chain of blocks is read with as much fuel as it has
-- blocks. Names are lists of bytes without a 0; the names of a directory have fewer than 2 ^ 16.
--
-- Not modelled: locks, since these functions run under a lock of the list that they change; memory
-- allocation and its accounting; magic numbers and checksums of blocks; times; statistics. Mount and
-- commit, the table of inodes, caches and requests other than those on attributes (the rest of
-- lcfs/fs.c, and layer.c, inode.c, page.c, bcache.c, diff.c and fops.c) are not modelled; nor are the
-- removal of whole directory trees (`lc_removeTree`, `lc_dirRemoveName`), which needs inodes, and the
-- emap's blocks on the device.
pub mod Prelude
pub mod Extent
pub mod ExtentList
pub mod Block
pub mod Emap
pub mod Chain
pub mod Dir
pub mod Xattr
pub mod Hlink
pub mod Layers
mod Tests

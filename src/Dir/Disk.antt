-- ===== src/Dir/Disk.antt =====
-- lcfs/dir.c: a directory on the device, in a chain of blocks of entries.
-- `struct ddirent` is `Ddirent`, with `di_len` the length of the name. `list_entries` is the order in
-- which lc_dirFlush comes to the entries. A directory that is flushed is dirty.
pub mod Listed
pub mod Refill
pub mod Start
pub mod RoundTrip
use lcfs.Prelude.{
  ◌-◌, ◌&&◌, ℕ, zero, suc, ◌+◌, ◌%◌, ◌^◌, Bool, true, false, not, ◌||◌, Option, none, some, List,
  [], ◌∷◌, ◌++◌, length, ltb, leb, ◌==◌, if◌then◌else◌, assert, ◌>>=◌, ◌>>◌,
}
use lcfs.Prelude.Words.{u64_mod, add64, sub64}
use lcfs.Extent.{Extent}
use lcfs.Block.{State, Fs}
use lcfs.Block.Release.{inode_add_meta_extent}
use lcfs.Chain.{Store, pack, read_chain}
use lcfs.Chain.Flush.{Flushed, flush_pages}
use lcfs.Dir.{
  Name, Dirent, Entries, plain, hashed, Dir, is_dir, is_plain, dircache_size, dircache_min,
  dir_convert_hashed, dir_add,
}

-- LC_MIN_DIRENT_SIZE and the room for entries in a block
abbrev pub min_dirent_size : ℕ
min_dirent_size = 12

abbrev pub dir_block_size : ℕ
dir_block_size = 4096 - 16

pub record Ddirent : Type 0 where
  pub di_inum : ℕ
  pub di_type : ℕ
  pub di_dname : Name

abbrev pub to_disk : Dirent → Ddirent
to_disk e = record { di_inum = e.di_ino; di_type = e.di_mode; di_dname = e.di_name }

abbrev pub dsize : Ddirent → ℕ
dsize d = min_dirent_size + length d.di_dname

-- The buckets from `i`, of which `n` are left, in order, and the number of their entries. It stops
-- after the bucket at which all entries were seen.
unfoldable pub list_table : (n i entries size : ℕ) → (ℕ → List Dirent) → List Dirent × ℕ
list_table zero i entries size t = ([], entries)
list_table (suc n) i entries size t =
    let entries' = add64 entries (length (t i)) in
    let rest = list_table n (i + 1) entries' size t in
    if entries' == size then (t i, entries') else (t i ++ rest.0, rest.1)

unfoldable pub list_entries : Entries → (size : ℕ) → List Dirent × ℕ
list_entries (plain es) size = (es, length es % u64_mod)
list_entries (hashed t) size = list_table dircache_size 0 0 size t

-- The links of a directory: those that its entries give
unfoldable pub count_subdirs : (subdir : ℕ) → List Ddirent → ℕ
count_subdirs subdir [] = subdir
count_subdirs subdir (d ∷ ds) =
    count_subdirs (if is_dir d.di_type then (subdir + 1) % 2 ^ 32 else subdir) ds

abbrev pub disk_entries : List Dirent → List Ddirent
disk_entries [] = []
disk_entries (e ∷ es) = to_disk e ∷ disk_entries es

-- `lc_dirFlush`: the directory's blocks and what is left of it in memory
unfoldable pub dir_flush :
    State → ℕ → Store Ddirent → (extents : List Extent) → Dir → Option (Flushed Ddirent × Dir)
dir_flush s i st extents dir = do
  let (es, entries) = list_entries dir.entries dir.size
  let ds : List Ddirent = disk_entries es
  (_, pages) ← pack dsize dir_block_size 0 ds
  flushed ← flush_pages s i extents pages st
  assert (dir.nlink == count_subdirs (if dir.removed then 0 else 2) ds)
  assert (dir.size == entries)
  some (flushed, record dir { dir_dirty = false })

-- What lc_dirRead has while it reads: the directory, its extents, `count` and `entries`
pub record Reading : Type 0 where
  pub dir : Dir
  pub extents : List Extent
  pub count : ℕ
  pub read : ℕ

-- The entries of a block. `remain` is compared as a `size_t`. Behind the entries come zeros.
unfoldable pub read_entries : (remain : ℕ) → List Ddirent → Reading → Option Reading
read_entries remain [] r = some r
read_entries remain (d ∷ ds) r =
    if not (ltb min_dirent_size remain) || d.di_inum == 0
    then some r
    else (dir_add r.dir d.di_inum d.di_type d.di_dname >>= λ dir.
        read_entries (sub64 remain (dsize d)) ds (record r {
          dir = dir;
          count = if is_dir d.di_type then (r.count + 1) % 2 ^ 32 else r.count;
          read = add64 r.read 1;
        }))

unfoldable pub read_page :
    (tblocks : ℕ) → Fs → Reading → (block : ℕ) → List Ddirent → Option Reading
read_page tblocks fs r block ds = do
  es ← inode_add_meta_extent tblocks fs r.extents block 1 false
  read_entries dir_block_size ds (record r { extents = es })

-- `lc_dirRead`, which fills the directory from the chain that begins at `block`
unfoldable pub dir_read :
    (fuel tblocks : ℕ)
    → Fs
    → Store Ddirent
    → (block : ℕ) → (extents : List Extent) → Dir
    → Option (Dir × List Extent)
dir_read fuel tblocks fs st block extents dir = do
  let d : Dir =
      if leb dircache_min dir.size && is_plain dir.entries then dir_convert_hashed dir else dir
  r ←
      read_chain fuel st block (read_page tblocks fs)
        (record { dir = record d { size = 0 }; extents = extents; count = 2; read = 0 })
  assert (r.dir.nlink == r.count)
  assert (r.dir.size == r.read)
  some (r.dir, r.extents)

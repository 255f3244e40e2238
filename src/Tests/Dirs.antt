-- ===== src/Tests/Dirs.antt =====
-- The theorems on directories at concrete values: a directory with two files, in one list and hashed.
use lcfs.Prelude.{
  concat, ℕ, ◌≡◌, ◌≤◌, refl, sym, Bool, true, false, List, [], ◌∷◌, length, arith, none, some,
}
use lcfs.Extent.{init_extent, decr_count, incr_start, validate}
use lcfs.Block.{
  Fs, State, block_alloc_exact, block_alloc, find_free_block, allocate_reserved, first_fit,
  take_reserved, track_allocated, count_blocks, mark_extents_dirty, add_space_extent,
}
use lcfs.ExtentList.{add_extent, add_loop, new_extent}
use lcfs.Block.Release.{replace_freed_extents}
use lcfs.Chain.{pack}
use lcfs.Chain.Flush.{HasRoom}
use lcfs.Dir.{
  Name, name_eq, dirhash, dircache_size, Dirent, Entries, plain, hashed, Dir, rehash, find,
  dir_get_dirent, dir_lookup,
}
use lcfs.Dir.Names.{dirhash-lt}
use lcfs.Dir.Table.{Distinct, IsDir}
use lcfs.Dir.Rehash.{rehash-IsTable, count-rehash_all}
use lcfs.Dir.Add.{Added, dir_add-Added}
use lcfs.Dir.Remove.{Removed, dir_remove-Removed}
use lcfs.Dir.Renamed.{DirRenamed, dir_rename-DirRenamed}
use lcfs.Dir.Copy.{DirCopied, dir_copy-DirCopied}
use lcfs.Dir.Disk.{Ddirent, dsize, dir_block_size, list_entries, count_subdirs}
use lcfs.Chain.Pack.{pack-pages, ArePages}
use lcfs.Dir.Disk.Start.{AllStorable-AllFit, stored, pages_of}
use lcfs.Dir.Disk.RoundTrip.{IsStorable, Restored, dir_read-dir_flush}
use lcfs.Tests.{space_extent}

-- The names "bin", "etc" and "tmp"
abbrev bin : Name
bin = 98 ∷ 105 ∷ 110 ∷ []

abbrev etc : Name
etc = 101 ∷ 116 ∷ 99 ∷ []

abbrev tmp : Name
tmp = 116 ∷ 109 ∷ 112 ∷ []

abbrev two_entries : List Dirent
two_entries =
    record { di_ino = 12; di_name = etc; di_index = 2; di_mode = 0x8000 }
    ∷ record { di_ino = 11; di_name = bin; di_index = 1; di_mode = 0x4000 }
    ∷ []

abbrev dir_of : Entries → Bool → Dir
dir_of entries shared = record {
  entries = entries;
  size = 2;
  nlink = 3;
  shared = shared;
  removed = false;
  dir_dirty = true;
}

abbrev listed : Dir
listed = dir_of (plain two_entries) false

abbrev table : ℕ → List Dirent
table = rehash two_entries (λ i. [])

two_entries-Distinct : Distinct two_entries
unfolding find name_eq
two_entries-Distinct = (refl, (refl, tt))

listed-IsDir : IsDir listed
listed-IsDir = record { entries_ok = two_entries-Distinct; counted = refl; bounded = omega arith }

hashed-IsDir : (shared : Bool) → IsDir (dir_of (hashed table) shared)
hashed-IsDir shared = record {
  entries_ok = rehash-IsTable two_entries two_entries-Distinct;
  counted = sym (count-rehash_all dircache_size two_entries dirhash-lt);
  bounded = omega arith;
}

found_bin : dir_lookup (dir_of (hashed table) false) bin ≡ some 11
unfolding dir_lookup dir_get_dirent rehash dirhash find name_eq
found_bin = refl

no_tmp : dir_lookup (dir_of (hashed table) false) tmp ≡ none
unfolding dir_lookup dir_get_dirent rehash dirhash find name_eq
no_tmp = refl

dir_add-Added_example : (dir' : Dir) × Added listed 13 0x81A4 tmp dir'
dir_add-Added_example =
    dir_add-Added listed 13 0x81A4 tmp listed-IsDir refl (omega arith) (omega arith)

dir_remove-Removed_example : (dir' : Dir) × Removed (dir_of (hashed table) false) bin dir'
dir_remove-Removed_example =
    dir_remove-Removed (dir_of (hashed table) false) bin 11 (hashed-IsDir false) refl found_bin

dir_rename-DirRenamed_example :
    (dir' : Dir) × DirRenamed (dir_of (hashed table) false) 11 bin tmp dir'
dir_rename-DirRenamed_example =
    dir_rename-DirRenamed (dir_of (hashed table) false) 11 bin tmp (hashed-IsDir false) refl
      found_bin no_tmp

dir_copy-DirCopied_example : (dir' : Dir) × DirCopied (dir_of (hashed table) true) dir'
dir_copy-DirCopied_example =
    dir_copy-DirCopied (dir_of (hashed table) true) (hashed-IsDir true) refl (omega arith)

abbrev pub layer : Fs
layer = record {
  extents = space_extent 20 10 ∷ [];
  aextents = [];
  fextents = [];
  reserved_blocks = 10;
  blocks = 10;
  freed = 0;
  extents_dirty = false;
  dirty = false;
  frozen = false;
  sb_extent_block = 0;
  sb_extent_count = 0;
}

abbrev pub device : State
device = record {
  tblocks = 1000;
  sb_blocks = 500;
  blocks_reserved = 100;
  dcount = 0;
  extents = space_extent 100 400 ∷ [];
  fextents = [];
  fs = λ i. layer;
}

one_page-le : length (pages_of (stored listed)) ≤ 1
unfolding pack list_entries
one_page-le = omega arith

listed-IsStorable : IsStorable listed
unfolding list_entries count_subdirs
listed-IsStorable = record {
  in_order = listed-IsDir;
  kept = refl;
  links = refl;
  entries_ok = (
    (omega arith, omega arith, omega arith, omega arith),
    ((omega arith, omega arith, omega arith, omega arith), tt),
  );
}

-- The state after one block is allocated to the layer 2
unfoldable pub after_alloc : State
unfolding block_alloc_exact
after_alloc = elim (block_alloc_exact device 2 1) [ none ↦ device | some (block, s) ↦ s ]

device-HasRoom : HasRoom device 2 [] (length (pages_of (stored listed)))
unfolding after_alloc pack list_entries block_alloc_exact block_alloc find_free_block
    allocate_reserved first_fit take_reserved track_allocated count_blocks mark_extents_dirty
    add_space_extent add_extent add_loop new_extent init_extent decr_count incr_start
    replace_freed_extents validate
device-HasRoom = record {
  block = 20;
  allocated = after_alloc;
  recorded = after_alloc;
  extents = space_extent 20 1 ∷ [];
  alloc = refl;
  replace = refl;
  positive = omega arith;
  inside = omega arith;
}

dir_read-dir_flush_example : Restored device 2 1000 1 (λ b. none) [] layer listed
dir_read-dir_flush_example =
    dir_read-dir_flush device 2 1000 1 (λ b. none) [] layer listed listed-IsStorable (omega arith)
      (omega arith) (omega arith) one_page-le device-HasRoom

pack-pages_example :
    (pages : List (List Ddirent)) × (pack dsize dir_block_size 0 (stored listed) ≡ some ([], pages))
    × (concat pages ≡ stored listed)
    × ArePages dsize dir_block_size pages
pack-pages_example =
    pack-pages dsize dir_block_size (stored listed)
      (AllStorable-AllFit (stored listed) listed-IsStorable.entries_ok)

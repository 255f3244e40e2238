-- ===== src/Dir/Disk/Start.antt =====
-- The directory that lc_dirRead starts from, and what goes to the device.
use lcfs.Prelude.{
  ℕ, suc, ◌≡◌, inl, inr, refl, sym, ap, ◌∙◌, false, ◌&&◌, List, [], ◌∷◌, length, arith, none, some,
  if◌then◌else◌, Bool-cases, ◌>>=◌, leb,
}
use lcfs.Chain.{pack}
use lcfs.Chain.Pack.{AllFit}
use lcfs.Dir.{
  Name, name_eq, dir_get_dirent, Dirent, plain, Dir, is_plain, dircache_size, dircache_min,
  dir_convert_hashed, dir_lookup, rehash, find,
}
use lcfs.Dir.Table.{Distinct, ino_of, ino_of-none, IsDir}
use lcfs.Dir.Rehash.{ino_of-cons, count_below-empty}
use lcfs.Dir.Disk.{Ddirent, disk_entries, dsize, dir_block_size, list_entries}
use lcfs.Dir.Disk.Refill.{of_disk, AllStorable, AllNew}

-- What goes to the device
abbrev pub stored : Dir → List Ddirent
stored dir = disk_entries (list_entries dir.entries dir.size).0

abbrev pub pages_of : List Ddirent → List (List Ddirent)
pages_of ds = elim (pack dsize dir_block_size 0 ds) [ none ↦ [] | some (here, pages) ↦ pages ]

-- The inode of a directory as it is read from the device, before its entries are
abbrev pub loaded : (size nlink : ℕ) → Dir
loaded size nlink = record {
  entries = plain [];
  size = size;
  nlink = nlink;
  shared = false;
  removed = false;
  dir_dirty = false;
}

pub AllStorable-AllFit : (ds : List Ddirent) → AllStorable ds → AllFit dsize dir_block_size ds
AllStorable-AllFit [] a = tt
AllStorable-AllFit (d ∷ ds) a = (omega arith, omega (arith, a.0), AllStorable-AllFit ds a.1)

pub ino_of-of_disk :
    (es : List Dirent) (name : Name) → ino_of (of_disk (disk_entries es)) name ≡ ino_of es name
ino_of-of_disk [] name = refl
ino_of-of_disk (e ∷ es) name =
    let d : Dirent = record {
      di_ino = e.di_ino;
      di_name = e.di_name;
      di_index = 0;
      di_mode = e.di_mode;
    } in
    ino_of-cons d (of_disk (disk_entries es)) name
    ∙ ap (λ o. if name_eq name e.di_name then some e.di_ino else o) (ino_of-of_disk es name)
    ∙ sym (ino_of-cons e es name)

pub of_disk-Distinct : (es : List Dirent) → Distinct es → Distinct (of_disk (disk_entries es))
of_disk-Distinct [] d = tt
of_disk-Distinct (e ∷ es) d = (
  ino_of-none (of_disk (disk_entries es)) e.di_name
      (ino_of-of_disk es e.di_name ∙ ap (λ o. o >>= λ x. some x.di_ino) d.0),
  of_disk-Distinct es d.1,
)

pub length-disk_entries : (es : List Dirent) → length (disk_entries es) ≡ length es
length-disk_entries [] = refl
length-disk_entries (e ∷ es) = ap suc (length-disk_entries es)

-- The directory that the entries are read into
abbrev pub started : Dir → Dir
started dir =
    record (if leb dircache_min dir.size && is_plain dir.entries
      then dir_convert_hashed dir
      else dir) { size = 0 }

pub record IsEmpty (nlink : ℕ) (dir : Dir) : Type 0 where
  pub nothing : (name : Name) → dir_lookup dir name ≡ none
  pub in_order : IsDir dir
  pub own : dir.shared ≡ false
  pub linked : dir.nlink ≡ nlink
  pub zero_size : dir.size ≡ 0

pub started-IsEmpty : (size nlink : ℕ) → IsEmpty nlink (started (loaded size nlink))
unfolding dir_lookup find rehash dir_get_dirent
started-IsEmpty size nlink = elim (Bool-cases (leb dircache_min size)) [
  | inl h ↦ rw h (record {
    nothing = λ name. refl;
    in_order = record {
      entries_ok = λ i. (tt, tt);
      counted = sym (count_below-empty dircache_size);
      bounded = omega arith;
    };
    own = refl;
    linked = refl;
    zero_size = refl;
  })
  | inr h ↦ rw h (record {
    nothing = λ name. refl;
    in_order = record { entries_ok = tt; counted = refl; bounded = omega arith };
    own = refl;
    linked = refl;
    zero_size = refl;
  })
]

pub AllNew-IsEmpty :
    (dir : Dir) (ds : List Ddirent) → ((name : Name) → dir_lookup dir name ≡ none) → AllNew dir ds
AllNew-IsEmpty dir [] h = tt
AllNew-IsEmpty dir (d ∷ ds) h = (h d.di_dname, AllNew-IsEmpty dir ds h)

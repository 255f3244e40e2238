-- ===== src/Dir.antt =====
-- lcfs/dir.c: the entries of a directory, in one list or in a hash table.
-- A name is the list of its bytes, none of them 0, so that `di_size` is its length and two names are
-- equal just if `strlen` and `strcmp` say so; it has fewer than 2 ^ 16 bytes. `i_dirent` and
-- `i_hdirent` share their place in `struct inode`, and LC_INODE_DHASHED tells which it is: `Entries`.
-- Only directories come here. Memory is not modelled.
pub mod Names
pub mod Table
pub mod Rehash
pub mod Add
pub mod Bucket
pub mod Remove
pub mod Rename
pub mod Renamed
pub mod Copy
pub mod Disk
use lcfs.Prelude.{
  ℕ, zero, suc, ◌+◌, ◌-◌, ◌*◌, ◌/◌, ◌%◌, ◌^◌, Bool, true, false, not, ◌&&◌, ◌||◌, Option, none,
  some, List, [], ◌∷◌, length, ltb, leb, ◌==◌, if◌then◌else◌, assert, ◌>>=◌, ◌>>◌,
}
use lcfs.Prelude.Words.{u64_mod, add64, sub64}

-- LC_DIRCACHE_MIN, LC_DIRCACHE_SIZE, LC_DIRHASH_LEN and LC_ROOT_INODE
abbrev pub dircache_min : ℕ
dircache_min = 32

abbrev pub dircache_size : ℕ
dircache_size = 512

abbrev pub dirhash_len : ℕ
dirhash_len = 10

abbrev pub root_inode : ℕ
root_inode = 2

abbrev pub Name : Type 0
Name = List ℕ

-- `strlen(a) == strlen(b) && strcmp(a, b) == 0`
unfoldable pub name_eq : Name → Name → Bool
name_eq [] [] = true
name_eq (a ∷ xs) (b ∷ ys) = a == b && name_eq xs ys
name_eq _ _ = false

-- What a `char`, which is signed, adds to a `uint32_t`
abbrev char_value : ℕ → ℕ
char_value c = if ltb c 128 then c else c + 2 ^ 32 - 256

-- The sum of the first `n` characters
name_sum : (n : ℕ) → Name → (hash : ℕ) → ℕ
name_sum zero cs hash = hash
name_sum (suc n) [] hash = hash
name_sum (suc n) (c ∷ cs) hash = name_sum n cs ((hash + char_value c) % 2 ^ 32)

-- `lc_dirhash`
unfoldable pub dirhash : Name → ℕ
unfolding name_sum
dirhash name = (name_sum dirhash_len name 0 + length name) % dircache_size

-- `struct dirent`
pub record Dirent : Type 0 where
  pub di_ino : ℕ
  pub di_name : Name
  pub di_index : ℕ
  pub di_mode : ℕ

pub data Entries : Type 0 where
  plain : List Dirent → Entries
  hashed : (ℕ → List Dirent) → Entries

-- `struct inode` of a directory
pub record Dir : Type 0 where
  pub entries : Entries
  pub size : ℕ
  pub nlink : ℕ
  pub shared : Bool
  pub removed : Bool
  pub dir_dirty : Bool

-- S_IFMT and S_ISDIR
abbrev pub file_type : (mode : ℕ) → ℕ
file_type mode = mode / 4096 % 16 * 4096

abbrev pub is_dir : (mode : ℕ) → Bool
is_dir mode = file_type mode == 0x4000

-- The index of an entry that comes in front of a list
abbrev pub next_index : List Dirent → ℕ
next_index [] = 1
next_index (e ∷ es) = (e.di_index + 1) % 2 ^ 32

abbrev pub set_bucket : (ℕ → List Dirent) → (hash : ℕ) → List Dirent → ℕ → List Dirent
set_bucket t hash es i = if i == hash then es else t i

-- The entry at the front of a bucket
abbrev pub push : (ℕ → List Dirent) → Dirent → ℕ → List Dirent
push t e =
    let hash = dirhash e.di_name in
    set_bucket t hash (record e { di_index = next_index (t hash) } ∷ t hash)

-- The loop of `lc_dirConvertHashed`
unfoldable pub rehash : List Dirent → (ℕ → List Dirent) → ℕ → List Dirent
rehash [] t = t
rehash (e ∷ es) t = rehash es (push t e)

-- The entries of a list in a table
abbrev pub convert_entries : Entries → Entries
convert_entries (plain es) = hashed (rehash es (λ i. []))
convert_entries (hashed t) = hashed t

-- `lc_dirConvertHashed`
abbrev pub dir_convert_hashed : Dir → Dir
dir_convert_hashed dir = record dir { entries = convert_entries dir.entries }

-- `lc_dirGetDirent`
unfoldable pub dir_get_dirent : Entries → Name → List Dirent
dir_get_dirent (plain es) name = es
dir_get_dirent (hashed t) name = t (dirhash name)

-- The search of a list for a name
unfoldable pub find : List Dirent → Name → Option Dirent
find [] name = none
find (e ∷ es) name = let rest = find es name in if name_eq name e.di_name then some e else rest

-- `lc_dirLookup`; `none` is LC_INVALID_INODE
unfoldable pub dir_lookup : Dir → Name → Option ℕ
dir_lookup dir name = find (dir_get_dirent dir.entries name) name >>= λ e. some e.di_ino

-- The list is written where it came from.
abbrev pub set_list : Entries → Name → List Dirent → Entries
set_list (plain es) name es' = plain es'
set_list (hashed t) name es' = hashed (set_bucket t (dirhash name) es')

-- The entry in front of its list
abbrev pub insert_entry : Entries → Dirent → Entries
insert_entry (plain es) e = plain (record e { di_index = next_index es } ∷ es)
insert_entry (hashed t) e = hashed (push t e)

abbrev pub is_plain : Entries → Bool
is_plain (plain es) = true
is_plain (hashed t) = false

-- The entry that is made; `di_ino` has 48 bits.
abbrev pub new_entry : (ino mode : ℕ) → Name → Dirent
new_entry ino mode name = record {
  di_ino = ino % 2 ^ 48;
  di_name = name;
  di_index = 0;
  di_mode = file_type mode;
}

-- `lc_dirAdd`
unfoldable pub dir_add : Dir → (ino mode : ℕ) → Name → Option Dir
dir_add dir ino mode name = do
  assert (not dir.shared)
  assert (ltb root_inode ino)
  let d : Dir =
      if leb dircache_min dir.size && is_plain dir.entries then dir_convert_hashed dir else dir
  let entries' : Entries = insert_entry d.entries (new_entry ino mode name)
  some (record d { entries = entries'; size = add64 d.size 1 })

-- The list without the first entry of that name. `none`: there is none, which stops at an `assert`.
unfoldable pub remove_entry : List Dirent → Name → Option (List Dirent)
remove_entry [] name = none
remove_entry (e ∷ es) name =
    let rest = remove_entry es name in
    if name_eq name e.di_name then some es else (rest >>= λ es'. some (e ∷ es'))

-- `lc_dirRemove`
unfoldable pub dir_remove : Dir → Name → Option Dir
dir_remove dir name = do
  assert (not dir.shared)
  es ← remove_entry (dir_get_dirent dir.entries name) name
  some (record dir { entries = set_list dir.entries name es; size = sub64 dir.size 1 })

-- The entry that a rename is about
abbrev pub is_entry : (ino : ℕ) → Name → Dirent → Bool
is_entry ino name e = e.di_ino == ino && name_eq name e.di_name

-- The entry gets its new name where it stands.
unfoldable pub rename_in_place :
    List Dirent → (ino : ℕ) → (name newname : Name) → Option (List Dirent)
rename_in_place [] ino name newname = none
rename_in_place (e ∷ es) ino name newname =
    let rest = rename_in_place es ino name newname in
    if is_entry ino name e
    then some (record e { di_name = newname } ∷ es)
    else (rest >>= λ es'. some (e ∷ es'))

-- The entry leaves its list.
unfoldable pub take_entry : List Dirent → (ino : ℕ) → Name → Option (Dirent × List Dirent)
take_entry [] ino name = none
take_entry (e ∷ es) ino name =
    let rest = take_entry es ino name in
    if is_entry ino name e then some (e, es) else (rest >>= λ (found, es'). some (found, e ∷ es'))

-- The search of `lc_dirRename` and what it does to the entry: it moves to another bucket, if its new
-- name has another hash.
unfoldable pub rename_entry : Entries → (ino : ℕ) → (name newname : Name) → Option Entries
rename_entry (plain es) ino name newname =
    rename_in_place es ino name newname >>= λ es'. some (plain es')
rename_entry (hashed t) ino name newname =
    if dirhash name == dirhash newname
    then (rename_in_place (t (dirhash name)) ino name newname >>= λ es.
        some (hashed (set_bucket t (dirhash name) es)))
    else (take_entry (t (dirhash name)) ino name >>= λ (e, es).
        some (hashed (push (set_bucket t (dirhash name) es) (record e { di_name = newname }))))

-- `lc_dirRename`
unfoldable pub dir_rename : Dir → (ino : ℕ) → (name newname : Name) → Option Dir
dir_rename dir ino name newname = do
  assert (not dir.shared)
  entries ← rename_entry dir.entries ino name newname
  some (record dir { entries = entries })

-- The loop of `lc_dirCopy` over the buckets from `i`, of which `n` are left: the copies, and how
-- many entries were copied. It stops when all were.
unfoldable pub copy_table : (n i count size : ℕ) → (ℕ → List Dirent) → (ℕ → List Dirent) × ℕ
copy_table zero i count size t = (λ j. [], count)
copy_table (suc n) i count size t =
    let rest = copy_table n (i + 1) (add64 count (length (t i))) size t in
    if count == size then (λ j. [], count) else (set_bucket (rest.0) i (t i), rest.1)

unfoldable pub copy_entries : Entries → (size : ℕ) → Entries × ℕ
copy_entries (plain es) size = (plain es, length es % u64_mod)
copy_entries (hashed t) size =
    let (t', count) = copy_table dircache_size 0 0 size t in (hashed t', count)

-- `lc_dirCopy`
unfoldable pub dir_copy : Dir → Option Dir
dir_copy dir = do
  assert dir.shared
  assert (leb 2 dir.nlink)
  let (entries, count) = copy_entries dir.entries dir.size
  assert (dir.size == count)
  some (record dir { entries = entries; shared = false; dir_dirty = true })

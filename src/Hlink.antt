-- ===== src/Hlink.antt =====
-- lcfs/hlink.c: the records of hard links of a layer, for the list of changes between layers.
-- `Layer` holds the fields of `struct fs` and `struct gfs` that these functions use, `Inode` those of
-- `struct inode`. Locks and memory are not modelled.
pub mod Count
pub mod Laws
use lcfs.Prelude.{
  ℕ, ◌+◌, ◌-◌, ◌%◌, ◌^◌, Bool, true, false, not, ◌&&◌, ◌||◌, Option, none, some, List, [], ◌∷◌, ltb,
  ◌==◌, if◌then◌else◌, assert, ◌>>=◌, ◌>>◌,
}

-- LC_ROOT_INODE
abbrev pub root_inode : ℕ
root_inode = 2

-- `struct hldata`
pub record Hldata : Type 0 where
  pub hl_ino : ℕ
  pub hl_parent : ℕ
  pub hl_nlink : ℕ

pub record Layer : Type 0 where
  pub root : ℕ
  pub hlinks : List Hldata
  pub shared_hlinks : Bool
  pub is_global : Bool
  pub restarted : Bool
  pub swap_layers_for_commit : Bool

pub record LinkInode : Type 0 where
  pub ino : ℕ
  pub parent : ℕ
  pub is_dir : Bool
  pub mlinks : Bool

-- `lc_copyHlinks`: the layer gets a list of its own, with the same records.
unfoldable pub copy_records : List Hldata → List Hldata
copy_records [] = []
copy_records (h ∷ hs) =
    record { hl_ino = h.hl_ino; hl_parent = h.hl_parent; hl_nlink = h.hl_nlink } ∷ copy_records hs

unfoldable pub copy_hlinks : Layer → Option Layer
copy_hlinks fs = do
  assert fs.shared_hlinks
  some (record fs { hlinks = copy_records fs.hlinks; shared_hlinks = false })

unfoldable pub own_hlinks : Layer → Option Layer
own_hlinks fs = if fs.shared_hlinks then copy_hlinks fs else some fs

-- The special notation for files in the root directory
abbrev pub parent_of : Layer → (parent : ℕ) → ℕ
parent_of fs parent = if parent == fs.root then root_inode else parent

abbrev pub is_record : (ino parent : ℕ) → Hldata → Bool
is_record ino parent h = h.hl_ino == ino && h.hl_parent == parent

-- The search for a record and the increment of its count. `none`: there is no such record.
unfoldable pub incr_record : List Hldata → (ino parent : ℕ) → Option (List Hldata)
incr_record [] ino parent = none
incr_record (h ∷ hs) ino parent =
    let rest = incr_record hs ino parent in
    if is_record ino parent h
    then some (record h { hl_nlink = (h.hl_nlink + 1) % 2 ^ 32 } ∷ hs)
    else (rest >>= λ hs'. some (h ∷ hs'))

abbrev pub new_record : (ino parent nlink : ℕ) → Hldata
new_record ino parent nlink = record { hl_ino = ino; hl_parent = parent; hl_nlink = nlink }

-- The records after a link was added.
unfoldable pub add_record : List Hldata → (ino parent : ℕ) → List Hldata
add_record hs ino parent = elim (incr_record hs ino parent) [
  | none ↦ new_record ino parent 1 ∷ hs
  | some hs' ↦ hs'
]

-- The first link beyond the one that the inode has: a record for that one comes first.
unfoldable pub add_first_record : List Hldata → (ino old parent : ℕ) → List Hldata
add_first_record hs ino old parent =
    if parent == old
    then new_record ino old 2 ∷ hs
    else new_record ino parent 1 ∷ new_record ino old 1 ∷ hs

-- `lc_addHlink`
unfoldable pub add_hlink : Layer → LinkInode → (parent : ℕ) → Option (Layer × LinkInode)
add_hlink fs inode parent =
    if fs.swap_layers_for_commit || fs.restarted || fs.is_global then some (fs, inode) else (do
      assert (not inode.is_dir)
      let p = parent_of fs parent
      fs' ← own_hlinks fs
      let hs =
          if inode.mlinks
          then add_record fs'.hlinks inode.ino p
          else add_first_record fs'.hlinks inode.ino (parent_of fs inode.parent) p
      some (record fs' { hlinks = hs }, record inode { mlinks = true }))

-- The search of `lc_removeHlink`, the decrement of the count and the removal of a record without
-- links. `none` is a failed `assert`, or the access to a record that is not there.
unfoldable pub decr_record : List Hldata → (ino parent : ℕ) → Option (List Hldata)
decr_record [] ino parent = none
decr_record (h ∷ hs) ino parent =
    let rest = decr_record hs ino parent in
    if is_record ino parent h
    then (do
      assert (ltb 0 h.hl_nlink)
      some (if h.hl_nlink == 1 then hs else record h { hl_nlink = h.hl_nlink - 1 } ∷ hs))
    else (rest >>= λ hs'. some (h ∷ hs'))

-- `lc_removeHlink` from the test of `fs_hlinks`, the last argument, on
unfoldable pub remove_from : Layer → LinkInode → (parent : ℕ) → List Hldata → Option Layer
remove_from fs inode parent [] = some fs
remove_from fs inode parent (h ∷ hs) = do
  fs' ← own_hlinks fs
  hs' ← decr_record fs'.hlinks inode.ino (parent_of fs parent)
  some (record fs' { hlinks = hs' })

-- `lc_removeHlink`
unfoldable pub remove_hlink : Layer → LinkInode → (parent : ℕ) → Option Layer
remove_hlink fs inode parent = do
  assert (not fs.restarted)
  assert (not fs.swap_layers_for_commit)
  assert (not inode.is_dir)
  assert inode.mlinks
  remove_from fs inode parent fs.hlinks

-- `lc_freeHlinks`
unfoldable pub free_hlinks : Layer → Layer
free_hlinks fs = record fs { hlinks = [] }

-- ===== src/Xattr.antt =====
-- lcfs/xattr.c: the extended attributes of an inode, in a list.
-- A name is the list of its bytes, without a 0; a value is the list of its bytes, and `x_size` is its
-- length. `x_value` is NULL if it is empty, or, if `x_stray`, what lc_malloc left there: lc_xattrCopy
-- does not set it for an empty value. To free a stray pointer is undefined, and gives `none`. `i_xattrData` is an `Option`. An inode is what
-- lc_getInode finds for the layer of the request, at its number. A request gives the reply and the
-- state. Times, statistics and locks are not modelled.
pub mod Names
pub mod Strays
pub mod Values
pub mod Change
pub mod Reply
pub mod Copy
pub mod Disk
use lcfs.Prelude.{
  ℕ, ◌+◌, ◌-◌, ◌%◌, ◌^◌, Bool, true, false, not, ◌&&◌, ◌||◌, Option, none, some, List, [], ◌∷◌,
  ◌++◌, length, ltb, leb, ◌==◌, if◌then◌else◌, assert, ◌>>=◌, ◌>>◌,
}
use lcfs.Extent.{Extent}
use lcfs.Dir.{Name, name_eq}
use lcfs.Block.{block_size}

-- `struct xattr`
pub record Xattr : Type 0 where
  pub x_name : Name
  pub x_value : List ℕ
  pub x_stray : Bool

-- `struct ixattr`
pub record Ixattr : Type 0 where
  pub xattrs : List Xattr
  pub extents : List Extent
  pub xsize : ℕ

-- `struct inode`
pub record XattrInode : Type 0 where
  pub xattr_data : Option Ixattr
  pub xattr_dirty : Bool

-- `struct gfs` and `struct fs`
pub record XattrLayer : Type 0 where
  pub layer_root : ℕ
  pub gfs_xattr_enabled : Bool
  pub xattr_enabled : Bool
  pub frozen : Bool
  pub inodes : ℕ → Option XattrInode

pub data XattrErrno : Type 0 where
  eperm : XattrErrno
  erofs : XattrErrno
  enoent : XattrErrno
  eexist : XattrErrno
  enodata : XattrErrno
  erange : XattrErrno

-- `fuse_reply_err`, with 0 or an error, `fuse_reply_xattr` and `fuse_reply_buf`
pub data Answer : Type 0 where
  done : Answer
  failed : XattrErrno → Answer
  size_of : ℕ → Answer
  buffer : List ℕ → Answer

-- XATTR_CREATE and XATTR_REPLACE
pub data XattrFlags : Type 0 where
  either : XattrFlags
  create : XattrFlags
  replace : XattrFlags

abbrev pub set_inode : XattrLayer → (ino : ℕ) → XattrInode → XattrLayer
set_inode l ino inode = record l { inodes = λ i. if i == ino then some inode else l.inodes i }

abbrev pub empty_data : Ixattr
empty_data = record { xattrs = []; extents = []; xsize = 0 }

-- `lc_xattrInit`, if there is no data
abbrev pub data_of : Option Ixattr → Ixattr
data_of none = empty_data
data_of (some d) = d

-- `lc_xattrLink`
unfoldable pub xattr_link : Ixattr → Name → (value : List ℕ) → Option Ixattr
xattr_link d name value = do
  assert (ltb (length value) block_size)
  assert (ltb (length name) block_size)
  some (record d {
    xattrs = record { x_name = name; x_value = value; x_stray = false } ∷ d.xattrs;
    xsize = (d.xsize + length name + 1) % 2 ^ 32;
  })

-- The search of the list for a name
unfoldable pub find_value : List Xattr → Name → Option (List ℕ)
find_value [] name = none
find_value (x ∷ xs) name =
    let rest = find_value xs name in if name_eq name x.x_name then some x.x_value else rest

-- Whether the attribute of that name has a stray `x_value`
unfoldable pub find_stray : List Xattr → Name → Bool
find_stray [] name = false
find_stray (x ∷ xs) name =
    let rest = find_stray xs name in if name_eq name x.x_name then x.x_stray else rest

-- The first attribute of that name gets the value. The old one is freed if its size differs; a stray
-- stays one, since it gets only an empty value (see `add_to_inode`).
unfoldable pub replace_value : List Xattr → Name → (value : List ℕ) → List Xattr
replace_value [] name value = []
replace_value (x ∷ xs) name value =
    let rest = replace_value xs name value in
    if name_eq name x.x_name then record x { x_value = value } ∷ xs else x ∷ rest

abbrev pub refuses_found : XattrFlags → Bool
refuses_found create = true
refuses_found _ = false

abbrev pub refuses_missing : XattrFlags → Bool
refuses_missing replace = true
refuses_missing _ = false

abbrev pub enable : XattrLayer → XattrLayer
enable l =
    if not l.xattr_enabled then record l { gfs_xattr_enabled = true; xattr_enabled = true } else l

abbrev pub dirty_data : Ixattr → XattrInode
dirty_data d = record { xattr_data = some d; xattr_dirty = true }

-- The part of `lc_xattrAdd` after it has the inode
unfoldable pub add_to_inode :
    XattrLayer
    → (ino : ℕ) → XattrInode
    → Name
    → (value : List ℕ) → XattrFlags
    → Option (Answer × XattrLayer)
add_to_inode l ino inode name value flags =
    let d = data_of inode.xattr_data in
    let unchanged = set_inode l ino (record inode { xattr_data = some d }) in
    elim (find_value d.xattrs name) [
      | some _ ↦
          if refuses_found flags
          then some (failed eexist, unchanged)
          else (assert (not (find_stray d.xattrs name) || length value == 0)
              >> some (
                done,
                set_inode l ino
                    (dirty_data (record d { xattrs = replace_value d.xattrs name value })),
              ))
      | none ↦
          if refuses_missing flags
          then some (failed enodata, unchanged)
          else (xattr_link d name value >>= λ d'. some (done, set_inode l ino (dirty_data d')))
    ]

-- `lc_xattrAdd`
unfoldable pub xattr_add :
    XattrLayer → (ino : ℕ) → Name → (value : List ℕ) → XattrFlags → Option (Answer × XattrLayer)
xattr_add l ino name value flags =
    if ino == l.layer_root
    then some (failed eperm, l)
    else (if l.frozen then some (failed erofs, l) else elim (l.inodes ino) [
      | none ↦ some (failed enoent, l)
      | some inode ↦ add_to_inode (enable l) ino inode name value flags
    ])

abbrev pub value_reply : (size : ℕ) → List ℕ → Answer
value_reply size value =
    if size == 0
    then size_of (length value)
    else (if leb (length value) size then buffer value else failed erange)

-- The list of an inode that may have no data
abbrev pub xattrs_of : XattrInode → List Xattr
xattrs_of inode = (data_of inode.xattr_data).xattrs

-- `lc_xattrGet`
unfoldable pub xattr_get : XattrLayer → (ino : ℕ) → Name → (size : ℕ) → Answer
xattr_get l ino name size = if not l.xattr_enabled then failed enodata else elim (l.inodes ino) [
  | none ↦ failed enoent
  | some inode ↦ elim (find_value (xattrs_of inode) name) [
    | some value ↦ value_reply size value
    | none ↦ failed enodata
  ]
]

-- The buffer of names, each with its 0
unfoldable pub names_buffer : List Xattr → List ℕ
names_buffer [] = []
names_buffer (x ∷ xs) = x.x_name ++ 0 ∷ names_buffer xs

-- The part of `lc_xattrList` for an inode with data and a buffer
unfoldable pub list_data : Ixattr → (size : ℕ) → Option Answer
list_data d size =
    if ltb size d.xsize
    then some (failed erange)
    else (if d.xsize == 0
        then some (failed enodata)
        else (assert (length (names_buffer d.xattrs) == d.xsize)
            >> some (buffer (names_buffer d.xattrs))))

-- `lc_xattrList`
unfoldable pub xattr_list : XattrLayer → (ino size : ℕ) → Option Answer
xattr_list l ino size = if not l.xattr_enabled then some (failed enodata) else elim (l.inodes ino) [
  | none ↦ some (failed enoent)
  | some inode ↦
      if size == 0
      then some (size_of (data_of inode.xattr_data).xsize)
      else elim (inode.xattr_data) [ none ↦ some (failed enodata) | some d ↦ list_data d size ]
]

-- The list without the first attribute of that name
unfoldable pub drop_value : List Xattr → Name → List Xattr
drop_value [] name = []
drop_value (x ∷ xs) name =
    let rest = drop_value xs name in if name_eq name x.x_name then xs else x ∷ rest

-- The part of `lc_xattrRemove` after it has the inode
unfoldable pub remove_from_inode :
    XattrLayer → (ino : ℕ) → XattrInode → Name → Option (Answer × XattrLayer)
remove_from_inode l ino inode name =
    let d = data_of inode.xattr_data in
    elim (find_value d.xattrs name) [
      | none ↦ some (failed enodata, l)
      | some _ ↦
          assert (not (find_stray d.xattrs name))
          >> assert (leb (length name + 1) d.xsize)
          >> some (
            done,
            set_inode l ino (
                dirty_data (record d {
                  xattrs = drop_value d.xattrs name;
                  xsize = d.xsize - (length name + 1);
                })),
          )
    ]

-- `lc_xattrRemove`
unfoldable pub xattr_remove : XattrLayer → (ino : ℕ) → Name → Option (Answer × XattrLayer)
xattr_remove l ino name =
    if not l.xattr_enabled
    then some (failed enodata, l)
    else (if l.frozen then some (failed erofs, l) else elim (l.inodes ino) [
      | none ↦ some (failed enoent, l)
      | some inode ↦ remove_from_inode l ino inode name
    ])

-- The copy of one attribute in `lc_xattrCopy`, which sets `x_value` only if the parent's is not NULL.
-- A stray of the parent may have been NULL, so its copy is a stray too.
abbrev pub copy_of : Xattr → Xattr
copy_of x = record x { x_stray = length x.x_value == 0 }

-- The loop of `lc_xattrCopy`, which puts each attribute in front of those that it copied before.
unfoldable pub copy_onto : List Xattr → List Xattr → List Xattr
copy_onto [] done_before = done_before
copy_onto (x ∷ xs) done_before = copy_onto xs (copy_of x ∷ done_before)

-- `lc_xattrCopy`, and whether there was something to copy
unfoldable pub xattr_copy : (inode parent : XattrInode) → Option (XattrInode × Bool)
xattr_copy inode parent = elim (parent.xattr_data) [
  | none ↦ some (inode, false)
  | some d ↦ elim (inode.xattr_data) [
    | some _ ↦ none
    | none ↦ some (
      record inode {
        xattr_data =
            some (record { xattrs = copy_onto d.xattrs []; extents = []; xsize = d.xsize });
      },
      true,
    )
  ]
]

-- ===== src/Xattr/Reply.antt =====
-- The answers of lc_xattrGet, lc_xattrList and lc_xattrAdd.
use lcfs.Prelude.{
  ℕ, ◌+◌, ◌≡◌, ◌<◌, ◌^◌, inl, inr, refl, sym, ap, ◌∙◌, Bool, true, false, not, ◌||◌, List, length,
  arith, Option, none, some, if◌then◌else◌, Bool-cases, ◌==◌, ltb, leb, ◌>>=◌, Option-cases,
}
use lcfs.Dir.{Name}
use lcfs.Dir.Names.{name_eq_refl}
use lcfs.Block.{block_size}
use lcfs.Xattr.{
  Ixattr, XattrInode, XattrLayer, Answer, done, failed, size_of, buffer, XattrErrno, eperm, erofs,
  enoent, eexist, enodata, erange, XattrFlags, set_inode, data_of, find_value, refuses_found,
  refuses_missing, enable, add_to_inode, xattr_add, xattr_get, xattrs_of, value_reply, names_buffer,
  list_data, xattr_list,
}
use lcfs.Xattr.Strays.{stray_in}
use lcfs.Xattr.Names.{IsIxattr, names_size, length-names_buffer}
use lcfs.Xattr.Values.{value_in, value_in-there, enable-inodes}
use lcfs.Xattr.Change.{allows, IsWritable, xattr_add-Set, xattr_add-there}

-- A caller that asks `lc_xattrList` for the size, with no buffer, and then comes with a buffer of that
-- size, gets all names, and the buffer is full. This holds for an inode in order that has data and an
-- attribute, in a layer that has attributes.
pub xattr_list-size_of :
    (l : XattrLayer) (ino : ℕ) (inode : XattrInode) (d : Ixattr)
    → l.xattr_enabled ≡ true
    → l.inodes ino ≡ some inode
    → inode.xattr_data ≡ some d
    → IsIxattr d
    → 0 < names_size d.xattrs
    → (size : ℕ) × (xattr_list l ino 0 ≡ some (size_of size))
      × (xattr_list l ino size ≡ some (buffer (names_buffer d.xattrs)))
      × (length (names_buffer d.xattrs) ≡ size)
unfolding xattr_list list_data
xattr_list-size_of l ino inode d on there has_data ok some_name =
    let full : (length (names_buffer d.xattrs) == d.xsize) ≡ true =
      ground (arith, length-names_buffer d.xattrs, ok.sized) in
    let asked : (d.xsize == 0) ≡ false = ground (arith, ok.sized) in
    let fits : ltb d.xsize d.xsize ≡ false = ground arith in
    (
      d.xsize,
      rw (on, xattr_list) (rw (there, xattr_list) (rw (has_data, xattr_list) refl)),
      rw (on, xattr_list)
          (rw (there, xattr_list)
            (rw (asked, xattr_list)
              (rw (has_data, xattr_list) (rw fits (rw asked (rw full refl)))))),
      omega (arith, length-names_buffer d.xattrs, ok.sized),
    )

xattr_get-value :
    (l : XattrLayer) (ino : ℕ) (inode : XattrInode) (name : Name) (value : List ℕ) (size : ℕ)
    → l.xattr_enabled ≡ true
    → l.inodes ino ≡ some inode
    → value_in l ino name ≡ some value
    → xattr_get l ino name size ≡ value_reply size value
unfolding xattr_get
xattr_get-value l ino inode name value size on there found =
    let here : find_value (xattrs_of inode) name ≡ some value =
      value_in-there l ino inode name there ∙ found in
    rw (on, xattr_get) (rw (there, xattr_get) (rw (here, xattr_get) refl))

-- After `lc_xattrAdd` has set an attribute, under the conditions under which it does, a request for it
-- answers the size of the value if the request has no buffer, the value if the buffer is large enough,
-- and ERANGE if it is not.
pub xattr_get-xattr_add :
    (l : XattrLayer) (ino : ℕ) (inode : XattrInode) (name : Name) (value : List ℕ)
    (flags : XattrFlags)
    → (ino == l.layer_root) ≡ false
    → IsWritable l ino inode
    → length value < block_size
    → length name < block_size
    → names_size (xattrs_of inode) + length name + 1 < 2 ^ 32
    → allows flags (value_in l ino name) ≡ true
    → (not (stray_in l ino name) || length value == 0) ≡ true
    → (l' : XattrLayer) × (xattr_add l ino name value flags ≡ some (done, l'))
      × ((size : ℕ)
          → xattr_get l' ino name size ≡ (
              if size == 0
              then size_of (length value)
              else (if leb (length value) size then buffer value else failed erange)))
xattr_get-xattr_add l ino inode name value flags apart w vs ns sum allowed safe =
    let (l', s) = xattr_add-Set l ino inode name value flags apart w vs ns sum allowed safe in
    let now = s.changed.values name ∙ rw (name_eq_refl name) refl in
    (
      l',
      s.run,
      λ size. xattr_get-value l' ino s.changed.inode name value size s.enabled s.changed.there now,
    )

abbrev refused_name : Option (List ℕ) → XattrFlags → Option XattrErrno
refused_name none flags = if refuses_missing flags then some enodata else none
refused_name (some _) flags = if refuses_found flags then some eexist else none

-- Why the flags refuse a name of an inode
abbrev refused_by : Option XattrInode → Name → XattrFlags → Option XattrErrno
refused_by none name flags = some enoent
refused_by (some inode) name flags = refused_name (find_value (xattrs_of inode) name) flags

-- Why `lc_xattrAdd` refuses a request
abbrev pub refusal : XattrLayer → (ino : ℕ) → Name → XattrFlags → Option XattrErrno
refusal l ino name flags =
    if ino == l.layer_root
    then some eperm
    else (if l.frozen then some erofs else refused_by (l.inodes ino) name flags)

same_values :
    (l : XattrLayer) (ino : ℕ) (inode : XattrInode)
    → l.inodes ino ≡ some inode
    → (i : ℕ) (n : Name)
    → value_in
        (set_inode (enable l) ino (record inode { xattr_data = some (data_of inode.xattr_data) }))
        i
        n
      ≡ value_in l i n
same_values l ino inode there i n = elim (Bool-cases (i == ino)) [
  | inl h ↦
      let eq : i ≡ ino = ground arith in
      rw h (value_in-there l ino inode n there ∙ ap (λ j. value_in l j n) (sym eq))
  | inr h ↦ rw h (ap (λ f. f i >>= λ x. find_value (xattrs_of x) n) (enable-inodes l))
]

refused_if :
    (b : Bool) (x e : XattrErrno) → (if b then some x else none) ≡ some e → (b ≡ true) × (x ≡ e)
refused_if true x e h = (refl, cc)
refused_if false x e h = cc

refused_inode :
    (l : XattrLayer) (ino : ℕ) (inode : XattrInode) (name : Name) (value : List ℕ)
    (flags : XattrFlags) (e : XattrErrno)
    → refused_by (some inode) name flags ≡ some e
    → add_to_inode (enable l) ino inode name value flags
      ≡ some (
        failed e,
        set_inode (enable l) ino (record inode { xattr_data = some (data_of inode.xattr_data) }),
      )
unfolding add_to_inode
refused_inode l ino inode name value flags e h =
    let inode' : XattrInode = record inode { xattr_data = some (data_of inode.xattr_data) } in
    elim (Option-cases (find_value (xattrs_of inode) name)) [
      | inl missing ↦
          let (b, eq) =
            refused_if (refuses_missing flags) enodata e
              (ap (λ o. refused_name o flags) (sym missing) ∙ h) in
          rw (missing, add_to_inode)
            (rw b (ap (λ x. some (failed x, set_inode (enable l) ino inode')) eq))
      | inr (v, found) ↦
          let (b, eq) =
            refused_if (refuses_found flags) eexist e
              (ap (λ o. refused_name o flags) (sym found) ∙ h) in
          rw (found, add_to_inode)
            (rw b (ap (λ x. some (failed x, set_inode (enable l) ino inode')) eq))
    ]

-- A refused request
abbrev IsRefused :
    XattrLayer → (ino : ℕ) → Name → (value : List ℕ) → XattrFlags → XattrErrno → Type 0
IsRefused l ino name value flags e =
    (l' : XattrLayer) × (xattr_add l ino name value flags ≡ some (failed e, l'))
    × ((i : ℕ) (n : Name) → value_in l' i n ≡ value_in l i n)

some-inj : {e e' : XattrErrno} → some e ≡ some e' → e ≡ e'
some-inj h = cc

xattr_add-erofs :
    (l : XattrLayer) (ino : ℕ) (name : Name) (value : List ℕ) (flags : XattrFlags)
    (r : Option (Answer × XattrLayer))
    → (ino == l.layer_root) ≡ false
    → l.frozen ≡ true
    → some (failed erofs, l) ≡ r
    → xattr_add l ino name value flags ≡ r
unfolding xattr_add
xattr_add-erofs l ino name value flags r apart ice h = simp (apart, ice) h

xattr_add-enoent :
    (l : XattrLayer) (ino : ℕ) (name : Name) (value : List ℕ) (flags : XattrFlags)
    (r : Option (Answer × XattrLayer))
    → (ino == l.layer_root) ≡ false
    → l.frozen ≡ false
    → l.inodes ino ≡ none
    → some (failed enoent, l) ≡ r
    → xattr_add l ino name value flags ≡ r
unfolding xattr_add
xattr_add-enoent l ino name value flags r apart live missing h = simp (apart, live, missing) h

xattr_add-IsRefused :
    (l : XattrLayer) (ino : ℕ) (name : Name) (value : List ℕ) (flags : XattrFlags) (e : XattrErrno)
    → (ino == l.layer_root) ≡ false
    → l.frozen ≡ false
    → refused_by (l.inodes ino) name flags ≡ some e
    → IsRefused l ino name value flags e
xattr_add-IsRefused l ino name value flags e apart live h = elim (Option-cases (l.inodes ino)) [
  | inl missing ↦
      let eq : enoent ≡ e = some-inj (ap (λ o. refused_by o name flags) (sym missing) ∙ h) in
      (
        l,
        xattr_add-enoent l ino name value flags _ apart live missing
            (ap (λ x. some (failed x, l)) eq),
        λ i n. refl,
      )
  | inr (inode, there) ↦
      let why : refused_by (some inode) name flags ≡ some e =
        ap (λ o. refused_by o name flags) (sym there) ∙ h in
      (
        set_inode (enable l) ino (record inode { xattr_data = some (data_of inode.xattr_data) }),
        xattr_add-there l ino inode name value flags _ apart live there
            (refused_inode l ino inode name value flags e why),
        same_values l ino inode there,
      )
]

-- When `lc_xattrAdd` has a reason to refuse a request, it answers with that error, and no attribute
-- of any inode changes. The reasons are, in this order: the layer root (EPERM), a frozen layer
-- (EROFS), no such inode (ENOENT), XATTR_CREATE for a name that there is (EEXIST) and XATTR_REPLACE
-- for a name that there is not (ENODATA).
pub xattr_add-refusal :
    (l : XattrLayer) (ino : ℕ) (name : Name) (value : List ℕ) (flags : XattrFlags) (e : XattrErrno)
    → refusal l ino name flags ≡ some e
    → (l' : XattrLayer) × (xattr_add l ino name value flags ≡ some (failed e, l'))
      × ((i : ℕ) (n : Name) → value_in l' i n ≡ value_in l i n)
unfolding xattr_add
xattr_add-refusal l ino name value flags e h = elim (Bool-cases (ino == l.layer_root)) [
  | inl root ↦
      let eq : eperm ≡ e = some-inj (rw root at h) in
      (l, rw (root, xattr_add) (ap (λ x. some (failed x, l)) eq), λ i n. refl)
  | inr apart ↦ elim (Bool-cases l.frozen) [
    | inl ice ↦
        let eq : erofs ≡ e = some-inj (reason apart ice) in
        (
          l,
          xattr_add-erofs l ino name value flags _ apart ice (ap (λ x. some (failed x, l)) eq),
          λ i n. refl,
        )
    | inr live ↦ xattr_add-IsRefused l ino name value flags e apart live (other_reason apart live)
  ]
]
  where
    reason : (ino == l.layer_root) ≡ false → l.frozen ≡ true → some erofs ≡ some e
    reason apart ice = sym (rw apart (rw ice refl)) ∙ h

    other_reason :
        (ino == l.layer_root) ≡ false
        → l.frozen ≡ false
        → refused_by (l.inodes ino) name flags ≡ some e
    other_reason apart live = sym (rw apart (rw live refl)) ∙ h

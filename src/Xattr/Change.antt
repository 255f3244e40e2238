-- ===== src/Xattr/Change.antt =====
-- lc_xattrAdd and lc_xattrRemove: what the attributes of each inode are afterwards.
use lcfs.Prelude.{
  ℕ, ◌+◌, ◌-◌, ◌≡◌, ◌<◌, ◌^◌, ◌%◌, inl, inr, refl, sym, ap, ◌∙◌, Bool, true, false, not, ◌||◌, List,
  ◌∷◌, length, arith, Option, none, some, if◌then◌else◌, ◌==◌, ltb, leb, Option-cases,
}
use lcfs.Dir.{Name, name_eq}
use lcfs.Block.{block_size}
use lcfs.Xattr.{
  Ixattr, XattrInode, XattrLayer, Answer, done, XattrFlags, set_inode, data_of, xattr_link,
  find_value, find_stray, replace_value, drop_value, refuses_found, refuses_missing, enable,
  dirty_data, add_to_inode, xattr_add, xattrs_of, remove_from_inode, xattr_remove,
}
use lcfs.Xattr.Strays.{
  stray_in, stray_in-there, find_stray-new, find_stray-replace_value, find_stray-drop_value,
}
use lcfs.Xattr.Values.{
  value_in, Changed, set_inode-Changed, enable-inodes, enable-enabled, not-true, value_in-there,
}
use lcfs.Xattr.Names.{
  names_size, IsIxattr, find_value-cons, find_value-replace_value, names_size-replace_value,
  replace_value-DistinctNames, find_value-drop_value, names_size-drop_value,
  drop_value-DistinctNames,
}

-- Whether the flags allow the attribute to be set
abbrev pub allows : XattrFlags → Option (List ℕ) → Bool
allows flags none = not (refuses_missing flags)
allows flags (some v) = not (refuses_found flags)

-- What setting an attribute gives.
pub record Set (l : XattrLayer) (ino : ℕ) (name : Name) (value : List ℕ) (flags : XattrFlags)
    (l' : XattrLayer) : Type 0 where
  pub run : xattr_add l ino name value flags ≡ some (done, l')
  pub changed : Changed l ino (λ n. if name_eq n name then some value else value_in l ino n) l'
  pub enabled : l'.xattr_enabled ≡ true

-- The data afterwards
record NewData (inode : XattrInode) (name : Name) (value : List ℕ) (d : Ixattr) : Type 0 where
  pub in_order : IsIxattr d
  pub values :
      (n : Name)
      → find_value d.xattrs n
        ≡ (if name_eq n name then some value else find_value (xattrs_of inode) n)
  pub strays : (n : Name) → find_stray d.xattrs n ≡ find_stray (xattrs_of inode) n

new_data :
    (l₀ : XattrLayer) (ino : ℕ) (inode : XattrInode) (name : Name) (value : List ℕ)
    (flags : XattrFlags)
    → IsIxattr (data_of inode.xattr_data)
    → length value < block_size
    → length name < block_size
    → names_size (xattrs_of inode) + length name + 1 < 2 ^ 32
    → allows flags (find_value (xattrs_of inode) name) ≡ true
    → (not (find_stray (xattrs_of inode) name) || length value == 0) ≡ true
    → (d : Ixattr) × (add_to_inode l₀ ino inode name value flags
        ≡ some (done, set_inode l₀ ino (dirty_data d)))
      × NewData inode name value d
unfolding add_to_inode xattr_link
new_data l₀ ino inode name value flags ok vs ns sum allowed safe =
    let d = data_of inode.xattr_data in
    elim (Option-cases (find_value d.xattrs name)) [
      | inl missing ↦
          let no_refusal : refuses_missing flags ≡ false =
            not-true (refuses_missing flags) (ap (allows flags) (sym missing) ∙ allowed) in
          let v : ltb (length value) block_size ≡ true = ground arith in
          let n : ltb (length name) block_size ≡ true = ground arith in
          (
            record d {
              xattrs = record { x_name = name; x_value = value; x_stray = false } ∷ d.xattrs;
              xsize = (d.xsize + length name + 1) % 2 ^ 32;
            },
            rw (missing, add_to_inode) (rw no_refusal (rw v (rw n refl))),
            record {
              in_order = record {
                distinct = (missing, ok.distinct);
                sized = omega (arith, ok.sized);
                bounded = omega arith;
              };
              values =
                  find_value-cons (record { x_name = name; x_value = value; x_stray = false })
                    d.xattrs;
              strays = λ n.
                  find_stray-new (record { x_name = name; x_value = value; x_stray = false })
                    d.xattrs n refl missing;
            },
          )
      | inr (v, found) ↦
          let no_refusal : refuses_found flags ≡ false =
            not-true (refuses_found flags) (ap (allows flags) (sym found) ∙ allowed) in
          (
            record d { xattrs = replace_value d.xattrs name value },
            rw (found, add_to_inode) (rw no_refusal (rw safe refl)),
            record {
              in_order = record {
                distinct = replace_value-DistinctNames d.xattrs name value v found ok.distinct;
                sized = ok.sized ∙ sym (names_size-replace_value d.xattrs name value);
                bounded = ok.bounded;
              };
              values = find_value-replace_value d.xattrs name value v found;
              strays = find_stray-replace_value d.xattrs name value;
            },
          )
    ]

-- An inode whose attributes are in order, in a layer that may be changed
pub record IsWritable (l : XattrLayer) (ino : ℕ) (inode : XattrInode) : Type 0 where
  pub live : l.frozen ≡ false
  pub there : l.inodes ino ≡ some inode
  pub in_order : IsIxattr (data_of inode.xattr_data)

pub xattr_add-there :
    (l : XattrLayer) (ino : ℕ) (inode : XattrInode) (name : Name) (value : List ℕ)
    (flags : XattrFlags) (r : Option (Answer × XattrLayer))
    → (ino == l.layer_root) ≡ false
    → l.frozen ≡ false
    → l.inodes ino ≡ some inode
    → add_to_inode (enable l) ino inode name value flags ≡ r
    → xattr_add l ino name value flags ≡ r
unfolding xattr_add
xattr_add-there l ino inode name value flags r apart live there run =
    rw (apart, xattr_add) (rw (live, xattr_add) (rw (there, xattr_add) run))

-- If `lc_xattrAdd` is called in a layer that is not frozen for an inode in order other than the layer
-- root, with a name and a value shorter than a block and a sum of names that stays below 2 ^ 32, the
-- flags allow the name, and it has no stray `x_value` or the value is empty, then it answers that it is
-- done, the name has the value afterwards, every other name of the inode and every other inode has what
-- it had, the inode is in order, and no `x_value` became a stray.
pub xattr_add-Set :
    (l : XattrLayer) (ino : ℕ) (inode : XattrInode) (name : Name) (value : List ℕ)
    (flags : XattrFlags)
    → (ino == l.layer_root) ≡ false
    → IsWritable l ino inode
    → length value < block_size
    → length name < block_size
    → names_size (xattrs_of inode) + length name + 1 < 2 ^ 32
    → allows flags (value_in l ino name) ≡ true
    → (not (stray_in l ino name) || length value == 0) ≡ true
    → (l' : XattrLayer) × Set l ino name value flags l'
xattr_add-Set l ino inode name value flags apart w vs ns sum allowed safe =
    let same = value_in-there l ino inode name w.there in
    let (d, run, new) =
      new_data (enable l) ino inode name value flags w.in_order vs ns sum
        (ap (allows flags) same ∙ allowed)
        (ap (λ b. not b || length value == 0) (stray_in-there l ino inode name w.there) ∙ safe) in
    (
      set_inode (enable l) ino (dirty_data d),
      record {
        run = xattr_add-there l ino inode name value flags _ apart w.live w.there run;
        changed =
            set_inode-Changed l (enable l) ino d true _ (enable-inodes l) new.in_order
              (λ n.
                new.values n
                ∙ ap (λ o. if name_eq n name then some value else o)
                    (value_in-there l ino inode n w.there))
              (λ n h. sym (stray_in-there l ino inode n w.there) ∙ sym (new.strays n) ∙ h);
        enabled = enable-enabled l;
      },
    )

-- What removing an attribute gives.
pub record Unset (l : XattrLayer) (ino : ℕ) (name : Name) (l' : XattrLayer) : Type 0 where
  pub run : xattr_remove l ino name ≡ some (done, l')
  pub changed : Changed l ino (λ n. if name_eq n name then none else value_in l ino n) l'

xattr_remove-run :
    (l : XattrLayer) (ino : ℕ) (inode : XattrInode) (name : Name) (r : Option (Answer × XattrLayer))
    → l.xattr_enabled ≡ true
    → IsWritable l ino inode
    → remove_from_inode l ino inode name ≡ r
    → xattr_remove l ino name ≡ r
unfolding xattr_remove
xattr_remove-run l ino inode name r on w run =
    rw (on, xattr_remove) (rw (w.live, xattr_remove) (rw (w.there, xattr_remove) run))

remove_from_inode-run :
    (l : XattrLayer) (ino : ℕ) (inode : XattrInode) (name : Name) (v : List ℕ)
    → IsIxattr (data_of inode.xattr_data)
    → find_value (xattrs_of inode) name ≡ some v
    → find_stray (xattrs_of inode) name ≡ false
    → (d : Ixattr) × (remove_from_inode l ino inode name
        ≡ some (done, set_inode l ino (dirty_data d)))
      × IsIxattr d
      × ((n : Name)
          → find_value d.xattrs n
            ≡ (if name_eq n name then none else find_value (xattrs_of inode) n))
      × ((n : Name)
          → find_stray d.xattrs n
            ≡ (if name_eq n name then false else find_stray (xattrs_of inode) n))
unfolding remove_from_inode
remove_from_inode-run l ino inode name v ok found safe =
    let d = data_of inode.xattr_data in
    let size = names_size-drop_value d.xattrs name v found in
    let fits : leb (length name + 1) d.xsize ≡ true = ground (arith, ok.sized) in
    (
      record d { xattrs = drop_value d.xattrs name; xsize = d.xsize - (length name + 1) },
      rw (found, remove_from_inode) (rw safe (rw fits refl)),
      record {
        distinct = drop_value-DistinctNames d.xattrs name ok.distinct;
        sized = omega (arith, ok.sized);
        bounded = omega (arith, ok.bounded);
      },
      find_value-drop_value d.xattrs name ok.distinct,
      find_stray-drop_value d.xattrs name ok.distinct,
    )

dropped : (b s : Bool) → (if b then false else s) ≡ true → s ≡ true
dropped true s h = cc
dropped false s h = h

-- If `lc_xattrRemove` is called in a layer that has attributes and is not frozen, for an inode in
-- order and a name that it has, with no stray `x_value`, then it answers that it is done, the name is
-- gone afterwards, every other name of the inode and every other inode has what it had, the inode is in
-- order, and no `x_value` became a stray.
pub xattr_remove-Unset :
    (l : XattrLayer) (ino : ℕ) (inode : XattrInode) (name : Name) (v : List ℕ)
    → l.xattr_enabled ≡ true
    → IsWritable l ino inode
    → value_in l ino name ≡ some v
    → stray_in l ino name ≡ false
    → (l' : XattrLayer) × Unset l ino name l'
xattr_remove-Unset l ino inode name v on w found safe =
    let same = value_in-there l ino inode name w.there in
    let stray = stray_in-there l ino inode name w.there in
    let (d, run, ok, values, strays) =
      remove_from_inode-run l ino inode name v w.in_order (same ∙ found) (stray ∙ safe) in
    (
      set_inode l ino (dirty_data d),
      record {
        run = xattr_remove-run l ino inode name _ on w run;
        changed =
            set_inode-Changed l l ino d true _ refl ok
              (λ n.
                values n
                ∙ ap (λ o. if name_eq n name then none else o)
                    (value_in-there l ino inode n w.there))
              (λ n h.
                sym (stray_in-there l ino inode n w.there)
                ∙ dropped (name_eq n name) _ (sym (strays n) ∙ h));
      },
    )

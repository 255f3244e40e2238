-- ===== src/Xattr/Values.antt =====
-- The values of the attributes in a layer, and a layer in which those of one inode are replaced.
use lcfs.Prelude.{
  ℕ, ◌≡◌, inl, inr, refl, sym, ap, Bool, true, false, not, List, Option, some, Bool-cases, ◌==◌,
  ◌>>=◌,
}
use lcfs.Dir.{Name}
use lcfs.Dir.Names.{eqb_refl}
use lcfs.Xattr.{
  Ixattr, XattrInode, XattrLayer, set_inode, data_of, find_value, find_stray, enable, xattrs_of,
}
use lcfs.Xattr.Strays.{stray_in}
use lcfs.Xattr.Names.{IsIxattr}

-- The value of an attribute of an inode
abbrev pub value_in : XattrLayer → (ino : ℕ) → Name → Option (List ℕ)
value_in l ino name = l.inodes ino >>= λ inode. find_value (xattrs_of inode) name

-- What the layer is after the attributes of one inode became those of `d`.
pub record Changed (l : XattrLayer) (ino : ℕ) (value : Name → Option (List ℕ)) (l' : XattrLayer)
    : Type 0 where
  pub values : (name : Name) → value_in l' ino name ≡ value name
  pub others : (i : ℕ) → (i == ino) ≡ false → l'.inodes i ≡ l.inodes i
  pub inode : XattrInode
  pub there : l'.inodes ino ≡ some inode
  pub in_order : IsIxattr (data_of inode.xattr_data)
  pub strays : (name : Name) → stray_in l' ino name ≡ true → stray_in l ino name ≡ true

pub set_inode-Changed :
    (l l₀ : XattrLayer) (ino : ℕ) (d : Ixattr) (dirty : Bool) (value : Name → Option (List ℕ))
    → l₀.inodes ≡ l.inodes
    → IsIxattr d
    → ((name : Name) → find_value d.xattrs name ≡ value name)
    → ((name : Name) → find_stray d.xattrs name ≡ true → stray_in l ino name ≡ true)
    → Changed l ino value (set_inode l₀ ino (record { xattr_data = some d; xattr_dirty = dirty }))
set_inode-Changed l l₀ ino d dirty value same ok values strays =
    let here : (ino == ino) ≡ true = eqb_refl ino in
    record {
      values = λ name. rw here (values name);
      others = λ i other. rw other (ap (λ f. f i) same);
      inode = record { xattr_data = some d; xattr_dirty = dirty };
      there = rw here refl;
      in_order = ok;
      strays = λ name. rw here (strays name);
    }

pub enable-inodes : (l : XattrLayer) → (enable l).inodes ≡ l.inodes
enable-inodes l = elim (Bool-cases l.xattr_enabled) [ inl h ↦ rw h refl | inr h ↦ rw h refl ]

pub enable-enabled : (l : XattrLayer) → (enable l).xattr_enabled ≡ true
enable-enabled l = on l.xattr_enabled refl
  where
    on : (b : Bool) → l.xattr_enabled ≡ b → (enable l).xattr_enabled ≡ true
    on true h = simp h refl
    on false h = simp h refl

pub not-true : (b : Bool) → not b ≡ true → b ≡ false
not-true true h = sym h
not-true false h = refl

pub value_in-there :
    (l : XattrLayer) (ino : ℕ) (inode : XattrInode) (name : Name)
    → l.inodes ino ≡ some inode
    → find_value (xattrs_of inode) name ≡ value_in l ino name
value_in-there l ino inode name h = rw h refl

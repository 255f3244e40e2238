-- ===== src/Xattr/Strays.antt =====
-- lcfs/xattr.c: attributes whose `x_value` lc_xattrCopy left as lc_malloc gave it.
use lcfs.Prelude.{
  ℕ, ◌≡◌, inl, inr, refl, sym, ap, ◌∙◌, Bool, false, List, [], ◌∷◌, Option, none, some,
  if◌then◌else◌, Bool-cases,
}
use lcfs.Dir.{Name, name_eq}
use lcfs.Dir.Names.{name_eq-eq, name_eq-other, name_eq-same}
use lcfs.Xattr.{
  Xattr, XattrInode, XattrLayer, find_value, find_stray, replace_value, drop_value, xattrs_of,
}
use lcfs.Xattr.Names.{DistinctNames, find_value-cons-none}

-- Whether an inode's attribute of that name is a stray
abbrev pub stray_of : Option XattrInode → Name → Bool
stray_of none name = false
stray_of (some inode) name = find_stray (xattrs_of inode) name

abbrev pub stray_in : XattrLayer → (ino : ℕ) → Name → Bool
stray_in l ino name = stray_of (l.inodes ino) name

pub stray_in-there :
    (l : XattrLayer) (ino : ℕ) (inode : XattrInode) (name : Name)
    → l.inodes ino ≡ some inode
    → find_stray (xattrs_of inode) name ≡ stray_in l ino name
stray_in-there l ino inode name h = sym (ap (λ o. stray_of o name) h)

pub find_stray-cons :
    (x : Xattr) (xs : List Xattr) (name : Name)
    → find_stray (x ∷ xs) name ≡ (if name_eq name x.x_name then x.x_stray else find_stray xs name)
unfolding find_stray
find_stray-cons x xs name = refl

-- A name that is not there is not a stray.
find_stray-missing :
    (xs : List Xattr) (name : Name) → find_value xs name ≡ none → find_stray xs name ≡ false
unfolding find_stray
find_stray-missing [] name h = refl
find_stray-missing (x ∷ xs) name h =
    let (other, rest) = find_value-cons-none x xs name h in
    rw other (find_stray-missing xs name rest)

pub find_stray-new :
    (x : Xattr) (xs : List Xattr) (n : Name)
    → x.x_stray ≡ false
    → find_value xs x.x_name ≡ none
    → find_stray (x ∷ xs) n ≡ find_stray xs n
find_stray-new x xs n set h = find_stray-cons x xs n ∙ elim (Bool-cases (name_eq n x.x_name)) [
  | inl g ↦
      let eq = name_eq-eq n x.x_name g in
      rw g (set ∙ sym (ap (find_stray xs) eq ∙ find_stray-missing xs x.x_name h))
  | inr g ↦ rw g refl
]

pub find_stray-replace_value :
    (xs : List Xattr) (name : Name) (value : List ℕ) (n : Name)
    → find_stray (replace_value xs name value) n ≡ find_stray xs n
unfolding find_stray replace_value
find_stray-replace_value [] name value n = refl
find_stray-replace_value (x ∷ xs) name value n = elim (Bool-cases (name_eq name x.x_name)) [
  | inl same ↦ rw same refl
  | inr other ↦
      let rest = find_stray-replace_value xs name value n in
      rw other (elim (Bool-cases (name_eq n x.x_name)) [ inl g ↦ rw g refl | inr g ↦ rw g rest ])
]

pub find_stray-drop_value :
    (xs : List Xattr) (name : Name)
    → DistinctNames xs
    → (n : Name)
    → find_stray (drop_value xs name) n ≡ (if name_eq n name then false else find_stray xs n)
unfolding find_stray drop_value
find_stray-drop_value [] name d n = elim (Bool-cases (name_eq n name)) [
  | inl g ↦ rw g refl
  | inr g ↦ rw g refl
]
find_stray-drop_value (x ∷ xs) name d n = elim (Bool-cases (name_eq name x.x_name)) [
  | inl same ↦ rw same (
      rw (name_eq-same n name x.x_name same) (elim (Bool-cases (name_eq n x.x_name)) [
        | inl g ↦
            rw g (ap (find_stray xs) (name_eq-eq n x.x_name g) ∙ find_stray-missing xs x.x_name d.0)
        | inr g ↦ rw g refl
      ]))
  | inr other ↦
      let rest = find_stray-drop_value xs name d.1 n in
      rw other (elim (Bool-cases (name_eq n x.x_name)) [
        | inl g ↦ rw g (rw (name_eq-other n name x.x_name other g) refl)
        | inr g ↦ rw g rest
      ])
]

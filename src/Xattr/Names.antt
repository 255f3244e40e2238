-- ===== src/Xattr/Names.antt =====
-- A list of attributes as a map from names to values, and the sum of the lengths of its names.
use lcfs.Prelude.{
  ℕ, ◌+◌, ◌≡◌, ◌<◌, ◌^◌, inl, inr, refl, sym, ap, ◌∙◌, Bool, true, false, List, [], ◌∷◌, length,
  length-append, arith, Option, none, some, if◌then◌else◌, Bool-cases,
}
use lcfs.Dir.{Name, name_eq}
use lcfs.Dir.Names.{name_eq_sym, name_eq-eq, name_eq-other, name_eq-same}
use lcfs.Xattr.{Xattr, Ixattr, find_value, replace_value, drop_value, names_buffer}

-- No name stands twice in the list.
abbrev pub DistinctNames : List Xattr → Type 0
DistinctNames [] = Unit
DistinctNames (x ∷ xs) = (find_value xs x.x_name ≡ none) × DistinctNames xs

-- The bytes of the names, each with its 0
abbrev pub names_size : List Xattr → ℕ
names_size [] = 0
names_size (x ∷ xs) = length x.x_name + 1 + names_size xs

-- The attributes of an inode in order: the names differ, and `i_xsize` is the size of the names.
pub record IsIxattr (d : Ixattr) : Type 0 where
  pub distinct : DistinctNames d.xattrs
  pub sized : d.xsize ≡ names_size d.xattrs
  pub bounded : d.xsize < 2 ^ 32

pub length-names_buffer : (xs : List Xattr) → length (names_buffer xs) ≡ names_size xs
unfolding names_buffer
length-names_buffer [] = refl
length-names_buffer (x ∷ xs) =
    omega (arith, length-append (x.x_name) (0 ∷ names_buffer xs), length-names_buffer xs)

pub find_value-cons :
    (x : Xattr) (xs : List Xattr) (name : Name)
    → find_value (x ∷ xs) name
      ≡ (if name_eq name x.x_name then some x.x_value else find_value xs name)
unfolding find_value
find_value-cons x xs name = refl

if-none :
    (b : Bool) (v : List ℕ) (o : Option (List ℕ))
    → (if b then some v else o) ≡ none
    → (b ≡ false) × (o ≡ none)
if-none true v o h = cc
if-none false v o h = (refl, h)

pub find_value-cons-none :
    (x : Xattr) (xs : List Xattr) (name : Name)
    → find_value (x ∷ xs) name ≡ none
    → (name_eq name x.x_name ≡ false) × (find_value xs name ≡ none)
find_value-cons-none x xs name h =
    if-none (name_eq name x.x_name) x.x_value (find_value xs name)
      (sym (find_value-cons x xs name) ∙ h)

-- A value that is replaced
pub find_value-replace_value :
    (xs : List Xattr) (name : Name) (value v : List ℕ)
    → find_value xs name ≡ some v
    → (n : Name)
    → find_value (replace_value xs name value) n
      ≡ (if name_eq n name then some value else find_value xs n)
unfolding find_value replace_value
find_value-replace_value [] name value v h n = cc
find_value-replace_value (x ∷ xs) name value v h n = elim (Bool-cases (name_eq name x.x_name)) [
  | inl same ↦ rw same (
      rw (name_eq-same n name x.x_name same)
        (elim (Bool-cases (name_eq n x.x_name)) [ inl g ↦ rw g refl | inr g ↦ rw g refl ]))
  | inr other ↦
      let later : find_value xs name ≡ some v = rw other at h in
      let rest = find_value-replace_value xs name value v later n in
      rw other (elim (Bool-cases (name_eq n x.x_name)) [
        | inl g ↦ rw g (rw (name_eq-other n name x.x_name other g) refl)
        | inr g ↦ rw g rest
      ])
]

pub names_size-replace_value :
    (xs : List Xattr) (name : Name) (value : List ℕ)
    → names_size (replace_value xs name value) ≡ names_size xs
unfolding replace_value
names_size-replace_value [] name value = refl
names_size-replace_value (x ∷ xs) name value = elim (Bool-cases (name_eq name x.x_name)) [
  | inl same ↦ rw same refl
  | inr other ↦
      rw other (ap (λ k. length x.x_name + 1 + k) (names_size-replace_value xs name value))
]

pub replace_value-DistinctNames :
    (xs : List Xattr) (name : Name) (value v : List ℕ)
    → find_value xs name ≡ some v
    → DistinctNames xs
    → DistinctNames (replace_value xs name value)
unfolding find_value replace_value
replace_value-DistinctNames [] name value v h d = tt
replace_value-DistinctNames (x ∷ xs) name value v h d = elim (Bool-cases (name_eq name x.x_name)) [
  | inl same ↦ rw same d
  | inr other ↦
      let later : find_value xs name ≡ some v = rw other at h in
      let here = find_value-replace_value xs name value v later x.x_name in
      rw other (
        here ∙ rw (name_eq_sym x.x_name name ∙ other) d.0,
        replace_value-DistinctNames xs name value v later d.1,
      )
]

-- A name that leaves the list
pub find_value-drop_value :
    (xs : List Xattr) (name : Name)
    → DistinctNames xs
    → (n : Name)
    → find_value (drop_value xs name) n ≡ (if name_eq n name then none else find_value xs n)
unfolding find_value drop_value
find_value-drop_value [] name d n = ground arith
find_value-drop_value (x ∷ xs) name d n = elim (Bool-cases (name_eq name x.x_name)) [
  | inl same ↦ rw same (
      rw (name_eq-same n name x.x_name same) (elim (Bool-cases (name_eq n x.x_name)) [
        | inl g ↦ rw g (ap (find_value xs) (name_eq-eq n x.x_name g) ∙ d.0)
        | inr g ↦ rw g refl
      ]))
  | inr other ↦
      let rest = find_value-drop_value xs name d.1 n in
      rw other (elim (Bool-cases (name_eq n x.x_name)) [
        | inl g ↦ rw g (rw (name_eq-other n name x.x_name other g) refl)
        | inr g ↦ rw g rest
      ])
]

pub names_size-drop_value :
    (xs : List Xattr) (name : Name) (v : List ℕ)
    → find_value xs name ≡ some v
    → names_size (drop_value xs name) + (length name + 1) ≡ names_size xs
unfolding find_value drop_value
names_size-drop_value [] name v h = cc
names_size-drop_value (x ∷ xs) name v h = elim (Bool-cases (name_eq name x.x_name)) [
  | inl same ↦
      let eq : length name ≡ length x.x_name = ap length (name_eq-eq name x.x_name same) in
      rw same (omega arith)
  | inr other ↦
      let later : find_value xs name ≡ some v = rw other at h in
      rw other (omega (arith, names_size-drop_value xs name v later))
]

pub drop_value-DistinctNames :
    (xs : List Xattr) (name : Name) → DistinctNames xs → DistinctNames (drop_value xs name)
unfolding find_value drop_value
drop_value-DistinctNames [] name d = tt
drop_value-DistinctNames (x ∷ xs) name d = elim (Bool-cases (name_eq name x.x_name)) [
  | inl same ↦ rw same d.1
  | inr other ↦
      let here = find_value-drop_value xs name d.1 x.x_name in
      rw other
        (here ∙ rw (name_eq_sym x.x_name name ∙ other) d.0, drop_value-DistinctNames xs name d.1)
]

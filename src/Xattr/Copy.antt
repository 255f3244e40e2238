-- ===== src/Xattr/Copy.antt =====
-- Attributes that are put in front of a list one by one: lc_xattrCopy.
use lcfs.Prelude.{
  ℕ, Bool, false, length, ◌==◌, ◌≡◌, refl, sym, ap, ◌∙◌, List, [], ◌∷◌, Option, none, some,
}
use lcfs.Dir.{Name, name_eq}
use lcfs.Dir.Names.{name_eq_sym, name_eq-eq}
use lcfs.Dir.Rehash.{or_else, or_else-if}
use lcfs.Xattr.{Xattr, find_value}
use lcfs.Xattr.Names.{find_value-cons, find_value-cons-none}

-- None of the names of the first list stands in the second.
abbrev pub NewNames : List Xattr → List Xattr → Type 0
NewNames [] ys = Unit
NewNames (x ∷ xs) ys = (find_value ys x.x_name ≡ none) × NewNames xs ys

pub NewNames-cons :
    (xs : List Xattr) (x : Xattr) (ys : List Xattr)
    → find_value xs x.x_name ≡ none
    → NewNames xs ys
    → NewNames xs (x ∷ ys)
NewNames-cons [] x ys h new = tt
NewNames-cons (y ∷ xs) x ys h new =
    let (other, rest) = find_value-cons-none y xs x.x_name h in
    (
      find_value-cons x ys y.x_name ∙ rw (name_eq_sym y.x_name x.x_name ∙ other) new.0,
      NewNames-cons xs x ys rest new.1,
    )

-- One attribute that goes from the front of a list to the front of another
pub moved-find_value :
    (x : Xattr) (stray : Bool) (xs ys : List Xattr) (n : Name)
    → find_value xs x.x_name ≡ none
    → or_else (find_value xs n) (find_value (record x { x_stray = stray } ∷ ys) n)
      ≡ or_else (find_value (x ∷ xs) n) (find_value ys n)
moved-find_value x stray xs ys n h =
    ap (λ o. or_else (find_value xs n) o) (find_value-cons (record x { x_stray = stray }) ys n)
    ∙ or_else-if (name_eq n x.x_name) (find_value xs n) (find_value ys n) x.x_value
        (λ same. ap (find_value xs) (name_eq-eq n x.x_name same) ∙ h)
    ∙ ap (λ o. or_else o (find_value ys n)) (sym (find_value-cons x xs n))

pub NewNames-nil : (xs : List Xattr) → NewNames xs []
unfolding find_value
NewNames-nil [] = tt
NewNames-nil (x ∷ xs) = (refl, NewNames-nil xs)

pub or_none {ℓ} : {A : Type ℓ} (o : Option A) → or_else o none ≡ o
or_none none = refl
or_none (some a) = refl

-- Whether there is an attribute with an empty value
abbrev pub has_empty : Option (List ℕ) → Bool
has_empty none = false
has_empty (some v) = length v == 0

-- The attributes of which `lc_xattrCopy` did not set `x_value` are those with an empty one.
abbrev Copied : List Xattr → Type 0
Copied [] = Unit
Copied (x ∷ xs) = (x.x_stray ≡ (length x.x_value == 0)) × Copied xs

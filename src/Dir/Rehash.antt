-- ===== src/Dir/Rehash.antt =====
-- lc_dirConvertHashed: the hash table that takes the place of a list has the list's entries.
use lcfs.Prelude.{
  ℕ, zero, suc, ◌<◌, ◌+◌, ◌≡◌, inl, inr, refl, sym, ap, ◌∙◌, Bool, true, false, List, [], ◌∷◌,
  length, arith, Option, none, some, if◌then◌else◌, ◌>>=◌, Bool-cases,
}
use lcfs.Dir.{Name, name_eq, dirhash, Dirent, push, rehash, find}
use lcfs.Dir.Names.{name_eq_sym, name_eq-eq}
use lcfs.Dir.Table.{
  ino_of, Distinct, IsTable, count_below, find-cons, ino_of-push, find-push-none, push-IsTable,
  count_below-push,
}

abbrev pub or_else {ℓ} : {A : Type ℓ} → Option A → Option A → Option A
or_else none o = o
or_else (some a) o = some a

-- No name of the list stands in the table.
abbrev AllFresh : List Dirent → (ℕ → List Dirent) → Type 0
AllFresh [] t = Unit
AllFresh (e ∷ es) t = (find (t (dirhash e.di_name)) e.di_name ≡ none) × AllFresh es t

if-none :
    (b : Bool) (e : Dirent) (o : Option Dirent)
    → (if b then some e else o) ≡ none
    → (b ≡ false) × (o ≡ none)
if-none true e o h = cc
if-none false e o h = (refl, h)

-- What the search of a longer list that fails says
pub find-cons-none :
    (e : Dirent) (es : List Dirent) (name : Name)
    → find (e ∷ es) name ≡ none
    → (name_eq name e.di_name ≡ false) × (find es name ≡ none)
find-cons-none e es name h =
    if-none (name_eq name e.di_name) e (find es name) (sym (find-cons e es name) ∙ h)

AllFresh-push :
    (es : List Dirent) (t : ℕ → List Dirent) (e : Dirent)
    → find es e.di_name ≡ none
    → AllFresh es t
    → AllFresh es (push t e)
AllFresh-push [] t e h fresh = tt
AllFresh-push (e' ∷ es) t e h fresh =
    let (other, rest) = find-cons-none e' es e.di_name h in
    (
      find-push-none t e e'.di_name (name_eq_sym e'.di_name e.di_name ∙ other) fresh.0,
      AllFresh-push es t e rest fresh.1,
    )

rehash-IsTable_from :
    (es : List Dirent) (t : ℕ → List Dirent)
    → Distinct es
    → AllFresh es t
    → IsTable t
    → IsTable (rehash es t)
unfolding rehash
rehash-IsTable_from [] t d fresh ok = ok
rehash-IsTable_from (e ∷ es) t d fresh ok =
    rehash-IsTable_from es (push t e) d.1 (AllFresh-push es t e d.0 fresh.1)
      (push-IsTable t e ok fresh.0)

count-rehash :
    (n : ℕ) (es : List Dirent) (t : ℕ → List Dirent)
    → ((name : Name) → dirhash name < n)
    → count_below n (rehash es t) ≡ length es + count_below n t
unfolding rehash
count-rehash n [] t lt = omega arith
count-rehash n (e ∷ es) t lt =
    omega (arith, count-rehash n es (push t e) lt, count_below-push n t e (lt e.di_name))

pub ino_of-cons :
    (e : Dirent) (es : List Dirent) (name : Name)
    → ino_of (e ∷ es) name ≡ (if name_eq name e.di_name then some e.di_ino else ino_of es name)
ino_of-cons e es name = elim (Bool-cases (name_eq name e.di_name)) [
  | inl same ↦ rw same (rw (find-cons e es name) (rw same refl))
  | inr other ↦ rw other (rw (find-cons e es name) (rw other refl))
]

pub or_else-if {ℓ} :
    {A : Type ℓ} (b : Bool) (o o' : Option A) (i : A)
    → (b ≡ true → o ≡ none)
    → or_else o (if b then some i else o') ≡ or_else (if b then some i else o) o'
or_else-if true o o' i h = ap (λ x. or_else x (some i)) (h refl)
or_else-if false o o' i h = refl

pub ino_of-rehash :
    (es : List Dirent) (t : ℕ → List Dirent) (name : Name)
    → Distinct es
    → ino_of (rehash es t (dirhash name)) name
      ≡ or_else (ino_of es name) (ino_of (t (dirhash name)) name)
unfolding rehash find
ino_of-rehash [] t name d = refl
ino_of-rehash (e ∷ es) t name d =
    let gone : name_eq name e.di_name ≡ true → ino_of es name ≡ none =
      λ same. rw (name_eq-eq name e.di_name same) (ap (λ o. o >>= λ e'. some e'.di_ino) d.0) in
    ino_of-rehash es (push t e) name d.1
    ∙ ap (λ o. or_else (ino_of es name) o) (ino_of-push t e name)
    ∙ or_else-if (name_eq name e.di_name) (ino_of es name) (ino_of (t (dirhash name)) name) e.di_ino
        gone
    ∙ ap (λ o. or_else o (ino_of (t (dirhash name)) name)) (sym (ino_of-cons e es name))

fresh-empty : (es : List Dirent) → AllFresh es (λ i. [])
unfolding find
fresh-empty [] = tt
fresh-empty (e ∷ es) = (refl, fresh-empty es)

pub rehash-IsTable : (es : List Dirent) → Distinct es → IsTable (rehash es (λ i. []))
rehash-IsTable es d = rehash-IsTable_from es (λ i. []) d (fresh-empty es) (λ i. (tt, tt))

pub count_below-empty : (n : ℕ) → count_below n (λ i. []) ≡ 0
count_below-empty zero = refl
count_below-empty (suc n) = omega (arith, count_below-empty n)

pub count-rehash_all :
    (n : ℕ) (es : List Dirent)
    → ((name : Name) → dirhash name < n)
    → count_below n (rehash es (λ i. [])) ≡ length es
count-rehash_all n es lt = omega (arith, count-rehash n es (λ i. []) lt, count_below-empty n)

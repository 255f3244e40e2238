-- ===== src/Dir/Table.antt =====
-- What the entries of a directory stand for, and when they are in order.
use lcfs.Prelude.{
  ℕ, zero, suc, ◌+◌, ◌≤◌, ◌<◌, ◌≡◌, inl, inr, refl, sym, ap, ◌∙◌, true, false, ◌==◌, List, [], ◌∷◌,
  length, arith, Option, none, some, if◌then◌else◌, ◌>>=◌, Bool-cases,
}
use lcfs.Prelude.Words.{u64_mod}
use lcfs.Dir.{
  Name, name_eq, dirhash, dircache_size, Dirent, Entries, plain, hashed, Dir, push, dir_get_dirent,
  find,
}
use lcfs.Dir.Names.{eqb_refl, name_eq-eq}

-- The inode of a name in a list
abbrev pub ino_of : List Dirent → Name → Option ℕ
ino_of es name = find es name >>= λ e. some e.di_ino

-- The inode of a name in a directory's entries
abbrev pub ino_in : Entries → Name → Option ℕ
ino_in entries name = ino_of (dir_get_dirent entries name) name

-- The entry of a name
abbrev pub entry_of : Entries → Name → Option Dirent
entry_of entries name = find (dir_get_dirent entries name) name

-- No name stands twice in the list.
abbrev pub Distinct : List Dirent → Type 0
Distinct [] = Unit
Distinct (e ∷ es) = (find es e.di_name ≡ none) × Distinct es

-- Every name of the list has the hash.
abbrev pub Placed : (hash : ℕ) → List Dirent → Type 0
Placed hash [] = Unit
Placed hash (e ∷ es) = (dirhash e.di_name ≡ hash) × Placed hash es

abbrev pub IsTable : (ℕ → List Dirent) → Type 0
IsTable t = (i : ℕ) → Distinct (t i) × Placed i (t i)

abbrev pub IsEntries : Entries → Type 0
IsEntries (plain es) = Distinct es
IsEntries (hashed t) = IsTable t

-- The entries of the buckets from 0 to `n`
abbrev pub count_below : (n : ℕ) → (ℕ → List Dirent) → ℕ
count_below zero t = 0
count_below (suc n) t = length (t n) + count_below n t

abbrev pub count_of : Entries → ℕ
count_of (plain es) = length es
count_of (hashed t) = count_below dircache_size t

pub record IsDir (dir : Dir) : Type 0 where
  pub entries_ok : IsEntries dir.entries
  pub counted : dir.size ≡ count_of dir.entries
  pub bounded : dir.size < u64_mod

pub find-cons :
    (e : Dirent) (es : List Dirent) (name : Name)
    → find (e ∷ es) name ≡ (if name_eq name e.di_name then some e else find es name)
unfolding find
find-cons e es name = refl

pub find-cons-same :
    (e : Dirent) (es : List Dirent) (name : Name)
    → name_eq name e.di_name ≡ true
    → find (e ∷ es) name ≡ some e
unfolding find
find-cons-same e es name same = rw same refl

pub find-cons-other :
    (e : Dirent) (es : List Dirent) (name : Name)
    → name_eq name e.di_name ≡ false
    → find (e ∷ es) name ≡ find es name
unfolding find
find-cons-other e es name other = rw other refl

pub ino_of-none : (es : List Dirent) (name : Name) → ino_of es name ≡ none → find es name ≡ none
ino_of-none es name h = none_of (find es name) h
  where
    none_of : (o : Option Dirent) → (o >>= λ e. some e.di_ino) ≡ none → o ≡ none
    none_of none h = refl
    none_of (some e) h = cc

-- The list of a name in entries in order has no name twice.
pub dir_get_dirent-Distinct :
    (entries : Entries) (name : Name) → IsEntries entries → Distinct (dir_get_dirent entries name)
unfolding dir_get_dirent
dir_get_dirent-Distinct (plain es) name ok = ok
dir_get_dirent-Distinct (hashed t) name ok = (ok (dirhash name)).0

-- A bucket that gets an entry in front finds it, and every other name as before.
pub ino_of-push :
    (t : ℕ → List Dirent) (e : Dirent) (name : Name)
    → ino_of (push t e (dirhash name)) name
      ≡ (if name_eq name e.di_name then some e.di_ino else ino_of (t (dirhash name)) name)
unfolding find
ino_of-push t e name = elim (Bool-cases (name_eq name e.di_name)) [
  | inl same ↦
      let eq = name_eq-eq name e.di_name same in
      let h : (dirhash name == dirhash e.di_name) ≡ true = rw eq (ground arith) in
      rw h (rw same refl)
  | inr other ↦ elim (Bool-cases (dirhash name == dirhash e.di_name)) [
    | inl h ↦
        let eq : dirhash name ≡ dirhash e.di_name = ground arith in
        rw h (rw other (ap (λ i. ino_of (t i) name) (sym eq)))
    | inr h ↦ rw h (rw other refl)
  ]
]

pub find-push-none :
    (t : ℕ → List Dirent) (e : Dirent) (name : Name)
    → name_eq name e.di_name ≡ false
    → find (t (dirhash name)) name ≡ none
    → find (push t e (dirhash name)) name ≡ none
unfolding find
find-push-none t e name other n = elim (Bool-cases (dirhash name == dirhash e.di_name)) [
  | inl h ↦
      let eq : dirhash name ≡ dirhash e.di_name = ground arith in
      rw h (rw other (ap (λ i. find (t i) name) (sym eq) ∙ n))
  | inr h ↦ rw h n
]

pub push-IsTable :
    (t : ℕ → List Dirent) (e : Dirent)
    → IsTable t
    → find (t (dirhash e.di_name)) e.di_name ≡ none
    → IsTable (push t e)
push-IsTable t e ok fresh i = elim (Bool-cases (i == dirhash e.di_name)) [
  | inl h ↦
      let eq : i ≡ dirhash e.di_name = ground arith in
      let old = ok (dirhash e.di_name) in
      rw eq (rw (eqb_refl (dirhash e.di_name)) ((fresh, old.0), (refl, old.1)))
  | inr h ↦ rw h (ok i)
]

push-other :
    (t : ℕ → List Dirent) (e : Dirent) (i : ℕ) → (i == dirhash e.di_name) ≡ false → push t e i ≡ t i
push-other t e i other = rw other refl

count_below-above :
    (n hash : ℕ) (t t' : ℕ → List Dirent)
    → ((i : ℕ) → (i == hash) ≡ false → t' i ≡ t i)
    → n ≤ hash
    → count_below n t' ≡ count_below n t
count_below-above zero hash t t' same h = refl
count_below-above (suc n) hash t t' same h =
    rw (same n (ground arith))
      (ap (λ k. length (t n) + k) (count_below-above n hash t t' same (omega arith)))

-- A bucket below `n` that changes changes the sum by what it changes itself.
pub count_below-set :
    (n hash : ℕ) (t t' : ℕ → List Dirent)
    → ((i : ℕ) → (i == hash) ≡ false → t' i ≡ t i)
    → hash < n
    → count_below n t' + length (t hash) ≡ count_below n t + length (t' hash)
count_below-set zero hash t t' same h = omega arith
count_below-set (suc n) hash t t' same h = elim (Bool-cases (n == hash)) [
  | inl eq ↦
      let at_end : n ≡ hash = ground arith in
      let below = count_below-above n hash t t' same (omega arith) in
      let old : length (t n) ≡ length (t hash) = ap (λ i. length (t i)) at_end in
      let new : length (t' n) ≡ length (t' hash) = ap (λ i. length (t' i)) at_end in omega arith
  | inr other ↦
      let rest = count_below-set n hash t t' same (ground arith) in
      let kept : length (t' n) ≡ length (t n) = ap length (same n other) in omega arith
]

pub count_below-push :
    (n : ℕ) (t : ℕ → List Dirent) (e : Dirent)
    → dirhash e.di_name < n
    → count_below n (push t e) ≡ suc (count_below n t)
count_below-push n t e h =
    let hash = dirhash e.di_name in
    let sum = count_below-set n hash t (push t e) (push-other t e) h in
    let here : length (push t e hash) ≡ suc (length (t hash)) = rw (eqb_refl hash) refl in
    omega arith

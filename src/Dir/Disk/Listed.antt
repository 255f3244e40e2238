-- ===== src/Dir/Disk/Listed.antt =====
-- The order in which lc_dirFlush comes to the entries: every entry of the directory, once.
use lcfs.Prelude.{
  ℕ, zero, suc, ◌+◌, ◌≡◌, ◌≤◌, ◌<◌, inl, inr, refl, sym, ap, ◌∙◌, false, ◌==◌, List, [], ◌∷◌, ◌++◌,
  length, length-append, arith, Option, none, some, Bool-cases, ◌>>=◌, leb, ltb, ◌&&◌,
}
use lcfs.Prelude.Words.{u64_mod, add64}
use lcfs.Dir.{
  Name, name_eq, dirhash, dircache_size, Dirent, Entries, plain, hashed, find, dir_get_dirent,
}
use lcfs.Dir.Names.{name_eq-eq, dirhash-lt}
use lcfs.Dir.Table.{Distinct, Placed, IsTable, IsEntries, ino_of, ino_in, count_of}
use lcfs.Dir.Copy.{count_from, copied_all, length-zero}
use lcfs.Dir.Disk.{list_table, list_entries}

-- The buckets from `i`, of which there are `n`
abbrev buckets : (n i : ℕ) → (ℕ → List Dirent) → List Dirent
buckets zero i t = []
buckets (suc n) i t = t i ++ buckets n (i + 1) t

append-nil : (es : List Dirent) → es ++ [] ≡ es
append-nil [] = refl
append-nil (e ∷ es) = ap (λ l. e ∷ l) (append-nil es)

no_buckets : (n i : ℕ) (t : ℕ → List Dirent) → count_from n i t ≡ 0 → buckets n i t ≡ []
no_buckets zero i t h = refl
no_buckets (suc n) i t h =
    rw (length-zero (t i) (omega arith)) (no_buckets n (i + 1) t (omega arith))

list_table-buckets :
    (n i entries size : ℕ) (t : ℕ → List Dirent)
    → entries + count_from n i t ≡ size
    → size < u64_mod
    → list_table n i entries size t ≡ (buckets n i t, size)
unfolding list_table
list_table-buckets zero i entries size t h b = ap (λ k. ([], k)) (omega arith)
list_table-buckets (suc n) i entries size t h b =
    let next : add64 entries (length (t i)) ≡ entries + length (t i) = omega arith in
    elim (Bool-cases (add64 entries (length (t i)) == size)) [
      | inl eq ↦
          let done = no_buckets n (i + 1) t (ground arith) in
          rw eq (
            ap (λ k. (t i, k)) (ground arith)
            ∙ ap (λ l. (l, size)) (sym (append-nil (t i)) ∙ ap (λ l. t i ++ l) (sym done)))
      | inr other ↦ rw other (
          ap (λ r. (t i ++ r.0, r.1))
            (list_table-buckets n (i + 1) (add64 entries (length (t i))) size t (omega arith) b))
    ]

first_of : (o o' : Option Dirent) → o' ≡ none → (elim o [ none ↦ o' | some e ↦ some e ]) ≡ o
first_of none o' h = h
first_of (some e) o' h = refl

find-append :
    (xs ys : List Dirent) (name : Name)
    → find (xs ++ ys) name ≡ (elim (find xs name) [ none ↦ find ys name | some e ↦ some e ])
unfolding find
find-append [] ys name = refl
find-append (e ∷ xs) ys name = elim (Bool-cases (name_eq name e.di_name)) [
  | inl h ↦ rw h refl
  | inr h ↦ rw h (find-append xs ys name)
]

-- A name is not in a bucket of another hash.
Placed-none :
    (hash : ℕ) (es : List Dirent) (name : Name)
    → Placed hash es
    → (dirhash name == hash) ≡ false
    → find es name ≡ none
unfolding find
Placed-none hash [] name p h = refl
Placed-none hash (e ∷ es) name p h = elim (Bool-cases (name_eq name e.di_name)) [
  | inl same ↦
      let eq : dirhash name ≡ hash = ap dirhash (name_eq-eq name e.di_name same) ∙ p.0 in
      absurd (ground arith)
  | inr other ↦ rw other (Placed-none hash es name p.1 h)
]

find-buckets-none :
    (n i : ℕ) (t : ℕ → List Dirent) (name : Name)
    → IsTable t
    → (leb i (dirhash name) && ltb (dirhash name) (i + n)) ≡ false
    → find (buckets n i t) name ≡ none
unfolding find
find-buckets-none zero i t name ok h = refl
find-buckets-none (suc n) i t name ok h =
    let first = Placed-none i (t i) name (ok i).1 (ground arith) in
    let rest = find-buckets-none n (i + 1) t name ok (ground arith) in
    find-append (t i) (buckets n (i + 1) t) name ∙ rw first rest

find-buckets :
    (n i : ℕ) (t : ℕ → List Dirent) (name : Name)
    → IsTable t
    → i ≤ dirhash name
    → dirhash name < i + n
    → find (buckets n i t) name ≡ find (t (dirhash name)) name
find-buckets zero i t name ok l u = absurd (omega arith)
find-buckets (suc n) i t name ok l u = elim (Bool-cases (dirhash name == i)) [
  | inl h ↦
      let eq : dirhash name ≡ i = ground arith in
      let rest = find-buckets-none n (i + 1) t name ok (ground arith) in
      find-append (t i) (buckets n (i + 1) t) name
      ∙ first_of (find (t i) name) (find (buckets n (i + 1) t) name) rest
      ∙ ap (λ j. find (t j) name) (sym eq)
  | inr h ↦
      let first = Placed-none i (t i) name (ok i).1 h in
      let rest = find-buckets n (i + 1) t name ok (ground arith) (omega arith) in
      find-append (t i) (buckets n (i + 1) t) name ∙ rw first rest
]

-- No name of the first list stands in the second.
abbrev Absent : List Dirent → List Dirent → Type 0
Absent [] ys = Unit
Absent (e ∷ xs) ys = (find ys e.di_name ≡ none) × Absent xs ys

append-Distinct :
    (xs ys : List Dirent) → Distinct xs → Distinct ys → Absent xs ys → Distinct (xs ++ ys)
append-Distinct [] ys d d' a = d'
append-Distinct (e ∷ xs) ys d d' a =
    (find-append xs ys e.di_name ∙ rw (d.0) a.0, append-Distinct xs ys d.1 d' a.1)

Absent-buckets :
    (hash n : ℕ) (xs : List Dirent) (t : ℕ → List Dirent)
    → IsTable t
    → Placed hash xs
    → Absent xs (buckets n (hash + 1) t)
Absent-buckets hash n [] t ok p = tt
Absent-buckets hash n (e ∷ xs) t ok p =
    let at = p.0 in
    (
      find-buckets-none n (hash + 1) t e.di_name ok (ground arith),
      Absent-buckets hash n xs t ok p.1,
    )

buckets-Distinct : (n i : ℕ) (t : ℕ → List Dirent) → IsTable t → Distinct (buckets n i t)
buckets-Distinct zero i t ok = tt
buckets-Distinct (suc n) i t ok =
    append-Distinct (t i) (buckets n (i + 1) t) (ok i).0 (buckets-Distinct n (i + 1) t ok)
      (Absent-buckets i n (t i) t ok (ok i).1)

-- The list has the directory's entries, each name once, and the number of them was counted.
pub record Listed (entries : Entries) (size : ℕ) (listed : List Dirent × ℕ) : Type 0 where
  pub all : listed.1 ≡ size
  pub same : (name : Name) → ino_of listed.0 name ≡ ino_in entries name
  pub distinct : Distinct listed.0
  pub number : length listed.0 ≡ size

length-buckets : (n i : ℕ) (t : ℕ → List Dirent) → length (buckets n i t) ≡ count_from n i t
length-buckets zero i t = refl
length-buckets (suc n) i t =
    omega (arith, length-append (t i) (buckets n (i + 1) t), length-buckets n (i + 1) t)

pub list_entries-Listed :
    (entries : Entries) (size : ℕ)
    → IsEntries entries
    → size ≡ count_of entries
    → size < u64_mod
    → Listed entries size (list_entries entries size)
unfolding list_entries dir_get_dirent
list_entries-Listed (plain es) size ok h b = record {
  all = omega arith;
  same = λ name. refl;
  distinct = ok;
  number = sym h;
}
list_entries-Listed (hashed t) size ok h b =
    rw (list_table-buckets dircache_size 0 0 size t (copied_all dircache_size size t h) b)
      (listed dircache_size dirhash-lt (copied_all dircache_size size t h))
  where
    listed :
        (n : ℕ)
        → ((name : Name) → dirhash name < n)
        → 0 + count_from n 0 t ≡ size
        → Listed (hashed t) size (buckets n 0 t, size)
    listed n lt sum = record {
      all = refl;
      same = λ name.
          ap (λ o. o >>= λ e. some e.di_ino)
            (find-buckets n 0 t name ok (omega arith) (omega (arith, lt name)));
      distinct = buckets-Distinct n 0 t ok;
      number = omega (arith, length-buckets n 0 t);
    }

-- ===== src/Dir/Bucket.antt =====
-- The bucket of a name, written back.
use lcfs.Prelude.{
  ℕ, ◌+◌, ◌≡◌, inl, inr, refl, sym, ap, ◌∙◌, true, false, ◌==◌, List, length, arith, Option,
  Bool-cases, ◌<◌,
}
use lcfs.Dir.{
  Name, name_eq, dirhash, dircache_size, Dirent, Entries, plain, hashed, dir_get_dirent, set_bucket,
  set_list,
}
use lcfs.Dir.Names.{name_eq-eq, eqb_refl, dirhash-lt}
use lcfs.Dir.Table.{
  Distinct, Placed, IsTable, IsEntries, ino_of, ino_in, count_of, count_below, count_below-set,
}

set_bucket-IsTable :
    (t : ℕ → List Dirent) (hash : ℕ) (es : List Dirent)
    → IsTable t
    → Distinct es
    → Placed hash es
    → IsTable (set_bucket t hash es)
set_bucket-IsTable t hash es ok d p i = elim (Bool-cases (i == hash)) [
  | inl h ↦ let eq : i ≡ hash = ground arith in rw eq (rw (eqb_refl hash) (d, p))
  | inr h ↦ rw h (ok i)
]

count_below-set_bucket :
    (n : ℕ) (t : ℕ → List Dirent) (hash : ℕ) (es : List Dirent)
    → hash < n
    → count_below n (set_bucket t hash es) + length (t hash) ≡ count_below n t + length es
count_below-set_bucket n t hash es h =
    let sum = count_below-set n hash t (set_bucket t hash es) (λ i other. rw other refl) h in
    let here : length (set_bucket t hash es hash) ≡ length es = rw (eqb_refl hash) refl in
    omega arith

pub set_list-IsEntries :
    (entries : Entries) (name : Name) (es : List Dirent)
    → IsEntries entries
    → (Distinct (dir_get_dirent entries name) → Distinct es)
    → ((hash : ℕ) → Placed hash (dir_get_dirent entries name) → Placed hash es)
    → IsEntries (set_list entries name es)
unfolding dir_get_dirent
set_list-IsEntries (plain es') name es ok d p = d ok
set_list-IsEntries (hashed t) name es ok d p =
    set_bucket-IsTable t (dirhash name) es ok (d (ok (dirhash name)).0)
      (p (dirhash name) (ok (dirhash name)).1)

pub count_of-set_list :
    (entries : Entries) (name : Name) (es : List Dirent)
    → count_of (set_list entries name es) + length (dir_get_dirent entries name)
      ≡ count_of entries + length es
unfolding dir_get_dirent
count_of-set_list (plain es') name es = omega arith
count_of-set_list (hashed t) name es =
    count_below-set_bucket dircache_size t (dirhash name) es (dirhash-lt name)

-- A list that is written back answers for the names of its bucket, the others are as they were.
pub ino_in-set_list :
    (entries : Entries) (name : Name) (es : List Dirent) (f : Option ℕ → Name → Option ℕ)
    → ((n : Name) → ino_of es n ≡ f (ino_of (dir_get_dirent entries name) n) n)
    → ((n : Name) (o : Option ℕ) → (dirhash n == dirhash name) ≡ false → f o n ≡ o)
    → (n : Name) → ino_in (set_list entries name es) n ≡ f (ino_in entries n) n
unfolding dir_get_dirent
ino_in-set_list (plain es') name es f here away n = here n
ino_in-set_list (hashed t) name es f here away n = elim (Bool-cases (dirhash n == dirhash name)) [
  | inl h ↦
      let eq : dirhash n ≡ dirhash name = ground arith in
      rw h (here n ∙ ap (λ i. f (ino_of (t i) n) n) (sym eq))
  | inr h ↦ rw h (sym (away n (ino_of (t (dirhash n)) n) h))
]

pub other_hash : (a b : Name) → (dirhash a == dirhash b) ≡ false → name_eq a b ≡ false
other_hash a b h = elim (Bool-cases (name_eq a b)) [
  | inl same ↦
      let eq : (dirhash a == dirhash b) ≡ true = rw (name_eq-eq a b same) (eqb_refl (dirhash b)) in
      cc
  | inr other ↦ other
]

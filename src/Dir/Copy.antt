-- ===== src/Dir/Copy.antt =====
-- lc_dirCopy: a directory of its own has the entries of the one that it was shared with.
use lcfs.Prelude.{
  ℕ, zero, suc, ◌+◌, ◌≡◌, ◌≤◌, ◌<◌, inl, inr, refl, sym, ap, ◌∙◌, true, false, ◌==◌, leb, List, [],
  ◌∷◌, length, arith, some, Bool-cases,
}
use lcfs.Prelude.Words.{u64_mod, add64}
use lcfs.Dir.{
  Name, dirhash, dircache_size, Dirent, Entries, plain, hashed, dir_get_dirent, set_bucket, Dir,
  dir_lookup, copy_table, copy_entries, dir_copy,
}
use lcfs.Dir.Names.{dirhash-lt, eqb_refl}
use lcfs.Dir.Table.{IsTable, IsEntries, ino_of, ino_in, count_of, count_below, IsDir}

-- The entries of the `n` buckets from `i`
abbrev pub count_from : (n i : ℕ) → (ℕ → List Dirent) → ℕ
count_from zero i t = 0
count_from (suc n) i t = length (t i) + count_from n (i + 1) t

count_from-below :
    (n i : ℕ) (t : ℕ → List Dirent) → count_from n i t + count_below i t ≡ count_below (n + i) t
count_from-below zero i t =
    let shift : count_below (0 + i) t ≡ count_below i t = ap (λ k. count_below k t) (omega arith) in
    omega arith
count_from-below (suc n) i t =
    let rest = count_from-below n (suc i) t in
    let shift : count_below (n + suc i) t ≡ count_below (suc n + i) t =
      ap (λ k. count_below k t) (omega arith) in
    let next : count_from n (i + 1) t ≡ count_from n (suc i) t =
      ap (λ k. count_from n k t) (omega arith) in
    omega arith

pub count_from-all : (n : ℕ) (t : ℕ → List Dirent) → count_from n 0 t ≡ count_below n t
count_from-all n t =
    let sum = count_from-below n 0 t in
    let shift : count_below (n + 0) t ≡ count_below n t = ap (λ k. count_below k t) (omega arith) in
    omega arith

pub length-zero : (es : List Dirent) → length es ≡ 0 → es ≡ []
length-zero [] h = refl
length-zero (e ∷ es) h = absurd (omega arith)

-- Buckets without an entry are empty.
empty_from : (n i j : ℕ) (t : ℕ → List Dirent) → count_from n i t ≡ 0 → i ≤ j → j < i + n → t j ≡ []
empty_from zero i j t h l u = absurd (omega arith)
empty_from (suc n) i j t h l u = elim (Bool-cases (i == j)) [
  | inl eq ↦ let at : i ≡ j = ground arith in ap t (sym at) ∙ length-zero (t i) (omega arith)
  | inr other ↦ empty_from n (i + 1) j t (omega arith) (ground arith) (omega arith)
]

-- The buckets from `i` on are the table's, the others are empty.
record Copied (n i size : ℕ) (t : ℕ → List Dirent) (copy : (ℕ → List Dirent) × ℕ) : Type 0 where
  pub all : copy.1 ≡ size
  pub same : (j : ℕ) → i ≤ j → j < i + n → copy.0 j ≡ t j
  pub below : (j : ℕ) → j < i → copy.0 j ≡ []
  pub above : (j : ℕ) → i + n ≤ j → copy.0 j ≡ []

abbrev with_bucket : (i : ℕ) → List Dirent → (ℕ → List Dirent) × ℕ → (ℕ → List Dirent) × ℕ
with_bucket i es copy = (set_bucket copy.0 i es, copy.1)

with_bucket-Copied :
    (n i size : ℕ) (t : ℕ → List Dirent) (copy : (ℕ → List Dirent) × ℕ)
    → Copied n (i + 1) size t copy
    → Copied (suc n) i size t (with_bucket i (t i) copy)
with_bucket-Copied n i size t copy w = record {
  all = w.all;
  same = λ j l u. elim (Bool-cases (j == i)) [
    | inl eq ↦ let at : j ≡ i = ground arith in rw eq (ap t (sym at))
    | inr other ↦ rw other (w.same j (ground arith) (omega arith))
  ];
  below = λ j l. let other : (j == i) ≡ false = ground arith in rw other (w.below j (omega arith));
  above = λ j l. let other : (j == i) ≡ false = ground arith in rw other (w.above j (omega arith));
}

copy_table-Copied :
    (n i count size : ℕ) (t : ℕ → List Dirent)
    → count + count_from n i t ≡ size
    → size < u64_mod
    → Copied n i size t (copy_table n i count size t)
unfolding copy_table
copy_table-Copied zero i count size t h b = record {
  all = omega arith;
  same = λ j l u. absurd (omega arith);
  below = λ j l. refl;
  above = λ j l. refl;
}
copy_table-Copied (suc n) i count size t h b = elim (Bool-cases (count == size)) [
  | inl eq ↦
      let done : count_from (suc n) i t ≡ 0 = ground arith in
      rw eq (record {
        all = ground arith;
        same = λ j l u. sym (empty_from (suc n) i j t done l u);
        below = λ j l. refl;
        above = λ j l. refl;
      })
  | inr other ↦
      let next = add64 count (length (t i)) in
      rw other (
        with_bucket-Copied n i size t (copy_table n (i + 1) next size t)
          (copy_table-Copied n (i + 1) next size t (ground arith) b))
]

count_below-same :
    (n : ℕ) (t t' : ℕ → List Dirent)
    → ((j : ℕ) → j < n → t' j ≡ t j)
    → count_below n t' ≡ count_below n t
count_below-same zero t t' same = refl
count_below-same (suc n) t t' same =
    let here : length (t' n) ≡ length (t n) = ap length (same n (omega arith)) in
    let rest = count_below-same n t t' (λ j l. same j (omega arith)) in omega arith

Copied-IsTable :
    (n size : ℕ) (t : ℕ → List Dirent) (copy : (ℕ → List Dirent) × ℕ)
    → Copied n 0 size t copy
    → IsTable t
    → IsTable copy.0
Copied-IsTable n size t copy w ok j = elim (Bool-cases (leb n j)) [
  | inl h ↦ rw (w.above j (ground arith)) (tt, tt)
  | inr h ↦ rw (w.same j (omega arith) (ground arith)) (ok j)
]

pub copied_all :
    (n size : ℕ) (t : ℕ → List Dirent) → size ≡ count_below n t → 0 + count_from n 0 t ≡ size
copied_all n size t h = omega (arith, count_from-all n t)

-- A copy that is the directory it was made from
record SameAs (entries : Entries) (size : ℕ) (copy : Entries × ℕ) : Type 0 where
  pub all : copy.1 ≡ size
  pub looked_up : (name : Name) → ino_in copy.0 name ≡ ino_in entries name
  pub in_order : IsEntries copy.0
  pub count : count_of copy.0 ≡ count_of entries

hashed-SameAs :
    (t : ℕ → List Dirent) (size : ℕ) (copy : (ℕ → List Dirent) × ℕ)
    → Copied dircache_size 0 size t copy
    → IsTable t
    → SameAs (hashed t) size (hashed copy.0, copy.1)
unfolding dir_get_dirent
hashed-SameAs t size copy w ok = record {
  all = w.all;
  looked_up =
      λ name. ap (λ es. ino_of es name) (w.same (dirhash name) (omega arith) (dirhash-lt name));
  in_order = Copied-IsTable dircache_size size t copy w ok;
  count = count_below-same dircache_size t copy.0 (λ j l. w.same j (omega arith) l);
}

copy_entries-SameAs :
    (entries : Entries) (size : ℕ)
    → IsEntries entries
    → size ≡ count_of entries
    → size < u64_mod
    → SameAs entries size (copy_entries entries size)
unfolding copy_entries
copy_entries-SameAs (plain es) size ok h b = record {
  all = omega arith;
  looked_up = λ name. refl;
  in_order = ok;
  count = refl;
}
copy_entries-SameAs (hashed t) size ok h b =
    hashed-SameAs t size (copy_table dircache_size 0 0 size t)
      (copy_table-Copied dircache_size 0 0 size t (copied_all dircache_size size t h) b) ok

-- What a copy of a shared directory is.
pub record DirCopied (dir : Dir) (dir' : Dir) : Type 0 where
  pub run : dir_copy dir ≡ some dir'
  pub looked_up : (name : Name) → dir_lookup dir' name ≡ dir_lookup dir name
  pub in_order : IsDir dir'
  pub own : dir'.shared ≡ false
  pub dirty : dir'.dir_dirty ≡ true

-- If `lc_dirCopy` is called on a shared directory in order with at least two links, then it runs to
-- its end, also where it stops before the last buckets, every lookup gives what it gave before, and
-- the directory is in order, not shared and marked dirty.
pub dir_copy-DirCopied :
    (dir : Dir) → IsDir dir → dir.shared ≡ true → 2 ≤ dir.nlink → (dir' : Dir) × DirCopied dir dir'
unfolding dir_copy dir_lookup
dir_copy-DirCopied dir ok shared links =
    let copy = copy_entries dir.entries dir.size in
    let w = copy_entries-SameAs dir.entries dir.size ok.entries_ok ok.counted ok.bounded in
    let h : leb 2 dir.nlink ≡ true = ground arith in
    let same : (dir.size == copy.1) ≡ true = rw w.all (eqb_refl dir.size) in
    (
      record dir { entries = copy.0; shared = false; dir_dirty = true },
      record {
        run = rw shared (rw h (rw same refl));
        looked_up = w.looked_up;
        in_order = record {
          entries_ok = w.in_order;
          counted = ok.counted ∙ sym w.count;
          bounded = ok.bounded;
        };
        own = refl;
        dirty = refl;
      },
    )

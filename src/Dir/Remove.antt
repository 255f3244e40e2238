-- ===== src/Dir/Remove.antt =====
-- lc_dirRemove: what a name stands for afterwards, and that the directory stays in order.
use lcfs.Prelude.{
  ℕ, suc, ◌+◌, ◌≡◌, inl, inr, refl, sym, ap, ◌∙◌, Bool, true, false, List, [], ◌∷◌, length, arith,
  Option, none, some, if◌then◌else◌, Bool-cases, ◌<◌, ◌>>=◌,
}
use lcfs.Prelude.Words.{u64_mod, sub64}
use lcfs.Dir.{
  Name, name_eq, Dirent, find, dir_get_dirent, set_list, remove_entry, Dir, dir_lookup, dir_remove,
}
use lcfs.Dir.Names.{name_eq_sym, name_eq-other, name_eq-same, name_eq-eq}
use lcfs.Dir.Table.{
  Distinct, ino_of, ino_of-none, Placed, entry_of, count_of, find-cons, find-cons-other,
  dir_get_dirent-Distinct, IsDir,
}
use lcfs.Dir.Rehash.{find-cons-none}
use lcfs.Dir.Bucket.{set_list-IsEntries, count_of-set_list, ino_in-set_list, other_hash}

-- The list that is left when a name leaves it
pub record Without (es : List Dirent) (name : Name) (es' : List Dirent) : Type 0 where
  pub run : remove_entry es name ≡ some es'
  pub left : Distinct es → (n : Name) → find es' n ≡ (if name_eq n name then none else find es n)
  pub distinct : Distinct es → Distinct es'
  pub placed : (hash : ℕ) → Placed hash es → Placed hash es'
  pub shorter : length es ≡ suc (length es')

pub remove_entry-here :
    (e : Dirent) (es : List Dirent) (name : Name)
    → name_eq name e.di_name ≡ true
    → Without (e ∷ es) name es
unfolding remove_entry
remove_entry-here e es name same = record {
  run = rw same refl;
  left = λ d n. rw (find-cons e es n) (gone d n);
  distinct = λ d. d.1;
  placed = λ hash p. p.1;
  shorter = refl;
}
  where
    gone :
        Distinct (e ∷ es)
        → (n : Name)
        → find es n
          ≡ (if name_eq n name then none else (if name_eq n e.di_name then some e else find es n))
    gone d n = rw (name_eq-same n name e.di_name same) (elim (Bool-cases (name_eq n e.di_name)) [
      | inl h ↦ rw h (ap (find es) (name_eq-eq n e.di_name h) ∙ d.0)
      | inr h ↦ rw h refl
    ])

pub remove_entry-later :
    (e : Dirent) (es es' : List Dirent) (name : Name)
    → name_eq name e.di_name ≡ false
    → Without es name es'
    → Without (e ∷ es) name (e ∷ es')
unfolding remove_entry
remove_entry-later e es es' name other w = record {
  run = rw other (rw w.run refl);
  left = λ d n. rw (find-cons e es' n) (rw (find-cons e es n) (left d n));
  distinct =
      λ d. (w.left d.1 e.di_name ∙ rw (name_eq_sym e.di_name name ∙ other) d.0, w.distinct d.1);
  placed = λ hash p. (p.0, w.placed hash p.1);
  shorter = ap suc w.shorter;
}
  where
    left :
        Distinct (e ∷ es)
        → (n : Name)
        → (if name_eq n e.di_name then some e else find es' n)
          ≡ (if name_eq n name then none else (if name_eq n e.di_name then some e else find es n))
    left d n = elim (Bool-cases (name_eq n e.di_name)) [
      | inl h ↦ rw h (rw (name_eq-other n name e.di_name other h) refl)
      | inr h ↦ rw h (w.left d.1 n)
    ]

remove_entry-Without :
    (es : List Dirent) (name : Name) (e : Dirent)
    → find es name ≡ some e
    → (es' : List Dirent) × Without es name es'
unfolding find
remove_entry-Without [] name e h = cc
remove_entry-Without (e' ∷ es) name e h = elim (Bool-cases (name_eq name e'.di_name)) [
  | inl same ↦ (es, remove_entry-here e' es name same)
  | inr other ↦
      let later : find es name ≡ some e = sym (find-cons-other e' es name other) ∙ h in
      let (es', w) = remove_entry-Without es name e later in
      (e' ∷ es', remove_entry-later e' es es' name other w)
]

remove_entry-none :
    (es : List Dirent) (name : Name) → find es name ≡ none → remove_entry es name ≡ none
unfolding remove_entry
remove_entry-none [] name h = refl
remove_entry-none (e ∷ es) name h =
    let (other, rest) = find-cons-none e es name h in
    rw other (rw (remove_entry-none es name rest) refl)

-- What removing a name gives.
pub record Removed (dir : Dir) (name : Name) (dir' : Dir) : Type 0 where
  pub run : dir_remove dir name ≡ some dir'
  pub looked_up :
      (n : Name) → dir_lookup dir' n ≡ (if name_eq n name then none else dir_lookup dir n)
  pub in_order : IsDir dir'
  pub fewer : dir.size ≡ suc dir'.size

sub64-suc :
    (s c c' l l' : ℕ)
    → s ≡ c
    → c' + l ≡ c + l'
    → l ≡ suc l'
    → s < u64_mod
    → (sub64 s 1 ≡ c') × (sub64 s 1 < u64_mod) × (s ≡ suc (sub64 s 1))
sub64-suc s c c' l l' h1 h2 h3 h4 = (omega arith, omega arith, omega arith)

dir_remove-run :
    (dir : Dir) (name : Name) (es' : List Dirent)
    → dir.shared ≡ false
    → remove_entry (dir_get_dirent dir.entries name) name ≡ some es'
    → dir_remove dir name
      ≡ some (record dir { entries = set_list dir.entries name es'; size = sub64 dir.size 1 })
unfolding dir_remove
dir_remove-run dir name es' own run = rw own (rw run refl)

ino-if :
    (b : Bool) (o : Option Dirent)
    → ((if b then none else o) >>= λ e. some e.di_ino)
      ≡ (if b then none else (o >>= λ e. some e.di_ino))
ino-if true o = refl
ino-if false o = refl

pub ino_of-Without :
    (es : List Dirent) (name : Name) (es' : List Dirent)
    → Without es name es'
    → Distinct es
    → (n : Name) → ino_of es' n ≡ (if name_eq n name then none else ino_of es n)
ino_of-Without es name es' w d n =
    ap (λ o. o >>= λ e. some e.di_ino) (w.left d n) ∙ ino-if (name_eq n name) (find es n)

pub found_of :
    (o : Option Dirent) (ino : ℕ)
    → (o >>= λ e. some e.di_ino) ≡ some ino
    → (e : Dirent) × (o ≡ some e) × (e.di_ino ≡ ino)
found_of none ino h = cc
found_of (some e) ino h = (e, refl, cc)

-- The directory after the entry has left its list
Without-Removed :
    (dir : Dir) (name : Name) (es' : List Dirent)
    → IsDir dir
    → dir.shared ≡ false
    → Without (dir_get_dirent dir.entries name) name es'
    → Removed dir name
        (record dir { entries = set_list dir.entries name es'; size = sub64 dir.size 1 })
unfolding dir_lookup
Without-Removed dir name es' ok own w =
    let (counted, bounded, fewer) =
      sub64-suc dir.size (count_of dir.entries) (count_of (set_list dir.entries name es'))
        (length (dir_get_dirent dir.entries name)) (length es') ok.counted
        (count_of-set_list dir.entries name es') w.shorter ok.bounded in
    record {
      run = dir_remove-run dir name es' own w.run;
      looked_up = λ n.
          ino_in-set_list dir.entries name es' (λ o n. if name_eq n name then none else o)
            (ino_of-Without (dir_get_dirent dir.entries name) name es' w
              (dir_get_dirent-Distinct dir.entries name ok.entries_ok))
            (λ n o h. rw (other_hash n name h) refl) n;
      in_order = record {
        entries_ok = set_list-IsEntries dir.entries name es' ok.entries_ok w.distinct w.placed;
        counted = counted;
        bounded = bounded;
      };
      fewer = fewer;
    }

-- If `lc_dirRemove` is called on a directory in order that is not shared, for a name that a lookup
-- finds, then it runs to its end, a lookup of the name fails afterwards, one of any other name gives
-- what it gave before, the size is one less, and the directory is in order.
pub dir_remove-Removed :
    (dir : Dir) (name : Name) (ino : ℕ)
    → IsDir dir
    → dir.shared ≡ false
    → dir_lookup dir name ≡ some ino
    → (dir' : Dir) × Removed dir name dir'
unfolding dir_lookup
dir_remove-Removed dir name ino ok own there =
    let (e, found, _) = found_of (entry_of dir.entries name) ino there in
    let (es', w) = remove_entry-Without (dir_get_dirent dir.entries name) name e found in
    (
      record dir { entries = set_list dir.entries name es'; size = sub64 dir.size 1 },
      Without-Removed dir name es' ok own w,
    )

-- For a name that a lookup does not find `lc_dirRemove` stops at an `assert`.
pub dir_remove-none :
    (dir : Dir) (name : Name) → dir_lookup dir name ≡ none → dir_remove dir name ≡ none
unfolding dir_lookup dir_remove
dir_remove-none dir name h = elim (Bool-cases dir.shared) [
  | inl s ↦ rw s refl
  | inr s ↦ rw s (
      rw
        (remove_entry-none (dir_get_dirent dir.entries name) name
          (ino_of-none (dir_get_dirent dir.entries name) name h))
        refl)
]

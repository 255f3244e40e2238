-- ===== src/Dir/Rename.antt =====
-- lc_dirRename: what the two names stand for afterwards, and that the directory stays in order.
use lcfs.Prelude.{
  ℕ, suc, ◌≡◌, inl, inr, refl, sym, ap, ◌∙◌, true, false, List, [], ◌∷◌, length, arith, Option,
  none, some, if◌then◌else◌, Bool-cases, ◌>>=◌,
}
use lcfs.Dir.{Name, name_eq, dirhash, Dirent, find, is_entry, rename_in_place, take_entry}
use lcfs.Dir.Names.{eqb_refl, name_eq_sym, name_eq-eq, name_eq-other, name_eq-same}
use lcfs.Dir.Table.{Distinct, Placed, ino_of, find-cons-same, ino_of-none, find-cons-other}
use lcfs.Dir.Rehash.{find-cons-none, ino_of-cons}
use lcfs.Dir.Remove.{Without, remove_entry-here, remove_entry-later}

-- What a name stands for after a rename
abbrev pub renamed : (ino : ℕ) → (name newname : Name) → Option ℕ → Name → Option ℕ
renamed ino name newname o n =
    if name_eq n newname then some ino else (if name_eq n name then none else o)

is_entry-here :
    (ino : ℕ) (name : Name) (e : Dirent)
    → e.di_ino ≡ ino
    → name_eq name e.di_name ≡ true
    → is_entry ino name e ≡ true
is_entry-here ino name e i same = rw i (rw (eqb_refl ino) same)

is_entry-other :
    (ino : ℕ) (name : Name) (e : Dirent)
    → name_eq name e.di_name ≡ false
    → is_entry ino name e ≡ false
is_entry-other ino name e other = rw other (ground arith)

-- Taking the entry is removing its name.
pub record Taken (es : List Dirent) (ino : ℕ) (name : Name) (e : Dirent) (es' : List Dirent)
    : Type 0 where
  pub taken : take_entry es ino name ≡ some (e, es')
  pub without : Without es name es'

some-inj : {e e' : Dirent} → some e ≡ some e' → e ≡ e'
some-inj h = cc

pub take_entry-Taken :
    (es : List Dirent) (ino : ℕ) (name : Name) (e : Dirent)
    → find es name ≡ some e
    → e.di_ino ≡ ino
    → (es' : List Dirent) × Taken es ino name e es'
unfolding find take_entry
take_entry-Taken [] ino name e h i = cc
take_entry-Taken (e' ∷ es) ino name e h i = elim (Bool-cases (name_eq name e'.di_name)) [
  | inl same ↦
      let eq : e' ≡ e = some-inj (sym (find-cons-same e' es name same) ∙ h) in
      (
        es,
        record {
          taken =
              rw (is_entry-here ino name e' (ap (λ x. x.di_ino) eq ∙ i) same)
                (ap (λ x. some (x, es)) eq);
          without = remove_entry-here e' es name same;
        },
      )
  | inr other ↦
      let later : find es name ≡ some e = sym (find-cons-other e' es name other) ∙ h in
      let (es', w) = take_entry-Taken es ino name e later i in
      (
        e' ∷ es',
        record {
          taken = rw (is_entry-other ino name e' other) (rw w.taken refl);
          without = remove_entry-later e' es es' name other w.without;
        },
      )
]

-- The list in which an entry got another name
pub record NameChanged (es : List Dirent) (ino : ℕ) (name newname : Name) (es' : List Dirent)
    : Type 0 where
  pub run : rename_in_place es ino name newname ≡ some es'
  pub now : Distinct es → (n : Name) → ino_of es' n ≡ renamed ino name newname (ino_of es n) n
  pub distinct : Distinct es → Distinct es'
  pub placed : (hash : ℕ) → dirhash name ≡ dirhash newname → Placed hash es → Placed hash es'
  pub length_same : length es' ≡ length es

rename_in_place-here :
    (e : Dirent) (es : List Dirent) (ino : ℕ) (name newname : Name)
    → e.di_ino ≡ ino
    → name_eq name e.di_name ≡ true
    → find es newname ≡ none
    → NameChanged (e ∷ es) ino name newname (record e { di_name = newname } ∷ es)
unfolding rename_in_place
rename_in_place-here e es ino name newname i same fresh =
    let e' : Dirent = record e { di_name = newname } in
    record {
      run = rw (is_entry-here ino name e i same) refl;
      now = λ d n. rw (ino_of-cons e' es n) (rw (ino_of-cons e es n) (now d n));
      distinct = λ d. (fresh, d.1);
      placed = λ hash eq p. (sym eq ∙ ap dirhash (name_eq-eq name e.di_name same) ∙ p.0, p.1);
      length_same = refl;
    }
  where
    now :
        Distinct (e ∷ es)
        → (n : Name)
        → (if name_eq n newname then some e.di_ino else ino_of es n)
          ≡ renamed ino name newname (if name_eq n e.di_name then some e.di_ino else ino_of es n) n
    now d n = elim (Bool-cases (name_eq n newname)) [
      | inl h ↦ rw h (ap some i)
      | inr h ↦ rw h (
          rw (name_eq-same n name e.di_name same) (elim (Bool-cases (name_eq n e.di_name)) [
            | inl g ↦
                rw g (
                  ap (ino_of es) (name_eq-eq n e.di_name g)
                  ∙ ap (λ o. o >>= λ x. some x.di_ino) d.0)
            | inr g ↦ rw g refl
          ]))
    ]

rename_in_place-later :
    (e : Dirent) (es es' : List Dirent) (ino : ℕ) (name newname : Name)
    → name_eq name e.di_name ≡ false
    → name_eq newname e.di_name ≡ false
    → NameChanged es ino name newname es'
    → NameChanged (e ∷ es) ino name newname (e ∷ es')
unfolding rename_in_place
rename_in_place-later e es es' ino name newname other new w = record {
  run = rw (is_entry-other ino name e other) (rw w.run refl);
  now = λ d n. rw (ino_of-cons e es' n) (rw (ino_of-cons e es n) (now d n));
  distinct = λ d. (ino_of-none es' e.di_name (w.now d.1 e.di_name ∙ away d), w.distinct d.1);
  placed = λ hash eq p. (p.0, w.placed hash eq p.1);
  length_same = ap suc w.length_same;
}
  where
    away : Distinct (e ∷ es) → renamed ino name newname (ino_of es e.di_name) e.di_name ≡ none
    away d =
        rw (name_eq_sym e.di_name newname ∙ new)
          (rw (name_eq_sym e.di_name name ∙ other) (ap (λ o. o >>= λ x. some x.di_ino) d.0))

    now :
        Distinct (e ∷ es)
        → (n : Name)
        → (if name_eq n e.di_name then some e.di_ino else ino_of es' n)
          ≡ renamed ino name newname (if name_eq n e.di_name then some e.di_ino else ino_of es n) n
    now d n = elim (Bool-cases (name_eq n e.di_name)) [
      | inl h ↦ rw h (
          rw (name_eq-other n newname e.di_name new h)
            (rw (name_eq-other n name e.di_name other h) refl))
      | inr h ↦ rw h (w.now d.1 n)
    ]

pub rename_in_place-NameChanged :
    (es : List Dirent) (ino : ℕ) (name newname : Name) (e : Dirent)
    → find es name ≡ some e
    → e.di_ino ≡ ino
    → find es newname ≡ none
    → (es' : List Dirent) × NameChanged es ino name newname es'
unfolding find
rename_in_place-NameChanged [] ino name newname e h i fresh = cc
rename_in_place-NameChanged (e' ∷ es) ino name newname e h i fresh =
    let (new, fresh') = find-cons-none e' es newname fresh in
    elim (Bool-cases (name_eq name e'.di_name)) [
      | inl same ↦
          let eq : e' ≡ e = some-inj (sym (find-cons-same e' es name same) ∙ h) in
          (
            record e' { di_name = newname } ∷ es,
            rename_in_place-here e' es ino name newname (ap (λ x. x.di_ino) eq ∙ i) same fresh',
          )
      | inr other ↦
          let later : find es name ≡ some e = sym (find-cons-other e' es name other) ∙ h in
          let (es', w) = rename_in_place-NameChanged es ino name newname e later i fresh' in
          (e' ∷ es', rename_in_place-later e' es es' ino name newname other new w)
    ]

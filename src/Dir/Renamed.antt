-- ===== src/Dir/Renamed.antt =====
-- lc_dirRename on a directory: the bucket that an entry stays in, or the one that it moves to.
use lcfs.Prelude.{
  ℕ, suc, ◌+◌, ◌≡◌, inl, inr, refl, sym, ap, ◌∙◌, Bool, true, false, ◌==◌, List, length, arith,
  Option, none, some, if◌then◌else◌, Bool-cases,
}
use lcfs.Dir.{
  Name, name_eq, dirhash, Dirent, Entries, plain, hashed, find, dir_get_dirent, set_list,
  insert_entry, Dir, dir_lookup, rename_entry, dir_rename,
}
use lcfs.Dir.Table.{
  IsEntries, ino_of, ino_of-none, ino_in, count_of, dir_get_dirent-Distinct, IsDir,
}
use lcfs.Dir.Add.{ino_in-insert_entry, insert_entry-IsEntries, count_of-insert_entry}
use lcfs.Dir.Bucket.{set_list-IsEntries, count_of-set_list, ino_in-set_list, other_hash}
use lcfs.Dir.Remove.{Without, ino_of-Without, found_of}
use lcfs.Dir.Rename.{renamed, Taken, take_entry-Taken, NameChanged, rename_in_place-NameChanged}

-- The entries in which an inode got another name
record RenamedTo (entries : Entries) (ino : ℕ) (name newname : Name) (entries' : Entries)
    : Type 0 where
  pub run : rename_entry entries ino name newname ≡ some entries'
  pub now : (n : Name) → ino_in entries' n ≡ renamed ino name newname (ino_in entries n) n
  pub in_order : IsEntries entries'
  pub count : count_of entries' ≡ count_of entries

same_count : (c c' l l' : ℕ) → c' + l ≡ c + l' → l' ≡ l → c' ≡ c
same_count c c' l l' h1 h2 = omega arith

moved_count : (c c' l l' c'' : ℕ) → c' + l ≡ c + l' → l ≡ suc l' → c'' ≡ suc c' → c'' ≡ c
moved_count c c' l l' c'' h1 h2 h3 = omega arith

away-renamed :
    (ino : ℕ) (name newname : Name)
    → dirhash name ≡ dirhash newname
    → (n : Name) (o : Option ℕ) → (dirhash n == dirhash name) ≡ false
    → renamed ino name newname o n ≡ o
away-renamed ino name newname eq n o h =
    let h' : (dirhash n == dirhash newname) ≡ false = ap (λ i. dirhash n == i) (sym eq) ∙ h in
    rw (other_hash n newname h') (rw (other_hash n name h) refl)

in_place :
    (t : ℕ → List Dirent) (ino : ℕ) (name newname : Name) (es' : List Dirent)
    → IsEntries (hashed t)
    → dirhash name ≡ dirhash newname
    → NameChanged (dir_get_dirent (hashed t) name) ino name newname es'
    → RenamedTo (hashed t) ino name newname (set_list (hashed t) name es')
unfolding rename_entry dir_get_dirent
in_place t ino name newname es' ok eq w =
    let same : (dirhash name == dirhash newname) ≡ true = ground arith in
    record {
      run = rw same (rw w.run refl);
      now =
          ino_in-set_list (hashed t) name es' (renamed ino name newname)
            (w.now (ok (dirhash name)).0) (away-renamed ino name newname eq);
      in_order = set_list-IsEntries (hashed t) name es' ok w.distinct (λ hash. w.placed hash eq);
      count =
          same_count (count_of (hashed t)) (count_of (set_list (hashed t) name es'))
            (length (t (dirhash name))) (length es') (count_of-set_list (hashed t) name es')
            w.length_same;
    }

-- The entries without the name
without :
    (entries : Entries) (name : Name) (es' : List Dirent)
    → IsEntries entries
    → Without (dir_get_dirent entries name) name es'
    → (n : Name)
    → ino_in (set_list entries name es') n ≡ (if name_eq n name then none else ino_in entries n)
without entries name es' ok w =
    ino_in-set_list entries name es' (λ o n. if name_eq n name then none else o)
      (ino_of-Without (dir_get_dirent entries name) name es' w
        (dir_get_dirent-Distinct entries name ok))
      (λ n o h. rw (other_hash n name h) refl)

none-if : (b : Bool) (o : Option ℕ) → o ≡ none → (if b then none else o) ≡ none
none-if true o h = refl
none-if false o h = h

moved :
    (t : ℕ → List Dirent) (ino : ℕ) (name newname : Name) (e : Dirent) (es' : List Dirent)
    → IsEntries (hashed t)
    → (dirhash name == dirhash newname) ≡ false
    → e.di_ino ≡ ino
    → ino_in (hashed t) newname ≡ none
    → Taken (dir_get_dirent (hashed t) name) ino name e es'
    → RenamedTo
        (hashed t)
        ino
        name
        newname
        (insert_entry (set_list (hashed t) name es') (record e { di_name = newname }))
unfolding rename_entry dir_get_dirent
moved t ino name newname e es' ok other i fresh w =
    let left = set_list (hashed t) name es' in
    let e' : Dirent = record e { di_name = newname } in
    let gone = without (hashed t) name es' ok w.without in
    let fresh' =
      ino_of-none (dir_get_dirent left newname) newname
        (gone newname ∙ none-if (name_eq newname name) (ino_in (hashed t) newname) fresh) in
    record {
      run = rw other (rw w.taken refl);
      now = λ n.
          ino_in-insert_entry left e' n
          ∙ ap (λ o. if name_eq n newname then some e.di_ino else o) (gone n)
          ∙ ap
              (λ j.
                if name_eq n newname
                then some j
                else (if name_eq n name then none else ino_in (hashed t) n))
              i;
      in_order =
          insert_entry-IsEntries left e'
            (set_list-IsEntries (hashed t) name es' ok w.without.distinct w.without.placed) fresh';
      count =
          moved_count (count_of (hashed t)) (count_of left) (length (t (dirhash name))) (length es')
            (count_of (insert_entry left e')) (count_of-set_list (hashed t) name es')
            w.without.shorter (count_of-insert_entry left e');
    }

rename_entry-RenamedTo :
    (entries : Entries) (ino : ℕ) (name newname : Name)
    → IsEntries entries
    → ino_in entries name ≡ some ino
    → ino_in entries newname ≡ none
    → (entries' : Entries) × RenamedTo entries ino name newname entries'
unfolding rename_entry dir_get_dirent
rename_entry-RenamedTo (plain es) ino name newname ok there fresh =
    let (e, found, i) = found_of (find es name) ino there in
    let (es', w) =
      rename_in_place-NameChanged es ino name newname e found i (ino_of-none es newname fresh) in
    (
      plain es',
      record {
        run = rw w.run refl;
        now = w.now ok;
        in_order = w.distinct ok;
        count = w.length_same;
      },
    )
rename_entry-RenamedTo (hashed t) ino name newname ok there fresh =
    let (e, found, i) = found_of (find (t (dirhash name)) name) ino there in
    elim (Bool-cases (dirhash name == dirhash newname)) [
      | inl h ↦
          let eq : dirhash name ≡ dirhash newname = ground arith in
          let fresh' =
            ino_of-none (t (dirhash name)) newname (ap (λ j. ino_of (t j) newname) eq ∙ fresh) in
          let (es', w) =
            rename_in_place-NameChanged (t (dirhash name)) ino name newname e found i fresh' in
          (set_list (hashed t) name es', in_place t ino name newname es' ok eq w)
      | inr h ↦
          let (es', w) = take_entry-Taken (t (dirhash name)) ino name e found i in
          (
            insert_entry (set_list (hashed t) name es') (record e { di_name = newname }),
            moved t ino name newname e es' ok h i fresh w,
          )
    ]

-- What a rename gives.
pub record DirRenamed (dir : Dir) (ino : ℕ) (name newname : Name) (dir' : Dir) : Type 0 where
  pub run : dir_rename dir ino name newname ≡ some dir'
  pub looked_up : (n : Name) → dir_lookup dir' n ≡ renamed ino name newname (dir_lookup dir n) n
  pub in_order : IsDir dir'

-- If `lc_dirRename` is called on a directory in order that is not shared, for a name that a lookup
-- finds with that inode number and a new name that a lookup does not find, then it runs to its end,
-- a lookup of the new name gives the inode afterwards, one of the old name fails, one of any other
-- name gives what it gave before, and the directory is in order, in one list or hashed, and in the
-- same bucket or another.
pub dir_rename-DirRenamed :
    (dir : Dir) (ino : ℕ) (name newname : Name)
    → IsDir dir
    → dir.shared ≡ false
    → dir_lookup dir name ≡ some ino
    → dir_lookup dir newname ≡ none
    → (dir' : Dir) × DirRenamed dir ino name newname dir'
unfolding dir_rename dir_lookup
dir_rename-DirRenamed dir ino name newname ok own there fresh =
    let (entries, w) =
      rename_entry-RenamedTo dir.entries ino name newname ok.entries_ok there fresh in
    (
      record dir { entries = entries },
      record {
        run = rw own (rw w.run refl);
        looked_up = w.now;
        in_order = record {
          entries_ok = w.in_order;
          counted = ok.counted ∙ sym w.count;
          bounded = ok.bounded;
        };
      },
    )

-- ===== src/Dir/Add.antt =====
-- lc_dirAdd: what a name stands for afterwards, and that the directory stays in order.
use lcfs.Prelude.{
  ◌%◌, ◌^◌, ℕ, suc, ◌≡◌, ◌<◌, inl, inr, refl, sym, ap, ◌∙◌, true, false, ◌&&◌, [], arith, Option,
  none, some, if◌then◌else◌, Bool-cases, ltb, leb,
}
use lcfs.Prelude.Words.{u64_mod, add64}
use lcfs.Dir.{
  Name, name_eq, dircache_size, dircache_min, root_inode, Dirent, Entries, plain, hashed, Dir, find,
  dir_get_dirent, insert_entry, is_plain, convert_entries, dir_convert_hashed, dir_lookup, dir_add,
  new_entry, next_index,
}
use lcfs.Dir.Names.{dirhash-lt}
use lcfs.Dir.Table.{
  ino_of, ino_of-none, ino_in, entry_of, IsEntries, IsDir, count_of, ino_of-push, push-IsTable,
  count_below-push,
}
use lcfs.Dir.Rehash.{or_else, ino_of-cons, ino_of-rehash, rehash-IsTable, count-rehash_all}

pub dir_lookup-ino_in : (dir : Dir) (name : Name) → dir_lookup dir name ≡ ino_in dir.entries name
unfolding dir_lookup
dir_lookup-ino_in dir name = refl

pub ino_in-insert_entry :
    (entries : Entries) (e : Dirent) (name : Name)
    → ino_in (insert_entry entries e) name
      ≡ (if name_eq name e.di_name then some e.di_ino else ino_in entries name)
unfolding dir_get_dirent
ino_in-insert_entry (plain es) e name = ino_of-cons (record e { di_index = next_index es }) es name
ino_in-insert_entry (hashed t) e name = ino_of-push t e name

pub insert_entry-IsEntries :
    (entries : Entries) (e : Dirent)
    → IsEntries entries
    → entry_of entries e.di_name ≡ none
    → IsEntries (insert_entry entries e)
unfolding dir_get_dirent
insert_entry-IsEntries (plain es) e ok fresh = (fresh, ok)
insert_entry-IsEntries (hashed t) e ok fresh = push-IsTable t e ok fresh

pub count_of-insert_entry :
    (entries : Entries) (e : Dirent) → count_of (insert_entry entries e) ≡ suc (count_of entries)
count_of-insert_entry (plain es) e = refl
count_of-insert_entry (hashed t) e = count_below-push dircache_size t e (dirhash-lt e.di_name)

record SameEntries (old new : Entries) : Type 0 where
  pub same : (name : Name) → ino_in new name ≡ ino_in old name
  pub in_order : IsEntries new
  pub count : count_of new ≡ count_of old

convert_entries-SameEntries :
    (entries : Entries) → IsEntries entries → SameEntries entries (convert_entries entries)
unfolding dir_get_dirent find
convert_entries-SameEntries (plain es) ok = record {
  same = λ name. ino_of-rehash es (λ i. []) name ok ∙ or_none (ino_of es name);
  in_order = rehash-IsTable es ok;
  count = count-rehash_all dircache_size es dirhash-lt;
}
  where
    or_none : (o : Option ℕ) → or_else o none ≡ o
    or_none none = refl
    or_none (some i) = refl
convert_entries-SameEntries (hashed t) ok = record {
  same = λ name. refl;
  in_order = ok;
  count = refl;
}

-- The directory that the entry is put into
abbrev grown : Dir → Dir
grown dir =
    if leb dircache_min dir.size && is_plain dir.entries then dir_convert_hashed dir else dir

grown-SameEntries :
    (dir : Dir)
    → IsEntries dir.entries
    → SameEntries dir.entries (grown dir).entries
      × ((grown dir).size ≡ dir.size)
      × ((grown dir).shared ≡ dir.shared)
      × ((grown dir).nlink ≡ dir.nlink)
grown-SameEntries dir ok = elim (Bool-cases (leb dircache_min dir.size && is_plain dir.entries)) [
  | inl h ↦ rw h (convert_entries-SameEntries dir.entries ok, refl, refl, refl)
  | inr h ↦ rw h (record { same = λ name. refl; in_order = ok; count = refl }, refl, refl, refl)
]

pub dir_add-run :
    (dir : Dir) (ino mode : ℕ) (name : Name)
    → dir.shared ≡ false
    → root_inode < ino
    → dir_add dir ino mode name
      ≡ some (record (grown dir) {
        entries = insert_entry (grown dir).entries (new_entry ino mode name);
        size = add64 (grown dir).size 1;
      })
unfolding dir_add
dir_add-run dir ino mode name own ino_ok =
    let h : ltb root_inode ino ≡ true = ground arith in rw own (rw h refl)

add64-suc :
    (s' s c c' : ℕ)
    → s' ≡ s
    → s ≡ c
    → c' ≡ suc c
    → suc s < u64_mod
    → (add64 s' 1 ≡ c') × (add64 s' 1 < u64_mod)
add64-suc s' s c c' h1 h2 h3 h4 = (omega arith, omega arith)

-- What adding an entry gives.
pub record Added (dir : Dir) (ino mode : ℕ) (name : Name) (dir' : Dir) : Type 0 where
  pub run : dir_add dir ino mode name ≡ some dir'
  pub looked_up :
      (n : Name) → dir_lookup dir' n ≡ (if name_eq n name then some ino else dir_lookup dir n)
  pub more : dir'.size ≡ add64 dir.size 1
  pub own : dir'.shared ≡ false
  pub links : dir'.nlink ≡ dir.nlink
  pub kept : dir_lookup dir name ≡ none → suc dir.size < u64_mod → IsDir dir'

-- If `lc_dirAdd` is called on a directory in order that is not shared, with an inode number above
-- the root's and below 2 ^ 48, then afterwards a lookup of the name gives the inode, a lookup of any other name what
-- it gave before, and the size has grown by one, whether the directory became hashed at this call or
-- not. If the name was not there and the size stays below 2 ^ 64, the directory is in order.
pub dir_add-Added :
    (dir : Dir) (ino mode : ℕ) (name : Name)
    → IsDir dir
    → dir.shared ≡ false
    → root_inode < ino
    → ino < 2 ^ 48
    → (dir' : Dir) × Added dir ino mode name dir'
unfolding dir_lookup
dir_add-Added dir ino mode name ok own ino_ok wide =
    let whole : ino % 2 ^ 48 ≡ ino = omega arith in
    let g = grown dir in
    let e = new_entry ino mode name in
    let (kept, size, mine, links) = grown-SameEntries dir ok.entries_ok in
    let dir' : Dir = record g { entries = insert_entry g.entries e; size = add64 g.size 1 } in
    (
      dir',
      record {
        run = dir_add-run dir ino mode name own ino_ok;
        looked_up = λ n.
            dir_lookup-ino_in dir' n
            ∙ ino_in-insert_entry g.entries e n
            ∙ ap (λ o. if name_eq n name then some (ino % 2 ^ 48) else o) (kept.same n)
            ∙ ap (λ i. if name_eq n name then some i else ino_in dir.entries n) whole;
        more = ap (λ s. add64 s 1) size;
        own = mine ∙ own;
        links = links;
        kept = λ fresh bound.
            let (counted, bounded) =
              add64-suc g.size dir.size (count_of g.entries) (count_of (insert_entry g.entries e))
                size (ok.counted ∙ sym kept.count) (count_of-insert_entry g.entries e) bound in
            record {
              entries_ok =
                  insert_entry-IsEntries g.entries e kept.in_order
                    (ino_of-none (dir_get_dirent g.entries name) name (kept.same name ∙ fresh));
              counted = counted;
              bounded = bounded;
            };
      },
    )

-- ===== src/Dir/Disk/Refill.antt =====
-- lc_dirRead: what is in the directory and what is still to be read together are what was stored.
use lcfs.Prelude.{
  ℕ, ◌+◌, ◌-◌, ◌%◌, ◌^◌, ◌≡◌, ◌≤◌, ◌<◌, refl, sym, ap, ◌∙◌, true, false, ◌==◌, List, [], ◌∷◌, ◌++◌,
  concat, length, arith, Option, none, some, if◌then◌else◌, ◌>>=◌, ltb,
}
use lcfs.Prelude.Words.{u64_mod, add64, sub64}
use lcfs.ExtentList.View.{IsSpaceBag}
use lcfs.Block.{Fs}
use lcfs.Chain.Pack.{bytes, ArePages}
use lcfs.Chain.Link.{over_pages}
use lcfs.Chain.Flush.{inode_add_meta_extent-bag}
use lcfs.Dir.{Name, name_eq, root_inode, Dirent, find, Dir, is_dir, dir_lookup, dir_add}
use lcfs.Dir.Names.{name_eq_sym, name_eq-eq}
use lcfs.Dir.Table.{Distinct, ino_of, IsDir}
use lcfs.Dir.Rehash.{or_else, or_else-if, ino_of-cons, find-cons-none}
use lcfs.Dir.Add.{dir_add-Added}
use lcfs.Dir.Disk.{
  Ddirent, dsize, min_dirent_size, dir_block_size, count_subdirs, Reading, read_entries, read_page,
}

-- The entries of the device as entries in memory
abbrev pub of_disk : List Ddirent → List Dirent
of_disk [] = []
of_disk (d ∷ ds) =
    record { di_ino = d.di_inum; di_name = d.di_dname; di_index = 0; di_mode = d.di_type }
    ∷ of_disk ds

-- Entries that can be stored: an inode number that lc_dirAdd takes, a name that is not empty and
-- fits in a block.
abbrev pub Storable : (ino : ℕ) → Name → Type 0
Storable ino name = (root_inode < ino) × (ino < 2 ^ 48) × (0 < length name) × (length name ≤ 255)

abbrev pub AllStorable : List Ddirent → Type 0
AllStorable [] = Unit
AllStorable (d ∷ ds) = Storable d.di_inum d.di_dname × AllStorable ds

-- None of the entries is in the directory.
abbrev pub AllNew : Dir → List Ddirent → Type 0
AllNew dir [] = Unit
AllNew dir (d ∷ ds) = (dir_lookup dir d.di_dname ≡ none) × AllNew dir ds

AllNew-step :
    (dir dir' : Dir) (ds : List Ddirent) (name : Name) (ino : ℕ)
    → ((n : Name) → dir_lookup dir' n ≡ (if name_eq n name then some ino else dir_lookup dir n))
    → find (of_disk ds) name ≡ none
    → AllNew dir ds
    → AllNew dir' ds
AllNew-step dir dir' [] name ino look h new = tt
AllNew-step dir dir' (d ∷ ds) name ino look h new =
    let e : Dirent = record {
      di_ino = d.di_inum;
      di_name = d.di_dname;
      di_index = 0;
      di_mode = d.di_type;
    } in
    let (other, rest) = find-cons-none e (of_disk ds) name h in
    (
      look d.di_dname ∙ rw (name_eq_sym d.di_dname name ∙ other) new.0,
      AllNew-step dir dir' ds name ino look rest new.1,
    )

-- What holds when `rest` is still to be read of a directory that has `goal` as its lookup, and these
-- numbers of links and entries.
pub record Progress (tblocks : ℕ) (goal : Name → Option ℕ) (links total nlink : ℕ)
    (rest : List Ddirent) (r : Reading) : Type 0 where
  pub goes : (n : Name) → or_else (ino_of (of_disk rest) n) (dir_lookup r.dir n) ≡ goal n
  pub distinct : Distinct (of_disk rest)
  pub storable : AllStorable rest
  pub new : AllNew r.dir rest
  pub ok : IsDir r.dir
  pub own : r.dir.shared ≡ false
  pub counts : count_subdirs r.count rest ≡ links
  pub reads : r.read + length rest ≡ total
  pub sized : r.dir.size ≡ r.read
  pub linked : r.dir.nlink ≡ nlink
  pub bag : IsSpaceBag tblocks r.extents

module _ (tblocks : ℕ) (goal : Name → Option ℕ) (links total nlink : ℕ)
    (total_fits : total < u64_mod) where
  abbrev after_add : Ddirent → Reading → Dir → Reading
  after_add d r dir = record r {
    dir = dir;
    count = if is_dir d.di_type then (r.count + 1) % 2 ^ 32 else r.count;
    read = add64 r.read 1;
  }

  add-Progress :
      (d : Ddirent) (rest : List Ddirent) (r : Reading)
      → Progress tblocks goal links total nlink (d ∷ rest) r
      → (dir : Dir) × (dir_add r.dir d.di_inum d.di_type d.di_dname ≡ some dir)
        × Progress tblocks goal links total nlink rest (after_add d r dir)
  unfolding count_subdirs
  add-Progress d rest r p =
      let (valid, rest_valid) = p.storable in
      let (dir, a) =
        dir_add-Added r.dir d.di_inum d.di_type d.di_dname p.ok p.own valid.0 valid.1 in
      let e : Dirent = record {
        di_ino = d.di_inum;
        di_name = d.di_dname;
        di_index = 0;
        di_mode = d.di_type;
      } in
      let gone = p.distinct.0 in
      (
        dir,
        a.run,
        record {
          goes = λ n.
              ap (λ o. or_else (ino_of (of_disk rest) n) o) (a.looked_up n)
              ∙ or_else-if (name_eq n d.di_dname) (ino_of (of_disk rest) n) (dir_lookup r.dir n)
                  d.di_inum
                  (λ same.
                    rw (name_eq-eq n d.di_dname same) (ap (λ o. o >>= λ x. some x.di_ino) gone))
              ∙ ap (λ o. or_else o (dir_lookup r.dir n)) (sym (ino_of-cons e (of_disk rest) n))
              ∙ p.goes n;
          distinct = p.distinct.1;
          storable = rest_valid;
          new = AllNew-step r.dir dir rest d.di_dname d.di_inum a.looked_up gone p.new.1;
          ok = a.kept p.new.0 (omega (arith, p.reads, p.sized, total_fits));
          own = a.own;
          counts = p.counts;
          reads = omega (arith, p.reads, total_fits);
          sized = a.more ∙ ap (λ s. add64 s 1) p.sized;
          linked = a.links ∙ p.linked;
          bag = p.bag;
        },
      )

  read_entries-Progress :
      (remain : ℕ) (ds rest : List Ddirent) (r : Reading)
      → bytes dsize dir_block_size ds ≤ remain
      → remain < 2 ^ 32
      → Progress tblocks goal links total nlink (ds ++ rest) r
      → (r' : Reading) × (read_entries remain ds r ≡ some r')
        × Progress tblocks goal links total nlink rest r'
  unfolding read_entries
  read_entries-Progress remain [] rest r fits small p = (r, refl, p)
  read_entries-Progress remain (d ∷ ds) rest r fits small p =
      let (dir, run, p') = add-Progress d (ds ++ rest) r p in
      let valid = p.storable.0 in
      let room : ltb min_dirent_size remain ≡ true = ground arith in
      let used : (d.di_inum == 0) ≡ false = ground arith in
      let left : sub64 remain (dsize d) ≡ remain - dsize d = omega arith in
      let (r', run', q) =
        read_entries-Progress (sub64 remain (dsize d)) ds rest (after_add d r dir) (omega arith)
          (omega arith) p' in
      (r', rw room (rw used (rw run run')), q)

  read_page-Progress :
      (fs : Fs) (block : ℕ) (ds rest : List Ddirent) (r : Reading)
      → tblocks < 2 ^ 48
      → 0 < block
      → block < tblocks
      → bytes dsize dir_block_size ds ≤ dir_block_size
      → Progress tblocks goal links total nlink (ds ++ rest) r
      → (r' : Reading) × (read_page tblocks fs r block ds ≡ some r')
        × Progress tblocks goal links total nlink rest r'
  unfolding read_page
  read_page-Progress fs block ds rest r tb p b fits pr =
      let (es', run, bag) = inode_add_meta_extent-bag tblocks fs r.extents block tb p b pr.bag in
      let pr' : Progress tblocks goal links total nlink (ds ++ rest) (record r { extents = es' }) =
        record {
          goes = pr.goes;
          distinct = pr.distinct;
          storable = pr.storable;
          new = pr.new;
          ok = pr.ok;
          own = pr.own;
          counts = pr.counts;
          reads = pr.reads;
          sized = pr.sized;
          linked = pr.linked;
          bag = bag;
        } in
      let (r', run', q) =
        read_entries-Progress dir_block_size ds rest (record r { extents = es' }) fits (omega arith)
          pr' in
      (r', rw run run', q)

  pub over_pages-Progress :
      (fs : Fs) (block : ℕ) (pages : List (List Ddirent)) (r : Reading)
      → tblocks < 2 ^ 48
      → 0 < block
      → block + length pages ≤ tblocks
      → ArePages dsize dir_block_size pages
      → Progress tblocks goal links total nlink (concat pages) r
      → (r' : Reading) × (over_pages (read_page tblocks fs) r block pages ≡ some r')
        × Progress tblocks goal links total nlink [] r'
  unfolding over_pages
  over_pages-Progress fs block [] r tb p b fits pr = (r, refl, pr)
  over_pages-Progress fs block (ds ∷ pages) r tb p b fits pr =
      let (r', run, pr') =
        read_page-Progress fs block ds (concat pages) r tb p (omega arith) fits.1 pr in
      let (r'', run', q) =
        over_pages-Progress fs (block + 1) pages r' tb (omega arith) (omega arith) fits.2 pr' in
      (r'', rw run run', q)

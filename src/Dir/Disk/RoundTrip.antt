-- ===== src/Dir/Disk/RoundTrip.antt =====
-- A directory that is flushed and read again.
use lcfs.Prelude.{
  ℕ, ◌≡◌, ◌≤◌, ◌<◌, refl, sym, ap, ◌∙◌, true, false, ◌==◌, List, [], ◌∷◌, concat, length, arith,
  Option, none, some,
}
use mathlib.Core.Path.{subst}
use lcfs.Extent.{Extent}
use lcfs.Block.{State, Fs, invalid_block}
use lcfs.Chain.{Store, pack, read_chain}
use lcfs.Chain.Pack.{pack-pages, ArePages}
use lcfs.Chain.Link.{read_chain-Consecutive}
use lcfs.Chain.Flush.{HasRoom, Flushed, flush_pages, flush_pages-Consecutive}
use lcfs.Dir.{Name, Dir, dir_lookup, find}
use lcfs.Dir.Names.{eqb_refl}
use lcfs.Dir.Table.{ino_of, IsDir}
use lcfs.Dir.Rehash.{or_else}
use lcfs.Dir.Disk.{
  Ddirent, dsize, dir_block_size, list_entries, count_subdirs, dir_flush, Reading, read_page,
  dir_read,
}
use lcfs.Dir.Disk.Listed.{list_entries-Listed}
use lcfs.Dir.Disk.Refill.{of_disk, AllStorable, Progress, over_pages-Progress}
use lcfs.Dir.Disk.Start.{
  stored, pages_of, loaded, AllStorable-AllFit, ino_of-of_disk, of_disk-Distinct,
  length-disk_entries, started, started-IsEmpty, AllNew-IsEmpty,
}

-- The directory can be stored: its number of links is the one that its entries give, it is not
-- removed, and its entries can be stored.
pub record IsStorable (dir : Dir) : Type 0 where
  pub in_order : IsDir dir
  pub kept : dir.removed ≡ false
  pub links : dir.nlink ≡ count_subdirs 2 (stored dir)
  pub entries_ok : AllStorable (stored dir)

-- What flushing and reading give.
pub record Restored (s : State) (i tblocks fuel : ℕ) (st : Store Ddirent) (extents : List Extent)
    (fs : Fs) (dir : Dir) : Type 0 where
  pub flushed : Flushed Ddirent
  pub clean : Dir
  pub flush : dir_flush s i st extents dir ≡ some (flushed, clean)
  pub restored : Dir
  pub restored_extents : List Extent
  pub read :
      dir_read fuel tblocks fs flushed.store flushed.block [] (loaded dir.size dir.nlink)
      ≡ some (restored, restored_extents)
  pub looked_up : (name : Name) → dir_lookup restored name ≡ dir_lookup dir name
  pub in_order : IsDir restored
  pub same_size : restored.size ≡ dir.size
  pub same_links : restored.nlink ≡ dir.nlink

or_none : (o : Option ℕ) → or_else o none ≡ o
or_none none = refl
or_none (some i) = refl

start-Progress :
    (tblocks : ℕ) (dir : Dir)
    → IsStorable dir
    → Progress tblocks
        (dir_lookup dir)
        dir.nlink
        dir.size
        dir.nlink
        (stored dir)
        (record { dir = started (loaded dir.size dir.nlink); extents = []; count = 2; read = 0 })
unfolding dir_lookup
start-Progress tblocks dir ok =
    let listed =
      list_entries-Listed dir.entries dir.size ok.in_order.entries_ok ok.in_order.counted
        ok.in_order.bounded in
    let es = (list_entries dir.entries dir.size).0 in
    let e = started-IsEmpty dir.size dir.nlink in
    record {
      goes = λ n.
          ap (λ o. or_else (ino_of (of_disk (stored dir)) n) o) (e.nothing n)
          ∙ or_none (ino_of (of_disk (stored dir)) n)
          ∙ ino_of-of_disk es n
          ∙ listed.same n;
      distinct = of_disk-Distinct es listed.distinct;
      storable = ok.entries_ok;
      new = AllNew-IsEmpty (started (loaded dir.size dir.nlink)) (stored dir) e.nothing;
      ok = e.in_order;
      own = e.own;
      counts = sym ok.links;
      reads = omega (arith, length-disk_entries es, listed.number);
      sized = e.zero_size;
      linked = e.linked;
      bag = tt;
    }

dir_read-run :
    (fuel tblocks : ℕ) (fs : Fs) (store : Store Ddirent) (block : ℕ) (dir : Dir) (r : Reading)
    → read_chain fuel store block
        (read_page tblocks fs)
        (record { dir = started dir; extents = []; count = 2; read = 0 })
      ≡ some r
    → r.dir.nlink ≡ r.count
    → r.dir.size ≡ r.read
    → dir_read fuel tblocks fs store block [] dir ≡ some (r.dir, r.extents)
unfolding dir_read
dir_read-run fuel tblocks fs store block dir r run links size =
    let l : (r.dir.nlink == r.count) ≡ true = ground arith in
    let z : (r.dir.size == r.read) ≡ true = ground arith in rw run (rw l (rw z refl))

module _ (s : State) (i tblocks fuel : ℕ) (st : Store Ddirent) (extents : List Extent) (fs : Fs)
    (dir : Dir) where
  dir_flush-run :
      (pages : List (List Ddirent)) (f : Flushed Ddirent)
      → IsStorable dir
      → pack dsize dir_block_size 0 (stored dir) ≡ some ([], pages)
      → flush_pages s i extents pages st ≡ some f
      → dir_flush s i st extents dir ≡ some (f, record dir { dir_dirty = false })
  unfolding dir_flush
  dir_flush-run pages f ok packed flush =
      let listed =
        list_entries-Listed dir.entries dir.size ok.in_order.entries_ok ok.in_order.counted
          ok.in_order.bounded in
      let links : (dir.nlink == count_subdirs 2 (stored dir)) ≡ true =
        ap (λ n. dir.nlink == n) (sym ok.links) ∙ eqb_refl dir.nlink in
      let all : (dir.size == (list_entries dir.entries dir.size).1) ≡ true =
        ap (λ n. dir.size == n) listed.all ∙ eqb_refl dir.size in
      rw packed (rw flush (rw ok.kept (rw links (rw all refl))))

  restore :
      (p : List Ddirent) (ps : List (List Ddirent))
      → IsStorable dir
      → pack dsize dir_block_size 0 (stored dir) ≡ some ([], p ∷ ps)
      → concat (p ∷ ps) ≡ stored dir
      → ArePages dsize dir_block_size (p ∷ ps)
      → s.tblocks ≤ tblocks
      → tblocks < invalid_block
      → length (p ∷ ps) ≤ fuel
      → HasRoom s i extents (length (p ∷ ps))
      → Restored s i tblocks fuel st extents fs dir
  unfolding count_subdirs find
  restore p ps ok packed whole fit same tb enough room =
      let (st', flush, chain) = flush_pages-Consecutive s i extents p ps st room (omega arith) in
      let start : Reading = record {
        dir = started (loaded dir.size dir.nlink);
        extents = [];
        count = 2;
        read = 0;
      } in
      let progress = start-Progress tblocks dir ok in
      let (r, over, done) =
        over_pages-Progress tblocks (dir_lookup dir) dir.nlink dir.size dir.nlink
          ok.in_order.bounded fs room.block (p ∷ ps) start (omega arith) room.positive
          (omega (arith, room.inside)) fit (rw whole progress) in
      let chained =
        read_chain-Consecutive (read_page tblocks fs) start fuel st' room.block (p ∷ ps) enough
          (omega (arith, room.inside)) chain in
      record {
        flushed = record {
          block = room.block;
          state = room.recorded;
          extents = room.extents;
          store = st';
          count = length (p ∷ ps);
        };
        clean = record dir { dir_dirty = false };
        flush = dir_flush-run (p ∷ ps) _ ok packed flush;
        restored = r.dir;
        restored_extents = r.extents;
        read =
            dir_read-run fuel tblocks fs st' room.block (loaded dir.size dir.nlink) r
              (chained ∙ over) (done.linked ∙ sym done.counts) done.sized;
        looked_up = done.goes;
        in_order = done.ok;
        same_size = done.sized ∙ omega (arith, done.reads);
        same_links = done.linked;
      }

-- If `lc_dirFlush` is called on a directory that can be stored and has an entry, in a layer with
-- room for its pages on a device below LC_INVALID_BLOCK, then it runs to its end, and `lc_dirRead` of
-- what it wrote, into an inode of that size and number of links, runs to its end, too, with fuel for
-- that many pages. The directory that was read is in order, has that size and number of links, and
-- every lookup in it gives what it gives in the directory that was flushed.
pub dir_read-dir_flush :
    (s : State) (i tblocks fuel : ℕ) (st : Store Ddirent) (extents : List Extent) (fs : Fs)
    (dir : Dir)
    → IsStorable dir
    → 0 < dir.size
    → s.tblocks ≤ tblocks
    → tblocks < invalid_block
    → length (pages_of (stored dir)) ≤ fuel
    → HasRoom s i extents (length (pages_of (stored dir)))
    → Restored s i tblocks fuel st extents fs dir
dir_read-dir_flush s i tblocks fuel st extents fs dir ok some_entry same tb enough room =
    let listed =
      list_entries-Listed dir.entries dir.size ok.in_order.entries_ok ok.in_order.counted
        ok.in_order.bounded in
    let (pages, packed, whole, fit) =
      pack-pages dsize dir_block_size (stored dir)
        (AllStorable-AllFit (stored dir) ok.entries_ok) in
    let eq : pages_of (stored dir) ≡ pages =
      ap (λ o. elim o [ none ↦ [] | some (here, pages) ↦ pages ]) packed in
    let number = length-disk_entries (list_entries dir.entries dir.size).0 in
    go pages packed whole fit (subst (λ l. length l ≤ fuel) eq enough)
      (subst (λ l. HasRoom s i extents (length l)) eq room) (omega (arith, number, listed.number))
  where
    go :
        (pages : List (List Ddirent))
        → pack dsize dir_block_size 0 (stored dir) ≡ some ([], pages)
        → concat pages ≡ stored dir
        → ArePages dsize dir_block_size pages
        → length pages ≤ fuel
        → HasRoom s i extents (length pages)
        → 0 < length (stored dir)
        → Restored s i tblocks fuel st extents fs dir
    go [] packed whole fit l r pos = absurd (omega (arith, ap length whole))
    go (p ∷ ps) packed whole fit l r pos =
        restore s i tblocks fuel st extents fs dir p ps ok packed whole fit same tb l r

-- ===== src/Xattr/Disk/RoundTrip.antt =====
-- Attributes that are flushed and read again.
use lcfs.Prelude.{
  ℕ, ◌+◌, ◌≡◌, ◌≤◌, ◌<◌, ◌^◌, refl, ap, ◌∙◌, true, false, ◌==◌, List, [], ◌∷◌, ◌++◌, concat, length,
  arith, none, some,
}
use mathlib.Core.Path.{subst}
use lcfs.Prelude.Words.{sub64}
use lcfs.Block.{State, Fs, invalid_block}
use lcfs.Chain.{Store, pack, read_chain}
use lcfs.Chain.Pack.{AllFit, ArePages, pack-pages, pack-none}
use lcfs.Chain.Link.{read_chain-Consecutive}
use lcfs.Chain.Flush.{Flushed, HasRoom, flush_pages, flush_pages-Consecutive}
use lcfs.Dir.{Name}
use lcfs.Xattr.{Xattr, Ixattr, XattrInode, XattrLayer, find_value, enable, empty_data}
use lcfs.Xattr.Names.{names_size, IsIxattr}
use lcfs.Xattr.Copy.{NewNames-nil, or_none}
use lcfs.Xattr.Disk.{
  xattr_block_size, xattr_dsize, size_left, xattr_flush, read_xattr_page, xattr_read,
}
use lcfs.Xattr.Disk.Refill.{AllWritable, Progress, over_pages-Progress}

AllWritable-AllFit : (xs : List Xattr) → AllWritable xs → AllFit xattr_dsize xattr_block_size xs
AllWritable-AllFit [] a = tt
AllWritable-AllFit (x ∷ xs) a = (omega arith, a.1, AllWritable-AllFit xs a.2)

size_left-names_size :
    (size : ℕ) (xs : List Xattr) → size ≡ names_size xs → size < 2 ^ 32 → size_left size xs ≡ 0
unfolding size_left
size_left-names_size size [] h b = h
size_left-names_size size (x ∷ xs) h b =
    size_left-names_size (sub64 size (length x.x_name + 1)) xs (omega arith) (omega arith)

abbrev pub xattr_pages : List Xattr → List (List Xattr)
xattr_pages xs = elim (pack xattr_dsize xattr_block_size 0 xs) [
  | none ↦ []
  | some (here, pages) ↦ pages
]

-- An inode as it is read from the device, before its attributes are
abbrev pub bare : XattrInode
bare = record { xattr_data = none; xattr_dirty = false }

-- What flushing and reading give.
pub record AttrsRestored (s : State) (i tblocks fuel : ℕ) (st : Store Xattr) (fs : Fs)
    (l : XattrLayer) (inode : XattrInode) (d : Ixattr) : Type 0 where
  pub flushed : Flushed Xattr
  pub clean : XattrInode
  pub flush : xattr_flush s i st inode d ≡ some (flushed, clean)
  pub restored : Ixattr
  pub read :
      xattr_read fuel tblocks fs l flushed.store flushed.block bare
      ≡ some (enable l, record { xattr_data = some restored; xattr_dirty = false })
  pub values : (n : Name) → find_value restored.xattrs n ≡ find_value d.xattrs n
  pub in_order : IsIxattr restored

start-Progress :
    (tblocks : ℕ) (d : Ixattr)
    → IsIxattr d
    → AllWritable d.xattrs
    → Progress tblocks (find_value d.xattrs) d.xsize d.xattrs empty_data
unfolding find_value
start-Progress tblocks d ok writable = record {
  goes = λ n. or_none (find_value d.xattrs n);
  distinct = ok.distinct;
  writable = writable;
  new = NewNames-nil d.xattrs;
  here = tt;
  sized = refl;
  sum = omega (arith, ok.sized);
  bag = tt;
}

xattr_flush-run :
    (s : State) (i : ℕ) (st : Store Xattr) (inode : XattrInode) (d : Ixattr)
    (pages : List (List Xattr)) (f : Flushed Xattr)
    → IsIxattr d
    → pack xattr_dsize xattr_block_size 0 d.xattrs ≡ some ([], pages)
    → flush_pages s i d.extents pages st ≡ some f
    → xattr_flush s i st inode d
      ≡ some (
        f,
        record inode { xattr_data = some (record d { extents = f.extents }); xattr_dirty = false },
      )
unfolding xattr_flush
xattr_flush-run s i st inode d pages f ok packed flush =
    let all : (size_left d.xsize d.xattrs == 0) ≡ true =
      ground (arith, size_left-names_size d.xsize d.xattrs ok.sized ok.bounded) in
    rw packed (rw flush (rw all refl))

xattr_read-run :
    (fuel tblocks : ℕ) (fs : Fs) (l : XattrLayer) (st : Store Xattr) (block : ℕ) (d : Ixattr)
    → (block == invalid_block) ≡ false
    → read_chain fuel st block (read_xattr_page tblocks fs) empty_data ≡ some d
    → xattr_read fuel tblocks fs l st block bare
      ≡ some (enable l, record { xattr_data = some d; xattr_dirty = false })
unfolding xattr_read
xattr_read-run fuel tblocks fs l st block d inside run = rw inside (rw run refl)

restore :
    (s : State) (i tblocks fuel : ℕ) (st : Store Xattr) (fs : Fs) (l : XattrLayer)
    (inode : XattrInode) (d : Ixattr) (p : List Xattr) (ps : List (List Xattr))
    → IsIxattr d
    → AllWritable d.xattrs
    → pack xattr_dsize xattr_block_size 0 d.xattrs ≡ some ([], p ∷ ps)
    → concat (p ∷ ps) ≡ d.xattrs
    → ArePages xattr_dsize xattr_block_size (p ∷ ps)
    → s.tblocks ≤ tblocks
    → tblocks < invalid_block
    → length (p ∷ ps) ≤ fuel
    → HasRoom s i d.extents (length (p ∷ ps))
    → AttrsRestored s i tblocks fuel st fs l inode d
unfolding find_value
restore s i tblocks fuel st fs l inode d p ps ok writable packed whole fit same tb enough room =
    let (st', flush, chain) = flush_pages-Consecutive s i d.extents p ps st room (omega arith) in
    let (d', over, done) =
      over_pages-Progress tblocks (find_value d.xattrs) d.xsize ok.bounded fs room.block (p ∷ ps)
        empty_data (omega arith) room.positive (omega (arith, room.inside)) fit
        (rw whole (start-Progress tblocks d ok writable)) in
    let chained =
      read_chain-Consecutive (read_xattr_page tblocks fs) empty_data fuel st' room.block (p ∷ ps)
        enough (omega (arith, room.inside)) chain in
    let inside : (room.block == invalid_block) ≡ false = ground (arith, room.inside) in
    record {
      flushed = record {
        block = room.block;
        state = room.recorded;
        extents = room.extents;
        store = st';
        count = length (p ∷ ps);
      };
      clean = record inode {
        xattr_data = some (record d { extents = room.extents });
        xattr_dirty = false;
      };
      flush = xattr_flush-run s i st inode d (p ∷ ps) _ ok packed flush;
      restored = d';
      read = xattr_read-run fuel tblocks fs l st' room.block d' inside (chained ∙ over);
      values = done.goes;
      in_order = record {
        distinct = done.here;
        sized = done.sized;
        bounded = omega (arith, done.sized, done.sum, ok.bounded);
      };
    }

-- If `lc_xattrFlush` is called on an inode with attributes in order that each have a name and fit in a
-- block, in a layer with room for the pages on a device below LC_INVALID_BLOCK, then it runs to its
-- end, and `lc_xattrRead` of what it wrote, into an inode without attributes, runs to its end, too,
-- with fuel for that many pages. Every name has the value that it had, and the attributes that were
-- read are in order, with the recorded size of their names.
pub xattr_read-xattr_flush :
    (s : State) (i tblocks fuel : ℕ) (st : Store Xattr) (fs : Fs) (l : XattrLayer)
    (inode : XattrInode) (d : Ixattr)
    → IsIxattr d
    → AllWritable d.xattrs
    → 0 < length d.xattrs
    → s.tblocks ≤ tblocks
    → tblocks < invalid_block
    → length (xattr_pages d.xattrs) ≤ fuel
    → HasRoom s i d.extents (length (xattr_pages d.xattrs))
    → AttrsRestored s i tblocks fuel st fs l inode d
xattr_read-xattr_flush s i tblocks fuel st fs l inode d ok writable some_name same tb enough room =
    let (pages, packed, whole, fit) =
      pack-pages xattr_dsize xattr_block_size d.xattrs (AllWritable-AllFit d.xattrs writable) in
    let eq : xattr_pages d.xattrs ≡ pages =
      ap (λ o. elim o [ none ↦ [] | some (here, pages) ↦ pages ]) packed in
    go pages packed whole fit (subst (λ l. length l ≤ fuel) eq enough)
      (subst (λ l. HasRoom s i d.extents (length l)) eq room)
  where
    go :
        (pages : List (List Xattr))
        → pack xattr_dsize xattr_block_size 0 d.xattrs ≡ some ([], pages)
        → concat pages ≡ d.xattrs
        → ArePages xattr_dsize xattr_block_size pages
        → length pages ≤ fuel
        → HasRoom s i d.extents (length pages)
        → AttrsRestored s i tblocks fuel st fs l inode d
    go [] packed whole fit f r = absurd (omega (arith, ap length whole))
    go (p ∷ ps) packed whole fit f r =
        restore s i tblocks fuel st fs l inode d p ps ok writable packed whole fit same tb f r

-- If an attribute of the inode needs more than a block has room, its name, its value and 4 bytes, then
-- `lc_xattrFlush` does not run to its end: it writes past the end of a page.
pub xattr_flush-none :
    (s : State) (i : ℕ) (st : Store Xattr) (inode : XattrInode) (d : Ixattr) (xs ys : List Xattr)
    (x : Xattr)
    → d.xattrs ≡ xs ++ x ∷ ys
    → xattr_block_size < xattr_dsize x
    → xattr_flush s i st inode d ≡ none
unfolding xattr_flush
xattr_flush-none s i st inode d xs ys x split large =
    rw
      (ap (pack xattr_dsize xattr_block_size 0) split
        ∙ pack-none xattr_dsize xattr_block_size 0 xs ys x large (omega arith))
      refl

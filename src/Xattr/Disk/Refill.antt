-- ===== src/Xattr/Disk/Refill.antt =====
-- lc_xattrRead: the attributes that were read and those still to be read together are what was stored.
use lcfs.Prelude.{
  ℕ, ◌+◌, ◌-◌, ◌≡◌, ◌≤◌, ◌<◌, ◌^◌, ◌%◌, refl, ◌∙◌, true, false, ◌==◌, List, [], ◌∷◌, ◌++◌, concat,
  length, arith, Option, some, ltb,
}
use lcfs.Prelude.Words.{sub64}
use lcfs.ExtentList.View.{IsSpaceBag}
use lcfs.Block.{Fs, block_size}
use lcfs.Chain.Pack.{bytes, ArePages}
use lcfs.Chain.Link.{over_pages}
use lcfs.Chain.Flush.{inode_add_meta_extent-bag}
use lcfs.Dir.{Name}
use lcfs.Dir.Rehash.{or_else}
use lcfs.Xattr.{Xattr, Ixattr, find_value, xattr_link}
use lcfs.Xattr.Names.{DistinctNames, names_size}
use lcfs.Xattr.Copy.{NewNames, NewNames-cons, moved-find_value}
use lcfs.Xattr.Disk.{dxattr_size, xattr_block_size, xattr_dsize, read_attributes, read_xattr_page}

-- Attributes with a name that fit in a block
abbrev pub AllWritable : List Xattr → Type 0
AllWritable [] = Unit
AllWritable (x ∷ xs) = (0 < length x.x_name) × (xattr_dsize x ≤ xattr_block_size) × AllWritable xs

-- What holds when `rest` is still to be read of attributes that have the values `goal`, and names of
-- this size.
pub record Progress (tblocks : ℕ) (goal : Name → Option (List ℕ)) (total : ℕ) (rest : List Xattr)
    (d : Ixattr) : Type 0 where
  pub goes : (n : Name) → or_else (find_value rest n) (find_value d.xattrs n) ≡ goal n
  pub distinct : DistinctNames rest
  pub writable : AllWritable rest
  pub new : NewNames rest d.xattrs
  pub here : DistinctNames d.xattrs
  pub sized : d.xsize ≡ names_size d.xattrs
  pub sum : names_size rest + names_size d.xattrs ≡ total
  pub bag : IsSpaceBag tblocks d.extents

module _ (tblocks : ℕ) (goal : Name → Option (List ℕ)) (total : ℕ)
    (total_fits : total < 2 ^ 32) where
  link-Progress :
      (x : Xattr) (rest : List Xattr) (d : Ixattr)
      → Progress tblocks goal total (x ∷ rest) d
      → (d' : Ixattr) × (xattr_link d x.x_name x.x_value ≡ some d')
        × Progress tblocks goal total rest d'
  unfolding xattr_link
  link-Progress x rest d p =
      let (named, fits, writable) = p.writable in
      let v : ltb (length x.x_value) block_size ≡ true = ground arith in
      let n : ltb (length x.x_name) block_size ≡ true = ground arith in
      (
        record d {
          xattrs = record x { x_stray = false } ∷ d.xattrs;
          xsize = (d.xsize + length x.x_name + 1) % 2 ^ 32;
        },
        rw v (rw n refl),
        record {
          goes = λ n. moved-find_value x false rest d.xattrs n p.distinct.0 ∙ p.goes n;
          distinct = p.distinct.1;
          writable = writable;
          new = NewNames-cons rest (record x { x_stray = false }) d.xattrs p.distinct.0 p.new.1;
          here = (p.new.0, p.here);
          sized = omega (arith, p.sized, p.sum, total_fits);
          sum = omega (arith, p.sum);
          bag = p.bag;
        },
      )

  read_attributes-Progress :
      (remain : ℕ) (xs rest : List Xattr) (d : Ixattr)
      → bytes xattr_dsize xattr_block_size xs ≤ remain
      → remain < 2 ^ 32
      → Progress tblocks goal total (xs ++ rest) d
      → (d' : Ixattr) × (read_attributes remain xs d ≡ some d')
        × Progress tblocks goal total rest d'
  unfolding read_attributes
  read_attributes-Progress remain [] rest d fits small p = (d, refl, p)
  read_attributes-Progress remain (x ∷ xs) rest d fits small p =
      let (d', run, p') = link-Progress x (xs ++ rest) d p in
      let named = p.writable.0 in
      let room : ltb dxattr_size remain ≡ true = ground arith in
      let used : (length x.x_name == 0) ≡ false = ground arith in
      let left : sub64 remain (xattr_dsize x) ≡ remain - xattr_dsize x = omega arith in
      let (d'', run', q) =
        read_attributes-Progress (sub64 remain (xattr_dsize x)) xs rest d' (omega arith)
          (omega arith) p' in
      (d'', rw room (rw used (rw run run')), q)

  read_xattr_page-Progress :
      (fs : Fs) (block : ℕ) (xs rest : List Xattr) (d : Ixattr)
      → tblocks < 2 ^ 48
      → 0 < block
      → block < tblocks
      → bytes xattr_dsize xattr_block_size xs ≤ xattr_block_size
      → Progress tblocks goal total (xs ++ rest) d
      → (d' : Ixattr) × (read_xattr_page tblocks fs d block xs ≡ some d')
        × Progress tblocks goal total rest d'
  unfolding read_xattr_page
  read_xattr_page-Progress fs block xs rest d tb p b fits pr =
      let (es', run, bag) = inode_add_meta_extent-bag tblocks fs d.extents block tb p b pr.bag in
      let pr' : Progress tblocks goal total (xs ++ rest) (record d { extents = es' }) = record {
        goes = pr.goes;
        distinct = pr.distinct;
        writable = pr.writable;
        new = pr.new;
        here = pr.here;
        sized = pr.sized;
        sum = pr.sum;
        bag = bag;
      } in
      let (d', run', q) =
        read_attributes-Progress xattr_block_size xs rest (record d { extents = es' }) fits
          (omega arith) pr' in
      (d', rw run run', q)

  pub over_pages-Progress :
      (fs : Fs) (block : ℕ) (pages : List (List Xattr)) (d : Ixattr)
      → tblocks < 2 ^ 48
      → 0 < block
      → block + length pages ≤ tblocks
      → ArePages xattr_dsize xattr_block_size pages
      → Progress tblocks goal total (concat pages) d
      → (d' : Ixattr) × (over_pages (read_xattr_page tblocks fs) d block pages ≡ some d')
        × Progress tblocks goal total [] d'
  unfolding over_pages
  over_pages-Progress fs block [] d tb p b fits pr = (d, refl, pr)
  over_pages-Progress fs block (xs ∷ pages) d tb p b fits pr =
      let (d', run, pr') =
        read_xattr_page-Progress fs block xs (concat pages) d tb p (omega arith) fits.1 pr in
      let (d'', run', q) =
        over_pages-Progress fs (block + 1) pages d' tb (omega arith) (omega arith) fits.2 pr' in
      (d'', rw run run', q)

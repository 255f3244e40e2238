-- ===== src/Emap/Truncate/File.antt =====
-- lc_emapTruncate of a file that has an emap.
use lcfs.Prelude.{
  ℕ, ◌-◌, ◌/◌, ◌%◌, ◌<◌, ◌^◌, ◌≡◌, inl, inr, refl, sym, ap, ◌∙◌, Bool, true, false, not, ◌&&◌, ◌||◌,
  none, some, List, [], ltb, ◌==◌, if◌then◌else◌, Bool-cases, arith,
}
use lcfs.Extent.{Extent}
use lcfs.ExtentList.View.{covers, total, maps, IsEmapList, IsSpaceBag}
use lcfs.Block.{State, invalid_block, block_size}
use lcfs.Emap.{Inode}
use lcfs.Emap.Truncate.{
  Trimmed, truncate_loop, truncate_single, is_empty, free_truncated, emap_truncate,
}
use lcfs.Emap.Truncate.Cut.{keep_below, blocks_past}
use lcfs.Emap.Truncate.Loop.{truncate_loop-Truncated}
use lcfs.Emap.Truncate.Freed.{cut_inode, free_truncated-Freed, or-nil, no_pages}

-- A file that is cut down to nothing has no blocks.
nothing_left :
    (tblocks size blocks : ℕ) (kept : List Extent)
    → IsEmapList tblocks 0 kept
    → blocks ≡ total kept
    → (size ≡ 0 → (x : ℕ) → maps kept x ≡ none)
    → (not (size == 0) || blocks == 0 && is_empty kept) ≡ true
unfolding total
nothing_left tblocks size blocks kept s sum h = elim (Bool-cases (size == 0)) [
  | inl zero ↦
      let nil : kept ≡ [] = no_pages tblocks 0 kept s (h (ground arith)) in
      let none_left : (blocks == 0) ≡ true = rw (sum ∙ ap total nil) refl in
      rw zero (rw none_left (ap is_empty nil))
  | inr other ↦ rw other refl
]

-- What truncating a file gives.
pub record FileTruncated (s : State) (i : ℕ) (inode : Inode) (size pg : ℕ) (s' : State)
    (inode' : Inode) (zero_page : Bool) : Type 0 where
  pub run : emap_truncate s i inode size pg ≡ some (s', inode', zero_page)
  pub mapped :
      (x : ℕ)
      → maps inode'.emap_list x ≡ (
          if ltb x (keep_below pg (not (size % block_size == 0)))
          then maps inode.emap_list x
          else none)
  pub ordered : IsEmapList s.tblocks 0 inode'.emap_list
  pub counted : inode'.blocks ≡ total inode'.emap_list
  pub freed :
      (b : ℕ)
      → covers (s'.fs i).fextents b ≡ (
          blocks_past (keep_below pg (not (size % block_size == 0))) inode.emap_list b
          || covers (s.fs i).fextents b)
  pub others : (j : ℕ) → (j == i) ≡ false → s'.fs j ≡ s.fs j
  pub cleared : zero_page ≡ (not (size % block_size == 0) && covers inode.emap_list pg)

emap_truncate-run :
    (s s' : State) (i : ℕ) (inode : Inode) (size pg : ℕ) (partial : Bool) (t : Trimmed)
    → inode.extent_length ≡ 0
    → partial ≡ not (size % block_size == 0)
    → truncate_loop s.tblocks pg partial inode.emap_list [] 0 false ≡ some t
    → free_truncated s i inode t ≡ some (s', cut_inode inode t)
    → (not (size == 0) || inode.blocks - t.bcount == 0 && is_empty t.kept) ≡ true
    → emap_truncate s i inode size pg
      ≡ some (s', record (cut_inode inode t) { private = inode.private || size == 0 }, t.zero_page)
unfolding emap_truncate truncate_single
emap_truncate-run s s' i inode size pg partial t single cut run free left =
    let mapped : (inode.extent_length == 0) ≡ true = ground arith in
    let run' = ap (λ p. truncate_loop s.tblocks pg p inode.emap_list [] 0 false) (sym cut) ∙ run in
    rw mapped (rw run' (rw free (rw left refl)))

below_nothing :
    (size pg x : ℕ)
    → size ≡ 0
    → pg ≡ size / block_size
    → ltb x (keep_below pg (not (size % block_size == 0))) ≡ false
below_nothing size pg x zero page =
    let whole : (size % block_size == 0) ≡ true = ground arith in
    rw whole (let start : pg ≡ 0 = omega arith in ground arith)

-- If `lc_emapTruncate` is called to cut a file that has an emap in order, whose blocks its inode counts,
-- in a layer whose freed extents are ones of a device below LC_INVALID_BLOCK, with the page of the new
-- size, then it runs to its end. Every page below the new size is mapped as before, no other page is
-- mapped, the emap is in order and the inode counts its blocks. Exactly the blocks of the pages that went
-- join the layer's freed blocks, the other layers are as they were, and a page is to be cleared just if
-- the size cuts it in the middle and it is mapped.
pub emap_truncate-FileTruncated :
    (s : State) (i : ℕ) (inode : Inode) (size pg : ℕ)
    → s.tblocks < invalid_block
    → inode.extent_length ≡ 0
    → pg ≡ size / block_size
    → IsEmapList s.tblocks 0 inode.emap_list
    → inode.blocks ≡ total inode.emap_list
    → inode.blocks < 2 ^ 64
    → IsSpaceBag s.tblocks (s.fs i).fextents
    → (s' : State) × (inode' : Inode) × (zero_page : Bool) × FileTruncated s i inode size pg s'
        inode' zero_page
unfolding total covers
emap_truncate-FileTruncated s i inode size pg tb single page ok counted bounded bag =
    let partial = not (size % block_size == 0) in
    let (t, r) =
      truncate_loop-Truncated s.tblocks pg partial tb 0 inode.emap_list [] 0 false ok tt
        (omega arith) (inl refl) in
    let (s', run, f) =
      free_truncated-Freed s i inode t tb r.bag bag (omega (arith, r.sum, r.count))
        (omega (arith, r.count)) in
    let left : inode.blocks - t.bcount ≡ total t.kept = omega (arith, r.count) in
    let gone : size ≡ 0 → (x : ℕ) → maps t.kept x ≡ none = λ zero x.
      r.mapped x
      ∙ ap (λ c. if c then maps inode.emap_list x else none) (below_nothing size pg x zero page) in
    (
      s',
      record (cut_inode inode t) { private = inode.private || size == 0 },
      t.zero_page,
      record {
        run =
            emap_truncate-run s s' i inode size pg partial t single refl r.run run
              (nothing_left s.tblocks size (inode.blocks - t.bcount) t.kept r.ordered left gone);
        mapped = r.mapped;
        ordered = r.ordered;
        counted = left;
        freed = λ b.
            f.blocks b
            ∙ ap (λ c. c || covers (s.fs i).fextents b) (r.blocks b)
            ∙ sym (
                or-nil (blocks_past (keep_below pg partial) inode.emap_list b)
                  (covers (s.fs i).fextents b));
        others = f.others;
        cleared = r.cleared;
      },
    )

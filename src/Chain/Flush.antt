-- ===== src/Chain/Flush.antt =====
-- Pages that go to new blocks: lc_dirFlushBlocks (lcfs/dir.c), lc_xattrFlushBlocks (lcfs/xattr.c)
-- and what lc_dirFlush and lc_xattrFlush do with the blocks. The blocks come from the layer `i`, and
-- the inode's list of extents for them is changed.
use lcfs.Prelude.{
  true, false, ltb, ◌==◌, ◌^◌, ◌≤◌, Bool-cases, inl, inr, arith, ℕ, ◌+◌, ◌<◌, ◌≡◌, refl, Option,
  some, List, [], ◌∷◌, length, ◌>>=◌,
}
use mathlib.Core.List.{reverse}
use lcfs.Extent.{Extent}
use lcfs.ExtentList.View.{IsSpaceBag}
use lcfs.ExtentList.Unsorted.{add_extent-unsorted}
use lcfs.Block.{Fs, add_space_extent, State, invalid_block, block_alloc_exact}
use lcfs.Block.Release.{inode_add_meta_extent, replace_freed_extents, add_freed_extents}
use lcfs.Chain.{Store, link_pages}
use lcfs.Chain.Link.{Consecutive, read_chain-link_pages}

-- The first block, the allocator's state and the pages as they reach the device
unfoldable pub flush_blocks {ℓ} :
    {A : Type ℓ} → State → ℕ → List (List A) → Store A → Option (ℕ × State × Store A)
flush_blocks s i pages st = do
  (block, s') ← block_alloc_exact s i (length pages)
  st' ← link_pages true block (length pages) (reverse pages) st
  some (block, s', st')

-- The blocks of the inode afterwards
pub record Flushed {ℓ} (A : Type ℓ) : Type ℓ where
  pub block : ℕ
  pub state : State
  pub extents : List Extent
  pub store : Store A
  pub count : ℕ

unfoldable pub free_old {ℓ} : {A : Type ℓ} → State → ℕ → List Extent → Store A → Option (Flushed A)
free_old s i [] st =
    some (record { block = invalid_block; state = s; extents = []; store = st; count = 0 })
free_old s i (e ∷ es) st = do
  s' ← add_freed_extents s i (e ∷ es) false
  some (record { block = invalid_block; state = s'; extents = []; store = st; count = 0 })

unfoldable pub flush_pages {ℓ} :
    {A : Type ℓ} → State → ℕ → List Extent → List (List A) → Store A → Option (Flushed A)
flush_pages s i es [] st = free_old s i es st
flush_pages s i es (p ∷ ps) st = do
  (block, s', st') ← flush_blocks s i (p ∷ ps) st
  (s₂, es') ← replace_freed_extents s' i es block (length (p ∷ ps))
  some (record { block = block; state = s₂; extents = es'; store = st'; count = length (p ∷ ps) })

-- The allocator has `count` blocks in one range of the device, and the inode's extents take them.
pub record HasRoom (s : State) (i : ℕ) (es : List Extent) (count : ℕ) : Type 0 where
  pub block : ℕ
  pub allocated : State
  pub recorded : State
  pub extents : List Extent
  pub alloc : block_alloc_exact s i count ≡ some (block, allocated)
  pub replace : replace_freed_extents allocated i es block count ≡ some (recorded, extents)
  pub positive : 0 < block
  pub inside : block + count ≤ s.tblocks

-- Where there is room, the pages stand in the range.
pub flush_pages-Consecutive {ℓ} :
    {A : Type ℓ} (s : State) (i : ℕ) (es : List Extent) (p : List A) (ps : List (List A))
    (st : Store A) (room : HasRoom s i es (length (p ∷ ps)))
    → s.tblocks < invalid_block
    → (st' : Store A) × (flush_pages s i es (p ∷ ps) st
        ≡ some (record {
          block = room.block;
          state = room.recorded;
          extents = room.extents;
          store = st';
          count = length (p ∷ ps);
        }))
      × Consecutive st' room.block (p ∷ ps)
unfolding flush_pages flush_blocks
flush_pages-Consecutive s i es p ps st room tb =
    let (st', run, chain) = read_chain-link_pages st room.block p ps (omega (arith, room.inside)) in
    (st', rw room.alloc (rw run (rw room.replace refl)), chain)

-- A block of the device joins the extents of an inode that is read, if they are kept.
pub inode_add_meta_extent-bag :
    (tblocks : ℕ) (fs : Fs) (es : List Extent) (block : ℕ)
    → tblocks < 2 ^ 48
    → 0 < block
    → block < tblocks
    → IsSpaceBag tblocks es
    → (es' : List Extent) × (inode_add_meta_extent tblocks fs es block 1 false ≡ some es')
      × IsSpaceBag tblocks es'
unfolding inode_add_meta_extent add_space_extent
inode_add_meta_extent-bag tblocks fs es block tb p b bag = elim (Bool-cases fs.frozen) [
  | inl h ↦ (es, rw h refl, bag)
  | inr h ↦
      let (es', run, bag', _, _, _) =
        add_extent-unsorted tblocks block 1 es tb p (omega arith) (omega arith) bag in
      let p' : ltb 0 block ≡ true = ground arith in
      let q : (block == invalid_block) ≡ false = ground arith in (es', rw h (rw (p', q) run), bag')
]

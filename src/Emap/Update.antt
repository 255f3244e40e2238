-- ===== src/Emap/Update.antt =====
-- lcfs/emap.c: `lc_inodeEmapUpdate`, which maps a run of pages to new blocks or punches a hole.
use lcfs.Prelude.{
  ℕ, zero, suc, ◌+◌, ◌-◌, ◌^◌, ◌%◌, Bool, not, ◌&&◌, ◌||◌, Option, none, some, List, [], ◌∷◌, ltb,
  ◌==◌, if◌then◌else◌, assert, ◌>>=◌, ◌>>◌,
}
use lcfs.Prelude.Words.{u64_mod, add64, sub64}
use lcfs.Extent.{Extent, get_start, get_count}
use lcfs.Emap.{
  Inode, page_hole, has_page, emap_extent_lookup, remove_inode_extents, add_emap_extent,
}

-- The variables of the loop: the run of `bcount` pages from `pg`, mapped to the blocks from `blk`,
-- is still to be removed.
pub record Scan : Type 0 where
  pub inode : Inode
  pub freed : List Extent
  pub cursor : List Extent
  pub pg : ℕ
  pub blk : ℕ
  pub bcount : ℕ

abbrev pub start_scan : Inode → List Extent → Scan
start_scan inode freed = record {
  inode = inode;
  freed = freed;
  cursor = inode.emap_list;
  pg = u64_mod - 1;
  blk = u64_mod - 1;
  bcount = 0;
}

-- `di_blocks` has 32 bits.
abbrev pub add_blocks : Inode → ℕ → Inode
add_blocks inode n = record inode { blocks = (inode.blocks + n) % 2 ^ 32 }

abbrev pub sub_blocks : Inode → ℕ → Inode
sub_blocks inode n = record inode { blocks = (inode.blocks + 2 ^ 32 - n) % 2 ^ 32 }

-- The run that was accumulated is removed, and the search starts again.
unfoldable pub flush_run : ℕ → Scan → Option Scan
flush_run tblocks c = do
  (inode, freed) ← remove_inode_extents tblocks c.inode c.pg c.blk c.bcount c.freed
  some (record c { inode = inode; freed = freed; cursor = inode.emap_list })

-- The page is mapped to `block`: it joins the run, or the run is removed and it starts another.
unfoldable pub join_run : ℕ → Scan → (page block : ℕ) → Option Scan
join_run tblocks c page block =
    let pg = if c.bcount == 0 then page else c.pg in
    let blk = if c.bcount == 0 then block else c.blk in
    if add64 blk c.bcount == block
    then some (record c { pg = pg; blk = blk; bcount = add64 c.bcount 1 })
    else (flush_run tblocks (record c { pg = pg; blk = blk }) >>= λ c'.
        some (record c' { pg = page; blk = block; bcount = 1 }))

-- How many pages the round takes at once: those that the extent at hand holds too.
unfoldable pub run_length : List Extent → (page count : ℕ) → ℕ
run_length [] page count = 1
run_length (e ∷ es) page count =
    if ltb 1 count && has_page e page
    then (let left = sub64 (add64 (get_start e) (get_count e)) page in
        if ltb count left then count else left)
    else 1

-- One round of the loop, from a list that is not at its end: the number of pages that it took
unfoldable pub update_round : ℕ → (hole : Bool) → Scan → (page count : ℕ) → Option (ℕ × Scan)
update_round tblocks hole c page count = do
  (block, cursor) ← emap_extent_lookup tblocks c.cursor page
  let c₁ = record c { cursor = cursor }
  if not (block == page_hole)
      then (do
        c₂ ← join_run tblocks c₁ page block
        assert (not hole || count == 1)
        let c₃ = if hole then record c₂ { inode = sub_blocks c₂.inode 1 } else c₂
        let n = run_length c₃.cursor page count
        some (n, record c₃ { bcount = add64 c₃.bcount (n - 1) }))
      else (do
        c₂ ←
            (if ltb 0 c₁.bcount
              then (flush_run tblocks c₁ >>= λ c'. some (record c' { bcount = 0 }))
              else some c₁)
        some (1, if hole then c₂ else record c₂ { inode = add_blocks c₂.inode 1 }))

-- The loop. Each round takes at least one page, so `count` rounds are enough.
unfoldable pub update_loop : (fuel : ℕ) → ℕ → (hole : Bool) → Scan → (page count : ℕ) → Option Scan
update_loop zero tblocks hole c page count = if count == 0 then some c else none
update_loop (suc fuel) tblocks hole c page count = if count == 0 then some c else elim c.cursor [
  | [] ↦ some (if hole then c else record c { inode = add_blocks c.inode count })
  | e ∷ es ↦
      (update_round tblocks hole c page count >>= λ (n, c').
      update_loop fuel tblocks hole c' (add64 page n) (count - n))
]

-- `lc_inodeEmapUpdate`: the inode, and the list of the blocks that it gave up
unfoldable pub inode_emap_update :
    ℕ → Inode → (pstart bstart pcount : ℕ) → List Extent → Option (Inode × List Extent)
inode_emap_update tblocks inode pstart bstart pcount freed = do
  assert (not inode.shared)
  assert (inode.extent_length == 0)
  assert (ltb 0 pcount)
  let hole = bstart == page_hole
  c ← update_loop pcount tblocks hole (start_scan inode freed) pstart pcount
  c' ← (if ltb 0 c.bcount then flush_run tblocks c else some c)
  es ←
      (if hole
        then some c'.inode.emap_list
        else add_emap_extent tblocks c'.inode.emap_list pstart bstart pcount)
  some (record (c'.inode) { emap_list = es }, c'.freed)

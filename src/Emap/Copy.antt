-- ===== src/Emap/Copy.antt =====
-- lcfs/emap.c: `lc_expandEmap` and `lc_copyEmap` keep what a file maps its pages to.
use lcfs.Prelude.{
  ℕ, zero, suc, ◌+◌, ◌-◌, ◌≤◌, ◌<◌, ◌^◌, ◌≡◌, refl, ap, sym, true, false, ◌==◌, List, [], ◌∷◌, ltb,
  arith, none, some,
}
use lcfs.Prelude.Words.{add64}
use lcfs.Extent.{is_space, Extent, emap_max, validate}
use lcfs.ExtentList.{add_extent}
use lcfs.ExtentList.View.{maps, IsEmapList}
use lcfs.ExtentList.EmapInsert.{Unmapped, emap_extent, insert_emap, add_loop-insert_emap}
use lcfs.Emap.{Inode, add_emap_loop, add_emap_extent, expand_emap, copy_extents, copy_emap}
use lcfs.Emap.Lookup.{file_maps}
use lcfs.Emap.Runs.{add_emap_extent-Mapped}

expand_emap-eq_some :
    (tblocks : ℕ) (inode : Inode) (es : List Extent)
    → inode.blocks ≡ inode.extent_length
    → add_emap_extent tblocks inode.emap_list 0 inode.extent_block inode.extent_length ≡ some es
    → expand_emap tblocks inode
      ≡ some
          (record inode { extent_block = 0; extent_length = 0; emap_list = es; emap_dirty = true })
unfolding expand_emap
expand_emap-eq_some tblocks inode es b run =
    let same : (inode.blocks == inode.extent_length) ≡ true = ground arith in rw same (rw run refl)

-- On a device of fewer than 2^48 blocks, expanding a file whose blocks are those of one direct
-- extent on the device, and whose emap is in order and maps none of its pages, stops at no `assert`;
-- the emap is in order, no direct extent is left, and the file maps every page as before.
pub expand_emap-file_maps :
    (tblocks : ℕ) (inode : Inode)
    → tblocks < 2 ^ 48
    → inode.blocks ≡ inode.extent_length
    → 0 < inode.extent_block
    → inode.extent_block + inode.extent_length ≤ tblocks
    → IsEmapList tblocks 0 inode.emap_list
    → Unmapped 0 inode.extent_length inode.emap_list
    → (inode' : Inode) × (expand_emap tblocks inode ≡ some inode')
      × IsEmapList tblocks 0 inode'.emap_list
      × (inode'.extent_length ≡ 0)
      × ((x : ℕ) → file_maps inode' x ≡ file_maps inode x)
expand_emap-file_maps tblocks inode tb b p d s u =
    let (es, run, s', m) =
      add_emap_extent-Mapped tblocks 0 inode.emap_list 0 inode.extent_block inode.extent_length tb
        (omega arith) p d (omega arith) s u in
    (
      record inode { extent_block = 0; extent_length = 0; emap_list = es; emap_dirty = true },
      expand_emap-eq_some tblocks inode es b run,
      s',
      refl,
      λ x. ground (arith, m x),
    )

unmapped : (x : ℕ) → maps [] x ≡ none
unfolding maps
unmapped x = refl

add_extent-one :
    (tblocks page block count : ℕ)
    → tblocks < 2 ^ 48
    → 0 < count
    → count ≤ emap_max
    → page + count ≤ 2 ^ 52
    → 0 < block
    → block + count ≤ tblocks
    → add_extent tblocks [] page block count true ≡ some (emap_extent page block count ∷ [])
unfolding add_extent insert_emap
add_extent-one tblocks page block count tb c m pg b d =
    let added =
      add_loop-insert_emap tblocks page block count tb c m pg b d 0 [] tt (λ x w. unmapped x) in
    ground (arith, added)

add_emap_loop-zero :
    (fuel tblocks : ℕ) (es : List Extent) (page block : ℕ)
    → add_emap_loop fuel tblocks es page block 0 ≡ some es
unfolding add_emap_loop
add_emap_loop-zero zero tblocks es page block = refl
add_emap_loop-zero (suc fuel) tblocks es page block = refl

add_emap_loop-one :
    (fuel tblocks page block count : ℕ)
    → tblocks < 2 ^ 48
    → 0 < count
    → count ≤ emap_max
    → page + count ≤ 2 ^ 52
    → 0 < block
    → block + count ≤ tblocks
    → add_emap_loop (suc fuel) tblocks [] page block count
      ≡ some (emap_extent page block count ∷ [])
unfolding add_emap_loop
add_emap_loop-one fuel tblocks page block count tb c m pg b d =
    let some_pages : (count == 0) ≡ false = ground arith in
    let whole : ltb emap_max count ≡ false = ground arith in
    let done : count - count ≡ 0 = omega arith in
    rw (some_pages, whole)
      (rw (add_extent-one tblocks page block count tb c m pg b d) (
        rw done (
          add_emap_loop-zero fuel tblocks (emap_extent page block count ∷ []) (add64 page count)
            (add64 block count))))

add_emap_extent-one :
    (tblocks page block count : ℕ)
    → tblocks < 2 ^ 48
    → 0 < count
    → count ≤ emap_max
    → page + count ≤ 2 ^ 52
    → 0 < block
    → block + count ≤ tblocks
    → add_emap_extent tblocks [] page block count ≡ some (emap_extent page block count ∷ [])
unfolding add_emap_extent
add_emap_extent-one tblocks page block zero tb c m pg b d = absurd (omega arith)
add_emap_extent-one tblocks page block (suc k) tb c m pg b d =
    add_emap_loop-one k tblocks page block (suc k) tb c m pg b d

validate-emap :
    (tblocks lo : ℕ) (e : Extent) (es : List Extent)
    → tblocks < 2 ^ 48
    → IsEmapList tblocks lo (e ∷ es)
    → validate (some tblocks) e ≡ some tt
unfolding validate
validate-emap tblocks lo e es tb s = ground arith

copy_extents_id :
    (tblocks lo : ℕ) (es : List Extent)
    → tblocks < 2 ^ 48
    → IsEmapList tblocks lo es
    → copy_extents tblocks es ≡ some es
unfolding copy_extents
copy_extents_id tblocks lo [] tb s = refl
copy_extents_id tblocks lo (e ∷ es) tb s =
    let one = add_emap_extent-one tblocks e.ex_start e.ex_block e.ex_count tb s.2 s.3 s.4 s.5 s.6 in
    let in_emap : is_space e.ex_type ≡ false = rw (s.0) refl in
    rw (validate-emap tblocks lo e es tb s) (
      rw in_emap (
        rw one (
          rw (copy_extents_id tblocks (e.ex_start + e.ex_count) es tb s.7)
            (ap (λ t. some (record e { ex_type = t } ∷ es)) (sym (s.0))))))

-- On a device of fewer than 2^48 blocks, copying the emap of a file without a direct extent, which
-- is in order, stops at no `assert` and gives an emap of the same extents; the inode shares it no
-- longer.
pub copy_emap_id :
    (tblocks : ℕ) (inode : Inode)
    → tblocks < 2 ^ 48
    → inode.extent_length ≡ 0
    → IsEmapList tblocks 0 inode.emap_list
    → copy_emap tblocks inode ≡ some (record inode { shared = false })
unfolding copy_emap
copy_emap_id tblocks inode tb empty s =
    let direct : (inode.extent_length == 0) ≡ true = ground arith in
    rw direct (rw (copy_extents_id tblocks 0 inode.emap_list tb s) refl)

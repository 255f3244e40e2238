-- ===== src/Emap/Lookup.antt =====
-- `lc_inodeEmapLookup` finds the block of a page.
use lcfs.Prelude.{
  ℕ, ◌+◌, ◌≤◌, ◌<◌, ◌^◌, ◌≡◌, ◌∙◌, ap, refl, List, [], ◌∷◌, ltb, leb, arith, Option, some,
  if◌then◌else◌, Bool-cases, inl, inr,
}
use mathlib.Core.Option.{get_or}
use lcfs.Extent.{Extent, validate, get_start, get_block}
use lcfs.Prelude.Words.{add64, sub64}
use lcfs.ExtentList.View.{maps, IsEmapList, maps-below, IsEmapList-weaken}
use lcfs.Emap.{Inode, page_hole, has_page, skip_extents, emap_extent_lookup}

-- The list from the first extent that ends behind the page.
unfoldable pub from_page : List Extent → ℕ → List Extent
from_page [] page = []
from_page (e ∷ es) page = if leb (e.ex_start + e.ex_count) page then from_page es page else e ∷ es

module _ (tblocks : ℕ) (tb : tblocks < 2 ^ 48) where
  skip_extents-from_page :
      (lo : ℕ) (es : List Extent) (page : ℕ)
      → IsEmapList tblocks lo es
      → skip_extents tblocks es page ≡ some (from_page es page)
  unfolding skip_extents from_page validate
  skip_extents-from_page lo [] page s = refl
  skip_extents-from_page lo (e ∷ es) page s =
      ground (arith, skip_extents-from_page (e.ex_start + e.ex_count) es page s.7)

  pub from_page-IsEmapList :
      (lo : ℕ) (es : List Extent) (page : ℕ)
      → IsEmapList tblocks lo es
      → IsEmapList tblocks lo (from_page es page)
  unfolding from_page
  from_page-IsEmapList lo [] page s = tt
  from_page-IsEmapList lo (e ∷ es) page s = elim (Bool-cases (leb (e.ex_start + e.ex_count) page)) [
    | inl h ↦ rw h (
        IsEmapList-weaken tblocks (e.ex_start + e.ex_count) lo (from_page es page)
          (from_page-IsEmapList (e.ex_start + e.ex_count) es page s.7) (omega arith))
    | inr h ↦ rw h s
  ]

  pub maps-from_page :
      (es : List Extent) (page x : ℕ) → page ≤ x → maps (from_page es page) x ≡ maps es x
  unfolding from_page maps
  maps-from_page [] page x l = refl
  maps-from_page (e ∷ es) page x l = ground (arith, maps-from_page es page x l)

  -- The first extent of the rest holds the page, or no extent does.
  unfoldable pub head_block : List Extent → ℕ → ℕ
  head_block [] page = page_hole
  head_block (e ∷ es) page =
      if has_page e page then add64 (get_block e) (sub64 page (get_start e)) else page_hole

  head_block-maps :
      (lo : ℕ) (es : List Extent) (page : ℕ)
      → IsEmapList tblocks lo es
      → head_block (from_page es page) page ≡ get_or (maps es page) page_hole
  unfolding from_page head_block maps
  head_block-maps lo [] page s = refl
  head_block-maps lo (e ∷ es) page s = ground (
    arith,
    head_block-maps (e.ex_start + e.ex_count) es page s.7,
    maps-below tblocks (e.ex_start + e.ex_count) page es s.7,
  )

  emap_extent_lookup-eq_some :
      (es rest : List Extent) (page : ℕ)
      → skip_extents tblocks es page ≡ some rest
      → emap_extent_lookup tblocks es page ≡ some (head_block rest page, rest)
  unfolding emap_extent_lookup head_block
  emap_extent_lookup-eq_some es [] page h = rw h refl
  emap_extent_lookup-eq_some es (e ∷ rest) page h = rw h refl

  pub emap_extent_lookup-maps :
      (lo : ℕ) (es : List Extent) (page : ℕ)
      → IsEmapList tblocks lo es
      → emap_extent_lookup tblocks es page
        ≡ some (get_or (maps es page) page_hole, from_page es page)
  emap_extent_lookup-maps lo es page s =
      emap_extent_lookup-eq_some es (from_page es page) page (skip_extents-from_page lo es page s)
      ∙ ap (λ b. some (b, from_page es page)) (head_block-maps lo es page s)

  -- On a device of fewer than 2^48 blocks, the search of an ordered emap for a page that goes on
  -- from the place where the search of an earlier page stopped finds the block to which the whole
  -- list maps the page, or the value for a hole if it maps it to none; it stops at no `assert`.
  pub emap_extent_lookup-from_page :
      (es : List Extent) (before page : ℕ)
      → IsEmapList tblocks 0 es
      → before ≤ page
      → emap_extent_lookup tblocks (from_page es before) page
        ≡ some (get_or (maps es page) page_hole, from_page (from_page es before) page)
  emap_extent_lookup-from_page es before page s l =
      emap_extent_lookup-maps 0 (from_page es before) page (from_page-IsEmapList 0 es before s)
      ∙ ap (λ m. some (get_or m page_hole, from_page (from_page es before) page))
          (maps-from_page es before page l)

-- What a file maps its page to: one direct extent, or the list.
abbrev pub file_maps : Inode → ℕ → Option ℕ
file_maps inode page =
    if ltb page inode.extent_length
    then some (inode.extent_block + page)
    else maps inode.emap_list page

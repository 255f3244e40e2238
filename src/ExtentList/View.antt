-- ===== src/ExtentList/View.antt =====
-- What a list of space extents stands for, and when it is in the order that the allocator keeps.
use lcfs.Prelude.{
  ℕ, ◌+◌, ◌-◌, ◌≤◌, ◌<◌, ◌^◌, ◌≡◌, ◌⊎◌, inl, inr, refl, Bool, true, false, ◌&&◌, ◌||◌, Option, none,
  some, if◌then◌else◌, List, [], ◌∷◌, ltb, leb, arith,
}
use lcfs.Extent.{Extent, space, emap, emap_max}
use lcfs.Extent.Fits.{Fits}

abbrev pub within : (start count x : ℕ) → Bool
within start count x = leb start x && ltb x (start + count)

-- The blocks of the list.
unfoldable pub covers : List Extent → ℕ → Bool
covers [] x = false
covers (e ∷ es) x = within e.ex_start e.ex_count x || covers es x

unfoldable pub total : List Extent → ℕ
total [] = 0
total (e ∷ es) = e.ex_count + total es

-- Extents of space below `tblocks`, in order from `lo`, with a gap between any two.
abbrev pub IsSpaceList : (tblocks lo : ℕ) → List Extent → Type 0
IsSpaceList tblocks lo [] = Unit
IsSpaceList tblocks lo (e ∷ es) =
    (e.ex_type ≡ space)
    × (lo ≤ e.ex_start)
    × (0 < e.ex_count)
    × (e.ex_start + e.ex_count ≤ tblocks)
    × IsSpaceList tblocks (e.ex_start + e.ex_count + 1) es

-- Extents of space below `tblocks`, in any order.
abbrev pub IsSpaceBag : (tblocks : ℕ) → List Extent → Type 0
IsSpaceBag tblocks [] = Unit
IsSpaceBag tblocks (e ∷ es) =
    (e.ex_type ≡ space)
    × (0 < e.ex_start)
    × (0 < e.ex_count)
    × (e.ex_start + e.ex_count ≤ tblocks)
    × IsSpaceBag tblocks es

-- Extents of an emap in order of their pages from `lo`, their blocks below `tblocks`.
abbrev pub IsEmapList : (tblocks lo : ℕ) → List Extent → Type 0
IsEmapList tblocks lo [] = Unit
IsEmapList tblocks lo (e ∷ es) =
    (e.ex_type ≡ emap)
    × (lo ≤ e.ex_start)
    × (0 < e.ex_count)
    × (e.ex_count ≤ emap_max)
    × (e.ex_start + e.ex_count ≤ 2 ^ 52)
    × (0 < e.ex_block)
    × (e.ex_block + e.ex_count ≤ tblocks)
    × IsEmapList tblocks (e.ex_start + e.ex_count) es

-- The block to which an emap list maps a page.
unfoldable pub maps : List Extent → ℕ → Option ℕ
maps [] x = none
maps (e ∷ es) x =
    if within e.ex_start e.ex_count x then some (e.ex_block + (x - e.ex_start)) else maps es x

abbrev pub AllFit : (tblocks : ℕ) → List Extent → Type 0
AllFit tblocks [] = Unit
AllFit tblocks (e ∷ es) = Fits tblocks e × AllFit tblocks es

-- No extent of the list meets the range.
abbrev pub Apart : (start count : ℕ) → List Extent → Type 0
Apart start count es = (x : ℕ) → within start count x ≡ true → covers es x ≡ false

pub IsSpaceList-weaken :
    (tblocks lo lo' : ℕ) (es : List Extent)
    → IsSpaceList tblocks lo es
    → lo' ≤ lo
    → IsSpaceList tblocks lo' es
IsSpaceList-weaken tblocks lo lo' [] s h = tt
IsSpaceList-weaken tblocks lo lo' (e ∷ es) s h = (s.0, omega arith, s.2, s.3, s.4)

-- Nothing stands below the first extent.
pub covers-below :
    (tblocks lo x : ℕ) (es : List Extent) → IsSpaceList tblocks lo es → x < lo → covers es x ≡ false
unfolding covers
covers-below tblocks lo x [] s h = refl
covers-below tblocks lo x (e ∷ es) s h =
    ground (arith, covers-below tblocks (e.ex_start + e.ex_count + 1) x es s.4)

-- A range that avoids a list lies on one side of its first extent, and avoids the rest.
pub Apart-cons :
    (start count : ℕ) (e : Extent) (es : List Extent)
    → 0 < count
    → 0 < e.ex_count
    → Apart start count (e ∷ es)
    → ((start + count ≤ e.ex_start) ⊎ (e.ex_start + e.ex_count ≤ start)) × Apart start count es
unfolding covers
Apart-cons start count e es hc he a =
    (ground (arith, a start, a e.ex_start), λ x h. ground (arith, a x))

-- What stands behind the start of a range that the list avoids stands behind its end.
pub IsSpaceList-after :
    (tblocks lo start count hi : ℕ) (es : List Extent)
    → 0 < count
    → start < lo
    → hi ≤ start + count
    → IsSpaceList tblocks lo es
    → Apart start count es
    → IsSpaceList tblocks hi es
IsSpaceList-after tblocks lo start count hi [] c h k s a = tt
IsSpaceList-after tblocks lo start count hi (e ∷ es) c h k s a =
    let side = (Apart-cons start count e es c s.2 a).0 in (s.0, omega arith, s.2, s.3, s.4)

pub IsSpaceList-IsSpaceBag :
    (tblocks lo : ℕ) (es : List Extent) → 0 < lo → IsSpaceList tblocks lo es → IsSpaceBag tblocks es
IsSpaceList-IsSpaceBag tblocks lo [] h s = tt
IsSpaceList-IsSpaceBag tblocks lo (e ∷ es) h s = (
  s.0,
  omega arith,
  s.2,
  s.3,
  IsSpaceList-IsSpaceBag tblocks (e.ex_start + e.ex_count + 1) es (omega arith) s.4,
)

-- No two extents of the list meet.
abbrev pub NoOverlap : List Extent → Type 0
NoOverlap [] = Unit
NoOverlap (e ∷ es) = Apart e.ex_start e.ex_count es × NoOverlap es

pub IsSpaceList-NoOverlap :
    (tblocks lo : ℕ) (es : List Extent) → IsSpaceList tblocks lo es → NoOverlap es
IsSpaceList-NoOverlap tblocks lo [] s = tt
IsSpaceList-NoOverlap tblocks lo (e ∷ es) s = (
  λ x h. covers-below tblocks (e.ex_start + e.ex_count + 1) x es s.4 (ground arith),
  IsSpaceList-NoOverlap tblocks (e.ex_start + e.ex_count + 1) es s.4,
)

pub IsSpaceBag-AllFit :
    (tblocks : ℕ) (es : List Extent) → tblocks < 2 ^ 48 → IsSpaceBag tblocks es → AllFit tblocks es
IsSpaceBag-AllFit tblocks [] tb s = tt
IsSpaceBag-AllFit tblocks (e ∷ es) tb s =
    ((s.2, omega arith, inl (s.0, s.3)), IsSpaceBag-AllFit tblocks es tb s.4)

pub IsSpaceList-AllFit :
    (tblocks lo : ℕ) (es : List Extent)
    → tblocks < 2 ^ 48
    → IsSpaceList tblocks lo es
    → AllFit tblocks es
IsSpaceList-AllFit tblocks lo [] tb s = tt
IsSpaceList-AllFit tblocks lo (e ∷ es) tb s = (
  (s.2, omega arith, inl (s.0, s.3)),
  IsSpaceList-AllFit tblocks (e.ex_start + e.ex_count + 1) es tb s.4,
)

pub IsEmapList-AllFit :
    (tblocks lo : ℕ) (es : List Extent) → IsEmapList tblocks lo es → AllFit tblocks es
IsEmapList-AllFit tblocks lo [] s = tt
IsEmapList-AllFit tblocks lo (e ∷ es) s = (
  (s.2, s.4, inr (s.0, s.5, s.3, s.6)),
  IsEmapList-AllFit tblocks (e.ex_start + e.ex_count) es s.7,
)

pub IsEmapList-weaken :
    (tblocks lo lo' : ℕ) (es : List Extent)
    → IsEmapList tblocks lo es
    → lo' ≤ lo
    → IsEmapList tblocks lo' es
IsEmapList-weaken tblocks lo lo' [] s h = tt
IsEmapList-weaken tblocks lo lo' (e ∷ es) s h = (s.0, omega arith, s.2, s.3, s.4, s.5, s.6, s.7)

-- No page below the first extent is mapped.
pub maps-below :
    (tblocks lo x : ℕ) (es : List Extent) → IsEmapList tblocks lo es → x < lo → maps es x ≡ none
unfolding maps
maps-below tblocks lo x [] s h = refl
maps-below tblocks lo x (e ∷ es) s h =
    ground (arith, maps-below tblocks (e.ex_start + e.ex_count) x es s.7)

-- ===== src/ExtentList/Remove.antt =====
-- `lc_removeExtent` against a plain function, and what that does to a list of space.
use lcfs.Prelude.{
  ℕ, ◌+◌, ◌-◌, ◌≤◌, ◌<◌, ◌^◌, ◌≡◌, ◌⊎◌, refl, false, true, not, ◌&&◌, List, [], ◌∷◌, ltb, arith,
  some, ◌==◌, if◌then◌else◌, Bool-cases, inl, inr,
}
use lcfs.Extent.{Extent}
use lcfs.ExtentList.{remove_extent}
use lcfs.ExtentList.Cut.{cut, back, update_extent-cut}
use lcfs.Extent.Fits.{drop_front, make}
use lcfs.ExtentList.View.{
  within, covers, total, IsSpaceList, AllFit, IsSpaceList-AllFit, covers-below, IsSpaceList-weaken,
}

-- How much of `count` blocks from `start` the extent holds.
abbrev pub overlap : Extent → (start count : ℕ) → ℕ
overlap e start count =
    if ltb count (e.ex_start + e.ex_count - start) then count else e.ex_start + e.ex_count - start

-- The blocks taken off, and the list.
unfoldable pub freed : List Extent → (start count : ℕ) → ℕ
freed [] start count = 0
freed (e ∷ es) start count =
    if ltb start e.ex_start
    then 0
    else if ltb start (e.ex_start + e.ex_count)
    then overlap e start count
    else freed es start count

unfoldable pub remove : List Extent → (start count : ℕ) → List Extent
remove [] start count = []
remove (e ∷ es) start count =
    if ltb start e.ex_start
    then e ∷ es
    else if ltb start (e.ex_start + e.ex_count)
    then cut e start (overlap e start count) es
    else e ∷ remove es start count

pub remove_extent-remove :
    (tblocks start count : ℕ) (es : List Extent)
    → tblocks < 2 ^ 48
    → 0 < count
    → AllFit tblocks es
    → remove_extent tblocks es start count ≡ some (freed es start count, remove es start count)
unfolding remove_extent freed remove
remove_extent-remove tblocks start count [] tb c s = refl
remove_extent-remove tblocks start count (e ∷ es) tb c s =
    let found = update_extent-cut tblocks e es start (overlap e start count) tb s.0 in
    ground (arith, found, remove_extent-remove tblocks start count es tb c s.1)

pub freed-le : (es : List Extent) (start count : ℕ) → freed es start count ≤ count
unfolding freed
freed-le [] start count = omega arith
freed-le (e ∷ es) start count = ground (arith, freed-le es start count)

total-cut :
    (e : Extent) (start k : ℕ) (es : List Extent)
    → e.ex_start ≤ start
    → start + k ≤ e.ex_start + e.ex_count
    → total (cut e start k es) + k ≡ e.ex_count + total es
unfolding total cut drop_front back make
total-cut e start k es l h = ground arith

total-remove :
    (es : List Extent) (start count : ℕ)
    → total (remove es start count) + freed es start count ≡ total es
unfolding total remove freed
total-remove [] start count = refl
total-remove (e ∷ es) start count =
    ground (arith, total-remove es start count, total-cut e start (overlap e start count) es)

covers-cut :
    (e : Extent) (start k x : ℕ) (es : List Extent)
    → e.ex_start ≤ start
    → start + k ≤ e.ex_start + e.ex_count
    → 0 < k
    → (within start k x ≡ true → covers es x ≡ false)
    → covers (cut e start k es) x ≡ (covers (e ∷ es) x && not (within start k x))
unfolding covers cut drop_front back make
covers-cut e start k x es l h p away = ground arith

covers-remove :
    (tblocks lo : ℕ) (es : List Extent) (start count x : ℕ)
    → 0 < count
    → IsSpaceList tblocks lo es
    → covers (remove es start count) x
      ≡ (covers es x && not (within start (freed es start count) x))
unfolding covers remove freed
covers-remove tblocks lo [] start count x c s = refl
covers-remove tblocks lo (e ∷ es) start count x c s = ground (
  arith,
  covers-remove tblocks (e.ex_start + e.ex_count + 1) es start count x c s.4,
  covers-cut e start (overlap e start count) x es,
  covers-below tblocks (e.ex_start + e.ex_count + 1) x es s.4,
)

-- What is taken off was there, and something is taken off just if the first block is there.
freed-covers :
    (tblocks lo : ℕ) (es : List Extent) (start count x : ℕ)
    → 0 < count
    → IsSpaceList tblocks lo es
    → within start (freed es start count) x ≡ true
    → covers es x ≡ true
unfolding covers freed
freed-covers tblocks lo [] start count x c s h = ground arith
freed-covers tblocks lo (e ∷ es) start count x c s h =
    ground (arith, freed-covers tblocks (e.ex_start + e.ex_count + 1) es start count x c s.4)

covers-freed :
    (tblocks lo : ℕ) (es : List Extent) (start count : ℕ)
    → 0 < count
    → IsSpaceList tblocks lo es
    → covers es start ≡ ltb 0 (freed es start count)
unfolding covers freed
covers-freed tblocks lo [] start count c s = refl
covers-freed tblocks lo (e ∷ es) start count c s = ground (
  arith,
  covers-freed tblocks (e.ex_start + e.ex_count + 1) es start count c s.4,
  covers-below tblocks (e.ex_start + e.ex_count + 1) start es s.4,
)

-- The blocks are taken off up to the first that is not in the list.
freed-whole :
    (tblocks lo : ℕ) (es : List Extent) (start count : ℕ)
    → 0 < count
    → IsSpaceList tblocks lo es
    → (freed es start count ≡ count) ⊎ (covers es (start + freed es start count) ≡ false)
unfolding covers freed
freed-whole tblocks lo [] start count c s = inr refl
freed-whole tblocks lo (e ∷ es) start count c s =
    let hi : ℕ = e.ex_start + e.ex_count + 1 in
    elim (Bool-cases (ltb start e.ex_start)) [
      | inl before ↦ inr (ground (arith, covers-below tblocks hi start es s.4))
      | inr after ↦ elim (Bool-cases (ltb start (e.ex_start + e.ex_count))) [
        | inl inside ↦ elim (Bool-cases (ltb count (e.ex_start + e.ex_count - start))) [
          | inl part ↦ inl (ground arith)
          | inr end ↦ inr (ground (arith, covers-below tblocks hi (e.ex_start + e.ex_count) es s.4))
        ]
        | inr past ↦ ground (arith, freed-whole tblocks hi es start count c s.4)
      ]
    ]

cut-IsSpaceList :
    (tblocks lo : ℕ) (e : Extent) (es : List Extent) (start k : ℕ)
    → 0 < k
    → e.ex_start ≤ start
    → start + k ≤ e.ex_start + e.ex_count
    → IsSpaceList tblocks lo (e ∷ es)
    → IsSpaceList tblocks lo (cut e start k es)
unfolding cut drop_front back make
cut-IsSpaceList tblocks lo e es start k c l h s = elim (Bool-cases (e.ex_start == start)) [
  | inl front ↦ elim (Bool-cases (e.ex_count == k)) [
    | inl whole ↦
        rw (front, whole)
          (IsSpaceList-weaken tblocks (e.ex_start + e.ex_count + 1) lo es s.4 (omega arith))
    | inr part ↦
        let rest =
          IsSpaceList-weaken tblocks (e.ex_start + e.ex_count + 1)
            (e.ex_start + k + (e.ex_count - k) + 1) es s.4 in
        rw (front, part) (s.0, omega arith, ground arith, ground arith, rest (ground arith))
  ]
  | inr later ↦ elim (Bool-cases (start + k == e.ex_start + e.ex_count)) [
    | inl end ↦
        let rest =
          IsSpaceList-weaken tblocks (e.ex_start + e.ex_count + 1)
            (e.ex_start + (e.ex_count - k) + 1) es s.4 in
        rw (later, end) (s.0, s.1, ground arith, ground arith, rest (omega arith))
    | inr middle ↦
        let rest =
          IsSpaceList-weaken tblocks (e.ex_start + e.ex_count + 1)
            (start + k + (e.ex_start + e.ex_count - (start + k)) + 1) es s.4 in
        rw (later, middle)
          (
            s.0,
            s.1,
            ground arith,
            ground arith,
            (s.0, ground arith, ground arith, ground arith, rest (ground arith)),
          )
  ]
]

remove-IsSpaceList :
    (tblocks lo : ℕ) (es : List Extent) (start count : ℕ)
    → 0 < count
    → IsSpaceList tblocks lo es
    → IsSpaceList tblocks lo (remove es start count)
unfolding remove
remove-IsSpaceList tblocks lo [] start count c s = tt
remove-IsSpaceList tblocks lo (e ∷ es) start count c s = ground (
  arith,
  remove-IsSpaceList tblocks (e.ex_start + e.ex_count + 1) es start count c s.4,
  cut-IsSpaceList tblocks lo e es start (overlap e start count),
)

-- On a device of fewer than 2^48 blocks, removing a range that is not empty from a list of space in
-- order stops at no `assert`. It takes off the first `f` blocks of the range, at most `count`: all
-- of them were in the list before, and `f` is either the whole range or ends at the first block of
-- it that is not in the list, so that nothing is taken off just if the first block of the range is
-- not there. None of these is in the list afterwards, every other block stays; the list stays in
-- order, and its counts sum up to `f` less.
pub remove_extent-space :
    (tblocks lo start count : ℕ) (es : List Extent)
    → tblocks < 2 ^ 48
    → 0 < count
    → IsSpaceList tblocks lo es
    → (f : ℕ) × (es' : List Extent) × (remove_extent tblocks es start count ≡ some (f, es'))
      × (f ≤ count)
      × (covers es start ≡ ltb 0 f)
      × ((f ≡ count) ⊎ (covers es (start + f) ≡ false))
      × ((x : ℕ) → within start f x ≡ true → covers es x ≡ true)
      × ((x : ℕ) → covers es' x ≡ (covers es x && not (within start f x)))
      × (total es' + f ≡ total es)
      × IsSpaceList tblocks lo es'
remove_extent-space tblocks lo start count es tb c s = (
  freed es start count,
  remove es start count,
  remove_extent-remove tblocks start count es tb c (IsSpaceList-AllFit tblocks lo es tb s),
  freed-le es start count,
  covers-freed tblocks lo es start count c s,
  freed-whole tblocks lo es start count c s,
  λ x h. freed-covers tblocks lo es start count x c s h,
  λ x. covers-remove tblocks lo es start count x c s,
  total-remove es start count,
  remove-IsSpaceList tblocks lo es start count c s,
)

-- ===== src/Layers/Slots.antt =====
-- The table of layers: which index a new layer gets.
use lcfs.Prelude.{
  ℕ, zero, suc, ◌+◌, ◌-◌, ◌≤◌, ◌<◌, ◌≡◌, refl, ap, ◌∙◌, true, false, ◌==◌, Option, none, some,
  if◌then◌else◌, arith, Bool-cases, Option-cases, inl, inr, ◌⊎◌,
}
use lcfs.Layers.{
  Gfs, is_null, layer_max, set_prev_of, link_second, link_first, add_child, free_slot, take_slot,
  add_layer, eoverflow,
}

-- No slot of the range is free.
abbrev pub InUse : (ℕ → Option ℕ) → (from to : ℕ) → Type 0
InUse table from to = (j : ℕ) → from ≤ j → j < to → is_null (table j) ≡ false

-- The first free slot of the range
abbrev pub IsFirst : (ℕ → Option ℕ) → (from to i : ℕ) → Type 0
IsFirst table from to i = (from ≤ i) × (i < to) × (is_null (table i) ≡ true) × InUse table from i

step_InUse :
    (table : ℕ → Option ℕ) (from to : ℕ)
    → is_null (table from) ≡ false
    → InUse table (from + 1) to
    → InUse table from to
step_InUse table from to e u j l h = elim (Bool-cases (j == from)) [
  | inl same ↦ let eq : j ≡ from = ground arith in rw eq e
  | inr other ↦ u j (ground arith) h
]

free_slot-IsFirst :
    (table : ℕ → Option ℕ) (i n : ℕ)
    → ((free_slot table i n ≡ none) × InUse table i (i + n))
      ⊎ ((k : ℕ) × (free_slot table i n ≡ some k) × IsFirst table i (i + n) k)
unfolding free_slot
free_slot-IsFirst table i zero = inl (refl, λ j l h. absurd (omega arith))
free_slot-IsFirst table i (suc n) = elim (Bool-cases (is_null (table i))) [
  | inl free ↦
      inr (i, rw free refl, (omega arith, omega arith, free, λ j l h. absurd (omega arith)))
  | inr used ↦ elim (free_slot-IsFirst table (i + 1) n) [
    | inl (run, u) ↦
        inl (rw used run, step_InUse table i (i + suc n) used (λ j l h. u j l (omega arith)))
    | inr (k, run, first) ↦ inr (
      k,
      rw used run,
      (omega (arith, first.0), omega (arith, first.1), first.2, step_InUse table i k used first.3),
    )
  ]
]

table-set_prev_of : (g : Gfs) (p q : Option ℕ) → (set_prev_of g p q).table ≡ g.table
table-set_prev_of g none q = refl
table-set_prev_of g (some a) q = refl

table-link_first : (g : Gfs) (p fs : ℕ) → (link_first g p fs).table ≡ g.table
unfolding link_first
table-link_first g p fs = elim (Bool-cases (g.nodes fs).sb_init) [
  | inl e ↦ rw e refl
  | inr e ↦ rw e refl
]

table-link_second : (g : Gfs) (c fs : ℕ) → (link_second g c fs).table ≡ g.table
unfolding link_second
table-link_second g c fs = table-set_prev_of _ _ (some fs)

table-add_child :
    (g : Gfs) (p fs : ℕ) → (g' : Gfs) × (add_child g (some p) fs ≡ some g') × (g'.table ≡ g.table)
unfolding add_child
table-add_child g p fs = elim (Option-cases (g.nodes p).child) [
  | inl e ↦ (link_first g p fs, rw (add_child, e) refl, table-link_first g p fs)
  | inr (c, e) ↦ (link_second g c fs, rw (add_child, e) refl, table-link_second g c fs)
]

table-take_slot :
    (g : Gfs) (fs i j : ℕ) → (take_slot g fs i).table j ≡ (if j == i then some fs else g.table j)
unfolding take_slot
table-take_slot g fs i j = elim (Bool-cases (fs == (g.nodes fs).rfs)) [
  | inl e ↦ rw e refl
  | inr e ↦ rw e refl
]

-- Where a layer's index starts to be looked for
abbrev pub first_index : Gfs → (fs : ℕ) → ℕ
first_index g fs = (g.nodes (g.nodes fs).rfs).hgindex + 1

-- Adding a layer with a parent to the table, whose tree's highest index is below LC_LAYER_MAX, either
-- returns EOVERFLOW, leaves the state as it was, and no slot above the highest index of the tree is
-- free; or the layer takes the first free slot above that index, and every other slot stays.
pub add_layer-IsFirst :
    (g : Gfs) (fs p : ℕ)
    → first_index g fs ≤ layer_max
    → ((add_layer g fs (some p) ≡ some (some eoverflow, g))
        × InUse g.table (first_index g fs) layer_max)
      ⊎ ((i : ℕ) × (g' : Gfs) × (add_layer g fs (some p) ≡ some (none, g'))
          × IsFirst g.table (first_index g fs) layer_max i
          × ((j : ℕ) → g'.table j ≡ (if j == i then some fs else g.table j)))
unfolding add_layer
add_layer-IsFirst g fs p b =
    let from = first_index g fs in
    let span : from + (layer_max - from) ≡ layer_max = omega arith in
    elim (free_slot-IsFirst g.table from (layer_max - from)) [
      | inl (run, u) ↦ inl (rw (add_layer, run) refl, rw span at u)
      | inr (i, run, first) ↦
          let (g', add, same) = table-add_child (take_slot g fs i) p fs in
          inr (
            i,
            g',
            rw (add_layer, run) (rw add refl),
            rw span at first,
            λ j. ap (λ t. t j) same ∙ table-take_slot g fs i j,
          )
    ]

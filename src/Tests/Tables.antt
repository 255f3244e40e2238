-- ===== src/Tests/Tables.antt =====
-- The theorem on the table of layers at a concrete table.
use lcfs.Prelude.{ℕ, ◌≡◌, ◌⊎◌, ◌==◌, false, none, some, arith, if◌then◌else◌, ltb}
use lcfs.Layers.{Node, Gfs, layer_max, add_layer, eoverflow}
use lcfs.Layers.Slots.{InUse, IsFirst, first_index, add_layer-IsFirst}

abbrev node : Node
node = record {
  gindex = some 1;
  hgindex = 1;
  root = 5;
  rfs = 1;
  parent = none;
  child = none;
  next = none;
  prev = none;
  zfs = none;
  single = false;
  removed = false;
  sb_index = 1;
  sb_zombie = 0;
  sb_rdwr = false;
  sb_init = false;
  sb_is_zombie = false;
  dirty = false;
}

-- The indices 0 to 2 are in use, and the tree of the layer 1 goes up to the index 1.
abbrev table : Gfs
table = record {
  nodes = λ a. node;
  table = λ i. if ltb i 3 then some i else none;
  roots = λ i. if ltb i 3 then 5 else 0;
  scount = 2;
}

add_layer-IsFirst_example :
    ((add_layer table 7 (some 1) ≡ some (some eoverflow, table))
      × InUse (table.table) (first_index table 7) layer_max)
    ⊎ ((i : ℕ) × (g' : Gfs) × (add_layer table 7 (some 1) ≡ some (none, g'))
        × IsFirst (table.table) (first_index table 7) layer_max i
        × ((j : ℕ) → g'.table j ≡ (if j == i then some 7 else table.table j)))
add_layer-IsFirst_example = add_layer-IsFirst table 7 1 (omega arith)

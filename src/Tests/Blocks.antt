-- ===== src/Tests/Blocks.antt =====
-- The allocator's theorems at a concrete state.
use lcfs.Prelude.{
  ℕ, ◌+◌, ◌≡◌, ◌≢◌, ap, refl, true, false, ◌==◌, List, [], ◌∷◌, arith, some, if◌then◌else◌,
  Bool-cases, inl, inr,
}
use lcfs.Extent.{Extent}
use lcfs.ExtentList.View.{covers, total}
use lcfs.Block.{Fs, State, find_free_block}
use lcfs.Block.Owner.{
  free, deferred, reserved, allocated, IsLayer, Exclusive, IsSound, Unheld, KeepsRest, Gives,
}
use lcfs.Block.Find.{Found, find_free_block-Found}
use lcfs.Block.Free.{free_extent_blocks-Gives}
use lcfs.Block.FreeLayer.{Returned, free_layer_extent-Returned}
use lcfs.Block.Release.{free_extent_blocks, free_layer_extent}
use lcfs.Tests.{space_extent}

abbrev layer_of : List Extent → List Extent → ℕ → Fs
layer_of reserve taken n = record {
  extents = reserve;
  aextents = taken;
  fextents = [];
  reserved_blocks = n;
  blocks = n;
  freed = 0;
  extents_dirty = false;
  dirty = false;
  frozen = false;
  sb_extent_block = 0;
  sb_extent_count = 0;
}

-- The layer 2 has a reserve and blocks of its own; blocks are free, and others wait for a commit.
abbrev device : State
device = record {
  tblocks = 100000;
  sb_blocks = 999;
  blocks_reserved = 10000;
  dcount = 0;
  extents = space_extent 1000 98996 ∷ [];
  fextents = space_extent 10 5 ∷ [];
  fs = λ i.
      if i == 2
      then layer_of (space_extent 20 10 ∷ []) (space_extent 100 50 ∷ []) 10
      else layer_of [] [] 0;
}

layers-IsLayer : (i : ℕ) → IsLayer 100000 (device.fs i)
unfolding total covers
layers-IsLayer i = elim (Bool-cases (i == 2)) [
  | inl h ↦ rw h (record {
    bag = (refl, omega arith, omega arith, omega arith, tt);
    apart = (λ x w. refl, tt);
    reserve = refl;
    ordered = (refl, omega arith, omega arith, omega arith, tt);
  })
  | inr h ↦ rw h (record { bag = tt; apart = tt; reserve = refl; ordered = tt })
]

device-Exclusive : Exclusive device
unfolding covers
device-Exclusive free free ne x h = absurd (ne refl)
device-Exclusive deferred deferred ne x h = absurd (ne refl)
device-Exclusive (reserved i) (reserved j) ne x h =
    ground (arith, λ (e : i ≡ j). ne (ap reserved e))
device-Exclusive (allocated i) (allocated j) ne x h =
    ground (arith, λ (e : i ≡ j). ne (ap allocated e))
device-Exclusive free deferred ne x h = ground arith
device-Exclusive free (reserved j) ne x h = ground arith
device-Exclusive free (allocated j) ne x h = ground arith
device-Exclusive deferred free ne x h = ground arith
device-Exclusive deferred (reserved j) ne x h = ground arith
device-Exclusive deferred (allocated j) ne x h = ground arith
device-Exclusive (reserved i) free ne x h = ground arith
device-Exclusive (reserved i) deferred ne x h = ground arith
device-Exclusive (reserved i) (allocated j) ne x h = ground arith
device-Exclusive (allocated i) free ne x h = ground arith
device-Exclusive (allocated i) deferred ne x h = ground arith
device-Exclusive (allocated i) (reserved j) ne x h = ground arith

device-IsSound : IsSound device
unfolding total
device-IsSound = record {
  bound = omega arith;
  free_list = (refl, omega arith, omega arith, omega arith, tt);
  deferred_list = (refl, omega arith, omega arith, omega arith, tt);
  layers = layers-IsLayer;
  balance = refl;
  exclusive = device-Exclusive;
}

between-Unheld : Unheld device 200 30
unfolding covers
between-Unheld free x w = ground arith
between-Unheld deferred x w = ground arith
between-Unheld (reserved i) x w = ground arith
between-Unheld (allocated i) x w = ground arith

two-ne : ◌≢◌ {A = ℕ} 2 0
two-ne e = omega arith

find_free_block-Found_example :
    (block : ℕ) × (s' : State) × (find_free_block device 2 16 true ≡ some (block, s'))
    × Found device 2 16 device-IsSound (omega arith) s' block
find_free_block-Found_example =
    find_free_block-Found device 2 16 device-IsSound (omega arith) (omega arith) true

free_extent_blocks-Gives_example :
    (s' : State) × (free_extent_blocks device 0 200 30 true ≡ some s')
    × IsSound s'
    × (s'.tblocks ≡ device.tblocks)
    × (s'.sb_blocks + 30 ≡ device.sb_blocks)
    × KeepsRest device s'
    × Gives device s' deferred 200 30
free_extent_blocks-Gives_example =
    free_extent_blocks-Gives device 0 200 30 true device-IsSound between-Unheld (omega arith)
      (omega arith) (omega arith)

free_layer_extent-Returned_example :
    (t : ℕ) × (s' : State) × (free_layer_extent device 2 90 100 ≡ some (t, s'))
    × (t + s'.sb_blocks ≡ device.sb_blocks)
    × Returned device s' 2 90 100
free_layer_extent-Returned_example =
    free_layer_extent-Returned device 2 90 100 device-IsSound two-ne (omega arith) (omega arith)

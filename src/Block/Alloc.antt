-- ===== src/Block/Alloc.antt =====
-- `lc_allocateBlock` moves blocks out of the list that it allocates from.
use mathlib.Core.Option
use lcfs.Prelude.{ℕ, ◌+◌, ◌≤◌, ◌<◌, ◌≡◌, refl, arith, none, some}
use lcfs.ExtentList.View.{IsSpaceList-AllFit, IsSpaceList-IsSpaceBag, IsSpaceList-NoOverlap}
use lcfs.Block.{State, invalid_block, first_fit, take_global, allocate_global}
use lcfs.Block.Fit.{
  fit_start, fit_rest, first_fit-fit, fit-within, fit-covers, total-fit_rest, covers-fit_rest,
  fit_rest-IsSpaceList,
}
use lcfs.Block.Owner.{
  free, deferred, reserved, allocated, IsSound, Takes, Takes-Exclusive, Takes-Unheld, Unheld,
}

-- The state after `count` blocks left the global pool.
abbrev pub drawn : State → (count : ℕ) → State
drawn s count = record s { extents = fit_rest s.extents count; sb_blocks = s.sb_blocks + count }

abbrev pub drawn_block : State → (count : ℕ) → ℕ
drawn_block s count = Option.get_or (fit_start s.extents count) invalid_block

module _ (s : State) (count : ℕ) (sound : IsSound s) (c : 0 < count) where
  fit_eq :
      first_fit s.tblocks s.extents count
      ≡ some (Option.map (λ b. (b, fit_rest s.extents count)) (fit_start s.extents count))
  fit_eq =
      first_fit-fit s.tblocks count s.extents (omega (arith, sound.bound)) c
        (IsSpaceList-AllFit s.tblocks 1 s.extents (omega (arith, sound.bound)) sound.free_list)

  pub allocate_global-none :
      fit_start s.extents count ≡ none → allocate_global s count ≡ some (invalid_block, s)
  unfolding allocate_global take_global
  allocate_global-none f = rw (fit_eq, f) refl

  module _ {block : ℕ} (found : fit_start s.extents count ≡ some block) where
    pub block_within : (0 < block) × (block + count ≤ s.tblocks)
    block_within =
        fit-within s.tblocks count block c s.extents found
          (IsSpaceList-IsSpaceBag s.tblocks 1 s.extents (omega arith) sound.free_list)

    pub allocate_global-some :
        s.sb_blocks + count < s.tblocks → allocate_global s count ≡ some (block, drawn s count)
    unfolding allocate_global take_global
    allocate_global-some room =
        let w = block_within in let b = sound.bound in rw (fit_eq, found) (ground arith)

    pub drawn-Takes : Takes s (drawn s count) free block count
    drawn-Takes free x =
        covers-fit_rest s.tblocks count block c s.extents x found
          (IsSpaceList-NoOverlap s.tblocks 1 s.extents sound.free_list)
    drawn-Takes deferred x = refl
    drawn-Takes (reserved i) x = refl
    drawn-Takes (allocated i) x = refl

    pub drawn-IsSound : IsSound (drawn s count)
    drawn-IsSound = record {
      bound = sound.bound;
      free_list = fit_rest-IsSpaceList s.tblocks count block c s.extents 1 sound.free_list;
      deferred_list = sound.deferred_list;
      layers = sound.layers;
      balance =
          omega (arith, total-fit_rest s.tblocks count block c s.extents found, sound.balance);
      exclusive = Takes-Exclusive s (drawn s count) free block count drawn-Takes sound.exclusive;
    }

    pub drawn-Unheld : Unheld (drawn s count) block count
    drawn-Unheld =
        Takes-Unheld s (drawn s count) free block count drawn-Takes sound.exclusive
          (λ x w. fit-covers s.tblocks count block c s.extents x found w)

-- ===== src/Block/Find.antt =====
-- `lc_findFreeBlock` for a layer: what it returns, and who holds which block afterwards.
use mathlib.Core.Option
use lcfs.Prelude.{
  ℕ, ◌+◌, ◌≤◌, ◌<◌, ◌^◌, ◌≡◌, ◌⊎◌, refl, Bool, not, ◌||◌, ltb, arith, none, some, if◌then◌else◌,
  inl, inr, Bool-cases, Option-cases,
}
use lcfs.ExtentList.View.{IsSpaceBag-AllFit}
use lcfs.Block.{
  State, invalid_block, block_reserve, take_reserved, allocate_reserved, take_chunk, reserve_sized,
  reserve_chunk, find_free_block, first_fit,
}
use lcfs.Block.Fit.{
  fit_start, fit_rest, first_fit-fit, fit-within, fit-covers, total-fit_rest, covers-fit_rest,
  fit_rest-IsSpaceBag, fit_rest-NoOverlap, AllSmaller, fit_start-none,
}
use lcfs.Block.Owner.{
  free, deferred, reserved, allocated, IsSound, Unheld, Takes, Takes-Exclusive, Takes-Unheld,
}
use lcfs.Block.Alloc.{
  drawn, allocate_global-none, allocate_global-some, drawn-Takes, drawn-IsSound, drawn-Unheld,
  block_within,
}
use lcfs.Block.Allocated.{Allocated, Given-Chunk, chunk-Allocated}
use lcfs.Block.Moves.{update_fs-IsSound, update_fs-KeepsRest}
use lcfs.Block.Reserve.{without_reserved, reserved-Given, take_chunk-Chunk}

module _ (s : State) (i count : ℕ) (sound : IsSound s) (c : 0 < count) where
  fit_eq :
      first_fit s.tblocks (s.fs i).extents count
      ≡ some (
          Option.map (λ b. (b, fit_rest (s.fs i).extents count)) (fit_start (s.fs i).extents count))
  fit_eq =
      let tb : s.tblocks < 2 ^ 48 = omega (arith, sound.bound) in
      first_fit-fit s.tblocks count (s.fs i).extents tb c
        (IsSpaceBag-AllFit s.tblocks (s.fs i).extents tb (sound.layers i).bag)

  allocate_reserved-none :
      fit_start (s.fs i).extents count ≡ none
      → allocate_reserved s i count ≡ some (invalid_block, s)
  unfolding allocate_reserved take_reserved
  allocate_reserved-none f = rw (fit_eq, f) refl

  module _ (block : ℕ) (found : fit_start (s.fs i).extents count ≡ some block) where
    without_reserved-Takes : Takes s (without_reserved s i count) (reserved i) block count
    without_reserved-Takes free x = refl
    without_reserved-Takes deferred x = refl
    without_reserved-Takes (reserved j) x = ground (
      arith,
      covers-fit_rest s.tblocks count block c (s.fs i).extents x found (sound.layers i).apart,
    )
    without_reserved-Takes (allocated j) x = ground arith

    without_reserved-IsSound : IsSound (without_reserved s i count)
    without_reserved-IsSound =
        let l = sound.layers i in
        let size = total-fit_rest s.tblocks count block c (s.fs i).extents found in
        update_fs-IsSound s i _ sound
          (record {
            bag = fit_rest-IsSpaceBag s.tblocks count block c _ l.bag;
            apart = fit_rest-NoOverlap s.tblocks count block c _ found l.apart;
            reserve = omega (arith, size, l.reserve);
            ordered = l.ordered;
          })
          (Takes-Exclusive s (without_reserved s i count) (reserved i) block count
            without_reserved-Takes sound.exclusive)

    without_reserved-Unheld : Unheld (without_reserved s i count) block count
    without_reserved-Unheld =
        Takes-Unheld s (without_reserved s i count) (reserved i) block count without_reserved-Takes
          sound.exclusive (λ x w. fit-covers s.tblocks count block c (s.fs i).extents x found w)

    allocate_reserved-Allocated :
        (s' : State) × (allocate_reserved s i count ≡ some (block, s'))
        × Allocated s s' i block count
    unfolding allocate_reserved take_reserved
    allocate_reserved-Allocated =
        let l = sound.layers i in
        let size = total-fit_rest s.tblocks count block c (s.fs i).extents found in
        let w = fit-within s.tblocks count block c (s.fs i).extents found l.bag in
        let (s', run, g) =
          reserved-Given (without_reserved s i count) i block count without_reserved-IsSound
            without_reserved-Unheld w.0 c w.1 in
        let room : count ≤ (s.fs i).reserved_blocks = omega (arith, size, l.reserve) in
        (
          s',
          rw (fit_eq, found) (ground (arith, run)),
          chunk-Allocated s (without_reserved s i count) s' i (reserved i) block count count
              (inr refl) sound without_reserved-Takes
              (λ x h. fit-covers s.tblocks count block c (s.fs i).extents x found h)
              without_reserved-Unheld refl (update_fs-KeepsRest s i _ refl)
              (Given-Chunk (without_reserved s i count) s' i block count g) w.0 (omega arith) w.1,
        )

  -- The chunk of `r` blocks.
  chunk_lem :
      (r block : ℕ)
      → count ≤ r
      → fit_start s.extents r ≡ some block
      → (s' : State) × (take_chunk (drawn s r) i block count r ≡ some s')
        × Allocated s s' i block count
  chunk_lem r block l found =
      let r-pos : 0 < r = omega arith in
      let w = block_within s r sound r-pos found in
      let unheld = drawn-Unheld s r sound r-pos found in
      let (s', run, k) =
        take_chunk-Chunk (drawn s r) i block count r (drawn-IsSound s r sound r-pos found) unheld
          w.0 c l w.1 in
      (
        s',
        run,
        chunk-Allocated s (drawn s r) s' i free block count r (inl refl) sound
            (drawn-Takes s r sound r-pos found)
            (λ x h. fit-covers s.tblocks r block r-pos s.extents x found h) unheld refl (λ j. refl)
            k w.0 l w.1,
      )

  -- The result of a search: no extent of the reserve or of the pool has `count` blocks, or they are
  -- allocated.
  pub Found : State → ℕ → Type 0
  Found s' block =
      ((block ≡ invalid_block)
        × (s' ≡ s)
        × AllSmaller count (s.fs i).extents
        × AllSmaller count s.extents)
      ⊎ Allocated s s' i block count

  module _ (room : s.sb_blocks + count + block_reserve < s.tblocks) where
    sized-Found :
        (rsize : ℕ)
        → count ≤ rsize
        → rsize ≤ count + block_reserve
        → AllSmaller count (s.fs i).extents
        → (block : ℕ) × (s' : State) × (reserve_sized s i count rsize ≡ some (block, s'))
          × Found s' block
    unfolding reserve_sized Found
    sized-Found rsize l h none_reserved =
        let bound = sound.bound in
        let tried = allocate_global-none s rsize sound (omega arith) in
        elim (Option-cases (fit_start s.extents rsize)) [
          | inr (block, f) ↦
              let run = allocate_global-some s rsize sound (omega arith) f (omega arith) in
              let (s', take, a) = chunk_lem rsize block l f in
              let range = a.range in (block, s', rw run (ground (arith, take)), inr a)
          | inl f ↦ elim (Bool-cases (ltb count rsize)) [
            | inr same ↦
                let e : rsize ≡ count = ground arith in
                let small = fit_start-none count s.extents (rw e at f) in
                (
                  invalid_block,
                  s,
                  rw (tried f) (rw same refl),
                  inl (refl, refl, none_reserved, small),
                )
            | inl again ↦ elim (Option-cases (fit_start s.extents count)) [
              | inl g ↦ (
                invalid_block,
                s,
                rw (tried f) (rw again (rw (allocate_global-none s count sound c g) refl)),
                inl (refl, refl, none_reserved, fit_start-none count s.extents g),
              )
              | inr (block, g) ↦
                  let run = allocate_global-some s count sound c g (omega arith) in
                  let (s', take, a) = chunk_lem count block (omega arith) g in
                  let range = a.range in
                  (block, s', rw (tried f) (rw again (rw run (ground (arith, take)))), inr a)
            ]
          ]
        ]

    reserve_chunk-Found :
        (reserve : Bool)
        → AllSmaller count (s.fs i).extents
        → (block : ℕ) × (s' : State) × (reserve_chunk s i count reserve ≡ some (block, s'))
          × Found s' block
    unfolding reserve_chunk
    reserve_chunk-Found reserve none_reserved =
        sized-Found (if not reserve || ltb block_reserve count then count else block_reserve)
          (ground arith) (ground arith) none_reserved

    -- In a sound state, a layer `i` that asks for `count > 0` blocks, on a device that keeps more
    -- than `count` and LC_BLOCK_RESERVE blocks out of use, stops at no `assert`. Either no extent
    -- of its reserve and of the pool has `count` blocks, the result is LC_INVALID_BLOCK and the
    -- state stays as it was; or the result is a range of the device that the pool or the reserve
    -- held. Then, of the pool, the deferred blocks and the layers' reserves and allocated blocks,
    -- none holds the range any more but, unless the layer is the global one, the layer's list of
    -- allocated blocks; the pool and the reserve together keep all their other blocks, every other
    -- of these lists keeps the blocks that it holds, the list of freed blocks of every layer, with
    -- the number of those, the flags fs_dirty and fs_frozen and its extents on the device, stays,
    -- and the state is sound.
    pub find_free_block-Found :
        (reserve : Bool)
        → (block : ℕ) × (s' : State) × (find_free_block s i count reserve ≡ some (block, s'))
          × Found s' block
    unfolding find_free_block Found
    find_free_block-Found reserve = elim (Option-cases (fit_start (s.fs i).extents count)) [
      | inl f ↦
          let smaller = fit_start-none count (s.fs i).extents f in
          let (block, s', run, found) = reserve_chunk-Found reserve smaller in
          (block, s', rw (allocate_reserved-none f) run, found)
      | inr (block, f) ↦
          let (s', run, a) = allocate_reserved-Allocated block f in
          let range = a.range in
          let bound = sound.bound in (block, s', rw run (ground arith), inr a)
    ]

-- ===== src/Block/FreeLayer.antt =====
-- `lc_freeLayerExtent`: a layer gives back the part of a range that it allocated itself.
use lcfs.Prelude.{
  ℕ, zero, suc, ◌+◌, ◌-◌, ◌≤◌, ◌<◌, ◌^◌, ◌≡◌, ◌≢◌, refl, ◌∙◌, true, false, not, ◌&&◌, ◌||◌, List,
  ◌==◌, ltb, arith, some, if◌then◌else◌, inl, inr, Bool-cases,
}
use lcfs.Prelude.Words.{add64}
use lcfs.Extent.{Extent}
use lcfs.ExtentList.View.{within, covers, total, IsSpaceList}
use lcfs.ExtentList.Remove.{remove_extent-space}
use lcfs.Block.{State, update_fs}
use lcfs.Block.Release.{free_layer_round, free_layer_loop, free_layer_extent}
use lcfs.Block.Owner.{
  Place, free, deferred, reserved, allocated, holds, IsSound, KeepsRest, KeepsRest-trans, Gives,
  Takes, Takes-Exclusive, Takes-Unheld, same_place,
}
use lcfs.Block.Moves.{update_fs-IsSound, update_fs-KeepsRest}
use lcfs.Block.Free.{free_extent_blocks-Gives}

-- The blocks of the range that the layer had allocated wait for a commit; everything else is as
-- before.
pub record Returned (s s' : State) (i block count : ℕ) : Type 0 where
  pub sound : IsSound s'
  pub device : s'.tblocks ≡ s.tblocks
  pub rest : KeepsRest s s'
  pub moved :
      (p : Place) (x : ℕ)
      → holds s' p x ≡ (
          if same_place (allocated i) p
          then holds s p x && not (within block count x)
          else if same_place deferred p
          then holds s p x || (within block count x && holds s (allocated i) x)
          else holds s p x)

abbrev pub without : State → ℕ → List Extent → State
without s i es = update_fs s i (record (s.fs i) { aextents = es })

-- The state after a round took extents `es` from the layer's list.
module _ (s : State) (i block f : ℕ) (es : List Extent) (sound : IsSound s)
    (gone : (x : ℕ) → covers es x ≡ (covers (s.fs i).aextents x && not (within block f x)))
    (ordered : IsSpaceList s.tblocks 1 es) where
  removed-Takes : Takes s (without s i es) (allocated i) block f
  removed-Takes free x = refl
  removed-Takes deferred x = refl
  removed-Takes (reserved j) x = ground arith
  removed-Takes (allocated j) x = ground (arith, gone x)

  removed-IsSound : IsSound (without s i es)
  removed-IsSound =
      let l = sound.layers i in
      update_fs-IsSound s i _ sound
        (record { bag = l.bag; apart = l.apart; reserve = l.reserve; ordered = ordered })
        (Takes-Exclusive s (without s i es) (allocated i) block f removed-Takes sound.exclusive)

next_round :
    (s s₁ s' : State) (i block count step : ℕ)
    → step ≤ count
    → Returned s s₁ i block step
    → Returned s₁ s' i (block + step) (count - step)
    → Returned s s' i block count
next_round s s₁ s' i block count step l a b = record {
  sound = b.sound;
  device = b.device ∙ a.device;
  rest = KeepsRest-trans s s₁ s' a.rest b.rest;
  moved = λ p x. ground (arith, b.moved p x, a.moved p x, a.moved (allocated i) x);
}

-- Nothing was taken off: the round passes over one block, which the layer did not allocate.
passed_over :
    (s : State) (i block : ℕ) (es : List Extent)
    → IsSound s
    → covers (s.fs i).aextents block ≡ false
    → (gone : (x : ℕ) → covers es x ≡ (covers (s.fs i).aextents x && not (within block 0 x)))
    → IsSpaceList s.tblocks 1 es
    → Returned s (without s i es) i block 1
passed_over s i block es sound away gone ordered = record {
  sound = removed-IsSound s i block 0 es sound gone ordered;
  device = refl;
  rest = update_fs-KeepsRest s i _ refl;
  moved = moved;
}
  where
    one : (x : ℕ) → within block 1 x ≡ true → covers (s.fs i).aextents x ≡ false
    one x w = let e : x ≡ block = ground arith in rw e away

    moved :
        (p : Place) (x : ℕ)
        → holds (without s i es) p x ≡ (
            if same_place (allocated i) p
            then holds s p x && not (within block 1 x)
            else if same_place deferred p
            then holds s p x || (within block 1 x && holds s (allocated i) x)
            else holds s p x)
    moved free x = refl
    moved deferred x = ground (arith, one x)
    moved (reserved j) x = ground arith
    moved (allocated j) x = ground (arith, gone x, one x)

-- The blocks that were taken off are given back.
gave_back :
    (s s' : State) (i block f : ℕ) (es : List Extent)
    → (sound : IsSound s) → ((x : ℕ) → within block f x ≡ true → covers (s.fs i).aextents x ≡ true)
    → (gone : (x : ℕ) → covers es x ≡ (covers (s.fs i).aextents x && not (within block f x)))
    → (ordered : IsSpaceList s.tblocks 1 es) → IsSound s'
    → s'.tblocks ≡ s.tblocks
    → KeepsRest (without s i es) s'
    → Gives (without s i es) s' deferred block f
    → Returned s s' i block f
gave_back s s' i block f es sound was gone ordered sound' device kept gives = record {
  sound = sound';
  device = device;
  rest = KeepsRest-trans s (without s i es) s' (update_fs-KeepsRest s i _ refl) kept;
  moved = moved;
}
  where
    moved :
        (p : Place) (x : ℕ)
        → holds s' p x ≡ (
            if same_place (allocated i) p
            then holds s p x && not (within block f x)
            else if same_place deferred p
            then holds s p x || (within block f x && holds s (allocated i) x)
            else holds s p x)
    moved free x = ground (arith, gives free x)
    moved deferred x = ground (arith, gives deferred x, was x)
    moved (reserved j) x = ground (arith, gives (reserved j) x)
    moved (allocated j) x = ground (arith, gives (allocated j) x, gone x)

round_lem :
    (s : State) (i block count : ℕ)
    → IsSound s
    → 0 < block
    → 0 < count
    → block + count ≤ s.tblocks
    → (step : ℕ) × (freed : ℕ) × (s' : State) × (free_layer_round s i block count
        ≡ some (step, freed, s'))
      × (0 < step)
      × (step ≤ count)
      × (freed + s'.sb_blocks ≡ s.sb_blocks)
      × Returned s s' i block step
unfolding free_layer_round
round_lem s i block count sound p c b =
    let bound = sound.bound in
    let (f, es, run, le, found, end, was, gone, size, ordered) =
      remove_extent-space s.tblocks 1 block count (s.fs i).aextents (omega arith) c
        (sound.layers i).ordered in
    let s₁ = without s i es in
    let sound₁ = removed-IsSound s i block f es sound gone ordered in
    elim (Bool-cases (ltb 0 f)) [
      | inl taken ↦
          let unheld =
            Takes-Unheld s s₁ (allocated i) block f
              (removed-Takes s i block f es sound gone ordered) sound.exclusive was in
          let (s₂, freed_run, sound₂, device, size₂, kept, gives) =
            free_extent_blocks-Gives s₁ 0 block f true sound₁ unheld p (ground arith)
              (omega arith) in
          (
            f,
            f,
            s₂,
            rw run (rw taken (rw freed_run refl)),
            ground arith,
            le,
            omega arith,
            gave_back s s₂ i block f es sound was gone ordered sound₂ device kept gives,
          )
      | inr passed ↦
          let e : f ≡ 0 = ground arith in
          (
            1,
            0,
            s₁,
            rw run (rw passed refl),
            omega arith,
            c,
            omega arith,
            passed_over s i block es sound (found ∙ passed) (rw e at gone) ordered,
          )
    ]

free_layer_loop-Returned :
    (fuel : ℕ) (s : State) (i block count acc : ℕ)
    → IsSound s
    → 0 < block
    → block + count ≤ s.tblocks
    → count ≤ fuel
    → acc + s.sb_blocks < 2 ^ 64
    → (total : ℕ) × (s' : State) × (free_layer_loop fuel s i block count acc ≡ some (total, s'))
      × (total + s'.sb_blocks ≡ acc + s.sb_blocks)
      × Returned s s' i block count
unfolding free_layer_loop
free_layer_loop-Returned zero s i block count acc sound p b l w =
    let e : count ≡ 0 = omega arith in
    (
      acc,
      s,
      ground arith,
      refl,
      record { sound = sound; device = refl; rest = λ j. refl; moved = λ q x. ground arith },
    )
free_layer_loop-Returned (suc fuel) s i block count acc sound p b l w =
    elim (Bool-cases (count == 0)) [
      | inl done ↦ (
        acc,
        s,
        rw done refl,
        refl,
        record { sound = sound; device = refl; rest = λ j. refl; moved = λ q x. ground arith },
      )
      | inr more ↦
          let bound = sound.bound in
          let (step, freed, s₁, run, pos, le, size, a) =
            round_lem s i block count sound p (ground arith) b in
          let device = a.device in
          let (total, s₂, rest, size₂, r) =
            free_layer_loop-Returned fuel s₁ i (block + step) (count - step) (acc + freed) a.sound
              (omega arith) (omega arith) (omega arith) (omega arith) in
          let block-word : add64 block step ≡ block + step = omega arith in
          let acc-word : add64 acc freed ≡ acc + freed = omega arith in
          (
            total,
            s₂,
            rw (more, run) (rw (block-word, acc-word) rest),
            omega arith,
            next_round s s₁ s₂ i block count step le a r,
          )
    ]

-- In a sound state, for a layer other than the global file system, giving back a range of the
-- device that does not start at block 0 stops at no `assert` and ends: exactly the blocks of the
-- range that the layer had allocated leave its list and wait for a commit, whatever the other
-- blocks of the range are. The pool, the reserves and the allocated blocks of other layers hold
-- what they held, the list of freed blocks of every layer, with the number of those, the flags
-- fs_dirty and fs_frozen and its extents on the device, stays, in use are so many blocks less as
-- the function returns, and the state is sound.
pub free_layer_extent-Returned :
    (s : State) (i block count : ℕ)
    → IsSound s
    → i ≢ 0
    → 0 < block
    → block + count ≤ s.tblocks
    → (total : ℕ) × (s' : State) × (free_layer_extent s i block count ≡ some (total, s'))
      × (total + s'.sb_blocks ≡ s.sb_blocks)
      × Returned s s' i block count
unfolding free_layer_extent
free_layer_extent-Returned s i block count sound ne p b =
    let bound = sound.bound in
    let balance = sound.balance in
    let (total, s', run, size, r) =
      free_layer_loop-Returned count s i block count 0 sound p b (omega arith) (omega arith) in
    (total, s', ground (arith, run), omega arith, r)

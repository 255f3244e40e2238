-- ===== src/Block/Free.antt =====
-- Blocks that are freed: what `lc_freeExtentBlocks` and `lc_freeLayerExtent` do to the lists.
use lcfs.Prelude.{
  ℕ, ◌+◌, ◌-◌, ◌≤◌, ◌<◌, ◌≡◌, refl, ◌∙◌, Bool, true, false, ◌∷◌, ◌++◌, arith, some, inl, inr,
  Bool-cases,
}
use lcfs.ExtentList.View.{within, covers, total, IsSpaceList-IsSpaceBag, IsSpaceList-NoOverlap}
use lcfs.ExtentList.Count.{
  total-le, covers-append, total-append, IsSpaceBag-append, NoOverlap-append,
}
use lcfs.ExtentList.Insert.{
  space_extent, insert, add_extent-insert, insert-IsSpaceList, covers-insert, total-insert,
}
use lcfs.Block.{State, add_space_extent, mark_extents_dirty}
use lcfs.Block.Release.{free_extent_blocks}
use lcfs.Block.Owner.{
  free, deferred, reserved, allocated, IsSound, Unheld, KeepsRest, Gives, Gives-Exclusive,
}
use lcfs.Block.Moves.{same_lists-IsSound, update_fs-KeepsRest}

-- A range that nothing holds is in use.
pub Unheld-le :
    (s : State) (block count : ℕ)
    → IsSound s
    → Unheld s block count
    → 0 < block
    → 0 < count
    → block + count ≤ s.tblocks
    → count ≤ s.sb_blocks
unfolding total
Unheld-le s block count sound unheld p c b =
    let free_bag = IsSpaceList-IsSpaceBag s.tblocks 1 s.extents (omega arith) sound.free_list in
    let wait_bag =
      IsSpaceList-IsSpaceBag s.tblocks 1 s.fextents (omega arith) sound.deferred_list in
    let bag = IsSpaceBag-append s.tblocks s.extents s.fextents free_bag wait_bag in
    let apart =
      NoOverlap-append s.tblocks s.extents s.fextents
        (IsSpaceList-NoOverlap s.tblocks 1 s.extents sound.free_list)
        (IsSpaceList-NoOverlap s.tblocks 1 s.fextents sound.deferred_list)
        (λ x h. sound.exclusive free deferred (λ e. cc) x h) in
    let away : (x : ℕ) → within block count x ≡ true → covers (s.extents ++ s.fextents) x ≡ false =
      λ x w.
        ground (
          arith,
          covers-append s.tblocks s.extents s.fextents x,
          unheld free x,
          unheld deferred x,
        ) in
    let all =
      total-le s.tblocks (space_extent block count ∷ (s.extents ++ s.fextents)) (refl, p, c, b, bag)
        (away, apart) in
    omega (arith, all, total-append s.tblocks s.extents s.fextents, sound.balance)

-- The state after the range was freed, with the layer `j` marked or not.
abbrev given_back : State → (block count : ℕ) → State
given_back s block count = record s {
  sb_blocks = s.sb_blocks - count;
  fextents = insert block count s.fextents;
}

-- In a sound state, take a range of the device that is not empty, does not start at block 0, and is
-- held by neither the pool, the deferred blocks nor any layer's reserve or allocated blocks.
-- Freeing it stops at no `assert`; afterwards the deferred blocks hold it, too, these lists hold
-- nothing else that is new and lose nothing, the list of freed blocks of every layer, with the
-- number of those, the flags fs_dirty and fs_frozen and its extents on the device, stays, in use
-- are so many blocks less, and the state is sound.
pub free_extent_blocks-Gives :
    (s : State) (j block count : ℕ) (lock : Bool)
    → IsSound s
    → Unheld s block count
    → 0 < block
    → 0 < count
    → block + count ≤ s.tblocks
    → (s' : State) × (free_extent_blocks s j block count lock ≡ some s')
      × IsSound s'
      × (s'.tblocks ≡ s.tblocks)
      × (s'.sb_blocks + count ≡ s.sb_blocks)
      × KeepsRest s s'
      × Gives s s' deferred block count
unfolding free_extent_blocks add_space_extent mark_extents_dirty
free_extent_blocks-Gives s j block count lock sound unheld p c b =
    let room = Unheld-le s block count sound unheld p c b in
    let bound = sound.bound in
    let added =
      add_extent-insert s.tblocks 1 block count s.fextents (omega arith) c b sound.deferred_list
        (unheld deferred) in
    let s₁ = given_back s block count in
    let gives₁ = given_back-Gives in
    let sound₁ : IsSound s₁ = record {
      bound = sound.bound;
      free_list = sound.free_list;
      deferred_list =
          insert-IsSpaceList s.tblocks 1 block count s.fextents c p b sound.deferred_list
            (unheld deferred);
      layers = sound.layers;
      balance = omega (arith, total-insert block count s.fextents, sound.balance);
      exclusive = Gives-Exclusive s s₁ deferred block count gives₁ unheld sound.exclusive;
    } in
    elim (Bool-cases lock) [
      | inr held ↦ (s₁, ground (arith, added), sound₁, refl, omega arith, λ k. refl, gives₁)
      | inl taken ↦
          let (sound₂, same) =
            same_lists-IsSound s₁ j (record (s₁.fs j) { extents_dirty = true }) refl refl refl
              sound₁ in
          (
            mark_extents_dirty s₁ j,
            ground (arith, added),
            sound₂,
            refl,
            omega arith,
            update_fs-KeepsRest s₁ j _ refl,
            λ q x. same q x ∙ gives₁ q x,
          )
    ]
  where
    given_back-Gives : Gives s (given_back s block count) deferred block count
    given_back-Gives free x = refl
    given_back-Gives deferred x = covers-insert block count s.fextents x
    given_back-Gives (reserved k) x = refl
    given_back-Gives (allocated k) x = refl

-- ===== src/Block/Moves.antt =====
-- The steps by which a layer takes and gives blocks, each with the invariant.
use lcfs.Prelude.{
  ℕ, ◌+◌, ◌≤◌, ◌<◌, ◌^◌, ◌≡◌, refl, ap, sym, ◌∙◌, ◌==◌, arith, some, inl, inr, Bool-cases,
}
use lcfs.Prelude.Words.{add64}
use lcfs.ExtentList.View.{covers}
use lcfs.ExtentList.Insert.{insert, add_extent-insert, insert-IsSpaceList, covers-insert}
use lcfs.ExtentList.Unsorted.{
  insert_first, add_extent-insert_first, insert_first-IsSpaceBag, insert_first-NoOverlap,
  covers-insert_first, total-insert_first,
}
use lcfs.ExtentList.Count.{total-le}
use lcfs.Block.{Fs, State, update_fs, add_space_extent, track_allocated, keep_reserved}
use lcfs.Block.Owner.{
  Place, free, deferred, reserved, allocated, holds, IsLayer, IsSound, Exclusive, Unheld, rest_of,
  KeepsRest, Gives, Gives-Exclusive,
}

-- One layer is replaced.
pub update_fs-IsSound :
    (s : State) (i : ℕ) (f : Fs)
    → IsSound s
    → IsLayer s.tblocks f
    → Exclusive (update_fs s i f)
    → IsSound (update_fs s i f)
update_fs-IsSound s i f sound layer e = record {
  bound = sound.bound;
  free_list = sound.free_list;
  deferred_list = sound.deferred_list;
  layers = λ j. elim (Bool-cases (j == i)) [
    | inl here ↦ rw here layer
    | inr there ↦ rw there (sound.layers j)
  ];
  balance = sound.balance;
  exclusive = e;
}

-- A layer is replaced by one with the same list of freed blocks, flags and so on.
pub update_fs-KeepsRest :
    (s : State) (i : ℕ) (f : Fs) → rest_of f ≡ rest_of (s.fs i) → KeepsRest s (update_fs s i f)
update_fs-KeepsRest s i f same j = elim (Bool-cases (j == i)) [
  | inl here ↦ let e : j ≡ i = ground arith in rw here (same ∙ ap (λ k. rest_of (s.fs k)) (sym e))
  | inr there ↦ rw there refl
]

-- A layer is replaced by one with the same lists.
pub same_lists-IsSound :
    (s : State) (i : ℕ) (f : Fs)
    → f.extents ≡ (s.fs i).extents
    → f.aextents ≡ (s.fs i).aextents
    → f.reserved_blocks ≡ (s.fs i).reserved_blocks
    → IsSound s
    → IsSound (update_fs s i f) × ((p : Place) (x : ℕ) → holds (update_fs s i f) p x ≡ holds s p x)
same_lists-IsSound s i f r a n sound =
    let l = sound.layers i in
    let layer : IsLayer s.tblocks f = record {
      bag = rw r l.bag;
      apart = rw r l.apart;
      reserve = rw (r, n) l.reserve;
      ordered = rw a l.ordered;
    } in
    (
      update_fs-IsSound s i f sound layer
          (λ p q ne x h. ground (arith, same p x, same q x, sound.exclusive p q ne x)),
      same,
    )
  where
    same : (p : Place) (x : ℕ) → holds (update_fs s i f) p x ≡ holds s p x
    same free x = refl
    same deferred x = refl
    same (reserved j) x = ground (arith, ap (λ t. covers t x) r)
    same (allocated j) x = ground (arith, ap (λ t. covers t x) a)

pub Unheld-same :
    (s s' : State) (start count : ℕ)
    → ((p : Place) (x : ℕ) → holds s' p x ≡ holds s p x)
    → Unheld s start count
    → Unheld s' start count
Unheld-same s s' start count same u p x w = same p x ∙ u p x w

-- The blocks of a range that nothing holds become a layer's allocated blocks.
module _ (s : State) (i start count : ℕ) (sound : IsSound s) (unheld : Unheld s start count)
    (p : 0 < start) (c : 0 < count) (b : start + count ≤ s.tblocks) where
  tb : s.tblocks < 2 ^ 48
  tb = omega (arith, sound.bound)

  abbrev pub with_allocated : State
  with_allocated =
      update_fs s i (record (s.fs i) { aextents = insert start count (s.fs i).aextents })

  pub track_allocated-eq_some : track_allocated s i start count ≡ some with_allocated
  unfolding track_allocated add_space_extent
  track_allocated-eq_some =
      let added =
        add_extent-insert s.tblocks 1 start count (s.fs i).aextents tb c b (sound.layers i).ordered
          (unheld (allocated i)) in
      let bound = sound.bound in ground (arith, added)

  pub with_allocated-KeepsRest : KeepsRest s with_allocated
  with_allocated-KeepsRest = update_fs-KeepsRest s i _ refl

  pub with_allocated-Gives : Gives s with_allocated (allocated i) start count
  with_allocated-Gives free x = refl
  with_allocated-Gives deferred x = refl
  with_allocated-Gives (reserved j) x = ground arith
  with_allocated-Gives (allocated j) x =
      ground (arith, covers-insert start count (s.fs i).aextents x)

  pub with_allocated-IsSound : IsSound with_allocated
  with_allocated-IsSound =
      let l = sound.layers i in
      update_fs-IsSound s i _ sound
        (record {
          bag = l.bag;
          apart = l.apart;
          reserve = l.reserve;
          ordered =
              insert-IsSpaceList s.tblocks 1 start count _ c p b l.ordered (unheld (allocated i));
        })
        (Gives-Exclusive s with_allocated (allocated i) start count with_allocated-Gives unheld
          sound.exclusive)

  -- They go to a layer's reserve.
  abbrev pub with_reserved : State
  with_reserved = update_fs s i (record (s.fs i) {
    extents = insert_first start count (s.fs i).extents;
    reserved_blocks = (s.fs i).reserved_blocks + count;
  })

  pub keep_reserved-eq_some : keep_reserved s i start count ≡ some with_reserved
  unfolding keep_reserved add_space_extent
  keep_reserved-eq_some =
      let l = sound.layers i in
      let added = add_extent-insert_first s.tblocks start count (s.fs i).extents tb c b l.bag in
      let bound = sound.bound in
      let size = total-le s.tblocks (s.fs i).extents l.bag l.apart in
      let reserve = l.reserve in
      let word : add64 (s.fs i).reserved_blocks count ≡ (s.fs i).reserved_blocks + count =
        omega arith in
      ground (arith, added)

  pub with_reserved-Gives : Gives s with_reserved (reserved i) start count
  with_reserved-Gives free x = refl
  with_reserved-Gives deferred x = refl
  with_reserved-Gives (reserved j) x =
      ground (arith, covers-insert_first start count (s.fs i).extents x)
  with_reserved-Gives (allocated j) x = ground arith

  pub with_reserved-IsSound : IsSound with_reserved
  with_reserved-IsSound =
      let l = sound.layers i in
      update_fs-IsSound s i _ sound
        (record {
          bag = insert_first-IsSpaceBag s.tblocks start count _ p c b l.bag;
          apart = insert_first-NoOverlap start count _ (unheld (reserved i)) l.apart;
          reserve = omega (arith, total-insert_first start count (s.fs i).extents, l.reserve);
          ordered = l.ordered;
        })
        (Gives-Exclusive s with_reserved (reserved i) start count with_reserved-Gives unheld
          sound.exclusive)

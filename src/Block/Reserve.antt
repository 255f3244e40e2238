-- ===== src/Block/Reserve.antt =====
-- Allocation by a layer: `lc_findFreeBlock` with `layer` set, from the layer's reserve or from a
-- chunk of the global pool.
use lcfs.Prelude.{
  ℕ, ◌+◌, ◌-◌, ◌≤◌, ◌<◌, ◌≡◌, refl, ◌∙◌, not, ◌&&◌, ◌||◌, ◌==◌, ltb, arith, some, if◌then◌else◌,
  inl, inr, Bool-cases, ◌>>=◌,
}
use lcfs.Prelude.Words.{add64}
use lcfs.ExtentList.View.{within}
use lcfs.Block.{
  State, update_fs, track_allocated, keep_reserved, count_blocks, mark_extents_dirty, take_chunk,
}
use lcfs.Block.Fit.{fit_rest}
use lcfs.Block.Owner.{
  Place, reserved, allocated, holds, IsSound, Unheld, KeepsRest, KeepsRest-trans, same_place,
}
use lcfs.Block.Moves.{
  same_lists-IsSound, update_fs-KeepsRest, with_allocated-KeepsRest, with_allocated,
  track_allocated-eq_some, with_allocated-Gives, with_allocated-IsSound, with_reserved,
  keep_reserved-eq_some, with_reserved-Gives, with_reserved-IsSound,
}

-- What a layer holds after it allocated a range; the global file system does not list it.
pub record Given (s s' : State) (i start count : ℕ) : Type 0 where
  pub sound : IsSound s'
  pub device : s'.tblocks ≡ s.tblocks
  pub rest : KeepsRest s s'
  pub gives :
      (p : Place) (x : ℕ)
      → holds s' p x ≡ (
          if not (i == 0) && same_place (allocated i) p
          then within start count x || holds s p x
          else holds s p x)

module _ (s : State) (i start count : ℕ) (sound : IsSound s) (unheld : Unheld s start count)
    (p : 0 < start) (c : 0 < count) (b : start + count ≤ s.tblocks) where
  -- The part of `lc_allocateBlock` behind the reserve.
  pub reserved-Given :
      (s' : State) × ((if i == 0
          then some s
          else (track_allocated s i start count >>= λ t. some (count_blocks t i count)))
        ≡ some s')
      × Given s s' i start count
  unfolding count_blocks
  reserved-Given = elim (Bool-cases (i == 0)) [
    | inl root ↦ (
      s,
      rw root refl,
      record { sound = sound; device = refl; rest = λ j. refl; gives = λ q x. rw root refl },
    )
    | inr layer ↦
        let t = with_allocated s i start count sound unheld p c b in
        let t-IsSound = with_allocated-IsSound s i start count sound unheld p c b in
        let counted = same_lists-IsSound t i _ refl refl refl t-IsSound in
        (
          count_blocks t i count,
          rw (layer, track_allocated-eq_some s i start count sound unheld p c b) refl,
          record {
            sound = counted.0;
            device = refl;
            rest = λ j.
                update_fs-KeepsRest t i _ refl j
                ∙ with_allocated-KeepsRest s i start count sound unheld p c b j;
            gives = λ q x.
                rw layer
                  (counted.1 q x ∙ with_allocated-Gives s i start count sound unheld p c b q x);
          },
        )
  ]

  -- The first part of the chunk.
  chunk-Given :
      (s' : State) × ((if i == 0
          then some s
          else (track_allocated s i start count >>= λ t. some (mark_extents_dirty t 0)))
        ≡ some s')
      × Given s s' i start count
  unfolding mark_extents_dirty
  chunk-Given = elim (Bool-cases (i == 0)) [
    | inl root ↦ (
      s,
      rw root refl,
      record { sound = sound; device = refl; rest = λ j. refl; gives = λ q x. rw root refl },
    )
    | inr layer ↦
        let t = with_allocated s i start count sound unheld p c b in
        let t-IsSound = with_allocated-IsSound s i start count sound unheld p c b in
        let marked = same_lists-IsSound t 0 _ refl refl refl t-IsSound in
        (
          mark_extents_dirty t 0,
          rw (layer, track_allocated-eq_some s i start count sound unheld p c b) refl,
          record {
            sound = marked.0;
            device = refl;
            rest = λ j.
                update_fs-KeepsRest t 0 _ refl j
                ∙ with_allocated-KeepsRest s i start count sound unheld p c b j;
            gives = λ q x.
                rw layer
                  (marked.1 q x ∙ with_allocated-Gives s i start count sound unheld p c b q x);
          },
        )
  ]

-- A layer's reserve less the front of its first fit.
abbrev pub without_reserved : State → ℕ → (count : ℕ) → State
without_reserved s i count = update_fs s i (record (s.fs i) {
  extents = fit_rest (s.fs i).extents count;
  reserved_blocks = (s.fs i).reserved_blocks - count;
})

-- What a layer holds after it took `rsize` blocks from `block`: `count` of them allocated, and
-- the others in its reserve.
pub record Chunk (s s' : State) (i block count rsize : ℕ) : Type 0 where
  pub sound : IsSound s'
  pub device : s'.tblocks ≡ s.tblocks
  pub rest : KeepsRest s s'
  pub gives :
      (p : Place) (x : ℕ)
      → holds s' p x ≡ (
          (not (i == 0) && same_place (allocated i) p && within block count x)
          || (same_place (reserved i) p && within (block + count) (rsize - count) x)
          || holds s p x)

count_blocks_same :
    (s : State) (i n : ℕ)
    → IsSound s
    → IsSound (count_blocks s i n)
      × ((p : Place) (x : ℕ) → holds (count_blocks s i n) p x ≡ holds s p x)
unfolding count_blocks
count_blocks_same s i n sound = same_lists-IsSound s i _ refl refl refl sound

count_blocks-KeepsRest : (s : State) (i n : ℕ) → KeepsRest s (count_blocks s i n)
unfolding count_blocks
count_blocks-KeepsRest s i n = update_fs-KeepsRest s i _ refl

-- The last part of the chunk, which may be empty.
record Kept (s s' : State) (i start count : ℕ) : Type 0 where
  sound : IsSound s'
  device : s'.tblocks ≡ s.tblocks
  rest : KeepsRest s s'
  gives :
      (p : Place) (x : ℕ)
      → holds s' p x ≡ ((same_place (reserved i) p && within start count x) || holds s p x)

keep_rest :
    (s : State) (i block count rsize : ℕ)
    → IsSound s
    → Unheld s (block + count) (rsize - count)
    → 0 < block
    → count ≤ rsize
    → block + rsize ≤ s.tblocks
    → (s' : State) × ((if ltb count rsize
          then keep_reserved s i (add64 block count) (rsize - count)
          else some s)
        ≡ some s')
      × Kept s s' i (block + count) (rsize - count)
keep_rest s i block count rsize sound unheld p l b = elim (Bool-cases (ltb count rsize)) [
  | inr all ↦ (
    s,
    rw all refl,
    record { sound = sound; device = refl; rest = λ j. refl; gives = λ q x. ground arith },
  )
  | inl more ↦
      let size : 0 < rsize - count = ground arith in
      let start : 0 < block + count = omega arith in
      let end : block + count + (rsize - count) ≤ s.tblocks = ground arith in
      let bound = sound.bound in
      let word : add64 block count ≡ block + count = omega arith in
      (
        with_reserved s i (block + count) (rsize - count) sound unheld start size end,
        rw (more, word)
            (keep_reserved-eq_some s i (block + count) (rsize - count) sound unheld start size end),
        record {
          sound =
              with_reserved-IsSound s i (block + count) (rsize - count) sound unheld start size end;
          device = refl;
          rest = update_fs-KeepsRest s i _ refl;
          gives = λ q x. ground (
            arith,
            with_reserved-Gives s i (block + count) (rsize - count) sound unheld start size end q x,
          );
        },
      )
]

pub take_chunk-Chunk :
    (s : State) (i block count rsize : ℕ)
    → IsSound s
    → Unheld s block rsize
    → 0 < block
    → 0 < count
    → count ≤ rsize
    → block + rsize ≤ s.tblocks
    → (s' : State) × (take_chunk s i block count rsize ≡ some s') × Chunk s s' i block count rsize
unfolding take_chunk
take_chunk-Chunk s i block count rsize sound unheld p c l b =
    let (s₁, run₁, g) =
      chunk-Given s i block count sound (λ q x w. unheld q x (ground arith)) p c (omega arith) in
    let (sound₂, same) = count_blocks_same s₁ i count g.sound in
    let device = g.device in
    let device₂ : (count_blocks s₁ i count).tblocks ≡ s.tblocks = unfold count_blocks in device in
    let unheld₂ : Unheld (count_blocks s₁ i count) (block + count) (rsize - count) =
      λ q x w. ground (arith, same q x, g.gives q x, unheld q x) in
    let (s₃, run₃, k) =
      keep_rest (count_blocks s₁ i count) i block count rsize sound₂ unheld₂ p l (omega arith) in
    (
      s₃,
      rw run₁ run₃,
      record {
        sound = k.sound;
        device = ◌∙◌ {a = s₃.tblocks} {b = (count_blocks s₁ i count).tblocks} k.device device₂;
        rest = KeepsRest-trans s s₁ s₃ g.rest (
            KeepsRest-trans s₁ (count_blocks s₁ i count) s₃ (count_blocks-KeepsRest s₁ i count)
              k.rest);
        gives = λ q x. ground (arith, k.gives q x, same q x, g.gives q x);
      },
    )

-- ===== src/Block/Allocated.antt =====
-- The two ways of `lc_findFreeBlock` to give a layer its blocks: from its reserve, or from a chunk of
-- the pool.
use lcfs.Prelude.{ℕ, ◌+◌, ◌≤◌, ◌<◌, ◌≡◌, ◌⊎◌, ◌∙◌, true, false, not, ◌||◌, ◌==◌, arith, inl, inr}
use lcfs.ExtentList.View.{within}
use lcfs.Block.{State}
use lcfs.Block.Owner.{
  Place, free, reserved, allocated, holds, IsSound, Unheld, KeepsRest, KeepsRest-trans, Takes,
  same_place,
}
use lcfs.Block.Reserve.{Given, Chunk}

-- The layer `i` got `count` blocks from `block`, which the pool or its reserve held. The layer lists
-- them as allocated, unless it is the global file system, and no other place holds them. The other
-- places and what the layers freed stay; the pool and the reserve lose no other block.
pub record Allocated (s s' : State) (i block count : ℕ) : Type 0 where
  pub sound : IsSound s'
  pub device : s'.tblocks ≡ s.tblocks
  pub rest : KeepsRest s s'
  pub range : (0 < block) × (block + count ≤ s.tblocks)
  pub available :
      (x : ℕ) → within block count x ≡ true → (holds s free x || holds s (reserved i) x) ≡ true
  pub listed : (x : ℕ) → within block count x ≡ true → holds s' (allocated i) x ≡ not (i == 0)
  pub alone :
      (p : Place) (x : ℕ)
      → within block count x ≡ true
      → same_place (allocated i) p ≡ false
      → holds s' p x ≡ false
  pub pool :
      (x : ℕ)
      → within block count x ≡ false
      → (holds s' free x || holds s' (reserved i) x) ≡ (holds s free x || holds s (reserved i) x)
  pub others :
      (p : Place) (x : ℕ)
      → same_place free p ≡ false
      → same_place (reserved i) p ≡ false
      → within block count x ≡ false
      → holds s' p x ≡ holds s p x

pub Given-Chunk :
    (s s' : State) (i block count : ℕ) → Given s s' i block count → Chunk s s' i block count count
Given-Chunk s s' i block count g = record {
  sound = g.sound;
  device = g.device;
  rest = g.rest;
  gives = λ p x. ground (arith, g.gives p x);
}

-- Both ways to allocate: a range leaves the pool or the reserve, and the layer takes it.
module _ (s s₁ s' : State) (i : ℕ) (origin : Place) (block count rsize : ℕ)
    (at : (origin ≡ free) ⊎ (origin ≡ reserved i)) (sound : IsSound s)
    (takes : Takes s s₁ origin block rsize)
    (inside : (x : ℕ) → within block rsize x ≡ true → holds s origin x ≡ true)
    (unheld : Unheld s₁ block rsize) (device : s₁.tblocks ≡ s.tblocks) (rest : KeepsRest s s₁)
    (chunk : Chunk s₁ s' i block count rsize) (p : 0 < block) (l : count ≤ rsize)
    (b : block + rsize ≤ s.tblocks) where
  chunk-available :
      (x : ℕ) → within block count x ≡ true → (holds s free x || holds s (reserved i) x) ≡ true
  chunk-available x w = elim at [
    | inl e ↦ let h = rw e at (inside x (ground arith)) in ground arith
    | inr e ↦ let h = rw e at (inside x (ground arith)) in ground arith
  ]

  chunk-listed : (x : ℕ) → within block count x ≡ true → holds s' (allocated i) x ≡ not (i == 0)
  chunk-listed x w = ground (arith, chunk.gives (allocated i) x, unheld (allocated i) x)

  chunk-alone :
      (r : Place) (x : ℕ)
      → within block count x ≡ true
      → same_place (allocated i) r ≡ false
      → holds s' r x ≡ false
  chunk-alone r x w ne = ground (arith, chunk.gives r x, unheld r x)

  chunk-pool :
      (x : ℕ)
      → within block count x ≡ false
      → (holds s' free x || holds s' (reserved i) x) ≡ (holds s free x || holds s (reserved i) x)
  chunk-pool x w = elim at [
    | inl e ↦
        let t = rw e at takes in
        let h : within block rsize x ≡ true → holds s free x ≡ true = rw e at (inside x) in
        ground
          (arith, chunk.gives free x, chunk.gives (reserved i) x, t free x, t (reserved i) x, h)
    | inr e ↦
        let t = rw e at takes in
        let h : within block rsize x ≡ true → holds s (reserved i) x ≡ true = rw e at (inside x) in
        ground
          (arith, chunk.gives free x, chunk.gives (reserved i) x, t free x, t (reserved i) x, h)
  ]

  chunk-others :
      (r : Place) (x : ℕ)
      → same_place free r ≡ false
      → same_place (reserved i) r ≡ false
      → within block count x ≡ false
      → holds s' r x ≡ holds s r x
  chunk-others r x nf nr w = elim at [
    | inl e ↦ let t = rw e at takes in ground (arith, chunk.gives r x, t r x)
    | inr e ↦ let t = rw e at takes in ground (arith, chunk.gives r x, t r x)
  ]

  pub chunk-Allocated : Allocated s s' i block count
  chunk-Allocated = record {
    sound = chunk.sound;
    device = chunk.device ∙ device;
    rest = KeepsRest-trans s s₁ s' rest chunk.rest;
    range = (p, omega arith);
    available = chunk-available;
    listed = chunk-listed;
    alone = chunk-alone;
    pool = chunk-pool;
    others = chunk-others;
  }

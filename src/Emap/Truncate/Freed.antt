-- ===== src/Emap/Truncate/Freed.antt =====
-- lc_freeInodeDataBlocks, and the end of lc_emapTruncate: the blocks that go join the layer's freed ones.
use lcfs.Prelude.{
  ℕ, ◌+◌, ◌-◌, ◌≤◌, ◌<◌, ◌≡◌, inl, inr, refl, sym, ap, ◌∙◌, Bool, true, false, ◌||◌, none, some,
  List, [], ◌∷◌, leb, ◌==◌, Bool-cases, arith,
}
use mathlib.Core.Path.{subst}
use lcfs.Dir.Names.{eqb_refl}
use lcfs.Extent.{Extent}
use lcfs.ExtentList.View.{within, covers, total, maps, IsEmapList, IsSpaceBag}
use lcfs.Block.{State, update_fs, invalid_block}
use lcfs.Block.Release.{add_freed_blocks}
use lcfs.Emap.{Inode}
use lcfs.Emap.Truncate.{Trimmed, free_inode_data_blocks, is_empty, free_truncated}
use lcfs.Emap.Truncate.Cut.{add_past}

-- The blocks of a list join the freed blocks of a layer, and nothing else changes.
pub record Freed (s : State) (i : ℕ) (es : List Extent) (s' : State) : Type 0 where
  pub bag : IsSpaceBag s.tblocks (s'.fs i).fextents
  pub blocks : (b : ℕ) → covers (s'.fs i).fextents b ≡ (covers es b || covers (s.fs i).fextents b)
  pub others : (j : ℕ) → (j == i) ≡ false → s'.fs j ≡ s.fs j
  pub device : s'.tblocks ≡ s.tblocks

pub or-nil : (w c : Bool) → (w || c) ≡ ((w || false) || c)
or-nil true c = refl
or-nil false c = refl

or-first : (w p c : Bool) → (p || ((w || false) || c)) ≡ ((w || p) || c)
or-first true true c = refl
or-first true false c = refl
or-first false true c = refl
or-first false false c = refl

-- One extent joins.
add_freed_blocks-Freed :
    (s : State) (i : ℕ) (e : Extent)
    → s.tblocks < invalid_block
    → IsSpaceBag s.tblocks (e ∷ [])
    → IsSpaceBag s.tblocks (s.fs i).fextents
    → (s' : State) × (add_freed_blocks s i e.ex_start e.ex_count ≡ some s') × Freed s i (e ∷ []) s'
unfolding add_freed_blocks covers
add_freed_blocks-Freed s i e tb ok bag =
    let (f, run, bag', v, _) =
      add_past s.tblocks e.ex_start e.ex_count (s.fs i).fextents tb ok.1 ok.2 ok.3 bag in
    let here : (i == i) ≡ true = eqb_refl i in
    (
      update_fs s i (record (s.fs i) { fextents = f }),
      rw run refl,
      record {
        bag = rw here bag';
        blocks = λ b.
            rw here (v b ∙ or-nil (within e.ex_start e.ex_count b) (covers (s.fs i).fextents b));
        others = λ j h. rw h refl;
        device = refl;
      },
    )

free_inode_data_blocks-Freed :
    (s : State) (i : ℕ) (es : List Extent)
    → s.tblocks < invalid_block
    → IsSpaceBag s.tblocks es
    → IsSpaceBag s.tblocks (s.fs i).fextents
    → (s' : State) × (free_inode_data_blocks s i es ≡ some s') × Freed s i es s'
unfolding free_inode_data_blocks covers
free_inode_data_blocks-Freed s i [] tb ok bag =
    (s, refl, record { bag = bag; blocks = λ b. refl; others = λ j h. refl; device = refl })
free_inode_data_blocks-Freed s i (e ∷ es) tb ok bag =
    let (s₁, run, f) = add_freed_blocks-Freed s i e tb (ok.0, ok.1, ok.2, ok.3, tt) bag in
    let bag₁ : IsSpaceBag s₁.tblocks (s₁.fs i).fextents =
      subst (λ n. IsSpaceBag n (s₁.fs i).fextents) (sym f.device) f.bag in
    let rest_ok : IsSpaceBag s₁.tblocks es = subst (λ n. IsSpaceBag n es) (sym f.device) ok.4 in
    let (s', run', g) =
      free_inode_data_blocks-Freed s₁ i es (omega (arith, f.device)) rest_ok bag₁ in
    (
      s',
      rw run run',
      record {
        bag = subst (λ n. IsSpaceBag n (s'.fs i).fextents) f.device g.bag;
        blocks = λ b.
            g.blocks b
            ∙ ap (λ c. covers es b || c) (f.blocks b)
            ∙ or-first (within e.ex_start e.ex_count b) (covers es b) (covers (s.fs i).fextents b);
        others = λ j h. g.others j h ∙ f.others j h;
        device = g.device ∙ f.device;
      },
    )

-- An emap in order that maps no page is empty.
pub no_pages :
    (tblocks lo : ℕ) (es : List Extent)
    → IsEmapList tblocks lo es
    → ((x : ℕ) → maps es x ≡ none)
    → es ≡ []
unfolding maps
no_pages tblocks lo [] s h = refl
no_pages tblocks lo (e ∷ es) s h =
    let first : within e.ex_start e.ex_count e.ex_start ≡ true = ground arith in
    let found : maps (e ∷ es) e.ex_start ≡ some (e.ex_block + (e.ex_start - e.ex_start)) =
      rw first refl in
    let gone = h e.ex_start in cc

total-nil : (tblocks : ℕ) (es : List Extent) → IsSpaceBag tblocks es → total es ≡ 0 → es ≡ []
unfolding total
total-nil tblocks [] s h = refl
total-nil tblocks (e ∷ es) s h = absurd (omega arith)

-- The inode after its emap was cut
abbrev pub cut_inode : Inode → Trimmed → Inode
cut_inode inode t = record inode { emap_list = t.kept; blocks = inode.blocks - t.bcount }

nothing_freed :
    (s : State) (i : ℕ) (inode : Inode) (t : Trimmed)
    → t.bcount ≡ 0
    → t.freed ≡ []
    → IsSpaceBag s.tblocks (s.fs i).fextents
    → (free_truncated s i inode t ≡ some (s, cut_inode inode t)) × Freed s i t.freed s
unfolding free_truncated covers
nothing_freed s i inode t h nil bag =
    let none_counted : (t.bcount == 0) ≡ true = ground arith in
    let empty : is_empty t.freed ≡ true = ap is_empty nil in
    let same : inode.blocks ≡ inode.blocks - t.bcount = omega arith in
    (
      rw none_counted
          (rw empty (ap (λ n. some (s, record inode { emap_list = t.kept; blocks = n })) same)),
      record {
        bag = bag;
        blocks = λ b. ap (λ l. covers l b || covers (s.fs i).fextents b) (sym nil);
        others = λ j h. refl;
        device = refl;
      },
    )

pub free_truncated-Freed :
    (s : State) (i : ℕ) (inode : Inode) (t : Trimmed)
    → s.tblocks < invalid_block
    → IsSpaceBag s.tblocks t.freed
    → IsSpaceBag s.tblocks (s.fs i).fextents
    → total t.freed ≡ t.bcount
    → t.bcount ≤ inode.blocks
    → (s' : State) × (free_truncated s i inode t ≡ some (s', cut_inode inode t))
      × Freed s i t.freed s'
unfolding free_truncated
free_truncated-Freed s i inode t tb ok bag sum fits = elim (Bool-cases (t.bcount == 0)) [
  | inl h ↦
      let (run, f) =
        nothing_freed s i inode t (ground arith) (total-nil s.tblocks t.freed ok (ground arith))
          bag in
      (s, run, f)
  | inr h ↦
      let (s', run, f) = free_inode_data_blocks-Freed s i t.freed tb ok bag in
      let enough : leb t.bcount inode.blocks ≡ true = ground arith in
      (s', rw h (rw run (rw enough refl)), f)
]

-- ===== src/Emap/Truncate/Loop.antt =====
-- What a truncated file keeps, and which blocks it gives up.
use lcfs.Prelude.{
  ℕ, ◌+◌, ◌-◌, ◌≤◌, ◌<◌, ◌^◌, ◌≡◌, ◌⊎◌, inl, inr, refl, sym, ap, ◌∙◌, Bool, true, false, ◌&&◌, ◌||◌,
  Option, none, some, List, [], ◌∷◌, ◌++◌, ltb, ◌==◌, if◌then◌else◌, Bool-cases, arith,
}
use mathlib.Core.Path.{subst}
use lcfs.Extent.{Extent}
use lcfs.ExtentList.View.{within, covers, total, maps, IsEmapList, IsEmapList-weaken, IsSpaceBag}
use lcfs.Block.{invalid_block}
use lcfs.Emap.Truncate.{Trimmed, truncate_extent, truncate_loop}
use lcfs.Emap.Truncate.Round.{truncate_extent-Rounded}
use lcfs.Emap.Truncate.Cut.{
  keep_below, pages_past, shorten, blocks_past, Outcome, trimmed, IsEmapExtent,
}

-- What truncating gives.
pub record Truncated (tblocks lo pg : ℕ) (partial : Bool) (es freed : List Extent) (bcount : ℕ)
    (zero_page : Bool) (r : Trimmed) : Type 0 where
  pub run : truncate_loop tblocks pg partial es freed bcount zero_page ≡ some r
  pub mapped : (x : ℕ) → maps r.kept x ≡ (if ltb x (keep_below pg partial) then maps es x else none)
  pub ordered : IsEmapList tblocks lo r.kept
  pub bag : IsSpaceBag tblocks r.freed
  pub blocks :
      (b : ℕ) → covers r.freed b ≡ (blocks_past (keep_below pg partial) es b || covers freed b)
  pub sum : total r.freed + total r.kept ≡ total freed + total es
  pub count : r.bcount + total r.kept ≡ bcount + total es
  pub cleared : r.zero_page ≡ (zero_page || partial && covers es pg)

-- The extents that are left of one, and those behind it
module _ (e : Extent) (keep : ℕ) (es : List Extent) where
  maps-shorten :
      (x : ℕ)
      → maps (shorten e (pages_past keep e) ++ es) x ≡ (
          if ltb x keep && within e.ex_start e.ex_count x
          then some (e.ex_block + (x - e.ex_start))
          else maps es x)
  unfolding maps
  maps-shorten x = elim (Bool-cases (pages_past keep e == e.ex_count)) [
    | inl h ↦ rw h (
        let out : (ltb x keep && within e.ex_start e.ex_count x) ≡ false = ground arith in
        rw out refl)
    | inr h ↦
        let same : within e.ex_start (e.ex_count - pages_past keep e) x
            ≡ (ltb x keep && within e.ex_start e.ex_count x) =
          ground arith in
        rw h (ap (λ b. if b then some (e.ex_block + (x - e.ex_start)) else maps es x) same)
  ]

  total-shorten :
      total (shorten e (pages_past keep e) ++ es) + pages_past keep e ≡ e.ex_count + total es
  unfolding total
  total-shorten = elim (Bool-cases (pages_past keep e == e.ex_count)) [
    | inl h ↦ rw h (ground arith)
    | inr h ↦ rw h (omega arith)
  ]

  shorten-IsEmapList :
      (tblocks lo : ℕ)
      → IsEmapExtent tblocks e
      → lo ≤ e.ex_start
      → IsEmapList tblocks (e.ex_start + e.ex_count) es
      → IsEmapList tblocks lo (shorten e (pages_past keep e) ++ es)
  shorten-IsEmapList tblocks lo ok l s = elim (Bool-cases (pages_past keep e == e.ex_count)) [
    | inl h ↦ rw h (IsEmapList-weaken tblocks (e.ex_start + e.ex_count) lo es s (omega arith))
    | inr h ↦ rw h (
      ok.0,
      l,
      ground arith,
      omega arith,
      omega arith,
      ok.4,
      omega arith,
      IsEmapList-weaken tblocks (e.ex_start + e.ex_count)
          (e.ex_start + (e.ex_count - pages_past keep e)) es s (omega arith),
    )
  ]

-- A page of the first extent is below the others.
both_parts :
    (keep x start count : ℕ) (o o' : Option ℕ)
    → (if ltb x keep && within start count x then o else (if ltb x keep then o' else none))
      ≡ (if ltb x keep then (if within start count x then o else o') else none)
both_parts keep x start count o o' = elim (Bool-cases (ltb x keep)) [
  | inl h ↦ rw h refl
  | inr h ↦ rw h refl
]

or-swap : (a b c : Bool) → (b || (a || c)) ≡ ((a || b) || c)
or-swap true b c = ground arith
or-swap false b c = refl

or-both : (z p w c : Bool) → ((z || p && w) || p && c) ≡ (z || p && (w || c))
or-both true p w c = refl
or-both false true w c = refl
or-both false false w c = refl

truncate_loop-cons :
    (tblocks pg : ℕ) (partial : Bool) (e : Extent) (es freed : List Extent) (bcount : ℕ)
    (zero_page : Bool) (t r : Trimmed)
    → truncate_extent tblocks pg partial e freed bcount zero_page ≡ some t
    → truncate_loop tblocks pg partial es t.freed t.bcount t.zero_page ≡ some r
    → truncate_loop tblocks pg partial (e ∷ es) freed bcount zero_page
      ≡ some (record r { kept = t.kept ++ r.kept })
unfolding truncate_loop
truncate_loop-cons tblocks pg partial e es freed bcount zero_page t r run rest =
    rw run (rw rest refl)

module _ (tblocks pg : ℕ) (partial : Bool) (tb : tblocks < invalid_block) where
  early_next :
      (lo : ℕ) (e : Extent) (bcount bcount' : ℕ)
      → lo ≤ e.ex_start
      → bcount' ≡ bcount + pages_past (keep_below pg partial) e
      → (bcount ≡ 0) ⊎ (pg < lo)
      → (bcount' ≡ 0) ⊎ (pg < e.ex_start + e.ex_count)
  early_next lo e bcount bcount' l h early = elim (Bool-cases (ltb pg (e.ex_start + e.ex_count))) [
    | inl g ↦ inr (ground arith)
    | inr g ↦ inl (ground arith)
  ]

  Truncated-cons :
      (lo : ℕ) (e : Extent) (es freed freed' : List Extent) (bcount : ℕ) (zero_page : Bool)
      (t r : Trimmed)
      → IsEmapExtent tblocks e
      → lo ≤ e.ex_start
      → truncate_extent tblocks pg partial e freed bcount zero_page ≡ some t
      → Outcome tblocks e
          (pages_past (keep_below pg partial) e)
          freed
          bcount
          (zero_page || partial && within e.ex_start e.ex_count pg)
          freed'
          t
      → Truncated tblocks (e.ex_start + e.ex_count) pg partial es t.freed t.bcount t.zero_page r
      → Truncated tblocks lo pg partial
          (e ∷ es)
          freed
          bcount
          zero_page
          (record r { kept = t.kept ++ r.kept })
  unfolding maps covers total
  Truncated-cons lo e es freed freed' bcount zero_page t r ok l run cut rest =
      let keep = keep_below pg partial in
      let n = pages_past keep e in
      let kept : t.kept ≡ shorten e n = ap (λ t. t.kept) cut.result in
      let freed_eq : t.freed ≡ freed' = ap (λ t. t.freed) cut.result in
      let count_eq : t.bcount ≡ bcount + n = ap (λ t. t.bcount) cut.result in
      let zero_eq : t.zero_page ≡ (zero_page || partial && within e.ex_start e.ex_count pg) =
        ap (λ t. t.zero_page) cut.result in
      let lengths : total (t.kept ++ r.kept) + n ≡ e.ex_count + total r.kept =
        ap (λ l. total (l ++ r.kept) + n) kept ∙ total-shorten e keep r.kept in
      let total_eq : total t.freed ≡ total freed' = ap total freed_eq in
      record {
        run = truncate_loop-cons tblocks pg partial e es freed bcount zero_page t r run rest.run;
        mapped = λ x.
            ap (λ l. maps (l ++ r.kept) x) kept
            ∙ maps-shorten e keep r.kept x
            ∙ ap
                (λ o.
                  if ltb x keep && within e.ex_start e.ex_count x
                  then some (e.ex_block + (x - e.ex_start))
                  else o)
                (rest.mapped x)
            ∙ both_parts keep x e.ex_start e.ex_count (some (e.ex_block + (x - e.ex_start)))
                (maps es x);
        ordered = rw kept (shorten-IsEmapList e keep r.kept tblocks lo ok l rest.ordered);
        bag = rest.bag;
        blocks = λ b.
            rest.blocks b
            ∙ ap (λ f. blocks_past keep es b || covers f b) freed_eq
            ∙ ap (λ c. blocks_past keep es b || c) (cut.blocks b)
            ∙ or-swap (within (e.ex_block + (e.ex_count - n)) n b) (blocks_past keep es b)
                (covers freed b);
        sum = omega (arith, rest.sum, cut.sum);
        count = omega (arith, rest.count);
        cleared =
            rest.cleared
            ∙ ap (λ z. z || partial && covers es pg) zero_eq
            ∙ or-both zero_page partial (within e.ex_start e.ex_count pg) (covers es pg);
      }

  -- On a device below LC_INVALID_BLOCK, the loop of `lc_emapTruncate` over an emap in order stops at no
  -- `assert`, if the list of freed extents is one of the device, the sum of the emap's blocks and the
  -- count stays below 2 ^ 64, and the count is 0 when the first extent may be kept. Afterwards every page
  -- that stays is mapped as before and no other is, the emap is in order, exactly the blocks of the other
  -- pages join the freed extents, their number is counted, and the page `pg` is to be cleared if it is cut
  -- in the middle and mapped.
  pub truncate_loop-Truncated :
      (lo : ℕ) (es freed : List Extent) (bcount : ℕ) (zero_page : Bool)
      → IsEmapList tblocks lo es
      → IsSpaceBag tblocks freed
      → bcount + total es < 2 ^ 64
      → (bcount ≡ 0) ⊎ (pg < lo)
      → (r : Trimmed) × Truncated tblocks lo pg partial es freed bcount zero_page r
  unfolding truncate_loop maps covers total
  truncate_loop-Truncated lo [] freed bcount zero_page s bag b early = (
    trimmed [] freed bcount zero_page,
    record {
      run = refl;
      mapped = λ x. ground arith;
      ordered = tt;
      bag = bag;
      blocks = λ b. refl;
      sum = omega arith;
      count = omega arith;
      cleared = ground arith;
    },
  )
  truncate_loop-Truncated lo (e ∷ es) freed bcount zero_page s bag b early =
      let ok : IsEmapExtent tblocks e = (s.0, s.2, omega arith, s.4, s.5, s.6) in
      let (freed', t, run, cut) =
        truncate_extent-Rounded tblocks e freed bcount tb ok bag (omega arith) pg partial zero_page
          (ground arith) in
      let (r, rest) =
        truncate_loop-Truncated (e.ex_start + e.ex_count) es t.freed t.bcount t.zero_page s.7
          (subst (IsSpaceBag tblocks) (sym (ap (λ t. t.freed) cut.result)) cut.bag)
          (omega (arith, ap (λ t. t.bcount) cut.result))
          (early_next lo e bcount t.bcount s.1 (ap (λ t. t.bcount) cut.result) early) in
      (
        record r { kept = t.kept ++ r.kept },
        Truncated-cons lo e es freed freed' bcount zero_page t r ok s.1 run cut rest,
      )

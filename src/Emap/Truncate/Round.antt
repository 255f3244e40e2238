-- ===== src/Emap/Truncate/Round.antt =====
-- A round of the loop of lc_emapTruncate: past the end, at the end, below it.
use lcfs.Prelude.{
  ℕ, ◌+◌, ◌-◌, ◌≤◌, ◌<◌, ◌^◌, ◌≡◌, inl, inr, refl, sym, ap, ◌∙◌, Bool, true, false, ◌&&◌, ◌||◌,
  some, List, [], ◌∷◌, ltb, ◌==◌, if◌then◌else◌, ◌>>=◌, Bool-cases, arith,
}
use lcfs.Prelude.Words.{add64}
use lcfs.Extent.{Extent, decr_count}
use lcfs.Extent.Fits.{Fits, decr_count-eq_some}
use lcfs.ExtentList.View.{within, covers, IsSpaceBag}
use lcfs.Block.{add_space_extent, invalid_block}
use lcfs.Emap.Truncate.{Trimmed, trim_extent, truncate_extent}
use lcfs.Emap.Truncate.Cut.{
  keep_below, pages_past, shorten, IsEmapExtent, add_past, truncate_extent-body, shorten-all,
  trimmed, Outcome, trimmed-eq, nothing_cut,
}

module _ (tblocks : ℕ) (e : Extent) (freed : List Extent) (bcount : ℕ)
    (tb : tblocks < invalid_block) (ok : IsEmapExtent tblocks e) (bag : IsSpaceBag tblocks freed)
    (no_wrap : bcount + e.ex_count < 2 ^ 64) where
  all_cut :
      (n : ℕ) (zero_page : Bool)
      → n ≡ e.ex_count
      → (freed' : List Extent) × (add_space_extent tblocks freed e.ex_block e.ex_count false
          ≡ some freed')
        × Outcome tblocks e n freed bcount zero_page freed'
            (trimmed [] freed' (add64 bcount e.ex_count) zero_page)
  all_cut n zero_page h =
      let (freed', run, bag', v, sum) =
        add_past tblocks e.ex_block e.ex_count freed tb ok.4 ok.1 ok.5 bag in
      (
        freed',
        run,
        record {
          result =
              trimmed-eq [] (shorten e n) freed' (add64 bcount e.ex_count) (bcount + n) zero_page
                (sym (shorten-all e n h)) (omega arith);
          bag = bag';
          blocks = λ b.
              v b
              ∙ ap (λ k. within k e.ex_count b || covers freed b) (omega arith)
              ∙ ap (λ k. within (e.ex_block + (e.ex_count - n)) k b || covers freed b) (sym h);
          sum = omega arith;
        },
      )

  trim_extent-run :
      (n : ℕ) (zero_page : Bool) (kept freed' : List Extent)
      → 0 < n
      → n ≤ e.ex_count
      → add_space_extent tblocks freed (e.ex_block + (e.ex_count - n)) n false ≡ some freed'
      → (if n == e.ex_count
          then some []
          else (decr_count (some tblocks) e n >>= λ (e', gone). some (e' ∷ [])))
        ≡ some kept
      → trim_extent tblocks e n zero_page freed bcount
        ≡ some (trimmed kept freed' (bcount + n) zero_page)
  unfolding trim_extent
  trim_extent-run n zero_page kept freed' c l run left = ground (arith, run, left)

  trim_extent-Outcome :
      (n : ℕ) (zero_page : Bool)
      → n ≤ e.ex_count
      → (freed' : List Extent) × (t : Trimmed) × (trim_extent tblocks e n zero_page freed bcount
          ≡ some t)
        × Outcome tblocks e n freed bcount zero_page freed' t
  unfolding trim_extent
  trim_extent-Outcome n zero_page l = elim (Bool-cases (n == 0)) [
    | inl h ↦ (
      freed,
      trimmed (e ∷ []) freed bcount zero_page,
      rw h refl,
      nothing_cut tblocks e n freed bcount zero_page (ground arith) ok.1 bag,
    )
    | inr h ↦
        let (freed', run, bag', v, sum) =
          add_past tblocks (e.ex_block + (e.ex_count - n)) n freed tb (omega arith) (ground arith)
            (omega arith) bag in
        (
          freed',
          trimmed (shorten e n) freed' (bcount + n) zero_page,
          trim_extent-run n zero_page (shorten e n) freed' (ground arith) l run
              (left n l (ground arith)),
          record { result = refl; bag = bag'; blocks = v; sum = sum },
        )
  ]
    where
      left :
          (n : ℕ)
          → n ≤ e.ex_count
          → 0 < n
          → (if n == e.ex_count
              then some []
              else (decr_count (some tblocks) e n >>= λ (e', gone). some (e' ∷ [])))
            ≡ some (shorten e n)
      left n l c = elim (Bool-cases (n == e.ex_count)) [
        | inl h ↦ rw h refl
        | inr h ↦
            let fits : Fits tblocks e = (ok.1, ok.3, inr (ok.0, ok.4, omega arith, ok.5)) in
            rw h (rw (decr_count-eq_some tblocks e n (omega arith) fits (ground arith)) refl)
      ]

  -- What a round gives
  abbrev pub Rounded : (pg : ℕ) → (partial zero_page : Bool) → Type 0
  Rounded pg partial zero_page =
      (freed' : List Extent) × (t : Trimmed) × (truncate_extent tblocks pg partial e freed bcount
          zero_page
        ≡ some t)
      × Outcome tblocks e (pages_past (keep_below pg partial) e) freed bcount
          (zero_page || partial && within e.ex_start e.ex_count pg) freed' t

  round_past : (pg : ℕ) (partial zero_page : Bool) → pg < e.ex_start → Rounded pg partial zero_page
  round_past pg partial zero_page h =
      let n : pages_past (keep_below pg partial) e ≡ e.ex_count = ground arith in
      let z : (zero_page || partial && within e.ex_start e.ex_count pg) ≡ zero_page =
        ground arith in
      let past : ltb pg e.ex_start ≡ true = ground arith in
      let (freed', run, cut) = all_cut (pages_past (keep_below pg partial) e) zero_page n in
      (
        freed',
        trimmed [] freed' (add64 bcount e.ex_count) zero_page,
        truncate_extent-body tblocks pg partial e freed bcount zero_page _ tb ok
            (rw past (rw run refl)),
        rw z cut,
      )

  round_partial :
      (pg : ℕ) (zero_page : Bool)
      → e.ex_start ≤ pg
      → pg < e.ex_start + e.ex_count
      → Rounded pg true zero_page
  round_partial pg zero_page l u =
      let n : e.ex_start + e.ex_count - pg - 1 ≡ pages_past (pg + 1) e = omega arith in
      let z : (zero_page || within e.ex_start e.ex_count pg) ≡ true = ground arith in
      let past : ltb pg e.ex_start ≡ false = ground arith in
      let inside : ltb pg (e.ex_start + e.ex_count) ≡ true = ground arith in
      let (freed', t, run, cut) = trim_extent-Outcome (pages_past (pg + 1) e) true (omega arith) in
      (
        freed',
        t,
        truncate_extent-body tblocks pg true e freed bcount zero_page _ tb ok
            (rw past (rw inside (ap (λ k. trim_extent tblocks e k true freed bcount) n ∙ run))),
        rw z cut,
      )

  round_whole :
      (pg : ℕ) (zero_page : Bool)
      → e.ex_start ≤ pg
      → pg < e.ex_start + e.ex_count
      → Rounded pg false zero_page
  round_whole pg zero_page l u =
      let n : e.ex_start + e.ex_count - pg ≡ pages_past pg e = omega arith in
      let z : (zero_page || false) ≡ zero_page = ground arith in
      let past : ltb pg e.ex_start ≡ false = ground arith in
      let inside : ltb pg (e.ex_start + e.ex_count) ≡ true = ground arith in
      let (freed', t, run, cut) = trim_extent-Outcome (pages_past pg e) zero_page (omega arith) in
      (
        freed',
        t,
        truncate_extent-body tblocks pg false e freed bcount zero_page _ tb ok (
            rw past (rw inside (ap (λ k. trim_extent tblocks e k zero_page freed bcount) n ∙ run))),
        rw z cut,
      )

  round_kept :
      (pg : ℕ) (partial zero_page : Bool)
      → e.ex_start + e.ex_count ≤ pg
      → bcount ≡ 0
      → Rounded pg partial zero_page
  round_kept pg partial zero_page h none_yet =
      let n : pages_past (keep_below pg partial) e ≡ 0 = ground arith in
      let z : (zero_page || partial && within e.ex_start e.ex_count pg) ≡ zero_page =
        ground arith in
      let past : ltb pg e.ex_start ≡ false = ground arith in
      let inside : ltb pg (e.ex_start + e.ex_count) ≡ false = ground arith in
      let first : (bcount == 0) ≡ true = ground arith in
      (
        freed,
        trimmed (e ∷ []) freed bcount zero_page,
        truncate_extent-body tblocks pg partial e freed bcount zero_page _ tb ok
            (rw past (rw inside (rw first refl))),
        rw z (
            nothing_cut tblocks e (pages_past (keep_below pg partial) e) freed bcount zero_page n
              ok.1 bag),
      )

  pub truncate_extent-Rounded :
      (pg : ℕ) (partial zero_page : Bool)
      → (e.ex_start + e.ex_count ≤ pg → bcount ≡ 0)
      → Rounded pg partial zero_page
  truncate_extent-Rounded pg partial zero_page none_yet = elim (Bool-cases (ltb pg e.ex_start)) [
    | inl h ↦ round_past pg partial zero_page (ground arith)
    | inr h ↦ elim (Bool-cases (ltb pg (e.ex_start + e.ex_count))) [
      | inl g ↦ elim partial as (λ k. Rounded pg k zero_page) [
        | true ↦ round_partial pg zero_page (ground arith) (ground arith)
        | false ↦ round_whole pg zero_page (ground arith) (ground arith)
      ]
      | inr g ↦ round_kept pg partial zero_page (ground arith) (none_yet (ground arith))
    ]
  ]

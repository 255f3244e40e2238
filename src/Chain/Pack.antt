-- ===== src/Chain/Pack.antt =====
-- Packing loses no entry and overfills no page.
use lcfs.Prelude.{
  none, ℕ, ◌+◌, ◌-◌, ◌≤◌, ◌<◌, ◌≡◌, refl, ap, true, false, some, List, [], ◌∷◌, ◌++◌, concat, arith,
  leb, Bool-cases, inl, inr,
}
use lcfs.Chain.{pack}

module _ {ℓ} {A : Type ℓ} (size : A → ℕ) (cap : ℕ) where
  abbrev pub bytes : List A → ℕ
  bytes [] = 0
  bytes (x ∷ xs) = size x + bytes xs

  -- Every entry has a size, and goes in a page.
  abbrev pub AllFit : List A → Type 0
  AllFit [] = Unit
  AllFit (x ∷ xs) = (0 < size x) × (size x ≤ cap) × AllFit xs

  -- Every page has entries, and they go in it.
  abbrev pub ArePages : List (List A) → Type 0
  ArePages [] = Unit
  ArePages (p ∷ ps) = (0 < bytes p) × (bytes p ≤ cap) × ArePages ps

  record Packed (remain : ℕ) (xs here : List A) (pages : List (List A)) : Type ℓ where
    whole : here ++ concat pages ≡ xs
    here_fits : bytes here ≤ remain
    pages_fit : ArePages pages

  pack-Packed :
      (remain : ℕ) (xs : List A)
      → AllFit xs
      → (here : List A) × (pages : List (List A)) × (pack size cap remain xs ≡ some (here, pages))
        × Packed remain xs here pages
  unfolding pack
  pack-Packed remain [] fit =
      ([], [], refl, record { whole = refl; here_fits = omega arith; pages_fit = tt })
  pack-Packed remain (x ∷ xs) fit = elim (Bool-cases (leb (size x) remain)) [
    | inl fits ↦
        let (here, pages, run, p) = pack-Packed (remain - size x) xs fit.2 in
        (
          x ∷ here,
          pages,
          rw fits (rw run refl),
          record {
            whole = ap (λ l. x ∷ l) p.whole;
            here_fits = ground (arith, p.here_fits);
            pages_fit = p.pages_fit;
          },
        )
    | inr full ↦
        let (here, pages, run, p) = pack-Packed (cap - size x) xs fit.2 in
        let small : leb (size x) cap ≡ true = ground arith in
        (
          [],
          (x ∷ here) ∷ pages,
          rw full (rw small (rw run refl)),
          record {
            whole = ap (λ l. x ∷ l) p.whole;
            here_fits = omega arith;
            pages_fit = (omega arith, omega (arith, p.here_fits), p.pages_fit);
          },
        )
  ]

  -- Packing entries that each have a size and go in a page, from the start, when no page is at hand,
  -- writes past no page: the pages have the entries in their order, all of them, no page is empty and
  -- none holds more bytes than it has room for.
  pub pack-pages :
      (xs : List A)
      → AllFit xs
      → (pages : List (List A)) × (pack size cap 0 xs ≡ some ([], pages))
        × (concat pages ≡ xs)
        × ArePages pages
  unfolding pack
  pack-pages [] fit = ([], refl, refl, tt)
  pack-pages (x ∷ xs) fit =
      let (here, pages, run, p) = pack-Packed (cap - size x) xs fit.2 in
      let full : leb (size x) 0 ≡ false = ground arith in
      let small : leb (size x) cap ≡ true = ground arith in
      (
        (x ∷ here) ∷ pages,
        rw full (rw small (rw run refl)),
        ap (λ l. x ∷ l) p.whole,
        (omega arith, omega (arith, p.here_fits), p.pages_fit),
      )

  -- An entry that is larger than a page is not packed.
  pub pack-none :
      (remain : ℕ) (xs ys : List A) (x : A)
      → cap < size x
      → remain ≤ cap
      → pack size cap remain (xs ++ x ∷ ys) ≡ none
  unfolding pack
  pack-none remain [] ys x large r =
      let full : leb (size x) remain ≡ false = ground arith in
      let big : leb (size x) cap ≡ false = ground arith in rw full (rw big refl)
  pack-none remain (y ∷ xs) ys x large r = elim (Bool-cases (leb (size y) remain)) [
    | inl fits ↦ rw fits (rw (pack-none (remain - size y) xs ys x large (omega arith)) refl)
    | inr full ↦ rw full (
        rw (pack-none (cap - size y) xs ys x large (omega arith))
          (elim (Bool-cases (leb (size y) cap)) [ inl s ↦ rw s refl | inr s ↦ rw s refl ]))
  ]

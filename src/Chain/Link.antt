-- ===== src/Chain/Link.antt =====
-- A chain that was linked is read back page by page.
use lcfs.Prelude.{
  ℕ, zero, suc, ◌+◌, ◌≤◌, ◌<◌, ◌≡◌, refl, sym, ap, ◌∙◌, Bool, true, false, Option, none, some, List,
  [], ◌∷◌, length, arith, ◌==◌, if◌then◌else◌, ◌>>=◌,
}
use lcfs.Prelude.Words.{add64, sub64}
use mathlib.Core.Path.{subst}
use mathlib.Core.List.{reverse, reverse_aux, reverse_aux-reverse_aux-nil}
use lcfs.Block.{invalid_block}
use lcfs.Chain.{Page, Store, write, link_pages, read_chain}

bind_ext {ℓ κ} :
    {A : Type ℓ} {B : Type κ} {f g : A → Option B} (m : Option A)
    → ((a : A) → f a ≡ g a)
    → (m >>= f) ≡ (m >>= g)
bind_ext none h = refl
bind_ext (some a) h = h a

module _ {ℓ} {A : Type ℓ} where
  abbrev pub next_of : List (List A) → ℕ → ℕ
  next_of [] b = invalid_block
  next_of (p ∷ ps) b = b

  -- The pages stand in blocks one after another, and the last one ends the chain.
  abbrev pub Consecutive : Store A → (block : ℕ) → List (List A) → Type ℓ
  Consecutive st block [] = Unit
  Consecutive st block (p ∷ ps) =
      (st block ≡ some (record { next = next_of ps (block + 1); entries = p }))
      × Consecutive st (block + 1) ps

  write-Consecutive :
      (st : Store A) (a block : ℕ) (p : Page A) (ps : List (List A))
      → a < block
      → Consecutive st block ps
      → Consecutive (write st a p) block ps
  write-Consecutive st a block p [] l c = tt
  write-Consecutive st a block p (q ∷ ps) l c =
      let other : (block == a) ≡ false = ground arith in
      (rw other c.0, write-Consecutive st a (block + 1) p ps (omega arith) c.1)

  is_nil : List (List A) → Bool
  is_nil [] = true
  is_nil (p ∷ ps) = false

  next_of-if :
      (later : List (List A)) (b : ℕ)
      → (if is_nil later then invalid_block else b) ≡ next_of later b
  unfolding is_nil
  next_of-if [] b = refl
  next_of-if (p ∷ ps) b = refl

  link_pages-cons :
      (st : Store A) (block n : ℕ) (p : List A) (rev later : List (List A)) (r : Option (Store A))
      → block + n + 1 < invalid_block
      → link_pages false block n rev
          (write st (block + n) (record { next = next_of later (block + n + 1); entries = p }))
        ≡ r
      → link_pages (is_nil later) block (suc n) (p ∷ rev) st ≡ r
  unfolding link_pages
  link_pages-cons st block n p rev later r b run =
      let left : sub64 (suc n) 1 ≡ n = ground arith in
      let here : add64 block n ≡ block + n = ground arith in
      let after : add64 (block + n) 1 ≡ block + n + 1 = ground arith in
      rw (left, here, after, next_of-if later (block + n + 1)) run

  link_pages-Consecutive :
      (st : Store A) (block : ℕ) (rev later : List (List A))
      → block + length rev + length later < invalid_block
      → Consecutive st (block + length rev) later
      → (st' : Store A) × (link_pages (is_nil later) block (length rev) rev st ≡ some st')
        × Consecutive st' block (reverse_aux rev later)
  unfolding link_pages is_nil
  link_pages-Consecutive st block [] later b c =
      let same : block + 0 ≡ block = omega arith in (st, refl, rw same at c)
  link_pages-Consecutive st block (p ∷ rev) later b c =
      let n = length rev in
      let same : block + suc n ≡ block + n + 1 = omega arith in
      let page : Page A = record { next = next_of later (block + n + 1); entries = p } in
      let self : (block + n == block + n) ≡ true = ground arith in
      let c' : Consecutive st (block + n + 1) later = rw same at c in
      let here : Consecutive (write st (block + n) page) (block + n) (p ∷ later) = (
        rw self refl,
        write-Consecutive st (block + n) (block + n + 1) page later (omega arith) c',
      ) in
      let (st', run, chain) =
        link_pages-Consecutive (write st (block + n) page) block rev (p ∷ later) (omega arith)
          here in
      (st', link_pages-cons st block n p rev later (some st') (omega arith) run, chain)

  -- `f` at each page, from the block `block`
  unfoldable pub over_pages {κ} :
      {S : Type κ} → (S → ℕ → List A → Option S) → S → (block : ℕ) → List (List A) → Option S
  over_pages f s block [] = some s
  over_pages f s block (p ∷ ps) = f s block p >>= λ s'. over_pages f s' (block + 1) ps

  pub read_chain-Consecutive {κ} :
      {S : Type κ} (f : S → ℕ → List A → Option S) (s : S) (fuel : ℕ) (st : Store A) (block : ℕ)
      (ps : List (List A))
      → length ps ≤ fuel
      → block + length ps < invalid_block
      → Consecutive st block ps
      → read_chain fuel st (next_of ps block) f s ≡ over_pages f s block ps
  unfolding read_chain over_pages
  read_chain-Consecutive f s zero st block [] l b c = refl
  read_chain-Consecutive f s (suc fuel) st block [] l b c = refl
  read_chain-Consecutive f s zero st block (p ∷ ps) l b c = absurd (omega arith)
  read_chain-Consecutive f s (suc fuel) st block (p ∷ ps) l b c =
      let inside : (block == invalid_block) ≡ false = ground arith in
      rw inside (
        rw (c.0) (
          bind_ext (f s block p) (λ s'.
            read_chain-Consecutive f s' fuel st (block + 1) ps (omega arith) (omega arith) c.1)))

  length-reverse_aux : (xs ys : List (List A)) → length (reverse_aux xs ys) ≡ length xs + length ys
  length-reverse_aux [] ys = omega arith
  length-reverse_aux (x ∷ xs) ys = omega (arith, length-reverse_aux xs (x ∷ ys))

  pub length-reverse : (xs : List (List A)) → length (reverse xs) ≡ length xs
  length-reverse xs = omega (arith, length-reverse_aux xs [])

  -- The pages that are linked, the last one first, are read from the first one's block.
  pub read_chain-link_pages :
      (st : Store A) (block : ℕ) (p : List A) (ps : List (List A))
      → block + length (p ∷ ps) < invalid_block
      → (st' : Store A) × (link_pages true block (length (p ∷ ps)) (reverse (p ∷ ps)) st ≡ some st')
        × Consecutive st' block (p ∷ ps)
  unfolding is_nil
  read_chain-link_pages st block p ps b =
      let size = length-reverse (p ∷ ps) in
      let (st', run, chain) =
        link_pages-Consecutive st block (reverse (p ∷ ps)) [] (omega (arith, size)) tt in
      (
        st',
        ap (λ n. link_pages true block n (reverse (p ∷ ps)) st) (sym size) ∙ run,
        subst (λ l. Consecutive st' block l) (reverse_aux-reverse_aux-nil (p ∷ ps) []) chain,
      )

-- ===== src/ExtentList/Count.antt =====
-- A list of extents of the device that do not meet has no more blocks than the device.
use lcfs.Prelude.{
  ℕ, zero, suc, ◌+◌, ◌-◌, ◌≤◌, ◌≡◌, refl, Bool, true, false, ◌||◌, List, [], ◌∷◌, ◌++◌, ltb, arith,
  if◌then◌else◌,
}
use lcfs.Extent.{Extent}
use lcfs.ExtentList.View.{within, covers, total, IsSpaceBag, NoOverlap}

-- How many numbers below `n` have the property.
count_below : ℕ → (ℕ → Bool) → ℕ
count_below zero p = 0
count_below (suc n) p = (if p n then 1 else 0) + count_below n p

count_below-le : (n : ℕ) (p : ℕ → Bool) → count_below n p ≤ n
unfolding count_below
count_below-le zero p = omega arith
count_below-le (suc n) p = ground (arith, count_below-le n p)

-- The part of the range below `n`.
part : (n start count : ℕ) → ℕ
part n start count = if ltb n (start + count) then n - start else count

count_below-within :
    (n start count : ℕ) (p : ℕ → Bool)
    → ((x : ℕ) → within start count x ≡ true → p x ≡ false)
    → count_below n (λ x. within start count x || p x) ≡ part n start count + count_below n p
unfolding count_below part
count_below-within zero start count p a = ground arith
count_below-within (suc n) start count p a =
    ground (arith, a n, count_below-within n start count p a)

count_below-false : (n : ℕ) → 0 ≡ count_below n (λ x. false)
unfolding count_below
count_below-false zero = refl
count_below-false (suc n) = omega (arith, count_below-false n)

total-count_below :
    (tblocks : ℕ) (es : List Extent)
    → IsSpaceBag tblocks es
    → NoOverlap es
    → total es ≡ count_below tblocks (covers es)
unfolding total covers part
total-count_below tblocks [] s n = count_below-false tblocks
total-count_below tblocks (e ∷ es) s n = ground (
  arith,
  count_below-within tblocks e.ex_start e.ex_count (covers es) n.0,
  total-count_below tblocks es s.4 n.1,
)

pub total-le :
    (tblocks : ℕ) (es : List Extent) → IsSpaceBag tblocks es → NoOverlap es → total es ≤ tblocks
total-le tblocks es s n =
    omega (arith, total-count_below tblocks es s n, count_below-le tblocks (covers es))

module _ (tblocks : ℕ) where
  pub covers-append :
      (xs ys : List Extent) (x : ℕ) → covers (xs ++ ys) x ≡ (covers xs x || covers ys x)
  unfolding covers
  covers-append [] ys x = refl
  covers-append (e ∷ xs) ys x = ground (arith, covers-append xs ys x)

  pub total-append : (xs ys : List Extent) → total (xs ++ ys) ≡ total xs + total ys
  unfolding total
  total-append [] ys = omega arith
  total-append (e ∷ xs) ys = omega (arith, total-append xs ys)

  pub IsSpaceBag-append :
      (xs ys : List Extent)
      → IsSpaceBag tblocks xs
      → IsSpaceBag tblocks ys
      → IsSpaceBag tblocks (xs ++ ys)
  IsSpaceBag-append [] ys s t = t
  IsSpaceBag-append (e ∷ xs) ys s t = (s.0, s.1, s.2, s.3, IsSpaceBag-append xs ys s.4 t)

  pub NoOverlap-append :
      (xs ys : List Extent)
      → NoOverlap xs
      → NoOverlap ys
      → ((x : ℕ) → covers xs x ≡ true → covers ys x ≡ false)
      → NoOverlap (xs ++ ys)
  unfolding covers
  NoOverlap-append [] ys n m a = m
  NoOverlap-append (e ∷ xs) ys n m a = (
    λ x w. ground (arith, covers-append xs ys x, n.0 x, a x),
    NoOverlap-append xs ys n.1 m (λ x c. ground (arith, a x)),
  )

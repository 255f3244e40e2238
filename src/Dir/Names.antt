-- ===== src/Dir/Names.antt =====
-- Names: equality, and the range of the hash.
use lcfs.Prelude.{ℕ, ◌<◌, ◌≡◌, refl, ap, ◌∙◌, true, false, ◌&&◌, ◌==◌, [], ◌∷◌, arith}
use lcfs.Dir.{Name, name_eq, dirhash, dircache_size}

pub name_eq_refl : (a : Name) → name_eq a a ≡ true
unfolding name_eq
name_eq_refl [] = refl
name_eq_refl (a ∷ xs) = ground (arith, name_eq_refl xs)

pub name_eq-eq : (a b : Name) → name_eq a b ≡ true → a ≡ b
unfolding name_eq
name_eq-eq [] [] h = refl
name_eq-eq (a ∷ xs) (b ∷ ys) h = ground (arith, name_eq-eq xs ys)
name_eq-eq [] (b ∷ ys) h = cc
name_eq-eq (a ∷ xs) [] h = cc

pub name_eq_sym : (a b : Name) → name_eq a b ≡ name_eq b a
unfolding name_eq
name_eq_sym [] [] = refl
name_eq_sym (a ∷ xs) (b ∷ ys) =
    let same : (a == b) ≡ (b == a) = ground arith in
    rw same (ap (λ r. (b == a) && r) (name_eq_sym xs ys))
name_eq_sym [] (b ∷ ys) = refl
name_eq_sym (a ∷ xs) [] = refl

pub eqb_refl : (n : ℕ) → (n == n) ≡ true
eqb_refl n = ground arith

pub dirhash-lt : (name : Name) → dirhash name < dircache_size
unfolding dirhash
dirhash-lt name = omega arith

-- A name that is equal to one of two different names is not the other.
pub name_eq-other : (n a b : Name) → name_eq a b ≡ false → name_eq n b ≡ true → name_eq n a ≡ false
name_eq-other n a b other same = rw (name_eq-eq n b same) (name_eq_sym b a ∙ other)

pub name_eq-same : (n a b : Name) → name_eq a b ≡ true → name_eq n a ≡ name_eq n b
name_eq-same n a b same = ap (λ c. name_eq n c) (name_eq-eq a b same)

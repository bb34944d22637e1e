-- ===== src/Prelude/Count.antt =====
-- How many elements of a list pass a test, and what writing, adding and leaving out elements do to it.
use Prim.Native.Nat.{ℕ, zero, suc, ◌+◌, ◌≤◌}
use mathlib.Core.Path.{◌≡◌, refl}
use mathlib.Core.Bool.{Bool, true, ◌&&◌, ◌||◌}
use mathlib.Core.List.{List, [], ◌∷◌, ◌++◌}
use mathlib.Core.Option.{Option, none, some}
use native.Mathlib.Omega.{arith}
use friend_net.Prelude.Tests.{if◌then◌else◌}

module _ {ℓ} {A : Type ℓ} where
  abbrev pub count_if : (A → Bool) → List A → ℕ
  count_if p [] = 0
  count_if p (x ∷ xs) = (if p x then 1 else 0) + count_if p xs

  -- The list without the elements that pass the test.
  abbrev pub reject : (A → Bool) → List A → List A
  reject p [] = []
  reject p (x ∷ xs) = let rest = reject p xs in if p x then rest else x ∷ rest

  abbrev pub get_elem? : List A → ℕ → Option A
  get_elem? [] i = none
  get_elem? (x ∷ xs) zero = some x
  get_elem? (x ∷ xs) (suc i) = get_elem? xs i

  -- xs[i] = v
  abbrev pub set : List A → ℕ → A → List A
  set [] i v = []
  set (x ∷ xs) zero v = v ∷ xs
  set (x ∷ xs) (suc i) v = x ∷ set xs i v

  pub count_if-append :
      (p : A → Bool) (xs ys : List A) → count_if p (xs ++ ys) ≡ count_if p xs + count_if p ys
  count_if-append p [] ys = omega arith
  count_if-append p (x ∷ xs) ys = omega (arith, count_if-append p xs ys)

  pub count_if-set :
      (p : A → Bool) (xs : List A) (i : ℕ) (v h : A)
      → get_elem? xs i ≡ some h
      → count_if p (set xs i v) + (if p h then 1 else 0) ≡ count_if p xs + (if p v then 1 else 0)
  count_if-set p [] i v h e = cc
  count_if-set p (x ∷ xs) zero v h e = ground arith
  count_if-set p (x ∷ xs) (suc i) v h e = omega (arith, count_if-set p xs i v h e)

  pub count_if-get_elem? :
      (p : A → Bool) (xs : List A) (i : ℕ) (h : A)
      → get_elem? xs i ≡ some h
      → (if p h then 1 else 0) ≤ count_if p xs
  count_if-get_elem? p [] i h e = cc
  count_if-get_elem? p (x ∷ xs) zero h e = ground arith
  count_if-get_elem? p (x ∷ xs) (suc i) h e = omega (arith, count_if-get_elem? p xs i h e)

  pub count_if_or :
      (p q : A → Bool) (xs : List A)
      → count_if (λ x. p x || q x) xs + count_if (λ x. p x && q x) xs
        ≡ count_if p xs + count_if q xs
  count_if_or p q [] = omega arith
  count_if_or p q (x ∷ xs) = ground (arith, count_if_or p q xs)

  pub count_if-reject :
      (p q : A → Bool) (xs : List A)
      → count_if q (reject p xs) + count_if (λ x. q x && p x) xs ≡ count_if q xs
  count_if-reject p q [] = omega arith
  count_if-reject p q (x ∷ xs) = ground (arith, count_if-reject p q xs)

  pub count_if_and-le :
      (p q : A → Bool) (xs : List A) → count_if (λ x. q x && p x) xs ≤ count_if p xs
  count_if_and-le p q [] = omega arith
  count_if_and-le p q (x ∷ xs) = ground (arith, count_if_and-le p q xs)

  -- Where one element alone passes `p`, the conjunction counts that element.
  pub count_if_and_one :
      (p q : A → Bool) (xs : List A) (i : ℕ) (h : A)
      → get_elem? xs i ≡ some h
      → p h ≡ true
      → count_if p xs ≤ 1
      → count_if (λ x. q x && p x) xs ≡ (if q h then 1 else 0)
  count_if_and_one p q [] i h e t one = cc
  count_if_and_one p q (x ∷ xs) zero h e t one = ground (arith, count_if_and-le p q xs)
  count_if_and_one p q (x ∷ xs) (suc i) h e t one =
      ground (arith, count_if_and_one p q xs i h e t, count_if-get_elem? p xs i h e)

  pub count_if_and_self :
      (p : A → Bool) (xs : List A) → count_if (λ x. p x && p x) xs ≡ count_if p xs
  count_if_and_self p [] = refl
  count_if_and_self p (x ∷ xs) = ground (arith, count_if_and_self p xs)

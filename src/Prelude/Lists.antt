-- ===== src/Prelude/Lists.antt =====
-- Lists measured by native numbers, predicates over lists, and Boolean filters.
use Prim.Native.Nat.{ℕ, suc, ◌+◌, ◌≤◌}
use mathlib.Core.Path.{◌≡◌, refl}
use mathlib.Core.Logic.{inl, inr}
use mathlib.Core.Bool.{Bool, true, false, ◌||◌}
use mathlib.Core.List.{List, [], ◌∷◌, ◌++◌, map}
use native.Mathlib.Omega.{arith}
use masu.Prelude.Tests.{if◌then◌else◌, Bool-cases}

module _ {ℓ} {A : Type ℓ} where
  abbrev pub length : List A → ℕ
  length [] = 0
  length (x ∷ xs) = suc (length xs)

  pub length-append : (xs ys : List A) → length (xs ++ ys) ≡ length xs + length ys
  length-append [] ys = omega arith
  length-append (x ∷ xs) ys = omega (arith, length-append xs ys)

  -- `[x for x in xs if keep x]`
  abbrev pub select : (A → Bool) → List A → List A
  select keep [] = []
  select keep (x ∷ xs) = let rest = select keep xs in if keep x then x ∷ rest else rest

  -- `any(test(x) for x in xs)`
  abbrev pub any : (A → Bool) → List A → Bool
  any test [] = false
  any test (x ∷ xs) = test x || any test xs

  -- Every element satisfies `P`; computes to a tuple.
  abbrev pub All {κ} : (A → Type κ) → List A → Type κ
  All P [] = Unit
  All P (x ∷ xs) = P x × All P xs

  pub All-append {κ} : (P : A → Type κ) (l m : List A) → All P l → All P m → All P (l ++ m)
  All-append P [] m h k = k
  All-append P (a ∷ l) m (h, hs) k = (h, All-append P l m hs k)

  pub All-map {κ} : (P Q : A → Type κ) (xs : List A) → ((a : A) → P a → Q a) → All P xs → All Q xs
  All-map P Q [] f h = tt
  All-map P Q (x ∷ xs) f (h, hs) = (f x h, All-map P Q xs f hs)

  pub All-zip {κ} :
      (P Q S : A → Type κ) (xs : List A)
      → ((a : A) → P a → Q a → S a)
      → All P xs
      → All Q xs
      → All S xs
  All-zip P Q S [] f h k = tt
  All-zip P Q S (x ∷ xs) f (h, hs) (k, ks) = (f x h k, All-zip P Q S xs f hs ks)

  pub All-select {κ} :
      (P : A → Type κ) (keep : A → Bool) (xs : List A) → All P xs → All P (select keep xs)
  All-select P keep [] h = tt
  All-select P keep (x ∷ xs) (h, hs) = elim (Bool-cases (keep x)) [
    | inl e ↦ rw e (h, All-select P keep xs hs)
    | inr e ↦ rw e (All-select P keep xs hs)
  ]

  -- What a filter keeps passes its test.
  pub select-All : (keep : A → Bool) (xs : List A) → All (λ x. keep x ≡ true) (select keep xs)
  select-All keep [] = tt
  select-All keep (x ∷ xs) = elim (Bool-cases (keep x)) [
    | inl e ↦ rw e (e, select-All keep xs)
    | inr e ↦ rw e (select-All keep xs)
  ]

  pub select-true : (xs : List A) → select (λ _. true) xs ≡ xs
  select-true [] = refl
  select-true (x ∷ xs) = rw (select-true xs)

  pub select-eq :
      (p q : A → Bool) (rows : List A) → ((r : A) → p r ≡ q r) → select p rows ≡ select q rows
  select-eq p q [] h = refl
  select-eq p q (r ∷ rows) h = rw (h r, select-eq p q rows h)

  pub length-select : (keep : A → Bool) (xs : List A) → length (select keep xs) ≤ length xs
  length-select keep [] = omega arith
  length-select keep (x ∷ xs) = ground (arith, length-select keep xs)

module _ {ℓ κ} {A : Type ℓ} {B : Type κ} where
  pub map-eq : (f g : A → B) (xs : List A) → All (λ a. f a ≡ g a) xs → map f xs ≡ map g xs
  map-eq f g [] h = refl
  map-eq f g (x ∷ xs) (h, hs) = rw (h, map-eq f g xs hs)

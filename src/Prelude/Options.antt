-- ===== src/Prelude/Options.antt =====
-- Chains of calls that may raise an exception, which is `none`.
use mathlib.Core.Path.{◌≡◌, refl, subst}
use mathlib.Core.Option.{Option, none, some, some-injective}

infixl 5 ◌>>=◌
abbrev pub ◌>>=◌ {ℓ κ} : {A : Type ℓ} {B : Type κ} → Option A → (A → Option B) → Option B
none >>= f = none
some a >>= f = f a

module _ {ℓ κ} {A : Type ℓ} {B : Type κ} where
  -- The same by name.
  abbrev pub and_then : Option A → (A → Option B) → Option B
  and_then m f = m >>= f

  pub and_then-eq-some :
      (m : Option A) (f : A → Option B) {b : B}
      → and_then m f ≡ some b
      → (a : A) × (m ≡ some a) × (f a ≡ some b)
  and_then-eq-some none f h = cc
  and_then-eq-some (some a) f h = (a, refl, h)

-- A predicate on what a call gives, if it gives something.
abbrev pub Gives : {A : Type 0} → (A → Type 0) → Option A → Type 0
Gives P none = Unit
Gives P (some a) = P a

pub Gives-and_then :
    {A B : Type 0} (P : A → Type 0) (Q : B → Type 0) (m : Option A) (f : A → Option B)
    → Gives P m
    → ((a : A) → P a → Gives Q (f a))
    → Gives Q (and_then m f)
Gives-and_then P Q none f h k = tt
Gives-and_then P Q (some a) f h k = k a h

pub Gives-all : {A : Type 0} (m : Option A) → Gives (λ a. Unit) m
Gives-all none = tt
Gives-all (some a) = tt

pub Gives-map :
    {A : Type 0} (P Q : A → Type 0) (m : Option A) → ((a : A) → P a → Q a) → Gives P m → Gives Q m
Gives-map P Q none k h = tt
Gives-map P Q (some a) k h = k a h

pub Gives-some : {A : Type 0} (P : A → Type 0) (m : Option A) {a : A} → m ≡ some a → Gives P m → P a
Gives-some P none e h = cc
Gives-some P (some b) e h = subst P (some-injective b _ e) h

-- A call that gives something, of which the predicate holds.
abbrev pub Sure : {A : Type 0} → (A → Type 0) → Option A → Type 0
Sure P none = ⊥
Sure P (some a) = P a

pub Sure-and_then :
    {A B : Type 0} (P : A → Type 0) (Q : B → Type 0) (m : Option A) (f : A → Option B)
    → Sure P m
    → ((a : A) → P a → Sure Q (f a))
    → Sure Q (and_then m f)
Sure-and_then P Q none f h k = absurd h
Sure-and_then P Q (some a) f h k = k a h

pub Sure-map :
    {A : Type 0} (P Q : A → Type 0) (m : Option A) → ((a : A) → P a → Q a) → Sure P m → Sure Q m
Sure-map P Q none f h = h
Sure-map P Q (some a) f h = f a h

pub Sure-eq : {A : Type 0} (P : A → Type 0) (m : Option A) → Sure P m → (a : A) × (m ≡ some a) × P a
Sure-eq P none h = absurd h
Sure-eq P (some a) h = (a, refl, h)

pub and_then-and_then :
    {A B C : Type 0} (m : Option A) (f : A → Option B) (g : B → Option C)
    → and_then m (λ a. and_then (f a) g) ≡ and_then (and_then m f) g
and_then-and_then none f g = refl
and_then-and_then (some a) f g = refl

pub and_then-eq :
    {A B : Type 0} (m : Option A) {f g : A → Option B}
    → ((a : A) → f a ≡ g a)
    → and_then m f ≡ and_then m g
and_then-eq none h = refl
and_then-eq (some a) h = h a

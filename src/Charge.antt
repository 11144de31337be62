-- ===== src/Charge.antt =====
-- The charges of OpenShift usage (masu/processor/ocp/ocp_report_charge_updater.py): tiers of rates,
-- the exceptions that the code raises, and amounts of money and usage.
-- An amount is an integer: a `Decimal` in units of 10^-9, a charge in units of 10^-18.
pub mod Numeral
pub mod Tiers
pub mod Variable
pub mod Updater
pub mod Dispatch
mod Tests
use masu.Prelude.{ℕ, ◌≡◌, refl, Bool, true, false, Option, none, some, List, [], ◌∷◌}

-- A Python `str`, by code points.
abbrev pub Text : Type 0
Text = List ℕ

-- A JSON object of `tiered_rate`; `none` is a key that is missing or null.
pub record Tier : Type 0 where
  pub usage_start : Option Text
  pub usage_end : Option Text
  pub value : Option Text

pub data Error : Type 0 where
  missing_first_tier two_starting_tiers missing_last_tier two_final_tiers mismatched : Error
  invalid_operation type_error key_error : Error

-- `except OCPReportChargeUpdaterError`: the other exceptions pass through.
abbrev pub is_updater_error : Error → Bool
is_updater_error missing_first_tier = true
is_updater_error two_starting_tiers = true
is_updater_error missing_last_tier = true
is_updater_error two_final_tiers = true
is_updater_error mismatched = true
is_updater_error _ = false

pub data Result {ℓ} (A : Type ℓ) : Type ℓ where
  ok : A → Result A
  err : Error → Result A

infixl 5 ◌>>=◌ ◌>>◌
abbrev pub ◌>>=◌ {ℓ κ} : {A : Type ℓ} {B : Type κ} → Result A → (A → Result B) → Result B
ok a >>= f = f a
err e >>= f = err e

abbrev pub ◌>>◌ {ℓ κ} : {A : Type ℓ} {B : Type κ} → Result A → Result B → Result B
m >> k = m >>= λ _. k

abbrev pub require : Bool → Error → Result (Unit {0})
require true e = ok tt
require false e = err e

-- Python's truth of a value that `.get` returns: `None` and '' are false.
abbrev pub truthy : Option Text → Bool
truthy none = false
truthy (some []) = false
truthy (some (c ∷ cs)) = true

-- Inversion of a bind that succeeds.
pub >>=-eq-ok {ℓ κ} :
    {A : Type ℓ} {B : Type κ} (first : Result A) (next : A → Result B) {out : B}
    → (first >>= next) ≡ ok out
    → (a : A) × (first ≡ ok a) × (next a ≡ ok out)
>>=-eq-ok (err e) next h = cc
>>=-eq-ok (ok a) next h = (a, refl, h)

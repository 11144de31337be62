-- ===== src/Charge/Variable.antt =====
-- `_bucket_applied` and `_calculate_variable_charge`.
pub mod Price
pub mod Misorder
use masu.Prelude.{ℕ, zero, suc, Bool, true, false, Option, none, some, List, [], ◌∷◌, if◌then◌else◌}
use masu.Prelude.Int.{ℤ, pos, negsuc, ◌+ℤ◌, ◌-ℤ◌, ◌*ℤ◌, leb_ℤ, ltb_ℤ}
use masu.Charge.{Text, Tier, Result, ok, err, type_error, ◌>>=◌, truthy}
use masu.Charge.Numeral.{decimal}
use masu.Charge.Tiers.{normalize_tier}

unfoldable pub bucket_applied : (usage lower_limit upper_limit : ℤ) → ℤ
bucket_applied usage lower_limit upper_limit =
    if leb_ℤ upper_limit usage
    then upper_limit
    else if ltb_ℤ lower_limit usage
    then usage -ℤ lower_limit
    else pos 0

-- The numbers of a tier. An end that is 0 is false, and stands for no end.
pub record Bucket : Type 0 where
  pub usage_start : ℤ
  pub usage_end : Option ℤ
  pub rate : ℤ

abbrev nonzero : ℤ → Option ℤ
nonzero (pos zero) = none
nonzero (pos (suc n)) = some (pos (suc n))
nonzero (negsuc n) = some (negsuc n)

abbrev decimal_or : Option Text → Result ℤ → Result ℤ
decimal_or none default = default
decimal_or (some []) default = default
decimal_or (some (c ∷ cs)) default = decimal (c ∷ cs)

abbrev decimal_of : Option Text → Result ℤ
decimal_of none = err type_error
decimal_of (some text) = decimal text

-- The `Decimal` calls of one round of the loop.
unfoldable pub read_bucket : Tier → Result Bucket
unfolding decimal
read_bucket bucket = do
  usage_end ← decimal_or bucket.usage_end (ok (pos 0))
  usage_start ← decimal_or bucket.usage_start (ok (pos 0))
  rate ← decimal_of bucket.value
  ok (record { usage_start = usage_start; usage_end = nonzero usage_end; rate = rate })

-- What one bucket takes of the balance: all of it where the bucket has no end.
unfoldable pub usage_applied : Bucket → ℤ → ℤ
unfolding bucket_applied
usage_applied b balance = elim b.usage_end [
  | none ↦ balance
  | some usage_end ↦ bucket_applied balance (pos 0) (usage_end -ℤ b.usage_start)
]

-- The loop over the tiers.
unfoldable pub charge_tiers : List Tier → (balance charge : ℤ) → Result ℤ
unfolding read_bucket usage_applied
charge_tiers [] balance charge = ok charge
charge_tiers (bucket ∷ tier) balance charge = read_bucket bucket >>= λ b.
    let applied = usage_applied b balance in
    charge_tiers tier (balance -ℤ applied) (charge +ℤ applied *ℤ b.rate)

-- `rates` is the list of `tiered_rate`; a metric without a rate is charged nothing.
unfoldable pub calculate_variable_charge : ℤ → Option (List Tier) → Result ℤ
unfolding normalize_tier charge_tiers ◌+ℤ◌ ◌*ℤ◌ ◌-ℤ◌
calculate_variable_charge usage none = ok (pos 0)
calculate_variable_charge usage (some tiered_rate) =
    normalize_tier tiered_rate >>= λ tier. charge_tiers tier usage (pos 0)

-- ===== src/Charge/Variable/Price.antt =====
-- The charge of well-formed tiers against an independent price.
use masu.Prelude.{◌≡◌, refl, ap, ◌∙◌, Option, none, some, List, [], ◌∷◌, arith}
use mathlib.Core.Path.{subst}
use masu.Prelude.Int.{ℤ, pos, ◌+ℤ◌, ◌-ℤ◌, ◌*ℤ◌, ◌≤ℤ◌, min_ℤ, int_laws, +ℤ_assoc}
use masu.Charge.{Tier, Result, ok, ◌>>=◌, >>=-eq-ok}
use masu.Charge.Tiers.{normalize_tier}
use masu.Charge.Variable.{
  Bucket, bucket_applied, read_bucket, usage_applied, charge_tiers, calculate_variable_charge,
}

-- All the numbers of the tiers, or the first exception of a `Decimal` call.
unfoldable pub read_buckets : List Tier → Result (List Bucket)
read_buckets [] = ok []
read_buckets (t ∷ ts) = read_bucket t >>= λ b. read_buckets ts >>= λ bs. ok (b ∷ bs)

-- Tiers from `from` on without gap or overlap, the last without an end.
pub data Contiguous : ℤ → List Bucket → Type 0 where
  last :
      (from rate : ℤ)
      → Contiguous from (record { usage_start = from; usage_end = none; rate = rate } ∷ [])
  more :
      {bs : List Bucket} (from to rate : ℤ)
      → from ≤ℤ to
      → Contiguous to bs
      → Contiguous from (record { usage_start = from; usage_end = some to; rate = rate } ∷ bs)

-- The part of the usage below a limit, and the part within a bucket.
abbrev pub below : ℤ → Option ℤ → ℤ
below usage none = usage
below usage (some limit) = min_ℤ usage limit

abbrev pub within : ℤ → Bucket → ℤ
within usage b = below usage b.usage_end -ℤ min_ℤ usage b.usage_start

-- Each bucket's part of the usage at its rate.
pub price : ℤ → List Bucket → ℤ
price usage [] = pos 0
price usage (b ∷ bs) = within usage b *ℤ b.rate +ℤ price usage bs

-- The loop on the numbers of the tiers.
charge_buckets : List Bucket → (balance charge : ℤ) → ℤ
charge_buckets [] balance charge = charge
charge_buckets (b ∷ bs) balance charge =
    let applied = usage_applied b balance in
    charge_buckets bs (balance -ℤ applied) (charge +ℤ applied *ℤ b.rate)

read_buckets-cons :
    (t : Tier) (ts : List Tier) {bs : List Bucket}
    → read_buckets (t ∷ ts) ≡ ok bs
    → (b : Bucket) × (rest : List Bucket) × (read_bucket t ≡ ok b)
      × (read_buckets ts ≡ ok rest)
      × (bs ≡ b ∷ rest)
unfolding read_buckets
read_buckets-cons t ts h =
    let (b, hb, h') = >>=-eq-ok (read_bucket t) _ h in
    let (rest, hr, e) = >>=-eq-ok (read_buckets ts) _ h' in (b, rest, hb, hr, cc)

charge_tiers-read :
    (ts : List Tier) {bs : List Bucket} (balance charge : ℤ)
    → read_buckets ts ≡ ok bs
    → charge_tiers ts balance charge ≡ ok (charge_buckets bs balance charge)
unfolding charge_tiers read_buckets charge_buckets
charge_tiers-read [] balance charge h = ground arith
charge_tiers-read (t ∷ ts) {bs} balance charge h =
    let (b, rest, hb, hr, e) = read_buckets-cons t ts h in rw (hb, e) (charge_tiers-read ts _ _ hr)

-- What a bucket takes is its part of the usage.
usage_applied-within :
    (usage from to rate : ℤ)
    → from ≤ℤ to
    → usage_applied
        (record { usage_start = from; usage_end = some to; rate = rate })
        (usage -ℤ min_ℤ usage from)
      ≡ min_ℤ usage to -ℤ min_ℤ usage from
unfolding usage_applied bucket_applied ◌-ℤ◌
usage_applied-within usage from to rate h = ground arith

usage_applied-last :
    (from rate balance : ℤ)
    → usage_applied (record { usage_start = from; usage_end = none; rate = rate }) balance ≡ balance
unfolding usage_applied
usage_applied-last from rate balance = refl

sub_sub : (a b c : ℤ) → a -ℤ b -ℤ (c -ℤ b) ≡ a -ℤ c
sub_sub a b c = omega int_laws

add_zero : (a : ℤ) → a +ℤ pos 0 ≡ a
add_zero a = omega int_laws

charge_buckets-price :
    {from : ℤ} {bs : List Bucket} (usage charge : ℤ)
    → Contiguous from bs
    → charge_buckets bs (usage -ℤ min_ℤ usage from) charge ≡ charge +ℤ price usage bs
unfolding charge_buckets price
charge_buckets-price usage charge (last from rate) = rw (usage_applied-last, add_zero)
charge_buckets-price usage charge (more {bs = bs} from to rate h c) =
    rw
      (usage_applied-within usage from to rate h, sub_sub usage (min_ℤ usage from) (min_ℤ usage to))
      (charge_buckets-price usage _ c ∙ +ℤ_assoc charge _ (price usage bs))

sub_min_zero : (usage : ℤ) → pos 0 ≤ℤ usage → usage -ℤ min_ℤ usage (pos 0) ≡ usage
unfolding ◌-ℤ◌
sub_min_zero usage h = ground arith

zero_add : (a : ℤ) → pos 0 +ℤ a ≡ a
zero_add a = omega int_laws

charge_buckets_from_zero :
    {bs : List Bucket} (usage : ℤ)
    → Contiguous (pos 0) bs
    → pos 0 ≤ℤ usage
    → charge_buckets bs usage (pos 0) ≡ price usage bs
charge_buckets_from_zero {bs} usage c h =
    subst (λ u. charge_buckets bs u (pos 0) ≡ pos 0 +ℤ price usage bs) (sub_min_zero usage h)
      (charge_buckets-price usage (pos 0) c)
    ∙ zero_add (price usage bs)

-- Where the normalized tiers are numbers that cover everything from 0 on without gap or overlap,
-- a usage that is not negative is charged each tier's part of it at the tier's rate.
pub calculate_variable_charge-price :
    (tiered_rate tier : List Tier) (bs : List Bucket) (usage : ℤ)
    → normalize_tier tiered_rate ≡ ok tier
    → read_buckets tier ≡ ok bs
    → Contiguous (pos 0) bs
    → pos 0 ≤ℤ usage
    → calculate_variable_charge usage (some tiered_rate) ≡ ok (price usage bs)
unfolding calculate_variable_charge
calculate_variable_charge-price tiered_rate tier bs usage n r c h =
    rw n (charge_tiers-read tier usage (pos 0) r ∙ ap ok (charge_buckets_from_zero usage c h))

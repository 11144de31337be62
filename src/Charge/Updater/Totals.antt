-- ===== src/Charge/Updater/Totals.antt =====
-- The charge dictionaries of a table's rows.
use masu.Prelude.{ℕ, ◌≡◌, refl, Option, some, List, [], ◌∷◌, arith, All, lookup, nat_eq}
use masu.Prelude.Int.{ℤ, ◌+ℤ◌}
use masu.Charge.{Tier, ok}
use masu.Charge.Variable.{calculate_variable_charge}
use masu.Charge.Updater.{
  charge_at, calculate_charge, aggregate_each, aggregate_charges, total_charge,
}
use masu.Charge.Updater.Keys.{Distinct, dict, lookup-dict, keys_within-same}

-- `p` is what the rates charge for each usage.
abbrev pub ChargedBy : Option (List Tier) → (ℤ → ℤ) → Type 0
ChargedBy rates p = (usage : ℤ) → calculate_variable_charge usage rates ≡ ok (p usage)

charge_at-some :
    (key : ℕ) (d : List (ℕ × (ℤ × ℤ))) {x : ℤ × ℤ}
    → lookup key d ≡ some x
    → charge_at key d ≡ ok (x.1)
unfolding charge_at
charge_at-some key d h = ground arith

module _ {R : Type 0} (key : R → ℕ) where
  calculate_charge-dict :
      (rates : Option (List Tier)) (p : ℤ → ℤ) (column : R → ℤ) (rows : List R)
      → ChargedBy rates p
      → calculate_charge rates (dict key column rows)
        ≡ ok (dict key (λ r. (column r, p (column r))) rows)
  unfolding calculate_charge
  calculate_charge-dict rates p column [] h = refl
  calculate_charge-dict rates p column (r ∷ rows) h =
      rw (h (column r), calculate_charge-dict rates p column rows h)

  aggregate_each-dict :
      (usage request : R → ℤ × ℤ) (d : List (ℕ × (ℤ × ℤ))) (rows : List R)
      → All (λ r. lookup (key r) d ≡ some (request r)) rows
      → aggregate_each (dict key usage rows) d
        ≡ ok (
            dict key
              (λ r. record {
                usage_charge = (usage r).1;
                request_charge = (request r).1;
                charge = (usage r).1 +ℤ (request r).1;
              })
              rows)
  unfolding aggregate_each
  aggregate_each-dict usage request d [] h = refl
  aggregate_each-dict usage request d (r ∷ rows) (h, hs) =
      rw (charge_at-some (key r) d h, aggregate_each-dict usage request d rows hs)

  -- Where the usage rates and the request rates have charges for every usage and the rows have
  -- distinct keys, the charge dictionary of a metric pair has, for each row, the charge of its usage,
  -- the charge of its request and their sum.
  pub total_charge-dict :
      (usage_rates request_rates : Option (List Tier)) (p q : ℤ → ℤ) (usage request : R → ℤ)
      (rows : List R)
      → ChargedBy usage_rates p
      → ChargedBy request_rates q
      → Distinct key rows
      → total_charge usage_rates request_rates (dict key usage rows) (dict key request rows)
        ≡ ok (
            dict key
              (λ r. record {
                usage_charge = p (usage r);
                request_charge = q (request r);
                charge = p (usage r) +ℤ q (request r);
              })
              rows)
  unfolding total_charge aggregate_charges
  total_charge-dict usage_rates request_rates p q usage request rows hp hq d =
      let u : R → ℤ × ℤ = λ r. (usage r, p (usage r)) in
      let w : R → ℤ × ℤ = λ r. (request r, q (request r)) in
      rw
        (
          calculate_charge-dict usage_rates p usage rows hp,
          calculate_charge-dict request_rates q request rows hq,
          keys_within-same key u w rows,
          keys_within-same key w u rows,
        )
        (aggregate_each-dict u w _ rows (lookup-dict key w rows d))

-- ===== src/Charge/Variable/Misorder.antt =====
-- Tiers whose ends stand in another order as texts than as numbers.
use masu.Prelude.{◌≡◌, refl, ◌∙◌, ap, true, false, Option, none, some, List, [], ◌∷◌, arith}
use masu.Prelude.Int.{ℤ, pos, ◌+ℤ◌, ◌-ℤ◌, ◌*ℤ◌, ◌≤ℤ◌, int_laws}
use masu.Charge.{Tier, ok}
use masu.Charge.Numeral.{text_leb}
use masu.Charge.Tiers.{is_first, is_last, is_middle, end_text, pop_end, normalize_tier}
use masu.Charge.Variable.{
  Bucket, bucket_applied, read_bucket, usage_applied, charge_tiers, calculate_variable_charge,
}

abbrev bucket : ℤ → Option ℤ → ℤ → Bucket
bucket from to rate = record { usage_start = from; usage_end = to; rate = rate }

applied_full : (usage upper : ℤ) → upper ≤ℤ usage → bucket_applied usage (pos 0) upper ≡ upper
unfolding bucket_applied
applied_full usage upper h = ground arith

applied_part :
    (usage upper : ℤ) → pos 0 ≤ℤ usage → usage ≤ℤ upper → bucket_applied usage (pos 0) upper ≡ usage
unfolding bucket_applied ◌-ℤ◌
applied_part usage upper h k = ground arith

-- One round of the loop whose bucket is known, and what it takes.
charge_tiers-round :
    (t : Tier) (ts : List Tier) (b : Bucket) (balance charge applied : ℤ)
    → read_bucket t ≡ ok b
    → usage_applied b balance ≡ applied
    → charge_tiers (t ∷ ts) balance charge
      ≡ charge_tiers ts (balance -ℤ applied) (charge +ℤ applied *ℤ b.rate)
unfolding charge_tiers
charge_tiers-round t ts b balance charge applied h e = rw (h, e)

mul_rest : (charge rate : ℤ) → charge +ℤ pos 0 *ℤ rate ≡ charge
unfolding ◌+ℤ◌ ◌*ℤ◌
mul_rest charge rate = ground arith

charge_tiers-nil : (balance charge : ℤ) → charge_tiers [] balance charge ≡ ok charge
unfolding charge_tiers
charge_tiers-nil balance charge = refl

only_two : (x y r s : ℤ) → pos 0 +ℤ x +ℤ y +ℤ pos 0 *ℤ r +ℤ pos 0 *ℤ s ≡ x +ℤ y
only_two x y r s = rw (mul_rest, mul_rest) (omega int_laws)

-- The loop over the tiers in the wrong order.
charge_tiers-misordered :
    (f m n l : Tier) (a b c f_rate m_rate n_rate l_rate : ℤ)
    → read_bucket f ≡ ok (bucket (pos 0) (some a) f_rate)
    → read_bucket m ≡ ok (bucket a (some b) m_rate)
    → read_bucket n ≡ ok (bucket b (some c) n_rate)
    → read_bucket l ≡ ok (bucket c none l_rate)
    → pos 0 ≤ℤ a
    → a ≤ℤ b
    → b -ℤ a ≤ℤ c -ℤ b
    → charge_tiers (f ∷ n ∷ m ∷ l ∷ []) b (pos 0) ≡ ok (a *ℤ f_rate +ℤ (b -ℤ a) *ℤ n_rate)
unfolding usage_applied
charge_tiers-misordered f m n l a b c f_rate m_rate n_rate l_rate hf hm hn hl h0 hab hbc =
    charge_tiers-round f _ _ b (pos 0) a hf (applied_a)
    ∙ charge_tiers-round n _ _ _ _ (b -ℤ a) hn (applied_part (b -ℤ a) (c -ℤ b) (omega int_laws) hbc)
    ∙ charge_tiers-round m _ _ _ _ (pos 0) hm
        (applied_part _ (b -ℤ a) (omega int_laws) (omega int_laws) ∙ omega int_laws)
    ∙ charge_tiers-round l _ _ _ _ (pos 0) hl (omega int_laws)
    ∙ charge_tiers-nil _ _
    ∙ ap ok (only_two (a *ℤ f_rate) ((b -ℤ a) *ℤ n_rate) m_rate l_rate)
  where
    applied_a : bucket_applied b (pos 0) (a -ℤ pos 0) ≡ a
    applied_a = applied_full b (a -ℤ pos 0) (omega int_laws) ∙ omega int_laws

module _ (f m n l : Tier) (f_first : is_first f ≡ true) (f_end : is_last f ≡ false)
    (m_middle : is_middle m ≡ true) (n_middle : is_middle n ≡ true) (l_start : is_first l ≡ false)
    (l_last : is_last l ≡ true) (by_text : text_leb (end_text m) (end_text n) ≡ false) where
  -- The second middle tier moves to the front of the first.
  normalize_tier-swaps : normalize_tier (f ∷ m ∷ n ∷ l ∷ []) ≡ ok (f ∷ n ∷ m ∷ pop_end l ∷ [])
  unfolding normalize_tier
  normalize_tier-swaps = ground arith

  -- Where the tiers are [0, a), [a, b), [b, c) and the rest, in this order, and the text of the end
  -- c comes before the text of the end b, a usage of b is charged the rate of [b, c) for all that
  -- is above a, though none of it is above b; provided that [b, c) is at least as wide as
  -- [a, b).
  pub calculate_variable_charge-misordered :
      (a b c f_rate m_rate n_rate l_rate : ℤ)
      → read_bucket f ≡ ok (bucket (pos 0) (some a) f_rate)
      → read_bucket m ≡ ok (bucket a (some b) m_rate)
      → read_bucket n ≡ ok (bucket b (some c) n_rate)
      → read_bucket (pop_end l) ≡ ok (bucket c none l_rate)
      → pos 0 ≤ℤ a
      → a ≤ℤ b
      → b -ℤ a ≤ℤ c -ℤ b
      → calculate_variable_charge b (some (f ∷ m ∷ n ∷ l ∷ []))
        ≡ ok (a *ℤ f_rate +ℤ (b -ℤ a) *ℤ n_rate)
  unfolding calculate_variable_charge
  calculate_variable_charge-misordered a b c f_rate m_rate n_rate l_rate hf hm hn hl h0 hab hbc =
      rw normalize_tier-swaps (
        charge_tiers-misordered f m n (pop_end l) a b c f_rate m_rate n_rate l_rate hf hm hn hl h0
          hab hbc)

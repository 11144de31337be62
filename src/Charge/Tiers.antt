-- ===== src/Charge/Tiers.antt =====
-- `_normalize_tier`: the tiers of a rate in the order in which usage fills them.
pub mod Order
use masu.Prelude.{
  ℕ, Bool, true, false, ◌&&◌, not, Option, none, some, List, [], ◌∷◌, ◌++◌, map, length, select,
  ◌==◌, nat_eq, if◌then◌else◌,
}
use masu.Charge.{
  Text, Tier, Result, ok, err, missing_first_tier, two_starting_tiers, missing_last_tier,
  two_final_tiers, ◌>>=◌, ◌>>◌, require, truthy,
}
use masu.Charge.Numeral.{text_leb}

abbrev pub is_first : Tier → Bool
is_first t = not (truthy t.usage_start)

abbrev pub is_last : Tier → Bool
is_last t = not (truthy t.usage_end)

abbrev pub is_middle : Tier → Bool
is_middle t = truthy t.usage_start && truthy t.usage_end

-- `k['usage_end']` of a middle tier, which has one.
abbrev pub end_text : Tier → Text
end_text t = elim t.usage_end [ none ↦ [] | some text ↦ text ]

-- `sorted(tiers, key=lambda k: k['usage_end'])`, stable, by the order of `str`.
unfoldable pub insert_tier : Tier → List Tier → List Tier
insert_tier t [] = t ∷ []
insert_tier t (u ∷ us) =
    let rest = insert_tier t us in
    if text_leb (end_text t) (end_text u) then t ∷ u ∷ us else u ∷ rest

unfoldable pub sorted : List Tier → List Tier
unfolding insert_tier
sorted [] = []
sorted (t ∷ ts) = insert_tier t (sorted ts)

-- `last_tier[0].pop('usage_end', None)`. The last tier is an object that may stand in `first_tier`
-- too: both are seen to change.
abbrev pub pop_end : Tier → Tier
pop_end t = if truthy t.usage_end then t else record t { usage_end = none }

unfoldable pub normalize_tier : List Tier → Result (List Tier)
unfolding sorted
normalize_tier input_tier = do
  let first_tier = select is_first input_tier
  let last_tier = select is_last input_tier
  let middle_tiers = select is_middle input_tier
  require (not (length first_tier == 0)) missing_first_tier
  require (length first_tier == 1) two_starting_tiers
  require (not (length last_tier == 0)) missing_last_tier
  require (length last_tier == 1) two_final_tiers
  ok (map pop_end first_tier ++ (sorted middle_tiers ++ map pop_end last_tier))

-- ===== src/Orchestrator/Accounts.antt =====
-- Which accounts the orchestrator works on.
use masu.Prelude.{
  ◌≡◌, refl, sym, String, Bool, true, false, none, some, List, [], ◌∷◌, arith, any, ◌==◌, string_eq,
  option_eq, Bool-cases, inl, inr,
}
use masu.Orchestrator.{Account, narrow, get_accounts}

abbrev pub matches : String → Account → Bool
matches billing_source account = some billing_source == account.billing_source

narrow-unmatched :
    (billing_source : String) (accounts all_accounts : List Account)
    → any (matches billing_source) accounts ≡ false
    → narrow billing_source accounts all_accounts ≡ all_accounts
unfolding narrow
narrow-unmatched billing_source [] all_accounts h = refl
narrow-unmatched billing_source (a ∷ accounts) all_accounts h =
    ground (arith, narrow-unmatched billing_source accounts all_accounts)

narrow-found :
    (billing_source : String) (accounts : List Account) (a : Account)
    → matches billing_source a ≡ true
    → (b : Account) × (narrow billing_source accounts (a ∷ []) ≡ b ∷ [])
      × (matches billing_source b ≡ true)
unfolding narrow
narrow-found billing_source [] a h = (a, refl, h)
narrow-found billing_source (c ∷ accounts) a h = elim (Bool-cases (matches billing_source c)) [
  | inl e ↦ rw e (narrow-found billing_source accounts c e)
  | inr e ↦ rw e (narrow-found billing_source accounts a h)
]

narrow-matched :
    (billing_source : String) (accounts all_accounts : List Account)
    → any (matches billing_source) accounts ≡ true
    → (b : Account) × (narrow billing_source accounts all_accounts ≡ b ∷ [])
      × (matches billing_source b ≡ true)
unfolding narrow
narrow-matched billing_source [] all_accounts h = cc
narrow-matched billing_source (c ∷ accounts) all_accounts h =
    elim (Bool-cases (matches billing_source c)) [
      | inl e ↦ rw e (narrow-found billing_source accounts c e)
      | inr e ↦ rw e (narrow-matched billing_source accounts all_accounts (rw e at h))
    ]

-- A billing source that is not empty and that some account has leaves exactly one account in the list
-- of all accounts, and that account has the billing source.
pub get_accounts-matched :
    (override : String → Bool) (accounts : List Account) (billing_source : String)
    → (billing_source == "") ≡ false
    → any (matches billing_source) accounts ≡ true
    → (b : Account) × ((get_accounts override (some accounts) (some billing_source)).0 ≡ b ∷ [])
      × (b.billing_source ≡ some billing_source)
unfolding get_accounts
get_accounts-matched override accounts billing_source e h =
    let (b, found, m) = narrow-matched billing_source accounts accounts h in
    (b, rw (e, found), sym ((option_eq.beq_iff (some billing_source) b.billing_source).0 m))

-- A billing source that no account has gives the same accounts and the same polling accounts as no
-- billing source.
pub get_accounts-unmatched :
    (override : String → Bool) (accounts : List Account) (billing_source : String)
    → any (matches billing_source) accounts ≡ false
    → get_accounts override (some accounts) (some billing_source)
      ≡ get_accounts override (some accounts) none
unfolding get_accounts
get_accounts-unmatched override accounts billing_source h =
    let unfiltered = narrow-unmatched billing_source accounts accounts h in
    elim (Bool-cases (billing_source == "")) [ inl e ↦ rw e | inr e ↦ rw (e, unfiltered) ]

-- ===== src/Api/Checks.antt =====
-- Which requests queue a task.
use masu.Prelude.{
  ℕ, ◌≡◌, refl, ap, ◌∙◌, String, true, false, ◌⊎◌, inl, inr, Option, none, some, List, arith, ◌==◌,
  nat_eq, string_eq, option_eq, Bool-cases,
}
use masu.Api.{
  Params, RemoveParams, queued, report_data, remove_report_data, provider_of, mismatched,
  all_providers, update_summary_tables, remove_expired_data, spells, lower, false_text,
}

-- The type of the provider that a request names: the one that is known of its uuid, or without a
-- uuid, or with an empty one, the one that it gives.
pub NamesType : (String → Option String) → Params → String → Type 0
NamesType get_type params provider =
    ((uuid : String) × (params.provider_uuid ≡ some uuid)
      × ((uuid == "") ≡ false)
      × (get_type uuid ≡ some provider))
    ⊎ (((params.provider_uuid ≡ none) ⊎ (params.provider_uuid ≡ some ""))
        × (params.provider_type ≡ some provider))

-- A type that a request gives is this one.
pub AgreesWith : Params → String → Type 0
AgreesWith params provider =
    (params.provider_type ≡ none)
    ⊎ (params.provider_type ≡ some "")
    ⊎ (params.provider_type ≡ some provider)

provider_of-NamesType :
    (get_type : String → Option String) (params : Params) (provider : String) (uuid : Option String)
    → params.provider_uuid ≡ uuid
    → provider_of get_type uuid params.provider_type ≡ some provider
    → NamesType get_type params provider
unfolding NamesType
provider_of-NamesType get_type params provider none e h = inr (inl e, h)
provider_of-NamesType get_type params provider (some uuid) e h = elim (Bool-cases (uuid == "")) [
  | inl empty ↦ inr (inr (e ∙ ap some ((string_eq.beq_iff uuid "").0 empty)), rw empty at h)
  | inr named ↦ inl (uuid, e, named, rw named at h)
]

mismatched-AgreesWith :
    (params : Params) (provider : String) (type : Option String)
    → params.provider_type ≡ type
    → mismatched type provider ≡ false
    → AgreesWith params provider
unfolding AgreesWith
mismatched-AgreesWith params provider none e h = inl e
mismatched-AgreesWith params provider (some t) e h = elim (Bool-cases (t == "")) [
  | inl empty ↦ inr (inl (e ∙ ap some ((string_eq.beq_iff t "").0 empty)))
  | inr named ↦ elim (Bool-cases (t == provider)) [
    | inl same ↦ inr (inr (e ∙ ap some ((string_eq.beq_iff t provider).0 same)))
    | inr other ↦ cc (rw (named, other) at h)
  ]
]

all_providers-star :
    (uuid : Option String) → all_providers uuid ≡ false → (uuid == some "*") ≡ false
all_providers-star none h = refl
all_providers-star (some uuid) h = h

report_data-tests :
    (get_type : String → Option String) (params : Params) (schema provider start_date : String)
    (uuid end_date : Option String)
    → report_data get_type params
      ≡ queued (update_summary_tables schema provider uuid start_date end_date)
    → (all_providers params.provider_uuid ≡ false)
      × (params.schema ≡ some schema)
      × (params.start_date ≡ some start_date)
      × (params.end_date ≡ end_date)
      × (params.provider_uuid ≡ uuid)
      × (provider_of get_type params.provider_uuid params.provider_type ≡ some provider)
      × (mismatched params.provider_type provider ≡ false)
unfolding report_data
report_data-tests get_type params schema provider start_date uuid end_date h = ground arith

-- If a GET request queues the update of one provider, then its uuid is not '*', it has the task's
-- schema, dates and uuid, and the task's type is the one that is known of the uuid, or without a
-- uuid, or with an empty one, the one that is given; a type that is given and not empty is the task's.
pub report_data-queued :
    (get_type : String → Option String) (params : Params) (schema provider start_date : String)
    (uuid end_date : Option String)
    → report_data get_type params
      ≡ queued (update_summary_tables schema provider uuid start_date end_date)
    → ((params.provider_uuid == some "*") ≡ false)
      × (params.schema ≡ some schema)
      × (params.start_date ≡ some start_date)
      × (params.end_date ≡ end_date)
      × (params.provider_uuid ≡ uuid)
      × NamesType get_type params provider
      × AgreesWith params provider
report_data-queued get_type params schema provider start_date uuid end_date h =
    let (one, s, d, e, u, t, m) =
      report_data-tests get_type params schema provider start_date uuid end_date h in
    (
      all_providers-star params.provider_uuid one,
      s,
      d,
      e,
      u,
      provider_of-NamesType get_type params provider params.provider_uuid refl t,
      mismatched-AgreesWith params provider params.provider_type refl m,
    )

-- A DELETE request queues a removal that deletes only if it has the task's schema, provider and
-- provider id, and it has no `simulate` or one that spells 'false' in some case.
pub remove_report_data-deletes :
    (params : RemoveParams) (schema provider provider_id : String)
    → remove_report_data params ≡ queued (remove_expired_data schema provider false provider_id)
    → (params.schema ≡ some schema)
      × (params.provider ≡ some provider)
      × (params.provider_id ≡ some provider_id)
      × ((params.simulate ≡ none)
          ⊎ ((text : List ℕ) × (params.simulate ≡ some text)
              × (spells (lower text) false_text ≡ true)))
unfolding remove_report_data
remove_report_data-deletes params schema provider provider_id h = ground arith

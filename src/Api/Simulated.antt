-- ===== src/Api/Simulated.antt =====
-- Requests to `/expired_data/` that remove nothing.
use mathlib.Core.Path.{subst}
use masu.Prelude.{
  ℕ, String, ◌≡◌, refl, ap, sym, ◌∙◌, Bool, true, false, ◌&&◌, ◌||◌, Option, none, some, List, [],
  ◌∷◌, All, ◌==◌, string_eq, lookup, insert, lookup-insert, Bool-cases, Option-cases, inl, inr,
}
use masu.Provider.{is_aws, is_ocp}
use masu.Orchestrator.{Account}
use masu.Summary.{Date}
use masu.Retention.{Result, ok, cleaner_error, remover_error}
use masu.Retention.Remover.{
  Schema, Removed, remove_expired_data, remove_expired_data-simulate, remove_expired_data-none,
}
use masu.Retention.Expiry.{remover_remove, calculate_expiration_date, first_ordinal}
use masu.Api.Others.{
  Method, is_delete, Removal, remove_expired_report_data, expired_data, Schemas, after_removal,
  on_schema, run_removal, run_removals,
}

-- A simulated removal that succeeds leaves the schema as it is; a provider of no known type has none.
Unchanged : Schema → Option (Result (Removed × Schema)) → Type 0
Unchanged schema none = Unit
Unchanged schema (some (ok (removed, after))) = after ≡ schema
Unchanged schema (some cleaner_error) = Unit
Unchanged schema (some (remover_error message)) = Unit

removal-Unchanged :
    (provider : String) (date : ℕ) (schema : Schema)
    → Unchanged schema (some (remove_expired_data provider date true none schema))
unfolding Unchanged
removal-Unchanged provider date schema = elim (Bool-cases (is_aws provider || is_ocp provider)) [
  | inl known ↦
      let (removed, e) = remove_expired_data-simulate provider date none schema known in rw e refl
  | inr other ↦ rw (remove_expired_data-none provider date true none schema other) tt
]

remover-Unchanged :
    (retain : ℕ) (provider : String) (today : Date) (schema : Schema)
    → Unchanged schema (remover_remove retain provider none today today true none schema)
unfolding remover_remove Unchanged
remover-Unchanged retain provider today schema =
    elim (Option-cases (calculate_expiration_date retain today)) [
      | inl e ↦ rw e tt
      | inr (expired, e) ↦ rw e (removal-Unchanged provider (first_ordinal expired) schema)
    ]

insert-lookup :
    (name other : String) (schema after : Schema) (schemas : Schemas)
    → lookup name schemas ≡ some schema
    → after ≡ schema
    → lookup other (insert name after schemas) ≡ lookup other schemas
insert-lookup name other schema after schemas e same =
    lookup-insert other name after schemas ∙ elim (Bool-cases (other == name)) [
      | inl is_it ↦ rw (is_it, (string_eq.beq_iff other name).0 is_it) (ap some same ∙ sym e)
      | inr another ↦ rw another refl
    ]

after_removal-lookup :
    (name other : String) (schema : Schema) (schemas : Schemas)
    (result : Option (Result (Removed × Schema)))
    → lookup name schemas ≡ some schema
    → Unchanged schema result
    → lookup other (after_removal name schemas result) ≡ lookup other schemas
unfolding Unchanged
after_removal-lookup name other schema schemas none e h = refl
after_removal-lookup name other schema schemas (some (ok (removed, after))) e h =
    insert-lookup name other schema after schemas e h
after_removal-lookup name other schema schemas (some cleaner_error) e h = refl
after_removal-lookup name other schema schemas (some (remover_error message)) e h = refl

run_removal-lookup :
    (retain : ℕ) (today : Date) (task : Removal) (schemas : Schemas) (other : String)
    → task.simulate ≡ true
    → lookup other (run_removal retain today task schemas) ≡ lookup other schemas
unfolding run_removal
run_removal-lookup retain today task schemas other s =
    elim (Option-cases (lookup task.schema_name schemas)) [
      | inl absent ↦ rw absent refl
      | inr (schema, found) ↦
          ap (λ o. lookup other (on_schema retain today task schemas o)) found
          ∙ after_removal-lookup task.schema_name other schema schemas
              (remover_remove retain task.provider none today today task.simulate none schema) found
              (subst
                (λ b.
                  Unchanged schema
                    (remover_remove retain task.provider none today today b none schema))
                (sym s) (remover-Unchanged retain task.provider today schema))
    ]

run_removals-lookup :
    (retain : ℕ) (today : Date) (tasks : List Removal) (schemas : Schemas) (other : String)
    → All (λ (task : Removal). task.simulate ≡ true) tasks
    → lookup other (run_removals retain today tasks schemas) ≡ lookup other schemas
unfolding run_removals
run_removals-lookup retain today [] schemas other h = refl
run_removals-lookup retain today (task ∷ tasks) schemas other (h, hs) =
    run_removals-lookup retain today tasks (run_removal retain today task schemas) other hs
    ∙ run_removal-lookup retain today task schemas other h

All-simulated :
    (accounts : List Account)
    → All (λ (task : Removal). task.simulate ≡ true) (remove_expired_report_data true accounts)
unfolding remove_expired_report_data
All-simulated [] = tt
All-simulated (account ∷ accounts) = (refl, All-simulated accounts)

-- Unless it is a DELETE in debug mode, a request to `/expired_data/` changes no table of any customer:
-- the tasks that it queues for the accounts leave every schema as it was, whatever the accounts and
-- the day.
pub expired_data-lookup :
    (method : Method) (debug : Bool) (accounts : List Account) (retain_num_months : ℕ)
    (today : Date) (schemas : Schemas) (name : String)
    → (is_delete method && debug) ≡ false
    → lookup name
        (run_removals retain_num_months today (expired_data method debug accounts) schemas)
      ≡ lookup name schemas
unfolding expired_data
expired_data-lookup method debug accounts retain today schemas name h = rw h (
    run_removals-lookup retain today (remove_expired_report_data true accounts) schemas name
      (All-simulated accounts))

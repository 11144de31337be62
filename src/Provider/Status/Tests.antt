-- ===== src/Provider/Status/Tests.antt =====
-- Runs of a provider's status.
use masu.Prelude.{ℕ, ◌+◌, ◌*◌, ◌≤◌, ◌≡◌, refl, ◌≢◌, ◌↔◌, String, true, none, some, List, [], ◌∷◌}
use masu.Provider.Status.{
  ready, warning, disabled_error, disabled_admin, ProviderStatus, open_status, backoff, hour,
  is_valid, set_error,
}
use masu.Provider.Status.Lifecycle.{
  failed, succeeded, Attempt, attempts, fail_all, IsConsistent, attempts_from_open, fail_all-ready,
  set_error-admin,
}

abbrev new_row : ProviderStatus
new_row = record { status = ready; timestamp = 5; retries = 0; last_message = "none" }

abbrev two_downloads : List Attempt
two_downloads = failed "timeout" 7 ∷ succeeded 9 ∷ failed "denied" 11 ∷ []

abbrev eleven_failures : List (String × ℕ)
eleven_failures =
    ("a", 1)
    ∷ ("a", 2)
    ∷ ("a", 3)
    ∷ ("a", 4)
    ∷ ("a", 5)
    ∷ ("a", 6)
    ∷ ("a", 7)
    ∷ ("a", 8)
    ∷ ("a", 9)
    ∷ ("a", 10)
    ∷ ("a", 11)
    ∷ []

abbrev paused_row : ProviderStatus
paused_row = record { status = disabled_admin; timestamp = 5; retries = 10; last_message = "none" }

abbrev waiting_row : ProviderStatus
waiting_row = record { status = warning; timestamp = 5; retries = 3; last_message = "timeout" }

ten_failures_test : (set_error none 20 waiting_row).retries ≡ 4
unfolding set_error
ten_failures_test = refl

backoff_test : backoff 3 24 500 ≡ 8 * hour + 1800000000
unfolding backoff
backoff_test = refl

attempts_from_open_example :
    IsConsistent (attempts two_downloads new_row)
    × ((is_valid (attempts two_downloads new_row) ≡ true)
        ↔ ((attempts two_downloads new_row).status ≢ disabled_error))
unfolding open_status
attempts_from_open_example = attempts_from_open 5 two_downloads new_row refl

fail_all-ready_example :
    ((fail_all eleven_failures new_row).status ≡ disabled_error)
    × ((fail_all eleven_failures new_row).retries ≡ 10)
fail_all-ready_example = fail_all-ready eleven_failures new_row refl refl

set_error-admin_example :
    ((set_error (some "denied") 20 paused_row).status ≡ disabled_error) ↔ (10 ≤ 10)
set_error-admin_example = set_error-admin (some "denied") 20 paused_row refl

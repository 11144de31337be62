-- ===== src/Provider/Status/Lifecycle.antt =====
-- The states that a provider goes through as downloads fail and succeed.
use masu.Prelude.{
  ℕ, ◌+◌, ◌≤◌, String, ◌≡◌, refl, ◌≢◌, ◌↔◌, nat_eq, ◌==◌, min, true, Option, none, some, List, [],
  ◌∷◌, arith, leb, if◌then◌else◌, length,
}
use masu.Provider.Status.{
  StatusCode, new, ready, warning, disabled_error, disabled_admin, ProviderStatus, max_retries,
  opened, open_status, is_valid, set_status, set_error,
}

-- What `_get_report_files` does to the row after each download attempt.
pub data Attempt : Type 0 where
  failed : (error : String) (now : ℕ) → Attempt
  succeeded : (now : ℕ) → Attempt

pub attempt : Attempt → ProviderStatus → ProviderStatus
attempt (failed error now) s = set_error (some error) now s
attempt (succeeded now) s = set_status ready none now s

-- Failures in a row, each with its message and its time.
pub fail_all : List (String × ℕ) → ProviderStatus → ProviderStatus
fail_all [] s = s
fail_all ((error, now) ∷ rest) s = fail_all rest (set_error (some error) now s)

-- READY has no retries, WARNING has between one and the maximum, DISABLED_ERROR is entered with
-- exactly the maximum. NEW and DISABLED_ADMIN are written by the Koku API alone.
abbrev pub RetriesFit : StatusCode → ℕ → Type 0
RetriesFit ready retries = retries ≡ 0
RetriesFit warning retries = (1 ≤ retries) × (retries ≤ max_retries)
RetriesFit disabled_error retries = retries ≡ max_retries
RetriesFit _ retries = ⊥

abbrev pub IsConsistent : ProviderStatus → Type 0
IsConsistent s = RetriesFit s.status s.retries

set_error-RetriesFit :
    (c : StatusCode) (error : Option String) (now time retries : ℕ) (message : String)
    → RetriesFit c retries
    → IsConsistent (
        set_error error now
          (record { status = c; timestamp = time; retries = retries; last_message = message }))
unfolding set_error
set_error-RetriesFit new error now time retries message h = absurd h
set_error-RetriesFit _ error now time retries message h = ground arith

attempt-IsConsistent :
    (a : Attempt) (s : ProviderStatus) → IsConsistent s → IsConsistent (attempt a s)
unfolding attempt set_status
attempt-IsConsistent (failed error now) s h =
    set_error-RetriesFit s.status (some error) now s.timestamp s.retries s.last_message h
attempt-IsConsistent (succeeded now) s h = refl

pub attempts : List Attempt → ProviderStatus → ProviderStatus
attempts [] s = s
attempts (a ∷ rest) s = attempts rest (attempt a s)

attempts-IsConsistent :
    (l : List Attempt) (s : ProviderStatus) → IsConsistent s → IsConsistent (attempts l s)
unfolding attempts
attempts-IsConsistent [] s h = h
attempts-IsConsistent (a ∷ rest) s h =
    attempts-IsConsistent rest (attempt a s) (attempt-IsConsistent a s h)

RetriesFit-is_valid :
    (c : StatusCode) (time retries : ℕ) (message : String)
    → RetriesFit c retries
    → (is_valid (record { status = c; timestamp = time; retries = retries; last_message = message })
        ≡ true)
      ↔ (c ≢ disabled_error)
unfolding is_valid
RetriesFit-is_valid new time retries message h = absurd h
RetriesFit-is_valid _ time retries message h = ground arith

-- From the row that a new provider gets, after any sequence of failed and successful downloads,
-- the row is consistent (READY without retries, WARNING with one to ten, or DISABLED_ERROR with ten),
-- and it is valid if and only if it is not DISABLED_ERROR.
pub attempts_from_open :
    (now : ℕ) (l : List Attempt) (s : ProviderStatus)
    → open_status true none now ≡ opened s
    → IsConsistent (attempts l s)
      × ((is_valid (attempts l s) ≡ true) ↔ ((attempts l s).status ≢ disabled_error))
unfolding open_status
attempts_from_open now l s h =
    let start : IsConsistent s = ground arith in
    let t = attempts l s in
    let kept = attempts-IsConsistent l s start in
    (kept, RetriesFit-is_valid t.status t.timestamp t.retries t.last_message kept)

fail_all-disabled :
    (l : List (String × ℕ)) (s : ProviderStatus)
    → s.status ≡ disabled_error
    → s.retries ≡ max_retries
    → ((fail_all l s).status ≡ disabled_error) × ((fail_all l s).retries ≡ max_retries)
unfolding fail_all set_error
fail_all-disabled [] s w h = (w, h)
fail_all-disabled ((error, now) ∷ rest) s w h =
    ground (arith, fail_all-disabled rest (set_error (some error) now s))

-- What `n` failures in a row make of a READY row.
abbrev pub status_after : ℕ → StatusCode
status_after n = if n == 0 then ready else if leb n max_retries then warning else disabled_error

fail_all-warning_max :
    (l : List (String × ℕ)) (s : ProviderStatus)
    → s.status ≡ warning
    → 1 ≤ s.retries
    → s.retries ≤ max_retries
    → ((fail_all l s).status ≡ status_after (s.retries + length l))
      × ((fail_all l s).retries ≡ min (s.retries + length l) max_retries)
unfolding fail_all set_error
fail_all-warning_max [] s w low h = ground arith
fail_all-warning_max ((error, now) ∷ rest) s w low h =
    let s' = set_error (some error) now s in
    ground (arith, fail_all-warning_max rest s', fail_all-disabled rest s')

-- From a READY row with no retries, no failure leaves READY, one to ten failures in a row leave
-- WARNING with as many retries, and more leave DISABLED_ERROR with ten retries.
pub fail_all-ready :
    (l : List (String × ℕ)) (s : ProviderStatus)
    → s.status ≡ ready
    → s.retries ≡ 0
    → ((fail_all l s).status ≡ status_after (length l))
      × ((fail_all l s).retries ≡ min (length l) max_retries)
unfolding fail_all set_error
fail_all-ready [] s w h = ground arith
fail_all-ready ((error, now) ∷ rest) s w h =
    ground (arith, fail_all-warning_max rest (set_error (some error) now s))

-- After `set_error` on a row that an administrator has disabled, the row is DISABLED_ERROR if and only
-- if it had at least the maximum of retries.
pub set_error-admin :
    (error : Option String) (now : ℕ) (s : ProviderStatus)
    → s.status ≡ disabled_admin
    → ((set_error error now s).status ≡ disabled_error) ↔ (max_retries ≤ s.retries)
unfolding set_error
set_error-admin error now s h = ground arith

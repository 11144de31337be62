-- ===== src/Provider/Status/Backoff.antt =====
-- How long a provider waits between download attempts.
use Prim.Native.Nat.pow
use masu.Prelude.{ℕ, zero, suc, ◌+◌, ◌*◌, ◌^◌, ◌≤◌, ◌<◌, String, ◌≡◌, true, false, Option, arith}
use masu.Provider.Status.{ProviderStatus, hour, backoff, is_valid, is_backing_off, set_error}
use masu.Provider.Status.Lifecycle.{IsConsistent}

one-le-pow : (n : ℕ) → 1 ≤ 2 ^ n
one-le-pow zero = omega arith
one-le-pow (suc n) = omega (arith, one-le-pow n, pow.suc 2 n)

two-le-pow : (n : ℕ) → 1 ≤ n → 2 ≤ 2 ^ n
two-le-pow zero h = elim h [ ]
two-le-pow (suc n) h = omega (arith, one-le-pow n, pow.suc 2 n)

-- Where the maximum is at least one hour and the jitter at most 1000, the wait is at least one hour
-- and at most one hour more than the maximum.
pub backoff_bounds :
    (interval maximum jitter : ℕ)
    → 1 ≤ maximum
    → jitter ≤ 1000
    → (hour ≤ backoff interval maximum jitter)
      × (backoff interval maximum jitter ≤ (maximum + 1) * hour)
unfolding backoff
backoff_bounds interval maximum jitter h j = ground (arith, one-le-pow interval)

-- A failure that leaves a consistent row valid keeps it backing off up to two hours after the
-- failure, whatever the jitter.
pub backing_off_after_failure :
    (s : ProviderStatus) (error : Option String) (now today jitter : ℕ)
    → IsConsistent s
    → is_valid (set_error error now s) ≡ true
    → today ≤ now + 2 * hour
    → is_backing_off (set_error error now s) today jitter ≡ true
unfolding is_backing_off is_valid set_error
backing_off_after_failure s error now today jitter c v h =
    ground (arith, two-le-pow (s.retries + 1))

-- More than twenty-five hours after a failure on a consistent row it is no longer backing off, for
-- every jitter of at most 1000.
pub released_after_backoff :
    (s : ProviderStatus) (error : Option String) (now today jitter : ℕ)
    → IsConsistent s
    → jitter ≤ 1000
    → now + 25 * hour < today
    → is_backing_off (set_error error now s) today jitter ≡ false
unfolding is_backing_off set_error
released_after_backoff s error now today jitter c j h = ground arith

-- ===== src/Util/Backoff.antt =====
-- The times that failed operations wait for.
use native.Mathlib.Nat.{pow-le-pow_right}
use potter_controller.Prelude.{arith, some, ℕ, ◌+◌, ◌<◌, ◌^◌, ◌≡◌, ◌≤◌}
use potter_controller.Api.{LastOperation, Time}
use potter_controller.Util.Requeue.{
  calculate_requeue_duration_for_premature_retry, calculate_requeue_timeout, requeue_timeout_base,
  requeue_timeout_max,
}

pow_bound : (t : ℕ) → t ≤ 8 → 2 ^ t ≤ 256
pow_bound t e = pow-le-pow_right {n = 2} (omega arith) {i = t} {j = 8} e

pow_facts :
    (t l : ℕ)
    → t ≤ l
    → (1 ≤ 2 ^ t) × (2 ^ t ≤ 2 ^ l) × (t ≤ 8 → 2 ^ t ≤ 256) × (l ≤ 8 → 2 ^ l ≤ 256)
pow_facts t l h = (
  pow-le-pow_right {n = 2} (omega arith) {i = 0} {j = t} (omega arith),
  pow-le-pow_right {n = 2} (omega arith) {i = t} {j = l} h,
  pow_bound t,
  pow_bound l,
)

-- Of two numbers of tries that are not negative as an int32, the timeout of the larger one is at least
-- that of the smaller one, and both are from 10 seconds to an hour.
pub requeue_timeout_bounds :
    (tries later : ℕ)
    → tries ≤ later
    → later < 2147483648
    → (requeue_timeout_base ≤ calculate_requeue_timeout tries)
      × (calculate_requeue_timeout tries ≤ calculate_requeue_timeout later)
      × (calculate_requeue_timeout later ≤ requeue_timeout_max)
unfolding calculate_requeue_timeout
requeue_timeout_bounds tries later h h' = ground (arith, pow_facts tries later h)

-- A retry that is put off is put off to the time of the last operation and the timeout of its number
-- of tries; that time has not passed then.
premature_retry_at :
    (now d : Time) (op : LastOperation)
    → calculate_requeue_duration_for_premature_retry now op ≡ some d
    → (0 < d) × (now + d ≡ op.time + calculate_requeue_timeout op.number_of_tries)
unfolding calculate_requeue_duration_for_premature_retry
premature_retry_at now d op h = ground arith

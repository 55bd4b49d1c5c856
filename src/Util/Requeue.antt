-- ===== src/Util/Requeue.antt =====
-- The back-off of pkg/util/util.go: `CalculateRequeueTimeout`,
-- `CalculateRequeueDurationForPrematureRetry`, and `Repeat`.
use potter_controller.Prelude.{
  Bool, Option, false, if◌then◌else◌, leb, ltb, none, some, suc, true, zero, ℕ, ◌*◌, ◌+◌, ◌-◌, ◌^◌,
}
use potter_controller.Api.{Duration, LastOperation, Time, hour, second}

abbrev pub requeue_timeout_base : Duration
requeue_timeout_base = 10 * second

abbrev pub requeue_timeout_max : Duration
requeue_timeout_max = hour

-- The number of tries is an int32, by its bit pattern: from 2 ^ 31 on it is negative.
unfoldable pub calculate_requeue_timeout : ℕ → Duration
calculate_requeue_timeout tries =
    if leb 2147483648 tries
    then requeue_timeout_base
    else if ltb 8 tries
    then requeue_timeout_max
    else requeue_timeout_base * 2 ^ tries

-- The duration to wait before the next try, or `none` where it may be made now.
unfoldable pub calculate_requeue_duration_for_premature_retry :
    Time → LastOperation → Option Duration
unfolding calculate_requeue_timeout
calculate_requeue_duration_for_premature_retry now op =
    let next = op.time + calculate_requeue_timeout op.number_of_tries in
    if ltb now next then some (next - now) else none

-- The rounds of `Repeat` after the first, each after a pause.
unfoldable pub repeat_again {ℓ} : {W : Type ℓ} → (W → Bool × W) → (W → W) → ℕ → W → Bool × W
repeat_again f pause zero w = (false, w)
repeat_again f pause (suc n) w =
    let (done, w1) = f (pause w) in
    let rest = repeat_again f pause n w1 in if done then (true, w1) else rest

unfoldable pub repeat {ℓ} : {W : Type ℓ} → (W → Bool × W) → ℕ → (W → W) → W → Bool × W
unfolding repeat_again
repeat f zero pause w = (false, w)
repeat f (suc n) pause w =
    let (done, w1) = f w in if done then (true, w1) else repeat_again f pause n w1

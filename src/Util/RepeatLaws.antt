-- ===== src/Util/RepeatLaws.antt =====
-- `Repeat`: it ends after the round that is done, or after all its rounds.
use potter_controller.Prelude.{Bool, arith, false, refl, suc, true, zero, ℕ, ◌<◌, ◌≡◌}
use potter_controller.Util.Requeue.{repeat, repeat_again}

-- The world before a round: each earlier one was followed by a pause.
unfoldable pub before_round {ℓ} : {W : Type ℓ} → (W → Bool × W) → (W → W) → ℕ → W → W
before_round f pause zero w = w
before_round f pause (suc k) w = before_round f pause k (pause (f w).1)

module _ {W : Type 0} (f : W → Bool × W) (pause : W → W) where
  repeat_again-round :
      (k n : ℕ) (w : W)
      → k < n
      → ((i : ℕ) → i < k → (f (before_round f pause i (pause w))).0 ≡ false)
      → (f (before_round f pause k (pause w))).0 ≡ true
      → repeat_again f pause n w ≡ (true, (f (before_round f pause k (pause w))).1)
  unfolding repeat_again before_round
  repeat_again-round k zero w h earlier here = absurd (omega arith)
  repeat_again-round zero (suc n) w h earlier here = rw here refl
  repeat_again-round (suc k) (suc n) w h earlier here = rw (earlier 0 (omega arith)) (
      repeat_again-round k n (f (pause w)).1 (omega arith) (λ i l. earlier (suc i) (omega arith))
        here)

  -- Where a round within the count is the first that is done, `Repeat` returns true in the world after
  -- this round, and runs no other.
  pub repeat_stops_at_first :
      (k n : ℕ) (w : W)
      → k < n
      → ((i : ℕ) → i < k → (f (before_round f pause i w)).0 ≡ false)
      → (f (before_round f pause k w)).0 ≡ true
      → repeat f n pause w ≡ (true, (f (before_round f pause k w)).1)
  unfolding repeat before_round
  repeat_stops_at_first k zero w h earlier here = absurd (omega arith)
  repeat_stops_at_first zero (suc n) w h earlier here = rw here refl
  repeat_stops_at_first (suc k) (suc n) w h earlier here =
      rw (earlier 0 (omega arith))
        (repeat_again-round k n (f w).1 (omega arith) (λ i l. earlier (suc i) (omega arith)) here)

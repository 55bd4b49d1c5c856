-- ===== src/StateController/Progress.antt =====
-- The progress of a clusterbom, in percent.
use native.Mathlib.Nat.{div-add-mod, mod-lt}
use potter_controller.Prelude.{arith, length, ℕ, ◌*◌, ◌+◌, ◌/◌, ◌<◌, ◌↔◌, ◌≡◌, ◌≤◌}
use potter_controller.StateController.Statistics.{
  Statistics, get_overall_num_of_deployments, get_overall_num_of_ready_deployments,
  get_overall_progress,
}

div_full : (s n : ℕ) → 0 < n → s ≤ n → (s * 100 / n ≤ 100) × ((s * 100 / n ≡ 100) ↔ (s ≡ n))
div_full s n pos le = grind (arith, div-add-mod (s * 100) n, mod-lt (s * 100) pos)

-- The progress is at most 100, and it is 100 exactly when every counted application is ready.
pub progress_bounds :
    (s : Statistics)
    → (get_overall_progress s ≤ 100)
      × ((get_overall_progress s ≡ 100)
          ↔ (get_overall_num_of_ready_deployments s ≡ get_overall_num_of_deployments s))
unfolding get_overall_progress get_overall_num_of_ready_deployments get_overall_num_of_deployments
progress_bounds s = ground (
  arith,
  div_full (length s.successful_apps)
      (length s.failed_apps + length s.pending_apps + length s.successful_apps),
)

-- ===== src/Kapp/PauseLaws.antt =====
-- When an app is paused and resumed, when its deletion is reported, and that no nil App is read.
use potter_controller.Prelude.{
  Option, arith, eqb, false, if_lem, ltb, ltb→le, none, not, refl, some, true, ◌&&◌, ◌*◌, ◌+◌, ◌≡◌,
  ◌≤◌,
}
use potter_controller.Api.{Time, minute}
use potter_controller.Kapp.App.{App, PauseStatus, has_problem}
use potter_controller.Kapp.Pause.{KappClient, next_pause_status}

-- What it takes to pause an app, by its old status and the time that was read.
abbrev pub MayPause : App → PauseStatus → Time → Type 0
MayPause app old now =
    (has_problem app ≡ true)
    × (old.problem ≡ true)
    × (old.paused ≡ false)
    × (old.problem_since + 15 * minute ≤ now)

-- What the new status promises: a paused app may be paused, an app that was paused and has its problem
-- still is resumed after five minutes at the earliest, and the start of a problem stays.
abbrev pub Justified : App → PauseStatus → Time → Option PauseStatus → Type 0
Justified app old now none = Unit
Justified app old now (some new) =
    (new.paused ≡ true → MayPause app old now)
    × (old.paused ≡ true
        → has_problem app ≡ true
        → old.problem ≡ true
        → old.paused_since + 5 * minute ≤ now)
    × (new.problem ≡ has_problem app)
    × (has_problem app ≡ true → old.problem ≡ true → new.problem_since ≡ old.problem_since)

module _ {W : Type 0} (c : KappClient W) where
  -- The new status that is computed at the time that is read first. Where it pauses the app, then the app
  -- has a problem, was not paused before, and its problem was recorded a quarter of an hour ago at least.
  -- A status for an app that was paused and still has its recorded problem comes five minutes after the
  -- pause at the earliest. The status records a problem exactly if the app has one, and keeps the start of
  -- a problem that was recorded.
  pub next_pause_status-Justified :
      (app : App) (old : PauseStatus) (w : W)
      → Justified app old (c.now w).0 (next_pause_status c app old w).0
  unfolding next_pause_status
  next_pause_status-Justified app old w =
      if_lem P (not (eqb app.meta.generation app.status.observed_generation) && not old.paused)
        (λ _. _)
        (λ _.
          if_lem P (not (has_problem app))
            (λ sound. (
              λ e. absurd (ground (arith, e)),
              λ a b d. absurd (ground arith),
              ground arith,
              λ a b. absurd (ground arith),
            ))
            (λ trouble.
              if_lem P (not old.problem)
                (λ new. (
                  λ e. absurd (ground (arith, e)),
                  λ a b d. absurd (ground arith),
                  ground arith,
                  λ a b. absurd (ground arith),
                ))
                (λ known.
                  if_lem P (not old.paused)
                    (λ runs.
                      if_lem P (ltb (c.now w).0 (old.problem_since + 15 * minute))
                        (λ _. (
                          λ e. absurd (ground (arith, e)),
                          λ a b d. absurd (ground arith),
                          ground arith,
                          λ a b. refl,
                        ))
                        (λ late. (
                          λ _. (
                            ground arith,
                            ground arith,
                            ground arith,
                            ltb→le (c.now w).0 (old.problem_since + 15 * minute) late,
                          ),
                          λ a b d. absurd (ground arith),
                          ground arith,
                          λ a b. refl,
                        )))
                    (λ paused.
                      if_lem P (ltb (c.now w).0 (old.paused_since + 5 * minute)) (λ _. _)
                        (λ late. (
                          λ e. absurd (ground (arith, e)),
                          λ a b d. ltb→le (c.now w).0 (old.paused_since + 5 * minute) late,
                          ground arith,
                          λ a b. refl,
                        ))))))
    where
      P : Option PauseStatus × W → Type 0
      P r = Justified app old (c.now w).0 r.0

-- ===== src/Kapp/Pause.antt =====
-- `Preprocess` of the kapp deployer: an app with a problem is paused after a quarter of an hour, and
-- resumed for a try every five minutes.
use potter_controller.Prelude.{
  Option, eqb, false, if◌then◌else◌, ltb, none, not, some, true, ◌&&◌, ◌*◌, ◌+◌,
}
use potter_controller.Api.{ApiError, Duration, NamespacedName, Result, Time, err, minute, ok}
use potter_controller.Kapp.App.{
  App, PauseStatus, PauseText, get_old_or_initial_pause_status, has_problem, no_pause, same_pause,
  set_pause_status,
}

pub record KappClient (W : Type 0) : Type 0 where
  pub get_app : NamespacedName → W → Result App × W
  pub create_app : App → W → Option ApiError × W
  pub update_app : App → W → Option ApiError × W
  pub delete_app : App → W → Option ApiError × W
  pub now : W → Time × W
  pub sleep : Duration → W → W
  pub text : PauseText

module _ {W : Type 0} (c : KappClient W) where
  -- Its error is only logged.
  unfoldable pub update_app_paused_status : App → PauseStatus → PauseStatus → W → W
  unfolding set_pause_status
  update_app_paused_status app old new w =
      let written = (c.update_app (set_pause_status c.text app new) w).1 in
      if same_pause old new then w else written

  -- The new status, or `none` where nothing is to be written.
  unfoldable pub next_pause_status : App → PauseStatus → W → Option PauseStatus × W
  unfolding has_problem
  next_pause_status app old w =
      let (now, w1) = c.now w in
      let (later_time, w2) = c.now w1 in
      if not (eqb app.meta.generation app.status.observed_generation) && not old.paused
      then (none, w)
      else if not (has_problem app)
      then (some no_pause, w)
      else if not old.problem
      then (
        some (record { paused = false; paused_since = 0; problem = true; problem_since = now }),
        w1,
      )
      else if not old.paused
      then (if ltb now (old.problem_since + 15 * minute)
          then (
            some (record {
              paused = false;
              paused_since = 0;
              problem = true;
              problem_since = old.problem_since;
            }),
            w1,
          )
          else (
            some (record {
              paused = true;
              paused_since = later_time;
              problem = true;
              problem_since = old.problem_since;
            }),
            w2,
          ))
      else if ltb now (old.paused_since + 5 * minute)
      then (none, w1)
      else (
        some (record {
          paused = false;
          paused_since = later_time;
          problem = true;
          problem_since = old.problem_since;
        }),
        w2,
      )

  unfoldable pub preprocess_app : NamespacedName → W → W
  unfolding get_old_or_initial_pause_status next_pause_status update_app_paused_status
  preprocess_app key w =
      let (r, w1) = c.get_app key w in
      elim r [
        | err _ ↦ w1
        | ok app ↦ elim (get_old_or_initial_pause_status c.text app) [
          | none ↦ w1
          | some old ↦
              let (s, w2) = next_pause_status app old w1 in
              elim s [ none ↦ w2 | some new ↦ update_app_paused_status app old new w2 ]
        ]
      ]

-- ===== src/ReconcileController/Laws.antt =====
-- When a clusterbom is old enough for its deletion, and when the lock of the loop is respected.
use potter_controller.Prelude.{
  Bool, Map, Option, String, ap, arith, false, if◌then◌else◌, leb, lookup, ltb, none, refl, some,
  true, ℕ, ◌*◌, ◌+◌, ◌==◌, ◌≡◌, ◌≤◌,
}
use potter_controller.Api.{Duration, Result, Time, err, minute, ok, other_error}
use potter_controller.ControllerUtil.{text_at}
use potter_controller.ReconcileController.Calls.{
  ConfigMap, ReconcileClient, ReconcileController, entry_at,
}
use potter_controller.ReconcileController.Cleanup.{is_older_than}
use potter_controller.ReconcileController.Lock.{
  block_id_key, block_map, block_until_key, take_over, take_over_allowed,
}
use potter_controller.ReconcileController.Loop.{reconcile_all}

-- For an age of at most 307445734 minutes, and a clusterbom that is not created after the time that is
-- read: up to 153722867 minutes the age is measured as it is meant. Above, its product with a minute is
-- negative as a signed 64-bit integer, and the clusterbom counts as older from its creation on.
pub is_older_than_bounds :
    (creation age now : ℕ)
    → age ≤ 307445734
    → creation ≤ now
    → is_older_than creation age now
      ≡ (if leb age 153722867 then ltb (creation + age * minute) now else true)
unfolding is_older_than
is_older_than_bounds creation age now h h' = ground (arith, h, h')

module _ {W : Type 0} (c : ReconcileClient W) (r : ReconcileController) where
  take_over_allowed-foreign :
      (m : ConfigMap) (entries : Map String) (owner : String) (until : Time) (w : W)
      → m.entries ≡ some entries
      → lookup block_id_key entries ≡ some owner
      → (owner == r.unique_id) ≡ false
      → c.unmarshal_time (text_at block_until_key entries) ≡ some until
      → (c.now w).0 ≤ until + minute
      → take_over_allowed c r m w ≡ (some false, (c.now w).1)
  unfolding take_over_allowed
  take_over_allowed-foreign m entries owner until w es id other time early =
      let time' : c.unmarshal_time (entry_at block_until_key m) ≡ some until = rw es time in
      rw (es, take_over_allowed) (rw (id, other) (rw time' (ground (arith, early))))

  refused :
      (m : ConfigMap) (duration : Duration) (w u : W)
      → (c.get_map r.config_map_key w).0 ≡ ok m
      → take_over_allowed c r m (c.get_map r.config_map_key w).1 ≡ (some false, u)
      → block_map c r duration w ≡ some (ok false, u)
  unfolding block_map
  refused m duration w u get n =
      let rest : Option Bool × W → Option (Result Bool × W) = λ p. elim p.0 [
        | none ↦ some (err (other_error "error unmarshaling block time"), p.1)
        | some false ↦ some (ok false, p.1)
        | some true ↦ take_over c r duration m p.1
      ] in
      rw (get, block_map) (ap rest n)

  -- Where the config map holds the lock of another controller, and the time that is read is not later
  -- than a minute after its end: the loop is not run, and the only calls are the read of the config map
  -- and of the clock.
  pub foreign_lock_respected :
      (interval : Duration) (m : ConfigMap) (entries : Map String) (owner : String) (until : Time)
      (w : W)
      → (c.get_map r.config_map_key w).0 ≡ ok m
      → m.entries ≡ some entries
      → lookup block_id_key entries ≡ some owner
      → (owner == r.unique_id) ≡ false
      → c.unmarshal_time (text_at block_until_key entries) ≡ some until
      → (c.now (c.get_map r.config_map_key w).1).0 ≤ until + minute
      → reconcile_all c r interval w ≡ some (false, (c.now (c.get_map r.config_map_key w).1).1)
  unfolding reconcile_all
  foreign_lock_respected interval m entries owner until w get es id other time early =
      let w1 = (c.get_map r.config_map_key w).1 in
      let free = take_over_allowed-foreign m entries owner until w1 es id other time early in
      let block : block_map c r (5 * minute) w ≡ some (ok false, (c.now w1).1) =
        refused m (5 * minute) w (c.now w1).1 get free in
      rw (block, reconcile_all) refl

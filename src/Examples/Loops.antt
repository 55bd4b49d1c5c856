-- ===== src/Examples/Loops.antt =====
-- `Repeat`, and the reconcile loop under the lock of another controller.
use potter_controller.Prelude.{
  Bool, Map, String, [], arith, false, leb, lookup, none, refl, some, suc, true, zero, ℕ, ◌*◌, ◌<◌,
  ◌∷◌, ◌≡◌,
}
use potter_controller.Api.{err, hour, not_found, ok}
use potter_controller.Examples.Boms.{Cluster, cluster, empty_cluster, noted}
use potter_controller.Examples.Data.{bom}
use potter_controller.ReconcileController.Calls.{ConfigMap, ReconcileClient, ReconcileController}
use potter_controller.ReconcileController.Cleanup.{is_older_than}
use potter_controller.ReconcileController.Laws.{foreign_lock_respected, is_older_than_bounds}
use potter_controller.ReconcileController.Lock.{block_id_key}
use potter_controller.ReconcileController.Loop.{reconcile_all}
use potter_controller.Util.RepeatLaws.{before_round, repeat_stops_at_first}
use potter_controller.Util.Requeue.{repeat}

abbrev third : ℕ → Bool × ℕ
third n = (leb 1 n, suc n)

earlier_rounds : (i : ℕ) → i < 1 → (third (before_round third (λ n. n) i 0)).0 ≡ false
unfolding before_round
earlier_rounds zero h = refl
earlier_rounds (suc i) h = absurd (omega arith)

done_round : (third (before_round third (λ n. n) 1 0)).0 ≡ true
unfolding before_round
done_round = refl

repeat_stops_at_first_example : repeat third 10 (λ n. n) 0 ≡ (true, 2)
unfolding before_round
repeat_stops_at_first_example =
    repeat_stops_at_first third (λ n. n) 1 10 0 (omega arith) earlier_rounds done_round

is_older_than_bounds_example : is_older_than 5 200000000 7 ≡ true
is_older_than_bounds_example = is_older_than_bounds 5 200000000 7 (omega arith) (omega arith)

abbrev locked : Map String
locked = ("blockID", "other") ∷ ("blockUntil", "noon") ∷ []

abbrev locked_map : ConfigMap
locked_map = record { key = record { namespace = "garden"; name = "map" }; entries = some locked }

abbrev own : ReconcileController
own = record {
  config_map_key = record { namespace = "garden"; name = "map" };
  unique_id = "own";
  sync_disabled = false;
}

abbrev pub loop_client : ReconcileClient Cluster
loop_client = record {
  bom_client = cluster;
  sync_client = record {
    get_uncached = λ key w. (err not_found, w);
    create = λ o w. (ok o, w);
    update = λ o w. (ok o, w);
    remove = λ o w. (none, w);
    now = λ w. (10 * hour, w);
  };
  list_boms = λ w. (ok (bom ∷ []), w);
  delete_bom = λ b w. (none, w);
  list_all_secrets = λ labels w. (ok [], w);
  list_syncs = λ w. (ok [], w);
  get_map = λ key w. (ok locked_map, w);
  create_map = λ m w. (none, w);
  update_map = λ m w. (none, noted "update-map" w);
  list_pods = λ ns w. (ok [], w);
  delete_pod = λ name w. (none, w);
  last_update = λ w. 0;
  set_last_update = λ t w. w;
  new_id = λ w. ("id", w);
  marshal_time = λ t. some "noon";
  unmarshal_time = λ s. some (12 * hour);
}

held : lookup block_id_key locked ≡ some "other"
unfolding lookup
held = refl

foreign_lock_respected_example :
    reconcile_all loop_client own hour empty_cluster ≡ some (false, empty_cluster)
foreign_lock_respected_example =
    foreign_lock_respected loop_client own hour locked_map locked "other" (12 * hour) empty_cluster
      refl refl held refl refl (omega arith)

-- ===== src/Examples/Items.antt =====
-- A deploy item in the deployment controller. The world is the list of the names of the calls.
use potter_controller.Prelude.{
  List, String, [], arith, none, refl, some, ◌*◌, ◌++◌, ◌+◌, ◌-◌, ◌<◌, ◌∷◌, ◌≡◌,
}
use potter_controller.Api.{Duration, NamespacedName, err, not_found, ok, second, state_failed}
use potter_controller.Deploy.Client.{Client, Deployer}
use potter_controller.Deploy.DeployData.{DeployData, set_status}
use potter_controller.DeploymentController.Guards.{status_update_done}
use potter_controller.DeploymentController.Laws.{failed_operation_waits}
use potter_controller.DeploymentController.Reconcile.{process}
use potter_controller.DeploymentController.StatusUpdate.{
  done, requeue_after, update_deploy_item_status, update_deploy_item_status_once,
}
use potter_controller.Examples.Data.{config, item, json, provider_status}
use potter_controller.Util.Requeue.{calculate_requeue_timeout}

abbrev pub Calls : Type 0
Calls = List String

abbrev pub client : Client Calls
client = record {
  data_object_secret_data_key = "config";
  get_item = λ key w. (ok item, w ++ "get" ∷ []);
  update_item = λ i w. (none, w ++ "update" ∷ []);
  update_item_status = λ i w. (none, w ++ "update status" ∷ []);
  get_secret = λ key w. (err not_found, w);
  list_secrets = λ namespace labels w. (ok [], w);
  create_secret = λ s w. (none, w);
  delete_secret = λ s w. (none, w);
  new_uuid = λ w. ("uuid", w);
  now = λ w. (30 * second, w);
  sleep = λ d w. w;
  yaml_marshal = λ m. some "";
  yaml_unmarshal = λ r. none;
}

abbrev logged : String → DeployData → Calls → DeployData × Calls
logged name d w = (d, w ++ name ∷ [])

abbrev deployer : Deployer Calls
deployer = record {
  process_new_operation = logged "new";
  retry_failed_operation = logged "retry";
  reconcile_operation = logged "reconcile";
  process_pending_operation = logged "pending";
  cleanup = λ d exists w. (none, w);
  preprocess = logged "preprocess";
}

abbrev pub deploy_data : DeployData
deploy_data = record {
  item = item;
  configuration = config;
  provider_status = provider_status;
  export_values = [];
}

abbrev wait : Duration
wait = second + calculate_requeue_timeout 2

soon : (client.now []).0 < wait
unfolding calculate_requeue_timeout
soon = omega arith

-- Two tries have failed; the second one a second after the start. The clock is at 30 seconds, the next
-- try is made at 41 seconds.
failed_operation_waits_example :
    process client json deployer (set_status state_failed "timeout" 2 second deploy_data) item []
    ≡ (requeue_after (wait - 30 * second), [])
failed_operation_waits_example =
    failed_operation_waits client json deployer "timeout" 2 second deploy_data item [] soon

abbrev item_key : NamespacedName
item_key = record { namespace = "garden"; name = "bom-app" }

status_written :
    update_deploy_item_status client json item_key item.status []
    ≡ (done, "get" ∷ "update status" ∷ [])
unfolding update_deploy_item_status
status_written = refl

status_update_done_example :
    (v : Calls) × (update_deploy_item_status_once client json item_key item.status v
      ≡ (none, "get" ∷ "update status" ∷ []))
status_update_done_example =
    status_update_done client json item_key item.status [] ("get" ∷ "update status" ∷ [])
      status_written

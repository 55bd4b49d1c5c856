-- ===== src/Lib.antt =====
-- Potter controller: a Kubernetes controller that installs the applications of a clusterbom, each
-- through a deploy item, in a target cluster.
--
-- The parts, and how they interact. A ClusterBom lists application configs. The clusterbom controller
-- (pkg/controllersdi/clusterbom_controller.go) writes one DeployItem for each. The deployment
-- controller (pkg/controllersdi/deployment_controller.go) hands a deploy item to a Helm or a Kapp
-- deployer and writes its status. The state controller
-- (pkg/controllersdi/clusterbom_state_controller.go) reads the deploy items of a clusterbom back and
-- computes the clusterbom's states and conditions. The controllers run in several processes and take a
-- lock on the clusterbom (pkg/synchronize/synchronize.go) before they work on it.
--
-- The files:
--   Prelude          Boolean tests, lists, association lists for Go maps, and the shared lemmas.
--   Api              the types of api/v1, what is used of the Kubernetes metadata and of the
--                    landscaper's DeployItem, and encoding/json as a record of functions.
--   Sync             pkg/synchronize/synchronize.go. `Decision` has the tests of `Block` and `Reblock`
--                    on a fetched object, `BlockObject` the methods over an abstract client, `Mutex`
--                    the map of counted mutexes, `System` the processes that share a lock object: a
--                    step is one call of the client or a passage of time, `pc` says where a process
--                    stands, `grant` until when its last successful call got it the lock.
--   StateController  pkg/controllersdi/clusterbom_state_controller.go and statistics.go:
--                    `compute_application_states`, `compute_overall_state`,
--                    `compute_cluster_bom_ready_condition`, `compute_cluster_reachable_condition`;
--                    `Reconcile` has `Reconcile` with its handlers, `Cleaner` the clean-up of empty
--                    clusterboms and the client.
--   ControllerUtil   pkg/controllersdi/controller_util.go: `is_equal_config` and the searches.
--                    `ClusterBomController` has the rest of that file.
--   Deploy           pkg/deployutil: `WorseState`, `DeployData` with its status, error history and
--                    conditions, `MergeMaps`, the readiness of workloads, the export secrets, and the
--                    interfaces `Client` and `Deployer`.
--   DeploymentController  pkg/controllersdi/deployment_controller.go and deployment_deactivator.go:
--                    `reconcile` is `Reconcile`, in the parts `reconcile_fetched`, `process_item`,
--                    `process_reachable` and `process`; `update_status` is `updateStatus`.
--   ClusterBomController  pkg/controllersdi/clusterbom_controller.go and clusterbom_deactivator.go:
--                    `reconcile_cluster_bom` is `Reconcile`; `Items` makes, updates and deletes deploy
--                    items, `Secrets` cleans up the secrets of values, `Calls` has the client and the
--                    deletion tokens of pkg/secrets/secretkey.go, `BomStatus` the update of a status,
--                    `Handlers` the handlers, `Deactivator` the deactivation of a clusterbom with its
--                    deploy items, of which the deployment controller has its own part. `Settled` and
--                    `SecondPass` relate the items to an abstract store, a map from the ids of the
--                    applications to the types and configurations of their items.
--   ReconcileController  pkg/controllersdi/reconcile_controller.go: `reconcile_round` is the body of the
--                    endless loop, `Lock` has the lock in the config map, `Cleanup` what is deleted.
--   Admission        pkg/admission: `check_cluster_bom` has the checks of clusterbom_reviewer.go, with
--                    those of Helm and kapp data, `review_secret` the review of secret_reviewer.go. A
--                    check returns the message of its denial, or `none`.
--   Kapp             pkg/kapp: `App` has the custom resource of the kapp controller and the status of its
--                    pause, `Pause` the preprocessing of an app with a problem, `Cleanup` the deletion and
--                    the installation of an app, `Readiness` what its conditions say, `Operations` has
--                    processItem, `Handlers` the operations of the deployer with the exports, `Replacer`
--                    the secret names in the raw data. An operation returns an `Attempt`, which is
--                    `panicked` where the Go process ends by a nil pointer or an index out of range.
--   Util             pkg/util: conditions, keys, finalizers and annotations, back-off, `Repeat`; and what is
--                    used of Go's strings.
--   Examples         concrete inputs.
--
-- State and effects. A Go struct that a function changes is returned. A call of the Kubernetes client,
-- the clock, the UUID source or a deployer takes a world and returns another one, of which nothing is
-- assumed. An error value is `none` of an Option, or `err` of a Result where the code asks what kind
-- of error it is. A panic is `panics`, or `none` of a function whose Go version panics.
--
-- Bounds. A time is the number of nanoseconds since Go's zero time, and no time is before it. An int32
-- is its bit pattern; generations and counters are natural numbers and do not overflow. The loops
-- on a counter are `Repeat` and the five rounds of `wait_until_gone`, by recursion on their number; all
-- others run over lists, or over the tree of a JSON document. In
-- `Sync.System` a process has one call at a time, which is what the mutex of a key gives for `Block`
-- and `Reblock`; `DeleteBlock` does not take the mutex, and the system has it only for a process that
-- holds the lock and has no call under way. The clocks of the processes agree, and every process has
-- its own id, as a UUID gives it.
--
-- What is documented of the API server is the record `ApiServer`: creation needs an absent object, an
-- update needs the version that was read, a write gives a new version, and times are stored in whole
-- seconds.
--
-- What is documented of the API server towards the clusterbom controller is the record `IsStore`: an item
-- that was created or updated without an error is stored under the id in its labels, with its type and
-- with a configuration that is the same JSON value, possibly written in another way (`Retains`); no other
-- item of the clusterbom has changed. What is documented of encoding/json is `RoundTrips`: settings are
-- read as they were written, but for empty slices, which `omitempty` leaves out. The code sees the
-- difference between nil and an empty slice only by reflect.DeepEqual on the ready requirements, whose
-- slices are therefore a type `Slice`; all other slices are lists.
--
-- Not modelled: the audit log of the clusterbom controller, which runs here as it does without one; the
-- Helm deployer; of the admission hook the patches, the creation of secrets, the bearer tokens
-- and the HTTP server; the availability check, encryption but for the deletion token, events, logging and
-- start-up.
mod Prelude
pub mod Api
pub mod Util
pub mod Deploy
pub mod Sync
pub mod ControllerUtil
pub mod StateController
pub mod DeploymentController
mod Examples
pub mod ClusterBomController
pub mod ReconcileController
pub mod Admission
pub mod Kapp

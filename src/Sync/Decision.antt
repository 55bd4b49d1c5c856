-- ===== src/Sync/Decision.antt =====
-- The tests of `Block` and `Reblock` on the object that was fetched, apart from the client calls.
use potter_controller.Prelude.{String, if◌then◌else◌, ltb, not, ℕ, ◌&&◌, ◌*◌, ◌+◌, ◌-◌, ◌==◌, ◌||◌}
use potter_controller.Api.{Duration, NamespacedName, Time, minute, second}

-- hubv1.ClusterBomSync with its spec, and the resource version that the API server gave it.
pub record ClusterBomSync : Type 0 where
  pub key : NamespacedName
  pub id : String
  pub timestamp : Time
  pub until : Time
  pub version : ℕ

abbrev pub time_buffer : Duration
time_buffer = minute

-- What to do with a fetched block: give up, go on without a write, or write the object.
pub data Decision : Type 0 where
  denied : Decision
  keep : Decision
  take : ClusterBomSync → Decision

-- `Block` from "Check whether the block belongs someone else" on.
unfoldable pub decide_block : String → Time → Duration → ClusterBomSync → Decision
decide_block own now duration o =
    if not (o.id == own) && ltb now (o.until + time_buffer)
    then denied
    else if ltb o.until (now + duration) || not (o.id == own)
    then take (record o { id = own; until = now + duration })
    else keep

-- `retryDuration`, at least a second.
unfoldable pub retry_duration : Time → ClusterBomSync → Duration
retry_duration now o =
    let d = o.until + time_buffer + 5 * second - now in if ltb d second then second else d

-- `Reblock` from "check clusterBomSync" on.
unfoldable pub decide_reblock : String → Time → Duration → ClusterBomSync → Decision
decide_reblock own now duration o =
    if not (o.id == own)
    then denied
    else if ltb o.until (now + time_buffer)
    then denied
    else if ltb o.until (now + duration)
    then take (record o { until = now + duration })
    else keep

-- `newClusterBomSync`; an object that was never stored has version 0.
unfoldable pub new_cluster_bom_sync : NamespacedName → String → Time → Duration → ClusterBomSync
new_cluster_bom_sync key own now duration = record {
  key = key;
  id = own;
  timestamp = now;
  until = now + duration;
  version = 0;
}

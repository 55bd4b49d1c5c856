-- ===== src/Sync/RetryTimes.antt =====
-- The times after which a lock that was not granted is asked for again, and the counted mutexes.
use potter_controller.Prelude.{
  Bool, Map, String, arith, eq_iff, lookup, lookup-delete, lookup-insert, some, ℕ, ◌≡◌, ◌≢◌, ◌≤◌,
}
use potter_controller.Api.{
  ApiError, Duration, NamespacedName, Result, Time, conflict, err, not_found, ok, other_error,
  second,
}
use potter_controller.DeploymentController.Deactivator.{ignore}
use potter_controller.Sync.BlockObject.{
  BlockObject, SyncClient, block, block_created, block_decide, block_fetched, block_refetched,
}
use potter_controller.Sync.Decision.{ClusterBomSync, retry_duration}
use potter_controller.Sync.Mutex.{get_mutex, release_mutex}

retry_duration-positive : (now : Time) (o : ClusterBomSync) → second ≤ retry_duration now o
unfolding retry_duration
retry_duration-positive now o = ground arith

-- `Block` on a fetched object.
decide-retry :
    {W : Type 0} (c : SyncClient W) (b : BlockObject) (d : Duration) (o : ClusterBomSync) (w : W)
    → second ≤ (block_decide c b d o w).0.retry
unfolding block_decide
decide-retry c b d o w = ground (arith, retry_duration-positive (c.now (c.now w).1).0 o)

refetched-retry :
    {W : Type 0} (c : SyncClient W) (b : BlockObject) (d : Duration) (e : ApiError)
    (r : Result ClusterBomSync) (w : W)
    → second ≤ (block_refetched c b d e r w).0.retry
unfolding block_refetched
refetched-retry c b d e (ok o) w = decide-retry c b d o w
refetched-retry c b d e (err e') w = omega arith

created-retry :
    {W : Type 0} (c : SyncClient W) (b : BlockObject) (key : NamespacedName) (d : Duration)
    (r : Result ClusterBomSync) (w : W)
    → second ≤ (block_created c b key d r w).0.retry
unfolding block_created
created-retry c b key d (ok o) w = decide-retry c b d o w
created-retry c b key d (err e) w =
    refetched-retry c b d e (c.get_uncached key w).0 (c.get_uncached key w).1

fetched-retry :
    {W : Type 0} (c : SyncClient W) (b : BlockObject) (key : NamespacedName) (d : Duration)
    (r : Result ClusterBomSync) (w : W)
    → second ≤ (block_fetched c b key d r w).0.retry
unfolding block_fetched
fetched-retry c b key d (ok o) w = decide-retry c b d o w
fetched-retry c b key d (err not_found) w = created-retry c b key d _ _
fetched-retry c b key d (err conflict) w = omega arith
fetched-retry c b key d (err (other_error s)) w = omega arith

-- On every path through `Block`, errors included, the duration to wait before the next try is at least
-- a second.
pub block_retry_positive :
    {W : Type 0} (c : SyncClient W) (b : BlockObject) (key : NamespacedName) (d : Duration)
    (ignore_exclusion_list : Bool) (w : W)
    → second ≤ (block c b key d ignore_exclusion_list w).0.retry
unfolding block
block_retry_positive c b key d ignore w =
    ground (arith, fetched-retry c b key d (c.get_uncached key w).0 (c.get_uncached key w).1)

-- A mutex that is got and released leaves the counter of every key as it was, where the key's own
-- counter is not 0.
mutex_round_trip :
    (key other : String) (m : Map ℕ)
    → lookup key m ≢ some 0
    → lookup other (release_mutex key (get_mutex key m)) ≡ lookup other m
unfolding get_mutex release_mutex
mutex_round_trip key other m h = grind (arith, lookup-delete, lookup-insert, eq_iff)

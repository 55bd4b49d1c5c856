-- ===== src/Sync/BlockObject.antt =====
-- `BlockObject` and its methods, over a client and a clock that are not modelled: `W` is the world
-- outside of the process, which a call may change in any way.
use potter_controller.Prelude.{
  Bool, List, Option, String, any, false, if◌then◌else◌, none, not, some, true, ◌&&◌, ◌*◌, ◌==◌,
  ◌||◌,
}
use potter_controller.Api.{
  ApiError, Duration, NamespacedName, Result, Time, err, not_found, ok, other_error, second,
}
use potter_controller.Sync.Decision.{
  ClusterBomSync, decide_block, decide_reblock, denied, keep, new_cluster_bom_sync, retry_duration,
  take,
}

pub record SyncClient (W : Type 0) : Type 0 where
  pub get_uncached : NamespacedName → W → Result ClusterBomSync × W
  pub create : ClusterBomSync → W → Result ClusterBomSync × W
  pub update : ClusterBomSync → W → Result ClusterBomSync × W
  pub remove : ClusterBomSync → W → Option ApiError × W
  pub now : W → Time × W

-- The mutex of the process is held during a call and is modelled in `Mutex`.
pub record BlockObject : Type 0 where
  pub unique_id : String
  pub excluded_boms : List NamespacedName
  pub sync_disabled : Bool

abbrev pub same_key : NamespacedName → NamespacedName → Bool
same_key a b = a.namespace == b.namespace && (a.name == b.name)

unfoldable pub is_excluded : BlockObject → NamespacedName → Bool
is_excluded b key = any (λ next. same_key next key) b.excluded_boms

-- The three results of `Block`.
pub record Blocked : Type 0 where
  pub granted : Bool
  pub retry : Duration
  pub error : Option ApiError

module _ {W : Type 0} (c : SyncClient W) (b : BlockObject) where
  -- The object is fetched or created.
  unfoldable pub block_decide : Duration → ClusterBomSync → W → Blocked × W
  unfolding decide_block retry_duration
  block_decide duration o w =
      let (now, w1) = c.now w in
      elim (decide_block b.unique_id now duration o) [
        | denied ↦
            let (later, w2) = c.now w1 in
            (record { granted = false; retry = retry_duration later o; error = none }, w2)
        | keep ↦ (record { granted = true; retry = second; error = none }, w1)
        | take o' ↦
            let (r, w2) = c.update o' w1 in
            (
              elim r [
                | ok _ ↦ record { granted = true; retry = second; error = none }
                | err _ ↦ record { granted = false; retry = 10 * second; error = none }
              ],
              w2,
            )
      ]

  -- The second fetch, after a failed creation; a failure returns the error of the creation.
  unfoldable pub block_refetched : Duration → ApiError → Result ClusterBomSync → W → Blocked × W
  unfolding block_decide
  block_refetched duration e (ok o) w = block_decide duration o w
  block_refetched duration e (err _) w =
      (record { granted = false; retry = second; error = some e }, w)

  unfoldable pub block_created : NamespacedName → Duration → Result ClusterBomSync → W → Blocked × W
  unfolding block_refetched
  block_created key duration (ok o) w = block_decide duration o w
  block_created key duration (err e) w =
      let (r, w1) = c.get_uncached key w in block_refetched duration e r w1

  unfoldable pub block_fetched : NamespacedName → Duration → Result ClusterBomSync → W → Blocked × W
  unfolding block_created new_cluster_bom_sync
  block_fetched key duration (ok o) w = block_decide duration o w
  block_fetched key duration (err not_found) w =
      let (now, w1) = c.now w in
      let (r, w2) = c.create (new_cluster_bom_sync key b.unique_id now duration) w1 in
      block_created key duration r w2
  block_fetched key duration (err e) w =
      (record { granted = false; retry = second; error = some e }, w)

  unfoldable pub block : NamespacedName → Duration → Bool → W → Blocked × W
  unfolding block_fetched is_excluded
  block key duration ignore_exclusion_list w =
      if b.sync_disabled || (not ignore_exclusion_list && is_excluded b key)
      then (record { granted = true; retry = second; error = none }, w)
      else let (r, w1) = c.get_uncached key w in block_fetched key duration r w1

  -- `Reblock` returns true, or an error; the errors that it makes itself are texts.
  unfoldable pub reblock_decide : Duration → Result ClusterBomSync → W → Option ApiError × W
  unfolding decide_reblock
  reblock_decide duration (err e) w = (some e, w)
  reblock_decide duration (ok o) w =
      let (now, w1) = c.now w in
      elim (decide_reblock b.unique_id now duration o) [
        | denied ↦ (
          some (
              other_error (
                if o.id == b.unique_id
                then "Reblock failed; block is expired"
                else "Reblock failed; wrong id")),
          w1,
        )
        | keep ↦ (none, w1)
        | take o' ↦ let (r, w2) = c.update o' w1 in (elim r [ ok _ ↦ none | err e ↦ some e ], w2)
      ]

  unfoldable pub reblock : NamespacedName → Duration → Bool → W → Option ApiError × W
  unfolding reblock_decide is_excluded
  reblock key duration ignore_exclusion_list w =
      if b.sync_disabled || (not ignore_exclusion_list && is_excluded b key)
      then (none, w)
      else let (r, w1) = c.get_uncached key w in reblock_decide duration r w1

  -- `Release` returns on every path without an effect.
  unfoldable pub release : NamespacedName → Bool → W → W
  release key ignore_exclusion_list w = w

  unfoldable pub delete_fetched : Result ClusterBomSync → W → Option ApiError × W
  delete_fetched (ok o) w = c.remove o w
  delete_fetched (err not_found) w = (none, w)
  delete_fetched (err e) w = (some e, w)

  unfoldable pub delete_block : NamespacedName → W → Option ApiError × W
  unfolding delete_fetched
  delete_block key w = let (r, w1) = c.get_uncached key w in delete_fetched r w1

-- ===== src/ReconcileController/Lock.antt =====
-- `block`, `unblock`, `readLastStartTime` and `upsertConfigMap`. `none` is the panic of a write to a nil map.
use potter_controller.Prelude.{
  Bool, Map, Option, String, [], delete, false, if◌then◌else◌, insert, lookup, ltb, none, some,
  true, ◌+◌, ◌==◌, ◌>>=◌,
}
use potter_controller.Api.{
  ApiError, Duration, Result, Time, err, minute, not_found, ok, other_error,
}
use potter_controller.ReconcileController.Calls.{
  ConfigMap, ReconcileClient, ReconcileController, entry_at, zero_time,
}

abbrev pub block_id_key : String
block_id_key = "blockID"

abbrev pub block_until_key : String
block_until_key = "blockUntil"

abbrev pub last_update_started_key : String
last_update_started_key = "lastUpdateStarted"

abbrev pub last_update_finished_key : String
last_update_finished_key = "lastUpdateFinished"

module _ {W : Type 0} (c : ReconcileClient W) (r : ReconcileController) where
  -- Whether the lock is free, owned or expired for a minute; `none` is the error of its time.
  unfoldable pub take_over_allowed : ConfigMap → W → Option Bool × W
  unfolding lookup
  take_over_allowed m w =
      let id : Option String = elim m.entries [
        | none ↦ none
        | some entries ↦ lookup block_id_key entries
      ] in
      let (now, w1) = c.now w in
      elim id [
        | none ↦ (some true, w)
        | some owner ↦
            if owner == r.unique_id
            then (some true, w)
            else elim (c.unmarshal_time (entry_at block_until_key m)) [
              | none ↦ (none, w)
              | some until ↦ (some (ltb (until + minute) now), w1)
            ]
      ]

  abbrev pub taken : String → ConfigMap → Option ConfigMap
  taken bytes m = do
    entries ← m.entries
    some (record m {
      entries = some (insert block_id_key r.unique_id (insert block_until_key bytes entries));
    })

  -- The write of the lock, once it may be taken over.
  unfoldable pub take_over : Duration → ConfigMap → W → Option (Result Bool × W)
  unfolding insert
  take_over duration m w =
      let (now, w1) = c.now w in
      elim (c.marshal_time (now + duration)) [
        | none ↦ some (err (other_error "error marshaling block time"), w1)
        | some bytes ↦ do
          m' ← taken bytes m
          let (e, w2) = c.update_map m' w1
          some (
            elim e [
              | none ↦ ok true
              | some x ↦ if c.is_concurrent_modification x then ok false else err x
            ],
            w2,
          )
      ]

  unfoldable pub block_map : Duration → W → Option (Result Bool × W)
  unfolding take_over_allowed take_over
  block_map duration w =
      let (fetched_map, w1) = c.get_map r.config_map_key w in
      elim fetched_map [
        | err e ↦ some (err e, w1)
        | ok m ↦
            let (allowed, w2) = take_over_allowed m w1 in
            elim allowed [
              | none ↦ some (err (other_error "error unmarshaling block time"), w2)
              | some false ↦ some (ok false, w2)
              | some true ↦ take_over duration m w2
            ]
      ]

  -- Its errors are only logged.
  unfoldable pub unblock : W → W
  unfolding delete
  unblock w =
      let (fetched_map, w1) = c.get_map r.config_map_key w in
      elim fetched_map [
        | err _ ↦ w1
        | ok m ↦
            let freed : ConfigMap = record m {
              entries = elim m.entries [
                | none ↦ none
                | some entries ↦ some (delete block_id_key (delete block_until_key entries))
              ];
            } in
            if r.unique_id == entry_at block_id_key m then (c.update_map freed w1).1 else w1
      ]

  abbrev pub time_entries : String → String → Map String → Map String
  time_entries start_text finish_text entries =
      insert last_update_finished_key finish_text
        (insert last_update_started_key start_text entries)

  -- The map is created or updated.
  unfoldable pub write_times : String → String → W → Option (Option ApiError × W)
  unfolding insert
  write_times start_text finish_text w =
      let (fetched_map, w1) = c.get_map r.config_map_key w in
      elim fetched_map [
        | err not_found ↦ some (
            c.create_map
              (record {
                key = r.config_map_key;
                entries = some (time_entries start_text finish_text []);
              })
              w1)
        | err e ↦ some (some e, w1)
        | ok m ↦ do
          entries ← m.entries
          some (
              c.update_map
                (record m { entries = some (time_entries start_text finish_text entries) }) w1)
      ]

  unfoldable pub upsert_config_map : Time → Time → W → Option (Option ApiError × W)
  unfolding write_times
  upsert_config_map start_time finish_time w = elim (c.marshal_time start_time) [
    | none ↦ some (some (other_error "error marshaling start time"), w)
    | some start_text ↦ elim (c.marshal_time finish_time) [
      | none ↦ some (some (other_error "error marshaling finish time"), w)
      | some finish_text ↦ write_times start_text finish_text w
    ]
  ]

  unfoldable pub read_last_start_time : W → Option (Result Time × W)
  unfolding upsert_config_map
  read_last_start_time w =
      let (fetched_map, w1) = c.get_map r.config_map_key w in
      elim fetched_map [
        | err not_found ↦ do
          (e, w2) ← upsert_config_map zero_time zero_time w1
          some (elim e [ none ↦ ok zero_time | some x ↦ err x ], w2)
        | err e ↦ some (err e, w1)
        | ok m ↦ some (
          elim (c.unmarshal_time (entry_at last_update_started_key m)) [
            | none ↦ err (other_error "error unmarshaling start time")
            | some t ↦ ok t
          ],
          w1,
        )
      ]

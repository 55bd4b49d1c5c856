-- ===== src/Sync/System.antt =====
-- Any number of controller processes that block, reblock and delete the lock of one clusterbom,
-- interleaved at the calls of the client, while time passes.
use potter_controller.Prelude.{Option, String, none, set_at, some, ℕ, ◌+◌, ◌<◌, ◌≡◌, ◌≤◌}
use potter_controller.Api.{Duration, NamespacedName, Time, second}
use potter_controller.Sync.Decision.{
  ClusterBomSync, Decision, decide_block, decide_reblock, keep, new_cluster_bom_sync, take,
}

-- What is documented of the API server, about the one object: a creation needs that it is not there,
-- an update that its version is the one that was read; each write gives it a version that no object
-- had before; times are stored in whole seconds.
pub record ApiServer : Type 1 where
  pub Store : Type 0
  pub read : Store → Option ClusterBomSync
  pub revision : Store → ℕ
  pub stored : Time → Time
  pub create : Store → ClusterBomSync → Option Store
  pub update : Store → ClusterBomSync → Option Store
  pub remove : Store → Store
  pub stored-le : (t : Time) → stored t ≤ t
  pub stored-lt : (t : Time) → t < stored t + second
  pub stored_mono : (t u : Time) → t ≤ u → stored t ≤ stored u
  pub read-stored : (s : Store) (o : ClusterBomSync) → read s ≡ some o → stored o.until ≡ o.until
  pub read-revision : (s : Store) (o : ClusterBomSync) → read s ≡ some o → o.version ≤ revision s
  pub create_lem :
      (s t : Store) (o : ClusterBomSync)
      → create s o ≡ some t
      → (read s ≡ none)
        × (read t ≡ some (record o { until = stored o.until; version = revision t }))
        × (revision s < revision t)
  pub update_lem :
      (s t : Store) (o : ClusterBomSync)
      → update s o ≡ some t
      → (c : ClusterBomSync) × (read s ≡ some c)
        × (c.version ≡ o.version)
        × (read t ≡ some (record o { until = stored o.until; version = revision t }))
        × (revision s < revision t)
  pub remove_lem : (s : Store) → (read (remove s) ≡ none) × (revision s ≤ revision (remove s))

pub data Call : Type 0 where
  blocking reblocking : Call

-- Where a process stands in a call, with the local variables that are live there. `writing` is before
-- the update, with the object that was fetched, the time of the decision, and the object to write.
pub data Pc : Type 0 where
  idle : Pc
  creating : Duration → ClusterBomSync → Pc
  refetching : Duration → Pc
  fetched : Call → Duration → ClusterBomSync → Pc
  writing : Duration → ClusterBomSync → Time → ClusterBomSync → Pc

abbrev pub decide : Call → String → Time → Duration → ClusterBomSync → Decision
decide blocking = decide_block
decide reblocking = decide_reblock

module _ (server : ApiServer) (key : NamespacedName) (ids : ℕ → String) where
  open server use {Store, read, create, update, remove}

  -- `grant i` is the time until which the last successful call of process `i` got the lock, 0 if it
  -- has none.
  pub record System : Type 0 where
    pub time : Time
    pub store : Store
    pub pc : ℕ → Pc
    pub grant : ℕ → Time

  abbrev pub goto : System → ℕ → Pc → System
  goto s i p = record s { pc = set_at s.pc i p }

  -- An error of a fetch or of a write ends the call without the lock; a write that reports an error
  -- may have been done or not.
  pub data Step (s : System) : System → Type 0 where
    tick : (t : Time) → s.time ≤ t → Step s (record s { time = t })
    fetch :
        (i : ℕ) (call : Call) (d : Duration) (o : ClusterBomSync)
        → s.pc i ≡ idle
        → read s.store ≡ some o
        → Step s (goto s i (fetched call d o))
    fetch_missing :
        (i : ℕ) (d : Duration)
        → s.pc i ≡ idle
        → read s.store ≡ none
        → Step s (goto s i (creating d (new_cluster_bom_sync key (ids i) s.time d)))
    created :
        (i : ℕ) (d : Duration) (o o' : ClusterBomSync) (t : Store)
        → s.pc i ≡ creating d o
        → create s.store o ≡ some t
        → read t ≡ some o'
        → Step s (record (goto s i (fetched blocking d o')) { store = t })
    create_failed :
        (i : ℕ) (d : Duration) (o : ClusterBomSync)
        → s.pc i ≡ creating d o
        → Step s (goto s i (refetching d))
    create_reported_failed :
        (i : ℕ) (d : Duration) (o : ClusterBomSync) (t : Store)
        → s.pc i ≡ creating d o
        → create s.store o ≡ some t
        → Step s (record (goto s i (refetching d)) { store = t })
    refetch :
        (i : ℕ) (d : Duration) (o : ClusterBomSync)
        → s.pc i ≡ refetching d
        → read s.store ≡ some o
        → Step s (goto s i (fetched blocking d o))
    give_up : (i : ℕ) → Step s (goto s i idle)
    kept :
        (i : ℕ) (call : Call) (d : Duration) (o : ClusterBomSync)
        → s.pc i ≡ fetched call d o
        → decide call (ids i) s.time d o ≡ keep
        → Step s (record (goto s i idle) { grant = set_at s.grant i (s.time + d) })
    decided :
        (i : ℕ) (call : Call) (d : Duration) (o o' : ClusterBomSync)
        → s.pc i ≡ fetched call d o
        → decide call (ids i) s.time d o ≡ take o'
        → Step s (goto s i (writing d o s.time o'))
    updated :
        (i : ℕ) (d : Duration) (o o' : ClusterBomSync) (now : Time) (t : Store)
        → s.pc i ≡ writing d o now o'
        → update s.store o' ≡ some t
        → Step s (record (goto s i idle) { store = t; grant = set_at s.grant i (now + d) })
    update_reported_failed :
        (i : ℕ) (d : Duration) (o o' : ClusterBomSync) (now : Time) (t : Store)
        → s.pc i ≡ writing d o now o'
        → update s.store o' ≡ some t
        → Step s (record (goto s i idle) { store = t })
    -- `DeleteBlock` while the lock is held, which ends the use of it
    deleted :
        (i : ℕ)
        → s.pc i ≡ idle
        → s.time < s.grant i
        → Step s (record s { store = remove s.store; grant = set_at s.grant i 0 })

  pub data Reach (s0 : Store) : System → Type 0 where
    started :
        (t : Time) → Reach s0 (record { time = t; store = s0; pc = λ _. idle; grant = λ _. 0 })
    extended : {s t : System} → Reach s0 s → Step s t → Reach s0 t

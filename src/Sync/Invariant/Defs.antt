-- ===== src/Sync/Invariant/Defs.antt =====
-- What each process may rely on about the object of the lock.
use potter_controller.Prelude.{String, some, ℕ, ◌+◌, ◌<◌, ◌≡◌, ◌≢◌, ◌≤◌}
use potter_controller.Api.{NamespacedName, Time, second}
use potter_controller.Sync.Decision.{ClusterBomSync, time_buffer}
use potter_controller.Sync.System.{ApiServer, Pc, System, fetched, writing}

module _ (server : ApiServer) (ids : ℕ → String) where
  open server use {Store, read, revision, stored}

  -- A process whose grant has not run out owns the object, which runs out a second before at most.
  unfoldable pub Holds : Store → Time → Time → ℕ → Type 0
  Holds st time grant i =
      time < grant
      → (o : ClusterBomSync) × (read st ≡ some o) × (o.id ≡ ids i) × (grant < o.until + second)

  -- An object that was read once: its version stands for it.
  unfoldable pub WasRead : Store → ClusterBomSync → Type 0
  WasRead st o =
      (o.version ≤ revision st)
      × ((c : ClusterBomSync) → read st ≡ some c → c.version ≡ o.version → c ≡ o)
      × (stored o.until ≡ o.until)

  unfoldable pub PcOk : Store → Time → ℕ → Pc → Type 0
  PcOk st time i (fetched call d o) =
      WasRead st o × (o.id ≡ ids i → time < o.until + time_buffer → read st ≡ some o)
  PcOk st time i (writing d o now o') =
      WasRead st o
      × (now ≤ time)
      × (o' ≡ record o { id = ids i; until = now + d })
      × (o.id ≡ ids i → o.until < now + d)
      × (o.id ≢ ids i → o.until + time_buffer ≤ now)
  PcOk st time i _ = Unit

  -- The object is not one that process `i` may count on.
  unfoldable pub Free : Store → Time → ℕ → Type 0
  Free st time i =
      (o : ClusterBomSync) → read st ≡ some o → o.id ≡ ids i → o.until + time_buffer ≤ time

  unfoldable pub Inv : {key : NamespacedName} → System server key ids → Type 0
  unfolding Holds PcOk
  Inv s =
      ((i : ℕ) → Holds s.store s.time (s.grant i) i) × ((i : ℕ) → PcOk s.store s.time i (s.pc i))

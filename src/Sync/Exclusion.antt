-- ===== src/Sync/Exclusion.antt =====
-- The lock of one clusterbom is held by one process at a time.
use potter_controller.Prelude.{String, ap, some, some_inj, sym, ℕ, ◌+◌, ◌<◌, ◌∙◌, ◌≡◌}
use potter_controller.Api.{NamespacedName, second}
use potter_controller.Sync.Decision.{ClusterBomSync}
use potter_controller.Sync.Invariant.Defs.{Holds, Inv}
use potter_controller.Sync.Invariant.Kept.{Reach-Inv}
use potter_controller.Sync.System.{ApiServer, Reach, System}

module _ (server : ApiServer) (key : NamespacedName) (ids : ℕ → String) where
  -- Processes with different ids that share the object of the lock, started on any state of it, and
  -- interleaved in any way: two whose grants have not run out are the same process.
  pub mutual_exclusion :
      {st : server.Store} {s : System server key ids}
      → ((a b : ℕ) → ids a ≡ ids b → a ≡ b)
      → Reach server key ids st s
      → (i j : ℕ) → s.time < s.grant i
      → s.time < s.grant j
      → i ≡ j
  unfolding Inv Holds
  mutual_exclusion inj r i j hi hj =
      let (holds, _) = Reach-Inv server key ids inj r in
      let (o, ho, eo, _) = holds i hi in
      let (p, hp, ep, _) = holds j hj in
      inj i j (sym eo ∙ ap (λ (z : ClusterBomSync). z.id) (some_inj (sym ho ∙ hp)) ∙ ep)

  -- Processes with different ids that share the object of the lock, started on any state of it, and
  -- interleaved in any way: one whose grant has not run out owns the object that is stored, and its
  -- grant ends before the end that is stored there and a second.
  pub grant_is_stored :
      {st : server.Store} {s : System server key ids}
      → ((a b : ℕ) → ids a ≡ ids b → a ≡ b)
      → Reach server key ids st s
      → (i : ℕ) → s.time < s.grant i
      → (o : ClusterBomSync) × (server.read s.store ≡ some o)
        × (o.id ≡ ids i)
        × (s.grant i < o.until + second)
  unfolding Inv Holds
  grant_is_stored inj r i hi = let (holds, _) = Reach-Inv server key ids inj r in holds i hi

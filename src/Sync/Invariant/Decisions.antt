-- ===== src/Sync/Invariant/Decisions.antt =====
-- What the decisions of `Block` and `Reblock` on a fetched object tell.
use potter_controller.Prelude.{String, ap, arith, eq_iff, ◌+◌, ◌<◌, ◌≡◌, ◌≢◌, ◌≤◌}
use potter_controller.Api.{Duration, Time}
use potter_controller.Sync.Decision.{
  ClusterBomSync, decide_block, decide_reblock, keep, take, time_buffer,
}
use potter_controller.Sync.System.{Call, blocking, decide, reblocking}

pub decide-eq-keep :
    (call : Call) (own : String) (now : Time) (d : Duration) (o : ClusterBomSync)
    → decide call own now d o ≡ keep
    → (o.id ≡ own) × (now + d ≤ o.until)
unfolding decide_block decide_reblock
decide-eq-keep blocking own now d o h = ground (arith, eq_iff o.id own)
decide-eq-keep reblocking own now d o h = ground (arith, eq_iff o.id own)

take_inj : {a b : ClusterBomSync} → take a ≡ take b → a ≡ b
take_inj h = cc

-- An object with the own id already.
take_own :
    (o : ClusterBomSync) (own : String) (u : Time)
    → o.id ≡ own
    → record o { until = u } ≡ record o { id = own; until = u }
take_own o own u h = ap (λ (i : String). record o { id = i; until = u }) h

pub decide-eq-take :
    (call : Call) (own : String) (now : Time) (d : Duration) (o o' : ClusterBomSync)
    → decide call own now d o ≡ take o'
    → (o' ≡ record o { id = own; until = now + d })
      × (o.id ≡ own → o.until < now + d)
      × (o.id ≢ own → o.until + time_buffer ≤ now)
unfolding decide_block decide_reblock
decide-eq-take blocking own now d o o' h = grind (arith, eq_iff, take_inj)
decide-eq-take reblocking own now d o o' h = grind (arith, eq_iff, take_inj, take_own)

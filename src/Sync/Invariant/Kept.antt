-- ===== src/Sync/Invariant/Kept.antt =====
-- The invariant holds in every reachable state.
use native.Mathlib.Decide.{ℕ_discrete}
use mathlib.Core.Path.{subst}
use potter_controller.Prelude.{
  String, ap, arith, inl, inr, set_at, some, some_inj, sym, ℕ, ◌+◌, ◌<◌, ◌∙◌, ◌≡◌, ◌≢◌,
}
use potter_controller.Api.{NamespacedName, Time}
use potter_controller.Sync.Decision.{ClusterBomSync}
use potter_controller.Sync.Invariant.Defs.{Free, Holds, Inv, PcOk}
use potter_controller.Sync.Invariant.Moves.{
  Holds-change, PcOk-change, PcOk-later, read-WasRead, set_at_lem,
}
use potter_controller.Sync.Invariant.Steps.{
  create-Inv, goto-Inv, keep-Holds, take-PcOk, update-Holds, update-PcOk, update-others,
}
use potter_controller.Sync.System.{
  ApiServer, Reach, Step, System, blocking, create_failed, create_reported_failed, created, decided,
  deleted, extended, fetch, fetch_missing, fetched, give_up, idle, kept, refetch, refetching,
  started, tick, update_reported_failed, updated,
}

at_lem {κ} : (P : ℕ → Type κ) (i : ℕ) → P i → ((j : ℕ) → i ≢ j → P j) → (j : ℕ) → P j
at_lem P i own others j = elim (ℕ_discrete i j) [ yes e ↦ subst P e own | no ne ↦ others j ne ]

module _ (server : ApiServer) (key : NamespacedName) (ids : ℕ → String)
    (inj : (a b : ℕ) → ids a ≡ ids b → a ≡ b) where
  open server use {Store, read, create, update, remove, revision, stored}

  -- An object of process `i` is not one of another process.
  owned-Free :
      (s : Store) (time : Time) (i j : ℕ) (c : ClusterBomSync)
      → read s ≡ some c
      → c.id ≡ ids i
      → i ≢ j
      → Free server ids s time j
  unfolding Free
  owned-Free s time i j c hc e ne o h e' =
      absurd (ne (inj i j (sym e ∙ ap (λ (z : ClusterBomSync). z.id) (some_inj (sym hc ∙ h)) ∙ e')))

  delete-Inv :
      (s : System server key ids) (i : ℕ)
      → s.pc i ≡ idle
      → s.time < s.grant i
      → Inv server ids s
      → Inv server ids (record s { store = remove s.store; grant = set_at s.grant i 0 })
  unfolding Inv
  delete-Inv s i hpc lt (holds, oks) =
      let (gone, older) = server.remove_lem s.store in
      let (c, hc, e, g) = holds i lt in
      let free : (j : ℕ) → i ≢ j → Free server ids s.store s.time j =
        (λ j ne. owned-Free s.store s.time i j c hc e ne) in
      (
        set_at_lem (λ j g'. Holds server ids (remove s.store) s.time g' j) s.grant i 0
            (λ lt'. absurd (omega (arith, lt')))
            (λ j ne.
              Holds-change server ids s.store (remove s.store) s.time (s.grant j) j (free j ne)
                (holds j)),
        at_lem (λ j. PcOk server ids (remove s.store) s.time j (s.pc j)) i
            (subst (PcOk server ids (remove s.store) s.time i) (sym hpc) _)
            (λ j ne.
              PcOk-change server ids s.store (remove s.store) s.time j (s.pc j) older (λ n hn. cc)
                (free j ne) (oks j)),
      )

  Step-Inv :
      {s t : System server key ids} → Step server key ids s t → Inv server ids s → Inv server ids t
  unfolding Inv
  Step-Inv {s = s} (tick t le) (holds, oks) = (
    λ i lt. holds i (omega (arith, le, lt)),
    λ i. PcOk-later server ids s.store s.time t i (s.pc i) le (oks i),
  )
  Step-Inv {s = s} (fetch i call d o hpc h) inv =
      goto-Inv server key ids inj s i (fetched call d o)
        (read-WasRead server ids s.store o h, λ _ _. h) inv
  Step-Inv {s = s} (fetch_missing i d hpc h) inv = goto-Inv server key ids inj s i _ _ inv
  Step-Inv {s = s} (created i d o o' t hpc h h') inv =
      create-Inv server key ids inj s i o (fetched blocking d o') t h
        (read-WasRead server ids t o' h', λ _ _. h') inv
  Step-Inv {s = s} (create_failed i d o hpc) inv =
      goto-Inv server key ids inj s i (refetching d) _ inv
  Step-Inv {s = s} (create_reported_failed i d o t hpc h) inv =
      create-Inv server key ids inj s i o (refetching d) t h _ inv
  Step-Inv {s = s} (refetch i d o hpc h) inv =
      goto-Inv server key ids inj s i (fetched blocking d o)
        (read-WasRead server ids s.store o h, λ _ _. h) inv
  Step-Inv {s = s} (give_up i) inv = goto-Inv server key ids inj s i idle _ inv
  Step-Inv {s = s} (kept i call d o hpc h) (holds, oks) =
      let done = subst (PcOk server ids s.store s.time i) hpc (oks i) in
      (
        set_at_lem (λ j g. Holds server ids s.store s.time g j) s.grant i (s.time + d)
            (keep-Holds server key ids inj s.store s.time d i call o done h) (λ j _. holds j),
        set_at_lem (PcOk server ids s.store s.time) s.pc i idle _ (λ j _. oks j),
      )
  Step-Inv {s = s} (decided i call d o o' hpc h) inv =
      goto-Inv server key ids inj s i _
        (take-PcOk server key ids inj s.store s.time d i call o o'
          (subst (PcOk server ids s.store s.time i) hpc (inv.1 i)) h)
        inv
  Step-Inv {s = s} (updated i d o o' now t hpc h) (holds, oks) = (
    set_at_lem (λ j g. Holds server ids t s.time g j) s.grant i (now + d)
        (update-Holds server key ids inj s.store t s.time now (now + d) d i o o'
          (subst (PcOk server ids s.store s.time i) hpc (oks i)) h (inl (omega arith)))
        (update-others server key ids inj s i d o o' now t hpc h (holds, oks)),
    update-PcOk server key ids inj s i d o o' now t hpc h (holds, oks),
  )
  Step-Inv {s = s} (update_reported_failed i d o o' now t hpc h) (holds, oks) = (
    at_lem (λ j. Holds server ids t s.time (s.grant j) j) i
        (update-Holds server key ids inj s.store t s.time now (s.grant i) d i o o'
          (subst (PcOk server ids s.store s.time i) hpc (oks i)) h (inr (holds i)))
        (update-others server key ids inj s i d o o' now t hpc h (holds, oks)),
    update-PcOk server key ids inj s i d o o' now t hpc h (holds, oks),
  )
  Step-Inv {s = s} (deleted i hpc lt) inv = delete-Inv s i hpc lt inv

  pub Reach-Inv :
      {st : Store} {s : System server key ids} → Reach server key ids st s → Inv server ids s
  unfolding Inv
  Reach-Inv (started t) = (λ i lt. absurd (omega (arith, lt)), λ i. _)
  Reach-Inv (extended r h) = Step-Inv h (Reach-Inv r)

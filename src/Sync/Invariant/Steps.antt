-- ===== src/Sync/Invariant/Steps.antt =====
-- Every step keeps the invariant.
use mathlib.Core.Path.{subst}
use potter_controller.Prelude.{
  String, ap, arith, inl, inr, none, set_at, some, some_inj, sym, ℕ, ◌+◌, ◌<◌, ◌∙◌, ◌≡◌, ◌≢◌, ◌≤◌,
  ◌⊎◌,
}
use potter_controller.Api.{Duration, NamespacedName, Time}
use potter_controller.Sync.Decision.{ClusterBomSync, keep, take}
use potter_controller.Sync.Invariant.Decisions.{decide-eq-keep, decide-eq-take}
use potter_controller.Sync.Invariant.Defs.{Free, Holds, Inv, PcOk, WasRead}
use potter_controller.Sync.Invariant.Moves.{Holds-change, PcOk-change, set_at_lem, update-Free}
use potter_controller.Sync.System.{
  ApiServer, Call, Pc, System, decide, fetched, goto, idle, writing,
}

module _ (server : ApiServer) (key : NamespacedName) (ids : ℕ → String)
    (inj : (a b : ℕ) → ids a ≡ ids b → a ≡ b) where
  open server use {Store, read, create, update, remove, revision, stored}

  -- A process moves without a write.
  pub goto-Inv :
      (s : System server key ids) (i : ℕ) (p : Pc)
      → PcOk server ids s.store s.time i p
      → Inv server ids s
      → Inv server ids (goto server key ids s i p)
  unfolding Inv
  goto-Inv s i p new (holds, oks) =
      (holds, set_at_lem (PcOk server ids s.store s.time) s.pc i p new (λ j _. oks j))

  -- A write of process `i` on an object that is free for the others.
  write-PcOk :
      (s : System server key ids) (i : ℕ) (p : Pc) (t : Store)
      → revision s.store ≤ revision t
      → ((n : ClusterBomSync) → read t ≡ some n → revision s.store < n.version)
      → ((j : ℕ) → i ≢ j → Free server ids s.store s.time j)
      → PcOk server ids t s.time i p
      → Inv server ids s
      → (j : ℕ) → PcOk server ids t s.time j (set_at s.pc i p j)
  unfolding Inv
  write-PcOk s i p t older fresh free new (holds, oks) =
      set_at_lem (PcOk server ids t s.time) s.pc i p new
        (λ j ne. PcOk-change server ids s.store t s.time j (s.pc j) older fresh (free j ne) (oks j))

  -- Nothing is there for anybody to count on.
  none-Free : (s : Store) (time : Time) (j : ℕ) → read s ≡ none → Free server ids s time j
  unfolding Free
  none-Free s time j h o h' e = cc

  pub create-Inv :
      (s : System server key ids) (i : ℕ) (o : ClusterBomSync) (p : Pc) (t : Store)
      → create s.store o ≡ some t
      → PcOk server ids t s.time i p
      → Inv server ids s
      → Inv server ids (record (goto server key ids s i p) { store = t })
  unfolding Inv
  create-Inv s i o p t h new (holds, oks) =
      let (absent, there, newer) = server.create_lem s.store t o h in
      (
        λ j.
            Holds-change server ids s.store t s.time (s.grant j) j
              (none-Free s.store s.time j absent) (holds j),
        write-PcOk s i p t (omega (arith, newer))
            (λ n hn.
              omega
                (arith, newer, ap (λ (z : ClusterBomSync). z.version) (some_inj (sym there ∙ hn))))
            (λ j _. none-Free s.store s.time j absent) new (holds, oks),
      )

  -- The owner of an object that it read has it still, unless it ran out.
  pub keep-Holds :
      (st : Store) (time : Time) (d : Duration) (i : ℕ) (call : Call) (o : ClusterBomSync)
      → PcOk server ids st time i (fetched call d o)
      → decide call (ids i) time d o ≡ keep
      → Holds server ids st time (time + d) i
  unfolding PcOk Holds
  keep-Holds st time d i call o (was, own) h lt =
      let (e, le) = decide-eq-keep call (ids i) time d o h in
      (o, own e (omega (arith, le, lt)), e, omega (arith, le))

  pub take-PcOk :
      (st : Store) (time : Time) (d : Duration) (i : ℕ) (call : Call) (o o' : ClusterBomSync)
      → PcOk server ids st time i (fetched call d o)
      → decide call (ids i) time d o ≡ take o'
      → PcOk server ids st time i (writing d o time o')
  unfolding PcOk
  take-PcOk st time d i call o o' (was, _) h =
      let (eq, own, foreign) = decide-eq-take call (ids i) time d o o' h in
      (was, omega arith, eq, own, foreign)

  -- The written object covers the new grant of its writer, and the one that it had before.
  pub update-Holds :
      (s t : Store) (time now grant : Time) (d : Duration) (i : ℕ) (o o' : ClusterBomSync)
      → PcOk server ids s time i (writing d o now o')
      → update s o' ≡ some t
      → grant ≤ now + d ⊎ Holds server ids s time grant i
      → Holds server ids t time grant i
  unfolding PcOk Holds WasRead
  update-Holds s t time now grant d i o o' (was, le, eq, own, foreign) h (inl ge) lt =
      let (c, hc, e, there, newer) = server.update_lem s t o' h in
      (
        record o' { until = stored o'.until; version = revision t },
        there,
        ap (λ (z : ClusterBomSync). z.id) eq,
        omega (arith, ge, server.stored-lt o'.until, ap (λ (z : ClusterBomSync). z.until) eq),
      )
  update-Holds s t time now grant d i o o' (was, le, eq, own, foreign) h (inr holds) lt =
      let (c, hc, e, there, newer) = server.update_lem s t o' h in
      let (b, hb, eb, ltb') = holds lt in
      let (older, same, st) = was in
      let b-o : b ≡ o =
        some_inj (sym hb ∙ hc) ∙ same c hc (e ∙ ap (λ (z : ClusterBomSync). z.version) eq) in
      let later : o.until < now + d = own (ap (λ (z : ClusterBomSync). z.id) (sym b-o) ∙ eb) in
      (
        record o' { until = stored o'.until; version = revision t },
        there,
        ap (λ (z : ClusterBomSync). z.id) eq,
        omega (
          arith,
          ltb',
          st,
          ap (λ (z : ClusterBomSync). z.until) b-o,
          ap (λ (z : ClusterBomSync). stored z.until) eq,
          server.stored_mono o.until (now + d) (omega (arith, later)),
        ),
      )

  pub update-PcOk :
      (s : System server key ids) (i : ℕ) (d : Duration) (o o' : ClusterBomSync) (now : Time)
      (t : Store)
      → s.pc i ≡ writing d o now o'
      → update s.store o' ≡ some t
      → Inv server ids s
      → (j : ℕ) → PcOk server ids t s.time j (set_at s.pc i idle j)
  unfolding Inv
  update-PcOk s i d o o' now t hpc h (holds, oks) =
      let (c, hc, e, there, newer) = server.update_lem s.store t o' h in
      write-PcOk s i idle t (omega (arith, newer))
        (λ n hn.
          omega (arith, newer, ap (λ (z : ClusterBomSync). z.version) (some_inj (sym there ∙ hn))))
        (λ j ne.
          update-Free server ids s.store s.time now d o o' c i j inj ne
            (subst (PcOk server ids s.store s.time i) hpc (oks i)) hc e)
        _ (holds, oks)

  pub update-others :
      (s : System server key ids) (i : ℕ) (d : Duration) (o o' : ClusterBomSync) (now : Time)
      (t : Store)
      → s.pc i ≡ writing d o now o'
      → update s.store o' ≡ some t
      → Inv server ids s
      → (j : ℕ) → i ≢ j
      → Holds server ids t s.time (s.grant j) j
  unfolding Inv
  update-others s i d o o' now t hpc h (holds, oks) j ne =
      let (c, hc, e, there, newer) = server.update_lem s.store t o' h in
      Holds-change server ids s.store t s.time (s.grant j) j
        (update-Free server ids s.store s.time now d o o' c i j inj ne
          (subst (PcOk server ids s.store s.time i) hpc (oks i)) hc e)
        (holds j)

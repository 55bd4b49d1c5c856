-- ===== src/Sync/Invariant/Moves.antt =====
-- A process keeps its part of the invariant when another one writes, and when time passes.
use mathlib.Core.Path.{subst}
use native.Mathlib.Decide.{ℕ_discrete}
use mathlib.Core.Logic.{ite}
use potter_controller.Prelude.{
  String, ap, arith, set_at, some, some_inj, sym, ℕ, ◌<◌, ◌∙◌, ◌≡◌, ◌≢◌, ◌≤◌,
}
use potter_controller.Api.{Duration, Time}
use potter_controller.Sync.Decision.{ClusterBomSync}
use potter_controller.Sync.Invariant.Defs.{Free, Holds, PcOk, WasRead}
use potter_controller.Sync.System.{ApiServer, Pc, creating, fetched, idle, refetching, writing}

-- A family that holds at a changed function.
pub set_at_lem {ℓ κ} :
    {A : Type ℓ} (P : ℕ → A → Type κ) (f : ℕ → A) (i : ℕ) (a : A)
    → P i a
    → ((j : ℕ) → i ≢ j → P j (f j))
    → (j : ℕ) → P j (set_at f i a j)
set_at_lem {A = A} P f i a own others j = at (ℕ_discrete i j)
  where
    at : (z : Dec (i ≡ j)) → P j (ite z a (f j))
    at (yes e) = subst (λ k. P k a) e own
    at (no ne) = others j ne

module _ (server : ApiServer) (ids : ℕ → String) where
  open server use {Store, read, revision, stored}

  WasRead-change :
      (s t : Store)
      → revision s ≤ revision t
      → ((n : ClusterBomSync) → read t ≡ some n → revision s < n.version)
      → (o : ClusterBomSync) → WasRead server ids s o
      → WasRead server ids t o
  unfolding WasRead
  WasRead-change s t older fresh o (le, same, st) =
      (omega (arith, older, le), λ c h e. absurd (omega (arith, fresh c h, e, le)), st)

  pub PcOk-change :
      (s t : Store) (time : Time) (j : ℕ) (p : Pc)
      → revision s ≤ revision t
      → ((n : ClusterBomSync) → read t ≡ some n → revision s < n.version)
      → Free server ids s time j
      → PcOk server ids s time j p
      → PcOk server ids t time j p
  unfolding Free PcOk
  PcOk-change s t time j idle older fresh free done = done
  PcOk-change s t time j (creating d o) older fresh free done = done
  PcOk-change s t time j (refetching d) older fresh free done = done
  PcOk-change s t time j (fetched call d o) older fresh free (was, own) = (
    WasRead-change s t older fresh o was,
    λ e lt. absurd (omega (arith, lt, free o (own e lt) e)),
  )
  PcOk-change s t time j (writing d o now o') older fresh free (was, le, eq, own, foreign) =
      (WasRead-change s t older fresh o was, le, eq, own, foreign)

  -- Nobody else holds an object that is free for him.
  pub Holds-change :
      (s t : Store) (time grant : Time) (j : ℕ)
      → Free server ids s time j
      → Holds server ids s time grant j
      → Holds server ids t time grant j
  unfolding Free Holds
  Holds-change s t time grant j free holds lt =
      let (o, h, e, g) = holds lt in absurd (omega (arith, free o h e, g, lt))

  pub PcOk-later :
      (s : Store) (t u : Time) (j : ℕ) (p : Pc)
      → t ≤ u
      → PcOk server ids s t j p
      → PcOk server ids s u j p
  unfolding PcOk
  PcOk-later s t u j idle le done = done
  PcOk-later s t u j (creating d o) le done = done
  PcOk-later s t u j (refetching d) le done = done
  PcOk-later s t u j (fetched call d o) le (was, own) = (was, λ e lt. own e (omega (arith, le, lt)))
  PcOk-later s t u j (writing d o now o') le (was, le', eq, own, foreign) =
      (was, omega (arith, le, le'), eq, own, foreign)

  -- What a read returns was read.
  pub read-WasRead : (s : Store) (o : ClusterBomSync) → read s ≡ some o → WasRead server ids s o
  unfolding WasRead
  read-WasRead s o h =
      (server.read-revision s o h, λ c h' e. some_inj (sym h' ∙ h), server.read-stored s o h)

  -- The object that is there when an update succeeds is the one that was fetched, and it is free for
  -- every other process.
  pub update-Free :
      (s : Store) (time now : Time) (d : Duration) (o o' c : ClusterBomSync) (i j : ℕ)
      → ((a b : ℕ) → ids a ≡ ids b → a ≡ b)
      → i ≢ j
      → PcOk server ids s time i (writing d o now o')
      → read s ≡ some c
      → c.version ≡ o'.version
      → Free server ids s time j
  unfolding Free PcOk WasRead
  update-Free s time now d o o' c i j inj ne (was, le, eq, own, foreign) h e x hx ex =
      let (older, same, st) = was in
      let c-o : c ≡ o = same c h (e ∙ ap (λ (z : ClusterBomSync). z.version) eq) in
      let x-o : x ≡ o = some_inj (sym hx ∙ h) ∙ c-o in
      let o-j : o.id ≡ ids j = ap (λ (z : ClusterBomSync). z.id) (sym x-o) ∙ ex in
      omega (
        arith,
        foreign (λ q. ne (inj i j (sym q ∙ o-j))),
        le,
        ap (λ (z : ClusterBomSync). z.until) x-o,
      )

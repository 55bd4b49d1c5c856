-- ===== src/StateController/Reachable/Reports.antt =====
-- The reachability condition follows the latest report.
use mathlib.Core.List.{Memᴰ}
use mathlib.Core.Path.{subst}
use potter_controller.Prelude.{
  >>=-eq-some, All, Bool-cases, List, Option, [], ap, arith, if◌then◌else◌, inl, inr, ltb, ltb→le,
  ltb→lt, none, refl, some, some_inj, sym, true, ◌<◌, ◌∷◌, ◌≡◌, ◌≤◌, ◌⊎◌,
}
use potter_controller.Api.{
  ClusterBom, ClusterBomCondition, DeployItem, HubDeployItemProviderStatus, Json, Reachability,
  Time, condition_false, condition_true, condition_unknown,
}
use potter_controller.StateController.Reachable.{
  Latest, compute_cluster_reachable_condition, latest_reachability, no_info, reachable_condition,
  reachable_verdict, see_reachability,
}
use potter_controller.StateController.States.{read_provider_status}

-- The reachabilities that the provider statuses of the items hold.
abbrev report : Option HubDeployItemProviderStatus → List Reachability → List Reachability
report none rest = rest
report (some s) rest = elim s.reachability [ none ↦ rest | some r ↦ r ∷ rest ]

abbrev pub reports : Json → List DeployItem → List Reachability
reports json [] = []
reports json (item ∷ rest) = report (read_provider_status json item) (reports json rest)

abbrev pub NoneAfter : Time → List Reachability → Type 0
NoneAfter t = All (λ (r : Reachability). r.time ≤ t)

-- A report of the list that is later than `l`, and that `m` holds.
pub record Newer (rs : List Reachability) (l m : Latest) : Type 0 where
  pub r : Reachability
  pub reported : Memᴰ r rs
  pub later : l.date < r.time
  pub held : m ≡ record { date = r.time; reachable = r.reachable; found = true }

abbrev pub Follows : List Reachability → Latest → Latest → Type 0
Follows rs l m = NoneAfter m.date rs × ((m ≡ l) ⊎ Newer rs l m)

date-le : (rs : List Reachability) (l m : Latest) → Follows rs l m → l.date ≤ m.date
date-le rs l m (_, inl e) = rw e (omega arith)
date-le rs l m (_, inr n) = ground (arith, n.held, n.later)

Follows-see :
    (o : Option Reachability) (rs : List Reachability) (l m : Latest)
    → Follows rs (see_reachability o l) m
    → Follows (elim o [ none ↦ rs | some r ↦ r ∷ rs ]) l m
unfolding see_reachability
Follows-see none rs l m h = h
Follows-see (some r) rs l m (none_after, inl e) = elim (Bool-cases (ltb l.date r.time)) [
  | inl newer ↦ (
    (rw (e, newer) (omega arith), none_after),
    inr (record {
      r = r;
      reported = Memᴰ.head refl;
      later = ltb→lt l.date r.time newer;
      held = rw newer at e;
    }),
  )
  | inr older ↦ ((rw (e, older) (ltb→le l.date r.time older), none_after), inl (rw older at e))
]
Follows-see (some r) rs l m (none_after, inr n) = (
  (ground (arith, n.held, n.later), none_after),
  inr (record {
    r = n.r;
    reported = Memᴰ.tail n.reported;
    later = ground (arith, n.later);
    held = n.held;
  }),
)

pub Follows-latest :
    (json : Json) (items : List DeployItem) (l m : Latest)
    → latest_reachability json items l ≡ some m
    → Follows (reports json items) l m
unfolding latest_reachability
Follows-latest json [] l m h = (tt, inl (sym (some_inj h)))
Follows-latest json (item ∷ rest) l m h =
    let (s, e, more) = >>=-eq-some (read_provider_status json item) _ h in
    rw e (Follows-see s.reachability (reports json rest) l m (Follows-latest json rest _ m more))

-- When the reachability condition of a clusterbom is computed without an error: no report is later
-- than the latest one seen, and the condition has status Unknown if no report is later than the zero
-- time, and otherwise the status that a report of that latest time gives, True for reachable and False
-- for not reachable.
pub reachable_follows_latest :
    (json : Json) (now : Time) (items : List DeployItem) (bom : ClusterBom)
    (c : ClusterBomCondition)
    → compute_cluster_reachable_condition json now items bom ≡ some c
    → (NoneAfter 0 (reports json items) × (c.status ≡ condition_unknown))
      ⊎ ((r : Reachability) × Memᴰ r (reports json items)
          × (0 < r.time)
          × NoneAfter r.time (reports json items)
          × (c.status ≡ (if r.reachable then condition_true else condition_false)))
unfolding compute_cluster_reachable_condition reachable_condition reachable_verdict
reachable_follows_latest json now items bom c h =
    let (l, e, same) = >>=-eq-some (latest_reachability json items no_info) _ h in
    let status = ap (λ (c : ClusterBomCondition). c.status) (some_inj same) in
    let (none_after, seen) = Follows-latest json items no_info l e in
    elim seen [
      | inl old ↦ inl (
        subst (λ (l : Latest). NoneAfter l.date (reports json items)) old none_after,
        ground (arith, old, status),
      )
      | inr n ↦ inr (
        n.r,
        n.reported,
        n.later,
        subst (λ (l : Latest). NoneAfter l.date (reports json items)) n.held none_after,
        ground (arith, n.held, status),
      )
    ]

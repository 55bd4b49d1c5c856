-- ===== src/ClusterBomController/Convergence.antt =====
-- The clusterbom controller and the deployment controller together deactivate and reactivate.
use potter_controller.Prelude.{
  All, Bool, List, [], ap, arith, false, map, none, refl, true, ◌∙◌, ◌∷◌, ◌≡◌,
}
use potter_controller.Api.{ClusterBom, DeployItem, ObjectMeta, Result, err, ok}
use potter_controller.ClusterBomController.Confirmed.{
  deactivate-confirmed, handled, reactivate-confirmed, reactivate-not_deactivate,
}
use potter_controller.ClusterBomController.Deactivator.{
  BomClient, Round, continue, deactivate_item, finish, for_items,
  handle_bom_deactivation_or_reactivation, is_off, is_on, reactivate_item,
}
use potter_controller.Deploy.Client.{Client}
use potter_controller.DeploymentController.Deactivator.{
  asks_deactivate, asks_reactivate, deactivated_meta, reactivated_meta,
}

-- There was no error.
abbrev pub NotErr {ℓ} : {A : Type ℓ} → Result A → Type 0
NotErr (ok a) = Unit
NotErr (err e) = ⊥

-- A round over items, of which some are good, and what another party makes of an item after it.
module _ {W : Type 0} (round : Round W) (good : DeployItem → Bool)
    (after : DeployItem → DeployItem) where
  for_items-settled :
      ((x : DeployItem) (w : W) → good x ≡ true → round x w ≡ (ok true, x, w))
      → (items : List DeployItem) (w : W) → All (λ x. good x ≡ true) items
      → for_items round items w ≡ (ok true, items, w)
  unfolding for_items
  for_items-settled settled [] w h = refl
  for_items-settled settled (x ∷ xs) w (h, hs) =
      rw (settled x w h, for_items-settled settled xs w hs) refl

  for_items-confirmed :
      ((x : DeployItem) (w : W) → good (after (round x w).1) ≡ true)
      → (items : List DeployItem) (w : W) → NotErr (for_items round items w).0
      → All (λ x. good x ≡ true) (map after (for_items round items w).1)
  unfolding for_items
  for_items-confirmed confirmed [] w h = _
  for_items-confirmed confirmed (x ∷ xs) w h =
      go (round x w) (confirmed x w) (for_items round xs (round x w).2)
        (for_items-confirmed confirmed xs (round x w).2) h
    where
      go :
          (p : Result Bool × DeployItem × W)
          → good (after p.1) ≡ true
          → (q : Result Bool × List DeployItem × W)
          → (NotErr q.0 → All (λ y. good y ≡ true) (map after q.1))
          → NotErr (continue xs p q).0
          → All (λ y. good y ≡ true) (map after (continue xs p q).1)
      go (err e, y, w') f q rest h = absurd h
      go (ok b, y, w') f (err e, ys, u) rest h = absurd h
      go (ok b, y, w') f (ok b', ys, u) rest h = (f, rest tt)

-- The settled and the confirmed rounds of both actions.
deactivate-settled :
    {W : Type 0} (c : BomClient W) (x : DeployItem) (w : W)
    → is_off x.meta ≡ true
    → deactivate_item c x w ≡ (ok true, x, w)
unfolding deactivate_item
deactivate-settled c x w h = ground (arith, h)

reactivate-settled :
    {W : Type 0} (c : BomClient W) (x : DeployItem) (w : W)
    → is_on x.meta ≡ true
    → reactivate_item c x w ≡ (ok true, x, w)
unfolding reactivate_item
reactivate-settled c x w h = ground (arith, h)

finish_done :
    {W : Type 0} (c : BomClient W) (mark : ObjectMeta → ObjectMeta) (bom : ClusterBom)
    (items : List DeployItem) (u : W)
    → (c.update_bom (record bom { meta = mark bom.meta }) u).0 ≡ none
    → finish c mark bom (ok true, items, u) ≡ (
      ok (record { stop = true; progressing = false }),
      items,
      (c.update_bom (record bom { meta = mark bom.meta }) u).1,
    )
unfolding finish
finish_done c mark bom items u h = rw h refl

handle-deactivate :
    {W : Type 0} (c : BomClient W) (bom : ClusterBom) (items : List DeployItem) (w : W)
    → asks_deactivate bom.meta ≡ true
    → handle_bom_deactivation_or_reactivation c bom items w
      ≡ finish c deactivated_meta bom (for_items (deactivate_item c) items w)
unfolding handle_bom_deactivation_or_reactivation
handle-deactivate c bom items w h = rw h refl

handle-reactivate :
    {W : Type 0} (c : BomClient W) (bom : ClusterBom) (items : List DeployItem) (w : W)
    → asks_reactivate bom.meta ≡ true
    → handle_bom_deactivation_or_reactivation c bom items w
      ≡ finish c reactivated_meta bom (for_items (reactivate_item c) items w)
unfolding handle_bom_deactivation_or_reactivation
handle-reactivate c bom items w h = rw (reactivate-not_deactivate bom.meta h, h) refl

-- Where a clusterbom asks for its deactivation and a first round over its deploy items ends without an
-- error, and the deployment controller has handled each item then: the next round finds every item
-- confirmed and writes none, and the deactivation is done if the update of the clusterbom succeeds.
pub deactivation_converges :
    {W V : Type 0} (c : BomClient W) (d : Client V) (bom : ClusterBom) (items : List DeployItem)
    (w u : W) (v : V)
    → asks_deactivate bom.meta ≡ true
    → NotErr (for_items (deactivate_item c) items w).0
    → (c.update_bom (record bom { meta = deactivated_meta bom.meta }) u).0 ≡ none
    → let items' = map (handled c d v) (for_items (deactivate_item c) items w).1 in
      handle_bom_deactivation_or_reactivation c bom items' u ≡ (
        ok (record { stop = true; progressing = false }),
        items',
        (c.update_bom (record bom { meta = deactivated_meta bom.meta }) u).1,
      )
deactivation_converges c d bom items w u v h ne up =
    let items' = map (handled c d v) (for_items (deactivate_item c) items w).1 in
    let off : All (λ (x : DeployItem). is_off x.meta ≡ true) items' =
      for_items-confirmed (deactivate_item c) (λ x. is_off x.meta) (handled c d v)
        (λ x w'. deactivate-confirmed c d x w' v) items w ne in
    handle-deactivate c bom items' u h
    ∙ ap (finish c deactivated_meta bom) (
        for_items-settled (deactivate_item c) (λ x. is_off x.meta) (handled c d v)
          (deactivate-settled c) items' u off)
    ∙ finish_done c deactivated_meta bom items' u up

-- Where a clusterbom asks for its reactivation and a first round over its deploy items ends without an
-- error, and the deployment controller has handled each item then: the next round finds every item
-- confirmed and writes none, and the reactivation is done if the update of the clusterbom succeeds.
pub reactivation_converges :
    {W V : Type 0} (c : BomClient W) (d : Client V) (bom : ClusterBom) (items : List DeployItem)
    (w u : W) (v : V)
    → asks_reactivate bom.meta ≡ true
    → NotErr (for_items (reactivate_item c) items w).0
    → (c.update_bom (record bom { meta = reactivated_meta bom.meta }) u).0 ≡ none
    → let items' = map (handled c d v) (for_items (reactivate_item c) items w).1 in
      handle_bom_deactivation_or_reactivation c bom items' u ≡ (
        ok (record { stop = true; progressing = false }),
        items',
        (c.update_bom (record bom { meta = reactivated_meta bom.meta }) u).1,
      )
reactivation_converges c d bom items w u v h ne up =
    let items' = map (handled c d v) (for_items (reactivate_item c) items w).1 in
    let on : All (λ (x : DeployItem). is_on x.meta ≡ true) items' =
      for_items-confirmed (reactivate_item c) (λ x. is_on x.meta) (handled c d v)
        (λ x w'. reactivate-confirmed c d x w' v) items w ne in
    handle-reactivate c bom items' u h
    ∙ ap (finish c reactivated_meta bom) (
        for_items-settled (reactivate_item c) (λ x. is_on x.meta) (handled c d v)
          (reactivate-settled c) items' u on)
    ∙ finish_done c reactivated_meta bom items' u up

-- ===== src/ClusterBomController/Confirmed.antt =====
-- What the deployment controller makes of a deploy item that the clusterbom controller asked.
use potter_controller.Prelude.{
  Bool, Option, String, ap, arith, eq_iff, false, if_lem, lookup, lookup-delete, lookup-insert,
  none, refl, some, true, ◌==◌, ◌∙◌, ◌≡◌,
}
use potter_controller.Api.{DeployItem, ObjectMeta, Result}
use potter_controller.ClusterBomController.Deactivator.{
  BomClient, asked, deactivate_item, is_off, is_on, reactivate_item,
}
use potter_controller.Deploy.Client.{Client}
use potter_controller.DeploymentController.Deactivator.{
  annotation_action_ignore_key, asks_deactivate, asks_reactivate, deactivate_value,
  deactivated_meta, handle_deactivation_or_reactivation, reactivate_value, reactivated_meta,
}
use potter_controller.Util.Objects.{
  add_annotation, get_annotation, has_annotation, remove_annotation,
}

deactivated_meta-off : (m : ObjectMeta) → is_off (deactivated_meta m) ≡ true
unfolding deactivated_meta add_annotation remove_annotation has_annotation get_annotation
deactivated_meta-off m = grind (arith, lookup-delete, lookup-insert)

reactivated_meta-on : (m : ObjectMeta) → is_on (reactivated_meta m) ≡ true
unfolding reactivated_meta remove_annotation has_annotation get_annotation
reactivated_meta-on m = grind (arith, lookup-delete, lookup-insert)

asks-asked : (item : DeployItem) → asks_deactivate (asked deactivate_value item).meta ≡ true
unfolding asked add_annotation has_annotation get_annotation
asks-asked item = grind (arith, lookup-delete, lookup-insert)

asks-asked_on : (item : DeployItem) → asks_reactivate (asked reactivate_value item).meta ≡ true
unfolding asked add_annotation has_annotation get_annotation
asks-asked_on item = grind (arith, lookup-delete, lookup-insert)

-- One annotation does not ask for both.
pub reactivate-not_deactivate :
    (m : ObjectMeta) → asks_reactivate m ≡ true → asks_deactivate m ≡ false
unfolding has_annotation get_annotation
reactivate-not_deactivate m h = go (lookup annotation_action_ignore_key m.annotations) h
  where
    go :
        (o : Option String)
        → (elim o [ none ↦ false | some v ↦ v == reactivate_value ]) ≡ true
        → (elim o [ none ↦ false | some v ↦ v == deactivate_value ]) ≡ false
    go none h = refl
    go (some v) h = ap (λ t. t == deactivate_value) ((eq_iff v reactivate_value).0 h)

module _ {W V : Type 0} (c : BomClient W) (d : Client V) where
  -- The item that the deployment controller leaves after it handled the action.
  abbrev pub handled : V → DeployItem → DeployItem
  handled v item = (handle_deactivation_or_reactivation d item v).1

  handled-off : (v : V) (x : DeployItem) → is_off x.meta ≡ true → handled v x ≡ x
  unfolding handle_deactivation_or_reactivation
  handled-off v x h = ground (arith, h)

  handled-on : (v : V) (x : DeployItem) → is_on x.meta ≡ true → handled v x ≡ x
  unfolding handle_deactivation_or_reactivation
  handled-on v x h = ground (arith, h)

  handled-deactivate :
      (v : V) (x : DeployItem) → asks_deactivate x.meta ≡ true → is_off (handled v x).meta ≡ true
  unfolding handle_deactivation_or_reactivation
  handled-deactivate v x h = ground (arith, h, deactivated_meta-off x.meta)

  handled-reactivate :
      (v : V) (x : DeployItem)
      → asks_deactivate x.meta ≡ false
      → asks_reactivate x.meta ≡ true
      → is_on (handled v x).meta ≡ true
  unfolding handle_deactivation_or_reactivation
  handled-reactivate v x h h' = ground (arith, h, h', reactivated_meta-on x.meta)

  -- An item that was asked, and handled, has confirmed.
  pub deactivate-confirmed :
      (item : DeployItem) (w : W) (v : V)
      → is_off (handled v (deactivate_item c item w).1).meta ≡ true
  unfolding deactivate_item
  deactivate-confirmed item w v =
      let P : Result Bool × DeployItem × W → Type 0 = λ z. is_off (handled v z.1).meta ≡ true in
      if_lem P (is_off item.meta)
        (λ h. ap (λ (x : DeployItem). is_off x.meta) (handled-off v item h) ∙ h)
        (λ _.
          if_lem P (asks_deactivate item.meta) (λ h. handled-deactivate v item h)
            (λ _. handled-deactivate v (asked deactivate_value item) (asks-asked item)))

  pub reactivate-confirmed :
      (item : DeployItem) (w : W) (v : V)
      → is_on (handled v (reactivate_item c item w).1).meta ≡ true
  unfolding reactivate_item
  reactivate-confirmed item w v =
      let P : Result Bool × DeployItem × W → Type 0 = λ z. is_on (handled v z.1).meta ≡ true in
      if_lem P (is_on item.meta)
        (λ h. ap (λ (x : DeployItem). is_on x.meta) (handled-on v item h) ∙ h)
        (λ _.
          if_lem P (asks_reactivate item.meta)
            (λ h. handled-reactivate v item (reactivate-not_deactivate item.meta h) h)
            (λ _.
              handled-reactivate v (asked reactivate_value item)
                (reactivate-not_deactivate (asked reactivate_value item).meta (asks-asked_on item))
                (asks-asked_on item)))

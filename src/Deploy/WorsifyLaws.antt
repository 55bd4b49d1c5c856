-- ===== src/Deploy/WorsifyLaws.antt =====
-- How the conditions of a deploy item get worse.
use potter_controller.Prelude.{
  List, Option, String, [], ap, arith, eq_refl, if◌then◌else◌, none, refl, some, ◌∙◌, ◌∷◌, ◌≡◌,
}
use potter_controller.Api.{
  Condition, ConditionStatus, Time, condition_false, condition_true, condition_unknown,
  other_status,
}
use potter_controller.Deploy.ItemCondition.{
  change_condition, condition_of, is_worse_or_equal, new_condition, worsify,
  worsify_deploy_item_condition,
}
use potter_controller.Util.Condition.{worse_condition_status}

-- A changed condition is found under its type, if the change keeps the type; so is a new one.
condition_of-change :
    (type : String) (change : Condition → Condition) (new : Condition)
    → ((c : Condition) → (change c).type ≡ c.type)
    → new.type ≡ type
    → (cs : List Condition)
    → condition_of type (change_condition type change new cs)
      ≡ some (elim (condition_of type cs) [ none ↦ new | some c ↦ change c ])
unfolding condition_of change_condition
condition_of-change type change new same h [] = ground (arith, h, eq_refl type)
condition_of-change type change new same h (c ∷ cs) =
    ground (arith, same c, condition_of-change type change new same h cs)

-- The status of a condition of the three known ones.
abbrev pub Known : ConditionStatus → Type 0
Known (other_status s) = ⊥
Known _ = Unit

worse_lem :
    (status old : ConditionStatus)
    → Known status
    → Known old
    → (if is_worse_or_equal status old then status else old) ≡ worse_condition_status old status
unfolding worse_condition_status
worse_lem condition_true condition_true k k' = refl
worse_lem condition_true condition_false k k' = refl
worse_lem condition_true condition_unknown k k' = refl
worse_lem condition_false condition_true k k' = refl
worse_lem condition_false condition_false k k' = refl
worse_lem condition_false condition_unknown k k' = refl
worse_lem condition_unknown condition_true k k' = refl
worse_lem condition_unknown condition_false k k' = refl
worse_lem condition_unknown condition_unknown k k' = refl
worse_lem (other_status s) old k k' = absurd k
worse_lem condition_true (other_status s) k k' = absurd k'
worse_lem condition_false (other_status s) k k' = absurd k'
worse_lem condition_unknown (other_status s) k k' = absurd k'

-- Where a condition of a type is there, and its status and the given one are True, False or Unknown:
-- after `WorsifyDeployItemCondition` the condition of the type has the worse one of the two, as
-- `WorseConditionStatus` has it.
pub worsify_is_worse_status :
    (type : String) (status : ConditionStatus) (now : Time) (reason message : String)
    (cs : List Condition) (old : Condition)
    → Known status
    → Known old.status
    → condition_of type cs ≡ some old
    → (c : Condition) × (condition_of type
          (worsify_deploy_item_condition type status now reason message cs)
        ≡ some c)
      × (c.status ≡ worse_condition_status old.status status)
unfolding worsify_deploy_item_condition worsify worse_condition_status
worsify_is_worse_status type status now reason message cs old k k' h = (
  worsify status now reason message old,
  condition_of-change type (worsify status now reason message)
        (new_condition type status now reason message) (λ c. ground arith) refl cs
      ∙ ap
          (λ (o : Option Condition). some (elim o [
            | none ↦ new_condition type status now reason message
            | some c ↦ worsify status now reason message c
          ]))
          h,
  ground (arith, worse_lem status old.status k k'),
)

-- ===== src/Deploy/ItemCondition.antt =====
-- The conditions of a deploy item, as pkg/deployutil/deploydata.go changes them.
use potter_controller.Prelude.{
  Bool, List, Option, String, [], false, if◌then◌else◌, none, some, ◌&&◌, ◌==◌, ◌||◌, ◌∷◌,
}
use potter_controller.Api.{Condition, ConditionStatus, Time, status_text}
use potter_controller.Util.Condition.{is_false, is_true, is_unknown}

abbrev pub new_condition : String → ConditionStatus → Time → String → String → Condition
new_condition type status now reason message = record {
  type = type;
  status = status;
  last_update_time = now;
  last_transition_time = now;
  reason = reason;
  message = message;
}

-- The first condition of a type, or nil.
unfoldable pub condition_of : String → List Condition → Option Condition
condition_of type [] = none
condition_of type (c ∷ cs) = if c.type == type then some c else condition_of type cs

-- The condition that `GetDeployItemCondition` points to is changed in place, or a new one is appended.
unfoldable pub change_condition :
    String → (Condition → Condition) → Condition → List Condition → List Condition
change_condition type change new [] = new ∷ []
change_condition type change new (c ∷ cs) =
    let rest = change_condition type change new cs in
    if c.type == type then change c ∷ cs else c ∷ rest

abbrev pub is_worse_or_equal : ConditionStatus → ConditionStatus → Bool
is_worse_or_equal status old =
    is_false status || (is_unknown status && is_unknown old) || is_true old

unfoldable pub worsify : ConditionStatus → Time → String → String → Condition → Condition
worsify status now reason message c =
    if is_worse_or_equal status c.status
    then record c {
      status = status;
      last_update_time = now;
      last_transition_time = now;
      reason = reason;
      message = message;
    }
    else c

unfoldable pub worsify_deploy_item_condition :
    String → ConditionStatus → Time → String → String → List Condition → List Condition
unfolding change_condition worsify
worsify_deploy_item_condition type status now reason message cs =
    change_condition type (worsify status now reason message)
      (new_condition type status now reason message) cs

unfoldable pub is_equal_hdc_condition : Condition → ConditionStatus → String → String → Bool
is_equal_hdc_condition c status reason message =
    status_text c.status == status_text status && (c.reason == reason) && (c.message == message)

unfoldable pub renew_condition : ConditionStatus → Time → String → String → Condition → Condition
unfolding is_equal_hdc_condition
renew_condition status now reason message c =
    if is_equal_hdc_condition c status reason message
    then record c { last_update_time = now }
    else record c {
      status = status;
      last_update_time = now;
      last_transition_time = now;
      reason = reason;
      message = message;
    }

unfoldable pub replace_deploy_item_condition :
    String → ConditionStatus → Time → String → String → List Condition → List Condition
unfolding change_condition renew_condition
replace_deploy_item_condition type status now reason message cs =
    change_condition type (renew_condition status now reason message)
      (new_condition type status now reason message) cs

unfoldable pub is_condition_true : String → List Condition → Bool
unfolding condition_of
is_condition_true type cs = elim (condition_of type cs) [ none ↦ false | some c ↦ is_true c.status ]

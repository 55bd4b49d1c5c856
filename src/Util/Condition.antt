-- ===== src/Util/Condition.antt =====
-- pkg/util/condition.go: lookup, comparison and worsening of conditions.
use potter_controller.Prelude.{
  Bool, List, Option, String, [], eqb, false, find_first, if◌then◌else◌, length, map, none, some,
  suc, true, ℕ, ◌&&◌, ◌==◌, ◌||◌, ◌∷◌,
}
use potter_controller.Api.{
  ClusterBom, ClusterBomCondition, ClusterBomStatus, Condition, ConditionStatus, DeployItem, Time,
  condition_false, condition_true, condition_unknown, status_text,
}

-- The loops over `Conditions`: the first condition of the type, or nil.
unfoldable pub get_cluster_bom_condition_from_status :
    ClusterBomStatus → String → Option ClusterBomCondition
get_cluster_bom_condition_from_status s type = find_first (λ c. c.type == type) s.conditions

unfoldable pub get_cluster_bom_condition : ClusterBom → String → Option ClusterBomCondition
unfolding get_cluster_bom_condition_from_status
get_cluster_bom_condition bom type = get_cluster_bom_condition_from_status bom.status type

unfoldable pub get_deploy_item_condition : DeployItem → String → Option Condition
get_deploy_item_condition item type = find_first (λ c. c.type == type) item.status.conditions

unfoldable pub is_equal_cluster_bom_condition : ClusterBomCondition → ClusterBomCondition → Bool
is_equal_cluster_bom_condition c d =
    c.type == d.type
    && (status_text c.status == status_text d.status)
    && (c.reason == d.reason)
    && (c.message == d.message)

-- The inner loop: `found`, or `none` for the early `return false`.
unfoldable pub match_cluster_bom_condition :
    ClusterBomCondition → List ClusterBomCondition → Bool → Option Bool
match_cluster_bom_condition old [] found = some found
match_cluster_bom_condition old (new ∷ rest) found =
    let same = match_cluster_bom_condition old rest true in
    let other = match_cluster_bom_condition old rest found in
    if old.type == new.type
    then if is_equal_cluster_bom_condition old new then same else none
    else other

abbrev pub succeeds : Option Bool → Bool
succeeds none = false
succeeds (some found) = found

unfoldable pub all_cluster_bom_conditions :
    List ClusterBomCondition → List ClusterBomCondition → Bool
unfolding match_cluster_bom_condition
all_cluster_bom_conditions [] new = true
all_cluster_bom_conditions (c ∷ rest) new =
    succeeds (match_cluster_bom_condition c new false) && all_cluster_bom_conditions rest new

unfoldable pub is_equal_cluster_bom_condition_list :
    List ClusterBomCondition → List ClusterBomCondition → Bool
unfolding all_cluster_bom_conditions
is_equal_cluster_bom_condition_list old new =
    if eqb (length old) (length new) then all_cluster_bom_conditions old new else false

-- `oldCondition != newCondition` compares pointers. An element's address is its array and its index;
-- two arrays are the same or do not overlap.
pub record Address : Type 0 where
  pub array : ℕ
  pub index : ℕ

abbrev pub same_address : Address → Address → Bool
same_address p q = eqb p.array q.array && eqb p.index q.index

unfoldable pub match_hdc_condition :
    Condition → Address → List Condition → Address → Bool → Option Bool
match_hdc_condition old p [] q found = some found
match_hdc_condition old p (new ∷ rest) q found =
    let next = record q { index = suc q.index } in
    let same = match_hdc_condition old p rest next true in
    let other = match_hdc_condition old p rest next found in
    if old.type == new.type then if same_address p q then same else none else other

unfoldable pub all_hdc_conditions : List Condition → Address → List Condition → ℕ → Bool
unfolding match_hdc_condition
all_hdc_conditions [] p new array = true
all_hdc_conditions (c ∷ rest) p new array =
    succeeds (match_hdc_condition c p new (record { array = array; index = 0 }) false)
    && all_hdc_conditions rest (record p { index = suc p.index }) new array

-- The two lists, each with the address of its array.
unfoldable pub is_equal_hdc_condition_list : ℕ → List Condition → ℕ → List Condition → Bool
unfolding all_hdc_conditions
is_equal_hdc_condition_list old_array old new_array new =
    if eqb (length old) (length new)
    then all_hdc_conditions old (record { array = old_array; index = 0 }) new new_array
    else false

unfoldable pub get_deploy_item_condition_status : Option Condition → ConditionStatus
get_deploy_item_condition_status none = condition_unknown
get_deploy_item_condition_status (some c) = elim c.status [
  | condition_true ↦ condition_true
  | condition_false ↦ condition_false
  | _ ↦ condition_unknown
]

abbrev pub is_false : ConditionStatus → Bool
is_false condition_false = true
is_false _ = false

abbrev pub is_unknown : ConditionStatus → Bool
is_unknown condition_unknown = true
is_unknown _ = false

abbrev pub is_true : ConditionStatus → Bool
is_true condition_true = true
is_true _ = false

unfoldable pub worse_condition_status : ConditionStatus → ConditionStatus → ConditionStatus
worse_condition_status a b =
    if is_false a || is_false b
    then condition_false
    else if is_unknown a || is_unknown b
    then condition_unknown
    else condition_true

-- Both condition types have the same fields, so the conversion is a copy.
unfoldable pub map_to_hdc_condition : List Condition → List Condition
map_to_hdc_condition = map λ c. record {
  type = c.type;
  status = c.status;
  last_update_time = c.last_update_time;
  last_transition_time = c.last_transition_time;
  reason = c.reason;
  message = c.message;
}

-- The transition time of an old condition with the same status is kept.
unfoldable pub transition_time : Time → Option ClusterBomCondition → ConditionStatus → Time
transition_time now none status = now
transition_time now (some old) status =
    if status_text old.status == status_text status then old.last_transition_time else now

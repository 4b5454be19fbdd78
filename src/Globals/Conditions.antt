-- ===== src/Globals/Conditions.antt =====
-- internal/globals/globals.go: the conditions of a resource's status. The clock is a parameter: `now`
-- is what `metav1.Now()` returns. The pointer that `getCondition` returns is an index of the slice.
pub mod Laws
use kuberbac.Prelude.{
  ℕ, zero, suc, Option, none, some, List, [], ◌∷◌, ◌++◌, Str, lit, ◌==◌, if◌then◌else◌,
}
use mathlib.Core.Option

-- metav1.Condition, as far as the program sets its fields.
pub record Condition : Type 0 where
  pub condition_type : Str
  pub status : Str
  pub last_transition_time : ℕ
  pub reason : Str
  pub message : Str

-- "ResourceSynced"
abbrev pub condition_type_resource_synced : Str
condition_type_resource_synced = lit "ResourceSynced"

abbrev pub condition_reason_kubernetes_api_call_error_type : Str
condition_reason_kubernetes_api_call_error_type = lit "KubernetesApiCallError"

abbrev pub condition_reason_kubernetes_api_call_error_message : Str
condition_reason_kubernetes_api_call_error_message =
    lit "Call to Kubernetes API failed. More info in logs."

abbrev pub condition_reason_target_synced : Str
condition_reason_target_synced = lit "TargetSynced"

abbrev pub condition_reason_target_synced_message : Str
condition_reason_target_synced_message = lit "Target was successfully synced"

-- metav1.ConditionTrue
abbrev pub condition_true : Str
condition_true = lit "True"

unfoldable pub new_condition : ℕ → Str → Str → Str → Str → Condition
new_condition now cond_type status reason message = record {
  condition_type = cond_type;
  status = status;
  last_transition_time = now;
  reason = reason;
  message = message;
}

unfoldable pub get_condition : List Condition → Str → Option ℕ
get_condition [] cond_type = none
get_condition (v ∷ conditions) cond_type =
    if v.condition_type == cond_type
    then some 0
    else Option.map suc (get_condition conditions cond_type)

-- The writes through the pointer.
abbrev pub renewed : ℕ → Condition → Condition → Condition
renewed now condition current = record current {
  status = condition.status;
  last_transition_time = now;
  reason = condition.reason;
  message = condition.message;
}

write_through : ℕ → Condition → ℕ → List Condition → List Condition
write_through now condition i [] = []
write_through now condition zero (v ∷ conditions) = renewed now condition v ∷ conditions
write_through now condition (suc i) (v ∷ conditions) = v ∷ write_through now condition i conditions

unfoldable pub update_condition : ℕ → List Condition → Condition → List Condition
unfolding get_condition write_through
update_condition now conditions condition =
    elim (get_condition conditions condition.condition_type) [
      | none ↦ conditions ++ condition ∷ []
      | some i ↦ write_through now condition i conditions
    ]

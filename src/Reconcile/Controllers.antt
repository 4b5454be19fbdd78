-- ===== src/Reconcile/Controllers.antt =====
-- The reconcilers of internal/controller/dynamicclusterrole_controller.go and
-- dynamicrolebinding_controller.go. The API that SyncTarget and DeleteTargets call may answer in any
-- way that depends on what the reconciler has written before.
use kuberbac.Prelude.{ℕ, Option, List, Str, Outcome, ApiError}
use kuberbac.GoMap.{Range}
use kuberbac.Resources.{DynamicClusterRole}
use kuberbac.RoleBinding.Types.{DynamicRoleBinding, Regexp}
use kuberbac.ClusterRole
use kuberbac.RoleBinding
use kuberbac.Reconcile.{Reconciler, Event, Got, ControllerUtil}

-- What a reconciler for resources of type `R` calls: the API, the clock, and the libraries.
pub record Surroundings (R W D A : Type 0) : Type 0 where
  pub client : List (Event R W) → A
  pub get : List (Event R W) → Got R
  pub answer : List (Event R W) → Event R W → Option ApiError
  pub now : List (Event R W) → ℕ
  pub parse_duration : Str → Outcome D
  pub util : ControllerUtil

-- DynamicClusterRoleReconciler
abbrev pub cluster_role_reconciler :
    {D : Type 0}
    → Surroundings DynamicClusterRole ClusterRole.Types.Write D ClusterRole.Types.Api
    → Range
    → Reconciler DynamicClusterRole ClusterRole.Types.Write D
cluster_role_reconciler around range = record {
  meta = λ resource. resource.meta;
  with_meta = λ meta resource. record resource { meta = meta };
  synchronization_time = λ resource. resource.synchronization_time;
  conditions = λ resource. resource.conditions;
  with_conditions = λ conditions resource. record resource { conditions = conditions };
  sync_target = λ events. ClusterRole.sync_target (around.client events) range;
  delete_targets = λ events. ClusterRole.delete_targets (around.client events);
  get = around.get;
  answer = around.answer;
  now = around.now;
  parse_duration = around.parse_duration;
  util = around.util;
}

-- DynamicRoleBindingReconciler
abbrev pub role_binding_reconciler :
    {D : Type 0}
    → Surroundings DynamicRoleBinding RoleBinding.Types.Write D RoleBinding.Types.Api
    → Regexp
    → Reconciler DynamicRoleBinding RoleBinding.Types.Write D
role_binding_reconciler around regexp = record {
  meta = λ resource. resource.meta;
  with_meta = λ meta resource. record resource { meta = meta };
  synchronization_time = λ resource. resource.synchronization_time;
  conditions = λ resource. resource.conditions;
  with_conditions = λ conditions resource. record resource { conditions = conditions };
  sync_target = λ events. RoleBinding.sync_target (around.client events) regexp;
  delete_targets = λ events. RoleBinding.delete_targets (around.client events);
  get = around.get;
  answer = around.answer;
  now = around.now;
  parse_duration = around.parse_duration;
  util = around.util;
}

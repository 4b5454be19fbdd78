-- ===== src/ClusterRole/Types.antt =====
-- What the DynamicClusterRole controller writes, and the clients that it calls.
use kuberbac.Prelude.{Option, List, Str, Outcome, ApiError}
use kuberbac.GoMap.{GoMap}
use kuberbac.Rbac.{PolicyRule, ApiResourceList, GroupVersionKind}

-- rbacv1.ClusterRole
pub record ClusterRole : Type 0 where
  pub name : Str
  pub annotations : GoMap Str
  pub labels : GoMap Str
  pub rules : List PolicyRule

pub data Write : Type 0 where
  update_cluster_role : ClusterRole → Write
  delete_cluster_role : ClusterRole → Write

-- The clients of the reconciler: what the API answers. Each list call of EvaluateSpecialCases is told
-- apart by the deny key at whose round it is made.
pub record Api : Type 0 where
  pub answer : List Write → Write → Option ApiError
  pub discover : List Write → Outcome (List ApiResourceList)
  pub list_objects : List Write → Str → GroupVersionKind → Outcome (List Str)
  pub list_cluster_roles : List Write → Outcome (List ClusterRole)

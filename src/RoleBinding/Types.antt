-- ===== src/RoleBinding/Types.antt =====
-- api/v1alpha1/dynamicrolebinding_types.go, and what the DynamicRoleBinding controller reads and
-- writes. A map or a slice of which the code asks whether it is the zero value is an `Option`: none is
-- Go's nil.
use kuberbac.Prelude.{Bool, Option, List, Str, Outcome, ApiError}
use kuberbac.GoMap.{GoMap}
use kuberbac.Globals.Conditions.{Condition}
use kuberbac.Resources.{Meta}

pub record MatchRegex : Type 0 where
  pub negative : Bool
  pub expression : Str

pub record MetaSelector : Type 0 where
  pub match_labels : Option (GoMap Str)
  pub match_annotations : Option (GoMap Str)

pub record NameSelector : Type 0 where
  pub match_list : Option (List Str)
  pub match_regex : MatchRegex

pub record NamespaceSelector : Type 0 where
  pub match_labels : Option (GoMap Str)
  pub match_list : Option (List Str)
  pub match_regex : MatchRegex

-- DynamicRoleBindingSourceSubject
pub record SourceSubject : Type 0 where
  pub api_group : Str
  pub kind : Str
  pub meta_selector : MetaSelector
  pub name_selector : NameSelector
  pub namespace_selector : NamespaceSelector

-- DynamicRoleBindingTargets
pub record BindingTargets : Type 0 where
  pub name : Str
  pub annotations : GoMap Str
  pub labels : GoMap Str
  pub cluster_scoped : Bool
  pub namespace_selector : NamespaceSelector

-- DynamicRoleBinding, its spec and its status.
pub record DynamicRoleBinding : Type 0 where
  pub meta : Meta
  pub synchronization_time : Str
  pub cluster_role : Str
  pub subject : SourceSubject
  pub targets : BindingTargets
  pub conditions : List Condition

-- corev1.Namespace
pub record Namespace : Type 0 where
  pub name : Str
  pub labels : GoMap Str

-- corev1.ServiceAccount
pub record ServiceAccount : Type 0 where
  pub name : Str
  pub namespace : Str
  pub labels : GoMap Str
  pub annotations : GoMap Str

-- rbacv1.Subject
pub record Subject : Type 0 where
  pub kind : Str
  pub api_group : Str
  pub name : Str
  pub namespace : Str

-- rbacv1.RoleBinding, and rbacv1.ClusterRoleBinding with an empty namespace. The role is always a
-- ClusterRole.
pub record RoleBinding : Type 0 where
  pub name : Str
  pub namespace : Str
  pub annotations : GoMap Str
  pub labels : GoMap Str
  pub cluster_role : Str
  pub subjects : List Subject

pub data Write : Type 0 where
  update_cluster_role_binding : RoleBinding → Write
  update_role_binding : RoleBinding → Write
  delete_cluster_role_binding : RoleBinding → Write
  delete_role_binding : RoleBinding → Write

-- The answer to a get.
pub data Answer : Type 0 where
  found : RoleBinding → Answer
  failed : ApiError → Answer

-- The clients of the reconciler: what the API answers.
pub record Api : Type 0 where
  pub answer : List Write → Write → Option ApiError
  pub list_namespaces : List Write → Outcome (List Namespace)
  pub list_service_accounts : List Write → Outcome (List ServiceAccount)
  pub get_cluster_role_binding : List Write → Str → Answer
  pub list_role_bindings : List Write → Outcome (List RoleBinding)
  pub list_cluster_role_bindings : List Write → Outcome (List RoleBinding)

-- The package `regexp`: a compiled expression tests texts, and the zero `Regexp` may panic.
pub record Regexp : Type 0 where
  pub compile : Str → Outcome (Str → Bool)
  pub zero_match : Str → Outcome Bool

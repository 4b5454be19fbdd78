-- ===== src/Resources.antt =====
-- api/v1alpha1: the custom resources of the operator, with the parts of metav1 that the program reads
-- or writes. A Go map of texts is a `GoMap Str`.
use kuberbac.Prelude.{ℕ, Bool, Option, List, [], ◌∷◌, Str, lit}
use kuberbac.GoMap.{GoMap}
use kuberbac.Rbac.{PolicyRule}
use kuberbac.Globals.Conditions.{Condition}

-- metav1.TypeMeta and metav1.ObjectMeta. The deletion timestamp is none for an object that is not
-- marked to be deleted.
pub record Meta : Type 0 where
  pub api_version : Str
  pub kind : Str
  pub name : Str
  pub namespace : Str
  pub annotations : GoMap Str
  pub labels : GoMap Str
  pub finalizers : List Str
  pub deletion_timestamp : Option ℕ

-- The annotations by which a created object names its owner.
abbrev pub reference_annotations : Meta → GoMap Str
reference_annotations meta =
    (lit "kuberbac.prosimcorp.com/owner-apiversion", meta.api_version)
    ∷ (lit "kuberbac.prosimcorp.com/owner-kind", meta.kind)
    ∷ (lit "kuberbac.prosimcorp.com/owner-name", meta.name)
    ∷ (lit "kuberbac.prosimcorp.com/owner-namespace", meta.namespace)
    ∷ []

-- TargetT of dynamicclusterrole_types.go.
pub record ClusterRoleTarget : Type 0 where
  pub name : Str
  pub annotations : GoMap Str
  pub labels : GoMap Str
  pub separate_scopes : Bool

-- DynamicClusterRole, its spec and its status.
pub record DynamicClusterRole : Type 0 where
  pub meta : Meta
  pub synchronization_time : Str
  pub target : ClusterRoleTarget
  pub allow : List PolicyRule
  pub deny : List PolicyRule
  pub conditions : List Condition

-- ===== src/Rbac.antt =====
-- The Kubernetes types that the program computes with: rbacv1.PolicyRule of k8s.io/api, and what the
-- discovery client returns.
use kuberbac.Prelude.{Bool, List, [], ◌∷◌, Str}

-- rbacv1.PolicyRule: what `resource.Spec.Allow` and `resource.Spec.Deny` hold.
pub record PolicyRule : Type 0 where
  pub verbs : List Str
  pub api_groups : List Str
  pub resources : List Str
  pub resource_names : List Str
  pub non_resource_urls : List Str

-- `rbacv1.PolicyRule{}`
abbrev pub zero_rule : PolicyRule
zero_rule = record {
  verbs = [];
  api_groups = [];
  resources = [];
  resource_names = [];
  non_resource_urls = [];
}

-- `rbacv1.PolicyRule{NonResourceURLs: []string{url}, Verbs: verbs}`
abbrev pub url_rule : List Str → Str → PolicyRule
url_rule verbs url = record {
  verbs = verbs;
  api_groups = [];
  resources = [];
  resource_names = [];
  non_resource_urls = url ∷ [];
}

-- `rbacv1.PolicyRule{APIGroups: []string{group}, Resources: []string{resource}, …}`
abbrev pub resource_rule : List Str → Str → Str → List Str → PolicyRule
resource_rule verbs group resource names = record {
  verbs = verbs;
  api_groups = group ∷ [];
  resources = resource ∷ [];
  resource_names = names;
  non_resource_urls = [];
}

-- metav1.APIResource
pub record ApiResource : Type 0 where
  pub name : Str
  pub namespaced : Bool
  pub kind : Str
  pub verbs : List Str

-- metav1.APIResourceList
pub record ApiResourceList : Type 0 where
  pub group_version : Str
  pub api_resources : List ApiResource

-- schema.GroupVersionKind
pub record GroupVersionKind : Type 0 where
  pub group : Str
  pub version : Str
  pub kind : Str

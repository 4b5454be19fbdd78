-- ===== src/Processor/Targets.antt =====
-- What a rule of Kubernetes RBAC is about, apart from its verbs: a URL, all the objects of a resource
-- type, or one object of it. The specifications of the processor's steps are stated in these terms;
-- no code stands for them.
use kuberbac.Prelude.{Bool, ◌&&◌, Str, is_empty, contains, List, [], ◌∷◌}
use kuberbac.Rbac.{PolicyRule, url_rule, resource_rule}

pub data Target : Type 0 where
  url : Str → Target
  generic : Str → Str → Target
  named : Str → Str → Str → Target

-- The rule lists the target.
abbrev pub lists_target : Target → PolicyRule → Bool
lists_target (url u) rule = contains rule.non_resource_urls u
lists_target (generic group resource) rule =
    is_empty rule.non_resource_urls
    && is_empty rule.resource_names
    && (contains rule.api_groups group && contains rule.resources resource)
lists_target (named group resource name) rule =
    is_empty rule.non_resource_urls
    && contains rule.resource_names name
    && (contains rule.api_groups group && contains rule.resources resource)

-- The rule gives the verb on the target.
abbrev pub gives : Target → Str → PolicyRule → Bool
gives t verb rule = lists_target t rule && contains rule.verbs verb

-- The rule that gives some verbs on one target.
abbrev pub single : Target → List Str → PolicyRule
single (url u) verbs = url_rule verbs u
single (generic group resource) verbs = resource_rule verbs group resource []
single (named group resource name) verbs = resource_rule verbs group resource (name ∷ [])

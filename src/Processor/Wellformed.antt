-- ===== src/Processor/Wellformed.antt =====
-- The invariant of a processor that SetResourcesByGroup and SetResourceList have filled.
pub mod Laws
use kuberbac.Prelude.{◌≡◌, Str, Lacks, All, contains, any}
use kuberbac.GoMap.{keys}
use kuberbac.Processor.Discovery.{PolicyRulesProcessor, slash, gvkrs_of}
use kuberbac.Processor.Stretch.{resource_found}

pub record IsProcessor (p : PolicyRulesProcessor) : Type 0 where
  -- No resource's name holds a slash: the subresource is apart.
  pub plain :
      (group : Str) → All (λ gvkr. Lacks slash gvkr.resource) (gvkrs_of p.resources_by_group group)
  -- The resource list has the names of all the groups.
  pub listed :
      (resource : Str)
      → contains p.resource_list resource
        ≡ any (λ group. resource_found p group resource) (keys p.resources_by_group)

-- ===== src/ClusterRole/Sync.antt =====
-- What SyncTarget of the DynamicClusterRole controller writes.
use kuberbac.Prelude.{
  ◌>>=◌, if_intro, subst, ◌≡◌, refl, sym, ◌∙◌, ◌⊎◌, inl, inr, Option, none, List, [], ◌∷◌, ◌++◌,
  map, Str, lit, All, Outcome, ok, err, panic, Error, wrapped, Option-cases,
}
use mathlib.Core.List.{append-nil, append_assoc}
use kuberbac.Exec.{continue, continue_intro, wrap_error, as_error}
use kuberbac.GoMap.{GoMap, Range}
use kuberbac.Rbac.{PolicyRule}
use kuberbac.Processor.Discovery.{PolicyRulesProcessor, new_policy_rule_processor}
use kuberbac.Processor.Split.{SplitRules}
use kuberbac.Processor.Pipeline.{at, evaluate}
use kuberbac.Resources.{reference_annotations, DynamicClusterRole}
use kuberbac.ClusterRole.Types.{ClusterRole, Write, update_cluster_role, Api}
use kuberbac.ClusterRole.Plan.{separate, cluster_roles, plan}
use kuberbac.ClusterRole.{update_cluster_roles, sync_target}

-- A ClusterRole of the resource: it has a name made of the target's, the target's labels, and the
-- annotations that name the owner.
pub record IsOutput (resource : DynamicClusterRole) (role : ClusterRole) : Type 0 where
  pub named :
      (role.name ≡ resource.target.name)
      ⊎ ((role.name ≡ resource.target.name ++ lit "-cluster")
          ⊎ (role.name ≡ resource.target.name ++ lit "-namespace"))
  pub labelled : role.labels ≡ resource.target.labels
  pub annotated : role.annotations ≡ reference_annotations resource.meta

-- A run's new writes are updates of such ClusterRoles.
abbrev pub OnlyOutputs {ℓ} :
    {A : Type ℓ} → DynamicClusterRole → List Write → Outcome A × List Write → Type 0
OnlyOutputs resource writes result =
    (done : List ClusterRole) × (result.1 ≡ writes ++ map update_cluster_role done)
    × All (IsOutput resource) done

nothing {ℓ} :
    {A : Type ℓ} (resource : DynamicClusterRole) (writes : List Write) (r : Outcome A)
    → OnlyOutputs resource writes (r, writes)
nothing resource writes r = ([], sym (append-nil writes), tt)

abbrev AreOutputs : DynamicClusterRole → Outcome (List ClusterRole) → Type 0
AreOutputs resource (ok roles) = All (IsOutput resource) roles
AreOutputs resource (err e) = Unit
AreOutputs resource panic = Unit

separate-AreOutputs :
    (resource : DynamicClusterRole) (role : ClusterRole) (s : Outcome SplitRules)
    → role.name ≡ resource.target.name
    → role.labels ≡ resource.target.labels
    → role.annotations ≡ reference_annotations resource.meta
    → AreOutputs resource (separate role s)
unfolding separate
separate-AreOutputs resource role (ok s) n l a = (
  record { named = inr (inl (rw n)); labelled = l; annotated = a },
  (record { named = inr (inr (rw n)); labelled = l; annotated = a }, tt),
)
separate-AreOutputs resource role (err x) n l a = tt
separate-AreOutputs resource role panic n l a = tt

cluster_roles-AreOutputs :
    (range : Range) (p : PolicyRulesProcessor) (resource : DynamicClusterRole)
    (result : GoMap PolicyRule)
    → AreOutputs resource (cluster_roles range p resource result)
unfolding cluster_roles
cluster_roles-AreOutputs range p resource result =
    if_intro (AreOutputs resource) resource.target.separate_scopes
      (separate-AreOutputs resource _ _ refl refl refl)
      (record { named = inl refl; labelled = refl; annotated = refl }, tt)

bind-AreOutputs :
    {A : Type 0} (resource : DynamicClusterRole) (r : Outcome A)
    (f : A → Outcome (List ClusterRole))
    → ((a : A) → AreOutputs resource (f a))
    → AreOutputs resource (r >>= f)
bind-AreOutputs resource (ok a) f h = h a
bind-AreOutputs resource (err e) f h = tt
bind-AreOutputs resource panic f h = tt

plan-AreOutputs :
    (client : Api) (range : Range) (resource : DynamicClusterRole) (writes : List Write)
    → AreOutputs resource (plan client range resource writes)
unfolding plan
plan-AreOutputs client range resource writes =
    bind-AreOutputs resource
      (wrap_error (wrapped "error generating PolicyRulesProcessor: %s")
        (new_policy_rule_processor (at range "resources") (client.discover writes)))
      (λ p.
        evaluate range (client.list_objects writes) p resource.allow resource.deny
        >>= cluster_roles range p resource)
      (λ p.
        bind-AreOutputs resource
          (evaluate range (client.list_objects writes) p resource.allow resource.deny)
          (cluster_roles range p resource) (cluster_roles-AreOutputs range p resource))

update_cluster_roles-OnlyOutputs :
    (client : Api) (resource : DynamicClusterRole) (roles : List ClusterRole) (writes : List Write)
    → All (IsOutput resource) roles
    → OnlyOutputs resource writes (update_cluster_roles client roles writes)
unfolding update_cluster_roles
update_cluster_roles-OnlyOutputs client resource [] writes h =
    nothing {A = Option Error} resource writes (ok none)
update_cluster_roles-OnlyOutputs client resource (role ∷ roles) writes h =
    elim (Option-cases (client.answer writes (update_cluster_role role))) [
      | inl fine ↦
          let (done, e, all) =
            update_cluster_roles-OnlyOutputs client resource roles
              (writes ++ update_cluster_role role ∷ []) h.1 in
          (role ∷ done, rw fine (e ∙ append_assoc writes _ _), (h.0, all))
      | inr (x, failed) ↦ (role ∷ [], rw failed, (h.0, tt))
    ]

as_error-OnlyOutputs :
    (resource : DynamicClusterRole) (writes : List Write) (r : Outcome (Option Error) × List Write)
    → OnlyOutputs resource writes r
    → OnlyOutputs resource writes (as_error r)
as_error-OnlyOutputs resource writes (ok e, ws) h = h
as_error-OnlyOutputs resource writes (err e, ws) h = h
as_error-OnlyOutputs resource writes (panic, ws) h = h

-- Whatever the API answers and however the run ends, SyncTarget writes nothing but updates of
-- ClusterRoles that bear the target's name, alone or with "-cluster" or "-namespace", the target's
-- labels and the owner's reference annotations.
pub sync_target-OnlyOutputs :
    (client : Api) (range : Range) (resource : DynamicClusterRole) (writes : List Write)
    → OnlyOutputs resource writes (sync_target client range resource writes)
unfolding sync_target
sync_target-OnlyOutputs client range resource writes =
    as_error-OnlyOutputs resource writes
      (continue (plan client range resource writes) (update_cluster_roles client) writes)
      (continue_intro (OnlyOutputs resource writes) (plan client range resource writes)
        (update_cluster_roles client) writes
        (λ roles e.
          update_cluster_roles-OnlyOutputs client resource roles writes
            (subst (AreOutputs resource) e (plan-AreOutputs client range resource writes)))
        (λ e. nothing {A = Option Error} resource writes (err e))
        (nothing {A = Option Error} resource writes panic))

-- SyncTarget does not use the annotations that the user asks for: with any others in the target it
-- makes the same writes and returns the same.
pub sync_target-annotations :
    (client : Api) (range : Range) (resource : DynamicClusterRole) (annotations : GoMap Str)
    (writes : List Write)
    → sync_target client range
        (record resource { target = record resource.target { annotations = annotations } })
        writes
      ≡ sync_target client range resource writes
unfolding sync_target plan cluster_roles
sync_target-annotations client range resource annotations writes = refl

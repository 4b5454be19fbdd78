-- ===== src/Lib.antt =====
-- kuberbac is a Kubernetes operator with two controllers. DynamicClusterRole computes the rules of a
-- ClusterRole from lists of allowed and denied policy rules with wildcards; DynamicRoleBinding binds a
-- ClusterRole to the subjects that selectors find. This library models both and proves what they do.
--
-- The parts, and the files that model them:
-- - internal/globals/utils.go and globals.go (IsSubset, UpdateCondition): Globals.
-- - internal/controller/dynamicclusterrole_sync.go, the policy rules processor: Processor. Its modules
--   stand in the order of the code: Discovery (SetResourcesByGroup, SetResourceList), Verbs
--   (GetSurvivingVerbs), Expand (ExpandPolicyRules), Stretch (StretchPolicyRules), RuleMap
--   (GetMapFromStretchedPolicyRules), Special (EvaluateSpecialCases), Evaluate (EvaluatePolicyRules)
--   and Split (SplitPolicyRules); Pipeline composes them as SyncTarget does. Keys relates the string
--   keys of the rule maps to what a rule grants, Wellformed is the invariant of the processor, and
--   Granted is the specification of the steps together: which verbs the allow and deny rules of a
--   user grant on which targets.
-- - the same file, SyncTarget and DeleteTargets: ClusterRole, with Plan for SyncTarget up to its first
--   write, Scopes and Rules for the rules that it plans. Keeper is a cluster that keeps ClusterRoles and
--   may refuse calls, as the API server documents it, and Keeper.Memory one that is a list.
-- - internal/controller/dynamicrolebinding_sync.go: RoleBinding, with Selectors for the checks and
--   FilterNamespaceListBySelector, Accounts for GetServiceAccountsBySelectors and the subjects, and
--   Plan for SyncTarget up to its first write. Store is a cluster that keeps RoleBindings, as the API
--   server documents it, and Store.Memory one that is a list; Deletion.Gone is a cluster that may
--   refuse calls.
-- - internal/controller/dynamicclusterrole_controller.go, dynamicrolebinding_controller.go and the two
--   status files: Reconcile, once for both controllers, which Reconcile.Controllers instantiates.
--   History is what may come of many runs, each to its end or to a crash after any of its writes; the
--   API's answers at each moment stand for all that users and others do meanwhile.
-- - api/v1alpha1: Resources and RoleBinding.Types; k8s.io/api/rbac: Rbac.
-- - Prelude, GoMap and Exec are shared: Go's strings and slices, its maps and the loops over them, and
--   programs that call the API. Examples holds tests and the theorems at concrete inputs.
--
-- Conventions. A Go string is the list of its bytes. A Go map is an association list; a loop over a
-- map visits the keys in an order that a parameter (Range) chooses anew for each loop. A call comes to
-- a value, an error or a panic (Outcome). A program that calls the API (Exec) goes on from the list of
-- its writes, and the API's answers may depend on that list in any way. All loops are over finite
-- lists, so there is no fuel.
--
-- Parameters stand for code outside the repository: the Kubernetes clients (Api, Lister), the package
-- regexp, the clock, time.ParseDuration and controllerutil.
--
-- Where a theorem needs them, its hypotheses are: names make keys (no "#" in a group, a resource or an
-- object's name, no group that begins with "nonresourceurl"), the API lists the objects of each
-- resource of which a deny rule names one, by the kind that the code asks for, and the same at each call, a get of the reconciled resource is not stale, an accepted update is kept, nobody
-- else takes the controller's finalizer or makes objects with its reference annotations.
--
-- The specifications do not use the helpers of the code that they are about: Processor.Served says what
-- a cluster serves, Processor.Expand.Meaning what a rule asks for.
--
-- Not modelled: log messages; the generated deep copies, the scheme and cmd/main.go, which only
-- register and start things; the sharing of backing arrays between slices (rules read from a client
-- are copies without spare capacity, so that append copies them); fields of Kubernetes objects that
-- the program neither reads nor writes.
pub mod Prelude
pub mod GoMap
pub mod Globals
pub mod Rbac
pub mod Processor
pub mod Exec
pub mod Resources
pub mod ClusterRole
pub mod RoleBinding
pub mod Reconcile
pub mod Examples

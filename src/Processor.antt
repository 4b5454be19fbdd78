-- ===== src/Processor.antt =====
-- internal/controller/dynamicclusterrole_sync.go: the PolicyRulesProcessor, which turns the allow and
-- deny rules of a DynamicClusterRole into the rules of a ClusterRole. Each step of it is a module.
pub mod Discovery
pub mod Targets
pub mod Verbs
pub mod Expand
pub mod Stretch
pub mod Wellformed
pub mod RuleMap
pub mod Evaluate
pub mod Keys
pub mod Special
pub mod Split
pub mod Pipeline
pub mod Served
pub mod Granted

-- ===== src/Examples.antt =====
-- Tests of the definitions, and the theorems at concrete inputs.
mod Cluster
mod Steps
mod Granted
mod Conditions
mod Controllers
mod Reconciliation
mod Convergence
mod World
mod Histories
mod RoleHistories

-- ===== src/Globals.antt =====
-- internal/globals: the conditions of a resource's status (globals.go) and the test that a map of
-- texts is part of another one (utils.go).
pub mod Conditions
pub mod Subset

-- ===== src/Apisix.antt =====
-- pkg/apisix: the resources of Apache APISIX that the agent generates, and their comparison.
pub mod Var
pub mod Plugin
pub mod Upstream
pub mod Route
pub mod Compare
pub mod Nodes

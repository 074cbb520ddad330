-- ===== src/Kube.antt =====
-- The Kubernetes API as the operator uses it: the objects, and what the operator calls, as a
-- parameter.
pub mod Objects
pub mod Env
pub mod Laws
pub mod Retry
pub mod Memory

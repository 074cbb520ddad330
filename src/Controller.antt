-- ===== src/Controller.antt =====
-- The reconciler of internal/controller.
pub mod Names
pub mod Replicas
pub mod State
pub mod Image
pub mod Conditions
pub mod Rounds
pub mod Pods
pub mod Requests
pub mod Healthy
pub mod Deletes
pub mod BrokerDeploy
pub mod ControllerDeploy
pub mod Bootstrap
pub mod Brokers
pub mod Controllers
pub mod Pipeline
pub mod Status
pub mod Ready
pub mod Reconcile
pub mod Runs
pub mod Workload
pub mod Apis
pub mod Voters

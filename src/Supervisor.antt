-- ===== src/Supervisor.antt =====
-- pmqa/supervisor/: the routing decisions of the workflow and the policy that takes them.
pub mod Contracts
pub mod History
pub mod Policy
pub mod Routes
pub mod Applies

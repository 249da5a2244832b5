-- ===== src/Application.antt =====
-- pmqa/application/: one attempt to run a workflow with a runner.
pub mod Contracts
pub mod Registry
pub mod Service
pub mod Dispatch
pub mod Admission
pub mod Preparation
pub mod Answers
pub mod Outcome
pub mod Statuses
pub mod Constructed
pub mod Completion
pub mod Lookup
pub mod Resolved
pub mod Refusals
pub mod Reasons
pub mod Refused

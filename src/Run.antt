-- ===== src/Run.antt =====
-- pmqa/run/models.py: the persisted records of runs.
pub mod Json
pub mod Plain
pub mod Texts
pub mod Timestamps
pub mod Parts
pub mod Identifiers
pub mod Dumps
pub mod Build
pub mod Invocations
pub mod Records
pub mod Requests
pub mod Definitions
pub mod Lifecycle
pub mod Attempts

-- ===== src/Runners.antt =====
-- pmqa/runners/: the boundary between the application and the runners.
pub mod Contracts
pub mod Response
pub mod Correlation
pub mod Control
pub mod Mock
pub mod Outcome
pub mod Mocked

-- ===== src/Tests.antt =====
-- Samples, and the theorems at concrete inputs.
mod Samples
mod Boundaries
mod States
mod Routing
mod Turns
mod Runs
mod Tools
mod Records
mod Payloads
mod Service
mod Execution
mod Mocking
mod Usage

-- ===== src/Usage.antt =====
-- pmqa/usage/: the evidence of what an invocation of a model used and cost.
pub mod Ranks
pub mod Decimals
pub mod Evidence
pub mod Costs
pub mod Pricing
pub mod Priced
pub mod Invocations
pub mod Accounts
pub mod Lifecycle
pub mod Texts
pub mod Lengths
pub mod Bounded
pub mod Rereading

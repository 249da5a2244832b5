-- ===== src/Workflow.antt =====
-- pmqa/workflow/: the state, the patches, the reducer and the agent contracts.
pub mod Fields
pub mod Errors
pub mod Payload
pub mod Models
pub mod Updates
pub mod Reducer
pub mod Agents
pub mod ToolIds
pub mod Tools
pub mod ToolRegistry

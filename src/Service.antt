-- ===== src/Service.antt =====
-- The packages under service/.
pub mod Rejection
pub mod Tracker
pub mod Reorder
pub mod Turn
pub mod MetaTx
pub mod Validation
pub mod Settle
pub mod Watcher
pub mod Handout
pub mod Send
pub mod HubLog
pub mod Outcome
pub mod Revert
pub mod Result
pub mod Permissioning
pub mod Prepare
pub mod Relay
pub mod Nonce
pub mod Decoded
pub mod Info
pub mod Locks
pub mod Blocks
pub mod Start

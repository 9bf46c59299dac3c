-- ===== src/Event.antt =====
-- Event routing: what happens to one message of a workqueue, broadcast or ordered stream.
pub mod Actions
pub mod Context
pub mod Retry
pub mod Headers
pub mod Capture
pub mod Settlement
pub mod Pipeline
pub mod Examples

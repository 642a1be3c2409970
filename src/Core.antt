-- ===== src/Core.antt =====
-- src/service/open_event_core.cpp: the class `OpenEventCore`.
pub mod Access
pub mod Atomic
pub mod Text
pub mod Tokens
pub mod State
pub mod Publish
pub mod Channels
pub mod Fetch
pub mod Admin
pub mod Objects
pub mod Snapshots
pub mod Subscriptions

-- ===== src/Examples.antt =====
-- A platform in memory, and the theorems at concrete inputs.
pub mod Codecs
pub mod Memory
pub mod Fixtures
mod Publishing
mod Changes
mod Uploads
pub mod Directory
mod Files
mod Starting
mod Logs
mod Formats
mod Methods
mod Sharing
mod Serving
mod Configuring
mod Ending

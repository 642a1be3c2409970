-- ===== src/Storage.antt =====
-- src/storage/.
pub mod Encoding
pub mod Faults
pub mod ObjectFiles
pub mod Keys
pub mod Rocks
pub mod Records
pub mod Reads
pub mod Writes
pub mod SystemMessages
pub mod Scan
pub mod State
pub mod Startup

-- ===== src/Storage/ObjectFiles.antt =====
-- The operations of `ObjectFileStore` (src/storage/object_file_store.h) that its clients call, as
-- the interface which they take.
pub mod Posix
pub mod Io
pub mod Store
use openevent.Common.{ℕ, List, Bytes}
use openevent.Status.{Status, Result}

pub record ObjectFiles : Type 1 where
  pub Files : Type 0
  -- `Write`.
  pub write : Files → ℕ → Bytes → Status × Files
  -- `Cleanup` of a list of object ids.
  pub cleanup : Files → List ℕ → Status × Files
  -- `ReadRange` of an object id, its expected size, an offset and a number of bytes.
  pub read_range : Files → ℕ → ℕ → ℕ → ℕ → Result Bytes

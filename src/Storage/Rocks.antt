-- ===== src/Storage/Rocks.antt =====
-- RocksDB, as src/storage/unified_storage.cpp uses it. The library is not part of the repository:
-- `Rocks` is the interface that the storage takes as a parameter, and `RocksLaws` says what the
-- storage relies on.
pub mod Updates
use openevent.Common.{ℕ, ◌≡◌, Bool, true, false, Option, none, some, List, [], ◌∷◌, Bytes, All}
use openevent.Status.{RocksError}
use openevent.Storage.Encoding.Order.{bytes_lt}
use Updates.{Cf, Batch, Contents, after}

-- What `Get` returns: the value, `NotFound`, or another error.
pub data Lookup : Type 0 where
  found : Bytes → Lookup
  absent : Lookup
  broken : RocksError → Lookup

-- An iterator: the entries from its position on, and its status at their end.
pub record Cursor : Type 0 where
  pub entries : List (Bytes × Bytes)
  pub at_end : Option RocksError

pub record Rocks : Type 1 where
  pub Db : Type 0
  pub Snapshot : Type 0
  -- `GetSnapshot`, which may return a null pointer.
  pub get_snapshot : Db → Option Snapshot
  -- `Get` and `MultiGet` with `ReadOptions::snapshot`.
  pub get : Snapshot → Cf → Bytes → Lookup
  -- `NewIterator` with `ReadOptions::snapshot`, and `Seek`.
  pub seek : Snapshot → Cf → Bytes → Cursor
  -- `NewIterator` with no snapshot, and `Seek`.
  pub seek_latest : Db → Cf → Bytes → Cursor
  -- `Write` with `sync = true`.
  pub write : Db → Batch → Option RocksError × Db
  -- What is stored, which no call shows all at once.
  pub contents : Db → Contents
  pub view : Snapshot → Contents

-- A snapshot shows the contents at the time it was taken, a `Get` that does not fail tells what is
-- stored, the entries of an iterator are stored, and a `Write` that succeeds applies its batch in order. Nothing is assumed of a call that
-- fails.
pub record RocksLaws (K : Rocks) : Type 0 where
  pub snapshot_view :
      (d : K.Db) (s : K.Snapshot) → K.get_snapshot d ≡ some s → K.view s ≡ K.contents d
  pub get_found :
      (s : K.Snapshot) (cf : Cf) (k v : Bytes) → K.get s cf k ≡ found v → K.view s cf k ≡ some v
  pub get_absent :
      (s : K.Snapshot) (cf : Cf) (k : Bytes) → K.get s cf k ≡ absent → K.view s cf k ≡ none
  pub seek_entries :
      (s : K.Snapshot) (cf : Cf) (start : Bytes)
      → All (λ e. K.view s cf e.0 ≡ some e.1) (K.seek s cf start).entries
  pub write_applies :
      (d d' : K.Db) (b : Batch)
      → K.write d b ≡ (none, d')
      → (cf : Cf) (k : Bytes) → K.contents d' cf k ≡ after (K.contents d) b cf k

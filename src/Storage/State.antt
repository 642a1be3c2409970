-- ===== src/Storage/State.antt =====
-- The object `UnifiedStorage` and its operations that change it: `CreateSnapshot`, `Commit`, and
-- the start (src/storage/unified_storage.cpp).
use openevent.Common.{Option, none, some, [], ◌∷◌}
use openevent.Status.{
  Status, success, Result, ok, fail, Error, text, fatal, unavailable, with_storage_diagnostic,
  rocks_to_status, RocksError,
}
use openevent.Platform.{Platform}
use openevent.Storage.Faults.{
  StorageFaultInjector, inject_storage_fault, before_commit, after_commit,
}
use openevent.Storage.Rocks.Updates.{Batch}

pub record UnifiedStorage (p : Platform) : Type 0 where
  pub db : p.rocks.Db
  pub fault_injector : StorageFaultInjector
  pub files : p.object_files.Files

-- An error of the injector at a commit, which ends the server.
abbrev injected_fault : Error → Error
injected_fault e = fatal e.code e.message

module _ (p : Platform) where
  unfoldable pub create_snapshot : p.rocks.Db → Result p.rocks.Snapshot
  create_snapshot db = elim (p.rocks.get_snapshot db) [
    | none ↦ fail (
        with_storage_diagnostic (fatal unavailable (text "create storage snapshot failed" ∷ []))
          (text "create storage snapshot" ∷ []) (text "RocksDB returned no snapshot" ∷ []))
    | some snapshot ↦ ok snapshot
  ]

  -- The status of `Commit` where the write is done.
  unfoldable pub committed : StorageFaultInjector → Option RocksError → Status
  committed injector (some e) = fail (rocks_to_status e (text "commit storage batch" ∷ []))
  committed injector none = elim (inject_storage_fault injector after_commit) [
    | ok _ ↦ success
    | fail e ↦ fail (
        with_storage_diagnostic (injected_fault e) (text "commit storage batch" ∷ [])
          (text "injected failure after write" ∷ []))
  ]

  unfoldable pub commit : UnifiedStorage p → Batch → Status × UnifiedStorage p
  unfolding committed
  commit storage batch = elim (inject_storage_fault storage.fault_injector before_commit) [
    | fail e ↦ (
      fail (
          with_storage_diagnostic (injected_fault e) (text "commit storage batch" ∷ [])
            (text "injected failure before write" ∷ [])),
      storage,
    )
    | ok _ ↦
        let (written, db') = p.rocks.write storage.db batch in
        (committed storage.fault_injector written, record storage { db = db' })
  ]

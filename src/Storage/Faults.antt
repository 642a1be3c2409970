-- ===== src/Storage/Faults.antt =====
-- src/storage/fault_injector.h.
use openevent.Common.{Option, none, some}
use openevent.Status.{Status, success}

pub data StorageFaultPoint : Type 0 where
  before_initialization_commit after_initialization_commit : StorageFaultPoint
  before_commit after_commit : StorageFaultPoint
  after_temporary_file_create before_temporary_file_write : StorageFaultPoint
  after_temporary_file_write before_file_fsync after_file_fsync : StorageFaultPoint
  before_rename after_rename before_directory_fsync after_directory_fsync : StorageFaultPoint

-- An empty `std::function` is `none`.
abbrev pub StorageFaultInjector : Type 0
StorageFaultInjector = Option (StorageFaultPoint → Status)

unfoldable pub inject_storage_fault : StorageFaultInjector → StorageFaultPoint → Status
inject_storage_fault none point = success
inject_storage_fault (some injector) point = injector point

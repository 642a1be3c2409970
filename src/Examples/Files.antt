-- ===== src/Examples/Files.antt =====
-- The object file store in a directory in memory.
use openevent.Common.{
  ℕ, ◌≡◌, refl, some, none, true, false, List, [], ◌∷◌, Bytes, take, drop, arith,
}
use openevent.Status.{ok, success, fail, error, unavailable}
use openevent.Storage.Faults.{StorageFaultInjector, before_rename, StorageFaultPoint}
use openevent.Storage.ObjectFiles.Io.{returned, Finishes}
use openevent.Storage.ObjectFiles.Store.{write, cleanup, read_range}
use openevent.Storage.ObjectFiles.Store.Stored.{IsStored, write-IsStored}
use openevent.Storage.ObjectFiles.Store.Ranges.{IsRange, read_range-IsRange}
use openevent.Storage.ObjectFiles.Store.Finished.{methods-Finish}
use openevent.Storage.ObjectFiles.Store.Refined.{
  objects_on, write-Refines, cleanup-Refines, write-read_range,
}
use openevent.Examples.Directory.{Directory, directory, directory-PosixLaws, directory-SignalsCease}

-- An empty directory; a signal interrupts one call.
abbrev empty : Directory
empty = record { names = []; files = []; synced = []; is_synced = true; interruptions = 1 }

abbrev three_bytes : Bytes
three_bytes = 97 ∷ 98 ∷ 99 ∷ []

with_object : Directory
unfolding openevent.Storage.ObjectFiles.Store.final_name
    openevent.Storage.ObjectFiles.Store.temporary_name
    openevent.Storage.ObjectFiles.Store.close_file
    openevent.Storage.ObjectFiles.Store.unlink_known_path
    openevent.Storage.ObjectFiles.Store.write_loop openevent.Storage.ObjectFiles.Store.write_all
    openevent.Storage.ObjectFiles.Store.fill_steps openevent.Storage.ObjectFiles.Store.fill_file
    openevent.Storage.ObjectFiles.Store.publish_file openevent.Storage.ObjectFiles.Store.unlink_all
    openevent.Storage.ObjectFiles.Store.check_request openevent.Storage.ObjectFiles.Store.check_file
    openevent.Storage.ObjectFiles.Store.open_loop openevent.Storage.ObjectFiles.Store.open_final
    openevent.Storage.ObjectFiles.Store.read_loop openevent.Storage.ObjectFiles.Store.read_all
    openevent.Storage.ObjectFiles.Store.read_steps write cleanup read_range
    openevent.Examples.Directory.above openevent.Examples.Directory.open_new
    openevent.Examples.Directory.open_for_read openevent.Examples.Directory.write
    openevent.Examples.Directory.pread openevent.Examples.Directory.fstat
    openevent.Examples.Directory.fsync openevent.Examples.Directory.fsync_directory
    openevent.Examples.Directory.rename_noreplace openevent.Examples.Directory.unlink
    openevent.Common.bytes_eq openevent.Common.Decimal.to_string
    openevent.Common.Decimal.decimal_loop openevent.Storage.Faults.inject_storage_fault
    openevent.Status.object_io_status openevent.Status.errno_message
with_object = (write directory none 7 three_bytes empty).1

without_object : Directory
unfolding with_object
without_object = (cleanup directory (7 ∷ []) with_object).1

-- A failure before the rename leaves the temporary file.
abbrev failing : StorageFaultInjector
failing =
    some (λ point. elim point [ before_rename ↦ fail (error unavailable "injected") | _ ↦ success ])

write-IsStored_example : IsStored directory 7 three_bytes empty with_object
unfolding without_object
write-IsStored_example =
    write-IsStored directory directory-PosixLaws none 7 three_bytes empty with_object refl

write-Refines_example :
    (objects_on (directory.disk empty) 7 ≡ none)
    × (objects_on (directory.disk with_object) 7 ≡ some three_bytes)
unfolding without_object
write-Refines_example =
    write-Refines directory directory-PosixLaws none 7 7 three_bytes empty with_object (omega arith)
      (omega arith) refl

cleanup-Refines_example : objects_on (directory.disk without_object) 7 ≡ none
unfolding without_object
cleanup-Refines_example =
    cleanup-Refines directory directory-PosixLaws none (7 ∷ []) 7 with_object without_object
      (omega arith) (omega arith) refl

read_range-IsRange_example :
    IsRange directory 7 3 1 5
      (98 ∷ 99 ∷ [])
      with_object
      (read_range directory 7 3 1 5 with_object).1
unfolding without_object
read_range-IsRange_example =
    read_range-IsRange directory directory-PosixLaws 7 3 1 5 (98 ∷ 99 ∷ []) with_object
      (read_range directory 7 3 1 5 with_object).1 refl

write-read_range_example : ◌≡◌ {A = Bytes} (98 ∷ 99 ∷ []) (take 5 (drop 1 three_bytes))
unfolding without_object
write-read_range_example =
    write-read_range directory directory-PosixLaws none directory-SignalsCease 7 three_bytes
      (98 ∷ 99 ∷ []) 1 5 empty with_object (omega arith) refl refl

methods-Finish_example :
    Finishes (write directory none 7 three_bytes)
    × Finishes (cleanup directory (7 ∷ []))
    × Finishes (read_range directory 7 3 1 5)
methods-Finish_example =
    methods-Finish directory directory-PosixLaws directory-SignalsCease none 7 3 1 5 three_bytes
      (7 ∷ [])

-- Over an object that is there, and with an injected failure, `Write` fails.
write_again : (write directory none 7 three_bytes with_object).0 ≡ returned tt → ⊥
unfolding without_object
write_again h = ground arith

write_failing : (write directory failing 7 three_bytes empty).0 ≡ returned tt → ⊥
unfolding without_object
write_failing h = ground arith

-- ===== src/Storage/ObjectFiles/Store.antt =====
-- The object `ObjectFileStore` and its methods (src/storage/object_file_store.cpp), over the system
-- calls that it makes in its directory.
pub mod Written
pub mod Finished
pub mod Stored
pub mod Removed
pub mod Ranges
pub mod Refined
use openevent.Common.{
  ℕ, zero, suc, ◌+◌, ◌-◌, ◌^◌, min, Bool, true, false, not, ◌||◌, Option, none, some, List, [], ◌∷◌,
  ◌++◌, String, Bytes, codes, length, take, drop, ltb, ◌==◌, if◌then◌else◌,
}
use openevent.Common.Decimal.{to_string}
use openevent.Status.{
  Result, ok, fail, Error, error, Errno, eintr, eexist, enoent, eisdir, eperm, eloop, text, raw,
  Text, object_io_status, errno_message, storage_corruption, unavailable, invalid_argument,
  out_of_range,
}
use openevent.Storage.Faults.{
  StorageFaultInjector, StorageFaultPoint, inject_storage_fault, after_temporary_file_create,
  before_temporary_file_write, after_temporary_file_write, before_file_fsync, after_file_fsync,
  before_rename, after_rename, before_directory_fsync, after_directory_fsync,
}
use openevent.Storage.ObjectFiles.Posix.{Posix, Called, done, failed, FileStat}
use openevent.Storage.ObjectFiles.Io.{
  Outcome, unfinished, Io, pure, raise, lift, called, closing, ◌>>=◌, ◌>>◌,
}
use openevent.Storage.Records.{max_object_bytes}

unfoldable pub final_name : ℕ → Bytes
final_name object_id = to_string object_id

unfoldable pub temporary_name : ℕ → Bytes
temporary_name object_id = codes ".tmp." ++ to_string object_id

abbrev pub ssize_max : ℕ
ssize_max = 2 ^ 63 - 1

abbrev io_error : String → Errno → Error
io_error operation e = object_io_status (text operation ∷ []) e

abbrev file_corruption : String → String → Bytes → Error
file_corruption operation what name =
    storage_corruption (text operation ∷ []) (text what ∷ raw name ∷ [])

-- A failure of `openat` with `O_EXCL`, of `renameat2`, of `unlinkat` and of `openat`.
abbrev create_error : Bytes → Errno → Error
create_error name eexist =
    file_corruption "create temporary object file" "unexpected existing temporary object file: "
      name
create_error name e = io_error "create temporary object file" e

abbrev rename_error : Bytes → Errno → Error
rename_error name eexist =
    file_corruption "rename temporary object file" "unexpected existing final object file: " name
rename_error name e = io_error "rename temporary object file" e

abbrev unlink_failure : Bytes → Errno → Result (Unit {0})
unlink_failure name enoent = ok tt
unlink_failure name eisdir =
    fail (file_corruption "remove object path" "object path is not a removable file: " name)
unlink_failure name eperm =
    fail (file_corruption "remove object path" "object path is not a removable file: " name)
unlink_failure name e = fail (object_io_status (text "remove object path " ∷ raw name ∷ []) e)

abbrev open_text : Bytes → Text
open_text name = text "open committed object file " ∷ raw name ∷ []

abbrev open_error : Bytes → Errno → Error
open_error name enoent = storage_corruption (open_text name) (errno_message (open_text name) enoent)
open_error name eloop = storage_corruption (open_text name) (errno_message (open_text name) eloop)
open_error name e = object_io_status (open_text name) e

abbrev same_size : Option ℕ → ℕ → Bool
same_size none expected = false
same_size (some n) expected = n == expected

unfoldable pub check_request : ℕ → ℕ → ℕ → ℕ → Result (Unit {0})
check_request object_id expected_size offset nbytes =
    if object_id == 0 || expected_size == 0 || ltb max_object_bytes expected_size
    then fail (
        storage_corruption (text "read committed object file" ∷ [])
          (text "invalid committed object metadata" ∷ []))
    else if nbytes == 0
    then fail (error invalid_argument "nbytes must be greater than 0")
    else if ltb expected_size offset
    then fail (error out_of_range "offset exceeds object size")
    else ok tt

module _ (P : Posix) where
  abbrev or_raise : {A : Type 0} → (Errno → Error) → Called A → Io P.System A
  or_raise what (done a) = pure a
  or_raise what (failed e) = raise (what e)

  unfoldable pub close_file : P.Fd → String → Io P.System (Unit {0})
  close_file fd operation = called (λ s. P.close s fd) (or_raise (io_error operation))

  abbrev after_unlink : Bytes → Called (Unit {0}) → Io P.System (Unit {0})
  after_unlink name (done _) = pure tt
  after_unlink name (failed e) = lift (unlink_failure name e)

  unfoldable pub unlink_known_path : Bytes → Io P.System (Unit {0})
  unlink_known_path name = called (λ s. P.unlink s name) (after_unlink name)

  -- A round of the loop of `write`, after the system call.
  abbrev after_write : (Bytes → Io P.System (Unit {0})) → Bytes → Called ℕ → Io P.System (Unit {0})
  after_write again rest (failed eintr) = again rest
  after_write again rest (failed e) = raise (io_error "write temporary object file" e)
  after_write again rest (done zero) =
      raise (error unavailable "write temporary object file returned zero")
  after_write again rest (done (suc n)) = again (drop (suc n) rest)

  -- `rest` are the bytes not yet written.
  unfoldable pub write_loop : ℕ → P.Fd → Bytes → Io P.System (Unit {0})
  write_loop zero fd rest = λ s. (unfinished, s)
  write_loop (suc fuel) fd [] = pure tt
  write_loop (suc fuel) fd (b ∷ bs) =
      let offered : Bytes = take (min (length (b ∷ bs)) ssize_max) (b ∷ bs) in
      called (λ s. P.write s fd offered) (after_write (λ rest. write_loop fuel fd rest) (b ∷ bs))

  -- A round writes a byte or uses an interruption up.
  unfoldable pub write_all : P.Fd → Bytes → Io P.System (Unit {0})
  unfolding write_loop
  write_all fd content s = write_loop (suc (length content + P.interruptions s)) fd content s

  module _ (injector : StorageFaultInjector) where
    abbrev inject : StorageFaultPoint → Io P.System (Unit {0})
    inject point = lift (inject_storage_fault injector point)

    -- From the creation of the temporary file to the `fsync` of it; an error closes the file.
    unfoldable pub fill_steps : P.Fd → Bytes → Io P.System (Unit {0})
    fill_steps fd content = do
      inject after_temporary_file_create
      inject before_temporary_file_write
      write_all fd content
      inject after_temporary_file_write
      inject before_file_fsync
      called (λ s. P.fsync s fd) (or_raise (io_error "fsync temporary object file"))
      inject after_file_fsync

    unfoldable pub fill_file : P.Fd → Bytes → Io P.System (Unit {0})
    fill_file fd content = closing (λ s. P.close s fd) (fill_steps fd content)

    -- From the rename to the `fsync` of the directory.
    unfoldable pub publish_file : Bytes → Bytes → Io P.System (Unit {0})
    publish_file temporary final = do
      inject before_rename
      called (λ s. P.rename_noreplace s temporary final) (or_raise (rename_error final))
      inject after_rename
      inject before_directory_fsync
      called P.fsync_directory (or_raise (io_error "fsync object directory"))
      inject after_directory_fsync

    unfoldable pub write : ℕ → Bytes → Io P.System (Unit {0})
    write object_id content = do
      fd ←
          called (λ s. P.open_new s (temporary_name object_id))
            (or_raise (create_error (temporary_name object_id)))
      fill_file fd content
      close_file fd "close temporary object file"
      publish_file (temporary_name object_id) (final_name object_id)

  -- The loop of `Cleanup`.
  unfoldable pub unlink_all : List ℕ → Io P.System (Unit {0})
  unlink_all [] = pure tt
  unlink_all (object_id ∷ rest) = do
    unlink_known_path (temporary_name object_id)
    unlink_known_path (final_name object_id)
    unlink_all rest

  abbrev sync_after_cleanup : List ℕ → Io P.System (Unit {0})
  sync_after_cleanup [] = pure tt
  sync_after_cleanup (_ ∷ _) =
      called P.fsync_directory (or_raise (io_error "fsync object directory after cleanup"))

  unfoldable pub cleanup : List ℕ → Io P.System (Unit {0})
  cleanup object_ids = do unlink_all object_ids; sync_after_cleanup object_ids

  -- The loop that opens a committed file, and the one that reads `count` bytes of it, of which `got`
  -- have been read.
  abbrev after_open : Io P.System P.Fd → Bytes → Called P.Fd → Io P.System P.Fd
  after_open again name (done fd) = pure fd
  after_open again name (failed eintr) = again
  after_open again name (failed e) = raise (open_error name e)

  unfoldable pub open_loop : ℕ → Bytes → Io P.System P.Fd
  open_loop zero name = λ s. (unfinished, s)
  open_loop (suc fuel) name =
      called (λ s. P.open_for_read s name) (after_open (λ s. open_loop fuel name s) name)

  abbrev after_read : (Bytes → Io P.System Bytes) → Bytes → Bytes → Called Bytes → Io P.System Bytes
  after_read again name got (failed eintr) = again got
  after_read again name got (failed e) =
      raise (object_io_status (text "read committed object file range " ∷ raw name ∷ []) e)
  after_read again name got (done []) =
      raise
        (file_corruption "read committed object file" "committed object file is truncated: " name)
  after_read again name got (done (b ∷ bs)) = again (got ++ (b ∷ bs))

  unfoldable pub read_loop : ℕ → P.Fd → Bytes → ℕ → ℕ → Bytes → Io P.System Bytes
  read_loop zero fd name offset count got = λ s. (unfinished, s)
  read_loop (suc fuel) fd name offset count got =
      if ltb (length got) count
      then called (λ s. P.pread s fd (count - length got) (offset + length got))
          (after_read (λ more. read_loop fuel fd name offset count more) name got)
      else pure got

  unfoldable pub open_final : Bytes → Io P.System P.Fd
  unfolding open_loop
  open_final name s = open_loop (suc (P.interruptions s)) name s

  unfoldable pub read_all : P.Fd → Bytes → ℕ → ℕ → Io P.System Bytes
  unfolding read_loop
  read_all fd name offset count s =
      read_loop (suc (count + P.interruptions s)) fd name offset count [] s

  -- `fstat` and the checks of what it says.
  unfoldable pub check_file : P.Fd → Bytes → ℕ → Io P.System (Unit {0})
  check_file fd name expected_size = do
    stat ←
        called (λ s. P.fstat s fd)
          (or_raise (object_io_status (text "stat committed object file " ∷ raw name ∷ [])))
    lift (
        if not stat.is_regular || not (same_size stat.size expected_size)
        then fail (
            file_corruption "stat committed object file"
              "committed object file type or size mismatch: " name)
        else ok tt)

  unfoldable pub read_steps : P.Fd → Bytes → ℕ → ℕ → ℕ → Io P.System Bytes
  read_steps fd name expected_size offset count = do
    check_file fd name expected_size
    read_all fd name offset count

  unfoldable pub read_range : ℕ → ℕ → ℕ → ℕ → Io P.System Bytes
  read_range object_id expected_size offset nbytes = do
    lift (check_request object_id expected_size offset nbytes)
    let name : Bytes = final_name object_id
    fd ← open_final name
    content ←
        closing (λ s. P.close s fd)
          (read_steps fd name expected_size offset (min nbytes (expected_size - offset)))
    close_file fd "close committed object file"
    pure content

-- ===== src/Storage/ObjectFiles/Posix.antt =====
-- The system calls of src/storage/object_file_store.cpp. The kernel is not part of the repository:
-- `Posix` is the interface that the store takes, one function for each call that it makes in its
-- directory, and `PosixLaws` says what the store relies on.
use openevent.Common.{
  ℕ, ◌<◌, ◌≤◌, ◌≡◌, ◌≢◌, ◌⊎◌, inl, inr, refl, Bool, true, Option, none, some, [], Bytes, take, drop,
  length, ◌++◌, ◌==◌, bytes_eq, if◌then◌else◌,
}
use openevent.Status.{Errno, eintr, enoent}

-- What a call returns: its value, or `errno`.
pub data Called (A : Type 0) : Type 0 where
  done : A → Called A
  failed : Errno → Called A

-- To split on the result of a call and keep the equation.
pub Called-cases :
    {A : Type 0} (r : Called A) → ((a : A) × (r ≡ done a)) ⊎ ((e : Errno) × (r ≡ failed e))
Called-cases (done a) = inl (a, refl)
Called-cases (failed e) = inr (e, refl)

-- The fields of `struct stat` that the store reads. `size` is `none` where `st_size` is negative.
pub record FileStat : Type 0 where
  pub is_regular : Bool
  pub size : Option ℕ

-- The directory, by name, and the bytes of each file.
pub record Disk : Type 0 where
  pub entries : Bytes → Option ℕ
  pub content : ℕ → Bytes

abbrev pub bind_name : Bytes → Option ℕ → (Bytes → Option ℕ) → Bytes → Option ℕ
bind_name name file entries other = if bytes_eq name other then file else entries other

abbrev pub set_content : ℕ → Bytes → (ℕ → Bytes) → ℕ → Bytes
set_content file bytes content other = if file == other then bytes else content other

pub record Posix : Type 1 where
  pub System : Type 0
  -- An open file.
  pub Fd : Type 0
  -- `openat` with `O_WRONLY | O_CREAT | O_EXCL`.
  pub open_new : System → Bytes → Called Fd × System
  -- `openat` with `O_RDONLY`.
  pub open_for_read : System → Bytes → Called Fd × System
  -- `write` of the bytes given: how many were written.
  pub write : System → Fd → Bytes → Called ℕ × System
  -- `pread` of so many bytes at an offset: those that were read.
  pub pread : System → Fd → ℕ → ℕ → Called Bytes × System
  pub fstat : System → Fd → Called FileStat × System
  -- `fsync` of a file, and of the directory.
  pub fsync : System → Fd → Called (Unit {0}) × System
  pub fsync_directory : System → Called (Unit {0}) × System
  pub close : System → Fd → Called (Unit {0}) × System
  -- `renameat2` with `RENAME_NOREPLACE`.
  pub rename_noreplace : System → Bytes → Bytes → Called (Unit {0}) × System
  pub unlink : System → Bytes → Called (Unit {0}) × System
  pub file_of : Fd → ℕ
  pub disk : System → Disk
  -- Whether the bytes of a file, and the directory, survive a crash as they are.
  pub IsSynced : System → ℕ → Type 0
  pub IsDirectorySynced : System → Type 0
  -- A bound that loops use as fuel, on the calls that signals have yet to interrupt; see
  -- `SignalsCease`.
  pub interruptions : System → ℕ

-- A call that succeeds has the documented effect. A call that a signal interrupts leaves the disk as
-- it is; of other calls that fail nothing is assumed.
pub record PosixLaws (P : Posix) : Type 0 where
  pub open_new_done :
      (s s' : P.System) (name : Bytes) (fd : P.Fd)
      → P.open_new s name ≡ (done fd, s')
      → ((P.disk s).entries name ≡ none)
        × ((other : Bytes) → (P.disk s).entries other ≢ some (P.file_of fd))
        × (P.disk s' ≡ record {
          entries = bind_name name (some (P.file_of fd)) (P.disk s).entries;
          content = set_content (P.file_of fd) [] (P.disk s).content;
        })
  pub open_for_read_done :
      (s s' : P.System) (name : Bytes) (fd : P.Fd)
      → P.open_for_read s name ≡ (done fd, s')
      → ((P.disk s).entries name ≡ some (P.file_of fd)) × (P.disk s' ≡ P.disk s)
  pub open_for_read_eintr :
      (s s' : P.System) (name : Bytes)
      → P.open_for_read s name ≡ (failed eintr, s')
      → P.disk s' ≡ P.disk s
  pub write_done :
      (s s' : P.System) (fd : P.Fd) (bytes : Bytes) (n : ℕ)
      → P.write s fd bytes ≡ (done n, s')
      → (n ≤ length bytes)
        × (P.disk s' ≡ record (P.disk s) {
          content =
              set_content
                (P.file_of fd)
                ((P.disk s).content (P.file_of fd) ++ take n bytes)
                (P.disk s).content;
        })
  pub write_eintr :
      (s s' : P.System) (fd : P.Fd) (bytes : Bytes)
      → P.write s fd bytes ≡ (failed eintr, s')
      → P.disk s' ≡ P.disk s
  pub pread_done :
      (s s' : P.System) (fd : P.Fd) (count offset : ℕ) (bytes : Bytes)
      → P.pread s fd count offset ≡ (done bytes, s')
      → (length bytes ≤ count)
        × (bytes ≡ take (length bytes) (drop offset ((P.disk s).content (P.file_of fd))))
        × (P.disk s' ≡ P.disk s)
  pub pread_eintr :
      (s s' : P.System) (fd : P.Fd) (count offset : ℕ)
      → P.pread s fd count offset ≡ (failed eintr, s')
      → P.disk s' ≡ P.disk s
  pub fstat_done :
      (s s' : P.System) (fd : P.Fd) (stat : FileStat)
      → P.fstat s fd ≡ (done stat, s')
      → (stat.is_regular ≡ true → stat.size ≡ some (length ((P.disk s).content (P.file_of fd))))
        × (P.disk s' ≡ P.disk s)
  pub fsync_done :
      (s s' : P.System) (fd : P.Fd)
      → P.fsync s fd ≡ (done tt, s')
      → P.IsSynced s' (P.file_of fd) × (P.disk s' ≡ P.disk s)
  pub fsync_directory_done :
      (s s' : P.System)
      → P.fsync_directory s ≡ (done tt, s')
      → P.IsDirectorySynced s'
        × (P.disk s' ≡ P.disk s)
        × ((file : ℕ) → P.IsSynced s file → P.IsSynced s' file)
  pub close_done :
      (s s' : P.System) (fd : P.Fd)
      → P.close s fd ≡ (done tt, s')
      → (P.disk s' ≡ P.disk s) × ((file : ℕ) → P.IsSynced s file → P.IsSynced s' file)
  pub rename_noreplace_done :
      (s s' : P.System) (from to : Bytes)
      → P.rename_noreplace s from to ≡ (done tt, s')
      → ((P.disk s).entries to ≡ none)
        × (P.disk s' ≡ record (P.disk s) {
          entries = bind_name to ((P.disk s).entries from) (bind_name from none (P.disk s).entries);
        })
        × ((file : ℕ) → P.IsSynced s file → P.IsSynced s' file)
  pub unlink_done :
      (s s' : P.System) (name : Bytes)
      → P.unlink s name ≡ (done tt, s')
      → P.disk s' ≡ record (P.disk s) { entries = bind_name name none (P.disk s).entries }
  pub unlink_absent :
      (s s' : P.System) (name : Bytes)
      → P.unlink s name ≡ (failed enoent, s')
      → ((P.disk s).entries name ≡ none) × (P.disk s' ≡ P.disk s)

-- The signals cease: each call that one interrupts lowers the bound, and a transfer that succeeds does
-- not raise it. The kernel does not promise this; without it the loops need not end.
pub record SignalsCease (P : Posix) : Type 0 where
  pub open_for_read_fewer :
      (s s' : P.System) (name : Bytes)
      → P.open_for_read s name ≡ (failed eintr, s')
      → P.interruptions s' < P.interruptions s
  pub write_fewer :
      (s s' : P.System) (fd : P.Fd) (bytes : Bytes)
      → P.write s fd bytes ≡ (failed eintr, s')
      → P.interruptions s' < P.interruptions s
  pub write_no_more :
      (s s' : P.System) (fd : P.Fd) (bytes : Bytes) (n : ℕ)
      → P.write s fd bytes ≡ (done n, s')
      → P.interruptions s' ≤ P.interruptions s
  pub pread_fewer :
      (s s' : P.System) (fd : P.Fd) (count offset : ℕ)
      → P.pread s fd count offset ≡ (failed eintr, s')
      → P.interruptions s' < P.interruptions s
  pub pread_no_more :
      (s s' : P.System) (fd : P.Fd) (count offset : ℕ) (bytes : Bytes)
      → P.pread s fd count offset ≡ (done bytes, s')
      → P.interruptions s' ≤ P.interruptions s

-- ===== src/Examples/Directory.antt =====
-- A directory in memory with its laws: writes and reads move two bytes at most, and the first calls
-- are interrupted by signals.
use openevent.Common.{
  ℕ, zero, suc, ◌+◌, ◌<◌, ◌≤◌, ◌≡◌, refl, sym, ap, ◌∙◌, Bool, true, false, Option, none, some, List,
  [], ◌∷◌, ◌++◌, Bytes, take, drop, length, elem, bytes_eq, ◌==◌, ==_refl, if◌then◌else◌, arith,
}
use openevent.Status.{eintr, eexist, enoent}
use openevent.Storage.ObjectFiles.Posix.{
  Called, done, failed, FileStat, Disk, Posix, PosixLaws, SignalsCease, set_content,
}

-- Bindings and contents, latest first; a name bound to `none` is gone.
pub record Directory : Type 0 where
  pub names : List (Bytes × Option ℕ)
  pub files : List (ℕ × Bytes)
  pub synced : List ℕ
  pub is_synced : Bool
  pub interruptions : ℕ

abbrev find : List (Bytes × Option ℕ) → Bytes → Option ℕ
find [] other = none
find ((name, file) ∷ rest) other = if bytes_eq name other then file else find rest other

abbrev content : List (ℕ × Bytes) → ℕ → Bytes
content [] other = []
content ((file, bytes) ∷ rest) other = if file == other then bytes else content rest other

-- Above the number of every file.
unfoldable pub above : List (Bytes × Option ℕ) → ℕ
above [] = 0
above ((name, none) ∷ rest) = above rest
above ((name, some file) ∷ rest) = suc file + above rest

find-above :
    (names : List (Bytes × Option ℕ)) (name : Bytes) (file : ℕ)
    → find names name ≡ some file
    → file < above names
unfolding above
find-above [] name file h = absurd (ground arith)
find-above ((n, none) ∷ rest) name file h = ground (arith, find-above rest name file)
find-above ((n, some f) ∷ rest) name file h = ground (arith, find-above rest name file)

abbrev disk_of : Directory → Disk
disk_of d = record { entries = find d.names; content = content d.files }

abbrev interrupted : {A : Type 0} → Directory → Called A × Directory → Called A × Directory
interrupted d next = elim d.interruptions [
  | zero ↦ next
  | suc n ↦ (failed eintr, record d { interruptions = n })
]

unfoldable pub open_new : Directory → Bytes → Called ℕ × Directory
unfolding above
open_new d name = elim (find d.names name) [
  | some _ ↦ (failed eexist, d)
  | none ↦
      let file = above d.names in
      (
        done file,
        record d {
          names = (name, some file) ∷ d.names;
          files = (file, []) ∷ d.files;
          is_synced = false;
        },
      )
]

unfoldable pub open_for_read : Directory → Bytes → Called ℕ × Directory
open_for_read d name =
    interrupted d
      (elim (find d.names name) [ some file ↦ (done file, d) | none ↦ (failed enoent, d) ])

unfoldable pub write : Directory → ℕ → Bytes → Called ℕ × Directory
write d file bytes =
    let few = take 2 bytes in
    interrupted d (
      done (length few),
      record d { files = (file, content d.files file ++ few) ∷ d.files; synced = [] },
    )

unfoldable pub pread : Directory → ℕ → ℕ → ℕ → Called Bytes × Directory
pread d file count offset =
    interrupted d (done (take 2 (take count (drop offset (content d.files file)))), d)

unfoldable pub fstat : Directory → ℕ → Called FileStat × Directory
fstat d file = (done (record { is_regular = true; size = some (length (content d.files file)) }), d)

unfoldable pub fsync : Directory → ℕ → Called (Unit {0}) × Directory
fsync d file = (done tt, record d { synced = file ∷ d.synced })

unfoldable pub fsync_directory : Directory → Called (Unit {0}) × Directory
fsync_directory d = (done tt, record d { is_synced = true })

unfoldable pub rename_noreplace : Directory → Bytes → Bytes → Called (Unit {0}) × Directory
rename_noreplace d from to = elim (find d.names to) [
  | some _ ↦ (failed eexist, d)
  | none ↦ (
    done tt,
    record d { names = (to, find d.names from) ∷ (from, none) ∷ d.names; is_synced = false },
  )
]

unfoldable pub unlink : Directory → Bytes → Called (Unit {0}) × Directory
unlink d name = elim (find d.names name) [
  | none ↦ (failed enoent, d)
  | some _ ↦ (done tt, record d { names = (name, none) ∷ d.names; is_synced = false })
]

abbrev pub directory : Posix
directory = record {
  System = Directory;
  Fd = ℕ;
  open_new = open_new;
  open_for_read = open_for_read;
  write = write;
  pread = pread;
  fstat = fstat;
  fsync = fsync;
  fsync_directory = fsync_directory;
  close = λ d file. (done tt, d);
  rename_noreplace = rename_noreplace;
  unlink = unlink;
  file_of = λ file. file;
  disk = disk_of;
  IsSynced = λ d file. elem file d.synced ≡ true;
  IsDirectorySynced = λ d. d.is_synced ≡ true;
  interruptions = λ d. d.interruptions;
}

length-take-le : (n : ℕ) (xs : Bytes) → length (take n xs) ≤ n
length-take-le zero xs = omega arith
length-take-le (suc n) [] = omega arith
length-take-le (suc n) (x ∷ xs) = omega (arith, length-take-le n xs)

length-take-le_length : (n : ℕ) (xs : Bytes) → length (take n xs) ≤ length xs
length-take-le_length zero xs = omega arith
length-take-le_length (suc n) [] = omega arith
length-take-le_length (suc n) (x ∷ xs) = omega (arith, length-take-le_length n xs)

take-length-take : (n : ℕ) (xs : Bytes) → take (length (take n xs)) xs ≡ take n xs
take-length-take zero xs = refl
take-length-take (suc n) [] = refl
take-length-take (suc n) (x ∷ xs) = ap (λ ys. x ∷ ys) (take-length-take n xs)

take-length-take-take :
    (m n : ℕ) (xs : Bytes) → take (length (take m (take n xs))) xs ≡ take m (take n xs)
take-length-take-take zero n xs = refl
take-length-take-take (suc m) zero xs = refl
take-length-take-take (suc m) (suc n) [] = refl
take-length-take-take (suc m) (suc n) (x ∷ xs) = ap (λ ys. x ∷ ys) (take-length-take-take m n xs)

open_new-done :
    (s s' : Directory) (name : Bytes) (fd : ℕ)
    → open_new s name ≡ (done fd, s')
    → (find s.names name ≡ none)
      × (fd ≡ above s.names)
      × (s' ≡ record s {
        names = (name, some fd) ∷ s.names;
        files = (fd, []) ∷ s.files;
        is_synced = false;
      })
unfolding open_new
open_new-done s s' name fd h = ground arith

rename-done :
    (s s' : Directory) (from to : Bytes)
    → rename_noreplace s from to ≡ (done tt, s')
    → (find s.names to ≡ none)
      × (s' ≡ record s {
        names = (to, find s.names from) ∷ (from, none) ∷ s.names;
        is_synced = false;
      })
unfolding rename_noreplace
rename-done s s' from to h = ground arith

write-done :
    (s s' : Directory) (fd : ℕ) (bytes : Bytes) (n : ℕ)
    → write s fd bytes ≡ (done n, s')
    → (n ≡ length (take 2 bytes))
      × (s' ≡ record s { files = (fd, content s.files fd ++ take 2 bytes) ∷ s.files; synced = [] })
unfolding write
write-done s s' fd bytes n h = ground arith

pread-done :
    (s s' : Directory) (fd count offset : ℕ) (bytes : Bytes)
    → pread s fd count offset ≡ (done bytes, s')
    → (bytes ≡ take 2 (take count (drop offset (content s.files fd)))) × (s' ≡ s)
unfolding pread
pread-done s s' fd count offset bytes h = ground arith

directory_write :
    (s s' : Directory) (fd : ℕ) (bytes : Bytes) (n : ℕ)
    → write s fd bytes ≡ (done n, s')
    → (n ≤ length bytes)
      × (disk_of s' ≡ record (disk_of s) {
        content = set_content fd (content s.files fd ++ take n bytes) (content s.files);
      })
directory_write s s' fd bytes n h =
    let (count, e) = write-done s s' fd bytes n h in
    let few : take n bytes ≡ take 2 bytes =
      ap (λ k. take k bytes) count ∙ take-length-take 2 bytes in
    (omega (arith, count, length-take-le_length 2 bytes), rw few (ap disk_of e))

directory_pread :
    (s s' : Directory) (fd count offset : ℕ) (bytes : Bytes)
    → pread s fd count offset ≡ (done bytes, s')
    → (length bytes ≤ count)
      × (bytes ≡ take (length bytes) (drop offset (content s.files fd)))
      × (disk_of s' ≡ disk_of s)
directory_pread s s' fd count offset bytes h =
    let (got, e) = pread-done s s' fd count offset bytes h in
    let there = drop offset (content s.files fd) in
    (
      rw got
          (omega (arith, length-take-le_length 2 (take count there), length-take-le count there)),
      rw got (sym (take-length-take-take 2 count there)),
      ap disk_of e,
    )

unlink-done :
    (s s' : Directory) (name : Bytes)
    → unlink s name ≡ (done tt, s')
    → s' ≡ record s { names = (name, none) ∷ s.names; is_synced = false }
unfolding unlink
unlink-done s s' name h = ground arith

same_disk : (s s' : Directory) → s'.names ≡ s.names → s'.files ≡ s.files → disk_of s' ≡ disk_of s
same_disk s s' n f = λ i. record { entries = find (n i); content = content (f i) }

pub directory-PosixLaws : PosixLaws directory
unfolding open_new open_for_read write pread fstat fsync fsync_directory rename_noreplace unlink
directory-PosixLaws = record {
  open_new_done = λ s s' name fd h.
      let (free, new, e) = open_new-done s s' name fd h in
      (
        free,
        λ other found. absurd (omega (arith, find-above s.names other fd found)),
        ap disk_of e,
      );
  open_for_read_done =
      λ s s' name fd h. (ground arith, same_disk s s' (ground arith) (ground arith));
  open_for_read_eintr = λ s s' name h. same_disk s s' (ground arith) (ground arith);
  write_done = directory_write;
  write_eintr = λ s s' fd bytes h. same_disk s s' (ground arith) (ground arith);
  pread_done = directory_pread;
  pread_eintr = λ s s' fd count offset h. same_disk s s' (ground arith) (ground arith);
  fstat_done = λ s s' fd stat h. (λ r. ground arith, same_disk s s' (ground arith) (ground arith));
  fsync_done =
      λ s s' fd h. (ground (arith, ==_refl fd), same_disk s s' (ground arith) (ground arith));
  fsync_directory_done = λ s s' h.
      (ground arith, same_disk s s' (ground arith) (ground arith), λ file k. ground arith);
  close_done = λ s s' fd h. (same_disk s s' (ground arith) (ground arith), λ file k. ground arith);
  rename_noreplace_done = λ s s' from to h.
      let (free, e) = rename-done s s' from to h in (free, ap disk_of e, λ file k. ground arith);
  unlink_done = λ s s' name h. ap disk_of (unlink-done s s' name h);
  unlink_absent = λ s s' name h. (ground arith, same_disk s s' (ground arith) (ground arith));
}

pub directory-SignalsCease : SignalsCease directory
unfolding open_for_read write pread
directory-SignalsCease = record {
  open_for_read_fewer = λ s s' name h. ground arith;
  write_fewer = λ s s' fd bytes h. ground arith;
  write_no_more =
      λ s s' fd bytes n h. let (_, e) = write-done s s' fd bytes n h in rw e (omega arith);
  pread_fewer = λ s s' fd count offset h. ground arith;
  pread_no_more = λ s s' fd count offset bytes h.
      let (_, e) = pread-done s s' fd count offset bytes h in rw e (omega arith);
}

-- ===== src/Storage/ObjectFiles/Store/Stored.antt =====
-- A `Write` that returns has stored the object under its final name, for good.
use openevent.Common.{
  ℕ, ◌≡◌, ◌≢◌, sym, ap, ◌∙◌, subst, Bool-cases, ==_iff, inl, inr, Option, none, some, [], Bytes,
  ◌==◌, bytes_eq_refl, bytes_eq_sound, arith,
}
use openevent.Storage.Faults.{StorageFaultInjector}
use openevent.Storage.ObjectFiles.Posix.{
  Posix, PosixLaws, Called-cases, done, bind_name, set_content,
}
use openevent.Storage.ObjectFiles.Io.{returned}
use openevent.Storage.ObjectFiles.Store.{
  temporary_name, final_name, write_all, close_file, fill_steps, fill_file, publish_file, write,
}
use openevent.Storage.ObjectFiles.Store.Written.{Appends, write_all-Appends}

-- A file that is made under one name, which was free, and moved to another.
moved :
    (from to : Bytes) (file : ℕ) (e : Bytes → Option ℕ)
    → e from ≡ none
    → bind_name from (some file) e to ≡ none
    → (e to ≡ none)
      × ((name : Bytes)
          → bind_name to
              (bind_name from (some file) e from)
              (bind_name from none (bind_name from (some file) e))
              name
            ≡ bind_name to (some file) e name)
moved from to file e free free' = (
  ground (arith, bytes_eq_sound from to),
  λ name. ground (arith, bytes_eq_refl from, bytes_eq_sound from name),
)

module _ (P : Posix) where
  -- A new file holds the content under the final name of the object, and both survive a crash;
  -- neither name was taken, no other name and no other file is changed.
  pub record IsStored (object_id : ℕ) (content : Bytes) (s s' : P.System) : Type 0 where
    pub file : ℕ
    pub was_free : (P.disk s).entries (final_name object_id) ≡ none
    pub is_new : (name : Bytes) → (P.disk s).entries name ≢ some file
    pub entries :
        (name : Bytes)
        → (P.disk s').entries name
          ≡ bind_name (final_name object_id) (some file) (P.disk s).entries name
    pub contents :
        (other : ℕ) → (P.disk s').content other ≡ set_content file content (P.disk s).content other
    pub is_synced : P.IsSynced s' file
    pub directory_is_synced : P.IsDirectorySynced s'

  module _ (law : PosixLaws P) (injector : StorageFaultInjector) where
    fill_steps-returned :
        (fd : P.Fd) (content : Bytes) (s s' : P.System)
        → fill_steps P injector fd content s ≡ (returned tt, s')
        → (t : P.System) × (write_all P fd content s ≡ (returned tt, t))
          × (P.fsync t fd ≡ (done tt, s'))
    unfolding fill_steps
    fill_steps-returned fd content s s' h =
        ((write_all P fd content s).1, ground arith, ground arith)

    publish_file-returned :
        (temporary final : Bytes) (s s' : P.System)
        → publish_file P injector temporary final s ≡ (returned tt, s')
        → (t : P.System) × (P.rename_noreplace s temporary final ≡ (done tt, t))
          × (P.fsync_directory t ≡ (done tt, s'))
    unfolding publish_file
    publish_file-returned temporary final s s' h =
        ((P.rename_noreplace s temporary final).1, ground arith, ground arith)

    write-returned :
        (object_id : ℕ) (content : Bytes) (s s' : P.System)
        → write P injector object_id content s ≡ (returned tt, s')
        → (fd : P.Fd) × (a b c : P.System) × (P.open_new s (temporary_name object_id)
            ≡ (done fd, a))
          × (fill_steps P injector fd content a ≡ (returned tt, b))
          × (P.close b fd ≡ (done tt, c))
          × (publish_file P injector (temporary_name object_id) (final_name object_id) c
              ≡ (returned tt, s'))
    unfolding write fill_file close_file
    write-returned object_id content s s' h =
        let opened = P.open_new s (temporary_name object_id) in
        elim (Called-cases opened.0) [
          | inl (fd, e) ↦
              let b = (fill_steps P injector fd content opened.1).1 in
              (
                fd,
                opened.1,
                b,
                (P.close b fd).1,
                ground arith,
                ground arith,
                ground arith,
                ground arith,
              )
          | inr (_, e) ↦ absurd (ground arith)
        ]

    -- The disk where the temporary file is written, synced and closed.
    record IsFilled (name : Bytes) (content : Bytes) (file : ℕ) (s c : P.System) : Type 0 where
      free : (P.disk s).entries name ≡ none
      fresh : (other : Bytes) → (P.disk s).entries other ≢ some file
      entries : (P.disk c).entries ≡ bind_name name (some file) (P.disk s).entries
      contents :
          (other : ℕ) → (P.disk c).content other ≡ set_content file content (P.disk s).content other
      is_synced : P.IsSynced c file

    -- The file was empty where the bytes were added.
    filled_content :
        (file : ℕ) (content : Bytes) (other : ℕ) (k : ℕ → Bytes) {a t : P.System}
        → Appends P file content a t
        → (P.disk a).content file ≡ set_content file [] k file
        → (P.disk a).content other ≡ set_content file [] k other
        → (P.disk t).content other ≡ set_content file content k other
    filled_content file content other k {t = t} append here there =
        elim (Bool-cases (file == other)) [
          | inl e ↦
              let same : file ≡ other = (==_iff file other).0 e in
              ap (λ o. (P.disk t).content o) (sym same) ∙ append.extended ∙ ground arith
          | inr e ↦ append.others_kept other e ∙ there ∙ ground arith
        ]

    fill-IsFilled :
        (name : Bytes) (content : Bytes) (fd : P.Fd) (s a b c : P.System)
        → P.open_new s name ≡ (done fd, a)
        → fill_steps P injector fd content a ≡ (returned tt, b)
        → P.close b fd ≡ (done tt, c)
        → IsFilled name content (P.file_of fd) s c
    fill-IsFilled name content fd s a b c opened filled closed =
        let (t, written, synced) = fill_steps-returned fd content a b filled in
        let (free, fresh, da) = law.open_new_done s a name fd opened in
        let append = write_all-Appends P law fd content a t written in
        let (sb, db) = law.fsync_done t b fd synced in
        let (dc, kc) = law.close_done b c fd closed in
        record {
          free = free;
          fresh = fresh;
          entries = ap (λ d. d.entries) (dc ∙ db) ∙ append.entries_kept ∙ ap (λ d. d.entries) da;
          contents = λ other.
              ap (λ d. d.content other) (dc ∙ db)
              ∙ filled_content (P.file_of fd) content other (P.disk s).content append
                  (ap (λ d. d.content (P.file_of fd)) da) (ap (λ d. d.content other) da);
          is_synced = kc _ sb;
        }

    publish-IsStored :
        (object_id : ℕ) (content : Bytes) (file : ℕ) (s c s' : P.System)
        → IsFilled (temporary_name object_id) content file s c
        → publish_file P injector (temporary_name object_id) (final_name object_id) c
          ≡ (returned tt, s')
        → IsStored object_id content s s'
    publish-IsStored object_id content file s c s' f published =
        let temporary = temporary_name object_id in
        let final = final_name object_id in
        let (u, renamed, synced) = publish_file-returned temporary final c s' published in
        let (final_free, du, ku) = law.rename_noreplace_done c u temporary final renamed in
        let (directory, ds, ks) = law.fsync_directory_done u s' synced in
        let kept : (P.disk s').content ≡ (P.disk c).content = ap (λ d. d.content) (ds ∙ du) in
        let (was_free, same) =
          moved temporary final file (P.disk s).entries f.free (rw f.entries at final_free) in
        let entries : (name : Bytes)
            → (P.disk s').entries name ≡ bind_name final (some file) (P.disk s).entries name =
          λ name.
            ap (λ d. d.entries name) (ds ∙ du)
            ∙ subst
                (λ e.
                  bind_name final (e temporary) (bind_name temporary none e) name
                  ≡ bind_name final (some file) (P.disk s).entries name)
                (sym f.entries) (same name) in
        record {
          file = file;
          was_free = was_free;
          is_new = f.fresh;
          entries = entries;
          contents = λ other. ap (λ k. k other) kept ∙ f.contents other;
          is_synced = ks _ (ku _ f.is_synced);
          directory_is_synced = directory;
        }

    -- A `Write` of the object file store that returns found the final name free and made a new
    -- file; afterwards the final name of the object stands for that file, which holds exactly the
    -- content given, no other name and no other file is changed, and both the file and the
    -- directory survive a crash.
    pub write-IsStored :
        (object_id : ℕ) (content : Bytes) (s s' : P.System)
        → write P injector object_id content s ≡ (returned tt, s')
        → IsStored object_id content s s'
    write-IsStored object_id content s s' h =
        let (fd, a, b, c, opened, filled, closed, published) =
          write-returned object_id content s s' h in
        publish-IsStored object_id content (P.file_of fd) s c s'
          (fill-IsFilled (temporary_name object_id) content fd s a b c opened filled closed)
          published

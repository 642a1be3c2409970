-- ===== src/Storage/ObjectFiles/Store/Removed.antt =====
-- A `Cleanup` that returns has removed both names of each object, and nothing else.
use openevent.Common.{
  ℕ, ◌⊎◌, ◌≡◌, refl, ap, subst, ◌∙◌, false, ◌||◌, none, inl, inr, List, [], ◌∷◌, Bytes, any,
  bytes_eq, bytes_eq_sound, if◌then◌else◌, arith, Bool,
}
use openevent.Status.{enoent}
use openevent.Storage.ObjectFiles.Posix.{Posix, PosixLaws, Called, done, failed}
use openevent.Storage.ObjectFiles.Io.{returned}
use openevent.Storage.ObjectFiles.Store.{
  temporary_name, final_name, after_unlink, unlink_known_path, unlink_all, sync_after_cleanup,
  cleanup,
}

-- Whether a name is one of the two of an object in the list.
abbrev pub is_name_of : Bytes → List ℕ → Bool
is_name_of name = any (λ id. bytes_eq (temporary_name id) name || bytes_eq (final_name id) name)

module _ (P : Posix) where
  record IsUnlinked (gone : Bytes → Bool) (s s' : P.System) : Type 0 where
    entries :
        (name : Bytes)
        → (P.disk s').entries name ≡ (if gone name then none else (P.disk s).entries name)
    contents : (P.disk s').content ≡ (P.disk s).content

  -- No entry is left for the names of the objects, the other entries and all files are as they were,
  -- and the directory survives a crash, unless there was nothing to do.
  pub record IsCleaned (object_ids : List ℕ) (s s' : P.System) : Type 0 where
    pub entries :
        (name : Bytes)
        → (P.disk s').entries name
          ≡ (if is_name_of name object_ids then none else (P.disk s).entries name)
    pub contents : (P.disk s').content ≡ (P.disk s).content
    pub directory_is_synced : (object_ids ≡ []) ⊎ P.IsDirectorySynced s'

  IsUnlinked-trans :
      (g h : Bytes → Bool) (s t u : P.System)
      → IsUnlinked g s t
      → IsUnlinked h t u
      → IsUnlinked (λ name. g name || h name) s u
  IsUnlinked-trans g h s t u a b = record {
    entries = λ name. ground (arith, a.entries name, b.entries name);
    contents = b.contents ∙ a.contents;
  }

  module _ (law : PosixLaws P) where
    unlinked :
        (name : Bytes) (r : Called (Unit {0})) (s t s' : P.System)
        → P.unlink s name ≡ (r, t)
        → after_unlink P name r t ≡ (returned tt, s')
        → IsUnlinked (bytes_eq name) s s'
    unlinked name (done _) s t s' u h = subst (IsUnlinked (bytes_eq name) s) (ground arith) (
        let e = law.unlink_done s t name u in
        record { entries = λ other. ap (λ d. d.entries other) e; contents = ap (λ d. d.content) e })
    unlinked name (failed enoent) s t s' u h = subst (IsUnlinked (bytes_eq name) s) (ground arith) (
        let (absent, e) = law.unlink_absent s t name u in
        record {
          entries = λ other.
              ap (λ d. d.entries other) e ∙ ground (arith, absent, bytes_eq_sound name other);
          contents = ap (λ d. d.content) e;
        })
    unlinked name (failed _) s t s' u h = absurd (ground arith)

    unlink_known_path-IsUnlinked :
        (name : Bytes) (s s' : P.System)
        → unlink_known_path P name s ≡ (returned tt, s')
        → IsUnlinked (bytes_eq name) s s'
    unfolding unlink_known_path
    unlink_known_path-IsUnlinked name s s' h = unlinked name _ s _ s' refl h

    unlink_all-returned :
        (id : ℕ) (rest : List ℕ) (s s' : P.System)
        → unlink_all P (id ∷ rest) s ≡ (returned tt, s')
        → (t u : P.System) × (unlink_known_path P (temporary_name id) s ≡ (returned tt, t))
          × (unlink_known_path P (final_name id) t ≡ (returned tt, u))
          × (unlink_all P rest u ≡ (returned tt, s'))
    unfolding unlink_all
    unlink_all-returned id rest s s' h =
        let t = (unlink_known_path P (temporary_name id) s).1 in
        (t, (unlink_known_path P (final_name id) t).1, ground arith, ground arith, ground arith)

    unlink_all-IsUnlinked :
        (object_ids : List ℕ) (s s' : P.System)
        → unlink_all P object_ids s ≡ (returned tt, s')
        → IsUnlinked (λ name. is_name_of name object_ids) s s'
    unfolding unlink_all
    unlink_all-IsUnlinked [] s s' h =
        subst (IsUnlinked (λ name. false) s) (ground arith)
          (record { entries = λ name. refl; contents = refl })
    unlink_all-IsUnlinked (id ∷ rest) s s' h =
        let (t, u, first, second, others) = unlink_all-returned id rest s s' h in
        let both =
          IsUnlinked-trans _ _ s t u (unlink_known_path-IsUnlinked (temporary_name id) s t first)
            (unlink_known_path-IsUnlinked (final_name id) t u second) in
        IsUnlinked-trans _ _ s u s' both (unlink_all-IsUnlinked rest u s' others)

    synced :
        (object_ids : List ℕ) (s s' : P.System)
        → sync_after_cleanup P object_ids s ≡ (returned tt, s')
        → (P.disk s' ≡ P.disk s) × ((object_ids ≡ []) ⊎ P.IsDirectorySynced s')
    synced [] s s' h = (ground arith, inl refl)
    synced (id ∷ rest) s s' h =
        let (directory, same, _) = law.fsync_directory_done s s' (ground arith) in
        (same, inr directory)

    cleanup-returned :
        (object_ids : List ℕ) (s s' : P.System)
        → cleanup P object_ids s ≡ (returned tt, s')
        → (t : P.System) × (unlink_all P object_ids s ≡ (returned tt, t))
          × (sync_after_cleanup P object_ids t ≡ (returned tt, s'))
    unfolding cleanup
    cleanup-returned object_ids s s' h = ((unlink_all P object_ids s).1, ground arith, ground arith)

    -- The theorem.
    pub cleanup-IsCleaned :
        (object_ids : List ℕ) (s s' : P.System)
        → cleanup P object_ids s ≡ (returned tt, s')
        → IsCleaned object_ids s s'
    cleanup-IsCleaned object_ids s s' h =
        let (t, removed, finished) = cleanup-returned object_ids s s' h in
        let u = unlink_all-IsUnlinked object_ids s t removed in
        let (same, directory) = synced object_ids t s' finished in
        record {
          entries = λ name. ap (λ d. d.entries name) same ∙ u.entries name;
          contents = ap (λ d. d.content) same ∙ u.contents;
          directory_is_synced = directory;
        }

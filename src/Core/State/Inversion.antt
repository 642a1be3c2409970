-- ===== src/Core/State/Inversion.antt =====
-- A sequence that returns has returned at each step; a commit that returns has written its batch.
use openevent.Common.{
  if◌then◌else◌, ◌≡◌, refl, true, none, some, [], ◌∷◌, Bytes, bytes_eq_refl, arith,
}
use openevent.Status.{Result, ok, fail, Error, rocks_to_status}
use openevent.Platform.{Platform, Lawful}
use openevent.Storage.Rocks.Updates.{
  meta, messages, objects, put, delete, SetsMeta, Batch, Cf, Contents, after,
}
use openevent.Storage.State.{UnifiedStorage, commit}
use openevent.Core.State.{Core, M, ◌>>=◌, commit_batch}

module _ {p : Platform} {A B : Type 0} where
  bind_cases :
      (x : Result A × Core p) (f : A → M p B) {b : B} {c'' : Core p}
      → elim x.0 [ ok a ↦ f a x.1 | fail e ↦ (fail e, x.1) ] ≡ (ok b, c'')
      → (a : A) × (c' : Core p) × (x ≡ (ok a, c')) × (f a c' ≡ (ok b, c''))
  bind_cases (ok a, c') f h = (a, c', refl, h)
  bind_cases (fail e, c') f h = absurd (ground arith)

  pub >>=-ok :
      (m : M p A) (f : A → M p B) (c : Core p) {b : B} {c'' : Core p}
      → (m >>= f) c ≡ (ok b, c'')
      → (a : A) × (c' : Core p) × (m c ≡ (ok a, c')) × (f a c' ≡ (ok b, c''))
  >>=-ok m f c h = bind_cases (m c) f h

-- The contents of the database that a method leaves.
abbrev pub stored : {p : Platform} → Core p → Contents
stored {p} c = p.rocks.contents c.storage.db

-- What a method that only commits leaves alone.
pub record SameSettings {p : Platform} (c c' : Core p) : Type 0 where
  pub max_payload_bytes : c'.max_payload_bytes ≡ c.max_payload_bytes
  pub max_scan_records : c'.max_scan_records ≡ c.max_scan_records
  pub response_soft_limit_bytes : c'.response_soft_limit_bytes ≡ c.response_soft_limit_bytes
  pub files : c'.storage.files ≡ c.storage.files

module _ (p : Platform) where
  commit-ok :
      (s s' : UnifiedStorage p) (batch : Batch)
      → commit p s batch ≡ (ok tt, s')
      → p.rocks.write s.db batch ≡ (none, s'.db)
  unfolding commit
  commit-ok s s' batch h = ground arith

  commit_batch_storage :
      (batch : Batch) (c c' : Core p)
      → commit_batch batch c ≡ (ok tt, c')
      → commit p c.storage batch ≡ (ok tt, c'.storage)
  unfolding commit_batch
  commit_batch_storage batch c c' h = ground arith

  pub commit_batch-stored :
      (batch : Batch) (c c' : Core p)
      → Lawful p
      → commit_batch batch c ≡ (ok tt, c')
      → (cf : Cf) (k : Bytes) → stored c' cf k ≡ after (stored c) batch cf k
  commit_batch-stored batch c c' law h cf k =
      law.rocks.write_applies c.storage.db c'.storage.db batch
        (commit-ok c.storage c'.storage batch (commit_batch_storage batch c c' h)) cf k

  pub put-SetsMeta :
      (law : Lawful p) (key v : Bytes) (c c' : Core p)
      → commit_batch (put meta key v ∷ []) c ≡ (ok tt, c')
      → SetsMeta key (some v) (stored c) (stored c')
  put-SetsMeta law key v c c' done =
      let e = commit_batch-stored _ c c' law done in
      record {
        entry_stored = ground (arith, e meta key, bytes_eq_refl key);
        other_meta = λ k ne. ground (arith, e meta k, ne);
        other_messages = λ k. ground (arith, e messages k);
        other_objects = λ k. ground (arith, e objects k);
      }

  pub delete-SetsMeta :
      (law : Lawful p) (key : Bytes) (c c' : Core p)
      → commit_batch (delete meta key ∷ []) c ≡ (ok tt, c')
      → SetsMeta key none (stored c) (stored c')
  delete-SetsMeta law key c c' done =
      let e = commit_batch-stored _ c c' law done in
      record {
        entry_stored = ground (arith, e meta key, bytes_eq_refl key);
        other_meta = λ k ne. ground (arith, e meta k, ne);
        other_messages = λ k. ground (arith, e messages k);
        other_objects = λ k. ground (arith, e objects k);
      }

  pub commit_batch-SameSettings :
      (batch : Batch) (c : Core p) → SameSettings c (commit_batch batch c).1
  unfolding commit_batch commit
  commit_batch-SameSettings batch c = ground arith

  -- If `CommitBatch` fails, its error requires the server to exit, the flag that makes later
  -- methods refuse is set, the handler has been called with the error unless the flag was set
  -- before, and the commit generation is as it was.
  pub commit_batch-fail :
      (batch : Batch) (c c' : Core p) (e : Error)
      → commit_batch batch c ≡ (fail e, c')
      → (e.requires_server_exit ≡ true)
        × (c'.fatal_error_triggered ≡ true)
        × (c'.handled ≡ (if c.fatal_error_triggered then c.handled else e ∷ c.handled))
        × (c'.commit_generation ≡ c.commit_generation)
  unfolding commit_batch commit rocks_to_status
  commit_batch-fail batch c c' e h = ground arith

-- ===== src/Core/Objects/Written.antt =====
-- `WriteObject` that returns (src/service/open_event_core.cpp).
use openevent.Common.{
  ℕ, ◌≡◌, refl, ap, ◌∙◌, subst, false, Option, none, some, [], ◌∷◌, Bytes, ◌==◌, arith, IsU64, inl,
  inr, if◌then◌else◌, Bool-cases,
}
use openevent.Status.{success, Result, ok, Error, Result-cases, is_storage_fatal}
use openevent.Platform.{Platform, Lawful}
use openevent.Storage.Keys.{numeric_key, preparing_object_prefix, committed_object_prefix}
use openevent.Storage.Keys.Laws.{bytes_eq-numeric_key}
use openevent.Storage.Keys.Distinct.{preparing_ne_committed, committed_ne_preparing}
use openevent.Storage.Reads.{get_preparing_object}
use openevent.Storage.Records.{StoredObject, serialize_object}
use openevent.Storage.Rocks.Updates.{
  Batch, Cf, put, delete, meta, messages, objects, Contents, after,
}
use openevent.Storage.State.{create_snapshot}
use openevent.Storage.Writes.{put_committed_object}
use openevent.Core.Access.{same_object}
use openevent.Core.Objects.{
  WriteObjectRequest, Ending, stored, stop, undo, commit_prepared, commit_object, conclude,
  finish_object, prepare_object, prepared, cleanup_preparing_object, write_object,
  invalid_object_request, write_object_file, cleanup_object_files,
}
use openevent.Core.Objects.Prepared.{Prepares, prepare_object-Prepares}
use openevent.Core.Publish.{authenticate}
use openevent.Core.State.{Core, M, ◌>>=◌, pure, ensure_available, commit_batch, raise_storage}
use openevent.Core.State.Inversion as State
use openevent.Core.State.Inversion.{>>=-ok, commit_batch-stored}

module _ (p : Platform) where
  -- A cleanup never lets the method succeed.
  cleanup_preparing_object-fails :
      (others : Core p → Core p) (id : ℕ) (e : Error) (c c' : Core p)
      → ¬ (cleanup_preparing_object p others id e c ≡ (ok tt, c'))
  unfolding cleanup_preparing_object cleanup_object_files raise_storage
  cleanup_preparing_object-fails others id e c c' h = ground arith

  conclude-ok :
      (others : Core p → Core p) (object : StoredObject) (end : Ending p) (c c' : Core p)
      → conclude p others object (end, c) ≡ (ok tt, c')
      → (end ≡ stored) × (c ≡ c')
  unfolding conclude
  conclude-ok others object stored c c' h = (refl, ap (λ x. x.1) h)
  conclude-ok others object (stop e) c c' h = absurd (ground arith)
  conclude-ok others object (undo e) c c' h = elim (Bool-cases (is_storage_fatal e)) [
    | inl fatal ↦ absurd (ground (arith, fatal))
    | inr mild ↦
        absurd
          (cleanup_preparing_object-fails others object.object_id e c c' (ground (arith, mild)))
  ]

  -- The commit with which an object becomes visible.
  abbrev Commits : StoredObject → Core p → Core p → Type 0
  Commits object c c' =
      (batch : Batch) × (put_committed_object p [] object ≡ ok batch)
      × (commit_batch batch c ≡ (ok tt, c'))

  commit_prepared-ok :
      (object : StoredObject) (found : Option StoredObject) (c c' : Core p)
      → commit_prepared p object found c ≡ (stored, c')
      → Commits object c c'
  unfolding commit_prepared
  commit_prepared-ok object none c c' h = absurd (ground arith)
  commit_prepared-ok object (some f) c c' h = elim (Bool-cases (same_object f object)) [
    | inr differs ↦ absurd (ground (arith, differs))
    | inl same ↦ elim (Result-cases (put_committed_object p [] object)) [
      | inr (e, failed) ↦ absurd (ground (arith, same, failed))
      | inl (batch, is_put) ↦ (batch, is_put, ground (arith, same, is_put))
    ]
  ]

  commit_object-ok :
      (request : WriteObjectRequest) (object : StoredObject) (c c' : Core p)
      → commit_object p request object c ≡ (stored, c')
      → Commits object c c'
  unfolding commit_object
  commit_object-ok request object c c' h = elim (Result-cases (create_snapshot p c.storage.db)) [
    | inr (e, failed) ↦ absurd (ground (arith, failed))
    | inl (s, taken) ↦ elim (Result-cases (authenticate p s request.principal request.token c).0) [
      | inr (e, failed) ↦ absurd (ground (arith, taken, failed))
      | inl (_, known) ↦ elim (Result-cases (get_preparing_object p s object.object_id)) [
        | inr (e, failed) ↦ elim (Bool-cases (is_storage_fatal e)) [
          | inl fatal ↦ absurd (ground (arith, taken, known, failed, fatal))
          | inr mild ↦ absurd (ground (arith, taken, known, failed, mild))
        ]
        | inl (found, read) ↦
            commit_prepared-ok object found c c' (ground (arith, taken, known, read))
      ]
    ]
  ]

  -- The core with the store of files that a call left.
  abbrev pub with_object_files : p.object_files.Files → Core p → Core p
  with_object_files files c = record c { storage = record c.storage { files = files } }

  finish_object-ok :
      (others : Core p → Core p) (request : WriteObjectRequest) (object : StoredObject)
      (c c' : Core p)
      → finish_object p others request object c ≡ (ok tt, c')
      → (files : p.object_files.Files) × (p.object_files.write c.storage.files object.object_id
            request.content
          ≡ (success, files))
        × Commits object (others (with_object_files files c)) c'
  unfolding finish_object write_object_file
  finish_object-ok others request object c c' h =
      let after_write : Core p = (write_object_file p object request.content c).1 in
      elim (Result-cases (write_object_file p object request.content c).0) [
        | inr (e, failed) ↦ elim (Bool-cases (is_storage_fatal e)) [
          | inl fatal ↦ absurd (ground (arith, failed, fatal))
          | inr mild ↦ absurd (
              cleanup_preparing_object-fails others object.object_id e after_write c'
                (ground (arith, failed, mild)))
        ]
        | inl (_, written) ↦
            let ended : Ending p × Core p = commit_object p request object (others after_write) in
            let (is, same) =
              conclude-ok others object ended.0 ended.1 c' (ground (arith, written)) in
            (
              after_write.storage.files,
              λ i. (written i, after_write.storage.files),
              commit_object-ok request object (others after_write) c' (λ i. (is i, same i)),
            )
      ]

  -- What the commit of an object leaves: its entry, and no preparing entry; nothing else is changed.
  pub record Committed (object : StoredObject) (c c' : Contents) : Type 0 where
    pub payload : Bytes
    pub serialized : serialize_object p.object_records object ≡ ok payload
    pub committed_entry :
        (id : ℕ)
        → IsU64 id
        → c' objects (numeric_key committed_object_prefix id) ≡ (
            if object.object_id == id
            then some payload
            else c objects (numeric_key committed_object_prefix id))
    pub preparing_entry :
        (id : ℕ)
        → IsU64 id
        → c' objects (numeric_key preparing_object_prefix id) ≡ (
            if object.object_id == id
            then none
            else c objects (numeric_key preparing_object_prefix id))
    pub meta_entries : (k : Bytes) → c' meta k ≡ c meta k
    pub message_entries : (k : Bytes) → c' messages k ≡ c messages k

  put_committed_object-ok :
      (object : StoredObject) (batch : Batch)
      → put_committed_object p [] object ≡ ok batch
      → (payload : Bytes) × (serialize_object p.object_records object ≡ ok payload)
        × (batch
            ≡ delete objects (numeric_key preparing_object_prefix object.object_id)
              ∷ put objects (numeric_key committed_object_prefix object.object_id) payload
              ∷ [])
  unfolding put_committed_object
  put_committed_object-ok object batch h =
      elim (Result-cases (serialize_object p.object_records object)) [
        | inr (e, failed) ↦ absurd (ground (arith, failed))
        | inl (payload, done) ↦ (payload, done, ground (arith, done))
      ]

  Commits-Committed :
      (law : Lawful p) (object : StoredObject) (c c' : Core p)
      → IsU64 object.object_id
      → Commits object c c'
      → Committed object (State.stored c) (State.stored c')
  Commits-Committed law object c c' small (batch, is_put, done) =
      let (payload, serialized, is) = put_committed_object-ok object batch is_put in
      let e = commit_batch-stored p batch c c' law done in
      let whole : (cf : Cf) (k : Bytes) → _ =
        λ cf k. e cf k ∙ ap (λ b. after (State.stored c) b cf k) is in
      record {
        payload = payload;
        serialized = serialized;
        committed_entry = λ id h. ground (
          arith,
          whole objects (numeric_key committed_object_prefix id),
          preparing_ne_committed object.object_id id,
          bytes_eq-numeric_key committed_object_prefix object.object_id id small h,
        );
        preparing_entry = λ id h. ground (
          arith,
          whole objects (numeric_key preparing_object_prefix id),
          bytes_eq-numeric_key preparing_object_prefix object.object_id id small h,
          committed_ne_preparing object.object_id id,
        );
        meta_entries = λ k. ground (arith, whole meta k);
        message_entries = λ k. ground (arith, whole messages k);
      }

  -- `WriteObject` from the preparation on.
  abbrev with_token : (Core p → Core p) → WriteObjectRequest → Bytes → M p (ℕ × Bytes)
  with_token others request token = prepare_object p request token >>= λ object.
      (finish_object p others request object >>= λ _. pure (object.object_id, object.object_token))

  write_object-with_token :
      (others : Core p → Core p) (request : WriteObjectRequest) (generated : Result Bytes)
      (r : ℕ × Bytes) (c c' : Core p)
      → write_object p others request generated c ≡ (ok r, c')
      → (invalid_object_request request ≡ false)
        × (token : Bytes) × (generated ≡ ok token)
        × (with_token others request token c ≡ (ok r, c'))
  unfolding write_object ensure_available
  write_object-with_token others request generated r c c' h = elim (Result-cases generated) [
    | inr (e, failed) ↦ absurd (ground (arith, failed))
    | inl (token, made) ↦ (ground (arith, made), token, made, ground (arith, made))
  ]

  finished :
      (object : StoredObject) (m : M p (Unit {0})) (id : ℕ) (token : Bytes) (c c' : Core p)
      → ◌>>=◌ {B = ℕ × Bytes} m (λ _. pure (object.object_id, object.object_token)) c
        ≡ (ok (id, token), c')
      → (m c ≡ (ok tt, c')) × (object.object_id ≡ id) × (object.object_token ≡ token)
  finished object m id token c c' h = ground arith

  -- How the object got its files, and what the last commit found and left, `c` being the core that
  -- the preparation left.
  abbrev pub Finishes :
      (Core p → Core p) → WriteObjectRequest → StoredObject → Core p → Core p → Type 0
  Finishes others request object c c' =
      (files : p.object_files.Files) × (p.object_files.write c.storage.files object.object_id
          request.content
        ≡ (success, files))
      × Committed object (State.stored (others (with_object_files files c))) (State.stored c')

  -- A `WriteObject` that returns an id, which fits 64 bits, and a token had a valid request and
  -- returns the generated token, and made two commits. Before the first, the token of the principal
  -- was stored and the id was the stored next object id; it stored the object of the request, under
  -- that id and token, as preparing, and the id's successor modulo 2^64 as the next object id, and
  -- changed no other preparing object whose id fits 64 bits, no committed object, no message, no
  -- other entry of the default column family and no object file. From the state that it left, the
  -- `Write` of the content under the id returned, and other threads did what they did while there
  -- was no lock. In what they left, the second commit stored that object as committed, left nothing
  -- for the id as preparing, and changed no other object whose id fits 64 bits, no message and no
  -- entry of the default column family.
  pub write_object-Committed :
      (law : Lawful p) (others : Core p → Core p) (request : WriteObjectRequest)
      (generated : Result Bytes) (id : ℕ) (token : Bytes) (c c' : Core p)
      → IsU64 id
      → write_object p others request generated c ≡ (ok (id, token), c')
      → (invalid_object_request request ≡ false)
        × (generated ≡ ok token)
        × (c₁ : Core p) × (c₁.storage.files ≡ c.storage.files)
        × Prepares p request (prepared p request token id) (State.stored c) (State.stored c₁)
        × Finishes others request (prepared p request token id) c₁ c'
  unfolding prepared
  write_object-Committed law others request generated id token c c' small h =
      let (valid, t, made, h₁) =
        write_object-with_token others request generated (id, token) c c' h in
      let (object, c₁, e₁, h₂) =
        >>=-ok (prepare_object p request t)
          (λ object. finish_object p others request object >>= λ _.
            pure (object.object_id, object.object_token))
          c h₁ in
      let (done, id_is, token_is) =
        finished object (finish_object p others request object) id token c₁ c' h₂ in
      let fits : IsU64 object.object_id = rw id_is small in
      let (is, same_files, prepares) =
        prepare_object-Prepares p law request t object c c₁ fits e₁ in
      let same_token : t ≡ token = ground (arith, is, token_is) in
      let object_is : object ≡ prepared p request token id =
        is ∙ (λ i. prepared p request (same_token i) (id_is i)) in
      let (files, written, commits) = finish_object-ok others request object c₁ c' done in
      (
        valid,
        made ∙ ap ok same_token,
        c₁,
        same_files,
        subst (λ o. Prepares p request o (State.stored c) (State.stored c₁)) object_is prepares,
        subst (λ o. Finishes others request o c₁ c') object_is
            (
              files,
              written,
              Commits-Committed law object (others (with_object_files files c₁)) c' fits commits,
            ),
      )

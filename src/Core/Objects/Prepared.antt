-- ===== src/Core/Objects/Prepared.antt =====
-- The first block of `WriteObject` under the lock (src/service/open_event_core.cpp): the id, and the
-- entry of the object as preparing.
use openevent.Common.{
  ℕ, ◌+◌, ◌%◌, ◌≡◌, sym, ap, ◌∙◌, false, some, [], ◌∷◌, Bytes, ◌==◌, arith, IsU64, inl, inr,
  if◌then◌else◌, bytes_eq, bytes_eq_refl, u64_mod,
}
use openevent.Status.{ok, Result-cases}
use openevent.Platform.{Platform, Lawful}
use openevent.Storage.Encoding.{encode_uint64}
use openevent.Storage.Keys.{
  numeric_key, preparing_object_prefix, committed_object_prefix, next_object_id_key, token_key,
}
use openevent.Storage.Keys.Laws.{bytes_eq-numeric_key}
use openevent.Storage.Keys.Distinct.{preparing_ne_committed}
use openevent.Storage.Reads.{get_next_object_id}
use openevent.Storage.Reads.Views.{
  Holds, get_next_object_id-Holds, create_snapshot-view, has_token-true,
}
use openevent.Storage.Records.{StoredObject, serialize_object}
use openevent.Storage.Rocks.Updates.{Batch, Cf, put, meta, messages, objects, Contents}
use openevent.Storage.State.{create_snapshot}
use openevent.Storage.Writes.{put_preparing_object, set_next_object_id}
use openevent.Core.Objects.{WriteObjectRequest, prepared, prepare_object}
use openevent.Core.Publish.{authenticate}
use openevent.Core.Publish.Checks.{authenticate-ok}
use openevent.Core.State.{Core, M, lift, pure, ◌>>=◌, ◌>>◌, snapshot_now, commit_batch}
use openevent.Core.State.Inversion.{>>=-ok, stored, commit_batch-stored, commit_batch-SameSettings}

module _ (p : Platform) where
  -- What the preparation of an object found and left: the token of the principal, the next object
  -- id, and the entry of the object as preparing under that id; nothing else is changed.
  pub record Prepares (request : WriteObjectRequest) (object : StoredObject) (c c' : Contents)
      : Type 0 where
    pub token_stored : c meta (token_key request.principal request.token) ≡ some []
    pub id_is_next : Holds (c meta next_object_id_key) object.object_id
    pub next_object_id :
        c' meta next_object_id_key ≡ some (encode_uint64 ((object.object_id + 1) % u64_mod))
    pub payload : Bytes
    pub serialized : serialize_object p.object_records object ≡ ok payload
    pub preparing_entry :
        (id : ℕ)
        → IsU64 id
        → c' objects (numeric_key preparing_object_prefix id) ≡ (
            if object.object_id == id
            then some payload
            else c objects (numeric_key preparing_object_prefix id))
    pub committed_entries :
        (id : ℕ)
        → c' objects (numeric_key committed_object_prefix id)
          ≡ c objects (numeric_key committed_object_prefix id)
    pub meta_entries : (k : Bytes) → bytes_eq next_object_id_key k ≡ false → c' meta k ≡ c meta k
    pub message_entries : (k : Bytes) → c' messages k ≡ c messages k

  -- The updates of a preparation.
  abbrev preparing_updates : StoredObject → Bytes → Batch
  preparing_updates object payload =
      put objects (numeric_key preparing_object_prefix object.object_id) payload
      ∷ put meta next_object_id_key (encode_uint64 ((object.object_id + 1) % u64_mod))
      ∷ []

  put_preparing_object-ok :
      (object : StoredObject) (batch : Batch)
      → put_preparing_object p [] object ≡ ok batch
      → (payload : Bytes) × (serialize_object p.object_records object ≡ ok payload)
        × (batch ≡ put objects (numeric_key preparing_object_prefix object.object_id) payload ∷ [])
  unfolding put_preparing_object
  put_preparing_object-ok object batch h =
      elim (Result-cases (serialize_object p.object_records object)) [
        | inr (e, failed) ↦ absurd (ground (arith, failed))
        | inl (payload, done) ↦ (payload, done, ground (arith, done))
      ]

  committed_as :
      (object made : StoredObject) (batch : Batch) (c c' : Core p)
      → (commit_batch batch >>= λ _. pure made) c ≡ (ok object, c')
      → (object ≡ made) × (commit_batch batch c ≡ (ok tt, c'))
  committed_as object made batch c c' h = ground arith

  -- What follows the authentication.
  abbrev with_id : WriteObjectRequest → Bytes → p.rocks.Snapshot → M p StoredObject
  with_id request token s = lift (get_next_object_id p s) >>= λ id.
      (lift (put_preparing_object p [] (prepared p request token id)) >>= λ batch.
      (lift (set_next_object_id batch ((id + 1) % u64_mod)) >>= λ batch'.
      (commit_batch batch' >> pure (prepared p request token id))))

  with_id-ok :
      (request : WriteObjectRequest) (token : Bytes) (s : p.rocks.Snapshot) (object : StoredObject)
      (c c' : Core p)
      → with_id request token s c ≡ (ok object, c')
      → (object ≡ prepared p request token object.object_id)
        × (get_next_object_id p s ≡ ok object.object_id)
        × (payload : Bytes) × (serialize_object p.object_records object ≡ ok payload)
        × (commit_batch (preparing_updates object payload) c ≡ (ok tt, c'))
  unfolding prepared set_next_object_id
  with_id-ok request token s object c c' h = elim (Result-cases (get_next_object_id p s)) [
    | inr (e, failed) ↦ absurd (ground (arith, failed))
    | inl (id, read) ↦
        let made : StoredObject = prepared p request token id in
        elim (Result-cases (put_preparing_object p [] made)) [
          | inr (e, failed) ↦ absurd (ground (arith, read, failed))
          | inl (batch, is_put) ↦
              let (payload, serialized, is) = put_preparing_object-ok made batch is_put in
              let (object_is, done) =
                committed_as object made (preparing_updates made payload) c c'
                  (ground (arith, read, is_put, is)) in
              (
                object_is ∙ ap (λ o. prepared p request token o.object_id) (sym object_is),
                read ∙ ap (λ (o : StoredObject). ok o.object_id) (sym object_is),
                payload,
                ap (serialize_object p.object_records) object_is ∙ serialized,
                ap (λ (o : StoredObject). commit_batch (preparing_updates o payload) c) object_is
                    ∙ done,
              )
        ]
  ]

  prepare_object-authenticated :
      (request : WriteObjectRequest) (token : Bytes) (object : StoredObject) (c c' : Core p)
      → prepare_object p request token c ≡ (ok object, c')
      → (s : p.rocks.Snapshot) × (create_snapshot p c.storage.db ≡ ok s)
        × ((authenticate p s request.principal request.token >> with_id request token s) c
            ≡ (ok object, c'))
  unfolding prepare_object snapshot_now
  prepare_object-authenticated request token object c c' h =
      elim (Result-cases (create_snapshot p c.storage.db)) [
        | inr (e, failed) ↦ absurd (ground (arith, failed))
        | inl (s, taken) ↦ (s, taken, ground (arith, taken))
      ]

  pub prepare_object-Prepares :
      (law : Lawful p) (request : WriteObjectRequest) (token : Bytes) (object : StoredObject)
      (c c' : Core p)
      → IsU64 object.object_id
      → prepare_object p request token c ≡ (ok object, c')
      → (object ≡ prepared p request token object.object_id)
        × (c'.storage.files ≡ c.storage.files)
        × Prepares request object (stored c) (stored c')
  prepare_object-Prepares law request token object c c' small h =
      let (s, taken, h₁) = prepare_object-authenticated request token object c c' h in
      let (_, c₁, e₁, h₂) =
        >>=-ok (authenticate p s request.principal request.token) (λ _. with_id request token s) c
          h₁ in
      let (same, _, known) = authenticate-ok p s request.principal request.token c c₁ e₁ in
      let (is, read, payload, serialized, done) =
        with_id-ok request token s object c c' (rw same at h₂) in
      let seen : p.rocks.view s ≡ stored c = create_snapshot-view p law c.storage.db s taken in
      let whole : (cf : Cf) (k : Bytes) → _ =
        commit_batch-stored p (preparing_updates object payload) c c' law done in
      let is_entry : (id : ℕ) → _ = λ id. whole objects (numeric_key preparing_object_prefix id) in
      (
        is,
        ap (λ r. r.1.storage.files) (sym done)
            ∙ (commit_batch-SameSettings p (preparing_updates object payload) c).files,
        record {
          token_stored = rw seen at (has_token-true p law s request.principal request.token known);
          id_is_next = rw seen at (get_next_object_id-Holds p law s object.object_id read);
          next_object_id =
              ground (arith, whole meta next_object_id_key, bytes_eq_refl next_object_id_key);
          payload = payload;
          serialized = serialized;
          preparing_entry = λ id u. ground (
            arith,
            is_entry id,
            bytes_eq-numeric_key preparing_object_prefix object.object_id id small u,
          );
          committed_entries = λ id. ground (
            arith,
            whole objects (numeric_key committed_object_prefix id),
            preparing_ne_committed object.object_id id,
          );
          meta_entries = λ k ne. ground (arith, whole meta k, ne);
          message_entries = λ k. ground (arith, whole messages k);
        },
      )

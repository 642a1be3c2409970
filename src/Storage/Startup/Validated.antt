-- ===== src/Storage/Startup/Validated.antt =====
-- What a database that `Validate` accepts holds.
use openevent.Common.{ℕ, ◌≡◌, ◌≢◌, refl, true, some, Bytes, arith, inl, inr, Option-cases}
use openevent.Status.{ok, Result-cases}
use openevent.Proto.{EventMessage}
use openevent.Platform.{Platform, Lawful}
use openevent.Storage.Keys.{
  numeric_key, schema_version_key, max_seq_key, next_uuid_key, next_channel_id_key,
  next_object_id_key, message_prefix,
}
use openevent.Storage.Reads.{
  get_required_uint64, get_max_seq, get_next_uuid, get_next_channel_id, get_next_object_id,
}
use openevent.Storage.Reads.Views.{
  Holds, create_snapshot-view, get_required_uint64-Holds, get_max_seq-Holds, get_next_uuid-Holds,
  get_next_channel_id-Holds, get_next_object_id-Holds,
}
use openevent.Storage.Rocks.{Lookup, found, absent, broken}
use openevent.Storage.Rocks.Updates.{meta, messages, Contents}
use openevent.Storage.Startup.{check_schema, check_counters, check_initialization_message, validate}
use openevent.Storage.State.{create_snapshot}
use openevent.Storage.SystemMessages.{valid_initialization_message}

module _ (p : Platform) where
  -- The schema is the sixth, the counters are stored and those of ids are not zero, and the message
  -- with the number 0 is an initialization message.
  pub record IsValid (c : Contents) : Type 0 where
    pub schema : Holds (c meta schema_version_key) 6
    pub max_seq : ℕ
    pub max_seq_stored : Holds (c meta max_seq_key) max_seq
    pub next_uuid : ℕ
    pub next_uuid_stored : Holds (c meta next_uuid_key) next_uuid
    pub next_uuid_nonzero : next_uuid ≢ 0
    pub next_channel_id : ℕ
    pub next_channel_id_stored : Holds (c meta next_channel_id_key) next_channel_id
    pub next_channel_id_nonzero : next_channel_id ≢ 0
    pub next_object_id : ℕ
    pub next_object_id_stored : Holds (c meta next_object_id_key) next_object_id
    pub next_object_id_nonzero : next_object_id ≢ 0
    pub initialization : EventMessage
    pub initialization_bytes : Bytes
    pub initialization_stored :
        c messages (numeric_key message_prefix 0) ≡ some initialization_bytes
    pub initialization_parses : p.event_messages.parse initialization_bytes ≡ some initialization
    pub initialization_valid : valid_initialization_message p.json initialization ≡ true

  validate-ok :
      (d : p.rocks.Db)
      → validate p d ≡ ok tt
      → (s : p.rocks.Snapshot) × (create_snapshot p d ≡ ok s)
        × (check_schema p s ≡ ok tt)
        × (check_counters p s ≡ ok tt)
        × (check_initialization_message p s ≡ ok tt)
  unfolding validate
  validate-ok d h = elim (Result-cases (create_snapshot p d)) [
    | inr (e, failed) ↦ absurd (ground (arith, failed))
    | inl (s, taken) ↦
        (s, taken, ground (arith, taken), ground (arith, taken), ground (arith, taken))
  ]

  check_schema-ok :
      (s : p.rocks.Snapshot)
      → check_schema p s ≡ ok tt
      → get_required_uint64 p s schema_version_key "meta:schema_version" ≡ ok 6
  unfolding check_schema
  check_schema-ok s h = ground arith

  check_counters-ok :
      (s : p.rocks.Snapshot)
      → check_counters p s ≡ ok tt
      → (m : ℕ) × (get_max_seq p s ≡ ok m)
        × (u : ℕ) × (get_next_uuid p s ≡ ok u)
        × (u ≢ 0)
        × (i : ℕ) × (get_next_channel_id p s ≡ ok i)
        × (i ≢ 0)
        × (o : ℕ) × (get_next_object_id p s ≡ ok o)
        × (o ≢ 0)
  unfolding check_counters
  check_counters-ok s h = elim (Result-cases (get_max_seq p s)) [
    | inr (e, f) ↦ absurd (ground (arith, f))
    | inl (m, em) ↦ elim (Result-cases (get_next_uuid p s)) [
      | inr (e, f) ↦ absurd (ground (arith, em, f))
      | inl (u, eu) ↦ elim (Result-cases (get_next_channel_id p s)) [
        | inr (e, f) ↦ absurd (ground (arith, em, eu, f))
        | inl (i, ei) ↦ elim (Result-cases (get_next_object_id p s)) [
          | inr (e, f) ↦ absurd (ground (arith, em, eu, ei, f))
          | inl (o, eo) ↦ (
            m,
            em,
            u,
            eu,
            ground (arith, em, eu, ei, eo),
            i,
            ei,
            ground (arith, em, eu, ei, eo),
            o,
            eo,
            ground (arith, em, eu, ei, eo),
          )
        ]
      ]
    ]
  ]

  module _ (law : Lawful p) where
    check_initialization_message-ok :
        (s : p.rocks.Snapshot)
        → check_initialization_message p s ≡ ok tt
        → (b : Bytes) × (p.rocks.view s messages (numeric_key message_prefix 0) ≡ some b)
          × (m : EventMessage) × (p.event_messages.parse b ≡ some m)
          × (valid_initialization_message p.json m ≡ true)
    unfolding check_initialization_message
    check_initialization_message-ok s h =
        go (p.rocks.get s messages (numeric_key message_prefix 0)) refl
      where
        go :
            (l : Lookup)
            → p.rocks.get s messages (numeric_key message_prefix 0) ≡ l
            → (b : Bytes) × (p.rocks.view s messages (numeric_key message_prefix 0) ≡ some b)
              × (m : EventMessage) × (p.event_messages.parse b ≡ some m)
              × (valid_initialization_message p.json m ≡ true)
        go (found b) e = elim (Option-cases (p.event_messages.parse b)) [
          | inl failed ↦ absurd (ground (arith, e, failed))
          | inr (m, parses) ↦ (
            b,
            law.rocks.get_found s messages (numeric_key message_prefix 0) b e,
            m,
            parses,
            ground (arith, e, parses),
          )
        ]
        go absent e = absurd (ground (arith, e))
        go (broken b) e = absurd (ground (arith, e))

    -- A database that `Validate` accepts holds schema version 6, the maximum, the next uuid,
    -- channel id and object id as numbers of which the last three are not zero, and under the
    -- number 0 a message that is a valid initialization message.
    pub validate-IsValid : (d : p.rocks.Db) → validate p d ≡ ok tt → IsValid (p.rocks.contents d)
    validate-IsValid d h =
        let (s, taken, h₁, h₂, h₃) = validate-ok d h in
        let (m, em, u, eu, u_nonzero, i, ei, i_nonzero, o, eo, o_nonzero) =
          check_counters-ok s h₂ in
        let (b, stored, x, parses, valid) = check_initialization_message-ok s h₃ in
        let seen : p.rocks.view s ≡ p.rocks.contents d = create_snapshot-view p law d s taken in
        record {
          schema =
              rw seen at
                (get_required_uint64-Holds p law s schema_version_key _ 6 (check_schema-ok s h₁));
          max_seq = m;
          max_seq_stored = rw seen at (get_max_seq-Holds p law s m em);
          next_uuid = u;
          next_uuid_stored = rw seen at (get_next_uuid-Holds p law s u eu);
          next_uuid_nonzero = u_nonzero;
          next_channel_id = i;
          next_channel_id_stored = rw seen at (get_next_channel_id-Holds p law s i ei);
          next_channel_id_nonzero = i_nonzero;
          next_object_id = o;
          next_object_id_stored = rw seen at (get_next_object_id-Holds p law s o eo);
          next_object_id_nonzero = o_nonzero;
          initialization = x;
          initialization_bytes = b;
          initialization_stored = rw seen at stored;
          initialization_parses = parses;
          initialization_valid = valid;
        }

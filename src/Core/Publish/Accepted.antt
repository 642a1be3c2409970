-- ===== src/Core/Publish/Accepted.antt =====
-- What a publish accepts, a scan accepts: the checks that `ScanMessages` makes of a stored message
-- (src/storage/unified_storage.cpp) follow from those of the publish.
use openevent.Common.{
  ℕ, subst, ◌⊎◌, inl, inr, ◌≡◌, ◌≢◌, refl, true, false, some, List, [], ◌∷◌, Bytes, bytes_eq_refl,
  ◌∙◌, Option, any, All, length, leb, arith,
}
use openevent.Status.{ok}
use openevent.Proto.{ObjectKey, EventMessage}
use openevent.Platform.{Platform, Lawful}
use openevent.Storage.Reads.{get_object, get_committed_object}
use openevent.Storage.Records.{
  StoredObject, is_base64_url_token, is_valid_record, parse_object, max_object_keys,
}
use openevent.Storage.Scan.{check_message, read_message, is_bad_key}
use openevent.Storage.Keys.{numeric_key, message_prefix}
use openevent.Storage.Rocks.Updates.{Contents, messages, after}
use openevent.Core.Access.{validate_object_keys_shape}
use openevent.Core.State.{Core, ServerContext}
use openevent.Core.State.Inversion.{stored}
use openevent.Core.Publish.{PublishRequest, message_of, publish, publish_auto_seq}
use openevent.Core.Publish.Capabilities.{IsCapability}
use openevent.Core.Publish.Effects.{
  Accepted, updates_of, publish-Accepted, publish_auto_seq-Accepted,
}

module _ (p : Platform) where
  get_committed_object-token :
      (s : p.rocks.Snapshot) (id : ℕ) (o : StoredObject)
      → get_committed_object p s id ≡ ok (some o)
      → (id ≢ 0) × (is_base64_url_token o.object_token ≡ true)
  unfolding get_committed_object get_object parse_object is_valid_record
  get_committed_object-token s id o h = ground arith

  no_bad_key :
      (s : p.rocks.Snapshot) (keys : List ObjectKey)
      → All (IsCapability p s) keys
      → any is_bad_key keys ≡ false
  no_bad_key s [] h = refl
  no_bad_key s (k ∷ ks) ((o, loaded, same), rest) =
      ground (arith, get_committed_object-token s k.object_id o loaded, same, no_bad_key s ks rest)

  at_most_max_object_keys :
      (keys : List ObjectKey)
      → validate_object_keys_shape keys ≡ ok tt
      → leb (length keys) max_object_keys ≡ true
  unfolding validate_object_keys_shape
  at_most_max_object_keys keys h = ground arith

  check_message-Accepted :
      (request : PublishRequest) (seq ts_ms : ℕ) (c c' : Core p)
      → Accepted p request seq ts_ms c c'
      → check_message p (message_of p request seq ts_ms) ≡ ok (message_of p request seq ts_ms)
  unfolding check_message
  check_message-Accepted request seq ts_ms c c' a = ground (
    arith,
    a.built.seq_nonzero,
    a.checked.uuid_nonzero,
    a.checked.principal_nonzero,
    a.checked.no_zero_recipient,
    a.built.target.0,
    no_bad_key a.snapshot request.object_keys a.built.keys_are_capabilities,
    at_most_max_object_keys request.object_keys a.checked.well_shaped,
  )

  -- Under the key of a message stands a value that a scan reads as that message.
  abbrev pub IsReadable : EventMessage → Contents → Type 0
  IsReadable m c =
      (value : Bytes) × (c messages (numeric_key message_prefix m.seq) ≡ some value)
      × (read_message p value m.seq ≡ ok m)

  read_message-parses :
      (value : Bytes) (m : EventMessage)
      → p.event_messages.parse value ≡ some m
      → check_message p m ≡ ok m
      → read_message p value m.seq ≡ ok m
  unfolding read_message
  read_message-parses value m parses passes = ground (arith, parses, passes)

  updates_of-message :
      (m : EventMessage) (value : Bytes) (c : Contents)
      → after c (updates_of m value) messages (numeric_key message_prefix m.seq) ≡ some value
  updates_of-message m value c = ground (arith, bytes_eq_refl (numeric_key message_prefix m.seq))

  Accepted-IsReadable :
      (law : Lawful p) (request : PublishRequest) (seq ts_ms : ℕ) (c c' : Core p)
      → Accepted p request seq ts_ms c c'
      → IsReadable (message_of p request seq ts_ms) (stored c')
  Accepted-IsReadable law request seq ts_ms c c' a =
      let m : EventMessage = message_of p request seq ts_ms in
      (
        a.built.payload,
        a.contents messages (numeric_key message_prefix seq)
            ∙ updates_of-message m a.built.payload (stored c),
        read_message-parses a.built.payload m
            (law.event_messages m a.built.payload a.built.serialized)
            (check_message-Accepted request seq ts_ms c c' a),
      )

  -- Once `Publish`, or `PublishAutoSeq` with a number, has returned, a value is stored under the
  -- key of the number of the message, and `ScanMessages` reads from it the message of the request
  -- under that number: it parses, has its number, and passes the checks of fields and of object
  -- keys.
  pub publishing-IsReadable :
      (law : Lawful p) (request : PublishRequest) (ts_ms : ℕ) (x y : Option ServerContext) (seq : ℕ)
      (c c' : Core p)
      → ((request.seq ≡ seq) × (publish p request ts_ms x y c ≡ (ok tt, c')))
        ⊎ (publish_auto_seq p request ts_ms x y c ≡ (ok seq, c'))
      → IsReadable (message_of p request seq ts_ms) (stored c')
  publishing-IsReadable law request ts_ms x y seq c c' (inl (is, h)) =
      subst (λ n. IsReadable (message_of p request n ts_ms) (stored c')) is
        (Accepted-IsReadable law request request.seq ts_ms c c'
          (publish-Accepted p law request ts_ms y x c c' h))
  publishing-IsReadable law request ts_ms x y seq c c' (inr h) =
      Accepted-IsReadable law request seq ts_ms c c'
        (publish_auto_seq-Accepted p law request ts_ms y x seq c c' h)

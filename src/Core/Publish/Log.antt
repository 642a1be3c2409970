-- ===== src/Core/Publish/Log.antt =====
-- The log that the contents hold, and a publish as an extension of it.
use openevent.Common.{
  ℕ, ◌+◌, ◌%◌, ◌<◌, ◌≡◌, ◌≢◌, false, Option, none, some, Bytes, ◌==◌, arith, u64_mod, IsU64,
  if◌then◌else◌, bytes_eq, bytes_eq_refl,
}
use openevent.Status.{ok, value}
use openevent.Proto.{EventMessage}
use openevent.Platform.{Platform, Lawful}
use openevent.Storage.Encoding.{encode_uint64}
use openevent.Storage.Keys.{numeric_key, max_seq_key, next_uuid_key, uuid_prefix, message_prefix}
use openevent.Storage.Keys.Laws.{bytes_eq-numeric_key}
use openevent.Storage.Keys.Distinct.{uuid_ne_max_seq, max_seq_ne_uuid}
use openevent.Storage.Reads.{get_next_uuid}
use openevent.Storage.Reads.Views.{
  Holds, create_snapshot-view, get_max_seq-Holds, get_next_uuid-Holds, get_used_uuid_seq-none,
}
use openevent.Storage.Rocks.Updates.{Cf, meta, messages, objects, Contents, after}
use openevent.Core.State.{Core, ServerContext}
use openevent.Core.State.Inversion.{stored}
use openevent.Core.Publish.{PublishRequest, message_of, publish, publish_auto_seq}
use openevent.Core.Publish.Effects.{
  Accepted, updates_of, publish-Accepted, publish_auto_seq-Accepted,
}

module _ (p : Platform) where
  abbrev parsed : Option Bytes → Option EventMessage
  parsed none = none
  parsed (some b) = p.event_messages.parse b

  -- The message that is stored under a sequence number.
  abbrev pub message_at : Contents → ℕ → Option EventMessage
  message_at c seq = parsed (c messages (numeric_key message_prefix seq))

  -- The sequence number that is stored for a uuid, as bytes.
  abbrev pub uuid_at : Contents → ℕ → Option Bytes
  uuid_at c uuid = c meta (numeric_key uuid_prefix uuid)

  -- `c'` is `c` with the message `m` appended: the message under its number, its uuid as used, the
  -- number as the maximum, and nothing else changed.
  pub record Appends (m : EventMessage) (c c' : Contents) : Type 0 where
    pub message :
        (n : ℕ) → IsU64 n → message_at c' n ≡ (if m.seq == n then some m else message_at c n)
    pub uuid :
        (u : ℕ)
        → IsU64 u
        → uuid_at c' u ≡ (if m.uuid == u then some (encode_uint64 m.seq) else uuid_at c u)
    pub max_seq : c' meta max_seq_key ≡ some (encode_uint64 m.seq)
    pub other_meta :
        (k : Bytes)
        → bytes_eq (numeric_key uuid_prefix m.uuid) k ≡ false
        → bytes_eq max_seq_key k ≡ false
        → c' meta k ≡ c meta k
    pub other_objects : (k : Bytes) → c' objects k ≡ c objects k

  module _ (law : Lawful p) (m : EventMessage) (payload : Bytes) where
    module _ (c c' : Contents) (s : p.event_messages.serialize m ≡ some payload) (hs : IsU64 m.seq)
        (hu : IsU64 m.uuid)
        (e : (cf : Cf) (k : Bytes) → c' cf k ≡ after c (updates_of m payload) cf k) where
      updates_of-Appends : Appends m c c'
      updates_of-Appends = record {
        message = λ n hn. rw e (
            ground (
              arith,
              bytes_eq-numeric_key message_prefix m.seq n hs hn,
              law.event_messages m payload s,
            ));
        uuid = λ u h.
            rw e
              (ground (arith, bytes_eq-numeric_key uuid_prefix m.uuid u hu h, max_seq_ne_uuid u));
        max_seq = rw e (ground (arith, uuid_ne_max_seq m.uuid, bytes_eq_refl max_seq_key));
        other_meta = λ k h₁ h₂. rw e (ground arith);
        other_objects = λ k. rw e (ground arith);
      }

  -- What an accepted publish found and left.
  pub record Extends (request : PublishRequest) (seq ts_ms : ℕ) (c c' : Contents) : Type 0 where
    pub max_seq : ℕ
    pub max_seq_stored : Holds (c meta max_seq_key) max_seq
    pub next_seq : seq ≡ (max_seq + 1) % u64_mod
    pub seq_nonzero : seq ≢ 0
    pub next_uuid : ℕ
    pub next_uuid_stored : Holds (c meta next_uuid_key) next_uuid
    pub uuid_allocated : request.uuid < next_uuid
    pub uuid_unused : uuid_at c request.uuid ≡ none
    pub appends : Appends (message_of p request seq ts_ms) c c'

  module _ (law : Lawful p) (request : PublishRequest) (ts_ms : ℕ) where
    Accepted-Extends :
        (seq : ℕ) (c c' : Core p)
        → IsU64 request.uuid
        → Accepted p request seq ts_ms c c'
        → Extends request seq ts_ms (stored c) (stored c')
    Accepted-Extends seq c c' hu a =
        let seen : p.rocks.view a.snapshot ≡ stored c =
          create_snapshot-view p law c.storage.db a.snapshot a.checked.current in
        record {
          max_seq = a.max_seq;
          max_seq_stored =
              rw seen at (get_max_seq-Holds p law a.snapshot a.max_seq a.checked.max_seq_stored);
          next_seq = a.next_seq;
          seq_nonzero = a.built.seq_nonzero;
          next_uuid = value (get_next_uuid p a.snapshot);
          next_uuid_stored =
              rw seen at (get_next_uuid-Holds p law a.snapshot _ a.checked.next_uuid_stored);
          uuid_allocated = a.checked.uuid_allocated;
          uuid_unused =
              rw seen at
                (get_used_uuid_seq-none p law a.snapshot request.uuid a.checked.uuid_unused);
          appends =
              updates_of-Appends law (message_of p request seq ts_ms) a.built.payload (stored c)
                (stored c') a.built.serialized (rw a.next_seq (omega arith)) hu a.contents;
        }

    -- A `Publish` that returns, of a request whose uuid fits 64 bits, has stored exactly the
    -- message of the request under the request's number, which is not zero and is one above the
    -- stored maximum, modulo 2^64; has marked its uuid, which was below the stored next uuid and
    -- had no entry, as used by that number; has made the number the stored maximum; and has left
    -- every other entry as it was.
    pub publish-Extends :
        (x y : Option ServerContext) (c c' : Core p)
        → IsU64 request.uuid
        → publish p request ts_ms x y c ≡ (ok tt, c')
        → Extends request request.seq ts_ms (stored c) (stored c')
    publish-Extends x y c c' hu h =
        Accepted-Extends request.seq c c' hu (publish-Accepted p law request ts_ms y x c c' h)

    -- A `PublishAutoSeq` that returns a number, of a request whose uuid fits 64 bits, has stored
    -- exactly the message of the request under that number, which is not zero and is one above the
    -- stored maximum, modulo 2^64, with the same effect on uuids, maximum and other entries as
    -- `Publish`.
    pub publish_auto_seq-Extends :
        (x y : Option ServerContext) (seq : ℕ) (c c' : Core p)
        → IsU64 request.uuid
        → publish_auto_seq p request ts_ms x y c ≡ (ok seq, c')
        → Extends request seq ts_ms (stored c) (stored c')
    publish_auto_seq-Extends x y seq c c' hu h =
        Accepted-Extends seq c c' hu (publish_auto_seq-Accepted p law request ts_ms y x seq c c' h)

-- ===== src/Examples/Codecs.antt =====
-- Serialisation for the examples: the numbers of a message in order, each list behind its length.
use openevent.Common.{
  ℕ, zero, suc, ◌≡◌, refl, Option, none, some, List, [], ◌∷◌, ◌++◌, Bytes, length, arith,
}
use openevent.Proto.{
  EventMessage, ChannelInfo, ObjectKey, Visibility, visibility_public, visibility_protected,
  visibility_private, visibility_other, Codec, Inverts,
}
use openevent.Storage.Records.{ObjectRecord}

abbrev block : Bytes → Bytes → Bytes
block xs rest = length xs ∷ (xs ++ rest)

-- The first `n` numbers, and the rest.
abbrev split : ℕ → Bytes → Option (Bytes × Bytes)
split zero xs = some ([], xs)
split (suc n) [] = none
split (suc n) (x ∷ xs) = elim (split n xs) [ none ↦ none | some r ↦ some (x ∷ r.0, r.1) ]

abbrev unblock : Bytes → Option (Bytes × Bytes)
unblock [] = none
unblock (n ∷ xs) = split n xs

split-append : (xs rest : Bytes) → split (length xs) (xs ++ rest) ≡ some (xs, rest)
split-append [] rest = refl
split-append (x ∷ xs) rest = rw (split-append xs rest) refl

abbrev write_keys : List ObjectKey → Bytes
write_keys [] = []
write_keys (k ∷ ks) = k.object_id ∷ block k.object_token (write_keys ks)

abbrev key_in_front :
    ℕ → Option (Bytes × Bytes) → (Bytes → Option (List ObjectKey)) → Option (List ObjectKey)
key_in_front id none f = none
key_in_front id (some r) f = elim (f r.1) [
  | none ↦ none
  | some ks ↦ some (record { object_id = id; object_token = r.0 } ∷ ks)
]

abbrev read_keys : ℕ → Bytes → Option (List ObjectKey)
read_keys zero xs = some []
read_keys (suc n) [] = none
read_keys (suc n) (id ∷ xs) = key_in_front id (unblock xs) (read_keys n)

read_keys-write_keys : (ks : List ObjectKey) → read_keys (length ks) (write_keys ks) ≡ some ks
read_keys-write_keys [] = refl
read_keys-write_keys (k ∷ ks) =
    rw (split-append k.object_token (write_keys ks), read_keys-write_keys ks) refl

abbrev pub encode_message : EventMessage → Bytes
encode_message m =
    m.seq
    ∷ m.channel_id
    ∷ m.principal
    ∷ m.ts_ms
    ∷ m.uuid
    ∷ block m.recipients (block m.payload (length m.object_keys ∷ write_keys m.object_keys))

abbrev with_keys : (List ObjectKey → EventMessage) → Bytes → Option EventMessage
with_keys f [] = none
with_keys f (n ∷ xs) = elim (read_keys n xs) [ none ↦ none | some ks ↦ some (f ks) ]

abbrev decode_message : Bytes → Option EventMessage
decode_message (seq ∷ channel_id ∷ principal ∷ ts_ms ∷ uuid ∷ xs) = elim (unblock xs) [
  | none ↦ none
  | some r ↦ elim (unblock r.1) [
    | none ↦ none
    | some q ↦
        with_keys
          (λ ks. record {
            seq = seq;
            channel_id = channel_id;
            principal = principal;
            recipients = r.0;
            payload = q.0;
            ts_ms = ts_ms;
            uuid = uuid;
            object_keys = ks;
          })
          q.1
  ]
]
decode_message _ = none

decode_message-encode_message : (m : EventMessage) → decode_message (encode_message m) ≡ some m
decode_message-encode_message m = ground (
  arith,
  split-append m.recipients (block m.payload (length m.object_keys ∷ write_keys m.object_keys)),
  split-append m.payload (length m.object_keys ∷ write_keys m.object_keys),
  read_keys-write_keys m.object_keys,
)

abbrev pub event_message_codec : Codec EventMessage
event_message_codec = record { serialize = λ m. some (encode_message m); parse = decode_message }

pub event_message_codec-Inverts : Inverts event_message_codec
event_message_codec-Inverts m b h = ground (arith, decode_message-encode_message m)

abbrev visibility_number : Visibility → ℕ
visibility_number visibility_public = 0
visibility_number visibility_protected = 1
visibility_number visibility_private = 2
visibility_number (visibility_other n) = suc (suc (suc n))

abbrev visibility_of : ℕ → Visibility
visibility_of zero = visibility_public
visibility_of (suc zero) = visibility_protected
visibility_of (suc (suc zero)) = visibility_private
visibility_of (suc (suc (suc n))) = visibility_other n

visibility_of-visibility_number : (v : Visibility) → visibility_of (visibility_number v) ≡ v
visibility_of-visibility_number visibility_public = refl
visibility_of-visibility_number visibility_protected = refl
visibility_of-visibility_number visibility_private = refl
visibility_of-visibility_number (visibility_other n) = refl

abbrev creator_numbers : Option ℕ → ℕ × ℕ
creator_numbers none = (0, 0)
creator_numbers (some c) = (1, c)

abbrev creator_of : ℕ → ℕ → Option ℕ
creator_of zero c = none
creator_of (suc n) c = some c

abbrev pub write_channel : ChannelInfo → Bytes
write_channel i =
    i.channel_id
    ∷ visibility_number i.visibility
    ∷ (creator_numbers i.creator).0
    ∷ (creator_numbers i.creator).1
    ∷ block i.name (block i.protocol (block i.description i.members))

abbrev read_channel : Bytes → Option ChannelInfo
read_channel (id ∷ v ∷ has ∷ c ∷ xs) = elim (unblock xs) [
  | none ↦ none
  | some r ↦ elim (unblock r.1) [
    | none ↦ none
    | some q ↦ elim (unblock q.1) [
      | none ↦ none
      | some t ↦ some (record {
        channel_id = id;
        name = r.0;
        visibility = visibility_of v;
        protocol = q.0;
        description = t.0;
        creator = creator_of has c;
        members = t.1;
      })
    ]
  ]
]
read_channel _ = none

creator_of-creator_numbers :
    (c : Option ℕ) → creator_of (creator_numbers c).0 (creator_numbers c).1 ≡ c
creator_of-creator_numbers none = refl
creator_of-creator_numbers (some c) = refl

read_channel-write_channel : (i : ChannelInfo) → read_channel (write_channel i) ≡ some i
read_channel-write_channel i = ground (
  arith,
  split-append i.name (block i.protocol (block i.description i.members)),
  split-append i.protocol (block i.description i.members),
  split-append i.description i.members,
  visibility_of-visibility_number i.visibility,
  creator_of-creator_numbers i.creator,
)

abbrev pub channel_info_codec : Codec ChannelInfo
channel_info_codec = record { serialize = λ i. some (write_channel i); parse = read_channel }

pub channel_info_codec-Inverts : Inverts channel_info_codec
channel_info_codec-Inverts i b h = ground (arith, read_channel-write_channel i)

abbrev pub write_record : ObjectRecord → Bytes
write_record r =
    r.object_id
    ∷ r.creator_principal
    ∷ r.nbytes
    ∷ block r.object_token (block r.name (block r.type r.description))

abbrev read_record : Bytes → Option ObjectRecord
read_record (id ∷ creator ∷ nbytes ∷ xs) = elim (unblock xs) [
  | none ↦ none
  | some r ↦ elim (unblock r.1) [
    | none ↦ none
    | some q ↦ elim (unblock q.1) [
      | none ↦ none
      | some t ↦ some (record {
        object_id = id;
        object_token = r.0;
        creator_principal = creator;
        name = q.0;
        type = t.0;
        description = t.1;
        nbytes = nbytes;
      })
    ]
  ]
]
read_record _ = none

read_record-write_record : (r : ObjectRecord) → read_record (write_record r) ≡ some r
read_record-write_record r = ground (
  arith,
  split-append r.object_token (block r.name (block r.type r.description)),
  split-append r.name (block r.type r.description),
  split-append r.type r.description,
)

abbrev pub object_record_codec : Codec ObjectRecord
object_record_codec = record { serialize = λ r. some (write_record r); parse = read_record }

pub object_record_codec-Inverts : Inverts object_record_codec
object_record_codec-Inverts r b h = ground (arith, read_record-write_record r)

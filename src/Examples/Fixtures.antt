-- ===== src/Examples/Fixtures.antt =====
-- A server in memory with two users, one channel, one object and one message, for the examples.
use openevent.Common.{ℕ, false, none, some, [], ◌∷◌, ◌++◌, Bytes, codes}
use openevent.Proto.{visibility_public, ChannelInfo, EventMessage}
use openevent.Storage.Keys.{
  schema_version_key, max_seq_key, next_uuid_key, next_channel_id_key, next_object_id_key,
  token_prefix, channel_prefix, uuid_prefix, message_prefix, committed_object_prefix,
}
use openevent.Storage.Records.{ObjectRecord}
use openevent.Storage.Rocks.Updates.{Batch, put, meta, messages, objects}
use openevent.Core.State.{Core}
use openevent.Core.Publish.{PublishRequest}
use openevent.Examples.Codecs.{encode_message, write_channel, write_record}
use openevent.Examples.Memory.{memory}

abbrev pub number : ℕ → Bytes
number n = 0 ∷ 0 ∷ 0 ∷ 0 ∷ 0 ∷ 0 ∷ 0 ∷ n ∷ []

abbrev pub news : ChannelInfo
news = record {
  channel_id = 1;
  name = codes "news";
  visibility = visibility_public;
  protocol = [];
  description = [];
  creator = some 1;
  members = 1 ∷ 2 ∷ [];
}

abbrev pub initialization : EventMessage
initialization = record {
  seq = 0;
  channel_id = 0;
  principal = 0;
  recipients = [];
  payload = codes "{\"kind\":\"system.initialization\",\"data\":{\"schema_version\":1}}";
  ts_ms = 7;
  uuid = 0;
  object_keys = [];
}

abbrev pub greeting : EventMessage
greeting = record {
  seq = 1;
  channel_id = 1;
  principal = 1;
  recipients = 2 ∷ [];
  payload = codes "hello";
  ts_ms = 8;
  uuid = 1;
  object_keys = [];
}

abbrev pub object_token : Bytes
object_token = codes "AAAAAAAAAAAAAAAAAAAAAAAAAAAAAAAAAAAAAAAAAAA"

abbrev pub attachment : ObjectRecord
attachment = record {
  object_id = 1;
  object_token = object_token;
  creator_principal = 1;
  name = codes "a.txt";
  type = codes "text/plain";
  description = [];
  nbytes = 3;
}

abbrev pub database : Batch
database =
    put meta schema_version_key (number 6)
    ∷ put meta max_seq_key (number 1)
    ∷ put meta next_uuid_key (number 5)
    ∷ put meta next_channel_id_key (number 2)
    ∷ put meta next_object_id_key (number 2)
    ∷ put meta (uuid_prefix ++ number 0) (number 0)
    ∷ put meta (uuid_prefix ++ number 1) (number 1)
    ∷ put meta (token_prefix ++ (number 1 ++ codes "tok")) []
    ∷ put meta (token_prefix ++ (number 2 ++ codes "key")) []
    ∷ put meta (channel_prefix ++ number 1) (write_channel news)
    ∷ put messages (message_prefix ++ number 0) (encode_message initialization)
    ∷ put messages (message_prefix ++ number 1) (encode_message greeting)
    ∷ put objects (committed_object_prefix ++ number 1) (write_record attachment)
    ∷ []

abbrev pub server : Core memory
server = record {
  storage = record { db = database; fault_injector = none; files = (1, 1 ∷ 2 ∷ 3 ∷ []) ∷ [] };
  max_payload_bytes = 64;
  max_scan_records = 100;
  response_soft_limit_bytes = 1000;
  commit_generation = 0;
  fatal_error_triggered = false;
  handled = [];
}

-- A message with an object, from a member of the channel to another.
abbrev pub request : PublishRequest
request = record {
  principal = 2;
  token = codes "key";
  channel_id = 1;
  seq = 2;
  uuid = 3;
  recipients = 1 ∷ [];
  payload = codes "hi";
  object_keys = record { object_id = 1; object_token = object_token } ∷ [];
}

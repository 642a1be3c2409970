-- ===== src/Examples/Logs.antt =====
-- The theorems on the log as a whole at a server in memory.
use openevent.Common.{
  ℕ, zero, suc, ◌+◌, ◌<◌, ◌≤◌, ◌≡◌, refl, true, Option, none, some, List, [], ◌∷◌, ◌++◌, Bytes,
  arith, IsU64,
}
use openevent.Status.{ok}
use openevent.Proto.{EventMessage}
use openevent.Storage.Keys.{message_prefix, numeric_key}
use openevent.Storage.Encoding.{encode_uint64}
use openevent.Storage.Keys.Laws.{bytes_eq-numeric_key}
use openevent.Core.State.Inversion.{stored}
use openevent.Core.Publish.{publish, PublishRequest}
use openevent.Core.Publish.Invariant.{
  IsLog, publish-IsLog, publish_auto_seq-IsLog, publish-publish_again,
}
use openevent.Core.Publish.Log.{message_at}
use openevent.Examples.Fixtures.{server, request, number, greeting, initialization}
use openevent.Examples.Memory.{memory, memory-Lawful}
use openevent.Examples.Publishing.{
  after_publish, publish_returns, after_auto_publish, publish_auto_seq_returns,
}

first : message_at memory (stored server) 0 ≡ some initialization
unfolding openevent.Common.bytes_eq openevent.Storage.Keys.numeric_key
    openevent.Storage.Encoding.encode_uint64
first = refl

second : message_at memory (stored server) 1 ≡ some greeting
unfolding openevent.Common.bytes_eq openevent.Storage.Keys.numeric_key
    openevent.Storage.Encoding.encode_uint64
second = refl

filled :
    (n : ℕ)
    → n ≤ 1
    → (m : EventMessage) × (message_at memory (stored server) n ≡ some m) × (m.seq ≡ n)
filled zero h = (initialization, first, refl)
filled (suc zero) h = (greeting, second, refl)
filled (suc (suc n)) h = absurd (omega arith)

key_0 : message_prefix ++ number 0 ≡ numeric_key message_prefix 0
unfolding numeric_key encode_uint64
key_0 = refl

key_1 : message_prefix ++ number 1 ≡ numeric_key message_prefix 1
unfolding numeric_key encode_uint64
key_1 = refl

free : (n : ℕ) → IsU64 n → 1 < n → message_at memory (stored server) n ≡ none
free n hn h = ground (
  arith,
  key_0,
  key_1,
  bytes_eq-numeric_key message_prefix 0 n (omega arith) hn,
  bytes_eq-numeric_key message_prefix 1 n (omega arith) hn,
)

server-IsLog : IsLog memory (stored server) 1
unfolding openevent.Common.bytes_eq openevent.Storage.Encoding.decode_uint64
server-IsLog = record {
  max_seq_stored = (number 1, refl, refl, refl);
  max_seq_is_u64 = omega arith;
  filled = filled;
  free = free;
}

publish-IsLog_example : (request.seq ≡ 2) × IsLog memory (stored after_publish) 2
publish-IsLog_example =
    publish-IsLog memory memory-Lawful request 9 none none server after_publish 1 (omega arith)
      server-IsLog publish_returns

publish_auto_seq-IsLog_example : (request.seq ≡ 2) × IsLog memory (stored after_auto_publish) 2
publish_auto_seq-IsLog_example =
    publish_auto_seq-IsLog memory memory-Lawful request 9 none none 2 server after_auto_publish 1
      (omega arith) server-IsLog publish_auto_seq_returns

-- The same uuid under the next number.
abbrev again : PublishRequest
again = record request { seq = 3 }

publish-publish_again_example :
    ¬ (publish memory again 10 none none after_publish ≡ (ok tt, after_publish))
publish-publish_again_example =
    publish-publish_again memory memory-Lawful request again 9 10 none none none none server
      after_publish after_publish (omega arith) refl publish_returns

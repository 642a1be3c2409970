-- ===== src/Examples/Sharing.antt =====
-- Runs of the threads that share a snapshot, over the storage in memory.
use openevent.Common.{
  ℕ, ◌≤◌, ◌<◌, ◌⊎◌, subst, codes, elem, ◌≡◌, refl, true, false, none, some, List, [], ◌∷◌, Bytes,
  arith,
}
use openevent.Status.{ok, success, error, unavailable, out_of_range}
use openevent.Storage.Rocks.Updates.{Batch, put, meta}
use openevent.Storage.Keys.{next_uuid_key, max_seq_key}
use openevent.Storage.State.{UnifiedStorage}
use openevent.Core.Snapshots.{
  World, started, wake, take_snapshot, publish_snapshot, hand_over, count_commit, wakes, takes,
  publishes, hands_over, counts, Reach, here, next, required_generation, is_ready, acquired,
  Acquired,
}
use openevent.Core.Snapshots.Freshness.{IsFresh, acquire-IsFresh}
use openevent.Core.Snapshots.Progress.{Renews, UpToDate, refresh-UpToDate}
use openevent.Storage.Reads.Views.{Holds}
use openevent.Core.Fetch.{Page}
use openevent.Core.Subscriptions.{
  acquire_subscription_snapshot, get_subscription_max_seq, fetch_subscription_batch,
}
use openevent.Core.Subscriptions.Paged.{IsPageOf, fetch_subscription_batch-IsPageOf}
use openevent.Services.{
  SubscribeRequest, batch_request, Course, run_subscription, rejected, register_subscription,
  stop_subscriptions, subscribe,
}
use openevent.Services.Registered.{
  call, registers, stops, calls, no_subscriptions, calls-cancelled, subscribe-unregisters,
}
use openevent.Services.Streamed.{Grows, IsStream, run_subscription-IsStream}
use openevent.Examples.Fixtures.{database, number, greeting}
use openevent.Examples.Memory.{memory, memory-Lawful}

abbrev storage : UnifiedStorage memory
storage = record { db = database; fault_injector = none; files = [] }

abbrev change : Batch
change = put meta next_uuid_key (number 6) ∷ []

abbrev begun : World memory
begun = started memory storage 1000 100 0

abbrev changed : World memory
changed = hand_over memory begun change

abbrev asking : World memory
asking = count_commit memory changed success

abbrev woken : World memory
woken = wake memory asking

abbrev renewed : World memory
renewed = take_snapshot memory woken 1

abbrev shared : World memory
shared = publish_snapshot memory renewed 1 (ok asking.core.storage.db)

asked : Reach memory begun asking
unfolding started hand_over count_commit openevent.Storage.State.commit
    openevent.Storage.State.committed openevent.Storage.Faults.inject_storage_fault
    openevent.Storage.State.create_snapshot
asked = next (next here (hands_over change refl)) (counts success refl)

answered : Reach memory asking shared
unfolding started hand_over count_commit wake take_snapshot publish_snapshot
    openevent.Storage.State.commit openevent.Storage.State.committed
    openevent.Storage.Faults.inject_storage_fault openevent.Storage.State.create_snapshot
answered =
    next (next (next here (wakes refl)) (takes 1 refl))
      (publishes 1 (ok asking.core.storage.db) refl)

asked_generation : required_generation memory asking ≡ ok 1
unfolding started hand_over count_commit required_generation openevent.Core.State.ensure_available
    openevent.Storage.State.commit openevent.Storage.State.committed
    openevent.Storage.Faults.inject_storage_fault openevent.Storage.State.create_snapshot
asked_generation = refl

abbrev given : Acquired memory
given = record { snapshot = asking.core.storage.db; version = 2 }

shows_1 : Holds (memory.rocks.view given.snapshot meta max_seq_key) 1
unfolding started hand_over count_commit openevent.Storage.State.commit
    openevent.Storage.State.committed openevent.Storage.Faults.inject_storage_fault
    openevent.Storage.State.create_snapshot openevent.Storage.Encoding.decode_uint64
    openevent.Common.bytes_eq
shows_1 = (number 1, refl, refl, refl)

shared_is_given : acquired memory shared 1 ≡ ok given
unfolding started hand_over count_commit wake take_snapshot publish_snapshot acquired
    openevent.Storage.State.commit openevent.Storage.State.committed
    openevent.Storage.Faults.inject_storage_fault openevent.Storage.State.create_snapshot
shared_is_given = refl

acquire-IsFresh_example : IsFresh memory asking shared given.snapshot
unfolding started hand_over count_commit wake take_snapshot publish_snapshot is_ready
    openevent.Storage.State.commit openevent.Storage.State.committed
    openevent.Storage.Faults.inject_storage_fault openevent.Storage.State.create_snapshot
acquire-IsFresh_example =
    acquire-IsFresh memory memory-Lawful storage 1000 100 0 asking shared 1 given asked answered
      asked_generation (omega arith) refl refl refl shared_is_given

refresh-UpToDate_example :
    (u : World memory) × Renews memory asking u × UpToDate memory asking.core u
unfolding started hand_over count_commit openevent.Storage.State.commit
    openevent.Storage.State.committed openevent.Storage.Faults.inject_storage_fault
    openevent.Storage.State.create_snapshot
refresh-UpToDate_example = refresh-UpToDate memory asking asking.core.storage.db refl refl refl refl

-- The same server, to which a subscription comes.
acquires : acquire_subscription_snapshot memory asking shared ≡ ok given
unfolding started hand_over count_commit wake take_snapshot publish_snapshot
    openevent.Storage.State.commit openevent.Storage.State.committed
    openevent.Storage.Faults.inject_storage_fault acquire_subscription_snapshot required_generation
    acquired openevent.Storage.State.create_snapshot openevent.Core.State.ensure_available
acquires = refl

abbrev listener : SubscribeRequest
listener = record {
  principal = 2;
  token = codes "key";
  from_seq = 1;
  only_my_recipient = true;
  channels = 1 ∷ [];
}

abbrev page : Page
page = record { messages = greeting ∷ []; next_seq = 2; last_seq = 1 }

batch_returns :
    fetch_subscription_batch memory asking shared (batch_request listener 1) ≡ ok (page, 2)
unfolding fetch_subscription_batch started hand_over count_commit wake take_snapshot
    publish_snapshot openevent.Storage.State.commit openevent.Storage.State.committed
    openevent.Storage.Faults.inject_storage_fault acquire_subscription_snapshot required_generation
    acquired openevent.Storage.State.create_snapshot openevent.Core.State.ensure_available
    openevent.Core.State.snapshot_now openevent.Core.Fetch.fetch_from
    openevent.Core.Publish.authenticate openevent.Storage.Reads.has_token openevent.Common.bytes_eq
    openevent.Storage.Keys.token_key openevent.Storage.Encoding.encode_uint64
    openevent.Core.Fetch.validate_readable_channels openevent.Core.Publish.require_channel
    openevent.Storage.Reads.get_channel openevent.Storage.Reads.parse_channel
    openevent.Storage.Records.valid_stored_channel openevent.Core.Access.can_read
    openevent.Core.Fetch.fetch_visible openevent.Core.Access.has_recipient
    openevent.Core.Access.is_member openevent.Core.Access.system_channel
    openevent.Core.Fetch.find_channel openevent.Core.Fetch.gather openevent.Core.Fetch.is_too_big
    openevent.Core.Fetch.readable_channel openevent.Core.Fetch.validate_readable
    openevent.Core.Fetch.visible_page openevent.Core.Fetch.visit_readable
    openevent.Core.Fetch.visit_visible openevent.Core.Publish.load_channel
    openevent.Status.rocks_to_status openevent.Storage.Encoding.decode_loop
    openevent.Storage.Encoding.decode_uint64 openevent.Storage.Encoding.encode_loop
    openevent.Storage.Keys.decode_numeric_key openevent.Storage.Keys.decode_required_uint64
    openevent.Storage.Keys.numeric_key openevent.Storage.Keys.starts_with
    openevent.Storage.Reads.get_max_seq openevent.Storage.Reads.get_required_uint64
    openevent.Storage.Records.is_base64_url_token openevent.Storage.Records.is_token_char
    openevent.Storage.Scan.after_scan openevent.Storage.Scan.check_message
    openevent.Storage.Scan.has_valid_fields openevent.Storage.Scan.has_valid_object_keys
    openevent.Storage.Scan.read_message openevent.Storage.Scan.scan_loop
    openevent.Storage.Scan.scan_messages openevent.Storage.Scan.step
    openevent.Storage.SystemMessages.valid_channel_system_message
    openevent.Storage.SystemMessages.valid_initialization_message
    openevent.Examples.Memory.entries_from openevent.Examples.Memory.insert_key
batch_returns = refl

fetch_subscription_batch-IsPageOf_example :
    (s : Batch) × IsFresh memory asking shared s × IsPageOf memory s (batch_request listener 1) page
unfolding started hand_over count_commit wake take_snapshot publish_snapshot
    openevent.Storage.State.commit openevent.Storage.State.committed
    openevent.Storage.Faults.inject_storage_fault is_ready openevent.Storage.State.create_snapshot
fetch_subscription_batch-IsPageOf_example =
    fetch_subscription_batch-IsPageOf memory memory-Lawful storage 1000 100 0 asking shared 1
      (batch_request listener 1) page 2 asked answered (omega arith) refl refl asked_generation refl
      (omega arith) batch_returns

max_seq_returns :
    get_subscription_max_seq memory asking asking shared 2 (codes "key") (1 ∷ []) ≡ ok 1
unfolding get_subscription_max_seq started hand_over count_commit wake take_snapshot
    publish_snapshot openevent.Storage.State.commit openevent.Storage.State.committed
    openevent.Storage.Faults.inject_storage_fault acquire_subscription_snapshot required_generation
    acquired openevent.Storage.State.create_snapshot openevent.Core.State.ensure_available
    openevent.Core.State.snapshot_now openevent.Core.Fetch.fetch_from
    openevent.Core.Publish.authenticate openevent.Storage.Reads.has_token openevent.Common.bytes_eq
    openevent.Storage.Keys.token_key openevent.Storage.Encoding.encode_uint64
    openevent.Core.Fetch.validate_readable_channels openevent.Core.Publish.require_channel
    openevent.Storage.Reads.get_channel openevent.Storage.Reads.parse_channel
    openevent.Storage.Records.valid_stored_channel openevent.Core.Access.can_read
    openevent.Core.Fetch.fetch_visible openevent.Core.Access.has_recipient
    openevent.Core.Access.is_member openevent.Core.Access.system_channel
    openevent.Core.Fetch.find_channel openevent.Core.Fetch.gather openevent.Core.Fetch.is_too_big
    openevent.Core.Fetch.readable_channel openevent.Core.Fetch.validate_readable
    openevent.Core.Fetch.visible_page openevent.Core.Fetch.visit_readable
    openevent.Core.Fetch.visit_visible openevent.Core.Publish.load_channel
    openevent.Status.rocks_to_status openevent.Storage.Encoding.decode_loop
    openevent.Storage.Encoding.decode_uint64 openevent.Storage.Encoding.encode_loop
    openevent.Storage.Keys.decode_numeric_key openevent.Storage.Keys.decode_required_uint64
    openevent.Storage.Keys.numeric_key openevent.Storage.Keys.starts_with
    openevent.Storage.Reads.get_max_seq openevent.Storage.Reads.get_required_uint64
    openevent.Storage.Records.is_base64_url_token openevent.Storage.Records.is_token_char
    openevent.Storage.Scan.after_scan openevent.Storage.Scan.check_message
    openevent.Storage.Scan.has_valid_fields openevent.Storage.Scan.has_valid_object_keys
    openevent.Storage.Scan.read_message openevent.Storage.Scan.scan_loop
    openevent.Storage.Scan.scan_messages openevent.Storage.Scan.step
    openevent.Storage.SystemMessages.valid_channel_system_message
    openevent.Storage.SystemMessages.valid_initialization_message
    openevent.Examples.Memory.entries_from openevent.Examples.Memory.insert_key
max_seq_returns = refl

abbrev course : Course memory
course = record {
  called = asking;
  asked = asking;
  ready = shared;
  rounds =
      record {
        is_cancelled = false;
        asked = asking;
        ready = shared;
        writes = true ∷ [];
        waits = [];
      }
      ∷ [];
}

course-Grows : Grows memory 1 course.rounds
unfolding started hand_over count_commit wake take_snapshot publish_snapshot
    openevent.Storage.State.commit openevent.Storage.State.committed
    openevent.Storage.Faults.inject_storage_fault acquire_subscription_snapshot required_generation
    acquired openevent.Storage.State.create_snapshot openevent.Core.State.ensure_available
    openevent.Storage.Encoding.decode_uint64
course-Grows = (
  1,
  omega arith,
  omega arith,
  λ a e.
      let same : given ≡ a = ground (arith, acquires, e) in
      subst (λ (a : Acquired memory). Holds (memory.rocks.view a.snapshot meta max_seq_key) 1) same
        shows_1,
  tt,
)

run_subscription-IsStream_example :
    let stream = run_subscription memory listener course in
    ((1 ≤ 2) × (stream.accepted ≡ true) × IsStream listener 1 stream.sent)
    ⊎ ((2 < 1)
        × (stream.outcome ≡ rejected (error out_of_range "from_seq exceeds max_seq + 1"))
        × (stream.accepted ≡ false)
        × (stream.sent ≡ []))
run_subscription-IsStream_example =
    run_subscription-IsStream memory memory-Lawful listener course 1 max_seq_returns course-Grows

calls-cancelled_example :
    elem 5 (calls (registers 5 ∷ stops ∷ registers 6 ∷ []) no_subscriptions).cancelled ≡ true
unfolding call register_subscription stop_subscriptions
calls-cancelled_example = calls-cancelled (registers 5 ∷ []) (registers 6 ∷ []) 5 refl

subscribe-unregisters_example :
    let (stream, r') = subscribe memory 5 listener course (λ r. r) no_subscriptions in
    ((false ≡ false) × (elem 5 r'.subscriptions ≡ false))
    ⊎ ((false ≡ true)
        × (stream.accepted ≡ false)
        × (stream.sent ≡ [])
        × (stream.outcome ≡ rejected (error unavailable "server is shutting down"))
        × (r' ≡ no_subscriptions))
subscribe-unregisters_example =
    subscribe-unregisters memory 5 listener course (λ r. r) no_subscriptions

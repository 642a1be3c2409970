-- ===== src/Examples/Changes.antt =====
-- The theorems on channels, tokens, uuids and pages at a server in memory.
use openevent.Common.{
  ℕ, All, ◌+◌, ◌≡◌, ◌≢◌, ◌≤◌, refl, true, false, Option, none, some, List, [], ◌∷◌, Bytes, codes,
  arith,
}
use openevent.Status.{Result, ok}
use openevent.Proto.{ChannelInfo, visibility_public}
use openevent.Storage.Encoding.{encode_uint64}
use openevent.Storage.Keys.{token_key, next_uuid_key}
use openevent.Storage.Reads.Views.{Holds}
use openevent.Storage.Rocks.Updates.{SetsMeta, meta}
use openevent.Core.State.{Core}
use openevent.Core.State.Inversion.{stored}
use openevent.Core.Admin.{add_token, delete_token}
use openevent.Core.Channels.{
  create_channel, add_member, remove_member, CreateChannelRequest, MemberRequest,
}
use openevent.Core.Channels.Stored.{Counts}
use openevent.Core.Channels.Members.{
  AddsMember, RemovesMember, add_member-AddsMember, remove_member-RemovesMember,
}
use openevent.Core.Channels.Create.{CreatesChannel, create_channel-CreatesChannel}
use openevent.Core.Fetch.{FetchRequest, Page, fetch}
use openevent.Core.Fetch.Returned.{IsPage, fetch-IsPage}
use openevent.Core.Fetch.Shown.{IsVisible, fetch-IsVisible}
use openevent.Core.Publish.{allocate_uuids}
use openevent.Core.Publish.Uuids.{allocate_uuids-SetsMeta, consecutive}
use openevent.Examples.Fixtures.{server, number, greeting}
use openevent.Examples.Memory.{memory, memory-Lawful}

stored_1 : Holds (some (number 1)) 1
unfolding openevent.Storage.Encoding.decode_uint64
stored_1 = (number 1, refl, refl, refl)

stored_2 : Holds (some (number 2)) 2
unfolding openevent.Storage.Encoding.decode_uint64
stored_2 = (number 2, refl, refl, refl)

stored_5 : Holds (some (number 5)) 5
unfolding openevent.Storage.Encoding.decode_uint64
stored_5 = (number 5, refl, refl, refl)

abbrev new_uuids : List ℕ
new_uuids = 5 ∷ 6 ∷ 7 ∷ []

abbrev three : ℕ
three = 3

abbrev four : ℕ
four = 4

counts : Counts memory 1 5 (stored server)
unfolding openevent.Common.bytes_eq
counts = record { max_seq = stored_1; next_uuid = stored_5; next_uuid_is_u64 = omega arith }

abbrev after_add_token : Core memory
after_add_token = (add_token memory 4 (ok (codes "new")) server).1

add_token_returns :
    add_token memory 4 (ok (codes "new")) server ≡ (ok (codes "new"), after_add_token)
unfolding add_token openevent.Core.State.ensure_available openevent.Storage.Writes.put_token
    openevent.Core.State.commit_batch openevent.Storage.State.commit
    openevent.Storage.Faults.inject_storage_fault
add_token_returns = refl

abbrev after_delete_token : Core memory
after_delete_token = (delete_token memory 2 (codes "key") server).1

delete_token_returns : delete_token memory 2 (codes "key") server ≡ (ok tt, after_delete_token)
unfolding delete_token openevent.Core.State.ensure_available openevent.Core.State.commit_batch
    openevent.Storage.State.commit openevent.Storage.Faults.inject_storage_fault
delete_token_returns = refl

abbrev after_allocate : Core memory
after_allocate = (allocate_uuids memory 3 server).1

allocate_uuids_returns : allocate_uuids memory 3 server ≡ (ok (5 ∷ 6 ∷ 7 ∷ []), after_allocate)
unfolding allocate_uuids openevent.Core.State.ensure_available openevent.Core.State.snapshot_now
    openevent.Storage.State.create_snapshot openevent.Storage.Reads.get_next_uuid
    openevent.Storage.Reads.get_required_uint64 openevent.Common.bytes_eq
    openevent.Storage.Keys.decode_required_uint64 openevent.Storage.Writes.set_next_uuid
    openevent.Storage.Encoding.decode_uint64 openevent.Core.State.commit_batch
    openevent.Storage.State.commit openevent.Storage.Faults.inject_storage_fault
    openevent.Core.Publish.uuids_from
allocate_uuids_returns = refl

allocate_uuids-SetsMeta_example :
    (three ≢ 0)
    × (three ≤ 1024)
    × (new_uuids ≡ consecutive 5 3)
    × SetsMeta next_uuid_key (some (encode_uint64 8)) (stored server) (stored after_allocate)
unfolding openevent.Common.bytes_eq
allocate_uuids-SetsMeta_example =
    allocate_uuids-SetsMeta memory memory-Lawful 3 5 (5 ∷ 6 ∷ 7 ∷ []) server after_allocate stored_5
      (omega arith) allocate_uuids_returns

abbrev addition : MemberRequest
addition = record { principal = 1; token = codes "tok"; channel_id = 1; target_principal = 3 }

abbrev after_addition : Core memory
after_addition = (add_member memory addition 9 server).1

add_member_returns : add_member memory addition 9 server ≡ (ok tt, after_addition)
unfolding add_member openevent.Core.State.ensure_available openevent.Core.State.snapshot_now
    openevent.Storage.State.create_snapshot openevent.Core.Publish.authenticate
    openevent.Storage.Reads.has_token openevent.Common.bytes_eq token_key encode_uint64
    openevent.Core.Publish.require_channel openevent.Storage.Reads.get_channel
    openevent.Storage.Reads.parse_channel openevent.Storage.Records.valid_stored_channel
    openevent.Core.Access.is_member openevent.Core.Channels.build_channel_mutation_batch
    openevent.Storage.Reads.get_max_seq openevent.Storage.Reads.get_required_uint64
    openevent.Core.Access.system_channel openevent.Core.Channels.add_member_to
    openevent.Core.Channels.mutation_batch openevent.Core.Channels.require_owned_channel
    openevent.Core.Channels.store_members openevent.Core.Publish.load_channel
    openevent.Core.State.commit_batch openevent.Core.State.fatal_storage_error
    openevent.Common.Decimal.decimal_loop openevent.Core.Text.member_changed_payload
    openevent.Common.Decimal.to_string openevent.Status.rocks_to_status
    openevent.Storage.Encoding.decode_loop openevent.Storage.Encoding.decode_uint64
    openevent.Storage.Encoding.encode_loop openevent.Storage.Faults.inject_storage_fault
    openevent.Storage.Keys.decode_required_uint64 openevent.Storage.Keys.numeric_key
    openevent.Storage.Reads.get_next_uuid openevent.Storage.State.commit
    openevent.Storage.State.committed openevent.Storage.Writes.put_channel
    openevent.Storage.Writes.put_message openevent.Storage.Writes.put_used_uuid
    openevent.Storage.Writes.set_max_seq openevent.Storage.Writes.set_next_uuid
add_member_returns = refl

add_member-AddsMember_example :
    AddsMember memory addition 9 1 5 (stored server) (stored after_addition)
add_member-AddsMember_example =
    add_member-AddsMember memory memory-Lawful addition 9 1 5 server after_addition counts
      (omega arith) add_member_returns

abbrev removal : MemberRequest
removal = record addition { target_principal = 2 }

abbrev after_removal : Core memory
after_removal = (remove_member memory removal 9 server).1

remove_member_returns : remove_member memory removal 9 server ≡ (ok tt, after_removal)
unfolding remove_member openevent.Core.State.ensure_available openevent.Core.State.snapshot_now
    openevent.Storage.State.create_snapshot openevent.Core.Publish.authenticate
    openevent.Storage.Reads.has_token openevent.Common.bytes_eq token_key encode_uint64
    openevent.Core.Publish.require_channel openevent.Storage.Reads.get_channel
    openevent.Storage.Reads.parse_channel openevent.Storage.Records.valid_stored_channel
    openevent.Core.Channels.build_channel_mutation_batch openevent.Storage.Reads.get_max_seq
    openevent.Storage.Reads.get_required_uint64 openevent.Storage.Keys.decode_required_uint64
    openevent.Core.Access.system_channel openevent.Core.Channels.erase_member
    openevent.Core.Channels.mutation_batch openevent.Core.Channels.remove_member_from
    openevent.Core.Channels.require_owned_channel openevent.Core.Channels.store_members
    openevent.Core.Publish.load_channel openevent.Core.State.commit_batch
    openevent.Core.State.fatal_storage_error openevent.Common.Decimal.decimal_loop
    openevent.Core.Text.member_changed_payload openevent.Common.Decimal.to_string
    openevent.Status.rocks_to_status openevent.Storage.Encoding.decode_loop
    openevent.Storage.Encoding.decode_uint64 openevent.Storage.Encoding.encode_loop
    openevent.Storage.Faults.inject_storage_fault openevent.Storage.Keys.numeric_key
    openevent.Storage.Reads.get_next_uuid openevent.Storage.State.commit
    openevent.Storage.State.committed openevent.Storage.Writes.put_channel
    openevent.Storage.Writes.put_message openevent.Storage.Writes.put_used_uuid
    openevent.Storage.Writes.set_max_seq openevent.Storage.Writes.set_next_uuid
remove_member_returns = refl

remove_member-RemovesMember_example : RemovesMember memory removal 9 1 5 server after_removal
remove_member-RemovesMember_example =
    remove_member-RemovesMember memory memory-Lawful removal 9 1 5 server after_removal counts
      (omega arith) remove_member_returns

abbrev creation : CreateChannelRequest
creation = record {
  principal = 1;
  token = codes "tok";
  name = codes "x";
  visibility = visibility_public;
  protocol = [];
  description = [];
  members = 2 ∷ 1 ∷ [];
}

abbrev created : ChannelInfo
created = record {
  channel_id = 2;
  name = codes "x";
  visibility = visibility_public;
  protocol = [];
  description = [];
  creator = some 1;
  members = 1 ∷ 2 ∷ [];
}

abbrev after_creation : Core memory
after_creation = (create_channel memory creation 9 server).1

create_channel_returns : create_channel memory creation 9 server ≡ (ok created, after_creation)
unfolding create_channel openevent.Core.State.ensure_available
    openevent.Core.Channels.invalid_channel_request openevent.Core.Access.validate_visibility
    openevent.Core.State.snapshot_now openevent.Storage.State.create_snapshot
    openevent.Core.Publish.authenticate openevent.Storage.Reads.has_token openevent.Common.bytes_eq
    token_key encode_uint64 openevent.Core.Channels.add_members
    openevent.Storage.Reads.get_next_channel_id openevent.Storage.Reads.get_required_uint64
    openevent.Storage.Keys.decode_required_uint64
    openevent.Core.Channels.build_channel_mutation_batch openevent.Storage.Reads.get_max_seq
    openevent.Core.Channels.mutation_batch openevent.Core.Channels.new_channel
    openevent.Core.Channels.store_new_channel openevent.Core.State.commit_batch
    openevent.Core.State.fatal_storage_error openevent.Core.Text.channel_initialized_payload
    openevent.Common.Decimal.decimal_loop openevent.Core.Text.hex_char openevent.Core.Text.json_char
    openevent.Core.Text.json_chars openevent.Core.Text.json_string openevent.Core.Text.members_text
    openevent.Common.Decimal.to_string openevent.Status.rocks_to_status
    openevent.Storage.Encoding.decode_loop openevent.Storage.Encoding.decode_uint64
    openevent.Storage.Encoding.encode_loop openevent.Storage.Faults.inject_storage_fault
    openevent.Storage.Keys.numeric_key openevent.Storage.Reads.get_next_uuid
    openevent.Storage.State.commit openevent.Storage.State.committed
    openevent.Storage.Writes.put_channel openevent.Storage.Writes.put_message
    openevent.Storage.Writes.put_used_uuid openevent.Storage.Writes.set_max_seq
    openevent.Storage.Writes.set_next_channel_id openevent.Storage.Writes.set_next_uuid
create_channel_returns = refl

create_channel-CreatesChannel_example :
    CreatesChannel memory creation created 9 1 5 2 (stored server) (stored after_creation)
unfolding openevent.Common.bytes_eq
create_channel-CreatesChannel_example =
    create_channel-CreatesChannel memory memory-Lawful creation 9 1 5 2 created server
      after_creation counts stored_2 (omega arith) create_channel_returns

abbrev poll : FetchRequest
poll = record {
  principal = 2;
  token = codes "key";
  from_seq = 1;
  limit = 10;
  only_my_recipient = true;
  channels = 1 ∷ [];
}

abbrev first_page : Page
first_page = record { messages = greeting ∷ []; next_seq = 2; last_seq = 1 }

fetch_returns : fetch memory poll server ≡ (ok first_page, server)
unfolding fetch openevent.Core.State.ensure_available openevent.Core.State.snapshot_now
    openevent.Storage.State.create_snapshot openevent.Core.Fetch.fetch_from
    openevent.Core.Publish.authenticate openevent.Storage.Reads.has_token openevent.Common.bytes_eq
    token_key encode_uint64 openevent.Core.Fetch.validate_readable_channels
    openevent.Core.Publish.require_channel openevent.Storage.Reads.get_channel
    openevent.Storage.Reads.parse_channel openevent.Storage.Records.valid_stored_channel
    openevent.Core.Access.can_read openevent.Core.Fetch.fetch_visible
    openevent.Core.Access.has_recipient openevent.Core.Access.is_member
    openevent.Core.Access.system_channel openevent.Core.Fetch.find_channel
    openevent.Core.Fetch.gather openevent.Core.Fetch.is_too_big
    openevent.Core.Fetch.readable_channel openevent.Core.Fetch.validate_readable
    openevent.Core.Fetch.visible_page openevent.Core.Fetch.visit_readable
    openevent.Core.Fetch.visit_visible openevent.Core.Publish.load_channel
    openevent.Status.rocks_to_status openevent.Storage.Encoding.decode_loop
    openevent.Storage.Encoding.decode_uint64 openevent.Storage.Encoding.encode_loop
    openevent.Storage.Keys.decode_numeric_key openevent.Storage.Keys.decode_required_uint64
    openevent.Storage.Keys.numeric_key openevent.Storage.Keys.starts_with
    openevent.Storage.Reads.get_max_seq openevent.Storage.Reads.get_required_uint64
    openevent.Storage.Records.is_base64_url_token openevent.Storage.Records.is_token_char
    openevent.Storage.Scan.after_scan openevent.Storage.Scan.check_message
    openevent.Storage.Scan.has_valid_fields openevent.Storage.Scan.has_valid_object_keys
    openevent.Storage.Scan.read_message openevent.Storage.Scan.scan_loop
    openevent.Storage.Scan.scan_messages openevent.Storage.Scan.step
    openevent.Storage.SystemMessages.valid_channel_system_message
    openevent.Storage.SystemMessages.valid_initialization_message
    openevent.Examples.Memory.entries_from openevent.Examples.Memory.insert_key
fetch_returns = refl

fetch-IsPage_example : (10 ≤ 1000) × IsPage poll 1 first_page
unfolding openevent.Common.bytes_eq
fetch-IsPage_example =
    fetch-IsPage memory memory-Lawful poll 1 first_page server server stored_1 (omega arith)
      fetch_returns

fetch-IsVisible_example :
    (stored server meta (token_key 2 (codes "key")) ≡ some [])
    × All (λ m. IsVisible memory (stored server) 2 m.channel_id) first_page.messages
fetch-IsVisible_example =
    fetch-IsVisible memory memory-Lawful poll first_page server server fetch_returns

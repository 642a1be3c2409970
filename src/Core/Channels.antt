-- ===== src/Core/Channels.antt =====
-- Channels and their members (src/service/open_event_core.cpp).
pub mod Members
pub mod Create
pub mod Stored
pub mod Effects
use openevent.Common.{
  ℕ, ◌+◌, ◌%◌, Bool, not, ◌&&◌, ◌||◌, some, List, [], ◌∷◌, ◌++◌, Bytes, length, elem, is_empty, ltb,
  leb, ◌==◌, if◌then◌else◌, u64_mod,
}
use openevent.Status.{
  error, invalid_argument, permission_denied, already_exists, resource_exhausted,
}
use openevent.Proto.{
  EventMessage, ChannelInfo, Visibility, ChannelFilter, filter_all, filter_joined, filter_owned,
  filter_other, is_created_by,
}
use openevent.Platform.{Platform}
use openevent.Storage.Reads.{get_max_seq, get_next_uuid, get_next_channel_id, list_channels}
use openevent.Storage.Rocks.Updates.{Batch}
use openevent.Storage.Writes.{
  put_channel, put_message, put_used_uuid, set_max_seq, set_next_uuid, set_next_channel_id,
}
use openevent.Core.Access.{
  can_read, is_member, system_channel, validate_visibility, validate_filter, max_channel_members,
}
use openevent.Core.Publish.{authenticate, require_channel}
use openevent.Core.State.{
  M, pure, lift, refuse_if, ◌>>=◌, ◌>>◌, ensure_available, snapshot_now, commit_batch,
}
use openevent.Core.Text.{channel_initialized_payload, member_changed_payload}

pub record CreateChannelRequest : Type 0 where
  pub principal : ℕ
  pub token : Bytes
  pub name : Bytes
  pub visibility : Visibility
  pub protocol : Bytes
  pub description : Bytes
  pub members : List ℕ

pub record MemberRequest : Type 0 where
  pub principal : ℕ
  pub token : Bytes
  pub channel_id : ℕ
  pub target_principal : ℕ

-- The members of the request that are not there yet are added in order.
unfoldable pub add_members : List ℕ → List ℕ → List ℕ
add_members members [] = members
add_members members (m ∷ rest) =
    add_members (if elem m members then members else members ++ m ∷ []) rest

-- `erase(find(...))`: the first occurrence.
unfoldable pub erase_member : ℕ → List ℕ → List ℕ
erase_member m [] = []
erase_member m (x ∷ xs) = if x == m then xs else x ∷ erase_member m xs

unfoldable pub new_channel : CreateChannelRequest → ℕ → ChannelInfo
unfolding add_members
new_channel request channel_id = record {
  channel_id = channel_id;
  name = request.name;
  visibility = request.visibility;
  protocol = request.protocol;
  description = request.description;
  creator = some request.principal;
  members = add_members (request.principal ∷ []) request.members;
}

-- The first test of `CreateChannel`.
unfoldable pub invalid_channel_request : CreateChannelRequest → Bool
invalid_channel_request request =
    request.principal == 0
    || elem 0 request.members
    || is_empty request.name
    || ltb 255 (length request.name)
    || ltb 255 (length request.protocol)
    || ltb 4096 (length request.description)
    || ltb max_channel_members (length request.members)

module _ (p : Platform) where
  abbrev pub system_message : ChannelInfo → Bytes → ℕ → ℕ → ℕ → EventMessage
  system_message channel payload seq uuid ts_ms = record {
    seq = seq;
    channel_id = channel.channel_id;
    principal = 0;
    recipients = [];
    payload = payload;
    ts_ms = ts_ms;
    uuid = uuid;
    object_keys = [];
  }

  -- The updates of a channel and of the message that tells of it.
  unfoldable pub mutation_batch : ChannelInfo → EventMessage → M p Batch
  mutation_batch channel message = do
    with_channel ← lift (put_channel p [] channel)
    with_message ← lift (put_message p with_channel message)
    with_uuid ← lift (put_used_uuid with_message message.uuid message.seq)
    with_seq ← lift (set_max_seq with_uuid message.seq)
    lift (set_next_uuid with_seq ((message.uuid + 1) % u64_mod))

  unfoldable pub build_channel_mutation_batch :
      p.rocks.Snapshot → ChannelInfo → Bytes → ℕ → M p Batch
  build_channel_mutation_batch snapshot channel payload ts_ms = do
    max_seq ← lift (get_max_seq p snapshot)
    next_uuid ← lift (get_next_uuid p snapshot)
    mutation_batch channel
        (system_message channel payload ((max_seq + 1) % u64_mod) next_uuid ts_ms)

  -- What follows the checks of `CreateChannel`.
  unfoldable pub store_new_channel : p.rocks.Snapshot → CreateChannelRequest → ℕ → M p ChannelInfo
  store_new_channel snapshot request ts_ms = do
    channel_id ← lift (get_next_channel_id p snapshot)
    let channel : ChannelInfo = new_channel request channel_id
    batch ←
        build_channel_mutation_batch snapshot channel (channel_initialized_payload channel) ts_ms
    complete ← lift (set_next_channel_id batch ((channel_id + 1) % u64_mod))
    commit_batch complete
    pure channel

  unfoldable pub create_channel : CreateChannelRequest → ℕ → M p ChannelInfo
  unfolding store_new_channel
  create_channel request ts_ms = do
    ensure_available
    refuse_if (invalid_channel_request request)
        (error invalid_argument "invalid Channel parameters")
    lift (validate_visibility request.visibility)
    snapshot ← snapshot_now
    authenticate p snapshot request.principal request.token
    refuse_if
        (ltb max_channel_members (length (add_members (request.principal ∷ []) request.members)))
        (error resource_exhausted "Channel can contain at most 1024 members including its creator")
    store_new_channel snapshot request ts_ms

  unfoldable pub get_visible_channel : ℕ → Bytes → ℕ → M p ChannelInfo
  get_visible_channel principal token channel_id = do
    ensure_available
    snapshot ← snapshot_now
    authenticate p snapshot principal token
    channel ← require_channel p snapshot channel_id
    refuse_if (not (can_read channel principal)) (error permission_denied "channel not visible")
    pure channel

  -- The channels that the loop of `ListChannels` adds.
  unfoldable pub is_listed : ChannelFilter → ℕ → ChannelInfo → Bool
  is_listed filter_all principal channel = can_read channel principal
  is_listed filter_joined principal channel =
      can_read channel principal && is_member channel principal
  is_listed filter_owned principal channel =
      can_read channel principal && is_created_by channel.creator principal
  is_listed (filter_other n) principal channel = can_read channel principal

  unfoldable pub listed : ChannelFilter → ℕ → List ChannelInfo → List ChannelInfo
  listed filter principal [] = []
  listed filter principal (channel ∷ rest) =
      let others = listed filter principal rest in
      if is_listed filter principal channel then channel ∷ others else others

  abbrev with_system_channel : ChannelFilter → List ChannelInfo → List ChannelInfo
  with_system_channel filter_all channels = system_channel ∷ channels
  with_system_channel _ channels = channels

  unfoldable pub list_visible_channels : ℕ → Bytes → ChannelFilter → M p (List ChannelInfo)
  list_visible_channels principal token filter = do
    ensure_available
    lift (validate_filter filter)
    snapshot ← snapshot_now
    authenticate p snapshot principal token
    channels ← lift (list_channels p snapshot)
    pure (with_system_channel filter (listed filter principal channels))

  -- The checks of `AddMember` and `RemoveMember` up to the creator.
  unfoldable pub require_owned_channel : MemberRequest → M p (p.rocks.Snapshot × ChannelInfo)
  require_owned_channel request = do
    ensure_available
    refuse_if (request.principal == 0 || request.target_principal == 0)
        (error invalid_argument "principals must be greater than 0")
    snapshot ← snapshot_now
    authenticate p snapshot request.principal request.token
    refuse_if (request.channel_id == 0)
        (error permission_denied "system channel cannot be modified")
    channel ← require_channel p snapshot request.channel_id
    pure (snapshot, channel)

  unfoldable pub store_members :
      p.rocks.Snapshot → ChannelInfo → List ℕ → Bytes → ℕ → M p (Unit {0})
  store_members snapshot channel members payload ts_ms = do
    batch ←
        build_channel_mutation_batch snapshot (record channel { members = members }) payload ts_ms
    commit_batch batch

  unfoldable pub add_member_to : MemberRequest → ℕ → p.rocks.Snapshot × ChannelInfo → M p (Unit {0})
  unfolding store_members
  add_member_to request ts_ms (snapshot, channel) = do
    refuse_if (not (is_created_by channel.creator request.principal))
        (error permission_denied "only creator can add members")
    refuse_if (is_member channel request.target_principal)
        (error already_exists "member already exists")
    refuse_if (leb max_channel_members (length channel.members))
        (error resource_exhausted "Channel can contain at most 1024 members including its creator")
    store_members snapshot channel (channel.members ++ request.target_principal ∷ [])
        (member_changed_payload "system.member_added" request.target_principal) ts_ms

  unfoldable pub add_member : MemberRequest → ℕ → M p (Unit {0})
  unfolding require_owned_channel add_member_to
  add_member request ts_ms = do
    found ← require_owned_channel request
    add_member_to request ts_ms found

  unfoldable pub remove_member_from :
      MemberRequest → ℕ → p.rocks.Snapshot × ChannelInfo → M p (Unit {0})
  unfolding store_members
  remove_member_from request ts_ms (snapshot, channel) = do
    refuse_if (not (is_created_by channel.creator request.principal))
        (error permission_denied "only creator can remove members")
    refuse_if (is_created_by channel.creator request.target_principal)
        (error permission_denied "creator cannot be removed")
    if not (elem request.target_principal channel.members)
        then pure tt
        else store_members snapshot channel (erase_member request.target_principal channel.members)
            (member_changed_payload "system.member_removed" request.target_principal) ts_ms

  unfoldable pub remove_member : MemberRequest → ℕ → M p (Unit {0})
  unfolding require_owned_channel remove_member_from
  remove_member request ts_ms = do
    found ← require_owned_channel request
    remove_member_from request ts_ms found

-- ===== src/Services/Methods.antt =====
-- The methods of the services that pass a request to the core (src/service/grpc_services.cpp).
pub mod Refused
use openevent.Common.{ℕ, Option, none, List, [], ◌∷◌, Bytes}
use openevent.Status.{Result, ok, fail}
use openevent.Proto.{ObjectKey, ChannelInfo, ChannelFilter}
use openevent.Platform.{Platform}
use openevent.Core.State.{Core, ServerContext, M, handle_rpc_error}
use openevent.Core.Publish.{
  PublishRequest, get_status, allocate_uuids, get_seq_by_uuid, publish, publish_auto_seq,
}
use openevent.Core.Fetch.{FetchRequest, Page, fetch, list_messages}
use openevent.Core.Objects.{
  WriteObjectRequest, ObjectMetadata, write_object, get_object_metadata, batch_get_object_metadata,
  read_object,
}
use openevent.Core.Channels.{
  CreateChannelRequest, MemberRequest, create_channel, get_visible_channel, list_visible_channels,
  add_member, remove_member,
}
use openevent.Core.Admin.{add_token, delete_token}

module _ (p : Platform) where
  -- A request to one of the four services, with what the core's method takes besides: the clock, the
  -- context at the two tests of it, the outcome of the generator, and what other threads do.
  pub data Rpc : Type 0 where
    get_status_rpc : ℕ → Bytes → Rpc
    allocate_uuids_rpc : ℕ → Rpc
    get_seq_by_uuid_rpc : ℕ → Rpc
    publish_rpc : PublishRequest → ℕ → Option ServerContext → Option ServerContext → Rpc
    publish_auto_seq_rpc : PublishRequest → ℕ → Option ServerContext → Option ServerContext → Rpc
    fetch_rpc : FetchRequest → Rpc
    write_object_rpc : (Core p → Core p) → WriteObjectRequest → Result Bytes → Rpc
    get_object_metadata_rpc : ℕ → Bytes → Rpc
    batch_get_object_metadata_rpc : List ObjectKey → Rpc
    read_object_rpc : ℕ → Bytes → ℕ → ℕ → Rpc
    create_channel_rpc : CreateChannelRequest → ℕ → Rpc
    get_channel_rpc : ℕ → Bytes → ℕ → Rpc
    list_channels_rpc : ℕ → Bytes → ChannelFilter → Rpc
    add_member_rpc : MemberRequest → ℕ → Rpc
    remove_member_rpc : MemberRequest → ℕ → Rpc
    add_token_rpc : ℕ → Result Bytes → Rpc
    delete_token_rpc : ℕ → Bytes → Rpc
    list_messages_rpc : ℕ → ℕ → Rpc

  abbrev pub Response : Rpc → Type 0
  Response (get_status_rpc _ _) = ℕ
  Response (allocate_uuids_rpc _) = List ℕ
  Response (get_seq_by_uuid_rpc _) = ℕ
  Response (publish_rpc _ _ _ _) = Unit {0}
  Response (publish_auto_seq_rpc _ _ _ _) = ℕ
  Response (fetch_rpc _) = Page
  Response (write_object_rpc _ _ _) = ℕ × Bytes
  Response (get_object_metadata_rpc _ _) = ObjectMetadata
  Response (batch_get_object_metadata_rpc _) = List ObjectMetadata
  Response (read_object_rpc _ _ _ _) = Bytes
  Response (create_channel_rpc _ _) = ChannelInfo
  Response (get_channel_rpc _ _ _) = ChannelInfo
  Response (list_channels_rpc _ _ _) = List ChannelInfo
  Response (add_member_rpc _ _) = Unit {0}
  Response (remove_member_rpc _ _) = Unit {0}
  Response (add_token_rpc _ _) = Bytes
  Response (delete_token_rpc _ _) = Unit {0}
  Response (list_messages_rpc _ _) = Page

  -- The method of the core that answers.
  unfoldable pub method : (q : Rpc) → M p (Response q)
  method (get_status_rpc principal token) = get_status p principal token
  method (allocate_uuids_rpc count) = allocate_uuids p count
  method (get_seq_by_uuid_rpc uuid) = get_seq_by_uuid p uuid
  method (publish_rpc request ts_ms before after) = publish p request ts_ms before after
  method (publish_auto_seq_rpc request ts_ms before after) =
      publish_auto_seq p request ts_ms before after
  method (fetch_rpc request) = fetch p request
  method (write_object_rpc others request generated) = write_object p others request generated
  method (get_object_metadata_rpc object_id token) = get_object_metadata p object_id token
  method (batch_get_object_metadata_rpc keys) = batch_get_object_metadata p keys
  method (read_object_rpc object_id token offset nbytes) =
      read_object p object_id token offset nbytes
  method (create_channel_rpc request ts_ms) = create_channel p request ts_ms
  method (get_channel_rpc principal token id) = get_visible_channel p principal token id
  method (list_channels_rpc principal token filter) = list_visible_channels p principal token filter
  method (add_member_rpc request ts_ms) = add_member p request ts_ms
  method (remove_member_rpc request ts_ms) = remove_member p request ts_ms
  method (add_token_rpc principal generated) = add_token p principal generated
  method (delete_token_rpc principal token) = delete_token p principal token
  method (list_messages_rpc from_seq limit) = list_messages p from_seq limit

  -- `ToGrpcStatus` on the result of a method.
  abbrev pub to_grpc : {A : Type 0} → Result A × Core p → Result A × Core p
  to_grpc (ok a, c) = (ok a, c)
  to_grpc (fail e, c) = let (e', c') = handle_rpc_error e c in (fail e', c')

  unfoldable pub respond : (q : Rpc) → M p (Response q)
  respond q c = to_grpc (method q c)

  -- The core after requests in turn.
  abbrev pub after_requests : List Rpc → Core p → Core p
  after_requests [] c = c
  after_requests (q ∷ qs) c = after_requests qs (respond q c).1

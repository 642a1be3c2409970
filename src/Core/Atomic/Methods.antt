-- ===== src/Core/Atomic/Methods.antt =====
-- The methods of `OpenEventCore` that change channels, tokens and uuids, which are atomic.
use openevent.Common.{ℕ, Option, List, Bytes}
use openevent.Status.{Result}
use openevent.Proto.{ChannelInfo}
use openevent.Platform.{Platform}
use openevent.Core.State.{ServerContext}
use openevent.Core.State.Atomicity.{
  IsReading, IsAtomic, IsReading-IsAtomic, IsAtomic-if, IsAtomic-commit_batch, IsAtomic-bind,
  IsAtomic-finish,
}
use openevent.Core.Atomic.{
  IsAtomic-publish, IsAtomic-publish_auto_seq, IsAtomic-allocate_uuids, reading,
  IsReading-authenticate, IsReading-require_channel,
}
use openevent.Core.Publish.{PublishRequest, publish, publish_auto_seq, allocate_uuids}
use openevent.Core.Channels.{
  CreateChannelRequest, MemberRequest, mutation_batch, build_channel_mutation_batch,
  store_new_channel, create_channel, require_owned_channel, store_members, add_member_to,
  add_member, remove_member_from, remove_member,
}
use openevent.Core.Admin.{add_token, delete_token}

module _ (p : Platform) where
  pub IsAtomic-add_token :
      (principal : ℕ) (generated : Result Bytes) → IsAtomic (add_token p principal generated)
  unfolding add_token
  IsAtomic-add_token principal generated =
      search (IsAtomic-bind, reading, IsAtomic-commit_batch, IsAtomic-finish) depth 12

  pub IsAtomic-delete_token :
      (principal : ℕ) (token : Bytes) → IsAtomic (delete_token p principal token)
  unfolding delete_token
  IsAtomic-delete_token principal token =
      search (IsAtomic-bind, reading, IsAtomic-commit_batch) depth 12

  IsReading-build_channel_mutation_batch :
      (s : p.rocks.Snapshot) (channel : ChannelInfo) (payload : Bytes) (ts_ms : ℕ)
      → IsReading (build_channel_mutation_batch p s channel payload ts_ms)
  unfolding build_channel_mutation_batch mutation_batch
  IsReading-build_channel_mutation_batch s channel payload ts_ms = search (reading) depth 12

  pub IsAtomic-create_channel :
      (request : CreateChannelRequest) (ts_ms : ℕ) → IsAtomic (create_channel p request ts_ms)
  unfolding create_channel store_new_channel
  IsAtomic-create_channel request ts_ms =
      search
        (
          IsAtomic-bind, reading, IsReading-authenticate, IsReading-build_channel_mutation_batch,
          IsAtomic-commit_batch, IsAtomic-finish,
        )
        depth 14

  IsReading-require_owned_channel :
      (request : MemberRequest) → IsReading (require_owned_channel p request)
  unfolding require_owned_channel
  IsReading-require_owned_channel request =
      search (reading, IsReading-authenticate, IsReading-require_channel) depth 12

  IsAtomic-store_members :
      (s : p.rocks.Snapshot) (channel : ChannelInfo) (members : List ℕ) (payload : Bytes)
      (ts_ms : ℕ)
      → IsAtomic (store_members p s channel members payload ts_ms)
  unfolding store_members
  IsAtomic-store_members s channel members payload ts_ms =
      search (IsAtomic-bind, IsReading-build_channel_mutation_batch, IsAtomic-commit_batch)

  pub IsAtomic-add_member :
      (request : MemberRequest) (ts_ms : ℕ) → IsAtomic (add_member p request ts_ms)
  unfolding add_member add_member_to
  IsAtomic-add_member request ts_ms =
      search (IsAtomic-bind, IsReading-require_owned_channel, reading, IsAtomic-store_members) depth
        12

  pub IsAtomic-remove_member :
      (request : MemberRequest) (ts_ms : ℕ) → IsAtomic (remove_member p request ts_ms)
  unfolding remove_member remove_member_from
  IsAtomic-remove_member request ts_ms =
      search
        (
          IsAtomic-bind, IsReading-require_owned_channel, reading, IsReading-IsAtomic, IsAtomic-if,
          IsAtomic-store_members,
        )
        depth 12

  -- Where `Publish` or `PublishAutoSeq` returns an error that is no fatal storage error, the state
  -- is as it was before the call.
  pub publishing-IsAtomic :
      (request : PublishRequest) (ts_ms : ℕ) (before after : Option ServerContext)
      → IsAtomic (publish p request ts_ms before after)
        × IsAtomic (publish_auto_seq p request ts_ms before after)
  publishing-IsAtomic request ts_ms before after = (
    IsAtomic-publish p request ts_ms before after,
    IsAtomic-publish_auto_seq p request ts_ms before after,
  )

  -- Where `CreateChannel`, `AddMember`, `RemoveMember`, `AllocateUuids`, `AddToken` or
  -- `DeleteToken` returns an error that is no fatal storage error, the state is as it was before
  -- the call.
  pub changes-IsAtomic :
      (creation : CreateChannelRequest) (request : MemberRequest) (ts_ms count principal : ℕ)
      (generated : Result Bytes) (token : Bytes)
      → IsAtomic (create_channel p creation ts_ms)
        × IsAtomic (add_member p request ts_ms)
        × IsAtomic (remove_member p request ts_ms)
        × IsAtomic (allocate_uuids p count)
        × IsAtomic (add_token p principal generated)
        × IsAtomic (delete_token p principal token)
  changes-IsAtomic creation request ts_ms count principal generated token = (
    IsAtomic-create_channel creation ts_ms,
    IsAtomic-add_member request ts_ms,
    IsAtomic-remove_member request ts_ms,
    IsAtomic-allocate_uuids p count,
    IsAtomic-add_token principal generated,
    IsAtomic-delete_token principal token,
  )

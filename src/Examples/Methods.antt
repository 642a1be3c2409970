-- ===== src/Examples/Methods.antt =====
-- The theorems on all methods at a server in memory.
use openevent.Common.{◌≡◌, refl, true, false, some, [], ◌∷◌, codes}
use openevent.Status.{ok, fail, Error, fatal, unavailable, text, with_storage_diagnostic}
use openevent.Proto.{filter_all, ObjectKey, visibility_public}
use openevent.Core.State.{Core, commit_batch}
use openevent.Core.State.Atomicity.{IsAtomic, IsReading}
use openevent.Core.State.Inversion.{commit_batch-fail}
use openevent.Core.Admin.{add_token, delete_token}
use openevent.Core.Atomic.Methods.{changes-IsAtomic}
use openevent.Core.Atomic.Queries.{queries-IsReading}
use openevent.Core.Channels.{
  CreateChannelRequest, MemberRequest, create_channel, add_member, remove_member,
  get_visible_channel, list_visible_channels,
}
use openevent.Core.Fetch.{FetchRequest, fetch, list_messages}
use openevent.Core.Publish.{allocate_uuids, get_status, get_seq_by_uuid}
use openevent.Storage.Faults.{StorageFaultPoint, before_commit}
use openevent.Examples.Fixtures.{server, object_token}
use openevent.Examples.Memory.{memory}

abbrev creation : CreateChannelRequest
creation = record {
  principal = 1;
  token = codes "tok";
  name = codes "more";
  visibility = visibility_public;
  protocol = [];
  description = [];
  members = 2 ∷ [];
}

abbrev membership : MemberRequest
membership = record { principal = 1; token = codes "tok"; channel_id = 1; target_principal = 3 }

abbrev poll : FetchRequest
poll = record {
  principal = 2;
  token = codes "key";
  from_seq = 0;
  limit = 10;
  only_my_recipient = false;
  channels = 1 ∷ [];
}

changes-IsAtomic_example :
    IsAtomic (create_channel memory creation 9)
    × IsAtomic (add_member memory membership 9)
    × IsAtomic (remove_member memory membership 9)
    × IsAtomic (allocate_uuids memory 3)
    × IsAtomic (add_token memory 4 (ok (codes "new")))
    × IsAtomic (delete_token memory 4 (codes "new"))
changes-IsAtomic_example =
    changes-IsAtomic memory creation membership 9 3 4 (ok (codes "new")) (codes "new")

queries-IsReading_example :
    IsReading (get_status memory 2 (codes "key"))
    × IsReading (get_seq_by_uuid memory 1)
    × IsReading (get_visible_channel memory 2 (codes "key") 1)
    × IsReading (list_visible_channels memory 2 (codes "key") filter_all)
    × IsReading (fetch memory poll)
    × IsReading (list_messages memory 0 10)
queries-IsReading_example = queries-IsReading memory 2 1 1 0 10 (codes "key") filter_all poll

abbrev object_key : ObjectKey
object_key = record { object_id = 1; object_token = object_token }

-- A server whose commits fail.
abbrev failure : Error
failure = fatal unavailable (text "disk" ∷ [])

abbrev broken_server : Core memory
broken_server = record server {
  storage = record server.storage { fault_injector = some (λ point. fail failure) };
}

abbrev reported : Error
reported =
    with_storage_diagnostic failure (text "commit storage batch" ∷ [])
      (text "injected failure before write" ∷ [])

abbrev stopped_server : Core memory
stopped_server = (commit_batch [] broken_server).1

commit_fails : commit_batch [] broken_server ≡ (fail reported, stopped_server)
unfolding commit_batch openevent.Storage.State.commit openevent.Storage.Faults.inject_storage_fault
commit_fails = refl

commit_batch-fail_example :
    (reported.requires_server_exit ≡ true)
    × (stopped_server.fatal_error_triggered ≡ true)
    × (stopped_server.handled ≡ reported ∷ [])
    × (stopped_server.commit_generation ≡ 0)
commit_batch-fail_example =
    commit_batch-fail memory [] broken_server stopped_server reported commit_fails

-- ===== src/Examples/Serving.antt =====
-- Requests to a server whose database is empty, which is a fatal storage error.
use openevent.Common.{◌≡◌, refl, true, false, List, [], ◌∷◌, inl}
use openevent.Status.{Result, ok, fail, Error, error, unavailable, is_storage_fatal}
use openevent.Core.State.{Core}
use openevent.Core.Fetch.{Page}
use openevent.Core.Snapshots.{World, started}
use openevent.Services.{SubscribeRequest, Course, run_subscription, not_accepted, failed}
use openevent.Services.Methods.{
  Rpc, list_messages_rpc, get_seq_by_uuid_rpc, delete_token_rpc, respond, after_requests,
}
use openevent.Services.Methods.Refused.{respond-fatal, shutting_down}
use openevent.Examples.Fixtures.{server}
use openevent.Examples.Memory.{memory}

abbrev broken : Core memory
broken = record server { storage = record server.storage { db = [] } }

abbrev error_of : Result Page → Error
error_of (ok page) = error unavailable ""
error_of (fail e) = e

abbrev listing : Result Page × Core memory
listing = respond memory (list_messages_rpc 0 10) broken

listing_fails : listing ≡ (fail (error_of listing.0), listing.1)
unfolding respond openevent.Services.Methods.method openevent.Core.Fetch.list_messages
    openevent.Core.State.ensure_available openevent.Core.State.snapshot_now
    openevent.Storage.State.create_snapshot openevent.Core.Fetch.list_all_messages
    openevent.Storage.Reads.get_max_seq openevent.Storage.Reads.get_required_uint64
listing_fails = refl

listing_is_fatal : is_storage_fatal (error_of listing.0) ≡ true
unfolding respond openevent.Services.Methods.method openevent.Core.Fetch.list_messages
    openevent.Core.State.ensure_available openevent.Core.State.snapshot_now
    openevent.Storage.State.create_snapshot openevent.Core.Fetch.list_all_messages
    openevent.Storage.Reads.get_max_seq openevent.Storage.Reads.get_required_uint64
    openevent.Core.State.handle_rpc_error
listing_is_fatal = refl

abbrev between : List (Rpc memory)
between = list_messages_rpc 0 10 ∷ get_seq_by_uuid_rpc 2 ∷ []

abbrev subscription : SubscribeRequest
subscription = record {
  principal = 1;
  token = [];
  from_seq = 1;
  only_my_recipient = false;
  channels = [];
}

abbrev moment : World memory
moment = record (started memory server.storage 1000 100 0) {
  core = after_requests memory between listing.1;
}

abbrev course : Course memory
course = record { called = moment; asked = moment; ready = moment; rounds = [] }

respond-fatal_example :
    (respond memory (get_seq_by_uuid_rpc 1) (after_requests memory between listing.1)
      ≡ (fail shutting_down, listing.1))
    × (run_subscription memory subscription course
        ≡ not_accepted memory (failed shutting_down moment.core))
respond-fatal_example =
    respond-fatal memory listing.1 (error_of listing.0) between (get_seq_by_uuid_rpc 1) subscription
      course (inl (list_messages_rpc 0 10, broken, listing_fails)) listing_is_fatal refl

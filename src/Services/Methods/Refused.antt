-- ===== src/Services/Methods/Refused.antt =====
-- What the services answer after a fatal storage error (src/service/grpc_services.cpp).
use openevent.Common.{
  ℕ, ◌-◌, ◌≡◌, ◌⊎◌, inl, inr, refl, ap, ◌∙◌, Bool, true, not, ◌&&◌, List, [], ◌∷◌, ltb, arith,
  Bool-cases, if◌then◌else◌,
}
use openevent.Proto.{EventMessage}
use openevent.Status.{Result, Result-cases, ok, fail, Error, error, unavailable, is_storage_fatal}
use openevent.Platform.{Platform}
use openevent.Core.State.{Core, ensure_available, fatal_storage_error, handle_rpc_error}
use openevent.Core.Publish.{
  check_publish, get_status, allocate_uuids, get_seq_by_uuid, publish, publish_auto_seq,
}
use openevent.Core.Fetch.{Page, fetch, list_messages}
use openevent.Core.Objects.{
  write_object, get_object_metadata, batch_get_object_metadata, read_object,
}
use openevent.Core.Channels.{
  create_channel, get_visible_channel, list_visible_channels, require_owned_channel, add_member,
  remove_member,
}
use openevent.Core.Admin.{add_token, delete_token}
use openevent.Services.Methods.{
  Rpc, get_status_rpc, allocate_uuids_rpc, get_seq_by_uuid_rpc, publish_rpc, publish_auto_seq_rpc,
  fetch_rpc, write_object_rpc, get_object_metadata_rpc, batch_get_object_metadata_rpc,
  read_object_rpc, create_channel_rpc, get_channel_rpc, list_channels_rpc, add_member_rpc,
  remove_member_rpc, add_token_rpc, delete_token_rpc, list_messages_rpc, method, to_grpc, respond,
  after_requests,
}
use openevent.Core.Snapshots.{World}
use openevent.Core.Subscriptions.{get_subscription_max_seq, fetch_subscription_batch}
use openevent.Services.{
  SubscribeRequest, batch_request, Sending, all_sent, refused, blocked, send, Outcome, failed,
  to_grpc_status, Round, wait_for_news, after_send, run_rounds, Course, not_accepted, from_start,
  run_subscription,
}

abbrev pub shutting_down : Error
shutting_down = error unavailable "server is shutting down due to a fatal storage error"

module _ (p : Platform) where
  method-refused :
      (q : Rpc p) (c : Core p)
      → c.fatal_error_triggered ≡ true
      → method p q c ≡ (fail shutting_down, c)
  unfolding method get_status allocate_uuids get_seq_by_uuid publish publish_auto_seq fetch
      write_object get_object_metadata batch_get_object_metadata read_object create_channel
      get_visible_channel list_visible_channels add_member remove_member add_token delete_token
      list_messages check_publish require_owned_channel ensure_available
  method-refused (get_status_rpc _ _) c h = rw h refl
  method-refused (allocate_uuids_rpc _) c h = rw h refl
  method-refused (get_seq_by_uuid_rpc _) c h = rw h refl
  method-refused (publish_rpc _ _ _ _) c h = rw h refl
  method-refused (publish_auto_seq_rpc _ _ _ _) c h = rw h refl
  method-refused (fetch_rpc _) c h = rw h refl
  method-refused (write_object_rpc _ _ _) c h = rw h refl
  method-refused (get_object_metadata_rpc _ _) c h = rw h refl
  method-refused (batch_get_object_metadata_rpc _) c h = rw h refl
  method-refused (read_object_rpc _ _ _ _) c h = rw h refl
  method-refused (create_channel_rpc _ _) c h = rw h refl
  method-refused (get_channel_rpc _ _ _) c h = rw h refl
  method-refused (list_channels_rpc _ _ _) c h = rw h refl
  method-refused (add_member_rpc _ _) c h = rw h refl
  method-refused (remove_member_rpc _ _) c h = rw h refl
  method-refused (add_token_rpc _ _) c h = rw h refl
  method-refused (delete_token_rpc _ _) c h = rw h refl
  method-refused (list_messages_rpc _ _) c h = rw h refl

  respond-refused :
      (q : Rpc p) (c : Core p)
      → c.fatal_error_triggered ≡ true
      → respond p q c ≡ (fail shutting_down, c)
  unfolding respond handle_rpc_error
  respond-refused q c h = ap (to_grpc p) (method-refused q c h)

  -- An answer that is a fatal storage error has set the flag.
  fatal_sets : (e : Error) (c : Core p) → (fatal_storage_error e c).fatal_error_triggered ≡ true
  unfolding fatal_storage_error
  fatal_sets e c = ground arith

  to_grpc-fatal :
      {A : Type 0} (x : Result A × Core p) (e : Error) (c' : Core p)
      → to_grpc p x ≡ (fail e, c')
      → is_storage_fatal e ≡ true
      → c'.fatal_error_triggered ≡ true
  unfolding handle_rpc_error
  to_grpc-fatal (ok a, c) e c' h fatal = ground arith
  to_grpc-fatal (fail x, c) e c' h fatal = ground (arith, fatal_sets x c)

  after-refused :
      (qs : List (Rpc p)) (c : Core p) → c.fatal_error_triggered ≡ true → after_requests p qs c ≡ c
  after-refused [] c h = refl
  after-refused (q ∷ qs) c h =
      ap (λ x. after_requests p qs x.1) (respond-refused q c h) ∙ after-refused qs c h

  -- A subscription that ends with an error has passed it to `HandleRpcStatus`.
  to_grpc_status-fatal :
      (x e : Error) (c c' : Core p)
      → to_grpc_status p x c ≡ failed e c'
      → is_storage_fatal e ≡ true
      → c'.fatal_error_triggered ≡ true
  unfolding handle_rpc_error
  to_grpc_status-fatal x e c c' h fatal =
      let is : x ≡ e = ground arith in
      let core : (if is_storage_fatal x then fatal_storage_error x c else c) ≡ c' = ground arith in
      ground (arith, rw is at core, fatal_sets e c)

  after_send-fatal :
      (page : Page) (version : ℕ) (waits : List (Bool × World p))
      (sent : List EventMessage × Sending) (later : List EventMessage × Outcome p) (e : Error)
      (c' : Core p)
      → (after_send p page version waits sent later).1 ≡ failed e c'
      → later.1 ≡ failed e c'
  after_send-fatal page version waits (sent, blocked) later e c' h = absurd (ground arith)
  after_send-fatal page version waits (sent, refused) later e c' h = absurd (ground arith)
  after_send-fatal page version waits (sent, all_sent) later e c' h =
      elim (Bool-cases (ltb page.last_seq page.next_seq && not (wait_for_news p version waits))) [
        | inl waiting ↦ absurd (ground (arith, waiting))
        | inr goes ↦ ground (arith, goes)
      ]

  run_rounds-fatal :
      (request : SubscribeRequest) (rounds : List (Round p)) (next_seq : ℕ) (e : Error)
      (c' : Core p)
      → (run_rounds p request rounds next_seq).1 ≡ failed e c'
      → is_storage_fatal e ≡ true
      → c'.fatal_error_triggered ≡ true
  unfolding run_rounds
  run_rounds-fatal request [] next_seq e c' h fatal = absurd (ground arith)
  run_rounds-fatal request (r ∷ rest) next_seq e c' h fatal = elim (Bool-cases r.is_cancelled) [
    | inl cancelled ↦ absurd (ground (arith, cancelled))
    | inr goes ↦
        let batch = fetch_subscription_batch p r.asked r.ready (batch_request request next_seq) in
        elim (Result-cases batch) [
          | inr (x, failed_with) ↦
              to_grpc_status-fatal x e r.ready.core c' (rw (goes, failed_with) at h) fatal
          | inl ((page, version), got) ↦
              run_rounds-fatal request rest page.next_seq e c'
                (after_send-fatal page version r.waits (send page.messages r.writes)
                  (run_rounds p request rest page.next_seq) e c' (rw (goes, got) at h))
                fatal
        ]
  ]

  from_start-fatal :
      (request : SubscribeRequest) (course : Course p) (start : Result ℕ) (e : Error) (c' : Core p)
      → (from_start p request course start).outcome ≡ failed e c'
      → is_storage_fatal e ≡ true
      → c'.fatal_error_triggered ≡ true
  from_start-fatal request course (fail x) e c' h fatal =
      to_grpc_status-fatal x e course.ready.core c' h fatal
  from_start-fatal request course (ok max) e c' h fatal =
      elim (Bool-cases (ltb max request.from_seq && ltb 1 (request.from_seq - max))) [
        | inl beyond ↦ absurd (ground (arith, beyond))
        | inr within ↦
            run_rounds-fatal request course.rounds request.from_seq e c' (rw within at h) fatal
      ]

  run_subscription-fatal :
      (request : SubscribeRequest) (course : Course p) (e : Error) (c' : Core p)
      → (run_subscription p request course).outcome ≡ failed e c'
      → is_storage_fatal e ≡ true
      → c'.fatal_error_triggered ≡ true
  unfolding run_subscription
  run_subscription-fatal request course e c' h fatal =
      from_start-fatal request course _ e c' h fatal

  run_subscription-refused :
      (request : SubscribeRequest) (course : Course p)
      → course.called.core.fatal_error_triggered ≡ true
      → run_subscription p request course ≡ not_accepted p (failed shutting_down course.ready.core)
  unfolding run_subscription get_subscription_max_seq ensure_available handle_rpc_error
  run_subscription-refused request course h = rw h refl

  -- Once a request to one of the services has been answered with a fatal storage error, or a
  -- subscription has ended with one, any later request other than `Subscribe`, whatever such
  -- requests come between, is answered with the error that the server is shutting down, and the
  -- state stays as it is; and a subscription that calls `GetSubscriptionMaxSeq` then is not
  -- accepted, sends nothing and ends with that error.
  pub respond-fatal :
      (c' : Core p) (e : Error) (between : List (Rpc p)) (later : Rpc p)
      (subscription : SubscribeRequest) (course : Course p)
      → ((q : Rpc p) × (c : Core p) × (respond p q c ≡ (fail e, c')))
        ⊎ ((earlier : SubscribeRequest) × (course₀ : Course p) × ((run_subscription p earlier
                course₀).outcome
              ≡ failed e c'))
      → is_storage_fatal e ≡ true
      → course.called.core ≡ after_requests p between c'
      → (respond p later (after_requests p between c') ≡ (fail shutting_down, c'))
        × (run_subscription p subscription course
            ≡ not_accepted p (failed shutting_down course.ready.core))
  unfolding respond
  respond-fatal c' e between later subscription course h fatal called =
      let flag : c'.fatal_error_triggered ≡ true = elim h [
        | inl (q, c, answer) ↦ to_grpc-fatal (method p q c) e c' answer fatal
        | inr (earlier, course₀, ends) ↦ run_subscription-fatal earlier course₀ e c' ends fatal
      ] in
      let same : after_requests p between c' ≡ c' = after-refused between c' flag in
      (
        ap (respond p later) same ∙ respond-refused later c' flag,
        run_subscription-refused subscription course
            (ap (λ (c : Core p). c.fatal_error_triggered) (called ∙ same) ∙ flag),
      )

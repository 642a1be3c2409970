-- ===== src/Services.antt =====
-- The services (src/service/grpc_services.cpp): the registry of subscriptions and `Subscribe`.
--
-- Time is a list of rounds: a round says what the calls of the loop met, so that a run on more rounds
-- is a longer run of the same subscription.
pub mod Methods
pub mod Registered
pub mod Streamed
use openevent.Common.{
  ℕ, ◌-◌, Bool, true, false, not, ◌&&◌, ◌||◌, Option, none, some, List, [], ◌∷◌, ◌++◌, Bytes, ltb,
  ◌==◌, elem, if◌then◌else◌,
}
use openevent.Status.{Result, ok, fail, Error, error, unavailable, out_of_range}
use openevent.Proto.{EventMessage}
use openevent.Platform.{Platform}
use openevent.Core.State.{Core, handle_rpc_error}
use openevent.Core.Fetch.{FetchRequest, Page}
use openevent.Core.Snapshots.{World, has_news}
use openevent.Core.Subscriptions.{get_subscription_max_seq, fetch_subscription_batch}

-- The members of `EventServiceImpl`, with contexts as numbers, and the contexts of which
-- `TryCancel` was called.
pub record Registry : Type 0 where
  pub subscriptions : List ℕ
  pub subscriptions_stopping : Bool
  pub cancelled : List ℕ

unfoldable pub register_subscription : ℕ → Registry → Bool × Registry
register_subscription context r = if r.subscriptions_stopping then (false, r) else (
  true,
  if elem context r.subscriptions
      then r
      else record r { subscriptions = context ∷ r.subscriptions },
)

abbrev pub erase : ℕ → List ℕ → List ℕ
erase context [] = []
erase context (c ∷ rest) =
    let later = erase context rest in if c == context then later else c ∷ later

unfoldable pub unregister_subscription : ℕ → Registry → Registry
unregister_subscription context r = record r { subscriptions = erase context r.subscriptions }

unfoldable pub stop_subscriptions : Registry → Registry
stop_subscriptions r = record r {
  subscriptions_stopping = true;
  cancelled = r.subscriptions ++ r.cancelled;
}

pub record SubscribeRequest : Type 0 where
  pub principal : ℕ
  pub token : Bytes
  pub from_seq : ℕ
  pub only_my_recipient : Bool
  pub channels : List ℕ

-- The arguments of a call of `FetchSubscriptionBatch`.
abbrev pub batch_request : SubscribeRequest → ℕ → FetchRequest
batch_request request next_seq = record {
  principal = request.principal;
  token = request.token;
  from_seq = next_seq;
  limit = 100;
  only_my_recipient = request.only_my_recipient;
  channels = request.channels;
}

-- How the loop of the writes ends: all were accepted, one was not, or one does not end.
pub data Sending : Type 0 where
  all_sent refused blocked : Sending

-- Each `Write` has its outcome in the list; what was accepted is returned.
unfoldable pub send : List EventMessage → List Bool → List EventMessage × Sending
send [] writes = ([], all_sent)
send (m ∷ ms) [] = ([], blocked)
send (m ∷ ms) (false ∷ writes) = ([], refused)
send (m ∷ ms) (true ∷ writes) = let (sent, sending) = send ms writes in (m ∷ sent, sending)

module _ (p : Platform) where
  -- `ended` is the status OK. With an error stands the core after `HandleRpcStatus`.
  pub data Outcome : Type 0 where
    running ended : Outcome
    failed : Error → Core p → Outcome
    -- A status that does not pass through `ToGrpcStatus`.
    rejected : Error → Outcome

  abbrev pub to_grpc_status : Error → Core p → Outcome
  to_grpc_status e c = let (e', c') = handle_rpc_error e c in failed e' c'

  pub record Round : Type 0 where
    -- What `IsCancelled` says at the head of the loop.
    pub is_cancelled : Bool
    -- The moments at which the batch asks for its snapshot and at which that wait ends.
    pub asked : World p
    pub ready : World p
    pub writes : List Bool
    -- For each turn of the inner loop, what `IsCancelled` says and the world that it sees.
    pub waits : List (Bool × World p)

  -- Whether the inner loop has ended.
  unfoldable pub wait_for_news : ℕ → List (Bool × World p) → Bool
  wait_for_news version [] = false
  wait_for_news version ((is_cancelled, w) ∷ rest) =
      is_cancelled || (has_news p w version || wait_for_news version rest)

  -- `later` is the loop from the next round on.
  abbrev pub after_send :
      Page
      → ℕ
      → List (Bool × World p)
      → List EventMessage × Sending
      → List EventMessage × Outcome
      → List EventMessage × Outcome
  after_send page version waits (sent, blocked) later = (sent, running)
  after_send page version waits (sent, refused) later = (sent, ended)
  after_send page version waits (sent, all_sent) later =
      if ltb page.last_seq page.next_seq && not (wait_for_news version waits)
      then (sent, running)
      else (sent ++ later.0, later.1)

  abbrev pub after_batch :
      Round → Result (Page × ℕ) → (ℕ → List EventMessage × Outcome) → List EventMessage × Outcome
  after_batch r (fail e) later = ([], to_grpc_status e r.ready.core)
  after_batch r (ok (page, version)) later =
      after_send page version r.waits (send page.messages r.writes) (later page.next_seq)

  -- The loop of `RunSubscription`.
  unfoldable pub run_rounds : SubscribeRequest → List Round → ℕ → List EventMessage × Outcome
  run_rounds request [] next_seq = ([], running)
  run_rounds request (r ∷ rest) next_seq =
      let batch =
        after_batch r (fetch_subscription_batch p r.asked r.ready (batch_request request next_seq))
          (run_rounds request rest) in
      if r.is_cancelled then ([], ended) else batch

  -- What the client sees: whether the subscription was accepted, the messages and the end.
  pub record Stream : Type 0 where
    pub accepted : Bool
    pub sent : List EventMessage
    pub outcome : Outcome

  -- The three moments of `GetSubscriptionMaxSeq`, and what follows.
  pub record Course : Type 0 where
    pub called : World p
    pub asked : World p
    pub ready : World p
    pub rounds : List Round

  abbrev pub not_accepted : Outcome → Stream
  not_accepted o = record { accepted = false; sent = []; outcome = o }

  abbrev pub from_start : SubscribeRequest → Course → Result ℕ → Stream
  from_start request course (fail e) = not_accepted (to_grpc_status e course.ready.core)
  from_start request course (ok max_seq) =
      if ltb max_seq request.from_seq && ltb 1 (request.from_seq - max_seq)
      then not_accepted (rejected (error out_of_range "from_seq exceeds max_seq + 1"))
      else let (sent, outcome) = run_rounds request course.rounds request.from_seq in
        record { accepted = true; sent = sent; outcome = outcome }

  unfoldable pub run_subscription : SubscribeRequest → Course → Stream
  run_subscription request course = from_start request course (
      get_subscription_max_seq p course.called course.asked course.ready request.principal
        request.token request.channels)

  -- `others` is what other threads do to the registry while the subscription runs.
  unfoldable pub subscribe :
      ℕ → SubscribeRequest → Course → (Registry → Registry) → Registry → Stream × Registry
  subscribe context request course others r =
      let (registered, r') = register_subscription context r in
      if not registered
      then (not_accepted (rejected (error unavailable "server is shutting down")), r')
      else (run_subscription request course, unregister_subscription context (others r'))

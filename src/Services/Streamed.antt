-- ===== src/Services/Streamed.antt =====
-- What a subscription sends (src/service/grpc_services.cpp, `RunSubscription`).
use openevent.Common.{
  ℕ, suc, ◌≡◌, ◌≢◌, ◌≤◌, ◌<◌, ◌-◌, ◌⊎◌, refl, ap, subst, Bool, true, false, not, ◌&&◌, List, [],
  ◌∷◌, ◌++◌, ltb, arith, IsU64, if_both, All, All-append, Bool-cases, inl, inr,
}
use openevent.Status.{Result, ok, fail, error, out_of_range}
use openevent.Proto.{EventMessage}
use openevent.Platform.{Platform, Lawful}
use openevent.Storage.Keys.{max_seq_key}
use openevent.Storage.Reads.Views.{Holds, Holds-unique}
use openevent.Storage.Rocks.Updates.{meta}
use openevent.Core.Fetch.{FetchRequest, Page}
use openevent.Core.Fetch.Order.{Ascends, Ascends-append, Ascends-prefix}
use openevent.Core.Fetch.Pages.{InPage, is_wanted}
use openevent.Core.Fetch.Returned.{IsPage}
use openevent.Core.Snapshots.{World, Acquired}
use openevent.Core.Subscriptions.{
  get_subscription_max_seq, acquire_subscription_snapshot, fetch_subscription_batch,
}
use openevent.Core.Subscriptions.Paged.{batch-ok, fetch_from-IsPageOf}
use openevent.Services.{
  SubscribeRequest, batch_request, Sending, all_sent, refused, blocked, send, Round, Outcome,
  running, ended, after_send, after_batch, wait_for_news, run_rounds, Course, run_subscription,
  rejected,
}

-- The messages that were accepted come first in the page.
send_prefix :
    (ms : List EventMessage) (writes : List Bool)
    → (unsent : List EventMessage) × (ms ≡ (send ms writes).0 ++ unsent)
unfolding send
send_prefix [] writes = ([], refl)
send_prefix (m ∷ ms) [] = (m ∷ ms, refl)
send_prefix (m ∷ ms) (false ∷ writes) = (m ∷ ms, refl)
send_prefix (m ∷ ms) (true ∷ writes) =
    let (unsent, split) = send_prefix ms writes in (unsent, ap (λ rest. m ∷ rest) split)

-- The messages ascend from a number on and are ones that the request asks for.
pub record IsStream (request : SubscribeRequest) (from_seq : ℕ) (sent : List EventMessage)
    : Type 0 where
  pub next_seq : ℕ
  pub ascends : Ascends from_seq next_seq sent
  pub wanted : All (λ m. is_wanted (batch_request request from_seq) m ≡ true) sent

All-prefix {κ} :
    (P : EventMessage → Type κ) (xs ys : List EventMessage) → All P (xs ++ ys) → All P xs
All-prefix P [] ys all = tt
All-prefix P (x ∷ xs) ys (here, all) = (here, All-prefix P xs ys all)

InPage-wanted :
    (request : FetchRequest) (n : ℕ) (ms : List EventMessage)
    → All (InPage request n) ms
    → All (λ m. is_wanted request m ≡ true) ms
InPage-wanted request n [] all = tt
InPage-wanted request n (m ∷ ms) ((_, _, w), all) = (w, InPage-wanted request n ms all)

IsStream-none : (request : SubscribeRequest) (n : ℕ) → IsStream request n []
IsStream-none request n = record { next_seq = n; ascends = omega arith; wanted = tt }

IsStream-append :
    (request : SubscribeRequest) (lo n : ℕ) (ms ns : List EventMessage)
    → Ascends lo n ms
    → All (λ m. is_wanted (batch_request request lo) m ≡ true) ms
    → IsStream request n ns
    → IsStream request lo (ms ++ ns)
IsStream-append request lo n ms ns order wanted later = record {
  next_seq = later.next_seq;
  ascends = Ascends-append lo n later.next_seq ms ns order later.ascends;
  wanted =
      All-append (λ m. is_wanted (batch_request request lo) m ≡ true) ms ns wanted later.wanted;
}

module _ (p : Platform) where
  -- The snapshot of the round shows this stored maximum.
  abbrev ShowsMax : Round p → ℕ → Type 0
  ShowsMax r max =
      (a : Acquired p)
      → acquire_subscription_snapshot p r.asked r.ready ≡ ok a
      → Holds (p.rocks.view a.snapshot meta max_seq_key) max

  -- The stored maximum, with its successor, fits 64 bits in each round and never falls.
  abbrev pub Grows : ℕ → List (Round p) → Type 0
  Grows max [] = Unit
  Grows max (r ∷ rest) =
      (max' : ℕ) × (max ≤ max') × IsU64 (suc max') × ShowsMax r max' × Grows max' rest

  after_send-IsStream :
      (request : SubscribeRequest) (next version : ℕ) (page : Page) (waits : List (Bool × World p))
      (x : List EventMessage × Sending) (later : List EventMessage × Outcome p)
      → Ascends next page.next_seq x.0
      → All (λ m. is_wanted (batch_request request next) m ≡ true) x.0
      → IsStream request page.next_seq later.0
      → IsStream request next (after_send p page version waits x later).0
  after_send-IsStream request next version page waits (sent, blocked) later order wanted rest =
      record { next_seq = page.next_seq; ascends = order; wanted = wanted }
  after_send-IsStream request next version page waits (sent, refused) later order wanted rest =
      record { next_seq = page.next_seq; ascends = order; wanted = wanted }
  after_send-IsStream request next version page waits (sent, all_sent) later order wanted rest =
      if_both (λ (x : List EventMessage × Outcome p). IsStream request next x.0)
        (ltb page.last_seq page.next_seq && not (wait_for_news p version waits)) (sent, running) _
        (record { next_seq = page.next_seq; ascends = order; wanted = wanted })
        (IsStream-append request next page.next_seq sent later.0 order wanted rest)

  -- The page of a round is one of the log that grows.
  round-IsPage :
      (law : Lawful p) (r : Round p) (request : FetchRequest) (max : ℕ) (page : Page) (version : ℕ)
      → ShowsMax r max
      → IsU64 (suc max)
      → request.limit ≢ 0
      → fetch_subscription_batch p r.asked r.ready request ≡ ok (page, version)
      → IsPage request max page
  round-IsPage law r request max page version shows small some_limit h =
      let (a, got, c', read) = batch-ok p r.asked r.ready request page version h in
      let o = fetch_from-IsPageOf p law a.snapshot request page r.ready.core c' some_limit read in
      let same : o.max ≡ max = Holds-unique _ o.max max o.max_stored (shows a got) in
      subst (λ m. IsPage request m page) same (o.is_page (rw same small))

  round-IsStream :
      (law : Lawful p) (request : SubscribeRequest) (r : Round p) (next max : ℕ)
      (later : ℕ → List EventMessage × Outcome p) (batch : Result (Page × ℕ))
      → next ≤ suc max
      → IsU64 (suc max)
      → ShowsMax r max
      → fetch_subscription_batch p r.asked r.ready (batch_request request next) ≡ batch
      → ((n : ℕ) → n ≤ suc max → IsStream request n (later n).0)
      → IsStream request next (after_batch p r batch later).0
  round-IsStream law request r next max later (fail e) le small shows h rest =
      IsStream-none request next
  round-IsStream law request r next max later (ok (page, version)) le small shows h rest =
      let i =
        round-IsPage law r (batch_request request next) max page version shows small (omega arith)
          h in
      let (unsent, split) = send_prefix page.messages r.writes in
      let sent = (send page.messages r.writes).0 in
      let ordered : Ascends next page.next_seq (sent ++ unsent) =
        subst (Ascends next page.next_seq) split (i.ascends le) in
      let wanted : All (λ m. is_wanted (batch_request request next) m ≡ true) (sent ++ unsent) =
        subst (All (λ m. is_wanted (batch_request request next) m ≡ true)) split (
          InPage-wanted (batch_request request next) page.next_seq page.messages
            i.messages_in_page) in
      after_send-IsStream request next version page r.waits (send page.messages r.writes)
        (later page.next_seq) (Ascends-prefix next page.next_seq sent unsent ordered)
        (All-prefix _ sent unsent wanted) (rest page.next_seq i.next_seq)

  run_rounds-IsStream :
      (law : Lawful p) (request : SubscribeRequest) (rounds : List (Round p)) (next max : ℕ)
      → next ≤ suc max
      → Grows max rounds
      → IsStream request next (run_rounds p request rounds next).0
  unfolding run_rounds
  run_rounds-IsStream law request [] next max le grows = IsStream-none request next
  run_rounds-IsStream law request (r ∷ rest) next max le (max', up, small, shows, grows) =
      if_both (λ (x : List EventMessage × Outcome p). IsStream request next x.0) r.is_cancelled
        ([], ended) _ (IsStream-none request next)
        (round-IsStream law request r next max' (run_rounds p request rest) _ (omega arith) small
          shows refl (λ n bound. run_rounds-IsStream law request rest n max' bound grows))

  -- Let `GetSubscriptionMaxSeq` return a maximum, and let the stored maximum that a round of the
  -- loop reads, with its successor, fit 64 bits and never lie below the one read before. Then
  -- either the asked number is at most one above the maximum, the subscription is accepted, and the
  -- messages that it sends, over any number of rounds and wherever it ends, have strictly ascending
  -- numbers from the asked one on, and are each of a channel that the request names, if it names
  -- any, and with the principal among the recipients, if the request says so; or the asked number
  -- is greater, the subscription is refused as out of range, and nothing is sent.
  pub run_subscription-IsStream :
      (law : Lawful p) (request : SubscribeRequest) (course : Course p) (max : ℕ)
      → get_subscription_max_seq p course.called course.asked course.ready request.principal
          request.token request.channels
        ≡ ok max
      → Grows max course.rounds
      → let stream = run_subscription p request course in
        ((request.from_seq ≤ suc max)
          × (stream.accepted ≡ true)
          × IsStream request request.from_seq stream.sent)
        ⊎ ((suc max < request.from_seq)
            × (stream.outcome ≡ rejected (error out_of_range "from_seq exceeds max_seq + 1"))
            × (stream.accepted ≡ false)
            × (stream.sent ≡ []))
  unfolding run_subscription
  run_subscription-IsStream law request course max read grows =
      elim (Bool-cases (ltb max request.from_seq && ltb 1 (request.from_seq - max))) [
        | inl beyond ↦ inr (
          ground (arith, beyond),
          rw (read, beyond) refl,
          rw (read, beyond) refl,
          rw (read, beyond) refl,
        )
        | inr within ↦ inl (
          ground (arith, within),
          rw (read, within) refl,
          rw (read, within)
              (run_rounds-IsStream law request course.rounds request.from_seq max
                (ground (arith, within)) grows),
        )
      ]

-- ===== src/Core/Fetch.antt =====
-- Reading pages of messages (src/service/open_event_core.cpp): `Fetch`, `FetchVisible`,
-- `ListMessages`, `ListAllMessages` and `ValidateReadableChannels`.
pub mod Order
pub mod Pages
pub mod Returned
pub mod Shown
pub mod Stored
pub mod Visible
use openevent.Common.{
  ℕ, ◌+◌, ◌-◌, ◌%◌, min, Bool, true, not, ◌&&◌, ◌||◌, Option, none, some, List, [], ◌∷◌, ◌++◌, map,
  Bytes, length, elem, is_empty, ltb, leb, ◌==◌, if◌then◌else◌, u64_mod,
}
use openevent.Status.{Result, ok, fail, error, invalid_argument, permission_denied, corruption}
use openevent.Proto.{EventMessage}
use openevent.Platform.{Platform}
use openevent.Storage.Reads.{get_max_seq}
use openevent.Storage.Scan.{ScanAction, go_on, stop_before, stop_after, Visitor, scan_messages}
use openevent.Core.Access.{can_read, has_recipient}
use openevent.Core.Publish.{authenticate, load_channel, require_channel}
use openevent.Core.State.{M, pure, refuse_if, ◌>>=◌, ◌>>◌, ensure_available, snapshot_now}

-- `FetchResponse` and `ListMessagesResponse`.
pub record Page : Type 0 where
  pub messages : List EventMessage
  pub next_seq : ℕ
  pub last_seq : ℕ

pub record FetchRequest : Type 0 where
  pub principal : ℕ
  pub token : Bytes
  pub from_seq : ℕ
  pub limit : ℕ
  pub only_my_recipient : Bool
  pub channels : List ℕ

-- What the visitor of a scan captures: the messages of the response, their size, and what is known
-- of channels (`readable_channels`, `known_channels`).
pub record Gathered : Type 0 where
  pub messages : List EventMessage
  pub response_bytes : ℕ
  pub channels : List (ℕ × Bool)

unfoldable pub find_channel : ℕ → List (ℕ × Bool) → Option Bool
find_channel id [] = none
find_channel id ((j, b) ∷ rest) = if j == id then some b else find_channel id rest

abbrev pub all_readable : List ℕ → List (ℕ × Bool)
all_readable = map (λ id. (id, true))

module _ (p : Platform) where
  -- Whether the page is too full for a message of this size.
  unfoldable pub is_too_big : ℕ → Gathered → ℕ → Bool
  is_too_big soft_limit g message_bytes =
      ltb 0 (length g.messages) && ltb (soft_limit - min g.response_bytes soft_limit) message_bytes

  -- The end of both visitors: the message is added if it fits.
  unfoldable pub gather : ℕ → ℕ → Gathered → EventMessage → Gathered × ScanAction
  unfolding is_too_big
  gather soft_limit limit g message =
      let message_bytes = p.byte_size message in
      let messages' = g.messages ++ message ∷ [] in
      if is_too_big soft_limit g message_bytes then (g, stop_before) else (
        record g { messages = messages'; response_bytes = g.response_bytes + message_bytes },
        if leb limit (length messages') then stop_after else go_on,
      )

  -- Whether the principal may read the channel of a message; a channel is loaded once.
  unfoldable pub readable_channel : p.rocks.Snapshot → ℕ → Gathered → ℕ → Result (Gathered × Bool)
  readable_channel snapshot principal g channel_id = elim (find_channel channel_id g.channels) [
    | some readable ↦ ok (g, readable)
    | none ↦ elim (load_channel p snapshot channel_id) [
      | fail e ↦ fail e
      | ok none ↦ fail (corruption "scan visible messages" "message references a missing channel")
      | ok (some channel) ↦
          let readable = can_read channel principal in
          ok (record g { channels = (channel_id, readable) ∷ g.channels }, readable)
    ]
  ]

  module _ (snapshot : p.rocks.Snapshot) (request : FetchRequest) (soft_limit : ℕ) where
    unfoldable pub visit_readable : Gathered × Bool → EventMessage → Gathered × ScanAction
    visit_readable (g, readable) message =
        if not readable
          || (request.only_my_recipient && not (has_recipient message request.principal))
        then (g, go_on)
        else gather soft_limit request.limit g message

    unfoldable pub visit_visible : Visitor Gathered
    unfolding visit_readable
    visit_visible g message =
        if not (is_empty request.channels) && not (elem message.channel_id request.channels)
        then ok (g, go_on)
        else elim (readable_channel snapshot request.principal g message.channel_id) [
          | fail e ↦ fail e
          | ok found ↦ ok (visit_readable found message)
        ]

  abbrev page_of : ℕ → Result (Gathered × ℕ) → Result Page
  page_of max_seq (fail e) = fail e
  page_of max_seq (ok (g, next_seq)) =
      ok (record { messages = g.messages; next_seq = next_seq; last_seq = max_seq })

  abbrev past_the_end : ℕ → Result Page
  past_the_end max_seq =
      ok (record { messages = []; next_seq = (max_seq + 1) % u64_mod; last_seq = max_seq })

  unfoldable pub visible_page : p.rocks.Snapshot → FetchRequest → ℕ → ℕ → ℕ → Result Page
  visible_page snapshot request soft_limit max_scan_records max_seq =
      if ltb max_seq request.from_seq
      then past_the_end max_seq
      else page_of max_seq (
          scan_messages p snapshot request.from_seq max_seq max_scan_records
            (visit_visible snapshot request soft_limit)
            (record {
              messages = [];
              response_bytes = 0;
              channels = all_readable request.channels;
            }))

  unfoldable pub fetch_visible : p.rocks.Snapshot → FetchRequest → M p Page
  unfolding visible_page
  fetch_visible snapshot request c = elim (get_max_seq p snapshot) [
    | fail e ↦ (fail e, c)
    | ok max_seq ↦
        (visible_page snapshot request c.response_soft_limit_bytes c.max_scan_records max_seq, c)
  ]

  -- A channel that occurs again in the list is not looked at again.
  unfoldable pub validate_readable : p.rocks.Snapshot → ℕ → List ℕ → List ℕ → M p (Unit {0})
  validate_readable snapshot principal validated [] = pure tt
  validate_readable snapshot principal validated (channel_id ∷ rest) =
      let later = validate_readable snapshot principal validated rest in
      let next = validate_readable snapshot principal (channel_id ∷ validated) rest in
      if elem channel_id validated then later else (do
        channel ← require_channel p snapshot channel_id
        refuse_if (not (can_read channel principal)) (error permission_denied "channel not visible")
        next)

  unfoldable pub validate_readable_channels : p.rocks.Snapshot → ℕ → List ℕ → M p (Unit {0})
  unfolding validate_readable
  validate_readable_channels snapshot principal channels =
      validate_readable snapshot principal [] channels

  -- The common part of `Fetch` and `FetchSubscriptionBatch`.
  unfoldable pub fetch_from : p.rocks.Snapshot → FetchRequest → M p Page
  fetch_from snapshot request = do
    authenticate p snapshot request.principal request.token
    validate_readable_channels snapshot request.principal request.channels
    fetch_visible snapshot request

  unfoldable pub fetch : FetchRequest → M p Page
  fetch request = do
    ensure_available
    refuse_if (request.limit == 0 || ltb 1000 request.limit)
        (error invalid_argument "limit must be in 1..1000")
    snapshot ← snapshot_now
    fetch_from snapshot request

  -- `ListAllMessages`: every channel only has to exist.
  unfoldable pub visit_any : p.rocks.Snapshot → ℕ → ℕ → Visitor Gathered
  visit_any snapshot soft_limit limit g message =
      elim (find_channel message.channel_id g.channels) [
        | some _ ↦ ok (gather soft_limit limit g message)
        | none ↦ elim (load_channel p snapshot message.channel_id) [
          | fail e ↦ fail e
          | ok none ↦
              fail (corruption "scan subscription messages" "message references a missing channel")
          | ok (some channel) ↦ ok (
              gather soft_limit limit
                (record g { channels = (message.channel_id, true) ∷ g.channels }) message)
        ]
      ]

  unfoldable pub any_page : p.rocks.Snapshot → ℕ → ℕ → ℕ → ℕ → ℕ → Result Page
  any_page snapshot from_seq limit soft_limit max_scan_records max_seq =
      if ltb max_seq from_seq
      then past_the_end max_seq
      else page_of max_seq (
          scan_messages p snapshot from_seq max_seq max_scan_records
            (visit_any snapshot soft_limit limit)
            (record { messages = []; response_bytes = 0; channels = [] }))

  unfoldable pub list_all_messages : p.rocks.Snapshot → ℕ → ℕ → M p Page
  unfolding any_page
  list_all_messages snapshot from_seq limit c = elim (get_max_seq p snapshot) [
    | fail e ↦ (fail e, c)
    | ok max_seq ↦
        (any_page snapshot from_seq limit c.response_soft_limit_bytes c.max_scan_records max_seq, c)
  ]

  unfoldable pub list_messages : ℕ → ℕ → M p Page
  list_messages from_seq limit = do
    ensure_available
    refuse_if (limit == 0 || ltb 1000 limit) (error invalid_argument "limit must be in 1..1000")
    snapshot ← snapshot_now
    list_all_messages snapshot from_seq limit

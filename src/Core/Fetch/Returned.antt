-- ===== src/Core/Fetch/Returned.antt =====
-- The page that `Fetch` returns.
use openevent.Common.{
  ℕ, suc, ◌+◌, ◌%◌, ◌≤◌, ◌≡◌, ◌≢◌, ◌⊎◌, inl, inr, refl, sym, subst, u64_mod, [], arith, ltb, length,
  All, IsU64, Bool-cases,
}
use openevent.Status.{Result, ok, Result-cases}
use openevent.Platform.{Platform, Lawful}
use openevent.Storage.Keys.{max_seq_key, numeric_key, message_prefix}
use openevent.Storage.Reads.{get_max_seq}
use openevent.Storage.Reads.Views.{Holds, Holds-unique, get_max_seq-Holds, create_snapshot-view}
use openevent.Storage.Rocks.Updates.{meta, messages}
use openevent.Storage.Scan.{scan_messages}
use openevent.Storage.Scan.Window.{scan_messages-ok}
use openevent.Storage.State.{create_snapshot}
use openevent.Core.Fetch.{
  FetchRequest, Gathered, Page, visit_visible, visible_page, all_readable, fetch_visible,
  fetch_from, fetch, validate_readable_channels,
}
use openevent.Core.Fetch.Order.{Ascends}
use openevent.Core.Fetch.Pages.{InPage, Open, Closed, stay, kept, visit_visible-Visited}
use openevent.Core.Publish.{authenticate}
use openevent.Core.State.{Core, M, ◌>>◌, ensure_available, snapshot_now}
use openevent.Core.State.Inversion.{>>=-ok, stored}

-- A page of a log whose maximum is `max`: at most as many messages as asked for, all wanted, from
-- the asked number on and before the number at which the next page starts, which is at most one
-- above the maximum; a page that does not go forward is empty, and the numbers ascend.
pub record IsPage (request : FetchRequest) (max : ℕ) (page : Page) : Type 0 where
  pub last_seq : page.last_seq ≡ max
  pub next_seq : page.next_seq ≤ suc max
  pub forward : (request.from_seq ≤ page.next_seq) ⊎ (page.messages ≡ [])
  pub few : length page.messages ≤ request.limit
  pub ascends : request.from_seq ≤ suc max → Ascends request.from_seq page.next_seq page.messages
  pub messages_in_page : All (InPage request page.next_seq) page.messages

module _ (p : Platform) where
  no_messages :
      (request : FetchRequest) (max : ℕ) (page : Page)
      → page ≡ record { messages = []; next_seq = suc max; last_seq = max }
      → IsPage request max page
  no_messages request max page e = subst (IsPage request max) (sym e) (record {
    last_seq = refl;
    next_seq = omega arith;
    forward = inr refl;
    few = omega arith;
    ascends = λ h. h;
    messages_in_page = tt;
  })

  scanned :
      (s : p.rocks.Snapshot) (request : FetchRequest) (soft_limit max n : ℕ) (g : Gathered)
      (page : Page)
      → Closed p s request soft_limit max n g
      → page ≡ record { messages = g.messages; next_seq = n; last_seq = max }
      → IsPage request max page
  scanned s request soft_limit max n g page (a, b, l, order, all) e =
      subst (IsPage request max) (sym e) (record {
        last_seq = refl;
        next_seq = b;
        forward = inl a;
        few = l;
        ascends = λ h. order;
        messages_in_page = all;
      })

  visible_page-IsPage :
      (s : p.rocks.Snapshot) (request : FetchRequest) (soft_limit max_scan max : ℕ) (page : Page)
      → IsU64 (suc max)
      → request.limit ≢ 0
      → visible_page p s request soft_limit max_scan max ≡ ok page
      → IsPage request max page
  unfolding visible_page
  visible_page-IsPage s request soft_limit max_scan max page small some_limit h =
      let start : Gathered = record {
        messages = [];
        response_bytes = 0;
        channels = all_readable request.channels;
      } in
      let scan : Result (Gathered × ℕ) =
        scan_messages p s request.from_seq max max_scan (visit_visible p s request soft_limit)
          start in
      let next : (max + 1) % u64_mod ≡ suc max = omega arith in
      elim (Bool-cases (ltb max request.from_seq)) [
        | inl past ↦ no_messages request max page (ground (arith, past, next))
        | inr inside ↦ elim (Result-cases scan) [
          | inr (e, failed) ↦ absurd (ground (arith, inside, failed))
          | inl ((g, n), done) ↦
              scanned s request soft_limit max n g page
                (scan_messages-ok p (Open p s request soft_limit max)
                  (Closed p s request soft_limit max) (visit_visible p s request soft_limit)
                  (p.rocks.seek s messages (numeric_key message_prefix request.from_seq)).at_end max
                  max_scan (stay p s request soft_limit max)
                  (λ seq m g g' a held le is visits.
                    kept p s request soft_limit max seq m g g' a small held le is
                      (visit_visible-Visited p s request soft_limit g g' m a visits))
                  s request.from_seq n start g refl
                  (
                    omega arith,
                    ground (arith, inside),
                    ground (arith, some_limit),
                    ground (arith, inside),
                    tt,
                  )
                  done)
                (ground (arith, inside, done))
        ]
      ]

  pub fetch_visible-IsPage :
      (law : Lawful p) (s : p.rocks.Snapshot) (request : FetchRequest) (max : ℕ) (page : Page)
      (c c' : Core p)
      → Holds (p.rocks.view s meta max_seq_key) max
      → IsU64 (suc max)
      → request.limit ≢ 0
      → fetch_visible p s request c ≡ (ok page, c')
      → IsPage request max page
  unfolding fetch_visible
  fetch_visible-IsPage law s request max page c c' at₀ small some_limit h =
      elim (Result-cases (get_max_seq p s)) [
        | inr (e, failed) ↦ absurd (ground (arith, failed))
        | inl (m, read) ↦
            let same : m ≡ max = Holds-unique _ m max (get_max_seq-Holds p law s m read) at₀ in
            let done : visible_page p s request c.response_soft_limit_bytes c.max_scan_records m
                ≡ ok page =
              ground (arith, read) in
            visible_page-IsPage s request c.response_soft_limit_bytes c.max_scan_records max page
              small some_limit (rw same at done)
      ]

  -- `Fetch` from the snapshot on.
  pub fetch-ok :
      (request : FetchRequest) (page : Page) (c c' : Core p)
      → fetch p request c ≡ (ok page, c')
      → (s : p.rocks.Snapshot) × (create_snapshot p c.storage.db ≡ ok s)
        × (request.limit ≢ 0)
        × (request.limit ≤ 1000)
        × (fetch_from p s request c ≡ (ok page, c'))
  unfolding fetch ensure_available snapshot_now
  fetch-ok request page c c' h = elim (Result-cases (create_snapshot p c.storage.db)) [
    | inr (e, failed) ↦ absurd (ground (arith, failed))
    | inl (s, taken) ↦
        (s, taken, ground (arith, taken), ground (arith, taken), ground (arith, taken))
  ]

  pub fetch_from-ok :
      (s : p.rocks.Snapshot) (request : FetchRequest) (page : Page) (c c' : Core p)
      → fetch_from p s request c ≡ (ok page, c')
      → (c₁ : Core p) × (fetch_visible p s request c₁ ≡ (ok page, c'))
  unfolding fetch_from
  fetch_from-ok s request page c c' h =
      let last : M p Page = fetch_visible p s request in
      let check : M p (Unit {0}) =
        validate_readable_channels p s request.principal request.channels in
      let (_, c₁, e₁, h₁) =
        >>=-ok (authenticate p s request.principal request.token) (λ _. check >> last) c h in
      let (_, c₂, e₂, h₂) = >>=-ok check (λ _. last) c₁ h₁ in (c₂, h₂)

  -- A `Fetch` that returns was asked for at most 1000 messages. If the stored maximum and its
  -- successor fit 64 bits, the page names that maximum; it has at most as many messages as asked
  -- for, each of a channel that the request names, if it names any, with the principal among its
  -- recipients, if the request says so, from the asked number on and before the number at which the
  -- next page starts, which is at most one above the maximum; a page whose next number lies before
  -- the asked number is empty; and the numbers of its messages ascend strictly, if the asked number
  -- is at most one above the maximum.
  pub fetch-IsPage :
      (law : Lawful p) (request : FetchRequest) (max : ℕ) (page : Page) (c c' : Core p)
      → Holds (stored c meta max_seq_key) max
      → IsU64 (suc max)
      → fetch p request c ≡ (ok page, c')
      → (request.limit ≤ 1000) × IsPage request max page
  fetch-IsPage law request max page c c' at₀ small h =
      let (s, taken, some_limit, at_most, h₁) = fetch-ok request page c c' h in
      let seen : p.rocks.view s ≡ stored c = create_snapshot-view p law c.storage.db s taken in
      let (c₁, h₂) = fetch_from-ok s request page c c' h₁ in
      (at_most, fetch_visible-IsPage law s request max page c₁ c' (rw seen at₀) small some_limit h₂)

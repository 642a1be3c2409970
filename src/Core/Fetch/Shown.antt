-- ===== src/Core/Fetch/Shown.antt =====
-- `Fetch` that returns, in terms of what is stored: who asked, and of which channels it tells.
use openevent.Common.{
  ℕ, ◌≡◌, ◌≢◌, ◌⊎◌, inl, inr, refl, true, some, List, [], ◌∷◌, arith, ◌==◌, All, Bool-cases,
}
use openevent.Status.{ok, Result-cases}
use openevent.Proto.{EventMessage, ChannelInfo}
use openevent.Platform.{Platform, Lawful}
use openevent.Storage.Keys.{numeric_key, token_key, channel_prefix}
use openevent.Storage.Reads.{get_max_seq, has_token}
use openevent.Storage.Reads.Views.{
  HoldsChannel, create_snapshot-view, get_channel-HoldsChannel, has_token-true,
}
use openevent.Storage.Rocks.Updates.{meta, Contents}
use openevent.Core.Access.{can_read}
use openevent.Core.Fetch.{
  FetchRequest, Page, visible_page, fetch_visible, fetch_from, fetch, validate_readable_channels,
  validate_readable,
}
use openevent.Core.Fetch.Returned.{fetch-ok}
use openevent.Core.Fetch.Visible.{Readable, visible_page-Shows, validate_readable-ok}
use openevent.Core.Publish.{authenticate}
use openevent.Core.Publish.Authorized.{load_channel-get_channel}
use openevent.Core.Publish.Checks.{authenticate-ok}
use openevent.Core.State.{Core, M, ◌>>◌}
use openevent.Core.State.Inversion.{>>=-ok, stored}

module _ (p : Platform) where
  -- The channel is the system channel, or it is stored and lets the principal read.
  abbrev pub IsVisible : Contents → ℕ → ℕ → Type 0
  IsVisible c principal id =
      (id ≡ 0)
      ⊎ ((channel : ChannelInfo) × HoldsChannel p (c meta (numeric_key channel_prefix id)) id
            channel
          × (can_read channel principal ≡ true))

  Readable-IsVisible :
      (law : Lawful p) (s : p.rocks.Snapshot) (principal id : ℕ)
      → Readable p s principal id
      → IsVisible (p.rocks.view s) principal id
  Readable-IsVisible law s principal id (channel, loaded, may) = elim (Bool-cases (id == 0)) [
    | inl system ↦ inl (ground (arith, system))
    | inr other ↦
        let nonzero : id ≢ 0 = ground (arith, other) in
        inr (
          channel,
          get_channel-HoldsChannel p law s id channel
              (rw (load_channel-get_channel p s id nonzero) at loaded),
          may,
        )
  ]

  pub All-IsVisible :
      (law : Lawful p) (s : p.rocks.Snapshot) (principal : ℕ) (ms : List EventMessage)
      → All (λ m. Readable p s principal m.channel_id) ms
      → All (λ m. IsVisible (p.rocks.view s) principal m.channel_id) ms
  All-IsVisible law s principal [] all = tt
  All-IsVisible law s principal (m ∷ ms) (here, rest) =
      (Readable-IsVisible law s principal m.channel_id here, All-IsVisible law s principal ms rest)

  fetch_visible-ok :
      (s : p.rocks.Snapshot) (request : FetchRequest) (page : Page) (c c' : Core p)
      → fetch_visible p s request c ≡ (ok page, c')
      → (max : ℕ) × (visible_page p s request c.response_soft_limit_bytes c.max_scan_records max
          ≡ ok page)
  unfolding fetch_visible
  fetch_visible-ok s request page c c' h = elim (Result-cases (get_max_seq p s)) [
    | inr (e, failed) ↦ absurd (ground (arith, failed))
    | inl (max, read) ↦ (max, ground (arith, read))
  ]

  pub fetch_from-Readable :
      (s : p.rocks.Snapshot) (request : FetchRequest) (page : Page) (c c' : Core p)
      → fetch_from p s request c ≡ (ok page, c')
      → (has_token p s request.principal request.token ≡ ok true)
        × All (λ m. Readable p s request.principal m.channel_id) page.messages
  unfolding fetch_from validate_readable_channels
  fetch_from-Readable s request page c c' h =
      let last : M p Page = fetch_visible p s request in
      let check : M p (Unit {0}) = validate_readable p s request.principal [] request.channels in
      let (_, c₁, e₁, h₁) =
        >>=-ok (authenticate p s request.principal request.token) (λ _. check >> last) c h in
      let (_, c₂, e₂, h₂) = >>=-ok check (λ _. last) c₁ h₁ in
      let (_, _, known) = authenticate-ok p s request.principal request.token c c₁ e₁ in
      let (max, shown) = fetch_visible-ok s request page c₂ c' h₂ in
      (
        known,
        visible_page-Shows p s request.principal request c₂.response_soft_limit_bytes
            c₂.max_scan_records max page refl
            (validate_readable-ok p s request.principal [] request.channels c₁ c₂ tt e₂) shown,
      )

  -- When a `Fetch` that returns a page started, the token of the principal was stored, and each
  -- message of the page is of the system channel or of a stored channel that the principal could
  -- read.
  pub fetch-IsVisible :
      (law : Lawful p) (request : FetchRequest) (page : Page) (c c' : Core p)
      → fetch p request c ≡ (ok page, c')
      → (stored c meta (token_key request.principal request.token) ≡ some [])
        × All (λ m. IsVisible (stored c) request.principal m.channel_id) page.messages
  fetch-IsVisible law request page c c' h =
      let (s, taken, _, _, h₁) = fetch-ok p request page c c' h in
      let seen : p.rocks.view s ≡ stored c = create_snapshot-view p law c.storage.db s taken in
      let (known, readable) = fetch_from-Readable s request page c c' h₁ in
      (
        rw seen at (has_token-true p law s request.principal request.token known),
        rw seen at (All-IsVisible law s request.principal page.messages readable),
      )

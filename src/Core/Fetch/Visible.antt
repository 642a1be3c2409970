-- ===== src/Core/Fetch/Visible.antt =====
-- A page of `Fetch` shows only messages of channels that the principal may read.
use openevent.Common.{
  ℕ, ◌+◌, ◌≡◌, inl, inr, refl, sym, ◌∙◌, subst, Bool, true, not, ◌&&◌, ◌||◌, none, some, List, [],
  ◌∷◌, ◌++◌, arith, ltb, ◌==◌, elem, is_empty, All, All-append, Bool-cases, Option-cases,
}
use openevent.Status.{Result, ok, Result-cases, error, permission_denied}
use openevent.Proto.{EventMessage, ChannelInfo}
use openevent.Platform.{Platform}
use openevent.Storage.Keys.{numeric_key, message_prefix}
use openevent.Storage.Rocks.Updates.{messages}
use openevent.Storage.Scan.{ScanAction, go_on, stop_before, stop_after, scan_messages}
use openevent.Storage.Scan.Window.{Outcome, scan_messages-ok}
use openevent.Core.Access.{has_recipient, can_read}
use openevent.Core.Fetch.{
  FetchRequest, Gathered, Page, find_channel, is_too_big, gather, readable_channel, visit_readable,
  visit_visible, visible_page, all_readable, validate_readable,
}
use openevent.Core.Publish.{load_channel, require_channel}
use openevent.Core.State.{Core, M, refuse_if, ◌>>=◌, ◌>>◌}
use openevent.Core.State.Inversion.{>>=-ok}

All-elem {κ} : (P : ℕ → Type κ) (n : ℕ) (xs : List ℕ) → elem n xs ≡ true → All P xs → P n
All-elem P n [] e all = absurd cc
All-elem P n (x ∷ xs) e (here, rest) = elim (Bool-cases (x == n)) [
  | inl same ↦ subst (λ (k : ℕ). P k) (ground (arith, same)) here
  | inr other ↦ All-elem P n xs (ground (arith, e, other)) rest
]

module _ (p : Platform) (s : p.rocks.Snapshot) (principal : ℕ) where
  -- In the snapshot the channel exists, and the principal may read it.
  abbrev pub Readable : ℕ → Type 0
  Readable id =
      (channel : ChannelInfo) × (load_channel p s id ≡ ok (some channel))
      × (can_read channel principal ≡ true)

  -- What is known of channels is right where it allows to read.
  abbrev Known : ℕ × Bool → Type 0
  Known entry = entry.1 ≡ true → Readable entry.0

  find_channel-Known :
      (id : ℕ) (channels : List (ℕ × Bool)) (b : Bool)
      → All Known channels
      → find_channel id channels ≡ some b
      → b ≡ true
      → Readable id
  unfolding find_channel
  find_channel-Known id [] b all h e = absurd cc
  find_channel-Known id ((j, x) ∷ rest) b (here, all) h e = elim (Bool-cases (j == id)) [
    | inl same ↦
        subst (λ (k : ℕ). Readable k) (ground (arith, same)) (here (ground (arith, same, h, e)))
    | inr other ↦ find_channel-Known id rest b all (ground (arith, other, h)) e
  ]

  Readable-Known : (ids : List ℕ) → All Readable ids → All Known (all_readable ids)
  Readable-Known [] all = tt
  Readable-Known (id ∷ ids) (here, all) = ((λ _. here), Readable-Known ids all)

  -- What the visitor keeps.
  pub record Shows (g : Gathered) : Type 0 where
    pub known : All Known g.channels
    pub readable : All (λ m. Readable m.channel_id) g.messages

  readable_channel-Shows :
      (id : ℕ) (g g' : Gathered) (b : Bool)
      → Shows g
      → readable_channel p s principal g id ≡ ok (g', b)
      → Shows g' × (b ≡ true → Readable id)
  unfolding readable_channel
  readable_channel-Shows id g g' b shows h = elim (Option-cases (find_channel id g.channels)) [
    | inr (x, found) ↦
        let same : g ≡ g' = ground (arith, found) in
        (
          subst Shows same shows,
          λ e. find_channel-Known id g.channels x shows.known found (ground (arith, found, e)),
        )
    | inl unknown ↦ elim (Result-cases (load_channel p s id)) [
      | inr (e, failed) ↦ absurd (ground (arith, unknown, failed))
      | inl (none, missing) ↦ absurd (ground (arith, unknown, missing))
      | inl (some channel, loaded) ↦
          let new : Gathered = record g {
            channels = (id, can_read channel principal) ∷ g.channels;
          } in
          let same : new ≡ g' = ground (arith, unknown, loaded) in
          let is : b ≡ can_read channel principal = ground (arith, unknown, loaded) in
          (
            subst Shows same (record {
              known = ((λ may. (channel, loaded, may)), shows.known);
              readable = shows.readable;
            }),
            λ e. (channel, loaded, sym is ∙ e),
          )
    ]
  ]

  gather-Shows :
      (soft_limit limit : ℕ) (g g' : Gathered) (m : EventMessage) (a : ScanAction)
      → Shows g
      → Readable m.channel_id
      → gather p soft_limit limit g m ≡ (g', a)
      → Shows g'
  unfolding gather
  gather-Shows soft_limit limit g g' m a shows may h =
      elim (Bool-cases (is_too_big p soft_limit g (p.byte_size m))) [
        | inl big ↦ subst Shows (ground (arith, big)) shows
        | inr small ↦
            let new : Gathered = record g {
              messages = g.messages ++ m ∷ [];
              response_bytes = g.response_bytes + p.byte_size m;
            } in
            let same : new ≡ g' = ground (arith, small) in
            subst Shows same (record {
              known = shows.known;
              readable =
                  All-append (λ (x : EventMessage). Readable x.channel_id) g.messages (m ∷ [])
                    shows.readable (may, tt);
            })
      ]

  visit_visible-Shows :
      (request : FetchRequest) (soft_limit : ℕ) (g g' : Gathered) (m : EventMessage)
      (a : ScanAction)
      → request.principal ≡ principal
      → Shows g
      → visit_visible p s request soft_limit g m ≡ ok (g', a)
      → Shows g'
  unfolding visit_visible visit_readable
  visit_visible-Shows request soft_limit g g' m a who shows h =
      elim (Bool-cases
        (not (is_empty request.channels) && not (elem m.channel_id request.channels))) [
          | inl other ↦ subst Shows (ground (arith, other)) shows
          | inr asked ↦ elim (Result-cases (readable_channel p s principal g m.channel_id)) [
            | inr (e, failed) ↦ absurd (ground (arith, asked, failed, who))
            | inl ((g₁, readable), found) ↦
                let (shows₁, may) = readable_channel-Shows m.channel_id g g₁ readable shows found in
                elim (Bool-cases (
                  not readable
                  || (request.only_my_recipient && not (has_recipient m request.principal)))) [
                    | inl hidden ↦ subst Shows (ground (arith, asked, found, hidden, who)) shows₁
                    | inr shown ↦
                        gather-Shows soft_limit request.limit g₁ g' m a shows₁
                          (may (ground (arith, shown))) (ground (arith, asked, found, shown, who))
                  ]
          ]
        ]

  in_each_case :
      (a : ScanAction) (seq : ℕ) (g : Gathered)
      → Shows g
      → Outcome p (λ _. Shows) (λ _. Shows) a seq g
  in_each_case go_on seq g h = h
  in_each_case stop_before seq g h = h
  in_each_case stop_after seq g h = h

  pub visible_page-Shows :
      (request : FetchRequest) (soft_limit max_scan max : ℕ) (page : Page)
      → request.principal ≡ principal
      → All Readable request.channels
      → visible_page p s request soft_limit max_scan max ≡ ok page
      → All (λ m. Readable m.channel_id) page.messages
  unfolding visible_page
  visible_page-Shows request soft_limit max_scan max page who named h =
      let start : Gathered = record {
        messages = [];
        response_bytes = 0;
        channels = all_readable request.channels;
      } in
      let scan : Result (Gathered × ℕ) =
        scan_messages p s request.from_seq max max_scan (visit_visible p s request soft_limit)
          start in
      elim (Bool-cases (ltb max request.from_seq)) [
        | inl past ↦
            let none_shown : [] ≡ page.messages = ground (arith, past) in
            subst (All (λ (m : EventMessage). Readable m.channel_id)) none_shown tt
        | inr inside ↦ elim (Result-cases scan) [
          | inr (e, failed) ↦ absurd (ground (arith, inside, failed))
          | inl ((g, n), done) ↦
              let end : Shows g =
                scan_messages-ok p (λ _. Shows) (λ _. Shows) (visit_visible p s request soft_limit)
                  (p.rocks.seek s messages (numeric_key message_prefix request.from_seq)).at_end max
                  max_scan (λ k x shows. shows)
                  (λ seq m x x' a shows le is visits.
                    in_each_case a seq x'
                      (visit_visible-Shows request soft_limit x x' m a who shows visits))
                  s request.from_seq n start g refl
                  (record { known = Readable-Known request.channels named; readable = tt }) done in
              let shown : g.messages ≡ page.messages = ground (arith, inside, done) in
              subst (All (λ (m : EventMessage). Readable m.channel_id)) shown end.readable
        ]
      ]

  require_channel-ok :
      (id : ℕ) (channel : ChannelInfo) (c c' : Core p)
      → require_channel p s id c ≡ (ok channel, c')
      → (c' ≡ c) × (load_channel p s id ≡ ok (some channel))
  unfolding require_channel
  require_channel-ok id channel c c' h = ground arith

  pub validate_readable-ok :
      (validated channels : List ℕ) (c c' : Core p)
      → All Readable validated
      → validate_readable p s principal validated channels c ≡ (ok tt, c')
      → All Readable channels
  unfolding validate_readable
  validate_readable-ok validated [] c c' all h = tt
  validate_readable-ok validated (id ∷ rest) c c' all h = elim (Bool-cases (elem id validated)) [
    | inl before ↦ (
      All-elem Readable id validated before all,
      validate_readable-ok validated rest c c' all (ground (arith, before)),
    )
    | inr new ↦
        let finish : ChannelInfo → M p (Unit {0}) = λ channel.
          refuse_if (not (can_read channel principal))
            (error permission_denied "channel not visible")
          >> validate_readable p s principal (id ∷ validated) rest in
        let start : (require_channel p s id >>= finish) c ≡ (ok tt, c') = ground (arith, new) in
        let (channel, c₁, e₁, h₁) = >>=-ok (require_channel p s id) finish c start in
        let (_, loaded) = require_channel-ok id channel c c₁ e₁ in
        let may : can_read channel principal ≡ true = ground arith in
        let here : Readable id = (channel, loaded, may) in
        (here, validate_readable-ok (id ∷ validated) rest c₁ c' (here, all) (ground (arith, may)))
  ]

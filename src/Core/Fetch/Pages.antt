-- ===== src/Core/Fetch/Pages.antt =====
-- What a page of `Fetch` holds.
use openevent.Common.{
  ℕ, suc, ◌+◌, ◌%◌, ◌<◌, ◌≤◌, ◌≡◌, ◌⊎◌, inl, inr, Bool, true, not, ◌&&◌, ◌||◌, List, [], ◌∷◌, ◌++◌,
  arith, leb, elem, is_empty, length, length-append, All, All-append, if◌then◌else◌, u64_mod, IsU64,
  Bool-cases,
}
use openevent.Status.{ok, Result-cases}
use openevent.Proto.{EventMessage}
use openevent.Platform.{Platform}
use openevent.Storage.Scan.{ScanAction, go_on, stop_before, stop_after}
use openevent.Storage.Scan.Window.{Outcome}
use openevent.Core.Access.{has_recipient}
use openevent.Core.Fetch.Order.{Ascends, Ascends-later, Ascends-append}
use openevent.Core.Fetch.{
  FetchRequest, Gathered, is_too_big, gather, readable_channel, visit_readable, visit_visible,
}

-- The message is one that the request asks for: of a channel that it names, if it names any, and
-- with the principal among the recipients, if it says so.
abbrev pub is_wanted : FetchRequest → EventMessage → Bool
is_wanted request m =
    (is_empty request.channels || elem m.channel_id request.channels)
    && (not request.only_my_recipient || has_recipient m request.principal)

-- A message of a page that ends before `next_seq`.
abbrev pub InPage : FetchRequest → ℕ → EventMessage → Type 0
InPage request next_seq m =
    (request.from_seq ≤ m.seq) × (m.seq < next_seq) × (is_wanted request m ≡ true)

InPage-later :
    (request : FetchRequest) (n k : ℕ) (ms : List EventMessage)
    → n ≤ k
    → All (InPage request n) ms
    → All (InPage request k) ms
InPage-later request n k [] h all = tt
InPage-later request n k (m ∷ ms) h ((a, b, w), rest) =
    ((a, omega arith, w), InPage-later request n k ms h rest)

module _ (p : Platform) where
  readable_channel-messages :
      (s : p.rocks.Snapshot) (principal id : ℕ) (g g' : Gathered) (b : Bool)
      → readable_channel p s principal g id ≡ ok (g', b)
      → g'.messages ≡ g.messages
  unfolding readable_channel
  readable_channel-messages s principal id g g' b h = ground arith

  module _ (s : p.rocks.Snapshot) (request : FetchRequest) (soft_limit : ℕ) where
    -- The visitor leaves the messages as they are, or adds the message at hand, which is wanted.
    abbrev pub Visited : Gathered → EventMessage → Gathered → ScanAction → Type 0
    Visited g m g' a =
        ((g'.messages ≡ g.messages) × ((a ≡ go_on) ⊎ (a ≡ stop_before)))
        ⊎ ((g'.messages ≡ g.messages ++ m ∷ [])
            × (is_wanted request m ≡ true)
            × (a ≡ (
                if leb request.limit (length (g.messages ++ m ∷ [])) then stop_after else go_on)))

    gather-Visited :
        (g g' : Gathered) (m : EventMessage) (a : ScanAction)
        → is_wanted request m ≡ true
        → gather p soft_limit request.limit g m ≡ (g', a)
        → Visited g m g' a
    unfolding gather
    gather-Visited g g' m a w h = elim (Bool-cases (is_too_big p soft_limit g (p.byte_size m))) [
      | inl big ↦ inl (ground (arith, big), inr (ground (arith, big)))
      | inr small ↦ inr (ground (arith, small), w, ground (arith, small))
    ]

    pub visit_visible-Visited :
        (g g' : Gathered) (m : EventMessage) (a : ScanAction)
        → visit_visible p s request soft_limit g m ≡ ok (g', a)
        → Visited g m g' a
    unfolding visit_visible visit_readable
    visit_visible-Visited g g' m a h =
        elim (Bool-cases
          (not (is_empty request.channels) && not (elem m.channel_id request.channels))) [
            | inl other ↦ inl (ground (arith, other), inl (ground (arith, other)))
            | inr asked ↦
                elim (Result-cases (readable_channel p s request.principal g m.channel_id)) [
                  | inr (e, failed) ↦ absurd (ground (arith, asked, failed))
                  | inl ((g₁, readable), found) ↦
                      let same : g₁.messages ≡ g.messages =
                        readable_channel-messages s request.principal m.channel_id g g₁ readable
                          found in
                      elim (Bool-cases (
                        not readable
                        || (request.only_my_recipient
                            && not (has_recipient m request.principal)))) [
                              | inl hidden ↦ inl (
                                ground (arith, asked, found, hidden, same),
                                inl (ground (arith, asked, found, hidden)),
                              )
                              | inr shown ↦ rw same at (
                                  gather-Visited g₁ g' m a (ground (arith, asked, shown))
                                    (ground (arith, asked, found, shown)))
                            ]
                ]
          ]

    module _ (max_seq : ℕ) where
      -- What holds while the page is open, and what holds of its end.
      abbrev pub Fits : (ℕ → Type 0) → ℕ → Gathered → Type 0
      Fits Size n g =
          (request.from_seq ≤ n)
          × (n ≤ suc max_seq)
          × Size (length g.messages)
          × Ascends request.from_seq n g.messages
          × All (InPage request n) g.messages

      abbrev pub Open : ℕ → Gathered → Type 0
      Open = Fits (λ k. k < request.limit)

      abbrev pub Closed : ℕ → Gathered → Type 0
      Closed = Fits (λ k. k ≤ request.limit)

      pub stay : (n : ℕ) (g : Gathered) → Open n g → Closed n g
      stay n g (a, b, l, order, all) = (a, b, omega arith, order, all)

      pub kept :
          (seq : ℕ) (m : EventMessage) (g g' : Gathered) (a : ScanAction)
          → IsU64 (suc max_seq)
          → Open seq g
          → seq ≤ max_seq
          → m.seq ≡ seq
          → Visited g m g' a
          → Outcome p Open Closed a seq g'
      kept seq m g g' a small (x, y, l, order, all) le is (inl (same, inl goes)) = rw goes (
        omega arith,
        omega arith,
        rw same l,
        rw same (Ascends-later request.from_seq seq _ g.messages (omega arith) order),
        rw same (InPage-later request seq _ g.messages (omega arith) all),
      )
      kept seq m g g' a small (x, y, l, order, all) le is (inl (same, inr stops)) =
          rw stops (x, y, rw same (omega arith), rw same order, rw same all)
      kept seq m g g' a small (x, y, l, order, all) le is (inr (added, w, acts)) =
          let next : (seq + 1) % u64_mod ≡ suc seq = omega arith in
          let longer : All (InPage request (suc seq)) (g.messages ++ m ∷ []) =
            All-append (InPage request (suc seq)) g.messages (m ∷ [])
              (InPage-later request seq (suc seq) g.messages (omega arith) all)
              ((omega arith, omega arith, w), tt) in
          let ordered : Ascends request.from_seq (suc seq) (g.messages ++ m ∷ []) =
            Ascends-append request.from_seq seq (suc seq) g.messages (m ∷ []) order
              (omega arith, omega arith) in
          let count : length g'.messages ≡ suc (length g.messages) =
            rw added (omega (arith, length-append g.messages (m ∷ []))) in
          elim (Bool-cases (leb request.limit (length (g.messages ++ m ∷ [])))) [
            | inl full ↦
                rw (acts, full)
                  (
                    omega arith,
                    omega arith,
                    omega arith,
                    rw (next, added) ordered,
                    rw (next, added) longer,
                  )
            | inr room ↦
                rw (acts, room)
                  (
                    omega arith,
                    omega arith,
                    ground (arith, room, added),
                    rw (next, added) ordered,
                    rw (next, added) longer,
                  )
          ]

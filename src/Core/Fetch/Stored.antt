-- ===== src/Core/Fetch/Stored.antt =====
-- The messages of a page are among those that the snapshot shows (src/service/open_event_core.cpp,
-- `FetchVisible`).
use openevent.Common.{
  ℕ, ◌≡◌, inl, inr, refl, subst, some, List, [], ◌∷◌, Bytes, arith, ltb, All, All-append,
  Bool-cases,
}
use openevent.Status.{Result, ok, Result-cases}
use openevent.Proto.{EventMessage}
use openevent.Platform.{Platform, Lawful}
use openevent.Storage.Keys.{numeric_key, message_prefix, decode_numeric_key}
use openevent.Storage.Reads.{get_max_seq}
use openevent.Storage.Rocks.Updates.{messages, Contents}
use openevent.Storage.Scan.{
  ScanAction, go_on, stop_before, stop_after, check_message, read_message, scan_messages,
}
use openevent.Storage.Scan.Window.{Outcome, Comes, read_message-seq, scan_messages-from}
use openevent.Core.Fetch.{
  FetchRequest, Gathered, Page, visit_visible, visible_page, all_readable, fetch_visible,
}
use openevent.Core.Fetch.Pages.{Visited, visit_visible-Visited}
use openevent.Core.State.{Core}

module _ (p : Platform) where
  -- The message is stored, under a key of its number.
  abbrev pub IsStored : Contents → EventMessage → Type 0
  IsStored c m =
      (key : Bytes) × (value : Bytes) × (c messages key ≡ some value)
      × (decode_numeric_key key message_prefix "message" ≡ ok m.seq)
      × (p.event_messages.parse value ≡ some m)

  read_message-parsed :
      (value : Bytes) (seq : ℕ) (m : EventMessage)
      → read_message p value seq ≡ ok m
      → p.event_messages.parse value ≡ some m
  unfolding read_message check_message
  read_message-parsed value seq m h = ground arith

  entries-Comes :
      (c : Contents) (es : List (Bytes × Bytes))
      → All (λ e. c messages e.0 ≡ some e.1) es
      → All (Comes p (IsStored c)) es
  entries-Comes c [] all = tt
  entries-Comes c ((k, v) ∷ es) (here, rest) = (
    λ seq m decoded read.
        let same : m.seq ≡ seq = read_message-seq p v seq m read in
        (k, v, here, rw same decoded, read_message-parsed v seq m read),
    entries-Comes c es rest,
  )

  module _ (s : p.rocks.Snapshot) (request : FetchRequest) (soft_limit : ℕ) where
    abbrev AllStored : Gathered → Type 0
    AllStored g = All (IsStored (p.rocks.view s)) g.messages

    either :
        (a : ScanAction) (seq : ℕ) (g : Gathered)
        → AllStored g
        → Outcome p (λ _. AllStored) (λ _. AllStored) a seq g
    either go_on seq g all = all
    either stop_before seq g all = all
    either stop_after seq g all = all

    Visited-AllStored :
        (m : EventMessage) (g g' : Gathered) (a : ScanAction)
        → AllStored g
        → IsStored (p.rocks.view s) m
        → Visited p s request soft_limit g m g' a
        → AllStored g'
    Visited-AllStored m g g' a all here (inl (same, _)) = rw same all
    Visited-AllStored m g g' a all here (inr (added, _, _)) =
        rw added (All-append (IsStored (p.rocks.view s)) g.messages (m ∷ []) all (here, tt))

    visible_page-IsStored :
        (law : Lawful p) (max_scan max : ℕ) (page : Page)
        → visible_page p s request soft_limit max_scan max ≡ ok page
        → All (IsStored (p.rocks.view s)) page.messages
    unfolding visible_page
    visible_page-IsStored law max_scan max page h =
        let start : Gathered = record {
          messages = [];
          response_bytes = 0;
          channels = all_readable request.channels;
        } in
        let scan : Result (Gathered × ℕ) =
          scan_messages p s request.from_seq max max_scan (visit_visible p s request soft_limit)
            start in
        let cursor = p.rocks.seek s messages (numeric_key message_prefix request.from_seq) in
        elim (Bool-cases (ltb max request.from_seq)) [
          | inl past ↦
              let none_shown : page.messages ≡ [] = ground (arith, past) in rw none_shown tt
          | inr inside ↦ elim (Result-cases scan) [
            | inr (e, failed) ↦ absurd (ground (arith, inside, failed))
            | inl ((g, n), done) ↦
                let end : AllStored g =
                  scan_messages-from p (λ _. AllStored) (λ _. AllStored) (IsStored (p.rocks.view s))
                    (visit_visible p s request soft_limit) cursor.at_end max max_scan
                    (λ k g all. all)
                    (λ seq m g g' a all le is here visits. either a seq g' (
                      Visited-AllStored m g g' a all here
                        (visit_visible-Visited p s request soft_limit g g' m a visits)))
                    s request.from_seq n start g refl tt
                    (entries-Comes (p.rocks.view s) cursor.entries (
                      law.rocks.seek_entries s messages
                        (numeric_key message_prefix request.from_seq)))
                    done in
                let shown : g.messages ≡ page.messages = ground (arith, inside, done) in
                subst (All (IsStored (p.rocks.view s))) shown end
          ]
        ]

  pub fetch_visible-IsStored :
      (law : Lawful p) (s : p.rocks.Snapshot) (request : FetchRequest) (page : Page) (c c' : Core p)
      → fetch_visible p s request c ≡ (ok page, c')
      → All (IsStored (p.rocks.view s)) page.messages
  unfolding fetch_visible
  fetch_visible-IsStored law s request page c c' h = elim (Result-cases (get_max_seq p s)) [
    | inr (e, failed) ↦ absurd (ground (arith, failed))
    | inl (max, read) ↦
        visible_page-IsStored s request c.response_soft_limit_bytes law c.max_scan_records max page
          (ground (arith, read))
  ]

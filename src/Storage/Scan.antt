-- ===== src/Storage/Scan.antt =====
-- `UnifiedStorage::ScanMessages` (src/storage/unified_storage.cpp). The visitor is a function of
-- the state that its captures stand for: it returns that state and an action.
pub mod Window
use openevent.Common.{
  ℕ, ◌+◌, ◌%◌, Bool, true, false, not, ◌&&◌, ◌||◌, Option, none, some, List, [], ◌∷◌, Bytes, elem,
  any, length, drop, ltb, leb, ◌==◌, if◌then◌else◌, u64_mod,
}
use openevent.Status.{
  Result, ok, fail, Error, text, number, RocksError, rocks_to_status, corruption,
  storage_corruption, ◌>>=◌,
}
use openevent.Proto.{EventMessage, ObjectKey}
use openevent.Platform.{Platform}
use openevent.Storage.Encoding.{decode_uint64}
use openevent.Storage.Keys.{numeric_key, message_prefix, decode_numeric_key, starts_with}
use openevent.Storage.Records.{is_base64_url_token, max_object_keys}
use openevent.Storage.Rocks.{Cursor}
use openevent.Storage.Rocks.Updates.{messages}
use openevent.Storage.SystemMessages.{valid_initialization_message, valid_channel_system_message}

pub data ScanAction : Type 0 where
  go_on stop_before stop_after : ScanAction

abbrev pub Visitor : Type 0 → Type 0
Visitor S = S → EventMessage → Result (S × ScanAction)

abbrev pub is_bad_key : ObjectKey → Bool
is_bad_key k = k.object_id == 0 || not (is_base64_url_token k.object_token)

abbrev missing_message : ℕ → Error
missing_message seq =
    storage_corruption (text "scan messages" ∷ [])
      (text "missing stored message at seq " ∷ number seq ∷ [])

module _ (p : Platform) where
  -- The checks of the fields of a stored message other than its number.
  unfoldable pub has_valid_fields : EventMessage → Bool
  has_valid_fields message =
      if message.seq == 0
      then valid_initialization_message p.json message
      else not (message.uuid == 0)
        && not (message.channel_id == 0)
        && not (message.principal == 0 && not (valid_channel_system_message p.json message))
        && not (elem 0 message.recipients)

  unfoldable pub has_valid_object_keys : EventMessage → Bool
  has_valid_object_keys message =
      leb (length message.object_keys) max_object_keys && not (any is_bad_key message.object_keys)

  unfoldable pub check_message : EventMessage → Result EventMessage
  unfolding has_valid_fields has_valid_object_keys
  check_message message =
      if not (has_valid_fields message)
      then fail (corruption "scan messages" "invalid stored message reserved fields")
      else if not (has_valid_object_keys message)
      then fail (corruption "scan messages" "invalid stored message object reference")
      else ok message

  -- The body of the loop up to the visitor: what is stored under `seq`.
  unfoldable pub read_message : Bytes → ℕ → Result EventMessage
  read_message value seq = elim (p.event_messages.parse value) [
    | none ↦ fail (corruption "scan messages" "invalid stored message")
    | some message ↦
        if message.seq == seq
        then check_message message
        else fail (corruption "scan messages" "invalid stored message")
  ]

  -- What follows the loop, at the iterator where the loop was left.
  unfoldable pub after_scan : List (Bytes × Bytes) → Option RocksError → ℕ → ℕ → ℕ → ℕ → Result ℕ
  after_scan [] (some s) last_seq max_records scanned next_seq =
      fail (rocks_to_status s (text "scan messages" ∷ []))
  after_scan [] none last_seq max_records scanned next_seq =
      if ltb scanned max_records && leb next_seq last_seq
      then fail (missing_message next_seq)
      else ok next_seq
  after_scan ((key, value) ∷ rest) at_end last_seq max_records scanned next_seq =
      if ltb scanned max_records
        && leb next_seq last_seq
        && (not (starts_with key message_prefix)
            || ltb last_seq (decode_uint64 (drop (length message_prefix) key)))
      then fail (missing_message next_seq)
      else ok next_seq

  module _ {S : Type 0} (visit : Visitor S) (at_end : Option RocksError)
      (last max_records : ℕ) where
    -- `rest` is the loop from the next entry on.
    unfoldable pub step :
        Result EventMessage → S → ℕ → ℕ → (S → ℕ → ℕ → Result (S × ℕ)) → Result (S × ℕ)
    step read state seq scanned rest = do
      message ← read
      (state', action) ← visit state message
      elim action [
        | stop_before ↦ ok (state', seq)
        | stop_after ↦ ok (state', (seq + 1) % u64_mod)
        | go_on ↦ rest state' (scanned + 1) ((seq + 1) % u64_mod)
      ]

    unfoldable pub scan_loop : List (Bytes × Bytes) → S → ℕ → ℕ → Result (S × ℕ)
    unfolding step
    scan_loop [] state scanned next_seq = do
      next ← after_scan [] at_end last max_records scanned next_seq
      ok (state, next)
    scan_loop ((key, value) ∷ rest) state scanned next_seq =
        let leave : Result (S × ℕ) = (do
          next ← after_scan ((key, value) ∷ rest) at_end last max_records scanned next_seq
          ok (state, next)) in
        let visited : ℕ → Result (S × ℕ) =
          λ seq. step (read_message value seq) state seq scanned (scan_loop rest) in
        if not (starts_with key message_prefix) then leave else (do
          seq ← decode_numeric_key key message_prefix "message"
          if ltb last seq
              then leave
              else if not (seq == next_seq)
              then fail (missing_message next_seq)
              else if leb max_records scanned
              then leave
              else visited seq)

  -- The number at which the caller goes on.
  unfoldable pub scan_messages :
      {S : Type 0} → p.rocks.Snapshot → ℕ → ℕ → ℕ → Visitor S → S → Result (S × ℕ)
  scan_messages snapshot from_seq last max_records visit state =
      let it = p.rocks.seek snapshot messages (numeric_key message_prefix from_seq) in
      scan_loop visit it.at_end last max_records it.entries state 0 from_seq

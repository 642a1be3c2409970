-- ===== src/Storage/Scan/Window.antt =====
-- What every scan keeps: a rule for properties of the visitor's state and the next number.
use openevent.Common.{
  ℕ, ◌+◌, ◌%◌, ◌≤◌, ◌≡◌, sym, ◌∙◌, Option, none, some, List, [], ◌∷◌, Bytes, All, arith, ltb, leb,
  ◌==◌, u64_mod, inl, inr, Bool-cases, subst,
}
use openevent.Status.{Result, ok, RocksError, ◌>>=◌, >>=-eq-ok}
use openevent.Proto.{EventMessage}
use openevent.Platform.{Platform}
use openevent.Storage.Keys.{message_prefix, decode_numeric_key, starts_with, numeric_key}
use openevent.Storage.Rocks.Updates.{messages}
use openevent.Storage.Scan.{
  ScanAction, go_on, stop_before, stop_after, Visitor, check_message, read_message, after_scan,
  step, scan_loop, scan_messages,
}

module _ (p : Platform) where
  pub read_message-seq :
      (value : Bytes) (seq : ℕ) (m : EventMessage) → read_message p value seq ≡ ok m → m.seq ≡ seq
  unfolding read_message check_message
  read_message-seq value seq m h = ground arith

  after_scan-ok :
      (es : List (Bytes × Bytes)) (at_end : Option RocksError) (last max scanned next n : ℕ)
      → after_scan p es at_end last max scanned next ≡ ok n
      → n ≡ next
  unfolding after_scan
  after_scan-ok [] (some s) last max scanned next n h = cc
  after_scan-ok [] none last max scanned next n h = ground arith
  after_scan-ok ((k, v) ∷ rest) at_end last max scanned next n h = ground arith

  -- What is known of each message that a scan reads from an entry.
  abbrev pub Comes : (EventMessage → Type 0) → Bytes × Bytes → Type 0
  Comes Origin (k, v) =
      (seq : ℕ) (m : EventMessage)
      → decode_numeric_key k message_prefix "message" ≡ ok seq
      → read_message p v seq ≡ ok m
      → Origin m

  from_anywhere : (es : List (Bytes × Bytes)) → All (Comes (λ m. Unit {0})) es
  from_anywhere [] = tt
  from_anywhere (e ∷ es) = (λ seq m decoded read. tt, from_anywhere es)

  module _ {S : Type 0} (P Q : ℕ → S → Type 0) where
    -- What must hold after a message has been visited.
    abbrev pub Outcome : ScanAction → ℕ → S → Type 0
    Outcome go_on seq s = P ((seq + 1) % u64_mod) s
    Outcome stop_before seq s = Q seq s
    Outcome stop_after seq s = Q ((seq + 1) % u64_mod) s

    module _ (Origin : EventMessage → Type 0) (visit : Visitor S) (at_end : Option RocksError)
        (last max_records : ℕ) (stay : (n : ℕ) (s : S) → P n s → Q n s)
        (visited : (seq : ℕ) (m : EventMessage) (s s' : S) (a : ScanAction)
          → P seq s
          → seq ≤ last
          → m.seq ≡ seq
          → Origin m
          → visit s m ≡ ok (s', a)
          → Outcome a seq s') where
      leave-ok :
          (es : List (Bytes × Bytes)) (s s' : S) (scanned next n : ℕ)
          → P next s
          → ◌>>=◌ {B = S × ℕ}
              (after_scan p es at_end last max_records scanned next)
              (λ r. ok (s, r))
            ≡ ok (s', n)
          → Q n s'
      leave-ok es s s' scanned next n h e =
          let (r, left, same) = >>=-eq-ok {B = S × ℕ} _ (λ r. ok (s, r)) e in
          let r_is : r ≡ next = after_scan-ok es at_end last max_records scanned next r left in
          let n_is : next ≡ n = sym r_is ∙ ground arith in
          let s_is : s ≡ s' = ground arith in
          subst (λ (x : S). Q n x) s_is (subst (λ (k : ℕ). Q k s) n_is (stay next s h))

      acted :
          (a : ScanAction) (s s' : S) (seq scanned n : ℕ) (rest : S → ℕ → ℕ → Result (S × ℕ))
          → Outcome a seq s
          → ((t : S) (k m : ℕ) → P m t → rest t k m ≡ ok (s', n) → Q n s')
          → elim a as (λ _. Result (S × ℕ)) [
            | stop_before ↦ ok (s, seq)
            | stop_after ↦ ok (s, (seq + 1) % u64_mod)
            | go_on ↦ rest s (scanned + 1) ((seq + 1) % u64_mod)
          ]
            ≡ ok (s', n)
          → Q n s'
      acted go_on s s' seq scanned n rest o later e =
          later s (scanned + 1) ((seq + 1) % u64_mod) o e
      acted stop_before s s' seq scanned n rest o later e =
          let n_is : seq ≡ n = ground arith in
          let s_is : s ≡ s' = ground arith in
          subst (λ (x : S). Q n x) s_is (subst (λ (k : ℕ). Q k s) n_is o)
      acted stop_after s s' seq scanned n rest o later e =
          let n_is : (seq + 1) % u64_mod ≡ n = ground arith in
          let s_is : s ≡ s' = ground arith in
          subst (λ (x : S). Q n x) s_is (subst (λ (k : ℕ). Q k s) n_is o)

      step-ok :
          (value : Bytes) (s s' : S) (seq scanned n : ℕ) (rest : S → ℕ → ℕ → Result (S × ℕ))
          → P seq s
          → seq ≤ last
          → ((m : EventMessage) → read_message p value seq ≡ ok m → Origin m)
          → ((t : S) (k m : ℕ) → P m t → rest t k m ≡ ok (s', n) → Q n s')
          → step p visit at_end last max_records (read_message p value seq) s seq scanned rest
            ≡ ok (s', n)
          → Q n s'
      unfolding step
      step-ok value s s' seq scanned n rest h inside comes later e =
          let (m, read, e₁) = >>=-eq-ok (read_message p value seq) _ e in
          let ((t, a), acts, e₂) = >>=-eq-ok (visit s m) _ e₁ in
          acted a t s' seq scanned n rest
            (visited seq m s t a h inside (read_message-seq value seq m read) (comes m read) acts)
            later e₂

      scan_loop-ok :
          (es : List (Bytes × Bytes)) (s s' : S) (scanned next n : ℕ)
          → P next s
          → All (Comes Origin) es
          → scan_loop p visit at_end last max_records es s scanned next ≡ ok (s', n)
          → Q n s'
      unfolding scan_loop
      scan_loop-ok [] s s' scanned next n h all e = leave-ok [] s s' scanned next n h e
      scan_loop-ok ((k, v) ∷ rest) s s' scanned next n h (here, all) e =
          elim (Bool-cases (starts_with k message_prefix)) [
            | inr other ↦ leave-ok ((k, v) ∷ rest) s s' scanned next n h (rw other at e)
            | inl mine ↦
                let (seq, decoded, e₁) =
                  >>=-eq-ok (decode_numeric_key k message_prefix "message") _ (rw mine at e) in
                elim (Bool-cases (ltb last seq)) [
                  | inl beyond ↦ leave-ok ((k, v) ∷ rest) s s' scanned next n h (rw beyond at e₁)
                  | inr inside ↦
                      let e₂ = rw inside at e₁ in
                      elim (Bool-cases (seq == next)) [
                        | inr gap ↦ absurd (ground (arith, rw gap at e₂))
                        | inl is ↦
                            let e₃ = rw is at e₂ in
                            elim (Bool-cases (leb max_records scanned)) [
                              | inl full ↦
                                  leave-ok ((k, v) ∷ rest) s s' scanned next n h (rw full at e₃)
                              | inr room ↦
                                  let same : next ≡ seq = ground (arith, is) in
                                  step-ok v s s' seq scanned n
                                    (scan_loop p visit at_end last max_records rest)
                                    (subst (λ (k : ℕ). P k s) same h) (ground (arith, inside))
                                    (λ m read. here seq m decoded read)
                                    (λ t k m held e'. scan_loop-ok rest t s' k m n held all e')
                                    (rw room at e₃)
                            ]
                      ]
                ]
          ]

      pub scan_messages-from :
          (snapshot : p.rocks.Snapshot) (from_seq n : ℕ) (s s' : S)
          → at_end ≡ (p.rocks.seek snapshot messages (numeric_key message_prefix from_seq)).at_end
          → P from_seq s
          → All
              (Comes Origin)
              (p.rocks.seek snapshot messages (numeric_key message_prefix from_seq)).entries
          → scan_messages p snapshot from_seq last max_records visit s ≡ ok (s', n)
          → Q n s'
      unfolding scan_messages
      scan_messages-from snapshot from_seq n s s' same h all e =
          scan_loop-ok
            (p.rocks.seek snapshot messages (numeric_key message_prefix from_seq)).entries s s' 0
            from_seq n h all (rw same e)

    -- The rule for a visitor that does not ask where a message comes from.
    module _ (visit : Visitor S) (at_end : Option RocksError) (last max_records : ℕ)
        (stay : (n : ℕ) (s : S) → P n s → Q n s)
        (visited : (seq : ℕ) (m : EventMessage) (s s' : S) (a : ScanAction)
          → P seq s
          → seq ≤ last
          → m.seq ≡ seq
          → visit s m ≡ ok (s', a)
          → Outcome a seq s') where
      -- A scan that returns ends with what the visitor keeps.
      pub scan_messages-ok :
          (snapshot : p.rocks.Snapshot) (from_seq n : ℕ) (s s' : S)
          → at_end ≡ (p.rocks.seek snapshot messages (numeric_key message_prefix from_seq)).at_end
          → P from_seq s
          → scan_messages p snapshot from_seq last max_records visit s ≡ ok (s', n)
          → Q n s'
      scan_messages-ok snapshot from_seq n s s' same h e =
          scan_messages-from (λ m. Unit {0}) visit at_end last max_records stay
            (λ seq m t t' a held inside is u acts. visited seq m t t' a held inside is acts)
            snapshot from_seq n s s' same h
            (from_anywhere
              (p.rocks.seek snapshot messages (numeric_key message_prefix from_seq)).entries)
            e

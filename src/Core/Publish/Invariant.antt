-- ===== src/Core/Publish/Invariant.antt =====
-- The log as a whole under a publish, and a uuid that is published again
-- (src/service/open_event_core.cpp).
use openevent.Common.{
  ℕ, suc, ◌<◌, ◌≤◌, ◌≡◌, refl, ap, sym, ◌∙◌, true, false, Option, none, some, ◌==◌, arith, IsU64,
}
use openevent.Status.{ok}
use openevent.Proto.{EventMessage}
use openevent.Platform.{Platform, Lawful}
use openevent.Storage.Encoding.{encode_uint64}
use openevent.Storage.Keys.{max_seq_key}
use openevent.Storage.Reads.Views.{Holds, Holds-unique, Holds-encode_uint64}
use openevent.Storage.Rocks.Updates.{meta, Contents}
use openevent.Core.State.{Core, ServerContext}
use openevent.Core.State.Inversion.{stored}
use openevent.Core.Publish.{PublishRequest, message_of, publish, publish_auto_seq}
use openevent.Core.Publish.Log.{
  message_at, Appends, Extends, publish-Extends, publish_auto_seq-Extends,
}

module _ (p : Platform) where
  -- The stored maximum is `max`; below and at it there is a message under each number, with that
  -- number; above it there is none.
  pub record IsLog (c : Contents) (max : ℕ) : Type 0 where
    pub max_seq_stored : Holds (c meta max_seq_key) max
    pub max_seq_is_u64 : IsU64 max
    pub filled : (n : ℕ) → n ≤ max → (m : EventMessage) × (message_at p c n ≡ some m) × (m.seq ≡ n)
    pub free : (n : ℕ) → IsU64 n → max < n → message_at p c n ≡ none

  filled_after :
      (m : EventMessage) (c c' : Contents) (max : ℕ)
      → IsLog c max
      → Appends p m c c'
      → m.seq ≡ suc max
      → IsU64 m.seq
      → (n : ℕ) → n ≤ suc max
      → (x : EventMessage) × (message_at p c' n ≡ some x) × (x.seq ≡ n)
  filled_after m c c' max log app e hs n h =
      elim (n == suc max)
          as (λ b.
            (n == suc max) ≡ b → (x : EventMessage) × (message_at p c' n ≡ some x) × (x.seq ≡ n)) [
              | true ↦ λ q. (m, ground (arith, app.message n (omega arith), q), ground arith)
              | false ↦ λ q.
                  let (x, at, is) = log.filled n (ground (arith, q)) in
                  (x, ground (arith, app.message n (omega arith), q, at), is)
            ]
        refl

  pub Appends-IsLog :
      (m : EventMessage) (c c' : Contents) (max : ℕ)
      → IsLog c max
      → Appends p m c c'
      → m.seq ≡ suc max
      → IsU64 m.seq
      → IsLog c' (suc max)
  Appends-IsLog m c c' max log app e hs = record {
    max_seq_stored =
        Holds-encode_uint64 _ (suc max) (rw (sym e) hs)
          (app.max_seq ∙ ap (λ n. some (encode_uint64 n)) e);
    max_seq_is_u64 = omega arith;
    filled = filled_after m c c' max log app e hs;
    free = λ n hn h. ground (arith, app.message n hn, log.free n hn (omega arith));
  }

  module _ (law : Lawful p) (request : PublishRequest) (ts_ms : ℕ) where
    Extends-IsLog :
        (seq : ℕ) (c c' : Contents) (max : ℕ)
        → IsLog c max
        → Extends p request seq ts_ms c c'
        → (seq ≡ suc max) × IsLog c' (suc max)
    Extends-IsLog seq c c' max log x =
        let same : x.max_seq ≡ max = Holds-unique _ _ _ x.max_seq_stored log.max_seq_stored in
        let is_next : seq ≡ suc max =
          omega (arith, x.next_seq, x.seq_nonzero, log.max_seq_is_u64) in
        (
          is_next,
          Appends-IsLog (message_of p request seq ts_ms) c c' max log x.appends is_next
              (omega (arith, x.next_seq)),
        )

    -- If the stored log has no gaps (the maximum is stored and fits 64 bits, there is a message
    -- with its own number under each number up to the maximum, and none above it), a `Publish` that
    -- returns, of a request whose uuid fits 64 bits, leaves a log without gaps that is one longer,
    -- and the request's number is the new maximum.
    pub publish-IsLog :
        (x y : Option ServerContext) (c c' : Core p) (max : ℕ)
        → IsU64 request.uuid
        → IsLog (stored c) max
        → publish p request ts_ms x y c ≡ (ok tt, c')
        → (request.seq ≡ suc max) × IsLog (stored c') (suc max)
    publish-IsLog x y c c' max hu log h =
        Extends-IsLog request.seq (stored c) (stored c') max log
          (publish-Extends p law request ts_ms x y c c' hu h)

    -- If the stored log has no gaps, a `PublishAutoSeq` that returns a number, of a request whose
    -- uuid fits 64 bits, leaves a log without gaps that is one longer, and that number is the new
    -- maximum.
    pub publish_auto_seq-IsLog :
        (x y : Option ServerContext) (seq : ℕ) (c c' : Core p) (max : ℕ)
        → IsU64 request.uuid
        → IsLog (stored c) max
        → publish_auto_seq p request ts_ms x y c ≡ (ok seq, c')
        → (seq ≡ suc max) × IsLog (stored c') (suc max)
    publish_auto_seq-IsLog x y seq c c' max hu log h =
        Extends-IsLog seq (stored c) (stored c') max log
          (publish_auto_seq-Extends p law request ts_ms x y seq c c' hu h)

  -- Once a `Publish` of a uuid that fits 64 bits has returned, no `Publish` with the same uuid
  -- returns from the state that it left.
  pub publish-publish_again :
      (law : Lawful p) (first second : PublishRequest) (t u : ℕ) (x y z w : Option ServerContext)
      (c c' c'' : Core p)
      → IsU64 first.uuid
      → second.uuid ≡ first.uuid
      → publish p first t x y c ≡ (ok tt, c')
      → ¬ (publish p second u z w c' ≡ (ok tt, c''))
  publish-publish_again law first second t u x y z w c c' c'' hu same h h' =
      let e = publish-Extends p law first t x y c c' hu h in
      let e' = publish-Extends p law second u z w c' c'' (rw same hu) h' in
      let used = e.appends.uuid second.uuid (rw same hu) in
      ground (arith, used, e'.uuid_unused, same)

-- ===== src/Services/Registered.antt =====
-- The registry of subscriptions at the shutdown (src/service/grpc_services.cpp).
use openevent.Common.{
  ℕ, ◌≡◌, ◌⊎◌, refl, true, false, ◌==◌, List, [], ◌∷◌, ◌++◌, arith, elem, elem-append, Bool-cases,
  inl, inr,
}
use openevent.Status.{error, unavailable}
use openevent.Platform.{Platform}
use openevent.Services.{
  Registry, register_subscription, unregister_subscription, stop_subscriptions, erase,
  SubscribeRequest, Course, subscribe, rejected,
}

-- The calls of any threads, one after the other: each takes the lock of the registry.
pub data Call : Type 0 where
  registers unregisters : ℕ → Call
  stops : Call

unfoldable pub call : Call → Registry → Registry
call (registers context) r = (register_subscription context r).1
call (unregisters context) r = unregister_subscription context r
call stops r = stop_subscriptions r

abbrev pub calls : List Call → Registry → Registry
calls [] r = r
calls (c ∷ cs) r = calls cs (call c r)

-- The registry at the start.
abbrev pub no_subscriptions : Registry
no_subscriptions = record { subscriptions = []; subscriptions_stopping = false; cancelled = [] }

-- Once subscriptions are being stopped, every context that is registered has been cancelled.
abbrev IsStopped : Registry → Type 0
IsStopped r =
    r.subscriptions_stopping ≡ true
    → (context : ℕ) → elem context r.subscriptions ≡ true
    → elem context r.cancelled ≡ true

elem-erase : (n context : ℕ) (cs : List ℕ) → elem n (erase context cs) ≡ true → elem n cs ≡ true
elem-erase n context [] h = h
elem-erase n context (c ∷ cs) h = elim (Bool-cases (c == context)) [
  | inl same ↦ ground (arith, same, h, elem-erase n context cs)
  | inr other ↦ elim (Bool-cases (c == n)) [
    | inl here ↦ ground (arith, here)
    | inr there ↦ ground (arith, there, other, h, elem-erase n context cs)
  ]
]

erased : (context : ℕ) (cs : List ℕ) → elem context (erase context cs) ≡ false
erased context [] = refl
erased context (c ∷ cs) = elim (Bool-cases (c == context)) [
  | inl same ↦ ground (arith, same, erased context cs)
  | inr other ↦ ground (arith, other, erased context cs)
]

call-IsStopped : (c : Call) (r : Registry) → IsStopped r → IsStopped (call c r)
unfolding call register_subscription unregister_subscription stop_subscriptions
call-IsStopped (registers context) r i stopping n h = elim (Bool-cases r.subscriptions_stopping) [
  | inl was ↦ rw was (i was n (rw was at h))
  | inr running ↦ absurd (ground (arith, running, stopping))
]
call-IsStopped (unregisters context) r i stopping n h =
    i stopping n (elem-erase n context r.subscriptions h)
call-IsStopped stops r i stopping n h = ground (arith, elem-append n r.subscriptions r.cancelled)

calls-kept : (cs : List Call) (r : Registry) → IsStopped r → IsStopped (calls cs r)
calls-kept [] r i = i
calls-kept (c ∷ cs) r i = calls-kept cs (call c r) (call-IsStopped c r i)

call-stopping :
    (c : Call) (r : Registry)
    → r.subscriptions_stopping ≡ true
    → (call c r).subscriptions_stopping ≡ true
unfolding call register_subscription unregister_subscription stop_subscriptions
call-stopping (registers context) r h = ground arith
call-stopping (unregisters context) r h = h
call-stopping stops r h = refl

stays_stopping :
    (cs : List Call) (r : Registry)
    → r.subscriptions_stopping ≡ true
    → (calls cs r).subscriptions_stopping ≡ true
stays_stopping [] r h = h
stays_stopping (c ∷ cs) r h = stays_stopping cs (call c r) (call-stopping c r h)

stopped :
    (earlier later : List Call) (r : Registry)
    → (calls (earlier ++ stops ∷ later) r).subscriptions_stopping ≡ true
unfolding call stop_subscriptions
stopped [] later r = stays_stopping later (stop_subscriptions r) refl
stopped (c ∷ cs) later r = stopped cs later (call c r)

-- Whatever calls of `RegisterSubscription`, `UnregisterSubscription` and `StopSubscriptions`
-- threads make before and after a `StopSubscriptions`, every context that is registered at the end
-- has been cancelled.
pub calls-cancelled :
    (earlier later : List Call) (context : ℕ)
    → elem context (calls (earlier ++ stops ∷ later) no_subscriptions).subscriptions ≡ true
    → elem context (calls (earlier ++ stops ∷ later) no_subscriptions).cancelled ≡ true
calls-cancelled earlier later context h =
    calls-kept (earlier ++ stops ∷ later) no_subscriptions (λ stopping n h. absurd (ground arith))
      (stopped earlier later no_subscriptions) context h

module _ (p : Platform) where
  -- A `Subscribe` that found the subscriptions not being stopped has unregistered its context at
  -- the end, whatever other threads did to the registry; one that found them being stopped is
  -- refused as unavailable, sends nothing and leaves the registry as it was.
  pub subscribe-unregisters :
      (context : ℕ) (request : SubscribeRequest) (course : Course p) (others : Registry → Registry)
      (r : Registry)
      → let (stream, r') = subscribe p context request course others r in
        ((r.subscriptions_stopping ≡ false) × (elem context r'.subscriptions ≡ false))
        ⊎ ((r.subscriptions_stopping ≡ true)
            × (stream.accepted ≡ false)
            × (stream.sent ≡ [])
            × (stream.outcome ≡ rejected (error unavailable "server is shutting down"))
            × (r' ≡ r))
  unfolding subscribe register_subscription unregister_subscription
  subscribe-unregisters context request course others r =
      elim (Bool-cases r.subscriptions_stopping) [
        | inr running ↦ inl (running, rw running (erased context _))
        | inl stopping ↦
            inr (stopping, rw stopping refl, rw stopping refl, rw stopping refl, rw stopping refl)
      ]

-- ===== src/Core/Publish/Capabilities.antt =====
-- The check of the object keys of a message that is published (src/service/open_event_core.cpp).
use openevent.Common.{
  ℕ, ◌≡◌, ◌∙◌, true, ◌||◌, Option, none, some, List, [], ◌∷◌, Bytes, elem, elem-append, ◌==◌, arith,
  All, Bool-cases, inl, inr, ==_iff,
}
use openevent.Status.{ok, >>=-eq-ok}
use openevent.Proto.{ObjectKey}
use openevent.Platform.{Platform, Lawful}
use openevent.Storage.Keys.{committed_object_prefix}
use openevent.Storage.Reads.{get_object, get_committed_object, get_committed_objects}
use openevent.Storage.Records.{StoredObject}
use openevent.Core.Access.{constant_time_equals}
use openevent.Core.State.{Core, raise_storage}
use openevent.Core.State.Inversion.{>>=-ok}
use openevent.Core.Publish.{
  distinct_ids, object_at, check_object_keys, is_capability, load_objects, add_new,
  check_capabilities,
}

elem-add_new : (seen : List ℕ) (id j : ℕ) → elem j (add_new seen id) ≡ (elem j seen || id == j)
elem-add_new seen id j = elim (Bool-cases (elem id seen)) [
  | inl e ↦ rw e (ground (arith, e))
  | inr e ↦ rw e (ground (arith, elem-append j seen (id ∷ [])))
]

elem-distinct_ids :
    (seen : List ℕ) (keys : List ObjectKey) (j : ℕ)
    → elem j seen ≡ true
    → elem j (distinct_ids seen keys) ≡ true
unfolding distinct_ids
elem-distinct_ids seen [] j h = h
elem-distinct_ids seen (k ∷ ks) j h =
    elem-distinct_ids (add_new seen k.object_id) ks j
      (ground (arith, elem-add_new seen k.object_id j))

-- Every key's object is among those that are looked up.
looked_up-All :
    (seen : List ℕ) (keys : List ObjectKey)
    → All (λ k. elem k.object_id (distinct_ids seen keys) ≡ true) keys
unfolding distinct_ids
looked_up-All seen [] = tt
looked_up-All seen (k ∷ ks) = (
  elem-distinct_ids (add_new seen k.object_id) ks k.object_id
      (ground (arith, elem-add_new seen k.object_id k.object_id)),
  looked_up-All (add_new seen k.object_id) ks,
)

module _ (p : Platform) where
  object_at-get_committed_objects :
      (s : p.rocks.Snapshot) (ids : List ℕ) (found : List (Option StoredObject)) (id : ℕ)
      → get_committed_objects p s ids ≡ ok found
      → elem id ids ≡ true
      → get_committed_object p s id ≡ ok (object_at ids found id)
  unfolding get_committed_objects get_committed_object object_at
  object_at-get_committed_objects s [] found id h e = cc
  object_at-get_committed_objects s (i ∷ ids) found id h e =
      let (o, eo, r) = >>=-eq-ok (get_object p s committed_object_prefix i) _ h in
      let (os, eos, r') = >>=-eq-ok (get_committed_objects p s ids) _ r in
      let found_is : found ≡ o ∷ os = ground arith in
      rw found_is (ground (arith, eo, ==_iff i id, object_at-get_committed_objects s ids os id eos))

  -- A key that gives access to an object in the snapshot.
  abbrev pub IsCapability : p.rocks.Snapshot → ObjectKey → Type 0
  IsCapability s k =
      (o : StoredObject) × (get_committed_object p s k.object_id ≡ ok (some o))
      × (o.object_token ≡ k.object_token)

  module _ (law : Lawful p) where
    constant_time_equals_sound : (a b : Bytes) → constant_time_equals p a b ≡ true → a ≡ b
    unfolding constant_time_equals
    constant_time_equals_sound a b h = ground (arith, law.crypto_memcmp_equal a b)

    is_capability-IsCapability :
        (s : p.rocks.Snapshot) (o : Option StoredObject) (k : ObjectKey)
        → get_committed_object p s k.object_id ≡ ok o
        → is_capability p o k ≡ true
        → IsCapability s k
    is_capability-IsCapability s none k g h = cc
    is_capability-IsCapability s (some o) k g h =
        (o, g, constant_time_equals_sound o.object_token k.object_token h)

    check_object_keys-ok :
        (s : p.rocks.Snapshot) (ids : List ℕ) (found : List (Option StoredObject))
        (keys : List ObjectKey) (c c' : Core p)
        → get_committed_objects p s ids ≡ ok found
        → All (λ k. elem k.object_id ids ≡ true) keys
        → check_object_keys p ids found keys c ≡ (ok tt, c')
        → (c' ≡ c) × All (IsCapability s) keys
    unfolding check_object_keys
    check_object_keys-ok s ids found [] c c' g inside h = (ground arith, tt)
    check_object_keys-ok s ids found (k ∷ ks) c c' g inside h =
        let o : Option StoredObject = object_at ids found k.object_id in
        let stored : get_committed_object p s k.object_id ≡ ok o =
          object_at-get_committed_objects s ids found k.object_id g inside.0 in
        elim (Bool-cases (is_capability p o k)) [
          | inl e ↦
              let rest : (c' ≡ c) × All (IsCapability s) ks =
                check_object_keys-ok s ids found ks c c' g inside.1 (rw e at h) in
              (rest.0, (is_capability-IsCapability s o k stored e, rest.1))
          | inr e ↦ absurd (ground (arith, e))
        ]

    load_objects-ok :
        (s : p.rocks.Snapshot) (ids : List ℕ) (c c' : Core p) (found : List (Option StoredObject))
        → load_objects p s ids c ≡ (ok found, c')
        → (c' ≡ c) × (get_committed_objects p s ids ≡ ok found)
    unfolding load_objects raise_storage
    load_objects-ok s ids c c' found h = ground arith

    -- If the object keys of a publish pass their check, the state is as it was and for each key the
    -- snapshot holds a committed object of its id whose token is the key's token.
    pub check_capabilities-ok :
        (s : p.rocks.Snapshot) (keys : List ObjectKey) (c c' : Core p)
        → check_capabilities p s keys c ≡ (ok tt, c')
        → (c' ≡ c) × All (IsCapability s) keys
    unfolding check_capabilities
    check_capabilities-ok s keys c c' h =
        let ids : List ℕ = distinct_ids [] keys in
        let (found, c₁, e₁, h₁) =
          >>=-ok (load_objects p s ids) (λ found. check_object_keys p ids found keys) c h in
        let loaded : (c₁ ≡ c) × (get_committed_objects p s ids ≡ ok found) =
          load_objects-ok s ids c c₁ found e₁ in
        let checked : (c' ≡ c₁) × All (IsCapability s) keys =
          check_object_keys-ok s ids found keys c₁ c' loaded.1 (looked_up-All [] keys) h₁ in
        (checked.0 ∙ loaded.0, checked.1)

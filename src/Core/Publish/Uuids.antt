-- ===== src/Core/Publish/Uuids.antt =====
-- `AllocateUuids` that returns: which uuids, and what it has stored.
use openevent.Common.{
  ℕ, zero, suc, ◌+◌, ◌%◌, ◌<◌, ◌≤◌, ◌≡◌, ◌≢◌, refl, ap, ◌∙◌, some, List, [], ◌∷◌, arith, u64_mod,
  inl, inr,
}
use openevent.Status.{ok, Result-cases}
use openevent.Platform.{Platform, Lawful}
use openevent.Storage.Encoding.{encode_uint64}
use openevent.Storage.Keys.{next_uuid_key}
use openevent.Storage.Reads.{get_next_uuid}
use openevent.Storage.Reads.Views.{Holds, Holds-unique, create_snapshot-view, get_next_uuid-Holds}
use openevent.Storage.Rocks.Updates.{meta, put, SetsMeta}
use openevent.Storage.State.{create_snapshot}
use openevent.Storage.Writes.{set_next_uuid}
use openevent.Core.State.{Core, ensure_available, snapshot_now, commit_batch}
use openevent.Core.State.Inversion.{stored, put-SetsMeta}
use openevent.Core.Publish.{allocate_uuids, uuids_from}

-- `count` numbers from `first` on, in order.
abbrev pub consecutive : ℕ → ℕ → List ℕ
consecutive first zero = []
consecutive first (suc count) = first ∷ consecutive (suc first) count

module _ (p : Platform) (law : Lawful p) where
  uuids_from-consecutive :
      (first count : ℕ)
      → first + count < u64_mod
      → uuids_from p first count ≡ consecutive first count
  unfolding uuids_from
  uuids_from-consecutive first zero h = refl
  uuids_from-consecutive first (suc count) h =
      let next : (first + 1) % u64_mod ≡ suc first = omega arith in
      rw (next, uuids_from-consecutive (suc first) count (omega arith)) refl

  allocate_uuids-ok :
      (count : ℕ) (uuids : List ℕ) (c c' : Core p)
      → allocate_uuids p count c ≡ (ok uuids, c')
      → (s : p.rocks.Snapshot) × (first : ℕ) × (create_snapshot p c.storage.db ≡ ok s)
        × (get_next_uuid p s ≡ ok first)
        × (count ≢ 0)
        × (count ≤ 1024)
        × (uuids ≡ uuids_from p first count)
        × (commit_batch (put meta next_uuid_key (encode_uint64 ((first + count) % u64_mod)) ∷ []) c
            ≡ (ok tt, c'))
  unfolding allocate_uuids ensure_available snapshot_now set_next_uuid
  allocate_uuids-ok count uuids c c' h = elim (Result-cases (create_snapshot p c.storage.db)) [
    | inr (e, es) ↦ absurd (ground (arith, es))
    | inl (s, es) ↦ elim (Result-cases (get_next_uuid p s)) [
      | inr (e, en) ↦ absurd (ground (arith, es, en))
      | inl (n, en) ↦ (
        s,
        n,
        es,
        en,
        ground (arith, es, en),
        ground (arith, es, en),
        ground (arith, es, en),
        ground (arith, es, en),
      )
    ]
  ]

  -- An `AllocateUuids` that returns was asked for 1 to 1024 uuids. If the stored next uuid and the
  -- count do not leave 64 bits, it returns that many uuids from the stored next uuid on, in order,
  -- stores the number behind them as the next uuid, and changes nothing else.
  pub allocate_uuids-SetsMeta :
      (count first : ℕ) (uuids : List ℕ) (c c' : Core p)
      → Holds (stored c meta next_uuid_key) first
      → first + count < u64_mod
      → allocate_uuids p count c ≡ (ok uuids, c')
      → (count ≢ 0)
        × (count ≤ 1024)
        × (uuids ≡ consecutive first count)
        × SetsMeta next_uuid_key (some (encode_uint64 (first + count))) (stored c) (stored c')
  allocate_uuids-SetsMeta count first uuids c c' at small h =
      let (s, n, taken, read, nonzero, few, are, done) = allocate_uuids-ok count uuids c c' h in
      let seen : p.rocks.view s ≡ stored c = create_snapshot-view p law c.storage.db s taken in
      let same : n ≡ first =
        Holds-unique _ n first (rw seen at (get_next_uuid-Holds p law s n read)) at in
      let next : (n + count) % u64_mod ≡ first + count = omega arith in
      (
        nonzero,
        few,
        are ∙ ap (λ x. uuids_from p x count) same ∙ uuids_from-consecutive first count small,
        rw next at (put-SetsMeta p law next_uuid_key _ c c' done),
      )

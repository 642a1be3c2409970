-- ===== src/Storage/Startup/Recovered.antt =====
-- What `RecoverPreparingObjects` leaves: none of the objects that it found as preparing.
use openevent.Common.{ℕ, ◌≡◌, none, List, [], ◌∷◌, Bytes, All}
use openevent.Platform.{Platform}
use openevent.Storage.Keys.{numeric_key, preparing_object_prefix, committed_object_prefix}
use openevent.Storage.Records.{StoredObject}
use openevent.Storage.Rocks.Updates.{Batch, delete, meta, messages, objects, Contents}

abbrev key_of : StoredObject → Bytes
key_of o = numeric_key preparing_object_prefix o.object_id

abbrev deletions : List StoredObject → Batch
deletions [] = []
deletions (o ∷ os) = delete objects (key_of o) ∷ deletions os

-- `c'` is `c` without the preparing objects.
pub record Forgets (os : List StoredObject) (c c' : Contents) : Type 0 where
  pub none_preparing :
      All (λ o. c' objects (numeric_key preparing_object_prefix o.object_id) ≡ none) os
  pub committed_entries :
      (id : ℕ)
      → c' objects (numeric_key committed_object_prefix id)
        ≡ c objects (numeric_key committed_object_prefix id)
  pub meta_entries : (k : Bytes) → c' meta k ≡ c meta k
  pub message_entries : (k : Bytes) → c' messages k ≡ c messages k

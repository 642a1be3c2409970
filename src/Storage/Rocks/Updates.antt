-- ===== src/Storage/Rocks/Updates.antt =====
-- `rocksdb::WriteBatch`: the updates in the order in which they were added, and their effect.
use openevent.Common.{
  arith, bytes_eq_refl, ◌≡◌, Bool, true, false, ◌&&◌, Option, none, some, List, [], ◌∷◌, Bytes,
  bytes_eq, if◌then◌else◌,
}

-- The column families: the default one, `messages` and `objects`.
pub data Cf : Type 0 where
  meta messages objects : Cf

abbrev pub same_cf : Cf → Cf → Bool
same_cf meta meta = true
same_cf messages messages = true
same_cf objects objects = true
same_cf _ _ = false

pub data Update : Type 0 where
  put : Cf → Bytes → Bytes → Update
  delete : Cf → Bytes → Update

abbrev pub Batch : Type 0
Batch = List Update

abbrev pub Contents : Type 0
Contents = Cf → Bytes → Option Bytes

abbrev pub apply : Contents → Update → Contents
apply c (put cf k v) cf' k' = if same_cf cf cf' && bytes_eq k k' then some v else c cf' k'
apply c (delete cf k) cf' k' = if same_cf cf cf' && bytes_eq k k' then none else c cf' k'

abbrev pub after : Contents → Batch → Contents
after c [] = c
after c (u ∷ us) = after (apply c u) us

-- `c'` is `c` with what is stored for one key of the default column family, and nothing else changed.
pub record SetsMeta (key : Bytes) (entry : Option Bytes) (c c' : Contents) : Type 0 where
  pub entry_stored : c' meta key ≡ entry
  pub other_meta : (k : Bytes) → bytes_eq key k ≡ false → c' meta k ≡ c meta k
  pub other_messages : (k : Bytes) → c' messages k ≡ c messages k
  pub other_objects : (k : Bytes) → c' objects k ≡ c objects k

pub put-SetsMeta-at :
    (key v : Bytes) (c c' : Contents)
    → ((cf : Cf) (k : Bytes) → c' cf k ≡ after c (put meta key v ∷ []) cf k)
    → SetsMeta key (some v) c c'
put-SetsMeta-at key v c c' e = record {
  entry_stored = ground (arith, e meta key, bytes_eq_refl key);
  other_meta = λ k ne. ground (arith, e meta k, ne);
  other_messages = λ k. ground (arith, e messages k);
  other_objects = λ k. ground (arith, e objects k);
}

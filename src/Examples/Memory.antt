-- ===== src/Examples/Memory.antt =====
-- A platform in memory for the examples: a database is the list of the updates that were written.
use openevent.Common.{
  ℕ, ◌+◌, ◌-◌, ◌^◌, ◌≡◌, ◌↔◌, refl, Bool, true, false, not, Option, none, some, List, [], ◌∷◌, ◌++◌,
  Bytes, codes, bytes_eq, bytes_eq_refl, bytes_eq_sound, length, take, drop, leb, ◌==◌,
  if◌then◌else◌, arith, ap, All, Bool-cases, inl, inr,
}
use openevent.Status.{success, Result, ok, fail, error, not_found}
use openevent.Platform.{Platform, Lawful, Json, Kind, number_value, string_value, struct_value}
use openevent.Proto.{Visibility, visibility_other}
use openevent.Storage.Encoding.Order.{bytes_lt}
use openevent.Storage.ObjectFiles.{ObjectFiles}
use openevent.Storage.Rocks.{Rocks, RocksLaws, Lookup, found, absent, Cursor}
use openevent.Storage.Rocks.Updates.{Cf, put, delete, Batch, Contents, apply, after, same_cf}
use openevent.Examples.Codecs.{
  event_message_codec, event_message_codec-Inverts, channel_info_codec, channel_info_codec-Inverts,
  object_record_codec, object_record_codec-Inverts,
}

abbrev nothing : Contents
nothing cf k = none

abbrev contents : Batch → Contents
contents d = after nothing d

after-append :
    (c : Contents) (d b : Batch) (cf : Cf) (k : Bytes)
    → after c (d ++ b) cf k ≡ after (after c d) b cf k
after-append c [] b cf k = refl
after-append c (u ∷ d) b cf k = after-append (apply c u) d b cf k

abbrev to_lookup : Option Bytes → Lookup
to_lookup none = absent
to_lookup (some v) = found v

-- The keys in order.
unfoldable pub insert_key : Bytes → List Bytes → List Bytes
unfolding bytes_lt bytes_eq
insert_key k [] = k ∷ []
insert_key k (j ∷ js) =
    let rest = insert_key k js in
    if bytes_lt k j then k ∷ j ∷ js else if bytes_eq k j then j ∷ js else j ∷ rest

abbrev keys_of : Cf → Batch → List Bytes
keys_of cf [] = []
keys_of cf (put cf' k v ∷ us) =
    let rest = keys_of cf us in if same_cf cf' cf then insert_key k rest else rest
keys_of cf (delete cf' k ∷ us) = keys_of cf us

abbrev with_value : Bytes → Option Bytes → List (Bytes × Bytes) → List (Bytes × Bytes)
with_value k none rest = rest
with_value k (some v) rest = (k, v) ∷ rest

unfoldable pub entries_from : Batch → Cf → Bytes → List Bytes → List (Bytes × Bytes)
unfolding bytes_lt
entries_from d cf start [] = []
entries_from d cf start (k ∷ ks) =
    let rest = entries_from d cf start ks in
    if bytes_lt k start then rest else with_value k (contents d cf k) rest

abbrev cursor : Batch → Cf → Bytes → Cursor
cursor d cf start = record { entries = entries_from d cf start (keys_of cf d); at_end = none }

abbrev memory_rocks : Rocks
memory_rocks = record {
  Db = Batch;
  Snapshot = Batch;
  get_snapshot = λ d. some d;
  get = λ s cf k. to_lookup (contents s cf k);
  seek = cursor;
  seek_latest = cursor;
  write = λ d b. (none, d ++ b);
  contents = contents;
  view = contents;
}

to_lookup-found : (o : Option Bytes) (v : Bytes) → to_lookup o ≡ found v → o ≡ some v
to_lookup-found none v h = cc
to_lookup-found (some w) v h = ground arith

to_lookup-absent : (o : Option Bytes) → to_lookup o ≡ absent → o ≡ none
to_lookup-absent none h = refl
to_lookup-absent (some w) h = cc

with_value-stored :
    (d : Batch) (cf : Cf) (k : Bytes) (o : Option Bytes) (rest : List (Bytes × Bytes))
    → contents d cf k ≡ o
    → All (λ e. contents d cf e.0 ≡ some e.1) rest
    → All (λ e. contents d cf e.0 ≡ some e.1) (with_value k o rest)
with_value-stored d cf k none rest is all = all
with_value-stored d cf k (some v) rest is all = (is, all)

entries_from-stored :
    (d : Batch) (cf : Cf) (start : Bytes) (ks : List Bytes)
    → All (λ e. contents d cf e.0 ≡ some e.1) (entries_from d cf start ks)
unfolding entries_from
entries_from-stored d cf start [] = tt
entries_from-stored d cf start (k ∷ ks) = elim (Bool-cases (bytes_lt k start)) [
  | inl before ↦ rw before (entries_from-stored d cf start ks)
  | inr from ↦ rw from (
      with_value-stored d cf k (contents d cf k) (entries_from d cf start ks) refl
        (entries_from-stored d cf start ks))
]

memory_rocks_laws : RocksLaws memory_rocks
memory_rocks_laws = record {
  snapshot_view = λ d s h. ground arith;
  get_found = λ s cf k v h. to_lookup-found (contents s cf k) v h;
  get_absent = λ s cf k h. to_lookup-absent (contents s cf k) h;
  seek_entries = λ s cf start. entries_from-stored s cf start (keys_of cf s);
  write_applies = λ d d' b h cf k. rw (← ap (λ x. x.1) h) (after-append nothing d b cf k);
}

-- The JSON values that the payload of the initialization message needs.
pub data Value : Type 0 where
  number : ℕ → Value
  string : Bytes → Value
  struct : List (Bytes × ℕ) → Value

abbrev Struct : Type 0
Struct = List (Bytes × Value)

abbrev numbers : List (Bytes × ℕ) → Struct
numbers [] = []
numbers ((k, n) ∷ rest) = (k, number n) ∷ numbers rest

unfoldable pub field : Struct → Bytes → Option Value
unfolding bytes_eq
field [] name = none
field ((k, v) ∷ rest) name = if bytes_eq k name then some v else field rest name

abbrev kind : Value → Kind ℕ Struct Value
kind (number n) = number_value n
kind (string s) = string_value s
kind (struct s) = struct_value (numbers s)

-- A reader of one text.
unfoldable pub read : Bytes → Option Struct
unfolding bytes_eq
read text =
    if bytes_eq text (codes "{\"kind\":\"system.initialization\",\"data\":{\"schema_version\":1}}")
    then some (
        (codes "kind", string (codes "system.initialization"))
        ∷ (codes "data", struct ((codes "schema_version", 1) ∷ []))
        ∷ [])
    else none

abbrev memory_json : Json
memory_json = record {
  Number = ℕ;
  Struct = Struct;
  Value = Value;
  read = read;
  field = field;
  kind = kind;
  is_one = λ n. n == 1;
  is_positive = λ n. not (n == 0);
  is_integral = λ n. true;
  is_at_most_u64_max = λ n. leb n (2 ^ 64 - 1);
}

abbrev Files : Type 0
Files = List (ℕ × Bytes)

abbrev remove : Files → ℕ → Files
remove [] id = []
remove ((j, b) ∷ rest) id =
    let others = remove rest id in if j == id then others else (j, b) ∷ others

abbrev remove_all : Files → List ℕ → Files
remove_all files [] = files
remove_all files (id ∷ ids) = remove_all (remove files id) ids

abbrev read_range : Files → ℕ → ℕ → ℕ → ℕ → Result Bytes
read_range [] id size offset nbytes = fail (error not_found "object file not found")
read_range ((j, b) ∷ rest) id size offset nbytes =
    if j == id then ok (take nbytes (drop offset b)) else read_range rest id size offset nbytes

abbrev memory_files : ObjectFiles
memory_files = record {
  Files = Files;
  write = λ files id content. (success, (id, content) ∷ files);
  cleanup = λ files ids. (success, remove_all files ids);
  read_range = read_range;
}

abbrev is_valid : Visibility → Bool
is_valid (visibility_other n) = false
is_valid _ = true

unfoldable pub order_of : Bytes → Bytes → ℕ
unfolding bytes_eq
order_of x y = if bytes_eq x y then 0 else 1

unfoldable pub compare_bytes : Bytes → Bytes → ℕ → ℕ
unfolding bytes_eq
compare_bytes a b n = order_of (take n a) (take n b)

take_all : (xs : Bytes) → take (length xs) xs ≡ xs
take_all [] = refl
take_all (x ∷ xs) = ap (λ ys. x ∷ ys) (take_all xs)

compared : (a b x y : Bytes) → x ≡ a → y ≡ b → (order_of x y ≡ 0) ↔ (a ≡ b)
unfolding order_of
compared a b x y hx hy = ground (arith, bytes_eq_sound x y, bytes_eq_refl x)

compare_bytes-equal :
    (a b : Bytes) → length a ≡ length b → (compare_bytes a b (length a) ≡ 0) ↔ (a ≡ b)
unfolding bytes_eq compare_bytes order_of
compare_bytes-equal a b h =
    compared a b (take (length a) a) (take (length a) b) (take_all a) (rw h (take_all b))

abbrev pub memory : Platform
memory = record {
  rocks = memory_rocks;
  event_messages = event_message_codec;
  channel_infos = channel_info_codec;
  object_records = object_record_codec;
  visibility_is_valid = is_valid;
  byte_size = λ m. length m.payload + 16;
  json = memory_json;
  crypto_memcmp = compare_bytes;
  object_files = memory_files;
}

pub memory-Lawful : Lawful memory
memory-Lawful = record {
  rocks = memory_rocks_laws;
  event_messages = event_message_codec-Inverts;
  channel_infos = channel_info_codec-Inverts;
  object_records = object_record_codec-Inverts;
  public_is_valid = refl;
  protected_is_valid = refl;
  private_is_valid = refl;
  crypto_memcmp_equal = compare_bytes-equal;
}

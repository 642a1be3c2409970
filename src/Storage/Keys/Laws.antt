-- ===== src/Storage/Keys/Laws.antt =====
-- When keys are equal, and what they decode to (src/storage/unified_storage.cpp).
use openevent.Common.{
  ℕ, ◌+◌, ◌≡◌, refl, ◌∙◌, true, List, [], ◌∷◌, ◌++◌, String, Bytes, length, length-append, drop,
  ◌==◌, ◌&&◌, arith, IsU64, bytes_eq, bytes_eq_refl, bytes_eq_sound, bytes_eq-append, ==_iff,
  Bool-cases, inl, inr, sym,
}
use openevent.Status.{ok}
use openevent.Storage.Encoding.{encode_uint64}
use openevent.Storage.Encoding.RoundTrip.{
  length-encode_uint64, decode-encode, encode_uint64-injective,
}
use openevent.Storage.Keys.{
  numeric_key, token_key, starts_with, decode_required_uint64, decode_numeric_key, token_prefix,
}

bytes_eq-encode :
    (m n : ℕ) → IsU64 m → IsU64 n → bytes_eq (encode_uint64 m) (encode_uint64 n) ≡ (m == n)
bytes_eq-encode m n hm hn = elim (Bool-cases (m == n)) [
  | inl e ↦ rw (e, (==_iff m n).0 e) (bytes_eq_refl _)
  | inr e ↦ elim (Bool-cases (bytes_eq (encode_uint64 m) (encode_uint64 n))) [
    | inl q ↦ ground (arith, encode_uint64-injective m n hm hn (bytes_eq_sound _ _ q))
    | inr q ↦ rw (e, q)
  ]
]

-- Two keys of one prefix, of numbers below 2^64, are equal exactly when their numbers are.
pub bytes_eq-numeric_key :
    (p : Bytes) (m n : ℕ)
    → IsU64 m
    → IsU64 n
    → bytes_eq (numeric_key p m) (numeric_key p n) ≡ (m == n)
unfolding numeric_key
bytes_eq-numeric_key p m n hm hn = bytes_eq-append p _ _ ∙ bytes_eq-encode m n hm hn

starts_with-append : (p xs : Bytes) → starts_with (p ++ xs) p ≡ true
unfolding starts_with
starts_with-append [] xs = refl
starts_with-append (c ∷ p) xs = ground (arith, starts_with-append p xs)

drop-append {ℓ} : {A : Type ℓ} (xs ys : List A) → drop (length xs) (xs ++ ys) ≡ ys
drop-append [] ys = refl
drop-append (x ∷ xs) ys = drop-append xs ys

-- The key of a number below 2^64 decodes, under its prefix, to that number.
pub decode_numeric_key-numeric_key :
    (p : Bytes) (n : ℕ) (what : String)
    → IsU64 n
    → decode_numeric_key (numeric_key p n) p what ≡ ok n
unfolding decode_numeric_key numeric_key
decode_numeric_key-numeric_key p n what h = ground (
  arith,
  length-append p (encode_uint64 n),
  length-encode_uint64 n,
  starts_with-append p (encode_uint64 n),
  drop-append p (encode_uint64 n),
  decode-encode n h,
)

pub decode_required_uint64-encode_uint64 :
    (n : ℕ) (what : String) → IsU64 n → decode_required_uint64 (encode_uint64 n) what ≡ ok n
unfolding decode_required_uint64
decode_required_uint64-encode_uint64 n what h =
    ground (arith, length-encode_uint64 n, decode-encode n h)

bytes_eq-append_both :
    (a b x y : Bytes)
    → length a ≡ length b
    → bytes_eq (a ++ x) (b ++ y) ≡ (bytes_eq a b && bytes_eq x y)
unfolding bytes_eq
bytes_eq-append_both [] [] x y h = refl
bytes_eq-append_both [] (c ∷ b) x y h = absurd (omega arith)
bytes_eq-append_both (c ∷ a) [] x y h = absurd (omega arith)
bytes_eq-append_both (c ∷ a) (d ∷ b) x y h =
    ground (arith, bytes_eq-append_both a b x y (omega arith))

length-numeric_key : (p : Bytes) (n : ℕ) → length (numeric_key p n) ≡ length p + 8
unfolding numeric_key
length-numeric_key p n = omega (arith, length-append p (encode_uint64 n), length-encode_uint64 n)

-- The keys of two credentials, of principals below 2^64, are equal exactly when the principals are
-- equal and the tokens are.
pub bytes_eq-token_key :
    (p q : ℕ) (t u : Bytes)
    → IsU64 p
    → IsU64 q
    → bytes_eq (token_key p t) (token_key q u) ≡ (p == q && bytes_eq t u)
unfolding token_key
bytes_eq-token_key p q t u hp hq =
    rw
      (
        bytes_eq-append_both (numeric_key token_prefix p) (numeric_key token_prefix q) t u
            (length-numeric_key token_prefix p ∙ sym (length-numeric_key token_prefix q)),
        bytes_eq-numeric_key token_prefix p q hp hq,
      )
      refl

-- ===== src/Storage/Encoding/Order.antt =====
-- The encoding keeps the order: RocksDB's bytewise comparison of keys is `<` of their numbers.
use openevent.Common.{
  ℕ, zero, suc, ◌+◌, ◌*◌, ◌/◌, ◌%◌, ◌^◌, ◌<◌, ◌≡◌, refl, ap, Bool, true, false, ◌&&◌, ◌||◌, [], ◌∷◌,
  ◌++◌, Bytes, arith, ltb, ◌==◌, IsU64,
}
use native.Mathlib.Nat.{pow-suc, suc-mul, one-le-pow, div-add-mod, div-div-eq-div-mul}
use native.Mathlib.Numerals.{towards_suc}
use openevent.Storage.Encoding.{encode_loop, encode_uint64}

-- The lexicographic order of byte strings, strictly.
unfoldable pub bytes_lt : Bytes → Bytes → Bool
bytes_lt xs [] = false
bytes_lt [] (y ∷ ys) = true
bytes_lt (x ∷ xs) (y ∷ ys) = ltb x y || (x == y && bytes_lt xs ys)

pub bytes_lt-append : (p xs ys : Bytes) → bytes_lt (p ++ xs) (p ++ ys) ≡ bytes_lt xs ys
unfolding bytes_lt
bytes_lt-append [] xs ys = refl
bytes_lt-append (x ∷ p) xs ys = ground (arith, bytes_lt-append p xs ys)

gap : (a b r p : ℕ) → a < b → r < p → a * p + r < b * p
gap a b r p h hr = grind arith

digit_lt :
    (a b r s p : ℕ) → r < p → s < p → (ltb a b || (a == b && ltb r s)) ≡ ltb (a * p + r) (b * p + s)
digit_lt a b r s p hr hs = ground (arith, gap a b r p, gap b a s p)

split_mod : (m p : ℕ) → 0 < p → m / p % 256 * p + m % p ≡ m % (p * 256)
split_mod m p h = omega (
  arith,
  div-div-eq-div-mul m p 256,
  div-add-mod m p,
  div-add-mod m (p * 256),
  ap (λ (t : ℕ). t * p) (div-add-mod (m / p) 256),
  ap (λ (t : ℕ). 256 * p * t) (div-div-eq-div-mul m p 256),
)

pow_step : (k : ℕ) → 2 ^ (suc k * 8) ≡ 2 ^ (k * 8) * 256
pow_step k = simp (suc-mul, towards_suc, pow-suc) (omega arith)

bytes_lt-encode_loop :
    (k m n : ℕ)
    → bytes_lt (encode_loop k m) (encode_loop k n) ≡ ltb (m % 2 ^ (k * 8)) (n % 2 ^ (k * 8))
unfolding encode_loop bytes_lt
bytes_lt-encode_loop zero m n = ground arith
bytes_lt-encode_loop (suc k) m n =
    let p : ℕ = 2 ^ (k * 8) in
    let pos : 0 < p = one-le-pow (k * 8) 2 (omega arith) in
    rw (bytes_lt-encode_loop k m n, pow_step k, ← split_mod m p pos, ← split_mod n p pos)
      (digit_lt (m / p % 256) (n / p % 256) (m % p) (n % p) p (omega arith) (omega arith))

-- On numbers below 2^64, the bytewise order of their encodings is their order.
pub bytes_lt-encode_uint64 :
    (m n : ℕ) → IsU64 m → IsU64 n → bytes_lt (encode_uint64 m) (encode_uint64 n) ≡ ltb m n
unfolding encode_uint64
bytes_lt-encode_uint64 m n hm hn = ground (arith, bytes_lt-encode_loop 8 m n)

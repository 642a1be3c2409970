-- ===== src/Core/Tokens/Base64.antt =====
-- The encoding of object tokens (src/service/open_event_core.cpp): its form, and what it tells apart.
use openevent.Common.{
  ℕ, ap, ◌+◌, ◌*◌, ◌/◌, ◌%◌, ◌<◌, ◌≤◌, ◌≡◌, refl, true, [], ◌∷◌, Bytes, AreBytes, length, all,
  arith,
}
use openevent.Storage.Records.{is_token_char, is_base64_url_token}
use openevent.Core.Tokens.{base64_url_char, encode_base64_url, object_token_random_bytes}

is_token_char-base64_url_char : (i : ℕ) → is_token_char (base64_url_char i) ≡ true
unfolding is_token_char base64_url_char
is_token_char-base64_url_char i = ground arith

base64_url_char-injective :
    (i j : ℕ) → i < 64 → j < 64 → base64_url_char i ≡ base64_url_char j → i ≡ j
unfolding base64_url_char
base64_url_char-injective i j hi hj e = ground arith

all-encode_base64_url : (bs : Bytes) → all is_token_char (encode_base64_url bs) ≡ true
unfolding encode_base64_url
all-encode_base64_url [] = refl
all-encode_base64_url (a ∷ []) = simp is_token_char-base64_url_char
all-encode_base64_url (a ∷ b ∷ []) = simp is_token_char-base64_url_char
all-encode_base64_url (a ∷ b ∷ c ∷ rest) =
    simp (is_token_char-base64_url_char, all-encode_base64_url rest)

-- Four characters for three bytes.
length-encode_base64_url :
    (bs : Bytes)
    → (length bs * 4 ≤ 3 * length (encode_base64_url bs))
      × (3 * length (encode_base64_url bs) ≤ length bs * 4 + 2)
unfolding encode_base64_url
length-encode_base64_url [] = omega arith
length-encode_base64_url (a ∷ []) = omega arith
length-encode_base64_url (a ∷ b ∷ []) = omega arith
length-encode_base64_url (a ∷ b ∷ c ∷ rest) = omega (arith, length-encode_base64_url rest)

-- The encoding of 32 bytes is a token that the storage accepts.
pub is_base64_url_token-encode_base64_url :
    (bs : Bytes)
    → length bs ≡ object_token_random_bytes
    → is_base64_url_token (encode_base64_url bs) ≡ true
unfolding is_base64_url_token
is_base64_url_token-encode_base64_url bs h =
    ground (arith, length-encode_base64_url bs, all-encode_base64_url bs)

-- The characters of two groups of 24 bits agree only if the groups do.
groups_agree :
    (v w : ℕ)
    → v < 16777216
    → w < 16777216
    → base64_url_char (v / 262144 % 64) ≡ base64_url_char (w / 262144 % 64)
    → base64_url_char (v / 4096 % 64) ≡ base64_url_char (w / 4096 % 64)
    → base64_url_char (v / 64 % 64) ≡ base64_url_char (w / 64 % 64)
    → base64_url_char (v % 64) ≡ base64_url_char (w % 64)
    → v ≡ w
groups_agree v w hv hw e₁ e₂ e₃ e₄ = omega (
  arith,
  base64_url_char-injective (v / 262144 % 64) (w / 262144 % 64) (omega arith) (omega arith) e₁,
  base64_url_char-injective (v / 4096 % 64) (w / 4096 % 64) (omega arith) (omega arith) e₂,
  base64_url_char-injective (v / 64 % 64) (w / 64 % 64) (omega arith) (omega arith) e₃,
  base64_url_char-injective (v % 64) (w % 64) (omega arith) (omega arith) e₄,
)

-- Two byte strings of one length with the same encoding are the same.
pub encode_base64_url-injective :
    (xs ys : Bytes)
    → length xs ≡ length ys
    → AreBytes xs
    → AreBytes ys
    → encode_base64_url xs ≡ encode_base64_url ys
    → xs ≡ ys
unfolding encode_base64_url
encode_base64_url-injective [] [] l hx hy e = refl
encode_base64_url-injective (a ∷ []) (d ∷ []) l hx hy e =
    let v : ℕ = a * 65536 in
    let w : ℕ = d * 65536 in
    let third : v / 64 % 64 ≡ w / 64 % 64 = omega arith in
    let fourth : v % 64 ≡ w % 64 = omega arith in
    let same : v ≡ w =
      groups_agree v w (omega arith) (omega arith) (cc) (cc) (ap base64_url_char third)
        (ap base64_url_char fourth) in
    ground arith
encode_base64_url-injective (a ∷ b ∷ []) (d ∷ g ∷ []) l hx hy e =
    let v : ℕ = a * 65536 + b * 256 in
    let w : ℕ = d * 65536 + g * 256 in
    let fourth : v % 64 ≡ w % 64 = omega arith in
    let same : v ≡ w =
      groups_agree v w (omega arith) (omega arith) (cc) (cc) (cc) (ap base64_url_char fourth) in
    ground arith
encode_base64_url-injective (a ∷ b ∷ c ∷ xs) (d ∷ g ∷ h ∷ ys) l hx hy e =
    let v : ℕ = a * 65536 + b * 256 + c in
    let w : ℕ = d * 65536 + g * 256 + h in
    let same : v ≡ w = groups_agree v w (omega arith) (omega arith) (cc) (cc) (cc) (cc) in
    let rest : xs ≡ ys = encode_base64_url-injective xs ys (omega arith) hx.1.1.1 hy.1.1.1 (cc) in
    ground arith
encode_base64_url-injective _ _ l hx hy e = absurd (omega arith)

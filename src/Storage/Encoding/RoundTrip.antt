-- ===== src/Storage/Encoding/RoundTrip.antt =====
-- Encoding and decoding are inverse.
use openevent.Common.{ℕ, ◌≡◌, [], ◌∷◌, Bytes, AreBytes, length, arith, refl, ap, ◌∙◌, sym, IsU64}
use openevent.Storage.Encoding.{encode_uint64, decode_uint64}

pub length-encode_uint64 : (n : ℕ) → length (encode_uint64 n) ≡ 8
unfolding encode_uint64
length-encode_uint64 n = refl

pub encode_uint64-AreBytes : (n : ℕ) → AreBytes (encode_uint64 n)
unfolding encode_uint64
encode_uint64-AreBytes n = omega arith

-- A number below 2^64 decodes from its encoding.
pub decode-encode : (n : ℕ) → IsU64 n → decode_uint64 (encode_uint64 n) ≡ n
unfolding encode_uint64 decode_uint64
decode-encode n h = omega arith

pub encode_uint64-injective :
    (m n : ℕ) → IsU64 m → IsU64 n → encode_uint64 m ≡ encode_uint64 n → m ≡ n
encode_uint64-injective m n hm hn e =
    sym (decode-encode m hm) ∙ ap decode_uint64 e ∙ decode-encode n hn

-- Eight bytes are the encoding of what they decode to.
encode-decode_eight :
    (a b c d e f g h : ℕ)
    → AreBytes (a ∷ b ∷ c ∷ d ∷ e ∷ f ∷ g ∷ h ∷ [])
    → encode_uint64 (decode_uint64 (a ∷ b ∷ c ∷ d ∷ e ∷ f ∷ g ∷ h ∷ []))
      ≡ a ∷ b ∷ c ∷ d ∷ e ∷ f ∷ g ∷ h ∷ []
unfolding encode_uint64 decode_uint64
encode-decode_eight a b c d e f g h s = ground arith

-- Eight bytes are the encoding of the number that they decode to.
pub encode-decode :
    (bs : Bytes) → AreBytes bs → length bs ≡ 8 → encode_uint64 (decode_uint64 bs) ≡ bs
encode-decode (a ∷ b ∷ c ∷ d ∷ e ∷ f ∷ g ∷ h ∷ []) s l = encode-decode_eight a b c d e f g h s
encode-decode _ s l = absurd (omega arith)

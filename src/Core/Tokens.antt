-- ===== src/Core/Tokens.antt =====
-- Tokens of src/service/open_event_core.cpp: random bytes, in hexadecimal groups for principals
-- and in base64url for objects.
pub mod Base64
use openevent.Common.{
  ℕ, zero, suc, ◌+◌, ◌-◌, ◌*◌, ◌/◌, ◌%◌, Bool, true, false, ◌||◌, Option, none, some, List, [], ◌∷◌,
  ◌++◌, String, Bytes, codes, length, ltb, ◌==◌, if◌then◌else◌,
}
use openevent.Status.{
  Result, ok, fail, Errno, eintr, status, text, number, strerror, internal, ◌>>=◌,
}

-- The outcomes of the calls of `getrandom`, in order: an error, or the bytes that it wrote.
pub data RandomCall : Type 0 where
  failed : Errno → RandomCall
  wrote : Bytes → RandomCall

abbrev is_eintr : Errno → Bool
is_eintr eintr = true
is_eintr _ = false

-- `while (filled < sizeof(bytes))`; `none` while the last call has not returned.
unfoldable pub fill : ℕ → Bytes → List RandomCall → Option (Result Bytes)
fill size filled [] = if ltb (length filled) size then none else some (ok filled)
fill size filled (failed e ∷ calls) =
    let again = fill size filled calls in
    if ltb (length filled) size
    then (if is_eintr e
        then again
        else some (fail (status internal (text "getrandom failed: " ∷ strerror e ∷ []))))
    else some (ok filled)
fill size filled (wrote bs ∷ calls) =
    let again = fill size (filled ++ bs) calls in
    if ltb (length filled) size then again else some (ok filled)

abbrev pub object_token_random_bytes : ℕ
object_token_random_bytes = 32

-- The character of `kBase64Url` at a six-bit index.
unfoldable pub base64_url_char : ℕ → ℕ
base64_url_char i =
    if ltb i 26
    then b'A' + i
    else if ltb i 52
    then b'a' + (i - 26)
    else if ltb i 62
    then b'0' + (i - 52)
    else if i == 62
    then b'-'
    else b'_'

-- `value >> 18`, `(value >> 12) & 0x3f`, `(value >> 6) & 0x3f` and `value & 0x3f` of 24 bits.
unfoldable pub encode_base64_url : Bytes → Bytes
encode_base64_url (a ∷ b ∷ c ∷ rest) =
    let value = a * 65536 + b * 256 + c in
    base64_url_char (value / 262144 % 64)
    ∷ base64_url_char (value / 4096 % 64)
    ∷ base64_url_char (value / 64 % 64)
    ∷ base64_url_char (value % 64)
    ∷ encode_base64_url rest
encode_base64_url (a ∷ b ∷ []) =
    let value = a * 65536 + b * 256 in
    base64_url_char (value / 262144 % 64)
    ∷ base64_url_char (value / 4096 % 64)
    ∷ base64_url_char (value / 64 % 64)
    ∷ []
encode_base64_url (a ∷ []) =
    let value = a * 65536 in
    base64_url_char (value / 262144 % 64) ∷ base64_url_char (value / 4096 % 64) ∷ []
encode_base64_url [] = []

abbrev finish : (Bytes → Bytes) → Option (Result Bytes) → Option (Result Bytes)
finish f none = none
finish f (some (ok bytes)) = some (ok (f bytes))
finish f (some (fail e)) = some (fail e)

unfoldable pub generate_object_token : List RandomCall → Option (Result Bytes)
generate_object_token calls = finish encode_base64_url (fill object_token_random_bytes [] calls)

unfoldable pub hex_digit : ℕ → ℕ
hex_digit d = if ltb d 10 then b'0' + d else b'a' + (d - 10)

-- `std::setw(2)` with fill `0`, and a dash behind the bytes 3, 5, 7 and 9.
unfoldable pub hex_groups : ℕ → Bytes → Bytes
hex_groups i [] = []
hex_groups i (b ∷ rest) =
    hex_digit (b / 16)
    ∷ hex_digit (b % 16)
    ∷ ((if i == 3 || i == 5 || i == 7 || i == 9 then b'-' ∷ [] else []) ++ hex_groups (i + 1) rest)

unfoldable pub generate_token : List RandomCall → Option (Result Bytes)
generate_token calls = finish (hex_groups 0) (fill 16 [] calls)

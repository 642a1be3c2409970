-- ===== src/Examples/Formats.antt =====
-- The theorems on the stored formats and on tokens at concrete inputs.
use openevent.Common.{◌≡◌, ltb, arith}
use openevent.Storage.Encoding.{encode_uint64, decode_uint64}
use openevent.Storage.Encoding.RoundTrip.{decode-encode}
use openevent.Storage.Encoding.Order.{bytes_lt, bytes_lt-encode_uint64}

decode-encode_example : decode_uint64 (encode_uint64 258) ≡ 258
decode-encode_example = decode-encode 258 (omega arith)

bytes_lt-encode_uint64_example : bytes_lt (encode_uint64 255) (encode_uint64 256) ≡ ltb 255 256
bytes_lt-encode_uint64_example = bytes_lt-encode_uint64 255 256 (omega arith) (omega arith)

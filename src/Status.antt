-- ===== src/Status.antt =====
-- `Status` and `Result` of src/common/status.h, and the conversions from errors of RocksDB and of
-- the operating system (src/storage/rocksdb_status.h, src/storage/io_error.h).
--
-- A function of the program that returns `Status` is one that returns `Result (Unit {0})` here:
-- `Status::Ok()` is `ok tt`, and a status with another code is `fail e`. The text of a message is
-- the list of its pieces in order, so a number in it stays a number.
use openevent.Common.{
  ℕ, ◌≡◌, ◌⊎◌, inl, inr, refl, Bool, true, false, Option, none, some, List, [], ◌∷◌, ◌++◌, String,
  Bytes, ◌||◌, if◌then◌else◌,
}

-- The codes of `grpc::StatusCode` other than OK that the program uses.
pub data StatusCode : Type 0 where
  cancelled invalid_argument deadline_exceeded not_found already_exists : StatusCode
  permission_denied unauthenticated resource_exhausted aborted out_of_range : StatusCode
  internal unavailable data_loss : StatusCode

-- The values of `errno` that the program tells apart.
pub data Errno : Type 0 where
  eexist enoent eintr eisdir eperm eloop enospc edquot : Errno
  other : ℕ → Errno

pub data Piece : Type 0 where
  text : String → Piece
  number : ℕ → Piece
  raw : Bytes → Piece
  strerror : Errno → Piece

abbrev pub Text : Type 0
Text = List Piece

-- `operation=...; error=...`
pub record Diagnostic : Type 0 where
  pub operation : Text
  pub error : Text

pub record Error : Type 0 where
  pub code : StatusCode
  pub message : Text
  pub requires_server_exit : Bool
  pub storage_diagnostic : Option Diagnostic

abbrev pub status : StatusCode → Text → Error
status code message = record {
  code = code;
  message = message;
  requires_server_exit = false;
  storage_diagnostic = none;
}

abbrev pub error : StatusCode → String → Error
error code message = status code (text message ∷ [])

abbrev pub fatal : StatusCode → Text → Error
fatal code message = record (status code message) { requires_server_exit = true }

abbrev pub with_storage_diagnostic : Error → Text → Text → Error
with_storage_diagnostic e operation what = record e {
  storage_diagnostic = some (record { operation = operation; error = what });
}

abbrev pub storage_corruption : Text → Text → Error
storage_corruption operation what = with_storage_diagnostic (status data_loss what) operation what

abbrev pub corruption : String → String → Error
corruption operation what = storage_corruption (text operation ∷ []) (text what ∷ [])

-- The number of a code in `grpc::StatusCode`.
abbrev code_number : StatusCode → ℕ
code_number cancelled = 1
code_number invalid_argument = 3
code_number deadline_exceeded = 4
code_number not_found = 5
code_number already_exists = 6
code_number permission_denied = 7
code_number resource_exhausted = 8
code_number aborted = 10
code_number out_of_range = 11
code_number internal = 13
code_number unavailable = 14
code_number data_loss = 15
code_number unauthenticated = 16

abbrev diagnostic_text : Option Diagnostic → Text
diagnostic_text none = text "operation=storage; error=unclassified failure" ∷ []
diagnostic_text (some d) = text "operation=" ∷ (d.operation ++ (text "; error=" ∷ d.error))

unfoldable pub fatal_log_message : Error → Text
fatal_log_message e =
    text "fatal storage error: "
    ∷ (diagnostic_text e.storage_diagnostic
        ++ (text "; grpc_code=" ∷ number (code_number e.code) ∷ []))

abbrev pub is_data_loss : StatusCode → Bool
is_data_loss data_loss = true
is_data_loss _ = false

-- The test `requires_server_exit() || code() == DATA_LOSS`.
abbrev pub is_storage_fatal : Error → Bool
is_storage_fatal e = e.requires_server_exit || is_data_loss e.code

pub data Result {ℓ} (A : Type ℓ) : Type ℓ where
  ok : A → Result A
  fail : Error → Result A

-- `value()`, which is a default value where there is an error.
abbrev pub value : Result ℕ → ℕ
value (ok n) = n
value (fail e) = 0

abbrev pub Status : Type 0
Status = Result (Unit {0})

abbrev pub success : Status
success = ok tt

-- `if (!r.ok()) return r.status();` and the rest.
infixl 5 ◌>>=◌
abbrev pub ◌>>=◌ : {A B : Type 0} → Result A → (A → Result B) → Result B
◌>>=◌ (fail e) rest = fail e
◌>>=◌ (ok a) rest = rest a

infixl 5 ◌>>◌
abbrev pub ◌>>◌ : {A : Type 0} → Status → Result A → Result A
first >> rest = first >>= λ _. rest

-- `if (test) return e;`
abbrev pub fail_if : Bool → Error → Status
fail_if true e = fail e
fail_if false e = success

-- A chain that returns has returned at its first step.
pub >>=-eq-ok :
    {A B : Type 0} (r : Result A) (rest : A → Result B) {last : B}
    → r >>= rest ≡ ok last
    → (first : A) × (r ≡ ok first) × (rest first ≡ ok last)
>>=-eq-ok (fail e) rest h = cc
>>=-eq-ok (ok first) rest h = (first, refl, h)

-- To split on a computed result and keep the equation.
pub Result-cases :
    {A : Type 0} (r : Result A) → ((a : A) × (r ≡ ok a)) ⊎ ((e : Error) × (r ≡ fail e))
Result-cases (ok a) = inl (a, refl)
Result-cases (fail e) = inr (e, refl)

-- What `rocksdb::Status` says of a call that is neither OK nor NotFound.
pub record RocksError : Type 0 where
  pub is_corruption : Bool
  pub to_string : Text
  pub diagnostic : Text

unfoldable pub rocks_to_status : RocksError → Text → Error
rocks_to_status s operation =
    with_storage_diagnostic
      (fatal (if s.is_corruption then data_loss else unavailable)
        (operation ++ (text ": " ∷ s.to_string)))
      operation s.diagnostic

abbrev is_out_of_space : Errno → Bool
is_out_of_space enospc = true
is_out_of_space edquot = true
is_out_of_space _ = false

unfoldable pub errno_message : Text → Errno → Text
errno_message operation e = operation ++ (text ": " ∷ strerror e ∷ [])

unfoldable pub object_io_status : Text → Errno → Error
unfolding errno_message
object_io_status operation e =
    status (if is_out_of_space e then resource_exhausted else unavailable)
      (errno_message operation e)

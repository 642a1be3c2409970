-- ===== src/Server/Config.antt =====
-- The configuration of the server (src/server/server_config.cpp).
pub mod Loaded
use openevent.Common.{
  ℕ, ◌≤◌, ◌≡◌, ◌≢◌, ◌↔◌, refl, Bool, true, false, not, ◌&&◌, ◌||◌, String, List, [], ◌∷◌, Bytes,
  codes, bytes_eq, bytes_eq_refl, bytes_eq_sound, ap, subst, is_empty, ltb, ◌==◌, if◌then◌else◌,
  arith, inl, inr, Bool-cases,
}
use openevent.Status.{
  Result, ok, fail, Status, success, error, status, invalid_argument, text, raw, Result-cases,
  ◌>>=◌, ◌>>◌, fail_if,
}

abbrev pub max_payload_bytes_limit : ℕ
max_payload_bytes_limit = 62914560

pub record ServerConfig : Type 0 where
  pub grpc_listen_addr : Bytes
  pub admin_listen_addr : Bytes
  pub storage_path : Bytes
  pub max_payload_bytes : ℕ

-- The values that the fields start with.
abbrev pub default_config : ServerConfig
default_config = record {
  grpc_listen_addr = codes "0.0.0.0:9527";
  admin_listen_addr = codes "127.0.0.1:9528";
  storage_path = [];
  max_payload_bytes = 16777216;
}

unfoldable pub validate_server_config : ServerConfig → Status
validate_server_config config =
    fail_if (is_empty config.grpc_listen_addr)
      (error invalid_argument "grpc.listen_addr must not be empty")
    >> fail_if (is_empty config.admin_listen_addr)
        (error invalid_argument "admin.listen_addr must not be empty")
    >> fail_if (bytes_eq config.grpc_listen_addr config.admin_listen_addr)
        (error invalid_argument "grpc.listen_addr and admin.listen_addr must be different")
    >> fail_if (is_empty config.storage_path)
        (error invalid_argument "storage.path must not be empty")
    >> fail_if (config.max_payload_bytes == 0)
        (error invalid_argument "limits.max_payload_bytes must be greater than 0")
    >> fail_if (ltb max_payload_bytes_limit config.max_payload_bytes)
        (error invalid_argument "limits.max_payload_bytes must not exceed 62914560 (60 MiB)")

-- What a call that may throw gives: the text is `what()` of the exception.
pub data Thrown {ℓ} (A : Type ℓ) : Type ℓ where
  returns : A → Thrown A
  throws : Bytes → Thrown A

infixl 5 ◌then◌
abbrev pub ◌then◌ : {A B : Type 0} → Thrown A → (A → Thrown B) → Thrown B
returns a then rest = rest a
throws what then rest = throws what

-- The answer of a test of the file system, which may fail with the text of a `std::error_code`.
pub data Test : Type 0 where
  yes_it_is no_it_is_not : Test
  cannot_tell : Bytes → Test

-- `std::filesystem` and yaml-cpp.
pub record Files : Type 1 where
  pub Node : Type 0
  pub exists : Bytes → Test
  pub is_regular_file : Bytes → Test
  pub load_file : Bytes → Thrown Node
  -- `node[key]`, whether a node is defined, and `as<T>()`.
  pub child : Node → String → Thrown Node
  pub is_defined : Node → Bool
  pub as_string : Node → Thrown Bytes
  pub as_size : Node → Thrown ℕ

module _ (f : Files) where
  -- `AssignIfPresent`; `old` is the value of the field.
  abbrev assign_field : {A : Type 0} → (f.Node → Thrown A) → A → f.Node → Thrown A
  assign_field convert old field = if f.is_defined field then convert field else returns old

  unfoldable pub assign_if_present :
      {A : Type 0} → (f.Node → Thrown A) → f.Node → String → A → Thrown A
  assign_if_present convert node key old =
      if f.is_defined node then f.child node key then assign_field convert old else returns old

  -- The body of the `try`.
  unfoldable pub read_config : Bytes → Thrown ServerConfig
  read_config path = f.load_file path then λ root. f.child root "grpc" then λ grpc.
      assign_if_present f.as_string grpc "listen_addr" default_config.grpc_listen_addr
      then λ public. f.child root "admin" then λ admin.
          assign_if_present f.as_string admin "listen_addr" default_config.admin_listen_addr
          then λ private. f.child root "storage" then λ storage.
              assign_if_present f.as_string storage "path" default_config.storage_path then λ path.
              f.child root "limits" then λ limits.
              assign_if_present f.as_size limits "max_payload_bytes"
                default_config.max_payload_bytes
              then λ limit. returns (record {
                grpc_listen_addr = public;
                admin_listen_addr = private;
                storage_path = path;
                max_payload_bytes = limit;
              })

  -- A test of the path, with the text that refuses it.
  abbrev test_path : Test → String → Bytes → Status
  test_path yes_it_is refusal path = success
  test_path no_it_is_not refusal path =
      fail (status invalid_argument (text refusal ∷ raw path ∷ []))
  test_path (cannot_tell what) refusal path =
      fail (status invalid_argument (text "stat config file: " ∷ raw what ∷ []))

  abbrev pub validated : Thrown ServerConfig → Result ServerConfig
  validated (throws what) =
      fail (status invalid_argument (text "load config file: " ∷ raw what ∷ []))
  validated (returns config) = validate_server_config config >> ok config

  unfoldable pub load_server_config : Bytes → Result ServerConfig
  load_server_config path =
      fail_if (is_empty path) (error invalid_argument "config path must be provided")
      >> test_path (f.exists path) "config file does not exist: " path
      >> test_path (f.is_regular_file path) "config path is not a regular file: " path
      >> validated (read_config path)

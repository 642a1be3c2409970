-- ===== src/Server/Config/Loaded.antt =====
-- The configurations that are accepted (src/server/server_config.cpp).
use openevent.Common.{
  ◌≤◌, ◌≡◌, ◌≢◌, ◌↔◌, refl, false, [], ◌∷◌, Bytes, bytes_eq, bytes_eq_refl, bytes_eq_sound, ap,
  subst, is_empty, ltb, ◌==◌, arith, inl, inr, Bool-cases,
}
use openevent.Status.{ok, success, Result-cases}
use openevent.Server.Config.{
  max_payload_bytes_limit, ServerConfig, validate_server_config, Thrown, returns, throws, yes_it_is,
  Files, read_config, validated, load_server_config,
}

-- A configuration with which the server can start.
pub record IsValid (config : ServerConfig) : Type 0 where
  pub grpc_listen_addr : config.grpc_listen_addr ≢ []
  pub admin_listen_addr : config.admin_listen_addr ≢ []
  pub different : config.grpc_listen_addr ≢ config.admin_listen_addr
  pub storage_path : config.storage_path ≢ []
  pub positive : 1 ≤ config.max_payload_bytes
  pub in_limit : config.max_payload_bytes ≤ max_payload_bytes_limit

nonempty : (xs : Bytes) → is_empty xs ≡ false → xs ≢ []
nonempty [] h e = absurd cc
nonempty (x ∷ xs) h e = absurd cc

empty_is : (xs : Bytes) → xs ≢ [] → is_empty xs ≡ false
empty_is [] ne = absurd (ne refl)
empty_is (x ∷ xs) ne = refl

bytes_differ : (xs ys : Bytes) → bytes_eq xs ys ≡ false → xs ≢ ys
bytes_differ xs ys h e = absurd (ground (arith, bytes_eq_refl xs, e))

differ_bytes : (xs ys : Bytes) → xs ≢ ys → bytes_eq xs ys ≡ false
differ_bytes xs ys ne = elim (Bool-cases (bytes_eq xs ys)) [
  | inl same ↦ absurd (ne (bytes_eq_sound xs ys same))
  | inr other ↦ other
]

-- What the checks look at.
record Passes (config : ServerConfig) : Type 0 where
  pub grpc : is_empty config.grpc_listen_addr ≡ false
  pub admin : is_empty config.admin_listen_addr ≡ false
  pub same : bytes_eq config.grpc_listen_addr config.admin_listen_addr ≡ false
  pub path : is_empty config.storage_path ≡ false
  pub zero_limit : (config.max_payload_bytes == 0) ≡ false
  pub over : ltb max_payload_bytes_limit config.max_payload_bytes ≡ false

validate-Passes : (config : ServerConfig) → validate_server_config config ≡ success → Passes config
unfolding validate_server_config
validate-Passes config h = record {
  grpc = ground arith;
  admin = ground arith;
  same = ground arith;
  path = ground arith;
  zero_limit = ground arith;
  over = ground arith;
}

Passes-validate : (config : ServerConfig) → Passes config → validate_server_config config ≡ success
unfolding validate_server_config
Passes-validate config c = rw (c.grpc, c.admin, c.same, c.path, c.zero_limit, c.over) refl

Passes-IsValid : (config : ServerConfig) → Passes config → IsValid config
Passes-IsValid config c = record {
  grpc_listen_addr = nonempty config.grpc_listen_addr c.grpc;
  admin_listen_addr = nonempty config.admin_listen_addr c.admin;
  different = bytes_differ config.grpc_listen_addr config.admin_listen_addr c.same;
  storage_path = nonempty config.storage_path c.path;
  positive = ground (arith, c.zero_limit);
  in_limit = ground (arith, c.over);
}

IsValid-Passes : (config : ServerConfig) → IsValid config → Passes config
IsValid-Passes config v = record {
  grpc = empty_is config.grpc_listen_addr v.grpc_listen_addr;
  admin = empty_is config.admin_listen_addr v.admin_listen_addr;
  same = differ_bytes config.grpc_listen_addr config.admin_listen_addr v.different;
  path = empty_is config.storage_path v.storage_path;
  zero_limit = ground (arith, v.positive);
  over = ground (arith, v.in_limit);
}

module _ (f : Files) where
  -- The file that a configuration was loaded from.
  pub record IsLoaded (path : Bytes) (config : ServerConfig) : Type 0 where
    pub given : path ≢ []
    pub there : f.exists path ≡ yes_it_is
    pub regular : f.is_regular_file path ≡ yes_it_is
    pub says : read_config f path ≡ returns config
    pub valid : IsValid config

  validated-ok :
      (t : Thrown ServerConfig) (config : ServerConfig)
      → validated f t ≡ ok config
      → (t ≡ returns config) × IsValid config
  validated-ok (throws what) config h = absurd (ground arith)
  validated-ok (returns given) config h = elim (Result-cases (validate_server_config given)) [
    | inr (e, failed) ↦ absurd (ground (arith, failed))
    | inl (_, passed) ↦
        let same : given ≡ config = ground (arith, passed) in
        (ap returns same, subst IsValid same (Passes-IsValid given (validate-Passes given passed)))
  ]

  -- `LoadServerConfig` returns a configuration exactly if the path is not empty, names a regular
  -- file, the file gives that configuration, and the configuration is valid: both addresses are not
  -- empty and different, the storage path is not empty, and the limit of the payload is from 1 to
  -- 62914560.
  pub load_server_config-IsLoaded :
      (path : Bytes) (config : ServerConfig)
      → (load_server_config f path ≡ ok config) ↔ IsLoaded path config
  unfolding load_server_config
  load_server_config-IsLoaded path config = (
    λ h.
        let (says, valid) = validated-ok (read_config f path) config (ground arith) in
        record {
          given = nonempty path (ground arith);
          there = ground arith;
          regular = ground arith;
          says = says;
          valid = valid;
        },
    λ l.
        let passed : validate_server_config config ≡ success =
          Passes-validate config (IsValid-Passes config l.valid) in
        rw (empty_is path l.given, l.there, l.regular, l.says, passed) refl,
  )

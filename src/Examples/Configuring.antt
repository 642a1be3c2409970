-- ===== src/Examples/Configuring.antt =====
-- A file that sets the path of the storage and the limit of the payload.
use openevent.Common.{ℕ, ◌≡◌, ◌↔◌, refl, Bool, true, false, Bytes, codes, bytes_eq, if◌then◌else◌}
use openevent.Status.{ok}
use openevent.Server.Config.{
  Files, Thrown, returns, throws, yes_it_is, no_it_is_not, ServerConfig, default_config,
  load_server_config,
}
use openevent.Server.Config.Loaded.{IsLoaded, load_server_config-IsLoaded}

data Node : Type 0 where
  undefined storage limits root : Node
  path : Bytes → Node
  size : ℕ → Node

abbrev child_of : Node → Bytes → Node
child_of root key =
    if bytes_eq key (codes "storage")
    then storage
    else if bytes_eq key (codes "limits")
    then limits
    else undefined
child_of storage key = if bytes_eq key (codes "path") then path (codes "/data") else undefined
child_of limits key = if bytes_eq key (codes "max_payload_bytes") then size 1000 else undefined
child_of _ key = undefined

abbrev is_defined : Node → Bool
is_defined undefined = false
is_defined _ = true

abbrev as_string : Node → Thrown Bytes
as_string (path bytes) = returns bytes
as_string _ = throws (codes "bad conversion")

abbrev as_size : Node → Thrown ℕ
as_size (size n) = returns n
as_size _ = throws (codes "bad conversion")

abbrev one_file : Files
one_file = record {
  Node = Node;
  exists = λ p. if bytes_eq p (codes "a.yaml") then yes_it_is else no_it_is_not;
  is_regular_file = λ p. yes_it_is;
  load_file = λ p. returns root;
  child = λ node key. returns (child_of node (codes key));
  is_defined = is_defined;
  as_string = as_string;
  as_size = as_size;
}

abbrev loaded : ServerConfig
loaded = record default_config { storage_path = codes "/data"; max_payload_bytes = 1000 }

load_server_config-IsLoaded_example :
    (load_server_config one_file (codes "a.yaml") ≡ ok loaded)
    ↔ IsLoaded one_file (codes "a.yaml") loaded
load_server_config-IsLoaded_example = load_server_config-IsLoaded one_file (codes "a.yaml") loaded

loads : load_server_config one_file (codes "a.yaml") ≡ ok loaded
unfolding load_server_config bytes_eq openevent.Server.Config.read_config
    openevent.Server.Config.assign_if_present openevent.Server.Config.validate_server_config
loads = refl

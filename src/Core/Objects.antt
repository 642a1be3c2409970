-- ===== src/Core/Objects.antt =====
-- Objects (src/service/open_event_core.cpp): `WriteObject`, `CleanupPreparingObject`, the metadata
-- queries and `ReadObject`.
pub mod Prepared
pub mod Written
use openevent.Common.{
  ℕ, ◌+◌, ◌%◌, Bool, not, ◌||◌, Option, none, some, List, [], ◌∷◌, ◌++◌, Bytes, length, is_empty,
  ltb, ◌==◌, if◌then◌else◌, u64_mod,
}
use openevent.Status.{
  Status, success, Result, ok, fail, Error, error, invalid_argument, not_found, out_of_range,
  corruption, is_storage_fatal,
}
use openevent.Proto.{ObjectKey}
use openevent.Platform.{Platform}
use openevent.Storage.Reads.{get_next_object_id, get_preparing_object, get_committed_object}
use openevent.Storage.Records.{
  StoredObject, max_object_name_bytes, max_object_type_bytes, max_object_description_bytes,
  max_object_bytes,
}
use openevent.Storage.State.{create_snapshot}
use openevent.Storage.Writes.{
  put_preparing_object, put_committed_object, delete_preparing_object, set_next_object_id,
}
use openevent.Core.Access.{constant_time_equals, same_object, validate_object_keys_shape}
use openevent.Core.Publish.{authenticate}
use openevent.Core.State.{
  Core, M, pure, raise, lift, refuse_if, ◌>>=◌, ◌>>◌, ensure_available, snapshot_now, commit_batch,
  raise_storage, fatal_storage_error,
}

pub record WriteObjectRequest : Type 0 where
  pub principal : ℕ
  pub token : Bytes
  pub name : Bytes
  pub type : Bytes
  pub description : Bytes
  pub content : Bytes

pub record ObjectMetadata : Type 0 where
  pub name : Bytes
  pub type : Bytes
  pub description : Bytes
  pub nbytes : ℕ

unfoldable pub invalid_object_request : WriteObjectRequest → Bool
invalid_object_request request =
    is_empty request.name
    || ltb max_object_name_bytes (length request.name)
    || is_empty request.type
    || ltb max_object_type_bytes (length request.type)
    || ltb max_object_description_bytes (length request.description)
    || is_empty request.content
    || ltb max_object_bytes (length request.content)

abbrev pub metadata_of : StoredObject → ObjectMetadata
metadata_of o = record {
  name = o.name;
  type = o.type;
  description = o.description;
  nbytes = o.nbytes;
}

module _ (p : Platform) where
  abbrev pub grant : Option StoredObject → Bytes → M p StoredObject
  grant none token = raise (error not_found "object capability not found")
  grant (some object) token =
      if constant_time_equals p object.object_token token
      then pure object
      else raise (error not_found "object capability not found")

  unfoldable pub load_authorized_object : p.rocks.Snapshot → ℕ → Bytes → M p StoredObject
  load_authorized_object snapshot object_id object_token = do
    refuse_if (object_id == 0 || is_empty object_token)
        (error invalid_argument "object_id must be nonzero and object_token must be nonempty")
    object ← elim (get_committed_object p snapshot object_id) [
      | fail e ↦ raise_storage e
      | ok object ↦ pure object
    ]
    grant object object_token

  unfoldable pub get_object_metadata : ℕ → Bytes → M p ObjectMetadata
  get_object_metadata object_id object_token = do
    ensure_available
    snapshot ← snapshot_now
    object ← load_authorized_object snapshot object_id object_token
    pure (metadata_of object)

  unfoldable pub load_metadata :
      p.rocks.Snapshot → List ObjectKey → List ObjectMetadata → M p (List ObjectMetadata)
  load_metadata snapshot [] staged = pure staged
  load_metadata snapshot (key ∷ rest) staged = do
    object ← load_authorized_object snapshot key.object_id key.object_token
    load_metadata snapshot rest (staged ++ metadata_of object ∷ [])

  unfoldable pub batch_get_object_metadata : List ObjectKey → M p (List ObjectMetadata)
  unfolding load_metadata
  batch_get_object_metadata object_keys = do
    ensure_available
    refuse_if (is_empty object_keys) (error invalid_argument "object_keys must not be empty")
    lift (validate_object_keys_shape object_keys)
    snapshot ← snapshot_now
    load_metadata snapshot object_keys []

  abbrev pub raise_read : Result Bytes → M p Bytes
  raise_read (ok content) = pure content
  raise_read (fail e) = raise_storage e

  unfoldable pub read_object_file : StoredObject → ℕ → ℕ → M p Bytes
  read_object_file object offset nbytes c =
      raise_read
        (p.object_files.read_range c.storage.files object.object_id object.nbytes offset nbytes) c

  unfoldable pub read_object : ℕ → Bytes → ℕ → ℕ → M p Bytes
  read_object object_id object_token offset nbytes = do
    ensure_available
    refuse_if (nbytes == 0) (error invalid_argument "nbytes must be greater than 0")
    snapshot ← snapshot_now
    object ← load_authorized_object snapshot object_id object_token
    refuse_if (ltb object.nbytes offset) (error out_of_range "offset exceeds object size")
    read_object_file object offset nbytes

  -- `WriteObject`, first block under the lock: the id, and the object as preparing.
  unfoldable pub prepared : WriteObjectRequest → Bytes → ℕ → StoredObject
  prepared request object_token object_id = record {
    object_id = object_id;
    object_token = object_token;
    creator_principal = request.principal;
    name = request.name;
    type = request.type;
    description = request.description;
    nbytes = length request.content;
  }

  unfoldable pub prepare_object : WriteObjectRequest → Bytes → M p StoredObject
  unfolding prepared
  prepare_object request object_token = do
    snapshot ← snapshot_now
    authenticate p snapshot request.principal request.token
    object_id ← lift (get_next_object_id p snapshot)
    let object : StoredObject = prepared request object_token object_id
    with_object ← lift (put_preparing_object p [] object)
    batch ← lift (set_next_object_id with_object ((object_id + 1) % u64_mod))
    commit_batch batch
    pure object

  -- The store of files is changed by what `act` returns.
  abbrev with_files : Status × p.object_files.Files → Core p → Status × Core p
  with_files (r, files') c = (r, record c { storage = record c.storage { files = files' } })

  unfoldable pub write_object_file : StoredObject → Bytes → M p (Unit {0})
  write_object_file object content c =
      with_files (p.object_files.write c.storage.files object.object_id content) c

  unfoldable pub cleanup_object_files : ℕ → M p (Unit {0})
  cleanup_object_files object_id c =
      with_files (p.object_files.cleanup c.storage.files (object_id ∷ [])) c

  -- How the second block under the lock ends: the object is committed; or the server stops with an
  -- error; or the preparing object is to be removed because of an error.
  pub data Ending : Type 0 where
    stored : Ending
    stop : Error → Ending
    undo : Error → Ending

  abbrev ending_of_commit : Status × Core p → Ending × Core p
  ending_of_commit (ok _, c) = (stored, c)
  ending_of_commit (fail e, c) = (stop e, c)

  abbrev changed_unexpectedly : Error
  changed_unexpectedly =
      corruption "commit object metadata" "preparing object metadata changed unexpectedly"

  unfoldable pub commit_prepared : StoredObject → Option StoredObject → Core p → Ending × Core p
  commit_prepared object none c = (stop changed_unexpectedly, c)
  commit_prepared object (some found) c =
      if not (same_object found object)
      then (stop changed_unexpectedly, c)
      else elim (put_committed_object p [] object) [
        | fail e ↦ (undo e, c)
        | ok batch ↦ ending_of_commit (commit_batch batch c)
      ]

  unfoldable pub commit_object : WriteObjectRequest → StoredObject → Core p → Ending × Core p
  unfolding commit_prepared
  commit_object request object c = elim (create_snapshot p c.storage.db) [
    | fail e ↦ (undo e, c)
    | ok snapshot ↦ elim (authenticate p snapshot request.principal request.token c).0 [
      | fail e ↦ (undo e, c)
      | ok _ ↦ elim (get_preparing_object p snapshot object.object_id) [
        | fail e ↦ (if is_storage_fatal e then stop e else undo e, c)
        | ok found ↦ commit_prepared object found c
      ]
    ]
  ]

  -- `CleanupPreparingObject`: it returns the error given unless the cleanup fails. `others` is what
  -- other threads do before the lock is taken.
  unfoldable pub cleanup_preparing_object : (Core p → Core p) → ℕ → Error → M p (Unit {0})
  cleanup_preparing_object others object_id e c =
      let (cleaned, c') = cleanup_object_files object_id c in
      elim cleaned [
        | fail e' ↦ raise_storage e' c'
        | ok _ ↦ (do commit_batch (delete_preparing_object [] object_id); raise e) (others c')
      ]

  unfoldable pub conclude : (Core p → Core p) → StoredObject → Ending × Core p → Status × Core p
  conclude others object (stored, c) = (success, c)
  conclude others object (stop e, c) = (fail e, fatal_storage_error e c)
  conclude others object (undo e, c) =
      if is_storage_fatal e
      then (fail e, fatal_storage_error e c)
      else cleanup_preparing_object others object.object_id e c

  -- After the preparing object is stored.
  unfoldable pub finish_object :
      (Core p → Core p) → WriteObjectRequest → StoredObject → M p (Unit {0})
  finish_object others request object c =
      let (written, c') = write_object_file object request.content c in
      elim written [
        | fail e ↦
            if is_storage_fatal e
            then (fail e, fatal_storage_error e c')
            else cleanup_preparing_object others object.object_id e c'
        | ok _ ↦ conclude others object (commit_object request object (others c'))
      ]

  -- `generated` is what `GenerateObjectToken` returns; the response is the id and the token.
  unfoldable pub write_object :
      (Core p → Core p) → WriteObjectRequest → Result Bytes → M p (ℕ × Bytes)
  write_object others request generated = do
    ensure_available
    refuse_if (request.principal == 0) (error invalid_argument "principal must be greater than 0")
    refuse_if (invalid_object_request request)
        (error invalid_argument "invalid object metadata or data size")
    object_token ← lift generated
    object ← prepare_object request object_token
    finish_object others request object
    pure (object.object_id, object.object_token)

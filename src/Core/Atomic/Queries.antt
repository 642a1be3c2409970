-- ===== src/Core/Atomic/Queries.antt =====
-- The queries of `OpenEventCore`, which only read.
use openevent.Common.{ℕ, Option, none, some, List, [], ◌∷◌, Bytes, ◌++◌}
use openevent.Status.{Result, ok, fail, error, not_found}
use openevent.Proto.{ObjectKey, ChannelFilter}
use openevent.Platform.{Platform}
use openevent.Storage.Records.{StoredObject}
use openevent.Storage.Reads.{get_max_seq, get_committed_object}
use openevent.Core.State.{Core, M, pure, raise, raise_storage}
use openevent.Core.State.Atomicity.{
  IsReading, IsReading-pure, IsReading-result, IsReading-raise, IsReading-if, IsReading-refuse_if,
  IsReading-bind,
}
use openevent.Core.Atomic.{reading, IsReading-authenticate, IsReading-require_channel}
use openevent.Core.Publish.{get_seq_by_uuid, get_status}
use openevent.Core.Channels.{get_visible_channel, list_visible_channels}
use openevent.Core.Fetch.{
  FetchRequest, Page, visible_page, any_page, fetch_visible, validate_readable,
  validate_readable_channels, fetch_from, fetch, list_all_messages, list_messages,
}
use openevent.Core.Objects.{
  ObjectMetadata, metadata_of, grant, load_authorized_object, get_object_metadata, load_metadata,
  batch_get_object_metadata, raise_read, read_object_file, read_object,
}

module _ (p : Platform) where
  IsReading-get_status : (principal : ℕ) (token : Bytes) → IsReading (get_status p principal token)
  unfolding get_status
  IsReading-get_status principal token = search (reading, IsReading-authenticate) depth 12

  IsReading-found_seq :
      (found : Option ℕ)
      → IsReading {p = p} {A = ℕ} (elim found as (λ _. M p ℕ) [
        | none ↦ raise (error not_found "uuid has not been consumed by a committed message")
        | some seq ↦ pure seq
      ])
  IsReading-found_seq none = search (reading)
  IsReading-found_seq (some seq) = search (reading)

  IsReading-get_seq_by_uuid : (uuid : ℕ) → IsReading (get_seq_by_uuid p uuid)
  unfolding get_seq_by_uuid
  IsReading-get_seq_by_uuid uuid = search (reading, IsReading-found_seq) depth 12

  IsReading-get_visible_channel :
      (principal : ℕ) (token : Bytes) (id : ℕ)
      → IsReading (get_visible_channel p principal token id)
  unfolding get_visible_channel
  IsReading-get_visible_channel principal token id =
      search (reading, IsReading-authenticate, IsReading-require_channel) depth 12

  IsReading-list_visible_channels :
      (principal : ℕ) (token : Bytes) (filter : ChannelFilter)
      → IsReading (list_visible_channels p principal token filter)
  unfolding list_visible_channels
  IsReading-list_visible_channels principal token filter =
      search (reading, IsReading-authenticate) depth 12

  pub IsReading-validate_readable :
      (s : p.rocks.Snapshot) (principal : ℕ) (validated channels : List ℕ)
      → IsReading (validate_readable p s principal validated channels)
  unfolding validate_readable
  IsReading-validate_readable s principal validated [] = search (reading)
  IsReading-validate_readable s principal validated (id ∷ rest) =
      IsReading-if _ _ _ (IsReading-validate_readable s principal validated rest) (
        IsReading-bind _ _ (IsReading-require_channel p s id) (λ channel.
          IsReading-bind _ _ (IsReading-refuse_if _ _)
            (λ _. IsReading-validate_readable s principal (id ∷ validated) rest)))

  IsReading-page :
      (r : Result ℕ) (f : Core p → ℕ → Result Page)
      → IsReading {p = p} {A = Page} (λ c. elim r as (λ _. Result Page × Core p) [
        | fail e ↦ (fail e, c)
        | ok max_seq ↦ (f c max_seq, c)
      ])
  IsReading-page (fail e) f = IsReading-raise e
  IsReading-page (ok max_seq) f = IsReading-result (λ c. f c max_seq)

  IsReading-fetch_visible :
      (s : p.rocks.Snapshot) (request : FetchRequest) → IsReading (fetch_visible p s request)
  unfolding fetch_visible
  IsReading-fetch_visible s request =
      IsReading-page (get_max_seq p s)
        (λ c. visible_page p s request c.response_soft_limit_bytes c.max_scan_records)

  IsReading-fetch : (request : FetchRequest) → IsReading (fetch p request)
  unfolding fetch fetch_from validate_readable_channels
  IsReading-fetch request =
      search (reading, IsReading-authenticate, IsReading-validate_readable, IsReading-fetch_visible)
        depth 12

  IsReading-list_all_messages :
      (s : p.rocks.Snapshot) (from_seq limit : ℕ) → IsReading (list_all_messages p s from_seq limit)
  unfolding list_all_messages
  IsReading-list_all_messages s from_seq limit =
      IsReading-page (get_max_seq p s)
        (λ c. any_page p s from_seq limit c.response_soft_limit_bytes c.max_scan_records)

  IsReading-list_messages : (from_seq limit : ℕ) → IsReading (list_messages p from_seq limit)
  unfolding list_messages
  IsReading-list_messages from_seq limit = search (reading, IsReading-list_all_messages) depth 12

  IsReading-grant :
      (object : Option StoredObject) (token : Bytes) → IsReading (grant p object token)
  IsReading-grant none token = search (reading)
  IsReading-grant (some object) token =
      IsReading-if _ _ _ (IsReading-pure object) (IsReading-raise _)

  authorized_or_fatal :
      {A : Type 0} (r : Result A)
      → IsReading {p = p} {A = A}
          (elim r as (λ _. M p A) [ fail e ↦ raise_storage e | ok found ↦ pure found ])
  authorized_or_fatal (ok a) = search (reading)
  authorized_or_fatal (fail e) = search (reading)

  IsReading-load_authorized_object :
      (s : p.rocks.Snapshot) (id : ℕ) (token : Bytes)
      → IsReading (load_authorized_object p s id token)
  unfolding load_authorized_object
  IsReading-load_authorized_object s id token = IsReading-bind _ _ (IsReading-refuse_if _ _) (λ _.
      IsReading-bind _ _ (authorized_or_fatal (get_committed_object p s id))
        (λ object. IsReading-grant object token))

  IsReading-get_object_metadata :
      (id : ℕ) (token : Bytes) → IsReading (get_object_metadata p id token)
  unfolding get_object_metadata
  IsReading-get_object_metadata id token =
      search (reading, IsReading-load_authorized_object) depth 12

  IsReading-load_metadata :
      (s : p.rocks.Snapshot) (keys : List ObjectKey) (staged : List ObjectMetadata)
      → IsReading (load_metadata p s keys staged)
  unfolding load_metadata
  IsReading-load_metadata s [] staged = search (reading)
  IsReading-load_metadata s (key ∷ rest) staged =
      IsReading-bind _ _ (IsReading-load_authorized_object s key.object_id key.object_token)
        (λ object. IsReading-load_metadata s rest (staged ++ metadata_of object ∷ []))

  IsReading-batch_get_object_metadata :
      (keys : List ObjectKey) → IsReading (batch_get_object_metadata p keys)
  unfolding batch_get_object_metadata
  IsReading-batch_get_object_metadata keys = search (reading, IsReading-load_metadata) depth 12

  read_or_fatal : (r : Result Bytes) → IsReading (raise_read p r)
  read_or_fatal (ok content) = search (reading)
  read_or_fatal (fail e) = search (reading)

  IsReading-read_object_file :
      (object : StoredObject) (offset nbytes : ℕ)
      → IsReading (read_object_file p object offset nbytes)
  unfolding read_object_file
  IsReading-read_object_file object offset nbytes = record {
    at = λ c.
        (read_or_fatal (
            p.object_files.read_range c.storage.files object.object_id object.nbytes offset
              nbytes)).at
          c;
  }

  IsReading-read_object :
      (id : ℕ) (token : Bytes) (offset nbytes : ℕ)
      → IsReading (read_object p id token offset nbytes)
  unfolding read_object
  IsReading-read_object id token offset nbytes =
      search (reading, IsReading-load_authorized_object, IsReading-read_object_file) depth 12

  -- `GetStatus`, `GetSeqByUuid`, `GetChannel`, `ListChannels`, `Fetch` and `ListMessages` leave the
  -- state as it was, unless they return a fatal storage error.
  pub queries-IsReading :
      (principal uuid id from_seq limit : ℕ) (token : Bytes) (filter : ChannelFilter)
      (request : FetchRequest)
      → IsReading (get_status p principal token)
        × IsReading (get_seq_by_uuid p uuid)
        × IsReading (get_visible_channel p principal token id)
        × IsReading (list_visible_channels p principal token filter)
        × IsReading (fetch p request)
        × IsReading (list_messages p from_seq limit)
  queries-IsReading principal uuid id from_seq limit token filter request = (
    IsReading-get_status principal token,
    IsReading-get_seq_by_uuid uuid,
    IsReading-get_visible_channel principal token id,
    IsReading-list_visible_channels principal token filter,
    IsReading-fetch request,
    IsReading-list_messages from_seq limit,
  )

  -- `GetObjectMetadata`, `BatchGetObjectMetadata` and `ReadObject` leave the state as it was,
  -- unless they return a fatal storage error.
  pub object_queries-IsReading :
      (id offset nbytes : ℕ) (token : Bytes) (keys : List ObjectKey)
      → IsReading (get_object_metadata p id token)
        × IsReading (batch_get_object_metadata p keys)
        × IsReading (read_object p id token offset nbytes)
  object_queries-IsReading id offset nbytes token keys = (
    IsReading-get_object_metadata id token,
    IsReading-batch_get_object_metadata keys,
    IsReading-read_object id token offset nbytes,
  )

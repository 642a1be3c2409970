-- ===== src/Storage/Records/Laws.antt =====
-- Records of objects, serialised and parsed (src/storage/unified_storage.cpp).
use openevent.Common.{◌≡◌, Bytes, true, arith}
use openevent.Status.{ok}
use openevent.Proto.{Codec, Inverts}
use openevent.Storage.Records.{
  StoredObject, ObjectRecord, serialize_object, parse_object, is_valid_record, record_of,
}

module _ (codec : Codec ObjectRecord) (law : Inverts codec) where
  -- An object whose fields are valid under its own id is parsed from the bytes that it is
  -- serialised to, for every codec that parses what it serialises.
  pub parse_object-serialize_object :
      (o : StoredObject) (b : Bytes)
      → is_valid_record (record_of o) o.object_id ≡ true
      → serialize_object codec o ≡ ok b
      → parse_object codec b o.object_id ≡ ok o
  unfolding serialize_object parse_object
  parse_object-serialize_object o b v h = ground (arith, law (record_of o) b)

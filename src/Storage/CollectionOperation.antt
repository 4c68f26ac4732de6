-- ===== src/Storage/CollectionOperation.antt =====
-- storage/collection-operation.ts
pub mod RoundTrip
use pocket_db.Prelude.{
  not, List, [], ◌++◌, ◌==◌, length, subarray, Result, throw_if, ◌>>=◌, ◌>>◌, wrong_payload_length,
  name_exceeds, non_zero_padding, ok, err,
}
use pocket_db.Storage.Buffers.{Buffer}
use pocket_db.Storage.U29.{encode_u29}
use pocket_db.Storage.Payloads.{
  Utf8, assert_collection_id, aligned, exceeds, padded_badly, counted, read_tail,
}

module _ (utf8 : Utf8) where
  -- `indexes` is empty in what is decoded, and is not encoded.
  pub record CollectionDefinition : Type 0 where
    pub id : Buffer
    pub name : utf8.Text
    pub indexes : List utf8.Text

  unfoldable pub encode_new_collection_payload : CollectionDefinition → Result Buffer
  encode_new_collection_payload collection = do
    assert_collection_id collection.id
    let name_bytes = utf8.to_bytes collection.name
    encoded_name_length ← encode_u29 (length name_bytes)
    ok (aligned (collection.id ++ (encoded_name_length ++ name_bytes)))

  unfoldable pub decode_new_collection_payload : Buffer → Result CollectionDefinition
  decode_new_collection_payload payload = do
    tail ← read_tail payload 4
    elim tail [
      | exceeds ↦ err name_exceeds
      | padded_badly ↦ err non_zero_padding
      | counted name_bytes ↦
          ok (record { id = subarray payload 0 4; name = utf8.of_bytes name_bytes; indexes = [] })
    ]

unfoldable pub encode_drop_collection_payload : Buffer → Result Buffer
encode_drop_collection_payload id = do assert_collection_id id; ok id

unfoldable pub decode_drop_collection_payload : Buffer → Result Buffer
decode_drop_collection_payload payload = do
  throw_if (not (length payload == 4)) wrong_payload_length
  let id = subarray payload 0 4
  assert_collection_id id
  ok id

-- ===== src/Storage/IndexOperation.antt =====
-- storage/index-operation.ts
pub mod RoundTrip
pub mod Legacy
use pocket_db.Prelude.{
  ℕ, Bool, false, ◌||◌, Option, none, some, [], ◌∷◌, ◌++◌, ◌==◌, if◌then◌else◌, length, subarray,
  Result, ◌>>=◌, ◌>>◌, name_exceeds, non_zero_padding, unknown_index_type, unrecognized_layout, ok,
  err,
}
use pocket_db.Storage.Buffers.{Buffer, read_u8}
use pocket_db.Storage.U29.{encode_u29}
use pocket_db.Storage.Payloads.{
  Utf8, assert_collection_id, aligned, Tail, exceeds, padded_badly, counted, read_tail,
}

pub data StoredIndexType : Type 0 where
  of_string of_number : StoredIndexType

-- `INDEX_TYPE_BYTES`
unfoldable pub index_type_byte : StoredIndexType → ℕ
index_type_byte of_string = 1
index_type_byte of_number = 2

-- `INDEX_TYPES_BY_BYTE`
unfoldable pub index_type_of_byte : ℕ → Option StoredIndexType
index_type_of_byte byte =
    if byte == 1 then some of_string else if byte == 2 then some of_number else none

module _ (utf8 : Utf8) where
  pub record CreateIndexOperation : Type 0 where
    pub collection_id : Buffer
    pub field : utf8.Text
    pub type : StoredIndexType
    pub unique : Bool

  pub record DropIndexOperation : Type 0 where
    pub collection_id : Buffer
    pub field : utf8.Text

  unfoldable pub encode_create_index_payload : CreateIndexOperation → Result Buffer
  encode_create_index_payload operation = do
    assert_collection_id operation.collection_id
    let field_bytes = utf8.to_bytes operation.field
    encoded_field_length ← encode_u29 (length field_bytes)
    ok (
        aligned (
          (operation.collection_id
            ++ (index_type_byte operation.type ∷ (if operation.unique then 1 else 0) ∷ []))
          ++ (encoded_field_length ++ field_bytes)))

  unfoldable pub encode_drop_index_payload : DropIndexOperation → Result Buffer
  encode_drop_index_payload operation = do
    assert_collection_id operation.collection_id
    let field_bytes = utf8.to_bytes operation.field
    encoded_field_length ← encode_u29 (length field_bytes)
    ok (aligned (operation.collection_id ++ (encoded_field_length ++ field_bytes)))

  unfoldable pub decode_drop_index_payload : Buffer → Result DropIndexOperation
  decode_drop_index_payload payload = do
    let collection = subarray payload 0 4
    assert_collection_id collection
    tail ← read_tail payload 4
    elim tail [
      | exceeds ↦ err name_exceeds
      | padded_badly ↦ err non_zero_padding
      | counted bytes ↦ ok (record { collection_id = collection; field = utf8.of_bytes bytes })
    ]

  -- The operation of a payload whose field has been read, and `null` when it does not fit.
  unfoldable pub operation_of_tail :
      Buffer → StoredIndexType → Bool → Tail → Option CreateIndexOperation
  operation_of_tail collection type unique (counted bytes) = some (record {
    collection_id = collection;
    field = utf8.of_bytes bytes;
    type = type;
    unique = unique;
  })
  operation_of_tail collection type unique _ = none

  unfoldable pub decode_create_index_payload_current :
      Buffer → Buffer → StoredIndexType → Result (Option CreateIndexOperation)
  unfolding operation_of_tail
  decode_create_index_payload_current payload collection type = do
    unique_byte ← read_u8 payload 5
    let known = do
      tail ← read_tail payload 6
      ok (operation_of_tail collection type (unique_byte == 1) tail)
    if (unique_byte == 0) || (unique_byte == 1) then known else ok none

  unfoldable pub decode_create_index_payload_legacy :
      Buffer → Buffer → StoredIndexType → Result (Option CreateIndexOperation)
  unfolding operation_of_tail
  decode_create_index_payload_legacy payload collection type = do
    tail ← read_tail payload 5
    ok (operation_of_tail collection type false tail)

  -- The outcome of the first reading, and what is done when it is `null`.
  unfoldable pub or_else :
      Result (Option CreateIndexOperation)
      → Result (Option CreateIndexOperation)
      → Result CreateIndexOperation
  or_else first second = do
    current ← first
    elim current [
      | some operation ↦ ok operation
      | none ↦ do
        legacy ← second
        elim legacy [ some operation ↦ ok operation | none ↦ err unrecognized_layout ]
    ]

  unfoldable pub decode_create_index_payload : Buffer → Result CreateIndexOperation
  unfolding or_else
  decode_create_index_payload payload = do
    let collection = subarray payload 0 4
    assert_collection_id collection
    type_byte ← read_u8 payload 4
    elim (index_type_of_byte type_byte) [
      | none ↦ err unknown_index_type
      | some type ↦
          or_else (decode_create_index_payload_current payload collection type)
            (decode_create_index_payload_legacy payload collection type)
    ]

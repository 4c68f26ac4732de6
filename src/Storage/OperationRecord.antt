-- ===== src/Storage/OperationRecord.antt =====
-- storage/operation-record.ts: one record of the log, its identifier, its payload, and a checksum.
pub mod RoundTrip
use pocket_db.Prelude.{
  ℕ, ◌+◌, not, Option, none, some, ◌++◌, ltb, ◌==◌, length, subarray, Result, throw_if, ◌>>=◌, ◌>>◌,
  identifier_length, checksum_mismatch, end_of_buffer, ok,
}
use pocket_db.Storage.Buffers.{Buffer, write_u32_be, read_u32_be}
use pocket_db.Storage.Constants.{
  operation_crc32_bytes, operation_header_bytes, operation_identifier_bytes,
}
use pocket_db.Storage.Crc32.{crc32}

-- The interface of that name. `byte_length` and `offset` are its optional fields.
pub record OperationRecord : Type 0 where
  pub identifier : Buffer
  pub payload : Buffer
  pub byte_length : Option ℕ
  pub offset : Option ℕ

pub assert_operation_identifier : Buffer → Result (Unit {0})
assert_operation_identifier identifier =
    throw_if (not (length identifier == operation_identifier_bytes)) identifier_length

-- The copies into the buffers of the source stand one behind the other.
unfoldable pub encode_operation_record : Buffer → Buffer → Result Buffer
unfolding assert_operation_identifier
encode_operation_record identifier payload = do
  assert_operation_identifier identifier
  payload_length ← write_u32_be (length payload)
  let before_checksum = identifier ++ (payload_length ++ payload)
  checksum ← write_u32_be (crc32 before_checksum)
  ok (before_checksum ++ checksum)

unfoldable pub decode_operation_record : Buffer → Buffer → Result OperationRecord
decode_operation_record before_checksum checksum = do
  expected_checksum ← read_u32_be checksum 0
  throw_if (not (crc32 before_checksum == expected_checksum)) checksum_mismatch
  payload_length ← read_u32_be before_checksum operation_identifier_bytes
  ok (record {
    identifier = subarray before_checksum 0 operation_identifier_bytes;
    payload =
        subarray before_checksum operation_header_bytes (operation_header_bytes + payload_length);
    byte_length = none;
    offset = none;
  })

unfoldable pub read_operation_from_buffer : Buffer → ℕ → Result OperationRecord
read_operation_from_buffer buffer relative_offset = do
  throw_if (ltb (length buffer) (relative_offset + operation_header_bytes)) end_of_buffer
  payload_length ← read_u32_be buffer (relative_offset + operation_identifier_bytes)
  let total_length = operation_header_bytes + payload_length + operation_crc32_bytes
  throw_if (ltb (length buffer) (relative_offset + total_length)) end_of_buffer
  let checksum_start = relative_offset + operation_header_bytes + payload_length
  operation ←
      decode_operation_record (subarray buffer relative_offset checksum_start)
        (subarray buffer checksum_start (relative_offset + total_length))
  ok (record operation { byte_length = some total_length })

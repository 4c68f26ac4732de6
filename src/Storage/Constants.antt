-- ===== src/Storage/Constants.antt =====
-- storage/constants.ts
use pocket_db.Prelude.{ℕ, [], ◌∷◌}
use pocket_db.Storage.Buffers.{Buffer}

-- "pocketdb"
abbrev pub magic_header_bytes : Buffer
magic_header_bytes = b'p' ∷ b'o' ∷ b'c' ∷ b'k' ∷ b'e' ∷ b't' ∷ b'd' ∷ b'b' ∷ []

abbrev pub format_header_bytes : ℕ
format_header_bytes = 4

abbrev pub format_major_version : ℕ
format_major_version = 0

abbrev pub format_minor_version : ℕ
format_minor_version = 1

abbrev pub serialization_format : ℕ
serialization_format = b'j'

abbrev pub serialization_format_bson : ℕ
serialization_format_bson = b'b'

abbrev pub serialization_format_amf3 : ℕ
serialization_format_amf3 = b'a'

abbrev pub serialization_version : ℕ
serialization_version = 0

-- `MAGIC_HEADER_BYTES.byteLength + FORMAT_HEADER_BYTES`
abbrev pub file_header_bytes : ℕ
file_header_bytes = 12

abbrev pub operation_identifier_bytes : ℕ
operation_identifier_bytes = 4

abbrev pub operation_crc32_bytes : ℕ
operation_crc32_bytes = 4

-- `OPERATION_IDENTIFIER_BYTES + OPERATION_LENGTH_BYTES`
abbrev pub operation_header_bytes : ℕ
operation_header_bytes = 8

abbrev pub document_identifier_bytes : ℕ
document_identifier_bytes = 12

abbrev pub new_collection_operation : Buffer
new_collection_operation = b'n' ∷ b'c' ∷ b'l' ∷ b'1' ∷ []

abbrev pub drop_collection_operation : Buffer
drop_collection_operation = b'd' ∷ b'c' ∷ b'o' ∷ b'1' ∷ []

abbrev pub create_index_operation : Buffer
create_index_operation = b'i' ∷ b'd' ∷ b'x' ∷ b'1' ∷ []

abbrev pub drop_index_operation : Buffer
drop_index_operation = b'd' ∷ b'i' ∷ b'x' ∷ b'1' ∷ []

abbrev pub put_document_operation : Buffer
put_document_operation = b'p' ∷ b'u' ∷ b't' ∷ b'1' ∷ []

abbrev pub delete_document_operation : Buffer
delete_document_operation = b'd' ∷ b'e' ∷ b'l' ∷ b'1' ∷ []

abbrev pub transaction_begin_operation : Buffer
transaction_begin_operation = b't' ∷ b'x' ∷ b'n' ∷ b'b' ∷ []

abbrev pub transaction_commit_operation : Buffer
transaction_commit_operation = b't' ∷ b'x' ∷ b'n' ∷ b'c' ∷ []

abbrev pub hole_operation : Buffer
hole_operation = b'h' ∷ b'o' ∷ b'l' ∷ b'0' ∷ []

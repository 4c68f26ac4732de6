-- ===== src/Tests/Payloads.antt =====
-- The theorems on the encodings at concrete inputs.
use pocket_db.Prelude.{◌+◌, ◌%◌, ◌≤◌, ◌≡◌, refl, ◌≢◌, true, false, [], ◌∷◌, ◌++◌, arith, length, ok}
use pocket_db.Storage.Buffers.{Buffer, u32_bytes, write_u32_be}
use pocket_db.Storage.U29.{encode_u29, decode_u29, u29_max_value}
use pocket_db.Storage.U29.RoundTrip.{decode_u29-encode_u29}
use pocket_db.Storage.U29.Bounds.{decode_u29_bounds}
use pocket_db.Storage.DocumentId.{to_hex, create_object_id, next_counter, u24_bytes}
use pocket_db.Storage.DocumentId.RoundTrip.{create_object_id-distinct}
use pocket_db.Storage.Payloads.{Utf8}
use pocket_db.Storage.CollectionOperation.{
  encode_new_collection_payload, decode_new_collection_payload,
}
use pocket_db.Storage.CollectionOperation.RoundTrip.{decode_new_collection_payload-encode}
use pocket_db.Storage.DocumentOperation.{
  DocumentEncoder, encode_put_document_payload, decode_put_document_payload,
}
use pocket_db.Storage.DocumentOperation.RoundTrip.{decode_put_document_payload-encode}
use pocket_db.Storage.IndexOperation.{
  of_number, CreateIndexOperation, encode_create_index_payload, decode_create_index_payload,
  encode_drop_index_payload, decode_drop_index_payload,
}
use pocket_db.Storage.IndexOperation.RoundTrip.{
  decode_create_index_payload-encode, decode_drop_index_payload-encode,
}
use pocket_db.Storage.IndexOperation.Legacy.{decode_create_index_payload-legacy, legacy_payload}

-- Texts of ASCII characters.
abbrev ascii : Utf8
ascii = record {
  Text = Buffer;
  to_bytes = λ t. t;
  of_bytes = λ b. b;
  of_bytes-to_bytes = λ t. refl;
}

-- Documents that are bytes.
abbrev bytes_encoder : DocumentEncoder
bytes_encoder = record { Document = Buffer; encode = λ d. ok d; decode = λ b. ok b }

abbrev collection_id : Buffer
collection_id = 1 ∷ 2 ∷ 3 ∷ 4 ∷ []

abbrev document_id : Buffer
document_id = 1 ∷ 2 ∷ 3 ∷ 4 ∷ 5 ∷ 6 ∷ 7 ∷ 8 ∷ 9 ∷ 10 ∷ 11 ∷ 12 ∷ []

abbrev age : Buffer
age = b'a' ∷ b'g' ∷ b'e' ∷ []

decode_u29-encode_u29_example :
    (bytes : Buffer) × (encode_u29 300 ≡ ok bytes)
    × (decode_u29 ((7 ∷ []) ++ (bytes ++ (9 ∷ []))) 1
        ≡ ok (record { value = 300; bytes_read = length bytes }))
decode_u29-encode_u29_example = decode_u29-encode_u29 (7 ∷ []) (9 ∷ []) 300 (omega arith)

decode_u29_bounds_example : (5 ≤ u29_max_value) × (1 ≤ 1) × (1 ≤ 4) × (1 + 1 ≤ 2)
unfolding decode_u29
decode_u29_bounds_example =
    decode_u29_bounds (9 ∷ 5 ∷ []) 1 {d = record { value = 5; bytes_read = 1 }}
      (omega arith, (omega arith, tt)) decoded
  where
    decoded : decode_u29 (9 ∷ 5 ∷ []) 1 ≡ ok (record { value = 5; bytes_read = 1 })
    decoded = refl

abbrev id_six : Buffer
id_six = 0 ∷ 0 ∷ 0 ∷ 1 ∷ 9 ∷ 8 ∷ 7 ∷ 6 ∷ 5 ∷ 0 ∷ 0 ∷ 6 ∷ []

abbrev id_seven : Buffer
id_seven = 0 ∷ 0 ∷ 0 ∷ 1 ∷ 9 ∷ 8 ∷ 7 ∷ 6 ∷ 5 ∷ 0 ∷ 0 ∷ 7 ∷ []

create_object_id-distinct_example : id_six ≢ id_seven
unfolding create_object_id next_counter u24_bytes write_u32_be u32_bytes
create_object_id-distinct_example =
    create_object_id-distinct 1 1 0 5 6 7 (9 ∷ 8 ∷ 7 ∷ 6 ∷ 5 ∷ []) id_six id_seven (omega arith)
      (omega arith) refl refl

decode_new_collection_payload-encode_example :
    (payload : Buffer) × (encode_new_collection_payload ascii
        (record { id = collection_id; name = age; indexes = age ∷ [] })
      ≡ ok payload)
    × (length payload % 4 ≡ 0)
    × (decode_new_collection_payload ascii payload
        ≡ ok (record { id = collection_id; name = age; indexes = [] }))
decode_new_collection_payload-encode_example =
    decode_new_collection_payload-encode ascii
      (record { id = collection_id; name = age; indexes = age ∷ [] }) refl (omega arith)

decode_put_document_payload-encode_example :
    (payload : Buffer) × (encode_put_document_payload bytes_encoder
        (record { collection_id = collection_id; document_id = document_id; document = age })
      ≡ ok payload)
    × (length payload % 4 ≡ 0)
    × (decode_put_document_payload bytes_encoder payload
        ≡ ok (record {
          collection_id = collection_id;
          document_id = document_id;
          document_id_hex = to_hex document_id;
          document = age;
        }))
decode_put_document_payload-encode_example =
    decode_put_document_payload-encode collection_id document_id refl refl bytes_encoder age age
      refl (omega arith)

abbrev age_index : CreateIndexOperation ascii
age_index = record { collection_id = collection_id; field = age; type = of_number; unique = true }

decode_create_index_payload-encode_example :
    (payload : Buffer) × (encode_create_index_payload ascii age_index ≡ ok payload)
    × (length payload % 4 ≡ 0)
    × (decode_create_index_payload ascii payload ≡ ok age_index)
decode_create_index_payload-encode_example =
    decode_create_index_payload-encode ascii age_index refl (omega arith)

decode_create_index_payload-legacy_example :
    decode_create_index_payload ascii (legacy_payload ascii collection_id of_number age)
    ≡ ok (record { collection_id = collection_id; field = age; type = of_number; unique = false })
decode_create_index_payload-legacy_example =
    decode_create_index_payload-legacy ascii collection_id of_number age refl (omega arith)
      (omega arith)

decode_drop_index_payload-encode_example :
    (payload : Buffer) × (encode_drop_index_payload ascii
        (record { collection_id = collection_id; field = age })
      ≡ ok payload)
    × (length payload % 4 ≡ 0)
    × (decode_drop_index_payload ascii payload
        ≡ ok (record { collection_id = collection_id; field = age }))
decode_drop_index_payload-encode_example =
    decode_drop_index_payload-encode ascii (record { collection_id = collection_id; field = age })
      refl (omega arith)

-- ===== src/Storage/IndexOperation/RoundTrip.antt =====
-- What the encoders of storage/index-operation.ts write is decoded.
use pocket_db.Prelude.{
  ℕ, ◌%◌, ◌≤◌, ◌≡◌, refl, sym, ap, ◌∙◌, Bool, true, false, some, [], ◌∷◌, ◌++◌, arith,
  if◌then◌else◌, length, get_elem?, take, subarray, take_of_length-le, ok,
}
use pocket_db.Storage.Buffers.{Buffer, read_u8}
use pocket_db.Storage.U29.{u29_max_value}
use pocket_db.Storage.Payloads.{
  Utf8, assert_collection_id, aligned, counted, read_tail, aligned-IsPayload,
}
use pocket_db.Storage.IndexOperation.{
  StoredIndexType, of_string, of_number, index_type_byte, index_type_of_byte, CreateIndexOperation,
  DropIndexOperation, encode_create_index_payload, encode_drop_index_payload,
  decode_drop_index_payload, decode_create_index_payload_current, operation_of_tail, or_else,
  decode_create_index_payload,
}

pub index_type_of_byte-index_type_byte :
    (type : StoredIndexType) → index_type_of_byte (index_type_byte type) ≡ some type
unfolding index_type_of_byte index_type_byte
index_type_of_byte-index_type_byte of_string = refl
index_type_of_byte-index_type_byte of_number = refl

abbrev flag : Bool → ℕ
flag unique = if unique then 1 else 0

pub read_u8_lem :
    (buffer : Buffer) (i : ℕ) {b : ℕ} → get_elem? buffer i ≡ some b → read_u8 buffer i ≡ ok b
unfolding read_u8
read_u8_lem buffer i h = rw (read_u8, h) refl

two_behind :
    (id : Buffer) (x y : ℕ)
    → length id ≡ 4
    → (length (id ++ (x ∷ y ∷ [])) ≡ 6)
      × (take 4 (id ++ (x ∷ y ∷ [])) ≡ id)
      × (get_elem? (id ++ (x ∷ y ∷ [])) 4 ≡ some x)
      × (get_elem? (id ++ (x ∷ y ∷ [])) 5 ≡ some y)
two_behind (a ∷ b ∷ c ∷ d ∷ []) x y h = (refl, refl, refl, refl)
two_behind [] x y h = absurd (omega arith)
two_behind (a ∷ []) x y h = absurd (omega arith)
two_behind (a ∷ b ∷ []) x y h = absurd (omega arith)
two_behind (a ∷ b ∷ c ∷ []) x y h = absurd (omega arith)
two_behind (a ∷ b ∷ c ∷ d ∷ _ ∷ _) x y h = absurd (omega arith)

module _ (utf8 : Utf8) where
  -- A drop of an index is written in whole words and decoded, when the identifier has four bytes and the
  -- length of the field's name fits a U29.
  pub decode_drop_index_payload-encode :
      (op : DropIndexOperation utf8)
      → length op.collection_id ≡ 4
      → length (utf8.to_bytes op.field) ≤ u29_max_value
      → (payload : Buffer) × (encode_drop_index_payload utf8 op ≡ ok payload)
        × (length payload % 4 ≡ 0)
        × (decode_drop_index_payload utf8 payload ≡ ok op)
  unfolding encode_drop_index_payload decode_drop_index_payload assert_collection_id subarray
  decode_drop_index_payload-encode op four fits =
      let id = op.collection_id in
      let field = utf8.to_bytes op.field in
      let (bytes, encoded, p) = aligned-IsPayload id field fits in
      let payload = aligned (id ++ (bytes ++ field)) in
      let tail : read_tail payload 4 ≡ ok (counted field) =
        ap (read_tail payload) (sym four) ∙ p.tail in
      let first : take 4 payload ≡ id =
        p.front 0 4 (omega (arith, four)) ∙ take_of_length-le 4 id (omega (arith, four)) in
      (
        payload,
        rw (four, encoded) refl,
        p.multiple,
        rw (tail, first, four, utf8.of_bytes-to_bytes op.field) refl,
      )

  -- What is read of a payload in the current layout.
  decode_current :
      (payload id : Buffer) (field : utf8.Text) (type : StoredIndexType) (unique : Bool)
      → length id ≡ 4
      → take 4 payload ≡ id
      → read_u8 payload 4 ≡ ok (index_type_byte type)
      → read_u8 payload 5 ≡ ok (flag unique)
      → read_tail payload 6 ≡ ok (counted (utf8.to_bytes field))
      → decode_create_index_payload utf8 payload
        ≡ ok (record { collection_id = id; field = field; type = type; unique = unique })
  unfolding decode_create_index_payload or_else decode_create_index_payload_current
      operation_of_tail assert_collection_id subarray index_type_of_byte index_type_byte
  decode_current payload id field of_string true four first fifth sixth tail =
      rw (first, four, fifth, sixth, tail, utf8.of_bytes-to_bytes field) cc
  decode_current payload id field of_string false four first fifth sixth tail =
      rw (first, four, fifth, sixth, tail, utf8.of_bytes-to_bytes field) cc
  decode_current payload id field of_number true four first fifth sixth tail =
      rw (first, four, fifth, sixth, tail, utf8.of_bytes-to_bytes field) cc
  decode_current payload id field of_number false four first fifth sixth tail =
      rw (first, four, fifth, sixth, tail, utf8.of_bytes-to_bytes field) cc

  -- A creation of an index is written in whole words and decoded, field, type and uniqueness, when the
  -- identifier has four bytes and the length of the field's name fits a U29.
  pub decode_create_index_payload-encode :
      (op : CreateIndexOperation utf8)
      → length op.collection_id ≡ 4
      → length (utf8.to_bytes op.field) ≤ u29_max_value
      → (payload : Buffer) × (encode_create_index_payload utf8 op ≡ ok payload)
        × (length payload % 4 ≡ 0)
        × (decode_create_index_payload utf8 payload ≡ ok op)
  unfolding encode_create_index_payload assert_collection_id subarray
  decode_create_index_payload-encode op four fits =
      let id = op.collection_id in
      let field = utf8.to_bytes op.field in
      let type_byte = index_type_byte op.type in
      let pre = id ++ (type_byte ∷ flag op.unique ∷ []) in
      let (size, head, fifth, sixth) = two_behind id type_byte (flag op.unique) four in
      let (bytes, encoded, p) = aligned-IsPayload pre field fits in
      let payload = aligned (pre ++ (bytes ++ field)) in
      (
        payload,
        rw (four, encoded) refl,
        p.multiple,
        decode_current payload id op.field op.type op.unique four
            (p.front 0 4 (omega (arith, size)) ∙ head)
            (read_u8_lem payload 4 (p.element 4 (omega (arith, size)) ∙ fifth))
            (read_u8_lem payload 5 (p.element 5 (omega (arith, size)) ∙ sixth))
            (ap (read_tail payload) (sym size) ∙ p.tail),
      )

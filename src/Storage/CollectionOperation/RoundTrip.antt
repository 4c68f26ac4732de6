-- ===== src/Storage/CollectionOperation/RoundTrip.antt =====
-- What the encoders of storage/collection-operation.ts write is decoded.
use pocket_db.Prelude.{
  ◌%◌, ◌≤◌, ◌≡◌, refl, sym, ap, ◌∙◌, ◌↔◌, [], ◌++◌, arith, ℕ_discrete, length, take, subarray,
  take_of_length-le, ok,
}
use pocket_db.Storage.Buffers.{Buffer}
use pocket_db.Storage.U29.{u29_max_value}
use pocket_db.Storage.Payloads.{
  Utf8, assert_collection_id, aligned, counted, read_tail, aligned-IsPayload,
}
use pocket_db.Storage.CollectionOperation.{
  CollectionDefinition, encode_new_collection_payload, decode_new_collection_payload,
  encode_drop_collection_payload, decode_drop_collection_payload,
}

module _ (utf8 : Utf8) (c : CollectionDefinition utf8) where
  -- A collection whose identifier has four bytes, and whose name's length fits a U29, is encoded in
  -- whole words, and decoded with its identifier and name and no indexes.
  pub decode_new_collection_payload-encode :
      length c.id ≡ 4
      → length (utf8.to_bytes c.name) ≤ u29_max_value
      → (payload : Buffer) × (encode_new_collection_payload utf8 c ≡ ok payload)
        × (length payload % 4 ≡ 0)
        × (decode_new_collection_payload utf8 payload ≡ ok (record c { indexes = [] }))
  unfolding encode_new_collection_payload decode_new_collection_payload assert_collection_id
      subarray
  decode_new_collection_payload-encode four fits =
      let name = utf8.to_bytes c.name in
      let (bytes, encoded, p) = aligned-IsPayload c.id name fits in
      let payload = aligned (c.id ++ (bytes ++ name)) in
      let tail : read_tail payload 4 ≡ ok (counted name) =
        ap (read_tail payload) (sym four) ∙ p.tail in
      let id : take 4 payload ≡ c.id =
        p.front 0 4 (omega (arith, four)) ∙ take_of_length-le 4 c.id (omega (arith, four)) in
      (
        payload,
        rw (four, encoded) refl,
        p.multiple,
        rw (tail, id, utf8.of_bytes-to_bytes c.name) refl,
      )

-- A drop of a collection is written and read exactly when the identifier has four bytes.
pub decode_drop_collection_payload-encode :
    (id : Buffer)
    → ((encode_drop_collection_payload id ≡ ok id) ↔ (length id ≡ 4))
      × ((decode_drop_collection_payload id ≡ ok id) ↔ (length id ≡ 4))
unfolding encode_drop_collection_payload decode_drop_collection_payload assert_collection_id
    subarray
decode_drop_collection_payload-encode id = elim (ℕ_discrete (length id) 4) [
  | yes four ↦
      let whole : take 4 id ≡ id = take_of_length-le 4 id (omega (arith, four)) in
      ((λ _. four, λ _. rw four refl), (λ _. four, λ _. rw (whole, four) refl))
  | no other ↦ ground arith
]

-- ===== src/Storage/DocumentOperation/RoundTrip.antt =====
-- What the encoders of storage/document-operation.ts write is decoded.
use pocket_db.Prelude.{
  ℕ, ◌%◌, ◌≤◌, ◌≡◌, refl, sym, ap, ◌∙◌, ◌++◌, arith, length, take, drop, subarray, length-append,
  take-append_length, drop-append_length, take_of_length-le, ◌>>=◌, ok,
}
use pocket_db.Storage.Buffers.{Buffer}
use pocket_db.Storage.U29.{u29_max_value}
use pocket_db.Storage.DocumentId.{to_hex}
use pocket_db.Storage.Payloads.{
  assert_collection_id, aligned, counted, read_tail, aligned-IsPayload,
}
use pocket_db.Storage.DocumentOperation.{
  DocumentEncoder, assert_document_id, encode_delete_document_payload,
  decode_delete_document_payload, encode_put_document_payload, decode_put_document_payload,
}

module _ (collection document : Buffer) (four : length collection ≡ 4)
    (twelve : length document ≡ 12) where
  length-both : length (collection ++ document) ≡ 16
  length-both = omega (arith, four, twelve, length-append {0} collection document)

  collection_part : take 4 (collection ++ document) ≡ collection
  collection_part =
      ap (λ (k : ℕ). take k (collection ++ document)) (sym four)
      ∙ take-append_length collection document

  document_part : take 12 (drop 4 (collection ++ document)) ≡ document
  document_part =
      ap (λ (k : ℕ). take 12 (drop k (collection ++ document))) (sym four)
      ∙ ap (take 12) (drop-append_length collection document)
      ∙ take_of_length-le 12 document (omega (arith, twelve))

  -- A deletion with identifiers of the right lengths is encoded in 16 bytes and decoded.
  pub decode_delete_document_payload-encode :
      (payload : Buffer) × (encode_delete_document_payload
          (record { collection_id = collection; document_id = document })
        ≡ ok payload)
      × (length payload ≡ 16)
      × (decode_delete_document_payload payload
          ≡ ok (record {
            collection_id = collection;
            document_id = document;
            document_id_hex = to_hex document;
          }))
  unfolding encode_delete_document_payload decode_delete_document_payload assert_collection_id
      assert_document_id subarray
  decode_delete_document_payload-encode = (
    collection ++ document,
    rw (four, twelve) refl,
    length-both,
    rw (length-both, collection_part, document_part, four, twelve) refl,
  )

  module _ (encoder : DocumentEncoder) (content : encoder.Document) (bytes : Buffer) where
    -- A document that its encoder turns into bytes whose length fits a U29 is written in whole
    -- words, and what is read back is what the encoder makes of these bytes, under the same identifiers.
    pub decode_put_document_payload-encode :
        encoder.encode content ≡ ok bytes
        → length bytes ≤ u29_max_value
        → (payload : Buffer) × (encode_put_document_payload encoder
              (record { collection_id = collection; document_id = document; document = content })
            ≡ ok payload)
          × (length payload % 4 ≡ 0)
          × (decode_put_document_payload encoder payload ≡ (do
            read ← encoder.decode bytes
            ok (record {
              collection_id = collection;
              document_id = document;
              document_id_hex = to_hex document;
              document = read;
            })))
    unfolding encode_put_document_payload decode_put_document_payload assert_collection_id
        assert_document_id subarray
    decode_put_document_payload-encode encoded fits =
        let pre = collection ++ document in
        let (u29, written, p) = aligned-IsPayload pre bytes fits in
        let payload = aligned (pre ++ (u29 ++ bytes)) in
        let tail : read_tail payload 16 ≡ ok (counted bytes) =
          ap (read_tail payload) (sym length-both) ∙ p.tail in
        let first : take 4 payload ≡ collection =
          p.front 0 4 (omega (arith, length-both)) ∙ collection_part in
        let second : take 12 (drop 4 payload) ≡ document =
          p.front 4 16 (omega (arith, length-both)) ∙ document_part in
        (
          payload,
          rw (four, twelve, encoded, written) refl,
          p.multiple,
          rw (tail, first, second, four, twelve) refl,
        )

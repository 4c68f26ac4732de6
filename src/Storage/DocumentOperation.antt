-- ===== src/Storage/DocumentOperation.antt =====
-- storage/document-operation.ts
pub mod RoundTrip
use pocket_db.Prelude.{
  ℕ, ◌+◌, not, List, ◌++◌, ◌==◌, length, subarray, Result, throw_if, ◌>>=◌, ◌>>◌,
  document_id_length, wrong_payload_length, name_exceeds, non_zero_padding, ok, err,
}
use pocket_db.Storage.Buffers.{Buffer}
use pocket_db.Storage.Constants.{document_identifier_bytes}
use pocket_db.Storage.U29.{encode_u29}
use pocket_db.Storage.DocumentId.{to_hex}
use pocket_db.Storage.Payloads.{
  assert_collection_id, aligned, exceeds, padded_badly, counted, read_tail,
}

-- `DocumentEncoder` of encoding/document-encoder.ts; either of its methods can throw.
pub record DocumentEncoder : Type 1 where
  pub Document : Type 0
  pub encode : Document → Result Buffer
  pub decode : Buffer → Result Document

unfoldable pub assert_document_id : Buffer → Result (Unit {0})
assert_document_id id = throw_if (not (length id == document_identifier_bytes)) document_id_length

pub record DeleteDocumentOperation : Type 0 where
  pub collection_id : Buffer
  pub document_id : Buffer

pub record DecodedDeleteDocumentOperation : Type 0 where
  pub collection_id : Buffer
  pub document_id : Buffer
  pub document_id_hex : List ℕ

unfoldable pub encode_delete_document_payload : DeleteDocumentOperation → Result Buffer
encode_delete_document_payload operation = do
  assert_collection_id operation.collection_id
  assert_document_id operation.document_id
  ok (operation.collection_id ++ operation.document_id)

unfoldable pub decode_delete_document_payload : Buffer → Result DecodedDeleteDocumentOperation
decode_delete_document_payload payload = do
  throw_if (not (length payload == 4 + document_identifier_bytes)) wrong_payload_length
  let collection = subarray payload 0 4
  let document = subarray payload 4 (4 + document_identifier_bytes)
  assert_collection_id collection
  assert_document_id document
  ok (record {
    collection_id = collection;
    document_id = document;
    document_id_hex = to_hex document;
  })

module _ (encoder : DocumentEncoder) where
  pub record PutDocumentOperation : Type 0 where
    pub collection_id : Buffer
    pub document_id : Buffer
    pub document : encoder.Document

  pub record DecodedPutDocumentOperation : Type 0 where
    pub collection_id : Buffer
    pub document_id : Buffer
    pub document_id_hex : List ℕ
    pub document : encoder.Document

  unfoldable pub encode_put_document_payload : PutDocumentOperation → Result Buffer
  encode_put_document_payload operation = do
    assert_collection_id operation.collection_id
    assert_document_id operation.document_id
    document_bytes ← encoder.encode operation.document
    encoded_document_length ← encode_u29 (length document_bytes)
    ok (
        aligned (
          (operation.collection_id ++ operation.document_id)
          ++ (encoded_document_length ++ document_bytes)))

  unfoldable pub decode_put_document_payload : Buffer → Result DecodedPutDocumentOperation
  decode_put_document_payload payload = do
    let collection = subarray payload 0 4
    let document = subarray payload 4 (4 + document_identifier_bytes)
    assert_collection_id collection
    assert_document_id document
    tail ← read_tail payload (4 + document_identifier_bytes)
    elim tail [
      | exceeds ↦ err name_exceeds
      | padded_badly ↦ err non_zero_padding
      | counted bytes ↦ do
        content ← encoder.decode bytes
        ok (record {
          collection_id = collection;
          document_id = document;
          document_id_hex = to_hex document;
          document = content;
        })
    ]

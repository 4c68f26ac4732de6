-- ===== src/Api/Collection/Logged.antt =====
-- What the writing methods of api/collection.ts append to the log, and what its replay makes of it.
use pocket_db.Prelude.{
  ℕ, ◌^◌, ◌≤◌, ◌<◌, ◌≡◌, refl, sym, ap, ◌∙◌, none, some, List, [], ◌∷◌, ◌++◌, length, ok-injective,
  ok,
}
use pocket_db.Search.Values.{Text, DocumentRecord, text_equality}
use pocket_db.Storage.Buffers.{Buffer}
use pocket_db.Storage.Constants.{put_document_operation}
use pocket_db.Storage.U29.{u29_max_value}
use pocket_db.Storage.OperationRecord.RoundTrip.{IsWritable}
use pocket_db.Storage.DocumentId.{to_hex}
use pocket_db.Storage.DocumentOperation.{
  PutDocumentOperation, encode_put_document_payload, decode_put_document_payload,
}
use pocket_db.Storage.DocumentOperation.RoundTrip.{decode_put_document_payload-encode}
use pocket_db.Storage.FileStorage.{FileStorage}
use pocket_db.Storage.FileStorage.Append.{append_operation-HoldsLog}
use pocket_db.Storage.FileStorage.Replay.Log.{Entry, HoldsLog}
use pocket_db.Indexes.PrimaryIndex.{set_candidate}
use pocket_db.Indexes.Manager.{IndexManager, update_document_indexes}
use pocket_db.Api.Host.{Host, encoder_of}
use pocket_db.Api.DocumentCache
use pocket_db.Api.Collection.{Collection, State, add_primary_index_entry}
use pocket_db.Api.Collection.Writes.{append, append_put_document, apply_put_document}

module _ (host : Host) where
  -- The record of a document of a collection.
  abbrev pub put_operation :
      Collection → Buffer → DocumentRecord → PutDocumentOperation (encoder_of host)
  put_operation c document_id document = record {
    collection_id = c.id;
    document_id = document_id;
    document = document;
  }

  -- A document that can be stored: it is encoded in a payload that fits a record, and its encoding
  -- is decoded to it.
  pub record IsStorable (c : Collection) (document_id : Buffer) (document : DocumentRecord)
      : Type 0 where
    pub payload : Buffer
    pub bytes : Buffer
    pub four : length c.id ≡ 4
    pub twelve : length document_id ≡ 12
    pub encoded : host.encode document ≡ ok bytes
    pub decoded : host.decode bytes ≡ ok document
    pub short : length bytes ≤ u29_max_value
    pub written :
        encode_put_document_payload (encoder_of host) (put_operation c document_id document)
        ≡ ok payload
    pub fits : length payload < 2 ^ 32

  abbrev pub put_entry : Buffer → Entry
  put_entry payload = record { identifier = put_document_operation; payload = payload }

  -- What a reader finds in the payload.
  pub payload_decoded :
      {c : Collection} {document_id : Buffer} {document : DocumentRecord}
      (d : IsStorable c document_id document)
      → decode_put_document_payload (encoder_of host) d.payload
        ≡ ok (record {
          collection_id = c.id;
          document_id = document_id;
          document_id_hex = to_hex document_id;
          document = document;
        })
  payload_decoded {c} {document_id} {document} d =
      let (payload', written', _, read) =
        decode_put_document_payload-encode c.id document_id d.four d.twelve (encoder_of host)
          document d.bytes d.encoded d.short in
      let same : payload' ≡ d.payload = ok-injective (sym written' ∙ d.written) in
      ap (decode_put_document_payload (encoder_of host)) (sym same) ∙ read ∙ rw d.decoded refl

  -- What an append to the log comes to.
  pub record Appended (s : State) (es : List Entry) (e : Entry) : Type 0 where
    pub storage : FileStorage
    pub holds : HoldsLog storage (es ++ (e ∷ []))
    pub done :
        append host e.identifier e.payload s
        ≡ (ok (length s.storage.file), record s { storage = storage })

  pub append_lem :
      (s : State) {es : List Entry} (e : Entry)
      → HoldsLog s.storage es
      → IsWritable e.identifier e.payload
      → Appended s es e
  unfolding append
  append_lem s e log w =
      let (storage', written, log', _, _, _, _) = append_operation-HoldsLog host.os e log w in
      record { storage = storage'; holds = log'; done = rw (append, written) refl }

  pub append_put_lem :
      (s : State) {es : List Entry} (document_id : Buffer) (document : DocumentRecord)
      → HoldsLog s.storage es
      → (d : IsStorable s.self document_id document)
      → (a : Appended s es (put_entry d.payload)) × (append_put_document host document_id document s
          ≡ (ok (length s.storage.file), record s { storage = a.storage }))
  unfolding append_put_document
  append_put_lem s document_id document log d =
      let a = append_lem s (put_entry d.payload) log (record { four = refl; width = d.fits }) in
      (a, rw d.written a.done)

  -- The collection after a document has been applied.
  abbrev pub with_put : Collection → Text → ℕ → DocumentRecord → IndexManager → Collection
  with_put c id offset document manager = record c {
    primary_index = set_candidate c.primary_index id offset;
    index_manager = manager;
    cache = elim c.cache [
      | none ↦ none
      | some k ↦ some (DocumentCache.set text_equality host.size_of k id offset document)
    ];
  }

  pub apply_put_lem :
      (s : State) (id : Text) (offset : ℕ) (document : DocumentRecord) {manager : IndexManager}
      → update_document_indexes s.self.index_manager document (record { id = id; offset = offset })
        ≡ ok manager
      → apply_put_document host id offset document s
        ≡ (ok tt, record s { self = with_put s.self id offset document manager })
  unfolding apply_put_document add_primary_index_entry
  apply_put_lem s id offset document updated = rw (add_primary_index_entry, updated) refl

-- ===== src/Api/Collection/Writes.antt =====
-- The methods of api/collection.ts that append to the log, but for those that begin with a query.
use pocket_db.Prelude.{
  ℕ, not, Option, none, some, List, [], ◌∷◌, map, no_index, replacement_required, unknown_document,
  ok, err,
}
use pocket_db.Search.Values.{Text, DocumentRecord, text_equality, field_of}
use pocket_db.Storage.Buffers.{Buffer}
use pocket_db.Storage.Constants.{
  delete_document_operation, drop_collection_operation, drop_index_operation,
  put_document_operation, transaction_begin_operation, transaction_commit_operation,
}
use pocket_db.Storage.CollectionOperation.{encode_drop_collection_payload}
use pocket_db.Storage.DocumentId.{to_hex, object_id_from_hex}
use pocket_db.Storage.DocumentOperation.{
  encode_put_document_payload, encode_delete_document_payload,
}
use pocket_db.Storage.FileStorage.{append_operation}
use pocket_db.Storage.IndexOperation.{encode_drop_index_payload}
use pocket_db.Indexes.PrimaryIndex.{id_field}
use pocket_db.Indexes.Manager.{assert_unique, assert_unique_batch, has_index}
use pocket_db.Api.Actions.{Action, pure, raise, lift, gets, modify, raise_if, ◌>>=◌, ◌>>◌}
use pocket_db.Api.Host.{Host, utf8_of, encoder_of}
use pocket_db.Api.DocumentCache
use pocket_db.Api.DocumentCache.{DocumentCache, new_cache, set_max_bytes, invalidate}
use pocket_db.Api.Collection.{
  State, change, exists_id, add_primary_index_entry, delete_primary_index_entry, drop_from_replay,
  drop_index_from_replay, assert_not_dropped, with_id, create_document_id, assert_unique_batch_ids,
  Prepared, batch_entry, prepare_all,
}

module _ (host : Host) where
  -- `this.storage.appendOperation`
  unfoldable pub append : Buffer → Buffer → Action State ℕ
  append identifier payload s = elim (append_operation host.os s.storage identifier payload) [
    | err e ↦ (err e, s)
    | ok (storage, offset) ↦ (ok offset, record s { storage = storage })
  ]

  unfoldable pub append_put_document : Buffer → DocumentRecord → Action State ℕ
  unfolding append
  append_put_document document_id document = do
    id ← gets (λ s. s.self.id)
    payload ← lift (
        encode_put_document_payload (encoder_of host)
          (record { collection_id = id; document_id = document_id; document = document }))
    append put_document_operation payload

  unfoldable pub append_delete_document_record : Text → Action State ℕ
  unfolding append
  append_delete_document_record id = do
    document_id ← lift (object_id_from_hex id)
    collection_id ← gets (λ s. s.self.id)
    payload ← lift (
        encode_delete_document_payload
          (record { collection_id = collection_id; document_id = document_id }))
    append delete_document_operation payload

  unfoldable pub append_delete_document : Text → Action State (Unit {0})
  unfolding append_delete_document_record
  append_delete_document id = do
    offset ← append_delete_document_record id
    modify (change (λ c. delete_primary_index_entry c id))

  -- `applyPutDocument`: the primary index, the others, and the cache.
  unfoldable pub apply_put_document : Text → ℕ → DocumentRecord → Action State (Unit {0})
  apply_put_document id offset document = do
    entered ← gets (λ s. add_primary_index_entry s.self id offset document)
    self ← lift entered
    modify (
        change (λ c. record self {
          cache = elim c.cache [
            | none ↦ none
            | some k ↦ some (DocumentCache.set text_equality host.size_of k id offset document)
          ];
        }))

  -- What `insertOne` returns: `insertedId`.
  unfoldable pub insert_one : DocumentRecord → List Buffer → Action State Text
  unfolding assert_not_dropped append_put_document apply_put_document with_id
  insert_one document ids = do
    assert_not_dropped
    created ← gets (λ s. create_document_id s.self (field_of document id_field) ids)
    (document_id, _) ← lift created
    let inserted_id = to_hex document_id
    let document_to_store = with_id document inserted_id
    unique ← gets (λ s. assert_unique s.self.index_manager document_to_store none)
    lift unique
    offset ← append_put_document document_id document_to_store
    apply_put_document inserted_id offset document_to_store
    pure inserted_id

  -- The loop that appends the documents of a batch, with their offsets.
  unfoldable pub append_all : List Prepared → Action State (List (Prepared × ℕ))
  unfolding append_put_document
  append_all [] = pure []
  append_all (p ∷ prepared) = do
    offset ← append_put_document p.document_id p.document
    others ← append_all prepared
    pure ((p, offset) ∷ others)

  -- The loop that applies them.
  unfoldable pub apply_all : List (Prepared × ℕ) → Action State (Unit {0})
  unfolding apply_put_document
  apply_all [] = pure tt
  apply_all ((p, offset) ∷ others) = do apply_put_document p.id offset p.document; apply_all others

  unfoldable pub append_transaction_begin : Action State ℕ
  unfolding append
  append_transaction_begin = append transaction_begin_operation []

  unfoldable pub append_transaction_commit : Action State ℕ
  unfolding append
  append_transaction_commit = append transaction_commit_operation []

  -- What `insertMany` and `updateMany` do alike with the documents that passed the checks.
  unfoldable pub write_batch : List Prepared → Action State (Unit {0})
  unfolding append_transaction_begin append_transaction_commit append_all apply_all
  write_batch prepared = do
    begun ← append_transaction_begin
    written ← append_all prepared
    committed ← append_transaction_commit
    apply_all written

  unfoldable pub insert_many : List DocumentRecord → List Buffer → Action State (List Text)
  unfolding assert_not_dropped prepare_all write_batch
  insert_many documents ids = do
    assert_not_dropped
    preparing ← gets (λ s. prepare_all s.self documents ids)
    prepared ← lift preparing
    let inserted_ids = map (λ (p : Prepared). p.id) prepared
    lift (assert_unique_batch_ids [] inserted_ids)
    unique ← gets (λ s. assert_unique_batch s.self.index_manager (map batch_entry prepared))
    lift unique
    elim prepared [ [] ↦ pure [] | p ∷ others ↦ do write_batch (p ∷ others); pure inserted_ids ]

  -- `replaceOne`; the overload with one argument gives the document and the `_id` that stands in it.
  unfoldable pub replace_one : Text → Option DocumentRecord → Action State (Unit {0})
  unfolding assert_not_dropped append_put_document apply_put_document with_id
  replace_one id none = do assert_not_dropped; raise replacement_required
  replace_one id (some document) = do
    assert_not_dropped
    known ← gets (λ s. exists_id s.self id)
    raise_if (not known) unknown_document
    document_id ← lift (object_id_from_hex id)
    let document_to_store = with_id document id
    unique ← gets (λ s. assert_unique s.self.index_manager document_to_store (some id))
    lift unique
    offset ← append_put_document document_id document_to_store
    apply_put_document id offset document_to_store

  unfoldable pub drop_collection : Action State (Unit {0})
  unfolding assert_not_dropped append
  drop_collection = do
    assert_not_dropped
    id ← gets (λ s. s.self.id)
    payload ← lift (encode_drop_collection_payload id)
    offset ← append drop_collection_operation payload
    modify (change drop_from_replay)

  unfoldable pub drop_index : Text → Action State (Unit {0})
  unfolding assert_not_dropped append
  drop_index field = do
    assert_not_dropped
    known ← gets (λ s. has_index s.self.index_manager field)
    raise_if (not known) no_index
    id ← gets (λ s. s.self.id)
    payload ←
        lift
          (encode_drop_index_payload (utf8_of host) (record { collection_id = id; field = field }))
    offset ← append drop_index_operation payload
    removed ← gets (λ s. drop_index_from_replay s.self field)
    self ← lift removed
    modify (change (λ c. self))

-- ===== src/Api/Collection/Indexing.antt =====
-- The creation of an index in api/collection.ts, and the rebuilding of the indexes.
use pocket_db.Prelude.{
  ◌-◌, Bool, true, false, not, ◌&&◌, ◌||◌, none, some, List, [], ◌∷◌, map, ◌==◌, if◌then◌else◌,
  length, Error, Result, unknown_index_type, shared_value, empty_index_field, bad_rebuild_candidate,
  bad_refresh_candidate, ok, err,
}
use pocket_db.Search.Values.{Text, text_same}
use pocket_db.Storage.Constants.{create_index_operation, put_document_operation}
use pocket_db.Storage.OperationRecord.{read_operation_from_buffer}
use pocket_db.Storage.DocumentOperation.{decode_put_document_payload}
use pocket_db.Storage.FileStorage.{FileStorage, BulkRange, read_bulk_range}
use pocket_db.Storage.IndexOperation.{
  StoredIndexType, of_string, of_number, encode_create_index_payload,
}
use pocket_db.Indexes.Buckets.{IndexCandidate}
use pocket_db.Indexes.PrimaryIndex.{snapshot}
use pocket_db.Indexes.Manager.{
  IndexType, of_ids, secondary, IndexDefinition, IndexManager, definitions, create_index,
  duplicate_of, update_document_indexes, has_index, remove_index, clear_all_index_contents,
}
use pocket_db.Api.Actions.{Action, pure, raise, lift, gets, modify, raise_if, ◌>>=◌, ◌>>◌}
use pocket_db.Api.Host.{Host, utf8_of, encoder_of}
use pocket_db.Api.Cursor.{bytes_same}
use pocket_db.Api.Collection.{Collection, State, assert_not_dropped}
use pocket_db.Api.Collection.Writes.{append}

-- `===` on types
pub type_is : IndexType → IndexType → Bool
type_is of_ids of_ids = true
type_is (secondary of_string) (secondary of_string) = true
type_is (secondary of_number) (secondary of_number) = true
type_is _ _ = false

-- `this.indexes.some(...)`
pub index_exists : List IndexDefinition → Text → IndexType → Bool
unfolding type_is
index_exists [] field type = false
index_exists (d ∷ ds) field type =
    (text_same d.field field && type_is d.type type) || index_exists ds field type

module _ (host : Host) where
  -- The loop of `rebuildIndex`, and of `refreshIndexesAfterCompaction` with another error.
  pub index_candidates : Error → BulkRange → List IndexCandidate → Action IndexManager (Unit {0})
  unfolding bytes_same
  index_candidates bad range [] = pure tt
  index_candidates bad range (candidate ∷ candidates) = do
    operation ←
        lift (read_operation_from_buffer range.buffer (candidate.offset - range.range_start))
    raise_if (not (bytes_same operation.identifier put_document_operation)) bad
    decoded ← lift (decode_put_document_payload (encoder_of host) operation.payload)
    updated ← gets (λ m. update_document_indexes m decoded.document candidate)
    manager ← lift updated
    modify (λ m. manager)
    index_candidates bad range candidates

  -- The documents of the primary index are entered into the secondary indexes.
  unfoldable pub rebuild :
      Error → FileStorage → List IndexCandidate → Action IndexManager (Unit {0})
  unfolding index_candidates
  rebuild bad storage [] = pure tt
  rebuild bad storage (first ∷ others) = do
    range ← lift (
        read_bulk_range host.os storage first.offset
          (map (λ (k : IndexCandidate). k.offset) others))
    index_candidates bad range (first ∷ others)

  -- An action on the indexes as one on the collection.
  abbrev pub on_indexes : {A : Type 0} → Action IndexManager A → Action Collection A
  on_indexes act c =
      let (r, manager) = act c.index_manager in (r, record c { index_manager = manager })

  unfoldable pub refresh_indexes_after_compaction : FileStorage → Action Collection (Unit {0})
  unfolding rebuild
  refresh_indexes_after_compaction storage = do
    modify (λ c. record c { index_manager = clear_all_index_contents c.index_manager })
    candidates ← gets (λ c. snapshot c.primary_index)
    on_indexes (rebuild bad_refresh_candidate storage candidates)

  -- The test for values that several documents share, which takes a new unique index back.
  unfoldable pub check_shared : Text → Action IndexManager (Unit {0})
  check_shared field manager = elim (duplicate_of manager field) [
    | none ↦ (ok tt, manager)
    | some ids ↦
        (lift (remove_index manager field) >>= λ kept. modify (λ m. kept) >> raise shared_value)
          manager
  ]

  unfoldable pub create_index_in_memory :
      FileStorage → Text → IndexType → Bool → Action Collection IndexDefinition
  unfolding rebuild check_shared
  create_index_in_memory storage field type unique = do
    raise_if (length field == 0) empty_index_field
    is_new ← gets (λ c. not (has_index c.index_manager field))
    creating ← gets (λ c. create_index c.index_manager field type unique)
    (manager, definition) ← lift creating
    modify (λ c. record c { index_manager = manager })
    candidates ← gets (λ c. snapshot c.primary_index)
    on_indexes (rebuild bad_rebuild_candidate storage candidates)
    if is_new && unique then on_indexes (check_shared field) else pure tt
    pure definition

  -- `createIndexFromReplay`
  unfoldable pub create_index_from_replay :
      FileStorage → Text → StoredIndexType → Bool → Action Collection (Unit {0})
  unfolding create_index_in_memory
  create_index_from_replay storage field type unique = do
    definition ← create_index_in_memory storage field (secondary type) unique
    pure tt

  -- The type of a secondary index; a manager has no other.
  unfoldable pub stored_type : IndexType → Result StoredIndexType
  stored_type of_ids = err unknown_index_type
  stored_type (secondary type) = ok type

  -- An action on the collection that reads the storage.
  abbrev pub on_self : {A : Type 0} → (FileStorage → Action Collection A) → Action State A
  on_self act s = let (r, self) = act s.storage s.self in (r, record s { self = self })

  -- `createIndex`
  unfoldable pub make_index : Text → IndexType → Bool → Action State IndexDefinition
  unfolding assert_not_dropped append create_index_in_memory stored_type index_exists
  make_index field type unique = do
    assert_not_dropped
    already_exists ← gets (λ s. index_exists (definitions s.self.index_manager) field type)
    definition ← on_self (λ storage. create_index_in_memory storage field type unique)
    id ← gets (λ s. s.self.id)
    stored ← lift (stored_type definition.type)
    elim already_exists [
      | true ↦ pure definition
      | false ↦ do
        payload ← lift (
            encode_create_index_payload (utf8_of host) (record {
              collection_id = id;
              field = definition.field;
              type = stored;
              unique = definition.unique;
            }))
        offset ← append host create_index_operation payload
        pure definition
    ]

-- ===== src/Api/Database/Compaction.antt =====
-- `compact` and `stats` of api/database.ts.
pub mod Totals
pub mod Kept
pub mod Conflict
use pocket_db.Prelude.{
  ℕ, ◌+◌, Bool, true, false, ◌||◌, Option, none, some, List, [], ◌∷◌, ltb, ◌==◌, if◌then◌else◌,
  length, get_elem?, subarray, Result, lookup, insert, ok, err,
}
use pocket_db.Search.Values.{Text, text_equality}
use pocket_db.Storage.Buffers.{Buffer}
use pocket_db.Storage.Constants.{
  create_index_operation, delete_document_operation, drop_collection_operation,
  drop_index_operation, file_header_bytes, hole_operation, new_collection_operation,
  put_document_operation, transaction_begin_operation, transaction_commit_operation,
}
use pocket_db.Storage.OperationRecord.{OperationRecord}
use pocket_db.Storage.CollectionOperation.{
  decode_new_collection_payload, decode_drop_collection_payload,
}
use pocket_db.Storage.DocumentId.{to_hex}
use pocket_db.Storage.DocumentOperation.{decode_put_document_payload}
use pocket_db.Storage.FileStorage.{
  FileStorage, read_raw_bytes, write_raw_at, truncate_to, read_operations,
}
use pocket_db.Storage.IndexOperation.{decode_create_index_payload, decode_drop_index_payload}
use pocket_db.Api.Actions.{Action, pure, lift, gets, modify, ◌>>=◌, ◌>>◌}
use pocket_db.Api.Host.{Host, utf8_of, encoder_of}
use pocket_db.Api.Cursor.{bytes_same}
use pocket_db.Api.Collection.{
  Collection, document_count, exists_index, primary_index_offset_for, update_document_offset,
}
use pocket_db.Api.Collection.Indexing.{refresh_indexes_after_compaction}
use pocket_db.Api.Database.{Database, find_collection, put_collection}

-- The database with its file.
pub record Opened : Type 0 where
  pub storage : FileStorage
  pub database : Database

-- `StorageStatsCore` of types.ts
pub record StorageStats : Type 0 where
  pub operation_count : ℕ
  pub tombstone_count : ℕ
  pub live_bytes : ℕ
  pub dead_bytes : ℕ

-- `createEmptyStatsCore`
abbrev pub empty_stats : StorageStats
empty_stats = record { operation_count = 0; tombstone_count = 0; live_bytes = 0; dead_bytes = 0 }

unfoldable pub accumulate : StorageStats → Bool → ℕ → StorageStats
accumulate core true byte_length = record core {
  operation_count = core.operation_count + 1;
  live_bytes = core.live_bytes + byte_length;
}
accumulate core false byte_length = record core {
  operation_count = core.operation_count + 1;
  dead_bytes = core.dead_bytes + byte_length;
  tombstone_count = core.tombstone_count + 1;
}

-- `operation.byteLength ?? 0`
abbrev pub byte_length_of : OperationRecord → ℕ
byte_length_of operation = elim operation.byte_length [ none ↦ 0 | some n ↦ n ]

-- `offset === operation.offset`
unfoldable pub same_offset : Option ℕ → Option ℕ → Bool
same_offset none none = true
same_offset (some a) (some b) = a == b
same_offset _ _ = false

-- `DatabaseStats`, without the path.
pub record DatabaseStats : Type 0 where
  pub size_on_disk : ℕ
  pub collection_count : ℕ
  pub total_documents : ℕ
  pub core : StorageStats

module _ (host : Host) where
  -- The records that are dropped without a look at their payload.
  unfoldable pub is_dropped : Buffer → Bool
  unfolding bytes_same
  is_dropped id =
      bytes_same id hole_operation
      || bytes_same id delete_document_operation
      || bytes_same id drop_collection_operation
      || bytes_same id drop_index_operation
      || bytes_same id transaction_begin_operation
      || bytes_same id transaction_commit_operation

  unfoldable pub keep_new_collection : Database → OperationRecord → Result Bool
  keep_new_collection db operation =
      elim (decode_new_collection_payload (utf8_of host) operation.payload) [
        | err e ↦ err e
        | ok definition ↦
            ok (elim (find_collection db definition.id) [ none ↦ false | some _ ↦ true ])
      ]

  unfoldable pub keep_create_index : Database → OperationRecord → Result Bool
  keep_create_index db operation =
      elim (decode_create_index_payload (utf8_of host) operation.payload) [
        | err e ↦ err e
        | ok decoded ↦ ok (elim (find_collection db decoded.collection_id) [
          | none ↦ false
          | some (place, c) ↦ exists_index c decoded.field
        ])
      ]

  unfoldable pub keep_put_document : Database → OperationRecord → Result Bool
  unfolding same_offset
  keep_put_document db operation =
      elim (decode_put_document_payload (encoder_of host) operation.payload) [
        | err e ↦ err e
        | ok decoded ↦ ok (elim (find_collection db decoded.collection_id) [
          | none ↦ false
          | some (place, c) ↦
              same_offset (primary_index_offset_for c decoded.document_id_hex) operation.offset
        ])
      ]

  unfoldable pub should_keep_operation : Database → OperationRecord → Result Bool
  unfolding is_dropped keep_new_collection keep_create_index keep_put_document bytes_same
  should_keep_operation db operation =
      let is = bytes_same operation.identifier in
      if is_dropped operation.identifier
      then ok false
      else if is new_collection_operation
      then keep_new_collection db operation
      else if is create_index_operation
      then keep_create_index db operation
      else if is put_document_operation
      then keep_put_document db operation
      else ok true

  -- The entry of a moved document in its primary index.
  unfoldable pub move_entry : Database → OperationRecord → ℕ → Result Database
  unfolding bytes_same put_collection
  move_entry db operation write_head =
      let moved : Result Database =
        elim (decode_put_document_payload (encoder_of host) operation.payload) [
          | err e ↦ err e
          | ok decoded ↦ ok (elim (find_collection db decoded.collection_id) [
            | none ↦ db
            | some (place, c) ↦
                put_collection db place
                  (update_document_offset c decoded.document_id_hex write_head)
          ])
        ] in
      if bytes_same operation.identifier put_document_operation then moved else ok db

  -- The copy of a record that is kept to `writeHead`, when it stands behind it.
  unfoldable pub move_record : OperationRecord → ℕ → ℕ → ℕ → Action Opened (Unit {0})
  unfolding move_entry
  move_record operation scan_head byte_length write_head o =
      if ltb write_head scan_head
      then (do
        raw_bytes ← lift (read_raw_bytes host.os o.storage scan_head byte_length)
        storage ← lift (write_raw_at host.os o.storage write_head raw_bytes)
        modify (λ (p : Opened). record p { storage = storage })
        moving ← gets (λ (p : Opened). move_entry p.database operation write_head)
        database ← lift moving
        modify (λ (p : Opened). record p { database = database }))
          o
      else (ok tt, o)

  -- The loop of `compact`, with the new `writeHead`.
  unfoldable pub compact_loop : List OperationRecord → ℕ → Action Opened ℕ
  unfolding should_keep_operation move_record
  compact_loop [] write_head = pure write_head
  compact_loop (operation ∷ operations) write_head = do
    let byte_length = byte_length_of operation
    let scan_head : ℕ = elim operation.offset [ none ↦ 0 | some o ↦ o ]
    keeping ← gets (λ (o : Opened). should_keep_operation o.database operation)
    keep ← lift keeping
    if keep then move_record operation scan_head byte_length write_head else pure tt
    compact_loop operations (if keep then write_head + byte_length else write_head)

  -- `refreshIndexesAfterCompaction` of the collection at a place.
  unfoldable pub refresh_at : ℕ → Action Opened (Unit {0})
  unfolding put_collection
  refresh_at place o = elim (get_elem? o.database.objects place) [
    | none ↦ (ok tt, o)
    | some c ↦
        let (r, c') = refresh_indexes_after_compaction host o.storage c in
        (r, record o { database = put_collection o.database place c' })
  ]

  -- The loop over the collections in the map by identifier.
  unfoldable pub refresh_all : List (Text × ℕ) → Action Opened (Unit {0})
  unfolding refresh_at
  refresh_all [] = pure tt
  refresh_all ((id, place) ∷ places) = do refresh_at place; refresh_all places

  unfoldable pub compact : Action Opened (Unit {0})
  unfolding compact_loop refresh_all
  compact = do
    reading ← gets (λ (o : Opened). read_operations host.os host.chunk_bytes o.storage)
    (operations, storage) ← lift reading
    modify (λ (o : Opened). record o { storage = storage })
    write_head ← compact_loop operations file_header_bytes
    modify (λ (o : Opened). record o { storage = truncate_to o.storage write_head })
    places ← gets (λ (o : Opened). o.database.collections_by_id)
    refresh_all places

  -- `operationCollectionIdHex`
  unfoldable pub operation_collection_id : OperationRecord → Result (Option Text)
  unfolding bytes_same
  operation_collection_id operation =
      let is = bytes_same operation.identifier in
      if is put_document_operation || is delete_document_operation
      then ok (some (to_hex (subarray operation.payload 0 4)))
      else if is new_collection_operation
      then elim (decode_new_collection_payload (utf8_of host) operation.payload) [
        | err e ↦ err e
        | ok definition ↦ ok (some (to_hex definition.id))
      ]
      else if is drop_collection_operation
      then elim (decode_drop_collection_payload operation.payload) [
        | err e ↦ err e
        | ok id ↦ ok (some (to_hex id))
      ]
      else if is create_index_operation
      then elim (decode_create_index_payload (utf8_of host) operation.payload) [
        | err e ↦ err e
        | ok decoded ↦ ok (some (to_hex decoded.collection_id))
      ]
      else if is drop_index_operation
      then elim (decode_drop_index_payload (utf8_of host) operation.payload) [
        | err e ↦ err e
        | ok decoded ↦ ok (some (to_hex decoded.collection_id))
      ]
      else ok none

  -- The part of a record in the counts of its collection, when that is live.
  unfoldable pub count_for :
      Database → List (Text × StorageStats) → Option Text → Bool → ℕ → List (Text × StorageStats)
  unfolding accumulate
  count_for db by_collection none live byte_length = by_collection
  count_for db by_collection (some id) live byte_length =
      elim (lookup text_equality id db.collections_by_id) [
        | none ↦ by_collection
        | some _ ↦
            let core : StorageStats = elim (lookup text_equality id by_collection) [
              | none ↦ empty_stats
              | some core ↦ core
            ] in
            insert text_equality id (accumulate core live byte_length) by_collection
      ]

  -- The loop of `computeStorageStats`.
  unfoldable pub stats_loop :
      Database
      → List OperationRecord
      → StorageStats
      → List (Text × StorageStats)
      → Result (StorageStats × List (Text × StorageStats))
  unfolding accumulate
  stats_loop db [] global by_collection = ok (global, by_collection)
  stats_loop db (operation ∷ operations) global by_collection =
      elim (should_keep_operation db operation) [
        | err e ↦ err e
        | ok live ↦ elim (operation_collection_id operation) [
          | err e ↦ err e
          | ok id ↦
              stats_loop db operations (accumulate global live (byte_length_of operation))
                (count_for db by_collection id live (byte_length_of operation))
        ]
      ]

  unfoldable pub compute_storage_stats : Opened → Result (StorageStats × List (Text × StorageStats))
  unfolding stats_loop
  compute_storage_stats o = elim (read_operations host.os host.chunk_bytes o.storage) [
    | err e ↦ err e
    | ok (operations, storage) ↦ stats_loop o.database operations empty_stats []
  ]

  -- The documents of all collections in the map.
  unfoldable pub count_documents_of : List Collection → List (Text × ℕ) → ℕ
  count_documents_of objects [] = 0
  count_documents_of objects ((id, place) ∷ places) =
      let rest = count_documents_of objects places in
      elim (get_elem? objects place) [ none ↦ rest | some c ↦ document_count c + rest ]

  unfoldable pub database_stats : Opened → Result DatabaseStats
  unfolding compute_storage_stats count_documents_of
  database_stats o = elim (compute_storage_stats o) [
    | err e ↦ err e
    | ok (global, by_collection) ↦ ok (record {
      size_on_disk = o.storage.current_offset;
      collection_count = length o.database.collections_by_name;
      total_documents = count_documents_of o.database.objects o.database.collections_by_id;
      core = global;
    })
  ]

  -- `collectionStorageStats`
  unfoldable pub collection_storage_stats : Opened → Text → Result StorageStats
  unfolding compute_storage_stats
  collection_storage_stats o id = elim (compute_storage_stats o) [
    | err e ↦ err e
    | ok (global, by_collection) ↦
        ok (elim (lookup text_equality id by_collection) [ none ↦ empty_stats | some core ↦ core ])
  ]

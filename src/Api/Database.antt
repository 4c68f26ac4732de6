-- ===== src/Api/Database.antt =====
-- api/database.ts: the collections of a file. The objects of the collections stand in a list, and the
-- maps hold their places in it, so that a collection that two maps hold is one. A collection that a
-- caller still holds after it has been dropped stays in the list.
pub mod Interrupted
pub mod Replay
pub mod Refinement
pub mod Batch
pub mod Compaction
use pocket_db.Prelude.{
  ℕ, zero, suc, Bool, true, false, Option, none, some, List, [], ◌∷◌, ◌++◌, map, if◌then◌else◌,
  length, get_elem?, Result, ◌>>=◌, ◌>>◌, lookup, delete, insert, nested_begin,
  commit_without_begin, unknown_collection, unsupported_operation, stuck, ok, err,
}
use pocket_db.Search.Values.{Text, text_equality}
use pocket_db.Storage.Buffers.{Buffer}
use pocket_db.Storage.Constants.{
  create_index_operation, delete_document_operation, drop_collection_operation,
  drop_index_operation, hole_operation, new_collection_operation, put_document_operation,
  transaction_begin_operation, transaction_commit_operation,
}
use pocket_db.Storage.OperationRecord.{OperationRecord}
use pocket_db.Storage.CollectionOperation.{
  encode_new_collection_payload, decode_new_collection_payload, decode_drop_collection_payload,
}
use pocket_db.Storage.DocumentId.{to_hex}
use pocket_db.Storage.DocumentOperation.{
  decode_put_document_payload, decode_delete_document_payload,
}
use pocket_db.Storage.FileStorage.{FileStorage, append_operation, read_operations}
use pocket_db.Storage.IndexOperation.{decode_create_index_payload, decode_drop_index_payload}
use pocket_db.Api.Host.{Host, utf8_of, encoder_of}
use pocket_db.Api.Cursor.{bytes_same}
use pocket_db.Api.Collection.{
  Collection, new_collection, add_primary_index_entry, delete_primary_index_entry, drop_from_replay,
  drop_index_from_replay,
}
use pocket_db.Api.Collection.Indexing.{create_index_from_replay}

pub record Database : Type 0 where
  pub objects : List Collection
  pub collections_by_name : List (Text × ℕ)
  pub collections_by_id : List (Text × ℕ)
  pub collection_ids : List (Text × Unit {0})

abbrev pub empty_database : Database
empty_database = record {
  objects = [];
  collections_by_name = [];
  collections_by_id = [];
  collection_ids = [];
}

-- `objects[place] = c`
unfoldable pub put_object : List Collection → ℕ → Collection → List Collection
put_object [] place c = []
put_object (first ∷ objects) zero c = c ∷ objects
put_object (first ∷ objects) (suc place) c = first ∷ put_object objects place c

-- `this.collectionsById.get(id.toString("hex"))`, with its place.
unfoldable pub find_collection : Database → Buffer → Option (ℕ × Collection)
find_collection db id = elim (lookup text_equality (to_hex id) db.collections_by_id) [
  | none ↦ none
  | some place ↦ elim (get_elem? db.objects place) [ none ↦ none | some c ↦ some (place, c) ]
]

unfoldable pub put_collection : Database → ℕ → Collection → Database
unfolding put_object
put_collection db place c = record db { objects = put_object db.objects place c }

-- `getCollections`
unfoldable pub get_collections : Database → List Text
get_collections db = map (λ (p : Text × ℕ). p.0) db.collections_by_name

unfoldable pub exists_collection : Database → Text → Bool
exists_collection db name = elim (lookup text_equality name db.collections_by_name) [
  | none ↦ false
  | some _ ↦ true
]

-- `registerCollection`
unfoldable pub register_collection : Database → Buffer → Text → Database
register_collection db id name =
    let place = length db.objects in
    let id_hex = to_hex id in
    record {
      objects = db.objects ++ (new_collection id name ∷ []);
      collections_by_name = insert text_equality name place db.collections_by_name;
      collections_by_id = insert text_equality id_hex place db.collections_by_id;
      collection_ids = insert text_equality id_hex tt db.collection_ids;
    }

-- The `onDrop` that `registerCollection` gives a collection.
unfoldable pub on_drop : Database → Collection → Database
on_drop db c =
    let id_hex = to_hex c.id in
    record db {
      collections_by_name = delete text_equality c.name db.collections_by_name;
      collections_by_id = delete text_equality id_hex db.collections_by_id;
      collection_ids = delete text_equality id_hex db.collection_ids;
    }

-- The loop of `createCollectionId` over what `randomBytes` gives.
unfoldable pub create_collection_id : Database → List Buffer → Result Buffer
create_collection_id db [] = err stuck
create_collection_id db (id ∷ ids) =
    let rest = create_collection_id db ids in
    elim (lookup text_equality (to_hex id) db.collection_ids) [ none ↦ ok id | some _ ↦ rest ]

-- A collection for an operation, or the throw for an unknown one.
unfoldable pub known_collection : Database → Buffer → Result (ℕ × Collection)
unfolding find_collection
known_collection db id = elim (find_collection db id) [
  | none ↦ err unknown_collection
  | some found ↦ ok found
]

module _ (host : Host) where
  -- `collection(name)`: the collection is at the place that is returned.
  unfoldable pub open_collection :
      FileStorage → Database → Text → List Buffer → Result (FileStorage × Database × ℕ)
  unfolding create_collection_id register_collection
  open_collection storage db name random = elim (lookup text_equality name db.collections_by_name) [
    | some place ↦ ok (storage, db, place)
    | none ↦ do
      id ← create_collection_id db random
      payload ←
          encode_new_collection_payload (utf8_of host)
            (record { id = id; name = name; indexes = [] })
      (storage', offset) ← append_operation host.os storage new_collection_operation payload
      ok (storage', register_collection db id name, length db.objects)
  ]

  -- The branches of `applyOperation`.
  unfoldable pub replay_new_collection : Database → OperationRecord → Result Database
  unfolding register_collection
  replay_new_collection db operation = do
    definition ← decode_new_collection_payload (utf8_of host) operation.payload
    ok (register_collection db definition.id definition.name)

  unfoldable pub replay_put_document : Database → OperationRecord → Result Database
  unfolding known_collection put_collection
  replay_put_document db operation = do
    decoded ← decode_put_document_payload (encoder_of host) operation.payload
    (place, c) ← known_collection db decoded.collection_id
    let offset : ℕ = elim operation.offset [ none ↦ 0 | some o ↦ o ]
    c' ← add_primary_index_entry c decoded.document_id_hex offset decoded.document
    ok (put_collection db place c')

  unfoldable pub replay_create_index : FileStorage → Database → OperationRecord → Result Database
  unfolding known_collection put_collection
  replay_create_index storage db operation = do
    decoded ← decode_create_index_payload (utf8_of host) operation.payload
    (place, c) ← known_collection db decoded.collection_id
    let (created, c') =
        create_index_from_replay host storage decoded.field decoded.type decoded.unique c
    created >> ok (put_collection db place c')

  unfoldable pub replay_delete_document : Database → OperationRecord → Result Database
  unfolding known_collection put_collection
  replay_delete_document db operation = do
    decoded ← decode_delete_document_payload operation.payload
    (place, c) ← known_collection db decoded.collection_id
    ok (put_collection db place (delete_primary_index_entry c decoded.document_id_hex))

  unfoldable pub replay_drop_collection : Database → OperationRecord → Result Database
  unfolding known_collection put_collection on_drop
  replay_drop_collection db operation = do
    id ← decode_drop_collection_payload operation.payload
    (place, c) ← known_collection db id
    ok (on_drop (put_collection db place (drop_from_replay c)) c)

  unfoldable pub replay_drop_index : Database → OperationRecord → Result Database
  unfolding known_collection put_collection
  replay_drop_index db operation = do
    decoded ← decode_drop_index_payload (utf8_of host) operation.payload
    (place, c) ← known_collection db decoded.collection_id
    c' ← drop_index_from_replay c decoded.field
    ok (put_collection db place c')

  unfoldable pub apply_operation : FileStorage → Database → OperationRecord → Result Database
  unfolding bytes_same replay_new_collection replay_put_document replay_create_index
      replay_delete_document replay_drop_collection replay_drop_index
  apply_operation storage db operation =
      let is = bytes_same operation.identifier in
      if is new_collection_operation
      then replay_new_collection db operation
      else if is put_document_operation
      then replay_put_document db operation
      else if is create_index_operation
      then replay_create_index storage db operation
      else if is delete_document_operation
      then replay_delete_document db operation
      else if is drop_collection_operation
      then replay_drop_collection db operation
      else if is drop_index_operation
      then replay_drop_index db operation
      else if is hole_operation
      then ok db
      else err unsupported_operation

  -- The loop over `transactionOperations`.
  unfoldable pub apply_operations : FileStorage → Database → List OperationRecord → Result Database
  apply_operations storage db [] = ok db
  apply_operations storage db (operation ∷ operations) = do
    db' ← apply_operation storage db operation
    apply_operations storage db' operations

  -- The loop of `loadCollections`; `pending` is `transactionOperations`, and `none` is `null`.
  unfoldable pub load_loop :
      FileStorage
      → Database
      → Option (List OperationRecord)
      → List OperationRecord
      → Result Database
  unfolding bytes_same apply_operations
  load_loop storage db pending [] = ok db
  load_loop storage db none (operation ∷ operations) =
      let begun = load_loop storage db (some []) operations in
      let applied = do
        db' ← apply_operation storage db operation
        load_loop storage db' none operations
      in if bytes_same operation.identifier transaction_begin_operation
        then begun
        else if bytes_same operation.identifier transaction_commit_operation
        then err commit_without_begin
        else applied
  load_loop storage db (some pending) (operation ∷ operations) =
      let committed = do
        db' ← apply_operations storage db pending
        load_loop storage db' none operations
      in let kept = load_loop storage db (some (pending ++ (operation ∷ []))) operations in
        if bytes_same operation.identifier transaction_begin_operation
        then err nested_begin
        else if bytes_same operation.identifier transaction_commit_operation
        then committed
        else kept

  -- The constructor: `loadCollections` on the records of the file. The source reads a record when the
  -- ones before it have been applied; which throw comes first is all that differs, since no operation
  -- that is applied writes to the file.
  unfoldable pub open_database : FileStorage → Result (FileStorage × Database)
  unfolding load_loop
  open_database storage = do
    (operations, storage') ← read_operations host.os host.chunk_bytes storage
    db ← load_loop storage empty_database none operations
    ok (storage', db)

-- ===== src/Api/Collection.antt =====
-- api/collection.ts: a collection with the storage that it appends to. The dropping of the collection
-- from the maps of its database, `onDrop`, is the caller's part.
pub mod Writes
pub mod Indexing
pub mod Queries
pub mod Found
pub mod Logged
use pocket_db.Prelude.{
  ℕ, Bool, true, false, ◌||◌, Option, none, some, List, [], ◌∷◌, if◌then◌else◌, length, Result,
  throw_if, lookup, insert, collection_dropped, id_not_string, duplicate_id, duplicate_id_in_batch,
  immutable_id, stuck, ok, err,
}
use pocket_db.Search.Values.{
  Text, string, QueryValue, DocumentRecord, text_same, text_equality, has_own, field_of,
}
use pocket_db.Search.Update.{UpdateOperator, set, unset, current_date, rename, UpdateExpression}
use pocket_db.Storage.Buffers.{Buffer}
use pocket_db.Storage.DocumentId.{to_hex, assert_object_id_hex, object_id_from_hex}
use pocket_db.Storage.FileStorage.{FileStorage}
use pocket_db.Indexes.PrimaryIndex.{
  PrimaryIndex, id_field, set_candidate, remove_candidate, get_candidate, has_candidate,
}
use pocket_db.Indexes.Manager.{
  IndexManager, BatchEntry, update_document_indexes, remove_document, has_index, remove_index,
}
use pocket_db.Api.Actions.{Action, lift, gets, modify, ◌>>=◌, ◌>>◌}
use pocket_db.Api.DocumentCache
use pocket_db.Api.DocumentCache.{DocumentCache, new_cache, set_max_bytes, invalidate}

pub record Collection : Type 0 where
  pub id : Buffer
  pub name : Text
  pub primary_index : PrimaryIndex
  pub index_manager : IndexManager
  pub dropped : Bool
  pub cache : Option (DocumentCache Text DocumentRecord)

-- The constructor.
unfoldable pub new_collection : Buffer → Text → Collection
new_collection id name = record {
  id = id;
  name = name;
  primary_index = [];
  index_manager = [];
  dropped = false;
  cache = none;
}

-- The storage and the collection.
pub record State : Type 0 where
  pub storage : FileStorage
  pub self : Collection

-- A change of the collection alone.
abbrev pub change : (Collection → Collection) → State → State
change f s = record s { self = f s.self }

unfoldable pub document_count : Collection → ℕ
document_count c = length c.primary_index

unfoldable pub exists_index : Collection → Text → Bool
exists_index c field = has_index c.index_manager field

unfoldable pub exists_id : Collection → Text → Bool
exists_id c id = has_candidate c.primary_index id

unfoldable pub primary_index_offset_for : Collection → Text → Option ℕ
primary_index_offset_for c id = elim (get_candidate c.primary_index id) [
  | none ↦ none
  | some candidate ↦ some candidate.offset
]

unfoldable pub update_document_offset : Collection → Text → ℕ → Collection
update_document_offset c id offset = record c {
  primary_index = set_candidate c.primary_index id offset;
}

-- `addPrimaryIndexEntry`, with the document that the replay gives.
unfoldable pub add_primary_index_entry : Collection → Text → ℕ → DocumentRecord → Result Collection
add_primary_index_entry c id offset document =
    let updated =
      update_document_indexes c.index_manager document (record { id = id; offset = offset }) in
    elim updated [
      | err e ↦ err e
      | ok manager ↦ ok (record c {
        primary_index = set_candidate c.primary_index id offset;
        index_manager = manager;
      })
    ]

unfoldable pub delete_primary_index_entry : Collection → Text → Collection
delete_primary_index_entry c id = record c {
  primary_index = remove_candidate c.primary_index id;
  index_manager = remove_document c.index_manager id;
  cache = elim c.cache [ none ↦ none | some k ↦ some (invalidate text_equality k id).0 ];
}

-- What `dropFromReplay` does before it calls `onDrop`.
unfoldable pub drop_from_replay : Collection → Collection
drop_from_replay c = record c {
  primary_index = [];
  index_manager = [];
  cache = elim c.cache [ none ↦ none | some k ↦ some (DocumentCache.clear k) ];
  dropped = true;
}

unfoldable pub drop_index_from_replay : Collection → Text → Result Collection
drop_index_from_replay c field = elim (remove_index c.index_manager field) [
  | err e ↦ err e
  | ok manager ↦ ok (record c { index_manager = manager })
]

unfoldable pub assert_not_dropped : Action State (Unit {0})
assert_not_dropped s = (throw_if s.self.dropped collection_dropped, s)

unfoldable pub enable_cache : ℕ → Action State (Unit {0})
unfolding assert_not_dropped
enable_cache max_bytes = do
  assert_not_dropped
  current ← gets (λ s. s.self.cache)
  cache ← lift (elim current [ none ↦ new_cache max_bytes | some k ↦ set_max_bytes k max_bytes ])
  modify (change (λ c. record c { cache = some cache }))

unfoldable pub disable_cache : Collection → Collection
disable_cache c = record c { cache = none }

-- `{ ...document, _id: id }`
unfoldable pub with_id : DocumentRecord → Text → DocumentRecord
with_id document id = insert text_equality id_field (some (string id)) document

-- The identifiers that `createObjectId` gives one after the other, up to the first that is new.
unfoldable pub fresh_id : Collection → List Buffer → Result (Buffer × List Buffer)
unfolding exists_id
fresh_id c [] = err stuck
fresh_id c (id ∷ ids) =
    let rest = fresh_id c ids in if exists_id c (to_hex id) then rest else ok (id, ids)

-- The identifiers that are left over come back with the one that is taken.
unfoldable pub create_document_id :
    Collection → QueryValue → List Buffer → Result (Buffer × List Buffer)
unfolding exists_id fresh_id
create_document_id c none ids = fresh_id c ids
create_document_id c (some (string provided)) ids = elim (assert_object_id_hex provided) [
  | err e ↦ err e
  | ok _ ↦
      if exists_id c provided
      then err duplicate_id
      else elim (object_id_from_hex provided) [ err e ↦ err e | ok id ↦ ok (id, ids) ]
]
create_document_id c (some _) ids = err id_not_string

-- `seen.has(id)`
unfoldable pub is_seen : Text → List Text → Bool
is_seen id [] = false
is_seen id (first ∷ others) = text_same id first || is_seen id others

-- `assertUniqueBatchIds`
unfoldable pub assert_unique_batch_ids : List Text → List Text → Result (Unit {0})
unfolding is_seen
assert_unique_batch_ids seen [] = ok tt
assert_unique_batch_ids seen (id ∷ ids) =
    let rest = assert_unique_batch_ids (id ∷ seen) ids in
    if is_seen id seen then err duplicate_id_in_batch else rest

-- A document of a batch, with its identifier in both forms.
pub record Prepared : Type 0 where
  pub id : Text
  pub document_id : Buffer
  pub document : DocumentRecord

abbrev pub batch_entry : Prepared → BatchEntry
batch_entry p = record { id = p.id; document = p.document }

-- `prepareInsertedDocument`
unfoldable pub prepare_inserted_document :
    Collection → DocumentRecord → List Buffer → Result (Prepared × List Buffer)
unfolding create_document_id with_id
prepare_inserted_document c document ids =
    elim (create_document_id c (field_of document id_field) ids) [
      | err e ↦ err e
      | ok (document_id, ids') ↦
          let id = to_hex document_id in
          ok (record { id = id; document_id = document_id; document = with_id document id }, ids')
    ]

unfoldable pub prepare_all : Collection → List DocumentRecord → List Buffer → Result (List Prepared)
unfolding prepare_inserted_document
prepare_all c [] ids = ok []
prepare_all c (document ∷ documents) ids = elim (prepare_inserted_document c document ids) [
  | err e ↦ err e
  | ok (prepared, ids') ↦ elim (prepare_all c documents ids') [
    | err e ↦ err e
    | ok others ↦ ok (prepared ∷ others)
  ]
]

-- `field === "_id" || target === "_id"` for an entry
unfoldable pub renames_id : List (Text × Option Text) → Bool
renames_id [] = false
renames_id ((field, none) ∷ values) = text_same field id_field || renames_id values
renames_id ((field, some target) ∷ values) =
    text_same field id_field || text_same target id_field || renames_id values

-- `Object.hasOwn(update.$set, "_id")` and the other tests of `assertUpdateDoesNotMutateId`. The source
-- makes them in another order, with the same error.
unfoldable pub mutates_id : UpdateOperator → Bool
unfolding renames_id
mutates_id (set values) = has_own values id_field
mutates_id (unset values) = has_own values id_field
mutates_id (current_date values) = elim (lookup text_equality id_field values) [
  | none ↦ false
  | some _ ↦ true
]
mutates_id (rename values) = renames_id values
mutates_id _ = false

unfoldable pub assert_update_does_not_mutate_id : UpdateExpression → Result (Unit {0})
unfolding mutates_id
assert_update_does_not_mutate_id [] = ok tt
assert_update_does_not_mutate_id (entry ∷ entries) =
    let rest = assert_update_does_not_mutate_id entries in
    if mutates_id entry then err immutable_id else rest

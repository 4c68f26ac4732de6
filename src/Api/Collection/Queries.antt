-- ===== src/Api/Collection/Queries.antt =====
-- The methods of api/collection.ts that begin with a query.
use pocket_db.Prelude.{
  ℕ, zero, suc, Bool, true, false, not, ◌&&◌, ◌||◌, Option, none, some, List, [], ◌∷◌, ◌++◌, map,
  leb, if◌then◌else◌, length, Result, missing_id, bad_distinct_limit, too_many_distinct, stuck, ok,
  err,
}
use pocket_db.Search.Values.{Text, string, QueryValue, DocumentRecord, has_own, field_of}
use pocket_db.Search.Queries.{Js, CompiledQuery}
use pocket_db.Search.Evaluate.{values_equal}
use pocket_db.Search.Compile.{RegExps, string_raw, Query, no_conditions, on_field, compile_query}
use pocket_db.Search.Update.{Clock, UpdateExpression, update_document}
use pocket_db.Storage.FileStorage.{FileStorage}
use pocket_db.Storage.DocumentId.{object_id_from_hex}
use pocket_db.Indexes.PrimaryIndex.{id_field}
use pocket_db.Indexes.Manager.{assert_unique, assert_unique_batch, plan}
use pocket_db.Api.Actions.{Action, pure, raise, lift, gets, modify, raise_if, ◌>>=◌, ◌>>◌}
use pocket_db.Api.Host.{Host}
use pocket_db.Api.Cursor.{Cursor, new_cursor, next, to_array, count, set_limit}
use pocket_db.Api.Collection.{
  Collection, State, change, exists_id, assert_not_dropped, with_id, Prepared, batch_entry,
  assert_update_does_not_mutate_id, delete_primary_index_entry,
}
use pocket_db.Api.Collection.Writes.{
  append_put_document, append_delete_document_record, append_delete_document, apply_put_document,
  append_transaction_begin, append_transaction_commit, write_batch,
}

-- `idOrQuery`
pub data Target : Type 0 where
  by_id : Text → Target
  by_query : Query → Target

abbrev pub default_distinct_limit : ℕ
default_distinct_limit = 100

-- `{ _id: id }`
abbrev pub id_query : Text → Query
id_query id = on_field id_field (string_raw id) no_conditions

-- `isEmptyUpdate`
pub is_empty_update : UpdateExpression → Bool
is_empty_update [] = true
is_empty_update (entry ∷ entries) = false

-- `document._id` where it is a string
unfoldable pub string_id : DocumentRecord → Option Text
string_id document = elim (field_of document id_field) [ some (string id) ↦ some id | _ ↦ none ]

-- What `distinct` is given as its limit: `none` for no limit, `some none` for no integer.
unfoldable pub distinct_limit : Option (Option ℕ) → Result ℕ
distinct_limit none = ok default_distinct_limit
distinct_limit (some none) = err bad_distinct_limit
distinct_limit (some (some zero)) = err bad_distinct_limit
distinct_limit (some (some (suc n))) = ok (suc n)

module _ (host : Host) (js : Js) (re : RegExps js) where
  -- `find`, and a use of its cursor, which shares the cache of the collection.
  unfoldable pub find :
      {A : Type 0} → Query → (FileStorage → CompiledQuery js → Action Cursor A) → Action State A
  find query use_cursor s = elim (compile_query js re query) [
    | err e ↦ (err e, s)
    | ok compiled ↦
        let planned = plan js s.self.index_manager compiled s.self.primary_index in
        let cursor = new_cursor planned.candidates s.self.cache in
        let (r, cursor') = use_cursor s.storage planned.residual_query cursor in
        (r, change (λ c. record c { cache = cursor'.cache }) s)
  ]

  unfoldable pub find_one : Query → Action State (Option DocumentRecord)
  unfolding find
  find_one query = find query (λ storage compiled. do
    limited ← gets (set_limit (some 1))
    cursor ← lift limited
    modify (λ c. cursor)
    next host js storage compiled)

  -- `find(query).toArray()`
  unfoldable pub find_all : Query → Action State (List DocumentRecord)
  unfolding find
  find_all query = find query (λ storage compiled. to_array host js storage compiled)

  unfoldable pub count_documents : Query → Action State ℕ
  unfolding find
  count_documents query = find query (λ storage compiled. count host js storage compiled)

  -- `values.some((existing) => valuesEqual(existing, value))`
  unfoldable pub is_among : List QueryValue → QueryValue → Bool
  is_among [] value = false
  is_among (existing ∷ values) value = values_equal js existing value || is_among values value

  -- The loop of `distinct`, with the values so far.
  unfoldable pub distinct_loop :
      Text
      → ℕ
      → FileStorage
      → CompiledQuery js
      → ℕ
      → List QueryValue
      → Action Cursor (List QueryValue)
  unfolding is_among
  distinct_loop field limit storage query zero values = raise stuck
  distinct_loop field limit storage query (suc fuel) values = do
    document ← next host js storage query
    elim document [
      | none ↦ pure values
      | some d ↦
          let value = field_of d field in
          let seen = not (has_own d field) || is_among values value in
          let full = not seen && leb limit (length values) in
          raise_if full too_many_distinct
          >> distinct_loop field limit storage query fuel
              (if seen then values else values ++ (value ∷ []))
    ]

  -- One call of `next` for each candidate and a last one are enough.
  unfoldable pub distinct : Text → Query → Option (Option ℕ) → Action State (List QueryValue)
  unfolding assert_not_dropped distinct_limit find distinct_loop
  distinct field query given = do
    assert_not_dropped
    limit ← lift (distinct_limit given)
    find query (λ storage compiled c.
        distinct_loop field limit storage compiled (suc (length c.candidates)) [] c)

  -- What `deleteOne` returns: `deletedCount`.
  unfoldable pub delete_known : Option Text → Action State ℕ
  unfolding append_delete_document
  delete_known none = pure 0
  delete_known (some id) = do
    known ← gets (λ s. exists_id s.self id)
    elim known [ false ↦ pure 0 | true ↦ append_delete_document host id >> pure 1 ]

  unfoldable pub delete_one : Target → Action State ℕ
  unfolding assert_not_dropped find_one string_id delete_known
  delete_one (by_id id) = assert_not_dropped >> delete_known (some id)
  delete_one (by_query query) = do
    assert_not_dropped
    document ← find_one query
    delete_known (elim document [ none ↦ none | some d ↦ string_id d ])

  -- The identifiers of the documents, where they are strings of documents that exist.
  unfoldable pub existing_ids : Collection → List DocumentRecord → List Text
  unfolding string_id
  existing_ids c [] = []
  existing_ids c (document ∷ documents) =
      let rest = existing_ids c documents in
      elim (string_id document) [
        | none ↦ rest
        | some id ↦ if exists_id c id then id ∷ rest else rest
      ]

  unfoldable pub append_deletes : List Text → Action State (Unit {0})
  unfolding append_delete_document_record
  append_deletes [] = pure tt
  append_deletes (id ∷ ids) = do offset ← append_delete_document_record host id; append_deletes ids

  unfoldable pub delete_entries : List Text → Collection → Collection
  delete_entries [] c = c
  delete_entries (id ∷ ids) c = delete_entries ids (delete_primary_index_entry c id)

  unfoldable pub delete_many : Query → Action State ℕ
  unfolding assert_not_dropped find_all existing_ids append_deletes delete_entries
      append_transaction_begin append_transaction_commit
  delete_many query = do
    assert_not_dropped
    documents ← find_all query
    ids ← gets (λ s. existing_ids s.self documents)
    elim ids [
      | [] ↦ pure 0
      | first ∷ others ↦ do
        begun ← append_transaction_begin host
        append_deletes (first ∷ others)
        committed ← append_transaction_commit host
        modify (change (delete_entries (first ∷ others)))
        pure (length (first ∷ others))
    ]

  module _ (clock : Clock) where
    -- `buildUpdatedDocument`
    unfoldable pub build_updated_document :
        DocumentRecord → UpdateExpression → Result DocumentRecord
    unfolding string_id with_id
    build_updated_document document update = elim (string_id document) [
      | none ↦ err missing_id
      | some id ↦ elim (assert_update_does_not_mutate_id update) [
        | err e ↦ err e
        | ok _ ↦ elim (update_document js re clock document update) [
          | err e ↦ err e
          | ok updated ↦ ok (with_id updated id)
        ]
      ]
    ]

    -- `appendUpdatedDocument`; its own tests are those of `buildUpdatedDocument`.
    unfoldable pub append_updated_document :
        DocumentRecord → Text → UpdateExpression → Action State (Unit {0})
    unfolding build_updated_document append_put_document apply_put_document
    append_updated_document document id update = do
      updated ← lift (build_updated_document document update)
      unique ← gets (λ s. assert_unique s.self.index_manager updated (some id))
      lift unique
      document_id ← lift (object_id_from_hex id)
      offset ← append_put_document host document_id updated
      apply_put_document host id offset updated

    -- What `updateOne` returns: `matchedCount`, which is `modifiedCount`.
    unfoldable pub update_one : Target → UpdateExpression → Action State ℕ
    unfolding assert_not_dropped is_empty_update find_one string_id append_updated_document
    update_one target update = do
      assert_not_dropped
      elim (is_empty_update update) [
        | true ↦ pure 0
        | false ↦ do
          document ← find_one (elim target [ by_id id ↦ id_query id | by_query query ↦ query ])
          elim document [
            | none ↦ pure 0
            | some d ↦ elim (string_id d) [
              | none ↦ pure 0
              | some id ↦ append_updated_document d id update >> pure 1
            ]
          ]
      ]

    -- The `filter` and the `map` of `updateMany`.
    unfoldable pub prepare_updates :
        Collection → List DocumentRecord → UpdateExpression → Result (List Prepared)
    unfolding string_id build_updated_document
    prepare_updates c [] update = ok []
    prepare_updates c (document ∷ documents) update =
        let rest = prepare_updates c documents update in
        elim (string_id document) [
          | none ↦ rest
          | some id ↦
              if exists_id c id
              then elim (object_id_from_hex id) [
                | err e ↦ err e
                | ok document_id ↦ elim (build_updated_document document update) [
                  | err e ↦ err e
                  | ok updated ↦ elim rest [
                    | err e ↦ err e
                    | ok others ↦
                        ok (
                          record { id = id; document_id = document_id; document = updated }
                          ∷ others)
                  ]
                ]
              ]
              else rest
        ]

    unfoldable pub update_many : Query → UpdateExpression → Action State ℕ
    unfolding assert_not_dropped is_empty_update find_all prepare_updates write_batch
    update_many query update = do
      assert_not_dropped
      elim (is_empty_update update) [
        | true ↦ pure 0
        | false ↦ do
          documents ← find_all query
          preparing ← gets (λ s. prepare_updates s.self documents update)
          updates ← lift preparing
          elim updates [
            | [] ↦ pure 0
            | first ∷ others ↦ do
              unique ←
                  gets (λ s.
                    assert_unique_batch s.self.index_manager (map batch_entry (first ∷ others)))
              lift unique
              write_batch host (first ∷ others)
              pure (length (first ∷ others))
          ]
      ]

-- ===== src/Indexes/Manager.antt =====
-- indexes/index-manager.ts: the secondary indexes of a collection, and the choice of one for a query.
pub mod Plan
pub mod Unique
use pocket_db.Prelude.{
  Bool, true, false, not, Option, none, some, List, [], ◌∷◌, ◌++◌, map, ltb, if◌then◌else◌, length,
  Result, throw_if, ◌>>=◌, ◌>>◌, Equality, lookup, delete, insert, unsupported_index_type,
  index_type_mismatch, index_unique_mismatch, no_index, value_taken, value_taken_in_batch, ok, err,
}
use pocket_db.Search.Values.{Text, DocumentRecord, text_same, text_equality, field_of}
use pocket_db.Search.Queries.{
  Js, FieldOperators, CompiledQuery, and, or, nor, field_query, CompiledQueries, no_queries,
  query_then,
}
use pocket_db.Storage.IndexOperation.{StoredIndexType, of_string, of_number}
use pocket_db.Indexes.Buckets.{IndexCandidate}
use pocket_db.Indexes.StringIndex.{
  StringIndex, new_string_index, string_value, add, remove, update, clear_contents,
  find_value_owner, find_value_duplicate, scan,
}
use pocket_db.Indexes.NumberIndex.{
  NumberIndex, new_number_index, number_value, number_equality, add_number, remove_number,
  update_number, clear_number_contents, find_number_owner, find_number_duplicate,
}
use pocket_db.Indexes.NumberIndex.Range.{scan_number}
use pocket_db.Indexes.PrimaryIndex.{PrimaryIndex, id_field, snapshot, scan_ids}

-- `IndexType`; the other constructor is `SecondaryIndexType`.
pub data IndexType : Type 0 where
  of_ids : IndexType
  secondary : StoredIndexType → IndexType

pub record IndexDefinition : Type 0 where
  pub field : Text
  pub type : IndexType
  pub unique : Bool

-- The classes that implement `QueryIndex` and that a manager holds.
pub data QueryIndex : Type 0 where
  strings : StringIndex → QueryIndex
  numbers : NumberIndex → QueryIndex

-- `Map<string, QueryIndex>`
abbrev pub IndexManager : Type 0
IndexManager = List (Text × QueryIndex)

unfoldable pub definition_of : QueryIndex → IndexDefinition
definition_of (strings ix) = record {
  field = ix.field;
  type = secondary of_string;
  unique = ix.unique;
}
definition_of (numbers ix) = record {
  field = ix.field;
  type = secondary of_number;
  unique = ix.unique;
}

-- `index.add`
unfoldable pub add_to : QueryIndex → DocumentRecord → IndexCandidate → Result QueryIndex
add_to (strings ix) document candidate = ok (strings (add ix document candidate))
add_to (numbers ix) document candidate = do ix' ← add_number ix document candidate; ok (numbers ix')

-- `index.update`
unfoldable pub update_in : QueryIndex → DocumentRecord → IndexCandidate → Result QueryIndex
update_in (strings ix) document candidate = ok (strings (update ix document candidate))
update_in (numbers ix) document candidate = do
  ix' ← update_number ix document candidate
  ok (numbers ix')

-- `index.remove`
unfoldable pub remove_from : QueryIndex → Text → QueryIndex
remove_from (strings ix) id = strings (remove ix id)
remove_from (numbers ix) id = numbers (remove_number ix id)

-- `index.clearContents`
unfoldable pub cleared : QueryIndex → QueryIndex
cleared (strings ix) = strings (clear_contents ix)
cleared (numbers ix) = numbers (clear_number_contents ix)

-- `index.findOwner`
unfoldable pub owner_in : QueryIndex → DocumentRecord → Option Text → Option Text
owner_in (strings ix) document exclude = find_value_owner ix document exclude
owner_in (numbers ix) document exclude = find_number_owner ix document exclude

-- `index.findDuplicate`
unfoldable pub duplicate_in : QueryIndex → Option (List Text)
duplicate_in (strings ix) = find_value_duplicate ix
duplicate_in (numbers ix) = find_number_duplicate ix

unfoldable pub definitions : IndexManager → List IndexDefinition
definitions manager = map (λ (p : Text × QueryIndex). definition_of p.1) manager

-- `===` on types
pub index_type_same : StoredIndexType → StoredIndexType → Bool
index_type_same of_string of_string = true
index_type_same of_number of_number = true
index_type_same _ _ = false

pub index_type_of : QueryIndex → StoredIndexType
index_type_of (strings ix) = of_string
index_type_of (numbers ix) = of_number

unfoldable pub is_unique : QueryIndex → Bool
is_unique (strings ix) = ix.unique
is_unique (numbers ix) = ix.unique

pub new_index : Text → StoredIndexType → Bool → QueryIndex
new_index field of_string unique = strings (new_string_index field unique)
new_index field of_number unique = numbers (new_number_index field unique)

pub bool_same : Bool → Bool → Bool
bool_same true b = b
bool_same false b = not b

-- The new map, and the definition that is returned.
unfoldable pub create_index :
    IndexManager → Text → IndexType → Bool → Result (IndexManager × IndexDefinition)
unfolding index_type_same index_type_of is_unique new_index bool_same definition_of
create_index manager field of_ids unique = err unsupported_index_type
create_index manager field (secondary type) unique = elim (lookup text_equality field manager) [
  | some existing ↦ do
    throw_if (not (index_type_same (index_type_of existing) type)) index_type_mismatch
    throw_if (not (bool_same (is_unique existing) unique)) index_unique_mismatch
    ok (manager, definition_of existing)
  | none ↦
      let index = new_index field type unique in
      ok (insert text_equality field index manager, definition_of index)
]

unfoldable pub assert_unique : IndexManager → DocumentRecord → Option Text → Result (Unit {0})
unfolding is_unique owner_in
assert_unique [] document exclude = ok tt
assert_unique ((field, index) ∷ manager) document exclude =
    let rest = assert_unique manager document exclude in
    if is_unique index
    then elim (owner_in index document exclude) [ none ↦ rest | some owner ↦ err value_taken ]
    else rest

-- An entry of a batch: the identifier and the document.
pub record BatchEntry : Type 0 where
  pub id : Text
  pub document : DocumentRecord

-- The inner loop of `assertUniqueBatch`, with `seenInBatch`, for one index.
module _ {K : Type 0} (eq : Equality K) (value_in : DocumentRecord → Option K)
    (index : QueryIndex) where
  pub batch_loop : List BatchEntry → List (K × Text) → Result (Unit {0})
  unfolding owner_in
  batch_loop [] seen = ok tt
  batch_loop (entry ∷ entries) seen =
      let skipped = batch_loop entries seen in
      elim (value_in entry.document) [
        | none ↦ skipped
        | some value ↦
            let rest = batch_loop entries (insert eq value entry.id seen) in
            elim (owner_in index entry.document (some entry.id)) [
              | some owner ↦ err value_taken
              | none ↦ elim (lookup eq value seen) [
                | none ↦ rest
                | some owner ↦ if text_same owner entry.id then rest else err value_taken_in_batch
              ]
            ]
      ]

-- `normalizeIndexValue` is the value that the index itself reads.
pub check_batch : QueryIndex → List BatchEntry → Result (Unit {0})
unfolding batch_loop
check_batch (strings ix) entries =
    batch_loop text_equality (λ d. string_value (field_of d ix.field)) (strings ix) entries []
check_batch (numbers ix) entries =
    batch_loop number_equality (λ d. number_value (field_of d ix.field)) (numbers ix) entries []

unfoldable pub assert_unique_batch : IndexManager → List BatchEntry → Result (Unit {0})
unfolding is_unique check_batch
assert_unique_batch [] entries = ok tt
assert_unique_batch ((field, index) ∷ manager) entries =
    let rest = assert_unique_batch manager entries in
    if is_unique index then (check_batch index entries >> rest) else rest

unfoldable pub duplicate_of : IndexManager → Text → Option (List Text)
unfolding duplicate_in
duplicate_of manager field = elim (lookup text_equality field manager) [
  | none ↦ none
  | some index ↦ duplicate_in index
]

unfoldable pub add_document : IndexManager → DocumentRecord → IndexCandidate → Result IndexManager
unfolding add_to
add_document [] document candidate = ok []
add_document ((field, index) ∷ manager) document candidate = do
  index' ← add_to index document candidate
  manager' ← add_document manager document candidate
  ok ((field, index') ∷ manager')

unfoldable pub update_document_indexes :
    IndexManager → DocumentRecord → IndexCandidate → Result IndexManager
unfolding update_in
update_document_indexes [] document candidate = ok []
update_document_indexes ((field, index) ∷ manager) document candidate = do
  index' ← update_in index document candidate
  manager' ← update_document_indexes manager document candidate
  ok ((field, index') ∷ manager')

unfoldable pub remove_document : IndexManager → Text → IndexManager
unfolding remove_from
remove_document [] id = []
remove_document ((field, index) ∷ manager) id =
    (field, remove_from index id) ∷ remove_document manager id

unfoldable pub has_index : IndexManager → Text → Bool
has_index manager field = elim (lookup text_equality field manager) [ none ↦ false | some _ ↦ true ]

unfoldable pub remove_index : IndexManager → Text → Result IndexManager
unfolding has_index
remove_index manager field = do
  throw_if (not (has_index manager field)) no_index
  ok (delete text_equality field manager)

unfoldable pub clear_all_index_contents : IndexManager → IndexManager
unfolding cleared
clear_all_index_contents [] = []
clear_all_index_contents ((field, index) ∷ manager) =
    (field, cleared index) ∷ clear_all_index_contents manager

module _ (js : Js) where
  pub record QueryPlan : Type 0 where
    pub candidates : List IndexCandidate
    pub residual_query : CompiledQuery js
    pub used_index : Option IndexDefinition

  unfoldable mutual
    pub field_predicates : CompiledQuery js → List (Text × FieldOperators js)
    field_predicates (field_query field operators) = (field, operators) ∷ []
    field_predicates (and predicates) = all_field_predicates predicates
    field_predicates (or predicates) = []
    field_predicates (nor predicates) = []

    -- `predicates.flatMap(...)`
    pub all_field_predicates : CompiledQueries js → List (Text × FieldOperators js)
    all_field_predicates no_queries = []
    all_field_predicates (query_then query queries) =
        field_predicates query ++ all_field_predicates queries

  -- `selectedCandidates` and `selectedIndex`, which are set together.
  abbrev pub Selection : Type 0
  Selection = Option (List IndexCandidate × IndexDefinition)

  -- The body of the inner loop of `plan`, when the index has answered.
  pub select : Option (List IndexCandidate) → IndexDefinition → Selection → Selection
  select none definition selection = selection
  select (some candidates) definition none = some (candidates, definition)
  select (some candidates) definition (some (selected, index)) =
      if ltb (length candidates) (length selected)
      then some (candidates, definition)
      else some (selected, index)

  -- `index.scan`
  pub scan_index : QueryIndex → Text → FieldOperators js → Option (List IndexCandidate)
  scan_index (strings ix) field operators = scan js ix field operators
  scan_index (numbers ix) field operators = scan_number js ix field operators

  pub primary_definition : IndexDefinition
  primary_definition = record { field = id_field; type = of_ids; unique = true }

  -- The inner loop of `plan` over `indexesForPredicate`: the primary index, and a secondary one.
  pub consider : IndexManager → PrimaryIndex → Text → FieldOperators js → Selection → Selection
  unfolding select scan_index definition_of primary_definition
  consider manager primary field operators selection =
      let after_primary =
        if text_same field id_field
        then select (scan_ids js primary field operators) primary_definition selection
        else selection in
      elim (lookup text_equality field manager) [
        | none ↦ after_primary
        | some index ↦ select (scan_index index field operators) (definition_of index) after_primary
      ]

  -- The outer loop of `plan`.
  pub plan_loop :
      IndexManager → PrimaryIndex → List (Text × FieldOperators js) → Selection → Selection
  unfolding consider
  plan_loop manager primary [] selection = selection
  plan_loop manager primary ((field, operators) ∷ predicates) selection =
      plan_loop manager primary predicates (consider manager primary field operators selection)

  unfoldable pub plan : IndexManager → CompiledQuery js → PrimaryIndex → QueryPlan
  unfolding plan_loop field_predicates
  plan manager query primary = elim (plan_loop manager primary (field_predicates query) none) [
    | none ↦ record { candidates = snapshot primary; residual_query = query; used_index = none }
    | some (candidates, index) ↦ record {
      candidates = candidates;
      residual_query = query;
      used_index = some index;
    }
  ]

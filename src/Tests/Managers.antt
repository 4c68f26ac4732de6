-- ===== src/Tests/Managers.antt =====
-- The theorems on the index manager and the cursor at concrete inputs.
use pocket_db.Indexes.Buckets.{IndexCandidate}
use pocket_db.Prelude.{
  ◌≡◌, refl, sym, subst, inl, true, false, none, some, List, [], ◌∷◌, All, none-some, ok, Memᴰ,
}
use pocket_db.Search.Values.{
  DocumentRecord, number, finite, minus_infinity, string, text_equality, text_same, field_of,
}
use pocket_db.Search.Queries.{
  gt, eq, no_operators, operator_then, CompiledQuery, field_query, and, no_queries, query_then,
}
use pocket_db.Search.Evaluate.{
  every_operator, evaluate_compiled_query, values_equal, strictly_equal,
}
use pocket_db.Storage.FileStorage.Append.{read_operation_at_offset-frame}
use pocket_db.Storage.FileStorage.Replay.Log.{Entry, IsWritableEntry}
use pocket_db.Indexes.Buckets.{find_owner}
use pocket_db.Indexes.StringIndex.{update, string_value, find_value_owner}
use pocket_db.Indexes.StringIndex.Scan.{Represents-update, written}
use pocket_db.Indexes.NumberIndex.{NumberIndex}
use pocket_db.Indexes.NumberIndex.Range.{scan_number}
use pocket_db.Indexes.NumberIndex.Scan.{scan_number_misses_infinity}
use pocket_db.Indexes.PrimaryIndex.{scan_ids, PrimaryIndex, id_field, get_candidate}
use pocket_db.Indexes.Manager.{
  IndexManager, strings, assert_unique, update_document_indexes, update_in, owner_in, is_unique,
  plan, definition_of, field_predicates,
}
use pocket_db.Indexes.Manager.Plan.{Keeps, InPrimary, plan_complete}
use pocket_db.Indexes.Manager.Unique.{GuardsEntry, assert_unique_guards}
use pocket_db.Storage.DocumentId.{to_hex}
use pocket_db.Api.Collection.Logged.{put_entry, payload_decoded}
use pocket_db.Api.Cursor.{Cursor, new_cursor, document_of_record, bytes_same, to_array}
use pocket_db.Api.Cursor.Reading.{read_put}
use pocket_db.Api.Cursor.Collected.{to_array-page}
use pocket_db.Search.Compile.{RegExps, compile_query}
use pocket_db.Api.Collection.{State}
use pocket_db.Api.Collection.Queries.{id_query, find_all}
use pocket_db.Api.Collection.Found.{find_all_complete}
use pocket_db.Storage.FileStorage.Bulk.{Stands}
use pocket_db.Api.Cursor.Pages.{Reads}
use pocket_db.Indexes.StringIndex.{collect_string_equality_values}
use pocket_db.Tests.Data.{whole, file_header}
use pocket_db.Tests.Queries.{js, name, candidate, empty_index, nothing}
use pocket_db.Tests.Hosts.{plain, file_of, file_of-HoldsLog, document_with, new_id, people}
use pocket_db.Tests.Databases.{storable}

abbrev named : DocumentRecord
named = (id_field, some (string (1 ∷ []))) ∷ (name, some (string (7 ∷ []))) ∷ []

abbrev primary_index : PrimaryIndex
primary_index = (1 ∷ [], candidate) ∷ []

abbrev manager : IndexManager
manager = (name, strings (update empty_index named candidate)) ∷ []

-- `{ n: "\u0007" }`
abbrev by_name : CompiledQuery js
by_name = field_query name (operator_then (eq (some (string (7 ∷ [])))) no_operators)

keeps : All (Keeps named (1 ∷ []) candidate) manager
unfolding update text_equality text_same string_value field_of definition_of
keeps = (
  (
    refl,
    (
      written name (λ _. none) named candidate,
      Represents-update empty_index named candidate nothing,
      (7 ∷ [], refl, refl),
    ),
  ),
  tt,
)

known : InPrimary named (1 ∷ []) candidate primary_index
unfolding get_candidate field_of text_equality text_same
known = record { entry = refl; id_value = refl }

satisfied : evaluate_compiled_query js by_name named ≡ true
unfolding evaluate_compiled_query every_operator values_equal strictly_equal text_same field_of
    text_equality
satisfied = refl

plan_complete_example : Memᴰ candidate (plan js manager by_name primary_index).candidates
unfolding field_predicates
plan_complete_example =
    plan_complete named (1 ∷ []) candidate js manager primary_index by_name keeps known
      ((tt, tt), tt) satisfied

abbrev unique_manager : IndexManager
unique_manager = (name, strings (record empty_index { unique = true })) ∷ []

guarded : All (GuardsEntry named candidate) unique_manager
guarded = (λ unique. (λ _. none, nothing, λ i j value c c' h h'. absurd (none-some h)), tt)

free : assert_unique unique_manager named none ≡ ok tt
unfolding assert_unique owner_in is_unique find_value_owner string_value field_of text_equality
    text_same find_owner
free = refl

assert_unique_guards_example :
    All
      (GuardsEntry named candidate)
      ((name, strings (update (record empty_index { unique = true }) named candidate)) ∷ [])
unfolding update_document_indexes update_in
assert_unique_guards_example =
    assert_unique_guards named candidate unique_manager none tt guarded free refl

abbrev number_index : NumberIndex
number_index = record {
  field = name;
  unique = false;
  buckets = record { values = []; values_by_id = [] };
  sorted_values = [];
}

scan_number_misses_infinity_example :
    (every_operator js
        (operator_then (gt (some (number minus_infinity))) no_operators)
        (some (number (finite 5)))
        true
      ≡ true)
    × (scan_number js number_index name
          (operator_then (gt (some (number minus_infinity))) no_operators)
        ≡ some [])
scan_number_misses_infinity_example = scan_number_misses_infinity js number_index 5

abbrev everything : CompiledQuery js
everything = and no_queries

abbrev entry : Entry
entry = put_entry plain storable.payload

entry_writable : IsWritableEntry entry
entry_writable = record { four = refl; width = storable.fits }

-- The document is the first record of the file.
reads : read_put plain js (file_of (entry ∷ [])) everything 12 ≡ ok (document_with (to_hex new_id))
unfolding document_of_record bytes_same
reads =
    let read =
      read_operation_at_offset-frame whole (file_of (entry ∷ [])) entry file_header []
        entry_writable refl in
    rw (read_put, read, payload_decoded plain storable) refl

-- The document is found twice, and the first time is skipped.
to_array-page_example :
    (after : Cursor) × (to_array plain js
        (file_of (entry ∷ []))
        everything
        (record (new_cursor (candidate ∷ candidate ∷ []) none) {
          limit_count = none;
          skip_count = 1;
        })
      ≡ (ok (document_with (to_hex new_id) ∷ []), after))
unfolding to_array new_cursor evaluate_compiled_query
to_array-page_example =
    to_array-page plain js (file_of (entry ∷ [])) everything (candidate ∷ candidate ∷ []) none none
      1 (document_with (to_hex new_id) ∷ document_with (to_hex new_id) ∷ [])
      (file_of-HoldsLog (entry ∷ []) (entry_writable, tt))
      ((entry, inl (refl, refl)), ((entry, inl (refl, refl)), tt)) tt (reads, (reads, tt))

abbrev re : RegExps js
re = record { construct = λ source flags. some source }

-- A collection with the document.
abbrev stored_people : State
stored_people = record {
  storage = file_of (entry ∷ []);
  self = record people {
    primary_index = (to_hex new_id, record { id = to_hex new_id; offset = 12 }) ∷ [];
  };
}

abbrev identified : CompiledQuery js
identified = and (
    query_then
      (field_query id_field (operator_then (eq (some (string (to_hex new_id)))) no_operators))
      no_queries)

abbrev known_candidate : IndexCandidate
known_candidate = record { id = to_hex new_id; offset = 12 }

compiled : compile_query js re (id_query (to_hex new_id)) ≡ ok identified
unfolding compile_query to_hex
compiled = refl

planned : (plan js [] identified stored_people.self.primary_index).candidates ≡ known_candidate ∷ []
unfolding plan to_hex text_same scan_ids collect_string_equality_values string_value text_equality
planned = refl

reads_identified :
    read_put plain js (file_of (entry ∷ [])) identified 12 ≡ ok (document_with (to_hex new_id))
unfolding document_of_record bytes_same
reads_identified =
    let read =
      read_operation_at_offset-frame whole (file_of (entry ∷ [])) entry file_header []
        entry_writable refl in
    rw (read_put, read, payload_decoded plain storable) refl

in_primary :
    InPrimary
      (document_with (to_hex new_id))
      (to_hex new_id)
      known_candidate
      stored_people.self.primary_index
unfolding get_candidate field_of text_equality text_same to_hex
in_primary = record { entry = refl; id_value = refl }

satisfies : evaluate_compiled_query js identified (document_with (to_hex new_id)) ≡ true
unfolding evaluate_compiled_query every_operator values_equal strictly_equal text_same field_of
    text_equality to_hex
satisfies = refl

find_all_complete_example :
    (s' : State) × (find_all plain js re (id_query (to_hex new_id)) stored_people
      ≡ (ok (document_with (to_hex new_id) ∷ []), s'))
    × Memᴰ (document_with (to_hex new_id)) (document_with (to_hex new_id) ∷ [])
unfolding evaluate_compiled_query every_operator values_equal strictly_equal text_same field_of
    text_equality to_hex field_predicates
find_all_complete_example =
    find_all_complete plain js re stored_people (id_query (to_hex new_id))
      (document_with (to_hex new_id) ∷ []) (document_with (to_hex new_id)) (to_hex new_id)
      known_candidate compiled (file_of-HoldsLog (entry ∷ []) (entry_writable, tt))
      (subst (All (λ (k : IndexCandidate). (e : Entry) × Stands 12 (entry ∷ []) k.offset e))
        (sym planned) ((entry, inl (refl, refl)), tt))
      tt
      (subst
        (λ (ks : List IndexCandidate).
          Reads plain js (file_of (entry ∷ [])) identified ks (document_with (to_hex new_id) ∷ []))
        (sym planned) (reads_identified, tt))
      tt in_primary (((tt, tt)), tt) reads_identified satisfies

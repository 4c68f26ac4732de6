-- ===== src/Tests/Queries.antt =====
-- The theorems on queries and indexes at concrete inputs.
use pocket_db.Prelude.{
  ℕ, zero, suc, ◌<◌, ◌≡◌, refl, ◌≢◌, true, false, none, some, List, [], ◌∷◌, ◌++◌, arith, get_or,
  take, drop, ok, Memᴰ,
}
use pocket_db.Search.Values.{
  Text, Value, Values, null, boolean, number, object, string, array, is_array_value, DocumentRecord,
  text_equality, text_same, field_of,
}
use pocket_db.Search.Queries.{
  Js, equal, eq, in_values, FieldOperators, no_operators, operator_then, field_query,
}
use pocket_db.Search.Evaluate.{
  every_operator, evaluate_compiled_query, values_equal, strictly_equal,
}
use pocket_db.Indexes.Buckets.{IndexCandidate, bucket_of, bucket_add, bucket_remove, collect_values}
use pocket_db.Indexes.Buckets.Contents.{Represents}
use pocket_db.Indexes.StringIndex.{
  StringIndex, add, remove, update, scan, collect_string_equality_values, collect_loop,
  string_value,
}
use pocket_db.Indexes.StringIndex.Scan.{Represents-update, written, scan_complete}
use pocket_db.Indexes.StringIndex.OtherTypes.{plain_null, scan_misses_other_types}
use pocket_db.Search.Queries.{before, after}
use pocket_db.Search.Sort.{
  SortField, descending, compare_documents, compare_values, is_missing, type_rank,
  compare_same_rank, compare_texts,
}
use pocket_db.Search.Sort.Order.{compare_documents_swap}
use pocket_db.Indexes.NumberIndex.{insert_sorted}
use pocket_db.Indexes.NumberIndex.Sorted.{IsPlace, Ascending, insert_sorted_lem}
use pocket_db.Indexes.PrimaryIndex.{PrimaryIndex, id_field, get_candidate, scan_ids, candidates_at}
use pocket_db.Indexes.PrimaryIndex.Lookup.{scan_ids_repeats}

-- A text for each kind of value that keeps arrays apart.
abbrev pub kind_text : Value → Text
kind_text (array _) = b'[' ∷ []
kind_text _ = []

pub kind_text_apart :
    (v : Value) (vs : Values) → is_array_value v ≡ false → kind_text v ≢ kind_text (array vs)
kind_text_apart null vs h e = absurd cc
kind_text_apart (boolean b) vs h e = absurd cc
kind_text_apart (number n) vs h e = absurd cc
kind_text_apart (string s) vs h e = absurd cc
kind_text_apart (array ws) vs h e = absurd cc
kind_text_apart (object fs) vs h e = absurd cc

abbrev pub js : Js
js = record {
  RegExp = Text;
  test = λ r s. false;
  locale_compare = λ s t. equal;
  stringify = kind_text;
  array_text = kind_text_apart;
}

abbrev pub name : Text
name = b'n' ∷ []

abbrev pub candidate : IndexCandidate
candidate = record { id = 1 ∷ []; offset = 12 }

abbrev pub empty_index : StringIndex
empty_index = record {
  field = name;
  unique = false;
  buckets = record { values = []; values_by_id = [] };
}

pub nothing : Represents text_equality empty_index.buckets (λ _. none)
unfolding bucket_of
nothing = record { by_id = λ id. refl; bucket = λ v id. refl; distinct = λ v. tt }

abbrev document : DocumentRecord
document = (name, some (string (7 ∷ []))) ∷ []

Represents-update_example :
    Represents text_equality
      (update empty_index document candidate).buckets
      (written name (λ _. none) document candidate)
Represents-update_example = Represents-update empty_index document candidate nothing

ascending : Ascending (2 ∷ 5 ∷ [])
ascending zero zero less size = absurd (omega (arith, less))
ascending zero (suc zero) less size = omega arith
ascending zero (suc (suc j)) less size = absurd (omega (arith, size))
ascending (suc i) zero less size = absurd (omega (arith, less))
ascending (suc i) (suc zero) less size = absurd (omega (arith, less))
ascending (suc i) (suc (suc j)) less size = absurd (omega (arith, size))

abbrev numbers : List ℕ
numbers = 2 ∷ 5 ∷ []

absent : (i : ℕ) → i < 2 → get_or numbers i 0 ≢ 3
absent zero h = λ e. absurd (omega (arith, e))
absent (suc zero) h = λ e. absurd (omega (arith, e))
absent (suc (suc i)) h = absurd (omega (arith, h))

insert_sorted_lem_example :
    (low : ℕ) × (insert_sorted (2 ∷ 5 ∷ []) 3
      ≡ ok (take low (2 ∷ 5 ∷ []) ++ (3 ∷ drop low (2 ∷ 5 ∷ []))))
    × IsPlace (2 ∷ 5 ∷ []) 3 low
    × Ascending (take low (2 ∷ 5 ∷ []) ++ (3 ∷ drop low (2 ∷ 5 ∷ [])))
insert_sorted_lem_example = insert_sorted_lem (2 ∷ 5 ∷ []) 3 ascending absent

abbrev primary : PrimaryIndex
primary = (1 ∷ [], candidate) ∷ []

found : get_candidate primary (1 ∷ []) ≡ some candidate
unfolding get_candidate text_equality text_same
found = refl

scan_ids_repeats_example :
    scan_ids js primary id_field (
      operator_then
        (in_values (some (string (1 ∷ [])) ∷ some (string (2 ∷ [])) ∷ some (string (1 ∷ [])) ∷ []))
        no_operators)
    ≡ some (candidate ∷ candidate ∷ [])
unfolding candidates_at get_candidate text_equality text_same
scan_ids_repeats_example =
    scan_ids_repeats js primary [] ((2 ∷ []) ∷ []) [] (1 ∷ []) candidate found

-- `_id: { $eq: "\u0001" }`
abbrev by_id : FieldOperators js
by_id = operator_then (eq (some (string (1 ∷ [])))) no_operators

matching : every_operator js by_id (some (string (1 ∷ []))) true ≡ true
unfolding every_operator values_equal strictly_equal text_same
matching = refl

answered : scan_ids js primary id_field by_id ≡ some (candidate ∷ [])
unfolding scan_ids collect_string_equality_values collect_loop string_value text_same text_equality
    candidates_at get_candidate
answered = refl

-- The index after the document was written.
abbrev one_document : StringIndex
one_document = update empty_index ((name, some (string (1 ∷ []))) ∷ []) candidate

one_document-Represents :
    Represents text_equality one_document.buckets
      (written name (λ _. none) ((name, some (string (1 ∷ []))) ∷ []) candidate)
one_document-Represents =
    Represents-update empty_index ((name, some (string (1 ∷ []))) ∷ []) candidate nothing

held :
    written name (λ _. none) ((name, some (string (1 ∷ []))) ∷ []) candidate (1 ∷ [])
    ≡ some (1 ∷ [], candidate)
unfolding text_equality text_same string_value field_of
held = refl

scanned : scan js one_document one_document.field by_id ≡ some (candidate ∷ [])
unfolding scan collect_string_equality_values collect_loop string_value text_same text_equality
    update add remove bucket_add bucket_remove bucket_of collect_values field_of
scanned = refl

scan_complete_example : Memᴰ candidate (candidate ∷ [])
scan_complete_example =
    scan_complete js one_document by_id (1 ∷ []) (1 ∷ []) candidate one_document-Represents held
      matching scanned

scan_misses_other_types_example :
    (scan js one_document one_document.field (operator_then (eq (some null)) no_operators)
      ≡ some [])
    × (evaluate_compiled_query js
          (field_query one_document.field (operator_then (eq (some null)) no_operators))
          ((one_document.field, some null) ∷ [])
        ≡ true)
scan_misses_other_types_example = scan_misses_other_types js one_document null plain_null

abbrev first_document : DocumentRecord
first_document = (name, some (string (1 ∷ []))) ∷ []

abbrev second_document : DocumentRecord
second_document = (name, some (string (2 ∷ []))) ∷ []

abbrev by_name : List SortField
by_name = record { field = name; direction = descending } ∷ []

compared : compare_documents first_document second_document by_name ≡ ok after
unfolding compare_documents compare_values is_missing type_rank compare_same_rank compare_texts
    field_of text_equality text_same
compared = refl

compare_documents_swap_example :
    compare_documents second_document first_document by_name ≡ ok before
compare_documents_swap_example =
    compare_documents_swap first_document second_document by_name compared

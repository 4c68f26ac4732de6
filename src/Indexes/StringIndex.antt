-- ===== src/Indexes/StringIndex.antt =====
-- indexes/string-index.ts
pub mod Scan
pub mod OtherTypes
use pocket_db.Prelude.{Bool, Option, none, some, List, [], ◌∷◌, ◌++◌, if◌then◌else◌}
use pocket_db.Search.Values.{
  Text, string, QueryValue, DocumentRecord, text_same, text_equality, field_of,
}
use pocket_db.Search.Queries.{Js, eq, in_values, FieldOperators, no_operators, operator_then}
use pocket_db.Indexes.Buckets.{
  IndexCandidate, Buckets, bucket_add, bucket_remove, collect_values, find_owner, find_duplicate,
  candidates_of,
}

pub record StringIndex : Type 0 where
  pub field : Text
  pub unique : Bool
  pub buckets : Buckets Text

-- The constructor.
unfoldable pub new_string_index : Text → Bool → StringIndex
new_string_index field unique = record {
  field = field;
  unique = unique;
  buckets = record { values = []; values_by_id = [] };
}

-- `typeof value === "string"`
unfoldable pub string_value : QueryValue → Option Text
string_value (some (string s)) = some s
string_value _ = none

unfoldable pub add : StringIndex → DocumentRecord → IndexCandidate → StringIndex
unfolding string_value
add ix document candidate = elim (string_value (field_of document ix.field)) [
  | none ↦ ix
  | some value ↦ record ix { buckets = bucket_add text_equality ix.buckets value candidate }
]

unfoldable pub remove : StringIndex → Text → StringIndex
remove ix id = record ix { buckets = bucket_remove text_equality ix.buckets id }

unfoldable pub update : StringIndex → DocumentRecord → IndexCandidate → StringIndex
unfolding add remove
update ix document candidate = add (remove ix candidate.id) document candidate

unfoldable pub clear_contents : StringIndex → StringIndex
clear_contents ix = record ix { buckets = record { values = []; values_by_id = [] } }

unfoldable pub find_value_owner : StringIndex → DocumentRecord → Option Text → Option Text
find_value_owner ix document exclude = elim (string_value (field_of document ix.field)) [
  | none ↦ none
  | some value ↦ find_owner text_equality ix.buckets value exclude
]

unfoldable pub find_value_duplicate : StringIndex → Option (List Text)
find_value_duplicate ix = find_duplicate text_equality ix.buckets.values

-- `values.filter((value) => typeof value === "string")`
unfoldable pub strings_of : List QueryValue → List Text
strings_of [] = []
strings_of (some (string s) ∷ values) = s ∷ strings_of values
strings_of (_ ∷ values) = strings_of values

module _ (js : Js) where
  -- The loop of `collectStringEqualityValues`, with the values so far.
  unfoldable pub collect_loop : FieldOperators js → List Text → Option (List Text)
  unfolding strings_of
  collect_loop no_operators values = some values
  collect_loop (operator_then (eq operand) others) values = elim (string_value operand) [
    | none ↦ some []
    | some s ↦ collect_loop others (values ++ (s ∷ []))
  ]
  collect_loop (operator_then (in_values operands) others) values =
      collect_loop others (values ++ strings_of operands)
  collect_loop (operator_then _ others) values = none

  unfoldable pub collect_string_equality_values : FieldOperators js → Option (List Text)
  unfolding collect_loop
  collect_string_equality_values no_operators = none
  collect_string_equality_values (operator_then operator others) =
      collect_loop (operator_then operator others) []

  -- `none` is `null`: the index does not answer the predicate.
  unfoldable pub scan : StringIndex → Text → FieldOperators js → Option (List IndexCandidate)
  scan ix field operators =
      let values = collect_string_equality_values operators in
      if text_same field ix.field
      then elim values [
        | none ↦ none
        | some wanted ↦
            some (candidates_of (collect_values text_equality ix.buckets.values wanted []))
      ]
      else none

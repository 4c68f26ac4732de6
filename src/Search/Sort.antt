-- ===== src/Search/Sort.antt =====
-- search/sort.ts
pub mod Order
use pocket_db.Prelude.{
  ℕ, Bool, true, false, ◌&&◌, Option, none, some, List, [], ◌∷◌, ltb, ◌==◌, if◌then◌else◌, length,
  Result, throw_if, ◌>>=◌, ◌>>◌, empty_sort, too_many_sort_fields, empty_sort_field,
  bad_sort_direction, sort_on_array, sort_on_object, ok, err,
}
use pocket_db.Search.Values.{
  Text, Number, nan, minus_infinity, finite, plus_infinity, null, boolean, number, string, array,
  QueryValue, DocumentRecord, field_of,
}
use pocket_db.Search.Queries.{Compared, before, equal, after}

-- `SortDirection`: 1 or -1.
pub data SortDirection : Type 0 where
  ascending descending : SortDirection

pub record SortField : Type 0 where
  pub field : Text
  pub direction : SortDirection

abbrev pub max_sort_fields : ℕ
max_sort_fields = 4

-- The value of a field of the specification: `some` of 1 or -1, or anything else.
pub direction_of : Text → Option SortDirection → Result SortField
direction_of field direction = do
  throw_if (length field == 0) empty_sort_field
  elim direction [
    | none ↦ err bad_sort_direction
    | some d ↦ ok (record { field = field; direction = d })
  ]

pub directions_of : List (Text × Option SortDirection) → Result (List SortField)
unfolding direction_of
directions_of [] = ok []
directions_of ((field, direction) ∷ entries) = do
  first ← direction_of field direction
  others ← directions_of entries
  ok (first ∷ others)

-- The entries of the specification in their order.
unfoldable pub parse_sort_spec : List (Text × Option SortDirection) → Result (List SortField)
unfolding directions_of
parse_sort_spec entries = do
  throw_if (length entries == 0) empty_sort
  throw_if (ltb max_sort_fields (length entries)) too_many_sort_fields
  directions_of entries

-- `null`, `undefined`, and NaN
unfoldable pub is_missing : QueryValue → Bool
is_missing none = true
is_missing (some null) = true
is_missing (some (number nan)) = true
is_missing _ = false

-- The caller has dealt with `undefined` and `null`, which would be objects here.
unfoldable pub type_rank : QueryValue → Result ℕ
type_rank (some (boolean _)) = ok 1
type_rank (some (number _)) = ok 2
type_rank (some (string _)) = ok 3
type_rank (some (array _)) = err sort_on_array
type_rank _ = err sort_on_object

-- `a < b ? -1 : a > b ? 1 : 0` on naturals
abbrev pub compare_naturals : ℕ → ℕ → Compared
compare_naturals a b = if ltb a b then before else if ltb b a then after else equal

-- The same on numbers that are not NaN.
unfoldable pub compare_numbers : Number → Number → Compared
compare_numbers (finite a) (finite b) = compare_naturals a b
compare_numbers minus_infinity minus_infinity = equal
compare_numbers plus_infinity plus_infinity = equal
compare_numbers minus_infinity _ = before
compare_numbers _ minus_infinity = after
compare_numbers plus_infinity _ = after
compare_numbers _ plus_infinity = before
compare_numbers _ _ = equal

-- The same on strings, which compare by their code units.
unfoldable pub compare_texts : Text → Text → Compared
compare_texts [] [] = equal
compare_texts [] (_ ∷ _) = before
compare_texts (_ ∷ _) [] = after
compare_texts (a ∷ s) (b ∷ t) =
    let rest = compare_texts s t in if a == b then rest else if ltb a b then before else after

-- What is left when the ranks are the same.
unfoldable pub compare_same_rank : QueryValue → QueryValue → Compared
unfolding compare_numbers compare_texts
compare_same_rank (some (boolean true)) (some (boolean false)) = after
compare_same_rank (some (boolean false)) (some (boolean true)) = before
compare_same_rank (some (number a)) (some (number b)) = compare_numbers a b
compare_same_rank (some (string a)) (some (string b)) = compare_texts a b
compare_same_rank _ _ = equal

unfoldable pub compare_values : QueryValue → QueryValue → Result Compared
unfolding compare_same_rank type_rank is_missing
compare_values a b =
    let by_rank = do
      a_rank ← type_rank a
      b_rank ← type_rank b
      ok (if a_rank == b_rank then compare_same_rank a b else compare_naturals a_rank b_rank)
    in if is_missing a && is_missing b
      then ok equal
      else if is_missing a
      then ok before
      else if is_missing b
      then ok after
      else by_rank

-- A result times -1.
abbrev pub opposite : Compared → Compared
opposite before = after
opposite equal = equal
opposite after = before

abbrev pub directed : SortDirection → Compared → Compared
directed ascending c = c
directed descending c = opposite c

unfoldable pub compare_documents :
    DocumentRecord → DocumentRecord → List SortField → Result Compared
unfolding compare_values
compare_documents a b [] = ok equal
compare_documents a b (f ∷ fields) = do
  c ← compare_values (field_of a f.field) (field_of b f.field)
  let rest = compare_documents a b fields
  elim c [
    | equal ↦ rest
    | before ↦ ok (directed f.direction before)
    | after ↦ ok (directed f.direction after)
  ]

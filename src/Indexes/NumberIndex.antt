-- ===== src/Indexes/NumberIndex.antt =====
-- indexes/number-index.ts. A finite number is named by its place in ascending order.
pub mod Sorted
pub mod Range
pub mod Scan
use pocket_db.Prelude.{
  ℕ, zero, suc, ◌+◌, ◌/◌, refl, Bool, Option, none, some, List, [], ◌∷◌, ◌++◌, ltb, ◌==◌,
  if◌then◌else◌, ==_iff, length, get_or, take, drop, Result, ◌>>=◌, ◌>>◌, Equality, lookup, delete,
  stuck, ok, err,
}
use pocket_db.Search.Values.{
  Text, finite, number, QueryValue, DocumentRecord, text_equality, field_of,
}
use pocket_db.Indexes.Buckets.{
  IndexCandidate, Buckets, bucket_add, bucket_remove, find_owner, find_duplicate,
}

-- `===` on finite numbers
unfoldable pub number_equality : Equality ℕ
number_equality = record {
  same = λ a b. a == b;
  same→≡ = λ a b. (==_iff a b).0;
  same-refl = λ a. (==_iff a a).1 refl;
}

-- The loop of `insertSorted`: the place that the binary search finds.
pub search_loop : ℕ → List ℕ → ℕ → ℕ → ℕ → Result ℕ
search_loop zero values value low high = if ltb low high then err stuck else ok low
search_loop (suc fuel) values value low high =
    let middle = (low + high) / 2 in
    let right = search_loop fuel values value (middle + 1) high in
    let left = search_loop fuel values value low middle in
    if ltb low high then (if ltb (get_or values middle 0) value then right else left) else ok low

-- `values.splice(low, 0, value)`
pub splice_in : ℕ → ℕ → List ℕ → List ℕ
splice_in low value values = take low values ++ (value ∷ drop low values)

-- A round at least halves the part that is left, so the length is more than enough rounds.
unfoldable pub insert_sorted : List ℕ → ℕ → Result (List ℕ)
unfolding search_loop splice_in
insert_sorted values value = do
  low ← search_loop (length values) values value 0 (length values)
  ok (splice_in low value values)

pub record NumberIndex : Type 0 where
  pub field : Text
  pub unique : Bool
  pub buckets : Buckets ℕ
  pub sorted_values : List ℕ

-- The constructor.
unfoldable pub new_number_index : Text → Bool → NumberIndex
new_number_index field unique = record {
  field = field;
  unique = unique;
  buckets = record { values = []; values_by_id = [] };
  sorted_values = [];
}

-- `typeof value === "number" && Number.isFinite(value)`
unfoldable pub number_value : QueryValue → Option ℕ
number_value (some (number (finite n))) = some n
number_value _ = none

unfoldable pub add_number : NumberIndex → DocumentRecord → IndexCandidate → Result NumberIndex
unfolding number_value number_equality
add_number ix document candidate = elim (number_value (field_of document ix.field)) [
  | none ↦ ok ix
  | some value ↦
      let buckets' = bucket_add number_equality ix.buckets value candidate in
      elim (lookup number_equality value ix.buckets.values) [
        | none ↦ do
          sorted ← insert_sorted ix.sorted_values value
          ok (record ix { buckets = buckets'; sorted_values = sorted })
        | some _ ↦ ok (record ix { buckets = buckets' })
      ]
]

-- `sortedValues.filter((entry) => entry !== value)`
pub filter_out : ℕ → List ℕ → List ℕ
filter_out value [] = []
filter_out value (entry ∷ entries) =
    if entry == value then filter_out value entries else entry ∷ filter_out value entries

-- The sorted values are filtered when the bucket of the value is gone, that is when it was emptied.
unfoldable pub remove_number : NumberIndex → Text → NumberIndex
unfolding filter_out number_equality
remove_number ix id = elim (lookup text_equality id ix.buckets.values_by_id) [
  | none ↦ ix
  | some value ↦
      let buckets' = bucket_remove number_equality ix.buckets id in
      elim (lookup number_equality value ix.buckets.values) [
        | none ↦ record ix { buckets = buckets' }
        | some candidates ↦
            if length (delete text_equality id candidates) == 0
            then record ix { buckets = buckets'; sorted_values = filter_out value ix.sorted_values }
            else record ix { buckets = buckets' }
      ]
]

unfoldable pub update_number : NumberIndex → DocumentRecord → IndexCandidate → Result NumberIndex
unfolding add_number remove_number
update_number ix document candidate = add_number (remove_number ix candidate.id) document candidate

unfoldable pub clear_number_contents : NumberIndex → NumberIndex
clear_number_contents ix = record ix {
  buckets = record { values = []; values_by_id = [] };
  sorted_values = [];
}

unfoldable pub find_number_owner : NumberIndex → DocumentRecord → Option Text → Option Text
find_number_owner ix document exclude = elim (number_value (field_of document ix.field)) [
  | none ↦ none
  | some value ↦ find_owner number_equality ix.buckets value exclude
]

unfoldable pub find_number_duplicate : NumberIndex → Option (List Text)
find_number_duplicate ix = find_duplicate number_equality ix.buckets.values

-- ===== src/Indexes/NumberIndex/Range.antt =====
-- `scan` of indexes/number-index.ts: the range of a predicate, and the values in it.
use pocket_db.Prelude.{
  ℕ, max, min, Bool, true, ◌&&◌, Option, none, some, List, [], ◌∷◌, ltb, leb, if◌then◌else◌,
}
use pocket_db.Search.Values.{Text, QueryValue, text_same}
use pocket_db.Search.Queries.{
  Js, eq, gt, gte, lt, lte, in_values, FieldOperators, no_operators, operator_then,
}
use pocket_db.Indexes.Buckets.{IndexCandidate, collect_values, candidates_of}
use pocket_db.Indexes.NumberIndex.{NumberIndex, number_value, number_equality}

-- The bounds of `NumberRange`.
pub record Bounds : Type 0 where
  pub min_exclusive : Option ℕ
  pub min_inclusive : Option ℕ
  pub max_exclusive : Option ℕ
  pub max_inclusive : Option ℕ

pub record NumberRange : Type 0 where
  pub bounds : Bounds
  pub values : Option (List ℕ)

abbrev pub no_bounds : Bounds
no_bounds = record {
  min_exclusive = none;
  min_inclusive = none;
  max_exclusive = none;
  max_inclusive = none;
}

-- `Math.max(bound ?? Number.NEGATIVE_INFINITY, value)`
unfoldable pub raise : Option ℕ → ℕ → Option ℕ
raise none value = some value
raise (some bound) value = some (max bound value)

-- `Math.min(bound ?? Number.POSITIVE_INFINITY, value)`
unfoldable pub lower : Option ℕ → ℕ → Option ℕ
lower none value = some value
lower (some bound) value = some (min bound value)

-- `bound === null || ...`
unfoldable pub unless_null : Option ℕ → (ℕ → Bool) → Bool
unless_null none test = true
unless_null (some bound) test = test bound

unfoldable pub in_range : Bounds → ℕ → Bool
unfolding unless_null
in_range b value =
    unless_null b.min_exclusive (λ m. ltb m value)
    && unless_null b.min_inclusive (λ m. leb m value)
    && unless_null b.max_exclusive (λ m. ltb value m)
    && unless_null b.max_inclusive (λ m. leb value m)

-- `filter` by the bounds, of `valuesInRange` and of `numberPredicateRange`
unfoldable pub filter_range : Bounds → List ℕ → List ℕ
unfolding in_range
filter_range b [] = []
filter_range b (value ∷ values) =
    let rest = filter_range b values in if in_range b value then value ∷ rest else rest

-- `operator.values.filter(...)`
unfoldable pub finite_of : List QueryValue → List ℕ
finite_of [] = []
finite_of (operand ∷ operands) =
    let rest = finite_of operands in elim (number_value operand) [ none ↦ rest | some n ↦ n ∷ rest ]

-- A range without values, which an operand that is no finite number leads to.
abbrev pub empty_range : Bounds → Option NumberRange
empty_range b = some (record { bounds = b; values = some [] })

module _ (js : Js) where
  -- The loop of `numberPredicateRange`, with the bounds and the equality values so far.
  unfoldable pub range_loop : FieldOperators js → Bounds → Option (List ℕ) → Option NumberRange
  unfolding raise lower filter_range finite_of
  range_loop no_operators b none = some (record { bounds = b; values = none })
  range_loop no_operators b (some values) =
      some (record { bounds = b; values = some (filter_range b values) })
  range_loop (operator_then (eq operand) others) b values = elim (number_value operand) [
    | none ↦ empty_range b
    | some n ↦ range_loop others b (some (n ∷ []))
  ]
  range_loop (operator_then (in_values operands) others) b values =
      range_loop others b (some (finite_of operands))
  range_loop (operator_then (gt operand) others) b values = elim (number_value operand) [
    | none ↦ empty_range b
    | some n ↦ range_loop others (record b { min_exclusive = raise b.min_exclusive n }) values
  ]
  range_loop (operator_then (gte operand) others) b values = elim (number_value operand) [
    | none ↦ empty_range b
    | some n ↦ range_loop others (record b { min_inclusive = raise b.min_inclusive n }) values
  ]
  range_loop (operator_then (lt operand) others) b values = elim (number_value operand) [
    | none ↦ empty_range b
    | some n ↦ range_loop others (record b { max_exclusive = lower b.max_exclusive n }) values
  ]
  range_loop (operator_then (lte operand) others) b values = elim (number_value operand) [
    | none ↦ empty_range b
    | some n ↦ range_loop others (record b { max_inclusive = lower b.max_inclusive n }) values
  ]
  range_loop (operator_then _ others) b values = none

  unfoldable pub number_predicate_range : FieldOperators js → Option NumberRange
  unfolding range_loop
  number_predicate_range no_operators = none
  number_predicate_range (operator_then operator others) =
      range_loop (operator_then operator others) no_bounds none

  unfoldable pub scan_number : NumberIndex → Text → FieldOperators js → Option (List IndexCandidate)
  unfolding number_predicate_range filter_range
  scan_number ix field operators =
      let range = number_predicate_range operators in
      if text_same field ix.field
      then elim range [
        | none ↦ none
        | some r ↦
            let wanted : List ℕ = elim r.values [
              | none ↦ filter_range r.bounds ix.sorted_values
              | some values ↦ values
            ] in
            some (candidates_of (collect_values number_equality ix.buckets.values wanted []))
      ]
      else none

-- ===== src/Indexes/NumberIndex/Scan.antt =====
-- What the scans of indexes/number-index.ts find, and what they miss.
use pocket_db.Prelude.{
  ℕ, ◌≤◌, ◌<◌, ◌≡◌, refl, sym, ap, ◌∙◌, subst, ◌⊎◌, inl, inr, Bool, true, false, ◌&&◌, ◌||◌, Option,
  none, some, List, [], ◌∷◌, arith, dec_le, ltb, leb, ◌==◌, lt→ltb, le→leb, ==_iff, Bool-cases,
  Option-cases, same-different, none-some, lookup-Mem, some-injective, Memᴰ,
}
use native.Mathlib.Nat.{max-eq_left, max-eq_right, min-eq_left, min-eq_right}
use pocket_db.Search.Values.{
  Text, nan, minus_infinity, finite, plus_infinity, null, boolean, number, string, array, object,
  QueryValue, text_same, text_equality, text_same_refl, number_same,
}
use pocket_db.Search.Queries.{
  Js, exists, eq, ne, gt, gte, lt, lte, in_values, nin, regex, has_type, none_of, FieldOperator,
  FieldOperators, no_operators, operator_then,
}
use pocket_db.Search.Evaluate.{
  difference, is_before, is_equal, is_after, compare_values, values_equal, strictly_equal,
  texts_equal, is_array, is_document_object, any_equal, evaluate_field_operator, every_operator,
}
use pocket_db.Indexes.Buckets.{IndexCandidate, collect_values, candidates_of}
use pocket_db.Indexes.Buckets.Contents.{
  Contents, Represents, among, found_under, lookup-collect_values,
}
use pocket_db.Indexes.NumberIndex.{NumberIndex, number_value, number_equality}
use pocket_db.Indexes.NumberIndex.Range.{
  Bounds, NumberRange, no_bounds, raise, lower, unless_null, in_range, filter_range, finite_of,
  empty_range, range_loop, number_predicate_range, scan_number,
}

-- An operand that is no infinity.
abbrev pub IsFiniteBound : QueryValue → Type 0
IsFiniteBound (some (number minus_infinity)) = ⊥
IsFiniteBound (some (number plus_infinity)) = ⊥
IsFiniteBound _ = Unit

abbrev pub HasFiniteBound : {js : Js} → FieldOperator js → Type 0
HasFiniteBound (gt operand) = IsFiniteBound operand
HasFiniteBound (gte operand) = IsFiniteBound operand
HasFiniteBound (lt operand) = IsFiniteBound operand
HasFiniteBound (lte operand) = IsFiniteBound operand
HasFiniteBound _ = Unit

-- No comparison with an infinity.
abbrev pub HasFiniteBounds : {js : Js} → FieldOperators js → Type 0
HasFiniteBounds no_operators = Unit
HasFiniteBounds (operator_then operator others) = HasFiniteBound operator × HasFiniteBounds others

equal_number :
    (js : Js) (n : ℕ) (operand : QueryValue)
    → values_equal js (some (number (finite n))) operand ≡ true
    → number_value operand ≡ some n
unfolding values_equal strictly_equal texts_equal is_array is_document_object number_value
    number_same text_equality
equal_number js n none h = absurd cc
equal_number js n (some null) h = absurd cc
equal_number js n (some (boolean b)) h = absurd cc
equal_number js n (some (string s)) h = absurd cc
equal_number js n (some (number nan)) h = absurd cc
equal_number js n (some (number minus_infinity)) h = absurd cc
equal_number js n (some (number plus_infinity)) h = absurd cc
equal_number js n (some (number (finite m))) h = elim (Bool-cases (n == m)) [
  | inl e ↦ ap some (sym ((==_iff n m).0 e))
  | inr e ↦ absurd (ground arith)
]
equal_number js n (some (array vs)) h =
    let other : text_same (js.stringify (number (finite n))) (js.stringify (array vs)) ≡ false =
      same-different text_equality _ _ (js.array_text (number (finite n)) vs refl) in
    absurd (ground arith)
equal_number js n (some (object fs)) h = absurd cc

module _ (js : Js) (n : ℕ) where
  abbrev value : QueryValue
  value = some (number (finite n))

  -- The operand of a comparison that the number passes, and what it says of the number.
  after_bound :
      (operand : QueryValue)
      → IsFiniteBound operand
      → is_after (compare_values js value operand) ≡ true
      → (m : ℕ) × (number_value operand ≡ some m) × (m < n)
  unfolding compare_values difference is_after number_value
  after_bound (some (number (finite m))) f h = (m, refl, ground arith)
  after_bound (some (number nan)) f h = absurd cc
  after_bound (some (number minus_infinity)) f h = absurd f
  after_bound (some (number plus_infinity)) f h = absurd f
  after_bound none f h = absurd cc
  after_bound (some null) f h = absurd cc
  after_bound (some (boolean b)) f h = absurd cc
  after_bound (some (string s)) f h = absurd cc
  after_bound (some (array vs)) f h = absurd cc
  after_bound (some (object fs)) f h = absurd cc

  before_bound :
      (operand : QueryValue)
      → IsFiniteBound operand
      → is_before (compare_values js value operand) ≡ true
      → (m : ℕ) × (number_value operand ≡ some m) × (n < m)
  unfolding compare_values difference is_before number_value
  before_bound (some (number (finite m))) f h = (m, refl, ground arith)
  before_bound (some (number nan)) f h = absurd cc
  before_bound (some (number minus_infinity)) f h = absurd f
  before_bound (some (number plus_infinity)) f h = absurd f
  before_bound none f h = absurd cc
  before_bound (some null) f h = absurd cc
  before_bound (some (boolean b)) f h = absurd cc
  before_bound (some (string s)) f h = absurd cc
  before_bound (some (array vs)) f h = absurd cc
  before_bound (some (object fs)) f h = absurd cc

  equal_bound :
      (operand : QueryValue)
      → IsFiniteBound operand
      → is_equal (compare_values js value operand) ≡ true
      → (m : ℕ) × (number_value operand ≡ some m) × (n ≡ m)
  unfolding compare_values difference is_equal number_value
  equal_bound (some (number (finite m))) f h = (m, refl, ground arith)
  equal_bound (some (number nan)) f h = absurd cc
  equal_bound (some (number minus_infinity)) f h = absurd f
  equal_bound (some (number plus_infinity)) f h = absurd f
  equal_bound none f h = absurd cc
  equal_bound (some null) f h = absurd cc
  equal_bound (some (boolean b)) f h = absurd cc
  equal_bound (some (string s)) f h = absurd cc
  equal_bound (some (array vs)) f h = absurd cc
  equal_bound (some (object fs)) f h = absurd cc

  module _ (test : ℕ → Bool) where
    raised :
        (o : Option ℕ) (m : ℕ)
        → unless_null o test ≡ true
        → test m ≡ true
        → unless_null (raise o m) test ≡ true
    unfolding unless_null raise
    raised none m h t = t
    raised (some bound) m h t = elim (dec_le m bound) [
      | yes le ↦ rw (max-eq_left le) h
      | no more ↦ rw (max-eq_right {n = bound} {m = m} (omega (arith, more))) t
    ]

    lowered :
        (o : Option ℕ) (m : ℕ)
        → unless_null o test ≡ true
        → test m ≡ true
        → unless_null (lower o m) test ≡ true
    unfolding unless_null lower
    lowered none m h t = t
    lowered (some bound) m h t = elim (dec_le m bound) [
      | yes le ↦ rw (min-eq_right le) t
      | no more ↦ rw (min-eq_left {n = bound} {m = m} (omega (arith, more))) h
    ]

  -- The number is within the bounds so far.
  record Within (b : Bounds) : Type 0 where
    over : unless_null b.min_exclusive (λ m. ltb m n) ≡ true
    from : unless_null b.min_inclusive (λ m. leb m n) ≡ true
    under : unless_null b.max_exclusive (λ m. ltb n m) ≡ true
    upto : unless_null b.max_inclusive (λ m. leb n m) ≡ true

  Within-in_range : (b : Bounds) → Within b → in_range b n ≡ true
  unfolding in_range
  Within-in_range b w = rw (w.over, w.from, w.under, w.upto) refl

  -- The number is among the equality values so far, if there are any.
  abbrev Among : Option (List ℕ) → Type 0
  Among none = Unit
  Among (some values) = among number_equality n values ≡ true

  among-filter_range :
      (b : Bounds) (values : List ℕ)
      → Within b
      → among number_equality n values ≡ true
      → among number_equality n (filter_range b values) ≡ true
  unfolding filter_range number_equality
  among-filter_range b [] w h = cc
  among-filter_range b (v ∷ values) w h = elim (Bool-cases (v == n)) [
    | inl e ↦
        let inside : in_range b v ≡ true =
          ap (in_range b) ((==_iff v n).0 e) ∙ Within-in_range b w in
        rw (filter_range, inside, e) refl
    | inr e ↦
        let later =
          among-filter_range b values w
            (sym (ap (λ (t : Bool). t || among number_equality n values) e) ∙ h) in
        elim (Bool-cases (in_range b v)) [
          | inl p ↦ rw (filter_range, p, e) later
          | inr p ↦ rw (filter_range, p) later
        ]
  ]

  among-finite_of :
      (operands : List QueryValue)
      → any_equal js value operands ≡ true
      → among number_equality n (finite_of operands) ≡ true
  unfolding any_equal finite_of
  among-finite_of [] h = cc
  among-finite_of (operand ∷ operands) h = elim (Bool-cases (values_equal js value operand)) [
    | inl e ↦ rw (finite_of, equal_number js n operand e, number_equality.same-refl n) refl
    | inr e ↦
        let later =
          among-finite_of operands
            (sym (ap (λ (t : Bool). t || any_equal js value operands) e) ∙ h) in
        elim (Option-cases (number_value operand)) [
          | inl p ↦ rw (finite_of, p) later
          | inr (m, p) ↦
              rw (finite_of, p)
                (elim (Bool-cases (number_equality.same m n)) [
                  | inl q ↦ rw q refl
                  | inr q ↦ rw q later
                ])
        ]
  ]

  both : (a b : Bool) → (a && b) ≡ true → (a ≡ true) × (b ≡ true)
  both true b h = (refl, h)
  both false b h = absurd cc

  either : (a b : Bool) → (a || b) ≡ true → (a ≡ true) ⊎ (b ≡ true)
  either true b h = inl refl
  either false b h = inr h

  -- The operand of a comparison that allows equality.
  at_least :
      (operand : QueryValue)
      → IsFiniteBound operand
      → (is_after (compare_values js value operand) || is_equal (compare_values js value operand))
        ≡ true
      → (m : ℕ) × (number_value operand ≡ some m) × (m ≤ n)
  at_least operand f h = elim (either _ _ h) [
    | inl a ↦ let (m, p, l) = after_bound operand f a in (m, p, omega (arith, l))
    | inr e ↦ let (m, p, l) = equal_bound operand f e in (m, p, omega (arith, l))
  ]

  at_most :
      (operand : QueryValue)
      → IsFiniteBound operand
      → (is_before (compare_values js value operand) || is_equal (compare_values js value operand))
        ≡ true
      → (m : ℕ) × (number_value operand ≡ some m) × (n ≤ m)
  at_most operand f h = elim (either _ _ h) [
    | inl a ↦ let (m, p, l) = before_bound operand f a in (m, p, omega (arith, l))
    | inr e ↦ let (m, p, l) = equal_bound operand f e in (m, p, omega (arith, l))
  ]

  -- What a range is worth for the number: it is within the bounds, and among the values.
  abbrev Finds : NumberRange → Type 0
  Finds r = Within r.bounds × Among r.values

  range-Finds :
      (tests : FieldOperators js) (b : Bounds) (values : Option (List ℕ)) {r : NumberRange}
      → range_loop js tests b values ≡ some r
      → every_operator js tests value true ≡ true
      → HasFiniteBounds tests
      → Within b
      → Among values
      → Finds r
  unfolding range_loop evaluate_field_operator
  range-Finds no_operators b none h sat f w a = subst Finds (some-injective _ _ h) (w, tt)
  range-Finds no_operators b (some values) h sat f w a =
      subst Finds (some-injective _ _ h) (w, among-filter_range b values w a)
  range-Finds (operator_then (eq operand) others) b values h sat f w a =
      let (first, rest) = both (values_equal js value operand) _ sat in
      let p = equal_number js n operand first in
      let step : range_loop js (operator_then (eq operand) others) b values
          ≡ range_loop js others b (some (n ∷ [])) =
        rw (range_loop, p) refl in
      range-Finds others b (some (n ∷ [])) (sym step ∙ h) rest f.1 w
        (rw (number_equality.same-refl n) refl)
  range-Finds (operator_then (in_values operands) others) b values h sat f w a =
      let (first, rest) = both (any_equal js value operands) _ sat in
      range-Finds others b (some (finite_of operands)) h rest f.1 w (among-finite_of operands first)
  range-Finds (operator_then (gt operand) others) b values h sat f w a =
      let (first, rest) = both (is_after (compare_values js value operand)) _ sat in
      let (m, p, l) = after_bound operand f.0 first in
      let b' = record b { min_exclusive = raise b.min_exclusive m } in
      let step : range_loop js (operator_then (gt operand) others) b values
          ≡ range_loop js others b' values =
        rw (range_loop, p) refl in
      range-Finds others b' values (sym step ∙ h) rest f.1
        (record {
          over = raised (λ k. ltb k n) b.min_exclusive m w.over (lt→ltb m n l);
          from = w.from;
          under = w.under;
          upto = w.upto;
        })
        a
  range-Finds (operator_then (gte operand) others) b values h sat f w a =
      let (first, rest) = both (is_after (compare_values js value operand) || _) _ sat in
      let (m, p, l) = at_least operand f.0 first in
      let b' = record b { min_inclusive = raise b.min_inclusive m } in
      let step : range_loop js (operator_then (gte operand) others) b values
          ≡ range_loop js others b' values =
        rw (range_loop, p) refl in
      range-Finds others b' values (sym step ∙ h) rest f.1
        (record {
          over = w.over;
          from = raised (λ k. leb k n) b.min_inclusive m w.from (le→leb m n l);
          under = w.under;
          upto = w.upto;
        })
        a
  range-Finds (operator_then (lt operand) others) b values h sat f w a =
      let (first, rest) = both (is_before (compare_values js value operand)) _ sat in
      let (m, p, l) = before_bound operand f.0 first in
      let b' = record b { max_exclusive = lower b.max_exclusive m } in
      let step : range_loop js (operator_then (lt operand) others) b values
          ≡ range_loop js others b' values =
        rw (range_loop, p) refl in
      range-Finds others b' values (sym step ∙ h) rest f.1
        (record {
          over = w.over;
          from = w.from;
          under = lowered (λ k. ltb n k) b.max_exclusive m w.under (lt→ltb n m l);
          upto = w.upto;
        })
        a
  range-Finds (operator_then (lte operand) others) b values h sat f w a =
      let (first, rest) = both (is_before (compare_values js value operand) || _) _ sat in
      let (m, p, l) = at_most operand f.0 first in
      let b' = record b { max_inclusive = lower b.max_inclusive m } in
      let step : range_loop js (operator_then (lte operand) others) b values
          ≡ range_loop js others b' values =
        rw (range_loop, p) refl in
      range-Finds others b' values (sym step ∙ h) rest f.1
        (record {
          over = w.over;
          from = w.from;
          under = w.under;
          upto = lowered (λ k. leb n k) b.max_inclusive m w.upto (le→leb n m l);
        })
        a
  range-Finds (operator_then (exists t) others) b values h sat f w a = absurd cc
  range-Finds (operator_then (ne operand) others) b values h sat f w a = absurd cc
  range-Finds (operator_then (nin operands) others) b values h sat f w a = absurd cc
  range-Finds (operator_then (regex r) others) b values h sat f w a = absurd cc
  range-Finds (operator_then (has_type types) others) b values h sat f w a = absurd cc
  range-Finds (operator_then (none_of inner) others) b values h sat f w a = absurd cc

  everywhere : Within no_bounds
  unfolding unless_null
  everywhere = record { over = refl; from = refl; under = refl; upto = refl }

  predicate_range-Finds :
      (tests : FieldOperators js) {r : NumberRange}
      → number_predicate_range js tests ≡ some r
      → every_operator js tests value true ≡ true
      → HasFiniteBounds tests
      → Finds r
  unfolding number_predicate_range
  predicate_range-Finds no_operators h sat f = absurd cc
  predicate_range-Finds (operator_then operator others) h sat f =
      range-Finds (operator_then operator others) no_bounds none h sat f everywhere tt

module _ (js : Js) (ix : NumberIndex) where
  -- The values under which a scan looks.
  abbrev looked_up : NumberRange → List ℕ
  looked_up r = elim r.values [
    | none ↦ filter_range r.bounds ix.sorted_values
    | some values ↦ values
  ]

  scan_number_answer :
      (tests : FieldOperators js) (o : Option NumberRange)
      → number_predicate_range js tests ≡ o
      → scan_number js ix ix.field tests ≡ elim o [
        | none ↦ none
        | some r ↦
            some (candidates_of (collect_values number_equality ix.buckets.values (looked_up r) []))
      ]
  unfolding scan_number
  scan_number_answer tests o p = rw (scan_number, text_same_refl ix.field, p) refl

  among-looked_up :
      (n : ℕ) (r : NumberRange)
      → Finds js n r
      → among number_equality n ix.sorted_values ≡ true
      → among number_equality n (looked_up r) ≡ true
  among-looked_up n r (w, a) there = elim (Option-cases r.values) [
    | inl p ↦ rw p (among-filter_range js n r.bounds ix.sorted_values w there)
    | inr (values, p) ↦ rw p (subst (Among js n) p a)
  ]

  -- A scan that the number index answers finds every document that is indexed under a finite number
  -- which satisfies the operators of the predicate, when these compare with no infinity and the number is
  -- among the sorted values.
  pub scan_number_complete :
      {contents : Contents ℕ} (tests : FieldOperators js) (id : Text) (n : ℕ)
      (candidate : IndexCandidate) {found : List IndexCandidate}
      → Represents number_equality ix.buckets contents
      → contents id ≡ some (n, candidate)
      → among number_equality n ix.sorted_values ≡ true
      → HasFiniteBounds tests
      → every_operator js tests (some (number (finite n))) true ≡ true
      → scan_number js ix ix.field tests ≡ some found
      → Memᴰ candidate found
  scan_number_complete {contents} tests id n candidate r there listed f sat h =
      elim (Option-cases (number_predicate_range js tests)) [
        | inl p ↦ absurd (none-some (sym (scan_number_answer tests none p) ∙ h))
        | inr (range, p) ↦
            let inside =
              among-looked_up n range (predicate_range-Finds js n tests p sat f) listed in
            let found_at =
              lookup-collect_values number_equality (looked_up range) [] id r
              ∙ ap
                  (λ (o : Option (ℕ × IndexCandidate)).
                    found_under number_equality (looked_up range) o none)
                  there
              ∙ rw inside refl in
            subst (λ (l : List IndexCandidate). Memᴰ candidate l)
              (some-injective _ _ (sym (scan_number_answer tests (some range) p) ∙ h))
              (lookup-Mem text_equality id
                (collect_values number_equality ix.buckets.values (looked_up range) []) found_at)
      ]

  -- Whatever a number index holds, its answer to a comparison with minus infinity is that there is no
  -- candidate, although every finite number is greater.
  pub scan_number_misses_infinity :
      (n : ℕ)
      → (every_operator js
            (operator_then (gt (some (number minus_infinity))) no_operators)
            (some (number (finite n)))
            true
          ≡ true)
        × (scan_number js ix ix.field
              (operator_then (gt (some (number minus_infinity))) no_operators)
            ≡ some [])
  unfolding number_predicate_range range_loop number_value evaluate_field_operator compare_values
      difference is_after collect_values
  scan_number_misses_infinity n = (
    refl,
    scan_number_answer (operator_then (gt (some (number minus_infinity))) no_operators)
        (empty_range no_bounds) refl,
  )

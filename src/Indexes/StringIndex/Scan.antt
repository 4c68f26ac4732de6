-- ===== src/Indexes/StringIndex/Scan.antt =====
-- What a string index holds, and what its scans find.
use pocket_db.Indexes.Buckets.Contents.{Represents-replaced}
use pocket_db.Prelude.{
  ◌≡◌, refl, sym, ap, ◌∙◌, subst, inl, inr, Bool, true, false, ◌&&◌, ◌||◌, Option, none, some, List,
  [], ◌∷◌, ◌++◌, arith, Bool-cases, Option-cases, same-different, none-some, lookup-Mem,
  some-injective, Memᴰ,
}
use pocket_db.Search.Values.{
  Text, null, boolean, number, string, array, object, QueryValue, DocumentRecord, text_same,
  text_equality, field_of, text_same→≡, text_same_refl,
}
use pocket_db.Search.Queries.{
  Js, exists, eq, ne, gt, gte, lt, lte, in_values, nin, regex, has_type, none_of, FieldOperators,
  no_operators, operator_then,
}
use pocket_db.Search.Evaluate.{
  values_equal, strictly_equal, texts_equal, is_array, is_document_object, any_equal,
  evaluate_field_operator, every_operator,
}
use pocket_db.Indexes.Buckets.{IndexCandidate, collect_values, candidates_of}
use pocket_db.Indexes.Buckets.Contents.{
  Contents, changed, Represents, Represents-bucket_remove, among, found_under,
  lookup-collect_values,
}
use pocket_db.Indexes.StringIndex.{
  StringIndex, string_value, add, remove, update, strings_of, collect_loop,
  collect_string_equality_values, scan,
}

-- The contents after a document has been written.
abbrev pub written : Text → Contents Text → DocumentRecord → IndexCandidate → Contents Text
written field contents document candidate =
    changed contents candidate.id (elim (string_value (field_of document field)) [
      | none ↦ none
      | some value ↦ some (value, candidate)
    ])

-- An update replaces what the index holds of the document, and nothing else.
pub Represents-update :
    (ix : StringIndex) {contents : Contents Text} (document : DocumentRecord)
    (candidate : IndexCandidate)
    → Represents text_equality ix.buckets contents
    → Represents text_equality
        (update ix document candidate).buckets
        (written ix.field contents document candidate)
unfolding update add remove
Represents-update ix {contents} document candidate r =
    elim (Option-cases (string_value (field_of document ix.field))) [
      | inl h ↦ rw (update, add, h) (Represents-bucket_remove text_equality candidate.id r)
      | inr (value, h) ↦ rw (update, add, h) (Represents-replaced text_equality value candidate r)
    ]

equal_string :
    (js : Js) (s : Text) (operand : QueryValue)
    → values_equal js (some (string s)) operand ≡ true
    → string_value operand ≡ some s
unfolding values_equal strictly_equal texts_equal is_array is_document_object string_value
    text_equality
equal_string js s none h = absurd cc
equal_string js s (some null) h = absurd cc
equal_string js s (some (boolean b)) h = absurd cc
equal_string js s (some (number n)) h = absurd cc
equal_string js s (some (string t)) h = elim (Bool-cases (text_same s t)) [
  | inl e ↦ ap some (sym (text_same→≡ s t e))
  | inr e ↦ absurd (ground arith)
]
equal_string js s (some (array vs)) h =
    let other : text_same (js.stringify (string s)) (js.stringify (array vs)) ≡ false =
      same-different text_equality _ _ (js.array_text (string s) vs refl) in
    absurd (ground arith)
equal_string js s (some (object fs)) h = absurd cc

module _ (js : Js) (s : Text) where
  among-append :
      (values more : List Text)
      → among text_equality s (values ++ more)
        ≡ (among text_equality s values || among text_equality s more)
  among-append [] more = refl
  among-append (v ∷ values) more =
      ap (λ (b : Bool). text_equality.same v s || b) (among-append values more)
      ∙ or_assoc (text_equality.same v s) _ _
    where
      or_assoc : (a b c : Bool) → (a || (b || c)) ≡ ((a || b) || c)
      or_assoc true b c = refl
      or_assoc false b c = refl

  among_first :
      (operand : QueryValue) (operands : List QueryValue)
      → string_value operand ≡ some s
      → among text_equality s (strings_of (operand ∷ operands)) ≡ true
  unfolding strings_of string_value
  among_first (some (string t)) operands h =
      let same : text_equality.same t s ≡ true =
        ap (λ (u : Text). text_equality.same u s) (some-injective _ _ h)
        ∙ text_equality.same-refl s in
      rw same refl
  among_first none operands h = absurd cc
  among_first (some null) operands h = absurd cc
  among_first (some (boolean b)) operands h = absurd cc
  among_first (some (number n)) operands h = absurd cc
  among_first (some (array vs)) operands h = absurd cc
  among_first (some (object fs)) operands h = absurd cc

  among_rest :
      (operand : QueryValue) (operands : List QueryValue)
      → among text_equality s (strings_of operands) ≡ true
      → among text_equality s (strings_of (operand ∷ operands)) ≡ true
  unfolding strings_of
  among_rest (some (string t)) operands h = elim (Bool-cases (text_equality.same t s)) [
    | inl e ↦ rw e refl
    | inr e ↦ rw e h
  ]
  among_rest none operands h = h
  among_rest (some null) operands h = h
  among_rest (some (boolean b)) operands h = h
  among_rest (some (number n)) operands h = h
  among_rest (some (array vs)) operands h = h
  among_rest (some (object fs)) operands h = h

  among-strings_of :
      (operands : List QueryValue)
      → any_equal js (some (string s)) operands ≡ true
      → among text_equality s (strings_of operands) ≡ true
  unfolding any_equal strings_of
  among-strings_of [] h = cc
  among-strings_of (operand ∷ operands) h =
      elim (Bool-cases (values_equal js (some (string s)) operand)) [
        | inl e ↦ among_first operand operands (equal_string js s operand e)
        | inr e ↦ among_rest operand operands (
            among-strings_of operands
              (sym (ap (λ (b : Bool). b || any_equal js (some (string s)) operands) e) ∙ h))
      ]

  both : (a b : Bool) → (a && b) ≡ true → (a ≡ true) × (b ≡ true)
  both true b h = (refl, h)
  both false b h = absurd cc

  eq_step :
      (operand : QueryValue) (others : FieldOperators js) (values : List Text) {wanted : List Text}
      → string_value operand ≡ some s
      → collect_loop js (operator_then (eq operand) others) values ≡ some wanted
      → collect_loop js others (values ++ (s ∷ [])) ≡ some wanted
  unfolding collect_loop
  eq_step operand others values p h =
      let opened : collect_loop js (operator_then (eq operand) others) values
          ≡ collect_loop js others (values ++ (s ∷ [])) =
        rw (collect_loop, p) refl in
      sym opened ∙ h

  -- A loop over operators that the string satisfies keeps the string among the values.
  loop_keeps :
      (operators : FieldOperators js) (values : List Text) {wanted : List Text}
      → collect_loop js operators values ≡ some wanted
      → every_operator js operators (some (string s)) true ≡ true
      → among text_equality s values ≡ true
      → among text_equality s wanted ≡ true
  unfolding collect_loop evaluate_field_operator
  loop_keeps no_operators values h sat there =
      ap (among text_equality s) (sym (some-injective _ _ h)) ∙ there
  loop_keeps (operator_then (eq operand) others) values h sat there =
      let (first, rest) = both (values_equal js (some (string s)) operand) _ sat in
      let operand_is = equal_string js s operand first in
      loop_keeps others (values ++ (s ∷ [])) (eq_step operand others values operand_is h) rest (
        among-append values (s ∷ []) ∙ ap (λ (b : Bool). b || among text_equality s (s ∷ [])) there)
  loop_keeps (operator_then (in_values operands) others) values h sat there =
      let (first, rest) = both (any_equal js (some (string s)) operands) _ sat in
      loop_keeps others (values ++ strings_of operands) h rest (
        among-append values (strings_of operands)
        ∙ ap (λ (b : Bool). b || among text_equality s (strings_of operands)) there)
  loop_keeps (operator_then (exists b) others) values h sat there = absurd cc
  loop_keeps (operator_then (ne operand) others) values h sat there = absurd cc
  loop_keeps (operator_then (gt operand) others) values h sat there = absurd cc
  loop_keeps (operator_then (gte operand) others) values h sat there = absurd cc
  loop_keeps (operator_then (lt operand) others) values h sat there = absurd cc
  loop_keeps (operator_then (lte operand) others) values h sat there = absurd cc
  loop_keeps (operator_then (nin operands) others) values h sat there = absurd cc
  loop_keeps (operator_then (regex r) others) values h sat there = absurd cc
  loop_keeps (operator_then (has_type types) others) values h sat there = absurd cc
  loop_keeps (operator_then (none_of inner) others) values h sat there = absurd cc

  among_itself : among text_equality s (s ∷ []) ≡ true
  among_itself = rw (text_equality.same-refl s) refl

  -- A scan that the index answers looks under every string that satisfies the operators.
  pub among_wanted :
      (operators : FieldOperators js) {wanted : List Text}
      → collect_string_equality_values js operators ≡ some wanted
      → every_operator js operators (some (string s)) true ≡ true
      → among text_equality s wanted ≡ true
  unfolding collect_string_equality_values collect_loop evaluate_field_operator
  among_wanted no_operators h sat = absurd cc
  among_wanted (operator_then (eq operand) others) h sat =
      let (first, rest) = both (values_equal js (some (string s)) operand) _ sat in
      loop_keeps others (s ∷ []) (eq_step operand others [] (equal_string js s operand first) h)
        rest among_itself
  among_wanted (operator_then (in_values operands) others) h sat =
      let (first, rest) = both (any_equal js (some (string s)) operands) _ sat in
      loop_keeps others (strings_of operands) h rest (among-strings_of operands first)
  among_wanted (operator_then (exists b) others) h sat = absurd cc
  among_wanted (operator_then (ne operand) others) h sat = absurd cc
  among_wanted (operator_then (gt operand) others) h sat = absurd cc
  among_wanted (operator_then (gte operand) others) h sat = absurd cc
  among_wanted (operator_then (lt operand) others) h sat = absurd cc
  among_wanted (operator_then (lte operand) others) h sat = absurd cc
  among_wanted (operator_then (nin operands) others) h sat = absurd cc
  among_wanted (operator_then (regex r) others) h sat = absurd cc
  among_wanted (operator_then (has_type types) others) h sat = absurd cc
  among_wanted (operator_then (none_of inner) others) h sat = absurd cc

module _ (js : Js) (ix : StringIndex) where
  answer :
      (tests : FieldOperators js) (o : Option (List Text))
      → collect_string_equality_values js tests ≡ o
      → scan js ix ix.field tests ≡ elim o [
        | none ↦ none
        | some wanted ↦
            some (candidates_of (collect_values text_equality ix.buckets.values wanted []))
      ]
  unfolding scan
  answer tests o p = rw (scan, text_same_refl ix.field, p) refl

  scan_answer :
      (operators : FieldOperators js) {found : List IndexCandidate}
      → scan js ix ix.field operators ≡ some found
      → (wanted : List Text) × (collect_string_equality_values js operators ≡ some wanted)
        × (candidates_of (collect_values text_equality ix.buckets.values wanted []) ≡ found)
  unfolding scan
  scan_answer operators h = elim (Option-cases (collect_string_equality_values js operators)) [
    | inl p ↦ absurd (none-some (sym (answer operators none p) ∙ h))
    | inr (wanted, p) ↦ (wanted, p, some-injective _ _ (sym (answer operators (some wanted) p) ∙ h))
  ]

  -- A scan that the index answers finds every document that is indexed under a string which satisfies
  -- the operators of the predicate.
  pub scan_complete :
      {contents : Contents Text} (operators : FieldOperators js) (id : Text) (s : Text)
      (candidate : IndexCandidate) {found : List IndexCandidate}
      → Represents text_equality ix.buckets contents
      → contents id ≡ some (s, candidate)
      → every_operator js operators (some (string s)) true ≡ true
      → scan js ix ix.field operators ≡ some found
      → Memᴰ candidate found
  scan_complete {contents} operators id s candidate r there sat h =
      let (wanted, collected, all) = scan_answer operators h in
      let inside = among_wanted js s operators collected sat in
      let found_at =
        lookup-collect_values text_equality wanted [] id r
        ∙ ap (λ (o : Option (Text × IndexCandidate)). found_under text_equality wanted o none) there
        ∙ rw inside refl in
      subst (λ (l : List IndexCandidate). Memᴰ candidate l) all
        (lookup-Mem text_equality id (collect_values text_equality ix.buckets.values wanted [])
          found_at)

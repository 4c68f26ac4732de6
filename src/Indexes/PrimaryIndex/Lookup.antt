-- ===== src/Indexes/PrimaryIndex/Lookup.antt =====
-- What a scan of the primary index finds.
use pocket_db.Prelude.{
  ◌≡◌, refl, sym, ap, ◌∙◌, subst, inl, inr, Bool, true, ◌||◌, Option, none, some, List, [], ◌∷◌,
  ◌++◌, Bool-cases, Option-cases, none-some, some-injective, Memᴰ,
}
use pocket_db.Search.Values.{Text, QueryValue, string, text_equality, text_same_refl}
use pocket_db.Search.Queries.{Js, FieldOperators, no_operators, operator_then, in_values}
use pocket_db.Search.Evaluate.{every_operator}
use pocket_db.Indexes.Buckets.{IndexCandidate}
use pocket_db.Indexes.Buckets.Contents.{among}
use pocket_db.Indexes.StringIndex.{
  collect_string_equality_values, collect_loop, strings_of, string_value,
}
use pocket_db.Indexes.StringIndex.Scan.{among_wanted}
use pocket_db.Indexes.PrimaryIndex.{PrimaryIndex, id_field, get_candidate, candidates_at, scan_ids}

candidates_at-Mem :
    (ix : PrimaryIndex) (ids : List Text) (id : Text) (candidate : IndexCandidate)
    → get_candidate ix id ≡ some candidate
    → among text_equality id ids ≡ true
    → Memᴰ candidate (candidates_at ix ids)
unfolding candidates_at
candidates_at-Mem ix [] id candidate h inside = absurd cc
candidates_at-Mem ix (first ∷ ids) id candidate h inside =
    elim (Bool-cases (text_equality.same first id)) [
      | inl e ↦
          let here : get_candidate ix first ≡ some candidate =
            ap (get_candidate ix) (text_equality.same→≡ first id e) ∙ h in
          rw (candidates_at, here) (Memᴰ.head refl)
      | inr e ↦
          let later =
            candidates_at-Mem ix ids id candidate h
              (sym (ap (λ (b : Bool). b || among text_equality id ids) e) ∙ inside) in
          elim (Option-cases (get_candidate ix first)) [
            | inl p ↦ rw (candidates_at, p) later
            | inr (c, p) ↦ rw (candidates_at, p) (Memᴰ.tail later)
          ]
    ]

candidates_at-middle :
    (ix : PrimaryIndex) (front : List Text) (id : Text) (back : List Text)
    (candidate : IndexCandidate)
    → get_candidate ix id ≡ some candidate
    → candidates_at ix (front ++ (id ∷ back))
      ≡ candidates_at ix front ++ (candidate ∷ candidates_at ix back)
unfolding candidates_at
candidates_at-middle ix [] id back candidate h = rw (candidates_at, h) refl
candidates_at-middle ix (first ∷ front) id back candidate h =
    let rest = candidates_at-middle ix front id back candidate h in
    elim (Option-cases (get_candidate ix first)) [
      | inl p ↦ rw (candidates_at, p) rest
      | inr (c, p) ↦ rw (candidates_at, p) (ap (λ (l : List IndexCandidate). c ∷ l) rest)
    ]

-- The list of an `$in` of strings.
abbrev pub values_of_ids : List Text → List QueryValue
values_of_ids [] = []
values_of_ids (id ∷ ids) = some (string id) ∷ values_of_ids ids

strings_of_ids : (ids : List Text) → strings_of (values_of_ids ids) ≡ ids
unfolding strings_of string_value
strings_of_ids [] = refl
strings_of_ids (id ∷ ids) = ap (λ (l : List Text). id ∷ l) (strings_of_ids ids)

module _ (js : Js) (ix : PrimaryIndex) where
  scan_ids_answer :
      (tests : FieldOperators js) (o : Option (List Text))
      → collect_string_equality_values js tests ≡ o
      → scan_ids js ix id_field tests
        ≡ elim o [ none ↦ none | some wanted ↦ some (candidates_at ix wanted) ]
  unfolding scan_ids
  scan_ids_answer tests o p = rw (scan_ids, text_same_refl id_field, p) refl

  -- A scan that the primary index answers finds every document whose identifier satisfies the operators.
  pub scan_ids_complete :
      (operators : FieldOperators js) (id : Text) (candidate : IndexCandidate)
      {found : List IndexCandidate}
      → get_candidate ix id ≡ some candidate
      → every_operator js operators (some (string id)) true ≡ true
      → scan_ids js ix id_field operators ≡ some found
      → Memᴰ candidate found
  scan_ids_complete operators id candidate h sat answered =
      elim (Option-cases (collect_string_equality_values js operators)) [
        | inl p ↦ absurd (none-some (sym (scan_ids_answer operators none p) ∙ answered))
        | inr (wanted, p) ↦
            subst (λ (l : List IndexCandidate). Memᴰ candidate l)
              (some-injective _ _ (sym (scan_ids_answer operators (some wanted) p) ∙ answered))
              (candidates_at-Mem ix wanted id candidate h (among_wanted js id operators p sat))
      ]

  -- The candidates of the identifiers of an `$in`, in the order of the list.
  scan_ids_in :
      (ids : List Text)
      → scan_ids js ix id_field (operator_then (in_values (values_of_ids ids)) no_operators)
        ≡ some (candidates_at ix ids)
  unfolding collect_string_equality_values collect_loop
  scan_ids_in ids =
      scan_ids_answer (operator_then (in_values (values_of_ids ids)) no_operators)
        (some (strings_of (values_of_ids ids))) refl
      ∙ ap (λ (l : List Text). some (candidates_at ix l)) (strings_of_ids ids)

  -- When an identifier stands at two places of the list of an `$in`, with any identifiers before,
  -- between and behind, the document is a candidate at both places: the scan drops no repetition.
  pub scan_ids_repeats :
      (before between behind : List Text) (id : Text) (candidate : IndexCandidate)
      → get_candidate ix id ≡ some candidate
      → scan_ids js ix id_field (
          operator_then
            (in_values (values_of_ids (before ++ (id ∷ (between ++ (id ∷ behind))))))
            no_operators)
        ≡ some (
            candidates_at ix before
            ++ (candidate ∷ (candidates_at ix between ++ (candidate ∷ candidates_at ix behind))))
  scan_ids_repeats before between behind id candidate h =
      scan_ids_in (before ++ (id ∷ (between ++ (id ∷ behind))))
      ∙ ap some (
          candidates_at-middle ix before id (between ++ (id ∷ behind)) candidate h
          ∙ ap (λ (l : List IndexCandidate). candidates_at ix before ++ (candidate ∷ l))
              (candidates_at-middle ix between id behind candidate h))

-- ===== src/Indexes/Manager/Plan.antt =====
-- What `plan` of indexes/index-manager.ts finds.
use pocket_db.Prelude.{
  ℕ, ◌≡◌, refl, sym, ap, ◌∙◌, subst, inl, inr, Bool, true, false, ◌&&◌, Option, none, some, List,
  [], ◌∷◌, ap₂, ltb, if◌then◌else◌, Bool-cases, Option-cases, length, All, All-append, All-suffix,
  All-prefix, none-some, lookup, lookup-All, lookup-Mem, Memᴰ,
}
use pocket_db.Search.Values.{
  Text, finite, number, string, QueryValue, DocumentRecord, text_same, text_equality, has_own,
  field_of, text_same→≡,
}
use pocket_db.Search.Queries.{
  Js, FieldOperators, CompiledQuery, and, or, nor, field_query, CompiledQueries, no_queries,
  query_then,
}
use pocket_db.Search.Evaluate.{every_operator, evaluate_compiled_query, every_query}
use pocket_db.Indexes.Buckets.{IndexCandidate}
use pocket_db.Indexes.Buckets.Contents.{Contents, Represents, among}
use pocket_db.Indexes.StringIndex.Scan.{scan_complete}
use pocket_db.Indexes.NumberIndex.{number_equality}
use pocket_db.Indexes.NumberIndex.Scan.{HasFiniteBounds, scan_number_complete}
use pocket_db.Indexes.PrimaryIndex.{PrimaryIndex, id_field, get_candidate, snapshot, scan_ids}
use pocket_db.Indexes.PrimaryIndex.Lookup.{scan_ids_complete}
use pocket_db.Indexes.Manager.{
  IndexDefinition, QueryIndex, strings, numbers, IndexManager, definition_of, field_predicates,
  all_field_predicates, Selection, select, scan_index, primary_definition, consider, plan_loop,
  plan,
}

has_own_of_field :
    (document : DocumentRecord) (field : Text) {v : _}
    → field_of document field ≡ some v
    → has_own document field ≡ true
unfolding field_of has_own
has_own_of_field document field h = elim (Option-cases (lookup text_equality field document)) [
  | inl p ↦ absurd (none-some (sym (rw (field_of, p) refl) ∙ h))
  | inr (v, p) ↦ rw (has_own, p) refl
]

module _ (document : DocumentRecord) (id : Text) (candidate : IndexCandidate) where
  -- A secondary index knows the document: its field holds a value of the index's type, under which the
  -- index holds the candidate.
  abbrev pub Knows : QueryIndex → Type 0
  Knows (strings ix) =
      (contents : Contents Text) × Represents text_equality ix.buckets contents
      × ((s : Text) × (field_of document ix.field ≡ some (string s))
          × (contents id ≡ some (s, candidate)))
  Knows (numbers ix) =
      (contents : Contents ℕ) × Represents number_equality ix.buckets contents
      × ((n : ℕ) × (field_of document ix.field ≡ some (number (finite n)))
          × (contents id ≡ some (n, candidate))
          × (among number_equality n ix.sorted_values ≡ true))

  -- An entry of the manager's map: the key is the field of the index.
  abbrev pub Keeps : Text × QueryIndex → Type 0
  Keeps (field, index) = (field ≡ (definition_of index).field) × Knows index

  -- The primary index knows the document, and its `_id` is the identifier.
  pub record InPrimary (primary : PrimaryIndex) : Type 0 where
    pub entry : get_candidate primary id ≡ some candidate
    pub id_value : field_of document id_field ≡ some (string id)

  in_snapshot : (primary : PrimaryIndex) → InPrimary primary → Memᴰ candidate (snapshot primary)
  unfolding snapshot get_candidate
  in_snapshot primary known = lookup-Mem text_equality id primary known.entry

  module _ (js : Js) where
    -- The predicate holds of the document.
    abbrev Holds : Text × FieldOperators js → Type 0
    Holds (field, tests) =
        HasFiniteBounds tests
        × (every_operator js tests (field_of document field) (has_own document field) ≡ true)

    Holds-at :
        (field : Text) (tests : FieldOperators js) {v : _}
        → field_of document field ≡ some v
        → Holds (field, tests)
        → every_operator js tests (some v) true ≡ true
    Holds-at field tests here (finite_bounds, sat) =
        sym (
          ap₂ (λ (o : QueryValue) (b : Bool). every_operator js tests o b) here
            (has_own_of_field document field here))
        ∙ sat

    scan_index_complete :
        (index : QueryIndex) (tests : FieldOperators js) {found : List IndexCandidate}
        → Knows index
        → Holds ((definition_of index).field, tests)
        → scan_index js index (definition_of index).field tests ≡ some found
        → Memᴰ candidate found
    unfolding scan_index definition_of
    scan_index_complete (strings ix) tests (contents, r, (s, here, there)) holds h =
        scan_complete js ix tests id s candidate r there (Holds-at ix.field tests here holds) h
    scan_index_complete (numbers ix) tests (contents, r, (n, here, there, listed)) holds h =
        scan_number_complete js ix tests id n candidate r there listed holds.0
          (Holds-at ix.field tests here holds) h

    -- The candidate is among the candidates selected so far.
    abbrev Selected : Selection js → Type 0
    Selected none = Unit
    Selected (some (candidates, definition)) = Memᴰ candidate candidates

    select-Selected :
        (answer : Option (List IndexCandidate)) (definition : IndexDefinition)
        (selection : Selection js)
        → ((found : List IndexCandidate) → answer ≡ some found → Memᴰ candidate found)
        → Selected selection
        → Selected (select js answer definition selection)
    unfolding select
    select-Selected none definition selection h s = s
    select-Selected (some found) definition none h s = h found refl
    select-Selected (some found) definition (some (selected, index)) h s =
        elim (Bool-cases (ltb (length found) (length selected))) [
          | inl e ↦ rw e (h found refl)
          | inr e ↦ rw e s
        ]

    consider-Selected :
        (manager : IndexManager) (primary : PrimaryIndex) (field : Text) (tests : FieldOperators js)
        (selection : Selection js)
        → All Keeps manager
        → InPrimary primary
        → Holds (field, tests)
        → Selected selection
        → Selected (consider js manager primary field tests selection)
    unfolding consider
    consider-Selected manager primary field tests selection keeps known holds s =
        let by_id = select js (scan_ids js primary field tests) (primary_definition js) selection in
        let after_primary = if text_same field id_field then by_id else selection in
        let still : Selected after_primary = elim (Bool-cases (text_same field id_field)) [
          | inr e ↦ rw e s
          | inl e ↦
              let at : field ≡ id_field = text_same→≡ field id_field e in
              rw e (
                select-Selected (scan_ids js primary field tests) (primary_definition js) selection
                  (λ found answered.
                    scan_ids_complete js primary tests id candidate known.entry
                      (Holds-at id_field tests known.id_value
                        (subst (λ (f : Text). Holds (f, tests)) at holds))
                      (ap (λ (f : Text). scan_ids js primary f tests) (sym at) ∙ answered))
                  s)
        ] in
        elim (Option-cases (lookup text_equality field manager)) [
          | inl p ↦ rw (consider, p) still
          | inr (index, p) ↦
              let (at, knows) = lookup-All text_equality Keeps field manager keeps p in
              rw (consider, p)
                (select-Selected (scan_index js index field tests) (definition_of index)
                  after_primary
                  (λ found answered.
                    scan_index_complete index tests knows
                      (subst (λ (f : Text). Holds (f, tests)) at holds)
                      (ap (λ (f : Text). scan_index js index f tests) (sym at) ∙ answered))
                  still)
        ]

    plan_loop-Selected :
        (manager : IndexManager) (primary : PrimaryIndex)
        (predicates : List (Text × FieldOperators js)) (selection : Selection js)
        → All Keeps manager
        → InPrimary primary
        → All Holds predicates
        → Selected selection
        → Selected (plan_loop js manager primary predicates selection)
    unfolding plan_loop
    plan_loop-Selected manager primary [] selection keeps known holds s = s
    plan_loop-Selected manager primary ((field, tests) ∷ predicates) selection keeps known holds s =
        plan_loop-Selected manager primary predicates
          (consider js manager primary field tests selection) keeps known holds.1
          (consider-Selected manager primary field tests selection keeps known holds.0 s)

    both : (a b : Bool) → (a && b) ≡ true → (a ≡ true) × (b ≡ true)
    both true b h = (refl, h)
    both false b h = absurd cc

    abbrev pub FiniteBounds : Text × FieldOperators js → Type 0
    FiniteBounds (field, tests) = HasFiniteBounds tests

    mutual
      unfolding evaluate_compiled_query field_predicates all_field_predicates

      predicates_hold :
          (query : CompiledQuery js)
          → All FiniteBounds (field_predicates js query)
          → evaluate_compiled_query js query document ≡ true
          → All Holds (field_predicates js query)
      predicates_hold (field_query field tests) f h = ((f.0, h), tt)
      predicates_hold (and clauses) f h = all_predicates_hold clauses f h
      predicates_hold (or clauses) f h = tt
      predicates_hold (nor clauses) f h = tt

      all_predicates_hold :
          (clauses : CompiledQueries js)
          → All FiniteBounds (all_field_predicates js clauses)
          → every_query js clauses document ≡ true
          → All Holds (all_field_predicates js clauses)
      all_predicates_hold no_queries f h = tt
      all_predicates_hold (query_then query clauses) f h =
          let (first, rest) = both (evaluate_compiled_query js query document) _ h in
          let here = field_predicates js query in
          All-append Holds here (all_field_predicates js clauses)
            (predicates_hold query
              (All-prefix FiniteBounds here (all_field_predicates js clauses) f) first)
            (all_predicates_hold clauses
              (All-suffix FiniteBounds here (all_field_predicates js clauses) f) rest)

    -- Whatever indexes there are, a document that matches the query is among the candidates of the plan,
    -- when the primary index and every secondary index know it and no field predicate that the planner
    -- reads compares with an infinity: no query loses a document by the choice of an index.
    pub plan_complete :
        (manager : IndexManager) (primary : PrimaryIndex) (query : CompiledQuery js)
        → All Keeps manager
        → InPrimary primary
        → All FiniteBounds (field_predicates js query)
        → evaluate_compiled_query js query document ≡ true
        → Memᴰ candidate (plan js manager query primary).candidates
    unfolding plan snapshot
    plan_complete manager primary query keeps known f sat =
        let selection = plan_loop js manager primary (field_predicates js query) none in
        let selected : Selected selection =
          plan_loop-Selected manager primary (field_predicates js query) none keeps known
            (predicates_hold query f sat) tt in
        elim (Option-cases selection) [
          | inl p ↦ rw (plan, p) (in_snapshot primary known)
          | inr (choice, p) ↦ rw (plan, p) (subst Selected p selected)
        ]

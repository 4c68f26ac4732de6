-- ===== src/Search/Sort/Order.antt =====
-- The comparison of documents.
use pocket_db.Prelude.{
  ℕ, ◌≡◌, refl, sym, ap, ◌∙◌, inl, inr, true, false, none, some, List, [], ◌∷◌, arith, dec_lt,
  ℕ_discrete, ◌==◌, if◌then◌else◌, lt→ltb, le→ltb, ==_iff, Bool-cases, ◌>>=◌, >>=-eq-ok,
  ok-injective, ok,
}
use pocket_db.Search.Values.{
  Text, Number, nan, minus_infinity, finite, plus_infinity, null, boolean, number, string, array,
  object, QueryValue, DocumentRecord, field_of,
}
use pocket_db.Search.Queries.{Compared, before, equal, after}
use pocket_db.Search.Sort.{
  SortField, SortDirection, compare_naturals, compare_numbers, compare_texts, compare_same_rank,
  compare_values, compare_documents, opposite, directed, type_rank, is_missing, ascending,
  descending,
}

swap_naturals : (a b : ℕ) → compare_naturals b a ≡ opposite (compare_naturals a b)
swap_naturals a b = elim (dec_lt a b) [
  | yes less ↦ rw (lt→ltb a b less, le→ltb b a (omega (arith, less))) refl
  | no other ↦ elim (dec_lt b a) [
    | yes more ↦ rw (lt→ltb b a more, le→ltb a b (omega (arith, more))) refl
    | no same ↦ rw (le→ltb b a (omega (arith, same)), le→ltb a b (omega (arith, other))) refl
  ]
]

swap_numbers : (a b : Number) → compare_numbers b a ≡ opposite (compare_numbers a b)
unfolding compare_numbers
swap_numbers (finite a) (finite b) = swap_naturals a b
swap_numbers nan nan = refl
swap_numbers nan minus_infinity = refl
swap_numbers nan (finite b) = refl
swap_numbers nan plus_infinity = refl
swap_numbers minus_infinity nan = refl
swap_numbers minus_infinity minus_infinity = refl
swap_numbers minus_infinity (finite b) = refl
swap_numbers minus_infinity plus_infinity = refl
swap_numbers plus_infinity nan = refl
swap_numbers plus_infinity minus_infinity = refl
swap_numbers plus_infinity (finite b) = refl
swap_numbers plus_infinity plus_infinity = refl
swap_numbers (finite a) nan = refl
swap_numbers (finite a) minus_infinity = refl
swap_numbers (finite a) plus_infinity = refl

swap_texts : (s t : Text) → compare_texts t s ≡ opposite (compare_texts s t)
unfolding compare_texts
swap_texts [] [] = refl
swap_texts [] (b ∷ t) = refl
swap_texts (a ∷ s) [] = refl
swap_texts (a ∷ s) (b ∷ t) = ground (arith, swap_texts s t)

swap_same_rank : (a b : QueryValue) → compare_same_rank b a ≡ opposite (compare_same_rank a b)
unfolding compare_same_rank
swap_same_rank none none = refl
swap_same_rank none (some null) = refl
swap_same_rank none (some (boolean true)) = refl
swap_same_rank none (some (boolean false)) = refl
swap_same_rank none (some (number y)) = refl
swap_same_rank none (some (string y)) = refl
swap_same_rank none (some (array y)) = refl
swap_same_rank none (some (object y)) = refl
swap_same_rank (some null) none = refl
swap_same_rank (some null) (some null) = refl
swap_same_rank (some null) (some (boolean true)) = refl
swap_same_rank (some null) (some (boolean false)) = refl
swap_same_rank (some null) (some (number y)) = refl
swap_same_rank (some null) (some (string y)) = refl
swap_same_rank (some null) (some (array y)) = refl
swap_same_rank (some null) (some (object y)) = refl
swap_same_rank (some (boolean true)) none = refl
swap_same_rank (some (boolean true)) (some null) = refl
swap_same_rank (some (boolean true)) (some (boolean true)) = refl
swap_same_rank (some (boolean true)) (some (boolean false)) = refl
swap_same_rank (some (boolean true)) (some (number y)) = refl
swap_same_rank (some (boolean true)) (some (string y)) = refl
swap_same_rank (some (boolean true)) (some (array y)) = refl
swap_same_rank (some (boolean true)) (some (object y)) = refl
swap_same_rank (some (boolean false)) none = refl
swap_same_rank (some (boolean false)) (some null) = refl
swap_same_rank (some (boolean false)) (some (boolean true)) = refl
swap_same_rank (some (boolean false)) (some (boolean false)) = refl
swap_same_rank (some (boolean false)) (some (number y)) = refl
swap_same_rank (some (boolean false)) (some (string y)) = refl
swap_same_rank (some (boolean false)) (some (array y)) = refl
swap_same_rank (some (boolean false)) (some (object y)) = refl
swap_same_rank (some (number x)) none = refl
swap_same_rank (some (number x)) (some null) = refl
swap_same_rank (some (number x)) (some (boolean true)) = refl
swap_same_rank (some (number x)) (some (boolean false)) = refl
swap_same_rank (some (number x)) (some (number y)) = swap_numbers x y
swap_same_rank (some (number x)) (some (string y)) = refl
swap_same_rank (some (number x)) (some (array y)) = refl
swap_same_rank (some (number x)) (some (object y)) = refl
swap_same_rank (some (string x)) none = refl
swap_same_rank (some (string x)) (some null) = refl
swap_same_rank (some (string x)) (some (boolean true)) = refl
swap_same_rank (some (string x)) (some (boolean false)) = refl
swap_same_rank (some (string x)) (some (number y)) = refl
swap_same_rank (some (string x)) (some (string y)) = swap_texts x y
swap_same_rank (some (string x)) (some (array y)) = refl
swap_same_rank (some (string x)) (some (object y)) = refl
swap_same_rank (some (array x)) none = refl
swap_same_rank (some (array x)) (some null) = refl
swap_same_rank (some (array x)) (some (boolean true)) = refl
swap_same_rank (some (array x)) (some (boolean false)) = refl
swap_same_rank (some (array x)) (some (number y)) = refl
swap_same_rank (some (array x)) (some (string y)) = refl
swap_same_rank (some (array x)) (some (array y)) = refl
swap_same_rank (some (array x)) (some (object y)) = refl
swap_same_rank (some (object x)) none = refl
swap_same_rank (some (object x)) (some null) = refl
swap_same_rank (some (object x)) (some (boolean true)) = refl
swap_same_rank (some (object x)) (some (boolean false)) = refl
swap_same_rank (some (object x)) (some (number y)) = refl
swap_same_rank (some (object x)) (some (string y)) = refl
swap_same_rank (some (object x)) (some (array y)) = refl
swap_same_rank (some (object x)) (some (object y)) = refl

abbrev ranked : QueryValue → QueryValue → ℕ → ℕ → Compared
ranked a b a_rank b_rank =
    if a_rank == b_rank then compare_same_rank a b else compare_naturals a_rank b_rank

swap_ranked :
    (a b : QueryValue) (a_rank b_rank : ℕ)
    → ranked b a b_rank a_rank ≡ opposite (ranked a b a_rank b_rank)
swap_ranked a b m n = elim (ℕ_discrete m n) [
  | yes same ↦
      let there : (m == n) ≡ true = (==_iff m n).1 same in
      let back : (n == m) ≡ true = (==_iff n m).1 (sym same) in
      rw (there, back) (swap_same_rank a b)
  | no other ↦
      let there : (m == n) ≡ false = ground (arith, other) in
      let back : (n == m) ≡ false = ground (arith, other) in rw (there, back) (swap_naturals m n)
]

-- The comparison of values that are both there.
present :
    (a b : QueryValue)
    → is_missing a ≡ false
    → is_missing b ≡ false
    → compare_values a b
      ≡ (do a_rank ← type_rank a; b_rank ← type_rank b; ok (ranked a b a_rank b_rank))
unfolding compare_values
present a b p q = rw (compare_values, p, q) refl

swap_present :
    (a b : QueryValue) {c : Compared}
    → is_missing a ≡ false
    → is_missing b ≡ false
    → compare_values a b ≡ ok c
    → compare_values b a ≡ ok (opposite c)
swap_present a b {c} p q h =
    let (m, a_rank, next) = >>=-eq-ok (type_rank a) _ (sym (present a b p q) ∙ h) in
    let (n, b_rank, last) = >>=-eq-ok (type_rank b) _ next in
    present b a q p
    ∙ rw (b_rank, a_rank)
        (ap ok (swap_ranked a b m n) ∙ ap (λ (k : Compared). ok (opposite k)) (ok-injective last))

swap_values :
    (a b : QueryValue) {c : Compared}
    → compare_values a b ≡ ok c
    → compare_values b a ≡ ok (opposite c)
unfolding compare_values
swap_values a b {c} h = elim (Bool-cases (is_missing a)) [
  | inl p ↦ elim (Bool-cases (is_missing b)) [
    | inl q ↦
        let both : compare_values a b ≡ ok equal = rw (compare_values, p, q) refl in
        rw (compare_values, p, q)
          (ap (λ (k : Compared). ok (opposite k)) (ok-injective (sym both ∙ h)))
    | inr q ↦
        let first : compare_values a b ≡ ok before = rw (compare_values, p, q) refl in
        rw (compare_values, p, q)
          (ap (λ (k : Compared). ok (opposite k)) (ok-injective (sym first ∙ h)))
  ]
  | inr p ↦ elim (Bool-cases (is_missing b)) [
    | inl q ↦
        let second : compare_values a b ≡ ok after = rw (compare_values, p, q) refl in
        rw (compare_values, p, q)
          (ap (λ (k : Compared). ok (opposite k)) (ok-injective (sym second ∙ h)))
    | inr q ↦ swap_present a b p q h
  ]
]

swap_directed :
    (f : SortField) (c : Compared)
    → directed f.direction (opposite c) ≡ opposite (directed f.direction c)
swap_directed f c = go f.direction c
  where
    go : (d : SortDirection) (c : Compared) → directed d (opposite c) ≡ opposite (directed d c)
    go ascending c = refl
    go descending c = refl

-- What the first field decides, and the others when it does not.
swap_first :
    (a b : DocumentRecord) (f : SortField) (fields : List SortField) (first : Compared)
    (c : Compared)
    → ((k : Compared)
        → compare_documents a b fields ≡ ok k
        → compare_documents b a fields ≡ ok (opposite k))
    → (elim first [
      | equal ↦ compare_documents a b fields
      | before ↦ ok (directed f.direction before)
      | after ↦ ok (directed f.direction after)
    ])
      ≡ ok c
    → (elim (opposite first) [
      | equal ↦ compare_documents b a fields
      | before ↦ ok (directed f.direction before)
      | after ↦ ok (directed f.direction after)
    ])
      ≡ ok (opposite c)
swap_first a b f fields equal c others h = others c h
swap_first a b f fields before c others h =
    ap ok (swap_directed f before) ∙ ap (λ (k : Compared). ok (opposite k)) (ok-injective h)
swap_first a b f fields after c others h =
    ap ok (swap_directed f after) ∙ ap (λ (k : Compared). ok (opposite k)) (ok-injective h)

-- Comparing two documents the other way round gives the opposite outcome, whenever they can be compared.
pub compare_documents_swap :
    (a b : DocumentRecord) (fields : List SortField) {c : Compared}
    → compare_documents a b fields ≡ ok c
    → compare_documents b a fields ≡ ok (opposite c)
unfolding compare_documents
compare_documents_swap a b [] h = ap (λ (k : Compared). ok (opposite k)) (ok-injective h)
compare_documents_swap a b (f ∷ fields) {c} h =
    let (first, compared, rest) =
      >>=-eq-ok (compare_values (field_of a f.field) (field_of b f.field)) _ h in
    let back = swap_values (field_of a f.field) (field_of b f.field) compared in
    rw back (swap_first a b f fields first c (λ k. compare_documents_swap a b fields {c = k}) rest)

-- ===== src/Indexes/PrimaryIndex.antt =====
-- indexes/primary-index.ts
pub mod Lookup
use pocket_db.Prelude.{
  ℕ, Bool, true, false, Option, none, some, List, [], ◌∷◌, if◌then◌else◌, lookup, delete, insert,
}
use pocket_db.Search.Values.{Text, DocumentRecord, text_same, text_equality}
use pocket_db.Search.Queries.{Js, FieldOperators}
use pocket_db.Indexes.Buckets.{IndexCandidate, Candidates, candidates_of}
use pocket_db.Indexes.StringIndex.{collect_string_equality_values}

-- `InMemoryPrimaryIndex`: its `candidatesById`.
abbrev pub PrimaryIndex : Type 0
PrimaryIndex = Candidates

-- "_id"
abbrev pub id_field : Text
id_field = b'_' ∷ b'i' ∷ b'd' ∷ []

-- `set`, which `add` and `update` come down to
unfoldable pub set_candidate : PrimaryIndex → Text → ℕ → PrimaryIndex
set_candidate ix id offset = insert text_equality id (record { id = id; offset = offset }) ix

unfoldable pub add_candidate : PrimaryIndex → DocumentRecord → IndexCandidate → PrimaryIndex
unfolding set_candidate
add_candidate ix document candidate = set_candidate ix candidate.id candidate.offset

unfoldable pub remove_candidate : PrimaryIndex → Text → PrimaryIndex
remove_candidate ix id = delete text_equality id ix

unfoldable pub get_candidate : PrimaryIndex → Text → Option IndexCandidate
get_candidate ix id = lookup text_equality id ix

unfoldable pub has_candidate : PrimaryIndex → Text → Bool
has_candidate ix id = elim (lookup text_equality id ix) [ none ↦ false | some _ ↦ true ]

unfoldable pub snapshot : PrimaryIndex → List IndexCandidate
snapshot ix = candidates_of ix

-- `ids.flatMap(...)`
unfoldable pub candidates_at : PrimaryIndex → List Text → List IndexCandidate
unfolding get_candidate
candidates_at ix [] = []
candidates_at ix (id ∷ ids) =
    let rest = candidates_at ix ids in
    elim (get_candidate ix id) [ none ↦ rest | some candidate ↦ candidate ∷ rest ]

-- `collectIdValues` is the same function as `collectStringEqualityValues` of string-index.ts.
unfoldable pub scan_ids :
    (js : Js) → PrimaryIndex → Text → FieldOperators js → Option (List IndexCandidate)
unfolding candidates_at
scan_ids js ix field operators =
    let ids = collect_string_equality_values js operators in
    if text_same field id_field
    then elim ids [ none ↦ none | some wanted ↦ some (candidates_at ix wanted) ]
    else none

-- ===== src/Indexes/Buckets.antt =====
-- What `StringIndex` of indexes/string-index.ts and `NumberIndex` of indexes/number-index.ts do alike
-- with their `values` and `valuesById`.
pub mod Contents
use pocket_db.Prelude.{
  ℕ, Option, none, some, List, [], ◌∷◌, map, ltb, ◌==◌, if◌then◌else◌, length, Equality, lookup,
  delete, insert,
}
use pocket_db.Search.Values.{Text, text_equality}

-- `IndexCandidate` of indexes/types.ts
pub record IndexCandidate : Type 0 where
  pub id : Text
  pub offset : ℕ

-- `Map<string, IndexCandidate>`
abbrev pub Candidates : Type 0
Candidates = List (Text × IndexCandidate)

pub record Buckets (K : Type 0) : Type 0 where
  pub values : List (K × Candidates)
  pub values_by_id : List (Text × K)

-- `?? []`
abbrev pub or_empty : Option Candidates → Candidates
or_empty none = []
or_empty (some candidates) = candidates

-- `Array.from(candidates.values())`
abbrev pub candidates_of : Candidates → List IndexCandidate
candidates_of found = map (λ (p : Text × IndexCandidate). p.1) found

module _ {K : Type 0} (eq : Equality K) where
  -- `this.values.get(value) ?? []`
  unfoldable pub bucket_of : List (K × Candidates) → K → Candidates
  bucket_of values value = elim (lookup eq value values) [
    | none ↦ []
    | some candidates ↦ candidates
  ]

  unfoldable pub bucket_add : Buckets K → K → IndexCandidate → Buckets K
  unfolding bucket_of
  bucket_add ix value candidate = record {
    values =
        insert eq value (insert text_equality candidate.id candidate (bucket_of ix.values value))
          ix.values;
    values_by_id = insert text_equality candidate.id value ix.values_by_id;
  }

  -- `this.values` after `candidates?.delete(id)`, and after a bucket that is left empty is dropped.
  pub shrink : List (K × Candidates) → K → Text → List (K × Candidates)
  shrink values value id = elim (lookup eq value values) [
    | none ↦ values
    | some candidates ↦
        let left = delete text_equality id candidates in
        if length left == 0 then delete eq value values else insert eq value left values
  ]

  unfoldable pub bucket_remove : Buckets K → Text → Buckets K
  unfolding shrink
  bucket_remove ix id = elim (lookup text_equality id ix.values_by_id) [
    | none ↦ ix
    | some value ↦ record {
      values = shrink ix.values value id;
      values_by_id = delete text_equality id ix.values_by_id;
    }
  ]

  -- The inner loop of `scan`.
  unfoldable pub collect_bucket : Candidates → Candidates → Candidates
  collect_bucket [] found = found
  collect_bucket ((id, candidate) ∷ bucket) found =
      collect_bucket bucket (insert text_equality id candidate found)

  -- The outer loop of `scan`, with the map that it fills.
  unfoldable pub collect_values : List (K × Candidates) → List K → Candidates → Candidates
  unfolding collect_bucket bucket_of
  collect_values values [] found = found
  collect_values values (wanted ∷ others) found =
      collect_values values others (collect_bucket (bucket_of values wanted) found)

  -- The loop of `findOwner`: `exclude` is `undefined` when there is none.
  unfoldable pub first_other : Option Text → Candidates → Option Text
  first_other exclude [] = none
  first_other exclude ((id, candidate) ∷ bucket) =
      let rest = first_other exclude bucket in
      elim exclude [
        | none ↦ some id
        | some excluded ↦ if text_equality.same id excluded then rest else some id
      ]

  unfoldable pub find_owner : Buckets K → K → Option Text → Option Text
  unfolding first_other bucket_of
  find_owner ix value exclude = first_other exclude (bucket_of ix.values value)

  -- `findDuplicate`
  unfoldable pub find_duplicate : List (K × Candidates) → Option (List Text)
  find_duplicate [] = none
  find_duplicate ((value, candidates) ∷ values) =
      let rest = find_duplicate values in
      if ltb 1 (length candidates)
      then some (map (λ (p : Text × IndexCandidate). p.0) candidates)
      else rest

-- ===== src/Indexes/Buckets/Contents.antt =====
-- What the buckets hold, as a function from the identifiers.
use pocket_db.Prelude.{
  ◌≡◌, refl, sym, ap, ◌∙◌, subst, ◌≢◌, inl, inr, Bool, false, ◌||◌, Option, none, some, List, [],
  ◌∷◌, ◌==◌, if◌then◌else◌, ==_iff, Bool-cases, Option-cases, length, length-zero, Equality,
  different-apart, none-some, some-none, lookup, delete, insert, Distinct, lookup-delete_same,
  lookup-delete_other, Distinct-delete, lookup-insert_same, lookup-insert_other, Distinct-insert,
  lookup-insert, lookup-delete, some-injective,
}
use pocket_db.Search.Values.{Text, text_equality}
use pocket_db.Indexes.Buckets.{
  IndexCandidate, Candidates, Buckets, bucket_of, or_empty, bucket_add, shrink, bucket_remove,
  collect_bucket, collect_values,
}

-- The value under which a document is indexed, and its candidate.
abbrev pub Contents : Type 0 → Type 0
Contents K = Text → Option (K × IndexCandidate)

-- The contents changed at one identifier.
abbrev pub changed : {K : Type 0} → Contents K → Text → Option (K × IndexCandidate) → Contents K
changed contents id o j = if text_equality.same j id then o else contents j

module _ {K : Type 0} (eq : Equality K) where
  -- What the bucket of `value` holds of a document.
  abbrev pub under : K → Option (K × IndexCandidate) → Option IndexCandidate
  under value none = none
  under value (some (value', candidate)) = if eq.same value value' then some candidate else none

  abbrev pub value_of : Option (K × IndexCandidate) → Option K
  value_of none = none
  value_of (some (value, candidate)) = some value

  pub record Represents (ix : Buckets K) (contents : Contents K) : Type 0 where
    pub by_id : (id : Text) → lookup text_equality id ix.values_by_id ≡ value_of (contents id)
    pub bucket :
        (value : K) (id : Text)
        → lookup text_equality id (bucket_of eq ix.values value) ≡ under value (contents id)
    pub distinct : (value : K) → Distinct text_equality (bucket_of eq ix.values value)

  bucket_of-insert_same :
      (values : List (K × Candidates)) (value : K) (b : Candidates)
      → bucket_of eq (insert eq value b values) value ≡ b
  unfolding bucket_of
  bucket_of-insert_same values value b = ap or_empty (lookup-insert_same eq value b values)

  bucket_of-insert_other :
      (values : List (K × Candidates)) (value value' : K) (b : Candidates)
      → value' ≢ value
      → bucket_of eq (insert eq value b values) value' ≡ bucket_of eq values value'
  unfolding bucket_of
  bucket_of-insert_other values value value' b h =
      ap or_empty (lookup-insert_other eq value' value b values h)

  bucket_of-shrink_same :
      (values : List (K × Candidates)) (value : K) (id : Text)
      → bucket_of eq (shrink eq values value id) value
        ≡ delete text_equality id (bucket_of eq values value)
  unfolding bucket_of shrink
  bucket_of-shrink_same values value id = elim (Option-cases (lookup eq value values)) [
    | inl h ↦
        let here : bucket_of eq values value ≡ [] = ap or_empty h in
        rw (shrink, h) (here ∙ sym (ap (delete text_equality id) here))
    | inr (b, h) ↦
        let here : bucket_of eq values value ≡ b = ap or_empty h in
        let left = delete text_equality id b in
        elim (Bool-cases (length left == 0)) [
          | inl e ↦
              rw (shrink, h, e)
                (ap or_empty (lookup-delete_same eq value values)
                  ∙ sym (length-zero left ((==_iff (length left) 0).0 e))
                  ∙ sym (ap (delete text_equality id) here))
          | inr e ↦
              rw (shrink, h, e)
                (bucket_of-insert_same values value left ∙ sym (ap (delete text_equality id) here))
        ]
  ]

  bucket_of-shrink_other :
      (values : List (K × Candidates)) (value value' : K) (id : Text)
      → value' ≢ value
      → bucket_of eq (shrink eq values value id) value' ≡ bucket_of eq values value'
  unfolding bucket_of shrink
  bucket_of-shrink_other values value value' id h = elim (Option-cases (lookup eq value values)) [
    | inl p ↦ rw (shrink, p) refl
    | inr (b, p) ↦
        let left = delete text_equality id b in
        elim (Bool-cases (length left == 0)) [
          | inl e ↦ rw (shrink, p, e) (ap or_empty (lookup-delete_other eq value' value values h))
          | inr e ↦ rw (shrink, p, e) (bucket_of-insert_other values value value' left h)
        ]
  ]

  -- A bucket after a change at one key, when the bucket of that key is known.
  module _ (values values' : List (K × Candidates)) (value : K) (b : Candidates) where
    changed_bucket :
        bucket_of eq values' value ≡ b
        → ((v : K) → v ≢ value → bucket_of eq values' v ≡ bucket_of eq values v)
        → (v : K) → bucket_of eq values' v ≡ (if eq.same v value then b else bucket_of eq values v)
    changed_bucket here others v = elim (Bool-cases (eq.same v value)) [
      | inl e ↦ rw e (ap (bucket_of eq values') (eq.same→≡ v value e) ∙ here)
      | inr e ↦ rw e (others v (different-apart eq v value e))
    ]

  -- Adding a document that is not there.
  pub Represents-bucket_add :
      {ix : Buckets K} {contents : Contents K} (value : K) (candidate : IndexCandidate)
      → Represents ix contents
      → contents candidate.id ≡ none
      → Represents
          (bucket_add eq ix value candidate)
          (changed contents candidate.id (some (value, candidate)))
  unfolding bucket_add
  Represents-bucket_add {ix} {contents} value candidate r absent =
      let id = candidate.id in
      let old = bucket_of eq ix.values value in
      let new = insert text_equality id candidate old in
      let at =
        changed_bucket ix.values (bucket_add eq ix value candidate).values value new
          (bucket_of-insert_same ix.values value new)
          (λ v h. bucket_of-insert_other ix.values value v new h) in
      record {
        by_id = λ j.
            lookup-insert text_equality j id value ix.values_by_id
            ∙ elim (Bool-cases (text_equality.same j id)) [
              | inl e ↦ rw e refl
              | inr e ↦ rw e (r.by_id j)
            ];
        bucket = λ v j. ap (lookup text_equality j) (at v) ∙ elim (Bool-cases (eq.same v value)) [
          | inl e ↦ elim (Bool-cases (text_equality.same j id)) [
            | inl q ↦ rw (e, q) (lookup-insert text_equality j id candidate old ∙ rw (q, e) refl)
            | inr q ↦
                rw (e, q)
                  (lookup-insert text_equality j id candidate old
                    ∙ rw q (
                        r.bucket value j
                        ∙ ap (λ (k : K). under k (contents j)) (sym (eq.same→≡ v value e))))
          ]
          | inr e ↦ elim (Bool-cases (text_equality.same j id)) [
            | inl q ↦
                rw (e, q)
                  (r.bucket v j
                    ∙ ap (λ (i : Text). under v (contents i)) (text_equality.same→≡ j id q)
                    ∙ ap (under v) absent
                    ∙ rw e refl)
            | inr q ↦ rw (e, q) (r.bucket v j)
          ]
        ];
        distinct = λ v.
            subst (λ (t : Candidates). Distinct text_equality t) (sym (at v))
              (elim (Bool-cases (eq.same v value)) [
                | inl e ↦ rw e (Distinct-insert text_equality id candidate old (r.distinct value))
                | inr e ↦ rw e (r.distinct v)
              ]);
      }

  pub Represents-ext :
      {ix : Buckets K} {contents contents' : Contents K}
      → Represents ix contents
      → ((j : Text) → contents j ≡ contents' j)
      → Represents ix contents'
  Represents-ext r same = record {
    by_id = λ j. r.by_id j ∙ ap value_of (same j);
    bucket = λ v j. r.bucket v j ∙ ap (under v) (same j);
    distinct = r.distinct;
  }

  value_of-none : (o : Option (K × IndexCandidate)) → value_of o ≡ none → o ≡ none
  value_of-none none h = refl
  value_of-none (some (v, c)) h = absurd (some-none h)

  value_of-some :
      (o : Option (K × IndexCandidate)) {value : K}
      → value_of o ≡ some value
      → (c : IndexCandidate) × (o ≡ some (value, c))
  value_of-some none h = absurd (none-some h)
  value_of-some (some (v, c)) h = (c, ap (λ (k : K). some (k, c)) (some-injective _ _ h))

  removed :
      {ix : Buckets K} {contents : Contents K} (id : Text) (value : K) (c : IndexCandidate)
      → Represents ix contents
      → contents id ≡ some (value, c)
      → Represents
          (record {
            values = shrink eq ix.values value id;
            values_by_id = delete text_equality id ix.values_by_id;
          })
          (changed contents id none)
  removed {ix} {contents} id value c r there =
      let old = bucket_of eq ix.values value in
      let at =
        changed_bucket ix.values (shrink eq ix.values value id) value (delete text_equality id old)
          (bucket_of-shrink_same ix.values value id)
          (λ v h. bucket_of-shrink_other ix.values value v id h) in
      record {
        by_id = λ j.
            lookup-delete text_equality j id ix.values_by_id
            ∙ elim (Bool-cases (text_equality.same j id)) [
              | inl e ↦ rw e refl
              | inr e ↦ rw e (r.by_id j)
            ];
        bucket = λ v j. ap (lookup text_equality j) (at v) ∙ elim (Bool-cases (eq.same v value)) [
          | inl e ↦ elim (Bool-cases (text_equality.same j id)) [
            | inl q ↦ rw (e, q) (lookup-delete text_equality j id old ∙ rw q refl)
            | inr q ↦
                rw (e, q)
                  (lookup-delete text_equality j id old
                    ∙ rw q (
                        r.bucket value j
                        ∙ ap (λ (k : K). under k (contents j)) (sym (eq.same→≡ v value e))))
          ]
          | inr e ↦ elim (Bool-cases (text_equality.same j id)) [
            | inl q ↦
                rw (e, q)
                  (r.bucket v j
                    ∙ ap (λ (i : Text). under v (contents i)) (text_equality.same→≡ j id q)
                    ∙ ap (under v) there
                    ∙ rw e refl)
            | inr q ↦ rw (e, q) (r.bucket v j)
          ]
        ];
        distinct = λ v.
            subst (λ (t : Candidates). Distinct text_equality t) (sym (at v))
              (elim (Bool-cases (eq.same v value)) [
                | inl e ↦ rw e (Distinct-delete text_equality id old (r.distinct value))
                | inr e ↦ rw e (r.distinct v)
              ]);
      }

  pub Represents-bucket_remove :
      {ix : Buckets K} {contents : Contents K} (id : Text)
      → Represents ix contents
      → Represents (bucket_remove eq ix id) (changed contents id none)
  unfolding bucket_remove
  Represents-bucket_remove {ix} {contents} id r =
      elim (Option-cases (lookup text_equality id ix.values_by_id)) [
        | inl h ↦
            rw (bucket_remove, h)
              (let gone = value_of-none (contents id) (sym (r.by_id id) ∙ h) in
                Represents-ext r (λ j. elim (Bool-cases (text_equality.same j id)) [
                  | inl e ↦ rw e (ap contents (text_equality.same→≡ j id e) ∙ gone)
                  | inr e ↦ rw e refl
                ]))
        | inr (value, h) ↦
            let (c, there) = value_of-some (contents id) (sym (r.by_id id) ∙ h) in
            rw (bucket_remove, h) (removed id value c r there)
      ]

  -- The first of two outcomes that is there.
  abbrev otherwise : Option IndexCandidate → Option IndexCandidate → Option IndexCandidate
  otherwise none second = second
  otherwise (some c) second = some c

  lookup-collect_bucket :
      (bucket found : Candidates) (id : Text)
      → Distinct text_equality bucket
      → lookup text_equality id (collect_bucket eq bucket found)
        ≡ otherwise (lookup text_equality id bucket) (lookup text_equality id found)
  unfolding collect_bucket
  lookup-collect_bucket [] found id d = refl
  lookup-collect_bucket ((j, c) ∷ bucket) found id d =
      lookup-collect_bucket bucket (insert text_equality j c found) id d.1
      ∙ elim (Bool-cases (text_equality.same id j)) [
        | inl e ↦
            let gone : lookup text_equality id bucket ≡ none =
              ap (λ (i : Text). lookup text_equality i bucket) (text_equality.same→≡ id j e)
              ∙ d.0 in
            rw (gone, e) (lookup-insert text_equality id j c found ∙ rw e refl)
        | inr e ↦ rw e (
            ap (otherwise (lookup text_equality id bucket))
              (lookup-insert text_equality id j c found ∙ rw e refl))
      ]

  -- Whether a value is among some.
  abbrev pub among : K → List K → Bool
  among value [] = false
  among value (wanted ∷ others) = eq.same wanted value || among value others

  -- What a scan of some values finds of a document.
  abbrev pub found_under :
      List K → Option (K × IndexCandidate) → Option IndexCandidate → Option IndexCandidate
  found_under wanted none rest = rest
  found_under wanted (some (value, candidate)) rest =
      if among value wanted then some candidate else rest

  found_under-cons :
      (wanted : K) (others : List K) (o : Option (K × IndexCandidate))
      (rest : Option IndexCandidate)
      → found_under others o (otherwise (under wanted o) rest)
        ≡ found_under (wanted ∷ others) o rest
  found_under-cons wanted others none rest = refl
  found_under-cons wanted others (some (value, c)) rest = elim (Bool-cases (eq.same wanted value)) [
    | inl e ↦ elim (Bool-cases (among value others)) [
      | inl p ↦ rw (e, p) refl
      | inr p ↦ rw (e, p) refl
    ]
    | inr e ↦ rw e refl
  ]

  -- The candidates that a scan finds: those of the documents indexed under one of its values.
  pub lookup-collect_values :
      {ix : Buckets K} {contents : Contents K} (wanted : List K) (found : Candidates) (id : Text)
      → Represents ix contents
      → lookup text_equality id (collect_values eq ix.values wanted found)
        ≡ found_under wanted (contents id) (lookup text_equality id found)
  unfolding collect_values
  lookup-collect_values {ix} {contents} [] found id r = elim (Option-cases (contents id)) [
    | inl h ↦ rw h refl
    | inr (p, h) ↦ rw h refl
  ]
  lookup-collect_values {ix} {contents} (wanted ∷ others) found id r =
      let bucket = bucket_of eq ix.values wanted in
      lookup-collect_values others (collect_bucket eq bucket found) id r
      ∙ ap (found_under others (contents id)) (
          lookup-collect_bucket bucket found id (r.distinct wanted)
          ∙ ap (λ (o : Option IndexCandidate). otherwise o (lookup text_equality id found))
              (r.bucket wanted id))
      ∙ found_under-cons wanted others (contents id) (lookup text_equality id found)

  -- Removing a document and adding it again is a change of its entry.
  pub Represents-replaced :
      {ix : Buckets K} {contents : Contents K} (value : K) (candidate : IndexCandidate)
      → Represents ix contents
      → Represents
          (bucket_add eq (bucket_remove eq ix candidate.id) value candidate)
          (changed contents candidate.id (some (value, candidate)))
  Represents-replaced {ix} {contents} value candidate r =
      let id = candidate.id in
      let absent : changed contents id none id ≡ none = rw (text_equality.same-refl id) refl in
      Represents-ext (Represents-bucket_add value candidate (Represents-bucket_remove id r) absent)
        (λ j. elim (Bool-cases (text_equality.same j id)) [ inl e ↦ rw e refl | inr e ↦ rw e refl ])

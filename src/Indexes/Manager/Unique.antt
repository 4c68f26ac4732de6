-- ===== src/Indexes/Manager/Unique.antt =====
-- `assertUnique` of indexes/index-manager.ts guards the values of the unique indexes.
use pocket_db.Prelude.{
  ℕ, ◌≡◌, refl, sym, ap, ◌∙◌, subst, ◌≢◌, inl, inr, true, false, Option, none, some, List, [], ◌∷◌,
  ap₂, ◌==◌, Bool-cases, Option-cases, length, All, ◌>>=◌, >>=-eq-ok, ok-injective, Equality,
  same-different, different-apart, none-some, some-none, lookup, delete, value_taken, ok, err,
}
use pocket_db.Search.Values.{Text, DocumentRecord, text_equality, field_of}
use pocket_db.Indexes.Buckets.{
  IndexCandidate, Candidates, Buckets, bucket_of, bucket_add, bucket_remove, first_other,
  find_owner,
}
use pocket_db.Indexes.Buckets.Contents.{
  Contents, changed, Represents, Represents-bucket_remove, Represents-replaced, under,
}
use pocket_db.Indexes.StringIndex.{string_value, add, remove, update, find_value_owner}
use pocket_db.Indexes.StringIndex.Scan.{Represents-update}
use pocket_db.Indexes.NumberIndex.{
  NumberIndex, number_value, number_equality, insert_sorted, add_number, remove_number,
  update_number, find_number_owner,
}
use pocket_db.Indexes.Manager.{
  QueryIndex, strings, numbers, IndexManager, is_unique, update_in, owner_in, assert_unique,
  update_document_indexes,
}

-- The contents after a document has been written, for the value that the index reads.
abbrev pub rewritten : {K : Type 0} → Contents K → IndexCandidate → Option K → Contents K
rewritten contents candidate o =
    changed contents candidate.id (elim o [ none ↦ none | some value ↦ some (value, candidate) ])

-- No two documents under one value.
abbrev pub HoldsOnce : {K : Type 0} → Contents K → Type 0
HoldsOnce {K} contents =
    (i j : Text) (value : K) (c c' : IndexCandidate)
    → contents i ≡ some (value, c)
    → contents j ≡ some (value, c')
    → i ≡ j

-- The document's own identifier may be excluded.
abbrev pub MayExclude : Text → Option Text → Type 0
MayExclude id none = Unit
MayExclude id (some excluded) = excluded ≡ id

module _ {K : Type 0} (eq : Equality K) where
  first_other-none :
      (exclude : Option Text) (id j : Text) (bucket : Candidates)
      → MayExclude id exclude
      → first_other eq exclude bucket ≡ none
      → j ≢ id
      → lookup text_equality j bucket ≡ none
  unfolding first_other
  first_other-none exclude id j [] m h apart = refl
  first_other-none none id j ((k, c) ∷ bucket) m h apart = absurd cc
  first_other-none (some excluded) id j ((k, c) ∷ bucket) m h apart =
      elim (Bool-cases (text_equality.same k excluded)) [
        | inl e ↦
            let at : k ≡ id = text_equality.same→≡ k excluded e ∙ m in
            let other : text_equality.same j k ≡ false =
              same-different text_equality j k (λ p. apart (p ∙ at)) in
            rw other (
              first_other-none (some excluded) id j bucket m (sym (rw (first_other, e) refl) ∙ h)
                apart)
        | inr e ↦
            let found : first_other eq (some excluded) ((k, c) ∷ bucket) ≡ some k =
              rw (first_other, e) refl in
            absurd (some-none (sym found ∙ h))
      ]

  -- Where no other owner is found, no other document is under the value.
  alone :
      {ix : Buckets K} {contents : Contents K} (value : K) (exclude : Option Text) (id j : Text)
      (c : IndexCandidate)
      → Represents eq ix contents
      → MayExclude id exclude
      → find_owner eq ix value exclude ≡ none
      → contents j ≡ some (value, c)
      → ¬ (j ≢ id)
  unfolding find_owner
  alone {ix} {contents} value exclude id j c r m h there apart =
      let nobody = first_other-none exclude id j (bucket_of eq ix.values value) m h apart in
      let somebody : under eq value (contents j) ≡ some c =
        ap (under eq value) there ∙ rw (eq.same-refl value) refl in
      some-none (sym somebody ∙ sym (r.bucket value j) ∙ nobody)

  HoldsOnce-rewritten :
      {ix : Buckets K} {contents : Contents K} (candidate : IndexCandidate) (exclude : Option Text)
      (o : Option K)
      → Represents eq ix contents
      → HoldsOnce contents
      → MayExclude candidate.id exclude
      → ((value : K) → o ≡ some value → find_owner eq ix value exclude ≡ none)
      → HoldsOnce (rewritten contents candidate o)
  HoldsOnce-rewritten {ix} {contents} candidate exclude o r once m free i j value c c' p q =
      let id = candidate.id in
      elim (Bool-cases (text_equality.same i id)) [
        | inl e ↦ elim (Bool-cases (text_equality.same j id)) [
          | inl f ↦ text_equality.same→≡ i id e ∙ sym (text_equality.same→≡ j id f)
          | inr f ↦
              let new = own o value c (sym (rw e refl) ∙ p) in
              absurd (
                alone value exclude id j c' r m (free value new) (sym (rw f refl) ∙ q)
                  (different-apart text_equality j id f))
        ]
        | inr e ↦ elim (Bool-cases (text_equality.same j id)) [
          | inl f ↦
              let new = own o value c' (sym (rw f refl) ∙ q) in
              absurd (
                alone value exclude id i c r m (free value new) (sym (rw e refl) ∙ p)
                  (different-apart text_equality i id e))
          | inr f ↦ once i j value c c' (sym (rw e refl) ∙ p) (sym (rw f refl) ∙ q)
        ]
      ]
    where
      own :
          (o : Option K) (value : K) (c : IndexCandidate)
          → ◌≡◌ {A = Option (K × IndexCandidate)}
              (elim o [ none ↦ none | some v ↦ some (v, candidate) ])
              (some (value, c))
          → o ≡ some value
      own none value c h = absurd (none-some h)
      own (some v) value c h = cc

module _ (document : DocumentRecord) (candidate : IndexCandidate) where
  -- What an addition makes of the buckets.
  abbrev added : Buckets ℕ → Option ℕ → Buckets ℕ
  added buckets none = buckets
  added buckets (some value) = bucket_add number_equality buckets value candidate

  -- The index afterwards has the given buckets, and the definition is the same.
  record Rebuilt (ix ix' : NumberIndex) (buckets : Buckets ℕ) : Type 0 where
    same_field : ix'.field ≡ ix.field
    same_unique : ix'.unique ≡ ix.unique
    new_buckets : ix'.buckets ≡ buckets

  add_number-Rebuilt :
      (ix : NumberIndex) {ix' : NumberIndex}
      → add_number ix document candidate ≡ ok ix'
      → Rebuilt ix ix' (added ix.buckets (number_value (field_of document ix.field)))
  unfolding add_number
  add_number-Rebuilt ix {ix'} h = elim (Option-cases (number_value (field_of document ix.field))) [
    | inl p ↦
        let same : ix ≡ ix' = ok-injective (sym (rw (add_number, p) refl) ∙ h) in
        record {
          same_field = ap (λ (k : NumberIndex). k.field) (sym same);
          same_unique = ap (λ (k : NumberIndex). k.unique) (sym same);
          new_buckets = ap (λ (k : NumberIndex). k.buckets) (sym same) ∙ rw p refl;
        }
    | inr (value, p) ↦
        let buckets' = bucket_add number_equality ix.buckets value candidate in
        elim (Option-cases (lookup number_equality value ix.buckets.values)) [
          | inr (bucket, q) ↦
              let same : record ix { buckets = buckets' } ≡ ix' =
                ok-injective (sym (rw (add_number, p, q) refl) ∙ h) in
              record {
                same_field = ap (λ (k : NumberIndex). k.field) (sym same);
                same_unique = ap (λ (k : NumberIndex). k.unique) (sym same);
                new_buckets = ap (λ (k : NumberIndex). k.buckets) (sym same) ∙ rw p refl;
              }
          | inl q ↦
              let opened : (do
                sorted ← insert_sorted ix.sorted_values value
                ok (record ix { buckets = buckets'; sorted_values = sorted }))
                  ≡ ok ix' =
                sym (rw (add_number, p, q) refl) ∙ h in
              let (sorted, _, last) =
                >>=-eq-ok (insert_sorted ix.sorted_values value)
                  (λ (l : List ℕ). ok (record ix { buckets = buckets'; sorted_values = l }))
                  opened in
              let same = ok-injective last in
              record {
                same_field = ap (λ (k : NumberIndex). k.field) (sym same);
                same_unique = ap (λ (k : NumberIndex). k.unique) (sym same);
                new_buckets = ap (λ (k : NumberIndex). k.buckets) (sym same) ∙ rw p refl;
              }
        ]
  ]

  remove_number-Rebuilt :
      (ix : NumberIndex)
      → Rebuilt ix
          (remove_number ix candidate.id)
          (bucket_remove number_equality ix.buckets candidate.id)
  unfolding remove_number bucket_remove
  remove_number-Rebuilt ix =
      let id = candidate.id in
      elim (Option-cases (lookup text_equality id ix.buckets.values_by_id)) [
        | inl p ↦ record {
          same_field = rw (remove_number, p) refl;
          same_unique = rw (remove_number, p) refl;
          new_buckets = rw (remove_number, p) (sym (rw (bucket_remove, p) refl));
        }
        | inr (value, p) ↦ elim (Option-cases (lookup number_equality value ix.buckets.values)) [
          | inl q ↦ record {
            same_field = rw (remove_number, p, q) refl;
            same_unique = rw (remove_number, p, q) refl;
            new_buckets = rw (remove_number, p, q) refl;
          }
          | inr (bucket, q) ↦ elim (Bool-cases (length (delete text_equality id bucket) == 0)) [
            | inl e ↦ record {
              same_field = rw (remove_number, p, q, e) refl;
              same_unique = rw (remove_number, p, q, e) refl;
              new_buckets = rw (remove_number, p, q, e) refl;
            }
            | inr e ↦ record {
              same_field = rw (remove_number, p, q, e) refl;
              same_unique = rw (remove_number, p, q, e) refl;
              new_buckets = rw (remove_number, p, q, e) refl;
            }
          ]
        ]
      ]

  replaced :
      (buckets : Buckets ℕ) {contents : Contents ℕ} (o : Option ℕ)
      → Represents number_equality buckets contents
      → Represents number_equality
          (added (bucket_remove number_equality buckets candidate.id) o)
          (rewritten contents candidate o)
  replaced buckets none r = Represents-bucket_remove number_equality candidate.id r
  replaced buckets (some value) r = Represents-replaced number_equality value candidate r

  -- An update of a number index replaces what it holds of the document, and nothing else.
  pub Represents-update_number :
      (ix : NumberIndex) {ix' : NumberIndex} {contents : Contents ℕ}
      → Represents number_equality ix.buckets contents
      → update_number ix document candidate ≡ ok ix'
      → (ix'.field ≡ ix.field)
        × (ix'.unique ≡ ix.unique)
        × Represents number_equality ix'.buckets
            (rewritten contents candidate (number_value (field_of document ix.field)))
  unfolding update_number
  Represents-update_number ix {ix'} {contents} r h =
      let removed = remove_number ix candidate.id in
      let gone = remove_number-Rebuilt ix in
      let there = add_number-Rebuilt removed h in
      let o = number_value (field_of document ix.field) in
      let buckets : ix'.buckets ≡ added (bucket_remove number_equality ix.buckets candidate.id) o =
        there.new_buckets
        ∙ ap₂ (λ (b : Buckets ℕ) (f : Text). added b (number_value (field_of document f)))
            gone.new_buckets gone.same_field in
      (
        there.same_field ∙ gone.same_field,
        there.same_unique ∙ gone.same_unique,
        subst (λ (b : Buckets ℕ). Represents number_equality b (rewritten contents candidate o))
            (sym buckets) (replaced ix.buckets o r),
      )

  -- A unique index holds no value twice.
  abbrev pub IsUniqueIndex : QueryIndex → Type 0
  IsUniqueIndex (strings ix) =
      (contents : Contents Text) × Represents text_equality ix.buckets contents × HoldsOnce contents
  IsUniqueIndex (numbers ix) =
      (contents : Contents ℕ) × Represents number_equality ix.buckets contents × HoldsOnce contents

  abbrev pub GuardsEntry : Text × QueryIndex → Type 0
  GuardsEntry (field, index) = is_unique index ≡ true → IsUniqueIndex index

  update_in-IsUniqueIndex :
      (index : QueryIndex) (exclude : Option Text) {index' : QueryIndex}
      → MayExclude candidate.id exclude
      → owner_in index document exclude ≡ none
      → IsUniqueIndex index
      → update_in index document candidate ≡ ok index'
      → IsUniqueIndex index'
  unfolding update_in owner_in find_value_owner find_number_owner update add remove
  update_in-IsUniqueIndex (strings ix) exclude m free (contents, r, once) h =
      let o = string_value (field_of document ix.field) in
      subst IsUniqueIndex (ok-injective h) (
        rewritten contents candidate o,
        Represents-update ix document candidate r,
        HoldsOnce-rewritten text_equality candidate exclude o r once m
            (λ value p. sym (rw (find_value_owner, p) refl) ∙ free),
      )
  update_in-IsUniqueIndex (numbers ix) exclude m free (contents, r, once) h =
      let o = number_value (field_of document ix.field) in
      let (ix', updated, last) =
        >>=-eq-ok (update_number ix document candidate) (λ (k : NumberIndex). ok (numbers k)) h in
      let (_, _, r') = Represents-update_number ix r updated in
      subst IsUniqueIndex (ok-injective last) (
        rewritten contents candidate o,
        r',
        HoldsOnce-rewritten number_equality candidate exclude o r once m
            (λ value p. sym (rw (find_number_owner, p) refl) ∙ free),
      )

  update_in_unique :
      (index : QueryIndex) {index' : QueryIndex}
      → update_in index document candidate ≡ ok index'
      → is_unique index' ≡ is_unique index
  unfolding update_in is_unique update add remove update_number
  update_in_unique (strings ix) h =
      ap is_unique (sym (ok-injective h))
      ∙ elim (Option-cases (string_value (field_of document ix.field))) [
        | inl p ↦ rw (update, add, p) refl
        | inr (value, p) ↦ rw (update, add, p) refl
      ]
  update_in_unique (numbers ix) h =
      let (ix', updated, last) =
        >>=-eq-ok (update_number ix document candidate) (λ (k : NumberIndex). ok (numbers k)) h in
      ap is_unique (sym (ok-injective last))
      ∙ (add_number-Rebuilt (remove_number ix candidate.id) updated).same_unique
      ∙ (remove_number-Rebuilt ix).same_unique

  passed :
      (field : Text) (index : QueryIndex) (manager : IndexManager) (exclude : Option Text)
      → assert_unique ((field, index) ∷ manager) document exclude ≡ ok tt
      → (is_unique index ≡ true → owner_in index document exclude ≡ none)
        × (assert_unique manager document exclude ≡ ok tt)
  unfolding assert_unique
  passed field index manager exclude h = elim (Bool-cases (is_unique index)) [
    | inr e ↦ (λ unique. absurd (cc (unique, e)), sym (rw (assert_unique, e) refl) ∙ h)
    | inl e ↦ elim (Option-cases (owner_in index document exclude)) [
      | inl p ↦ (λ unique. p, sym (rw (assert_unique, e, p) refl) ∙ h)
      | inr (owner, p) ↦
          let taken : assert_unique ((field, index) ∷ manager) document exclude ≡ err value_taken =
            rw (assert_unique, e, p) refl in
          absurd (cc (taken, h))
    ]
  ]

  -- When `assertUnique` lets a document pass, the indexes that the write updates hold no value twice
  -- in a unique index, if they held none twice before: also for a document that is written over itself.
  pub assert_unique_guards :
      (manager : IndexManager) (exclude : Option Text) {manager' : IndexManager}
      → MayExclude candidate.id exclude
      → All GuardsEntry manager
      → assert_unique manager document exclude ≡ ok tt
      → update_document_indexes manager document candidate ≡ ok manager'
      → All GuardsEntry manager'
  unfolding assert_unique update_document_indexes
  assert_unique_guards [] exclude m g h u = subst (All GuardsEntry) (ok-injective u) tt
  assert_unique_guards ((field, index) ∷ manager) exclude m g h u =
      let (index', here, u') =
        >>=-eq-ok (update_in index document candidate)
          (λ (k : QueryIndex). do
            manager' ← update_document_indexes manager document candidate
            ok ((field, k) ∷ manager'))
          u in
      let (rest', there, last) =
        >>=-eq-ok (update_document_indexes manager document candidate)
          (λ (l : IndexManager). ok ((field, index') ∷ l)) u' in
      let (free, others) = passed field index manager exclude h in
      subst (All GuardsEntry) (ok-injective last) (
        λ unique.
            let unique_before = sym (update_in_unique index here) ∙ unique in
            update_in-IsUniqueIndex index exclude m (free unique_before) (g.0 unique_before) here,
        assert_unique_guards manager exclude m g.1 others there,
      )

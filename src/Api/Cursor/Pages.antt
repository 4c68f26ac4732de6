-- ===== src/Api/Cursor/Pages.antt =====
-- What a cursor of api/cursor.ts without a sort returns.
use pocket_db.Prelude.{
  ℕ, zero, suc, ◌+◌, ◌-◌, ◌<◌, ◌≡◌, refl, sym, ap, ◌∙◌, subst, inl, inr, true, false, not, Option,
  none, some, List, [], ◌∷◌, arith, suc-add, ltb, leb, if◌then◌else◌, ltb→lt, ltb→le, leb→le,
  leb→lt, Bool-cases, length, take, drop, All, take-nil, drop-nil, Result, ok, Memᴰ,
}
use pocket_db.Search.Values.{DocumentRecord}
use pocket_db.Search.Queries.{Js, CompiledQuery}
use pocket_db.Search.Evaluate.{evaluate_compiled_query}
use pocket_db.Storage.FileStorage.{FileStorage}
use pocket_db.Indexes.Buckets.{IndexCandidate}
use pocket_db.Api.Host.{Host}
use pocket_db.Api.Actions.{Action}
use pocket_db.Api.Cursor.{Cursor, limit_reached, is_some, take_or_continue, next_loop}
use pocket_db.Api.Cursor.Reading.{
  View, view, read_put, BulkReads, Ready, read_candidate_lem, escalate_lem,
}

-- At most so many, or all.
abbrev pub limited : Option ℕ → List DocumentRecord → List DocumentRecord
limited none docs = docs
limited (some n) docs = take n docs

-- The limit that is left.
abbrev pub left : Option ℕ → ℕ → Option ℕ
left none returned = none
left (some limit) returned = some (limit - returned)

drop_step :
    (i : ℕ) (xs : List IndexCandidate) {k : IndexCandidate} {ks : List IndexCandidate}
    → drop i xs ≡ k ∷ ks
    → drop (i + 1) xs ≡ ks
drop_step zero [] h = cc
drop_step (suc i) [] h = cc
drop_step zero (x ∷ xs) h = cc
drop_step (suc i) (x ∷ xs) h = ap (λ (j : ℕ). drop j (x ∷ xs)) (suc-add i 1) ∙ drop_step i xs h

module _ (host : Host) (js : Js) (storage : FileStorage) (query : CompiledQuery js) where
  -- The documents that match the query, in their order.
  abbrev pub matching : List DocumentRecord → List DocumentRecord
  matching [] = []
  matching (d ∷ docs) =
      if evaluate_compiled_query js query d then d ∷ matching docs else matching docs

  -- The page of a query: what is left of the matching documents after the skip, up to the limit.
  abbrev pub page : ℕ → Option ℕ → List DocumentRecord → List DocumentRecord
  page skip limit docs = limited limit (drop skip (matching docs))

  -- The documents of the records of the candidates.
  abbrev pub Reads : List IndexCandidate → List DocumentRecord → Type 0
  Reads [] [] = Unit
  Reads (k ∷ ks) (d ∷ docs) = (read_put host js storage query k.offset ≡ ok d) × Reads ks docs
  Reads _ _ = ⊥

  pub page-nil : (skip : ℕ) (limit : Option ℕ) → page skip limit [] ≡ []
  page-nil skip none = drop-nil skip
  page-nil skip (some n) = ap (take n) (drop-nil skip) ∙ take-nil n

  page_other :
      (skip : ℕ) (limit : Option ℕ) (d : DocumentRecord) (docs : List DocumentRecord)
      → evaluate_compiled_query js query d ≡ false
      → page skip limit (d ∷ docs) ≡ page skip limit docs
  page_other skip limit d docs h = rw h refl

  page_skipped :
      (skip : ℕ) (limit : Option ℕ) (d : DocumentRecord) (docs : List DocumentRecord)
      → evaluate_compiled_query js query d ≡ true
      → page (suc skip) limit (d ∷ docs) ≡ page skip limit docs
  page_skipped skip limit d docs h = rw h refl

  -- What the cursor has still to return.
  abbrev pub remaining : View → List DocumentRecord → List DocumentRecord
  remaining (_, _, skipped, returned, limit, skip, _) docs =
      page (skip - skipped) (left limit returned) docs

  reached_limit :
      (limit : Option ℕ) (returned : ℕ) (docs : List DocumentRecord)
      → (elim limit [ none ↦ false | some l ↦ leb l returned ]) ≡ true
      → limited (left limit returned) docs ≡ []
  reached_limit none returned docs h = absurd cc
  reached_limit (some l) returned docs h =
      let nothing : l - returned ≡ 0 = omega (arith, leb→le l returned h) in
      ap (λ (n : ℕ). take n docs) nothing

  page_returned :
      (limit : Option ℕ) (returned : ℕ) (d : DocumentRecord) (docs : List DocumentRecord)
      → evaluate_compiled_query js query d ≡ true
      → (elim limit [ none ↦ false | some l ↦ leb l returned ]) ≡ false
      → page 0 (left limit returned) (d ∷ docs) ≡ d ∷ page 0 (left limit (returned + 1)) docs
  page_returned none returned d docs h more = rw h refl
  page_returned (some l) returned d docs h more =
      let one : l - returned ≡ suc (l - (returned + 1)) = omega (arith, leb→lt l returned more) in
      rw (h, one) refl

  -- The documents left after what a call of `next` returned.
  abbrev pub GoesOn :
      List IndexCandidate → ℕ → List DocumentRecord → Cursor → Option DocumentRecord → Type 0
  GoesOn all rounds expected after none = expected ≡ []
  GoesOn all rounds expected after (some d) =
      (docs : List DocumentRecord) × Reads (drop after.current_index all) docs
      × (length (drop after.current_index all) < rounds)
      × (expected ≡ d ∷ remaining (view after) docs)

  -- What a call of `next` has come to.
  pub record Next (all ks : List IndexCandidate) (expected : List DocumentRecord)
      (r : Result (Option DocumentRecord) × Cursor) : Type 0 where
    pub output : Option DocumentRecord
    pub after : Cursor
    pub result : r ≡ (ok output, after)
    pub ready : Ready host js storage query all after
    pub unsorted : after.sort_fields ≡ none
    pub goes_on : GoesOn all (length ks) expected after output

  goes_later :
      (all : List IndexCandidate) (rounds : ℕ) (expected : List DocumentRecord) (after : Cursor)
      (output : Option DocumentRecord)
      → GoesOn all rounds expected after output
      → GoesOn all (suc rounds) expected after output
  goes_later all rounds expected after none h = h
  goes_later all rounds expected after (some d) (docs, reads, fewer, same) =
      (docs, reads, omega (arith, fewer), same)

  Next-later :
      (all : List IndexCandidate) (k : IndexCandidate) (ks : List IndexCandidate)
      {e : List DocumentRecord} {r : Result (Option DocumentRecord) × Cursor}
      → Next all ks e r
      → Next all (k ∷ ks) e r
  Next-later all k ks {e} n = record {
    output = n.output;
    after = n.after;
    result = n.result;
    ready = n.ready;
    unsorted = n.unsorted;
    goes_on = goes_later all (length ks) e n.after n.output n.goes_on;
  }

  Next-whole :
      (all ks : List IndexCandidate) {e e' : List DocumentRecord}
      {r r' : Result (Option DocumentRecord) × Cursor}
      → e ≡ e'
      → r ≡ r'
      → Next all ks e' r'
      → Next all ks e r
  Next-whole all ks {e} p q n = record {
    output = n.output;
    after = n.after;
    result = q ∙ n.result;
    ready = n.ready;
    unsorted = n.unsorted;
    goes_on =
        subst (λ (x : List DocumentRecord). GoesOn all (length ks) x n.after n.output) (sym p)
          n.goes_on;
  }

  -- The end of a round, when the limit is not reached and the rounds that follow behave.
  take_or_continue_lem :
      (all : List IndexCandidate) (k : IndexCandidate) (ks : List IndexCandidate)
      (d : DocumentRecord) (docs : List DocumentRecord)
      (continue : Action Cursor (Option DocumentRecord)) (a : Cursor)
      → Ready host js storage query all a
      → a.sort_fields ≡ none
      → Reads ks docs
      → drop a.current_index all ≡ ks
      → limit_reached a ≡ false
      → ((a' : Cursor)
          → Ready host js storage query all a'
          → a'.sort_fields ≡ none
          → drop a'.current_index all ≡ ks
          → Next all ks (remaining (view a') docs) (continue a'))
      → Next all
          (k ∷ ks)
          (remaining (view a) (d ∷ docs))
          (take_or_continue host js storage query d continue a)
  unfolding take_or_continue limit_reached
  take_or_continue_lem all k ks d docs continue a ready unsorted reads at more go_on =
      elim (Bool-cases (evaluate_compiled_query js query d)) [
        | inr other ↦
            Next-whole all (k ∷ ks)
              (page_other (a.skip_count - a.skipped_matches) (left a.limit_count a.returned_count) d
                docs other)
              (rw other refl) (Next-later all k ks (go_on a ready unsorted at))
        | inl matches ↦ elim (Bool-cases (ltb a.skipped_matches a.skip_count)) [
          | inl behind ↦
              let a' = record a { skipped_matches = a.skipped_matches + 1 } in
              let one : a.skip_count - a.skipped_matches
                  ≡ suc (a.skip_count - (a.skipped_matches + 1)) =
                omega (arith, ltb→lt _ _ behind) in
              Next-whole all (k ∷ ks)
                (ap (λ (n : ℕ). page n (left a.limit_count a.returned_count) (d ∷ docs)) one
                  ∙ page_skipped (a.skip_count - (a.skipped_matches + 1))
                      (left a.limit_count a.returned_count) d docs matches)
                (rw (matches, behind) refl)
                (Next-later all k ks (
                  go_on a'
                    (record {
                      of_all = ready.of_all;
                      coherent = ready.coherent;
                      decided = ready.decided;
                    })
                    unsorted at))
          | inr ahead ↦
              let nothing : a.skip_count - a.skipped_matches ≡ 0 =
                omega (arith, ltb→le _ _ ahead) in
              record {
                output = some d;
                after = record a { returned_count = a.returned_count + 1 };
                result = rw (matches, ahead) refl;
                ready = record {
                  of_all = ready.of_all;
                  coherent = ready.coherent;
                  decided = ready.decided;
                };
                unsorted = unsorted;
                goes_on = (
                  docs,
                  subst (λ (l : List IndexCandidate). Reads l docs) (sym at) reads,
                  subst (λ (l : List IndexCandidate). length l < suc (length ks)) (sym at)
                      (omega arith),
                  ap (λ (n : ℕ). page n (left a.limit_count a.returned_count) (d ∷ docs)) nothing
                      ∙ page_returned a.limit_count a.returned_count d docs matches more
                      ∙ ap (λ (n : ℕ). d ∷ page n (left a.limit_count (a.returned_count + 1)) docs)
                          (sym nothing),
                );
              }
        ]
      ]

  module _ (all : List IndexCandidate) (bulk : BulkReads host js storage query all) where
    pub next_loop_lem :
        (ks : List IndexCandidate) (docs : List DocumentRecord) (c : Cursor)
        → Ready host js storage query all c
        → c.sort_fields ≡ none
        → Reads ks docs
        → All (λ (k : IndexCandidate). Memᴰ k all) ks
        → drop c.current_index all ≡ ks
        → Next all ks (remaining (view c) docs) (next_loop host js storage query ks c)
    unfolding next_loop limit_reached take_or_continue
    next_loop_lem [] [] c ready unsorted reads inside at = record {
      output = none;
      after = c;
      result = refl;
      ready = ready;
      unsorted = unsorted;
      goes_on = page-nil (c.skip_count - c.skipped_matches) (left c.limit_count c.returned_count);
    }
    next_loop_lem [] (d ∷ docs) c ready unsorted reads inside at = absurd reads
    next_loop_lem (k ∷ ks) [] c ready unsorted reads inside at = absurd reads
    next_loop_lem (k ∷ ks) (d ∷ docs) c ready unsorted (read, reads) (here, inside) at =
        elim (Bool-cases (limit_reached c)) [
          | inl e ↦ record {
            output = none;
            after = c;
            result = rw e refl;
            ready = ready;
            unsorted = unsorted;
            goes_on =
                reached_limit c.limit_count c.returned_count
                  (drop (c.skip_count - c.skipped_matches) (matching (d ∷ docs))) e;
          }
          | inr more ↦
              let c1 = record c { current_index = c.current_index + 1 } in
              let ready1 : Ready host js storage query all c1 = record {
                of_all = ready.of_all;
                coherent = ready.coherent;
                decided = ready.decided;
              } in
              let o =
                read_candidate_lem host js storage query all k (not (is_some c.limit_count)) c1
                  ready1 bulk here read in
              let s = escalate_lem host js storage query all o.after o.ready bulk in
              let same : view s.after ≡ view c1 = s.same_view ∙ o.same_view in
              let at' : drop s.after.current_index all ≡ ks =
                ap (λ (v : View). drop v.1 all) same ∙ drop_step c.current_index all at in
              let unsorted' : s.after.sort_fields ≡ none = ap (λ (v : View). v.6) same ∙ unsorted in
              let more' : limit_reached s.after ≡ false =
                ap (λ (v : View). elim v.4 [ none ↦ false | some limit ↦ leb limit v.3 ]) same
                ∙ more in
              let round : next_loop host js storage query (k ∷ ks) c
                  ≡ take_or_continue host js storage query d (next_loop host js storage query ks)
                      s.after =
                rw (more, o.result, s.result) refl in
              Next-whole all (k ∷ ks) (ap (λ (v : View). remaining v (d ∷ docs)) (sym same)) round (
                take_or_continue_lem all k ks d docs (next_loop host js storage query ks) s.after
                  s.ready unsorted' reads at' more'
                  (λ a ready' sorted' here'.
                    next_loop_lem ks docs a ready' sorted' reads inside here'))
        ]

-- ===== src/Api/Cursor/Collected.antt =====
-- toArray of api/cursor.ts: the calls of `next` of an unsorted cursor, put together.
use pocket_db.Prelude.{
  ℕ, zero, suc, ◌-◌, ◌≤◌, ◌<◌, min, ◌≡◌, refl, sym, ap, ◌∙◌, subst, inl, inr, Bool, true, false,
  ◌&&◌, Option, none, some, List, [], ◌∷◌, map, arith, dec_le, ltb, ◌==◌, ==_iff, Bool-cases,
  length, drop, All, length-drop, All-drop, drop_of_length-le, Result, ok, Memᴰ,
}
use native.Mathlib.Nat.{min-eq_left, min-eq_right}
use pocket_db.Search.Values.{Text, DocumentRecord}
use pocket_db.Search.Queries.{Js, CompiledQuery, and, or, nor, field_query, no_queries, query_then}
use pocket_db.Search.Sort.{SortField}
use pocket_db.Search.Evaluate.{evaluate_compiled_query}
use pocket_db.Storage.FileStorage.{FileStorage}
use pocket_db.Indexes.Buckets.{IndexCandidate}
use pocket_db.Storage.FileStorage.Bulk.{Stands, read_bulk_range_lem}
use pocket_db.Storage.FileStorage.Replay.Log.{Entry, HoldsLog}
use pocket_db.Api.Host.{Host}
use pocket_db.Api.DocumentCache.{DocumentCache}
use pocket_db.Api.Cursor.{
  Cursor, new_cursor, is_match_all, apply_match_all_skip_fast_path, next_loop, next_unsorted,
  next_sorted, next, array_loop, to_array,
}
use pocket_db.Api.Cursor.Reading.{view, Coherent, BulkReads, Ready}
use pocket_db.Api.Cursor.Pages.{
  limited, left, matching, page, Reads, remaining, Next, GoesOn, next_loop_lem,
}

All-later :
    {A : Type 0} (x : A) (xs ys : List A)
    → All (λ (k : A). Memᴰ k xs) ys
    → All (λ (k : A). Memᴰ k (x ∷ xs)) ys
All-later x xs [] h = tt
All-later x xs (y ∷ ys) (m, h) = (Memᴰ.tail m, All-later x xs ys h)

All-own : {A : Type 0} (xs : List A) → All (λ (k : A). Memᴰ k xs) xs
All-own [] = tt
All-own (x ∷ xs) = (Memᴰ.head refl, All-later x xs xs (All-own xs))

and_parts : (a b : Bool) → (a && b) ≡ true → (a ≡ true) × (b ≡ true)
and_parts true b h = (refl, h)
and_parts false b h = absurd cc

drop-min : {A : Type 0} (n : ℕ) (xs : List A) → drop (min n (length xs)) xs ≡ drop n xs
drop-min n xs = elim (dec_le n (length xs)) [
  | yes h ↦ ap (λ (k : ℕ). drop k xs) (min-eq_left h)
  | no h ↦
      let less : length xs ≤ n = omega (arith, h) in
      ap (λ (k : ℕ). drop k xs) (min-eq_right less)
      ∙ drop_of_length-le (length xs) xs (omega arith)
      ∙ sym (drop_of_length-le n xs less)
]

matches_all :
    {js : Js} (query : CompiledQuery js) (d : DocumentRecord)
    → is_match_all query ≡ true
    → evaluate_compiled_query js query d ≡ true
unfolding is_match_all evaluate_compiled_query
matches_all (and no_queries) d h = refl
matches_all (and (query_then query others)) d h = absurd cc
matches_all (or clauses) d h = absurd cc
matches_all (nor clauses) d h = absurd cc
matches_all (field_query field tests) d h = absurd cc

All-offsets :
    (P : ℕ → Type 0) (ks : List IndexCandidate)
    → All (λ (k : IndexCandidate). P k.offset) ks
    → All P (map (λ (k : IndexCandidate). k.offset) ks)
All-offsets P [] h = tt
All-offsets P (k ∷ ks) (h, hs) = (h, All-offsets P ks hs)

All-of_offsets :
    (P : ℕ → Type 0) (ks : List IndexCandidate)
    → All P (map (λ (k : IndexCandidate). k.offset) ks)
    → All (λ (k : IndexCandidate). P k.offset) ks
All-of_offsets P [] h = tt
All-of_offsets P (k ∷ ks) (h, hs) = (h, All-of_offsets P ks hs)

left-zero : (limit : Option ℕ) → left limit 0 ≡ limit
left-zero none = refl
left-zero (some limit) = let whole : limit - 0 ≡ limit = omega arith in ap some whole

module _ (host : Host) (js : Js) (storage : FileStorage) (query : CompiledQuery js) where
  matching_all :
      (docs : List DocumentRecord)
      → is_match_all query ≡ true
      → matching host js storage query docs ≡ docs
  matching_all [] h = refl
  matching_all (d ∷ docs) h = rw (matches_all query d h) (ap (λ ds. d ∷ ds) (matching_all docs h))

  Reads-length :
      (ks : List IndexCandidate) (docs : List DocumentRecord)
      → Reads host js storage query ks docs
      → length ks ≡ length docs
  Reads-length [] [] h = refl
  Reads-length [] (d ∷ docs) h = absurd h
  Reads-length (k ∷ ks) [] h = absurd h
  Reads-length (k ∷ ks) (d ∷ docs) h = ap suc (Reads-length ks docs h.1)

  Reads-drop :
      (n : ℕ) (ks : List IndexCandidate) (docs : List DocumentRecord)
      → Reads host js storage query ks docs
      → Reads host js storage query (drop n ks) (drop n docs)
  Reads-drop zero ks docs h = h
  Reads-drop (suc n) [] [] h = tt
  Reads-drop (suc n) [] (d ∷ docs) h = absurd h
  Reads-drop (suc n) (k ∷ ks) [] h = absurd h
  Reads-drop (suc n) (k ∷ ks) (d ∷ docs) h = Reads-drop n ks docs h.1

  -- What the skip of a query that matches all has come to.
  record Skipped (all : List IndexCandidate) (expected : List DocumentRecord) (c : Cursor)
      : Type 0 where
    ready : Ready host js storage query all c
    unsorted : c.sort_fields ≡ none
    docs : List DocumentRecord
    reads : Reads host js storage query (drop c.current_index all) docs
    same : remaining host js storage query (view c) docs ≡ expected

  skip_lem :
      (all : List IndexCandidate) (c : Cursor) (docs : List DocumentRecord)
      → Ready host js storage query all c
      → c.sort_fields ≡ none
      → Reads host js storage query (drop c.current_index all) docs
      → (c' : Cursor) × (apply_match_all_skip_fast_path host js storage query c ≡ c')
        × Skipped all (remaining host js storage query (view c) docs) c'
        × (length (drop c'.current_index all) ≤ length (drop c.current_index all))
  unfolding apply_match_all_skip_fast_path
  skip_lem all c docs ready unsorted reads =
      elim (Bool-cases (
        c.current_index == 0
        && c.skipped_matches == 0
        && ltb 0 c.skip_count
        && is_match_all query)) [
          | inr e ↦ (
            c,
            rw e refl,
            record { ready = ready; unsorted = unsorted; docs = docs; reads = reads; same = refl },
            omega arith,
          )
          | inl e ↦
              let (three, all_match) =
                and_parts (c.current_index == 0 && c.skipped_matches == 0 && ltb 0 c.skip_count)
                  (is_match_all query) e in
              let (both, some_to_skip) =
                and_parts (c.current_index == 0 && c.skipped_matches == 0) (ltb 0 c.skip_count)
                  three in
              let (at_start, none_skipped) =
                and_parts (c.current_index == 0) (c.skipped_matches == 0) both in
              let at : c.current_index ≡ 0 = (==_iff c.current_index 0).0 at_start in
              let at' : c.skipped_matches ≡ 0 = (==_iff c.skipped_matches 0).0 none_skipped in
              let n = min c.skip_count (length c.candidates) in
              let from : Reads host js storage query all docs =
                subst (λ (i : ℕ). Reads host js storage query (drop i all) docs) at reads in
              let as_many : length c.candidates ≡ length docs =
                ap length ready.of_all ∙ Reads-length all docs from in
              let whole : c.skip_count - c.skipped_matches ≡ c.skip_count = omega (arith, at') in
              let nothing : c.skip_count - c.skip_count ≡ 0 = omega arith in
              let same : drop (c.skip_count - c.skip_count)
                    (matching host js storage query (drop n docs))
                  ≡ drop (c.skip_count - c.skipped_matches) (matching host js storage query docs) =
                ap (λ (i : ℕ). drop i (matching host js storage query (drop n docs))) nothing
                ∙ matching_all (drop n docs) all_match
                ∙ ap (λ (m : ℕ). drop (min c.skip_count m) docs) as_many
                ∙ drop-min c.skip_count docs
                ∙ ap (λ (i : ℕ). drop i docs) (sym whole)
                ∙ ap (drop (c.skip_count - c.skipped_matches))
                    (sym (matching_all docs all_match)) in
              (
                record c { current_index = n; skipped_matches = c.skip_count },
                rw e refl,
                record {
                  ready = record {
                    of_all = ready.of_all;
                    coherent = ready.coherent;
                    decided = ready.decided;
                  };
                  unsorted = unsorted;
                  docs = drop n docs;
                  reads = Reads-drop n all docs from;
                  same = ap (limited (left c.limit_count c.returned_count)) same;
                },
                subst (λ (i : ℕ). length (drop n all) ≤ length (drop i all)) (sym at)
                    (omega (arith, length-drop n all)),
              )
        ]

  goes_through :
      (all : List IndexCandidate) {rounds rounds' : ℕ} {e e' : List DocumentRecord} (after : Cursor)
      (output : Option DocumentRecord)
      → rounds ≤ rounds'
      → e ≡ e'
      → GoesOn host js storage query all rounds e after output
      → GoesOn host js storage query all rounds' e' after output
  goes_through all after none few p h = sym p ∙ h
  goes_through all after (some d) few p (docs, reads, fewer, same) =
      (docs, reads, omega (arith, few, fewer), sym p ∙ same)

  next_lem :
      (all : List IndexCandidate) (c : Cursor) (docs : List DocumentRecord)
      → BulkReads host js storage query all
      → Ready host js storage query all c
      → c.sort_fields ≡ none
      → Reads host js storage query (drop c.current_index all) docs
      → Next host js storage query all
          (drop c.current_index all)
          (remaining host js storage query (view c) docs)
          (next host js storage query c)
  unfolding next next_unsorted
  next_lem all c docs bulk ready unsorted reads =
      let (c', skips, s, fewer) = skip_lem all c docs ready unsorted reads in
      let n =
        next_loop_lem host js storage query all bulk (drop c'.current_index all) s.docs c' s.ready
          s.unsorted s.reads (All-drop _ c'.current_index all (All-own all)) refl in
      let called : next host js storage query c
          ≡ next_loop host js storage query (drop c'.current_index all) c' =
        ap (choose c) unsorted
        ∙ ap start skips
        ∙ ap
            (λ (ks : List IndexCandidate).
              next_loop host js storage query (drop c'.current_index ks) c')
            s.ready.of_all in
      record {
        output = n.output;
        after = n.after;
        result = called ∙ n.result;
        ready = n.ready;
        unsorted = n.unsorted;
        goes_on = goes_through all n.after n.output fewer s.same n.goes_on;
      }
    where
      start : Cursor → Result (Option DocumentRecord) × Cursor
      start d = next_loop host js storage query (drop d.current_index d.candidates) d

      choose : Cursor → Option (List SortField) → Result (Option DocumentRecord) × Cursor
      choose d o = elim o [
        | some fields ↦ next_sorted host js storage query fields d
        | none ↦ next_unsorted host js storage query d
      ]

  array_loop_lem :
      (all : List IndexCandidate) (fuel : ℕ) (c : Cursor) (docs : List DocumentRecord)
      → BulkReads host js storage query all
      → Ready host js storage query all c
      → c.sort_fields ≡ none
      → Reads host js storage query (drop c.current_index all) docs
      → length (drop c.current_index all) < fuel
      → (after : Cursor) × (array_loop host js storage query fuel c
          ≡ (ok (remaining host js storage query (view c) docs), after))
  unfolding array_loop
  array_loop_lem all zero c docs bulk ready unsorted reads h =
      let impossible : ⊥ = omega (arith, h) in absurd impossible
  array_loop_lem all (suc fuel) c docs bulk ready unsorted reads h =
      let n = next_lem all c docs bulk ready unsorted reads in
      go n.output n.after n.result n.ready n.unsorted n.goes_on
        (λ after docs' ready' unsorted' reads' h'.
          array_loop_lem all fuel after docs' bulk ready' unsorted' reads' h')
    where
      go :
          (output : Option DocumentRecord) (after : Cursor)
          → next host js storage query c ≡ (ok output, after)
          → Ready host js storage query all after
          → after.sort_fields ≡ none
          → GoesOn host js storage query all
              (length (drop c.current_index all))
              (remaining host js storage query (view c) docs)
              after
              output
          → ((a : Cursor) (docs' : List DocumentRecord)
              → Ready host js storage query all a
              → a.sort_fields ≡ none
              → Reads host js storage query (drop a.current_index all) docs'
              → length (drop a.current_index all) < fuel
              → (last : Cursor) × (array_loop host js storage query fuel a
                  ≡ (ok (remaining host js storage query (view a) docs'), last)))
          → (after' : Cursor) × (array_loop host js storage query (suc fuel) c
              ≡ (ok (remaining host js storage query (view c) docs), after'))
      go none after result ready' unsorted' goes go_on = (after, rw (result, goes) refl)
      go (some d) after result ready' unsorted' (docs', reads', fewer, same) go_on =
          let (last, is) = go_on after docs' ready' unsorted' reads' (omega (arith, h, fewer)) in
          (last, rw (result, is, same) refl)

  bulk_reads :
      {es : List Entry} (candidates : List IndexCandidate)
      → HoldsLog storage es
      → All (λ (k : IndexCandidate). (e : Entry) × Stands 12 es k.offset e) candidates
      → BulkReads host js storage query candidates
  bulk_reads [] log stand = tt
  bulk_reads (first ∷ []) log stand = tt
  bulk_reads (first ∷ second ∷ others) log stand =
      let (range, read, inside) =
        read_bulk_range_lem host.os storage first.offset
          (map (λ (k : IndexCandidate). k.offset) (second ∷ others)) log
          (All-offsets _ (first ∷ second ∷ others) stand) in
      (range, read, All-of_offsets _ (first ∷ second ∷ others) inside)

  -- A query without a sort gives its page, whatever part of the documents is cached and whether they
  -- are read one by one or in bulk: the matching documents in the order of the candidates, less those
  -- skipped, and up to the limit. The file holds a log, each candidate has the offset of a record of
  -- it, the record holds the document, and a cached document is that of the record at its offset.
  pub to_array-page :
      {es : List Entry} (candidates : List IndexCandidate)
      (cache : Option (DocumentCache Text DocumentRecord)) (limit : Option ℕ) (skip : ℕ)
      (docs : List DocumentRecord)
      → HoldsLog storage es
      → All (λ (k : IndexCandidate). (e : Entry) × Stands 12 es k.offset e) candidates
      → Coherent host js storage query cache
      → Reads host js storage query candidates docs
      → (after : Cursor) × (to_array host js storage query
            (record (new_cursor candidates cache) { limit_count = limit; skip_count = skip })
          ≡ (ok (page host js storage query skip limit docs), after))
  unfolding to_array new_cursor
  to_array-page candidates cache limit skip docs log stand coherent reads =
      let c = record (new_cursor candidates cache) { limit_count = limit; skip_count = skip } in
      let (after, is) =
        array_loop_lem candidates (suc (length candidates)) c docs (bulk_reads candidates log stand)
          (record { of_all = refl; coherent = coherent; decided = tt }) refl reads (omega arith) in
      let whole : skip - 0 ≡ skip = omega arith in
      (
        after,
        is
            ∙ ap
                (λ (n : ℕ). (
                  ok (limited (left limit 0) (drop n (matching host js storage query docs))),
                  after,
                ))
                whole
            ∙ ap (λ (l : Option ℕ). (ok (page host js storage query skip l docs), after))
                (left-zero limit),
      )

-- ===== src/Api/Cursor.antt =====
-- api/cursor.ts: the documents of a query, one by one. The storage is only read. The cache that the
-- cursor shares with its collection is a field of its state. Counts are integers that are not negative
-- here; `none` stands for any other number.
pub mod Reading
pub mod Pages
pub mod Collected
use pocket_db.Prelude.{
  ℕ, zero, suc, ◌+◌, ◌-◌, min, Bool, true, false, not, ◌&&◌, Option, none, some, List, [], ◌∷◌, map,
  ltb, leb, ◌==◌, if◌then◌else◌, length, drop, Result, bad_cursor_candidate, bad_limit, bad_skip,
  stuck, ok, err,
}
use pocket_db.Search.Values.{Text, DocumentRecord, text_equality}
use pocket_db.Search.Queries.{Js, after, CompiledQuery, and, no_queries}
use pocket_db.Search.Evaluate.{evaluate_compiled_query}
use pocket_db.Search.Sort.{SortDirection, SortField, parse_sort_spec, compare_documents}
use pocket_db.Storage.Buffers.{Buffer}
use pocket_db.Storage.Constants.{put_document_operation}
use pocket_db.Storage.OperationRecord.{OperationRecord, read_operation_from_buffer}
use pocket_db.Storage.DocumentOperation.{decode_put_document_payload}
use pocket_db.Storage.FileStorage.{
  FileStorage, BulkRange, read_operation_at_offset, read_bulk_range,
}
use pocket_db.Indexes.Buckets.{IndexCandidate}
use pocket_db.Api.Actions.{Action, pure, raise, lift, gets, modify, ◌>>=◌, ◌>>◌}
use pocket_db.Api.Host.{Host, encoder_of}
use pocket_db.Api.DocumentCache.{DocumentCache, get, set}

abbrev pub scan_preload_threshold : ℕ
scan_preload_threshold = 2

abbrev pub max_per_record_reads_before_bulk_escalation : ℕ
max_per_record_reads_before_bulk_escalation = 256

-- `identifier.equals(...)`
unfoldable pub bytes_same : Buffer → Buffer → Bool
bytes_same [] [] = true
bytes_same (a ∷ s) (b ∷ t) = a == b && bytes_same s t
bytes_same _ _ = false

-- The fields that change. `bulk_range` is `none` while it is `undefined`, and `some none` for `null`.
pub record Cursor : Type 0 where
  pub candidates : List IndexCandidate
  pub current_index : ℕ
  pub skipped_matches : ℕ
  pub returned_count : ℕ
  pub limit_count : Option ℕ
  pub skip_count : ℕ
  pub sort_fields : Option (List SortField)
  pub sorted_buffer : Option (List DocumentRecord)
  pub sorted_index : ℕ
  pub bulk_range : Option (Option BulkRange)
  pub per_record_reads : ℕ
  pub cache : Option (DocumentCache Text DocumentRecord)

-- The constructor.
unfoldable pub new_cursor :
    List IndexCandidate → Option (DocumentCache Text DocumentRecord) → Cursor
new_cursor candidates cache = record {
  candidates = candidates;
  current_index = 0;
  skipped_matches = 0;
  returned_count = 0;
  limit_count = none;
  skip_count = 0;
  sort_fields = none;
  sorted_buffer = none;
  sorted_index = 0;
  bulk_range = none;
  per_record_reads = 0;
  cache = cache;
}

-- `limit`
unfoldable pub set_limit : Option ℕ → Cursor → Result Cursor
set_limit none c = err bad_limit
set_limit (some count) c = ok (record c { limit_count = some count })

-- `skip`
unfoldable pub set_skip : Option ℕ → Cursor → Result Cursor
set_skip none c = err bad_skip
set_skip (some count) c = ok (record c { skip_count = count })

-- `sort`
unfoldable pub set_sort : List (Text × Option SortDirection) → Action Cursor (Unit {0})
set_sort spec = do
  fields ← lift (parse_sort_spec spec)
  modify (λ c. record c { sort_fields = some fields })

-- `this.limitCount !== null && this.returnedCount >= this.limitCount`
unfoldable pub limit_reached : Cursor → Bool
limit_reached c = elim c.limit_count [ none ↦ false | some limit ↦ leb limit c.returned_count ]

-- `isMatchAll`
unfoldable pub is_match_all : {js : Js} → CompiledQuery js → Bool
is_match_all (and no_queries) = true
is_match_all _ = false

unfoldable pub is_some : {A : Type 0} → Option A → Bool
is_some none = false
is_some (some _) = true

-- `Array.prototype.sort`, which is stable, by insertion: an element goes before the first that it is
-- not after.
unfoldable pub insert_document :
    List SortField → DocumentRecord → List DocumentRecord → Result (List DocumentRecord)
insert_document fields document [] = ok (document ∷ [])
insert_document fields document (first ∷ documents) =
    let rest = insert_document fields document documents in
    elim (compare_documents first document fields) [
      | err e ↦ err e
      | ok after ↦ ok (document ∷ first ∷ documents)
      | ok _ ↦ elim rest [ err e ↦ err e | ok sorted ↦ ok (first ∷ sorted) ]
    ]

unfoldable pub sort_loop :
    List SortField → List DocumentRecord → List DocumentRecord → Result (List DocumentRecord)
unfolding insert_document
sort_loop fields sorted [] = ok sorted
sort_loop fields sorted (document ∷ documents) = elim (insert_document fields document sorted) [
  | err e ↦ err e
  | ok sorted' ↦ sort_loop fields sorted' documents
]

module _ (host : Host) (js : Js) (storage : FileStorage) (query : CompiledQuery js) where
  -- The decision of `resolveBulkRange`, for the candidates.
  unfoldable pub decide_bulk_range : List IndexCandidate → Bool → Action Cursor (Option BulkRange)
  unfolding is_some
  decide_bulk_range [] force_full_read c = (ok none, record c { bulk_range = some none })
  decide_bulk_range (first ∷ others) force_full_read c =
      if ltb (length (first ∷ others)) scan_preload_threshold
      then (ok none, record c { bulk_range = some none })
      else if not force_full_read && is_some c.limit_count
      then (ok none, c)
      else elim (read_bulk_range host.os storage first.offset
          (map (λ (k : IndexCandidate). k.offset) others)) [
            | err e ↦ (err e, c)
            | ok range ↦ (ok (some range), record c { bulk_range = some (some range) })
          ]

  unfoldable pub resolve_bulk_range : Bool → Action Cursor (Option BulkRange)
  resolve_bulk_range force_full_read c = elim c.bulk_range [
    | some decided ↦ (ok decided, c)
    | none ↦ decide_bulk_range c.candidates force_full_read c
  ]

  -- The record at a candidate's offset, from the bulk buffer or by itself.
  unfoldable pub read_record : Option BulkRange → ℕ → Result OperationRecord
  read_record none offset = read_operation_at_offset host.os storage offset
  read_record (some range) offset =
      if ltb offset range.range_start
      then err stuck
      else read_operation_from_buffer range.buffer (offset - range.range_start)

  -- The document of a record.
  unfoldable pub document_of_record : OperationRecord → Result DocumentRecord
  unfolding bytes_same
  document_of_record operation =
      if bytes_same operation.identifier put_document_operation
      then elim (decode_put_document_payload (encoder_of host) operation.payload) [
        | err e ↦ err e
        | ok decoded ↦ ok decoded.document
      ]
      else err bad_cursor_candidate

  -- `this.cache.get`, which is skipped when there is no cache.
  unfoldable pub consult_cache : IndexCandidate → Action Cursor (Option DocumentRecord)
  consult_cache candidate c = elim c.cache [
    | none ↦ (ok none, c)
    | some cache ↦
        let (cache', found) = get text_equality cache candidate.id candidate.offset in
        (ok found, record c { cache = some cache' })
  ]

  -- `this.cache.set`
  unfoldable pub fill_cache : IndexCandidate → DocumentRecord → Cursor → Cursor
  fill_cache candidate document c = elim c.cache [
    | none ↦ c
    | some cache ↦ record c {
      cache = some (set text_equality host.size_of cache candidate.id candidate.offset document);
    }
  ]

  -- What follows when the cache does not hold the candidate.
  unfoldable pub read_uncached : IndexCandidate → Bool → Action Cursor DocumentRecord
  unfolding resolve_bulk_range read_record document_of_record fill_cache
  read_uncached candidate force_full_read = do
    range ← resolve_bulk_range force_full_read
    operation ← lift (read_record range candidate.offset)
    document ← lift (document_of_record operation)
    modify (fill_cache candidate document)
    pure document

  unfoldable pub read_candidate_document : IndexCandidate → Bool → Action Cursor DocumentRecord
  unfolding consult_cache read_uncached
  read_candidate_document candidate force_full_read = do
    cached ← consult_cache candidate
    elim cached [ some document ↦ pure document | none ↦ read_uncached candidate force_full_read ]

  -- The `if (this.bulkRange === undefined)` of `next`.
  unfoldable pub escalate : Action Cursor (Unit {0})
  unfolding resolve_bulk_range
  escalate c = elim c.bulk_range [
    | some _ ↦ (ok tt, c)
    | none ↦
        let reads = c.per_record_reads + 1 in
        let c' = record c { per_record_reads = reads } in
        if leb max_per_record_reads_before_bulk_escalation reads
        then (resolve_bulk_range true >>= λ _. pure tt) c'
        else (ok tt, c')
  ]

  unfoldable pub apply_match_all_skip_fast_path : Cursor → Cursor
  unfolding is_match_all
  apply_match_all_skip_fast_path c =
      if c.current_index == 0 && c.skipped_matches == 0 && ltb 0 c.skip_count && is_match_all query
      then record c {
        current_index = min c.skip_count (length c.candidates);
        skipped_matches = c.skip_count;
      }
      else c

  -- The end of a round of `next`, with what the next round would do.
  unfoldable pub take_or_continue :
      DocumentRecord → Action Cursor (Option DocumentRecord) → Action Cursor (Option DocumentRecord)
  take_or_continue document continue c =
      if not (evaluate_compiled_query js query document)
      then continue c
      else if ltb c.skipped_matches c.skip_count
      then continue (record c { skipped_matches = c.skipped_matches + 1 })
      else (ok (some document), record c { returned_count = c.returned_count + 1 })

  -- The loop of `next`, over the candidates from `currentIndex` on.
  unfoldable pub next_loop : List IndexCandidate → Action Cursor (Option DocumentRecord)
  unfolding limit_reached read_candidate_document escalate take_or_continue is_some
  next_loop [] c = (ok none, c)
  next_loop (candidate ∷ candidates) c =
      let continue = next_loop candidates in
      let round : Action Cursor (Option DocumentRecord) = do
        document ← read_candidate_document candidate (not (is_some c.limit_count))
        escalate
        take_or_continue document continue
      in if limit_reached c
        then (ok none, c)
        else round (record c { current_index = c.current_index + 1 })

  -- The loop of `collectAllMatching`
  unfoldable pub collect_all_matching : List IndexCandidate → Action Cursor (List DocumentRecord)
  unfolding read_candidate_document
  collect_all_matching [] = pure []
  collect_all_matching (candidate ∷ candidates) = do
    document ← read_candidate_document candidate true
    others ← collect_all_matching candidates
    pure (if evaluate_compiled_query js query document then document ∷ others else others)

  -- The loop of `nextSorted`, over the sorted documents from `sortedIndex` on.
  unfoldable pub sorted_loop : List DocumentRecord → Action Cursor (Option DocumentRecord)
  unfolding limit_reached
  sorted_loop [] c = (ok none, c)
  sorted_loop (document ∷ documents) c =
      let continue = sorted_loop documents in
      let c' = record c { sorted_index = c.sorted_index + 1 } in
      if limit_reached c
      then (ok none, c)
      else if ltb c'.skipped_matches c'.skip_count
      then continue (record c' { skipped_matches = c'.skipped_matches + 1 })
      else (ok (some document), record c' { returned_count = c'.returned_count + 1 })

  -- The sorted documents, which the first call collects.
  unfoldable pub sorted_documents : List SortField → Action Cursor (List DocumentRecord)
  unfolding collect_all_matching sort_loop
  sorted_documents fields c = elim c.sorted_buffer [
    | some buffer ↦ (ok buffer, c)
    | none ↦
        (do
          documents ← collect_all_matching c.candidates
          sorted ← lift (sort_loop fields [] documents)
          modify (λ d. record d { sorted_buffer = some sorted; sorted_index = 0 })
          pure sorted)
          c
  ]

  unfoldable pub next_sorted : List SortField → Action Cursor (Option DocumentRecord)
  unfolding sorted_documents sorted_loop
  next_sorted fields = do
    buffer ← sorted_documents fields
    index ← gets (λ c. c.sorted_index)
    sorted_loop (drop index buffer)

  unfoldable pub next_unsorted : Action Cursor (Option DocumentRecord)
  unfolding apply_match_all_skip_fast_path next_loop
  next_unsorted c =
      let c' = apply_match_all_skip_fast_path c in
      next_loop (drop c'.current_index c'.candidates) c'

  unfoldable pub next : Action Cursor (Option DocumentRecord)
  unfolding next_sorted next_unsorted
  next c = elim c.sort_fields [ some fields ↦ next_sorted fields c | none ↦ next_unsorted c ]

  -- The loop of `toArray`.
  unfoldable pub array_loop : ℕ → Action Cursor (List DocumentRecord)
  unfolding next
  array_loop zero = raise stuck
  array_loop (suc fuel) = do
    document ← next
    elim document [ none ↦ pure [] | some d ↦ do others ← array_loop fuel; pure (d ∷ others) ]

  -- Every call that returns a document passes a candidate, so one call for each and a last one are enough.
  unfoldable pub to_array : Action Cursor (List DocumentRecord)
  unfolding array_loop
  to_array c = array_loop (suc (length c.candidates)) c

  -- The loop of `count`.
  unfoldable pub count_loop : List IndexCandidate → Action Cursor ℕ
  unfolding read_candidate_document
  count_loop [] = pure 0
  count_loop (candidate ∷ candidates) = do
    document ← read_candidate_document candidate true
    total ← count_loop candidates
    pure (if evaluate_compiled_query js query document then total + 1 else total)

  unfoldable pub count : Action Cursor ℕ
  unfolding count_loop is_match_all
  count c =
      let counted = count_loop c.candidates c in
      if is_match_all query then (ok (length c.candidates), c) else counted

-- ===== src/Api/Cursor/Reading.antt =====
-- What the cursors of api/cursor.ts read: from the cache, from a bulk read, or record by record.
use pocket_db.Prelude.{
  ℕ, ◌+◌, ◌-◌, ◌≡◌, refl, sym, ap, ◌∙◌, subst, inl, inr, Bool, true, false, not, ◌&&◌, Option, none,
  some, List, [], ◌∷◌, map, arith, ltb, leb, if◌then◌else◌, le→ltb, Bool-cases, Option-cases,
  length, All, Result, ok-injective, Result-cases, none-some, ok, err, Memᴰ,
}
use pocket_db.Search.Values.{Text, DocumentRecord, text_equality}
use pocket_db.Search.Queries.{Js, CompiledQuery}
use pocket_db.Search.Sort.{SortField}
use pocket_db.Storage.OperationRecord.{OperationRecord, read_operation_from_buffer}
use pocket_db.Storage.FileStorage.{
  FileStorage, BulkRange, read_operation_at_offset, read_bulk_range,
}
use pocket_db.Indexes.Buckets.{IndexCandidate}
use pocket_db.Api.Host.{Host}
use pocket_db.Api.Actions.{follow}
use pocket_db.Api.DocumentCache.{CacheEntry, DocumentCache, get, set}
use pocket_db.Api.DocumentCache.Entries.{All-get, All-set}
use pocket_db.Api.Cursor.{
  Cursor, scan_preload_threshold, max_per_record_reads_before_bulk_escalation, is_some,
  decide_bulk_range, resolve_bulk_range, read_record, document_of_record, consult_cache, fill_cache,
  read_uncached, read_candidate_document, escalate,
}

-- What the loops of a cursor look at, besides the document.
abbrev pub View : Type 0
View = List IndexCandidate × ℕ × ℕ × ℕ × Option ℕ × ℕ × Option (List SortField)

abbrev pub view : Cursor → View
view c = (
  c.candidates, c.current_index, c.skipped_matches, c.returned_count, c.limit_count, c.skip_count,
  c.sort_fields,
)

All-Mem : {A : Type 0} (P : A → Type 0) (xs : List A) (x : A) → All P xs → Memᴰ x xs → P x
All-Mem P [] x all m = elim m [ ]
All-Mem P (y ∷ xs) x all (Memᴰ.head e) = subst P (sym e) all.0
All-Mem P (y ∷ xs) x all (Memᴰ.tail m) = All-Mem P xs x all.1 m

module _ (host : Host) (js : Js) (storage : FileStorage) (query : CompiledQuery js) where
  -- The document of the record at an offset.
  abbrev pub read_put : ℕ → Result DocumentRecord
  read_put offset = elim (read_operation_at_offset host.os storage offset) [
    | err e ↦ err e
    | ok operation ↦ document_of_record host js storage query operation
  ]

  -- A cached document is that of the record at its offset.
  abbrev pub IsCoherent : Text × CacheEntry DocumentRecord → Type 0
  IsCoherent (id, entry) = read_put entry.offset ≡ ok entry.document

  abbrev pub Coherent : Option (DocumentCache Text DocumentRecord) → Type 0
  Coherent none = Unit
  Coherent (some cache) = All IsCoherent cache.entries

  -- The record of a candidate is the same in a bulk range and in the file.
  abbrev pub InRange : BulkRange → IndexCandidate → Type 0
  InRange range k =
      (ltb k.offset range.range_start ≡ false)
      × (read_operation_from_buffer range.buffer (k.offset - range.range_start)
          ≡ read_operation_at_offset host.os storage k.offset)

  abbrev pub Usable : List IndexCandidate → Option BulkRange → Type 0
  Usable all none = Unit
  Usable all (some range) = All (InRange range) all

  abbrev pub Decided : List IndexCandidate → Option (Option BulkRange) → Type 0
  Decided all none = Unit
  Decided all (some range) = Usable all range

  -- The bulk read of the candidates, which is made for two or more, gives their records.
  abbrev pub BulkReads : List IndexCandidate → Type 0
  BulkReads [] = Unit
  BulkReads (first ∷ []) = Unit
  BulkReads (first ∷ second ∷ others) =
      (range : BulkRange) × (read_bulk_range host.os storage first.offset
          (map (λ (k : IndexCandidate). k.offset) (second ∷ others))
        ≡ ok range)
      × All (InRange range) (first ∷ second ∷ others)

  pub record Ready (all : List IndexCandidate) (c : Cursor) : Type 0 where
    pub of_all : c.candidates ≡ all
    pub coherent : Coherent c.cache
    pub decided : Decided all c.bulk_range

  -- The outcome of a step that changes only how the cursor reads.
  pub record Outcome {A : Type 0} (all : List IndexCandidate) (c : Cursor) (r : Result A × Cursor)
      (a : A) : Type 0 where
    pub after : Cursor
    pub result : r ≡ (ok a, after)
    pub ready : Ready all after
    pub same_view : view after ≡ view c

  decide_lem :
      (all : List IndexCandidate) (force : Bool) (c : Cursor)
      → Ready all c
      → BulkReads all
      → (range : Option BulkRange) × Usable all range
        × Outcome all c (decide_bulk_range host js storage query all force c) range
  unfolding decide_bulk_range
  decide_lem [] force c ready bulk = (
    none,
    tt,
    record {
      after = record c { bulk_range = some none };
      result = refl;
      ready = record { of_all = ready.of_all; coherent = ready.coherent; decided = tt };
      same_view = refl;
    },
  )
  decide_lem (first ∷ []) force c ready bulk = (
    none,
    tt,
    record {
      after = record c { bulk_range = some none };
      result = refl;
      ready = record { of_all = ready.of_all; coherent = ready.coherent; decided = tt };
      same_view = refl;
    },
  )
  decide_lem (first ∷ second ∷ others) force c ready (range, read, inside) =
      let many : ltb (length (first ∷ second ∷ others)) scan_preload_threshold ≡ false =
        le→ltb _ _ (omega arith) in
      elim (Bool-cases (not force && is_some c.limit_count)) [
        | inl e ↦ (
          none,
          tt,
          record { after = c; result = rw (many, e) refl; ready = ready; same_view = refl },
        )
        | inr e ↦ (
          some range,
          inside,
          record {
            after = record c { bulk_range = some (some range) };
            result = rw (many, e, read) refl;
            ready = record { of_all = ready.of_all; coherent = ready.coherent; decided = inside };
            same_view = refl;
          },
        )
      ]

  resolve_lem :
      (all : List IndexCandidate) (force : Bool) (c : Cursor)
      → Ready all c
      → BulkReads all
      → (range : Option BulkRange) × Usable all range
        × Outcome all c (resolve_bulk_range host js storage query force c) range
  unfolding resolve_bulk_range
  resolve_lem all force c ready bulk = elim (Option-cases c.bulk_range) [
    | inr (range, p) ↦ (
      range,
      subst (Decided all) p ready.decided,
      record { after = c; result = by_choice c p; ready = ready; same_view = refl },
    )
    | inl p ↦
        let (range, usable, o) = decide_lem all force c ready bulk in
        (
          range,
          usable,
          record {
            after = o.after;
            result =
                by_decision c p
                ∙ ap
                    (λ (l : List IndexCandidate). decide_bulk_range host js storage query l force c)
                    ready.of_all
                ∙ o.result;
            ready = o.ready;
            same_view = o.same_view;
          },
        )
  ]
    where
      choose : Cursor → Option (Option BulkRange) → Result (Option BulkRange) × Cursor
      choose d o = elim o [
        | some decided ↦ (ok decided, d)
        | none ↦ decide_bulk_range host js storage query d.candidates force d
      ]

      by_choice :
          (d : Cursor) {range : Option BulkRange}
          → d.bulk_range ≡ some range
          → resolve_bulk_range host js storage query force d ≡ (ok range, d)
      by_choice d p = ap (choose d) p

      by_decision :
          (d : Cursor)
          → d.bulk_range ≡ none
          → resolve_bulk_range host js storage query force d
            ≡ decide_bulk_range host js storage query d.candidates force d
      by_decision d p = ap (choose d) p

  consult_lem :
      (all : List IndexCandidate) (k : IndexCandidate) (c : Cursor)
      → Ready all c
      → (found : Option DocumentRecord) × Outcome all c
          (consult_cache host js storage query k c)
          found
        × ((d : DocumentRecord) → found ≡ some d → read_put k.offset ≡ ok d)
  unfolding consult_cache
  consult_lem all k c ready = elim (Option-cases c.cache) [
    | inl p ↦ (
      none,
      record { after = c; result = by_none c p; ready = ready; same_view = refl },
      λ d h. absurd (none-some h),
    )
    | inr (cache, p) ↦
        let coherent : All IsCoherent cache.entries = subst Coherent p ready.coherent in
        let (kept, hit) = All-get IsCoherent cache k.id k.offset coherent in
        let (cache', found) = get text_equality cache k.id k.offset in
        (
          found,
          record {
            after = record c { cache = some cache' };
            result = by_some c p;
            ready = record { of_all = ready.of_all; coherent = kept; decided = ready.decided };
            same_view = refl;
          },
          λ d h. let (entry, holds, at, is) = hit d h in ap read_put (sym at) ∙ holds ∙ ap ok is,
        )
  ]
    where
      choose :
          Cursor
          → Option (DocumentCache Text DocumentRecord)
          → Result (Option DocumentRecord) × Cursor
      choose d o = elim o [
        | none ↦ (ok none, d)
        | some cache ↦
            let (cache', found) = get text_equality cache k.id k.offset in
            (ok found, record d { cache = some cache' })
      ]

      by_none :
          (d : Cursor) → d.cache ≡ none → consult_cache host js storage query k d ≡ (ok none, d)
      by_none d p = ap (choose d) p

      by_some :
          (d : Cursor) {cache : DocumentCache Text DocumentRecord}
          → d.cache ≡ some cache
          → consult_cache host js storage query k d ≡ choose d (some cache)
      by_some d p = ap (choose d) p

  fill_lem :
      (all : List IndexCandidate) (k : IndexCandidate) (document : DocumentRecord) (c : Cursor)
      → Ready all c
      → read_put k.offset ≡ ok document
      → Ready all (fill_cache host js storage query k document c)
        × (view (fill_cache host js storage query k document c) ≡ view c)
  unfolding fill_cache
  fill_lem all k document c ready holds = elim (Option-cases c.cache) [
    | inl p ↦
        subst (λ (d : Cursor). Ready all d × (view d ≡ view c)) (sym (ap (choose c) p))
          (ready, refl)
    | inr (cache, p) ↦
        let coherent : All IsCoherent cache.entries = subst Coherent p ready.coherent in
        subst (λ (d : Cursor). Ready all d × (view d ≡ view c)) (sym (ap (choose c) p))
          (
            record {
              of_all = ready.of_all;
              coherent =
                  All-set IsCoherent host.size_of cache k.id k.offset document coherent
                    (λ bytes. holds);
              decided = ready.decided;
            },
            refl,
          )
  ]
    where
      choose : Cursor → Option (DocumentCache Text DocumentRecord) → Cursor
      choose d o = elim o [
        | none ↦ d
        | some cache ↦ record d {
          cache = some (set text_equality host.size_of cache k.id k.offset document);
        }
      ]

  read_record_lem :
      (all : List IndexCandidate) (k : IndexCandidate) (range : Option BulkRange)
      → Usable all range
      → Memᴰ k all
      → read_record host js storage query range k.offset
        ≡ read_operation_at_offset host.os storage k.offset
  unfolding read_record
  read_record_lem all k none usable m = refl
  read_record_lem all k (some range) usable m =
      let (behind, same) = All-Mem (InRange range) all k usable m in rw behind same

  read_put_parts :
      (offset : ℕ) {d : DocumentRecord}
      → read_put offset ≡ ok d
      → (operation : OperationRecord) × (read_operation_at_offset host.os storage offset
          ≡ ok operation)
        × (document_of_record host js storage query operation ≡ ok d)
  read_put_parts offset h = elim (Result-cases (read_operation_at_offset host.os storage offset)) [
    | inl (operation, p) ↦ (operation, p, sym (rw (read_put, p) refl) ∙ h)
    | inr (e, p) ↦
        let threw : read_put offset ≡ err e = rw (read_put, p) refl in absurd (cc (threw, h))
  ]

  read_uncached_lem :
      (all : List IndexCandidate) (k : IndexCandidate) (force : Bool) (c : Cursor)
      {d : DocumentRecord}
      → Ready all c
      → BulkReads all
      → Memᴰ k all
      → read_put k.offset ≡ ok d
      → Outcome all c (read_uncached host js storage query k force c) d
  unfolding read_uncached
  read_uncached_lem all k force c {d} ready bulk m holds =
      let (range, usable, o) = resolve_lem all force c ready bulk in
      let (operation, read, decoded) = read_put_parts k.offset holds in
      let here = read_record_lem all k range usable m ∙ read in
      let (ready', same) = fill_lem all k d o.after o.ready holds in
      record {
        after = fill_cache host js storage query k d o.after;
        result = rw (o.result, here, decoded) refl;
        ready = ready';
        same_view = same ∙ o.same_view;
      }

  -- A candidate is read as the document of the record at its offset, whichever way it is read.
  pub read_candidate_lem :
      (all : List IndexCandidate) (k : IndexCandidate) (force : Bool) (c : Cursor)
      {d : DocumentRecord}
      → Ready all c
      → BulkReads all
      → Memᴰ k all
      → read_put k.offset ≡ ok d
      → Outcome all c (read_candidate_document host js storage query k force c) d
  unfolding read_candidate_document
  read_candidate_lem all k force c {d} ready bulk m holds =
      let (found, o, hit) = consult_lem all k c ready in
      elim (Option-cases found) [
        | inr (d', p) ↦
            let same : d' ≡ d = ok-injective (sym (hit d' p) ∙ holds) in
            record {
              after = o.after;
              result = rw (o.result, p, same) refl;
              ready = o.ready;
              same_view = o.same_view;
            }
        | inl p ↦
            let u = read_uncached_lem all k force o.after o.ready bulk m holds in
            record {
              after = u.after;
              result = rw (o.result, p) u.result;
              ready = u.ready;
              same_view = u.same_view ∙ o.same_view;
            }
      ]

  pub escalate_lem :
      (all : List IndexCandidate) (c : Cursor)
      → Ready all c
      → BulkReads all
      → Outcome all c (escalate host js storage query c) tt
  unfolding escalate
  escalate_lem all c ready bulk = elim (Option-cases c.bulk_range) [
    | inr (range, p) ↦ record {
      after = c;
      result = ap (choose c) p;
      ready = ready;
      same_view = refl;
    }
    | inl p ↦
        let c' = record c { per_record_reads = c.per_record_reads + 1 } in
        let ready' : Ready all c' = record {
          of_all = ready.of_all;
          coherent = ready.coherent;
          decided = ready.decided;
        } in
        elim (Bool-cases
          (leb max_per_record_reads_before_bulk_escalation (c.per_record_reads + 1))) [
            | inr e ↦ record {
              after = c';
              result = ap (choose c) p ∙ rw e refl;
              ready = ready';
              same_view = refl;
            }
            | inl e ↦
                let (range, usable, o) = resolve_lem all true c' ready' bulk in
                record {
                  after = o.after;
                  result = ap (choose c) p ∙ rw (e, o.result) refl;
                  ready = o.ready;
                  same_view = o.same_view;
                }
          ]
  ]
    where
      choose : Cursor → Option (Option BulkRange) → Result (Unit {0}) × Cursor
      choose d o = elim o [
        | some _ ↦ (ok tt, d)
        | none ↦
            let reads = d.per_record_reads + 1 in
            let d' = record d { per_record_reads = reads } in
            if leb max_per_record_reads_before_bulk_escalation reads
            then follow (λ _ s. (ok tt, s)) (resolve_bulk_range host js storage query true d')
            else (ok tt, d')
      ]

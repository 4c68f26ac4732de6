-- ===== src/Api/Collection/Found.antt =====
-- find(query).toArray() of api/collection.ts: the compiler, the plan and the cursor together.
use pocket_db.Prelude.{
  ◌≡◌, refl, sym, ap, ◌∙◌, inl, inr, true, none, List, [], ◌∷◌, Bool-cases, Option-cases, All,
  ok-injective, ok, Memᴰ,
}
use pocket_db.Search.Values.{Text, DocumentRecord}
use pocket_db.Search.Queries.{Js, CompiledQuery}
use pocket_db.Search.Evaluate.{evaluate_compiled_query}
use pocket_db.Search.Compile.{RegExps, Query, compile_query}
use pocket_db.Storage.FileStorage.{FileStorage}
use pocket_db.Storage.FileStorage.Bulk.{Stands}
use pocket_db.Storage.FileStorage.Replay.Log.{Entry, HoldsLog}
use pocket_db.Indexes.Buckets.{IndexCandidate}
use pocket_db.Indexes.PrimaryIndex.{PrimaryIndex}
use pocket_db.Indexes.Manager.{IndexManager, plan_loop, plan, field_predicates}
use pocket_db.Indexes.Manager.Plan.{Keeps, InPrimary, FiniteBounds, plan_complete}
use pocket_db.Api.Host.{Host}
use pocket_db.Api.Cursor.{new_cursor, to_array}
use pocket_db.Api.Cursor.Reading.{read_put, Coherent}
use pocket_db.Api.Cursor.Pages.{matching, Reads}
use pocket_db.Api.Cursor.Collected.{to_array-page}
use pocket_db.Api.Collection.{State, change}
use pocket_db.Api.Collection.Queries.{find, find_all}

plan_residual :
    (js : Js) (manager : IndexManager) (primary : PrimaryIndex) (query : CompiledQuery js)
    → (plan js manager query primary).residual_query ≡ query
unfolding plan
plan_residual js manager primary query =
    elim (Option-cases (plan_loop js manager primary (field_predicates js query) none)) [
      | inl p ↦ rw (plan, p) refl
      | inr (choice, p) ↦ rw (plan, p) refl
    ]

module _ (host : Host) (js : Js) (storage : FileStorage) (query : CompiledQuery js) where
  Reads-Mem :
      (ks : List IndexCandidate) (docs : List DocumentRecord) (k : IndexCandidate)
      {d : DocumentRecord}
      → Reads host js storage query ks docs
      → read_put host js storage query k.offset ≡ ok d
      → Memᴰ k ks
      → Memᴰ d docs
  Reads-Mem [] docs k reads read m = elim m [ ]
  Reads-Mem (first ∷ ks) [] k reads read m = absurd reads
  Reads-Mem (first ∷ ks) (d' ∷ docs) k (here, reads) read (Memᴰ.head e) =
      let same : read_put host js storage query k.offset ≡ ok d' =
        ap (λ (c : IndexCandidate). read_put host js storage query c.offset) e ∙ here in
      Memᴰ.head (ok-injective (sym read ∙ same))
  Reads-Mem (first ∷ ks) (d' ∷ docs) k (here, reads) read (Memᴰ.tail m) =
      Memᴰ.tail (Reads-Mem ks docs k reads read m)

  Mem-matching :
      (docs : List DocumentRecord) (d : DocumentRecord)
      → Memᴰ d docs
      → evaluate_compiled_query js query d ≡ true
      → Memᴰ d (matching host js storage query docs)
  Mem-matching [] d m h = elim m [ ]
  Mem-matching (first ∷ docs) d (Memᴰ.head e) h =
      let kept : evaluate_compiled_query js query first ≡ true =
        ap (evaluate_compiled_query js query) (sym e) ∙ h in
      rw kept (Memᴰ.head e)
  Mem-matching (first ∷ docs) d (Memᴰ.tail m) h =
      let later = Mem-matching docs d m h in
      elim (Bool-cases (evaluate_compiled_query js query first)) [
        | inl p ↦ rw p (Memᴰ.tail later)
        | inr p ↦ rw p later
      ]

module _ (host : Host) (js : Js) (re : RegExps js) where
  -- What `find(query).toArray()` returns are the documents of the planned candidates that match the
  -- compiled query, and none that matches is missing: a document that the indexes of the collection
  -- know and that its record holds is among them, whichever index the plan has chosen and whatever the
  -- cache holds. The file holds a log, the candidates have the offsets of records of documents, cached
  -- documents are those of the file, and no predicate that the planner reads compares with an
  -- infinity.
  pub find_all_complete :
      {es : List Entry} (s : State) (query : Query) {compiled : CompiledQuery js}
      (docs : List DocumentRecord) (document : DocumentRecord) (id : Text)
      (candidate : IndexCandidate)
      → compile_query js re query ≡ ok compiled
      → HoldsLog s.storage es
      → All
          (λ (k : IndexCandidate). (e : Entry) × Stands 12 es k.offset e)
          (plan js s.self.index_manager compiled s.self.primary_index).candidates
      → Coherent host js s.storage compiled s.self.cache
      → Reads host js s.storage compiled
          (plan js s.self.index_manager compiled s.self.primary_index).candidates
          docs
      → All (Keeps document id candidate) s.self.index_manager
      → InPrimary document id candidate s.self.primary_index
      → All (FiniteBounds document id candidate js) (field_predicates js compiled)
      → read_put host js s.storage compiled candidate.offset ≡ ok document
      → evaluate_compiled_query js compiled document ≡ true
      → (s' : State) × (find_all host js re query s
          ≡ (ok (matching host js s.storage compiled docs), s'))
        × Memᴰ document (matching host js s.storage compiled docs)
  unfolding find_all find plan new_cursor
  find_all_complete s query {compiled} docs document id candidate compiles log stand coherent reads
        keeps known finite read sat =
      let planned = plan js s.self.index_manager compiled s.self.primary_index in
      let (after, is) =
        to_array-page host js s.storage compiled planned.candidates s.self.cache none 0 docs log
          stand coherent reads in
      let done : to_array host js s.storage planned.residual_query
            (new_cursor planned.candidates s.self.cache)
          ≡ (ok (matching host js s.storage compiled docs), after) =
        ap
          (λ (q : CompiledQuery js).
            to_array host js s.storage q (new_cursor planned.candidates s.self.cache))
          (plan_residual js s.self.index_manager s.self.primary_index compiled)
        ∙ is in
      let found =
        plan_complete document id candidate js s.self.index_manager s.self.primary_index compiled
          keeps known finite sat in
      (
        change (λ c. record c { cache = after.cache }) s,
        rw (find_all, find, compiles, done) refl,
        Mem-matching host js s.storage compiled docs document
            (Reads-Mem host js s.storage compiled planned.candidates docs candidate reads read
              found)
            sat,
      )

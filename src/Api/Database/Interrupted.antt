-- ===== src/Api/Database/Interrupted.antt =====
-- Transactions of api/collection.ts that were begun and never committed, and what api/database.ts makes
-- of the file when it is opened again.
use pocket_db.Prelude.{
  ℕ, ◌+◌, ◌≡◌, refl, sym, ap, ◌∙◌, none, List, [], ◌∷◌, ◌++◌, append-nil, append_assoc, arith,
  add-zero, ap₂, length, All, All-append, Result, ◌>>=◌, nested_begin, ok, err,
}
use pocket_db.Storage.Buffers.{Buffer}
use pocket_db.Storage.OperationRecord.{OperationRecord}
use pocket_db.Storage.FileStorage.{FileStorage, append_operation, read_operations}
use pocket_db.Storage.FileStorage.Append.{append_operation-HoldsLog}
use pocket_db.Storage.FileStorage.Replay.Log.{
  Entry, IsWritableEntry, IsTorn, HoldsLog, stored, stored_from, after_crash,
  read_operations-frames, read_operations_recovers,
}
use pocket_db.Api.Host.{Host}
use pocket_db.Api.Database.{Database, empty_database, load_loop, open_database}
use pocket_db.Api.Database.Replay.{
  IsBegin, IsInner, InnerRecord, Group, IsGroup, records, apply_groups, load_loop_uncommitted,
  load_loop_nested,
}

abbrev pub InnerEntry : Entry → Type 0
InnerEntry e = IsInner e.identifier

abbrev pub size : List Entry → ℕ
size [] = 0
size (e ∷ es) = (8 + length e.payload + 4) + size es

pub stored_from-append :
    (o : ℕ) (es fs : List Entry)
    → stored_from o (es ++ fs) ≡ stored_from o es ++ stored_from (o + size es) fs
stored_from-append o [] fs = rw add-zero refl
stored_from-append o (e ∷ es) fs = ap (◌∷◌ (stored o e)) (
    stored_from-append (o + (8 + length e.payload + 4)) es fs
    ∙ ap (λ (k : ℕ). stored_from (o + (8 + length e.payload + 4)) es ++ stored_from k fs)
        (omega arith))

All-stored_from : (o : ℕ) (es : List Entry) → All InnerEntry es → All InnerRecord (stored_from o es)
All-stored_from o [] h = tt
All-stored_from o (e ∷ es) (h, hs) = (h, All-stored_from (o + (8 + length e.payload + 4)) es hs)

module _ (host : Host) where
  pub open_database_of :
      (s : FileStorage) {operations : List OperationRecord} {s' : FileStorage}
      → read_operations host.os host.chunk_bytes s ≡ ok (operations, s')
      → open_database host s
        ≡ (do db ← load_loop host s empty_database none operations; ok (s', db))
  unfolding open_database
  open_database_of s h = rw (open_database, h) refl

  -- The log of a file in which the groups, and then a transaction without a commit.
  module _ (es : List Entry) (groups : List Group) (begun : Entry) (puts : List Entry)
      (same : records groups ≡ stored_from 12 es) (whole : All IsGroup groups)
      (begins : IsBegin begun.identifier) (inner : All InnerEntry puts) where
    -- What the replay of the log, and of entries behind it, comes to.
    left_out :
        (s : FileStorage) (more : List Entry)
        → All InnerEntry more
        → load_loop host s empty_database none (stored_from 12 (es ++ (begun ∷ (puts ++ more))))
          ≡ apply_groups host s empty_database groups
    left_out s more inner_more =
        let behind = 12 + size es in
        let next = behind + (8 + length begun.payload + 4) in
        ap (load_loop host s empty_database none) (
          stored_from-append 12 es (begun ∷ (puts ++ more))
          ∙ ap (λ (l : List OperationRecord). l ++ stored_from behind (begun ∷ (puts ++ more)))
              (sym same))
        ∙ load_loop_uncommitted host s groups (stored behind begun)
            (stored_from next (puts ++ more)) whole begins
            (All-stored_from next (puts ++ more) (All-append InnerEntry puts more inner inner_more))

    -- After a crash between the begin of a transaction and its commit, whatever part of the record then
    -- being written reached the file, the database that is opened is that of the groups before the
    -- transaction: no operation of the transaction is applied. The begin and the operations stay in the
    -- log.
    pub open_database_atomic :
        {s : FileStorage} (e : Entry) (part : Buffer)
        → HoldsLog s (es ++ (begun ∷ puts))
        → IsWritableEntry e
        → IsTorn e part
        → (s' : FileStorage) × (open_database host (after_crash s part)
            ≡ (do db ← apply_groups host (after_crash s part) empty_database groups; ok (s', db)))
          × HoldsLog s' (es ++ (begun ∷ puts))
    open_database_atomic {s} e part log w torn =
        let (s', recovered, log', _, _) =
          read_operations_recovers host.os host.chunk_bytes e part log w torn in
        let crashed = after_crash s part in
        let replayed =
          ap
            (λ (l : List Entry).
              load_loop host crashed empty_database none (stored_from 12 (es ++ (begun ∷ l))))
            (sym (append-nil puts))
          ∙ left_out crashed [] tt in
        (
          s',
          open_database_of crashed recovered
              ∙ ap (λ (r : Result Database). do db ← r; ok (s', db)) replayed,
          log',
        )

    appended_log :
        (e : Entry) → (es ++ (begun ∷ puts)) ++ (e ∷ []) ≡ es ++ (begun ∷ (puts ++ (e ∷ [])))
    appended_log e = append_assoc es (begun ∷ puts) (e ∷ [])

    -- An operation that is appended behind a transaction which was never committed is written, and is
    -- not there when the file is opened again: the database is that of the groups before the transaction.
    pub append_operation_lost :
        {s : FileStorage} (e : Entry)
        → HoldsLog s (es ++ (begun ∷ puts))
        → IsWritableEntry e
        → InnerEntry e
        → (s' : FileStorage) × (append_operation host.os s e.identifier e.payload
            ≡ ok (s', length s.file))
          × (open_database host s'
              ≡ (do db ← apply_groups host s' empty_database groups; ok (s', db)))
    append_operation_lost {s} e log w inner_e =
        let (s', written, log', _, _, _, _) = append_operation-HoldsLog host.os e log w in
        (
          s',
          written,
          open_database_of s' (read_operations-frames host.os host.chunk_bytes log')
              ∙ ap
                  (λ (l : List Entry). do
                    db ← load_loop host s' empty_database none (stored_from 12 l)
                    ok (s', db))
                  (appended_log e)
              ∙ ap (λ (r : Result Database). do db ← r; ok (s', db))
                  (left_out s' (e ∷ []) (inner_e, tt)),
        )

    finish :
        (s : FileStorage) {r : Result Database}
        → r ≡ (do db ← apply_groups host s empty_database groups; err nested_begin)
        → ◌≡◌ {A = Result (FileStorage × Database)}
            (do db ← r; ok (s, db))
            (do db ← apply_groups host s empty_database groups; err nested_begin)
    finish s h =
        ap (λ (r : Result Database). do db ← r; ok (s, db)) h
        ∙ still (apply_groups host s empty_database groups)
      where
        still :
            (r : Result Database)
            → ◌≡◌ {A = Result (FileStorage × Database)}
                (do db ← (do d ← r; err nested_begin); ok (s, db))
                (do db ← r; err nested_begin)
        still (ok db) = refl
        still (err e) = refl

    -- The begin of another transaction behind it makes the file one that cannot be opened.
    pub append_operation_unopenable :
        {s : FileStorage} (e : Entry)
        → HoldsLog s (es ++ (begun ∷ puts))
        → IsWritableEntry e
        → IsBegin e.identifier
        → (s' : FileStorage) × (append_operation host.os s e.identifier e.payload
            ≡ ok (s', length s.file))
          × (open_database host s'
              ≡ (do db ← apply_groups host s' empty_database groups; err nested_begin))
    append_operation_unopenable {s} e log w again =
        let (s', written, log', _, _, _, _) = append_operation-HoldsLog host.os e log w in
        let behind = 12 + size es in
        let next = behind + (8 + length begun.payload + 4) in
        let shape : stored_from 12 ((es ++ (begun ∷ puts)) ++ (e ∷ []))
            ≡ records groups
              ++ (stored behind begun
                  ∷ (stored_from next puts ++ (stored (next + size puts) e ∷ []))) =
          ap (stored_from 12) (appended_log e)
          ∙ stored_from-append 12 es (begun ∷ (puts ++ (e ∷ [])))
          ∙ ap₂ (λ (l m : List OperationRecord). l ++ (stored behind begun ∷ m)) (sym same)
              (stored_from-append next puts (e ∷ [])) in
        (
          s',
          written,
          open_database_of s' (read_operations-frames host.os host.chunk_bytes log')
              ∙ ap
                  (λ (l : List OperationRecord). do
                    d ← load_loop host s' empty_database none l
                    ok (s', d))
                  shape
              ∙ finish s' (
                  load_loop_nested host s' groups (stored behind begun)
                    (stored (next + size puts) e) (stored_from next puts) [] whole begins
                    (All-stored_from next puts inner) again),
        )

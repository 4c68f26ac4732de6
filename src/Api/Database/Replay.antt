-- ===== src/Api/Database/Replay.antt =====
-- The transactions in `loadCollections` of api/database.ts.
use pocket_db.Prelude.{
  ◌≡◌, refl, sym, ap, ◌∙◌, true, false, none, some, List, [], ◌∷◌, ◌++◌, append-nil, append_assoc,
  All, Result, ◌>>=◌, nested_begin, ok, err,
}
use pocket_db.Storage.Buffers.{Buffer}
use pocket_db.Storage.Constants.{transaction_begin_operation, transaction_commit_operation}
use pocket_db.Storage.OperationRecord.{OperationRecord}
use pocket_db.Storage.FileStorage.{FileStorage}
use pocket_db.Api.Host.{Host}
use pocket_db.Api.Cursor.{bytes_same}
use pocket_db.Api.Database.{Database, empty_database, apply_operation, apply_operations, load_loop}

abbrev pub IsBegin : Buffer → Type 0
IsBegin identifier = identifier ≡ transaction_begin_operation

abbrev pub IsCommit : Buffer → Type 0
IsCommit identifier = identifier ≡ transaction_commit_operation

-- An operation that is no boundary of a transaction.
abbrev pub IsInner : Buffer → Type 0
IsInner identifier =
    (bytes_same identifier transaction_begin_operation ≡ false)
    × (bytes_same identifier transaction_commit_operation ≡ false)

-- What a log is made of: single operations, and transactions.
pub data Group : Type 0 where
  single : OperationRecord → Group
  transaction : OperationRecord → List OperationRecord → OperationRecord → Group

abbrev pub InnerRecord : OperationRecord → Type 0
InnerRecord operation = IsInner operation.identifier

abbrev pub IsGroup : Group → Type 0
IsGroup (single operation) = InnerRecord operation
IsGroup (transaction begin operations commit) =
    IsBegin begin.identifier × All InnerRecord operations × IsCommit commit.identifier

-- The records of some groups.
abbrev pub records : List Group → List OperationRecord
records [] = []
records (single operation ∷ groups) = operation ∷ records groups
records (transaction begin operations commit ∷ groups) =
    begin ∷ (operations ++ (commit ∷ records groups))

module _ (host : Host) (storage : FileStorage) where
  -- A transaction is applied as a whole.
  abbrev pub apply_group : Database → Group → Result Database
  apply_group db (single operation) = apply_operation host storage db operation
  apply_group db (transaction begin operations commit) = apply_operations host storage db operations

  abbrev pub apply_groups : Database → List Group → Result Database
  apply_groups db [] = ok db
  apply_groups db (group ∷ groups) = do db' ← apply_group db group; apply_groups db' groups

  load_inner :
      (db : Database) (operation : OperationRecord) (operations : List OperationRecord)
      → InnerRecord operation
      → load_loop host storage db none (operation ∷ operations) ≡ (do
        db' ← apply_operation host storage db operation
        load_loop host storage db' none operations)
  unfolding load_loop apply_operation
  load_inner db operation operations (b, c) = rw (load_loop, b, c) refl

  load_begin :
      (db : Database) (begin : OperationRecord) (operations : List OperationRecord)
      → IsBegin begin.identifier
      → load_loop host storage db none (begin ∷ operations)
        ≡ load_loop host storage db (some []) operations
  unfolding bytes_same load_loop
  load_begin db begin operations h =
      let is : bytes_same begin.identifier transaction_begin_operation ≡ true =
        ap (λ (t : Buffer). bytes_same t transaction_begin_operation) h in
      rw (load_loop, is) refl

  load_pending :
      (db : Database) (pending operations rest : List OperationRecord)
      → All InnerRecord operations
      → load_loop host storage db (some pending) (operations ++ rest)
        ≡ load_loop host storage db (some (pending ++ operations)) rest
  unfolding load_loop
  load_pending db pending [] rest inner =
      ap (λ (l : List OperationRecord). load_loop host storage db (some l) rest)
        (sym (append-nil pending))
  load_pending db pending (operation ∷ operations) rest ((b, c), inner) =
      let kept : load_loop host storage db (some pending) (operation ∷ (operations ++ rest))
          ≡ load_loop host storage db (some (pending ++ (operation ∷ []))) (operations ++ rest) =
        rw (load_loop, b, c) refl in
      kept
      ∙ load_pending db (pending ++ (operation ∷ [])) operations rest inner
      ∙ ap (λ (l : List OperationRecord). load_loop host storage db (some l) rest)
          (append_assoc pending (operation ∷ []) operations)

  load_commit :
      (db : Database) (pending : List OperationRecord) (commit : OperationRecord)
      (operations : List OperationRecord)
      → IsCommit commit.identifier
      → load_loop host storage db (some pending) (commit ∷ operations) ≡ (do
        db' ← apply_operations host storage db pending
        load_loop host storage db' none operations)
  unfolding bytes_same load_loop
  load_commit db pending commit operations h =
      let other : bytes_same commit.identifier transaction_begin_operation ≡ false =
        ap (λ (t : Buffer). bytes_same t transaction_begin_operation) h in
      let is : bytes_same commit.identifier transaction_commit_operation ≡ true =
        ap (λ (t : Buffer). bytes_same t transaction_commit_operation) h in
      rw (load_loop, other, is) refl

  after_each :
      (r : Result Database) (f g : Database → Result Database)
      → ((db : Database) → f db ≡ g db)
      → (r >>= f) ≡ (r >>= g)
  after_each (ok db) f g h = h db
  after_each (err e) f g h = refl

  >>=_assoc :
      (r : Result Database) (f g : Database → Result Database)
      → ((r >>= f) >>= g) ≡ (r >>= λ db. f db >>= g)
  >>=_assoc (ok db) f g = refl
  >>=_assoc (err e) f g = refl

  -- The replay of a log of whole groups, and of what follows them.
  pub load_loop-records :
      (groups : List Group) (db : Database) (rest : List OperationRecord)
      → All IsGroup groups
      → load_loop host storage db none (records groups ++ rest)
        ≡ (do db' ← apply_groups db groups; load_loop host storage db' none rest)
  load_loop-records [] db rest h = refl
  load_loop-records (single operation ∷ groups) db rest (h, hs) =
      load_inner db operation (records groups ++ rest) h
      ∙ after_each (apply_operation host storage db operation)
          (λ db'. load_loop host storage db' none (records groups ++ rest))
          (λ db'. apply_groups db' groups >>= λ d. load_loop host storage d none rest)
          (λ db'. load_loop-records groups db' rest hs)
      ∙ sym (
          >>=_assoc (apply_operation host storage db operation) (λ db'. apply_groups db' groups)
            (λ d. load_loop host storage d none rest))
  load_loop-records (transaction begin operations commit ∷ groups) db rest ((b, inner, c), hs) =
      let behind = records groups ++ rest in
      load_begin db begin ((operations ++ (commit ∷ records groups)) ++ rest) b
      ∙ ap (λ (l : List OperationRecord). load_loop host storage db (some []) l)
          (append_assoc operations (commit ∷ records groups) rest)
      ∙ load_pending db [] operations (commit ∷ behind) inner
      ∙ load_commit db operations commit behind c
      ∙ after_each (apply_operations host storage db operations)
          (λ db'. load_loop host storage db' none behind)
          (λ db'. apply_groups db' groups >>= λ d. load_loop host storage d none rest)
          (λ db'. load_loop-records groups db' rest hs)
      ∙ sym (
          >>=_assoc (apply_operations host storage db operations) (λ db'. apply_groups db' groups)
            (λ d. load_loop host storage d none rest))

  load_uncommitted :
      (db : Database) (begin : OperationRecord) (operations : List OperationRecord)
      → IsBegin begin.identifier
      → All InnerRecord operations
      → load_loop host storage db none (begin ∷ operations) ≡ ok db
  unfolding load_loop
  load_uncommitted db begin operations b inner =
      load_begin db begin operations b
      ∙ ap (λ (l : List OperationRecord). load_loop host storage db (some []) l)
          (sym (append-nil operations))
      ∙ load_pending db [] operations [] inner

  >>=-ok : (r : Result Database) → (r >>= ok) ≡ r
  >>=-ok (ok db) = refl
  >>=-ok (err e) = refl

  -- A transaction without a commit at the end of the log changes nothing: the replay gives the database
  -- of the groups before it.
  pub load_loop_uncommitted :
      (groups : List Group) (begin : OperationRecord) (operations : List OperationRecord)
      → All IsGroup groups
      → IsBegin begin.identifier
      → All InnerRecord operations
      → load_loop host storage empty_database none (records groups ++ (begin ∷ operations))
        ≡ apply_groups empty_database groups
  load_loop_uncommitted groups begin operations h b inner =
      load_loop-records groups empty_database (begin ∷ operations) h
      ∙ after_each (apply_groups empty_database groups)
          (λ db. load_loop host storage db none (begin ∷ operations)) ok
          (λ db. load_uncommitted db begin operations b inner)
      ∙ >>=-ok (apply_groups empty_database groups)

  -- A second begin behind a transaction that was never committed makes the replay throw, when the groups
  -- before it do not throw already.
  pub load_loop_nested :
      (groups : List Group) (begin again : OperationRecord) (operations rest : List OperationRecord)
      → All IsGroup groups
      → IsBegin begin.identifier
      → All InnerRecord operations
      → IsBegin again.identifier
      → load_loop host storage empty_database none
          (records groups ++ (begin ∷ (operations ++ (again ∷ rest))))
        ≡ (do db ← apply_groups empty_database groups; err nested_begin)
  unfolding bytes_same load_loop
  load_loop_nested groups begin again operations rest h b inner b' =
      let is : bytes_same again.identifier transaction_begin_operation ≡ true =
        ap (λ (t : Buffer). bytes_same t transaction_begin_operation) b' in
      let throws : (db : Database)
          → load_loop host storage db (some operations) (again ∷ rest) ≡ err nested_begin =
        λ db. rw (load_loop, is) refl in
      load_loop-records groups empty_database (begin ∷ (operations ++ (again ∷ rest))) h
      ∙ after_each (apply_groups empty_database groups)
          (λ db. load_loop host storage db none (begin ∷ (operations ++ (again ∷ rest))))
          (λ db. err nested_begin)
          (λ db.
            load_begin db begin (operations ++ (again ∷ rest)) b
            ∙ load_pending db [] operations (again ∷ rest) inner
            ∙ throws db)

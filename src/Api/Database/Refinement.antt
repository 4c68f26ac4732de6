-- ===== src/Api/Database/Refinement.antt =====
-- The collections of api/collection.ts in memory are those that api/database.ts replays from their log.
use pocket_db.Prelude.{
  ℕ, ◌+◌, ◌≡◌, refl, sym, ap, ◌∙◌, Bool, false, none, some, List, [], ◌∷◌, ◌++◌, arith, length, All,
  length-append, throw_if, lookup-insert_same, collection_dropped, ok,
}
use pocket_db.Search.Values.{DocumentRecord, field_of, text_equality}
use pocket_db.Storage.Buffers.{Buffer}
use pocket_db.Storage.DocumentId.{to_hex}
use pocket_db.Storage.FileStorage.{FileStorage}
use pocket_db.Storage.FileStorage.Replay.Log.{
  Entry, IsWritableEntry, HoldsLog, frame_of, frames, stored, stored_from, read_operations-frames,
}
use pocket_db.Indexes.PrimaryIndex.{PrimaryIndex, id_field, set_candidate, get_candidate}
use pocket_db.Indexes.Manager.{IndexManager, assert_unique, update_document_indexes}
use pocket_db.Api.Host.{Host}
use pocket_db.Api.Cursor.{bytes_same}
use pocket_db.Api.Collection.{
  Collection, State, add_primary_index_entry, assert_not_dropped, create_document_id, with_id,
}
use pocket_db.Api.Collection.Writes.{insert_one}
use pocket_db.Api.Collection.Logged.{
  IsStorable, put_entry, payload_decoded, append_put_lem, with_put, apply_put_lem,
}
use pocket_db.Api.Database.{
  empty_database, load_loop, open_database, Database, find_collection, put_collection,
  known_collection, replay_put_document, apply_operation,
}
use pocket_db.Api.Database.Replay.{
  IsInner, Group, IsGroup, records, apply_groups, load_loop-records,
}
use pocket_db.Api.Database.Interrupted.{size, stored_from-append, open_database_of}
use pocket_db.Storage.OperationRecord.{OperationRecord}
use pocket_db.Storage.OperationRecord.RoundTrip.{length-frame}

-- The parts of a collection that the log determines.
pub record Agrees (replayed c : Collection) : Type 0 where
  pub same_primary : replayed.primary_index ≡ c.primary_index
  pub same_manager : replayed.index_manager ≡ c.index_manager

module _ (host : Host) where
  not_dropped : (s : State) → s.self.dropped ≡ false → assert_not_dropped s ≡ (ok tt, s)
  unfolding assert_not_dropped
  not_dropped s live = ap (λ (b : Bool). (throw_if b collection_dropped, s)) live

  replay_put :
      (s : State) (document_id : Buffer) (offset : ℕ) (document : DocumentRecord)
      {manager : IndexManager} (storage : FileStorage) (db : Database) (place : ℕ) (c : Collection)
      → (d : IsStorable host s.self document_id document)
      → update_document_indexes s.self.index_manager document
          (record { id = to_hex document_id; offset = offset })
        ≡ ok manager
      → find_collection db s.self.id ≡ some (place, c)
      → Agrees c s.self
      → (c' : Collection) × (apply_operation host storage db
            (stored offset (put_entry host d.payload))
          ≡ ok (put_collection db place c'))
        × Agrees c' (with_put host s.self (to_hex document_id) offset document manager)
  unfolding apply_operation replay_put_document known_collection add_primary_index_entry bytes_same
  replay_put s document_id offset document {manager} storage db place c d updated found agrees =
      let updated' =
        ap
          (λ (m : IndexManager).
            update_document_indexes m document
              (record { id = to_hex document_id; offset = offset }))
          agrees.same_manager
        ∙ updated in
      (
        record c {
          primary_index = set_candidate c.primary_index (to_hex document_id) offset;
          index_manager = manager;
        },
        rw (payload_decoded host d, known_collection, found, add_primary_index_entry, updated')
            refl,
        record {
          same_primary =
              ap (λ (p : PrimaryIndex). set_candidate p (to_hex document_id) offset)
                agrees.same_primary;
          same_manager = refl;
        },
      )

  length-frames : (es : List Entry) → All IsWritableEntry es → length (frames es) ≡ size es
  length-frames [] w = refl
  length-frames (e ∷ es) (w, ws) = omega (
    arith,
    length-append {0} (frame_of e) (frames es),
    length-frame e.identifier e.payload w,
    length-frames es ws,
  )

  -- The file that holds the log of some whole groups and one more operation is opened with what the
  -- groups and then the operation make of the empty database.
  open_database-more :
      (es : List Entry) (groups : List Group) (e : Entry) (storage : FileStorage) (db : Database)
      {db' : Database}
      → records groups ≡ stored_from 12 es
      → All IsGroup groups
      → IsInner e.identifier
      → HoldsLog storage (es ++ (e ∷ []))
      → apply_groups host storage empty_database groups ≡ ok db
      → apply_operation host storage db (stored (12 + size es) e) ≡ ok db'
      → open_database host storage ≡ ok (storage, db')
  unfolding load_loop
  open_database-more es groups e storage db {db'} same whole inner log replayed applied =
      let operation = stored (12 + size es) e in
      let shape : stored_from 12 (es ++ (e ∷ [])) ≡ records groups ++ (operation ∷ []) =
        stored_from-append 12 es (e ∷ [])
        ∙ ap (λ (l : List OperationRecord). l ++ (operation ∷ [])) (sym same) in
      let last : load_loop host storage db none (operation ∷ []) ≡ ok db' =
        load_loop-records host storage (Group.single operation ∷ []) db [] (inner, tt)
        ∙ rw applied refl in
      let loaded : load_loop host storage empty_database none (stored_from 12 (es ++ (e ∷ [])))
          ≡ ok db' =
        ap (load_loop host storage empty_database none) shape
        ∙ load_loop-records host storage groups empty_database (operation ∷ []) whole
        ∙ rw (replayed, last) refl in
      open_database_of host storage (read_operations-frames host.os host.chunk_bytes log)
      ∙ rw loaded refl

  module _ (s : State) {es : List Entry} (document : DocumentRecord) (ids : List Buffer)
      {left : List Buffer} {document_id : Buffer} {manager : IndexManager} (groups : List Group)
      (db : Database) (place : ℕ) (c : Collection) where
    -- The insertion of a document in a collection that is not dropped succeeds, with the identifier it
    -- was given, when the unique indexes let it pass, the other indexes take it, and it can be stored,
    -- which is to say that it is encoded, within the bounds of a record, and decoded to the same. When
    -- the file that it leaves is opened, the collection is that of the operations before with the
    -- document entered: it agrees with the one in memory after the insertion, whose primary index has
    -- the identifier at the offset of the new record. The log before consists of single operations
    -- and of whole transactions (behind a begin without its commit the insertion is lost), and their
    -- replay, over any file that holds that log and the new record, gives a database whose collection
    -- agrees with the one in memory.
    pub insert_one_refines :
        HoldsLog s.storage es
        → records groups ≡ stored_from 12 es
        → All IsGroup groups
        → s.self.dropped ≡ false
        → create_document_id s.self (field_of document id_field) ids ≡ ok (document_id, left)
        → assert_unique s.self.index_manager (with_id document (to_hex document_id)) none ≡ ok tt
        → (d : IsStorable host s.self document_id (with_id document (to_hex document_id)))
        → update_document_indexes s.self.index_manager
            (with_id document (to_hex document_id))
            (record { id = to_hex document_id; offset = length s.storage.file })
          ≡ ok manager
        → ((storage : FileStorage)
            → HoldsLog storage (es ++ (put_entry host d.payload ∷ []))
            → apply_groups host storage empty_database groups ≡ ok db)
        → find_collection db s.self.id ≡ some (place, c)
        → Agrees c s.self
        → (s' : State) × (c' : Collection) × (insert_one host document ids s
            ≡ (ok (to_hex document_id), s'))
          × HoldsLog s'.storage (es ++ (put_entry host d.payload ∷ []))
          × (open_database host s'.storage ≡ ok (s'.storage, put_collection db place c'))
          × Agrees c' s'.self
          × (get_candidate s'.self.primary_index (to_hex document_id)
              ≡ some (record { id = to_hex document_id; offset = length s.storage.file }))
    unfolding insert_one bytes_same get_candidate set_candidate
    insert_one_refines log same whole live created unique d updated replayed found agrees =
        let id = to_hex document_id in
        let offset = length s.storage.file in
        let (a, written) = append_put_lem host s document_id (with_id document id) log d in
        let s1 = record s { storage = a.storage } in
        let s' = record s1 {
          self = with_put host s1.self id offset (with_id document id) manager;
        } in
        let (c', applied, agrees') =
          replay_put s document_id offset (with_id document id) a.storage db place c d updated found
            agrees in
        let at : offset ≡ 12 + size es =
          ap length log.content
          ∙ omega (
            arith,
            log.header_size,
            length-append {0} log.header (frames es),
            length-frames es log.written,
          ) in
        (
          s',
          c',
          rw
              (
                not_dropped s live,
                created,
                unique,
                written,
                apply_put_lem host s1 id offset (with_id document id) updated,
              )
              refl,
          a.holds,
          open_database-more es groups (put_entry host d.payload) a.storage db same whole
              (refl, refl) a.holds (replayed a.storage a.holds)
              (ap
                  (λ (o : ℕ).
                    apply_operation host a.storage db (stored o (put_entry host d.payload)))
                  (sym at)
                ∙ applied),
          agrees',
          lookup-insert_same text_equality id _ s.self.primary_index,
        )

-- ===== src/Api/Database/Compaction/Conflict.antt =====
-- A field that had indexes of two types, in `compact` of api/database.ts and in the replay behind it.
use pocket_db.Prelude.{
  ℕ, ◌+◌, ◌<◌, ◌≡◌, refl, sym, ap, ◌∙◌, subst, Bool, true, false, none, some, List, [], ◌∷◌, arith,
  ap₂, ltb, ◌==◌, lt→ltb, le→ltb, ==-zero_of_pos, length, All, Result, lookup, lookup-insert_same,
  index_type_mismatch, ok, err,
}
use pocket_db.Search.Values.{Text, text_equality}
use pocket_db.Storage.Buffers.{Buffer}
use pocket_db.Storage.Constants.{
  create_index_operation, new_collection_operation, drop_index_operation,
}
use pocket_db.Storage.DocumentId.{to_hex}
use pocket_db.Storage.CollectionOperation.{decode_new_collection_payload}
use pocket_db.Storage.FileStorage.Replay.Log.{
  Entry, stored, stored_from, HoldsLog, read_operations-frames,
}
use pocket_db.Indexes.StringIndex.{StringIndex, new_string_index, find_value_duplicate}
use pocket_db.Indexes.Buckets.{find_duplicate}
use pocket_db.Storage.FileStorage.{FileStorage}
use pocket_db.Storage.IndexOperation.{
  StoredIndexType, of_string, of_number, decode_create_index_payload,
}
use pocket_db.Indexes.Manager.{
  secondary, strings, numbers, IndexManager, create_index, has_index, duplicate_of, duplicate_in,
}
use pocket_db.Api.Host.{Host, utf8_of}
use pocket_db.Api.Cursor.{bytes_same}
use pocket_db.Api.Collection.{Collection, new_collection, exists_index}
use pocket_db.Api.Collection.Indexing.{create_index_from_replay, rebuild, check_shared}
use pocket_db.Api.Database.{
  load_loop, open_database, empty_database, register_collection, replay_new_collection,
  put_collection, Database, find_collection, known_collection, replay_create_index, apply_operation,
}
use pocket_db.Api.Database.Compaction.{
  Opened, compact, move_entry, is_dropped, should_keep_operation, keep_create_index,
  keep_new_collection,
}
use pocket_db.Api.Database.Compaction.Kept.{kept_entries, compact-HoldsLog}
use pocket_db.Api.Database.Replay.{IsInner, Group, IsGroup, apply_groups, load_loop-records}
use pocket_db.Api.Database.Interrupted.{size, open_database_of}
use pocket_db.Indexes.PrimaryIndex.{snapshot}

module _ (host : Host) where
  -- A record of the creation of an index in a collection.
  pub record Creates (e : Entry) (id : Buffer) (field : Text) (type : StoredIndexType)
      (unique : Bool) : Type 0 where
    pub is_creation : e.identifier ≡ create_index_operation
    pub decoded :
        decode_create_index_payload (utf8_of host) e.payload
        ≡ ok (record { collection_id = id; field = field; type = type; unique = unique })

  -- The type of the index that a collection has on a field.
  abbrev pub HasType : Collection → Text → StoredIndexType → Type 0
  HasType c field of_string =
      (index : _) × (lookup text_equality field c.index_manager ≡ some (strings index))
  HasType c field of_number =
      (index : _) × (lookup text_equality field c.index_manager ≡ some (numbers index))

  kept :
      {e : Entry} {id : Buffer} {field : Text} {type : StoredIndexType} {unique : Bool} (offset : ℕ)
      (db : Database) {place : ℕ} {c : Collection}
      → Creates e id field type unique
      → find_collection db id ≡ some (place, c)
      → exists_index c field ≡ true
      → should_keep_operation host db (stored offset e) ≡ ok true
  unfolding should_keep_operation keep_create_index bytes_same
  kept {e} offset db creates found there =
      let opened : should_keep_operation host db (stored offset e)
          ≡ keep_create_index host db (stored offset e) =
        rw creates.is_creation refl in
      opened ∙ rw (keep_create_index, creates.decoded, found, there) refl

  create_index_conflict :
      (manager : IndexManager) (field : Text) (unique : Bool) {index : _}
      → lookup text_equality field manager ≡ some (strings index)
      → create_index manager field (secondary of_number) unique ≡ err index_type_mismatch
  unfolding create_index
  create_index_conflict manager field unique there = rw (create_index, there) refl

  replay_conflict :
      (storage : FileStorage) (c : Collection) (field : Text) (unique : Bool)
      → 0 < length field
      → HasType c field of_string
      → create_index_from_replay host storage field of_number unique c
        ≡ (err index_type_mismatch, c)
  unfolding create_index_from_replay
  replay_conflict storage c field unique long (index, there) =
      let named : (length field == 0) ≡ false = ==-zero_of_pos (length field) long in
      rw (named, create_index_conflict c.index_manager field unique there) refl

  throws :
      {e : Entry} {id : Buffer} {field : Text} {unique : Bool} (offset : ℕ) (storage : FileStorage)
      (db : Database) {place : ℕ} {c : Collection}
      → Creates e id field of_number unique
      → 0 < length field
      → find_collection db id ≡ some (place, c)
      → HasType c field of_string
      → apply_operation host storage db (stored offset e) ≡ err index_type_mismatch
  unfolding apply_operation replay_create_index known_collection bytes_same
  throws {e} {id} {field} {unique} offset storage db {place} {c} creates long found typed =
      let opened : apply_operation host storage db (stored offset e)
          ≡ replay_create_index host storage db (stored offset e) =
        rw creates.is_creation refl in
      opened
      ∙ rw
          (
            replay_create_index,
            creates.decoded,
            known_collection,
            found,
            replay_conflict storage c field unique long typed,
          )
          refl

  -- The record of a new collection.
  pub record Registers (e : Entry) (id : Buffer) (name : Text) : Type 0 where
    pub is_new : e.identifier ≡ new_collection_operation
    pub decoded :
        decode_new_collection_payload (utf8_of host) e.payload
        ≡ ok (record { id = id; name = name; indexes = [] })

  -- A database with one collection.
  abbrev only : Buffer → Text → Collection → Database
  only id name c = record {
    objects = c ∷ [];
    collections_by_name = (name, 0) ∷ [];
    collections_by_id = (to_hex id, 0) ∷ [];
    collection_ids = (to_hex id, tt) ∷ [];
  }

  found_only :
      (id : Buffer) (name : Text) (c : Collection)
      → find_collection (only id name c) id ≡ some (0, c)
  unfolding find_collection
  found_only id name c =
      let there : lookup {V = ℕ} text_equality (to_hex id) ((to_hex id, 0) ∷ []) ≡ some 0 =
        lookup-insert_same text_equality (to_hex id) 0 [] in
      rw (find_collection, there) refl

  registers :
      {e : Entry} {id : Buffer} {name : Text} (offset : ℕ) (storage : FileStorage)
      → Registers e id name
      → apply_operation host storage empty_database (stored offset e)
        ≡ ok (only id name (new_collection id name))
  unfolding apply_operation replay_new_collection register_collection bytes_same
  registers {e} {id} {name} offset storage h =
      let opened : apply_operation host storage empty_database (stored offset e)
          ≡ replay_new_collection host empty_database (stored offset e) =
        rw h.is_new refl in
      opened ∙ rw (replay_new_collection, h.decoded) refl

  abbrev empty_strings : Text → Bool → StringIndex
  empty_strings field unique = record {
    field = field;
    unique = unique;
    buckets = record { values = []; values_by_id = [] };
  }

  abbrev with_strings : Buffer → Text → Text → Bool → Collection
  with_strings id name field unique = record (new_collection id name) {
    index_manager = (field, strings (empty_strings field unique)) ∷ [];
  }

  none_shared :
      (field : Text) (unique : Bool)
      → check_shared host field ((field, strings (empty_strings field unique)) ∷ [])
        ≡ (ok tt, (field, strings (empty_strings field unique)) ∷ [])
  unfolding check_shared duplicate_of duplicate_in find_value_duplicate find_duplicate
  none_shared field unique =
      let index = strings (empty_strings field unique) in
      let there : lookup text_equality field ((field, index) ∷ []) ≡ some index =
        lookup-insert_same text_equality field index [] in
      rw (check_shared, duplicate_of, there) refl

  string_index_replayed :
      (storage : FileStorage) (id : Buffer) (name field : Text) (unique : Bool)
      → 0 < length field
      → create_index_from_replay host storage field of_string unique (new_collection id name)
        ≡ (ok tt, with_strings id name field unique)
  unfolding create_index_from_replay create_index new_collection has_index rebuild new_string_index
      snapshot
  string_index_replayed storage id name field true long =
      let named : (length field == 0) ≡ false = ==-zero_of_pos (length field) long in
      rw (named, none_shared field true) refl
  string_index_replayed storage id name field false long =
      let named : (length field == 0) ≡ false = ==-zero_of_pos (length field) long in rw named refl

  strings_replayed :
      {e : Entry} {id : Buffer} {name field : Text} {unique : Bool} (offset : ℕ)
      (storage : FileStorage)
      → Creates e id field of_string unique
      → 0 < length field
      → apply_operation host storage (only id name (new_collection id name)) (stored offset e)
        ≡ ok (only id name (with_strings id name field unique))
  unfolding apply_operation replay_create_index known_collection bytes_same put_collection
  strings_replayed {e} {id} {name} {field} {unique} offset storage h long =
      let db = only id name (new_collection id name) in
      let opened : apply_operation host storage db (stored offset e)
          ≡ replay_create_index host storage db (stored offset e) =
        rw h.is_creation refl in
      opened
      ∙ rw
          (
            replay_create_index,
            h.decoded,
            known_collection,
            found_only id name (new_collection id name),
            string_index_replayed storage id name field unique long,
          )
          refl

  -- The steps of a compaction.
  abbrev added : Entry → Result (Database × List Entry) → Result (Database × List Entry)
  added e rest = elim rest [ err x ↦ err x | ok (db, kept) ↦ ok (db, e ∷ kept) ]

  stays :
      (db : Database) (n : ℕ) (e : Entry) (es : List Entry)
      → should_keep_operation host db (stored n e) ≡ ok true
      → kept_entries host db n n (e ∷ es)
        ≡ added e (
            kept_entries host db
              (n + (8 + length e.payload + 4))
              (n + (8 + length e.payload + 4))
              es)
  unfolding kept_entries
  stays db n e es p =
      let still : ltb n n ≡ false = le→ltb n n (omega arith) in rw (kept_entries, p, still) refl

  moves :
      (db : Database) (write_head scan_head : ℕ) (e : Entry) (es : List Entry)
      → should_keep_operation host db (stored scan_head e) ≡ ok true
      → write_head < scan_head
      → e.identifier ≡ create_index_operation
      → kept_entries host db write_head scan_head (e ∷ es)
        ≡ added e (
            kept_entries host db
              (write_head + (8 + length e.payload + 4))
              (scan_head + (8 + length e.payload + 4))
              es)
  unfolding kept_entries move_entry bytes_same
  moves db write_head scan_head e es p behind is =
      let lt : ltb write_head scan_head ≡ true = lt→ltb _ _ behind in
      let same : move_entry host db (stored scan_head e) write_head ≡ ok db = rw is refl in
      rw (kept_entries, p, lt, same) refl

  goes :
      (db : Database) (write_head scan_head : ℕ) (e : Entry) (es : List Entry)
      → e.identifier ≡ drop_index_operation
      → kept_entries host db write_head scan_head (e ∷ es)
        ≡ kept_entries host db write_head (scan_head + (8 + length e.payload + 4)) es
  unfolding kept_entries should_keep_operation is_dropped bytes_same
  goes db write_head scan_head e es is =
      let p : should_keep_operation host db (stored scan_head e) ≡ ok false = rw is refl in
      rw (kept_entries, p) refl

  kept_new :
      {e : Entry} {id : Buffer} {name : Text} (offset : ℕ) (db : Database) {place : ℕ}
      {c : Collection}
      → Registers e id name
      → find_collection db id ≡ some (place, c)
      → should_keep_operation host db (stored offset e) ≡ ok true
  unfolding should_keep_operation keep_new_collection is_dropped bytes_same
  kept_new {e} offset db h found =
      let opened : should_keep_operation host db (stored offset e)
          ≡ keep_new_collection host db (stored offset e) =
        rw h.is_new refl in
      opened ∙ rw (keep_new_collection, h.decoded, found) refl

  Inner-of : {i j : Buffer} → i ≡ j → IsInner j → IsInner i
  Inner-of p h = subst IsInner (sym p) h

  opens_badly :
      {registration first second : Entry} {id : Buffer} {name field : Text} {unique unique' : Bool}
      (s : FileStorage) (more : List Entry)
      → Registers registration id name
      → Creates first id field of_string unique
      → Creates second id field of_number unique'
      → 0 < length field
      → HoldsLog s (registration ∷ first ∷ second ∷ more)
      → open_database host s ≡ err index_type_mismatch
  unfolding bytes_same
  opens_badly {registration} {first} {second} {id} {name} {field} {unique} s more registers' creates
        creates' long log =
      let o1 = 12 + (8 + length registration.payload + 4) in
      let o2 = o1 + (8 + length first.payload + 4) in
      let groups : List Group =
        Group.single (stored 12 registration)
        ∷ Group.single (stored o1 first)
        ∷ Group.single (stored o2 second)
        ∷ [] in
      let whole : All IsGroup groups = (
        Inner-of registers'.is_new (refl, refl),
        (
          Inner-of creates.is_creation (refl, refl),
          (Inner-of creates'.is_creation (refl, refl), tt),
        ),
      ) in
      let c = with_strings id name field unique in
      let applied : apply_groups host s empty_database groups ≡ err index_type_mismatch =
        rw
          (
            registers 12 s registers',
            strings_replayed o1 s creates long,
            throws o2 s (only id name c) creates' long (found_only id name c)
                (empty_strings field unique, lookup-insert_same text_equality field _ []),
          )
          refl in
      let loaded : load_loop host s empty_database none
            (stored_from 12 (registration ∷ first ∷ second ∷ more))
          ≡ err index_type_mismatch =
        load_loop-records host s groups empty_database
          (stored_from (o2 + (8 + length second.payload + 4)) more) whole
        ∙ rw applied refl in
      open_database_of host s (read_operations-frames host.os host.chunk_bytes log) ∙ rw loaded refl

  -- A log begins with the records of a collection, of a string index on a field of it, of a drop of an
  -- index, and of a number index on the same field, whose name is not empty; the database has the
  -- collection, with a number index on that field; and what follows in the log is compacted without
  -- a throw. Then `compact` leaves a log with both creations, since it only asks whether there is an
  -- index on the field, and without the drop, followed by the records that it keeps of the rest; and
  -- the compacted file cannot be opened: the replay throws, since the index has another type.
  pub compaction_keeps_conflict :
      (o : Opened) (registration first removal second : Entry) (more : List Entry) {id : Buffer}
      {name field : Text} {unique unique' : Bool} {place : ℕ} {c : Collection}
      {r : Database × List Entry}
      → HoldsLog o.storage (registration ∷ first ∷ removal ∷ second ∷ more)
      → Registers registration id name
      → Creates first id field of_string unique
      → removal.identifier ≡ drop_index_operation
      → Creates second id field of_number unique'
      → 0 < length field
      → find_collection o.database id ≡ some (place, c)
      → HasType c field of_number
      → kept_entries host o.database
          (12 + size (registration ∷ first ∷ second ∷ []))
          (12 + size (registration ∷ first ∷ removal ∷ second ∷ []))
          more
        ≡ ok r
      → HoldsLog (compact host o).1.storage (registration ∷ first ∷ second ∷ r.1)
        × (open_database host (compact host o).1.storage ≡ err index_type_mismatch)
  unfolding exists_index has_index
  compaction_keeps_conflict o registration first removal second more {name = name} {field = field}
        {c = c} {r = r} log registers' creates drops creates' long found (index, there) rest =
      let db = o.database in
      let has : exists_index c field ≡ true = rw (has_index, there) refl in
      let o1 = 12 + (8 + length registration.payload + 4) in
      let o2 = o1 + (8 + length first.payload + 4) in
      let o3 = o2 + (8 + length removal.payload + 4) in
      let last = 8 + length second.payload + 4 in
      let rest' : kept_entries host db (o2 + last) (o3 + last) more ≡ ok r =
        let write : o2 + last ≡ 12 + size (registration ∷ first ∷ second ∷ []) = omega arith in
        let scan : o3 + last ≡ 12 + size (registration ∷ first ∷ removal ∷ second ∷ []) =
          omega arith in
        ap₂ (λ (a b : ℕ). kept_entries host db a b more) write scan ∙ rest in
      let keeps : kept_entries host db 12 12 (registration ∷ first ∷ removal ∷ second ∷ more)
          ≡ ok (r.0, registration ∷ first ∷ second ∷ r.1) =
        stays db 12 registration (first ∷ removal ∷ second ∷ more) (kept_new 12 db registers' found)
        ∙ ap (added registration) (
            stays db o1 first (removal ∷ second ∷ more) (kept o1 db creates found has)
            ∙ ap (added first) (
                goes db o2 o2 removal (second ∷ more) drops
                ∙ moves db o2 o3 second more (kept o3 db creates' found has) (omega arith)
                    creates'.is_creation
                ∙ ap (added second) rest')) in
      let compacted = compact-HoldsLog host o log keeps in
      (compacted, opens_badly _ r.1 registers' creates creates' long compacted)

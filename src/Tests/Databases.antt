-- ===== src/Tests/Databases.antt =====
-- The theorems on collections and databases at concrete inputs.
use pocket_db.Prelude.{
  ◌+◌, ◌≤◌, ◌≡◌, refl, false, none, some, List, [], ◌∷◌, ◌++◌, arith, length, subarray, All, ◌>>=◌,
  bad_object_id, index_type_mismatch, nested_begin, ok, err,
}
use pocket_db.Search.Values.{text_equality, text_same, field_of}
use pocket_db.Api.Database.Compaction.{Opened, compact}
use pocket_db.Api.Database.Compaction.Kept.{kept_entries}
use pocket_db.Storage.IndexOperation.{
  decode_create_index_payload, decode_create_index_payload_current, operation_of_tail, or_else,
  index_type_of_byte,
}
use pocket_db.Storage.Buffers.{read_u8}
use pocket_db.Storage.Constants.{
  drop_index_operation, create_index_operation, new_collection_operation,
}
use pocket_db.Storage.DocumentId.{to_hex}
use pocket_db.Prelude.{subarray}
use pocket_db.Storage.CollectionOperation.{decode_new_collection_payload}
use pocket_db.Storage.U29.{decode_u29, encode_u29, u29_bytes, align_to_4_bytes}
use pocket_db.Storage.Payloads.{read_tail, assert_collection_id, aligned}
use pocket_db.Storage.DocumentOperation.{encode_put_document_payload, assert_document_id}
use pocket_db.Api.Database.{find_collection, apply_operation}
use pocket_db.Api.Database.Compaction.{
  empty_stats, accumulate, is_dropped, should_keep_operation, stats_loop, count_for,
  operation_collection_id,
}
use pocket_db.Api.Database.Compaction.Totals.{kept_bytes, total_bytes, stats_loop_totals}
use pocket_db.Api.Database.Compaction.Conflict.{
  Creates, Registers, HasType, compaction_keeps_conflict,
}
use pocket_db.Indexes.Manager.{numbers}
use pocket_db.Storage.IndexOperation.{of_string, of_number}
use pocket_db.Storage.OperationRecord.{OperationRecord}
use pocket_db.Storage.FileStorage.{FileStorage, append_operation}
use pocket_db.Storage.FileStorage.Replay.Log.{Entry, HoldsLog, stored, stored_from, after_crash}
use pocket_db.Indexes.PrimaryIndex.{id_field, has_candidate, get_candidate}
use pocket_db.Indexes.Manager.{assert_unique, update_document_indexes}
use pocket_db.Api.Host.{encoder_of}
use pocket_db.Api.Cursor.{bytes_same}
use pocket_db.Api.Collection.{
  new_collection, State, Collection, Prepared, with_id, exists_id, fresh_id, create_document_id,
}
use pocket_db.Api.Collection.Writes.{insert_one, write_batch}
use pocket_db.Api.Collection.Logged.{IsStorable, put_operation, put_entry}
use pocket_db.Api.Database.{Database, empty_database, open_database}
use pocket_db.Api.Database.{put_collection}
use pocket_db.Api.Database.Replay.{Group, IsGroup, records, apply_groups}
use pocket_db.Api.Database.Interrupted.{
  InnerEntry, open_database_atomic, append_operation_lost, append_operation_unopenable,
}
use pocket_db.Api.Database.Refinement.{Agrees, insert_one_refines}
use pocket_db.Api.Database.Batch.{begin_entry, write_batch_throws}
use pocket_db.Tests.Data.{whole, first_entry, second_entry, second_writable}
use pocket_db.Tests.Hosts.{
  plain, hole_entry, file_of, file_of-HoldsLog, interrupted_log, people, people_state, new_id,
  document_with,
}
use pocket_db.Tests.Files.{torn_part, torn}

created : create_document_id people (field_of [] id_field) (new_id ∷ []) ≡ ok (new_id, [])
unfolding create_document_id fresh_id exists_id has_candidate field_of
created = refl

pub storable : IsStorable plain people new_id (document_with (to_hex new_id))
unfolding encode_put_document_payload assert_collection_id assert_document_id encode_u29 u29_bytes
    aligned align_to_4_bytes to_hex
storable = record {
  payload = aligned ((people.id ++ new_id) ++ ((24 ∷ []) ++ to_hex new_id));
  bytes = to_hex new_id;
  four = refl;
  twelve = refl;
  encoded = refl;
  decoded = refl;
  short = omega arith;
  written = refl;
  fits = omega arith;
}

unguarded : assert_unique people.index_manager (document_with (to_hex new_id)) none ≡ ok tt
unfolding assert_unique
unguarded = refl

-- A database with one collection.
abbrev database_of : Collection → Database
database_of c = record {
  objects = c ∷ [];
  collections_by_name = (people.name, 0) ∷ [];
  collections_by_id = (b'0' ∷ b'1' ∷ b'0' ∷ b'2' ∷ b'0' ∷ b'3' ∷ b'0' ∷ b'4' ∷ [], 0) ∷ [];
  collection_ids = (b'0' ∷ b'1' ∷ b'0' ∷ b'2' ∷ b'0' ∷ b'3' ∷ b'0' ∷ b'4' ∷ [], tt) ∷ [];
}

abbrev people_database : Database
people_database = database_of people

people_found : find_collection people_database people.id ≡ some (0, people)
unfolding find_collection text_equality text_same to_hex
people_found = refl

-- A file with the record of the new collection, and the collection in memory.
abbrev registration : Entry
registration = record {
  identifier = new_collection_operation;
  payload = 1 ∷ 2 ∷ 3 ∷ 4 ∷ 1 ∷ b'p' ∷ 0 ∷ 0 ∷ [];
}

registration_log : HoldsLog (file_of (registration ∷ [])) (registration ∷ [])
registration_log =
    file_of-HoldsLog (registration ∷ []) (record { four = refl; width = omega arith }, tt)

abbrev registered : List Group
registered = Group.single (stored 12 registration) ∷ []

registration_inner : All IsGroup registered
unfolding bytes_same
registration_inner = ((refl, refl), tt)

registration_replayed :
    (storage : FileStorage)
    → apply_groups plain storage empty_database registered ≡ ok people_database
unfolding apply_operation decode_new_collection_payload read_tail decode_u29 new_collection subarray
    to_hex
registration_replayed storage = refl

abbrev with_people : State
with_people = record people_state { storage = file_of (registration ∷ []) }

insert_one_refines_example :
    (s' : State) × (c' : Collection) × (insert_one plain [] (new_id ∷ []) with_people
      ≡ (ok (to_hex new_id), s'))
    × HoldsLog s'.storage (registration ∷ put_entry plain storable.payload ∷ [])
    × (open_database plain s'.storage ≡ ok (s'.storage, put_collection people_database 0 c'))
    × Agrees c' s'.self
    × (get_candidate s'.self.primary_index (to_hex new_id)
        ≡ some (record { id = to_hex new_id; offset = length with_people.storage.file }))
unfolding with_id update_document_indexes
insert_one_refines_example =
    insert_one_refines plain with_people [] (new_id ∷ []) registered people_database 0 people
      registration_log refl registration_inner refl created unguarded storable refl
      (λ storage log. registration_replayed storage) people_found
      (record { same_primary = refl; same_manager = refl })

abbrev before_it : List Group
before_it = Group.single (stored 12 hole_entry) ∷ []

same : records before_it ≡ stored_from 12 (hole_entry ∷ [])
same = refl

whole_groups : All IsGroup before_it
unfolding bytes_same
whole_groups = ((refl, refl), tt)

inner : All InnerEntry (first_entry ∷ [])
unfolding bytes_same
inner = ((refl, refl), tt)

inner_second : InnerEntry second_entry
unfolding bytes_same
inner_second = (refl, refl)

abbrev interrupted : FileStorage
interrupted = file_of (hole_entry ∷ begin_entry ∷ first_entry ∷ [])

open_database_atomic_example :
    (s' : FileStorage) × (open_database plain (after_crash interrupted torn_part) ≡ (do
      db ← apply_groups plain (after_crash interrupted torn_part) empty_database before_it
      ok (s', db)))
    × HoldsLog s' (hole_entry ∷ begin_entry ∷ first_entry ∷ [])
open_database_atomic_example =
    open_database_atomic plain (hole_entry ∷ []) before_it begin_entry (first_entry ∷ []) same
      whole_groups refl inner second_entry torn_part interrupted_log second_writable torn

append_operation_lost_example :
    (s' : FileStorage) × (append_operation whole interrupted second_entry.identifier
        second_entry.payload
      ≡ ok (s', length interrupted.file))
    × (open_database plain s'
        ≡ (do db ← apply_groups plain s' empty_database before_it; ok (s', db)))
append_operation_lost_example =
    append_operation_lost plain (hole_entry ∷ []) before_it begin_entry (first_entry ∷ []) same
      whole_groups refl inner second_entry interrupted_log second_writable inner_second

append_operation_unopenable_example :
    (s' : FileStorage) × (append_operation whole interrupted begin_entry.identifier
        begin_entry.payload
      ≡ ok (s', length interrupted.file))
    × (open_database plain s'
        ≡ (do db ← apply_groups plain s' empty_database before_it; err nested_begin))
append_operation_unopenable_example =
    append_operation_unopenable plain (hole_entry ∷ []) before_it begin_entry (first_entry ∷ [])
      same whole_groups refl inner begin_entry interrupted_log
      (record { four = refl; width = omega arith }) refl

abbrev accepted : Prepared
accepted = record {
  id = to_hex new_id;
  document_id = new_id;
  document = document_with (to_hex new_id);
}

-- A document that the encoder refuses.
abbrev refused : Prepared
refused = record { id = to_hex new_id; document_id = new_id; document = [] }

refusal :
    encode_put_document_payload (encoder_of plain) (put_operation plain people new_id [])
    ≡ err bad_object_id
unfolding encode_put_document_payload assert_collection_id assert_document_id
refusal = refl

write_batch_throws_example :
    (s' : State) × (write_batch plain (accepted ∷ refused ∷ []) people_state
      ≡ (err bad_object_id, s'))
    × (s'.self ≡ people)
    × HoldsLog s'.storage (begin_entry ∷ put_entry plain storable.payload ∷ [])
    × All InnerEntry (put_entry plain storable.payload ∷ [])
write_batch_throws_example =
    write_batch_throws plain (accepted ∷ []) refused [] people_state (file_of-HoldsLog [] tt)
      (storable, tt) refusal

abbrev two_operations : List OperationRecord
two_operations = stored 12 hole_entry ∷ stored 26 begin_entry ∷ []

counted :
    stats_loop plain empty_database two_operations empty_stats []
    ≡ ok (record { operation_count = 2; tombstone_count = 2; live_bytes = 0; dead_bytes = 26 }, [])
unfolding stats_loop count_for operation_collection_id should_keep_operation is_dropped accumulate
    bytes_same
counted = refl

stats_loop_totals_example :
    (2 ≡ 0 + 2)
    × (0 ≡ 0 + kept_bytes plain empty_database two_operations)
    × (0 + 26 ≡ 0 + 0 + total_bytes two_operations)
    × (2 + 0 ≤ 0 + 2)
stats_loop_totals_example =
    stats_loop_totals plain empty_database two_operations empty_stats [] counted

-- The records of the creations of a string index and of a number index on a field, and of the drop
-- between them.
abbrev creation_of_strings : Entry
creation_of_strings = record {
  identifier = create_index_operation;
  payload = 1 ∷ 2 ∷ 3 ∷ 4 ∷ 1 ∷ 0 ∷ 1 ∷ b'a' ∷ [];
}

abbrev drop_of_strings : Entry
drop_of_strings = record {
  identifier = drop_index_operation;
  payload = 1 ∷ 2 ∷ 3 ∷ 4 ∷ 1 ∷ b'a' ∷ 0 ∷ 0 ∷ [];
}

abbrev creation_of_numbers : Entry
creation_of_numbers = record {
  identifier = create_index_operation;
  payload = 1 ∷ 2 ∷ 3 ∷ 4 ∷ 2 ∷ 0 ∷ 1 ∷ b'a' ∷ [];
}

creation_of_strings-Creates :
    Creates plain creation_of_strings people.id (b'a' ∷ []) of_string false
unfolding decode_create_index_payload decode_create_index_payload_current operation_of_tail or_else
    index_type_of_byte assert_collection_id read_tail decode_u29 subarray read_u8
creation_of_strings-Creates = record { is_creation = refl; decoded = refl }

creation_of_numbers-Creates :
    Creates plain creation_of_numbers people.id (b'a' ∷ []) of_number false
unfolding decode_create_index_payload decode_create_index_payload_current operation_of_tail or_else
    index_type_of_byte assert_collection_id read_tail decode_u29 subarray read_u8
creation_of_numbers-Creates = record { is_creation = refl; decoded = refl }

registration-Registers : Registers plain registration people.id people.name
unfolding decode_new_collection_payload assert_collection_id read_tail decode_u29 subarray
registration-Registers = record { is_new = refl; decoded = refl }

abbrev recreated : List Entry
recreated = registration ∷ creation_of_strings ∷ drop_of_strings ∷ creation_of_numbers ∷ []

recreated_log : HoldsLog (file_of recreated) recreated
recreated_log = file_of-HoldsLog recreated (
  record { four = refl; width = omega arith },
  (
    record { four = refl; width = omega arith },
    (
      record { four = refl; width = omega arith },
      (record { four = refl; width = omega arith }, tt),
    ),
  ),
)

-- The collection has a number index on the field now.
abbrev indexed : Collection
indexed = record people {
  index_manager =
      (
        b'a' ∷ [],
        numbers (record {
          field = b'a' ∷ [];
          unique = false;
          buckets = record { values = []; values_by_id = [] };
          sorted_values = [];
        }),
      )
      ∷ [];
}

abbrev database : Database
database = database_of indexed

found : find_collection database people.id ≡ some (0, indexed)
unfolding find_collection text_equality text_same to_hex
found = refl

has_number : HasType plain indexed (b'a' ∷ []) of_number
unfolding text_equality text_same
has_number = (_, refl)

nothing_more : kept_entries plain database 72 92 [] ≡ ok (database, [])
unfolding kept_entries
nothing_more = refl

abbrev opened_people : Opened
opened_people = record { storage = file_of recreated; database = database }

compaction_keeps_conflict_example :
    HoldsLog
      (compact plain opened_people).1.storage
      (registration ∷ creation_of_strings ∷ creation_of_numbers ∷ [])
    × (open_database plain (compact plain opened_people).1.storage ≡ err index_type_mismatch)
compaction_keeps_conflict_example =
    compaction_keeps_conflict plain opened_people registration creation_of_strings drop_of_strings
      creation_of_numbers [] recreated_log registration-Registers creation_of_strings-Creates refl
      creation_of_numbers-Creates (omega arith) found has_number nothing_more

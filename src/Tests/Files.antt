-- ===== src/Tests/Files.antt =====
-- The theorems on the file at concrete inputs.
use pocket_db.Prelude.{
  ℕ, suc, ◌≤◌, ◌<◌, ◌≡◌, refl, ◌≢◌, ◌↔◌, true, none, some, [], ◌∷◌, ◌++◌, arith, length, take, drop,
  length-append, checksum_mismatch, ok, err,
}
use pocket_db.Storage.Buffers.{Buffer, u32_bytes}
use pocket_db.Storage.Crc32.{crc32}
use pocket_db.Storage.Crc32.Detection.{crc32_detects_byte}
use pocket_db.Storage.OperationRecord.{
  encode_operation_record, decode_operation_record, read_operation_from_buffer,
}
use pocket_db.Storage.OperationRecord.RoundTrip.{
  length-frame, read_operation_from_buffer-encode_operation_record, decode_operation_record_corrupt,
}
use pocket_db.Storage.Os.{read_exact, write_all}
use pocket_db.Storage.Os.Exact.{read_exact_lem}
use pocket_db.Storage.Os.Written.{write_all_lem}
use pocket_db.Storage.FileStorage.{
  FileStorage, strict, relaxed, append_operation, read_operation_at_offset, read_operations,
}
use pocket_db.Storage.FileStorage.Replay.{parse_log, settle}
use pocket_db.Storage.FileStorage.Replay.Reference.{read_operations-parse_log}
use pocket_db.Storage.FileStorage.Replay.Log.{
  IsTorn, HoldsLog, stored, frame_of, after_crash, read_operations-frames, read_operations_recovers,
}
use pocket_db.Storage.FileStorage.Append.{append_operation-HoldsLog}
use pocket_db.Storage.FileStorage.Open.{open_storage, opened, is_supported}
use pocket_db.Storage.FileStorage.Open.Reopen.{
  IsDatabaseFile, open_storage_iff, open_storage_created,
}
use pocket_db.Tests.Data.{
  whole, single, first_entry, second_entry, first_writable, second_writable, file_header,
  one_record, one_record_log,
}

-- The first five bytes of the second record.
abbrev pub torn_part : Buffer
torn_part = take 5 (frame_of second_entry)

pub torn : IsTorn second_entry torn_part
torn = record {
  cut = 5;
  cut_inside =
      omega (arith, length-frame second_entry.identifier second_entry.payload second_writable);
  prefix = refl;
}

read_operations_recovers_example :
    (s' : FileStorage) × (read_operations single 4 (after_crash one_record torn_part)
      ≡ ok (stored 12 first_entry ∷ [], s'))
    × HoldsLog s' (first_entry ∷ [])
    × (s'.file ≡ one_record.file)
    × (0 < length torn_part
        → (s'.torn_tail_recovered ≡ true) × (s'.torn_tail_bytes ≡ length torn_part))
read_operations_recovers_example =
    read_operations_recovers single 4 second_entry torn_part one_record_log second_writable torn

read_operations-frames_example :
    read_operations single 4 one_record ≡ ok (stored 12 first_entry ∷ [], one_record)
read_operations-frames_example = read_operations-frames single 4 one_record_log

append_operation-HoldsLog_example :
    (s' : FileStorage) × (append_operation single one_record second_entry.identifier
        second_entry.payload
      ≡ ok (s', length one_record.file))
    × HoldsLog s' (first_entry ∷ second_entry ∷ [])
    × (read_operation_at_offset single s' (length one_record.file)
        ≡ ok (record {
          identifier = second_entry.identifier;
          payload = second_entry.payload;
          byte_length = some 13;
          offset = none;
        }))
    × (s'.durability ≡ strict)
    × (strict ≡ strict → s'.on_disk ≡ s'.file)
    × (strict ≡ relaxed → s'.on_disk ≡ [])
append_operation-HoldsLog_example =
    append_operation-HoldsLog single second_entry one_record_log second_writable

crc32_detects_byte_example : crc32 (1 ∷ 2 ∷ 3 ∷ []) ≢ crc32 (1 ∷ 9 ∷ 3 ∷ [])
crc32_detects_byte_example =
    crc32_detects_byte (1 ∷ []) (3 ∷ []) 2 9 (omega arith, tt) (omega arith) (omega arith)
      (omega arith)

decode_operation_record_corrupt_example :
    decode_operation_record (1 ∷ 9 ∷ 3 ∷ []) (u32_bytes (crc32 (1 ∷ 2 ∷ 3 ∷ [])))
    ≡ err checksum_mismatch
decode_operation_record_corrupt_example =
    decode_operation_record_corrupt (1 ∷ []) (3 ∷ []) 2 9 (omega arith, tt) (omega arith)
      (omega arith) (omega arith)

read_operation_from_buffer-encode_example :
    (bytes : Buffer) × (encode_operation_record first_entry.identifier (1 ∷ 2 ∷ 3 ∷ []) ≡ ok bytes)
    × (length bytes ≡ 15)
    × (read_operation_from_buffer ((0 ∷ []) ++ (bytes ++ (5 ∷ []))) 1
        ≡ ok (record {
          identifier = first_entry.identifier;
          payload = 1 ∷ 2 ∷ 3 ∷ [];
          byte_length = some 15;
          offset = none;
        }))
read_operation_from_buffer-encode_example =
    read_operation_from_buffer-encode_operation_record first_entry.identifier (1 ∷ 2 ∷ 3 ∷ [])
      (0 ∷ []) (5 ∷ []) first_writable

read_operations-parse_log_example :
    read_operations single 4 one_record
    ≡ settle one_record (parse_log (suc (length one_record.file)) 12 (drop 12 one_record.file))
read_operations-parse_log_example =
    read_operations-parse_log single 4 one_record refl (omega (arith, long))
  where
    long : 12 ≤ length one_record.file
    long = omega (arith, length-append {0} file_header (frame_of first_entry ++ []))

open_storage_created_example :
    (s : FileStorage) × (s' : FileStorage) × (open_storage whole none strict b'b' ≡ ok s)
    × (open_storage whole (some s.file) relaxed b'j' ≡ ok s')
    × HoldsLog s []
    × HoldsLog s' []
    × (s'.serialization_format ≡ b'b')
unfolding is_supported
open_storage_created_example = open_storage_created whole b'b' strict relaxed b'j' refl refl refl

open_storage_iff_example :
    (open_storage whole (some file_header) strict b'j'
      ≡ ok (opened file_header file_header 12 strict b'j'))
    ↔ ((format : ℕ) × (whole.read_count 0 12 ≡ 12)
        × IsDatabaseFile file_header format
        × (opened file_header file_header 12 strict b'j'
            ≡ opened file_header file_header 12 strict format))
open_storage_iff_example =
    open_storage_iff whole file_header strict b'j' (opened file_header file_header 12 strict b'j')

read_exact_lem_example : read_exact single (5 ∷ 6 ∷ 7 ∷ []) 2 1 ≡ ok (6 ∷ 7 ∷ [])
read_exact_lem_example = read_exact_lem single (5 ∷ 6 ∷ 7 ∷ []) 2 1

write_all_lem_example : write_all single (5 ∷ 6 ∷ 7 ∷ []) (1 ∷ 2 ∷ []) 1 ≡ ok (5 ∷ 1 ∷ 2 ∷ [])
write_all_lem_example = write_all_lem single (5 ∷ 6 ∷ 7 ∷ []) (1 ∷ 2 ∷ []) 1 (omega arith)

-- ===== src/Storage/FileStorage/Replay.antt =====
-- `readOperations` against the log as it stands in the file.
pub mod Cases
pub mod Window
pub mod Reference
pub mod Log
use pocket_db.Prelude.{
  ℕ, zero, suc, ◌+◌, Option, none, some, List, [], ◌∷◌, ltb, leb, ◌==◌, if◌then◌else◌, length, drop,
  Result, ◌>>=◌, ◌>>◌, stuck, ok, err,
}
use pocket_db.Storage.Buffers.{Buffer, read_u32_be}
use pocket_db.Storage.Constants.{
  operation_crc32_bytes, operation_header_bytes, operation_identifier_bytes,
}
use pocket_db.Storage.OperationRecord.{OperationRecord, read_operation_from_buffer}
use pocket_db.Storage.FileStorage.{FileStorage, recover_torn_tail}

-- The log, read in one piece: the records with their offsets, and, if the last one is torn, the
-- offset at which it starts. `rest` is what stands in the file from `offset` on.
unfoldable pub parse_log : ℕ → ℕ → Buffer → Result (List OperationRecord × Option ℕ)
parse_log zero offset rest = err stuck
parse_log (suc fuel) offset rest =
    if length rest == 0
    then ok ([], none)
    else if ltb (length rest) operation_header_bytes
    then ok ([], some offset)
    else do
      length_field ← read_u32_be rest operation_identifier_bytes
      let record_length = operation_header_bytes + length_field + operation_crc32_bytes
      let later = parse_log fuel (offset + record_length) (drop record_length rest)
      if ltb (length rest) record_length
          then ok ([], some offset)
          else elim (read_operation_from_buffer rest 0) [
            | err e ↦ if leb (length rest) record_length then ok ([], some offset) else err e
            | ok operation ↦ do
              (operations, torn) ← later
              ok (record operation { offset = some offset } ∷ operations, torn)
          ]

-- What is left of the file: all of it, or the part before the torn record.
unfoldable pub settle :
    FileStorage
    → Result (List OperationRecord × Option ℕ)
    → Result (List OperationRecord × FileStorage)
settle s (err e) = err e
settle s (ok (operations, none)) = ok (operations, s)
settle s (ok (operations, some offset)) =
    ok (operations, recover_torn_tail s offset s.current_offset)

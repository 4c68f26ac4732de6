-- ===== src/Storage/FileStorage.antt =====
-- storage/file-storage.ts: the database file. The file on disk is part of the state, so that a method
-- returns the new state; `on_disk` is what the last `fsync` made durable.
pub mod Open
pub mod Replay
pub mod Append
pub mod Bulk
use pocket_db.Prelude.{
  ℕ, zero, suc, ◌+◌, ◌-◌, min, max, Bool, true, false, some, List, [], ◌∷◌, ◌++◌, ltb, leb, ◌==◌,
  if◌then◌else◌, length, take, drop, replicate, Result, ◌>>=◌, ◌>>◌, stuck, ok, err,
}
use pocket_db.Storage.Buffers.{Buffer, read_u32_be}
use pocket_db.Storage.Constants.{
  file_header_bytes, operation_crc32_bytes, operation_header_bytes, operation_identifier_bytes,
}
use pocket_db.Storage.OperationRecord.{
  OperationRecord, encode_operation_record, decode_operation_record, read_operation_from_buffer,
}
use pocket_db.Storage.Os.{Os, read_exact, write_all}

-- `DurabilityMode` of types.ts
pub data DurabilityMode : Type 0 where
  strict relaxed : DurabilityMode

pub record FileStorage : Type 0 where
  pub file : Buffer
  pub on_disk : Buffer
  pub current_offset : ℕ
  pub torn_tail_recovered : Bool
  pub torn_tail_bytes : ℕ
  pub durability : DurabilityMode
  pub serialization_format : ℕ

pub is_strict : DurabilityMode → Bool
is_strict strict = true
is_strict relaxed = false

module _ (os : Os) where
  -- The new state, and the offset of the record.
  unfoldable pub append_operation : FileStorage → Buffer → Buffer → Result (FileStorage × ℕ)
  unfolding is_strict
  append_operation s identifier payload = do
    bytes ← encode_operation_record identifier payload
    file' ← write_all os s.file bytes s.current_offset
    let s' = record s { file = file'; current_offset = s.current_offset + length bytes }
    ok (if is_strict s.durability then record s' { on_disk = file' } else s', s.current_offset)

  unfoldable pub read_operation_at_offset : FileStorage → ℕ → Result OperationRecord
  read_operation_at_offset s offset = do
    header ← read_exact os s.file operation_header_bytes offset
    length_field ← read_u32_be header operation_identifier_bytes
    payload ← read_exact os s.file length_field (offset + operation_header_bytes)
    checksum ←
        read_exact os s.file operation_crc32_bytes (offset + operation_header_bytes + length_field)
    operation ← decode_operation_record (header ++ payload) checksum
    ok (record operation {
      byte_length = some (operation_header_bytes + length_field + operation_crc32_bytes);
    })

  unfoldable pub read_raw_bytes : FileStorage → ℕ → ℕ → Result Buffer
  read_raw_bytes s offset count = read_exact os s.file count offset

  unfoldable pub write_raw_at : FileStorage → ℕ → Buffer → Result FileStorage
  write_raw_at s offset new = do
    file' ← write_all os s.file new offset
    ok (record s { file = file' })

-- `ftruncate` cuts the file, or fills it up with zeros.
unfoldable pub truncate_to : FileStorage → ℕ → FileStorage
truncate_to s new_size = record s {
  file = take new_size s.file ++ replicate (new_size - length s.file) 0;
  current_offset = new_size;
}

unfoldable pub recover_torn_tail : FileStorage → ℕ → ℕ → FileStorage
unfolding truncate_to
recover_torn_tail s valid_offset prior_end = record (truncate_to s valid_offset) {
  torn_tail_recovered = true;
  torn_tail_bytes = prior_end - valid_offset;
}

-- The loop of `readBulkRange` over the offsets: the least and the greatest.
pub offset_range : List ℕ → ℕ → ℕ → ℕ × ℕ
offset_range [] least greatest = (least, greatest)
offset_range (offset ∷ offsets) least greatest =
    offset_range offsets (if ltb offset least then offset else least)
      (if ltb greatest offset then offset else greatest)

pub record BulkRange : Type 0 where
  pub buffer : Buffer
  pub range_start : ℕ

-- `offsets` is not empty: its first element and the others are given apart.
unfoldable pub read_bulk_range : Os → FileStorage → ℕ → List ℕ → Result BulkRange
unfolding offset_range
read_bulk_range os s first others = do
  let (least, greatest) = offset_range (first ∷ others) first first
  header ← read_exact os s.file operation_header_bytes greatest
  length_field ← read_u32_be header operation_identifier_bytes
  let record_end = greatest + operation_header_bytes + length_field + operation_crc32_bytes
  let range_end = min record_end s.current_offset
  buffer ← read_exact os s.file (range_end - least) least
  ok (record { buffer = buffer; range_start = least })

-- The state of the generator `readOperations` between two records.
pub record Generator : Type 0 where
  pub file_offset : ℕ
  pub window : Buffer
  pub end : ℕ

unfoldable pub start_reading : FileStorage → Generator
start_reading s = record { file_offset = file_header_bytes; window = []; end = s.current_offset }

-- What the generator does next: it ends, or it yields a record.
pub data Yield : Type 0 where
  finished : FileStorage → Yield
  yielded : OperationRecord → Generator → Yield

-- The `try` around the decoding.
pub decode_or_recover : FileStorage → Generator → ℕ → Buffer → Result OperationRecord → Result Yield
decode_or_recover s g record_length window (err e) =
    if leb g.end (g.file_offset + record_length)
    then ok (finished (recover_torn_tail s g.file_offset g.end))
    else err e
decode_or_recover s g record_length window (ok operation) = ok (
    yielded (record operation { offset = some g.file_offset })
      (record g {
        file_offset = g.file_offset + record_length;
        window = drop record_length window;
      }))

pub next_record : FileStorage → Generator → Bool → Buffer → ℕ → Result Yield
unfolding decode_or_recover
next_record s g false window record_length = ok (finished (recover_torn_tail s g.file_offset g.end))
next_record s g true window record_length =
    decode_or_recover s g record_length window (read_operation_from_buffer window 0)

module _ (os : Os) (chunk_bytes : ℕ) where
  -- `fill`: whether the window holds `min_bytes`, and the window.
  pub fill_loop : ℕ → FileStorage → Generator → ℕ → Buffer → Result (Bool × Buffer)
  fill_loop zero s g min_bytes window = err stuck
  fill_loop (suc fuel) s g min_bytes window =
      let remaining = g.end - (g.file_offset + length window) in
      let read_length = min (max chunk_bytes (min_bytes - length window)) remaining in
      let more = do
        next ← read_exact os s.file read_length (g.file_offset + length window)
        fill_loop fuel s g min_bytes (window ++ next)
      in if ltb (length window) min_bytes
        then (if remaining == 0 then ok (leb min_bytes (length window), window) else more)
        else ok (true, window)

  -- A round reads all that is missing, or all that remains, so that the second round is the last.
  pub fill : FileStorage → Generator → ℕ → Buffer → Result (Bool × Buffer)
  fill = fill_loop 2

  pub next_header : FileStorage → Generator → Bool → Buffer → Result Yield
  unfolding next_record fill
  next_header s g false window =
      if length window == 0
      then ok (finished s)
      else ok (finished (recover_torn_tail s g.file_offset g.end))
  next_header s g true window = do
    length_field ← read_u32_be window operation_identifier_bytes
    let record_length = operation_header_bytes + length_field + operation_crc32_bytes
    (full, window') ← fill s g record_length window
    next_record s g full window' record_length

  -- One round of the `while (true)` loop of `readOperations`.
  pub next_operation : FileStorage → Generator → Result Yield
  unfolding next_header
  next_operation s g = do
    (full, window) ← fill s g operation_header_bytes g.window
    next_header s g full window

  pub collect : ℕ → FileStorage → Generator → Result (List OperationRecord × FileStorage)
  collect zero s g = err stuck
  collect (suc fuel) s g =
      let step = next_operation s g in
      elim step [
        | err e ↦ err e
        | ok y ↦ elim y [
          | finished s' ↦ ok ([], s')
          | yielded operation g' ↦ do
            (operations, s') ← collect fuel s g'
            ok (operation ∷ operations, s')
        ]
      ]

  -- A consumer that takes every record and writes nothing meanwhile. A record has twelve bytes at
  -- least, so one round for each byte, and one to see the end, are enough.
  unfoldable pub read_operations : FileStorage → Result (List OperationRecord × FileStorage)
  unfolding collect next_operation
  read_operations s = collect (suc s.current_offset) s (start_reading s)

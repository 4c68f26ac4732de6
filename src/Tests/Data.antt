-- ===== src/Tests/Data.antt =====
-- Concrete systems, records and files.
use pocket_db.Prelude.{min, refl, false, [], ◌∷◌, ◌++◌, arith, length}
use pocket_db.Storage.Buffers.{Buffer}
use pocket_db.Storage.Constants.{
  put_document_operation, delete_document_operation, magic_header_bytes,
}
use pocket_db.Storage.Os.{Os}
use pocket_db.Storage.FileStorage.{FileStorage, strict}
use pocket_db.Storage.FileStorage.Replay.Log.{Entry, IsWritableEntry, frame_of, HoldsLog}

-- A system that moves all the bytes asked for.
abbrev pub whole : Os
whole = record {
  read_count = λ _ n. n;
  write_count = λ _ n. n;
  read_some = λ _ n h. h;
  read_le = λ _ n. omega arith;
  write_some = λ _ n h. h;
  write_le = λ _ n. omega arith;
}

-- A system that moves one byte in a call.
abbrev pub single : Os
single = record {
  read_count = λ _ n. min 1 n;
  write_count = λ _ n. min 1 n;
  read_some = λ _ n h. omega arith;
  read_le = λ _ n. omega arith;
  write_some = λ _ n h. omega arith;
  write_le = λ _ n. omega arith;
}

abbrev pub first_entry : Entry
first_entry = record { identifier = put_document_operation; payload = 1 ∷ 2 ∷ 3 ∷ [] }

abbrev pub second_entry : Entry
second_entry = record { identifier = delete_document_operation; payload = 7 ∷ [] }

pub first_writable : IsWritableEntry first_entry
first_writable = record { four = refl; width = omega arith }

pub second_writable : IsWritableEntry second_entry
second_writable = record { four = refl; width = omega arith }

-- A file header.
abbrev pub file_header : Buffer
file_header = magic_header_bytes ++ (0 ∷ 1 ∷ b'j' ∷ 0 ∷ [])

-- A file that holds one record.
abbrev pub one_record : FileStorage
one_record = record {
  file = file_header ++ (frame_of first_entry ++ []);
  on_disk = [];
  current_offset = length (file_header ++ (frame_of first_entry ++ []));
  torn_tail_recovered = false;
  torn_tail_bytes = 0;
  durability = strict;
  serialization_format = b'j';
}

pub one_record_log : HoldsLog one_record (first_entry ∷ [])
one_record_log = record {
  header = file_header;
  header_size = refl;
  written = (first_writable, tt);
  content = refl;
  offset = refl;
}

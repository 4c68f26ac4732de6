-- ===== src/Storage/FileStorage/Open.antt =====
-- `FileStorage.open` of storage/file-storage.ts.
pub mod Reopen
use pocket_db.Storage.FileStorage.{file_header_bytes}
use pocket_db.Prelude.{
  ℕ, ◌+◌, Bool, false, not, ◌||◌, Option, none, some, [], ◌∷◌, ◌++◌, ltb, ◌==◌, length, take,
  subarray, Result, throw_if, ◌>>=◌, ◌>>◌, header_too_short, bad_magic, bad_version, bad_format,
  bad_serialization_version, ok,
}
use pocket_db.Storage.Buffers.{Buffer, read_u8, write_u8, equals}
use pocket_db.Storage.Constants.{
  file_header_bytes, magic_header_bytes, format_major_version, format_minor_version,
  serialization_version, serialization_format, serialization_format_bson, serialization_format_amf3,
}
use pocket_db.Storage.Os.{Os, read_sync, write_at}
use pocket_db.Storage.FileStorage.{DurabilityMode, FileStorage}

-- `supportedFormats.has`
unfoldable pub is_supported : ℕ → Bool
is_supported format =
    (format == serialization_format)
    || (format == serialization_format_bson)
    || (format == serialization_format_amf3)

-- The checks of an existing file's header, in their order; the minor version is not looked at.
unfoldable pub check_header : Buffer → Result ℕ
unfolding is_supported
check_header header = do
  throw_if (ltb (length header) file_header_bytes) header_too_short
  throw_if (not (equals (subarray header 0 (length magic_header_bytes)) magic_header_bytes))
      bad_magic
  major ← read_u8 header (length magic_header_bytes)
  throw_if (not (major == format_major_version)) bad_version
  format ← read_u8 header (length magic_header_bytes + 2)
  throw_if (not (is_supported format)) bad_format
  version ← read_u8 header (length magic_header_bytes + 3)
  throw_if (not (version == serialization_version)) bad_serialization_version
  ok format

-- The constructor.
abbrev pub opened : Buffer → Buffer → ℕ → DurabilityMode → ℕ → FileStorage
opened file on_disk initial_offset durability format = record {
  file = file;
  on_disk = on_disk;
  current_offset = initial_offset;
  torn_tail_recovered = false;
  torn_tail_bytes = 0;
  durability = durability;
  serialization_format = format;
}

module _ (os : Os) where
  -- A file that does not exist: the header is written by one call of `writeSync`.
  unfoldable pub create_file : DurabilityMode → ℕ → Result FileStorage
  unfolding write_at
  create_file durability new_file_format_byte = do
    format ← write_u8 new_file_format_byte
    let header =
        magic_header_bytes
        ++ (format_major_version ∷ format_minor_version ∷ (format ++ (serialization_version ∷ [])))
    let written = take (os.write_count 0 (length header)) header
    ok (opened (write_at [] 0 written) [] file_header_bytes durability new_file_format_byte)

  -- A file that exists: its header is read by one call of `readSync`.
  unfoldable pub open_file : Buffer → DurabilityMode → Result FileStorage
  open_file file durability = do
    format ← check_header (read_sync os file file_header_bytes 0)
    ok (opened file file (length file) durability format)

  -- `none` is a path at which no file exists.
  unfoldable pub open_storage : Option Buffer → DurabilityMode → ℕ → Result FileStorage
  unfolding create_file open_file
  open_storage none durability new_file_format_byte = create_file durability new_file_format_byte
  open_storage (some file) durability new_file_format_byte = open_file file durability

-- ===== src/Tests/Hosts.antt =====
-- A concrete host, whose documents are those with an `_id` alone, and collections in files.
use pocket_db.Prelude.{
  refl, false, none, some, List, [], ◌∷◌, ◌++◌, arith, length, All, Result, bad_object_id, ok, err,
}
use pocket_db.Search.Values.{Text, string, DocumentRecord}
use pocket_db.Storage.Buffers.{Buffer}
use pocket_db.Storage.Constants.{hole_operation}
use pocket_db.Storage.FileStorage.{FileStorage, strict}
use pocket_db.Storage.FileStorage.Replay.Log.{Entry, IsWritableEntry, frames, HoldsLog}
use pocket_db.Indexes.PrimaryIndex.{id_field}
use pocket_db.Api.Host.{Host}
use pocket_db.Api.Collection.{Collection, State}
use pocket_db.Api.Database.Batch.{begin_entry}
use pocket_db.Tests.Data.{whole, file_header, first_entry, first_writable}

abbrev pub document_with : Text → DocumentRecord
document_with id = (id_field, some (string id)) ∷ []

abbrev encode_identified : DocumentRecord → Result Buffer
encode_identified ((field, some (string id)) ∷ []) = ok id
encode_identified _ = err bad_object_id

abbrev pub plain : Host
plain = record {
  os = whole;
  chunk_bytes = 4;
  to_bytes = λ t. t;
  of_bytes = λ b. b;
  of_bytes-to_bytes = λ t. refl;
  encode = encode_identified;
  decode = λ bytes. ok (document_with bytes);
  size_of = λ document. 1;
}

abbrev pub hole_entry : Entry
hole_entry = record { identifier = hole_operation; payload = 0 ∷ 0 ∷ [] }

-- A file with the given records.
abbrev pub file_of : List Entry → FileStorage
file_of es = record {
  file = file_header ++ frames es;
  on_disk = [];
  current_offset = length (file_header ++ frames es);
  torn_tail_recovered = false;
  torn_tail_bytes = 0;
  durability = strict;
  serialization_format = b'j';
}

pub file_of-HoldsLog : (es : List Entry) → All IsWritableEntry es → HoldsLog (file_of es) es
file_of-HoldsLog es written = record {
  header = file_header;
  header_size = refl;
  written = written;
  content = refl;
  offset = refl;
}

-- A record, and the begin of a transaction with one operation.
pub interrupted_log :
    HoldsLog
      (file_of (hole_entry ∷ begin_entry ∷ first_entry ∷ []))
      (hole_entry ∷ begin_entry ∷ first_entry ∷ [])
interrupted_log = file_of-HoldsLog (hole_entry ∷ begin_entry ∷ first_entry ∷ []) (
  record { four = refl; width = omega arith },
  (record { four = refl; width = omega arith }, (first_writable, tt)),
)

abbrev pub people : Collection
people = record {
  id = 1 ∷ 2 ∷ 3 ∷ 4 ∷ [];
  name = b'p' ∷ [];
  primary_index = [];
  index_manager = [];
  dropped = false;
  cache = none;
}

abbrev pub people_state : State
people_state = record { storage = file_of []; self = people }

abbrev pub new_id : Buffer
new_id = 1 ∷ 2 ∷ 3 ∷ 4 ∷ 5 ∷ 6 ∷ 7 ∷ 8 ∷ 9 ∷ 10 ∷ 11 ∷ 12 ∷ []

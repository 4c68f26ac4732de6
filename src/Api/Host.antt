-- ===== src/Api/Host.antt =====
-- What the classes of src/api are given: the system, the encoder of the documents, node's conversions.
use pocket_db.Prelude.{ℕ, ◌≡◌, Result}
use pocket_db.Search.Values.{Text, DocumentRecord}
use pocket_db.Storage.Buffers.{Buffer}
use pocket_db.Storage.Os.{Os}
use pocket_db.Storage.Payloads.{Utf8}
use pocket_db.Storage.DocumentOperation.{DocumentEncoder}

pub record Host : Type 0 where
  pub os : Os
  -- the size of a read window of the replay
  pub chunk_bytes : ℕ
  pub to_bytes : Text → Buffer
  pub of_bytes : Buffer → Text
  pub of_bytes-to_bytes : (t : Text) → of_bytes (to_bytes t) ≡ t
  pub encode : DocumentRecord → Result Buffer
  pub decode : Buffer → Result DocumentRecord
  -- `estimateDocumentBytes` of document-cache.ts
  pub size_of : DocumentRecord → ℕ

abbrev pub utf8_of : Host → Utf8
utf8_of host = record {
  Text = Text;
  to_bytes = host.to_bytes;
  of_bytes = host.of_bytes;
  of_bytes-to_bytes = host.of_bytes-to_bytes;
}

abbrev pub encoder_of : Host → DocumentEncoder
encoder_of host = record { Document = DocumentRecord; encode = host.encode; decode = host.decode }

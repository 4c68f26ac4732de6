-- ===== src/Storage/OperationRecord/RoundTrip.antt =====
-- A record is read back from where it stands, and a damaged record is refused.
use pocket_db.Storage.OperationRecord.{read_operation_from_buffer}
use pocket_db.Storage.Buffers.{read_u32_be-u32_bytes}
use pocket_db.Storage.Buffers.{length-u32_bytes}
use pocket_db.Storage.Buffers.{read_u32_be}
use pocket_db.Storage.OperationRecord.{decode_operation_record}
use pocket_db.Storage.Buffers.{write_u32_be_fits}
use pocket_db.Prelude.{
  ℕ, ◌+◌, ◌^◌, ◌<◌, ◌≡◌, refl, sym, ap, ◌∙◌, ◌≢◌, none, some, [], ◌∷◌, ◌++◌, append-nil,
  append_assoc, arith, length, subarray, All, length-append, subarray-middle, subarray-tail,
  checksum_mismatch, ok, err,
}
use pocket_db.Storage.Buffers.{Buffer, IsByte, u32_bytes}
use pocket_db.Storage.OperationRecord.{OperationRecord, encode_operation_record}
use pocket_db.Storage.Crc32.{crc32}
use pocket_db.Storage.Crc32.Detection.{crc32-lt, crc32_detects_byte}

-- The fields of a record that can be written.
pub record IsWritable (identifier payload : Buffer) : Type 0 where
  pub four : length identifier ≡ 4
  pub width : length payload < 2 ^ 32

abbrev pub body : Buffer → Buffer → Buffer
body identifier payload = identifier ++ (u32_bytes (length payload) ++ payload)

-- The bytes of a record.
unfoldable pub frame : Buffer → Buffer → Buffer
frame identifier payload =
    let before = body identifier payload in before ++ u32_bytes (crc32 before)

pub encode_operation_record-frame :
    (identifier payload : Buffer)
    → IsWritable identifier payload
    → encode_operation_record identifier payload ≡ ok (frame identifier payload)
unfolding encode_operation_record frame
encode_operation_record-frame identifier payload w = ground (
  arith,
  write_u32_be_fits (length payload) w.width,
  write_u32_be_fits (crc32 (body identifier payload)) (crc32-lt (body identifier payload)),
)

pub length-frame :
    (identifier payload : Buffer)
    → IsWritable identifier payload
    → length (frame identifier payload) ≡ length payload + 12
unfolding frame
length-frame identifier payload w =
    let before = body identifier payload in
    omega (
      arith,
      length-append {0} before (u32_bytes (crc32 before)),
      length-append {0} identifier (u32_bytes (length payload) ++ payload),
      length-append {0} (u32_bytes (length payload)) payload,
      length-u32_bytes (length payload),
      length-u32_bytes (crc32 before),
    )

read_u32_alone : (value : ℕ) → value < 2 ^ 32 → read_u32_be (u32_bytes value) 0 ≡ ok value
read_u32_alone value h =
    ap (λ (t : Buffer). read_u32_be t 0) (sym (append-nil (u32_bytes value)))
    ∙ read_u32_be-u32_bytes [] [] value h refl

module _ (identifier payload : Buffer) (w : IsWritable identifier payload) where
  pub length-body : length (body identifier payload) ≡ length payload + 8
  length-body = omega (
    arith,
    w.four,
    length-append {0} identifier (u32_bytes (length payload) ++ payload),
    length-append {0} (u32_bytes (length payload)) payload,
    length-u32_bytes (length payload),
  )

  identifier_part : subarray (body identifier payload) 0 4 ≡ identifier
  identifier_part =
      subarray-middle [] identifier (u32_bytes (length payload) ++ payload) refl
        (omega (arith, w.four))

  payload_part : subarray (body identifier payload) 8 (8 + length payload) ≡ payload
  payload_part =
      let head = identifier ++ u32_bytes (length payload) in
      let eight : length head ≡ 8 = omega (
        arith,
        w.four,
        length-append {0} identifier (u32_bytes (length payload)),
        length-u32_bytes (length payload),
      ) in
      ap (λ (t : Buffer). subarray t 8 (8 + length payload))
        (sym (append_assoc identifier (u32_bytes (length payload)) payload))
      ∙ subarray-tail head payload (sym eight) (omega arith)

  pub decode_body :
      decode_operation_record
        (body identifier payload)
        (u32_bytes (crc32 (body identifier payload)))
      ≡ ok
          (record { identifier = identifier; payload = payload; byte_length = none; offset = none })
  unfolding decode_operation_record
  decode_body =
      let before = body identifier payload in
      ground (
        arith,
        read_u32_alone (crc32 before) (crc32-lt before),
        read_u32_be-u32_bytes identifier payload (length payload) w.width (sym w.four),
        identifier_part,
        payload_part,
      )

  module _ (pre post : Buffer) where
    abbrev placed : Buffer
    placed = pre ++ (frame identifier payload ++ post)

    abbrev sum : Buffer
    sum = u32_bytes (crc32 (body identifier payload))

    length_field : read_u32_be placed (length pre + 4) ≡ ok (length payload)
    unfolding frame
    length_field =
        let shape : placed
            ≡ (pre ++ identifier) ++ (u32_bytes (length payload) ++ (payload ++ (sum ++ post))) =
          simp append_assoc in
        ap (λ (t : Buffer). read_u32_be t (length pre + 4)) shape
        ∙ read_u32_be-u32_bytes (pre ++ identifier) (payload ++ (sum ++ post)) (length payload)
            w.width (omega (arith, w.four, length-append {0} pre identifier))

    body_part :
        subarray placed (length pre) (length pre + 8 + length payload) ≡ body identifier payload
    unfolding frame
    body_part =
        let shape : placed ≡ pre ++ (body identifier payload ++ (sum ++ post)) =
          simp append_assoc in
        ap (λ (t : Buffer). subarray t (length pre) (length pre + 8 + length payload)) shape
        ∙ subarray-middle pre (body identifier payload) (sum ++ post) refl
            (omega (arith, length-body))

    checksum_part :
        subarray placed (length pre + 8 + length payload) (length pre + (8 + length payload + 4))
        ≡ sum
    unfolding frame
    checksum_part =
        let shape : placed ≡ (pre ++ body identifier payload) ++ (sum ++ post) =
          simp append_assoc in
        ap
          (λ (t : Buffer).
            subarray t (length pre + 8 + length payload) (length pre + (8 + length payload + 4)))
          shape
        ∙ subarray-middle (pre ++ body identifier payload) sum post
            (omega (arith, length-body, length-append {0} pre (body identifier payload)))
            (omega (
              arith,
              length-body,
              length-append {0} pre (body identifier payload),
              length-u32_bytes (crc32 (body identifier payload)),
            ))

    length-placed : length placed ≡ length pre + (length payload + 12) + length post
    length-placed = omega (
      arith,
      length-append {0} pre (frame identifier payload ++ post),
      length-append {0} (frame identifier payload) post,
      length-frame identifier payload w,
    )

    -- The record that a reader gets back.
    abbrev pub read_back : OperationRecord
    read_back = record {
      identifier = identifier;
      payload = payload;
      byte_length = some (8 + length payload + 4);
      offset = none;
    }

    pub read_frame : read_operation_from_buffer placed (length pre) ≡ ok read_back
    unfolding read_operation_from_buffer
    read_frame = ground (arith, length-placed, length_field, body_part, checksum_part, decode_body)

-- A record whose identifier has four bytes and whose payload's length has 32 bits is encoded, and is
-- read back, identifier, payload and length, from where it stands in any buffer.
pub read_operation_from_buffer-encode_operation_record :
    (identifier payload pre post : Buffer)
    → IsWritable identifier payload
    → (bytes : Buffer) × (encode_operation_record identifier payload ≡ ok bytes)
      × (length bytes ≡ length payload + 12)
      × (read_operation_from_buffer (pre ++ (bytes ++ post)) (length pre)
          ≡ ok (record {
            identifier = identifier;
            payload = payload;
            byte_length = some (8 + length payload + 4);
            offset = none;
          }))
read_operation_from_buffer-encode_operation_record identifier payload pre post w = (
  frame identifier payload,
  encode_operation_record-frame identifier payload w,
  length-frame identifier payload w,
  read_frame identifier payload w pre post,
)

-- If one byte of what stands before the checksum is replaced by another byte, wherever it stands,
-- the record is refused.
pub decode_operation_record_corrupt :
    (front back : Buffer) (byte byte' : ℕ)
    → All IsByte back
    → IsByte byte
    → IsByte byte'
    → byte ≢ byte'
    → decode_operation_record (front ++ (byte' ∷ back)) (u32_bytes (crc32 (front ++ (byte ∷ back))))
      ≡ err checksum_mismatch
unfolding decode_operation_record
decode_operation_record_corrupt front back byte byte' wf hb hb' differ =
    let c = crc32 (front ++ (byte ∷ back)) in
    let c' = crc32 (front ++ (byte' ∷ back)) in
    let changed : c ≢ c' = crc32_detects_byte front back byte byte' wf hb hb' differ in
    ground (arith, read_u32_alone c (crc32-lt (front ++ (byte ∷ back))), changed)

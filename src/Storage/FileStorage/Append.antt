-- ===== src/Storage/FileStorage/Append.antt =====
-- `appendOperation` and `readOperationAtOffset`.
use pocket_db.Storage.Buffers.{length-u32_bytes}
use pocket_db.Storage.Buffers.{read_u32_be-u32_bytes}
use pocket_db.Storage.FileStorage.{write_all}
use pocket_db.Prelude.{
  ℕ, ◌+◌, ◌-◌, ◌≡◌, refl, sym, ap, ◌∙◌, ◌⊎◌, inl, inr, true, none, some, List, [], ◌∷◌, ◌++◌,
  append-nil, append_assoc, arith, ap₂, leb, if◌then◌else◌, le→leb, length, take, drop,
  length-append, take-append_length, drop-append_length, All-append, ok,
}
use pocket_db.Storage.Buffers.{Buffer, u32_bytes, read_u32_be}
use pocket_db.Storage.Crc32.{crc32}
use pocket_db.Storage.OperationRecord.RoundTrip.{
  IsWritable, frame, body, encode_operation_record-frame, decode_body, read_back,
}
use pocket_db.Storage.Os.{Os, read_exact}
use pocket_db.Storage.Os.Exact.{read_exact_lem}
use pocket_db.Storage.Os.Written.{write_all_end}
use pocket_db.Storage.FileStorage.{
  DurabilityMode, strict, relaxed, FileStorage, is_strict, append_operation,
  read_operation_at_offset,
}
use pocket_db.Storage.FileStorage.Replay.Log.{Entry, IsWritableEntry, frame_of, frames, HoldsLog}

frames-append : (es : List Entry) (e : Entry) → frames (es ++ (e ∷ [])) ≡ frames es ++ frame_of e
frames-append [] e = append-nil (frame_of e)
frames-append (first ∷ es) e =
    ap (◌++◌ (frame_of first)) (frames-append es e)
    ∙ sym (append_assoc (frame_of first) (frames es) (frame_of e))

-- What an append does to the state.
abbrev appended : FileStorage → Buffer → FileStorage
appended s bytes =
    let s' = record s {
      file = s.file ++ bytes;
      current_offset = s.current_offset + length bytes;
    } in
    if is_strict s.durability then record s' { on_disk = s.file ++ bytes } else s'

append_operation_lem :
    (os : Os) (s : FileStorage) (identifier payload : Buffer)
    → IsWritable identifier payload
    → s.current_offset ≡ length s.file
    → append_operation os s identifier payload
      ≡ ok (appended s (frame identifier payload), s.current_offset)
unfolding append_operation
append_operation_lem os s identifier payload w all =
    let bytes = frame identifier payload in
    let written : write_all os s.file bytes s.current_offset ≡ ok (s.file ++ bytes) =
      ap (write_all os s.file bytes) all ∙ write_all_end os s.file bytes in
    rw (encode_operation_record-frame identifier payload w, written)

-- A part of the file, read by `readExact`.
read_part :
    (os : Os) (front part back : Buffer) (count position : ℕ)
    → count ≡ length part
    → position ≡ length front
    → read_exact os (front ++ (part ++ back)) count position ≡ ok part
read_part os front part back count position p q =
    let file = front ++ (part ++ back) in
    let there : leb count (length file - position) ≡ true =
      le→leb count _ (
        omega (arith, p, q, length-append {0} front (part ++ back), length-append {0} part back)) in
    let bytes : take count (drop position file) ≡ part =
      ap₂ (λ (n k : ℕ). take n (drop k file)) p q
      ∙ ap (take (length part)) (drop-append_length front (part ++ back))
      ∙ take-append_length part back in
    read_exact_lem os file count position ∙ rw (there, bytes)

module _ (os : Os) (s : FileStorage) (e : Entry) (pre post : Buffer) where
  abbrev pub head : Buffer
  head = e.identifier ++ u32_bytes (length e.payload)

  abbrev sum : Buffer
  sum = u32_bytes (crc32 (body e.identifier e.payload))

  module _ (w : IsWritableEntry e) (content : s.file ≡ pre ++ (frame_of e ++ post)) where
    length-head : length head ≡ 8
    length-head = omega (
      arith,
      w.four,
      length-append {0} e.identifier (u32_bytes (length e.payload)),
      length-u32_bytes (length e.payload),
    )

    pub header_read : read_exact os s.file 8 (length pre) ≡ ok head
    unfolding frame
    header_read =
        let shape : s.file ≡ pre ++ (head ++ (e.payload ++ (sum ++ post))) =
          content ∙ simp append_assoc in
        ap (λ (t : Buffer). read_exact os t 8 (length pre)) shape
        ∙ read_part os pre head (e.payload ++ (sum ++ post)) 8 (length pre) (sym length-head) refl

    payload_read : read_exact os s.file (length e.payload) (length pre + 8) ≡ ok e.payload
    unfolding frame
    payload_read =
        let shape : s.file ≡ (pre ++ head) ++ (e.payload ++ (sum ++ post)) =
          content ∙ simp append_assoc in
        ap (λ (t : Buffer). read_exact os t (length e.payload) (length pre + 8)) shape
        ∙ read_part os (pre ++ head) e.payload (sum ++ post) (length e.payload) (length pre + 8)
            refl (omega (arith, length-head, length-append {0} pre head))

    checksum_read : read_exact os s.file 4 (length pre + 8 + length e.payload) ≡ ok sum
    unfolding frame
    checksum_read =
        let front = (pre ++ head) ++ e.payload in
        let shape : s.file ≡ front ++ (sum ++ post) = content ∙ simp append_assoc in
        ap (λ (t : Buffer). read_exact os t 4 (length pre + 8 + length e.payload)) shape
        ∙ read_part os front sum post 4 (length pre + 8 + length e.payload)
            (sym (length-u32_bytes (crc32 (body e.identifier e.payload))))
            (omega (
              arith,
              length-head,
              length-append {0} pre head,
              length-append {0} (pre ++ head) e.payload,
            ))

    pub head_field : read_u32_be head 4 ≡ ok (length e.payload)
    head_field =
        ap (λ (t : Buffer). read_u32_be (e.identifier ++ t) 4)
          (sym (append-nil (u32_bytes (length e.payload))))
        ∙ read_u32_be-u32_bytes e.identifier [] (length e.payload) w.width (sym w.four)

    -- A record is read from where it stands in the file, however the system splits the reads.
    pub read_operation_at_offset-frame :
        read_operation_at_offset os s (length pre)
        ≡ ok (read_back e.identifier e.payload w pre post)
    unfolding read_operation_at_offset
    read_operation_at_offset-frame =
        let joined : head ++ e.payload ≡ body e.identifier e.payload =
          append_assoc e.identifier (u32_bytes (length e.payload)) e.payload in
        rw (
          header_read,
          head_field,
          payload_read,
          checksum_read,
          joined,
          decode_body e.identifier e.payload w,
        )

durability-cases : (d : DurabilityMode) → (d ≡ strict) ⊎ (d ≡ relaxed)
durability-cases strict = inl refl
durability-cases relaxed = inr refl

module _ (s : FileStorage) (bytes : Buffer) where
  -- All that the next lemma needs of `appended`.
  appended_fields :
      ((appended s bytes).file ≡ s.file ++ bytes)
      × ((appended s bytes).current_offset ≡ s.current_offset + length bytes)
      × ((appended s bytes).durability ≡ s.durability)
      × (s.durability ≡ strict → (appended s bytes).on_disk ≡ s.file ++ bytes)
      × (s.durability ≡ relaxed → (appended s bytes).on_disk ≡ s.on_disk)
  unfolding is_strict
  appended_fields = elim (durability-cases s.durability) [
    | inl p ↦ (rw p refl, rw p refl, rw p refl, λ q. rw p refl, λ q. absurd cc)
    | inr p ↦ (rw p refl, rw p refl, rw p refl, λ q. absurd cc, λ q. rw p refl)
  ]

HoldsLog-appended :
    {s : FileStorage} {es : List Entry} (e : Entry)
    → HoldsLog s es
    → IsWritableEntry e
    → HoldsLog (appended s (frame_of e)) (es ++ (e ∷ []))
HoldsLog-appended {s} {es} e log w =
    let (file', offset', kept, durable, buffered) = appended_fields s (frame_of e) in
    record {
      header = log.header;
      header_size = log.header_size;
      written = All-append IsWritableEntry es (e ∷ []) log.written (w, tt);
      content =
          file'
          ∙ ap (λ (t : Buffer). t ++ frame_of e) log.content
          ∙ append_assoc log.header (frames es) (frame_of e)
          ∙ ap (◌++◌ log.header) (sym (frames-append es e));
      offset =
          offset'
          ∙ ap (λ (k : ℕ). k + length (frame_of e)) log.offset
          ∙ sym (length-append s.file (frame_of e))
          ∙ ap (length {A = ℕ}) (sym file');
    }

-- Appending an entry to a log returns the offset at which the entry stands, where it is read back, and
-- leaves the log with the entry behind the others. In strict mode the whole file is durable after it.
pub append_operation-HoldsLog :
    (os : Os) {s : FileStorage} {es : List Entry} (e : Entry)
    → HoldsLog s es
    → IsWritableEntry e
    → (s' : FileStorage) × (append_operation os s e.identifier e.payload ≡ ok (s', length s.file))
      × HoldsLog s' (es ++ (e ∷ []))
      × (read_operation_at_offset os s' (length s.file)
          ≡ ok (record {
            identifier = e.identifier;
            payload = e.payload;
            byte_length = some (8 + length e.payload + 4);
            offset = none;
          }))
      × (s'.durability ≡ s.durability)
      × (s.durability ≡ strict → s'.on_disk ≡ s'.file)
      × (s.durability ≡ relaxed → s'.on_disk ≡ s.on_disk)
append_operation-HoldsLog os {s} {es} e log w =
    let s' = appended s (frame_of e) in
    let (file', offset', kept, durable, buffered) = appended_fields s (frame_of e) in
    let behind : s'.file ≡ s.file ++ (frame_of e ++ []) =
      file' ∙ ap (◌++◌ s.file) (sym (append-nil (frame_of e))) in
    (
      s',
      append_operation_lem os s e.identifier e.payload w log.offset
          ∙ ap (λ (k : ℕ). ok (s', k)) log.offset,
      HoldsLog-appended e log w,
      read_operation_at_offset-frame os s' e s.file [] w behind,
      kept,
      λ p. durable p ∙ sym file',
      buffered,
    )

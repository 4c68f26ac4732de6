-- ===== src/Storage/FileStorage/Replay/Log.antt =====
-- A log that was written record by record is read back, and a torn last record is dropped.
use pocket_db.Prelude.{
  ℕ, suc, ◌+◌, ◌-◌, ◌≤◌, ◌<◌, ◌≡◌, refl, sym, ap, ◌∙◌, true, Option, some, List, [], ◌∷◌, ◌++◌,
  append-nil, append_assoc, arith, add-zero, zero-add, suc-add, ap₂, dec_lt, length, take, drop,
  All, length-append, length-take_of_le, take-append_length, drop-append_length, length-zero,
  Result, ◌>>=◌, ok, err,
}
use pocket_db.Storage.Buffers.{
  Buffer, u32_bytes, read_u32_be, read_u32_be-u32_bytes, read_u32_be-take,
}
use pocket_db.Storage.OperationRecord.{OperationRecord}
use pocket_db.Storage.OperationRecord.RoundTrip.{
  IsWritable, frame, body, length-frame, read_frame, read_back,
}
use pocket_db.Storage.Os.{Os}
use pocket_db.Storage.Crc32.{crc32}
use pocket_db.Storage.FileStorage.{FileStorage, read_operations, recover_torn_tail}
use pocket_db.Storage.FileStorage.Replay.{parse_log, settle}
use pocket_db.Storage.FileStorage.Replay.Cases.{parse_empty, parse_short, parse_torn, parse_good}
use pocket_db.Storage.FileStorage.Replay.Reference.{read_operations-parse_log}

-- What one `appendOperation` is given.
pub record Entry : Type 0 where
  pub identifier : Buffer
  pub payload : Buffer

abbrev pub IsWritableEntry : Entry → Type 0
IsWritableEntry e = IsWritable e.identifier e.payload

abbrev pub frame_of : Entry → Buffer
frame_of e = frame e.identifier e.payload

abbrev pub frames : List Entry → Buffer
frames [] = []
frames (e ∷ es) = frame_of e ++ frames es

-- The record that a reader yields for an entry at `offset`.
abbrev pub stored : ℕ → Entry → OperationRecord
stored offset e = record {
  identifier = e.identifier;
  payload = e.payload;
  byte_length = some (8 + length e.payload + 4);
  offset = some offset;
}

abbrev pub stored_from : ℕ → List Entry → List OperationRecord
stored_from offset [] = []
stored_from offset (e ∷ es) = stored offset e ∷ stored_from (offset + (8 + length e.payload + 4)) es

-- The header of a frame, where it stands at the start.
frame_field :
    (e : Entry) (rest : Buffer)
    → IsWritableEntry e
    → read_u32_be (frame_of e ++ rest) 4 ≡ ok (length e.payload)
unfolding frame
frame_field e rest w =
    let sum = u32_bytes (crc32 (body e.identifier e.payload)) in
    let shape : frame_of e ++ rest
        ≡ e.identifier ++ (u32_bytes (length e.payload) ++ (e.payload ++ (sum ++ rest))) =
      simp append_assoc in
    ap (λ (t : Buffer). read_u32_be t 4) shape
    ∙ read_u32_be-u32_bytes e.identifier (e.payload ++ (sum ++ rest)) (length e.payload) w.width
        (sym w.four)

-- One record is read, and the rest is left.
parse_frame :
    (fuel o : ℕ) (e : Entry) (rest : Buffer)
    → IsWritableEntry e
    → parse_log (suc fuel) o (frame_of e ++ rest) ≡ (do
      (operations, torn) ← parse_log fuel (o + (8 + length e.payload + 4)) rest
      ok (stored o e ∷ operations, torn))
parse_frame fuel o e rest w =
    let n = length e.payload in
    let log = frame_of e ++ rest in
    let size : length (frame_of e) ≡ 8 + n + 4 =
      omega (arith, length-frame e.identifier e.payload w) in
    let long : 8 + n + 4 ≤ length log = omega (arith, length-append {0} (frame_of e) rest) in
    let dropped : drop (8 + n + 4) log ≡ rest =
      ap (λ (k : ℕ). drop k log) (sym size) ∙ drop-append_length (frame_of e) rest in
    parse_good fuel o log n (omega arith) (frame_field e rest w) long
      (read_back e.identifier e.payload w [] rest) (read_frame e.identifier e.payload w [] rest)
    ∙ ap
        (λ (t : Buffer). do
          (operations, torn) ← parse_log fuel (o + (8 + n + 4)) t
          ok (stored o e ∷ operations, torn))
        dropped

-- Records put before the outcome of reading the rest.
abbrev prepend :
    List OperationRecord
    → Result (List OperationRecord × Option ℕ)
    → Result (List OperationRecord × Option ℕ)
prepend before r = do (operations, torn) ← r; ok (before ++ operations, torn)

prepend-nil : (r : Result (List OperationRecord × Option ℕ)) → prepend [] r ≡ r
prepend-nil (ok (operations, torn)) = refl
prepend-nil (err e) = refl

prepend-cons :
    (first : OperationRecord) (before : List OperationRecord)
    (r : Result (List OperationRecord × Option ℕ))
    → (do (operations, torn) ← prepend before r; ok (first ∷ operations, torn))
      ≡ prepend (first ∷ before) r
prepend-cons first before (ok (operations, torn)) = refl
prepend-cons first before (err e) = refl

parse_frames :
    (es : List Entry) (fuel o : ℕ) (rest : Buffer)
    → All IsWritableEntry es
    → parse_log (length es + fuel) o (frames es ++ rest)
      ≡ prepend (stored_from o es) (parse_log fuel (o + length (frames es)) rest)
parse_frames [] fuel o rest w = rw (zero-add, add-zero) (sym (prepend-nil (parse_log fuel o rest)))
parse_frames (e ∷ es) fuel o rest w =
    let next = o + (8 + length e.payload + 4) in
    let shape : (frame_of e ++ frames es) ++ rest ≡ frame_of e ++ (frames es ++ rest) =
      append_assoc (frame_of e) (frames es) rest in
    let size : next + length (frames es) ≡ o + length (frame_of e ++ frames es) = omega (
      arith,
      length-frame e.identifier e.payload w.0,
      length-append {0} (frame_of e) (frames es),
    ) in
    ap₂ (λ (n : ℕ) (t : Buffer). parse_log n o t) (suc-add (length es) fuel) shape
    ∙ parse_frame (length es + fuel) o e (frames es ++ rest) w.0
    ∙ ap
        (λ (r : Result (List OperationRecord × Option ℕ)). do
          (operations, torn) ← r
          ok (stored o e ∷ operations, torn))
        (parse_frames es fuel next rest w.1)
    ∙ prepend-cons (stored o e) (stored_from next es)
        (parse_log fuel (next + length (frames es)) rest)
    ∙ ap (λ (k : ℕ). prepend (stored_from o (e ∷ es)) (parse_log fuel k rest)) size

length-frames-le : (es : List Entry) → All IsWritableEntry es → length es ≤ length (frames es)
length-frames-le [] w = omega arith
length-frames-le (e ∷ es) w = omega (
  arith,
  length-frames-le es w.1,
  length-frame e.identifier e.payload w.0,
  length-append {0} (frame_of e) (frames es),
)

-- What a crash in the middle of an `appendOperation` can leave of its record: some of its first bytes.
pub record IsTorn (e : Entry) (part : Buffer) : Type 0 where
  pub cut : ℕ
  pub cut_inside : cut < length (frame_of e)
  pub prefix : part ≡ take cut (frame_of e)

parse_torn_part :
    (fuel o : ℕ) (e : Entry) (part : Buffer)
    → IsWritableEntry e
    → IsTorn e part
    → 0 < length part
    → parse_log (suc fuel) o part ≡ ok ([], some o)
parse_torn_part fuel o e part w torn some_bytes = elim (dec_lt (length part) 8) [
  | yes short ↦ parse_short fuel o part some_bytes short
  | no long ↦
      let size : length part ≡ torn.cut =
        ap (length {A = ℕ}) torn.prefix
        ∙ length-take_of_le torn.cut (frame_of e) (omega (arith, torn.cut_inside)) in
      let field : read_u32_be part 4 ≡ ok (length e.payload) =
        ap (λ (t : Buffer). read_u32_be t 4) torn.prefix
        ∙ read_u32_be-take torn.cut 4 (frame_of e) (omega arith)
        ∙ ap (λ (t : Buffer). read_u32_be t 4) (sym (append-nil (frame_of e)))
        ∙ frame_field e [] w in
      parse_torn fuel o part (length e.payload) (omega arith) field
        (omega (arith, torn.cut_inside, length-frame e.identifier e.payload w))
]

-- The file holds a header and the records of `es`, and the storage stands at its end.
pub record HoldsLog (s : FileStorage) (es : List Entry) : Type 0 where
  pub header : Buffer
  pub header_size : length header ≡ 12
  pub written : All IsWritableEntry es
  pub content : s.file ≡ header ++ frames es
  pub offset : s.current_offset ≡ length s.file

-- The records of `es` are read, and then what stands behind them.
log_outcome :
    (os : Os) (chunk_bytes : ℕ) (s : FileStorage) (es : List Entry) (header tail : Buffer)
    → length header ≡ 12
    → All IsWritableEntry es
    → s.file ≡ header ++ (frames es ++ tail)
    → s.current_offset ≡ length s.file
    → (fuel : ℕ) × (read_operations os chunk_bytes s
        ≡ settle s
            (prepend (stored_from 12 es) (parse_log (suc fuel) (12 + length (frames es)) tail)))
log_outcome os chunk_bytes s es header tail size w content all =
    let whole : length s.file ≡ 12 + (length (frames es) + length tail) =
      ap (length {A = ℕ}) content
      ∙ omega (
        arith,
        size,
        length-append {0} header (frames es ++ tail),
        length-append {0} (frames es) tail,
      ) in
    let fuel = length s.file - length es in
    let rounds : suc (length s.file) ≡ length es + suc fuel =
      omega (arith, whole, length-frames-le es w) in
    let behind : drop 12 s.file ≡ frames es ++ tail =
      ap₂ (λ (k : ℕ) (t : Buffer). drop k t) (sym size) content
      ∙ drop-append_length header (frames es ++ tail) in
    (
      fuel,
      read_operations-parse_log os chunk_bytes s all (omega (arith, whole))
          ∙ ap₂ (λ (n : ℕ) (t : Buffer). settle s (parse_log n 12 t)) rounds behind
          ∙ ap (settle s) (parse_frames es (suc fuel) 12 tail w),
    )

-- A file of a header and whole records is read back record by record, with the offset of each, and is
-- left as it is, whatever the size of the window and however the system splits the reads.
pub read_operations-frames :
    (os : Os) (chunk_bytes : ℕ) {s : FileStorage} {es : List Entry}
    → HoldsLog s es
    → read_operations os chunk_bytes s ≡ ok (stored_from 12 es, s)
unfolding settle
read_operations-frames os chunk_bytes {s} {es} log =
    let content : s.file ≡ log.header ++ (frames es ++ []) =
      log.content ∙ ap (◌++◌ log.header) (sym (append-nil (frames es))) in
    let (fuel, outcome) =
      log_outcome os chunk_bytes s es log.header [] log.header_size log.written content
        log.offset in
    outcome
    ∙ ap
        (λ (r : Result (List OperationRecord × Option ℕ)). settle s (prepend (stored_from 12 es) r))
        (parse_empty fuel (12 + length (frames es)) [] refl)
    ∙ ap (λ (l : List OperationRecord). ok (l, s)) (append-nil (stored_from 12 es))

-- The storage that a process finds which opens the file after a crash.
abbrev pub after_crash : FileStorage → Buffer → FileStorage
after_crash s part = record s { file = s.file ++ part; current_offset = length (s.file ++ part) }

-- The state that the recovery of `after_crash` leaves.
abbrev cut_back : FileStorage → Buffer → FileStorage
cut_back s part = recover_torn_tail (after_crash s part) (length s.file) (length (s.file ++ part))

module _ (s : FileStorage) (part : Buffer) where
  file-cut_back : (cut_back s part).file ≡ s.file
  unfolding recover_torn_tail
  file-cut_back =
      let none_missing : length s.file - length (s.file ++ part) ≡ 0 =
        omega (arith, length-append {0} s.file part) in
      rw none_missing
        (append-nil (take (length s.file) (s.file ++ part)) ∙ take-append_length s.file part)

  offset-cut_back : (cut_back s part).current_offset ≡ length s.file
  unfolding recover_torn_tail
  offset-cut_back = refl

  cut_back_recovered : (cut_back s part).torn_tail_recovered ≡ true
  unfolding recover_torn_tail
  cut_back_recovered = refl

  cut_back_bytes : (cut_back s part).torn_tail_bytes ≡ length part
  unfolding recover_torn_tail
  cut_back_bytes = omega (arith, length-append {0} s.file part)

HoldsLog-cut_back :
    {s : FileStorage} {es : List Entry} (part : Buffer)
    → HoldsLog s es
    → HoldsLog (cut_back s part) es
HoldsLog-cut_back {s} part log = record {
  header = log.header;
  header_size = log.header_size;
  written = log.written;
  content = file-cut_back s part ∙ log.content;
  offset = offset-cut_back s part ∙ ap (length {A = ℕ}) (sym (file-cut_back s part));
}

torn_outcome :
    (os : Os) (chunk_bytes : ℕ) {s : FileStorage} {es : List Entry} (e : Entry) (part : Buffer)
    → HoldsLog s es
    → IsWritableEntry e
    → IsTorn e part
    → 0 < length part
    → read_operations os chunk_bytes (after_crash s part) ≡ ok (stored_from 12 es, cut_back s part)
unfolding settle
torn_outcome os chunk_bytes {s} {es} e part log w torn some_bytes =
    let c = after_crash s part in
    let content : s.file ++ part ≡ log.header ++ (frames es ++ part) =
      ap (λ (t : Buffer). t ++ part) log.content ∙ append_assoc log.header (frames es) part in
    let (fuel, outcome) =
      log_outcome os chunk_bytes c es log.header part log.header_size log.written content refl in
    let start : 12 + length (frames es) ≡ length s.file = sym (
      ap (length {A = ℕ}) log.content
      ∙ omega (arith, log.header_size, length-append {0} log.header (frames es))) in
    outcome
    ∙ ap
        (λ (r : Result (List OperationRecord × Option ℕ)). settle c (prepend (stored_from 12 es) r))
        (parse_torn_part fuel (12 + length (frames es)) e part w torn some_bytes)
    ∙ ap₂ (λ (l : List OperationRecord) (o : ℕ). ok (l, recover_torn_tail c o c.current_offset))
        (append-nil (stored_from 12 es)) start

-- After a crash in the middle of an append, whatever prefix of the record reached the file, the replay
-- yields exactly the records that were complete, leaves a file that holds just these, and reports a
-- recovery with the number of bytes dropped when there were any.
pub read_operations_recovers :
    (os : Os) (chunk_bytes : ℕ) {s : FileStorage} {es : List Entry} (e : Entry) (part : Buffer)
    → HoldsLog s es
    → IsWritableEntry e
    → IsTorn e part
    → (s' : FileStorage) × (read_operations os chunk_bytes (after_crash s part)
        ≡ ok (stored_from 12 es, s'))
      × HoldsLog s' es
      × (s'.file ≡ s.file)
      × (0 < length part → (s'.torn_tail_recovered ≡ true) × (s'.torn_tail_bytes ≡ length part))
read_operations_recovers os chunk_bytes {s} {es} e part log w torn = elim (dec_lt 0 (length part)) [
  | yes some_bytes ↦ (
    cut_back s part,
    torn_outcome os chunk_bytes e part log w torn some_bytes,
    HoldsLog-cut_back part log,
    file-cut_back s part,
    λ h. (cut_back_recovered s part, cut_back_bytes s part),
  )
  | no nothing ↦
      let same : s.file ++ part ≡ s.file =
        ap (◌++◌ s.file) (length-zero part (omega arith)) ∙ append-nil s.file in
      let log' : HoldsLog (after_crash s part) es = record {
        header = log.header;
        header_size = log.header_size;
        written = log.written;
        content = same ∙ log.content;
        offset = refl;
      } in
      (
        after_crash s part,
        read_operations-frames os chunk_bytes log',
        log',
        same,
        λ h. absurd (omega arith),
      )
]

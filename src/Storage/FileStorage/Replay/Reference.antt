-- ===== src/Storage/FileStorage/Replay/Reference.antt =====
-- The windowed reader agrees with the reader of the whole log.
use pocket_db.Prelude.{
  ℕ, zero, suc, ◌+◌, ◌-◌, ◌≤◌, ◌<◌, ◌≡◌, refl, sym, ap, ◌∙◌, subst, inl, inr, Bool, false, Option,
  none, some, List, [], ◌∷◌, arith, dec_lt, leb, ◌==◌, if◌then◌else◌, le→leb, lt→leb, Bool-cases,
  length, take, drop, length-drop, length-take_of_le, drop-drop, drop-take, Error, Result, ◌>>=◌,
  Result-cases, ok, err,
}
use pocket_db.Storage.Buffers.{Buffer, read_u32_be, read_u32_be-take, read_u32_be_total}
use pocket_db.Storage.OperationRecord.{OperationRecord, read_operation_from_buffer}
use pocket_db.Storage.Os.{Os}
use pocket_db.Storage.FileStorage.{
  FileStorage, Generator, finished, yielded, recover_torn_tail, next_operation, next_record,
  decode_or_recover, collect, read_operations, start_reading,
}
use pocket_db.Storage.FileStorage.Replay.Cases.{
  parse_empty, parse_short, parse_torn, parse_damaged, parse_good,
}
use pocket_db.Storage.FileStorage.Replay.{parse_log, settle}
use pocket_db.Storage.FileStorage.Replay.Window.{
  IsReading, fill_lem, read_operation_from_buffer-take,
}

-- The generator at offset `o`, with `k` bytes in its window.
abbrev reader : FileStorage → ℕ → ℕ → Generator
reader s o k = record { file_offset = o; window = take k (drop o s.file); end = length s.file }

module _ (os : Os) (chunk_bytes : ℕ) (s : FileStorage) (o k : ℕ) (inside : o ≤ length s.file)
    (in_rest : k ≤ length (drop o s.file)) where
  abbrev rest : Buffer
  rest = drop o s.file

  abbrev at : Generator
  at = reader s o k

  reading : IsReading s at
  reading = record { end = refl; inside = inside }

  empty_log : length rest ≡ 0 → next_operation os chunk_bytes s at ≡ ok (finished s)
  unfolding next_operation
  empty_log h =
      let (k', small, full, all, filled) = fill_lem os chunk_bytes s at reading 8 k in_rest in
      let none : length (take k' rest) ≡ 0 = omega (arith, length-take_of_le k' rest small) in
      rw (filled, lt→leb (length rest) 8 (omega arith), none)

  short_header :
      0 < length rest
      → length rest < 8
      → next_operation os chunk_bytes s at ≡ ok (finished (recover_torn_tail s o (length s.file)))
  unfolding next_operation
  short_header h h' =
      let (k', small, full, all, filled) = fill_lem os chunk_bytes s at reading 8 k in_rest in
      let some_bytes : (length (take k' rest) == 0) ≡ false =
        ground (arith, length-take_of_le k' rest small, all h') in
      rw (filled, lt→leb (length rest) 8 h', some_bytes)

  module _ (n : ℕ) (header : 8 ≤ length rest) (field : read_u32_be rest 4 ≡ ok n) where
    -- After both refills.
    at_record :
        (k' : ℕ) × (k' ≤ length rest)
        × (8 + n + 4 ≤ length rest → 8 + n + 4 ≤ k')
        × (next_operation os chunk_bytes s at
            ≡ next_record s at (leb (8 + n + 4) (length rest)) (take k' rest) (8 + n + 4))
    unfolding next_operation
    at_record =
        let (j, small, full, all, filled) = fill_lem os chunk_bytes s at reading 8 k in_rest in
        let (k', small', full', all', filled') =
          fill_lem os chunk_bytes s at reading (8 + n + 4) j small in
        (
          k',
          small',
          full',
          rw (
            filled,
            le→leb 8 (length rest) header,
            read_u32_be-take j 4 rest (omega arith),
            field,
            filled',
          ),
        )

    torn_record :
        length rest < 8 + n + 4
        → next_operation os chunk_bytes s at ≡ ok (finished (recover_torn_tail s o (length s.file)))
    unfolding next_operation
    torn_record h =
        let (k', small, full, step) = at_record in
        step
        ∙ ap (λ (b : Bool). next_record s at b (take k' rest) (8 + n + 4))
            (lt→leb (length rest) (8 + n + 4) h)

    module _ (whole : 8 + n + 4 ≤ length rest) where
      whole_record :
          (k' : ℕ) × (k' ≤ length rest)
          × (8 + n + 4 ≤ k')
          × (next_operation os chunk_bytes s at
              ≡ decode_or_recover s at
                  (8 + n + 4)
                  (take k' rest)
                  (read_operation_from_buffer rest 0))
      unfolding next_operation
      whole_record =
          let (k', small, full, step) = at_record in
          (
            k',
            small,
            full whole,
            step
                ∙ ap (λ (b : Bool). next_record s at b (take k' rest) (8 + n + 4))
                    (le→leb (8 + n + 4) (length rest) whole)
                ∙ ap (decode_or_recover s at (8 + n + 4) (take k' rest))
                    (read_operation_from_buffer-take k' n rest field (full whole) small),
          )

      damaged :
          (e : Error)
          → read_operation_from_buffer rest 0 ≡ err e
          → next_operation os chunk_bytes s at ≡ (
              if leb (length rest) (8 + n + 4)
              then ok (finished (recover_torn_tail s o (length s.file)))
              else err e)
      unfolding next_operation
      damaged e bad =
          let (k', small, enough, step) = whole_record in
          let same : leb (length s.file) (o + (8 + n + 4)) ≡ leb (length rest) (8 + n + 4) =
            ground (arith, length-drop {0} o s.file) in
          step ∙ rw (bad, same)

      next_yields :
          (operation : OperationRecord)
          → read_operation_from_buffer rest 0 ≡ ok operation
          → (j : ℕ) × (j ≤ length (drop (8 + n + 4) rest))
            × (next_operation os chunk_bytes s at
                ≡ ok
                    (yielded (record operation { offset = some o }) (reader s (o + (8 + n + 4)) j)))
      unfolding next_operation
      next_yields operation good =
          let (k', small, enough, step) = whole_record in
          let record_length = 8 + n + 4 in
          let slid : drop record_length (take k' rest)
              ≡ take (k' - record_length) (drop (o + record_length) s.file) =
            drop-take record_length k' rest
            ∙ ap (take (k' - record_length)) (drop-drop o record_length s.file) in
          (
            k' - record_length,
            omega (arith, length-drop {0} record_length rest),
            step ∙ rw (good, slid),
          )

settle-cons :
    (s : FileStorage) (operation : OperationRecord) (r : Result (List OperationRecord × Option ℕ))
    → (do (operations, s') ← settle s r; ok (operation ∷ operations, s'))
      ≡ settle s (do (operations, torn) ← r; ok (operation ∷ operations, torn))
unfolding settle
settle-cons s operation (err e) = refl
settle-cons s operation (ok (operations, none)) = refl
settle-cons s operation (ok (operations, some torn)) = refl

module _ (os : Os) (chunk_bytes : ℕ) (s : FileStorage)
    (all : s.current_offset ≡ length s.file) where
  -- What follows the yield of a record.
  collect_next :
      (fuel : ℕ) (g g' : Generator) (operation : OperationRecord)
      → next_operation os chunk_bytes s g ≡ ok (yielded operation g')
      → collect os chunk_bytes (suc fuel) s g
        ≡ (do (operations, s') ← collect os chunk_bytes fuel s g'; ok (operation ∷ operations, s'))
  unfolding collect
  collect_next fuel g g' operation e = rw (e, collect)

  collect_finished :
      (fuel : ℕ) (g : Generator) (s' : FileStorage)
      → next_operation os chunk_bytes s g ≡ ok (finished s')
      → collect os chunk_bytes (suc fuel) s g ≡ ok ([], s')
  unfolding collect
  collect_finished fuel g s' e = rw (e, collect)

  collect_failed :
      (fuel : ℕ) (g : Generator) (e : Error)
      → next_operation os chunk_bytes s g ≡ err e
      → collect os chunk_bytes (suc fuel) s g ≡ err e
  unfolding collect
  collect_failed fuel g e h = rw (h, collect)

  settle_torn :
      (o : ℕ) → settle s (ok ([], some o)) ≡ ok ([], recover_torn_tail s o (length s.file))
  unfolding settle
  settle_torn o = ap (λ (e : ℕ). ok ([], recover_torn_tail s o e)) all

  settle_err : (e : Error) → settle s (err e) ≡ err e
  unfolding settle
  settle_err e = refl

  -- The two readers at a record of `n` payload bytes that lies in the file.
  collect_whole :
      (fuel o k n : ℕ)
      → (inside : o ≤ length s.file) → k ≤ length (drop o s.file)
      → read_u32_be (drop o s.file) 4 ≡ ok n
      → 8 + n + 4 ≤ length (drop o s.file)
      → ((j : ℕ)
          → j ≤ length (drop (o + (8 + n + 4)) s.file)
          → collect os chunk_bytes fuel s (reader s (o + (8 + n + 4)) j)
            ≡ settle s (parse_log fuel (o + (8 + n + 4)) (drop (o + (8 + n + 4)) s.file)))
      → collect os chunk_bytes (suc fuel) s (reader s o k)
        ≡ settle s (parse_log (suc fuel) o (drop o s.file))
  collect_whole fuel o k n inside in_rest field whole ih =
      let rest = drop o s.file in
      let record_length = 8 + n + 4 in
      let header : 8 ≤ length rest = omega arith in
      elim (Result-cases (read_operation_from_buffer rest 0)) [
        | inl (operation, good) ↦
            let (j, small, step) =
              next_yields os chunk_bytes s o k inside in_rest n header field whole operation good in
            let offset_set = record operation { offset = some o } in
            let same_rest : drop record_length rest ≡ drop (o + record_length) s.file =
              drop-drop o record_length s.file in
            let later = parse_log fuel (o + record_length) (drop (o + record_length) s.file) in
            collect_next fuel (reader s o k) (reader s (o + record_length) j) offset_set step
            ∙ ap
                (λ (r : Result (List OperationRecord × FileStorage)). do
                  (operations, s') ← r
                  ok (offset_set ∷ operations, s'))
                (ih j (subst (λ (t : Buffer). j ≤ length t) same_rest small))
            ∙ settle-cons s offset_set later
            ∙ ap
                (λ (t : Buffer). settle s (do
                  (operations, torn) ← parse_log fuel (o + record_length) t
                  ok (offset_set ∷ operations, torn)))
                (sym same_rest)
            ∙ ap (settle s) (sym (parse_good fuel o rest n header field whole operation good))
        | inr (e, bad) ↦
            let step = damaged os chunk_bytes s o k inside in_rest n header field whole e bad in
            let parsed = parse_damaged fuel o rest n header field whole e bad in
            elim (Bool-cases (leb (length rest) record_length)) [
              | inl last ↦
                  collect_finished fuel (reader s o k) (recover_torn_tail s o (length s.file))
                    (step ∙ rw last)
                  ∙ sym (settle_torn o)
                  ∙ ap (settle s) (sym (parsed ∙ rw last))
              | inr inner ↦
                  collect_failed fuel (reader s o k) e (step ∙ rw inner)
                  ∙ sym (settle_err e)
                  ∙ ap (settle s) (sym (parsed ∙ rw inner))
            ]
      ]

  collect_lem :
      (fuel o k : ℕ)
      → o ≤ length s.file
      → k ≤ length (drop o s.file)
      → collect os chunk_bytes fuel s (reader s o k) ≡ settle s (parse_log fuel o (drop o s.file))
  unfolding settle
  collect_lem zero o k inside in_rest = unfold collect parse_log in refl
  collect_lem (suc fuel) o k inside in_rest =
      let rest = drop o s.file in
      let recovered = recover_torn_tail s o (length s.file) in
      elim (dec_lt (length rest) 8) [
        | yes short ↦ elim (dec_lt 0 (length rest)) [
          | yes some_bytes ↦
              collect_finished fuel (reader s o k) recovered
                (short_header os chunk_bytes s o k inside in_rest some_bytes short)
              ∙ sym (settle_torn o)
              ∙ ap (settle s) (sym (parse_short fuel o rest some_bytes short))
          | no nothing ↦
              collect_finished fuel (reader s o k) s
                (empty_log os chunk_bytes s o k inside in_rest (omega arith))
              ∙ ap (settle s) (sym (parse_empty fuel o rest (omega arith)))
        ]
        | no long ↦
            let (n, field) = read_u32_be_total rest 4 (omega arith) in
            let header : 8 ≤ length rest = omega arith in
            elim (dec_lt (length rest) (8 + n + 4)) [
              | yes torn ↦
                  collect_finished fuel (reader s o k) recovered
                    (torn_record os chunk_bytes s o k inside in_rest n header field torn)
                  ∙ sym (settle_torn o)
                  ∙ ap (settle s) (sym (parse_torn fuel o rest n header field torn))
              | no whole ↦ collect_whole fuel o k n inside in_rest field (omega arith) λ j h.
                  collect_lem fuel (o + (8 + n + 4)) j (omega (arith, length-drop {0} o s.file)) h
            ]
      ]

-- However the system splits the reads and whatever the size of the window, `readOperations` yields
-- the records of the log as it stands in the file behind the header, truncates the file at a torn
-- last record, and throws where the log is damaged before its end.
pub read_operations-parse_log :
    (os : Os) (chunk_bytes : ℕ) (s : FileStorage)
    → s.current_offset ≡ length s.file
    → 12 ≤ length s.file
    → read_operations os chunk_bytes s
      ≡ settle s (parse_log (suc (length s.file)) 12 (drop 12 s.file))
unfolding read_operations start_reading
read_operations-parse_log os chunk_bytes s all header =
    ap
      (λ (e : ℕ).
        collect os chunk_bytes (suc e) s (record { file_offset = 12; window = []; end = e }))
      all
    ∙ collect_lem os chunk_bytes s all (suc (length s.file)) 12 0 header (omega arith)

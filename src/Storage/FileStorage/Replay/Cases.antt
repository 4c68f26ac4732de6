-- ===== src/Storage/FileStorage/Replay/Cases.antt =====
-- `parse_log` case by case.
use pocket_db.Prelude.{
  ℕ, suc, ◌+◌, ◌≤◌, ◌<◌, ◌≡◌, false, none, some, [], ◌∷◌, arith, leb, ◌==◌, if◌then◌else◌, lt→ltb,
  le→ltb, ==-zero_of_pos, length, drop, Error, ◌>>=◌, ok, err,
}
use pocket_db.Storage.Buffers.{Buffer, read_u32_be}
use pocket_db.Storage.OperationRecord.{OperationRecord, read_operation_from_buffer}
use pocket_db.Storage.FileStorage.Replay.{parse_log}

module _ (fuel o : ℕ) (rest : Buffer) where
  pub parse_empty : length rest ≡ 0 → parse_log (suc fuel) o rest ≡ ok ([], none)
  unfolding parse_log
  parse_empty h = rw h

  pub parse_short :
      0 < length rest → length rest < 8 → parse_log (suc fuel) o rest ≡ ok ([], some o)
  unfolding parse_log
  parse_short h h' = rw (==-zero_of_pos (length rest) h, lt→ltb (length rest) 8 h')

  module _ (n : ℕ) (header : 8 ≤ length rest) (field : read_u32_be rest 4 ≡ ok n) where
    some_bytes : (length rest == 0) ≡ false
    some_bytes = ==-zero_of_pos (length rest) (omega arith)

    pub parse_torn : length rest < 8 + n + 4 → parse_log (suc fuel) o rest ≡ ok ([], some o)
    unfolding parse_log
    parse_torn h =
        rw (some_bytes, le→ltb (length rest) 8 header, field, lt→ltb (length rest) (8 + n + 4) h)

    module _ (whole : 8 + n + 4 ≤ length rest) where
      pub parse_damaged :
          (e : Error)
          → read_operation_from_buffer rest 0 ≡ err e
          → parse_log (suc fuel) o rest
            ≡ (if leb (length rest) (8 + n + 4) then ok ([], some o) else err e)
      unfolding parse_log
      parse_damaged e bad = rw (
        some_bytes,
        le→ltb (length rest) 8 header,
        field,
        le→ltb (length rest) (8 + n + 4) whole,
        bad,
      )

      pub parse_good :
          (operation : OperationRecord)
          → read_operation_from_buffer rest 0 ≡ ok operation
          → parse_log (suc fuel) o rest ≡ (do
            (operations, torn) ← parse_log fuel (o + (8 + n + 4)) (drop (8 + n + 4) rest)
            ok (record operation { offset = some o } ∷ operations, torn))
      unfolding parse_log
      parse_good operation good = rw (
        some_bytes,
        le→ltb (length rest) 8 header,
        field,
        le→ltb (length rest) (8 + n + 4) whole,
        good,
      )

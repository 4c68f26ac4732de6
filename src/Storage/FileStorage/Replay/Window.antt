-- ===== src/Storage/FileStorage/Replay/Window.antt =====
-- The sliding window: what `fill` leaves in it, and that a prefix of the log that holds a record reads
-- as the log does.
use pocket_db.Prelude.{
  ℕ, suc, ◌+◌, ◌-◌, ◌≤◌, ◌<◌, min, max, ◌≡◌, sym, ap, ◌∙◌, ◌⊎◌, Bool, true, false, arith, dec_lt,
  leb, ◌==◌, lt→ltb, le→ltb, le→leb, lt→leb, length, take, drop, length-drop, length-take_of_le,
  drop-drop, take-append-take-drop, subarray-take, ok,
}
use pocket_db.Storage.Buffers.{Buffer, read_u32_be, read_u32_be-take}
use pocket_db.Storage.OperationRecord.{read_operation_from_buffer}
use pocket_db.Storage.Os.{Os, read_exact}
use pocket_db.Storage.Os.Exact.{read_exact_lem}
use pocket_db.Storage.FileStorage.{FileStorage, Generator, fill_loop, fill}

-- The generator reads the file at the end that it was started with.
pub record IsReading (s : FileStorage) (g : Generator) : Type 0 where
  pub end : g.end ≡ length s.file
  pub inside : g.file_offset ≤ length s.file

module _ (os : Os) (chunk_bytes : ℕ) (s : FileStorage) (g : Generator)
    (reading : IsReading s g) where
  abbrev rest : Buffer
  rest = drop g.file_offset s.file

  length-rest : length rest ≡ length s.file - g.file_offset
  length-rest = length-drop g.file_offset s.file

  module _ (fuel min_bytes k : ℕ) (in_rest : k ≤ length rest) where
    held : length (take k rest) ≡ k
    held = length-take_of_le k rest in_rest

    missing : g.end - (g.file_offset + length (take k rest)) ≡ length rest - k
    missing = omega (arith, reading.end, reading.inside, length-rest, held)

    fill_full :
        min_bytes ≤ k
        → fill_loop os chunk_bytes (suc fuel) s g min_bytes (take k rest) ≡ ok (true, take k rest)
    unfolding fill_loop
    fill_full h = rw (held, le→ltb k min_bytes h)

    fill_end :
        k < min_bytes
        → k ≡ length rest
        → fill_loop os chunk_bytes (suc fuel) s g min_bytes (take k rest) ≡ ok (false, take k rest)
    unfolding fill_loop
    fill_end h h' =
        let none_left : length rest - k ≡ 0 = omega arith in
        rw (missing, none_left, held, lt→ltb k min_bytes h, lt→leb k min_bytes h)

    fill_more :
        k < min_bytes
        → k < length rest
        → (r : ℕ) × (r ≤ length rest - k)
          × ((min_bytes ≤ k + r) ⊎ (k + r ≡ length rest))
          × (fill_loop os chunk_bytes (suc fuel) s g min_bytes (take k rest)
              ≡ fill_loop os chunk_bytes fuel s g min_bytes (take (k + r) rest))
    unfolding fill_loop
    fill_more h h' =
        let r = min (max chunk_bytes (min_bytes - k)) (length rest - k) in
        let there : leb r (length s.file - (g.file_offset + k)) ≡ true =
          le→leb r _ (omega (arith, length-rest)) in
        let read : read_exact os s.file r (g.file_offset + k) ≡ ok (take r (drop k rest)) =
          read_exact_lem os s.file r (g.file_offset + k)
          ∙ rw there
              (ap (λ (t : Buffer). ok (take r t)) (sym (drop-drop g.file_offset k s.file))) in
        let some_left : (length rest - k == 0) ≡ false = ground arith in
        (
          r,
          omega arith,
          omega arith,
          rw (missing, held, lt→ltb k min_bytes h, some_left, read, take-append-take-drop k r rest),
        )

  -- A round after which `fill` returns.
  fill_last :
      (fuel min_bytes k : ℕ)
      → k ≤ length rest
      → (min_bytes ≤ k) ⊎ (k ≡ length rest)
      → fill_loop os chunk_bytes (suc fuel) s g min_bytes (take k rest)
        ≡ ok (leb min_bytes (length rest), take k rest)
  fill_last fuel min_bytes k in_rest last = elim (dec_lt k min_bytes) [
    | yes short ↦
        let all : k ≡ length rest = omega arith in
        fill_end fuel min_bytes k in_rest short all
        ∙ ap (λ (b : Bool). ok (b, take k rest))
            (sym (lt→leb (length rest) min_bytes (omega arith)))
    | no full ↦
        fill_full fuel min_bytes k in_rest (omega arith)
        ∙ ap (λ (b : Bool). ok (b, take k rest))
            (sym (le→leb min_bytes (length rest) (omega arith)))
  ]

  -- `fill` ends with the bytes that were asked for, or with all that the log has left.
  pub fill_lem :
      (min_bytes k : ℕ)
      → k ≤ length rest
      → (k' : ℕ) × (k' ≤ length rest)
        × (min_bytes ≤ length rest → min_bytes ≤ k')
        × (length rest < min_bytes → k' ≡ length rest)
        × (fill os chunk_bytes s g min_bytes (take k rest)
            ≡ ok (leb min_bytes (length rest), take k' rest))
  unfolding fill
  fill_lem min_bytes k in_rest = elim (dec_lt k (min min_bytes (length rest))) [
    | yes more ↦
        let (r, small, last, step) = fill_more 1 min_bytes k in_rest (omega arith) (omega arith) in
        let in_rest' : k + r ≤ length rest = omega arith in
        (
          k + r,
          in_rest',
          λ h. omega arith,
          λ h. omega arith,
          step ∙ fill_last 0 min_bytes (k + r) in_rest' last,
        )
    | no last ↦ (
      k,
      in_rest,
      λ h. omega arith,
      λ h. omega arith,
      fill_last 1 min_bytes k in_rest (omega arith),
    )
  ]

-- A record that lies in a prefix of the log.
pub read_operation_from_buffer-take :
    (k n : ℕ) (rest : Buffer)
    → read_u32_be rest 4 ≡ ok n
    → 8 + n + 4 ≤ k
    → k ≤ length rest
    → read_operation_from_buffer (take k rest) 0 ≡ read_operation_from_buffer rest 0
unfolding read_operation_from_buffer
read_operation_from_buffer-take k n rest field fits inside = rw (
  length-take_of_le k rest inside,
  read_u32_be-take k 4 rest (omega arith),
  field,
  le→ltb k 8 (omega arith),
  le→ltb (length rest) 8 (omega arith),
  le→ltb k (0 + (8 + n + 4)) (omega arith),
  le→ltb (length rest) (0 + (8 + n + 4)) (omega arith),
  subarray-take k 0 (8 + n) rest (omega arith),
  subarray-take k (8 + n) (0 + (8 + n + 4)) rest (omega arith),
)

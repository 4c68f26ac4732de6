-- ===== src/Storage/Os/Exact.antt =====
-- Whatever the system's counts, the two loops move exactly the bytes asked for.
use pocket_db.Prelude.{
  ℕ, zero, suc, ◌+◌, ◌-◌, ◌≤◌, ◌<◌, min, ◌≡◌, refl, sym, ap, ◌∙◌, inl, inr, [], ◌++◌, arith, dec_lt,
  leb, ◌==◌, if◌then◌else◌, lt→ltb, leb→le, ==-zero_of_pos, Bool-cases, length, take, drop,
  length-drop, length-take_of_le, drop-drop, take-append-take-drop, end_of_file, ok, err,
}
use pocket_db.Storage.Buffers.{Buffer}
use pocket_db.Storage.Os.{Os, read_sync, read_loop, read_exact}

module _ (os : Os) where
  module _ (file : Buffer) where
    -- What one call reads: a piece of what is left, and nothing only where nothing is left.
    read_sync_lem :
        (count position : ℕ)
        → (n : ℕ) × (n ≤ count)
          × (n ≤ length file - position)
          × (0 < count → 0 < length file - position → 0 < n)
          × (read_sync os file count position ≡ take n (drop position file))
    unfolding read_sync
    read_sync_lem count position =
        let available = min count (length file - position) in
        let n = if available == 0 then 0 else os.read_count position available in
        (
          n,
          ground (arith, os.read_le position available),
          ground (arith, os.read_le position available),
          λ p q. ground (arith, os.read_some position available),
          refl,
        )

    -- The loop after `d` bytes.
    read_loop_step :
        (fuel count position d : ℕ)
        → d < count
        → d < length file - position
        → (n : ℕ) × (0 < n)
          × (d + n ≤ count)
          × (d + n ≤ length file - position)
          × (read_loop os (suc fuel) file count position (take d (drop position file))
              ≡ read_loop os fuel file count position (take (d + n) (drop position file)))
    unfolding read_loop
    read_loop_step fuel count position d h h' =
        let rest = drop position file in
        let long : length rest ≡ length file - position = length-drop position file in
        let done : length (take d rest) ≡ d = length-take_of_le d rest (omega arith) in
        let (n, small, there, some_byte, read) = read_sync_lem (count - d) (position + d) in
        let room : n ≤ length (drop d rest) = omega (arith, length-drop {0} d rest) in
        let piece : read_sync os file (count - d) (position + d) ≡ take n (drop d rest) =
          read ∙ ap (take n) (sym (drop-drop position d file)) in
        let joined : take d rest ++ read_sync os file (count - d) (position + d)
            ≡ take (d + n) rest =
          ap (◌++◌ (take d rest)) piece ∙ take-append-take-drop d n rest in
        let positive : 0 < n = some_byte (omega arith) (omega arith) in
        let taken : length (read_sync os file (count - d) (position + d)) ≡ n =
          ap (length {A = ℕ}) piece ∙ length-take_of_le n (drop d rest) room in
        (
          n,
          positive,
          omega arith,
          omega arith,
          rw (done, lt→ltb d count h, joined, taken, ==-zero_of_pos n positive),
        )

    -- The loop is over once all bytes asked for are there.
    read_loop_complete :
        (fuel count position d : ℕ)
        → count ≤ d
        → d ≤ length file - position
        → read_loop os fuel file count position (take d (drop position file))
          ≡ ok (take d (drop position file))
    unfolding read_loop
    read_loop_complete zero count position d h h' =
        ground (arith, length-take_of_le d (drop position file), length-drop {0} position file)
    read_loop_complete (suc fuel) count position d h h' =
        ground (arith, length-take_of_le d (drop position file), length-drop {0} position file)

    read_loop_enough :
        (fuel count position d : ℕ)
        → d ≤ count
        → count ≤ d + fuel
        → count ≤ length file - position
        → read_loop os fuel file count position (take d (drop position file))
          ≡ ok (take count (drop position file))
    read_loop_enough zero count position d h enough there =
        let e : d ≡ count = omega arith in
        read_loop_complete zero count position d (omega arith) (omega arith)
        ∙ ap (λ (k : ℕ). ok (take k (drop position file))) e
    read_loop_enough (suc fuel) count position d h enough there = elim (dec_lt d count) [
      | yes more ↦
          let (n, positive, small, room, step) =
            read_loop_step fuel count position d more (omega arith) in
          step ∙ read_loop_enough fuel count position (d + n) small (omega arith) there
      | no all ↦
          let e : d ≡ count = omega arith in
          read_loop_complete (suc fuel) count position d (omega arith) (omega arith)
          ∙ ap (λ (k : ℕ). ok (take k (drop position file))) e
    ]

    -- A round at the end of the file throws.
    read_loop_end :
        (fuel count position : ℕ)
        → length file - position < count
        → read_loop os
            (suc fuel)
            file
            count
            position
            (take (length file - position) (drop position file))
          ≡ err end_of_file
    unfolding read_loop
    read_loop_end fuel count position h =
        let d = length file - position in
        let rest = drop position file in
        let done : length (take d rest) ≡ d =
          length-take_of_le d rest (omega (arith, length-drop {0} position file)) in
        let (n, small, there, some_byte, read) = read_sync_lem (count - d) (position + d) in
        let none_left : n ≡ 0 = omega arith in
        let empty : read_sync os file (count - d) (position + d) ≡ [] =
          read ∙ ap (λ (k : ℕ). take k (drop (position + d) file)) none_left in
        rw (done, empty) (ground arith)

    read_loop_short :
        (fuel count position d : ℕ)
        → d ≤ length file - position
        → count ≤ d + fuel
        → length file - position < count
        → read_loop os fuel file count position (take d (drop position file)) ≡ err end_of_file
    read_loop_short zero count position d h enough short = absurd (omega arith)
    read_loop_short (suc fuel) count position d h enough short =
        elim (dec_lt d (length file - position)) [
          | yes more ↦
              let (n, positive, small, room, step) =
                read_loop_step fuel count position d (omega arith) more in
              step ∙ read_loop_short fuel count position (d + n) room (omega arith) short
          | no all ↦
              let e : d ≡ length file - position = omega arith in
              rw e (read_loop_end fuel count position short)
        ]

    -- `readExact` returns the bytes asked for where the file has them all, and throws otherwise,
    -- however the system splits the reads.
    pub read_exact_lem :
        (count position : ℕ)
        → read_exact os file count position ≡ (
            if leb count (length file - position)
            then ok (take count (drop position file))
            else err end_of_file)
    unfolding read_exact
    read_exact_lem count position = elim (Bool-cases (leb count (length file - position))) [
      | inl there ↦
          rw there
            (read_loop_enough count count position 0 (omega arith) (omega arith) (leb→le _ _ there))
      | inr short ↦
          rw short
            (read_loop_short count count position 0 (omega arith) (omega arith) (ground arith))
    ]

-- ===== src/Storage/Os/Written.antt =====
-- Whatever the system's counts, `writeAll` writes the whole buffer in place.
use pocket_db.Prelude.{
  ℕ, zero, suc, ◌+◌, ◌-◌, ◌≤◌, ◌<◌, max, ◌≡◌, sym, ap, ◌∙◌, [], ◌∷◌, ◌++◌, append-nil, append_assoc,
  arith, add-zero, ap₂, length, take, drop, length-append, length-drop, length-take_of_le,
  take-append_length, drop-append_length, take_of_length-le, take-append-drop, drop-drop,
  drop_of_length-le, ok,
}
use pocket_db.Storage.Buffers.{Buffer}
use pocket_db.Storage.Os.{Os, write_at, write_loop, write_all}

-- A write that does not start behind the end of the file.
pub write_at_within :
    (file : Buffer) (position : ℕ) (new : Buffer)
    → position ≤ length file
    → write_at file position new ≡ take position file ++ (new ++ drop (position + length new) file)
unfolding write_at
write_at_within file position new h =
    let none_missing : position - length file ≡ 0 = omega arith in
    rw (none_missing, append-nil (take position file))

pub write_at-nil :
    (file : Buffer) (position : ℕ) → position ≤ length file → write_at file position [] ≡ file
write_at-nil file position h =
    write_at_within file position [] h
    ∙ ap (λ (k : ℕ). take position file ++ drop k file) (add-zero position)
    ∙ take-append-drop position file

-- At the end of the file a write appends.
pub write_at_end : (file new : Buffer) → write_at file (length file) new ≡ file ++ new
write_at_end file new =
    write_at_within file (length file) new (omega arith)
    ∙ ap₂ (λ (x y : Buffer). x ++ (new ++ y)) (take_of_length-le (length file) file (omega arith))
        (drop_of_length-le (length file + length new) file (omega arith))
    ∙ ap (◌++◌ file) (append-nil new)

module _ (file : Buffer) (position : ℕ) (inside : position ≤ length file) where
  length-write_at :
      (new : Buffer)
      → (length (write_at file position new) ≡ max (length file) (position + length new))
  length-write_at new = rw (write_at_within file position new inside) (
      omega (
        arith,
        length-append {0} (take position file) (new ++ drop (position + length new) file),
        length-append {0} new (drop (position + length new) file),
        length-take_of_le {0} position file inside,
        length-drop {0} (position + length new) file,
      ))

  -- Two writes one behind the other are one write.
  write_at-append :
      (a b : Buffer)
      → write_at (write_at file position a) (position + length a) b
        ≡ write_at file position (a ++ b)
  write_at-append a b =
      let front = take position file ++ a in
      let back = drop (position + length a) file in
      let shape : write_at file position a ≡ front ++ back =
        write_at_within file position a inside ∙ sym (append_assoc (take position file) a back) in
      let edge : length front ≡ position + length a = omega (
        arith,
        length-append {0} (take position file) a,
        length-take_of_le {0} position file inside,
      ) in
      let far : position + length a + length b ≡ position + length (a ++ b) =
        omega (arith, length-append {0} a b) in
      let tail : drop (length front + length b) (front ++ back)
          ≡ drop (position + length (a ++ b)) file =
        sym (drop-drop (length front) (length b) (front ++ back))
        ∙ ap (drop (length b)) (drop-append_length front back)
        ∙ drop-drop (position + length a) (length b) file
        ∙ ap (λ (k : ℕ). drop k file) far in
      let joined : write_at (front ++ back) (length front) b
          ≡ front ++ (b ++ drop (position + length (a ++ b)) file) =
        write_at_within (front ++ back) (length front) b
          (omega (arith, length-append {0} front back))
        ∙ ap₂ (λ (x y : Buffer). x ++ (b ++ y)) (take-append_length front back) tail in
      let regroup : front ++ (b ++ drop (position + length (a ++ b)) file)
          ≡ take position file ++ ((a ++ b) ++ drop (position + length (a ++ b)) file) =
        simp append_assoc in
      ap₂ (λ (x : Buffer) (k : ℕ). write_at x k b) shape (sym edge)
      ∙ joined
      ∙ regroup
      ∙ sym (write_at_within file position (a ++ b) inside)

module _ (os : Os) where
  write_loop_lem :
      (fuel : ℕ) (file buffer : Buffer) (position : ℕ)
      → length buffer ≤ fuel
      → position ≤ length file
      → write_loop os fuel file buffer position ≡ ok (write_at file position buffer)
  unfolding write_loop
  write_loop_lem fuel file [] position h inside = ap ok (sym (write_at-nil file position inside))
  write_loop_lem zero file (b ∷ bytes) position h inside = absurd (omega arith)
  write_loop_lem (suc fuel) file (b ∷ bytes) position h inside =
      let whole = b ∷ bytes in
      let n = os.write_count position (length whole) in
      let some_byte : 0 < n = os.write_some position (length whole) (omega arith) in
      let fits : n ≤ length whole = os.write_le position (length whole) in
      let now : length (take n whole) ≡ n = length-take_of_le n whole fits in
      let file' = write_at file position (take n whole) in
      write_loop_lem fuel file' (drop n whole) (position + n)
        (omega (arith, length-drop {0} n whole))
        (omega (arith, length-write_at file position inside (take n whole)))
      ∙ ap (λ (k : ℕ). ok (write_at file' (position + k) (drop n whole))) (sym now)
      ∙ ap ok (write_at-append file position inside (take n whole) (drop n whole))
      ∙ ap (λ (t : Buffer). ok (write_at file position t)) (take-append-drop n whole)

  -- `writeAll` at a place inside the file, or at its end, puts the whole buffer there, however the
  -- system splits the writes, and changes no other byte.
  pub write_all_lem :
      (file buffer : Buffer) (position : ℕ)
      → position ≤ length file
      → write_all os file buffer position
        ≡ ok (take position file ++ (buffer ++ drop (position + length buffer) file))
  unfolding write_all
  write_all_lem file buffer position inside =
      write_loop_lem (length buffer) file buffer position (omega arith) inside
      ∙ ap ok (write_at_within file position buffer inside)

  pub write_all_end :
      (file buffer : Buffer) → write_all os file buffer (length file) ≡ ok (file ++ buffer)
  unfolding write_all
  write_all_end file buffer =
      write_loop_lem (length buffer) file buffer (length file) (omega arith) (omega arith)
      ∙ ap ok (write_at_end file buffer)

-- ===== src/Storage/DocumentId/RoundTrip.antt =====
-- Identifiers and their hexadecimal text; identifiers of one process are distinct.
use pocket_db.Storage.Buffers.{write_u32_be}
use pocket_db.Prelude.{
  ℕ, zero, suc, ◌+◌, ◌*◌, ◌/◌, ◌%◌, ◌^◌, ◌<◌, bit_and, ◌≡◌, refl, sym, ap, ◌∙◌, ◌≢◌, true, [], ◌∷◌,
  ◌++◌, arith, ap₂, ltb, length, get_or, drop, All, drop-append_length, throw_if, >>=-eq-ok,
  ok-injective, out_of_range, ok,
}
use pocket_db.Prelude.Bits.{and_step, and-ff}
use pocket_db.Storage.Buffers.{Buffer, IsByte, length-u32_bytes}
use pocket_db.Storage.DocumentId.{
  hex_digit, to_hex, is_hex_digit, all_hex, is_object_id_hex, assert_object_id_hex, digit_value,
  of_hex, object_id_from_hex, next_counter, u24_bytes, create_object_id,
}

digit_value-hex_digit : (d : ℕ) → d < 16 → digit_value (hex_digit d) ≡ d
unfolding digit_value hex_digit
digit_value-hex_digit d h = ground arith

is_hex_digit-hex_digit : (d : ℕ) → d < 16 → is_hex_digit (hex_digit d) ≡ true
unfolding is_hex_digit hex_digit
is_hex_digit-hex_digit d h = ground arith

pub of_hex-to_hex : (bytes : Buffer) → All IsByte bytes → of_hex (to_hex bytes) ≡ bytes
unfolding of_hex to_hex
of_hex-to_hex [] wf = refl
of_hex-to_hex (b ∷ bytes) wf =
    let high = digit_value-hex_digit (b / 16) (omega (arith, wf.0)) in
    let low = digit_value-hex_digit (b % 16) (omega arith) in
    ap₂ (λ (x : ℕ) (t : Buffer). x ∷ t) (omega (arith, high, low)) (of_hex-to_hex bytes wf.1)

all_hex-to_hex : (bytes : Buffer) → All IsByte bytes → all_hex (to_hex bytes) ≡ true
unfolding all_hex to_hex
all_hex-to_hex [] wf = refl
all_hex-to_hex (b ∷ bytes) wf =
    let high = is_hex_digit-hex_digit (b / 16) (omega (arith, wf.0)) in
    let low = is_hex_digit-hex_digit (b % 16) (omega arith) in
    rw (high, low) (all_hex-to_hex bytes wf.1)

length-to_hex : (bytes : Buffer) → length (to_hex bytes) ≡ 2 * length bytes
unfolding to_hex
length-to_hex [] = refl
length-to_hex (b ∷ bytes) = omega (arith, length-to_hex bytes)

-- The hexadecimal text of twelve bytes is accepted as an identifier, and gives the bytes back.
pub object_id_from_hex-to_hex :
    (id : Buffer) → length id ≡ 12 → All IsByte id → object_id_from_hex (to_hex id) ≡ ok id
unfolding object_id_from_hex assert_object_id_hex is_object_id_hex
object_id_from_hex-to_hex id twelve wf =
    let size : length (to_hex id) ≡ 24 = omega (arith, length-to_hex id, twelve) in
    rw (size, all_hex-to_hex id wf, of_hex-to_hex id wf) refl

-- The counter after `k` more identifiers.
abbrev pub counter_after : ℕ → ℕ → ℕ
counter_after zero counter = counter
counter_after (suc k) counter = counter_after k (next_counter counter)

and-fff : (a : ℕ) → bit_and a 0xfff ≡ a % 4096
and-fff a = omega (
  arith,
  and_step a 4095,
  and_step (a / 2) 2047,
  and_step (a / 2 / 2) 1023,
  and_step (a / 2 / 2 / 2) 511,
  and-ff (a / 2 / 2 / 2 / 2),
)

and-ffff : (a : ℕ) → bit_and a 0xffff ≡ a % 65536
and-ffff a = omega (
  arith,
  and_step a 65535,
  and_step (a / 2) 32767,
  and_step (a / 2 / 2) 16383,
  and_step (a / 2 / 2 / 2) 8191,
  and-fff (a / 2 / 2 / 2 / 2),
)

and-fffff : (a : ℕ) → bit_and a 0xfffff ≡ a % 1048576
and-fffff a = omega (
  arith,
  and_step a 1048575,
  and_step (a / 2) 524287,
  and_step (a / 2 / 2) 262143,
  and_step (a / 2 / 2 / 2) 131071,
  and-ffff (a / 2 / 2 / 2 / 2),
)

and-ffffff : (a : ℕ) → bit_and a 0xffffff ≡ a % 16777216
and-ffffff a = omega (
  arith,
  and_step a 16777215,
  and_step (a / 2) 8388607,
  and_step (a / 2 / 2) 4194303,
  and_step (a / 2 / 2 / 2) 2097151,
  and-fffff (a / 2 / 2 / 2 / 2),
)

next_counter_lem : (counter : ℕ) → next_counter counter ≡ (counter + 1) % 2 ^ 24
unfolding next_counter
next_counter_lem counter = and-ffffff (counter + 1)

counter_after_lem :
    (k counter : ℕ) → counter < 2 ^ 24 → counter_after k counter ≡ (counter + k) % 2 ^ 24
counter_after_lem zero counter h = omega arith
counter_after_lem (suc k) counter h =
    let next = next_counter_lem counter in
    omega (arith, next, counter_after_lem k (next_counter counter) (omega (arith, next)))

u24_bytes-injective : (a b : ℕ) → u24_bytes a ≡ u24_bytes b → a ≡ b
unfolding u24_bytes
u24_bytes-injective a b e = omega (
  arith,
  ap (λ (l : Buffer). get_or l 0 0) e,
  ap (λ (l : Buffer). get_or l 1 0) e,
  ap (λ (l : Buffer). get_or l 2 0) e,
)

length-write_u32_be :
    (value : ℕ) {bytes : Buffer} → write_u32_be value ≡ ok bytes → length bytes ≡ 4
unfolding write_u32_be
length-write_u32_be value h =
    let (_, _, made) = >>=-eq-ok (throw_if (ltb 0xffff_ffff value) out_of_range) _ h in
    ap (length {A = ℕ}) (sym (ok-injective made)) ∙ length-u32_bytes value

-- What two lists have behind fronts of one length.
append-cancel_front : (s s' x x' : Buffer) → length s ≡ length s' → s ++ x ≡ s' ++ x' → x ≡ x'
append-cancel_front s s' x x' size e =
    sym (drop-append_length s x)
    ∙ ap₂ (λ (n : ℕ) (t : Buffer). drop n t) size e
    ∙ drop-append_length s' x'

-- Identifiers that one process creates are different, whatever the clock says, as long as fewer than
-- 2^24 identifiers are created from the one to the other.
pub create_object_id-distinct :
    (t t' k counter counter' counter'' : ℕ) (random id id' : Buffer)
    → counter < 2 ^ 24
    → k + 1 < 2 ^ 24
    → create_object_id t random counter ≡ ok (counter', id)
    → create_object_id t' random (counter_after k counter') ≡ ok (counter'', id')
    → id ≢ id'
unfolding create_object_id
create_object_id-distinct t t' k counter counter' counter'' random id id' h few first second same =
    let (s, written, made) = >>=-eq-ok (write_u32_be t) _ first in
    let (s', written', made') = >>=-eq-ok (write_u32_be t') _ second in
    let next = counter_after k counter' in
    let a : id ≡ s ++ (random ++ u24_bytes (next_counter counter)) = cc in
    let b : id' ≡ s' ++ (random ++ u24_bytes (next_counter next)) = cc in
    let behind =
      append-cancel_front s s' _ _
        (length-write_u32_be t written ∙ sym (length-write_u32_be t' written'))
        (sym a ∙ same ∙ b) in
    let numbers : u24_bytes (next_counter counter) ≡ u24_bytes (next_counter next) =
      append-cancel_front random random _ _ refl behind in
    let before : counter' ≡ next_counter counter = cc in
    omega (
      arith,
      u24_bytes-injective _ _ numbers,
      before,
      next_counter_lem counter,
      next_counter_lem next,
      counter_after_lem k counter' (omega (arith, before, next_counter_lem counter)),
    )

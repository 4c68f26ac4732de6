-- ===== src/Storage/U29.antt =====
-- storage/u29.ts, storage/padding.ts, and `writeU29` of storage/encoding/write-buffer.ts: unsigned
-- integers of 29 bits in one to four bytes.
pub mod Bounds
pub mod RoundTrip
use pocket_db.Storage.Buffers.{Buffer}
use pocket_db.Prelude.{
  ℕ, zero, suc, ◌+◌, ◌*◌, ◌/◌, ◌%◌, ◌^◌, bit_and, bit_or, none, some, [], ◌∷◌, ltb, ◌==◌,
  if◌then◌else◌, length, get_elem?, Result, throw_if, ◌>>=◌, ◌>>◌, u29_range, u29_end, u29_invalid,
  ok, err,
}

abbrev pub u29_max_value : ℕ
u29_max_value = 0x1fff_ffff

-- What follows the assertion of `encodeU29`.
unfoldable pub u29_bytes : ℕ → Buffer
u29_bytes value =
    if ltb value 0x80
    then value ∷ []
    else if ltb value 0x4000
    then bit_or (bit_and (value / 2 ^ 7) 0x7f) 0x80 ∷ bit_and value 0x7f ∷ []
    else if ltb value 0x20_0000
    then bit_or (bit_and (value / 2 ^ 14) 0x7f) 0x80
      ∷ bit_or (bit_and (value / 2 ^ 7) 0x7f) 0x80
      ∷ bit_and value 0x7f
      ∷ []
    else bit_or (bit_and (value / 2 ^ 22) 0x7f) 0x80
      ∷ bit_or (bit_and (value / 2 ^ 15) 0x7f) 0x80
      ∷ bit_or (bit_and (value / 2 ^ 8) 0x7f) 0x80
      ∷ bit_and value 0xff
      ∷ []

-- A number of the model is an integer that is not negative: only the upper bound is left to check.
unfoldable pub encode_u29 : ℕ → Result Buffer
unfolding u29_bytes
encode_u29 value = do throw_if (ltb u29_max_value value) u29_range; ok (u29_bytes value)

pub record DecodedU29 : Type 0 where
  pub value : ℕ
  pub bytes_read : ℕ

-- The loop of `decodeU29`, with `left` rounds to go. `value << 7` is an int32 without wrap, since
-- `value` has at most 14 bits there; `value << 8` has at most 29.
pub decode_loop : ℕ → Buffer → ℕ → ℕ → ℕ → Result DecodedU29
decode_loop zero bytes offset index value = err u29_invalid
decode_loop (suc left) bytes offset index value = elim (get_elem? bytes (offset + index)) [
  | none ↦ err u29_end
  | some byte ↦
      let value' = bit_or (value * 2 ^ 7) (bit_and byte 0x7f) in
      let more = decode_loop left bytes offset (index + 1) value' in
      if index == 3
      then ok (record { value = bit_or (value * 2 ^ 8) byte % 2 ^ 32; bytes_read = 4 })
      else if bit_and byte 0x80 == 0
      then ok (record { value = value'; bytes_read = index + 1 })
      else more
]

unfoldable pub decode_u29 : Buffer → ℕ → Result DecodedU29
unfolding decode_loop
decode_u29 bytes offset = decode_loop 4 bytes offset 0 0

-- `WriteBuffer.writeU29`: the bytes that it writes at the cursor.
unfoldable pub write_u29 : ℕ → Buffer
write_u29 n =
    if ltb n 0x80
    then n ∷ []
    else if ltb n 0x4000
    then bit_or 0x80 (n / 2 ^ 7) ∷ bit_and n 0x7f ∷ []
    else if ltb n 0x20_0000
    then bit_or 0x80 (n / 2 ^ 14) ∷ bit_or 0x80 (bit_and (n / 2 ^ 7) 0x7f) ∷ bit_and n 0x7f ∷ []
    else bit_or 0x80 (bit_and (n / 2 ^ 22) 0x7f)
      ∷ bit_or 0x80 (bit_and (n / 2 ^ 15) 0x7f)
      ∷ bit_or 0x80 (bit_and (n / 2 ^ 8) 0x7f)
      ∷ bit_and n 0xff
      ∷ []

-- `Math.ceil(length / 4) * 4`
unfoldable pub align_to_4_bytes : ℕ → ℕ
align_to_4_bytes length = (length + 3) / 4 * 4

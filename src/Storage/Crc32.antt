-- ===== src/Storage/Crc32.antt =====
-- storage/crc32.ts. The numbers are the unsigned views of JavaScript's int32: `^` is taken digit by
-- digit, and `>>> k` divides.
pub mod Detection
use pocket_db.Prelude.{
  ℕ, zero, suc, ◌+◌, ◌/◌, ◌%◌, ◌^◌, bit_and, bit_xor, ◌≡◌, refl, List, [], ◌∷◌, ◌==◌, if◌then◌else◌,
  get_or,
}
use pocket_db.Storage.Buffers.{Buffer}

-- The inner loop of `createCrc32Table`, with `left` rounds to go.
pub table_value : ℕ → ℕ → ℕ
table_value zero value = value
table_value (suc left) value =
    table_value left (if bit_and value 1 == 1 then bit_xor 0xedb8_8320 (value / 2) else value / 2)

-- The outer loop, from `index` on.
pub table_from : ℕ → ℕ → List ℕ
table_from zero index = []
table_from (suc left) index = table_value 8 index % 2 ^ 32 ∷ table_from left (index + 1)

unfoldable pub crc32_table : List ℕ
unfolding table_value table_from
crc32_table = table_from 256 0

-- The loop of `crc32`.
pub crc_step : ℕ → ℕ → ℕ
crc_step crc byte = bit_xor (crc / 2 ^ 8) (get_or crc32_table (bit_and (bit_xor crc byte) 0xff) 0)

pub crc_loop : ℕ → Buffer → ℕ
crc_loop crc [] = crc
crc_loop crc (byte ∷ bytes) = crc_loop (crc_step crc byte) bytes

unfoldable pub crc32 : Buffer → ℕ
unfolding crc_loop crc_step crc32_table
crc32 bytes = bit_xor (crc_loop 0xffff_ffff bytes) 0xffff_ffff % 2 ^ 32

-- The check value of CRC-32, "123456789".
check_value :
    crc32 (0x31 ∷ 0x32 ∷ 0x33 ∷ 0x34 ∷ 0x35 ∷ 0x36 ∷ 0x37 ∷ 0x38 ∷ 0x39 ∷ []) ≡ 0xcbf4_3926
unfolding crc32
check_value = refl

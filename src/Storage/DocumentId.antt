-- ===== src/Storage/DocumentId.antt =====
-- storage/document-id.ts. A string of ASCII characters is the list of its codes.
pub mod RoundTrip
use pocket_db.Prelude.{
  ℕ, ◌+◌, ◌-◌, ◌*◌, ◌/◌, ◌%◌, bit_and, Bool, true, not, ◌&&◌, ◌||◌, List, [], ◌∷◌, ◌++◌, ltb, leb,
  ◌==◌, if◌then◌else◌, length, Result, throw_if, ◌>>=◌, ◌>>◌, bad_object_id, ok,
}
use pocket_db.Storage.Buffers.{Buffer, write_u32_be}

-- A digit of `toString("hex")`.
pub hex_digit : ℕ → ℕ
hex_digit digit = if ltb digit 10 then b'0' + digit else b'a' + (digit - 10)

-- `toString("hex")`
unfoldable pub to_hex : Buffer → List ℕ
unfolding hex_digit
to_hex [] = []
to_hex (b ∷ bytes) = hex_digit (b / 16) ∷ hex_digit (b % 16) ∷ to_hex bytes

-- A character of the class `[0-9a-f]`.
pub is_hex_digit : ℕ → Bool
is_hex_digit char = (leb b'0' char && leb char b'9') || (leb b'a' char && leb char b'f')

pub all_hex : List ℕ → Bool
unfolding is_hex_digit
all_hex [] = true
all_hex (char ∷ chars) = is_hex_digit char && all_hex chars

-- `/^[0-9a-f]{24}$/u.test`
unfoldable pub is_object_id_hex : List ℕ → Bool
unfolding all_hex
is_object_id_hex id = length id == 24 && all_hex id

unfoldable pub assert_object_id_hex : List ℕ → Result (Unit {0})
unfolding is_object_id_hex
assert_object_id_hex id = throw_if (not (is_object_id_hex id)) bad_object_id

pub digit_value : ℕ → ℕ
digit_value char = if leb b'a' char then char - b'a' + 10 else char - b'0'

-- `Buffer.from(id, "hex")`, of digits
pub of_hex : List ℕ → Buffer
unfolding digit_value
of_hex (high ∷ low ∷ chars) = (digit_value high * 16 + digit_value low) ∷ of_hex chars
of_hex _ = []

unfoldable pub object_id_from_hex : List ℕ → Result Buffer
unfolding of_hex
object_id_from_hex id = do assert_object_id_hex id; ok (of_hex id)

-- The new counter.
unfoldable pub next_counter : ℕ → ℕ
next_counter counter = bit_and (counter + 1) 0xff_ffff

-- `writeUIntBE(value, offset, 3)`
unfoldable pub u24_bytes : ℕ → Buffer
u24_bytes value = value / 65536 ∷ value / 256 % 256 ∷ value % 256 ∷ []

-- The clock in seconds, the random bytes of the process, and the counter; the new counter, and the id.
unfoldable pub create_object_id : ℕ → Buffer → ℕ → Result (ℕ × Buffer)
unfolding u24_bytes
create_object_id timestamp process_random counter = do
  seconds ← write_u32_be timestamp
  let counter' = next_counter counter
  ok (counter', seconds ++ (process_random ++ u24_bytes counter'))

-- ===== src/Storage/U29/RoundTrip.antt =====
-- What `encodeU29` writes, `decodeU29` reads back.
use pocket_db.Storage.U29.{decode_u29}
use pocket_db.Prelude.Bits.{and-7f, and-ff, and-80, or-80, 80-or, or-group, or-byte}
use pocket_db.Storage.Buffers.{Buffer}
use pocket_db.Storage.U29.{u29_max_value, u29_bytes, encode_u29, decode_loop, write_u29}
use pocket_db.Prelude.{
  ℕ, suc, ◌+◌, ◌*◌, ◌/◌, ◌%◌, ◌^◌, ◌≤◌, ◌<◌, ◌≡◌, refl, some, [], ◌∷◌, ◌++◌, arith, ltb,
  if◌then◌else◌, le→ltb, length, get_elem?, get_elem?-append_right, ok,
}

-- The bytes in plain arithmetic.
pub u29_bytes_lem :
    (v : ℕ)
    → v ≤ u29_max_value
    → u29_bytes v ≡ (
        if ltb v 0x80
        then v ∷ []
        else if ltb v 0x4000
        then (v / 128 + 128) ∷ v % 128 ∷ []
        else if ltb v 0x20_0000
        then (v / 16384 + 128) ∷ (v / 128 % 128 + 128) ∷ v % 128 ∷ []
        else (v / 4194304 + 128) ∷ (v / 32768 % 128 + 128) ∷ (v / 256 % 128 + 128) ∷ v % 256 ∷ [])
unfolding u29_bytes
u29_bytes_lem v h = ground (
  arith,
  and-7f v,
  and-7f (v / 128),
  and-7f (v / 16384),
  and-7f (v / 256),
  and-7f (v / 32768),
  and-7f (v / 4194304),
  and-ff v,
  or-80 (v / 128 % 128),
  or-80 (v / 16384 % 128),
  or-80 (v / 256 % 128),
  or-80 (v / 32768 % 128),
  or-80 (v / 4194304 % 128),
)

-- `writeU29` of the document encoders writes the bytes of `encodeU29`, for every value in range.
pub write_u29-eq-encode_u29 : (v : ℕ) → v ≤ u29_max_value → encode_u29 v ≡ ok (write_u29 v)
unfolding encode_u29 write_u29
write_u29-eq-encode_u29 v h = ground (
  arith,
  and-7f v,
  and-7f (v / 128),
  and-7f (v / 16384),
  and-7f (v / 256),
  and-7f (v / 32768),
  and-7f (v / 4194304),
  or-80 (v / 128 % 128),
  or-80 (v / 16384 % 128),
  or-80 (v / 256 % 128),
  or-80 (v / 32768 % 128),
  or-80 (v / 4194304 % 128),
  80-or (v / 128),
  80-or (v / 16384),
  80-or (v / 128 % 128),
  80-or (v / 256 % 128),
  80-or (v / 32768 % 128),
  80-or (v / 4194304 % 128),
)

-- One step of the decoding loop, on a byte with the top bit set, and on the last byte.
inner_byte :
    (left : ℕ) (bytes : Buffer) (offset index value g : ℕ)
    → g < 128
    → index < 3
    → get_elem? bytes (offset + index) ≡ some (g + 128)
    → decode_loop (suc left) bytes offset index value
      ≡ decode_loop left bytes offset (index + 1) (value * 128 + g)
unfolding decode_loop
inner_byte left bytes offset index value g hg hi e =
    ground (arith, and-7f (g + 128), and-80 (g + 128), or-group value g)

last_byte :
    (left : ℕ) (bytes : Buffer) (offset index value g : ℕ)
    → g < 128
    → index < 3
    → get_elem? bytes (offset + index) ≡ some g
    → decode_loop (suc left) bytes offset index value
      ≡ ok (record { value = value * 128 + g; bytes_read = index + 1 })
unfolding decode_loop
last_byte left bytes offset index value g hg hi e =
    ground (arith, and-7f g, and-80 g, or-group value g)

fourth_byte :
    (left : ℕ) (bytes : Buffer) (offset value b : ℕ)
    → b < 256
    → value < 2 ^ 21
    → get_elem? bytes (offset + 3) ≡ some b
    → decode_loop (suc left) bytes offset 3 value
      ≡ ok (record { value = value * 256 + b; bytes_read = 4 })
unfolding decode_loop
fourth_byte left bytes offset value b hb hv e = ground (arith, or-byte value b)

-- The four lengths, at groups `a`, `b`, `c` of seven bits.
module _ (pre rest : Buffer) where
  decode_one :
      (a : ℕ)
      → a < 128
      → decode_u29 (pre ++ (a ∷ rest)) (length pre) ≡ ok (record { value = a; bytes_read = 1 })
  unfolding decode_u29
  decode_one a ha =
      let bytes : Buffer = pre ++ (a ∷ rest) in
      ground (
        arith,
        last_byte 3 bytes (length pre) 0 0 a ha (omega arith) (get_elem?-append_right pre _ 0),
      )

  decode_two :
      (a b : ℕ)
      → a < 128
      → b < 128
      → decode_u29 (pre ++ ((a + 128) ∷ b ∷ rest)) (length pre)
        ≡ ok (record { value = a * 128 + b; bytes_read = 2 })
  unfolding decode_u29
  decode_two a b ha hb =
      let bytes : Buffer = pre ++ ((a + 128) ∷ b ∷ rest) in
      ground (
        arith,
        inner_byte 3 bytes (length pre) 0 0 a ha (omega arith) (get_elem?-append_right pre _ 0),
        last_byte 2 bytes (length pre) 1 a b hb (omega arith) (get_elem?-append_right pre _ 1),
      )

  decode_three :
      (a b c : ℕ)
      → a < 128
      → b < 128
      → c < 128
      → decode_u29 (pre ++ ((a + 128) ∷ (b + 128) ∷ c ∷ rest)) (length pre)
        ≡ ok (record { value = (a * 128 + b) * 128 + c; bytes_read = 3 })
  unfolding decode_u29
  decode_three a b c ha hb hc =
      let bytes : Buffer = pre ++ ((a + 128) ∷ (b + 128) ∷ c ∷ rest) in
      ground (
        arith,
        inner_byte 3 bytes (length pre) 0 0 a ha (omega arith) (get_elem?-append_right pre _ 0),
        inner_byte 2 bytes (length pre) 1 a b hb (omega arith) (get_elem?-append_right pre _ 1),
        last_byte 1 bytes (length pre) 2 (a * 128 + b) c hc (omega arith)
            (get_elem?-append_right pre _ 2),
      )

  decode_four :
      (a b c d : ℕ)
      → a < 128
      → b < 128
      → c < 128
      → d < 256
      → decode_u29 (pre ++ ((a + 128) ∷ (b + 128) ∷ (c + 128) ∷ d ∷ rest)) (length pre)
        ≡ ok (record { value = ((a * 128 + b) * 128 + c) * 256 + d; bytes_read = 4 })
  unfolding decode_u29
  decode_four a b c d ha hb hc hd =
      let bytes : Buffer = pre ++ ((a + 128) ∷ (b + 128) ∷ (c + 128) ∷ d ∷ rest) in
      ground (
        arith,
        inner_byte 3 bytes (length pre) 0 0 a ha (omega arith) (get_elem?-append_right pre _ 0),
        inner_byte 2 bytes (length pre) 1 a b hb (omega arith) (get_elem?-append_right pre _ 1),
        inner_byte 1 bytes (length pre) 2 (a * 128 + b) c hc (omega arith)
            (get_elem?-append_right pre _ 2),
        fourth_byte 0 bytes (length pre) ((a * 128 + b) * 128 + c) d hd (omega arith)
            (get_elem?-append_right pre _ 3),
      )

  pub decode_encoding :
      (v : ℕ)
      → v ≤ u29_max_value
      → decode_u29 (pre ++ (u29_bytes v ++ rest)) (length pre)
        ≡ ok (record { value = v; bytes_read = length (u29_bytes v) })
  decode_encoding v h = rw (u29_bytes_lem v h) (
      ground (
        arith,
        decode_one v,
        decode_two (v / 128) (v % 128),
        decode_three (v / 16384) (v / 128 % 128) (v % 128),
        decode_four (v / 4194304) (v / 32768 % 128) (v / 256 % 128) (v % 256),
      ))

pub encode_u29_fits : (v : ℕ) → v ≤ u29_max_value → encode_u29 v ≡ ok (u29_bytes v)
unfolding encode_u29
encode_u29_fits v h = rw (le→ltb u29_max_value v h) refl

-- For every value in range, `encodeU29` succeeds, and `decodeU29` at the place where the bytes stand,
-- whatever stands before and after them, gives the value back and the number of bytes written.
pub decode_u29-encode_u29 :
    (pre rest : Buffer) (v : ℕ)
    → v ≤ u29_max_value
    → (bytes : Buffer) × (encode_u29 v ≡ ok bytes)
      × (decode_u29 (pre ++ (bytes ++ rest)) (length pre)
          ≡ ok (record { value = v; bytes_read = length bytes }))
decode_u29-encode_u29 pre rest v h =
    (u29_bytes v, encode_u29_fits v h, decode_encoding pre rest v h)

-- ===== src/Storage/U29/Bounds.antt =====
-- What `decodeU29` can return on any bytes.
use pocket_db.Prelude.{
  ℕ, suc, ◌+◌, ◌*◌, ◌%◌, ◌^◌, ◌≤◌, ◌<◌, ◌≡◌, ◌⊎◌, inl, inr, arith, Option-cases, length, get_elem?,
  All, get_elem?-lt, All-get_elem?, ok,
}
use pocket_db.Prelude.Bits.{and-7f, or-group, or-byte}
use pocket_db.Storage.Buffers.{Buffer, IsByte}
use pocket_db.Storage.U29.{u29_max_value, DecodedU29, decode_loop, decode_u29}

-- A round before the fourth ends the loop on its byte, or goes on with seven bits more.
round :
    (left : ℕ) (bytes : Buffer) (offset index value : ℕ) {d : DecodedU29}
    → All IsByte bytes
    → index < 3
    → decode_loop (suc left) bytes offset index value ≡ ok d
    → (g : ℕ) × (g < 128)
      × (offset + index < length bytes)
      × ((d ≡ record { value = value * 128 + g; bytes_read = index + 1 })
          ⊎ (decode_loop left bytes offset (index + 1) (value * 128 + g) ≡ ok d))
unfolding decode_loop
round left bytes offset index value {d} wf hi h =
    elim (Option-cases (get_elem? bytes (offset + index))) [
      | inl missing ↦ absurd (ground arith)
      | inr (byte, found) ↦
          let wide : byte < 256 = All-get_elem? IsByte bytes (offset + index) wf found in
          (
            byte % 128,
            omega arith,
            get_elem?-lt bytes (offset + index) found,
            ground (arith, and-7f byte, or-group value (byte % 128)),
          )
    ]

fourth_round :
    (left : ℕ) (bytes : Buffer) (offset value : ℕ) {d : DecodedU29}
    → All IsByte bytes
    → value < 2 ^ 21
    → decode_loop (suc left) bytes offset 3 value ≡ ok d
    → (d.value ≤ u29_max_value) × (d.bytes_read ≡ 4) × (offset + 3 < length bytes)
unfolding decode_loop
fourth_round left bytes offset value {d} wf hv h =
    elim (Option-cases (get_elem? bytes (offset + 3))) [
      | inl missing ↦ absurd (ground arith)
      | inr (byte, found) ↦
          let wide : byte < 256 = All-get_elem? IsByte bytes (offset + 3) wf found in
          ground (arith, or-byte value byte, get_elem?-lt bytes (offset + 3) found)
    ]

-- From bytes, `decodeU29` returns at most 29 bits, from one to four bytes that all stand in the buffer.
pub decode_u29_bounds :
    (bytes : Buffer) (offset : ℕ) {d : DecodedU29}
    → All IsByte bytes
    → decode_u29 bytes offset ≡ ok d
    → (d.value ≤ u29_max_value)
      × (1 ≤ d.bytes_read)
      × (d.bytes_read ≤ 4)
      × (offset + d.bytes_read ≤ length bytes)
unfolding decode_u29
decode_u29_bounds bytes offset wf h =
    let (a, ha, ea, first) = round 3 bytes offset 0 0 wf (omega arith) h in
    elim first [
      | inl done ↦ ground arith
      | inr h₁ ↦
          let (b, hb, eb, second) = round 2 bytes offset 1 (0 * 128 + a) wf (omega arith) h₁ in
          elim second [
            | inl done ↦ ground arith
            | inr h₂ ↦
                let value : ℕ = (0 * 128 + a) * 128 + b in
                let (c, hc, ec, third) = round 1 bytes offset 2 value wf (omega arith) h₂ in
                elim third [
                  | inl done ↦ ground arith
                  | inr h₃ ↦
                      ground
                        (arith, fourth_round 0 bytes offset (value * 128 + c) wf (omega arith) h₃)
                ]
          ]
    ]

-- ===== src/Storage/IndexOperation/Legacy.antt =====
-- Payloads of the layout before the `unique` byte.
use pocket_db.Prelude.{
  ℕ, ◌+◌, ◌-◌, ◌/◌, ◌%◌, ◌≤◌, ◌≡◌, refl, sym, ap, ◌∙◌, false, ◌||◌, some, [], ◌∷◌, ◌++◌,
  append_assoc, arith, add-zero, dec_lt, ◌==◌, length, get_elem?, take, replicate, subarray,
  get_elem?-append_right, ok,
}
use pocket_db.Storage.Buffers.{Buffer, read_u8}
use pocket_db.Storage.U29.{u29_max_value, u29_bytes, align_to_4_bytes}
use pocket_db.Storage.U29.RoundTrip.{u29_bytes_lem}
use pocket_db.Storage.Payloads.{
  Utf8, assert_collection_id, aligned, counted, read_tail, IsPayload-aligned,
}
use pocket_db.Storage.IndexOperation.{
  StoredIndexType, of_string, of_number, index_type_byte, index_type_of_byte,
  decode_create_index_payload_current, operation_of_tail, or_else, decode_create_index_payload,
  decode_create_index_payload_legacy,
}
use pocket_db.Storage.IndexOperation.RoundTrip.{read_u8_lem}

-- The payload that was written before: no byte says whether the index is unique.
abbrev pub legacy_payload : (utf8 : Utf8) → Buffer → StoredIndexType → utf8.Text → Buffer
legacy_payload utf8 id type field =
    let bytes = utf8.to_bytes field in
    aligned ((id ++ (index_type_byte type ∷ [])) ++ (u29_bytes (length bytes) ++ bytes))

one_behind :
    (id : Buffer) (x : ℕ)
    → length id ≡ 4
    → (length (id ++ (x ∷ [])) ≡ 5)
      × (take 4 (id ++ (x ∷ [])) ≡ id)
      × (get_elem? (id ++ (x ∷ [])) 4 ≡ some x)
one_behind (a ∷ b ∷ c ∷ d ∷ []) x h = (refl, refl, refl)
one_behind [] x h = absurd (omega arith)
one_behind (a ∷ []) x h = absurd (omega arith)
one_behind (a ∷ b ∷ []) x h = absurd (omega arith)
one_behind (a ∷ b ∷ c ∷ []) x h = absurd (omega arith)
one_behind (a ∷ b ∷ c ∷ d ∷ _ ∷ _) x h = absurd (omega arith)

-- The first byte of a length from 2 on is no flag.
u29_head :
    (n : ℕ)
    → 2 ≤ n
    → n ≤ u29_max_value
    → (first : ℕ) × (rest : Buffer) × (u29_bytes n ≡ first ∷ rest) × (2 ≤ first)
u29_head n two h = elim (dec_lt n 0x80) [
  | yes one_byte ↦ (n, [], u29_bytes_lem n h ∙ ground arith, two)
  | no more ↦ elim (dec_lt n 0x4000) [
    | yes two_bytes ↦ (n / 128 + 128, n % 128 ∷ [], u29_bytes_lem n h ∙ ground arith, omega arith)
    | no more' ↦ elim (dec_lt n 0x20_0000) [
      | yes three_bytes ↦ (
        n / 16384 + 128,
        (n / 128 % 128 + 128) ∷ n % 128 ∷ [],
        u29_bytes_lem n h ∙ ground arith,
        omega arith,
      )
      | no more'' ↦ (
        n / 4194304 + 128,
        (n / 32768 % 128 + 128) ∷ (n / 256 % 128 + 128) ∷ n % 256 ∷ [],
        u29_bytes_lem n h ∙ ground arith,
        omega arith,
      )
    ]
  ]
]

no_flag : (first : ℕ) → 2 ≤ first → ((first == 0) || (first == 1)) ≡ false
no_flag first large = ground arith

-- The element behind the prefix of an aligned payload.
aligned_element :
    (pre rest : Buffer) {i : ℕ} {b : ℕ}
    → i ≡ length pre
    → get_elem? rest 0 ≡ some b
    → get_elem? (aligned (pre ++ rest)) i ≡ some b
unfolding aligned
aligned_element pre [] {i} p h = absurd cc
aligned_element pre (b ∷ rest) {i} p h =
    let n = align_to_4_bytes (length (pre ++ (b ∷ rest))) - length (pre ++ (b ∷ rest)) in
    ap (λ (t : Buffer). get_elem? t i) (append_assoc pre (b ∷ rest) (replicate n 0))
    ∙ ap (get_elem? (pre ++ (b ∷ (rest ++ replicate n 0)))) (p ∙ sym (add-zero (length pre)))
    ∙ get_elem?-append_right pre (b ∷ (rest ++ replicate n 0)) 0
    ∙ h

module _ (utf8 : Utf8) where
  -- What is read when the byte in the place of the flag is not one, and the rest is a field.
  decode_legacy :
      (payload id : Buffer) (field : utf8.Text) (type : StoredIndexType) (first : ℕ)
      → length id ≡ 4
      → take 4 payload ≡ id
      → read_u8 payload 4 ≡ ok (index_type_byte type)
      → read_u8 payload 5 ≡ ok first
      → 2 ≤ first
      → read_tail payload 5 ≡ ok (counted (utf8.to_bytes field))
      → decode_create_index_payload utf8 payload
        ≡ ok (record { collection_id = id; field = field; type = type; unique = false })
  unfolding decode_create_index_payload or_else decode_create_index_payload_current
      operation_of_tail assert_collection_id subarray index_type_of_byte index_type_byte
      decode_create_index_payload_legacy
  decode_legacy payload id field of_string first four start fifth sixth large tail =
      rw (start, four, fifth, sixth, no_flag first large, tail, utf8.of_bytes-to_bytes field) cc
  decode_legacy payload id field of_number first four start fifth sixth large tail =
      rw (start, four, fifth, sixth, no_flag first large, tail, utf8.of_bytes-to_bytes field) cc

  -- A payload of the layout before the `unique` byte, whose field's name has two bytes at least, is
  -- decoded with its field and type, and as an index that is not unique.
  pub decode_create_index_payload-legacy :
      (id : Buffer) (type : StoredIndexType) (field : utf8.Text)
      → length id ≡ 4
      → 2 ≤ length (utf8.to_bytes field)
      → length (utf8.to_bytes field) ≤ u29_max_value
      → decode_create_index_payload utf8 (legacy_payload utf8 id type field)
        ≡ ok (record { collection_id = id; field = field; type = type; unique = false })
  unfolding subarray
  decode_create_index_payload-legacy id type field four two fits =
      let bytes = utf8.to_bytes field in
      let pre = id ++ (index_type_byte type ∷ []) in
      let payload = legacy_payload utf8 id type field in
      let (size, head, fifth) = one_behind id (index_type_byte type) four in
      let p = IsPayload-aligned pre bytes fits in
      let (first, rest, split, large) = u29_head (length bytes) two fits in
      let sixth : get_elem? payload 5 ≡ some first =
        aligned_element pre (u29_bytes (length bytes) ++ bytes) (sym size)
          (ap (λ (t : Buffer). get_elem? (t ++ bytes) 0) split) in
      decode_legacy payload id field type first four (p.front 0 4 (omega (arith, size)) ∙ head)
        (read_u8_lem payload 4 (p.element 4 (omega (arith, size)) ∙ fifth))
        (read_u8_lem payload 5 sixth) large (ap (read_tail payload) (sym size) ∙ p.tail)

-- ===== src/Storage/Payloads.antt =====
-- What the payload encoders and decoders of storage/collection-operation.ts, document-operation.ts and
-- index-operation.ts share: a prefix, a U29 length, that many bytes, and zeros up to four bytes.
use pocket_db.Prelude.{
  ℕ, zero, suc, ◌+◌, ◌-◌, ◌*◌, ◌/◌, ◌%◌, ◌≤◌, ◌<◌, ◌≡◌, refl, sym, ap, ◌∙◌, Bool, true, not, ◌&&◌,
  [], ◌∷◌, ◌++◌, append_assoc, arith, ap₂, ltb, ◌==◌, if◌then◌else◌, le→ltb, length, get_elem?,
  drop, replicate, subarray, length-append, length-replicate, take-append_length,
  drop-append_length, subarray-middle, subarray-take, Result, ◌>>=◌, throw_if, collection_id_length,
  ok,
}
use pocket_db.Storage.Buffers.{Buffer}
use pocket_db.Storage.U29.{decode_u29, u29_bytes, align_to_4_bytes, encode_u29, u29_max_value}
use pocket_db.Storage.U29.RoundTrip.{decode_encoding, encode_u29_fits}

-- What the sources use of node's UTF-8 conversion. A `Text` is a well-formed string.
pub record Utf8 : Type 1 where
  pub Text : Type 0
  pub to_bytes : Text → Buffer
  pub of_bytes : Buffer → Text
  pub of_bytes-to_bytes : (t : Text) → of_bytes (to_bytes t) ≡ t

unfoldable pub assert_collection_id : Buffer → Result (Unit {0})
assert_collection_id id = throw_if (not (length id == 4)) collection_id_length

-- `Buffer.alloc(alignTo4Bytes(n))` of the length `n` of the parts, and the parts copied into it one
-- behind the other.
unfoldable pub aligned : Buffer → Buffer
aligned parts = parts ++ replicate (align_to_4_bytes (length parts) - length parts) 0

-- `padding.every((byte) => byte === 0)`
pub all_zero : Buffer → Bool
all_zero [] = true
all_zero (b ∷ bytes) = b == 0 && all_zero bytes

-- The outcome of the lines that the decoders repeat.
pub data Tail : Type 0 where
  exceeds : Tail
  padded_badly : Tail
  counted : Buffer → Tail

-- A U29 length at `offset`, the bytes it counts, and the check of the padding behind them.
unfoldable pub read_tail : Buffer → ℕ → Result Tail
unfolding all_zero
read_tail payload offset = do
  encoded ← decode_u29 payload offset
  let start = offset + encoded.bytes_read
  let end = start + encoded.value
  ok (
      if ltb (length payload) end
      then exceeds
      else if not (all_zero (drop end payload))
      then padded_badly
      else counted (subarray payload start end))

all_zero-replicate : (n : ℕ) → all_zero (replicate n 0) ≡ true
unfolding all_zero
all_zero-replicate zero = refl
all_zero-replicate (suc n) = all_zero-replicate n

-- What an encoder wrote behind `pre` is read.
read_counted :
    (pre bytes content : Buffer) (n : ℕ)
    → ((rest : Buffer)
        → decode_u29 (pre ++ (bytes ++ rest)) (length pre)
          ≡ ok (record { value = length content; bytes_read = length bytes }))
    → read_tail (pre ++ (bytes ++ (content ++ replicate n 0))) (length pre) ≡ ok (counted content)
unfolding read_tail
read_counted pre bytes content n decoded =
    let payload = pre ++ (bytes ++ (content ++ replicate n 0)) in
    let shape : payload ≡ (pre ++ bytes) ++ (content ++ replicate n 0) =
      sym (append_assoc pre bytes (content ++ replicate n 0)) in
    let shape' : payload ≡ ((pre ++ bytes) ++ content) ++ replicate n 0 =
      shape ∙ sym (append_assoc (pre ++ bytes) content (replicate n 0)) in
    let start : length pre + length bytes ≡ length (pre ++ bytes) = sym (length-append pre bytes) in
    let end : length pre + length bytes + length content ≡ length ((pre ++ bytes) ++ content) =
      omega (arith, start, length-append {0} (pre ++ bytes) content) in
    let fits : length pre + length bytes + length content ≤ length payload = omega (
      arith,
      ap (length {A = ℕ}) shape',
      end,
      length-append {0} ((pre ++ bytes) ++ content) (replicate n 0),
    ) in
    let zeros : drop (length pre + length bytes + length content) payload ≡ replicate n 0 =
      ap₂ (λ (k : ℕ) (t : Buffer). drop k t) end shape'
      ∙ drop-append_length ((pre ++ bytes) ++ content) (replicate n 0) in
    let padding : all_zero (drop (length pre + length bytes + length content) payload) ≡ true =
      ap all_zero zeros ∙ all_zero-replicate n in
    let part : subarray payload (length pre + length bytes)
          (length pre + length bytes + length content)
        ≡ content =
      ap
        (λ (t : Buffer).
          subarray t (length pre + length bytes) (length pre + length bytes + length content))
        shape
      ∙ subarray-middle (pre ++ bytes) content (replicate n 0) start (omega (arith)) in
    rw (decoded (content ++ replicate n 0), padding, part, le→ltb _ _ fits) refl

length-aligned : (parts : Buffer) → length (aligned parts) % 4 ≡ 0
unfolding aligned align_to_4_bytes
length-aligned parts =
    let n = length parts in
    omega (
      arith,
      length-append {0} parts (replicate ((n + 3) / 4 * 4 - n) 0),
      length-replicate {A = ℕ} ((n + 3) / 4 * 4 - n) 0,
    )

-- What a decoder finds in an aligned payload: the bytes of the prefix, and the counted content.
pub record IsPayload (pre content payload : Buffer) : Type 0 where
  pub tail : read_tail payload (length pre) ≡ ok (counted content)
  pub front : (i j : ℕ) → j ≤ length pre → subarray payload i j ≡ subarray pre i j
  pub element : (i : ℕ) → i < length pre → get_elem? payload i ≡ get_elem? pre i
  pub multiple : length payload % 4 ≡ 0

get_elem?-append_left :
    (xs ys : Buffer) (i : ℕ) → i < length xs → get_elem? (xs ++ ys) i ≡ get_elem? xs i
get_elem?-append_left [] ys i h = absurd (omega arith)
get_elem?-append_left (x ∷ xs) ys zero h = refl
get_elem?-append_left (x ∷ xs) ys (suc i) h = get_elem?-append_left xs ys i (omega arith)

module _ (pre content bytes : Buffer) where
  abbrev payload : Buffer
  payload = aligned (pre ++ (bytes ++ content))

  abbrev missing : ℕ
  missing =
      align_to_4_bytes (length (pre ++ (bytes ++ content))) - length (pre ++ (bytes ++ content))

  payload_shape : payload ≡ pre ++ (bytes ++ (content ++ replicate missing 0))
  unfolding aligned
  payload_shape = simp append_assoc

  payload_front : (i j : ℕ) → j ≤ length pre → subarray payload i j ≡ subarray pre i j
  payload_front i j h =
      let rest = bytes ++ (content ++ replicate missing 0) in
      ap (λ (t : Buffer). subarray t i j) payload_shape
      ∙ sym (subarray-take (length pre) i j (pre ++ rest) h)
      ∙ ap (λ (t : Buffer). subarray t i j) (take-append_length pre rest)

pub IsPayload-aligned :
    (pre content : Buffer)
    → length content ≤ u29_max_value
    → IsPayload pre content (aligned (pre ++ (u29_bytes (length content) ++ content)))
IsPayload-aligned pre content h =
    let bytes = u29_bytes (length content) in
    let shape = payload_shape pre content bytes in
    record {
      tail =
          ap (λ (t : Buffer). read_tail t (length pre)) shape
          ∙ read_counted pre bytes content (missing pre content bytes)
              (λ rest. decode_encoding pre rest (length content) h);
      front = payload_front pre content bytes;
      element = λ i inside.
          ap (λ (t : Buffer). get_elem? t i) shape
          ∙ get_elem?-append_left pre
              (bytes ++ (content ++ replicate (missing pre content bytes) 0)) i inside;
      multiple = length-aligned (pre ++ (bytes ++ content));
    }

pub aligned-IsPayload :
    (pre content : Buffer)
    → length content ≤ u29_max_value
    → (bytes : Buffer) × (encode_u29 (length content) ≡ ok bytes)
      × IsPayload pre content (aligned (pre ++ (bytes ++ content)))
aligned-IsPayload pre content h = (
  u29_bytes (length content),
  encode_u29_fits (length content) h,
  IsPayload-aligned pre content h,
)

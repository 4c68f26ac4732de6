-- ===== src/Storage/Buffers.antt =====
-- What the storage code uses of node's Buffer: a Buffer is a list of numbers below 256, and its
-- big-endian reads and writes throw outside the buffer or the width.
use native.Mathlib.Nat.{add_comm}
use native.Mathlib.Numerals.{towards_suc}
use pocket_db.Prelude.{
  ℕ, suc, ◌+◌, ◌-◌, ◌*◌, ◌/◌, ◌%◌, ◌^◌, ◌≤◌, ◌<◌, ◌≡◌, refl, ap, ◌∙◌, ◌↔◌, Bool, true, false, ◌&&◌,
  none, some, List, [], ◌∷◌, ◌++◌, arith, ltb, ◌==◌, if◌then◌else◌, le→ltb, length, get_elem?, take,
  drop, All, length-drop, drop-append_length, drop-take, Result, ◌>>◌, throw_if, out_of_range, ok,
  err,
}

abbrev pub Buffer : Type 0
Buffer = List ℕ

abbrev pub IsByte : ℕ → Type 0
IsByte b = b < 256

-- The four bytes that `writeUInt32BE` puts into the buffer.
unfoldable pub u32_bytes : ℕ → Buffer
u32_bytes value = value / 2 ^ 24 ∷ value / 2 ^ 16 % 256 ∷ value / 2 ^ 8 % 256 ∷ value % 256 ∷ []

unfoldable pub write_u32_be : ℕ → Result Buffer
unfolding u32_bytes
write_u32_be value = do throw_if (ltb 0xffff_ffff value) out_of_range; ok (u32_bytes value)

-- `readUInt8`
unfoldable pub read_u8 : Buffer → ℕ → Result ℕ
read_u8 buffer offset = elim (get_elem? buffer offset) [ none ↦ err out_of_range | some b ↦ ok b ]

-- `writeUInt8`
unfoldable pub write_u8 : ℕ → Result Buffer
write_u8 value = if ltb value 256 then ok (value ∷ []) else err out_of_range

u32_be : Buffer → Result ℕ
u32_be (a ∷ b ∷ c ∷ d ∷ _) = ok (((a * 256 + b) * 256 + c) * 256 + d)
u32_be _ = err out_of_range

-- `readUInt32BE`
unfoldable pub read_u32_be : Buffer → ℕ → Result ℕ
unfolding u32_be
read_u32_be buffer offset = u32_be (drop offset buffer)

pub length-u32_bytes : (value : ℕ) → length (u32_bytes value) ≡ 4
unfolding u32_bytes
length-u32_bytes value = refl

pub u32_bytes-IsByte : (value : ℕ) → value < 2 ^ 32 → All IsByte (u32_bytes value)
unfolding u32_bytes
u32_bytes-IsByte value h = omega arith

-- Writing succeeds exactly in the width.
pub write_u32_be_fits : (value : ℕ) → value < 2 ^ 32 → write_u32_be value ≡ ok (u32_bytes value)
unfolding write_u32_be
write_u32_be_fits value h = rw (le→ltb 0xffff_ffff value (omega arith))

pub read_u32_be-u32_bytes :
    (pre rest : Buffer) (value : ℕ) {offset : ℕ}
    → value < 2 ^ 32
    → offset ≡ length pre
    → read_u32_be (pre ++ (u32_bytes value ++ rest)) offset ≡ ok value
unfolding read_u32_be u32_bytes
read_u32_be-u32_bytes pre rest value h e =
    rw (e, drop-append_length pre (u32_bytes value ++ rest)) (ground arith)

u32_be_long : (buffer : Buffer) {value : ℕ} → u32_be buffer ≡ ok value → 4 ≤ length buffer
unfolding u32_be
u32_be_long (a ∷ b ∷ c ∷ d ∷ rest) h = omega arith
u32_be_long _ h = cc

-- A read of four bytes succeeds only inside the buffer.
pub read_u32_be_bounds :
    (buffer : Buffer) (offset : ℕ) {value : ℕ}
    → read_u32_be buffer offset ≡ ok value
    → offset + 4 ≤ length buffer
unfolding read_u32_be
read_u32_be_bounds buffer offset h =
    omega (arith, u32_be_long (drop offset buffer) h, length-drop {0} offset buffer)

u32_be-take : (n : ℕ) (buffer : Buffer) → u32_be (take (4 + n) buffer) ≡ u32_be buffer
unfolding u32_be
u32_be-take n buffer = rw (add_comm 4 n) (simp towards_suc (go buffer))
  where
    go : (b : Buffer) → u32_be (take (suc (suc (suc (suc n)))) b) ≡ u32_be b
    go [] = refl
    go (_ ∷ []) = refl
    go (_ ∷ _ ∷ []) = refl
    go (_ ∷ _ ∷ _ ∷ []) = refl
    go (_ ∷ _ ∷ _ ∷ _ ∷ _) = refl

-- A prefix that holds the four bytes reads the same.
pub read_u32_be-take :
    (k offset : ℕ) (buffer : Buffer)
    → offset + 4 ≤ k
    → read_u32_be (take k buffer) offset ≡ read_u32_be buffer offset
unfolding read_u32_be
read_u32_be-take k offset buffer h =
    let e : k - offset ≡ 4 + (k - offset - 4) = omega arith in
    ap u32_be (drop-take offset k buffer)
    ∙ ap (λ (n : ℕ). u32_be (take n (drop offset buffer))) e
    ∙ u32_be-take (k - offset - 4) (drop offset buffer)

-- `Buffer.equals`
unfoldable pub equals : Buffer → Buffer → Bool
equals [] [] = true
equals (a ∷ as') (b ∷ bs) = a == b && equals as' bs
equals _ _ = false

pub equals_iff : (a b : Buffer) → (equals a b ≡ true) ↔ (a ≡ b)
unfolding equals
equals_iff [] [] = (λ _. refl, λ _. refl)
equals_iff [] (b ∷ bs) = (λ e. cc, λ e. cc)
equals_iff (a ∷ as') [] = (λ e. cc, λ e. cc)
equals_iff (a ∷ as') (b ∷ bs) =
    (λ e. ground (arith, (equals_iff as' bs).0), λ e. ground (arith, (equals_iff as' bs).1))

u32_be_total : (buffer : Buffer) → 4 ≤ length buffer → (value : ℕ) × (u32_be buffer ≡ ok value)
unfolding u32_be
u32_be_total [] h = elim h [ ]
u32_be_total (a ∷ []) h = absurd (omega arith)
u32_be_total (a ∷ b ∷ []) h = absurd (omega arith)
u32_be_total (a ∷ b ∷ c ∷ []) h = absurd (omega arith)
u32_be_total (a ∷ b ∷ c ∷ d ∷ rest) h = (_, refl)

-- Inside the buffer a read succeeds.
pub read_u32_be_total :
    (buffer : Buffer) (offset : ℕ)
    → offset + 4 ≤ length buffer
    → (value : ℕ) × (read_u32_be buffer offset ≡ ok value)
unfolding read_u32_be
read_u32_be_total buffer offset h =
    u32_be_total (drop offset buffer) (omega (arith, length-drop {0} offset buffer))

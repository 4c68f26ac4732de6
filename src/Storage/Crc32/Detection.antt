-- ===== src/Storage/Crc32/Detection.antt =====
-- The checksum tells apart any two buffers that differ in one byte.
use pocket_db.Prelude.{
  ℕ, ◌+◌, ◌/◌, ◌%◌, ◌^◌, ◌<◌, bit_and, bit_xor, ◌≡◌, refl, sym, ap, ◌∙◌, ◌≢◌, true, List, [], ◌∷◌,
  ◌++◌, arith, ltb, ◌==◌, if◌then◌else◌, ltb→lt, ==_iff, get_or, All,
}
use pocket_db.Prelude.Bits.{all_below, all_below_sound, and-ff, zero-xor, xor-lt, div-xor, mod-xor}
use pocket_db.Prelude.Bits.{xor_cancel_left, xor_cancel_right}
use pocket_db.Storage.Buffers.{Buffer, IsByte}
use pocket_db.Storage.Crc32.{crc32_table, crc_step, crc_loop, crc32}

abbrev IsU32 : ℕ → Type 0
IsU32 v = v < 2 ^ 32

abbrev entry : ℕ → ℕ
entry i = get_or crc32_table i 0

entries_fit : all_below 256 (λ i. ltb (entry i) (2 ^ 32)) ≡ true
unfolding crc32_table
entries_fit = refl

-- The place of the first entry whose top byte is `t`.
place : ℕ → List ℕ → ℕ → ℕ
place t [] i = i
place t (x ∷ xs) i = let later = place t xs (i + 1) in if x / 2 ^ 24 == t then i else later

top_bytes_differ :
    (let table = crc32_table in all_below 256 (λ i. place (get_or table i 0 / 2 ^ 24) table 0 == i))
    ≡ true
unfolding crc32_table place
top_bytes_differ = refl

entry-IsU32 : (i : ℕ) → i < 256 → IsU32 (entry i)
entry-IsU32 i h = ltb→lt _ _ (all_below_sound 256 (λ j. ltb (entry j) (2 ^ 32)) i entries_fit h)

entry_of_top : (i j : ℕ) → i < 256 → j < 256 → entry i / 2 ^ 24 ≡ entry j / 2 ^ 24 → i ≡ j
entry_of_top i j hi hj e =
    let at = λ (t : ℕ). place t crc32_table 0 in
    let found = λ (k : ℕ) (h : k < 256).
      (==_iff (at (entry k / 2 ^ 24)) k).0
        (all_below_sound 256 (λ m. at (entry m / 2 ^ 24) == m) k top_bytes_differ h) in
    sym (found i hi) ∙ ap at e ∙ found j hj

-- The index of the entry that a step takes.
abbrev slot : ℕ → ℕ → ℕ
slot crc byte = bit_and (bit_xor crc byte) 0xff

slot-lt : (crc byte : ℕ) → slot crc byte < 256
slot-lt crc byte = omega (arith, and-ff (bit_xor crc byte))

slot_lem : (crc byte : ℕ) → IsByte byte → slot crc byte ≡ bit_xor (crc % 256) byte
slot_lem crc byte h =
    let e : byte % 256 ≡ byte = omega arith in
    and-ff (bit_xor crc byte) ∙ mod-xor 8 crc byte ∙ ap (bit_xor (crc % 256)) e

-- Only the entry reaches the top byte of the result.
top_of_step :
    (crc byte : ℕ) → IsU32 crc → crc_step crc byte / 2 ^ 24 ≡ entry (slot crc byte) / 2 ^ 24
unfolding crc_step
top_of_step crc byte h =
    let e : crc / 2 ^ 8 / 2 ^ 24 ≡ 0 = omega arith in
    div-xor 24 (crc / 2 ^ 8) (entry (slot crc byte))
    ∙ ap (λ (t : ℕ). bit_xor t (entry (slot crc byte) / 2 ^ 24)) e
    ∙ zero-xor _

step-IsU32 : (crc byte : ℕ) → IsU32 crc → IsU32 (crc_step crc byte)
unfolding crc_step
step-IsU32 crc byte h =
    xor-lt 32 (crc / 2 ^ 8) (entry (slot crc byte)) (omega arith)
      (entry-IsU32 (slot crc byte) (slot-lt crc byte))

slots_agree :
    (crc crc' byte byte' : ℕ)
    → IsU32 crc
    → IsU32 crc'
    → crc_step crc byte ≡ crc_step crc' byte'
    → slot crc byte ≡ slot crc' byte'
slots_agree crc crc' byte byte' h h' e =
    entry_of_top _ _ (slot-lt crc byte) (slot-lt crc' byte')
      (sym (top_of_step crc byte h) ∙ ap (λ (t : ℕ). t / 2 ^ 24) e ∙ top_of_step crc' byte' h')

-- A step loses nothing of the running checksum, and nothing of the byte.
step_crc_injective :
    (crc crc' byte : ℕ)
    → IsByte byte
    → IsU32 crc
    → IsU32 crc'
    → crc_step crc byte ≡ crc_step crc' byte
    → crc ≡ crc'
unfolding crc_step
step_crc_injective crc crc' byte hb h h' e =
    let same = slots_agree crc crc' byte byte h h' e in
    let high : crc / 2 ^ 8 ≡ crc' / 2 ^ 8 =
      xor_cancel_right (entry (slot crc byte)) (crc / 2 ^ 8) (crc' / 2 ^ 8)
        (e ∙ ap (λ (i : ℕ). bit_xor (crc' / 2 ^ 8) (entry i)) (sym same)) in
    let low : crc % 256 ≡ crc' % 256 =
      xor_cancel_right byte (crc % 256) (crc' % 256)
        (sym (slot_lem crc byte hb) ∙ same ∙ slot_lem crc' byte hb) in
    omega arith

step_byte_injective :
    (crc byte byte' : ℕ)
    → IsByte byte
    → IsByte byte'
    → IsU32 crc
    → crc_step crc byte ≡ crc_step crc byte'
    → byte ≡ byte'
step_byte_injective crc byte byte' hb hb' h e =
    xor_cancel_left (crc % 256) byte byte'
      (sym (slot_lem crc byte hb) ∙ slots_agree crc crc byte byte' h h e ∙ slot_lem crc byte' hb')

loop_injective :
    (bytes : Buffer) (crc crc' : ℕ)
    → All IsByte bytes
    → IsU32 crc
    → IsU32 crc'
    → crc_loop crc bytes ≡ crc_loop crc' bytes
    → crc ≡ crc'
unfolding crc_loop
loop_injective [] crc crc' wf h h' e = e
loop_injective (b ∷ bytes) crc crc' wf h h' e = step_crc_injective crc crc' b wf.0 h h' (
    loop_injective bytes (crc_step crc b) (crc_step crc' b) wf.1 (step-IsU32 crc b h)
      (step-IsU32 crc' b h') e)

loop_detects :
    (pre post : Buffer) (crc byte byte' : ℕ)
    → All IsByte post
    → IsByte byte
    → IsByte byte'
    → IsU32 crc
    → crc_loop crc (pre ++ (byte ∷ post)) ≡ crc_loop crc (pre ++ (byte' ∷ post))
    → byte ≡ byte'
unfolding crc_loop
loop_detects [] post crc byte byte' wf hb hb' h e = step_byte_injective crc byte byte' hb hb' h (
    loop_injective post (crc_step crc byte) (crc_step crc byte') wf (step-IsU32 crc byte h)
      (step-IsU32 crc byte' h) e)
loop_detects (b ∷ pre) post crc byte byte' wf hb hb' h e =
    loop_detects pre post (crc_step crc b) byte byte' wf hb hb' (step-IsU32 crc b h) e

loop-IsU32 : (bytes : Buffer) (crc : ℕ) → IsU32 crc → IsU32 (crc_loop crc bytes)
unfolding crc_loop
loop-IsU32 [] crc h = h
loop-IsU32 (b ∷ bytes) crc h = loop-IsU32 bytes (crc_step crc b) (step-IsU32 crc b h)

-- The final inversion takes no bits away.
crc32_injective :
    (xs ys : Buffer) → crc32 xs ≡ crc32 ys → crc_loop 0xffff_ffff xs ≡ crc_loop 0xffff_ffff ys
unfolding crc32
crc32_injective xs ys e =
    let x = crc_loop 0xffff_ffff xs in
    let y = crc_loop 0xffff_ffff ys in
    let fx = xor-lt 32 x 0xffff_ffff (loop-IsU32 xs 0xffff_ffff (omega arith)) (omega arith) in
    let fy = xor-lt 32 y 0xffff_ffff (loop-IsU32 ys 0xffff_ffff (omega arith)) (omega arith) in
    xor_cancel_right 0xffff_ffff x y (omega arith)

-- If exactly one byte of a buffer is replaced by another byte, the CRC-32 changes.
pub crc32_detects_byte :
    (pre post : Buffer) (byte byte' : ℕ)
    → All IsByte post
    → IsByte byte
    → IsByte byte'
    → byte ≢ byte'
    → crc32 (pre ++ (byte ∷ post)) ≢ crc32 (pre ++ (byte' ∷ post))
crc32_detects_byte pre post byte byte' wf hb hb' differ e =
    differ
      (loop_detects pre post 0xffff_ffff byte byte' wf hb hb' (omega arith) (crc32_injective _ _ e))

pub crc32-lt : (bytes : Buffer) → crc32 bytes < 2 ^ 32
unfolding crc32
crc32-lt bytes = omega arith

-- ===== src/Prelude/Bits.antt =====
-- The bitwise operations at variables, from the digit recursion that they stand for.
use Prim.Native.Nat.{
  ℕ, zero, suc, ◌+◌, ◌-◌, ◌*◌, ◌/◌, ◌%◌, ◌^◌, ◌≤◌, ◌<◌, min, max, bit_and, bit_or, bit_xor,
}
use Prim.Native.Nat.{digits, bitwise, differ, bit_and-bitwise, bit_or-bitwise, bit_xor-bitwise}
use mathlib.Core.Path.{◌≡◌, refl, ap, ap₂, sym, ◌∙◌}
use native.Mathlib.Omega.{arith}
use native.Mathlib.Nat.{suc-add, zero-add, two-pow-succ, pow-succ', div-div-eq-div-mul, div-add-mod}
use mathlib.Core.Bool.{Bool, true, ◌&&◌}
use pocket_db.Prelude.Tests.{◌==◌, ==_iff}

module _ (z : ℕ → ℕ) (f : ℕ → ℕ → ℕ) (run_out : (b : ℕ) → z b ≡ z (b / 2) * 2 + f 0 (b % 2)) where
  -- More fuel than the number needs changes nothing.
  same_digits : (fuel more a b : ℕ) → a ≤ fuel → digits z f fuel a b ≡ digits z f (fuel + more) a b
  same_digits zero zero zero b le = refl
  same_digits zero (suc more) zero b le = rw (zero-add (suc more)) refl
  same_digits zero more (suc a) b le = absurd (omega arith)
  same_digits (suc fuel) more zero b le = rw (suc-add fuel more) refl
  same_digits (suc fuel) more (suc a) b le =
      rw (suc-add fuel more)
        (omega (arith, same_digits fuel more (suc a / 2) (b / 2) (omega arith)))

  -- The lowest digit and the rest.
  bitwise_step : (a b : ℕ) → bitwise z f a b ≡ bitwise z f (a / 2) (b / 2) * 2 + f (a % 2) (b % 2)
  bitwise_step zero b = run_out b
  bitwise_step (suc a) b =
      let half = suc a / 2 in
      let exact : half + (a - half) ≡ a = omega arith in
      let enough =
        same_digits half (a - half) half (b / 2) (omega arith)
        ∙ ap (λ (k : ℕ). digits z f k half (b / 2)) exact in
      omega (arith, enough)

pub and_step : (a b : ℕ) → bit_and a b ≡ bit_and (a / 2) (b / 2) * 2 + min (a % 2) (b % 2)
and_step a b = omega (
  arith,
  bit_and-bitwise a b,
  bit_and-bitwise (a / 2) (b / 2),
  bitwise_step (λ b. zero) min (λ b. omega arith) a b,
)

pub or_step : (a b : ℕ) → bit_or a b ≡ bit_or (a / 2) (b / 2) * 2 + max (a % 2) (b % 2)
or_step a b = omega (
  arith,
  bit_or-bitwise a b,
  bit_or-bitwise (a / 2) (b / 2),
  bitwise_step (λ b. b) max (λ b. omega arith) a b,
)

-- Exclusive or of two digits, as arithmetic.
abbrev pub flip : ℕ → ℕ → ℕ
flip x y = (x + y) % 2

differ-flip : (x y : ℕ) → x < 2 → y < 2 → differ x y ≡ flip x y
differ-flip zero y p q = omega arith
differ-flip (suc zero) zero p q = omega arith
differ-flip (suc zero) (suc zero) p q = refl
differ-flip (suc (suc x)) y p q = absurd (omega arith)
differ-flip (suc zero) (suc (suc y)) p q = absurd (omega arith)

pub xor_step : (a b : ℕ) → bit_xor a b ≡ bit_xor (a / 2) (b / 2) * 2 + flip (a % 2) (b % 2)
xor_step a b = omega (
  arith,
  bit_xor-bitwise a b,
  bit_xor-bitwise (a / 2) (b / 2),
  bitwise_step (λ b. b) differ (λ b. omega arith) a b,
  differ-flip (a % 2) (b % 2) (omega arith) (omega arith),
)

-- Masks. Each one bit of the mask takes a step.
and-zero_fuel : (n a : ℕ) → a ≤ n → bit_and a 0 ≡ 0
and-zero_fuel n zero h = bit_and-bitwise 0 0
and-zero_fuel zero (suc a) h = absurd (omega arith)
and-zero_fuel (suc n) (suc a) h =
    omega (arith, and_step (suc a) 0, and-zero_fuel n (suc a / 2) (omega arith))

pub and-zero : (a : ℕ) → bit_and a 0 ≡ 0
and-zero a = and-zero_fuel a a (omega arith)

pub and-1 : (a : ℕ) → bit_and a 1 ≡ a % 2
and-1 a = omega (arith, and_step a 1, and-zero (a / 2))

pub and-7f : (a : ℕ) → bit_and a 0x7f ≡ a % 128
and-7f a = omega (
  arith,
  and_step a 127,
  and_step (a / 2) 63,
  and_step (a / 2 / 2) 31,
  and_step (a / 2 / 2 / 2) 15,
  and_step (a / 2 / 2 / 2 / 2) 7,
  and_step (a / 2 / 2 / 2 / 2 / 2) 3,
  and-1 (a / 2 / 2 / 2 / 2 / 2 / 2),
)

pub and-ff : (a : ℕ) → bit_and a 0xff ≡ a % 256
and-ff a = omega (arith, and_step a 255, and-7f (a / 2))

-- `x | y` where the lowest digits of `x` are zero and `y` has no other: the sum.
or-zero_fuel : (n a : ℕ) → a ≤ n → bit_or a 0 ≡ a
or-zero_fuel n zero h = bit_or-bitwise 0 0
or-zero_fuel zero (suc a) h = absurd (omega arith)
or-zero_fuel (suc n) (suc a) h =
    omega (arith, or_step (suc a) 0, or-zero_fuel n (suc a / 2) (omega arith))

pub or-zero : (a : ℕ) → bit_or a 0 ≡ a
or-zero a = or-zero_fuel a a (omega arith)

pub zero-or : (b : ℕ) → bit_or 0 b ≡ b
zero-or b = bit_or-bitwise 0 b

twice_pow : (k x : ℕ) → x * 2 ^ suc k ≡ 2 * (x * 2 ^ k)
twice_pow k x = omega (arith, ap (λ (t : ℕ). x * t) (two-pow-succ k))

-- `(x << k) | y` for `y` below `2 ^ k`.
pub shifted_or : (k x y : ℕ) → y < 2 ^ k → bit_or (x * 2 ^ k) y ≡ x * 2 ^ k + y
shifted_or zero x y h = let e : y ≡ 0 = omega arith in rw e (or-zero (x * 1) ∙ omega arith)
shifted_or (suc k) x y h =
    let half : x * 2 ^ suc k / 2 ≡ x * 2 ^ k = omega (arith, twice_pow k x) in
    omega (
      arith,
      twice_pow k x,
      or_step (x * 2 ^ suc k) y,
      ap (λ (t : ℕ). bit_or t (y / 2)) half,
      shifted_or k x (y / 2) (omega (arith, two-pow-succ k)),
    )

or-pow : (k m : ℕ) → m < 2 ^ k → bit_or m (2 ^ k) ≡ m + 2 ^ k
or-pow zero m h = let e : m ≡ 0 = omega arith in rw e (zero-or 1)
or-pow (suc k) m h =
    let half : 2 ^ suc k / 2 ≡ 2 ^ k = omega (arith, two-pow-succ k) in
    omega (
      arith,
      two-pow-succ k,
      or_step m (2 ^ suc k),
      ap (λ (t : ℕ). bit_or (m / 2) t) half,
      or-pow k (m / 2) (omega (arith, two-pow-succ k)),
    )

-- `m | 0x80` sets the top bit of a byte.
pub or-80 : (m : ℕ) → m < 128 → bit_or m 0x80 ≡ m + 128
or-80 m h = or-pow 7 m h

pub 80-or : (m : ℕ) → m < 128 → bit_or 0x80 m ≡ m + 128
80-or m h = shifted_or 7 1 m h ∙ omega arith

pub or-byte : (x b : ℕ) → b < 256 → bit_or (x * 2 ^ 8) b ≡ x * 256 + b
or-byte x b h = shifted_or 8 x b h

pub or-group : (x b : ℕ) → b < 128 → bit_or (x * 2 ^ 7) b ≡ x * 128 + b
or-group x b h = shifted_or 7 x b h

-- Exclusive or keeps a width, and cancels on both sides.
pub xor-lt : (k a b : ℕ) → a < 2 ^ k → b < 2 ^ k → bit_xor a b < 2 ^ k
xor-lt zero a b p q =
    let e : a ≡ 0 = omega arith in
    let e' : b ≡ 0 = omega arith in rw (e, e') (omega (arith, bit_xor-bitwise 0 0))
xor-lt (suc k) a b p q = omega (
  arith,
  two-pow-succ k,
  xor_step a b,
  xor-lt k (a / 2) (b / 2) (omega (arith, two-pow-succ k)) (omega (arith, two-pow-succ k)),
)

xor_cancel_left_fuel : (n a b c : ℕ) → b + c ≤ n → bit_xor a b ≡ bit_xor a c → b ≡ c
xor_cancel_left_fuel zero a b c p h = omega arith
xor_cancel_left_fuel (suc n) a zero zero p h = refl
xor_cancel_left_fuel (suc n) a b c p h =
    let rest : bit_xor (a / 2) (b / 2) ≡ bit_xor (a / 2) (c / 2) =
      omega (arith, xor_step a b, xor_step a c) in
    let half : b / 2 ≡ c / 2 = xor_cancel_left_fuel n (a / 2) (b / 2) (c / 2) (omega arith) rest in
    omega (arith, xor_step a b, xor_step a c)

pub xor_cancel_left : (a b c : ℕ) → bit_xor a b ≡ bit_xor a c → b ≡ c
xor_cancel_left a b c h = xor_cancel_left_fuel (b + c) a b c (omega arith) h

xor_comm_fuel : (n a b : ℕ) → a + b ≤ n → bit_xor a b ≡ bit_xor b a
xor_comm_fuel n zero zero p = refl
xor_comm_fuel zero a b p = absurd (omega arith)
xor_comm_fuel (suc n) a b p =
    omega (arith, xor_step a b, xor_step b a, xor_comm_fuel n (a / 2) (b / 2) (omega arith))

pub xor_comm : (a b : ℕ) → bit_xor a b ≡ bit_xor b a
xor_comm a b = xor_comm_fuel (a + b) a b (omega arith)

pub xor_cancel_right : (a b c : ℕ) → bit_xor b a ≡ bit_xor c a → b ≡ c
xor_cancel_right a b c h = xor_cancel_left a b c (xor_comm a b ∙ h ∙ xor_comm c a)

pub halves : (k a : ℕ) → a / 2 ^ suc k ≡ a / 2 / 2 ^ k
halves k a = rw (pow-succ' 2 k) (sym (div-div-eq-div-mul a 2 (2 ^ k)))

mod_halves : (k a : ℕ) → a % 2 ^ suc k ≡ a / 2 % 2 ^ k * 2 + a % 2
mod_halves k a = omega (
  arith,
  div-add-mod a (2 ^ suc k),
  div-add-mod (a / 2) (2 ^ k),
  ap (λ (q : ℕ). 2 ^ suc k * q) (halves k a),
  twice_pow k (a / 2 / 2 ^ k),
)

pub zero-xor : (b : ℕ) → bit_xor 0 b ≡ b
zero-xor b = bit_xor-bitwise 0 b

-- The low digits and the others go their own ways.
pub div-xor : (k a b : ℕ) → bit_xor a b / 2 ^ k ≡ bit_xor (a / 2 ^ k) (b / 2 ^ k)
div-xor zero a b =
    let e : a / 1 ≡ a = omega arith in let e' : b / 1 ≡ b = omega arith in rw (e, e') (omega arith)
div-xor (suc k) a b =
    let half : bit_xor a b / 2 ≡ bit_xor (a / 2) (b / 2) = omega (arith, xor_step a b) in
    rw (halves k (bit_xor a b), halves k a, halves k b, half) (div-xor k (a / 2) (b / 2))

pub mod-xor : (k a b : ℕ) → bit_xor a b % 2 ^ k ≡ bit_xor (a % 2 ^ k) (b % 2 ^ k)
mod-xor zero a b =
    let e : a % 1 ≡ 0 = omega arith in
    let e' : b % 1 ≡ 0 = omega arith in rw (e, e') (omega (arith, zero-xor 0))
mod-xor (suc k) a b =
    let low : (a % 2 ^ suc k) % 2 ≡ a % 2 = omega (arith, mod_halves k a) in
    let low' : (b % 2 ^ suc k) % 2 ≡ b % 2 = omega (arith, mod_halves k b) in
    let high : a % 2 ^ suc k / 2 ≡ a / 2 % 2 ^ k = omega (arith, mod_halves k a) in
    let high' : b % 2 ^ suc k / 2 ≡ b / 2 % 2 ^ k = omega (arith, mod_halves k b) in
    let half : bit_xor a b / 2 ≡ bit_xor (a / 2) (b / 2) = omega (arith, xor_step a b) in
    omega (
      arith,
      mod_halves k (bit_xor a b),
      ap (λ (t : ℕ). t % 2 ^ k) half,
      mod-xor k (a / 2) (b / 2),
      xor_step a b,
      xor_step (a % 2 ^ suc k) (b % 2 ^ suc k),
      ap₂ bit_xor high high',
      low,
      low',
    )

-- Over a small range, check every value by evaluation.
abbrev pub all_below : ℕ → (ℕ → Bool) → Bool
all_below zero p = true
all_below (suc n) p = p n && all_below n p

pub all_below_sound : (n : ℕ) (p : ℕ → Bool) (x : ℕ) → all_below n p ≡ true → x < n → p x ≡ true
all_below_sound zero p x h lt = absurd (omega arith)
all_below_sound (suc n) p x h lt = ground (arith, all_below_sound n p x)

top_bit_table : all_below 256 (λ b. bit_and b 0x80 == b / 128 * 128) ≡ true
top_bit_table = refl

pub and-80 : (b : ℕ) → b < 256 → bit_and b 0x80 ≡ b / 128 * 128
and-80 b h =
    (==_iff _ _).0 (all_below_sound 256 (λ x. bit_and x 0x80 == x / 128 * 128) b top_bit_table h)

-- ===== src/Common/Bits.antt =====
-- The bit operations of the source as arithmetic: masks of one byte by a table, and `|` of a
-- shifted accumulator and a byte by the recursion on binary digits.
use Prim.Native.Nat.{ℕ, zero, suc, ◌+◌, ◌-◌, ◌*◌, ◌/◌, ◌%◌, ◌≤◌, ◌<◌, max, bit_and, bit_or, bit_xor}
use Prim.Native.Nat.{digits, bit_or-bitwise}
use mathlib.Core.Path.{◌≡◌, refl, ap, ◌∙◌}
use mathlib.Core.Logic.{inl, inr}
use mathlib.Core.Bool.{Bool, true, ◌&&◌}
use native.Mathlib.Omega.{arith}
use clienthellod.Common.Tests.{◌==◌, Bool-cases}

-- Do two functions agree below `k`?
alike : (ℕ → ℕ) → (ℕ → ℕ) → ℕ → Bool
alike f g zero = true
alike f g (suc k) = alike f g k && f k == g k

alike→eq : (f g : ℕ → ℕ) (k : ℕ) → alike f g k ≡ true → (x : ℕ) → x < k → f x ≡ g x
unfolding alike
alike→eq f g zero all x below = absurd (omega arith)
alike→eq f g (suc k) all x below =
    let earlier : alike f g k ≡ true = ground arith in
    let here : f k ≡ g k = ground arith in
    elim (Bool-cases (x == k)) [
      | inl at ↦ let e : x ≡ k = ground arith in rw e here
      | inr off ↦ alike→eq f g k earlier x (ground arith)
    ]

pub bit_and_top_two : (b : ℕ) → b < 256 → bit_and b 0xc0 ≡ b / 64 * 64
unfolding alike
bit_and_top_two = alike→eq _ _ 256 refl

pub bit_and_low_six : (b : ℕ) → b < 256 → bit_and b 0x3f ≡ b % 64
unfolding alike
bit_and_low_six = alike→eq _ _ 256 refl

pub bit_and_low_four : (b : ℕ) → b < 256 → bit_and b 0x0f ≡ b % 16
unfolding alike
bit_and_low_four = alike→eq _ _ 256 refl

-- The recursion that `bit_or` stands for, on `fuel` digits of `a` at most.
abbrev or_upto : ℕ → ℕ → ℕ → ℕ
or_upto fuel a b = digits (λ rest. rest) max fuel a b

pub zero-bit_or : (b : ℕ) → bit_or 0 b ≡ b
zero-bit_or b = bit_or-bitwise 0 b

-- One more round changes nothing once the fuel covers `a`.
or_upto-suc : (fuel a b : ℕ) → a ≤ fuel → or_upto (suc fuel) a b ≡ or_upto fuel a b
or_upto-suc zero zero b covers = refl
or_upto-suc (suc fuel) zero b covers = refl
or_upto-suc zero (suc a) b covers = absurd (omega arith)
or_upto-suc (suc fuel) (suc a) b covers =
    let half : suc a / 2 ≤ fuel = omega arith in
    omega (arith, or_upto-suc fuel (suc a / 2) (b / 2) half)

or_upto_enough : (extra fuel a b : ℕ) → fuel ≡ extra + a → or_upto fuel a b ≡ or_upto a a b
or_upto_enough zero fuel a b e = let same : fuel ≡ a = omega arith in ap (λ n. or_upto n a b) same
or_upto_enough (suc extra) fuel a b e =
    let same : fuel ≡ suc (extra + a) = omega arith in
    ap (λ n. or_upto n a b) same
    ∙ or_upto-suc (extra + a) a b (omega arith)
    ∙ or_upto_enough extra (extra + a) a b refl

-- `a | b` by its lowest digit and the digits above it.
bit_or_step : (a b : ℕ) → bit_or a b ≡ bit_or (a / 2) (b / 2) * 2 + max (a % 2) (b % 2)
bit_or_step zero b = omega (arith, zero-bit_or (b / 2), zero-bit_or b)
bit_or_step (suc a) b =
    let upper = or_upto_enough (a - suc a / 2) a (suc a / 2) (b / 2) (omega arith) in
    omega (arith, upper, bit_or-bitwise (suc a / 2) (b / 2), bit_or-bitwise (suc a) b)

bit_or-zero_below : (bound a : ℕ) → a < bound → bit_or a 0 ≡ a
bit_or-zero_below zero a below = absurd (omega arith)
bit_or-zero_below (suc bound) zero below = zero-bit_or 0
bit_or-zero_below (suc bound) (suc a) below =
    let upper = bit_or-zero_below bound (suc a / 2) (omega arith) in
    omega (arith, upper, bit_or_step (suc a) 0)

pub bit_or-zero : (a : ℕ) → bit_or a 0 ≡ a
bit_or-zero a = bit_or-zero_below (suc a) a (omega arith)

bit_or_double : (a b x : ℕ) → x ≡ a * 2 → bit_or x b ≡ bit_or a (b / 2) * 2 + b % 2
bit_or_double a b x e = let h : x / 2 ≡ a = omega arith in rw (bit_or_step x b, h) (omega arith)

nibble : (a b x : ℕ) → x ≡ a * 16 → bit_or x b ≡ bit_or a (b / 16) * 16 + b % 16
nibble a b x e = omega (
  arith,
  bit_or_double (a * 8) b x (omega arith),
  bit_or_double (a * 4) (b / 2) (a * 8) (omega arith),
  bit_or_double (a * 2) (b / 2 / 2) (a * 4) (omega arith),
  bit_or_double a (b / 2 / 2 / 2) (a * 2) (omega arith),
  four,
)
  where
    four : bit_or a (b / 2 / 2 / 2 / 2) ≡ bit_or a (b / 16)
    four = let h : b / 2 / 2 / 2 / 2 ≡ b / 16 = omega arith in rw h

-- `val << 8 | b`: the shifted accumulator has no bit in common with a byte.
pub bit_or_byte : (a b : ℕ) → b < 256 → bit_or (a * 256) b ≡ a * 256 + b
bit_or_byte a b h = omega (
  arith,
  nibble (a * 16) b (a * 256) (omega arith),
  nibble a (b / 16) (a * 16) (omega arith),
  last,
)
  where
    last : bit_or a (b / 16 / 16) ≡ a
    last = let e : b / 16 / 16 ≡ 0 = omega arith in rw e (bit_or-zero a)

-- Does a property of pairs of bytes hold for all of them?
all_below : (ℕ → Bool) → ℕ → Bool
all_below test zero = true
all_below test (suc k) = all_below test k && test k

all_below-at : (test : ℕ → Bool) (k : ℕ) → all_below test k ≡ true → (x : ℕ) → x < k → test x ≡ true
unfolding all_below
all_below-at test zero all x lt = absurd (omega arith)
all_below-at test (suc k) all x lt = elim (Bool-cases (x == k)) [
  | inl at ↦ let e : x ≡ k = ground arith in rw e (ground arith)
  | inr off ↦ all_below-at test k (ground arith) x (ground arith)
]

abbrev xor_twice : ℕ → ℕ → Bool
xor_twice a b = bit_xor (bit_xor a b) b == a && bit_xor a b / 256 == 0

xor_table : all_below (λ a. all_below (xor_twice a) 256) 256 ≡ true
unfolding all_below
xor_table = refl

at_pair :
    (test : ℕ → ℕ → Bool) (m n : ℕ)
    → all_below (λ a. all_below (test a) n) m ≡ true
    → (a b : ℕ) → a < m
    → b < n
    → test a b ≡ true
at_pair test m n all a b la lb =
    all_below-at (test a) n (all_below-at (λ a. all_below (test a) n) m all a la) b lb

-- The exclusive or of two bytes is a byte, and a second one undoes it.
pub bit_xor-byte :
    (a b : ℕ) → a < 256 → b < 256 → (bit_xor (bit_xor a b) b ≡ a) × (bit_xor a b < 256)
bit_xor-byte a b la lb =
    let t = at_pair xor_twice 256 256 xor_table a b la lb in
    let undone : bit_xor (bit_xor a b) b ≡ a = ground arith in
    let high : bit_xor a b / 256 ≡ 0 = ground arith in (undone, omega arith)

abbrev zero_right : ℕ → Bool
zero_right a = bit_xor a 0 == a

zero_table : all_below zero_right 256 ≡ true
unfolding all_below
zero_table = refl

pub bit_xor-zero : (a : ℕ) → a < 256 → bit_xor a 0 ≡ a
bit_xor-zero a la = let t = all_below-at zero_right 256 zero_table a la in ground arith

-- A protected first byte: the high half is 0xc, and the low half is changed by four bits.
abbrev keeps_half : ℕ → ℕ → Bool
keeps_half a m =
    bit_and (bit_xor (192 + a) m) 0xc0 == 0xc0 && bit_and (bit_xor (192 + a) m) 0x30 == 0

half_table : all_below (λ a. all_below (keeps_half a) 16) 16 ≡ true
unfolding all_below
half_table = refl

pub bit_xor-low_half :
    (a m : ℕ)
    → a < 16
    → m < 16
    → (bit_and (bit_xor (192 + a) m) 0xc0 ≡ 0xc0) × (bit_and (bit_xor (192 + a) m) 0x30 ≡ 0)
bit_xor-low_half a m la lm =
    let t = at_pair keeps_half 16 16 half_table a m la lm in
    let first : bit_and (bit_xor (192 + a) m) 0xc0 ≡ 0xc0 = ground arith in
    let second : bit_and (bit_xor (192 + a) m) 0x30 ≡ 0 = ground arith in (first, second)

abbrev low_two : ℕ → Bool
low_two a = bit_and a 3 == a % 4

low_two_table : all_below low_two 256 ≡ true
unfolding all_below
low_two_table = refl

pub bit_and_low_two : (b : ℕ) → b < 256 → bit_and b 0x03 ≡ b % 4
bit_and_low_two b lb = let t = all_below-at low_two 256 low_two_table b lb in ground arith

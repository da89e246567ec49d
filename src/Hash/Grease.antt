-- ===== src/Hash/Grease.antt =====
-- fingerprint_hash.go: `isGREASEU16` and the values of RFC 8701.
use clienthellod.Common.{ℕ, ◌+◌, ◌*◌, ◌/◌, ◌%◌, ◌<◌, ◌≡◌, ◌↔◌, true, bit_and, arith}
use clienthellod.Common.Bits.{bit_and_low_four}
use clienthellod.Hash.{is_grease_u16}

-- `0x0a0a`, `0x1a1a` and so on to `0xfafa`.
abbrev pub grease_u16 : ℕ → ℕ
grease_u16 k = (16 * k + 10) * 257

is_grease_u16-of_value : (k : ℕ) → k < 16 → is_grease_u16 (grease_u16 k) ≡ true
unfolding is_grease_u16
is_grease_u16-of_value k h =
    let low : grease_u16 k % 256 ≡ 16 * k + 10 = omega arith in
    let high : (grease_u16 k / 256) % 256 ≡ 16 * k + 10 = omega arith in
    let four = bit_and_low_four (16 * k + 10) (omega arith) in rw (low, high, four) (ground arith)

value-of_is_grease_u16 :
    (v : ℕ) → v < 65536 → is_grease_u16 v ≡ true → (k : ℕ) × (k < 16) × (v ≡ grease_u16 k)
unfolding is_grease_u16
value-of_is_grease_u16 v h e =
    let four = bit_and_low_four (v % 256) (omega arith) in
    let same : (v / 256) % 256 ≡ v % 256 = ground arith in
    let last : bit_and (v % 256) 0x0f ≡ 10 = ground arith in
    (v % 256 / 16, omega arith, omega arith)

-- For a `uint16`, isGREASEU16 is true just for the sixteen values 0x0a0a, 0x1a1a, ..., 0xfafa that
-- RFC 8701 reserves.
pub is_grease_u16_iff :
    (v : ℕ) → v < 65536 → (is_grease_u16 v ≡ true) ↔ ((k : ℕ) × (k < 16) × (v ≡ grease_u16 k))
is_grease_u16_iff v h =
    (value-of_is_grease_u16 v h, λ (k, lt, e). rw e (is_grease_u16-of_value k lt))

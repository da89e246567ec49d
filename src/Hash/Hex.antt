-- ===== src/Hash/Hex.antt =====
-- fingerprint_hash.go: `FingerprintID.AsHex` and a reader of hexadecimal digits.
use clienthellod.Common.{
  ℕ, zero, suc, ◌+◌, ◌*◌, ◌/◌, ◌-◌, ◌%◌, ◌^◌, ◌<◌, ◌≡◌, refl, ap, ◌∙◌, List, [], ◌∷◌, ◌++◌, length,
  ltb, if◌then◌else◌, All, All-append, arith,
}
use clienthellod.Vli.Laws.{IsByte, big_endian}
use clienthellod.Hash.{be_bytes, hex_digit, hex_string, as_hex}

-- A reader of what `AsHex` prints.
abbrev pub hex_value : ℕ → ℕ
hex_value c = if ltb c 97 then c - 48 else c - 87

abbrev pub from_hex : ℕ → List ℕ → ℕ
from_hex acc [] = acc
from_hex acc (c ∷ s) = from_hex (acc * 16 + hex_value c) s

hex_value-digit : (d : ℕ) → d < 16 → hex_value (hex_digit d) ≡ d
hex_value-digit d h = ground arith

from_hex-string :
    (bs : List ℕ) (acc : ℕ) → All IsByte bs → from_hex acc (hex_string bs) ≡ big_endian acc bs
from_hex-string [] acc h = refl
from_hex-string (b ∷ bs) acc h =
    let high = hex_value-digit (b / 16) (omega (arith, h.0)) in
    let low = hex_value-digit (b % 16) (omega arith) in
    let next : (acc * 16 + hex_value (hex_digit (b / 16))) * 16 + hex_value (hex_digit (b % 16))
        ≡ acc * 256 + b =
      omega (arith, high, low) in
    ap (λ a. from_hex a (hex_string bs)) next ∙ from_hex-string bs (acc * 256 + b) h.1

big_endian-snoc :
    (bs : List ℕ) (b acc : ℕ) → big_endian acc (bs ++ b ∷ []) ≡ big_endian acc bs * 256 + b
big_endian-snoc [] b acc = refl
big_endian-snoc (c ∷ bs) b acc = big_endian-snoc bs b (acc * 256 + c)

-- 256^w
abbrev bytes_limit : ℕ → ℕ
bytes_limit zero = 1
bytes_limit (suc w) = 256 * bytes_limit w

pub be_bytes-IsByte : (w v : ℕ) → All IsByte (be_bytes w v)
be_bytes-IsByte zero v = tt
be_bytes-IsByte (suc w) v =
    All-append IsByte (be_bytes w (v / 256)) (v % 256 ∷ []) (be_bytes-IsByte w (v / 256))
      (omega arith, tt)

pub big_endian-be_bytes : (w v : ℕ) → v < bytes_limit w → big_endian 0 (be_bytes w v) ≡ v
big_endian-be_bytes zero v h = omega arith
big_endian-be_bytes (suc w) v h =
    let ih = big_endian-be_bytes w (v / 256) (omega arith) in
    big_endian-snoc (be_bytes w (v / 256)) (v % 256) 0 ∙ omega arith

-- An id below 2^64 is read back from its hexadecimal form, which is 16 characters long.
pub from_hex-as_hex :
    (id : ℕ) → id < 2 ^ 64 → (from_hex 0 (as_hex id) ≡ id) × (length (as_hex id) ≡ 16)
unfolding as_hex
from_hex-as_hex id h = (
  from_hex-string (be_bytes 8 id) 0 (be_bytes-IsByte 8 id) ∙ big_endian-be_bytes 8 id (omega arith),
  refl,
)

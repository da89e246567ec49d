-- ===== src/Hash.antt =====
-- fingerprint_hash.go: the bytes that a fingerprint hashes, and the number made of the hash.
-- `h.Write` appends to the bytes so far, so a sequence of writes is a concatenation.
-- An `int64` is the 64 bits of it as a natural number, which is also what `AsHex` prints.
pub mod Grease
pub mod Hex
use clienthellod.Common.{
  ℕ, zero, suc, ◌+◌, ◌*◌, ◌/◌, ◌%◌, ◌^◌, bit_and, Bool, true, false, ◌&&◌, List, [], ◌∷◌, ◌++◌,
  length, get_or, take, ltb, ◌==◌, if◌then◌else◌,
}

-- The low `w` bytes of a number, the highest first.
abbrev pub be_bytes : ℕ → ℕ → List ℕ
be_bytes zero v = []
be_bytes (suc w) v = be_bytes w (v / 256) ++ v % 256 ∷ []

abbrev pub update_u16 : ℕ → List ℕ
update_u16 i = be_bytes 2 i

abbrev pub update_u32 : ℕ → List ℕ
update_u32 i = be_bytes 4 i

abbrev pub update_u64 : ℕ → List ℕ
update_u64 i = be_bytes 8 i

-- `val<<8 | uint64(b)` for a byte `b`: the low eight bits of the shifted value are zero.
abbrev pub be_value : ℕ → List ℕ → ℕ
be_value acc [] = acc
be_value acc (b ∷ bs) = be_value ((acc * 256 + b) % 2 ^ 64) bs

unfoldable pub vli_to_u64 : List ℕ → ℕ
vli_to_u64 arr = be_value 0 arr

-- `binary.BigEndian.Uint64(h.Sum(nil)[:8])`
abbrev pub first_u64 : List ℕ → ℕ
first_u64 sum = be_value 0 (take 8 sum)

-- `hex.EncodeToString`, a string being its bytes.
abbrev pub hex_digit : ℕ → ℕ
hex_digit d = if ltb d 10 then d + 48 else d + 87

abbrev pub hex_string : List ℕ → List ℕ
hex_string [] = []
hex_string (b ∷ bs) = hex_digit (b / 16) ∷ hex_digit (b % 16) ∷ hex_string bs

unfoldable pub as_hex : ℕ → List ℕ
as_hex id = hex_string (be_bytes 8 id)

-- `& 0xFF` is the remainder by 256.
unfoldable pub is_grease_u16 : ℕ → Bool
is_grease_u16 v =
    let high = (v / 256) % 256 in let low = v % 256 in (high == low) && (bit_and low 0x0f == 0x0a)

unfoldable pub ungrease_u16 : ℕ → ℕ
ungrease_u16 v = if is_grease_u16 v then 0x0a0a else v

abbrev pub psk_grease : List ℕ
psk_grease = 0x0b ∷ 0x2a ∷ 0x49 ∷ 0x68 ∷ 0x87 ∷ 0xa6 ∷ 0xc5 ∷ 0xe4 ∷ []

-- The loop of `ungreasePSK` over the rest of the set.
abbrev pub ungrease_psk_loop : ℕ → List ℕ → ℕ
ungrease_psk_loop v [] = v
ungrease_psk_loop v (g ∷ gs) = if v == g then 0x0b else ungrease_psk_loop v gs

unfoldable pub ungrease_psk : ℕ → ℕ
ungrease_psk v = ungrease_psk_loop v psk_grease

unfoldable pub is_grease_alpn : List ℕ → Bool
is_grease_alpn s =
    (length s == 2) && ((get_or s 0 0 == get_or s 1 0) && (bit_and (get_or s 0 0) 0x0f == 0x0a))

-- ===== src/Vli.antt =====
-- quic_common.go: variable-length integers (RFC 9000, section 16) and GREASE transport parameters.
pub mod Laws
pub mod Rfc
pub mod RoundTrip
pub mod Plain
use clienthellod.Common.{
  ℕ, zero, suc, ◌+◌, ◌-◌, ◌*◌, ◌%◌, ◌^◌, Bool, true, false, ◌&&◌, Option, none, some, List, [], ◌∷◌,
  length, get_or, ltb, leb, ◌==◌, if◌then◌else◌, bit_and, bit_or,
}
use clienthellod.Outcome.{
  Result, ok, err, panic, ◌>>=◌, Error, invalid_first_byte, invalid_vli_length,
}
use clienthellod.Reader.{Reader, bytes_reader, read_into}

-- `switch encodedBytes[0] & 0xc0`; `none` is the default case.
unfoldable pub vli_width : ℕ → Option ℕ
vli_width b =
    let m = bit_and b 0xc0 in
    if m == 0x00
    then some 1
    else if m == 0x40
    then some 2
    else if m == 0x80
    then some 4
    else if m == 0xc0
    then some 8
    else none

-- The decoding loop on a `uint64`: `val <<= 8; val |= uint64(encodedBytes[i])`.
unfoldable pub decode_loop : ℕ → List ℕ → ℕ
decode_loop val [] = val
decode_loop val (b ∷ bs) = decode_loop (bit_or (val * 256 % 2 ^ 64) b) bs

-- The bytes after the first, if there are any.
unfoldable pub read_rest : Reader → ℕ → Result (List ℕ × Reader)
read_rest r n = if ltb 1 n then read_into r (n - 1) else ok ([], r)

-- The bytes behind the first byte `b` are read and decoded with it.
abbrev pub after_width : ℕ → Reader → Option ℕ → Result ((ℕ × ℕ) × Reader)
after_width b r none = err invalid_first_byte
after_width b r (some n) = do
  (more, r') ← read_rest r n
  ok ((decode_loop 0 (bit_and b 0x3f ∷ more), n), r')

-- The value and the number of bytes read, with the reader afterwards.
unfoldable pub decode_from : List ℕ × Reader → Result ((ℕ × ℕ) × Reader)
decode_from (head, r) = let b = get_or head 0 0 in after_width b r (vli_width b)

unfoldable pub read_next_vli : Reader → Result ((ℕ × ℕ) × Reader)
read_next_vli r = read_into r 1 >>= decode_from

-- `DecodeVLI`: the slice must hold just the integer.
unfoldable pub decode_vli : List ℕ → Result ℕ
decode_vli vli = do
  ((val, n), r) ← read_next_vli (bytes_reader vli)
  if n == length vli then ok val else err invalid_vli_length

-- `paramType >= 27 && (paramType-27)%31 == 0`: the subtraction is made only if it does not wrap.
unfoldable pub is_grease_transport_parameter : ℕ → Bool
is_grease_transport_parameter t = leb 27 t && (t - 27) % 31 == 0

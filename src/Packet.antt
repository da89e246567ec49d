-- ===== src/Packet.antt =====
-- quic_common.go: the header of a QUIC Initial packet and the frames inside it, decrypted. With it
-- `UnmarshalQUICClientInitialPacket` of quic_client_initial.go.
-- A slice is taken with a test: out of range is a panic.
pub mod Laws
pub mod Open
pub mod Protect
pub mod Fields
pub mod Seal
pub mod RoundTrip
use clienthellod.Common.{
  ℕ, suc, zero, ◌+◌, ◌-◌, ◌*◌, ◌%◌, ◌^◌, bit_and, bit_xor, Bool, true, false, not, ◌&&◌, Option,
  none, some, List, [], ◌∷◌, ◌++◌, length, take, drop, ltb, leb, ◌==◌, if◌then◌else◌,
}
use clienthellod.Outcome.{
  Error, Result, ok, err, panic, stuck, ◌>>=◌, some_or, packet_too_short, not_quic_long_header,
  not_quic_initial, unsupported_version, bad_dcid, bad_scid, token_too_long, short_read,
  payload_too_short, payload_too_long,
}
use clienthellod.Reader.{Reader, bytes_reader, bytes_buffer, content, Read, read}
use clienthellod.Vli.{read_next_vli}
use clienthellod.Frame.{Frame, read_all_frames, frame_types}
use clienthellod.Hash.{be_value}
use clienthellod.Gather.{QuicHeader, ClientInitial}
use clienthellod.Cryptobyte.{Cryptobyte}
use clienthellod.QuicCrypto.{
  Ciphers, client_initial_keys_calc, compute_header_protection, decrypt_aes128_gcm,
}

-- `xs[a:b]`
unfoldable pub slice : List ℕ → ℕ → ℕ → Result (List ℕ)
slice xs a b = if leb a b && leb b (length xs) then ok (take (b - a) (drop a xs)) else panic

-- `xs[:len(xs)-n]`
unfoldable pub slice_to_end : List ℕ → ℕ → Result (List ℕ)
slice_to_end xs n = if ltb (length xs) n then panic else slice xs 0 (length xs - n)

-- `xs[len(xs)-n:]`
unfoldable pub slice_from_end : List ℕ → ℕ → Result (List ℕ)
slice_from_end xs n = if ltb (length xs) n then panic else slice xs (length xs - n) (length xs)

-- `xs[0]`
abbrev pub first_byte : List ℕ → Result ℕ
first_byte [] = panic
first_byte (x ∷ xs) = ok x

-- `xs[0] = x`
abbrev pub set_first : ℕ → List ℕ → Result (List ℕ)
set_first x [] = panic
set_first x (y ∷ ys) = ok (x ∷ ys)

-- `b ^ hp[i+1]` for each byte of the packet number; the second list is `hp` from index 1 on.
abbrev pub unmask : List ℕ → List ℕ → Result (List ℕ)
unmask [] hp = ok []
unmask (b ∷ bs) [] = panic
unmask (b ∷ bs) (h ∷ hp) = do rest ← unmask bs hp; ok (bit_xor b h ∷ rest)

-- The read of a slice of `n` bytes that must be filled.
abbrev pub filled : ℕ → Read → Result (List ℕ × Reader)
filled n d = elim d.failed [
  | some e ↦ err e
  | none ↦ if length d.got == n then ok (d.got, d.rest) else err short_read
]

abbrev pub check_kind : ℕ → List ℕ → Result (ℕ × List ℕ)
check_kind protected_byte version =
    if not (bit_and protected_byte 0xc0 == 0xc0)
    then err not_quic_long_header
    else if not (bit_and protected_byte 0x30 == 0)
    then err not_quic_initial
    else if not (be_value 0 version == 1)
    then err unsupported_version
    else ok (protected_byte, version)

-- The checks on the first five bytes.
unfoldable pub check_first_bytes : List ℕ → Result (ℕ × List ℕ)
check_first_bytes p =
    if ltb (length p) 7
    then err packet_too_short
    else do protected_byte ← first_byte p; version ← slice p 1 5; check_kind protected_byte version

module _ (max_slice : ℕ) where
  -- A token or a payload: a slice of the announced length is made and filled.
  unfoldable pub read_announced : Error → Reader → ℕ → Result (List ℕ × Reader)
  read_announced too_long r n =
      if ltb (length (content r)) n
      then err too_long
      else if ltb max_slice n
      then panic
      else filled n (read r n)

  unfoldable pub read_payload : Reader → Result (List ℕ × Reader)
  read_payload r = do
    ((packet_len, n), r') ← read_next_vli r
    if ltb packet_len 20
        then err payload_too_short
        else read_announced payload_too_long r' packet_len

  -- The token and the payload, each behind its length.
  unfoldable pub read_token_and_payload : Reader → Result (ℕ × List ℕ × Reader)
  read_token_and_payload r = do
    ((token_len, n), r₁) ← read_next_vli r
    (token, r₂) ← read_announced token_too_long r₁ token_len
    (payload, r₃) ← read_payload r₂
    ok (token_len, payload, r₃)

-- The parts of a packet that are read before anything is decrypted.
pub record Parts : Type 0 where
  pub protected_byte : ℕ
  pub version : List ℕ
  pub initial_random : List ℕ
  pub scid_length : ℕ
  pub has_token : Bool
  pub payload : List ℕ
  -- `r.Len()` at the end
  pub left : ℕ

module _ (B : Cryptobyte) where
  -- The connection ids: the first one, the length of the second, and the bytes behind.
  unfoldable pub read_connection_ids : List ℕ → Result (List ℕ × ℕ × List ℕ)
  read_connection_ids p = do
    (initial_random, s₁) ← some_or bad_dcid (B.read_uint8_length_prefixed p)
    (scid_length, s₂) ← some_or bad_scid (B.read_uint8 s₁)
    s₃ ← some_or bad_scid (B.skip scid_length s₂)
    ok (initial_random, scid_length, s₃)

  module _ (max_slice : ℕ) where
    unfoldable pub read_parts : List ℕ → Result Parts
    read_parts p = do
      (protected_byte, version) ← check_first_bytes p
      rest ← slice p 5 (length p)
      (initial_random, scid_length, s) ← read_connection_ids rest
      (token_len, payload, r) ← read_token_and_payload max_slice (bytes_reader s)
      ok record {
        protected_byte = protected_byte;
        version = version;
        initial_random = initial_random;
        scid_length = scid_length;
        has_token = ltb 0 token_len;
        payload = payload;
        left = length (content r);
      }

-- The length of the packet number, its bytes, and the unprotected header.
unfoldable pub unprotect : List ℕ → Parts → List ℕ → Result (ℕ × List ℕ × List ℕ)
unprotect p parts hp = do
  to_payload ← slice_to_end p parts.left
  before ← slice_to_end to_payload (length parts.payload)
  hp_byte ← first_byte hp
  let header_byte = bit_xor parts.protected_byte (bit_and hp_byte 0x0f)
  recdata ← set_first header_byte before
  let number_length = bit_and header_byte 0x03 + 1
  number_bytes ← slice parts.payload 0 number_length
  packet_number ← unmask number_bytes (drop 1 hp)
  ok (number_length, packet_number, recdata ++ packet_number)

-- The encrypted data and the authentication tag.
unfoldable pub split_payload : List ℕ → ℕ → Result (List ℕ × List ℕ)
split_payload payload number_length = do
  sealed ← slice_to_end payload 16
  cipher_payload ← slice sealed number_length (length sealed)
  auth_tag ← slice_from_end payload 16
  ok (cipher_payload, auth_tag)

module _ (B : Cryptobyte) (K : Ciphers) where
  -- Header protection is removed, and the payload is decrypted.
  unfoldable pub open_parts : List ℕ → Parts → Result (QuicHeader × List ℕ)
  open_parts p parts = do
    (client_key, client_iv, client_hp_key) ← client_initial_keys_calc B K parts.initial_random
    sample ← slice parts.payload 4 20
    hp ← compute_header_protection K client_hp_key sample
    (number_length, packet_number, recdata) ← unprotect p parts hp
    (cipher_payload, auth_tag) ← split_payload parts.payload number_length
    plain_payload ←
        decrypt_aes128_gcm K client_iv (be_value 0 packet_number) client_key cipher_payload recdata
          auth_tag
    ok (
      record {
        version = parts.version;
        dcid_length = length parts.initial_random;
        scid_length = parts.scid_length;
        packet_number = packet_number;
        initial_packet_number_length = number_length;
        initial_packet_number = be_value 0 packet_number;
        has_token = parts.has_token;
      },
      plain_payload,
    )

  module _ (max_slice : ℕ) where
    -- Everything before the frames.
    unfoldable pub open_packet : List ℕ → Result (QuicHeader × List ℕ)
    open_packet p = read_parts B max_slice p >>= open_parts p

    unfoldable pub decode_quic_header_and_frames : List ℕ → Result (QuicHeader × List Frame)
    decode_quic_header_and_frames p = do
      (hdr, plain_payload) ← open_packet p
      frames ← read_all_frames max_slice (bytes_buffer plain_payload)
      ok (hdr, frames)

    -- Without the struct that is returned beside an error, of which only `raw` is set.
    unfoldable pub unmarshal_quic_client_initial_packet : List ℕ → Result ClientInitial
    unmarshal_quic_client_initial_packet p = do
      (hdr, frames) ← decode_quic_header_and_frames p
      ok record { header = hdr; frame_types = frame_types frames; frames = frames; raw = p }

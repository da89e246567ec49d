-- ===== src/Tests/Packets.antt =====
-- The packet decoder of quic_common.go on concrete datagrams, with a cipher that adds sixteen zeros.
use clienthellod.Common.{
  ◌↔◌, ℕ, ◌-◌, ◌%◌, ◌≡◌, ◌≢◌, ◌<◌, refl, ap, arith, none, some, List, [], ◌∷◌, ◌++◌, All,
  All-append, subst, map, length, take, length-append, take-length_append,
}
use clienthellod.Outcome.{ok, panic, stuck}
use clienthellod.Reader.{bytes_buffer, fill}
use clienthellod.Vli.Laws.{IsByte}
use clienthellod.Hash.{be_bytes}
use clienthellod.Frame.{Frame, ping, crypto, padding, read_all_frames}
use clienthellod.Frame.RoundTrip.{encode_frames}
use clienthellod.Gather.{QuicHeader}
use clienthellod.Cryptobyte.{plain_cryptobyte, plain_cryptobyte-IsDocumented}
use clienthellod.QuicCrypto.{
  Ciphers, ActsOnBytes, client_initial_keys_calc, hkdf_expand_label, hkdf_label, build_iv,
}
use clienthellod.QuicCrypto.Nonce.{xor_bytes, build_iv-xor_bytes}
use clienthellod.Packet.{open_packet, decode_quic_header_and_frames}
use clienthellod.Packet.Open.{IsOpened, decode_quic_header_and_frames_safe}
use clienthellod.Packet.Fields.{Initial, IsInitial}
use clienthellod.Packet.Seal.{Seals, header_of_initial, protect}
use clienthellod.Packet.RoundTrip.{decode_quic_header_and_frames-protect}

abbrev low_bytes : List ℕ → List ℕ
low_bytes bs = map (λ b. b % 256) bs

low_bytes-IsByte : (bs : List ℕ) → All IsByte (low_bytes bs)
low_bytes-IsByte [] = tt
low_bytes-IsByte (b ∷ bs) = (omega arith, low_bytes-IsByte bs)

low_bytes-eq : (bs : List ℕ) → All IsByte bs → low_bytes bs ≡ bs
low_bytes-eq [] h = refl
low_bytes-eq (b ∷ bs) h =
    let small : b % 256 ≡ b = (let hb = h.0 in omega arith) in rw (small, low_bytes-eq bs h.1) refl

abbrev zero_cipher : Ciphers
zero_cipher = record {
  extract = λ secret salt. secret ++ salt;
  expand = λ key info n. (fill n (9 ∷ info), none);
  key_error = λ key. none;
  gcm_error = λ key. none;
  encrypt_block = λ key block. low_bytes block;
  open_gcm = λ key nonce sealed additional. some (low_bytes (take (length sealed - 16) sealed));
}

abbrev zero_seal : List ℕ → List ℕ → List ℕ → List ℕ → List ℕ
zero_seal key nonce plain additional = plain ++ fill 16 []

zero_cipher-ActsOnBytes : ActsOnBytes zero_cipher
zero_cipher-ActsOnBytes = record {
  encrypt_block-IsByte = λ key block. low_bytes-IsByte block;
  open_gcm-IsByte = λ key nonce sealed additional plain e.
      let q : low_bytes (take (length sealed - 16) sealed) ≡ plain = cc in
      subst (All IsByte) q (low_bytes-IsByte (take (length sealed - 16) sealed));
}

opened_zeros :
    (plain : List ℕ)
    → All IsByte plain
    → low_bytes (take (length (plain ++ fill 16 []) - 16) (plain ++ fill 16 [])) ≡ plain
opened_zeros plain h =
    let size : length (plain ++ fill 16 []) - 16 ≡ length plain =
      omega (arith, length-append plain (fill 16 [])) in
    rw (size, take-length_append plain (fill 16 [])) (low_bytes-eq plain h)

zero_cipher-Seals : Seals zero_cipher zero_seal
zero_cipher-Seals = record {
  key_error-none = λ key h. refl;
  gcm_error-none = λ key h. refl;
  encrypt_block-IsByte = λ key block. low_bytes-IsByte block;
  open_gcm-seal = λ key nonce plain additional h. ap some (opened_zeros plain h);
  length-seal = λ key nonce plain additional. length-append plain (fill 16 []);
  seal-IsByte =
      λ key nonce plain additional h. All-append IsByte plain (fill 16 []) h (omega arith);
}

abbrev frames : List Frame
frames = ping ∷ crypto 0 3 (1 ∷ 2 ∷ 3 ∷ []) ∷ padding 2 ∷ []

-- A packet with number 2, in four bytes.
abbrev packet : Initial
packet = record {
  low_bits = 3;
  dcid = 8 ∷ 7 ∷ [];
  scid = [];
  token = [];
  number = 0 ∷ 0 ∷ 0 ∷ 2 ∷ [];
  plain = encode_frames frames;
}

packet-IsInitial : IsInitial 1500 packet
packet-IsInitial = record {
  low_bits_lt = omega arith;
  dcid_lt = omega arith;
  scid_lt = omega arith;
  number_length = refl;
  token_fits = omega arith;
  token_lt = omega arith;
  payload_fits = omega arith;
  payload_lt = omega arith;
  sample_fits = omega arith;
  dcid-IsByte = omega arith;
  scid-IsByte = tt;
  token-IsByte = tt;
  number-IsByte = omega arith;
  plain-IsByte = omega arith;
}

abbrev key : List ℕ
key = fill 16 (
    9 ∷ 0 ∷ 16 ∷ 14 ∷ b't' ∷ b'l' ∷ b's' ∷ b'1' ∷ b'3' ∷ b' ' ∷ b'q' ∷ b'u' ∷ b'i' ∷ b'c' ∷ b' '
    ∷ b'k' ∷ [])

abbrev iv : List ℕ
iv = fill 12 (9 ∷ 0 ∷ 12 ∷ 13 ∷ b't' ∷ b'l' ∷ b's' ∷ b'1' ∷ b'3' ∷ b' ' ∷ b'q' ∷ b'u' ∷ [])

abbrev hp : List ℕ
hp = fill 16 (
    9 ∷ 0 ∷ 16 ∷ 13 ∷ b't' ∷ b'l' ∷ b's' ∷ b'1' ∷ b'3' ∷ b' ' ∷ b'q' ∷ b'u' ∷ b'i' ∷ b'c' ∷ b' '
    ∷ b'h' ∷ [])

keys : client_initial_keys_calc plain_cryptobyte zero_cipher (8 ∷ 7 ∷ []) ≡ ok (key, iv, hp)
unfolding client_initial_keys_calc hkdf_expand_label hkdf_label
keys = refl

decode_quic_header_and_frames-protect_example :
    decode_quic_header_and_frames plain_cryptobyte zero_cipher 1500
      (protect zero_cipher zero_seal key iv hp packet ++ 0 ∷ 0 ∷ [])
    ≡ ok (header_of_initial packet, frames)
decode_quic_header_and_frames-protect_example =
    decode_quic_header_and_frames-protect zero_cipher zero_seal zero_cipher-Seals plain_cryptobyte
      1500 key iv hp (0 ∷ 0 ∷ []) packet packet-IsInitial keys (omega arith) frames
      plain_cryptobyte-IsDocumented (omega arith)
      (tt, (λ p. p.0), (omega arith, (λ p. p.0), omega arith)) refl

-- The same datagram.
abbrev datagram : List ℕ
datagram = protect zero_cipher zero_seal key iv hp packet

datagram-IsByte : All IsByte datagram
datagram-IsByte = omega arith

decode_quic_header_and_frames_safe_example :
    (decode_quic_header_and_frames plain_cryptobyte zero_cipher 1500 datagram ≢ stuck)
    × ((decode_quic_header_and_frames plain_cryptobyte zero_cipher 1500 datagram ≡ panic) ↔ (
        (hdr : QuicHeader) × (plain : List ℕ) × (open_packet plain_cryptobyte zero_cipher 1500
            datagram
          ≡ ok (hdr, plain))
        × (read_all_frames 1500 (bytes_buffer plain) ≡ panic)))
    × ((hdr : QuicHeader) (read : List Frame)
        → decode_quic_header_and_frames plain_cryptobyte zero_cipher 1500 datagram ≡ ok (hdr, read)
        → IsOpened hdr)
decode_quic_header_and_frames_safe_example =
    decode_quic_header_and_frames_safe plain_cryptobyte zero_cipher zero_cipher-ActsOnBytes
      plain_cryptobyte-IsDocumented 1500 datagram datagram-IsByte (omega arith)

build_iv-xor_bytes_example :
    ((length iv ≡ 12) → build_iv iv 258 ≡ ok (xor_bytes iv (0 ∷ 0 ∷ 0 ∷ 0 ∷ be_bytes 8 258)))
    × (length iv < 12 → build_iv iv 258 ≡ panic)
build_iv-xor_bytes_example = build_iv-xor_bytes iv 258 (omega arith)

-- ===== src/Packet/Seal.antt =====
-- quic_common.go: protecting an Initial packet, and removing header protection.
use clienthellod.Common.{
  ℕ, zero, suc, ◌+◌, ◌-◌, ◌≤◌, ◌≡◌, refl, sym, ap, ◌∙◌, arith, Bool, bit_and, none, some, List, [],
  ◌∷◌, ◌++◌, append_assoc, All, ltb, length, take, drop, get_or,
}
use clienthellod.Common.Bits.{bit_xor-byte, bit_and_low_four}
use clienthellod.Outcome.{ok}
use clienthellod.Reader.{fill}
use clienthellod.Vli.Laws.{IsByte, big_endian}
use clienthellod.Hash.{be_bytes}
use clienthellod.Gather.{QuicHeader}
use clienthellod.QuicCrypto.{Ciphers}
use clienthellod.QuicCrypto.Nonce.{xor_bytes}
use clienthellod.Packet.{unprotect}
use clienthellod.Packet.Open.{IsMask, header_byte}
use clienthellod.Packet.Protect.{
  unmask-xor_bytes, length-xor_bytes, slice_to_end-append, slice-prefix,
}
use clienthellod.Packet.Fields.{Initial, header_bytes}

-- What is relied on of AES-128 and of GCM, which seals what `Open` opens, with a tag of 16 bytes.
pub record Seals (K : Ciphers) (seal : List ℕ → List ℕ → List ℕ → List ℕ → List ℕ) : Type 0 where
  pub key_error-none : (key : List ℕ) → length key ≡ 16 → K.key_error key ≡ none
  pub gcm_error-none : (key : List ℕ) → length key ≡ 16 → K.gcm_error key ≡ none
  pub encrypt_block-IsByte : (key block : List ℕ) → All IsByte (K.encrypt_block key block)
  pub open_gcm-seal :
      (key nonce plain additional : List ℕ)
      → All IsByte plain
      → K.open_gcm key nonce (seal key nonce plain additional) additional ≡ some plain
  pub length-seal :
      (key nonce plain additional : List ℕ)
      → length (seal key nonce plain additional) ≡ length plain + 16
  pub seal-IsByte :
      (key nonce plain additional : List ℕ)
      → All IsByte plain
      → All IsByte (seal key nonce plain additional)

-- The header that is decoded.
abbrev pub header_of_initial : Initial → QuicHeader
header_of_initial i = record {
  version = 0 ∷ 0 ∷ 0 ∷ 1 ∷ [];
  dcid_length = length i.dcid;
  scid_length = length i.scid;
  packet_number = i.number;
  initial_packet_number_length = length i.number;
  initial_packet_number = big_endian 0 i.number;
  has_token = ltb 0 (length i.token);
}

drop_past : (n : ℕ) (xs s : List ℕ) → length xs ≤ n → drop n (xs ++ s) ≡ drop (n - length xs) s
drop_past zero [] s h = refl
drop_past zero (x ∷ xs) s h = absurd (omega arith)
drop_past (suc n) [] s h = let whole : suc n - 0 ≡ suc n = omega arith in rw whole refl
drop_past (suc n) (x ∷ xs) s h =
    let same : suc n - suc (length xs) ≡ n - length xs = omega arith in
    rw same (drop_past n xs s (omega arith))

-- The sample begins four bytes behind the start of the packet number, however long that is.
pub sample-xor_bytes :
    (number m sealed : List ℕ)
    → length number ≤ 4
    → drop 4 (xor_bytes number m ++ sealed) ≡ drop 4 (number ++ sealed)
sample-xor_bytes number m sealed h =
    drop_past 4 (xor_bytes number m) sealed (omega (arith, length-xor_bytes number m))
    ∙ ap (λ k. drop (4 - k) sealed) (length-xor_bytes number m)
    ∙ sym (drop_past 4 number sealed h)

module _ (K : Ciphers) (seal : List ℕ → List ℕ → List ℕ → List ℕ → List ℕ) where
  -- RFC 9001, section 5.3: the IV and the packet number, combined.
  abbrev pub nonce : List ℕ → Initial → List ℕ
  nonce iv i = xor_bytes iv (0 ∷ 0 ∷ 0 ∷ 0 ∷ be_bytes 8 (big_endian 0 i.number))

  -- The unprotected header and packet number, which are authenticated.
  abbrev pub additional : Initial → List ℕ
  additional i = header_bytes i (192 + i.low_bits) ++ i.number

  abbrev pub sealed_part : List ℕ → List ℕ → Initial → List ℕ
  sealed_part key iv i = seal key (nonce iv i) i.plain (additional i)

  -- RFC 9001, section 5.4: five bytes of the mask.
  abbrev pub mask : List ℕ → List ℕ → List ℕ → Initial → List ℕ
  mask key iv hp i =
      take 5 (fill 16 (K.encrypt_block hp (take 16 (drop 4 (i.number ++ sealed_part key iv i)))))

  abbrev pub payload_part : List ℕ → List ℕ → List ℕ → Initial → List ℕ
  payload_part key iv hp i = xor_bytes i.number (drop 1 (mask key iv hp i)) ++ sealed_part key iv i

  -- The protected packet.
  abbrev pub protect : List ℕ → List ℕ → List ℕ → Initial → List ℕ
  protect key iv hp i =
      header_bytes i (header_byte (192 + i.low_bits) (get_or (mask key iv hp i) 0 0))
      ++ payload_part key iv hp i

-- Masking the low bits of the first byte twice.
pub header_byte_twice : (b m : ℕ) → IsByte b → IsByte m → header_byte (header_byte b m) m ≡ b
header_byte_twice b m hb hm =
    let low = bit_and_low_four m hm in (bit_xor-byte b (bit_and m 0x0f) hb (omega arith)).0

module _ (i : Initial) (b : ℕ) (sealed trailing : List ℕ) (hb : IsByte b)
    (size : length i.number ≡ bit_and b 0x03 + 1) (small : length i.number ≤ 4)
    (bytes : All IsByte i.number) where
  pub unprotect-header_bytes :
      (hp : List ℕ) (version random : List ℕ) (scid_length : ℕ) (has_token : Bool)
      → IsMask hp
      → unprotect
          (header_bytes i (header_byte b (get_or hp 0 0))
            ++ ((xor_bytes i.number (drop 1 hp) ++ sealed) ++ trailing))
          record {
            protected_byte = header_byte b (get_or hp 0 0);
            version = version;
            initial_random = random;
            scid_length = scid_length;
            has_token = has_token;
            payload = xor_bytes i.number (drop 1 hp) ++ sealed;
            left = length trailing;
          }
          hp
        ≡ ok (length i.number, i.number, header_bytes i b ++ i.number)
  unfolding unprotect
  unprotect-header_bytes [] version random scid_length has_token (e, h) = absurd (omega arith)
  unprotect-header_bytes (m ∷ ms) version random scid_length has_token (e, h) =
      let masked = xor_bytes i.number ms in
      let header = header_bytes i (header_byte b m) in
      rw
        (
          sym (append_assoc header (masked ++ sealed) trailing),
          slice_to_end-append (header ++ (masked ++ sealed)) trailing,
          slice_to_end-append header (masked ++ sealed),
          header_byte_twice b m hb h.0,
          sym size,
          sym (length-xor_bytes i.number ms),
          slice-prefix masked sealed,
          unmask-xor_bytes i.number ms bytes h.1 (omega arith),
        )
        refl

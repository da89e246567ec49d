-- ===== src/Packet/RoundTrip.antt =====
-- quic_common.go: the packet decoder on a protected Initial packet.
use clienthellod.Common.{
  ℕ, ◌+◌, ◌-◌, ◌≤◌, ◌≡◌, refl, sym, ap, ap₂, ◌∙◌, arith, false, not, ◌||◌, bit_and, List, [], ◌∷◌,
  ◌++◌, append_assoc, All, All-append, All-drop, ltb, ◌==◌, length, take, drop, get_or,
  length-append, length-take, length-drop, take-append-drop,
}
use clienthellod.Common.Bits.{bit_xor-low_half, bit_and_low_two, bit_and_low_four}
use clienthellod.Outcome.{ok}
use clienthellod.Reader.{fill}
use clienthellod.Vli.Laws.{IsByte, big_endian, fill-IsByte, length-fill, head-IsByte}
use clienthellod.Frame.{Frame}
use clienthellod.Frame.RoundTrip.{IsPayload, encode_frames}
use clienthellod.Frame.Payload.{read_all_frames-encode}
use clienthellod.Hash.{be_bytes}
use clienthellod.Cryptobyte.{Cryptobyte, IsDocumented}
use clienthellod.QuicCrypto.{
  Ciphers, client_initial_keys_calc, compute_header_protection, decrypt_with_nonce,
  decrypt_aes128_gcm,
}
use clienthellod.Outcome.Ensures.{ok-Ensures}
use clienthellod.QuicCrypto.Keys.{AreKeyLengths, client_initial_keys_calc-Ensures}
use clienthellod.QuicCrypto.Nonce.{xor_bytes, build_iv-xor_bytes}
use clienthellod.Packet.{
  Parts, open_parts, open_packet, decode_quic_header_and_frames, slice, split_payload,
}
use clienthellod.Packet.Laws.{slice-ok, All-take}
use clienthellod.Packet.Open.{IsMask, header_byte, be_value_short}
use clienthellod.Packet.Protect.{length-xor_bytes, xor_bytes-IsByte, split_payload-append}
use clienthellod.Packet.Seal.{
  Seals, header_of_initial, mask, nonce, additional, sealed_part, payload_part, protect,
  sample-xor_bytes, unprotect-header_bytes,
}
use clienthellod.Packet.Fields.{
  Initial, IsInitial, header_bytes, payload_length, read_parts-header_bytes,
}

module _ (K : Ciphers) (seal : List ℕ → List ℕ → List ℕ → List ℕ → List ℕ)
    (seals : Seals K seal) where
  compute_header_protection-ok :
      (hp sample : List ℕ)
      → length hp ≡ 16
      → length sample ≡ 16
      → compute_header_protection K hp sample ≡ ok (take 5 (fill 16 (K.encrypt_block hp sample)))
  unfolding compute_header_protection
  compute_header_protection-ok hp sample k s =
      let valid : (not (length hp == 16) || not (length sample == 16)) ≡ false = ground arith in
      rw (valid, seals.key_error-none hp k) refl

  decrypt_with_nonce-seal :
      (iv key cipher additional tag plain : List ℕ)
      → length iv ≡ 12
      → length key ≡ 16
      → length tag ≡ 16
      → All IsByte plain
      → cipher ++ tag ≡ seal key iv plain additional
      → decrypt_with_nonce K iv key cipher additional tag ≡ ok plain
  unfolding decrypt_with_nonce
  decrypt_with_nonce-seal iv key cipher additional tag plain v k t pb e =
      let valid : (not (length iv == 12) || (not (length key == 16) || not (length tag == 16)))
          ≡ false =
        ground arith in
      rw
        (
          valid,
          seals.key_error-none key k,
          seals.gcm_error-none key k,
          e,
          seals.open_gcm-seal key iv plain additional pb,
        )
        refl

  decrypt_aes128_gcm-seal :
      (iv key cipher additional tag plain : List ℕ) (number : ℕ)
      → length iv ≡ 12
      → All IsByte iv
      → length key ≡ 16
      → length tag ≡ 16
      → All IsByte plain
      → cipher ++ tag ≡ seal key (xor_bytes iv (0 ∷ 0 ∷ 0 ∷ 0 ∷ be_bytes 8 number)) plain additional
      → decrypt_aes128_gcm K iv number key cipher additional tag ≡ ok plain
  unfolding decrypt_aes128_gcm
  decrypt_aes128_gcm-seal iv key cipher additional tag plain number v h k t pb e =
      let combined = xor_bytes iv (0 ∷ 0 ∷ 0 ∷ 0 ∷ be_bytes 8 number) in
      rw ((build_iv-xor_bytes iv number h).0 v) (
        decrypt_with_nonce-seal combined key cipher additional tag plain
          (length-xor_bytes iv (0 ∷ 0 ∷ 0 ∷ 0 ∷ be_bytes 8 number) ∙ v) k t pb e)

  mask-IsMask : (key iv hp : List ℕ) (i : Initial) → IsMask (mask K seal key iv hp i)
  mask-IsMask key iv hp i =
      let sample = take 16 (drop 4 (i.number ++ sealed_part K seal key iv i)) in
      let block = fill 16 (K.encrypt_block hp sample) in
      (
        omega (arith, length-take 5 block, length-fill 16 (K.encrypt_block hp sample)),
        All-take 5 block
            (fill-IsByte 16 (K.encrypt_block hp sample) (seals.encrypt_block-IsByte hp sample)),
      )

  -- The parts of the protected packet.
  abbrev protected_parts : List ℕ → List ℕ → List ℕ → Initial → List ℕ → Parts
  protected_parts key iv hp i trailing = record {
    protected_byte = header_byte (192 + i.low_bits) (get_or (mask K seal key iv hp i) 0 0);
    version = 0 ∷ 0 ∷ 0 ∷ 1 ∷ [];
    initial_random = i.dcid;
    scid_length = length i.scid;
    has_token = ltb 0 (length i.token);
    payload = payload_part K seal key iv hp i;
    left = length trailing;
  }

  module _ (B : Cryptobyte) (max_slice : ℕ) (key iv hp trailing : List ℕ) (i : Initial)
      (known : IsInitial max_slice i)
      (keys : client_initial_keys_calc B K i.dcid ≡ ok (key, iv, hp))
      (iv_bytes : All IsByte iv) where
    number_size : (length i.number ≡ bit_and (192 + i.low_bits) 0x03 + 1) × (length i.number ≤ 4)
    number_size =
        let low = known.low_bits_lt in
        let two = bit_and_low_two (192 + i.low_bits) (omega arith) in
        let size = known.number_length in (omega arith, omega arith)

    payload_size : length (payload_part K seal key iv hp i) ≡ payload_length i
    payload_size = omega (
      arith,
      length-append (xor_bytes i.number (drop 1 (mask K seal key iv hp i)))
          (sealed_part K seal key iv i),
      length-xor_bytes i.number (drop 1 (mask K seal key iv hp i)),
      seals.length-seal key (nonce K seal iv i) i.plain (additional K seal i),
    )

    open_parts-protect :
        open_parts B K
          (header_bytes i (header_byte (192 + i.low_bits) (get_or (mask K seal key iv hp i) 0 0))
            ++ (payload_part K seal key iv hp i ++ trailing))
          (protected_parts key iv hp i trailing)
        ≡ ok (header_of_initial i, i.plain)
    unfolding open_parts
    open_parts-protect =
        let (k₁, k₂, k₃) =
          ok-Ensures AreKeyLengths (client_initial_keys_calc-Ensures B K i.dcid) keys in
        let sealed = sealed_part K seal key iv i in
        let m = mask K seal key iv hp i in
        let masked = xor_bytes i.number (drop 1 m) in
        let sample = take 16 (drop 4 (i.number ++ sealed)) in
        let cut = length sealed - 16 in
        let (n, short) = number_size in
        let tag_size : length (drop cut sealed) ≡ 16 = omega (
          arith,
          length-drop cut sealed,
          seals.length-seal key (nonce K seal iv i) i.plain (additional K seal i),
        ) in
        let enough : 4 ≤ length i.number + length i.plain = known.sample_fits in
        let sample_size : length sample ≡ 16 = omega (
          arith,
          length-take 16 (drop 4 (i.number ++ sealed)),
          length-drop 4 (i.number ++ sealed),
          length-append i.number sealed,
          seals.length-seal key (nonce K seal iv i) i.plain (additional K seal i),
        ) in
        let drawn : slice (masked ++ sealed) 4 20 ≡ ok sample =
          slice-ok (masked ++ sealed) 4 20 (omega arith) (omega (arith, payload_size))
          ∙ ap (λ s. ok (take 16 s)) (sample-xor_bytes i.number (drop 1 m) sealed short) in
        let split : split_payload (masked ++ sealed) (length i.number)
            ≡ ok (take cut sealed, drop cut sealed) =
          ap₂ (λ s k. split_payload (masked ++ s) k) (sym (take-append-drop cut sealed))
            (sym (length-xor_bytes i.number (drop 1 m)))
          ∙ split_payload-append masked (take cut sealed) (drop cut sealed) tag_size in
        let low = known.low_bits_lt in
        rw
          (
            keys,
            drawn,
            compute_header_protection-ok hp sample k₃ sample_size,
            unprotect-header_bytes i (192 + i.low_bits) sealed trailing (omega arith) n short
                known.number-IsByte m (0 ∷ 0 ∷ 0 ∷ 1 ∷ []) i.dcid (length i.scid)
                (ltb 0 (length i.token)) (mask-IsMask key iv hp i),
            split,
            be_value_short i.number known.number-IsByte short,
            decrypt_aes128_gcm-seal iv key (take cut sealed) (additional K seal i) (drop cut sealed)
                i.plain (big_endian 0 i.number) k₂ iv_bytes k₁ tag_size known.plain-IsByte
                (take-append-drop cut sealed),
          )
          refl

    open_packet-protect :
        IsDocumented B
        → All IsByte trailing
        → open_packet B K max_slice (protect K seal key iv hp i ++ trailing)
          ≡ ok (header_of_initial i, i.plain)
    unfolding open_packet
    open_packet-protect documented trailing_bytes =
        let m = mask K seal key iv hp i in
        let b = header_byte (192 + i.low_bits) (get_or m 0 0) in
        let payload = payload_part K seal key iv hp i in
        let mask_bytes = (mask-IsMask key iv hp i).1 in
        let masked_bytes =
          xor_bytes-IsByte i.number (drop 1 m) known.number-IsByte
            (All-drop IsByte 1 m mask_bytes) in
        let sealed_bytes =
          seals.seal-IsByte key (nonce K seal iv i) i.plain (additional K seal i)
            known.plain-IsByte in
        let payload_bytes =
          All-append IsByte payload trailing
            (All-append IsByte (xor_bytes i.number (drop 1 m)) (sealed_part K seal key iv i)
              masked_bytes sealed_bytes)
            trailing_bytes in
        let low_four = bit_and_low_four (get_or m 0 0) (head-IsByte m mask_bytes) in
        let (top, kind) =
          bit_xor-low_half i.low_bits (bit_and (get_or m 0 0) 0x0f) known.low_bits_lt
            (omega arith) in
        rw
          (
            append_assoc (header_bytes i b) payload trailing,
            read_parts-header_bytes B documented max_slice i b payload trailing known payload_size
                payload_bytes top kind,
          )
          open_parts-protect

    -- An Initial packet that was protected as RFC 9001 prescribes, with the keys of its connection
    -- id, is decoded to its header fields and its frames, whatever bytes follow it in the datagram:
    -- ids shorter than 256 bytes, a packet number of the announced length, a token and a payload
    -- that fit in a slice and that a length field can announce, enough bytes for the sample, and
    -- frames that were written one after the other.
    pub decode_quic_header_and_frames-protect :
        (fs : List Frame)
        → IsDocumented B
        → All IsByte trailing
        → IsPayload max_slice fs
        → i.plain ≡ encode_frames fs
        → decode_quic_header_and_frames B K max_slice (protect K seal key iv hp i ++ trailing)
          ≡ ok (header_of_initial i, fs)
    unfolding decode_quic_header_and_frames
    decode_quic_header_and_frames-protect fs documented trailing_bytes valid e =
        rw
          (
            open_packet-protect documented trailing_bytes,
            e,
            read_all_frames-encode max_slice fs valid,
          )
          refl

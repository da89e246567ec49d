-- ===== src/Packet/Open.antt =====
-- quic_common.go: removing header protection, decrypting, and the whole packet decoder.
use clienthellod.Common.{
  ℕ, suc, ◌+◌, ◌-◌, ◌*◌, ◌%◌, ◌^◌, ◌≤◌, ◌<◌, ◌≡◌, ◌≢◌, ◌↔◌, inl, inr, refl, ap, ◌∙◌, subst, arith,
  false, not, ◌||◌, if-cases, bit_and, bit_xor, Option, none, some, List, [], ◌∷◌, ◌++◌, All,
  All-drop, ltb, ◌==◌, length, take, drop, length-take, length-drop,
}
use clienthellod.Common.Bits.{bit_xor-byte, bit_and_low_two, bit_and_low_four}
use clienthellod.Outcome.{Error, Result, ok, err, panic, stuck, ◌>>=◌, Result-cases, decrypt_failed}
use clienthellod.Outcome.Ensures.{Ensures, >>=-Ensures, some_or-Ensures}
use clienthellod.Reader.{bytes_buffer, fill}
use clienthellod.Vli.Laws.{
  IsByte, big_endian, big_endian-ge, big_endian-lt-grow, grow_mono, fill-IsByte, length-fill,
}
use clienthellod.Cryptobyte.{Cryptobyte, IsDocumented}
use clienthellod.Frame.{Frame, read_all_frames}
use clienthellod.Frame.Total.{read_all_frames-spec}
use clienthellod.Hash.{be_value}
use clienthellod.Gather.{QuicHeader}
use clienthellod.QuicCrypto.{
  Ciphers, ActsOnBytes, require, compute_header_protection, decrypt_with_nonce, decrypt_aes128_gcm,
  build_iv, build_iv_loop,
}
use clienthellod.QuicCrypto.Keys.{AreKeyLengths, client_initial_keys_calc-Ensures}
use clienthellod.Packet.{
  slice_to_end, slice_from_end, first_byte, set_first, unmask, unprotect, split_payload, Parts,
  open_parts, open_packet, decode_quic_header_and_frames,
}
use clienthellod.Packet.Laws.{slice-ok, AreParts, All-take, read_parts-Ensures}

-- The part without the last `n` bytes, and the last `n` bytes.
pub slice_to_end-ok :
    (xs : List ℕ) (n : ℕ) → n ≤ length xs → slice_to_end xs n ≡ ok (take (length xs - n) xs)
unfolding slice_to_end
slice_to_end-ok xs n h =
    let fits : ltb (length xs) n ≡ false = ground arith in
    let whole : length xs - n - 0 ≡ length xs - n = omega arith in
    rw fits
      (slice-ok xs 0 (length xs - n) (omega arith) (omega arith) ∙ ap (λ k. ok (take k xs)) whole)

pub slice_from_end-ok :
    (xs : List ℕ) (n : ℕ)
    → n ≤ length xs
    → slice_from_end xs n ≡ ok (take n (drop (length xs - n) xs))
unfolding slice_from_end
slice_from_end-ok xs n h =
    let fits : ltb (length xs) n ≡ false = ground arith in
    let size : length xs - (length xs - n) ≡ n = omega arith in
    rw fits (
      slice-ok xs (length xs - n) (length xs) (omega arith) (omega arith)
      ∙ ap (λ k. ok (take k (drop (length xs - n) xs))) size)

abbrev pub IsMask : List ℕ → Type 0
IsMask hp = (length hp ≡ 5) × All IsByte hp

unmask-Ensures :
    (bs hp : List ℕ)
    → All IsByte bs
    → All IsByte hp
    → length bs ≤ length hp
    → Ensures (λ xs. (length xs ≡ length bs) × All IsByte xs) (unmask bs hp)
unmask-Ensures [] hp h k fits = (refl, tt)
unmask-Ensures (b ∷ bs) [] h k fits = absurd (omega arith)
unmask-Ensures (b ∷ bs) (m ∷ hp) h k fits =
    >>=-Ensures (λ xs. (length xs ≡ length bs) × All IsByte xs) _ _ _
      (unmask-Ensures bs hp h.1 k.1 (omega arith))
      λ xs p. (ap suc p.0, ((bit_xor-byte b m h.0 k.0).1, p.1))

require_ends : (e : Option Error) → Ensures (λ u. Unit {0}) (require e)
require_ends none = tt
require_ends (some e) = tt

module _ (K : Ciphers) where
  pub compute_header_protection-Ensures :
      ActsOnBytes K
      → (key sample : List ℕ) → length key ≡ 16
      → length sample ≡ 16
      → Ensures IsMask (compute_header_protection K key sample)
  unfolding compute_header_protection
  compute_header_protection-Ensures acts key sample k s =
      let block = fill 16 (K.encrypt_block key sample) in
      let size : length (take 5 block) ≡ 5 =
        omega (arith, length-take 5 block, length-fill 16 (K.encrypt_block key sample)) in
      let bytes =
        All-take 5 block
          (fill-IsByte 16 (K.encrypt_block key sample) (acts.encrypt_block-IsByte key sample)) in
      let valid : (not (length key == 16) || not (length sample == 16)) ≡ false = ground arith in
      rw valid (
        >>=-Ensures (λ u. Unit {0}) IsMask (require (K.key_error key)) _
          (require_ends (K.key_error key)) (λ u t. (size, bytes)))

  decrypt_with_nonce-Ensures :
      ActsOnBytes K
      → (iv key ciphertext recdata authtag : List ℕ)
      → Ensures (All IsByte) (decrypt_with_nonce K iv key ciphertext recdata authtag)
  unfolding decrypt_with_nonce
  decrypt_with_nonce-Ensures acts iv key ciphertext recdata authtag =
      let sealed = ciphertext ++ authtag in
      if-cases (Ensures (All IsByte))
        (not (length iv == 12) || (not (length key == 16) || not (length authtag == 16)))
        (λ invalid. tt)
        λ valid.
          >>=-Ensures (λ u. Unit {0}) (All IsByte) (require (K.key_error key)) _
            (require_ends (K.key_error key))
            λ u t.
              >>=-Ensures (λ u. Unit {0}) (All IsByte) (require (K.gcm_error key)) _
                (require_ends (K.gcm_error key))
                λ u' t'.
                  some_or-Ensures (All IsByte) decrypt_failed (K.open_gcm key iv sealed recdata)
                    (acts.open_gcm-IsByte key iv sealed recdata)

  decrypt_aes128_gcm-Ensures :
      ActsOnBytes K
      → (iv : List ℕ) (number : ℕ) (key ciphertext recdata authtag : List ℕ) → length iv ≡ 12
      → Ensures (All IsByte) (decrypt_aes128_gcm K iv number key ciphertext recdata authtag)
  unfolding decrypt_aes128_gcm build_iv
  decrypt_aes128_gcm-Ensures acts iv number key ciphertext recdata authtag k =
      let long : ltb (length iv) 12 ≡ false = ground arith in
      rw long (
        decrypt_with_nonce-Ensures acts (build_iv_loop 8 0 number iv) key ciphertext recdata
          authtag)

first_byte-Ensures : (xs : List ℕ) → IsMask xs → Ensures IsByte (first_byte xs)
first_byte-Ensures [] (e, h) = absurd (omega arith)
first_byte-Ensures (x ∷ xs) (e, h) = h.0

set_first_ends : (x : ℕ) (xs : List ℕ) → 1 ≤ length xs → Ensures (λ ys. Unit {0}) (set_first x xs)
set_first_ends x [] h = absurd (omega arith)
set_first_ends x (y ∷ ys) h = tt

be_value-big_endian :
    (bs : List ℕ) (acc : ℕ) → big_endian acc bs < 2 ^ 64 → be_value acc bs ≡ big_endian acc bs
be_value-big_endian [] acc h = refl
be_value-big_endian (b ∷ bs) acc h =
    let whole : (acc * 256 + b) % 2 ^ 64 ≡ acc * 256 + b =
      omega (arith, big_endian-ge bs (acc * 256 + b)) in
    rw whole (be_value-big_endian bs (acc * 256 + b) h)

-- Up to four bytes do not overflow.
pub be_value_short : (bs : List ℕ) → All IsByte bs → length bs ≤ 4 → be_value 0 bs ≡ big_endian 0 bs
be_value_short bs h short =
    be_value-big_endian bs 0
      (omega (arith, big_endian-lt-grow bs 0 1 h (omega arith), grow_mono (length bs) 4 1 short))

-- The unprotected first byte.
abbrev pub header_byte : ℕ → ℕ → ℕ
header_byte b m = bit_xor b (bit_and m 0x0f)

-- The packet number takes one to four bytes.
number_length_bounds :
    (b m : ℕ)
    → IsByte b
    → IsByte m
    → 1 ≤ bit_and (header_byte b m) 0x03 + 1 × (bit_and (header_byte b m) 0x03 + 1 ≤ 4)
number_length_bounds b m hb hm =
    let low = bit_and_low_four m hm in
    let byte = (bit_xor-byte b (bit_and m 0x0f) hb (omega arith)).1 in
    let two = bit_and_low_two (header_byte b m) byte in (omega arith, omega arith)

-- The length of the packet number, its bytes, and the header in front of it.
abbrev IsUnprotected : ℕ × List ℕ × List ℕ → Type 0
IsUnprotected (n, number, recdata) = 1 ≤ n × n ≤ 4 × (length number ≡ n) × All IsByte number

unprotect-Ensures :
    (p : List ℕ) (parts : Parts) (hp : List ℕ)
    → AreParts p parts
    → IsMask hp
    → Ensures IsUnprotected (unprotect p parts hp)
unfolding unprotect
unprotect-Ensures p parts hp known mask =
    let (size, masks) = mask in
    let P = IsUnprotected in
    let payload = parts.payload in
    let to_payload = take (length p - parts.left) p in
    let fits : 5 + length payload + parts.left ≤ length p = known.header_fits in
    let long : 20 ≤ length payload = known.sample_fits in
    let to_size : length to_payload ≡ length p - parts.left =
      omega (arith, length-take (length p - parts.left) p) in
    let before_size : length (take (length to_payload - length payload) to_payload)
        ≡ length to_payload - length payload =
      omega (arith, length-take (length to_payload - length payload) to_payload) in
    rw
      (
        slice_to_end-ok p parts.left (omega arith),
        slice_to_end-ok to_payload (length payload) (omega arith),
      )
      (>>=-Ensures IsByte P _ _ (first_byte-Ensures hp mask) λ hp_byte hb.
        let first = header_byte parts.protected_byte hp_byte in
        let n = bit_and first 0x03 + 1 in
        let n_bounds =
          number_length_bounds parts.protected_byte hp_byte known.protected_byte-IsByte hb in
        >>=-Ensures (λ ys. Unit {0}) P _ _
          (set_first_ends first (take (length to_payload - length payload) to_payload)
            (omega arith))
          λ recdata t. rw (slice-ok payload 0 n (omega arith) (omega arith)) (
            >>=-Ensures (λ xs. (length xs ≡ length (take (n - 0) payload)) × All IsByte xs) P _ _
              (unmask-Ensures (take (n - 0) payload) (drop 1 hp)
                (All-take (n - 0) payload known.payload-IsByte) (All-drop IsByte 1 hp masks)
                (omega (arith, length-take (n - 0) payload, length-drop 1 hp)))
              λ number q.
                (n_bounds.0, n_bounds.1, omega (arith, q.0, length-take (n - 0) payload), q.1)))

split_payload-Ensures :
    (payload : List ℕ) (n : ℕ)
    → n ≤ 4
    → 20 ≤ length payload
    → Ensures (λ q. length q.1 ≡ 16) (split_payload payload n)
unfolding split_payload
split_payload-Ensures payload n small long =
    let sealed = take (length payload - 16) payload in
    let size = length-take (length payload - 16) payload in
    rw
      (
        slice_to_end-ok payload 16 (omega arith),
        slice-ok sealed n (length sealed) (omega arith) (omega arith),
        slice_from_end-ok payload 16 (omega arith),
      )
      (omega (
        arith,
        length-take 16 (drop (length payload - 16) payload),
        length-drop (length payload - 16) payload,
      ))

-- What is known of a packet whose protection was removed.
pub record IsOpened (hdr : QuicHeader) : Type 0 where
  pub version_lem : hdr.version ≡ 0 ∷ 0 ∷ 0 ∷ 1 ∷ []
  pub dcid_lt : hdr.dcid_length < 256
  pub scid_lt : hdr.scid_length < 256
  pub number_length_pos : 1 ≤ hdr.initial_packet_number_length
  pub number_length_le : hdr.initial_packet_number_length ≤ 4
  pub packet_number_length : length hdr.packet_number ≡ hdr.initial_packet_number_length
  pub packet_number-IsByte : All IsByte hdr.packet_number
  pub packet_number_value : hdr.initial_packet_number ≡ big_endian 0 hdr.packet_number

abbrev pub Opened : QuicHeader × List ℕ → Type 0
Opened (hdr, plain) = IsOpened hdr × All IsByte plain

module _ (B : Cryptobyte) (K : Ciphers) (acts : ActsOnBytes K) where
  open_parts-Ensures :
      (p : List ℕ) (parts : Parts) → AreParts p parts → Ensures Opened (open_parts B K p parts)
  unfolding open_parts
  open_parts-Ensures p parts known =
      let long : 20 ≤ length parts.payload = known.sample_fits in
      let sample = take (20 - 4) (drop 4 parts.payload) in
      >>=-Ensures AreKeyLengths Opened _ _
        (client_initial_keys_calc-Ensures B K parts.initial_random)
        λ (key, iv, hp_key) (k₁, k₂, k₃).
          rw (slice-ok parts.payload 4 20 (omega arith) (omega arith)) (
            >>=-Ensures IsMask Opened _ _
              (compute_header_protection-Ensures K acts hp_key sample k₃
                (omega (arith, length-take 16 (drop 4 parts.payload), length-drop 4 parts.payload)))
              λ hp mask.
                >>=-Ensures IsUnprotected Opened _ _ (unprotect-Ensures p parts hp known mask)
                  λ (n, number, recdata) (lo, hi, size, bytes).
                    >>=-Ensures (λ q. length q.1 ≡ 16) Opened _ _
                      (split_payload-Ensures parts.payload n hi long)
                      λ (cipher_payload, auth_tag) tag.
                        >>=-Ensures (All IsByte) Opened _ _
                          (decrypt_aes128_gcm-Ensures K acts iv (be_value 0 number) key
                            cipher_payload recdata auth_tag k₂)
                          λ plain plain_bytes. (
                            record {
                              version_lem = known.version_lem;
                              dcid_lt = known.random_lt;
                              scid_lt = known.scid_lt;
                              number_length_pos = lo;
                              number_length_le = hi;
                              packet_number_length = size;
                              packet_number-IsByte = bytes;
                              packet_number_value = be_value_short number bytes (omega arith);
                            },
                            plain_bytes,
                          ))

  module _ (documented : IsDocumented B) (max_slice : ℕ) where
    pub open_packet-Ensures :
        (p : List ℕ)
        → All IsByte p
        → length p ≤ max_slice
        → Ensures Opened (open_packet B K max_slice p)
    unfolding open_packet
    open_packet-Ensures p h small =
        >>=-Ensures (AreParts p) Opened _ _ (read_parts-Ensures B documented max_slice p h small)
          λ parts known. open_parts-Ensures p parts known

    -- The frames are read from the payload, if the packet was opened.
    read_frames : Result (QuicHeader × List ℕ) → Result (QuicHeader × List Frame)
    read_frames opened =
        opened >>= λ q. read_all_frames max_slice (bytes_buffer q.1) >>= λ frames. ok (q.0, frames)

    read_frames_safe :
        (opened : Result (QuicHeader × List ℕ))
        → Ensures Opened opened
        → (read_frames opened ≢ stuck)
          × (read_frames opened ≡ panic
              → (hdr : QuicHeader) × (plain : List ℕ) × (opened ≡ ok (hdr, plain))
                × (read_all_frames max_slice (bytes_buffer plain) ≡ panic))
          × ((hdr : QuicHeader) (frames : List Frame)
              → read_frames opened ≡ ok (hdr, frames)
              → IsOpened hdr)
    unfolding read_frames
    read_frames_safe (err e) h = (cc, λ q. cc, λ hdr frames q. cc)
    read_frames_safe panic h = absurd h
    read_frames_safe stuck h = absurd h
    read_frames_safe (ok (hdr, plain)) (known, bytes) =
        let total = (read_all_frames-spec max_slice plain bytes).1 in
        elim (Result-cases (read_all_frames max_slice (bytes_buffer plain))) [
          | inl (frames, q) ↦ rw q (cc, λ e. cc, λ hdr' frames' e. subst IsOpened (cc) known)
          | inr (inl (e, q)) ↦ rw q (cc, λ e. cc, λ hdr' frames' e. cc)
          | inr (inr (inl q)) ↦ rw q (cc, λ e. (hdr, plain, refl, q), λ hdr' frames' e. cc)
          | inr (inr (inr q)) ↦ absurd (total q)
        ]

    read_frames-panic :
        (opened : Result (QuicHeader × List ℕ)) (hdr : QuicHeader) (plain : List ℕ)
        → opened ≡ ok (hdr, plain)
        → read_all_frames max_slice (bytes_buffer plain) ≡ panic
        → read_frames opened ≡ panic
    unfolding read_frames
    read_frames-panic opened hdr plain o f = rw (o, f) refl

    -- A datagram that fits in a slice is decoded without a panic up to the frames, and the decoder
    -- always ends: it panics exactly if `ReadAllFrames` panics on the decrypted payload. A header
    -- that is returned has version 1, connection ids shorter than 256 bytes, and a packet number of
    -- one to four bytes that is their big-endian value. Block cipher and AEAD give bytes.
    pub decode_quic_header_and_frames_safe :
        (p : List ℕ)
        → All IsByte p
        → length p ≤ max_slice
        → (decode_quic_header_and_frames B K max_slice p ≢ stuck)
          × ((decode_quic_header_and_frames B K max_slice p ≡ panic) ↔ (
              (hdr : QuicHeader) × (plain : List ℕ) × (open_packet B K max_slice p
                ≡ ok (hdr, plain))
              × (read_all_frames max_slice (bytes_buffer plain) ≡ panic)))
          × ((hdr : QuicHeader) (frames : List Frame)
              → decode_quic_header_and_frames B K max_slice p ≡ ok (hdr, frames)
              → IsOpened hdr)
    unfolding decode_quic_header_and_frames read_frames
    decode_quic_header_and_frames_safe p h small =
        let opened = open_packet B K max_slice p in
        let (total, why, known) = read_frames_safe opened (open_packet-Ensures p h small) in
        (total, (why, λ (hdr, plain, o, f). read_frames-panic opened hdr plain o f), known)

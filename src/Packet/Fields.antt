-- ===== src/Packet/Fields.antt =====
-- quic_common.go: the fields of an Initial packet that was written before.
use clienthellod.Common.{
  ℕ, ◌+◌, ◌%◌, ◌^◌, ◌≤◌, ◌<◌, ◌≡◌, refl, sym, ap, ◌∙◌, arith, false, bit_and, List, [], ◌∷◌, ◌++◌,
  append_assoc, All, ltb, length, length-append,
}
use clienthellod.Outcome.{ok}
use clienthellod.Vli.Laws.{IsByte}
use clienthellod.Cryptobyte.{Cryptobyte, IsDocumented, split_at-append, drop_at-append}
use clienthellod.Packet.{check_kind, check_first_bytes, read_connection_ids, read_parts}
use clienthellod.Packet.Laws.{slice-ok}
use clienthellod.Packet.Protect.{token_part, read_token_and_payload-encode, slice-suffix}

-- The fields of an Initial packet: the four low bits of the first byte, the ids, the token, the
-- packet number and the payload.
pub record Initial : Type 0 where
  pub low_bits : ℕ
  pub dcid : List ℕ
  pub scid : List ℕ
  pub token : List ℕ
  pub number : List ℕ
  pub plain : List ℕ

-- The header in front of the packet number, for the first byte `b` and the payload's length `n`.
abbrev header_of : Initial → ℕ → ℕ → List ℕ
header_of i b n =
    b
    ∷ 0
    ∷ 0
    ∷ 0
    ∷ 1
    ∷ length i.dcid
    ∷ (i.dcid ++ (length i.scid ∷ (i.scid ++ token_part i.token n)))

-- The length field counts the packet number, the plaintext and the tag.
abbrev pub payload_length : Initial → ℕ
payload_length i = length i.number + length i.plain + 16

abbrev pub header_bytes : Initial → ℕ → List ℕ
header_bytes i b = header_of i b (payload_length i)

-- An Initial packet of the protocol, whose parts fit in a slice.
pub record IsInitial (max_slice : ℕ) (i : Initial) : Type 0 where
  pub low_bits_lt : i.low_bits < 16
  pub dcid_lt : length i.dcid < 256
  pub scid_lt : length i.scid < 256
  pub number_length : length i.number ≡ i.low_bits % 4 + 1
  pub token_fits : length i.token ≤ max_slice
  pub token_lt : length i.token < 2 ^ 62
  pub payload_fits : length i.number + length i.plain + 16 ≤ max_slice
  pub payload_lt : length i.number + length i.plain + 16 < 2 ^ 62
  pub sample_fits : 4 ≤ length i.number + length i.plain
  pub dcid-IsByte : All IsByte i.dcid
  pub scid-IsByte : All IsByte i.scid
  pub token-IsByte : All IsByte i.token
  pub number-IsByte : All IsByte i.number
  pub plain-IsByte : All IsByte i.plain

check_kind-protected :
    (b : ℕ)
    → bit_and b 0xc0 ≡ 0xc0
    → bit_and b 0x30 ≡ 0
    → check_kind b (0 ∷ 0 ∷ 0 ∷ 1 ∷ []) ≡ ok (b, 0 ∷ 0 ∷ 0 ∷ 1 ∷ [])
check_kind-protected b h k = rw (h, k) refl

check_first_bytes-version :
    (b : ℕ) (s : List ℕ)
    → 2 ≤ length s
    → bit_and b 0xc0 ≡ 0xc0
    → bit_and b 0x30 ≡ 0
    → check_first_bytes (b ∷ 0 ∷ 0 ∷ 0 ∷ 1 ∷ s) ≡ ok (b, 0 ∷ 0 ∷ 0 ∷ 1 ∷ [])
unfolding check_first_bytes
check_first_bytes-version b s h l k =
    let p = b ∷ 0 ∷ 0 ∷ 0 ∷ 1 ∷ s in
    let long : ltb (length p) 7 ≡ false = ground arith in
    rw (long, slice-ok p 1 5 (omega arith) (omega arith)) (check_kind-protected b l k)

ids_long :
    (dcid scid tail : List ℕ) → 2 ≤ length (length dcid ∷ (dcid ++ (length scid ∷ (scid ++ tail))))
ids_long dcid scid tail = omega (arith, length-append dcid (length scid ∷ (scid ++ tail)))

module _ (B : Cryptobyte) (documented : IsDocumented B) where
  read_connection_ids-append :
      (dcid scid rest : List ℕ)
      → read_connection_ids B (length dcid ∷ (dcid ++ (length scid ∷ (scid ++ rest))))
        ≡ ok (dcid, length scid, rest)
  unfolding read_connection_ids
  read_connection_ids-append dcid scid rest =
      rw
        (
          documented.read_uint8_length_prefixed-some (length dcid)
              (dcid ++ (length scid ∷ (scid ++ rest))),
          split_at-append dcid (length scid ∷ (scid ++ rest)),
          documented.read_uint8-some (length scid) (scid ++ rest),
          documented.skip_lem (length scid) (scid ++ rest),
          drop_at-append scid rest,
        )
        refl

  module _ (max_slice : ℕ) where
    read_parts-header_of :
        (i : Initial) (b : ℕ) (payload trailing : List ℕ)
        → IsInitial max_slice i
        → length payload ≡ payload_length i
        → All IsByte (payload ++ trailing)
        → bit_and b 0xc0 ≡ 0xc0
        → bit_and b 0x30 ≡ 0
        → read_parts B max_slice (header_of i b (length payload) ++ (payload ++ trailing))
          ≡ ok record {
            protected_byte = b;
            version = 0 ∷ 0 ∷ 0 ∷ 1 ∷ [];
            initial_random = i.dcid;
            scid_length = length i.scid;
            has_token = ltb 0 (length i.token);
            payload = payload;
            left = length trailing;
          }
    unfolding read_parts
    read_parts-header_of i b payload trailing known size bytes l k =
        let tail = token_part i.token (length payload) ++ (payload ++ trailing) in
        let ids = length i.dcid ∷ (i.dcid ++ (length i.scid ∷ (i.scid ++ tail))) in
        let (small, fits, enough) : (length i.number + length i.plain + 16 ≤ max_slice)
            × (length i.number + length i.plain + 16 < 2 ^ 62)
            × (4 ≤ length i.number + length i.plain) =
          (known.payload_fits, known.payload_lt, known.sample_fits) in
        rw
          (
            append_assoc i.dcid (length i.scid ∷ (i.scid ++ token_part i.token (length payload)))
                (payload ++ trailing),
            append_assoc i.scid (token_part i.token (length payload)) (payload ++ trailing),
            check_first_bytes-version b ids (ids_long i.dcid i.scid tail) l k,
            slice-suffix (b ∷ 0 ∷ 0 ∷ 0 ∷ 1 ∷ []) ids,
            read_connection_ids-append i.dcid i.scid tail,
            read_token_and_payload-encode max_slice i.token payload trailing known.token_lt
                known.token_fits (omega arith) (omega arith) (omega arith) known.token-IsByte bytes,
          )
          refl

    pub read_parts-header_bytes :
        (i : Initial) (b : ℕ) (payload trailing : List ℕ)
        → IsInitial max_slice i
        → length payload ≡ payload_length i
        → All IsByte (payload ++ trailing)
        → bit_and b 0xc0 ≡ 0xc0
        → bit_and b 0x30 ≡ 0
        → read_parts B max_slice (header_bytes i b ++ (payload ++ trailing))
          ≡ ok record {
            protected_byte = b;
            version = 0 ∷ 0 ∷ 0 ∷ 1 ∷ [];
            initial_random = i.dcid;
            scid_length = length i.scid;
            has_token = ltb 0 (length i.token);
            payload = payload;
            left = length trailing;
          }
    read_parts-header_bytes i b payload trailing known size bytes l k =
        ap (λ n. read_parts B max_slice (header_of i b n ++ (payload ++ trailing))) (sym size)
        ∙ read_parts-header_of i b payload trailing known size bytes l k

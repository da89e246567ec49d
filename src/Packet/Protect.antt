-- ===== src/Packet/Protect.antt =====
-- quic_common.go: a writer of Initial packets by RFC 9000 (section 17.2.2) and RFC 9001 (section 5),
-- and the decoder's parts of such a packet.
use clienthellod.Common.{
  ℕ, suc, ◌-◌, ◌^◌, ◌≤◌, ◌<◌, ◌≡◌, refl, sym, ap, ap₂, ◌∙◌, arith, true, false, List, [], ◌∷◌, ◌++◌,
  append_assoc, All, All-append, ltb, ◌==◌, length, take, length-append, take-length_append,
  take-length, drop-length_append,
}
use clienthellod.Common.Bits.{bit_xor-byte}
use clienthellod.Outcome.{Error, ok, token_too_long}
use clienthellod.Reader.{bytes_reader, read}
use clienthellod.Vli.{read_next_vli}
use clienthellod.Vli.Laws.{IsByte}
use clienthellod.Vli.RoundTrip.{encode_vli, encode_vli-IsByte, spec_vli-encode}
use clienthellod.Vli.Plain.{as_reader, read_next_vli-as_reader}
use clienthellod.QuicCrypto.Nonce.{xor_bytes}
use clienthellod.Packet.{
  slice, slice_to_end, slice_from_end, unmask, filled, read_announced, read_payload,
  read_token_and_payload, split_payload,
}
use clienthellod.Packet.Laws.{slice-ok}
use clienthellod.Packet.Open.{slice_to_end-ok}

read_vli-encode :
    (v : ℕ) (rest : List ℕ)
    → v < 2 ^ 62
    → All IsByte rest
    → read_next_vli (bytes_reader (encode_vli v ++ rest))
      ≡ ok ((v, length (encode_vli v)), bytes_reader rest)
read_vli-encode v rest h k =
    read_next_vli-as_reader (encode_vli v ++ rest)
      (All-append IsByte (encode_vli v) rest (encode_vli-IsByte v h) k)
    ∙ ap as_reader (spec_vli-encode v rest h)

-- The token with its length, and the length of the payload.
abbrev pub token_part : List ℕ → ℕ → List ℕ
token_part token n = encode_vli (length token) ++ (token ++ encode_vli n)

-- The read of a part that is there, unless nothing is left at all.
read_bytes :
    (bs s : List ℕ)
    → 1 ≤ length (bs ++ s)
    → filled (length bs) (read (bytes_reader (bs ++ s)) (length bs)) ≡ ok (bs, bytes_reader s)
unfolding read
read_bytes [] [] h = absurd (omega arith)
read_bytes [] (b ∷ s) h = refl
read_bytes (b ∷ bs) s h =
    let same : (length (b ∷ bs) == length (b ∷ bs)) ≡ true = ground arith in
    rw (take-length_append bs s, drop-length_append bs s, same) refl

module _ (max_slice : ℕ) where
  read_announced-append :
      (e : Error) (bs s : List ℕ)
      → 1 ≤ length (bs ++ s)
      → length bs ≤ max_slice
      → read_announced max_slice e (bytes_reader (bs ++ s)) (length bs) ≡ ok (bs, bytes_reader s)
  unfolding read_announced
  read_announced-append e bs s h small =
      let there : ltb (length (bs ++ s)) (length bs) ≡ false =
        (let size = length-append bs s in ground arith) in
      let made : ltb max_slice (length bs) ≡ false = ground arith in
      rw (there, made) (read_bytes bs s h)

  read_payload-encode :
      (payload rest : List ℕ)
      → 20 ≤ length payload
      → length payload < 2 ^ 62
      → length payload ≤ max_slice
      → All IsByte (payload ++ rest)
      → read_payload max_slice (bytes_reader (encode_vli (length payload) ++ (payload ++ rest)))
        ≡ ok (payload, bytes_reader rest)
  unfolding read_payload
  read_payload-encode payload rest long fits small h =
      let enough : ltb (length payload) 20 ≡ false = ground arith in
      rw (read_vli-encode (length payload) (payload ++ rest) fits h, enough)
        (read_announced-append _ payload rest (omega (arith, length-append payload rest)) small)

  pub read_token_and_payload-encode :
      (token payload rest : List ℕ)
      → length token < 2 ^ 62
      → length token ≤ max_slice
      → 20 ≤ length payload
      → length payload < 2 ^ 62
      → length payload ≤ max_slice
      → All IsByte token
      → All IsByte (payload ++ rest)
      → read_token_and_payload max_slice
          (bytes_reader (token_part token (length payload) ++ (payload ++ rest)))
        ≡ ok (length token, payload, bytes_reader rest)
  unfolding read_token_and_payload
  read_token_and_payload-encode token payload rest lt small long fits small' ht hp =
      let len = encode_vli (length payload) in
      let rest_bytes =
        All-append IsByte len (payload ++ rest) (encode_vli-IsByte (length payload) fits) hp in
      let there : 1 ≤ length (token ++ (len ++ (payload ++ rest))) = omega (
        arith,
        length-append token (len ++ (payload ++ rest)),
        length-append len (payload ++ rest),
        length-append payload rest,
      ) in
      rw
        (
          append_assoc (encode_vli (length token)) (token ++ len) (payload ++ rest),
          append_assoc token len (payload ++ rest),
          read_vli-encode (length token) (token ++ (len ++ (payload ++ rest))) lt
              (All-append IsByte token (len ++ (payload ++ rest)) ht rest_bytes),
          read_announced-append token_too_long token (len ++ (payload ++ rest)) there small,
          read_payload-encode payload rest long fits small' hp,
        )
        refl

-- `unmask` undoes the mask.
pub unmask-xor_bytes :
    (bs hp : List ℕ)
    → All IsByte bs
    → All IsByte hp
    → length bs ≤ length hp
    → unmask (xor_bytes bs hp) hp ≡ ok bs
unmask-xor_bytes [] hp h k fits = refl
unmask-xor_bytes (b ∷ bs) [] h k fits = absurd (omega arith)
unmask-xor_bytes (b ∷ bs) (m ∷ hp) h k fits =
    rw (unmask-xor_bytes bs hp h.1 k.1 (omega arith), (bit_xor-byte b m h.0 k.0).0) refl

pub length-xor_bytes : (bs hp : List ℕ) → length (xor_bytes bs hp) ≡ length bs
length-xor_bytes [] hp = refl
length-xor_bytes (b ∷ bs) [] = refl
length-xor_bytes (b ∷ bs) (m ∷ hp) = ap suc (length-xor_bytes bs hp)

pub xor_bytes-IsByte :
    (bs hp : List ℕ) → All IsByte bs → All IsByte hp → All IsByte (xor_bytes bs hp)
xor_bytes-IsByte [] hp h k = tt
xor_bytes-IsByte (b ∷ bs) [] h k = h
xor_bytes-IsByte (b ∷ bs) (m ∷ hp) h k =
    ((bit_xor-byte b m h.0 k.0).1, xor_bytes-IsByte bs hp h.1 k.1)

pub slice_to_end-append : (xs ys : List ℕ) → slice_to_end (xs ++ ys) (length ys) ≡ ok xs
slice_to_end-append xs ys =
    let size : length (xs ++ ys) - length ys ≡ length xs = omega (arith, length-append xs ys) in
    slice_to_end-ok (xs ++ ys) (length ys) (omega (arith, length-append xs ys))
    ∙ ap (λ k. ok (take k (xs ++ ys))) size
    ∙ ap ok (take-length_append xs ys)

pub slice-prefix : (xs ys : List ℕ) → slice (xs ++ ys) 0 (length xs) ≡ ok xs
slice-prefix xs ys =
    let size : length xs - 0 ≡ length xs = omega arith in
    slice-ok (xs ++ ys) 0 (length xs) (omega arith) (omega (arith, length-append xs ys))
    ∙ ap (λ k. ok (take k (xs ++ ys))) size
    ∙ ap ok (take-length_append xs ys)

pub slice-suffix : (xs ys : List ℕ) → slice (xs ++ ys) (length xs) (length (xs ++ ys)) ≡ ok ys
slice-suffix xs ys =
    let size : length (xs ++ ys) - length xs ≡ length ys = omega (arith, length-append xs ys) in
    slice-ok (xs ++ ys) (length xs) (length (xs ++ ys)) (omega (arith, length-append xs ys))
      (omega arith)
    ∙ ap₂ (λ k zs. ok (take k zs)) size (drop-length_append xs ys)
    ∙ ap ok (take-length ys)

slice_from_end-append : (xs ys : List ℕ) → slice_from_end (xs ++ ys) (length ys) ≡ ok ys
unfolding slice_from_end
slice_from_end-append xs ys =
    let size : length (xs ++ ys) - length ys ≡ length xs = omega (arith, length-append xs ys) in
    let fits : ltb (length (xs ++ ys)) (length ys) ≡ false =
      (let total = length-append xs ys in ground arith) in
    rw (fits, size) (slice-suffix xs ys)

-- The last sixteen bytes are the tag.
pub split_payload-append :
    (number cipher tag : List ℕ)
    → length tag ≡ 16
    → split_payload (number ++ (cipher ++ tag)) (length number) ≡ ok (cipher, tag)
unfolding split_payload
split_payload-append number cipher tag e =
    rw
      (
        sym (append_assoc number cipher tag),
        sym e,
        slice_to_end-append (number ++ cipher) tag,
        slice-suffix number cipher,
        slice_from_end-append (number ++ cipher) tag,
      )
      refl

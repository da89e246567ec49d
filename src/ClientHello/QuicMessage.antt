-- ===== src/ClientHello/QuicMessage.antt =====
-- quic_clienthello.go: `ParseQUICClientHello` and `Raw`.
use clienthellod.Common.{
  ℕ, ◌/◌, ◌%◌, ◌^◌, ◌<◌, ◌≡◌, refl, sym, ap, ◌∙◌, arith, Option, none, some, List, [], ◌∷◌, ◌++◌,
  append-nil, length, drop, take, take-length, ltb, false, length-take, take-append-drop,
}
use clienthellod.Outcome.{eof, ok, err}
use clienthellod.Outcome.Ensures.{Whenever, >>=-Whenever, Whenever-weaken, ok-Whenever}
use clienthellod.Cryptobyte.{Cryptobyte, IsDocumented}
use clienthellod.TransportParameters.{QuicTransportParameters}
use clienthellod.Connection.{joined}
use clienthellod.ClientHello.{ClientHello}
use clienthellod.ClientHello.Read.{read_client_hello, record_length}
use clienthellod.ClientHello.Record.{
  read_client_hello-append, KeepsRaw, parse_client_hello-KeepsRaw,
}
use clienthellod.ClientHello.Parse.{
  Utls, new_client_hello, parse_client_hello, parse_hello, with_parameters, patched, raw,
  parse_quic_client_hello,
}

-- What the sixteen bits of the length announce.
abbrev pub announced : List ℕ → ℕ
announced p = length p % 2 ^ 16

-- The header that is patched in front.
abbrev header_of : List ℕ → List ℕ
header_of p = 0x16 ∷ 0x00 ∷ 0x00 ∷ (length p / 256 % 256) ∷ (length p % 256) ∷ []

patched-read :
    (p : List ℕ)
    → (read_client_hello (patched p ∷ []) eof).raw ≡ header_of p ++ take (announced p) p
      × ((read_client_hello (patched p ∷ []) eof).failed ≡ none)
patched-read p =
    let size : record_length (header_of p) ≡ length (take (announced p) p) =
      omega (arith, length-take (announced p) p) in
    let cut : joined (patched p ∷ [])
        ≡ header_of p ++ (take (announced p) p ++ drop (announced p) p) =
      append-nil (patched p)
      ∙ ap (λ s. header_of p ++ s) (sym (take-append-drop (announced p) p)) in
    let (q, done, left) =
      read_client_hello-append (header_of p) (take (announced p) p) (drop (announced p) p)
        (patched p ∷ []) eof record { header_lem = refl; kind_lem = refl; length_lem = size } cut in
    (q, done)

with_parameters-same :
    (ch : ClientHello) (q : Option QuicTransportParameters)
    → Whenever (λ ch'. ch' ≡ ch) (with_parameters ch q)
with_parameters-same ch none = tt
with_parameters-same ch (some q) =
    elim q.parse_error
      as (λ e. Whenever (λ ch'. ch' ≡ ch) (elim e [ none ↦ ok ch | some x ↦ err x ])) [
        | none ↦ refl
        | some x ↦ tt
      ]

module _ (B : Cryptobyte) (documented : IsDocumented B) (max_slice : ℕ) (U : Utls)
    (sha1 : List ℕ → List ℕ) where
  -- A message that `ParseQUICClientHello` parses is parsed as far as sixteen bits can announce: `Raw`
  -- gives the message itself if it is shorter than 65536 bytes, and else its front of as many bytes
  -- as its length modulo 65536.
  pub parse_quic_client_hello-raw :
      (p : List ℕ) (ch : ClientHello)
      → parse_quic_client_hello B max_slice U sha1 p ≡ ok ch
      → (raw ch ≡ ok (take (length p % 2 ^ 16) p)) × (length p < 2 ^ 16 → raw ch ≡ ok p)
  unfolding parse_quic_client_hello
  parse_quic_client_hello-raw p ch e =
      let h = read_client_hello (patched p ∷ []) eof in
      let (q, done) = patched-read p in
      let hello = new_client_hello (header_of p ++ take (announced p) p) in
      let Same : ClientHello → Type 0 = KeepsRaw hello in
      let run : parse_hello B max_slice U sha1 h h.failed
          ≡ parse_client_hello B max_slice U sha1 hello =
        rw (done, q) refl in
      let kept : Whenever Same (parse_quic_client_hello B max_slice U sha1 p) =
        rw (parse_quic_client_hello, run)
          (>>=-Whenever Same Same (parse_client_hello B max_slice U sha1 hello) _
            (parse_client_hello-KeepsRaw max_slice U sha1 B documented hello)
            λ ch' k.
              Whenever-weaken (λ c. c ≡ ch') Same (λ c s. ap ClientHello.raw s ∙ k) _
                (with_parameters-same ch' ch'.qtp)) in
      let same = ok-Whenever Same kept e in
      let long : ltb (length (header_of p ++ take (announced p) p)) 5 ≡ false = ground arith in
      let front : raw ch ≡ ok (take (length p % 2 ^ 16) p) = rw (same, long) refl in
      (
        front,
        λ short.
            let size : length p % 2 ^ 16 ≡ length p = omega arith in
            front ∙ ap (λ n. ok (take n p)) size ∙ ap ok (take-length p),
      )

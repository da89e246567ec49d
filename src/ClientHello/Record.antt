-- ===== src/ClientHello/Record.antt =====
-- clienthello.go: `ReadClientHello` on a handshake record, and the raw bytes in the parser.
use clienthellod.Common.{
  ℕ, ◌≡◌, refl, sym, ap, ap₂, ◌∙◌, arith, if-cases, none, List, [], ◌∷◌, ◌++◌, length, ◌==◌, get_or,
  length-append,
}
use clienthellod.Outcome.{Error, Result, ok, err, panic, stuck, some_or, bad_client_hello}
use clienthellod.Outcome.Ensures.{
  Whenever, anything, Whenever-weaken, >>=-Whenever, Ensures-Whenever,
}
use clienthellod.Reader.{fill}
use clienthellod.Cryptobyte.{Cryptobyte, IsDocumented}
use clienthellod.TransportParameters.{QuicTransportParameters}
use clienthellod.Connection.{joined, read_full}
use clienthellod.Connection.Laws.{read_full-IsFull}
use clienthellod.ClientHello.{ClientHello}
use clienthellod.ClientHello.Read.{record_length, read_body, read_client_hello}
use clienthellod.ClientHello.Extra.{wrap_error}
use clienthellod.ClientHello.Ends.{parse_extra-Ensures}
use clienthellod.ClientHello.Parse.{
  ClientHelloSpec, TlsExtension, supported_curves, supported_points, signature_algorithms,
  alpn_protocols, compress_cert, fake_record_size_limit, supported_versions, psk_key_exchange_modes,
  key_shares, application_settings, generic, other, Utls, store_parameters, parse_one,
  parse_extensions, after_record_header, parse_client_hello,
}

-- What was read is what was there, if it was read whole.
same_length :
    (xs ys zs bs : List ℕ) → xs ++ zs ≡ ys ++ bs → length xs ≡ length ys → (xs ≡ ys) × (zs ≡ bs)
same_length [] [] zs bs e l = (refl, e)
same_length [] (y ∷ ys) zs bs e l = absurd (omega arith)
same_length (x ∷ xs) [] zs bs e l = absurd (omega arith)
same_length (x ∷ xs) (y ∷ ys) zs bs e l =
    let tails : xs ++ zs ≡ ys ++ bs = cc in
    let heads : x ≡ y = cc in
    let (q, q') = same_length xs ys zs bs tails (omega arith) in (ap₂ ◌∷◌ heads q, q')

fill_whole : (xs : List ℕ) → fill (length xs) xs ≡ xs
fill_whole [] = refl
fill_whole (x ∷ xs) = ap (◌∷◌ x) (fill_whole xs)

-- The next bytes are read whole, whatever the chunks are.
read_full-append :
    (n : ℕ) (xs s : List ℕ) (chunks : List (List ℕ)) (last : Error)
    → length xs ≡ n
    → joined chunks ≡ xs ++ s
    → (read_full n chunks last).got ≡ xs
      × ((read_full n chunks last).failed ≡ none)
      × (joined (read_full n chunks last).rest ≡ s)
read_full-append n xs s chunks last l e =
    let d = read_full-IsFull n chunks last in
    let (done, size) = d.whole (rw e (omega (arith, length-append xs s))) in
    let (q, q') = same_length _ xs _ s (d.got_lem ∙ e) (size ∙ sym l) in (q, done, q')

-- The record `header ++ body`.
pub record IsRecord (header body : List ℕ) : Type 0 where
  pub header_lem : length header ≡ 5
  pub kind_lem : get_or header 0 0 ≡ 0x16
  pub length_lem : record_length header ≡ length body

read_body-append :
    (header body s : List ℕ) (chunks : List (List ℕ)) (last : Error)
    → record_length header ≡ length body
    → joined chunks ≡ body ++ s
    → (read_body header chunks last).raw ≡ header ++ body
      × ((read_body header chunks last).failed ≡ none)
      × (joined (read_body header chunks last).rest ≡ s)
unfolding read_body
read_body-append header body s chunks last n e =
    let (got, done, left) = read_full-append (length body) body s chunks last refl e in
    rw (n, got) (ap (λ xs. header ++ xs) (fill_whole body), done, left)

-- A connection that begins with a handshake record, cut into chunks in any way: `ReadClientHello`
-- returns the bytes of the record, without an error, and leaves the bytes behind it.
pub read_client_hello-append :
    (header body s : List ℕ) (chunks : List (List ℕ)) (last : Error)
    → IsRecord header body
    → joined chunks ≡ header ++ (body ++ s)
    → (read_client_hello chunks last).raw ≡ header ++ body
      × ((read_client_hello chunks last).failed ≡ none)
      × (joined (read_client_hello chunks last).rest ≡ s)
unfolding read_client_hello
read_client_hello-append header body s chunks last known e =
    let (got, done, left) = read_full-append 5 header (body ++ s) chunks last known.header_lem e in
    rw (done, got, known.kind_lem)
      (read_body-append header body s (read_full 5 chunks last).rest last known.length_lem left)

-- The parser does not change the raw bytes.
abbrev pub KeepsRaw : ClientHello → ClientHello → Type 0
KeepsRaw ch ch' = ch'.raw ≡ ch.raw

module _ (max_slice : ℕ) (U : Utls) (sha1 : List ℕ → List ℕ) where
  store_parameters-KeepsRaw :
      (ch : ClientHello) (r : Result QuicTransportParameters)
      → Whenever (KeepsRaw ch) (store_parameters max_slice U sha1 ch r)
  store_parameters-KeepsRaw ch (ok q) = refl
  store_parameters-KeepsRaw ch (err e) = tt
  store_parameters-KeepsRaw ch panic = tt
  store_parameters-KeepsRaw ch stuck = tt

  parse_one-KeepsRaw :
      (e : TlsExtension) (ch : ClientHello)
      → Whenever (KeepsRaw ch) (parse_one max_slice U sha1 e ch)
  unfolding parse_one
  parse_one-KeepsRaw (supported_curves curves) ch = refl
  parse_one-KeepsRaw (supported_points points) ch = refl
  parse_one-KeepsRaw (signature_algorithms algorithms) ch = refl
  parse_one-KeepsRaw (alpn_protocols protocols) ch = refl
  parse_one-KeepsRaw (compress_cert algorithms) ch = refl
  parse_one-KeepsRaw (fake_record_size_limit limit) ch = refl
  parse_one-KeepsRaw (supported_versions versions) ch = refl
  parse_one-KeepsRaw (psk_key_exchange_modes modes) ch = refl
  parse_one-KeepsRaw (key_shares groups) ch = refl
  parse_one-KeepsRaw (application_settings protocols) ch = refl
  parse_one-KeepsRaw (generic id ext_data) ch =
      if-cases (Whenever (KeepsRaw ch)) (id == U.quic_transport_parameters_id)
        (λ same. store_parameters-KeepsRaw ch _) (λ different. refl)
  parse_one-KeepsRaw other ch = refl

  parse_extensions-KeepsRaw :
      (es : List TlsExtension) (ch ch₀ : ClientHello)
      → KeepsRaw ch₀ ch
      → Whenever (KeepsRaw ch₀) (parse_extensions max_slice U sha1 es ch)
  unfolding parse_extensions
  parse_extensions-KeepsRaw [] ch ch₀ k = k
  parse_extensions-KeepsRaw (e ∷ es) ch ch₀ k =
      >>=-Whenever (KeepsRaw ch) (KeepsRaw ch₀) _ _ (parse_one-KeepsRaw e ch)
        λ ch' k'. parse_extensions-KeepsRaw es ch' ch₀ (k' ∙ k)

  module _ (B : Cryptobyte) (documented : IsDocumented B) where
    pub parse_client_hello-KeepsRaw :
        (ch : ClientHello) → Whenever (KeepsRaw ch) (parse_client_hello B max_slice U sha1 ch)
    unfolding parse_client_hello
    parse_client_hello-KeepsRaw ch =
        >>=-Whenever (λ p. Unit {0}) (KeepsRaw ch) (wrap_error (U.raw_client_hello ch.raw)) _
          (anything (wrap_error (U.raw_client_hello ch.raw)))
          λ (chs : ClientHelloSpec) t₁.
            let ch₀ = record ch {
              cipher_suites = chs.cipher_suites;
              compression_methods = chs.compression_methods;
            } in
            >>=-Whenever (KeepsRaw ch) (KeepsRaw ch)
              (parse_extensions max_slice U sha1 chs.extensions ch₀) _
              (parse_extensions-KeepsRaw chs.extensions ch₀ ch refl)
              λ ch₁ k₁.
                >>=-Whenever (λ p. Unit {0}) (KeepsRaw ch) (after_record_header ch₁.raw) _
                  (anything (after_record_header ch₁.raw))
                  λ message t₂.
                    let name = some_or bad_client_hello (U.unmarshal_server_name message) in
                    >>=-Whenever (λ p. Unit {0}) (KeepsRaw ch) name _ (anything name)
                      λ found t₃.
                        Whenever-weaken (KeepsRaw ch₁) (KeepsRaw ch) (λ ch' k. k ∙ k₁) _
                          (Ensures-Whenever (KeepsRaw ch₁) _ (
                            parse_extra-Ensures B documented U.grease_placeholder sha1
                              (record ch₁ { server_name = found })))

-- ===== src/ClientHello/Extra.antt =====
-- clienthello.go: `parseExtra`, which walks over the raw bytes of a ClientHello, and internal/utils/utls.go.
-- `grease_placeholder` is `tls.GREASE_PLACEHOLDER`. The struct that is left beside an error, which
-- every caller drops, is not modelled, and the messages of the errors are not told apart.
use clienthellod.Common.{
  ℕ, zero, suc, ◌/◌, bit_and, Bool, ◌&&◌, Option, List, [], ◌∷◌, ◌++◌, length, ◌==◌, if◌then◌else◌,
}
use clienthellod.Outcome.{
  Result, ok, err, panic, stuck, ◌>>=◌, some_or, map_ok, wrapped, bad_client_hello,
}
use clienthellod.Cryptobyte.{Cryptobyte}
use clienthellod.ClientHello.{ClientHello, set_fingerprint}

-- `((v >> 8) == v&0xff) && v&0xf == 0xa`
unfoldable pub is_grease_uint16 : ℕ → Bool
is_grease_uint16 v = v / 256 == bit_and v 0xff && bit_and v 0xf == 0xa

abbrev pub wrap_error {ℓ} : {A : Type ℓ} → Result A → Result A
wrap_error (ok a) = ok a
wrap_error (err e) = err (wrapped e)
wrap_error panic = panic
wrap_error stuck = stuck

-- Bytes that are read, or the error.
abbrev pub expect {ℓ} : {A : Type ℓ} → Option A → Result A
expect o = some_or bad_client_hello o

module _ (B : Cryptobyte) where
  -- The version of the record and the bytes behind its header.
  unfoldable pub parse_record_header : List ℕ → Result (ℕ × List ℕ)
  parse_record_header raw = do
    s₁ ← expect (B.skip 1 raw)
    (version, s₂) ← expect (B.read_uint16 s₁)
    s₃ ← expect (B.skip 2 s₂)
    ok (version, s₃)

  -- The version of the handshake and the bytes behind the random.
  unfoldable pub parse_handshake_header : List ℕ → Result (ℕ × List ℕ)
  parse_handshake_header s = do
    s₁ ← expect (B.skip 1 s)
    s₂ ← expect (B.skip 3 s₁)
    (version, s₃) ← expect (B.read_uint16 s₂)
    s₄ ← expect (B.skip 32 s₃)
    ok (version, s₄)

  -- The session id, the ciphersuites and the compression methods are passed over.
  unfoldable pub skip_lists : List ℕ → Result (List ℕ)
  skip_lists s = do
    (session_id, s₁) ← expect (B.read_uint8_length_prefixed s)
    (cipher_suites, s₂) ← expect (B.read_uint16_length_prefixed s₁)
    (compression_methods, s₃) ← expect (B.read_uint8_length_prefixed s₂)
    ok s₃

module _ (B : Cryptobyte) (grease_placeholder : ℕ) where
  -- One key share: the group, the length, and the bytes behind the data.
  unfoldable pub parse_key_share : List ℕ → Result (List ℕ × List ℕ)
  parse_key_share s = do
    (group, s₁) ← expect (B.read_uint16 s)
    (len, s₂) ← expect (B.read_uint16 s₁)
    s₃ ← expect (B.skip len s₂)
    ok ((if is_grease_uint16 group then grease_placeholder else group) ∷ len ∷ [], s₃)

  unfoldable pub key_shares_loop : ℕ → List ℕ → List ℕ → Result (List ℕ)
  key_shares_loop zero s acc = stuck
  key_shares_loop (suc fuel) [] acc = ok acc
  key_shares_loop (suc fuel) (b ∷ s) acc =
      parse_key_share (b ∷ s) >>= λ p. key_shares_loop fuel p.1 (acc ++ p.0)

  unfoldable pub parse_key_shares : List ℕ → ClientHello → Result ClientHello
  parse_key_shares extension_data ch = do
    s ← expect (B.skip 2 extension_data)
    groups ← key_shares_loop (suc (length s)) s ch.keyshare_groups_with_lengths
    ok (record ch { keyshare_groups_with_lengths = groups })

  -- The id, which is another for GREASE, and the struct afterwards.
  unfoldable pub parse_extension_extra : ℕ → List ℕ → ClientHello → Result (ℕ × ClientHello)
  parse_extension_extra id extension_data ch =
      if id == 16
      then ok (id, record ch { alpn_with_lengths = extension_data })
      else if id == 51
      then map_ok (λ ch'. (id, ch')) (parse_key_shares extension_data ch)
      else if is_grease_uint16 id
      then ok (grease_placeholder, ch)
      else ok (id, ch)

  -- One extension: its id, the struct afterwards, and the bytes behind it.
  unfoldable pub parse_extension : List ℕ → ClientHello → Result (ℕ × ClientHello × List ℕ)
  parse_extension s ch = do
    (id, s₁) ← expect (B.read_uint16 s)
    (extension_data, s₂) ← expect (B.read_uint16_length_prefixed s₁)
    (id', ch') ← wrap_error (parse_extension_extra id extension_data ch)
    ok (id', ch', s₂)

  unfoldable pub extensions_loop : ℕ → List ℕ → List ℕ → ClientHello → Result ClientHello
  extensions_loop zero s ids ch = stuck
  extensions_loop (suc fuel) [] ids ch = ok (record ch { extensions = ids })
  extensions_loop (suc fuel) (b ∷ s) ids ch =
      parse_extension (b ∷ s) ch >>= λ p. extensions_loop fuel p.2 (ids ++ p.0 ∷ []) p.1

  -- Each extension takes a byte at least.
  unfoldable pub parse_extensions_extra : List ℕ → ClientHello → Result ClientHello
  parse_extensions_extra s ch = extensions_loop (suc (length s)) s [] ch

  module _ (sha1 : List ℕ → List ℕ) where
    -- The part behind the compression methods, which may be empty.
    unfoldable pub parse_rest : List ℕ → ClientHello → Result ClientHello
    parse_rest [] ch = ok ch
    parse_rest (b ∷ s) ch = do
      (extensions, after) ← expect (B.read_uint16_length_prefixed (b ∷ s))
      ch' ← wrap_error (parse_extensions_extra extensions ch)
      ok (set_fingerprint sha1 ch')

    unfoldable pub parse_extra : ClientHello → Result ClientHello
    parse_extra ch = do
      (record_version, s₁) ← parse_record_header B ch.raw
      (handshake_version, s₂) ← parse_handshake_header B s₁
      s₃ ← skip_lists B s₂
      parse_rest s₃ (record ch {
        tls_record_version = record_version;
        tls_handshake_version = handshake_version;
      })

-- ===== src/ClientHello/Ends.antt =====
-- clienthello.go: what `parseExtra` ensures for any bytes.
use clienthellod.Common.{
  ℕ, zero, suc, ◌+◌, ◌*◌, ◌≤◌, ◌<◌, ◌≡◌, refl, ◌∙◌, arith, if-cases, List, [], ◌∷◌, ◌++◌, length,
  ltb, ◌==◌, length-drop,
}
use clienthellod.Outcome.{Result, ok, err, panic, stuck, map_ok}
use clienthellod.Outcome.Ensures.{Ensures, >>=-Ensures, Ensures-weaken}
use clienthellod.Cryptobyte.{Cryptobyte, IsDocumented, split_at}
use clienthellod.ClientHello.{ClientHello, set_fingerprint}
use clienthellod.ClientHello.Extra.{
  is_grease_uint16, wrap_error, expect, parse_record_header, parse_handshake_header, skip_lists,
  parse_key_share, key_shares_loop, parse_key_shares, parse_extension_extra, parse_extension,
  extensions_loop, parse_extensions_extra, parse_rest, parse_extra,
}

-- Something is read from at most `n` bytes, and fewer are left, by `k` at least.
abbrev Shrinks {ℓ} : {A : Type ℓ} → ℕ → ℕ → A × List ℕ → Type 0
Shrinks k n (a, s) = k + length s ≤ n

abbrev IsShorter : ℕ → List ℕ → Type 0
IsShorter n s = length s ≤ n

module _ (B : Cryptobyte) (documented : IsDocumented B) where
  skip-Ensures : (k : ℕ) (s : List ℕ) → Ensures (IsShorter (length s)) (expect (B.skip k s))
  skip-Ensures k s = rw (documented.skip_lem k s) (
      if-cases (λ o. Ensures (IsShorter (length s)) (expect o)) (ltb (length s) k) (λ short. tt)
        (λ fits. omega (arith, length-drop k s)))

  read_uint16-Ensures : (s : List ℕ) → Ensures (Shrinks 2 (length s)) (expect (B.read_uint16 s))
  read_uint16-Ensures (a ∷ b ∷ s) = rw (documented.read_uint16-some a b s) (omega arith)
  read_uint16-Ensures (a ∷ []) = rw (documented.read_uint16_short (a ∷ []) (omega arith)) tt
  read_uint16-Ensures [] = rw (documented.read_uint16_short [] (omega arith)) tt

  split_at-Ensures :
      (n k m : ℕ) (s : List ℕ) → length s + k ≤ m → Ensures (Shrinks k m) (expect (split_at n s))
  split_at-Ensures n k m s h =
      if-cases (λ o. Ensures (Shrinks k m) (expect o)) (ltb (length s) n) (λ short. tt)
        (λ fits. omega (arith, length-drop n s))

  prefixed16-Ensures :
      (s : List ℕ) → Ensures (Shrinks 2 (length s)) (expect (B.read_uint16_length_prefixed s))
  prefixed16-Ensures (a ∷ b ∷ s) =
      rw (documented.read_uint16_length_prefixed-some a b s)
        (split_at-Ensures (a * 256 + b) 2 (length (a ∷ b ∷ s)) s (omega arith))
  prefixed16-Ensures (a ∷ []) =
      rw (documented.read_uint16_length_prefixed_short (a ∷ []) (omega arith)) tt
  prefixed16-Ensures [] = rw (documented.read_uint16_length_prefixed_short [] (omega arith)) tt

  prefixed8-Ensures :
      (s : List ℕ) → Ensures (Shrinks 1 (length s)) (expect (B.read_uint8_length_prefixed s))
  prefixed8-Ensures (n ∷ s) =
      rw (documented.read_uint8_length_prefixed-some n s)
        (split_at-Ensures n 1 (length (n ∷ s)) s (omega arith))
  prefixed8-Ensures [] = rw documented.read_uint8_length_prefixed-nil tt

  -- The steps before the extensions.
  parse_record_header-Ensures : (s : List ℕ) → Ensures (λ p. Unit {0}) (parse_record_header B s)
  unfolding parse_record_header
  parse_record_header-Ensures s =
      >>=-Ensures (IsShorter (length s)) (λ p. Unit {0}) _ _ (skip-Ensures 1 s)
        λ s₁ h₁.
          >>=-Ensures (Shrinks 2 (length s₁)) (λ p. Unit {0}) _ _ (read_uint16-Ensures s₁)
            λ (v, s₂) h₂.
              >>=-Ensures (IsShorter (length s₂)) (λ p. Unit {0}) _ _ (skip-Ensures 2 s₂)
                λ s₃ h₃. tt

  parse_handshake_header-Ensures :
      (s : List ℕ) → Ensures (λ p. Unit {0}) (parse_handshake_header B s)
  unfolding parse_handshake_header
  parse_handshake_header-Ensures s =
      >>=-Ensures (IsShorter (length s)) (λ p. Unit {0}) _ _ (skip-Ensures 1 s)
        λ s₁ h₁.
          >>=-Ensures (IsShorter (length s₁)) (λ p. Unit {0}) _ _ (skip-Ensures 3 s₁)
            λ s₂ h₂.
              >>=-Ensures (Shrinks 2 (length s₂)) (λ p. Unit {0}) _ _ (read_uint16-Ensures s₂)
                λ (v, s₃) h₃.
                  >>=-Ensures (IsShorter (length s₃)) (λ p. Unit {0}) _ _ (skip-Ensures 32 s₃)
                    λ s₄ h₄. tt

  skip_lists-Ensures : (s : List ℕ) → Ensures (λ p. Unit {0}) (skip_lists B s)
  unfolding skip_lists
  skip_lists-Ensures s =
      >>=-Ensures (Shrinks 1 (length s)) (λ p. Unit {0}) _ _ (prefixed8-Ensures s)
        λ (a, s₁) h₁.
          >>=-Ensures (Shrinks 2 (length s₁)) (λ p. Unit {0}) _ _ (prefixed16-Ensures s₁)
            λ (b, s₂) h₂.
              >>=-Ensures (Shrinks 1 (length s₂)) (λ p. Unit {0}) _ _ (prefixed8-Ensures s₂)
                λ (c, s₃) h₃. tt

  module _ (grease_placeholder : ℕ) where
    parse_key_share-Ensures :
        (s : List ℕ) → Ensures (Shrinks 4 (length s)) (parse_key_share B grease_placeholder s)
    unfolding parse_key_share
    parse_key_share-Ensures s =
        let P : List ℕ × List ℕ → Type 0 = Shrinks 4 (length s) in
        >>=-Ensures (Shrinks 2 (length s)) P _ _ (read_uint16-Ensures s) λ (group, s₁) h₁.
          >>=-Ensures (Shrinks 2 (length s₁)) P _ _ (read_uint16-Ensures s₁) λ (len, s₂) h₂.
            >>=-Ensures (IsShorter (length s₂)) P _ _ (skip-Ensures len s₂) λ s₃ h₃. omega arith

    key_shares_loop-Ensures :
        (fuel : ℕ) (s acc : List ℕ)
        → length s < fuel
        → Ensures (λ p. Unit {0}) (key_shares_loop B grease_placeholder fuel s acc)
    unfolding key_shares_loop
    key_shares_loop-Ensures zero s acc h = absurd (omega arith)
    key_shares_loop-Ensures (suc fuel) [] acc h = tt
    key_shares_loop-Ensures (suc fuel) (b ∷ s) acc h =
        >>=-Ensures (Shrinks 4 (length (b ∷ s))) (λ p. Unit {0}) _ _
          (parse_key_share-Ensures (b ∷ s))
          λ (two, s') h'. key_shares_loop-Ensures fuel s' (acc ++ two) (omega arith)

    -- The raw bytes stay.
    abbrev Keeps : ClientHello → ClientHello → Type 0
    Keeps ch ch' = ch'.raw ≡ ch.raw

    parse_key_shares-Ensures :
        (s : List ℕ) (ch : ClientHello)
        → Ensures (Keeps ch) (parse_key_shares B grease_placeholder s ch)
    unfolding parse_key_shares
    parse_key_shares-Ensures s ch =
        >>=-Ensures (IsShorter (length s)) (Keeps ch) _ _ (skip-Ensures 2 s) λ s₁ h₁.
          >>=-Ensures (λ p. Unit {0}) (Keeps ch) _ _
            (key_shares_loop-Ensures (suc (length s₁)) s₁ ch.keyshare_groups_with_lengths
              (omega arith))
            λ groups t. refl

    abbrev KeepsSecond : ClientHello → ℕ × ClientHello → Type 0
    KeepsSecond ch (id, ch') = ch'.raw ≡ ch.raw

    with_id-Ensures :
        (id : ℕ) (ch : ClientHello) (r : Result ClientHello)
        → Ensures (Keeps ch) r
        → Ensures (KeepsSecond ch) (map_ok (λ ch'. (id, ch')) r)
    with_id-Ensures id ch (ok a) h = h
    with_id-Ensures id ch (err e) h = tt
    with_id-Ensures id ch panic h = h
    with_id-Ensures id ch stuck h = h

    parse_extension_extra-Ensures :
        (id : ℕ) (s : List ℕ) (ch : ClientHello)
        → Ensures (KeepsSecond ch) (parse_extension_extra B grease_placeholder id s ch)
    unfolding parse_extension_extra
    parse_extension_extra-Ensures id s ch =
        if-cases (Ensures (KeepsSecond ch)) (id == 16) (λ alpn. refl)
          λ other.
            if-cases (Ensures (KeepsSecond ch)) (id == 51)
              (λ shares. with_id-Ensures id ch _ (parse_key_shares-Ensures s ch))
              λ another.
                if-cases (Ensures (KeepsSecond ch)) (is_grease_uint16 id) (λ grease. refl)
                  (λ known. refl)

    wrap_error-Ensures {ℓ} :
        {A : Type ℓ} (P : A → Type 0) (r : Result A) → Ensures P r → Ensures P (wrap_error r)
    wrap_error-Ensures P (ok a) h = h
    wrap_error-Ensures P (err e) h = tt
    wrap_error-Ensures P panic h = h
    wrap_error-Ensures P stuck h = h

    abbrev IsParsed : ClientHello → ℕ → ℕ × ClientHello × List ℕ → Type 0
    IsParsed ch n (id, ch', s) = (ch'.raw ≡ ch.raw) × (4 + length s ≤ n)

    parse_extension-Ensures :
        (s : List ℕ) (ch : ClientHello)
        → Ensures (IsParsed ch (length s)) (parse_extension B grease_placeholder s ch)
    unfolding parse_extension
    parse_extension-Ensures s ch =
        let P = IsParsed ch (length s) in
        >>=-Ensures (Shrinks 2 (length s)) P _ _ (read_uint16-Ensures s) λ (id, s₁) h₁.
          >>=-Ensures (Shrinks 2 (length s₁)) P _ _ (prefixed16-Ensures s₁) λ (body, s₂) h₂.
            >>=-Ensures (KeepsSecond ch) P _ _
              (wrap_error-Ensures (KeepsSecond ch) _ (parse_extension_extra-Ensures id body ch))
              λ (id', ch') h₃. (h₃, omega arith)

    extensions_loop-Ensures :
        (fuel : ℕ) (s ids : List ℕ) (ch : ClientHello)
        → length s < fuel
        → Ensures (Keeps ch) (extensions_loop B grease_placeholder fuel s ids ch)
    unfolding extensions_loop
    extensions_loop-Ensures zero s ids ch h = absurd (omega arith)
    extensions_loop-Ensures (suc fuel) [] ids ch h = refl
    extensions_loop-Ensures (suc fuel) (b ∷ s) ids ch h =
        >>=-Ensures (IsParsed ch (length (b ∷ s))) (Keeps ch) _ _
          (parse_extension-Ensures (b ∷ s) ch)
          λ (id, ch', s') (same, shorter).
            Ensures-weaken (Keeps ch') (Keeps ch) (λ c k. k ∙ same) _
              (extensions_loop-Ensures fuel s' (ids ++ id ∷ []) ch' (omega arith))

    module _ (sha1 : List ℕ → List ℕ) where
      set_fingerprint-Keeps : (ch : ClientHello) → Keeps ch (set_fingerprint sha1 ch)
      unfolding set_fingerprint
      set_fingerprint-Keeps ch = refl

      parse_rest-Ensures :
          (s : List ℕ) (ch : ClientHello)
          → Ensures (Keeps ch) (parse_rest B grease_placeholder sha1 s ch)
      unfolding parse_rest parse_extensions_extra
      parse_rest-Ensures [] ch = refl
      parse_rest-Ensures (b ∷ s) ch =
          >>=-Ensures (Shrinks 2 (length (b ∷ s))) (Keeps ch) _ _ (prefixed16-Ensures (b ∷ s))
            λ (extensions, after) h.
              >>=-Ensures (Keeps ch) (Keeps ch) _ _
                (wrap_error-Ensures (Keeps ch) _ (
                  extensions_loop-Ensures (suc (length extensions)) extensions [] ch (omega arith)))
                λ ch' k. set_fingerprint-Keeps ch' ∙ k

      -- For any raw bytes, `parseExtra` ends without a panic: it returns an error, or the struct
      -- with its raw bytes unchanged.
      pub parse_extra-Ensures :
          (ch : ClientHello)
          → Ensures (λ ch'. ch'.raw ≡ ch.raw) (parse_extra B grease_placeholder sha1 ch)
      unfolding parse_extra
      parse_extra-Ensures ch =
          >>=-Ensures (λ p. Unit {0}) (Keeps ch) _ _ (parse_record_header-Ensures ch.raw)
            λ (v, s₁) t₁.
              >>=-Ensures (λ p. Unit {0}) (Keeps ch) _ _ (parse_handshake_header-Ensures s₁)
                λ (w, s₂) t₂.
                  >>=-Ensures (λ p. Unit {0}) (Keeps ch) _ _ (skip_lists-Ensures s₂)
                    λ s₃ t₃.
                      parse_rest-Ensures s₃
                        (record ch { tls_record_version = v; tls_handshake_version = w })

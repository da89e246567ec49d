-- ===== src/ClientHello/Invariance.antt =====
-- clienthello.go and fingerprint_hash.go: ClientHellos with other GREASE values, or with their
-- extensions in another order.
use clienthellod.Common.{
  ℕ, ◌%◌, ◌≡◌, ◌⊎◌, inl, inr, refl, sym, ap, ap₂, ◌∙◌, Bool, true, false, List, [], ◌∷◌, ◌++◌,
  length, ◌==◌, if◌then◌else◌, arith,
}
use clienthellod.Sort.{sort}
use clienthellod.Sort.Order.{sort-Perm}
use clienthellod.Hash.{
  update_u16, is_grease_u16, ungrease_u16, is_grease_alpn, psk_grease, ungrease_psk_loop,
  ungrease_psk, as_hex, first_u64,
}
use clienthellod.ClientHello.{
  ClientHello, write_ungreased, write_alpn, write_psk_modes, ungrease_alpn, hashed, calc_numeric_id,
  set_fingerprint,
}
use mathlib.Core.List.{Permᴰ}

-- Equal, or both reserved.
abbrev pub IsAlike {ℓ} : {A : Type ℓ} → (A → Bool) → A → A → Type ℓ
IsAlike reserved a b = (a ≡ b) ⊎ ((reserved a ≡ true) × (reserved b ≡ true))

-- Two lists of one length that are alike at each place.
pub data AllAlike {ℓ} {A : Type ℓ} (reserved : A → Bool) : List A → List A → Type ℓ where
  none_left : AllAlike reserved [] []
  one_more :
      {a b : A} {as' bs : List A}
      → IsAlike reserved a b
      → AllAlike reserved as' bs
      → AllAlike reserved (a ∷ as') (b ∷ bs)

ungrease_u16-IsAlike : (a b : ℕ) → IsAlike is_grease_u16 a b → ungrease_u16 a ≡ ungrease_u16 b
unfolding ungrease_u16
ungrease_u16-IsAlike a b (inl e) = ap ungrease_u16 e
ungrease_u16-IsAlike a b (inr (x, y)) = rw (x, y) refl

write_ungreased-AllAlike :
    {as' bs : List ℕ} → AllAlike is_grease_u16 as' bs → write_ungreased as' ≡ write_ungreased bs
write_ungreased-AllAlike none_left = refl
write_ungreased-AllAlike (one_more {a} {b} h t) =
    ap₂ (λ v l. update_u16 v ++ l) (ungrease_u16-IsAlike a b h) (write_ungreased-AllAlike t)

ungrease_alpn-IsAlike :
    (a b : List ℕ) → IsAlike is_grease_alpn a b → ungrease_alpn a ≡ ungrease_alpn b
ungrease_alpn-IsAlike a b (inl e) = ap ungrease_alpn e
ungrease_alpn-IsAlike a b (inr (x, y)) = rw (x, y) refl

write_alpn-AllAlike :
    {as' bs : List (List ℕ)} → AllAlike is_grease_alpn as' bs → write_alpn as' ≡ write_alpn bs
write_alpn-AllAlike none_left = refl
write_alpn-AllAlike (one_more {a} {b} h t) =
    ap₂ (λ v l. (length v % 256 ∷ v) ++ l) (ungrease_alpn-IsAlike a b h) (write_alpn-AllAlike t)

-- One of the values of `pskGREASE`.
abbrev pub is_grease_psk_in : ℕ → List ℕ → Bool
is_grease_psk_in v [] = false
is_grease_psk_in v (g ∷ gs) = if v == g then true else is_grease_psk_in v gs

abbrev pub is_grease_psk : ℕ → Bool
is_grease_psk v = is_grease_psk_in v psk_grease

ungrease_psk_loop-in :
    (v : ℕ) (gs : List ℕ) → is_grease_psk_in v gs ≡ true → ungrease_psk_loop v gs ≡ 0x0b
ungrease_psk_loop-in v [] e = cc
ungrease_psk_loop-in v (g ∷ gs) e = ground (arith, ungrease_psk_loop-in v gs)

ungrease_psk-IsAlike : (a b : ℕ) → IsAlike is_grease_psk a b → ungrease_psk a ≡ ungrease_psk b
unfolding ungrease_psk
ungrease_psk-IsAlike a b (inl e) = ap ungrease_psk e
ungrease_psk-IsAlike a b (inr (x, y)) =
    ungrease_psk_loop-in a psk_grease x ∙ sym (ungrease_psk_loop-in b psk_grease y)

write_psk_modes-AllAlike :
    {as' bs : List ℕ} → AllAlike is_grease_psk as' bs → write_psk_modes as' ≡ write_psk_modes bs
write_psk_modes-AllAlike none_left = refl
write_psk_modes-AllAlike (one_more {a} {b} h t) =
    ap₂ (λ v l. v ∷ l) (ungrease_psk-IsAlike a b h) (write_psk_modes-AllAlike t)

-- The fields that are hashed, the extensions apart, differ in reserved values only.
pub record IsSimilar (c d : ClientHello) : Type 0 where
  pub version_lem : c.tls_handshake_version ≡ d.tls_handshake_version
  pub suites : AllAlike is_grease_u16 c.cipher_suites d.cipher_suites
  pub compression : c.compression_methods ≡ d.compression_methods
  pub groups : AllAlike is_grease_u16 c.named_group_list d.named_group_list
  pub formats : c.ec_point_format_list ≡ d.ec_point_format_list
  pub schemes : AllAlike is_grease_u16 c.signature_scheme_list d.signature_scheme_list
  pub protocols : AllAlike is_grease_alpn c.alpn d.alpn
  pub shares : AllAlike is_grease_u16 c.key_share d.key_share
  pub modes : AllAlike is_grease_psk c.psk_key_exchange_modes d.psk_key_exchange_modes
  pub versions : AllAlike is_grease_u16 c.supported_versions d.supported_versions
  pub algorithms : c.cert_compress_algo ≡ d.cert_compress_algo
  pub limit : c.record_size_limit ≡ d.record_size_limit

hashed-IsSimilar :
    (normalized : Bool) (c d : ClientHello)
    → IsSimilar c d
    → write_ungreased (if normalized then c.extensions_normalized else c.extensions)
      ≡ write_ungreased (if normalized then d.extensions_normalized else d.extensions)
    → hashed normalized c ≡ hashed normalized d
unfolding hashed
hashed-IsSimilar normalized c d s e =
    let e₁ = s.version_lem in
    let e₂ = write_ungreased-AllAlike s.suites in
    let e₃ = s.compression in
    let e₄ = write_ungreased-AllAlike s.groups in
    let e₅ = s.formats in
    let e₆ = write_ungreased-AllAlike s.schemes in
    let e₇ = write_alpn-AllAlike s.protocols in
    let e₈ = write_ungreased-AllAlike s.shares in
    let e₉ = write_psk_modes-AllAlike s.modes in
    let f₁ = write_ungreased-AllAlike s.versions in let f₂ = s.algorithms in let f₃ = s.limit in cc

abbrev sorted : ClientHello → ClientHello
sorted c = record c { extensions_normalized = sort c.extensions }

sorted-IsSimilar : (c d : ClientHello) → IsSimilar c d → IsSimilar (sorted c) (sorted d)
sorted-IsSimilar c d s = record {
  version_lem = s.version_lem;
  suites = s.suites;
  compression = s.compression;
  groups = s.groups;
  formats = s.formats;
  schemes = s.schemes;
  protocols = s.protocols;
  shares = s.shares;
  modes = s.modes;
  versions = s.versions;
  algorithms = s.algorithms;
  limit = s.limit;
}

module _ (sha1 : List ℕ → List ℕ) where
  -- Two ClientHellos differ in reserved values only, and have the same extensions in any two
  -- orders. Then their normalized ids are the same.
  pub set_fingerprint-Perm :
      (c d : ClientHello)
      → IsSimilar c d
      → Permᴰ c.extensions d.extensions
      → ((set_fingerprint sha1 c).norm_num_id ≡ (set_fingerprint sha1 d).norm_num_id)
        × ((set_fingerprint sha1 c).norm_hex_id ≡ (set_fingerprint sha1 d).norm_hex_id)
  unfolding set_fingerprint calc_numeric_id
  set_fingerprint-Perm c d s p =
      let same =
        hashed-IsSimilar true (sorted c) (sorted d) (sorted-IsSimilar c d s)
          (ap write_ungreased (sort-Perm p)) in
      (ap (λ h. first_u64 (sha1 h)) same, ap (λ h. as_hex (first_u64 (sha1 h))) same)

  -- Where also the extensions differ in reserved values only, place by place, the ids in the
  -- original order are the same.
  pub set_fingerprint-Grease :
      (c d : ClientHello)
      → IsSimilar c d
      → AllAlike is_grease_u16 c.extensions d.extensions
      → ((set_fingerprint sha1 c).num_id ≡ (set_fingerprint sha1 d).num_id)
        × ((set_fingerprint sha1 c).hex_id ≡ (set_fingerprint sha1 d).hex_id)
  unfolding set_fingerprint calc_numeric_id
  set_fingerprint-Grease c d s a =
      let same =
        hashed-IsSimilar false (sorted c) (sorted d) (sorted-IsSimilar c d s)
          (write_ungreased-AllAlike a) in
      (ap (λ h. first_u64 (sha1 h)) same, ap (λ h. as_hex (first_u64 (sha1 h))) same)

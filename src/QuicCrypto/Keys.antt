-- ===== src/QuicCrypto/Keys.antt =====
-- quic_crypto.go: the lengths of the keys that are derived from a connection id.
use clienthellod.Common.{ℕ, ◌≡◌, Option, none, some, List, [], length, arith}
use clienthellod.Outcome.{Error}
use clienthellod.Outcome.Ensures.{Ensures, >>=-Ensures}
use clienthellod.Cryptobyte.{Cryptobyte}
use clienthellod.QuicCrypto.{
  Ciphers, hkdf_label, hkdf_expand_label, expand_with, client_initial_keys_calc, read_all,
  client_in, initial_salt, quic_key, quic_iv, quic_hp,
}

abbrev pub HasLength : ℕ → List ℕ → Type 0
HasLength n xs = length xs ≡ n

read_all-Ensures : (len : ℕ) (d : List ℕ × Option Error) → Ensures (HasLength len) (read_all len d)
read_all-Ensures len (out, some e) = tt
read_all-Ensures len (out, none) = ground arith

expand_with-Ensures :
    (K : Ciphers) (key : List ℕ) (len : ℕ) (info : Option (List ℕ))
    → Ensures (HasLength len) (expand_with K key len info)
expand_with-Ensures K key len none = tt
expand_with-Ensures K key len (some info) = read_all-Ensures len (K.expand key info len)

-- The lengths that `ComputeHeaderProtection` and `buildIV` demand.
abbrev pub AreKeyLengths : List ℕ × List ℕ × List ℕ → Type 0
AreKeyLengths (key, iv, hp) = (length key ≡ 16) × (length iv ≡ 12) × (length hp ≡ 16)

module _ (B : Cryptobyte) (K : Ciphers) where
  hkdf_expand_label-Ensures :
      (key label context : List ℕ) (len : ℕ)
      → Ensures (HasLength len) (hkdf_expand_label B K key label context len)
  unfolding hkdf_expand_label
  hkdf_expand_label-Ensures key label context len =
      expand_with-Ensures K key len (hkdf_label B label context len)

  pub client_initial_keys_calc-Ensures :
      (random : List ℕ) → Ensures AreKeyLengths (client_initial_keys_calc B K random)
  unfolding client_initial_keys_calc
  client_initial_keys_calc-Ensures random =
      >>=-Ensures (HasLength 32) AreKeyLengths _ _
        (hkdf_expand_label-Ensures (K.extract random initial_salt) client_in [] 32)
        λ secret _.
          >>=-Ensures (HasLength 16) AreKeyLengths _ _
            (hkdf_expand_label-Ensures secret quic_key [] 16)
            λ key k.
              >>=-Ensures (HasLength 12) AreKeyLengths _ _
                (hkdf_expand_label-Ensures secret quic_iv [] 12)
                λ iv i.
                  >>=-Ensures (HasLength 16) AreKeyLengths _ _
                    (hkdf_expand_label-Ensures secret quic_hp [] 16) λ hp p. (k, i, p)

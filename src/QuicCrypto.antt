-- ===== src/QuicCrypto.antt =====
-- quic_crypto.go: the keys of a client's Initial packets, header protection and decryption.
-- `Ciphers` has what the program uses of the cipher packages: crypto/aes, crypto/cipher,
-- crypto/sha256 and golang.org/x/crypto/hkdf.
pub mod Nonce
pub mod Keys
use clienthellod.Common.{
  ℕ, zero, suc, ◌+◌, ◌-◌, ◌/◌, ◌%◌, ◌^◌, ◌*◌, bit_xor, not, ◌||◌, Option, none, some, List, [], ◌∷◌,
  ◌++◌, length, take, ltb, ◌==◌, if◌then◌else◌, All, ◌≡◌,
}
use clienthellod.Outcome.{
  Error, Result, ok, err, panic, stuck, ◌>>=◌, some_or, short_read, invalid_input, decrypt_failed,
  builder_failed,
}
use clienthellod.Reader.{fill}
use clienthellod.Vli.Laws.{IsByte}
use clienthellod.Cryptobyte.{Cryptobyte}

-- `extract secret salt`; `expand key info n` is what a `Read` of `n` bytes gives and its error;
-- `key_error key` is the error of `aes.NewCipher`, and `gcm_error key` that of `cipher.NewGCM`;
-- `encrypt_block key block`; `open_gcm key nonce sealed additional` is `none` when the packet does not
-- authenticate.
pub record Ciphers : Type 0 where
  pub extract : List ℕ → List ℕ → List ℕ
  pub expand : List ℕ → List ℕ → ℕ → List ℕ × Option Error
  pub key_error : List ℕ → Option Error
  pub gcm_error : List ℕ → Option Error
  pub encrypt_block : List ℕ → List ℕ → List ℕ
  pub open_gcm : List ℕ → List ℕ → List ℕ → List ℕ → Option (List ℕ)

-- A block cipher and an AEAD work on bytes.
pub record ActsOnBytes (K : Ciphers) : Type 0 where
  pub encrypt_block-IsByte : (key block : List ℕ) → All IsByte (K.encrypt_block key block)
  pub open_gcm-IsByte :
      (key nonce sealed additional plain : List ℕ)
      → K.open_gcm key nonce sealed additional ≡ some plain
      → All IsByte plain

abbrev pub initial_salt : List ℕ
initial_salt =
    0x38 ∷ 0x76 ∷ 0x2c ∷ 0xf7 ∷ 0xf5 ∷ 0x59 ∷ 0x34 ∷ 0xb3 ∷ 0x4d ∷ 0x17 ∷ 0x9a ∷ 0xe6 ∷ 0xa4 ∷ 0xc8
    ∷ 0x0c ∷ 0xad ∷ 0xcc ∷ 0xbb ∷ 0x7f ∷ 0x0a ∷ []

-- The strings "tls13 ", "client in", "quic key", "quic iv" and "quic hp".
abbrev pub tls13 : List ℕ
tls13 = b't' ∷ b'l' ∷ b's' ∷ b'1' ∷ b'3' ∷ b' ' ∷ []

abbrev pub client_in : List ℕ
client_in = b'c' ∷ b'l' ∷ b'i' ∷ b'e' ∷ b'n' ∷ b't' ∷ b' ' ∷ b'i' ∷ b'n' ∷ []

abbrev pub quic_key : List ℕ
quic_key = b'q' ∷ b'u' ∷ b'i' ∷ b'c' ∷ b' ' ∷ b'k' ∷ b'e' ∷ b'y' ∷ []

abbrev pub quic_iv : List ℕ
quic_iv = b'q' ∷ b'u' ∷ b'i' ∷ b'c' ∷ b' ' ∷ b'i' ∷ b'v' ∷ []

abbrev pub quic_hp : List ℕ
quic_hp = b'q' ∷ b'u' ∷ b'i' ∷ b'c' ∷ b' ' ∷ b'h' ∷ b'p' ∷ []

-- The error of a step that may have one.
abbrev pub require : Option Error → Result (Unit {0})
require none = ok tt
require (some e) = err e

-- `xs[i] ^= v`
abbrev pub xor_at : ℕ → ℕ → List ℕ → List ℕ
xor_at i v [] = []
xor_at zero v (x ∷ xs) = bit_xor x v ∷ xs
xor_at (suc i) v (x ∷ xs) = x ∷ xor_at i v xs

-- The loop of `buildIV` from `i` on, `n` rounds before its end.
abbrev pub build_iv_loop : ℕ → ℕ → ℕ → List ℕ → List ℕ
build_iv_loop zero i seq iv = iv
build_iv_loop (suc n) i seq iv =
    build_iv_loop n (suc i) seq (xor_at (11 - i) (seq / 2 ^ (i * 8) % 256) iv)

-- The first round has the highest index.
unfoldable pub build_iv : List ℕ → ℕ → Result (List ℕ)
build_iv iv seq = if ltb (length iv) 12 then panic else ok (build_iv_loop 8 0 seq iv)

module _ (B : Cryptobyte) where
  -- The bytes of `hkdfLabel`; a part that is too long is the builder's error.
  unfoldable pub hkdf_label : List ℕ → List ℕ → ℕ → Option (List ℕ)
  hkdf_label label context len = elim (B.add_uint8_length_prefixed (tls13 ++ label)) [
    | none ↦ none
    | some l ↦ elim (B.add_uint8_length_prefixed context) [
      | none ↦ none
      | some c ↦ some (B.add_uint16 len ++ (l ++ c))
    ]
  ]

-- The `Read` of `len` bytes, which must give them all.
abbrev pub read_all : ℕ → List ℕ × Option Error → Result (List ℕ)
read_all len (out, some e) = err e
read_all len (out, none) = if length out == len then ok out else err short_read

-- The reader of the expanded key gives `len` bytes, if the label could be built.
abbrev pub expand_with : Ciphers → List ℕ → ℕ → Option (List ℕ) → Result (List ℕ)
expand_with K key len none = err builder_failed
expand_with K key len (some info) = read_all len (K.expand key info len)

module _ (B : Cryptobyte) (K : Ciphers) where
  unfoldable pub hkdf_expand_label : List ℕ → List ℕ → List ℕ → ℕ → Result (List ℕ)
  hkdf_expand_label key label context len = expand_with K key len (hkdf_label B label context len)

  -- The client's key, IV and header protection key.
  unfoldable pub client_initial_keys_calc : List ℕ → Result (List ℕ × List ℕ × List ℕ)
  client_initial_keys_calc initial_random = do
    client_secret ← hkdf_expand_label (K.extract initial_random initial_salt) client_in [] 32
    client_key ← hkdf_expand_label client_secret quic_key [] 16
    client_iv ← hkdf_expand_label client_secret quic_iv [] 12
    client_hp_key ← hkdf_expand_label client_secret quic_hp [] 16
    ok (client_key, client_iv, client_hp_key)

module _ (K : Ciphers) where
  -- `cipher.Encrypt` writes one block into sixteen bytes, of which five are returned.
  unfoldable pub compute_header_protection : List ℕ → List ℕ → Result (List ℕ)
  compute_header_protection client_hp_key sample =
      if not (length client_hp_key == 16) || not (length sample == 16) then panic else do
        made ← require (K.key_error client_hp_key)
        ok (take 5 (fill 16 (K.encrypt_block client_hp_key sample)))

  -- `aesgcm.Open` for a nonce that `buildIV` made of `iv`.
  unfoldable pub decrypt_with_nonce : List ℕ → List ℕ → List ℕ → List ℕ → List ℕ → Result (List ℕ)
  decrypt_with_nonce iv key ciphertext recdata authtag =
      if not (length iv == 12) || (not (length key == 16) || not (length authtag == 16))
      then err invalid_input
      else do
        checked ← require (K.key_error key)
        made ← require (K.gcm_error key)
        some_or decrypt_failed (K.open_gcm key iv (ciphertext ++ authtag) recdata)

  unfoldable pub decrypt_aes128_gcm :
      List ℕ → ℕ → List ℕ → List ℕ → List ℕ → List ℕ → Result (List ℕ)
  decrypt_aes128_gcm iv record_num key ciphertext recdata authtag = do
    nonce ← build_iv iv record_num
    decrypt_with_nonce nonce key ciphertext recdata authtag

-- ===== src/QuicCrypto/Nonce.antt =====
-- quic_crypto.go: `buildIV` and the nonce of RFC 9001, section 5.3.
use clienthellod.Common.{
  ℕ, zero, suc, ◌/◌, ◌^◌, ◌<◌, ◌≡◌, refl, ap, sym, bit_xor, List, [], ◌∷◌, length, get_or, subst,
  All, arith,
}
use clienthellod.Common.Bits.{bit_xor-zero}
use clienthellod.Outcome.{ok, panic}
use clienthellod.Vli.Laws.{IsByte}
use clienthellod.Hash.{be_bytes}
use clienthellod.QuicCrypto.{build_iv}

-- Byte by byte.
abbrev pub xor_bytes : List ℕ → List ℕ → List ℕ
xor_bytes [] m = []
xor_bytes (x ∷ xs) [] = x ∷ xs
xor_bytes (x ∷ xs) (m ∷ ms) = bit_xor x m ∷ xor_bytes xs ms

-- A list by its elements.
abbrev tabulate : ℕ → (ℕ → ℕ) → List ℕ
tabulate zero f = []
tabulate (suc n) f = f 0 ∷ tabulate n (λ i. f (suc i))

tabulate-get_or : (n : ℕ) (xs : List ℕ) → length xs ≡ n → tabulate n (λ i. get_or xs i 0) ≡ xs
tabulate-get_or zero [] e = refl
tabulate-get_or zero (x ∷ xs) e = absurd (omega arith)
tabulate-get_or (suc n) [] e = absurd (omega arith)
tabulate-get_or (suc n) (x ∷ xs) e = ap (◌∷◌ x) (tabulate-get_or n xs (omega arith))

build_iv-tabulate :
    (f : ℕ → ℕ) (seq : ℕ)
    → All IsByte (tabulate 12 f)
    → build_iv (tabulate 12 f) seq ≡ ok (xor_bytes (tabulate 12 f) (0 ∷ 0 ∷ 0 ∷ 0 ∷ be_bytes 8 seq))
unfolding build_iv
build_iv-tabulate f seq (a, (b, (c, (d, rest)))) =
    let s_0 : seq / 2 ^ 0 ≡ seq = omega arith in
    let s_16 : seq / 2 ^ 16 ≡ seq / 256 / 256 = omega arith in
    let s_24 : seq / 2 ^ 24 ≡ seq / 256 / 256 / 256 = omega arith in
    let s_32 : seq / 2 ^ 32 ≡ seq / 256 / 256 / 256 / 256 = omega arith in
    let s_40 : seq / 2 ^ 40 ≡ seq / 256 / 256 / 256 / 256 / 256 = omega arith in
    let s_48 : seq / 2 ^ 48 ≡ seq / 256 / 256 / 256 / 256 / 256 / 256 = omega arith in
    let s_56 : seq / 2 ^ 56 ≡ seq / 256 / 256 / 256 / 256 / 256 / 256 / 256 = omega arith in
    rw
      (
        bit_xor-zero (f 0) a,
        bit_xor-zero (f 1) b,
        bit_xor-zero (f 2) c,
        bit_xor-zero (f 3) d,
        s_56,
        s_48,
        s_40,
        s_32,
        s_24,
        s_16,
        s_0,
      )
      refl

-- An IV of twelve bytes is combined with the packet number, as a number of twelve bytes, byte by
-- byte. A shorter one makes `buildIV` panic.
pub build_iv-xor_bytes :
    (iv : List ℕ) (seq : ℕ)
    → All IsByte iv
    → ((length iv ≡ 12) → build_iv iv seq ≡ ok (xor_bytes iv (0 ∷ 0 ∷ 0 ∷ 0 ∷ be_bytes 8 seq)))
      × (length iv < 12 → build_iv iv seq ≡ panic)
unfolding build_iv
build_iv-xor_bytes iv seq bytes = (
  λ n.
      let e = tabulate-get_or 12 iv n in
      subst (λ v. build_iv v seq ≡ ok (xor_bytes v (0 ∷ 0 ∷ 0 ∷ 0 ∷ be_bytes 8 seq))) e
        (build_iv-tabulate (λ i. get_or iv i 0) seq (subst (All IsByte) (sym e) bytes)),
  λ short. ground arith,
)

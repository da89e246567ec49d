-- ===== src/Cryptobyte/Laws.antt =====
-- golang.org/x/crypto/cryptobyte: operations on bytes that were written before.
use clienthellod.Common.{ℕ, ◌+◌, ◌*◌, ◌/◌, ◌%◌, ◌≡◌, ap, ◌∙◌, arith, some, List, ◌∷◌, ◌++◌, length}
use clienthellod.Cryptobyte.{Cryptobyte, IsDocumented, split_at-append, drop_at-append}

-- A number of two bytes in front of `s`.
abbrev pub u16_before : ℕ → List ℕ → List ℕ
u16_before v s = (v / 256) ∷ (v % 256) ∷ s

-- A string behind its length.
abbrev pub prefixed16_before : List ℕ → List ℕ → List ℕ
prefixed16_before bs s = u16_before (length bs) (bs ++ s)

abbrev pub prefixed8_before : List ℕ → List ℕ → List ℕ
prefixed8_before bs s = length bs ∷ (bs ++ s)

module _ (B : Cryptobyte) (documented : IsDocumented B) where
  pub read_u16 : (v : ℕ) (s : List ℕ) → B.read_uint16 (u16_before v s) ≡ some (v, s)
  read_u16 v s =
      let value : v / 256 * 256 + v % 256 ≡ v = omega arith in
      documented.read_uint16-some (v / 256) (v % 256) s ∙ ap (λ w. some (w, s)) value

  pub read_prefixed16 :
      (bs s : List ℕ) → B.read_uint16_length_prefixed (prefixed16_before bs s) ≡ some (bs, s)
  read_prefixed16 bs s =
      let n = length bs in
      let value : n / 256 * 256 + n % 256 ≡ n = omega arith in
      documented.read_uint16_length_prefixed-some (n / 256) (n % 256) (bs ++ s)
      ∙ rw value (split_at-append bs s)

  pub read_prefixed8 :
      (bs s : List ℕ) → B.read_uint8_length_prefixed (prefixed8_before bs s) ≡ some (bs, s)
  read_prefixed8 bs s =
      documented.read_uint8_length_prefixed-some (length bs) (bs ++ s) ∙ split_at-append bs s

  pub skip_bytes : (bs s : List ℕ) → B.skip (length bs) (bs ++ s) ≡ some s
  skip_bytes bs s = documented.skip_lem (length bs) (bs ++ s) ∙ drop_at-append bs s

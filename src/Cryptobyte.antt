-- ===== src/Cryptobyte.antt =====
-- What the program uses of golang.org/x/crypto/cryptobyte: a record of its operations, and what
-- their documentation says of them. A `cryptobyte.String` is its bytes; an operation that reads
-- returns what it read and the rest, or `none` for false.
pub mod Laws
use clienthellod.Common.{
  ℕ, ◌+◌, ◌*◌, ◌/◌, ◌%◌, ◌++◌, ◌≡◌, ◌<◌, refl, arith, true, false, length-append,
  take-length_append, drop-length_append, Option, none, some, List, [], ◌∷◌, length, take, drop,
  ltb, if◌then◌else◌,
}

pub record Cryptobyte : Type 0 where
  pub skip : ℕ → List ℕ → Option (List ℕ)
  pub read_uint8 : List ℕ → Option (ℕ × List ℕ)
  pub read_uint16 : List ℕ → Option (ℕ × List ℕ)
  pub read_uint8_length_prefixed : List ℕ → Option (List ℕ × List ℕ)
  pub read_uint16_length_prefixed : List ℕ → Option (List ℕ × List ℕ)
  pub add_uint16 : ℕ → List ℕ
  pub add_uint8_length_prefixed : List ℕ → Option (List ℕ)

-- The first `n` bytes and the rest, when there are so many.
abbrev pub split_at : ℕ → List ℕ → Option (List ℕ × List ℕ)
split_at n s = if ltb (length s) n then none else some (take n s, drop n s)

-- The rest alone.
abbrev pub drop_at : ℕ → List ℕ → Option (List ℕ)
drop_at n s = if ltb (length s) n then none else some (drop n s)

pub split_at-append : (xs ys : List ℕ) → split_at (length xs) (xs ++ ys) ≡ some (xs, ys)
split_at-append xs ys =
    let fits : ltb (length (xs ++ ys)) (length xs) ≡ false =
      (let size = length-append xs ys in ground arith) in
    rw (fits, take-length_append xs ys, drop-length_append xs ys) refl

pub drop_at-append : (xs ys : List ℕ) → drop_at (length xs) (xs ++ ys) ≡ some ys
drop_at-append xs ys =
    let fits : ltb (length (xs ++ ys)) (length xs) ≡ false =
      (let size = length-append xs ys in ground arith) in
    rw (fits, drop-length_append xs ys) refl

-- A prefix of one byte holds a length up to 255.
abbrev pub with_prefix : List ℕ → Option (List ℕ)
with_prefix s = if ltb 255 (length s) then none else some (length s ∷ s)

pub record IsDocumented (B : Cryptobyte) : Type 0 where
  pub skip_lem : (n : ℕ) (s : List ℕ) → B.skip n s ≡ drop_at n s
  pub read_uint8-some : (a : ℕ) (s : List ℕ) → B.read_uint8 (a ∷ s) ≡ some (a, s)
  pub read_uint8-nil : B.read_uint8 [] ≡ none
  pub read_uint16-some : (a b : ℕ) (s : List ℕ) → B.read_uint16 (a ∷ b ∷ s) ≡ some (a * 256 + b, s)
  pub read_uint16_short : (s : List ℕ) → length s < 2 → B.read_uint16 s ≡ none
  pub read_uint8_length_prefixed-some :
      (n : ℕ) (s : List ℕ) → B.read_uint8_length_prefixed (n ∷ s) ≡ split_at n s
  pub read_uint8_length_prefixed-nil : B.read_uint8_length_prefixed [] ≡ none
  pub read_uint16_length_prefixed-some :
      (a b : ℕ) (s : List ℕ) → B.read_uint16_length_prefixed (a ∷ b ∷ s) ≡ split_at (a * 256 + b) s
  pub read_uint16_length_prefixed_short :
      (s : List ℕ) → length s < 2 → B.read_uint16_length_prefixed s ≡ none
  pub add_uint16_lem : (v : ℕ) → B.add_uint16 v ≡ (v / 256 % 256) ∷ (v % 256) ∷ []
  pub add_uint8_length_prefixed_lem : (s : List ℕ) → B.add_uint8_length_prefixed s ≡ with_prefix s

abbrev read_one : List ℕ → Option (ℕ × List ℕ)
read_one [] = none
read_one (a ∷ s) = some (a, s)

abbrev read_two : List ℕ → Option (ℕ × List ℕ)
read_two (a ∷ b ∷ s) = some (a * 256 + b, s)
read_two (a ∷ []) = none
read_two [] = none

abbrev prefixed_by_one : List ℕ → Option (List ℕ × List ℕ)
prefixed_by_one [] = none
prefixed_by_one (n ∷ s) = split_at n s

abbrev prefixed_by_two : List ℕ → Option (List ℕ × List ℕ)
prefixed_by_two (a ∷ b ∷ s) = split_at (a * 256 + b) s
prefixed_by_two (a ∷ []) = none
prefixed_by_two [] = none

read_two_short : (s : List ℕ) → length s < 2 → read_two s ≡ none
read_two_short (a ∷ b ∷ s) h = absurd (omega arith)
read_two_short (a ∷ []) h = refl
read_two_short [] h = refl

prefixed_by_two_short : (s : List ℕ) → length s < 2 → prefixed_by_two s ≡ none
prefixed_by_two_short (a ∷ b ∷ s) h = absurd (omega arith)
prefixed_by_two_short (a ∷ []) h = refl
prefixed_by_two_short [] h = refl

-- The operations as documented.
abbrev pub plain_cryptobyte : Cryptobyte
plain_cryptobyte = record {
  skip = drop_at;
  read_uint8 = read_one;
  read_uint16 = read_two;
  read_uint8_length_prefixed = prefixed_by_one;
  read_uint16_length_prefixed = prefixed_by_two;
  add_uint16 = λ v. (v / 256 % 256) ∷ (v % 256) ∷ [];
  add_uint8_length_prefixed = with_prefix;
}

pub plain_cryptobyte-IsDocumented : IsDocumented plain_cryptobyte
plain_cryptobyte-IsDocumented = record {
  skip_lem = λ n s. refl;
  read_uint8-some = λ a s. refl;
  read_uint8-nil = refl;
  read_uint16-some = λ a b s. refl;
  read_uint16_short = read_two_short;
  read_uint8_length_prefixed-some = λ n s. refl;
  read_uint8_length_prefixed-nil = refl;
  read_uint16_length_prefixed-some = λ a b s. refl;
  read_uint16_length_prefixed_short = prefixed_by_two_short;
  add_uint16_lem = λ v. refl;
  add_uint8_length_prefixed_lem = λ s. refl;
}

-- ===== src/Vli/RoundTrip.antt =====
-- quic_common.go: variable-length integers and an encoder by RFC 9000.
use clienthellod.Common.{
  ℕ, zero, suc, ◌+◌, ◌-◌, ◌*◌, ◌/◌, ◌%◌, ◌^◌, ◌≤◌, ◌<◌, ◌≡◌, ◌↔◌, refl, sym, ap, ◌∙◌, arith, true,
  false, List, [], ◌∷◌, ◌++◌, length, drop, All, All-append, append-nil, ltb, if◌then◌else◌,
}
use clienthellod.Outcome.{ok}
use clienthellod.Reader.{Reader, content, bytes_reader, fill}
use clienthellod.Reader.Laws.{IsReady-of_IsDrained, Drained, both_ok, both_err, both_panic}
use clienthellod.Vli.{read_next_vli, decode_vli, is_grease_transport_parameter}
use clienthellod.Vli.Laws.{IsByte, width, big_endian, spec_vli, spec_rest, read_next_vli-Agrees}

-- The shortest encoding of a number below 2 ^ 62 (RFC 9000, section 16).
abbrev pub encode_vli : ℕ → List ℕ
encode_vli v =
    if ltb v 64
    then v ∷ []
    else if ltb v 16384
    then (64 + v / 256) ∷ (v % 256) ∷ []
    else if ltb v (2 ^ 30)
    then (128 + v / 2 ^ 24) ∷ (v / 65536 % 256) ∷ (v / 256 % 256) ∷ (v % 256) ∷ []
    else (192 + v / 2 ^ 56)
      ∷ (v / 2 ^ 48 % 256)
      ∷ (v / 2 ^ 40 % 256)
      ∷ (v / 2 ^ 32 % 256)
      ∷ (v / 2 ^ 24 % 256)
      ∷ (v / 65536 % 256)
      ∷ (v / 256 % 256)
      ∷ (v % 256)
      ∷ []

pub spec_vli-one : (v : ℕ) (rest : List ℕ) → v < 64 → spec_vli (v ∷ rest) ≡ ok ((v, 1), rest)
unfolding spec_vli spec_rest
spec_vli-one v rest h = ground arith

spec_vli-two :
    (v : ℕ) (rest : List ℕ)
    → v < 16384
    → spec_vli ((64 + v / 256) ∷ (v % 256) ∷ rest) ≡ ok ((v, 2), rest)
unfolding spec_vli spec_rest
spec_vli-two v rest h = ground arith

spec_vli-four :
    (v : ℕ) (rest : List ℕ)
    → v < 2 ^ 30
    → spec_vli ((128 + v / 2 ^ 24) ∷ (v / 65536 % 256) ∷ (v / 256 % 256) ∷ (v % 256) ∷ rest)
      ≡ ok ((v, 4), rest)
unfolding spec_vli spec_rest
spec_vli-four v rest h = ground arith

spec_vli-eight :
    (v : ℕ) (rest : List ℕ)
    → v < 2 ^ 62
    → spec_vli (
        (192 + v / 2 ^ 56)
        ∷ (v / 2 ^ 48 % 256)
        ∷ (v / 2 ^ 40 % 256)
        ∷ (v / 2 ^ 32 % 256)
        ∷ (v / 2 ^ 24 % 256)
        ∷ (v / 65536 % 256)
        ∷ (v / 256 % 256)
        ∷ (v % 256)
        ∷ rest)
      ≡ ok ((v, 8), rest)
unfolding spec_vli spec_rest
spec_vli-eight v rest h = ground arith

pub spec_vli-encode :
    (v : ℕ) (rest : List ℕ)
    → v < 2 ^ 62
    → spec_vli (encode_vli v ++ rest) ≡ ok ((v, length (encode_vli v)), rest)
spec_vli-encode v rest h =
    ground (
      arith,
      spec_vli-one v rest,
      spec_vli-two v rest,
      spec_vli-four v rest,
      spec_vli-eight v rest h,
    )

pub encode_vli-IsByte : (v : ℕ) → v < 2 ^ 62 → All IsByte (encode_vli v)
encode_vli-IsByte v h = ground arith

drop_all : (n : ℕ) (s : List ℕ) → length s ≤ n → drop n s ≡ []
drop_all zero [] h = refl
drop_all zero (b ∷ s) h = absurd (omega arith)
drop_all (suc n) [] h = refl
drop_all (suc n) (b ∷ s) h = drop_all n s (omega arith)

spec_vli_truncated :
    (b c : ℕ) (s : List ℕ) (w : ℕ)
    → width b ≡ w
    → length (b ∷ c ∷ s) < w
    → spec_vli (b ∷ c ∷ s) ≡ ok ((big_endian (b % 64) (fill (w - 1) (c ∷ s)), w), [])
unfolding spec_vli spec_rest
spec_vli_truncated b c s zero e l = absurd (omega arith)
spec_vli_truncated b c s (suc zero) e l = absurd (omega arith)
spec_vli_truncated b c s (suc (suc m)) e l =
    let less : suc (suc m) - 1 ≡ suc m = omega arith in rw (e, less, drop_all m s (omega arith))

-- What `ReadNextVLI` does on a reader that has just been read from.
pub of_spec :
    (r : Reader) {p : ℕ × ℕ} {t : List ℕ}
    → Drained false r
    → All IsByte (content r)
    → spec_vli (content r) ≡ ok (p, t)
    → (r' : Reader) × (read_next_vli r ≡ ok (p, r')) × (content r' ≡ t) × Drained false r'
of_spec r {p} {t} d h e = elim (read_next_vli-Agrees false r (IsReady-of_IsDrained r d.0, d.1) h) [
  | both_ok a r' q q' d' ↦
      let ea : a ≡ p = cc in
      let et : content r' ≡ t = cc in (r', q ∙ ap (λ a. ok (a, r')) ea, et, d')
  | both_err x q q' ↦ cc
  | both_panic q q' ↦ cc
]

-- For every number below 2 ^ 62 and all bytes behind its encoding, `ReadNextVLI` returns the
-- number, with the length of the encoding, and a reader that has just the bytes behind it left.
pub read_next_vli-encode :
    (v : ℕ) (rest : List ℕ)
    → v < 2 ^ 62
    → All IsByte rest
    → (r : Reader) × (read_next_vli (bytes_reader (encode_vli v ++ rest))
        ≡ ok ((v, length (encode_vli v)), r))
      × (content r ≡ rest)
read_next_vli-encode v rest h k =
    let (r, e, c, d) =
      of_spec (bytes_reader (encode_vli v ++ rest)) (tt, tt)
        (All-append IsByte _ rest (encode_vli-IsByte v h) k) (spec_vli-encode v rest h) in
    (r, e, c)

-- `DecodeVLI` inverts the encoding of every number below 2 ^ 62.
pub decode_vli-encode : (v : ℕ) → v < 2 ^ 62 → decode_vli (encode_vli v) ≡ ok v
unfolding decode_vli
decode_vli-encode v h =
    let (r, e, c, d) =
      of_spec (bytes_reader (encode_vli v)) (tt, tt) (encode_vli-IsByte v h)
        (ap spec_vli (sym (append-nil (encode_vli v))) ∙ spec_vli-encode v [] h) in
    rw e (ground arith)

-- An integer that is cut short, with at least one byte behind the first, is no error: the
-- missing bytes count as zeros, and the announced length is returned.
pub read_next_vli_truncated :
    (b c : ℕ) (s : List ℕ)
    → All IsByte (b ∷ c ∷ s)
    → length (b ∷ c ∷ s) < width b
    → (r : Reader) × (read_next_vli (bytes_reader (b ∷ c ∷ s))
        ≡ ok ((big_endian (b % 64) (fill (width b - 1) (c ∷ s)), width b), r))
      × (content r ≡ [])
read_next_vli_truncated b c s h l =
    let (r, e, n, d) =
      of_spec (bytes_reader (b ∷ c ∷ s)) (tt, tt) h (spec_vli_truncated b c s (width b) refl l) in
    (r, e, n)

-- `paramType` is reserved exactly if it is `31 * N + 27` for some `N` (RFC 9000, section 18.1).
pub is_grease_transport_parameter_iff :
    (t : ℕ) → (is_grease_transport_parameter t ≡ true) ↔ ((n : ℕ) × (t ≡ 31 * n + 27))
unfolding is_grease_transport_parameter
is_grease_transport_parameter_iff t = (λ h. ((t - 27) / 31, ground arith), λ (n, e). ground arith)

-- ===== src/Packet/Laws.antt =====
-- quic_common.go: the steps of the packet decoder on any datagram.
use clienthellod.Common.{
  ℕ, zero, suc, ◌+◌, ◌-◌, ◌^◌, ◌≤◌, ◌<◌, ◌≡◌, refl, arith, true, false, not, if-cases, bit_and,
  List, [], ◌∷◌, All, All-drop, ltb, ◌==◌, length, take, drop, length-take, length-drop,
}
use clienthellod.Outcome.{
  Error, Result, ok, err, panic, stuck, some_or, token_too_long, payload_too_long, bad_dcid,
  bad_scid,
}
use clienthellod.Outcome.Ensures.{Ensures, >>=-Ensures, Ensures-weaken}
use clienthellod.Reader.{Reader, content, bytes_reader, read}
use clienthellod.Vli.{read_next_vli}
use clienthellod.Vli.Laws.{IsByte, width, spec_rest, spec_vli, spec_vli_bounds}
use clienthellod.Vli.Plain.{as_reader, read_next_vli-as_reader}
use clienthellod.Cryptobyte.{Cryptobyte, IsDocumented, split_at, drop_at}
use clienthellod.Hash.{be_value}
use clienthellod.Packet.{
  slice, filled, read_announced, read_payload, Parts, read_connection_ids, check_kind,
  check_first_bytes, read_token_and_payload, read_parts,
}

abbrev IsVli : ℕ → (ℕ × ℕ) × Reader → Type 0
IsVli n ((v, w), r) =
    v < 2 ^ 62 × (r ≡ bytes_reader (content r)) × All IsByte (content r) × (length (content r) ≤ n)

spec_rest_ends : (b w : ℕ) (s : List ℕ) → Ensures (λ p. Unit {0}) (spec_rest b w s)
unfolding spec_rest
spec_rest_ends b zero s = tt
spec_rest_ends b (suc zero) s = tt
spec_rest_ends b (suc (suc n)) [] = tt
spec_rest_ends b (suc (suc n)) (c ∷ s) = tt

spec_vli_ends : (s : List ℕ) → Ensures (λ p. Unit {0}) (spec_vli s)
unfolding spec_vli
spec_vli_ends [] = tt
spec_vli_ends (b ∷ s) = spec_rest_ends b (width b) s

as_reader-Ensures :
    (s : List ℕ) (f : Result ((ℕ × ℕ) × List ℕ))
    → All IsByte s
    → spec_vli s ≡ f
    → Ensures (λ p. Unit {0}) f
    → Ensures (IsVli (length s)) (as_reader f)
as_reader-Ensures s (ok ((v, w), t)) h e k =
    let bounds = spec_vli_bounds s v w t h e in
    let shorter = bounds.shorter in (bounds.value_lt, refl, bounds.rest-IsByte, omega arith)
as_reader-Ensures s (err x) h e k = tt
as_reader-Ensures s panic h e k = k
as_reader-Ensures s stuck h e k = k

read_next_vli-Ensures :
    (s : List ℕ) → All IsByte s → Ensures (IsVli (length s)) (read_next_vli (bytes_reader s))
read_next_vli-Ensures s h =
    rw (read_next_vli-as_reader s h) (as_reader-Ensures s (spec_vli s) h refl (spec_vli_ends s))

pub All-take : (n : ℕ) (xs : List ℕ) → All IsByte xs → All IsByte (take n xs)
All-take zero xs h = tt
All-take (suc n) [] h = tt
All-take (suc n) (x ∷ xs) h = (h.0, All-take n xs h.1)

-- A slice within its bounds.
pub slice-ok :
    (xs : List ℕ) (a b : ℕ) → a ≤ b → b ≤ length xs → slice xs a b ≡ ok (take (b - a) (drop a xs))
unfolding slice
slice-ok xs a b h k = ground arith

-- The slice that was read has the announced length, and the reader is behind it.
abbrev IsAnnounced : ℕ → ℕ → List ℕ × Reader → Type 0
IsAnnounced n m (bs, r) =
    (length bs ≡ n)
    × All IsByte bs
    × (r ≡ bytes_reader (content r))
    × All IsByte (content r)
    × (n + length (content r) ≤ m)

filled-Ensures :
    (n : ℕ) (s : List ℕ)
    → All IsByte s
    → n ≤ length s
    → Ensures (IsAnnounced n (length s)) (filled n (read (bytes_reader s) n))
unfolding read
filled-Ensures n [] h k = tt
filled-Ensures n (b ∷ s) h k =
    let whole : length (take n (b ∷ s)) ≡ n = omega (arith, length-take n (b ∷ s)) in
    let same : (length (take n (b ∷ s)) == n) ≡ true = ground arith in
    rw same (
      whole,
      All-take n (b ∷ s) h,
      refl,
      All-drop IsByte n (b ∷ s) h,
      omega (arith, length-drop n (b ∷ s)),
    )

module _ (max_slice : ℕ) where
  read_announced-Ensures :
      (e : Error) (s : List ℕ) (n : ℕ)
      → All IsByte s
      → length s ≤ max_slice
      → Ensures (IsAnnounced n (length s)) (read_announced max_slice e (bytes_reader s) n)
  unfolding read_announced
  read_announced-Ensures e s n bytes small =
      if-cases (Ensures (IsAnnounced n (length s))) (ltb (length s) n) (λ short. tt)
        (λ there.
          let made : ltb max_slice n ≡ false = ground arith in
          rw made (filled-Ensures n s bytes (ground arith)))

  -- The payload has room for the sample, and the bytes that are left lie behind it.
  abbrev IsPayload : ℕ → List ℕ × Reader → Type 0
  IsPayload m (payload, r) =
      All IsByte payload × 20 ≤ length payload × (length payload + length (content r) ≤ m)

  announced-IsPayload :
      (n k m : ℕ) → 20 ≤ n → k ≤ m → (p : List ℕ × Reader) → IsAnnounced n k p → IsPayload m p
  announced-IsPayload n k m enough le (payload, r) (e, bytes, plain, rest, fits) =
      (bytes, omega arith, omega arith)

  read_payload-Ensures :
      (s : List ℕ)
      → All IsByte s
      → length s ≤ max_slice
      → Ensures (IsPayload (length s)) (read_payload max_slice (bytes_reader s))
  unfolding read_payload
  read_payload-Ensures s h small =
      let P = IsPayload (length s) in
      >>=-Ensures (IsVli (length s)) P _ _ (read_next_vli-Ensures s h) λ ((n, w), r) p.
        let (l, plain, bytes, fits) = p in
        if-cases (Ensures P) (ltb n 20) (λ short. tt)
          λ long. rw plain (
            Ensures-weaken (IsAnnounced n (length (content r))) P
              (announced-IsPayload n (length (content r)) (length s) (ground arith) fits) _
              (read_announced-Ensures payload_too_long (content r) n bytes (omega arith)))

  abbrev pub IsRead : ℕ → ℕ × List ℕ × Reader → Type 0
  IsRead m (token_len, payload, r) = IsPayload m (payload, r)

  pub read_token_and_payload-Ensures :
      (s : List ℕ)
      → All IsByte s
      → length s ≤ max_slice
      → Ensures (IsRead (length s)) (read_token_and_payload max_slice (bytes_reader s))
  unfolding read_token_and_payload
  read_token_and_payload-Ensures s h small =
      let P = IsRead (length s) in
      >>=-Ensures (IsVli (length s)) P _ _ (read_next_vli-Ensures s h) λ ((token_len, w), r₁) p₁.
        let (l₁, q₁, h₁, k₁) = p₁ in
        rw q₁ (
          >>=-Ensures (IsAnnounced token_len (length (content r₁))) P _ _
            (read_announced-Ensures token_too_long (content r₁) token_len h₁ (omega arith))
            λ (token, r₂) p₂.
              let (e₂, g₂, q₂, h₂, k₂) = p₂ in
              rw q₂ (
                >>=-Ensures (IsPayload (length (content r₂))) P _ _
                  (read_payload-Ensures (content r₂) h₂ (omega arith))
                  λ (payload, r₃) p₃. let (g₃, e₃, k₃) = p₃ in (g₃, e₃, omega arith)))

-- Bytes that were taken from the front of `s`, and those left.
abbrev IsSplit : ℕ → ℕ → List ℕ × List ℕ → Type 0
IsSplit n m (front, rest) = (length front ≤ n) × All IsByte rest × (length rest ≤ m)

split_at-Ensures :
    (e : Error) (n : ℕ) (s : List ℕ)
    → All IsByte s
    → Ensures (IsSplit n (length s)) (some_or e (split_at n s))
split_at-Ensures e n s h =
    if-cases (λ o. Ensures (IsSplit n (length s)) (some_or e o)) (ltb (length s) n) (λ short. tt)
      (λ fits.
        (omega (arith, length-take n s), All-drop IsByte n s h, omega (arith, length-drop n s)))

abbrev IsTail : ℕ → List ℕ → Type 0
IsTail m s = All IsByte s × (length s ≤ m)

drop_at-Ensures :
    (e : Error) (n : ℕ) (s : List ℕ)
    → All IsByte s
    → Ensures (IsTail (length s)) (some_or e (drop_at n s))
drop_at-Ensures e n s h =
    if-cases (λ o. Ensures (IsTail (length s)) (some_or e o)) (ltb (length s) n) (λ short. tt)
      (λ fits. (All-drop IsByte n s h, omega (arith, length-drop n s)))

abbrev IsHead : ℕ → ℕ × List ℕ → Type 0
IsHead m (b, s) = IsByte b × All IsByte s × (length s ≤ m)

-- The ids are read from the front, and bytes are left behind.
abbrev pub AreIds : ℕ → List ℕ × ℕ × List ℕ → Type 0
AreIds m (random, scid_length, rest) =
    length random < 256 × scid_length < 256 × All IsByte rest × (length rest ≤ m)

module _ (B : Cryptobyte) (documented : IsDocumented B) where
  read_uint8_length_prefixed-Ensures :
      (e : Error) (p : List ℕ)
      → All IsByte p
      → Ensures (IsSplit 255 (length p)) (some_or e (B.read_uint8_length_prefixed p))
  read_uint8_length_prefixed-Ensures e [] h = rw documented.read_uint8_length_prefixed-nil tt
  read_uint8_length_prefixed-Ensures e (n ∷ s) h =
      rw (documented.read_uint8_length_prefixed-some n s) (
        Ensures-weaken (IsSplit n (length s)) (IsSplit 255 (length (n ∷ s)))
          (λ p q.
            let (short, bytes, fits) = q in let small = h.0 in (omega arith, bytes, omega arith))
          _ (split_at-Ensures e n s h.1))

  read_uint8-Ensures :
      (e : Error) (p : List ℕ)
      → All IsByte p
      → Ensures (IsHead (length p)) (some_or e (B.read_uint8 p))
  read_uint8-Ensures e [] h = rw documented.read_uint8-nil tt
  read_uint8-Ensures e (n ∷ s) h = rw (documented.read_uint8-some n s) (h.0, h.1, omega arith)

  pub read_connection_ids-Ensures :
      (p : List ℕ) → All IsByte p → Ensures (AreIds (length p)) (read_connection_ids B p)
  unfolding read_connection_ids
  read_connection_ids-Ensures p h =
      let P = AreIds (length p) in
      >>=-Ensures (IsSplit 255 (length p)) P _ _ (read_uint8_length_prefixed-Ensures bad_dcid p h)
        λ (random, s₁) p₁.
          let (e₁, h₁, k₁) = p₁ in
          >>=-Ensures (IsHead (length s₁)) P _ _ (read_uint8-Ensures bad_scid s₁ h₁)
            λ (scid_length, s₂) p₂.
              let (b₂, h₂, k₂) = p₂ in
              rw (documented.skip_lem scid_length s₂) (
                >>=-Ensures (IsTail (length s₂)) P _ _ (drop_at-Ensures bad_scid scid_length s₂ h₂)
                  λ s₃ p₃. let (h₃, k₃) = p₃ in (omega arith, b₂, h₃, omega arith))

-- Version 1, and the first byte of an Initial packet.
abbrev pub IsChecked : ℕ → ℕ × List ℕ → Type 0
IsChecked m (b, version) = IsByte b × (version ≡ 0 ∷ 0 ∷ 0 ∷ 1 ∷ []) × 7 ≤ m

version_one :
    (a b c d : ℕ)
    → All IsByte (a ∷ b ∷ c ∷ d ∷ [])
    → (be_value 0 (a ∷ b ∷ c ∷ d ∷ []) == 1) ≡ true
    → (a ∷ b ∷ c ∷ d ∷ []) ≡ (0 ∷ 0 ∷ 0 ∷ 1 ∷ [])
version_one a b c d h e =
    let (ha, (hb, (hc, (hd, end)))) = h in
    let (ea, eb, ec, ed) : (a ≡ 0) × (b ≡ 0) × (c ≡ 0) × (d ≡ 1) =
      (ground arith, ground arith, ground arith, ground arith) in
    rw (ea, eb, ec, ed) refl

check_kind-Ensures :
    (x a b c d n : ℕ)
    → All IsByte (x ∷ a ∷ b ∷ c ∷ d ∷ [])
    → 7 ≤ n
    → Ensures (IsChecked n) (check_kind x (a ∷ b ∷ c ∷ d ∷ []))
check_kind-Ensures x a b c d n (hx, hs) long =
    if-cases (Ensures (IsChecked n)) (not (bit_and x 0xc0 == 0xc0)) (λ other. tt)
      λ header.
        if-cases (Ensures (IsChecked n)) (not (bit_and x 0x30 == 0)) (λ other. tt)
          λ initial.
            if-cases (Ensures (IsChecked n)) (not (be_value 0 (a ∷ b ∷ c ∷ d ∷ []) == 1))
              (λ other. tt) (λ one. (hx, version_one a b c d hs (ground arith), long))

check_first_bytes-Ensures :
    (p : List ℕ) → All IsByte p → Ensures (IsChecked (length p)) (check_first_bytes p)
unfolding check_first_bytes
check_first_bytes-Ensures [] h = tt
check_first_bytes-Ensures (x ∷ []) h = tt
check_first_bytes-Ensures (x ∷ a ∷ []) h = tt
check_first_bytes-Ensures (x ∷ a ∷ b ∷ []) h = tt
check_first_bytes-Ensures (x ∷ a ∷ b ∷ c ∷ []) h = tt
check_first_bytes-Ensures (x ∷ a ∷ b ∷ c ∷ d ∷ s) (hx, (ha, (hb, (hc, (hd, hs))))) =
    let p = x ∷ a ∷ b ∷ c ∷ d ∷ s in
    if-cases (Ensures (IsChecked (length p))) (ltb (length p) 7) (λ short. tt)
      λ long.
        rw (slice-ok p 1 5 (omega arith) (omega arith))
          (check_kind-Ensures x a b c d (length p) (hx, (ha, (hb, (hc, (hd, tt))))) (ground arith))

-- What is known of the parts of the datagram `p`.
pub record AreParts (p : List ℕ) (parts : Parts) : Type 0 where
  pub protected_byte-IsByte : IsByte parts.protected_byte
  pub version_lem : parts.version ≡ 0 ∷ 0 ∷ 0 ∷ 1 ∷ []
  pub random_lt : length parts.initial_random < 256
  pub scid_lt : parts.scid_length < 256
  pub payload-IsByte : All IsByte parts.payload
  pub sample_fits : 20 ≤ length parts.payload
  pub header_fits : 5 + length parts.payload + parts.left ≤ length p

module _ (B : Cryptobyte) (documented : IsDocumented B) (max_slice : ℕ) where
  pub read_parts-Ensures :
      (p : List ℕ)
      → All IsByte p
      → length p ≤ max_slice
      → Ensures (AreParts p) (read_parts B max_slice p)
  unfolding read_parts
  read_parts-Ensures p h small =
      let P = AreParts p in
      >>=-Ensures (IsChecked (length p)) P _ _ (check_first_bytes-Ensures p h) λ (b, version) p₁.
        let (hb, hv, long) = p₁ in
        let shorter : length (take (length p - 5) (drop 5 p)) ≡ length p - 5 =
          omega (arith, length-take (length p - 5) (drop 5 p), length-drop 5 p) in
        let rest = take (length p - 5) (drop 5 p) in
        rw (slice-ok p 5 (length p) (omega arith) (omega arith)) (
          >>=-Ensures (AreIds (length rest)) P _ _
            (read_connection_ids-Ensures B documented rest
              (All-take (length p - 5) (drop 5 p) (All-drop IsByte 5 p h)))
            λ (random, scid_length, s) p₂.
              let (r₂, s₂, h₂, k₂) = p₂ in
              >>=-Ensures (IsRead max_slice (length s)) P _ _
                (read_token_and_payload-Ensures max_slice s h₂ (omega arith))
                λ (token_len, payload, r) p₃.
                  let (h₃, l₃, k₃) = p₃ in
                  record {
                    protected_byte-IsByte = hb;
                    version_lem = hv;
                    random_lt = r₂;
                    scid_lt = s₂;
                    payload-IsByte = h₃;
                    sample_fits = l₃;
                    header_fits = omega arith;
                  })

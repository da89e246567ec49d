-- ===== src/Frame/Laws.antt =====
-- quic_frame.go: the parsers of single frames over a stack of readers, and over flat bytes.
use clienthellod.Common.{
  ℕ, zero, suc, ◌+◌, ◌%◌, ◌^◌, ◌<◌, ◌≡◌, refl, sym, ap, ◌∙◌, arith, Bool, true, false, none, some,
  List, [], ◌∷◌, length, take, drop, All, get_or, ltb, ◌==◌, if◌then◌else◌, Bool-cases, inl, inr,
}
use clienthellod.Outcome.{Result, ok, err, panic, ◌>>=◌, eof, unknown_frame_type}
use clienthellod.Reader.{Reader, content, read, fill, new_rewind_reader, rewind_reader}
use clienthellod.Reader.Laws.{
  Drained, Ready, Agrees, Agrees-bind, both_ok, both_err, both_panic, flat_read, read-Reads,
  read-IsBuffered, read_into-Agrees, read_none-Agrees, flat_failed, IsReady-of_IsDrained,
}
use clienthellod.Vli.Laws.{IsByte, spec_vli, spec_vli_bounds, read_next_vli-Agrees}
use clienthellod.Frame.{
  Frame, padding, ping, crypto, padding_loop, read_padding, read_data, read_crypto, read_frame,
}

-- Leading zero bytes, and what follows them.
abbrev pub zeros : List ℕ → ℕ
zeros [] = 0
zeros (b ∷ s) = elim (b == 0) [ true ↦ suc (zeros s) | false ↦ 0 ]

abbrev pub skip_zeros : List ℕ → List ℕ
skip_zeros [] = []
skip_zeros (b ∷ s) = elim (b == 0) [ true ↦ skip_zeros s | false ↦ b ∷ s ]

-- The bytes of a CRYPTO frame: a short stream is padded with zeros, an empty one is an error
-- unless nothing is wanted.
unfoldable pub spec_data : ℕ → ℕ → List ℕ → Result (List ℕ × List ℕ)
spec_data max_slice zero s = ok ([], s)
spec_data max_slice (suc n) s = if ltb max_slice (suc n) then panic else flat_read (suc n) s

unfoldable pub spec_crypto : ℕ → List ℕ → Result (Frame × List ℕ)
spec_crypto max_slice s = do
  ((off, n), s₁) ← spec_vli s
  ((len, m), s₂) ← spec_vli s₁
  (bytes, s₃) ← spec_data max_slice len s₂
  ok (crypto off len bytes, s₃)

unfoldable pub spec_frame : ℕ → ℕ → List ℕ → Result (Frame × List ℕ)
spec_frame max_slice t s =
    if t == 0
    then ok (padding ((1 + zeros s) % 2 ^ 64), skip_zeros s)
    else if t == 1
    then ok (ping, s)
    else if t == 6
    then spec_crypto max_slice s
    else err unknown_frame_type

-- One byte read from a drained reader over a buffer, by the shape of the stream.
record Ended (r : Reader) : Type 0 where
  failed_lem : (read r 1).failed ≡ some eof
  rest_lem : content (read r 1).rest ≡ []
  rest-Drained : Drained true (read r 1).rest

record Gave (r : Reader) (b : ℕ) (s : List ℕ) : Type 0 where
  failed_lem : (read r 1).failed ≡ none
  got_lem : (read r 1).got ≡ b ∷ []
  rest_lem : content (read r 1).rest ≡ s
  rest-Drained : Drained true (read r 1).rest

read-Ended : (r : Reader) → content r ≡ [] → Drained true r → Ended r
read-Ended r e d =
    let h = read-Reads r 0 d.0 in
    record {
      failed_lem = h.failed_lem ∙ ap flat_failed e;
      rest_lem = h.rest_lem ∙ ap (drop 1) e;
      rest-Drained = (h.rest-IsDrained, read-IsBuffered r 1 d.1);
    }

read-Gave : (r : Reader) (b : ℕ) (s : List ℕ) → content r ≡ b ∷ s → Drained true r → Gave r b s
read-Gave r b s e d =
    let h = read-Reads r 0 d.0 in
    record {
      failed_lem = h.failed_lem ∙ ap flat_failed e;
      got_lem = h.got_lem ∙ ap (take 1) e;
      rest_lem = h.rest_lem ∙ ap (drop 1) e;
      rest-Drained = (h.rest-IsDrained, read-IsBuffered r 1 d.1);
    }

zeros_more : (b : ℕ) (s : List ℕ) → (b == 0) ≡ true → zeros (b ∷ s) ≡ suc (zeros s)
zeros_more b s z = ground arith

skip_zeros_more : (b : ℕ) (s : List ℕ) → (b == 0) ≡ true → skip_zeros (b ∷ s) ≡ skip_zeros s
skip_zeros_more b s z = ground arith

zeros_end : (b : ℕ) (s : List ℕ) → (b == 0) ≡ false → zeros (b ∷ s) ≡ 0
zeros_end b s z = ground arith

skip_zeros_end : (b : ℕ) (s : List ℕ) → (b == 0) ≡ false → skip_zeros (b ∷ s) ≡ b ∷ s
skip_zeros_end b s z = ground arith

-- Over a buffer the loop counts the zeros and leaves the stream behind them, with the first other
-- byte put back on top of a drained stack.
padding_loop-Agrees :
    (fuel : ℕ) (r : Reader) (s : List ℕ) (len : ℕ)
    → content r ≡ s
    → length s < fuel
    → Drained true r
    → len < 2 ^ 64
    → Agrees
        (Ready true)
        (padding_loop fuel r len)
        (ok (padding ((len + zeros s) % 2 ^ 64), skip_zeros s))
unfolding padding_loop
padding_loop-Agrees zero r s len e h d l = absurd (omega arith)
padding_loop-Agrees (suc fuel) r [] len e h d l =
    let g = read-Ended r e d in
    let count : (len + 0) % 2 ^ 64 ≡ len = omega arith in
    rw (g.failed_lem, padding_loop, count)
      (both_ok (padding len) (read r 1).rest refl (ap (λ t. ok (padding len, t)) (sym g.rest_lem))
        (IsReady-of_IsDrained (read r 1).rest g.rest-Drained.0, g.rest-Drained.1))
padding_loop-Agrees (suc fuel) r (b ∷ s) len e h d l =
    let g = read-Gave r b s e d in
    elim (Bool-cases (b == 0)) [
      | inl z ↦
          let count : (len + suc (zeros s)) % 2 ^ 64 ≡ ((len + 1) % 2 ^ 64 + zeros s) % 2 ^ 64 =
            omega arith in
          rw
            (
              g.failed_lem,
              padding_loop,
              g.got_lem,
              z,
              zeros_more b s z,
              skip_zeros_more b s z,
              count,
            )
            (padding_loop-Agrees fuel (read r 1).rest s ((len + 1) % 2 ^ 64) g.rest_lem
              (omega arith) g.rest-Drained (omega arith))
      | inr z ↦
          let count : (len + 0) % 2 ^ 64 ≡ len = omega arith in
          rw
            (g.failed_lem, padding_loop, g.got_lem, z, zeros_end b s z, skip_zeros_end b s z, count)
            (both_ok (padding len) (rewind_reader (b ∷ []) (read r 1).rest)
              (ap
                (λ x.
                  ok (padding len, new_rewind_reader (read r 1).rest (get_or (fill 1 x) 0 0 ∷ [])))
                g.got_lem)
              (ap (λ t. ok (padding len, b ∷ t)) (sym g.rest_lem))
              ((g.rest-Drained.1, g.rest-Drained.0), g.rest-Drained.1))
    ]

read_padding-Agrees :
    (r : Reader)
    → Drained true r
    → Agrees
        (Ready true)
        (read_padding r)
        (ok (padding ((1 + zeros (content r)) % 2 ^ 64), skip_zeros (content r)))
unfolding read_padding
read_padding-Agrees r d =
    padding_loop-Agrees (suc (length (content r))) r (content r) 1 refl (omega arith) d
      (omega arith)

pub Agrees-weaken {ℓ} :
    {A : Type ℓ} {P Q : Reader → Type 0} {m : Result (A × Reader)} {f : Result (A × List ℕ)}
    → ((r : Reader) → P r → Q r)
    → Agrees P m f
    → Agrees Q m f
Agrees-weaken w (both_ok a r p q h) = both_ok a r p q (w r h)
Agrees-weaken w (both_err e p q) = both_err e p q
Agrees-weaken w (both_panic p q) = both_panic p q

pub Ready-of_Drained : (k : Bool) (r : Reader) → Drained k r → Ready k r
Ready-of_Drained k r d = (IsReady-of_IsDrained r d.0, d.1)

read_data-Agrees :
    (max_slice : ℕ) (r : Reader) (n : ℕ)
    → Drained true r
    → Agrees (Drained true) (read_data max_slice r n) (spec_data max_slice n (content r))
unfolding read_data spec_data
read_data-Agrees max_slice r zero d =
    let fits : ltb max_slice 0 ≡ false = ground arith in rw fits (read_none-Agrees r d)
read_data-Agrees max_slice r (suc n) d = elim (Bool-cases (ltb max_slice (suc n))) [
  | inl big ↦ rw big (both_panic refl refl)
  | inr small ↦ rw small (read_into-Agrees true r n d)
]

read_crypto-Agrees :
    (max_slice : ℕ) (r : Reader)
    → Drained true r
    → All IsByte (content r)
    → Agrees (Ready true) (read_crypto max_slice r) (spec_crypto max_slice (content r))
unfolding read_crypto spec_crypto
read_crypto-Agrees max_slice r d h =
    Agrees-bind _ _ (read_next_vli-Agrees true r (Ready-of_Drained true r d) h) λ (off, n) r₁ q₁ d₁.
      let b₁ = spec_vli_bounds (content r) off n (content r₁) h q₁ in
      Agrees-bind _ _ (read_next_vli-Agrees true r₁ (Ready-of_Drained true r₁ d₁) b₁.rest-IsByte)
        λ (len, m) r₂ q₂ d₂.
          Agrees-bind _ _ (read_data-Agrees max_slice r₂ len d₂) λ bytes r₃ q₃ d₃.
            both_ok (crypto off len bytes) r₃ refl refl (Ready-of_Drained true r₃ d₃)

-- Each frame is read from the stack of readers as from the flat bytes.
pub read_frame-Agrees :
    (max_slice t : ℕ) (r : Reader)
    → Drained true r
    → All IsByte (content r)
    → Agrees (Ready true) (read_frame max_slice t r) (spec_frame max_slice t (content r))
unfolding read_frame spec_frame
read_frame-Agrees max_slice t r d h = elim (Bool-cases (t == 0)) [
  | inl e ↦ rw e (read_padding-Agrees r d)
  | inr e ↦ elim (Bool-cases (t == 1)) [
    | inl f ↦ rw (e, f) (both_ok ping r refl refl (Ready-of_Drained true r d))
    | inr f ↦ elim (Bool-cases (t == 6)) [
      | inl g ↦ rw (e, f, g) (read_crypto-Agrees max_slice r d h)
      | inr g ↦ rw (e, f, g) (both_err unknown_frame_type refl refl)
    ]
  ]
]

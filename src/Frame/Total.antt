-- ===== src/Frame/Total.antt =====
-- quic_frame.go: `ReadAllFrames` over its stack of readers, for whole payloads.
use clienthellod.Common.{
  ℕ, zero, suc, ◌≤◌, ◌<◌, ◌≡◌, ◌≢◌, refl, arith, true, List, [], ◌∷◌, ◌++◌, length, drop, All,
  All-drop, length-drop, if◌then◌else◌, Bool-cases, inl, inr,
}
use clienthellod.Outcome.{Error, Result, ok, err, panic, stuck, ◌>>=◌, >>=-eq-ok, is_eof}
use clienthellod.Reader.{Reader, bytes_buffer, content}
use clienthellod.Reader.Laws.{Drained, Ready, both_ok, both_err, both_panic, flat_read}
use clienthellod.Vli.Laws.{IsByte, spec_vli, spec_vli_bounds, read_next_vli-Agrees}
use clienthellod.Frame.{Frame, read_frame, frames_loop, read_all_frames}
use clienthellod.Frame.Laws.{skip_zeros, spec_data, spec_crypto, spec_frame, read_frame-Agrees}

-- What is left of a stream of bytes: bytes, and no more of them.
pub record Leaves (s t : List ℕ) : Type 0 where
  pub rest-IsByte : All IsByte t
  pub no_longer : length t ≤ length s

skip_zeros-Leaves : (s : List ℕ) → All IsByte s → Leaves s (skip_zeros s)
skip_zeros-Leaves [] h = record { rest-IsByte = tt; no_longer = omega arith }
skip_zeros-Leaves (b ∷ s) h = ground (arith, skip_zeros-Leaves s h.1)

spec_data-Leaves :
    (max_slice n : ℕ) (s a t : List ℕ)
    → All IsByte s
    → spec_data max_slice n s ≡ ok (a, t)
    → Leaves s t
unfolding spec_data flat_read
spec_data-Leaves max_slice zero s a t h e =
    let es : s ≡ t = cc in rw (← es) (record { rest-IsByte = h; no_longer = omega arith })
spec_data-Leaves max_slice (suc n) [] a t h e = ground arith
spec_data-Leaves max_slice (suc n) (b ∷ s) a t h e =
    let et : drop n s ≡ t = ground arith in
    rw (← et)
      (record { rest-IsByte = All-drop IsByte n s h.1; no_longer = omega (arith, length-drop n s) })

spec_crypto-Leaves :
    (max_slice : ℕ) (s : List ℕ) (f : Frame) (t : List ℕ)
    → All IsByte s
    → spec_crypto max_slice s ≡ ok (f, t)
    → Leaves s t
unfolding spec_crypto
spec_crypto-Leaves max_slice s f t h e =
    let (((off, n), s₁), e₁, k₁) = >>=-eq-ok (spec_vli s) _ e in
    let b₁ = spec_vli_bounds s off n s₁ h e₁ in
    let (((len, m), s₂), e₂, k₂) = >>=-eq-ok (spec_vli s₁) _ k₁ in
    let b₂ = spec_vli_bounds s₁ len m s₂ b₁.rest-IsByte e₂ in
    let ((bytes, s₃), e₃, k₃) = >>=-eq-ok (spec_data max_slice len s₂) _ k₂ in
    let l = spec_data-Leaves max_slice len s₂ bytes s₃ b₂.rest-IsByte e₃ in
    let et : s₃ ≡ t = cc in
    rw (← et) (record {
      rest-IsByte = l.rest-IsByte;
      no_longer = omega (arith, b₁.shorter, b₂.shorter, l.no_longer);
    })

spec_frame-Leaves :
    (max_slice t : ℕ) (s : List ℕ) (f : Frame) (s' : List ℕ)
    → All IsByte s
    → spec_frame max_slice t s ≡ ok (f, s')
    → Leaves s s'
unfolding spec_frame
spec_frame-Leaves max_slice t s f s' h e =
    ground (arith, skip_zeros-Leaves s h, spec_crypto-Leaves max_slice s f s' h)

module _ (max_slice : ℕ) where
  -- A parser of the flat bytes: a type, then the frame of that type, until no type is left.
  unfoldable pub spec_frames : ℕ → List ℕ → List Frame → Result (List Frame)
  spec_frames zero s frames = stuck
  spec_frames (suc fuel) s frames = elim (spec_vli s) [
    | err e ↦ if is_eof e then ok frames else err e
    | panic ↦ panic
    | stuck ↦ stuck
    | ok ((t, n), s') ↦ spec_frame max_slice t s' >>= λ p. spec_frames fuel p.1 (frames ++ p.0 ∷ [])
  ]

  -- One loop of `ReadAllFrames` with enough fuel: the flat parser's result, and an end.
  record Parses (fuel : ℕ) (r : Reader) (frames : List Frame) : Type 0 where
    same : frames_loop max_slice fuel r frames ≡ spec_frames fuel (content r) frames
    ends : frames_loop max_slice fuel r frames ≢ stuck

  next_frame-Parses :
      (fuel t : ℕ) (r : Reader) (frames : List Frame)
      → Drained true r
      → All IsByte (content r)
      → length (content r) < fuel
      → ((f : Frame) (r' : Reader)
          → Ready true r'
          → All IsByte (content r')
          → length (content r') < fuel
          → Parses fuel r' (frames ++ f ∷ []))
      → ((read_frame max_slice t r >>= λ p. frames_loop max_slice fuel p.1 (frames ++ p.0 ∷ []))
          ≡ (spec_frame max_slice t (content r) >>= λ p. spec_frames fuel p.1 (frames ++ p.0 ∷ [])))
        × ((read_frame max_slice t r >>= λ p. frames_loop max_slice fuel p.1 (frames ++ p.0 ∷ []))
            ≢ stuck)
  next_frame-Parses fuel t r frames d h l step = elim (read_frame-Agrees max_slice t r d h) [
    | both_ok f r' p q d' ↦
        let left = spec_frame-Leaves max_slice t (content r) f (content r') h q in
        let rest = step f r' d' left.rest-IsByte (omega (arith, left.no_longer)) in
        rw (p, q) (rest.same, rest.ends)
    | both_err e p q ↦ rw (p, q) (refl, λ x. cc)
    | both_panic p q ↦ rw (p, q) (refl, λ x. cc)
  ]

  eof_or_error : (frames : List Frame) (e : Error) → (if is_eof e then ok frames else err e) ≢ stuck
  eof_or_error frames e h = elim (Bool-cases (is_eof e)) [
    | inl y ↦ ground arith
    | inr n ↦ ground arith
  ]

  frames_loop-Parses :
      (fuel : ℕ) (r : Reader) (frames : List Frame)
      → Ready true r
      → All IsByte (content r)
      → length (content r) < fuel
      → Parses fuel r frames
  unfolding frames_loop spec_frames
  frames_loop-Parses zero r frames d h l = absurd (omega arith)
  frames_loop-Parses (suc fuel) r frames d h l = elim (read_next_vli-Agrees true r d h) [
    | both_ok (t, n) r' p q d' ↦
        let b = spec_vli_bounds (content r) t n (content r') h q in
        let (same, ends) =
          next_frame-Parses fuel t r' frames d' b.rest-IsByte (omega (arith, b.shorter))
            λ f r'' d'' h'' l''. frames_loop-Parses fuel r'' (frames ++ f ∷ []) d'' h'' l'' in
        record { same = rw (p, q, frames_loop, spec_frames) same; ends = rw (p, frames_loop) ends }
    | both_err e p q ↦ record {
      same = rw (p, q, frames_loop, spec_frames);
      ends = rw (p, frames_loop) (eof_or_error frames e);
    }
    | both_panic p q ↦ record {
      same = rw (p, q, frames_loop, spec_frames);
      ends = rw (p, frames_loop) (λ x. cc);
    }
  ]

  -- `ReadAllFrames` of any bytes in a buffer ends, and its frames or error are those of a parser
  -- of the flat bytes: no byte is lost, repeated or reordered by putting bytes back after PADDING.
  pub read_all_frames-spec :
      (s : List ℕ)
      → All IsByte s
      → (read_all_frames max_slice (bytes_buffer s) ≡ spec_frames (suc (length s)) s [])
        × (read_all_frames max_slice (bytes_buffer s) ≢ stuck)
  unfolding read_all_frames
  read_all_frames-spec s h =
      let p = frames_loop-Parses (suc (length s)) (bytes_buffer s) [] (tt, tt) h (omega arith) in
      (p.same, p.ends)

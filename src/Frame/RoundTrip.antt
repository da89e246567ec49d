-- ===== src/Frame/RoundTrip.antt =====
-- quic_frame.go: the flat parser and a writer of single frames.
use clienthellod.Common.{
  ℕ, zero, suc, ◌+◌, ◌%◌, ◌^◌, ◌≤◌, ◌<◌, ◌≡◌, refl, sym, ap, ap₂, ◌∙◌, arith, false, List, [], ◌∷◌,
  ◌++◌, length, All, append_assoc, append-nil, ltb, drop-length_append,
}
use clienthellod.Outcome.{ok}
use clienthellod.Reader.{fill}
use clienthellod.Reader.Laws.{flat_read}
use clienthellod.Vli.Laws.{IsByte, spec_vli}
use clienthellod.Vli.RoundTrip.{encode_vli, spec_vli-one, spec_vli-encode}
use clienthellod.Frame.{Frame, padding, ping, crypto}
use clienthellod.Frame.Laws.{zeros, skip_zeros, spec_data, spec_crypto, spec_frame}
use clienthellod.Frame.Total.{spec_frames}

abbrev pub zero_bytes : ℕ → List ℕ
zero_bytes zero = []
zero_bytes (suc n) = 0 ∷ zero_bytes n

-- The wire format of RFC 9000, sections 19.1, 19.2 and 19.6, in front of `rest`.
abbrev pub encode_frame : Frame → List ℕ → List ℕ
encode_frame (padding n) rest = zero_bytes n ++ rest
encode_frame ping rest = 1 ∷ rest
encode_frame (crypto off len bytes) rest =
    6 ∷ (encode_vli off ++ (encode_vli len ++ (bytes ++ rest)))

abbrev pub encode_frames : List Frame → List ℕ
encode_frames [] = []
encode_frames (f ∷ fs) = encode_frame f (encode_frames fs)

abbrev pub IsPadding : Frame → Type 0
IsPadding (padding n) = Unit {0}
IsPadding ping = ⊥
IsPadding (crypto off len bytes) = ⊥

-- A run of padding is not empty, and the length of a CRYPTO frame is that of its data.
abbrev pub IsFrame : ℕ → Frame → Type 0
IsFrame max_slice (padding n) = (0 < n) × (n < 2 ^ 64)
IsFrame max_slice ping = Unit {0}
IsFrame max_slice (crypto off len bytes) =
    (off < 2 ^ 62) × (len < 2 ^ 62) × (len ≤ max_slice) × (length bytes ≡ len) × All IsByte bytes

-- No two runs of padding stand side by side.
abbrev pub IsPayload : ℕ → List Frame → Type 0
IsPayload max_slice [] = Unit {0}
IsPayload max_slice (f ∷ []) = IsFrame max_slice f
IsPayload max_slice (f ∷ g ∷ fs) =
    IsFrame max_slice f × ¬ (IsPadding f × IsPadding g) × IsPayload max_slice (g ∷ fs)

abbrev NonzeroHead : List ℕ → Type 0
NonzeroHead [] = Unit {0}
NonzeroHead (b ∷ s) = 0 < b

zeros-zero_bytes : (n : ℕ) (rest : List ℕ) → NonzeroHead rest → zeros (zero_bytes n ++ rest) ≡ n
zeros-zero_bytes zero [] h = refl
zeros-zero_bytes zero (b ∷ rest) h = ground arith
zeros-zero_bytes (suc n) rest h = ap suc (zeros-zero_bytes n rest h)

skip_zeros-zero_bytes :
    (n : ℕ) (rest : List ℕ) → NonzeroHead rest → skip_zeros (zero_bytes n ++ rest) ≡ rest
skip_zeros-zero_bytes zero [] h = refl
skip_zeros-zero_bytes zero (b ∷ rest) h = ground arith
skip_zeros-zero_bytes (suc n) rest h = skip_zeros-zero_bytes n rest h

fill-length_append : (bs rest : List ℕ) → fill (length bs) (bs ++ rest) ≡ bs
fill-length_append [] rest = refl
fill-length_append (b ∷ bs) rest = ap (◌∷◌ b) (fill-length_append bs rest)

spec_data-append :
    (max_slice len : ℕ) (bytes rest : List ℕ)
    → len ≤ max_slice
    → length bytes ≡ len
    → spec_data max_slice len (bytes ++ rest) ≡ ok (bytes, rest)
unfolding spec_data flat_read
spec_data-append max_slice zero [] rest h e = refl
spec_data-append max_slice zero (b ∷ bs) rest h e = absurd (omega arith)
spec_data-append max_slice (suc n) [] rest h e = absurd (omega arith)
spec_data-append max_slice (suc n) (b ∷ bs) rest h e =
    let small : ltb max_slice (suc n) ≡ false = ground arith in
    let el : n ≡ length bs = omega arith in
    rw (small, el)
      (ap₂ (λ x y. ok (b ∷ x, y)) (fill-length_append bs rest) (drop-length_append bs rest))

spec_crypto-encode :
    (max_slice off len : ℕ) (bytes rest : List ℕ)
    → IsFrame max_slice (crypto off len bytes)
    → spec_crypto max_slice (encode_vli off ++ (encode_vli len ++ (bytes ++ rest)))
      ≡ ok (crypto off len bytes, rest)
unfolding spec_crypto
spec_crypto-encode max_slice off len bytes rest (ho, hl, hm, e, hb) = rw (
  spec_vli-encode off (encode_vli len ++ (bytes ++ rest)) ho,
  spec_vli-encode len (bytes ++ rest) hl,
  spec_data-append max_slice len bytes rest hm e,
)

first_frame :
    (max_slice fuel : ℕ) (s : List ℕ) (frames : List Frame) {t n : ℕ} {s' : List ℕ} {f : Frame}
    {rest : List ℕ}
    → spec_vli s ≡ ok ((t, n), s')
    → spec_frame max_slice t s' ≡ ok (f, rest)
    → spec_frames max_slice (suc fuel) s frames ≡ spec_frames max_slice fuel rest (frames ++ f ∷ [])
unfolding spec_frames
first_frame max_slice fuel s frames p q = rw (p, q, spec_frames)

spec_frame-encode :
    (max_slice n : ℕ) (rest : List ℕ)
    → suc n < 2 ^ 64
    → NonzeroHead rest
    → spec_frame max_slice 0 (zero_bytes n ++ rest) ≡ ok (padding (suc n), rest)
unfolding spec_frame
spec_frame-encode max_slice n rest h k =
    let count : (1 + n) % 2 ^ 64 ≡ suc n = omega arith in
    rw (zeros-zero_bytes n rest k, skip_zeros-zero_bytes n rest k, count)

-- One round of the flat parser on a frame that was written.
spec_frames_step :
    (max_slice fuel : ℕ) (f : Frame) (rest : List ℕ) (frames : List Frame)
    → IsFrame max_slice f
    → (IsPadding f → NonzeroHead rest)
    → spec_frames max_slice (suc fuel) (encode_frame f rest) frames
      ≡ spec_frames max_slice fuel rest (frames ++ f ∷ [])
unfolding spec_frame
spec_frames_step max_slice fuel (padding zero) rest frames h k = absurd (omega arith)
spec_frames_step max_slice fuel (padding (suc n)) rest frames h k =
    first_frame max_slice fuel (0 ∷ (zero_bytes n ++ rest)) frames
      (spec_vli-one 0 (zero_bytes n ++ rest) (omega arith))
      (spec_frame-encode max_slice n rest h.1 (k tt))
spec_frames_step max_slice fuel ping rest frames h k =
    first_frame max_slice fuel (1 ∷ rest) frames (spec_vli-one 1 rest (omega arith)) refl
spec_frames_step max_slice fuel (crypto off len bytes) rest frames h k =
    first_frame max_slice fuel _ frames
      (spec_vli-one 6 (encode_vli off ++ (encode_vli len ++ (bytes ++ rest))) (omega arith))
      (spec_crypto-encode max_slice off len bytes rest h)

spec_frames_end :
    (max_slice fuel : ℕ) (frames : List Frame)
    → spec_frames max_slice (suc fuel) [] frames ≡ ok frames
unfolding spec_frames spec_vli
spec_frames_end max_slice fuel frames = refl

-- What follows a run of padding is the end or the type of another frame, which is not 0.
head_of_next :
    (max_slice : ℕ) (f : Frame) (fs : List Frame)
    → IsPayload max_slice (f ∷ fs)
    → IsPadding f
    → NonzeroHead (encode_frames fs)
head_of_next max_slice f [] h p = tt
head_of_next max_slice f (padding n ∷ fs) h p = absurd (h.1 (p, tt))
head_of_next max_slice f (ping ∷ fs) h p = omega arith
head_of_next max_slice f (crypto off len bytes ∷ fs) h p = omega arith

pub IsFrame-head :
    (max_slice : ℕ) (f : Frame) (fs : List Frame)
    → IsPayload max_slice (f ∷ fs)
    → IsFrame max_slice f
IsFrame-head max_slice f [] h = h
IsFrame-head max_slice f (g ∷ fs) h = h.0

pub IsPayload-tail :
    (max_slice : ℕ) (f : Frame) (fs : List Frame)
    → IsPayload max_slice (f ∷ fs)
    → IsPayload max_slice fs
IsPayload-tail max_slice f [] h = tt
IsPayload-tail max_slice f (g ∷ fs) h = h.2

pub spec_frames-encode :
    (max_slice fuel : ℕ) (fs frames : List Frame)
    → IsPayload max_slice fs
    → length fs < fuel
    → spec_frames max_slice fuel (encode_frames fs) frames ≡ ok (frames ++ fs)
spec_frames-encode max_slice zero fs frames h l = absurd (omega arith)
spec_frames-encode max_slice (suc fuel) [] frames h l =
    spec_frames_end max_slice fuel frames ∙ ap ok (sym (append-nil frames))
spec_frames-encode max_slice (suc fuel) (f ∷ fs) frames h l =
    spec_frames_step max_slice fuel f (encode_frames fs) frames (IsFrame-head max_slice f fs h)
      (head_of_next max_slice f fs h)
    ∙ spec_frames-encode max_slice fuel fs (frames ++ f ∷ []) (IsPayload-tail max_slice f fs h)
        (omega arith)
    ∙ ap ok (append_assoc frames (f ∷ []) fs)

-- ===== src/Frame/Payload.antt =====
-- quic_frame.go: `ReadAllFrames` and a writer of whole payloads.
use clienthellod.Common.{
  ℕ, zero, suc, ◌≤◌, ◌<◌, ◌≡◌, ◌∙◌, arith, List, [], ◌∷◌, ◌++◌, length, All, All-append,
  length-append,
}
use clienthellod.Outcome.{ok}
use clienthellod.Reader.{bytes_buffer}
use clienthellod.Vli.Laws.{IsByte}
use clienthellod.Vli.RoundTrip.{encode_vli, encode_vli-IsByte}
use clienthellod.Frame.{Frame, padding, ping, crypto, read_all_frames}
use clienthellod.Frame.Total.{read_all_frames-spec}
use clienthellod.Frame.RoundTrip.{
  zero_bytes, encode_frame, encode_frames, IsFrame, IsPayload, IsFrame-head, IsPayload-tail,
  spec_frames-encode,
}

zero_bytes-IsByte : (n : ℕ) → All IsByte (zero_bytes n)
zero_bytes-IsByte zero = tt
zero_bytes-IsByte (suc n) = (omega arith, zero_bytes-IsByte n)

encode_frame-IsByte :
    (max_slice : ℕ) (f : Frame) (rest : List ℕ)
    → IsFrame max_slice f
    → All IsByte rest
    → All IsByte (encode_frame f rest)
encode_frame-IsByte max_slice (padding n) rest h k =
    All-append IsByte _ rest (zero_bytes-IsByte n) k
encode_frame-IsByte max_slice ping rest h k = (omega arith, k)
encode_frame-IsByte max_slice (crypto off len bytes) rest (ho, hl, hm, e, hb) k = (
  omega arith,
  All-append IsByte _ _ (encode_vli-IsByte off ho)
      (All-append IsByte _ _ (encode_vli-IsByte len hl) (All-append IsByte bytes rest hb k)),
)

encode_frames-IsByte :
    (max_slice : ℕ) (fs : List Frame) → IsPayload max_slice fs → All IsByte (encode_frames fs)
encode_frames-IsByte max_slice [] h = tt
encode_frames-IsByte max_slice (f ∷ fs) h =
    encode_frame-IsByte max_slice f _ (IsFrame-head max_slice f fs h)
      (encode_frames-IsByte max_slice fs (IsPayload-tail max_slice f fs h))

-- A frame takes a byte at least.
length-encode_frame :
    (max_slice : ℕ) (f : Frame) (rest : List ℕ)
    → IsFrame max_slice f
    → length rest < length (encode_frame f rest)
length-encode_frame max_slice (padding zero) rest h = absurd (omega arith)
length-encode_frame max_slice (padding (suc n)) rest h =
    omega (arith, length-append (zero_bytes n) rest)
length-encode_frame max_slice ping rest h = omega arith
length-encode_frame max_slice (crypto off len bytes) rest h = omega (
  arith,
  length-append (encode_vli off) (encode_vli len ++ (bytes ++ rest)),
  length-append (encode_vli len) (bytes ++ rest),
  length-append bytes rest,
)

length-encode_frames :
    (max_slice : ℕ) (fs : List Frame)
    → IsPayload max_slice fs
    → length fs ≤ length (encode_frames fs)
length-encode_frames max_slice [] h = omega arith
length-encode_frames max_slice (f ∷ fs) h = omega (
  arith,
  length-encode_frame max_slice f (encode_frames fs) (IsFrame-head max_slice f fs h),
  length-encode_frames max_slice fs (IsPayload-tail max_slice f fs h),
)

-- Frames that were written one after the other are read back unchanged, where each run of padding
-- is one frame, CRYPTO data has the declared length, offsets and lengths are below 2 ^ 62, and
-- slices of the declared lengths can be made.
pub read_all_frames-encode :
    (max_slice : ℕ) (fs : List Frame)
    → IsPayload max_slice fs
    → read_all_frames max_slice (bytes_buffer (encode_frames fs)) ≡ ok fs
read_all_frames-encode max_slice fs h =
    (read_all_frames-spec max_slice (encode_frames fs) (encode_frames-IsByte max_slice fs h)).0
    ∙ spec_frames-encode max_slice (suc (length (encode_frames fs))) fs [] h
        (omega (arith, length-encode_frames max_slice fs h))

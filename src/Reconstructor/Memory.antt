-- ===== src/Reconstructor/Memory.antt =====
-- quic_clienthello_reconstructor.go: `FromFrames` on one packet after the other.
use clienthellod.Common.{
  ℕ, ◌+◌, ◌^◌, ◌≤◌, ◌<◌, ◌≡◌, ◌≢◌, refl, ◌∙◌, arith, none, some, List, [], ◌∷◌, ◌++◌, length, All,
  if◌then◌else◌, Bool-cases, Option-cases, inl, inr,
}
use clienthellod.Outcome.{Error, need_more_frames, is_eof}
use clienthellod.Frame.{Frame, padding, ping, crypto}
use clienthellod.Reconstructor.{
  Reconstructor, new_reconstructor, refusal, accept, verdict, add_crypto_fragment, from_frames,
  max_crypto_length, max_crypto_fragments,
}
use clienthellod.Reconstructor.Assemble.{Inv, new-Inv, held}
use clienthellod.Reconstructor.Invariant.{add_crypto_fragment-Inv}
use clienthellod.Reconstructor.Packing.{held-le}
use clienthellod.Reconstructor.Stream.{feed}

-- The end of the frame's data is a `uint64`, as it is for all frames that were parsed.
abbrev pub FitsU64 : Frame → Type 0
FitsU64 (padding n) = Unit {0}
FitsU64 ping = Unit {0}
FitsU64 (crypto off len bytes) = off + length bytes < 2 ^ 64

pub from_frames-Inv :
    (fs : List Frame) (q : Reconstructor) → All FitsU64 fs → Inv q → Inv (from_frames q fs).0
unfolding from_frames
from_frames-Inv [] q h v = v
from_frames-Inv (padding n ∷ fs) q h v = from_frames-Inv fs q h.1 v
from_frames-Inv (ping ∷ fs) q h v = from_frames-Inv fs q h.1 v
from_frames-Inv (crypto off len bytes ∷ fs) q h v =
    let v' = add_crypto_fragment-Inv q off bytes h.0 v in
    elim (Option-cases (add_crypto_fragment q off bytes).1) [
      | inl e ↦ rw (e, from_frames) (from_frames-Inv fs (add_crypto_fragment q off bytes).0 h.1 v')
      | inr (x, e) ↦ rw (e, from_frames) v'
    ]

feed-Inv :
    (ps : List (List Frame)) (q : Reconstructor) → All (All FitsU64) ps → Inv q → Inv (feed q ps)
feed-Inv [] q h v = v
feed-Inv (p ∷ ps) q h v = feed-Inv ps (from_frames q p).0 h.1 (from_frames-Inv p q h.0 v)

-- Whatever packets arrive, with ends of data below 2 ^ 64, the buffer and the pending fragments
-- together hold at most 0x10000 bytes, in at most 33 pending fragments.
pub feed_bounds :
    (packets : List (List Frame))
    → All (All FitsU64) packets
    → (held (feed new_reconstructor packets) ≤ max_crypto_length)
      × (length (feed new_reconstructor packets).frags ≤ max_crypto_fragments + 1)
feed_bounds packets h = let v = feed-Inv packets new_reconstructor h new-Inv in (held-le _ v, v.few)

add_crypto_fragment-ne :
    (q : Reconstructor) (off : ℕ) (f : List ℕ)
    → (add_crypto_fragment q off f).1 ≢ some need_more_frames
unfolding add_crypto_fragment refusal accept verdict
add_crypto_fragment-ne q off f = ground arith

some_of_not_eof :
    (x : Error)
    → (if is_eof x then none else some x) ≡ some need_more_frames
    → some x ≡ some need_more_frames
some_of_not_eof x e = elim (Bool-cases (is_eof x)) [
  | inl y ↦ let e' : none ≡ some need_more_frames = rw y at e in cc
  | inr n ↦ rw n at e
]

-- Frames that are split over two packets are handled as if they had come in one, as long as the
-- first packet did not end the reconstruction.
pub from_frames-append :
    (fs gs : List Frame) (q : Reconstructor)
    → (from_frames q fs).1 ≡ some need_more_frames
    → from_frames q (fs ++ gs) ≡ from_frames (from_frames q fs).0 gs
unfolding from_frames
from_frames-append [] gs q e = refl
from_frames-append (padding n ∷ fs) gs q e = from_frames-append fs gs q e
from_frames-append (ping ∷ fs) gs q e = from_frames-append fs gs q e
from_frames-append (crypto off len bytes ∷ fs) gs q e =
    elim (Option-cases (add_crypto_fragment q off bytes).1) [
      | inl n ↦
          rw (n, from_frames)
            (from_frames-append fs gs (add_crypto_fragment q off bytes).0
              (rw (n, from_frames) at e))
      | inr (x, s) ↦
          let e' : (if is_eof x then none else some x) ≡ some need_more_frames =
            rw (s, from_frames) at e in
          absurd (add_crypto_fragment-ne q off bytes (s ∙ some_of_not_eof x e'))
    ]

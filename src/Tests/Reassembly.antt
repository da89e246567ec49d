-- ===== src/Tests/Reassembly.antt =====
-- quic_clienthello_reconstructor.go on concrete fragments.
use clienthellod.Common.{ℕ, ◌≤◌, ◌≡◌, refl, arith, some, none, List, [], ◌∷◌, length, get_or}
use clienthellod.Outcome.{need_more_frames, overlap_fragment}
use clienthellod.Frame.{Frame, padding, crypto}
use clienthellod.Reconstructor.{
  new_reconstructor, lookup, delete, overlaps, refusal, assemble, declared_length, set_full_len,
  verdict, save, accept, add_crypto_fragment, from_frames, reconstruct_as_bytes,
}
use clienthellod.Reconstructor.Assemble.{Inv, new-Inv, total, held}
use clienthellod.Reconstructor.Invariant.{add_crypto_fragment-Inv}
use clienthellod.Reconstructor.Stream.{Follows, feed, reconstruct_as_bytes-Follows}
use clienthellod.Reconstructor.AnyOrder.{reconstruct_as_bytes-from_frames}
use clienthellod.Reconstructor.Memory.{feed_bounds, from_frames-append}

-- A handshake message of three bytes behind its header.
abbrev message : List ℕ
message = 1 ∷ 0 ∷ 0 ∷ 3 ∷ 8 ∷ 9 ∷ 7 ∷ []

abbrev stream : ℕ → ℕ
stream i = get_or message i 0

-- Its end comes first.
abbrev packet : List Frame
packet = crypto 5 2 (9 ∷ 7 ∷ []) ∷ padding 4 ∷ crypto 0 5 (1 ∷ 0 ∷ 0 ∷ 3 ∷ 8 ∷ []) ∷ []

packet-message : reconstruct_as_bytes (from_frames new_reconstructor packet).0 ≡ message
unfolding reconstruct_as_bytes from_frames add_crypto_fragment refusal lookup overlaps save assemble
    delete accept set_full_len verdict declared_length
packet-message = refl

-- A retransmitted fragment that was already moved to the buffer is an error.
retransmitted :
    (from_frames new_reconstructor (crypto 0 2 (1 ∷ 0 ∷ []) ∷ crypto 0 2 (1 ∷ 0 ∷ []) ∷ [])).1
    ≡ some overlap_fragment
unfolding from_frames add_crypto_fragment refusal lookup overlaps save assemble delete accept
    set_full_len verdict
retransmitted = refl

reconstruct_as_bytes-from_frames_example :
    ((from_frames new_reconstructor packet).1 ≡ none)
    × (length (reconstruct_as_bytes (from_frames new_reconstructor packet).0) ≡ 7)
    × Follows stream 0 (reconstruct_as_bytes (from_frames new_reconstructor packet).0)
unfolding total
reconstruct_as_bytes-from_frames_example =
    reconstruct_as_bytes-from_frames stream 7 packet
      (record { declared = refl; body = omega arith; fits = omega arith })
      (
        record { carried = omega arith; nonempty = omega arith; within = omega arith },
        (record { carried = omega arith; nonempty = omega arith; within = omega arith }, tt),
      )
      ((record { offsets = omega arith; before = omega arith; behind = omega arith }, tt), (tt, tt))
      (omega arith) refl

reconstruct_as_bytes-Follows_example :
    Follows stream 0 (reconstruct_as_bytes (feed new_reconstructor (packet ∷ packet ∷ [])))
reconstruct_as_bytes-Follows_example =
    reconstruct_as_bytes-Follows stream (packet ∷ packet ∷ []) (omega arith)

add_crypto_fragment-Inv_example : Inv (add_crypto_fragment new_reconstructor 5 (9 ∷ 7 ∷ [])).0
add_crypto_fragment-Inv_example =
    add_crypto_fragment-Inv new_reconstructor 5 (9 ∷ 7 ∷ []) (omega arith) new-Inv

feed_bounds_example :
    (held (feed new_reconstructor (packet ∷ packet ∷ [])) ≤ 0x10000)
    × (length (feed new_reconstructor (packet ∷ packet ∷ [])).frags ≤ 33)
feed_bounds_example = feed_bounds (packet ∷ packet ∷ []) (omega arith)

first_packet :
    (from_frames new_reconstructor (crypto 5 2 (9 ∷ 7 ∷ []) ∷ [])).1 ≡ some need_more_frames
unfolding from_frames add_crypto_fragment refusal lookup overlaps save assemble delete accept
    set_full_len verdict
first_packet = refl

from_frames-append_example :
    from_frames new_reconstructor (crypto 5 2 (9 ∷ 7 ∷ []) ∷ packet)
    ≡ from_frames (from_frames new_reconstructor (crypto 5 2 (9 ∷ 7 ∷ []) ∷ [])).0 packet
from_frames-append_example =
    from_frames-append (crypto 5 2 (9 ∷ 7 ∷ []) ∷ []) packet new_reconstructor first_packet

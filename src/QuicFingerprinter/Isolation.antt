-- ===== src/QuicFingerprinter/Isolation.antt =====
-- quic_fingerprint.go: `HandlePacket`, panics, and the gatherings of other addresses.
use clienthellod.Common.{ℕ, ◌≡◌, ◌≢◌, refl, List, if-cases}
use clienthellod.Outcome.{Result, ok, err, panic, stuck}
use clienthellod.ClientHello.{ClientHello}
use clienthellod.Gather.{ClientInitial}
use clienthellod.QuicFingerprinter.{
  QuicFingerprinter, load_gathering, gather, handle_decoded, handle_packet, recovered,
  is_uninteresting,
}
use clienthellod.QuicFingerprinter.Map.{load_gathering-put_ne}

recovered-Safe : (r : Result (Unit {0})) → recovered r ≢ panic
recovered-Safe (ok u) = λ e. cc
recovered-Safe (err x) = λ e. cc
recovered-Safe panic = λ e. cc
recovered-Safe stuck = λ e. cc

-- No panic, and another address keeps its gathering.
abbrev IsIsolated : List ℕ → QuicFingerprinter → QuicFingerprinter × Result (Unit {0}) → Type 0
IsIsolated key t (t', r) =
    (r ≢ panic) × (load_gathering key t'.gatherings ≡ load_gathering key t.gatherings)

module _ (parse : List ℕ → Result ClientHello) (sha1 : List ℕ → List ℕ) where
  gather-IsIsolated :
      (now : ℕ) (key from : List ℕ) (ci : ClientInitial) (t : QuicFingerprinter)
      → from ≢ key
      → IsIsolated key t (gather parse sha1 now from ci t)
  unfolding gather
  gather-IsIsolated now key from ci t ne =
      (recovered-Safe _, load_gathering-put_ne key from _ t.gatherings ne)

  handle_decoded-IsIsolated :
      (now : ℕ) (key from : List ℕ) (t : QuicFingerprinter) (r : Result ClientInitial)
      → from ≢ key
      → IsIsolated key t (handle_decoded parse sha1 now from t r)
  handle_decoded-IsIsolated now key from t (ok ci) ne = gather-IsIsolated now key from ci t ne
  handle_decoded-IsIsolated now key from t (err e) ne =
      (if-cases (λ r. r ≢ panic) (is_uninteresting e) (λ x q. cc) (λ x q. cc), refl)
  handle_decoded-IsIsolated now key from t panic ne = (λ q. cc, refl)
  handle_decoded-IsIsolated now key from t stuck ne = (λ q. cc, refl)

  module _ (unmarshal : List ℕ → Result ClientInitial) where
    -- Whatever bytes a datagram holds, and whatever its decoder or the ClientHello parser does with
    -- them, a panic included, `HandlePacket` does not panic, and the gathering of any other address
    -- stays as it was.
    pub handle_packet-IsIsolated :
        (now : ℕ) (key from p : List ℕ) (t : QuicFingerprinter)
        → from ≢ key
        → ((handle_packet parse sha1 unmarshal now from p t).1 ≢ panic)
          × (load_gathering key (handle_packet parse sha1 unmarshal now from p t).0.gatherings
              ≡ load_gathering key t.gatherings)
    unfolding handle_packet
    handle_packet-IsIsolated now key from p t ne =
        if-cases (IsIsolated key t) t.closed (λ c. (λ q. cc, refl))
          (λ c. handle_decoded-IsIsolated now key from t (unmarshal p) ne)

-- ===== src/Gather/Identity.antt =====
-- fingerprint_hash.go: what the id of the headers is computed from.
use clienthellod.Common.{ℕ, ◌≡◌, ◌↔◌, refl, List, ◌∷◌}
use clienthellod.Outcome.{Result}
use clienthellod.Frame.{frame_types_uint8}
use clienthellod.ClientHello.{ClientHello}
use clienthellod.Sort.Members.{In, dedup-sort}
use clienthellod.Gather.{ClientInitial, GatheredClientInitials, header_hashed, calc_numeric_id}

-- Two gatherings whose first packets have the same version, the same lengths of the connection ids
-- and of the packet number, a token both or neither, and the same set of frame types. Then their
-- ids are the same, whatever the order and number of the frames and whatever other packets there are.
pub calc_numeric_id-frame_types :
    (parse : List ℕ → Result ClientHello) (sha1 : List ℕ → List ℕ) (g h : GatheredClientInitials)
    (p q : ClientInitial) (ps qs : List ClientInitial)
    → g.packets ≡ p ∷ ps
    → h.packets ≡ q ∷ qs
    → p.header.version ≡ q.header.version
    → p.header.dcid_length ≡ q.header.dcid_length
    → p.header.scid_length ≡ q.header.scid_length
    → p.header.initial_packet_number_length ≡ q.header.initial_packet_number_length
    → p.header.has_token ≡ q.header.has_token
    → ((t : ℕ) → In t (frame_types_uint8 p.frames) ↔ In t (frame_types_uint8 q.frames))
    → calc_numeric_id parse sha1 g ≡ calc_numeric_id parse sha1 h
unfolding calc_numeric_id header_hashed
calc_numeric_id-frame_types parse sha1 g h p q ps qs eg eh v d s n t types =
    let f = dedup-sort (frame_types_uint8 p.frames) (frame_types_uint8 q.frames) types in
    rw (eg, eh, v, d, s, n, t, f, calc_numeric_id) refl

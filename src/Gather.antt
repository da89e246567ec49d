-- ===== src/Gather.antt =====
-- quic_client_initial.go: the Initial packets of a connection are gathered until the ClientHello is
-- complete. With it `Reconstruct` of quic_clienthello_reconstructor.go, the struct of quic_header.go
-- and the hash of the headers in fingerprint_hash.go.
-- A time is a number, the zero `time.Time` is 0, and `now` is what `time.Now()` returns during the
-- call. An operation returns the struct it leaves, also when it panics, beside its error: `ok tt` is
-- a nil error. The mutex makes calls of `AddPacket` follow one another.
pub mod Invariant
pub mod Identity
pub mod Waiting
pub mod Complete
use clienthellod.Common.{
  ℕ, ◌-◌, ◌%◌, Bool, true, false, ◌||◌, Option, none, some, List, [], ◌∷◌, ◌++◌, length, ltb, leb,
  ◌==◌, if◌then◌else◌,
}
use clienthellod.Outcome.{
  Error, Result, ok, err, panic, stuck, wrapped, need_more_frames, gathering_expired,
  packet_rejected, closed_before_completion, is_need_more_frames,
}
use clienthellod.Frame.{Frame, frame_types_uint8}
use clienthellod.Reconstructor.{Reconstructor, new_reconstructor, reconstruct_as_bytes, from_frames}
use clienthellod.Sort.{sort_by, sort, dedup_uint8}
use clienthellod.Hash.{update_u32, first_u64, as_hex}
use clienthellod.TransportParameters.{QuicTransportParameters}
use clienthellod.ClientHello.{ClientHello}

pub record QuicHeader : Type 0 where
  pub version : List ℕ
  pub dcid_length : ℕ
  pub scid_length : ℕ
  pub packet_number : List ℕ
  pub initial_packet_number_length : ℕ
  pub initial_packet_number : ℕ
  pub has_token : Bool

pub record ClientInitial : Type 0 where
  pub header : QuicHeader
  pub frame_types : List ℕ
  pub frames : List Frame
  pub raw : List ℕ

-- `complete_chan_closed` tells whether `completeChan` was closed.
pub record GatheredClientInitials : Type 0 where
  pub packets : List ClientInitial
  pub max_packet_number : ℕ
  pub max_packet_count : ℕ
  pub pn_base : ℕ
  pub pn_base_set : Bool
  pub reconstructor : Reconstructor
  pub client_hello : Option ClientHello
  pub transport_parameters : Option QuicTransportParameters
  pub hex_id : List ℕ
  pub num_id : ℕ
  pub deadline : ℕ
  pub completed : Bool
  pub complete_chan_closed : Bool

abbrev pub gather_client_initials : GatheredClientInitials
gather_client_initials = record {
  packets = [];
  max_packet_number = 32;
  max_packet_count = 4;
  pn_base = 0;
  pn_base_set = false;
  reconstructor = new_reconstructor;
  client_hello = none;
  transport_parameters = none;
  hex_id = [];
  num_id = 0;
  deadline = 0;
  completed = false;
  complete_chan_closed = false;
}

abbrev pub set_deadline : ℕ → GatheredClientInitials → GatheredClientInitials
set_deadline t g = record g { deadline = t }

abbrev pub gather_client_initials_with_deadline : ℕ → GatheredClientInitials
gather_client_initials_with_deadline t = set_deadline t gather_client_initials

abbrev pub set_max_packet_number : ℕ → GatheredClientInitials → GatheredClientInitials
set_max_packet_number n g = record g { max_packet_number = n }

abbrev pub set_max_packet_count : ℕ → GatheredClientInitials → GatheredClientInitials
set_max_packet_count n g = record g { max_packet_count = n }

abbrev pub expired : ℕ → GatheredClientInitials → Bool
expired now g = ltb g.deadline now

abbrev pub pn_distance : ℕ → ℕ → ℕ
pn_distance a b = if ltb b a then a - b else b - a

-- The number that packets are sorted by.
abbrev pub number : ClientInitial → ℕ
number ci = ci.header.initial_packet_number

-- All that the hash of the headers reads.
unfoldable pub header_hashed : ClientInitial → List ℕ
header_hashed p =
    p.header.version
    ++ update_u32 p.header.dcid_length
    ++ update_u32 p.header.scid_length
    ++ update_u32 p.header.initial_packet_number_length
    ++ dedup_uint8 (sort (frame_types_uint8 p.frames))
    ++ (if p.header.has_token then 1 else 0) ∷ []

-- The first packet seen anchors the bound on packet numbers.
unfoldable pub anchor : GatheredClientInitials → ClientInitial → GatheredClientInitials
anchor g ci = if g.pn_base_set then g else record g { pn_base = number ci; pn_base_set = true }

unfoldable pub rejects : GatheredClientInitials → ClientInitial → Bool
rejects g ci =
    ltb g.max_packet_number (pn_distance (number ci) g.pn_base)
    || leb g.max_packet_count (length g.packets)

unfoldable pub seen : ℕ → List ClientInitial → Bool
seen n [] = false
seen n (p ∷ ps) = if number p == n then true else seen n ps

-- `parse` is `ParseQUICClientHello`.
module _ (parse : List ℕ → Result ClientHello) (sha1 : List ℕ → List ℕ) where
  unfoldable pub reconstruct : Reconstructor → Result ClientHello
  reconstruct q =
      let b = reconstruct_as_bytes q in if ltb 0 (length b) then parse b else err need_more_frames

  -- `calcNumericID` panics when there is no packet.
  unfoldable pub calc_numeric_id : GatheredClientInitials → Result ℕ
  calc_numeric_id g = elim g.packets [
    | [] ↦ panic
    | p ∷ ps ↦ ok (first_u64 (sha1 (header_hashed p)))
  ]

  -- The rest of `lockedGatherComplete` once the numeric id is known.
  abbrev pub mark_complete :
      GatheredClientInitials → Result ℕ → GatheredClientInitials × Result (Unit {0})
  mark_complete g (ok id) = (
    record g { num_id = id; hex_id = as_hex id; completed = true; complete_chan_closed = true },
    ok tt,
  )
  mark_complete g (err e) = (g, err e)
  mark_complete g panic = (g, panic)
  mark_complete g stuck = (g, stuck)

  -- The rest of `lockedGatherComplete` once the ClientHello was reconstructed.
  abbrev pub set_client_hello :
      GatheredClientInitials → Result ClientHello → GatheredClientInitials × Result (Unit {0})
  set_client_hello g (ok hello) =
      let g' : GatheredClientInitials = record g {
        client_hello = some hello;
        transport_parameters = hello.qtp;
      } in
      mark_complete g' (calc_numeric_id g')
  set_client_hello g (err e) = (record g { client_hello = none }, err (wrapped e))
  set_client_hello g panic = (g, panic)
  set_client_hello g stuck = (g, stuck)

  unfoldable pub locked_gather_complete :
      GatheredClientInitials → GatheredClientInitials × Result (Unit {0})
  locked_gather_complete g = set_client_hello g (reconstruct g.reconstructor)

  -- The packet is added, and its frames are handed to the reconstructor.
  unfoldable pub collect :
      GatheredClientInitials → ClientInitial → GatheredClientInitials × Result (Unit {0})
  collect g ci =
      let (q, e) = from_frames g.reconstructor ci.frames in
      let g' : GatheredClientInitials = record g {
        packets = sort_by number (g.packets ++ ci ∷ []);
        reconstructor = q;
      } in
      elim e [
        | none ↦ locked_gather_complete g'
        | some x ↦ (g', if is_need_more_frames x then ok tt else err (wrapped x))
      ]

  -- What `AddPacket` does before the ClientHello is complete, once the base is set.
  unfoldable pub admit :
      GatheredClientInitials → ClientInitial → GatheredClientInitials × Result (Unit {0})
  admit g ci =
      if rejects g ci
      then (g, err packet_rejected)
      else if seen (number ci) g.packets
      then (g, ok tt)
      else collect g ci

  unfoldable pub add_packet :
      ℕ → GatheredClientInitials → ClientInitial → GatheredClientInitials × Result (Unit {0})
  add_packet now g ci =
      if expired now g
      then (g, err gathering_expired)
      else elim g.client_hello [ some h ↦ (g, ok tt) | none ↦ admit (anchor g ci) ci ]

-- What `Wait` is woken by, and the struct at that time.
pub data Wake : Type 0 where
  timer : Wake
  channel : GatheredClientInitials → Wake

unfoldable pub wait : GatheredClientInitials → Wake → Result (Unit {0})
wait g w = if g.completed then ok tt else elim w [
  | timer ↦ err gathering_expired
  | channel g' ↦ if g'.completed then ok tt else err closed_before_completion
]

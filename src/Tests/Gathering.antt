-- ===== src/Tests/Gathering.antt =====
-- Gathering Initial packets: quic_client_initial.go on two packets.
use clienthellod.Common.{
  ℕ, ◌≡◌, inr, refl, arith, true, false, some, List, [], ◌∷◌, ◌++◌, ◌≢◌, ◌==◌, if◌then◌else◌, take,
}
use clienthellod.Common.{get_or}
use clienthellod.Frame.{padding}
use clienthellod.Outcome.{Result, ok, err, panic, eof, gathering_expired}
use clienthellod.Frame.{Frame, ping, crypto, frame_types_uint8, frame_type}
use clienthellod.TransportParameters.{new_parameters}
use clienthellod.ClientHello.{ClientHello}
use clienthellod.Gather.{
  ClientInitial, GatheredClientInitials, gather_client_initials, number,
  gather_client_initials_with_deadline, add_packet, calc_numeric_id,
}
use clienthellod.Gather.Invariant.{IsWellFormed, new-IsWellFormed, add_packet-IsWellFormed}
use clienthellod.Gather.Complete.{IsFlight, IsComplete, add_packets, add_packet-IsComplete}
use clienthellod.Reconstructor.Assemble.{total}
use clienthellod.QuicFingerprinter.{
  QuicFingerprinter, QuicFingerprint, Received, datagram, read_failed,
  new_quic_fingerprinter_with_timeout, load_gathering, handle_packet, handle_udp_conn, peek_quic,
  Expiry, expire_gathering, gather, delete_gathering,
}
use clienthellod.QuicFingerprinter.Isolation.{handle_packet-IsIsolated}
use clienthellod.QuicFingerprinter.Flight.{Arrive, Run, peek_quic-Run}
use clienthellod.Hash.{first_u64, update_u64}
use clienthellod.Sort.{sort_by}
use clienthellod.Gather.Identity.{calc_numeric_id-frame_types}

abbrev packet : ℕ → List Frame → ClientInitial
packet n frames = record {
  header = record {
    version = 0 ∷ 0 ∷ 0 ∷ 1 ∷ [];
    dcid_length = 8;
    scid_length = 0;
    packet_number = n ∷ [];
    initial_packet_number_length = 1;
    initial_packet_number = n;
    has_token = false;
  };
  frame_types = [];
  frames = frames;
  raw = [];
}

abbrev hello : ClientHello
hello = record {
  raw = [];
  tls_record_version = 0;
  tls_handshake_version = 0x303;
  cipher_suites = [];
  compression_methods = [];
  extensions = [];
  extensions_normalized = [];
  server_name = [];
  named_group_list = [];
  ec_point_format_list = [];
  signature_scheme_list = [];
  alpn = [];
  cert_compress_algo = [];
  record_size_limit = [];
  supported_versions = [];
  psk_key_exchange_modes = [];
  key_share = [];
  application_settings = [];
  user_agent = [];
  num_id = 0;
  norm_num_id = 0;
  hex_id = [];
  norm_hex_id = [];
  length_prefixed_supported_groups = [];
  length_prefixed_ec_point_formats = [];
  length_prefixed_signature_algos = [];
  alpn_with_lengths = [];
  length_prefixed_cert_compress_algos = [];
  keyshare_groups_with_lengths = [];
  qtp = some new_parameters;
}

-- In place of the parser and of SHA-1.
abbrev parse_any : List ℕ → Result ClientHello
parse_any b = ok hello

abbrev toy_hash : List ℕ → List ℕ
toy_hash s = take 20 s

abbrev opening : ClientInitial
opening = packet 7 (crypto 0 6 (1 ∷ 0 ∷ 0 ∷ 2 ∷ 3 ∷ 3 ∷ []) ∷ ping ∷ [])

-- Without a deadline every packet comes too late.
no_deadline :
    add_packet parse_any toy_hash 1 gather_client_initials opening
    ≡ (gather_client_initials, err gathering_expired)
unfolding add_packet
no_deadline = refl

abbrev gathering : GatheredClientInitials
gathering = gather_client_initials_with_deadline 100

gathering-IsWellFormed : IsWellFormed gathering
gathering-IsWellFormed = record {
  ordered = tt;
  distinct = tt;
  near = tt;
  few = omega arith;
  anchored = inr refl;
  assembling = new-IsWellFormed.assembling;
  hello = λ e. cc;
}

add_packet-IsWellFormed_example : IsWellFormed (add_packet parse_any toy_hash 5 gathering opening).0
add_packet-IsWellFormed_example =
    add_packet-IsWellFormed parse_any toy_hash 5 gathering opening gathering-IsWellFormed
      (omega arith, (tt, tt))

abbrev gathered : GatheredClientInitials
gathered = record gathering { packets = opening ∷ []; client_hello = some hello; completed = true }

abbrev regathered : GatheredClientInitials
regathered = record gathering {
  packets = packet 40 (ping ∷ crypto 0 1 (1 ∷ []) ∷ ping ∷ []) ∷ opening ∷ [];
}

calc_numeric_id-frame_types_example :
    calc_numeric_id parse_any toy_hash gathered ≡ calc_numeric_id parse_any toy_hash regathered
unfolding frame_types_uint8 frame_type
calc_numeric_id-frame_types_example =
    calc_numeric_id-frame_types parse_any toy_hash gathered regathered opening
      (packet 40 (ping ∷ crypto 0 1 (1 ∷ []) ∷ ping ∷ [])) [] (opening ∷ []) refl refl refl refl
      refl refl refl (λ t. ground arith)

-- The end of the message comes first, in the packet with the higher number.
abbrev message : List ℕ
message = 1 ∷ 0 ∷ 0 ∷ 3 ∷ 8 ∷ 9 ∷ 7 ∷ []

abbrev stream : ℕ → ℕ
stream i = get_or message i 0

abbrev later_half : ClientInitial
later_half = packet 41 (ping ∷ crypto 5 2 (9 ∷ 7 ∷ []) ∷ [])

abbrev first_half : ClientInitial
first_half = packet 40 (crypto 0 5 (1 ∷ 0 ∷ 0 ∷ 3 ∷ 8 ∷ []) ∷ padding 4 ∷ [])

halves-IsFlight : IsFlight stream 7 (later_half ∷ first_half ∷ [])
unfolding total
halves-IsFlight = record {
  near = (omega arith, (omega arith, tt));
  distinct = ((omega arith, tt), (tt, tt));
  few = omega arith;
  carried = (
    record { carried = omega arith; nonempty = omega arith; within = omega arith },
    (record { carried = omega arith; nonempty = omega arith; within = omega arith }, tt),
  );
  apart = (
    (record { offsets = omega arith; before = omega arith; behind = omega arith }, tt),
    (tt, tt),
  );
  count = omega arith;
  whole = refl;
}

-- The second packet comes at the deadline.
add_packet-IsComplete_example :
    IsComplete stream 7 parse_any toy_hash
      (add_packet parse_any toy_hash 100
        (add_packets stream 7 parse_any toy_hash
          (gather_client_initials_with_deadline 100)
          ((5, later_half) ∷ []))
        first_half)
      hello
      (later_half ∷ first_half ∷ [])
add_packet-IsComplete_example =
    add_packet-IsComplete stream 7 parse_any toy_hash 100 ((5, later_half) ∷ []) 100 first_half
      hello (omega arith, tt) (omega arith)
      (record { declared = refl; body = omega arith; fits = omega arith }) halves-IsFlight (λ e. cc)
      refl

-- A decoder of the datagrams 1 and 2 that refuses all others.
abbrev decode_half : List ℕ → Result ClientInitial
decode_half (n ∷ []) = if n == 1 then ok later_half else if n == 2 then ok first_half else err eof
decode_half _ = err eof

abbrev arriving : List Received
arriving = datagram 5 (7 ∷ []) (1 ∷ []) ∷ datagram 6 (8 ∷ []) (2 ∷ []) ∷ []

abbrev arriving_later : List Received
arriving_later =
    read_failed false eof ∷ datagram 80 (7 ∷ []) (3 ∷ []) ∷ datagram 90 (7 ∷ []) (2 ∷ []) ∷ []

-- A goroutine for the address 8 from before.
abbrev pending : Expiry
pending = record { due = 50; key = 8 ∷ [] }

abbrev watching : QuicFingerprinter
watching = record (new_quic_fingerprinter_with_timeout 100) { expiries = pending ∷ [] }

abbrev halfway : QuicFingerprinter
halfway = (handle_udp_conn parse_any toy_hash decode_half arriving watching).0

abbrev started : List Expiry
started = record { due = 106; key = 8 ∷ [] } ∷ record { due = 105; key = 7 ∷ [] } ∷ []

halfway_expiries : halfway.expiries ≡ started ++ pending ∷ []
unfolding handle_udp_conn handle_packet gather load_gathering delete_gathering
halfway_expiries = refl

abbrev watched : QuicFingerprinter
watched =
    (handle_udp_conn parse_any toy_hash decode_half arriving_later
      (expire_gathering pending (started ++ []) halfway)).0

peek_quic-Run_example :
    (f : QuicFingerprint) × (peek_quic toy_hash (7 ∷ []) watched ≡ ok (some f))
    × (f.client_initials.packets ≡ sort_by number (later_half ∷ first_half ∷ []))
    × (f.client_initials.client_hello ≡ some hello)
    × (f.num_id
        ≡ first_u64 (
            toy_hash (
              update_u64 f.client_initials.num_id
              ++ (update_u64 hello.norm_num_id ++ update_u64 new_parameters.num_id))))
unfolding load_gathering
peek_quic-Run_example =
    peek_quic-Run parse_any toy_hash decode_half (7 ∷ []) stream 7 watching watched
      ((5, later_half) ∷ []) 90 first_half hello new_parameters refl refl refl ((λ e. cc), tt)
      ((omega arith, omega arith), ((omega arith, omega arith), tt))
      (Run.stretch (Arrive.mine 5 refl (Arrive.theirs 6 (8 ∷ []) (λ e. cc) Arrive.nothing))
        (Run.woken 60 started pending [] halfway_expiries (omega arith) (omega arith) (
          Run.stretch
            (Arrive.failed eof (Arrive.refused 80 eof refl (Arrive.mine 90 refl Arrive.nothing)))
            Run.ended refl))
        refl)
      (record { declared = refl; body = omega arith; fits = omega arith }) halves-IsFlight (λ e. cc)
      refl refl

handle_packet-IsIsolated_example :
    ((handle_packet parse_any toy_hash (λ p. panic) 5 (8 ∷ []) (0xc0 ∷ []) watching).1 ≢ panic)
    × (load_gathering
          (7 ∷ [])
          (handle_packet parse_any toy_hash
            (λ p. panic)
            5
            (8 ∷ [])
            (0xc0 ∷ [])
            watching).0.gatherings
        ≡ load_gathering (7 ∷ []) watching.gatherings)
handle_packet-IsIsolated_example =
    handle_packet-IsIsolated parse_any toy_hash (λ p. panic) 5 (7 ∷ []) (8 ∷ []) (0xc0 ∷ [])
      watching (λ e. cc)

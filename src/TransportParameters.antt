-- ===== src/TransportParameters.antt =====
-- quic_transport_parameters.go, with `unsetVLIBits` of quic_common.go and the hash of the transport
-- parameters of fingerprint_hash.go.
-- `dicttls` gives the identifiers that the package of that name has for the cases of the switch,
-- `sha1` is the hash, and `max_slice` the largest length at which `make([]byte, n)` succeeds.
pub mod Encode
pub mod Order
use clienthellod.Common.{
  ℕ, zero, suc, ◌+◌, ◌<◌, ◌≡◌, ◌≢◌, ◌∷◌, ◌++◌, bit_and, Bool, true, false, Option, none, some, List,
  [], length, ltb, ◌==◌, if◌then◌else◌,
}
use clienthellod.Outcome.{
  Error, Result, ok, err, panic, stuck, wrapped, corrupted_parameter, unknown_error,
}
use clienthellod.Reader.{Reader, Read, content, read, bytes_reader}
use clienthellod.Vli.{read_next_vli, is_grease_transport_parameter}
use clienthellod.Sort.{sort}
use clienthellod.Hash.{update_u64, vli_to_u64, first_u64, as_hex}

abbrev pub qtp_grease : ℕ
qtp_grease = 27

-- The parameters whose values are kept, in the order of the switch and of the hash.
pub data Field : Type 0 where
  max_idle_timeout max_udp_payload_size initial_max_data : Field
  initial_max_stream_data_bidi_local initial_max_stream_data_bidi_remote : Field
  initial_max_stream_data_uni initial_max_streams_bidi initial_max_streams_uni : Field
  ack_delay_exponent max_ack_delay active_connection_id_limit : Field

abbrev pub fields : List Field
fields =
    max_idle_timeout ∷ max_udp_payload_size ∷ initial_max_data ∷ initial_max_stream_data_bidi_local
    ∷ initial_max_stream_data_bidi_remote ∷ initial_max_stream_data_uni ∷ initial_max_streams_bidi
    ∷ initial_max_streams_uni ∷ ack_delay_exponent ∷ max_ack_delay ∷ active_connection_id_limit ∷ []

-- The place in `fields`.
abbrev pub place : Field → ℕ
place max_idle_timeout = 0
place max_udp_payload_size = 1
place initial_max_data = 2
place initial_max_stream_data_bidi_local = 3
place initial_max_stream_data_bidi_remote = 4
place initial_max_stream_data_uni = 5
place initial_max_streams_bidi = 6
place initial_max_streams_uni = 7
place ack_delay_exponent = 8
place max_ack_delay = 9
place active_connection_id_limit = 10

-- The eleven fields of the struct with a value are a function, and a nil slice is the empty list.
pub record QuicTransportParameters : Type 0 where
  pub values : Field → List ℕ
  pub qtp_ids : List ℕ
  pub hex_id : List ℕ
  pub num_id : ℕ
  pub parse_error : Option Error

abbrev pub new_parameters : QuicTransportParameters
new_parameters = record {
  values = λ f. [];
  qtp_ids = [];
  hex_id = [];
  num_id = 0;
  parse_error = some unknown_error;
}

abbrev pub unset_vli_bits : List ℕ → List ℕ
unset_vli_bits [] = []
unset_vli_bits (b ∷ bs) = bit_and b 0x3f ∷ bs

abbrev pub write_field : Field → List ℕ → (Field → List ℕ) → (Field → List ℕ)
write_field f v values g = if place g == place f then v else values g

abbrev pub write_values : (Field → List ℕ) → List Field → List ℕ
write_values values [] = []
write_values values (f ∷ fs) = update_u64 (vli_to_u64 (values f)) ++ write_values values fs

abbrev pub write_ids : List ℕ → List ℕ
write_ids [] = []
write_ids (i ∷ is) = update_u64 i ++ write_ids is

unfoldable pub add_id : ℕ → QuicTransportParameters → QuicTransportParameters
add_id t q = record q {
  qtp_ids = q.qtp_ids ++ (if is_grease_transport_parameter t then qtp_grease else t) ∷ [];
}

module _ (dicttls : Field → ℕ) where
  -- The case of the switch that an identifier selects.
  abbrev pub case_of : ℕ → List Field → Option Field
  case_of t [] = none
  case_of t (f ∷ fs) = if t == dicttls f then some f else case_of t fs

  -- The switch.
  unfoldable pub store : ℕ → List ℕ → QuicTransportParameters → QuicTransportParameters
  store t v q = elim (case_of t fields) [
    | none ↦ q
    | some f ↦ record q { values = write_field f (unset_vli_bits v) q.values }
  ]

abbrev pub fail : Error → QuicTransportParameters → QuicTransportParameters
fail e q = record q { parse_error = some e }

module _ (sha1 : List ℕ → List ℕ) where
  unfoldable pub calc_numeric_id : QuicTransportParameters → ℕ
  calc_numeric_id q = first_u64 (sha1 (write_ids q.qtp_ids ++ write_values q.values fields))

  -- What is left to do after the loop.
  unfoldable pub finish : QuicTransportParameters → QuicTransportParameters
  finish q =
      let sorted = record q { qtp_ids = sort q.qtp_ids; parse_error = none } in
      let id = calc_numeric_id sorted in record sorted { num_id = id; hex_id = as_hex id }

-- In the functions below `some r` is the reader for the next round, and `none` a return.
module _ (max_slice : ℕ) (dicttls : Field → ℕ) where
  -- What follows the call of `r.Read`.
  abbrev pub after_read :
      ℕ → ℕ → QuicTransportParameters → Read → QuicTransportParameters × Option Reader
  after_read t len q d = elim d.failed [
    | some e ↦ (fail (wrapped e) q, none)
    | none ↦
        if length d.got == len
        then (store dicttls t d.got q, some d.rest)
        else (fail corrupted_parameter q, none)
  ]

  unfoldable pub read_value :
      ℕ → ℕ → Reader → QuicTransportParameters → Result (QuicTransportParameters × Option Reader)
  read_value t len r q =
      if len == 0
      then ok (q, some r)
      else if ltb max_slice len
      then panic
      else ok (after_read t len q (read r len))

  -- The body of the loop.
  unfoldable pub read_param :
      Reader → QuicTransportParameters → Result (QuicTransportParameters × Option Reader)
  read_param r q = elim (read_next_vli r) [
    | err e ↦ ok (fail (wrapped e) q, none)
    | panic ↦ panic
    | stuck ↦ stuck
    | ok ((t, n), r₁) ↦ elim (read_next_vli r₁) [
      | err e ↦ ok (fail (wrapped e) q, none)
      | panic ↦ panic
      | stuck ↦ stuck
      | ok ((len, m), r₂) ↦ read_value t len r₂ (add_id t q)
    ]
  ]

  module _ (sha1 : List ℕ → List ℕ) where
    unfoldable pub params_loop :
        ℕ → Reader → QuicTransportParameters → Result QuicTransportParameters
    params_loop zero r q = stuck
    params_loop (suc fuel) r q = elim (length (content r)) [
      | zero ↦ ok (finish sha1 q)
      | suc left ↦ elim (read_param r q) [
        | err e ↦ err e
        | panic ↦ panic
        | stuck ↦ stuck
        | ok (q', none) ↦ ok q'
        | ok (q', some r') ↦ params_loop fuel r' q'
      ]
    ]

    -- A round takes at least one byte.
    unfoldable pub parse_quic_transport_parameters : List ℕ → Result QuicTransportParameters
    parse_quic_transport_parameters ext_data =
        params_loop (suc (length ext_data)) (bytes_reader ext_data) new_parameters

-- ===== src/Tests/Fingerprint.antt =====
-- The fingerprint inputs of fingerprint_hash.go, transport parameters and ClientHellos.
use clienthellod.Common.{
  ℕ, ◌<◌, ◌≡◌, ◌↔◌, inl, inr, refl, arith, true, none, List, [], ◌∷◌, length, take,
}
use clienthellod.Outcome.{ok, panic}
use clienthellod.Sort.{sort_by, insert_by, dedup_int_arr}
use clienthellod.Sort.Members.{In, IsStrict, dedup_int_arr-IsStrict}
use clienthellod.Frame.{Frame, ping, crypto}
use clienthellod.Frame.Reassemble.{
  reassemble_crypto_frames, reassemble_crypto_frames-cut, reassemble_crypto_frames-Sound, cut,
  parts, concat,
}
use clienthellod.Hash.{as_hex, is_grease_u16}
use clienthellod.Hash.Hex.{from_hex, from_hex-as_hex}
use clienthellod.Hash.Grease.{grease_u16, is_grease_u16_iff}
use clienthellod.TransportParameters.{Field, parse_quic_transport_parameters}
use clienthellod.TransportParameters.Encode.{Param, IsParam, encode_params}
use clienthellod.TransportParameters.Order.{parse_quic_transport_parameters-Perm}
use clienthellod.ClientHello.{ClientHello, set_fingerprint}
use clienthellod.ClientHello.Invariance.{
  none_left, one_more, IsSimilar, set_fingerprint-Perm, set_fingerprint-Grease,
}
use mathlib.Core.List.{Permᴰ}

abbrev two_pieces : List Frame
two_pieces = crypto 5 1 (9 ∷ []) ∷ ping ∷ crypto 3 2 (7 ∷ 8 ∷ []) ∷ []

reassemble_crypto_frames-cut_example : reassemble_crypto_frames two_pieces ≡ ok (7 ∷ 8 ∷ 9 ∷ [])
reassemble_crypto_frames-cut_example =
    reassemble_crypto_frames-cut 3 ((7 ∷ 8 ∷ []) ∷ (9 ∷ []) ∷ []) two_pieces
      (omega arith, (omega arith, tt)) (omega arith) (Permᴰ.swap refl refl)

sorted_pieces :
    sort_by (λ (c : ℕ × List ℕ). c.0) ((5, 9 ∷ []) ∷ (3, 7 ∷ 8 ∷ []) ∷ [])
    ≡ (3, 7 ∷ 8 ∷ []) ∷ (5, 9 ∷ []) ∷ []
unfolding sort_by insert_by
sorted_pieces = refl

reassemble_crypto_frames-Sound_example :
    (7 ∷ 8 ∷ 9 ∷ [] ≡ concat (parts ((3, 7 ∷ 8 ∷ []) ∷ (5, 9 ∷ []) ∷ [])))
    × ((3, 7 ∷ 8 ∷ []) ∷ (5, 9 ∷ []) ∷ [] ≡ cut 3 ((7 ∷ 8 ∷ []) ∷ (9 ∷ []) ∷ []))
reassemble_crypto_frames-Sound_example =
    reassemble_crypto_frames-Sound two_pieces (7 ∷ 8 ∷ 9 ∷ []) (3, 7 ∷ 8 ∷ []) ((5, 9 ∷ []) ∷ [])
      sorted_pieces (omega arith) reassemble_crypto_frames-cut_example

abbrev twice_three : List ℕ
twice_three = 3 ∷ 1 ∷ 3 ∷ []

dedup_int_arr-IsStrict_example :
    (ys : List ℕ) × (dedup_int_arr [] twice_three ≡ ok ys)
    × IsStrict ys
    × ((n : ℕ) → In n ys ↔ In n twice_three)
dedup_int_arr-IsStrict_example = dedup_int_arr-IsStrict [] 3 (1 ∷ 3 ∷ [])

-- An empty array without spare capacity, and one with it.
empty_array : (dedup_int_arr [] [] ≡ panic) × (dedup_int_arr (4 ∷ []) [] ≡ ok (4 ∷ []))
unfolding dedup_int_arr
empty_array = (refl, refl)

from_hex-as_hex_example :
    (from_hex 0 (as_hex 0x0123456789abcdef) ≡ 0x0123456789abcdef)
    × (length (as_hex 0x0123456789abcdef) ≡ 16)
from_hex-as_hex_example = from_hex-as_hex 0x0123456789abcdef (omega arith)

is_grease_u16_iff_example :
    (is_grease_u16 0x1a1a ≡ true) ↔ ((k : ℕ) × (k < 16) × (0x1a1a ≡ grease_u16 k))
is_grease_u16_iff_example = is_grease_u16_iff 0x1a1a (omega arith)

-- The identifiers of RFC 9000, section 18.2.
abbrev rfc_id : Field → ℕ
rfc_id Field.max_idle_timeout = 0x01
rfc_id Field.max_udp_payload_size = 0x03
rfc_id Field.initial_max_data = 0x04
rfc_id Field.initial_max_stream_data_bidi_local = 0x05
rfc_id Field.initial_max_stream_data_bidi_remote = 0x06
rfc_id Field.initial_max_stream_data_uni = 0x07
rfc_id Field.initial_max_streams_bidi = 0x08
rfc_id Field.initial_max_streams_uni = 0x09
rfc_id Field.ack_delay_exponent = 0x0a
rfc_id Field.max_ack_delay = 0x0b
rfc_id Field.active_connection_id_limit = 0x0e

-- In place of SHA-1: the first 20 bytes.
abbrev toy_hash : List ℕ → List ℕ
toy_hash s = take 20 s

abbrev idle : Param
idle = (1, 0x67 ∷ 0x10 ∷ [])

abbrev reserved : Param
reserved = (58, [])

idle-IsParam : IsParam 2048 idle
idle-IsParam = record {
  type_lem = omega arith;
  bytes = (omega arith, (omega arith, tt));
  short = omega arith;
  length_lem = omega arith;
}

reserved-IsParam : IsParam 2048 reserved
reserved-IsParam = record {
  type_lem = omega arith;
  bytes = tt;
  short = omega arith;
  length_lem = omega arith;
}

parse_quic_transport_parameters-Perm_example :
    parse_quic_transport_parameters 2048 rfc_id toy_hash (encode_params (idle ∷ reserved ∷ []))
    ≡ parse_quic_transport_parameters 2048 rfc_id toy_hash (encode_params (reserved ∷ idle ∷ []))
parse_quic_transport_parameters-Perm_example =
    parse_quic_transport_parameters-Perm rfc_id 2048 toy_hash (idle ∷ reserved ∷ [])
      (reserved ∷ idle ∷ []) (idle-IsParam, (reserved-IsParam, tt))
      (reserved-IsParam, (idle-IsParam, tt)) ((λ e. cc, tt), (tt, tt)) (Permᴰ.swap refl refl)

abbrev first_hello : ClientHello
first_hello = record {
  raw = [];
  tls_record_version = 0x301;
  tls_handshake_version = 0x303;
  cipher_suites = 0x1a1a ∷ 0x1301 ∷ [];
  compression_methods = 0 ∷ [];
  extensions = 0x0a0a ∷ 51 ∷ 43 ∷ [];
  extensions_normalized = [];
  server_name = [];
  named_group_list = 29 ∷ [];
  ec_point_format_list = [];
  signature_scheme_list = 0x403 ∷ [];
  alpn = (104 ∷ 50 ∷ []) ∷ [];
  cert_compress_algo = [];
  record_size_limit = [];
  supported_versions = 0x304 ∷ [];
  psk_key_exchange_modes = 0x0b ∷ 1 ∷ [];
  key_share = 29 ∷ [];
  application_settings = [];
  user_agent = [];
  num_id = 0;
  norm_num_id = 0;
  hex_id = [];
  norm_hex_id = [];
  length_prefixed_supported_groups = [];
  length_prefixed_ec_point_formats = [];
  length_prefixed_signature_algos = [];
  alpn_with_lengths = [];
  length_prefixed_cert_compress_algos = [];
  keyshare_groups_with_lengths = [];
  qtp = none;
}

abbrev second_hello : ClientHello
second_hello = record first_hello {
  cipher_suites = 0xfafa ∷ 0x1301 ∷ [];
  psk_key_exchange_modes = 0x2a ∷ 1 ∷ [];
}

hellos-IsSimilar : IsSimilar first_hello second_hello
unfolding is_grease_u16
hellos-IsSimilar = record {
  version_lem = refl;
  suites = one_more (inr (refl, refl)) (one_more (inl refl) none_left);
  compression = refl;
  groups = one_more (inl refl) none_left;
  formats = refl;
  schemes = one_more (inl refl) none_left;
  protocols = one_more (inl refl) none_left;
  shares = one_more (inl refl) none_left;
  modes = one_more (inr (refl, refl)) (one_more (inl refl) none_left);
  versions = one_more (inl refl) none_left;
  algorithms = refl;
  limit = refl;
}

abbrev shuffled_hello : ClientHello
shuffled_hello = record second_hello { extensions = 51 ∷ 0x0a0a ∷ 43 ∷ [] }

shuffled-IsSimilar : IsSimilar first_hello shuffled_hello
shuffled-IsSimilar = record {
  version_lem = refl;
  suites = hellos-IsSimilar.suites;
  compression = refl;
  groups = hellos-IsSimilar.groups;
  formats = refl;
  schemes = hellos-IsSimilar.schemes;
  protocols = hellos-IsSimilar.protocols;
  shares = hellos-IsSimilar.shares;
  modes = hellos-IsSimilar.modes;
  versions = hellos-IsSimilar.versions;
  algorithms = refl;
  limit = refl;
}

set_fingerprint-Perm_example :
    ((set_fingerprint toy_hash first_hello).norm_num_id
      ≡ (set_fingerprint toy_hash shuffled_hello).norm_num_id)
    × ((set_fingerprint toy_hash first_hello).norm_hex_id
        ≡ (set_fingerprint toy_hash shuffled_hello).norm_hex_id)
set_fingerprint-Perm_example =
    set_fingerprint-Perm toy_hash first_hello shuffled_hello shuffled-IsSimilar
      (Permᴰ.swap refl refl)

set_fingerprint-Grease_example :
    ((set_fingerprint toy_hash first_hello).num_id ≡ (set_fingerprint toy_hash second_hello).num_id)
    × ((set_fingerprint toy_hash first_hello).hex_id
        ≡ (set_fingerprint toy_hash second_hello).hex_id)
set_fingerprint-Grease_example =
    set_fingerprint-Grease toy_hash first_hello second_hello hellos-IsSimilar
      (one_more (inl refl) (one_more (inl refl) (one_more (inl refl) none_left)))

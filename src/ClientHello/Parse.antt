-- ===== src/ClientHello/Parse.antt =====
-- clienthello.go: `ParseClientHello` and `UnmarshalClientHello` over what uTLS returns, with
-- internal/utils/typeconv.go, and quic_clienthello.go.
use clienthellod.Common.{
  ℕ, ◌*◌, ◌/◌, ◌%◌, ◌^◌, Option, none, some, List, [], ◌∷◌, ◌++◌, length, drop, ltb, ◌==◌,
  if◌then◌else◌,
}
use clienthellod.Outcome.{
  Error, Result, ok, err, panic, stuck, ◌>>=◌, some_or, eof, bad_client_hello, not_quic_initial,
}
use clienthellod.Cryptobyte.{Cryptobyte}
use clienthellod.TransportParameters.{
  Field, QuicTransportParameters, parse_quic_transport_parameters,
}
use clienthellod.ClientHello.{ClientHello}
use clienthellod.ClientHello.Read.{Hello, read_client_hello}
use clienthellod.ClientHello.Extra.{wrap_error, parse_extra}

-- The types of `tls.TLSExtension` that the source tells apart, with the fields that it reads; of a
-- key share that is the group. `other` is any other extension.
pub data TlsExtension : Type 0 where
  supported_curves : List ℕ → TlsExtension
  supported_points : List ℕ → TlsExtension
  signature_algorithms : List ℕ → TlsExtension
  alpn_protocols : List (List ℕ) → TlsExtension
  compress_cert : List ℕ → TlsExtension
  fake_record_size_limit : ℕ → TlsExtension
  supported_versions : List ℕ → TlsExtension
  psk_key_exchange_modes : List ℕ → TlsExtension
  key_shares : List ℕ → TlsExtension
  application_settings : List (List ℕ) → TlsExtension
  generic : ℕ → List ℕ → TlsExtension
  other : TlsExtension

-- `tls.ClientHelloSpec`.
pub record ClientHelloSpec : Type 0 where
  pub cipher_suites : List ℕ
  pub compression_methods : List ℕ
  pub extensions : List TlsExtension

-- What the program uses of uTLS: `RawClientHello` of a `tls.Fingerprinter`, the server name of the
-- message that `tls.UnmarshalClientHello` returns, if it is not nil, and its constants.
pub record Utls : Type 0 where
  pub raw_client_hello : List ℕ → Result ClientHelloSpec
  pub unmarshal_server_name : List ℕ → Option (List ℕ)
  pub grease_placeholder : ℕ
  pub quic_transport_parameters_id : ℕ
  -- the ids of package dicttls
  pub transport_parameter_id : Field → ℕ

-- `Uint16ToUint8`
abbrev pub uint16_to_uint8 : List ℕ → List ℕ
uint16_to_uint8 [] = []
uint16_to_uint8 (v ∷ vs) = (v / 256 % 256) ∷ (v % 256) ∷ uint16_to_uint8 vs

-- A list of `uint16` behind its length in bytes.
abbrev pub length_and : List ℕ → List ℕ
length_and vs = 2 * length vs % 2 ^ 16 ∷ vs

abbrev pub add_curves : List ℕ → ClientHello → ClientHello
add_curves curves ch =
    let all = ch.named_group_list ++ curves in
    record ch {
      named_group_list = all;
      length_prefixed_supported_groups = ch.length_prefixed_supported_groups ++ length_and all;
    }

abbrev pub add_points : List ℕ → ClientHello → ClientHello
add_points points ch = record ch {
  ec_point_format_list = points;
  length_prefixed_ec_point_formats =
      ch.length_prefixed_ec_point_formats ++ length points % 256 ∷ points;
}

abbrev pub add_algorithms : List ℕ → ClientHello → ClientHello
add_algorithms algorithms ch =
    let all = ch.signature_scheme_list ++ algorithms in
    record ch {
      signature_scheme_list = all;
      length_prefixed_signature_algos = ch.length_prefixed_signature_algos ++ length_and all;
    }

-- `2*uint8(len(...))` and the algorithms as bytes.
abbrev pub add_compression : List ℕ → ClientHello → ClientHello
add_compression algorithms ch =
    let all = ch.cert_compress_algo ++ algorithms in
    record ch {
      cert_compress_algo = all;
      length_prefixed_cert_compress_algos =
          ch.length_prefixed_cert_compress_algos
          ++ 2 * (length all % 256) % 256 ∷ uint16_to_uint8 all;
    }

module _ (max_slice : ℕ) (U : Utls) (sha1 : List ℕ → List ℕ) where
  abbrev pub store_parameters : ClientHello → Result QuicTransportParameters → Result ClientHello
  store_parameters ch (ok q) = ok (record ch { qtp = some q })
  store_parameters ch (err e) = err e
  store_parameters ch panic = panic
  store_parameters ch stuck = stuck

  -- One round of the loop.
  unfoldable pub parse_one : TlsExtension → ClientHello → Result ClientHello
  parse_one (supported_curves curves) ch = ok (add_curves curves ch)
  parse_one (supported_points points) ch = ok (add_points points ch)
  parse_one (signature_algorithms algorithms) ch = ok (add_algorithms algorithms ch)
  parse_one (alpn_protocols protocols) ch = ok (record ch { alpn = protocols })
  parse_one (compress_cert algorithms) ch = ok (add_compression algorithms ch)
  parse_one (fake_record_size_limit limit) ch = ok (record ch {
    record_size_limit = ch.record_size_limit ++ (limit / 256 % 256) ∷ (limit % 256) ∷ [];
  })
  parse_one (supported_versions versions) ch =
      ok (record ch { supported_versions = ch.supported_versions ++ versions })
  parse_one (psk_key_exchange_modes modes) ch = ok (record ch { psk_key_exchange_modes = modes })
  parse_one (key_shares groups) ch = ok (record ch { key_share = ch.key_share ++ groups })
  parse_one (application_settings protocols) ch =
      ok (record ch { application_settings = protocols })
  parse_one (generic id ext_data) ch =
      if id == U.quic_transport_parameters_id
      then store_parameters ch
          (parse_quic_transport_parameters max_slice U.transport_parameter_id sha1 ext_data)
      else ok ch
  parse_one other ch = ok ch

  unfoldable pub parse_extensions : List TlsExtension → ClientHello → Result ClientHello
  parse_extensions [] ch = ok ch
  parse_extensions (e ∷ es) ch = parse_one e ch >>= parse_extensions es

-- `ch.raw[5:]`
abbrev pub after_record_header : List ℕ → Result (List ℕ)
after_record_header raw = if ltb (length raw) 5 then panic else ok (drop 5 raw)

-- `new(ClientHello)` with its raw bytes.
abbrev pub new_client_hello : List ℕ → ClientHello
new_client_hello raw = record {
  raw = raw;
  tls_record_version = 0;
  tls_handshake_version = 0;
  cipher_suites = [];
  compression_methods = [];
  extensions = [];
  extensions_normalized = [];
  server_name = [];
  named_group_list = [];
  ec_point_format_list = [];
  signature_scheme_list = [];
  alpn = [];
  cert_compress_algo = [];
  record_size_limit = [];
  supported_versions = [];
  psk_key_exchange_modes = [];
  key_share = [];
  application_settings = [];
  user_agent = [];
  num_id = 0;
  norm_num_id = 0;
  hex_id = [];
  norm_hex_id = [];
  length_prefixed_supported_groups = [];
  length_prefixed_ec_point_formats = [];
  length_prefixed_signature_algos = [];
  alpn_with_lengths = [];
  length_prefixed_cert_compress_algos = [];
  keyshare_groups_with_lengths = [];
  qtp = none;
}

-- The transport parameters must be there and without an error.
abbrev pub with_parameters : ClientHello → Option QuicTransportParameters → Result ClientHello
with_parameters ch none = err not_quic_initial
with_parameters ch (some q) = elim q.parse_error [ none ↦ ok ch | some e ↦ err e ]

-- The record header in front of a message that came without one.
abbrev pub patched : List ℕ → List ℕ
patched p = 0x16 ∷ 0x00 ∷ 0x00 ∷ (length p / 256 % 256) ∷ (length p % 256) ∷ p

-- `Raw` of a `QUICClientHello`: without the patched header.
abbrev pub raw : ClientHello → Result (List ℕ)
raw qch = after_record_header qch.raw

module _ (B : Cryptobyte) (max_slice : ℕ) (U : Utls) (sha1 : List ℕ → List ℕ) where
  unfoldable pub parse_client_hello : ClientHello → Result ClientHello
  parse_client_hello ch = do
    chs ← wrap_error (U.raw_client_hello ch.raw)
    ch₁ ← parse_extensions max_slice U sha1 chs.extensions (record ch {
      cipher_suites = chs.cipher_suites;
      compression_methods = chs.compression_methods;
    })
    message ← after_record_header ch₁.raw
    name ← some_or bad_client_hello (U.unmarshal_server_name message)
    parse_extra B U.grease_placeholder sha1 (record ch₁ { server_name = name })

  -- The ClientHello that was read, if it was, is parsed.
  abbrev pub parse_hello : Hello → Option Error → Result ClientHello
  parse_hello h (some e) = err e
  parse_hello h none = parse_client_hello (new_client_hello h.raw)

  unfoldable pub unmarshal_client_hello : List ℕ → Result ClientHello
  unmarshal_client_hello p = let h = read_client_hello (p ∷ []) eof in parse_hello h h.failed

  unfoldable pub parse_quic_client_hello : List ℕ → Result ClientHello
  parse_quic_client_hello p = do
    let h = read_client_hello (patched p ∷ []) eof
    ch ← parse_hello h h.failed
    with_parameters ch ch.qtp

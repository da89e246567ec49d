-- ===== src/Tests/Hellos.antt =====
-- ClientHellos of clienthello.go and quic_clienthello.go, and connections of tls_fingerprint.go, on
-- concrete bytes. `plain_utls` stands in for uTLS and finds no extension that the source knows.
use clienthellod.Common.{
  ℕ, ◌%◌, ◌^◌, ◌<◌, ◌≡◌, refl, arith, true, Option, none, some, List, [], ◌∷◌, ◌++◌, map, length,
  take, drop,
}
use clienthellod.Outcome.{eof, Result, ok}
use clienthellod.Outcome.Ensures.{Ensures}
use clienthellod.Cryptobyte.{plain_cryptobyte, plain_cryptobyte-IsDocumented}
use clienthellod.TransportParameters.{parse_quic_transport_parameters, params_loop, finish}
use clienthellod.Connection.Laws.{ReadsAll}
use clienthellod.Connection.{Conn, joined, read_full, fill_loop}
use clienthellod.ClientHello.{ClientHello, set_fingerprint, calc_numeric_id}
use clienthellod.ClientHello.Read.{read_client_hello, read_body}
use clienthellod.ClientHello.Record.{IsRecord, read_client_hello-append}
use clienthellod.ClientHello.Extra.{
  is_grease_uint16, parse_record_header, parse_handshake_header, skip_lists, parse_rest,
  parse_extensions_extra, extensions_loop, parse_extension, parse_extension_extra, parse_key_shares,
  key_shares_loop, parse_key_share, parse_extra,
}
use clienthellod.ClientHello.Ends.{parse_extra-Ensures}
use clienthellod.ClientHello.Parse.{
  Utls, generic, new_client_hello, parse_client_hello, parse_extensions, parse_one,
  parse_quic_client_hello, raw,
}
use clienthellod.ClientHello.QuicMessage.{parse_quic_client_hello-raw}
use clienthellod.ClientHello.Walk.{plain, key_share, shown, all_noted}
use clienthellod.ClientHello.Message.{Message, IsMessage, write_message, parse_extra-write_message}
use clienthellod.TlsFingerprinter.{new_tls_fingerprinter, handle_tcp_conn, peek}
use clienthellod.TlsFingerprinter.Rewind.{handle_tcp_conn_rewound}
use clienthellod.Reservoir.{Reservoir, provision_reservoir}
use clienthellod.Handler.{Request, Services}
use clienthellod.Listener.{Incoming, connection, accept}

abbrev zeros : List ℕ → List ℕ
zeros bs = 0 ∷ 0 ∷ 0 ∷ 0 ∷ 0 ∷ 0 ∷ 0 ∷ 0 ∷ bs

-- Two extensions, one of them GREASE, and key shares; the record's length is 64.
abbrev message : Message
message = record {
  kind = 0x16;
  record_version = 0x0301;
  size = 0 ∷ 64 ∷ [];
  handshake_type = 1;
  handshake_size = 0 ∷ 0 ∷ 60 ∷ [];
  handshake_version = 0x0303;
  random = zeros (zeros (zeros (zeros [])));
  session_id = 5 ∷ [];
  cipher_suites = 0x13 ∷ 0x01 ∷ [];
  compression_methods = 0 ∷ [];
  extensions = plain 0x1a1a [] ∷ key_share ((29, 7 ∷ 7 ∷ []) ∷ []) ∷ [];
}

message-IsMessage : IsMessage message
message-IsMessage = record {
  size_lem = refl;
  handshake_size_lem = refl;
  random_lem = refl;
  extensions-IsNamed = ((λ e. omega arith), (tt, tt));
}

abbrev bytes : List ℕ
bytes = write_message message []

parse_extra-write_message_example :
    parse_extra plain_cryptobyte 0x0a0a (λ s. s) (new_client_hello bytes)
    ≡ ok (
        set_fingerprint
          (λ s. s)
          (record (all_noted 0x0a0a message.extensions (record (new_client_hello bytes) {
            tls_record_version = 0x0301;
            tls_handshake_version = 0x0303;
          })) { extensions = map (shown 0x0a0a) message.extensions }))
parse_extra-write_message_example =
    parse_extra-write_message plain_cryptobyte plain_cryptobyte-IsDocumented 0x0a0a (λ s. s) message
      [] (new_client_hello bytes) message-IsMessage refl

parse_extra-Ensures_example :
    Ensures
      (λ ch. ch.raw ≡ 0x16 ∷ 3 ∷ [])
      (parse_extra plain_cryptobyte 0x0a0a (λ s. s) (new_client_hello (0x16 ∷ 3 ∷ [])))
parse_extra-Ensures_example =
    parse_extra-Ensures plain_cryptobyte plain_cryptobyte-IsDocumented 0x0a0a (λ s. s)
      (new_client_hello (0x16 ∷ 3 ∷ []))

abbrev plain_utls : Utls
plain_utls = record {
  raw_client_hello = λ s. ok record {
    cipher_suites = 0x1301 ∷ [];
    compression_methods = 0 ∷ [];
    extensions = generic 57 [] ∷ [];
  };
  unmarshal_server_name = λ s. some (97 ∷ []);
  grease_placeholder = 0x0a0a;
  quic_transport_parameters_id = 57;
  transport_parameter_id = λ f. 1;
}

abbrev header : List ℕ
header = take 5 bytes

abbrev body : List ℕ
body = drop 5 bytes

header-IsRecord : IsRecord header body
header-IsRecord = record { header_lem = refl; kind_lem = refl; length_lem = refl }

abbrev chunks : List (List ℕ)
chunks = take 3 bytes ∷ [] ∷ (drop 3 bytes ++ 9 ∷ []) ∷ (8 ∷ []) ∷ []

read_client_hello-append_example :
    ((read_client_hello chunks eof).raw ≡ header ++ body)
    × ((read_client_hello chunks eof).failed ≡ none)
    × (joined (read_client_hello chunks eof).rest ≡ 9 ∷ 8 ∷ [])
read_client_hello-append_example =
    read_client_hello-append header body (9 ∷ 8 ∷ []) chunks eof header-IsRecord refl

abbrev parsed : Result ClientHello
parsed =
    parse_client_hello plain_cryptobyte 2048 plain_utls (λ s. s) (new_client_hello (header ++ body))

abbrev value_or : ClientHello → Result ClientHello → ClientHello
value_or other (ok ch) = ch
value_or other _ = other

abbrev hello : ClientHello
hello = value_or (new_client_hello []) parsed

parsed_hello : parsed ≡ ok hello
unfolding parse_client_hello parse_extensions parse_one parse_extra parse_record_header
    parse_handshake_header skip_lists parse_rest parse_extensions_extra extensions_loop
    parse_extension parse_extension_extra parse_key_shares key_shares_loop parse_key_share
    parse_quic_transport_parameters params_loop set_fingerprint calc_numeric_id is_grease_uint16
    finish
parsed_hello = refl

handle_tcp_conn_rewound_example :
    (c : Conn) × ((handle_tcp_conn
        (parse_client_hello plain_cryptobyte 2048 plain_utls (λ s. s))
        3
        (1 ∷ [])
        chunks
        eof
        new_tls_fingerprinter).1
      ≡ ok c)
    × ReadsAll c (joined chunks) eof
    × (peek
          (1 ∷ [])
          (handle_tcp_conn
            (parse_client_hello plain_cryptobyte 2048 plain_utls (λ s. s))
            3
            (1 ∷ [])
            chunks
            eof
            new_tls_fingerprinter).0
        ≡ some hello)
    × (hello.raw ≡ header ++ body)
handle_tcp_conn_rewound_example =
    handle_tcp_conn_rewound plain_cryptobyte plain_cryptobyte-IsDocumented 2048 plain_utls (λ s. s)
      3 (1 ∷ []) header body (9 ∷ 8 ∷ []) chunks eof new_tls_fingerprinter hello refl
      header-IsRecord refl parsed_hello

abbrev quic_parsed : Result ClientHello
quic_parsed = parse_quic_client_hello plain_cryptobyte 2048 plain_utls (λ s. s) body

abbrev quic_hello : ClientHello
quic_hello = value_or (new_client_hello []) quic_parsed

quic_parsed_hello : quic_parsed ≡ ok quic_hello
unfolding parse_quic_client_hello read_client_hello read_body read_full fill_loop parse_client_hello
    parse_extensions parse_one parse_extra parse_record_header parse_handshake_header skip_lists
    parse_rest parse_extensions_extra extensions_loop parse_extension parse_extension_extra
    parse_key_shares key_shares_loop parse_key_share parse_quic_transport_parameters params_loop
    set_fingerprint calc_numeric_id is_grease_uint16 finish
quic_parsed_hello = refl

parse_quic_client_hello-raw_example :
    (raw quic_hello ≡ ok (take (length body % 2 ^ 16) body))
    × (length body < 2 ^ 16 → raw quic_hello ≡ ok body)
parse_quic_client_hello-raw_example =
    parse_quic_client_hello-raw plain_cryptobyte plain_cryptobyte-IsDocumented 2048 plain_utls
      (λ s. s) body quic_hello quic_parsed_hello

abbrev request : Request
request = record {
  proto_major = 2;
  remote_addr = 1 ∷ [];
  user_agent = 65 ∷ [];
  beautify = true;
  is_written = true;
}

abbrev services : Services
services = record {
  split_host = λ addr. some addr;
  marshal_hello = λ beautify ch. some (ch.user_agent ++ ch.hex_id);
  marshal_fingerprint = λ beautify f. none;
}

-- A connection of too few bytes comes first.
abbrev incoming : List Incoming
incoming = connection 2 (4 ∷ []) ((0x16 ∷ []) ∷ []) eof ∷ connection 3 (1 ∷ []) chunks eof ∷ []

abbrev listening : Reservoir × Option (Result Conn)
listening =
    accept (parse_client_hello plain_cryptobyte 2048 plain_utls (λ s. s)) incoming
      (provision_reservoir 10 20)

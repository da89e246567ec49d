-- ===== src/Lib.antt =====
-- A model of clienthellod, which reads TLS ClientHellos and QUIC Initial packets and makes
-- fingerprints of them.
--
-- The parts and how they interact. A datagram is decoded as a QUIC Initial packet
-- (quic_common.go), which is decrypted with keys that follow from it (quic_crypto.go), and its
-- payload is parsed into frames (quic_frame.go) through readers that can be rewound
-- (internal/utils/rewindreader.go) and variable-length integers. The QUIC fingerprinter
-- (quic_fingerprint.go) hands the packet to the gathering of its address (quic_client_initial.go),
-- which keeps the packets sorted and hands the frames of each to a reconstructor
-- (quic_clienthello_reconstructor.go), which holds fragments that came too early, until the
-- ClientHello is complete. It is then parsed (quic_clienthello.go, clienthello.go) with the
-- transport parameters in it (quic_transport_parameters.go), and the ids of the headers, of the
-- ClientHello and of the parameters are hashes of their fields (fingerprint_hash.go). The TLS
-- fingerprinter (tls_fingerprint.go) reads the ClientHello off a connection, parses it in the same
-- way, and gives the connection back with the bytes that were read in front
-- (internal/utils/rewindconn.go). In Caddy, the listener (modcaddy/listener) takes connections
-- through it, the reservoir (modcaddy/app) holds both fingerprinters and remembers the last QUIC
-- visitor of an IP, and the handler (modcaddy/handler) answers requests from it.
--
-- The files:
--   Common, with Common/Tests, Common/Lists and Common/Bits: shared notation and lemmas.
--   Outcome: results, panics and the error values of the root package; Outcome/Ensures has what holds
--     of a result, and how that passes through a chain of them.
--   Reader: internal/utils/rewindreader.go over bytes.Reader and bytes.Buffer. A reader is the bytes
--     it has still to give; `read` is the Read method and `read_into` a Read into a fresh slice.
--     Reader/Laws relates a stack of readers to the flat list of its bytes.
--   Vli: ReadNextVLI (`read_next_vli`), DecodeVLI and IsGREASETransportParameter of quic_common.go.
--   Cryptobyte: the interface of golang.org/x/crypto/cryptobyte, with what is documented of it.
--   QuicCrypto: quic_crypto.go over an interface of the ciphers.
--   Packet: DecodeQUICHeaderAndFrames (`decode_quic_header_and_frames`) of quic_common.go and
--     UnmarshalQUICClientInitialPacket of quic_client_initial.go. `read_parts` reads the header up to
--     the payload, and `open_parts` has what follows.
--   Frame: ReadAllFrames (`read_all_frames`) and the frame types of quic_frame.go;
--     Frame/Reassemble: ReassembleCRYPTOFrames of the same file.
--   Reconstructor: quic_clienthello_reconstructor.go. `refusal` has the checks of AddCRYPTOFragment,
--     `save` stores the fragment and moves what is next to the buffer, `accept` looks for the
--     declared length and decides what is returned.
--   Sort: sort.Slice, internal/utils/arr_dedup.go and dedupUint8 of fingerprint_hash.go.
--   Hash: the helpers of fingerprint_hash.go up to calcNumericID, and FingerprintID.AsHex.
--   TransportParameters: quic_transport_parameters.go, unsetVLIBits of quic_common.go, and the
--     calcNumericID of the transport parameters.
--   Connection: reading a net.Conn, io.ReadFull over it, and internal/utils/rewindconn.go.
--   ClientHello: the struct of clienthello.go, its calcNumericID, and the end of parseExtra;
--     ClientHello/Read: ReadClientHello; ClientHello/Extra: parseExtra, parseExtensionsExtra and
--     parseExtensionExtra, with internal/utils/utls.go; ClientHello/Parse: UnmarshalClientHello,
--     ParseClientHello and parseExtensions, with internal/utils/typeconv.go, and quic_clienthello.go.
--   Gather: quic_client_initial.go, quic_header.go, Reconstruct of
--     quic_clienthello_reconstructor.go, and the calcNumericID of the gathered packets.
--   TlsFingerprinter: tls_fingerprint.go. `Step` is what may happen at a time, a timer that wakes up
--     among it; `handle_message`, `handle_tcp_conn`, `peek` and `pop` are HandleMessage,
--     HandleTCPConn, Peek and Pop.
--   QuicFingerprinter: quic_fingerprint.go. `handle_packet` is HandlePacket, with its recovered panic,
--     `handle_udp_conn` and `handle_ip_conn` are the loops over a socket, and `peek_quic`,
--     `peek_await`, `pop_quic` and `pop_await` the four ways to look a fingerprint up; `Run` in
--     QuicFingerprinter/Flight is what may happen in between, goroutines that wake up among it.
--   Reservoir: modcaddy/app/reservoir.go, with the goroutines that forget visitors as a step relation;
--     Reservoir/Caddyfile: modcaddy/app/caddyfile.go.
--   Listener: modcaddy/listener/listener.go. `accept` is Accept, and `wraps` tells whether WrapListener
--     wraps a listener.
--   Handler: modcaddy/handler/handler.go. `serve_http` is ServeHTTP; what is looked up is told apart
--     from what is replied, and `reply` is the end that serveTLS and serveQUIC share.
--   Tests: runs on concrete inputs, and the theorems at such inputs.
-- Of a component X the other files X/... hold the proofs, each named for what it proves.
--
-- Conventions. Numbers are natural numbers; where the source computes on uint64, uint32 or uint16
-- the remainder is written out. A map is an association list. A nil slice is the empty list, and a
-- nil error is `none` or `ok tt`. Loops run on fuel, and `stuck`, no value of the program, stands
-- for too little of it: the loop over PADDING bytes, the loop over frames, the loop over transport
-- parameters, the loop over extensions and the loop over key shares take at least one byte in a
-- round and have one round more than there are bytes; the loop that moves fragments to the buffer
-- takes a fragment off the map in a round and has one round more than there are fragments. A
-- connection gives its bytes in chunks of any lengths, and then an error. What is read off a
-- socket is a list of datagrams and errors, and a loop over it returns when that is done or at an
-- error of the kind that ends it.
--
-- Parameters. `max_slice` is the largest length at which make([]byte, n) succeeds, and a longer
-- slice is a panic. `sha1` is crypto/sha1. The records `Cryptobyte`, `Ciphers` and `Utls` hold
-- what is used of golang.org/x/crypto/cryptobyte, of HKDF and AES, and of
-- github.com/refraction-networking/utls; `IsDocumented` says of the first what its documentation
-- says. `dicttls` gives the identifiers of the transport parameters in utls/dicttls, and
-- `grease_placeholder` is GREASE_PLACEHOLDER of utls. `parse` in Gather is ParseQUICClientHello,
-- `unmarshal` and `parse` in TlsFingerprinter are UnmarshalClientHello and ParseClientHello, and
-- `unmarshal` in QuicFingerprinter is UnmarshalQUICClientInitialPacket, so that what is shown
-- there holds of any such function; `parse_udp` is ParseUDPPacket and `udp_address` the string of
-- an address. `Services` holds net.SplitHostPort and the JSON of a ClientHello and of a
-- fingerprint, and `parse_duration` is caddy.ParseDuration; the dispenser of a Caddyfile is the
-- list of what it gives. Equal keys may be ordered in any way by sort.Slice and keep their order
-- here.
--
-- Simplified: the struct that a failed parser leaves behind, which each caller drops, and the
-- texts of its errors are not told apart. Times to live are not negative. Methods that hand out a
-- field are the field.
--
-- Not modelled: read deadlines, log messages, and what registers the Caddy modules
-- (modcaddy/mod_caddy.go and the CaddyModule methods). internal/utils/udppacket.go is one call of
-- a library, and internal/utils/uint8_not_string.go formats JSON. CloseWrite of the rewinding
-- connection passes the call on. Finalizers, which only drop references, are left out.
pub mod Common
pub mod Outcome
pub mod Reader
pub mod Vli
pub mod Frame
pub mod Reconstructor
pub mod Reservoir
pub mod Handler
pub mod Listener
pub mod Sort
pub mod Connection
pub mod Cryptobyte
pub mod QuicCrypto
pub mod Packet
pub mod Hash
pub mod TransportParameters
pub mod ClientHello
pub mod Gather
pub mod TlsFingerprinter
pub mod QuicFingerprinter
pub mod Tests

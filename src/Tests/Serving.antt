-- ===== src/Tests/Serving.antt =====
-- modcaddy: a handler on a few requests.
use clienthellod.Common.{
  ℕ, ◌≡◌, refl, true, false, Bool, inl, inr, Option, none, some, List, [], ◌∷◌, ◌++◌, ◌↔◌, length,
}
use clienthellod.Outcome.{Result, ok, err, eof, repeated_option}
use clienthellod.TransportParameters.{new_parameters}
use clienthellod.ClientHello.Parse.{new_client_hello}
use clienthellod.Gather.{GatheredClientInitials, gather_client_initials_with_deadline, wait}
use clienthellod.QuicFingerprinter.{
  QuicFingerprint, fingerprint_of, generate_quic_fingerprint, load_gathering, peek_quic,
}
use clienthellod.Reservoir.{
  Reservoir, provision_reservoir, new_quic_visitor, get_last_quic_visitor, expire_visit,
  load_visitor, delete_visitor, compare_and_delete_visitor,
}
use clienthellod.Reservoir.Caddyfile.{
  tls_ttl_option, quic_ttl_option, other_option, default_ttls, options_loop, parse_caddyfile,
}
use clienthellod.TlsFingerprinter.{default_expiry}
use clienthellod.Listener.{ListenerWrapper, provision_listener, cleanup, wraps}
use clienthellod.Handler.{
  Handler, Directive, quic_directive, other_directive, Request, Services, serve_http,
  own_fingerprint, last_fingerprint, serve_quic, Response, answered,
}
use clienthellod.Handler.Options.{configured, choices, configured_iff}

abbrev directives : List Directive
directives = other_directive ∷ quic_directive ∷ []

configured_iff_example :
    (configured directives (provision_reservoir 10 20) ≡ ok (provision_reservoir 10 20))
    ↔ (choices directives ≡ 1)
configured_iff_example = configured_iff directives (provision_reservoir 10 20)

-- The host is the first byte.
abbrev first_host : List ℕ → Option (List ℕ)
first_host [] = none
first_host (a ∷ rest) = some (a ∷ [])

abbrev services : Services
services = record {
  split_host = first_host;
  marshal_hello = λ beautify ch. some ch.user_agent;
  marshal_fingerprint = λ beautify f. some (f.user_agent ++ f.hex_id);
}

abbrev gathered : GatheredClientInitials
gathered = record (gather_client_initials_with_deadline 9) {
  completed = true;
  client_hello = some (new_client_hello []);
  transport_parameters = some new_parameters;
}

abbrev toy_hash : List ℕ → List ℕ
toy_hash s = 1 ∷ 2 ∷ 3 ∷ 4 ∷ 5 ∷ 6 ∷ 7 ∷ 8 ∷ s

abbrev reservoir : Reservoir
reservoir =
    let r = provision_reservoir 10 20 in
    record r {
      quic_fingerprinter = record r.quic_fingerprinter { gatherings = (7 ∷ 1 ∷ [], gathered) ∷ [] };
    }

abbrev fingerprint_or : QuicFingerprint → Result QuicFingerprint → QuicFingerprint
fingerprint_or other (ok f) = f
fingerprint_or other _ = other

abbrev fingerprint : QuicFingerprint
fingerprint =
    fingerprint_or (record { client_initials = gathered; hex_id = []; num_id = 0; user_agent = [] })
      (fingerprint_of toy_hash gathered gathered.client_hello gathered.transport_parameters)

abbrev over_quic : Request
over_quic = record {
  proto_major = 3;
  remote_addr = 7 ∷ 1 ∷ [];
  user_agent = 65 ∷ [];
  beautify = false;
  is_written = true;
}

abbrev over_tcp : Request
over_tcp = record over_quic { proto_major = 2; remote_addr = 7 ∷ 2 ∷ [] }

abbrev quic_handler : Handler
quic_handler = record { tls = false; quic = true }

-- Someone else visits in between.
abbrev afterwards : Reservoir
afterwards =
    new_quic_visitor 6 (9 ∷ []) (9 ∷ 1 ∷ []) (new_quic_visitor 5 (7 ∷ []) (7 ∷ 1 ∷ []) reservoir)

-- The goroutine of the first of two visits of an address removes the visitor, though the second
-- visit is younger than the time to live.
refreshed_too_late :
    get_last_quic_visitor (7 ∷ []) (
      expire_visit
        (record { due = 25; ip = 7 ∷ []; full_key = 7 ∷ 1 ∷ [] })
        []
        (new_quic_visitor 24
          (7 ∷ [])
          (7 ∷ 1 ∷ [])
          (new_quic_visitor 5 (7 ∷ []) (7 ∷ 1 ∷ []) reservoir)))
    ≡ none
unfolding get_last_quic_visitor new_quic_visitor load_visitor delete_visitor
    compare_and_delete_visitor
refreshed_too_late = refl

both_ttls :
    parse_caddyfile
      (λ s. some (length s))
      (quic_ttl_option ((1 ∷ []) ∷ []) ∷ other_option [] ∷ tls_ttl_option ((1 ∷ []) ∷ []) ∷ [])
    ≡ ok (record { tls = 1; quic = 1 })
unfolding parse_caddyfile options_loop
both_ttls = refl

-- A time to live that is set to its default may be set again.
repeated_default :
    parse_caddyfile
      (λ s. some default_expiry)
      (tls_ttl_option ([] ∷ []) ∷ tls_ttl_option ([] ∷ []) ∷ [])
    ≡ ok default_ttls
unfolding parse_caddyfile options_loop
repeated_default = refl

repeated_ttl :
    parse_caddyfile (λ s. some 1) (tls_ttl_option ([] ∷ []) ∷ tls_ttl_option ([] ∷ []) ∷ [])
    ≡ err repeated_option
unfolding parse_caddyfile options_loop
repeated_ttl = refl

-- A client that moved from the address 7, 1 to 7, 3.
abbrev migrated : Request
migrated = record over_quic { remote_addr = 7 ∷ 3 ∷ [] }

abbrev visited_once : Reservoir
visited_once = new_quic_visitor 5 (7 ∷ []) (7 ∷ 1 ∷ []) reservoir

abbrev is_answered : Result (Reservoir × Response) → Bool
is_answered (ok (r, answered headers body)) = true
is_answered _ = false

abbrev reservoir_after : Result (Reservoir × Response) → Reservoir
reservoir_after (ok (r, response)) = r
reservoir_after _ = reservoir

-- Its first request is answered with the fingerprint of the last visitor, and no later one is.
migrated_once :
    (is_answered (serve_http services toy_hash quic_handler 6 migrated visited_once) ≡ true)
    × (is_answered (
          serve_http services toy_hash quic_handler 7 migrated
            (reservoir_after (serve_http services toy_hash quic_handler 6 migrated visited_once)))
        ≡ false)
unfolding serve_http serve_quic own_fingerprint last_fingerprint peek_quic load_gathering
    generate_quic_fingerprint wait new_quic_visitor get_last_quic_visitor load_visitor
    delete_visitor
migrated_once = (refl, refl)

abbrev listener_wrapper : ListenerWrapper
listener_wrapper = record { tcp = false; udp = true; udp_listener = none; udp6_listener = none }

-- Without IPv6 the socket for IPv4 stays open behind the error, and its loop runs.
only_ipv4 : provision_listener none (inr 4) (inl eof) listener_wrapper ≡ record {
  wrapper = record listener_wrapper { udp_listener = some 4 };
  failed = some eof;
  loops = 4 ∷ [];
}
unfolding provision_listener
only_ipv4 = refl

cleaned_up :
    cleanup (λ s. none) (provision_listener none (inr 4) (inr 6) listener_wrapper).wrapper
    ≡ (4 ∷ 6 ∷ [], none)
unfolding cleanup provision_listener
cleaned_up = refl

wraps_tcp4 : wraps (116 ∷ 99 ∷ 112 ∷ 52 ∷ []) (record listener_wrapper { tcp = true }) ≡ true
unfolding wraps
wraps_tcp4 = refl

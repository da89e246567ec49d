-- ===== src/Handler.antt =====
-- modcaddy/handler/handler.go: the requests that are answered with a fingerprint. Log messages are
-- left out.
pub mod Options
pub mod Visitors
pub mod Answer
use clienthellod.Common.{
  ℕ, ◌≡◌, Bool, true, false, ◌||◌, ◌&&◌, not, Option, none, some, List, [], ◌∷◌, map, leb, ◌==◌,
  if◌then◌else◌,
}
use clienthellod.Outcome.{
  Error, Result, ok, err, panic, stuck, ◌>>=◌, map_ok, repeated_option, exclusive_options,
  no_option,
}
use clienthellod.ClientHello.{ClientHello}
use clienthellod.Gather.{GatheredClientInitials}
use clienthellod.TlsFingerprinter.{Entry, same_string, peek}
use clienthellod.QuicFingerprinter.{QuicFingerprint, peek_quic, load_gathering, put_gathering}
use clienthellod.Reservoir.{Reservoir, new_quic_visitor, get_last_quic_visitor}

pub record Handler : Type 0 where
  pub tls : Bool
  pub quic : Bool

-- `app` is what `AppIfConfigured` gives.
unfoldable pub provision : Handler → Result Reservoir → Result Reservoir
provision h app = app >>= λ r.
    if h.tls && h.quic
    then err exclusive_options
    else if not (h.tls || h.quic)
    then err no_option
    else ok r

-- What `d.Val()` is in the block of the directive.
pub data Directive : Type 0 where
  tls_directive quic_directive other_directive : Directive

-- One round of the loop of `UnmarshalCaddyfile`.
abbrev pub unmarshal_directive : Directive → Handler → Result Handler
unmarshal_directive tls_directive h =
    if h.tls
    then err repeated_option
    else if h.quic
    then err exclusive_options
    else ok (record h { tls = true })
unmarshal_directive quic_directive h =
    if h.quic
    then err repeated_option
    else if h.tls
    then err exclusive_options
    else ok (record h { quic = true })
unmarshal_directive other_directive h = ok h

unfoldable pub unmarshal_caddyfile : List Directive → Handler → Result Handler
unmarshal_caddyfile [] h = ok h
unmarshal_caddyfile (d ∷ ds) h = unmarshal_directive d h >>= unmarshal_caddyfile ds

-- What is read of a request; `is_written` says whether writes to its response succeed.
pub record Request : Type 0 where
  pub proto_major : ℕ
  pub remote_addr : List ℕ
  pub user_agent : List ℕ
  pub beautify : Bool
  pub is_written : Bool

pub data ResponseHeader : Type 0 where
  content_type_json connection_close : ResponseHeader

-- The next handler is called, or the response is written, or nil is returned after a failed write;
-- with the headers set.
pub data Response : Type 0 where
  passed_on : List ResponseHeader → Response
  answered : List ResponseHeader → List ℕ → Response
  cut_off : List ResponseHeader → Response

-- The host of `net.SplitHostPort`, and the JSON of package json, indented or not.
pub record Services : Type 0 where
  pub split_host : List ℕ → Option (List ℕ)
  pub marshal_hello : Bool → ClientHello → Option (List ℕ)
  pub marshal_fingerprint : Bool → QuicFingerprint → Option (List ℕ)

-- HTTP/1 connections are closed.
abbrev pub response_headers : Request → List ResponseHeader
response_headers req =
    if req.proto_major == 1
    then content_type_json ∷ connection_close ∷ []
    else content_type_json ∷ []

-- The end of `serveTLS` and of `serveQUIC`.
abbrev pub reply : Request → Option (List ℕ) → Response
reply req none = passed_on []
reply req (some b) =
    if req.is_written then answered (response_headers req) b else passed_on (response_headers req)

abbrev pub reply_over_h3 : Request → Option (List ℕ) → Response
reply_over_h3 req none = passed_on []
reply_over_h3 req (some b) =
    if req.is_written then answered (content_type_json ∷ []) b else cut_off (content_type_json ∷ [])

-- The user agent is set in the ClientHello that is stored.
unfoldable pub name_entry : List ℕ → List ℕ → List Entry → List Entry
name_entry from agent es =
    map
      (λ e.
        if same_string e.from from
        then record e { hello = record e.hello { user_agent = agent } }
        else e)
      es

abbrev pub name_hello : List ℕ → Request → Reservoir → Reservoir
name_hello from req r = record r {
  tls_fingerprinter = record r.tls_fingerprinter {
    entries = name_entry from req.user_agent r.tls_fingerprinter.entries;
  };
}

-- The user agent is set in the ClientHello of a gathering.
abbrev pub name_gathering : List ℕ → GatheredClientInitials → Reservoir → Reservoir
name_gathering from g r = record r {
  quic_fingerprinter = record r.quic_fingerprinter {
    gatherings = put_gathering from g r.quic_fingerprinter.gatherings;
  };
}

abbrev pub found_at : List ℕ → Option QuicFingerprint → Option (List ℕ × QuicFingerprint)
found_at from none = none
found_at from (some f) = some (from, f)

module _ (S : Services) (sha1 : List ℕ → List ℕ) where
  abbrev pub serve_hello : Request → Reservoir → Option ClientHello → Reservoir × Response
  serve_hello req r none = (r, passed_on [])
  serve_hello req r (some ch) = (
    name_hello req.remote_addr req r,
    reply req (S.marshal_hello req.beautify (record ch { user_agent = req.user_agent })),
  )

  unfoldable pub serve_tls : Request → Reservoir → Reservoir × Response
  serve_tls req r = serve_hello req r (peek req.remote_addr r.tls_fingerprinter)

  -- `Peek`, with the key.
  abbrev pub peek_at : List ℕ → Reservoir → Result (Option (List ℕ × QuicFingerprint))
  peek_at from r = map_ok (found_at from) (peek_quic sha1 from r.quic_fingerprinter)

  abbrev pub peek_visitor : Option (List ℕ) → Reservoir → Result (Option (List ℕ × QuicFingerprint))
  peek_visitor none r = ok none
  peek_visitor (some last_from) r = peek_at last_from r

  abbrev pub peek_last : Option (List ℕ) → Reservoir → Result (Option (List ℕ × QuicFingerprint))
  peek_last none r = ok none
  peek_last (some ip) r = peek_visitor (get_last_quic_visitor ip r) r

  -- The fingerprint of the last visitor with the IP of an address.
  unfoldable pub last_fingerprint : List ℕ → Reservoir → Result (Option (List ℕ × QuicFingerprint))
  last_fingerprint addr r = peek_last (S.split_host addr) r

  abbrev pub or_last :
      List ℕ
      → Reservoir
      → Option (List ℕ × QuicFingerprint)
      → Result (Option (List ℕ × QuicFingerprint))
  or_last addr r none = last_fingerprint addr r
  or_last addr r (some found) = ok (some found)

  -- The fingerprint of an address, or else of the last visitor with its IP.
  unfoldable pub own_fingerprint : List ℕ → Reservoir → Result (Option (List ℕ × QuicFingerprint))
  own_fingerprint addr r = peek_at addr r >>= or_last addr r

  abbrev pub serve_gathered :
      Request
      → Reservoir
      → List ℕ
      → GatheredClientInitials
      → Option ClientHello
      → Reservoir × Response
  serve_gathered req r from g none = (r, passed_on [])
  serve_gathered req r from g (some ch) =
      let named = record ch { user_agent = req.user_agent } in
      (
        name_gathering from (record g { client_hello = some named }) r,
        reply_over_h3 req (S.marshal_hello req.beautify named),
      )

  abbrev pub serve_captured :
      Request → Reservoir → Option (List ℕ × QuicFingerprint) → Reservoir × Response
  serve_captured req r none = (r, passed_on [])
  serve_captured req r (some (from, f)) =
      serve_gathered req r from f.client_initials f.client_initials.client_hello

  unfoldable pub serve_tls_over_h3 : Request → Reservoir → Result (Reservoir × Response)
  serve_tls_over_h3 req r = map_ok (serve_captured req r) (own_fingerprint req.remote_addr r)

  -- The address of a QUIC request is the last visitor of its IP from now on.
  abbrev pub record_visitor : ℕ → Request → Option (List ℕ) → Reservoir → Reservoir
  record_visitor now req none r = r
  record_visitor now req (some ip) r = new_quic_visitor now ip req.remote_addr r

  abbrev pub record_visit : ℕ → Request → Reservoir → Reservoir
  record_visit now req r =
      if req.proto_major == 3 then record_visitor now req (S.split_host req.remote_addr) r else r

  abbrev pub serve_fingerprint :
      ℕ → Request → Reservoir → Option (List ℕ × QuicFingerprint) → Reservoir × Response
  serve_fingerprint now req r none = (r, passed_on [])
  serve_fingerprint now req r (some (from, f)) = (
    record_visit now req r,
    reply req (S.marshal_fingerprint req.beautify (record f { user_agent = req.user_agent })),
  )

  unfoldable pub serve_quic : ℕ → Request → Reservoir → Result (Reservoir × Response)
  serve_quic now req r = map_ok (serve_fingerprint now req r) (
      if req.proto_major == 3
      then own_fingerprint req.remote_addr r
      else last_fingerprint req.remote_addr r)

  unfoldable pub serve_http : Handler → ℕ → Request → Reservoir → Result (Reservoir × Response)
  serve_http h now req r =
      if h.tls
      then (if leb req.proto_major 2 then ok (serve_tls req r) else serve_tls_over_h3 req r)
      else if h.quic
      then serve_quic now req r
      else ok (r, passed_on [])

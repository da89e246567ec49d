-- ===== src/QuicFingerprinter.antt =====
-- quic_fingerprint.go: the map of gatherings by address, and the timers that empty it.
-- The map is an association list with one gathering for each address; a gathering is changed in
-- place. Times and durations count nanoseconds. `unmarshal` is `UnmarshalQUICClientInitialPacket`
-- and `parse` is `ParseQUICClientHello`.
pub mod Map
pub mod Isolation
pub mod Flight
use clienthellod.Common.{
  ℕ, ◌+◌, ◌*◌, ◌≤◌, ◌≡◌, Bool, true, false, Option, none, some, List, [], ◌∷◌, ◌++◌, ◌==◌,
  if◌then◌else◌,
}
use clienthellod.Outcome.{
  Error, Result, ok, err, panic, stuck, ◌>>=◌, fingerprinter_closed, recovered_panic, not_found,
  not_quic_long_header, not_quic_initial, unsupported_version, eof,
}
use clienthellod.Hash.{update_u64, first_u64, as_hex}
use clienthellod.TransportParameters.{QuicTransportParameters}
use clienthellod.ClientHello.{ClientHello}
use clienthellod.Gather.{
  ClientInitial, GatheredClientInitials, gather_client_initials,
  gather_client_initials_with_deadline, add_packet, Wake, timer, wait,
}
use clienthellod.TlsFingerprinter.{same_string}

abbrev pub default_quic_expiry : ℕ
default_quic_expiry = 60 * 1000000000

pub record QuicFingerprint : Type 0 where
  pub client_initials : GatheredClientInitials
  pub hex_id : List ℕ
  pub num_id : ℕ
  pub user_agent : List ℕ

-- A goroutine that waits until `due`.
pub record Expiry : Type 0 where
  pub due : ℕ
  pub key : List ℕ

pub record QuicFingerprinter : Type 0 where
  pub gatherings : List (List ℕ × GatheredClientInitials)
  pub timeout : ℕ
  pub closed : Bool
  pub expiries : List Expiry

abbrev pub new_quic_fingerprinter_with_timeout : ℕ → QuicFingerprinter
new_quic_fingerprinter_with_timeout n = record {
  gatherings = [];
  timeout = n;
  closed = false;
  expiries = [];
}

abbrev pub new_quic_fingerprinter : QuicFingerprinter
new_quic_fingerprinter = new_quic_fingerprinter_with_timeout 0

abbrev pub set_quic_timeout : ℕ → QuicFingerprinter → QuicFingerprinter
set_quic_timeout n t = record t { timeout = n }

abbrev pub close_quic : QuicFingerprinter → QuicFingerprinter
close_quic t = record t { closed = true }

unfoldable pub load_gathering :
    List ℕ → List (List ℕ × GatheredClientInitials) → Option GatheredClientInitials
load_gathering key [] = none
load_gathering key ((k, g) ∷ rest) = if same_string k key then some g else load_gathering key rest

unfoldable pub delete_gathering :
    List ℕ → List (List ℕ × GatheredClientInitials) → List (List ℕ × GatheredClientInitials)
delete_gathering key [] = []
delete_gathering key ((k, g) ∷ rest) =
    let others = delete_gathering key rest in if same_string k key then others else (k, g) ∷ others

-- The gathering of an address as it is now.
abbrev pub put_gathering :
    List ℕ
    → GatheredClientInitials
    → List (List ℕ × GatheredClientInitials)
    → List (List ℕ × GatheredClientInitials)
put_gathering key g gs = (key, g) ∷ delete_gathering key gs

-- `testGci`
abbrev pub fresh_gathering : ℕ → QuicFingerprinter → GatheredClientInitials
fresh_gathering now t =
    if t.timeout == 0
    then gather_client_initials
    else gather_client_initials_with_deadline (now + t.timeout)

-- The three errors that mean that a datagram is of no interest.
abbrev pub is_uninteresting : Error → Bool
is_uninteresting not_quic_long_header = true
is_uninteresting not_quic_initial = true
is_uninteresting unsupported_version = true
is_uninteresting _ = false

-- The deferred function turns a panic into an error.
abbrev pub recovered : Result (Unit {0}) → Result (Unit {0})
recovered (ok u) = ok u
recovered (err e) = err e
recovered panic = err recovered_panic
recovered stuck = stuck

-- What a read of the socket gives: a datagram at a time, with its address, or an error, and whether
-- that is one of the three errors of a closed connection.
pub data Received : Type 0 where
  datagram : ℕ → List ℕ → List ℕ → Received
  read_failed : Bool → Error → Received

-- The map after `LoadOrStore`, with a timer for a new gathering.
abbrev pub load_or_store :
    ℕ
    → List ℕ
    → QuicFingerprinter
    → Option GatheredClientInitials
    → GatheredClientInitials × QuicFingerprinter
load_or_store now from t (some g) = (g, t)
load_or_store now from t none =
    let wait_for = if t.timeout == 0 then default_quic_expiry else t.timeout in
    (
      fresh_gathering now t,
      record t { expiries = record { due = now + wait_for; key = from } ∷ t.expiries },
    )

module _ (parse : List ℕ → Result ClientHello) (sha1 : List ℕ → List ℕ) where
  -- The packet is added to the gathering of its address.
  unfoldable pub gather :
      ℕ → List ℕ → ClientInitial → QuicFingerprinter → QuicFingerprinter × Result (Unit {0})
  gather now from ci t =
      let (g, t') = load_or_store now from t (load_gathering from t.gatherings) in
      let (g', r) = add_packet parse sha1 now g ci in
      (record t' { gatherings = put_gathering from g' t.gatherings }, recovered r)

  -- The rest of `HandlePacket` once the packet was decoded, or was not.
  abbrev pub handle_decoded :
      ℕ → List ℕ → QuicFingerprinter → Result ClientInitial → QuicFingerprinter × Result (Unit {0})
  handle_decoded now from t (ok ci) = gather now from ci t
  handle_decoded now from t (err e) = (t, if is_uninteresting e then ok tt else err e)
  handle_decoded now from t panic = (t, err recovered_panic)
  handle_decoded now from t stuck = (t, stuck)

  module _ (unmarshal : List ℕ → Result ClientInitial) where
    unfoldable pub handle_packet :
        ℕ → List ℕ → List ℕ → QuicFingerprinter → QuicFingerprinter × Result (Unit {0})
    handle_packet now from p t =
        if t.closed then (t, err fingerprinter_closed) else handle_decoded now from t (unmarshal p)

    -- What the caller of the loop gets, or `none` while it waits for the next read.
    unfoldable pub handle_udp_conn :
        List Received → QuicFingerprinter → QuicFingerprinter × Option Error
    handle_udp_conn [] t = (t, none)
    handle_udp_conn (datagram now from p ∷ rest) t =
        let run = handle_udp_conn rest (handle_packet now from p t).0 in
        if t.closed then (t, some fingerprinter_closed) else run
    handle_udp_conn (read_failed fatal e ∷ rest) t =
        let run = handle_udp_conn rest t in
        if t.closed then (t, some fingerprinter_closed) else if fatal then (t, some e) else run

    -- `parse_udp` is `ParseUDPPacket`, with the ports and the payload, and `udp_address` the string of
    -- an address and a port. A `datagram` is an IP packet and the address that it came from.
    module _ (parse_udp : List ℕ → Option (ℕ × ℕ × List ℕ))
        (udp_address : List ℕ → ℕ → List ℕ) where
      -- Packets to other ports than 443 are passed over.
      abbrev pub handle_udp :
          ℕ → List ℕ → Option (ℕ × ℕ × List ℕ) → QuicFingerprinter → QuicFingerprinter
      handle_udp now ip none t = t
      handle_udp now ip (some (src, dst, payload)) t =
          if dst == 443 then (handle_packet now (udp_address ip src) payload t).0 else t

      unfoldable pub handle_ip_conn :
          List Received → QuicFingerprinter → QuicFingerprinter × Option Error
      handle_ip_conn [] t = (t, none)
      handle_ip_conn (datagram now ip p ∷ rest) t =
          let run = handle_ip_conn rest (handle_udp now ip (parse_udp p) t) in
          if t.closed then (t, some fingerprinter_closed) else run
      handle_ip_conn (read_failed fatal e ∷ rest) t =
          let run = handle_ip_conn rest t in
          if t.closed then (t, some fingerprinter_closed) else if fatal then (t, some e) else run

module _ (sha1 : List ℕ → List ℕ) where
  -- A missing ClientHello or missing parameters are nil pointers.
  abbrev pub fingerprint_of :
      GatheredClientInitials
      → Option ClientHello
      → Option QuicTransportParameters
      → Result QuicFingerprint
  fingerprint_of g none q = panic
  fingerprint_of g (some ch) none = panic
  fingerprint_of g (some ch) (some q) =
      let id =
        first_u64
          (sha1 (update_u64 g.num_id ++ (update_u64 ch.norm_num_id ++ update_u64 q.num_id))) in
      ok record { client_initials = g; hex_id = as_hex id; num_id = id; user_agent = [] }

  unfoldable pub generate_quic_fingerprint : GatheredClientInitials → Wake → Result QuicFingerprint
  generate_quic_fingerprint g w = do
    done ← wait g w
    fingerprint_of g g.client_hello g.transport_parameters

  -- An error of `GenerateQUICFingerprint` is a nil fingerprint.
  abbrev pub or_nil : Result QuicFingerprint → Result (Option QuicFingerprint)
  or_nil (ok f) = ok (some f)
  or_nil (err e) = ok none
  or_nil panic = panic
  or_nil stuck = stuck

  abbrev pub peek_gathering : Option GatheredClientInitials → Result (Option QuicFingerprint)
  peek_gathering none = ok none
  peek_gathering (some g) =
      if g.completed then or_nil (generate_quic_fingerprint g timer) else ok none

  unfoldable pub peek_quic : List ℕ → QuicFingerprinter → Result (Option QuicFingerprint)
  peek_quic from t = peek_gathering (load_gathering from t.gatherings)

  -- `Load` and the wait of `PeekAwait`; `w` is what the wait is woken by.
  abbrev pub await_gathering : Option GatheredClientInitials → Wake → Result QuicFingerprint
  await_gathering none w = err not_found
  await_gathering (some g) w = generate_quic_fingerprint g w

  unfoldable pub peek_await : List ℕ → Wake → QuicFingerprinter → Result QuicFingerprint
  peek_await from w t = await_gathering (load_gathering from t.gatherings) w

  abbrev pub without : List ℕ → QuicFingerprinter → QuicFingerprinter
  without from t = record t { gatherings = delete_gathering from t.gatherings }

  unfoldable pub pop_quic :
      List ℕ → QuicFingerprinter → QuicFingerprinter × Result (Option QuicFingerprint)
  pop_quic from t = (without from t, peek_quic from t)

  unfoldable pub pop_await :
      List ℕ → Wake → QuicFingerprinter → QuicFingerprinter × Result QuicFingerprint
  pop_await from w t = (without from t, peek_await from w t)

-- The goroutine of a timer wakes up and deletes whatever gathering its address has.
abbrev pub expire_gathering : Expiry → List Expiry → QuicFingerprinter → QuicFingerprinter
expire_gathering i others t = record t {
  gatherings = delete_gathering i.key t.gatherings;
  expiries = others;
}

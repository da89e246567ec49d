-- ===== src/Listener.antt =====
-- modcaddy/listener/listener.go: the connections that the listener hands out, and its
-- raw sockets. Read deadlines and log messages are left out.
pub mod Refused
use clienthellod.Common.{
  ℕ, Bool, true, false, Option, none, some, List, [], ◌∷◌, ◌++◌, ◌⊎◌, inl, inr, ◌||◌, ◌&&◌,
  if◌then◌else◌,
}
use clienthellod.Outcome.{Error, Result, ok, err, panic, stuck, ◌>>=◌, repeated_option}
use clienthellod.ClientHello.{ClientHello}
use clienthellod.Connection.{Conn}
use clienthellod.TlsFingerprinter.{TlsFingerprinter, handle_tcp_conn, same_string}
use clienthellod.Reservoir.{Reservoir}

-- A raw socket is a number; a missing one is nil.
pub record ListenerWrapper : Type 0 where
  pub tcp : Bool
  pub udp : Bool
  pub udp_listener : Option ℕ
  pub udp6_listener : Option ℕ

-- The wrapper, the error, and the sockets that `HandleIPConn` runs on from now on.
pub record Provisioned : Type 0 where
  pub wrapper : ListenerWrapper
  pub failed : Option Error
  pub loops : List ℕ

-- What the two calls of `net.ListenIP` give.
abbrev pub listen_udp : ListenerWrapper → Error ⊎ ℕ → Error ⊎ ℕ → Provisioned
listen_udp lw (inl e) listen6 = record {
  wrapper = record lw { udp_listener = none };
  failed = some e;
  loops = [];
}
listen_udp lw (inr s) (inl e) = record {
  wrapper = record lw { udp_listener = some s; udp6_listener = none };
  failed = some e;
  loops = s ∷ [];
}
listen_udp lw (inr s) (inr s6) = record {
  wrapper = record lw { udp_listener = some s; udp6_listener = some s6 };
  failed = none;
  loops = s ∷ s6 ∷ [];
}

abbrev pub is_nil : Option ℕ → Bool
is_nil none = true
is_nil (some s) = false

-- `app` is the error of `AppIfConfigured`.
unfoldable pub provision_listener :
    Option Error → Error ⊎ ℕ → Error ⊎ ℕ → ListenerWrapper → Provisioned
provision_listener (some e) listen listen6 lw = record { wrapper = lw; failed = some e; loops = [] }
provision_listener none listen listen6 lw =
    if lw.udp && is_nil lw.udp_listener
    then listen_udp lw listen listen6
    else record { wrapper = lw; failed = none; loops = [] }

-- The sockets that are closed, and the error. `close_error` is what closing one returns.
abbrev pub close_sockets : (ℕ → Option Error) → List ℕ → List ℕ × Option Error
close_sockets close_error [] = ([], none)
close_sockets close_error (s ∷ ss) =
    let (closed, failed) = close_sockets close_error ss in
    elim (close_error s) [ none ↦ (s ∷ closed, failed) | some e ↦ ([], some e) ]

abbrev pub if_any : Option ℕ → List ℕ
if_any none = []
if_any (some s) = s ∷ []

unfoldable pub cleanup : (ℕ → Option Error) → ListenerWrapper → List ℕ × Option Error
cleanup close_error lw =
    if lw.udp
    then close_sockets close_error (if_any lw.udp_listener ++ if_any lw.udp6_listener)
    else ([], none)

-- Whether `WrapListener` wraps a listener of a network: tcp, tcp4 or tcp6.
unfoldable pub wraps : List ℕ → ListenerWrapper → Bool
wraps network lw =
    (same_string network (116 ∷ 99 ∷ 112 ∷ [])
      || (same_string network (116 ∷ 99 ∷ 112 ∷ 52 ∷ [])
          || same_string network (116 ∷ 99 ∷ 112 ∷ 54 ∷ [])))
    && lw.tcp

-- What `d.Val()` is in the block of the listener wrapper.
pub data Network : Type 0 where
  tcp_network udp_network other_network : Network

-- One round of the loop of `UnmarshalCaddyfile`.
abbrev pub unmarshal_network : Network → ListenerWrapper → Result ListenerWrapper
unmarshal_network tcp_network lw =
    if lw.tcp then err repeated_option else ok (record lw { tcp = true })
unmarshal_network udp_network lw =
    if lw.udp then err repeated_option else ok (record lw { udp = true })
unmarshal_network other_network lw = ok lw

unfoldable pub unmarshal_listener : List Network → ListenerWrapper → Result ListenerWrapper
unmarshal_listener [] lw = ok lw
unmarshal_listener (n ∷ ns) lw = unmarshal_network n lw >>= unmarshal_listener ns

-- What `Accept` of the listener below gives: a connection at a time, from an address, with its
-- chunks and the error behind them, such as a passed deadline; or an error.
pub data Incoming : Type 0 where
  connection : ℕ → List ℕ → List (List ℕ) → Error → Incoming
  accept_failed : Error → Incoming

abbrev pub with_tls : Reservoir → TlsFingerprinter → Reservoir
with_tls r t = record r { tls_fingerprinter = t }

-- A connection that was handled is returned, and one that was not is closed, and the loop goes on.
abbrev pub hand_out :
    Reservoir → Result Conn → Reservoir × Option (Result Conn) → Reservoir × Option (Result Conn)
hand_out r (ok c) later = (r, some (ok c))
hand_out r (err e) later = later
hand_out r panic later = (r, some panic)
hand_out r stuck later = (r, some stuck)

module _ (parse : ClientHello → Result ClientHello) where
  -- What the caller of `Accept` gets, or `none` while it waits for the next connection.
  unfoldable pub accept : List Incoming → Reservoir → Reservoir × Option (Result Conn)
  accept [] r = (r, none)
  accept (accept_failed e ∷ rest) r = (r, some (err e))
  accept (connection now from chunks last ∷ rest) r =
      let (t, handled) = handle_tcp_conn parse now from chunks last r.tls_fingerprinter in
      hand_out (with_tls r t) handled (accept rest (with_tls r t))

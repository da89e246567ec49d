-- ===== src/Reservoir.antt =====
-- modcaddy/app/reservoir.go: the two fingerprinters, and the last QUIC visitor of each IP address.
-- The map of visitors is an association list. Times and durations count nanoseconds, and a time to
-- live is not negative.
pub mod Visits
pub mod Caddyfile
use clienthellod.Common.{
  ℕ, ◌+◌, ◌≤◌, ◌≡◌, Bool, true, false, ◌||◌, Option, none, some, List, [], ◌∷◌, ◌++◌, leb,
  if◌then◌else◌,
}
use clienthellod.Outcome.{Error, Result, ok, err, panic, stuck, bad_ttl}
use clienthellod.TlsFingerprinter.{
  TlsFingerprinter, default_expiry, new_tls_fingerprinter_with_timeout, close, same_string,
}
use clienthellod.QuicFingerprinter.{
  QuicFingerprinter, default_quic_expiry, new_quic_fingerprinter_with_timeout, close_quic,
}

-- The goroutine of `NewQUICVisitor`, which waits until `due`.
pub record Visit : Type 0 where
  pub due : ℕ
  pub ip : List ℕ
  pub full_key : List ℕ

pub record Reservoir : Type 0 where
  pub tls_ttl : ℕ
  pub quic_ttl : ℕ
  pub tls_fingerprinter : TlsFingerprinter
  pub quic_fingerprinter : QuicFingerprinter
  pub visitors : List (List ℕ × List ℕ)
  pub visits : List Visit

-- `Provision` of a reservoir with these times to live.
abbrev pub provision_reservoir : ℕ → ℕ → Reservoir
provision_reservoir tls_ttl quic_ttl = record {
  tls_ttl = tls_ttl;
  quic_ttl = quic_ttl;
  tls_fingerprinter = new_tls_fingerprinter_with_timeout tls_ttl;
  quic_fingerprinter = new_quic_fingerprinter_with_timeout quic_ttl;
  visitors = [];
  visits = [];
}

abbrev pub start : Reservoir → Result (Unit {0})
start r = if leb r.quic_ttl 0 || leb r.tls_ttl 0 then err bad_ttl else ok tt

abbrev pub stop : Reservoir → Reservoir
stop r = record r {
  quic_fingerprinter = close_quic r.quic_fingerprinter;
  tls_fingerprinter = close r.tls_fingerprinter;
}

unfoldable pub load_visitor : List ℕ → List (List ℕ × List ℕ) → Option (List ℕ)
load_visitor ip [] = none
load_visitor ip ((k, v) ∷ rest) = if same_string k ip then some v else load_visitor ip rest

unfoldable pub delete_visitor : List ℕ → List (List ℕ × List ℕ) → List (List ℕ × List ℕ)
delete_visitor ip [] = []
delete_visitor ip ((k, v) ∷ rest) =
    let others = delete_visitor ip rest in if same_string k ip then others else (k, v) ∷ others

unfoldable pub new_quic_visitor : ℕ → List ℕ → List ℕ → Reservoir → Reservoir
new_quic_visitor now ip full_key r = record r {
  visitors = (ip, full_key) ∷ delete_visitor ip r.visitors;
  visits = record { due = now + r.quic_ttl; ip = ip; full_key = full_key } ∷ r.visits;
}

unfoldable pub get_last_quic_visitor : List ℕ → Reservoir → Option (List ℕ)
get_last_quic_visitor ip r = load_visitor ip r.visitors

-- `CompareAndDelete`, which compares the strings.
unfoldable pub compare_and_delete_visitor :
    List ℕ → List ℕ → List (List ℕ × List ℕ) → List (List ℕ × List ℕ)
compare_and_delete_visitor ip full_key vs = elim (load_visitor ip vs) [
  | none ↦ vs
  | some v ↦ if same_string v full_key then delete_visitor ip vs else vs
]

-- The goroutine of a visit wakes up and ends.
abbrev pub expire_visit : Visit → List Visit → Reservoir → Reservoir
expire_visit i others r = record r {
  visitors = compare_and_delete_visitor i.ip i.full_key r.visitors;
  visits = others;
}

pub data Event : Type 0 where
  visited : List ℕ → List ℕ → Event
  expiring : Visit → Event
  elsewhere : Event

-- What may happen to the visitors at a time. A goroutine wakes up when it is due or later; all
-- else changes the fingerprinters at most.
pub data Step (now : ℕ) : Event → Reservoir → Reservoir → Type 0 where
  visit_step :
      {r : Reservoir} (ip full_key : List ℕ)
      → Step now (visited ip full_key) r (new_quic_visitor now ip full_key r)
  expire_step :
      {r : Reservoir} (before : List Visit) (i : Visit) (after : List Visit)
      → r.visits ≡ before ++ i ∷ after
      → i.due ≤ now
      → Step now (expiring i) r (expire_visit i (before ++ after) r)
  fingerprint_step :
      {r : Reservoir} (t : TlsFingerprinter) (q : QuicFingerprinter)
      → Step now elsewhere r (record r { tls_fingerprinter = t; quic_fingerprinter = q })

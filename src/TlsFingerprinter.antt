-- ===== src/TlsFingerprinter.antt =====
-- tls_fingerprint.go: the map of ClientHellos by address, and the timers that empty it.
-- The map is an association list. An entry holds a pointer, which a number stands for, and what it
-- points to: each ClientHello that is stored is a new allocation. Times and durations count
-- nanoseconds. `unmarshal` is `UnmarshalClientHello`, and `parse` is `ParseClientHello`.
pub mod Expiry
pub mod Runs
pub mod Rewind
use clienthellod.Common.{
  ℕ, suc, ◌+◌, ◌*◌, ◌≤◌, ◌≡◌, Bool, true, false, ◌&&◌, Option, none, some, List, [], ◌∷◌, ◌++◌,
  ◌==◌, if◌then◌else◌,
}
use clienthellod.Outcome.{Result, ok, err, panic, stuck, Error, wrapped, fingerprinter_closed}
use clienthellod.ClientHello.{ClientHello}
use clienthellod.ClientHello.Read.{Hello, read_client_hello}
use clienthellod.ClientHello.Parse.{new_client_hello}
use clienthellod.Connection.{Conn, tcp, rewind_conn}

abbrev pub default_expiry : ℕ
default_expiry = 5 * 1000000000

-- Equality of strings.
abbrev pub same_string : List ℕ → List ℕ → Bool
same_string [] [] = true
same_string [] (b ∷ t) = false
same_string (a ∷ s) [] = false
same_string (a ∷ s) (b ∷ t) = (a == b) && same_string s t

-- A goroutine that waits until `due`.
pub record Timer : Type 0 where
  pub due : ℕ
  pub key : List ℕ
  pub old : ℕ

pub record Entry : Type 0 where
  pub from : List ℕ
  pub pointer : ℕ
  pub hello : ClientHello

pub record TlsFingerprinter : Type 0 where
  pub entries : List Entry
  pub timeout : ℕ
  pub closed : Bool
  pub timers : List Timer
  pub next_pointer : ℕ

abbrev pub new_tls_fingerprinter_with_timeout : ℕ → TlsFingerprinter
new_tls_fingerprinter_with_timeout n = record {
  entries = [];
  timeout = n;
  closed = false;
  timers = [];
  next_pointer = 0;
}

abbrev pub new_tls_fingerprinter : TlsFingerprinter
new_tls_fingerprinter = new_tls_fingerprinter_with_timeout 0

abbrev pub set_timeout : ℕ → TlsFingerprinter → TlsFingerprinter
set_timeout n t = record t { timeout = n }

abbrev pub close : TlsFingerprinter → TlsFingerprinter
close t = record t { closed = true }

unfoldable pub load : List ℕ → List Entry → Option Entry
load key [] = none
load key (e ∷ es) = if same_string e.from key then some e else load key es

-- `Delete` of the map.
unfoldable pub remove : List ℕ → List Entry → List Entry
remove key [] = []
remove key (e ∷ es) = let rest = remove key es in if same_string e.from key then rest else e ∷ rest

unfoldable pub compare_and_delete : List ℕ → ℕ → List Entry → List Entry
compare_and_delete key old es = elim (load key es) [
  | none ↦ es
  | some e ↦ if e.pointer == old then remove key es else es
]

-- Stores a ClientHello and starts the goroutine that deletes it.
unfoldable pub store_hello : ℕ → List ℕ → ClientHello → TlsFingerprinter → TlsFingerprinter
store_hello now from ch t =
    let wait = if t.timeout == 0 then default_expiry else t.timeout in
    record t {
      entries =
          record { from = from; pointer = t.next_pointer; hello = ch } ∷ remove from t.entries;
      timers = record { due = now + wait; key = from; old = t.next_pointer } ∷ t.timers;
      next_pointer = suc t.next_pointer;
    }

-- The rest of `HandleMessage` once the message was parsed.
abbrev pub store_parsed :
    ℕ → List ℕ → TlsFingerprinter → Result ClientHello → TlsFingerprinter × Result (Unit {0})
store_parsed now from t (ok ch) = (store_hello now from ch t, ok tt)
store_parsed now from t (err e) = (t, err e)
store_parsed now from t panic = (t, panic)
store_parsed now from t stuck = (t, stuck)

unfoldable pub handle_message :
    (List ℕ → Result ClientHello)
    → ℕ
    → List ℕ
    → List ℕ
    → TlsFingerprinter
    → TlsFingerprinter × Result (Unit {0})
handle_message unmarshal now from p t =
    if t.closed then (t, err fingerprinter_closed) else store_parsed now from t (unmarshal p)

-- What the caller gets when the ClientHello was stored: the connection, rewound.
abbrev pub give_back : Hello → Error → Result ClientHello → Result Conn
give_back h last (ok ch) = ok (rewind_conn (tcp h.rest last) ch.raw)
give_back h last (err e) = err (wrapped e)
give_back h last panic = panic
give_back h last stuck = stuck

-- The rest of `HandleTCPConn` once the record was read, or was not.
abbrev pub handle_hello :
    (ClientHello → Result ClientHello)
    → ℕ
    → List ℕ
    → TlsFingerprinter
    → Hello
    → Error
    → Option Error
    → TlsFingerprinter × Result Conn
handle_hello parse now from t h last (some e) = (t, err (wrapped e))
handle_hello parse now from t h last none =
    let parsed = parse (new_client_hello h.raw) in
    ((store_parsed now from t parsed).0, give_back h last parsed)

-- `from` is the remote address of the connection.
unfoldable pub handle_tcp_conn :
    (ClientHello → Result ClientHello)
    → ℕ
    → List ℕ
    → List (List ℕ)
    → Error
    → TlsFingerprinter
    → TlsFingerprinter × Result Conn
handle_tcp_conn parse now from chunks last t =
    let h = read_client_hello chunks last in
    if t.closed
    then (t, err fingerprinter_closed)
    else handle_hello parse now from t h last h.failed

unfoldable pub peek : List ℕ → TlsFingerprinter → Option ClientHello
peek from t = elim (load from t.entries) [ none ↦ none | some e ↦ some e.hello ]

unfoldable pub pop : List ℕ → TlsFingerprinter → TlsFingerprinter × Option ClientHello
pop from t = (record t { entries = remove from t.entries }, peek from t)

-- The goroutine of a timer wakes up, deletes its entry and ends.
abbrev pub expire : Timer → List Timer → TlsFingerprinter → TlsFingerprinter
expire i others t = record t { entries = compare_and_delete i.key i.old t.entries; timers = others }

pub data Event : Type 0 where
  message : List ℕ → List ℕ → Event
  connected : List ℕ → Event
  popped : List ℕ → Event
  timeout_set : ℕ → Event
  closing : Event
  expiring : Timer → Event

-- What may happen at a time: a timer wakes up when it is due or later.
pub data Step (unmarshal : List ℕ → Result ClientHello) (parse : ClientHello → Result ClientHello)
    (now : ℕ) : Event → TlsFingerprinter → TlsFingerprinter → Type 0 where
  message_step :
      {t : TlsFingerprinter} (from p : List ℕ)
      → Step unmarshal parse now (message from p) t (handle_message unmarshal now from p t).0
  connection_step :
      {t : TlsFingerprinter} (from : List ℕ) (chunks : List (List ℕ)) (last : Error)
      → Step unmarshal parse now (connected from) t (handle_tcp_conn parse now from chunks last t).0
  pop_step :
      {t : TlsFingerprinter} (from : List ℕ)
      → Step unmarshal parse now (popped from) t (pop from t).0
  timeout_step :
      {t : TlsFingerprinter} (n : ℕ) → Step unmarshal parse now (timeout_set n) t (set_timeout n t)
  close_step : {t : TlsFingerprinter} → Step unmarshal parse now closing t (close t)
  expire_step :
      {t : TlsFingerprinter} (before : List Timer) (i : Timer) (after : List Timer)
      → t.timers ≡ before ++ i ∷ after
      → i.due ≤ now
      → Step unmarshal parse now (expiring i) t (expire i (before ++ after) t)

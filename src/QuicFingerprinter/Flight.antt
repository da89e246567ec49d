-- ===== src/QuicFingerprinter/Flight.antt =====
-- quic_fingerprint.go: the datagrams of a connection among others, and the timers of gatherings.
use clienthellod.Common.{
  ℕ, ◌+◌, ◌≤◌, ◌<◌, ◌≡◌, ◌≢◌, refl, sym, ap, ap₂, subst, ◌∙◌, arith, true, false, Option, none,
  some, List, [], ◌∷◌, ◌++◌, All, All-map, if◌then◌else◌, ◌==◌,
}
use clienthellod.Outcome.{Error, Result, ok, err, panic, stuck, ◌>>=◌}
use clienthellod.Hash.{update_u64, first_u64, as_hex}
use clienthellod.ClientHello.{ClientHello}
use clienthellod.TransportParameters.{QuicTransportParameters}
use clienthellod.Reconstructor.Piece.{IsMessage}
use clienthellod.Reconstructor.AnyOrder.{fragments}
use clienthellod.Reconstructor.Partial.{stream_bytes}
use clienthellod.Gather.{
  ClientInitial, GatheredClientInitials, number, gather_client_initials_with_deadline, add_packet,
  timer, wait,
}
use clienthellod.Sort.{sort_by}
use clienthellod.Gather.Waiting.{if_then, if_else}
use clienthellod.Gather.Complete.{IsFlight, Arrival, packets_of, add_packets, add_packet-IsComplete}
use clienthellod.TlsFingerprinter.Expiry.{All-without}
use clienthellod.QuicFingerprinter.{
  QuicFingerprinter, QuicFingerprint, Expiry, Received, datagram, read_failed, load_gathering,
  load_or_store, gather, handle_decoded, handle_packet, handle_udp_conn, fingerprint_of,
  generate_quic_fingerprint, or_nil, peek_gathering, peek_quic, pop_quic, expire_gathering,
  default_quic_expiry,
}
use clienthellod.QuicFingerprinter.Map.{load_gathering-put, load_gathering-delete}
use clienthellod.QuicFingerprinter.Isolation.{handle_packet-IsIsolated}

-- Among the datagrams that a stretch of the loop reads, those from `key` decode to the packets,
-- each at its own time; the others come from other addresses, or are refused by the decoder, or
-- the read fails but not for good.
pub data Arrive (unmarshal : List ℕ → Result ClientInitial) (key : List ℕ)
    : List Received → List Arrival → Type 0 where
  nothing : Arrive unmarshal key [] []
  mine :
      {p : List ℕ} {ci : ClientInitial} {rs : List Received} {cis : List Arrival} (at : ℕ)
      → unmarshal p ≡ ok ci
      → Arrive unmarshal key rs cis
      → Arrive unmarshal key (datagram at key p ∷ rs) ((at, ci) ∷ cis)
  refused :
      {p : List ℕ} {rs : List Received} {cis : List Arrival} (at : ℕ) (e : Error)
      → unmarshal p ≡ err e
      → Arrive unmarshal key rs cis
      → Arrive unmarshal key (datagram at key p ∷ rs) cis
  theirs :
      {p : List ℕ} {rs : List Received} {cis : List Arrival} (at : ℕ) (from : List ℕ)
      → from ≢ key
      → Arrive unmarshal key rs cis
      → Arrive unmarshal key (datagram at from p ∷ rs) cis
  failed :
      {rs : List Received} {cis : List Arrival} (e : Error)
      → Arrive unmarshal key rs cis
      → Arrive unmarshal key (read_failed false e ∷ rs) cis

-- No goroutine of the address is due before a time.
abbrev pub IsLater : List ℕ → ℕ → Expiry → Type 0
IsLater key limit i = i.key ≡ key → limit ≤ i.due

-- What happens to a fingerprinter before the time `limit`: stretches of the loop over the UDP socket,
-- goroutines that wake up when they are due or later, and calls of `Pop` for other addresses.
pub data Run (parse : List ℕ → Result ClientHello) (sha1 : List ℕ → List ℕ)
    (unmarshal : List ℕ → Result ClientInitial) (key : List ℕ) (limit : ℕ)
    : QuicFingerprinter → QuicFingerprinter → List Arrival → Type 0 where
  ended : {t : QuicFingerprinter} → Run parse sha1 unmarshal key limit t t []
  stretch :
      {t u : QuicFingerprinter} {rs : List Received} {cis more all : List Arrival}
      → Arrive unmarshal key rs cis
      → Run parse sha1 unmarshal key limit (handle_udp_conn parse sha1 unmarshal rs t).0 u more
      → cis ++ more ≡ all
      → Run parse sha1 unmarshal key limit t u all
  woken :
      {t u : QuicFingerprinter} {all : List Arrival} (at : ℕ) (before : List Expiry) (i : Expiry)
      (after : List Expiry)
      → t.expiries ≡ before ++ i ∷ after
      → i.due ≤ at
      → at < limit
      → Run parse sha1 unmarshal key limit (expire_gathering i (before ++ after) t) u all
      → Run parse sha1 unmarshal key limit t u all
  popped :
      {t u : QuicFingerprinter} {all : List Arrival} (from : List ℕ)
      → from ≢ key
      → Run parse sha1 unmarshal key limit (pop_quic sha1 from t).0 u all
      → Run parse sha1 unmarshal key limit t u all

-- The time of the first packet.
abbrev pub first_time : List Arrival → ℕ
first_time [] = 0
first_time ((at, p) ∷ cis) = at

-- From the first packet to a time.
abbrev pub IsWithin : ℕ → ℕ → Arrival → Type 0
IsWithin start limit a = (start ≤ a.0) × (a.0 ≤ limit)

All-append {ℓ κ} :
    {A : Type ℓ} (P : A → Type κ) (xs ys : List A) → All P (xs ++ ys) → All P xs × All P ys
All-append P [] ys h = (tt, h)
All-append P (x ∷ xs) ys h = let (front, back) = All-append P xs ys h.1 in ((h.0, front), back)

module _ (parse : List ℕ → Result ClientHello) (sha1 : List ℕ → List ℕ)
    (unmarshal : List ℕ → Result ClientInitial) (key : List ℕ) (limit wait_for : ℕ) where
  -- The gathering of the address after more packets.
  abbrev advance : Option GatheredClientInitials → List Arrival → Option GatheredClientInitials
  advance o [] = o
  advance none ((at, ci) ∷ cis) =
      advance
        (some
          (add_packet parse sha1 at (gather_client_initials_with_deadline (at + wait_for)) ci).0)
        cis
  advance (some g) ((at, ci) ∷ cis) = advance (some (add_packet parse sha1 at g ci).0) cis

  advance-append :
      (o : Option GatheredClientInitials) (cis more : List Arrival)
      → advance (advance o cis) more ≡ advance o (cis ++ more)
  advance-append o [] more = refl
  advance-append none ((at, ci) ∷ cis) more =
      advance-append
        (some
          (add_packet parse sha1 at (gather_client_initials_with_deadline (at + wait_for)) ci).0)
        cis more
  advance-append (some g) ((at, ci) ∷ cis) more =
      advance-append (some (add_packet parse sha1 at g ci).0) cis more

  -- The fingerprinter is open, with the gathering `o` of the address and no goroutine for it before
  -- `limit`.
  record Watching (o : Option GatheredClientInitials) (t : QuicFingerprinter) : Type 0 where
    opened : t.closed ≡ false
    timed : t.timeout ≡ wait_for
    held : load_gathering key t.gatherings ≡ o
    later : All (IsLater key limit) t.expiries

  -- A new goroutine is for another address, or due at the limit or later.
  load_or_store-IsLater :
      (at : ℕ) (from : List ℕ) (t : QuicFingerprinter) (o : Option GatheredClientInitials)
      → (from ≡ key → limit ≤ at + (if t.timeout == 0 then default_quic_expiry else t.timeout))
      → All (IsLater key limit) t.expiries
      → All (IsLater key limit) (load_or_store at from t o).1.expiries
  load_or_store-IsLater at from t (some g) h l = l
  load_or_store-IsLater at from t none h l = (h, l)

  load_or_store-settings :
      (at : ℕ) (from : List ℕ) (t : QuicFingerprinter) (o : Option GatheredClientInitials)
      → ((load_or_store at from t o).1.closed ≡ t.closed)
        × ((load_or_store at from t o).1.timeout ≡ t.timeout)
  load_or_store-settings at from t (some g) = (refl, refl)
  load_or_store-settings at from t none = (refl, refl)

  stored :
      (at : ℕ) (ci : ClientInitial) (t : QuicFingerprinter) (o : Option GatheredClientInitials)
      → (t.timeout == 0) ≡ false
      → t.timeout ≡ wait_for
      → some (add_packet parse sha1 at (load_or_store at key t o).0 ci).0
        ≡ advance o ((at, ci) ∷ [])
  stored at ci t (some g) known timed = refl
  stored at ci t none known timed = rw (known, timed) refl

  -- What a datagram of another address does.
  handle_decoded-theirs :
      (at : ℕ) (from : List ℕ) (t : QuicFingerprinter) (r : Result ClientInitial)
      → from ≢ key
      → All (IsLater key limit) t.expiries
      → let u = (handle_decoded parse sha1 at from t r).0 in
        (u.closed ≡ t.closed) × (u.timeout ≡ t.timeout) × All (IsLater key limit) u.expiries
  unfolding gather
  handle_decoded-theirs at from t (ok ci) ne l =
      let o = load_gathering from t.gatherings in
      let (c, w) = load_or_store-settings at from t o in
      (c, w, load_or_store-IsLater at from t o (λ e. absurd (ne e)) l)
  handle_decoded-theirs at from t (err e) ne l = (refl, refl, l)
  handle_decoded-theirs at from t panic ne l = (refl, refl, l)
  handle_decoded-theirs at from t stuck ne l = (refl, refl, l)

  handled :
      (at : ℕ) (from p : List ℕ) (t : QuicFingerprinter)
      → t.closed ≡ false
      → handle_packet parse sha1 unmarshal at from p t
        ≡ handle_decoded parse sha1 at from t (unmarshal p)
  unfolding handle_packet
  handled at from p t c = rw c refl

  theirs-Watching :
      (o : Option GatheredClientInitials) (at : ℕ) (from p : List ℕ) (t : QuicFingerprinter)
      → from ≢ key
      → Watching o t
      → Watching o (handle_packet parse sha1 unmarshal at from p t).0
  theirs-Watching o at from p t ne w =
      let run : handle_packet parse sha1 unmarshal at from p t
          ≡ handle_decoded parse sha1 at from t (unmarshal p) =
        handled at from p t w.opened in
      let (c, n, l) = handle_decoded-theirs at from t (unmarshal p) ne w.later in
      let same = (handle_packet-IsIsolated parse sha1 unmarshal at key from p t ne).1 in
      record {
        opened = ap (λ r. r.0.closed) run ∙ c ∙ w.opened;
        timed = ap (λ r. r.0.timeout) run ∙ n ∙ w.timed;
        held = same ∙ w.held;
        later = subst (λ r. All (IsLater key limit) r.0.expiries) (sym run) l;
      }

  mine-Watching :
      (o : Option GatheredClientInitials) (at : ℕ) (p : List ℕ) (ci : ClientInitial)
      (t : QuicFingerprinter)
      → (wait_for == 0) ≡ false
      → limit ≤ at + wait_for
      → unmarshal p ≡ ok ci
      → Watching o t
      → Watching (advance o ((at, ci) ∷ [])) (handle_packet parse sha1 unmarshal at key p t).0
  unfolding handle_packet gather
  mine-Watching o at p ci t known due e w =
      let opened = w.opened in
      let timed = w.timed in
      let nonzero : (t.timeout == 0) ≡ false = rw timed known in
      let run : handle_packet parse sha1 unmarshal at key p t ≡ gather parse sha1 at key ci t =
        rw (opened, e, handle_packet) refl in
      let held = load_gathering key t.gatherings in
      let (c, n) = load_or_store-settings at key t held in
      let l = load_or_store-IsLater at key t held (λ q. rw (nonzero, timed) due) w.later in
      record {
        opened = ap (λ r. r.0.closed) run ∙ c ∙ opened;
        timed = ap (λ r. r.0.timeout) run ∙ n ∙ timed;
        held =
            ap (λ r. load_gathering key r.0.gatherings) run
            ∙ load_gathering-put key (add_packet parse sha1 at (load_or_store at key t held).0 ci).0
                t.gatherings
            ∙ stored at ci t held nonzero timed
            ∙ ap (λ h. advance h ((at, ci) ∷ [])) w.held;
        later = subst (λ r. All (IsLater key limit) r.0.expiries) (sym run) l;
      }

  refused-Watching :
      (o : Option GatheredClientInitials) (at : ℕ) (p : List ℕ) (x : Error) (t : QuicFingerprinter)
      → unmarshal p ≡ err x
      → Watching o t
      → Watching o (handle_packet parse sha1 unmarshal at key p t).0
  unfolding handle_packet
  refused-Watching o at p x t e w =
      let opened = w.opened in
      let run : (handle_packet parse sha1 unmarshal at key p t).0 ≡ t =
        rw (opened, e, handle_packet) refl in
      subst (Watching o) (sym run) w

  -- One round of the loop of an open fingerprinter.
  round :
      (at : ℕ) (from p : List ℕ) (rs : List Received) (t : QuicFingerprinter)
      → t.closed ≡ false
      → handle_udp_conn parse sha1 unmarshal (datagram at from p ∷ rs) t
        ≡ handle_udp_conn parse sha1 unmarshal rs (handle_packet parse sha1 unmarshal at from p t).0
  unfolding handle_udp_conn
  round at from p rs t opened = if_else t.closed _ _ opened

  Arrive-Watching :
      {rs : List Received} {cis : List Arrival} (o : Option GatheredClientInitials)
      (t : QuicFingerprinter)
      → (wait_for == 0) ≡ false
      → All (λ a. limit ≤ a.0 + wait_for) cis
      → Arrive unmarshal key rs cis
      → Watching o t
      → Watching (advance o cis) (handle_udp_conn parse sha1 unmarshal rs t).0
  unfolding handle_udp_conn
  Arrive-Watching o t known due nothing w = w
  Arrive-Watching o t known due (mine {p} {ci} {rs} {cis} at e a) w =
      let t' = (handle_packet parse sha1 unmarshal at key p t).0 in
      let w' = mine-Watching o at p ci t known due.0 e w in
      let rest = Arrive-Watching (advance o ((at, ci) ∷ [])) t' known due.1 a w' in
      subst (λ h. Watching h (handle_udp_conn parse sha1 unmarshal (datagram at key p ∷ rs) t).0)
        (advance-append o ((at, ci) ∷ []) cis)
        (subst (λ r. Watching (advance (advance o ((at, ci) ∷ [])) cis) r.0)
          (sym (round at key p rs t w.opened)) rest)
  Arrive-Watching o t known due (refused {p} {rs} {cis} at x e a) w =
      let t' = (handle_packet parse sha1 unmarshal at key p t).0 in
      let rest = Arrive-Watching o t' known due a (refused-Watching o at p x t e w) in
      subst (λ r. Watching (advance o cis) r.0) (sym (round at key p rs t w.opened)) rest
  Arrive-Watching o t known due (theirs {p} {rs} {cis} at from ne a) w =
      let t' = (handle_packet parse sha1 unmarshal at from p t).0 in
      let rest = Arrive-Watching o t' known due a (theirs-Watching o at from p t ne w) in
      subst (λ r. Watching (advance o cis) r.0) (sym (round at from p rs t w.opened)) rest
  Arrive-Watching o t known due (failed {rs} {cis} e a) w =
      let rest = Arrive-Watching o t known due a w in
      subst (λ (r : QuicFingerprinter × Option Error). Watching (advance o cis) r.0)
        (sym (if_else t.closed _ _ w.opened)) rest

  -- A goroutine that wakes up before the limit is for another address.
  woken-Watching :
      (o : Option GatheredClientInitials) (t : QuicFingerprinter) (at : ℕ) (before : List Expiry)
      (i : Expiry) (after : List Expiry)
      → t.expiries ≡ before ++ i ∷ after
      → i.due ≤ at
      → at < limit
      → Watching o t
      → Watching o (expire_gathering i (before ++ after) t)
  woken-Watching o t at before i after s due lt w =
      let (own, rest) =
        All-without (IsLater key limit) before i after
          (subst (All (IsLater key limit)) s w.later) in
      let other : i.key ≢ key = λ e. let late : limit ≤ i.due = own e in omega arith in
      record {
        opened = w.opened;
        timed = w.timed;
        held = load_gathering-delete key i.key t.gatherings other ∙ w.held;
        later = rest;
      }

  popped-Watching :
      (o : Option GatheredClientInitials) (t : QuicFingerprinter) (from : List ℕ)
      → from ≢ key
      → Watching o t
      → Watching o (pop_quic sha1 from t).0
  unfolding pop_quic
  popped-Watching o t from ne w = record {
    opened = w.opened;
    timed = w.timed;
    held = load_gathering-delete key from t.gatherings ne ∙ w.held;
    later = w.later;
  }

  Run-Watching :
      {t u : QuicFingerprinter} {all : List Arrival} (o : Option GatheredClientInitials)
      → (wait_for == 0) ≡ false
      → All (λ a. limit ≤ a.0 + wait_for) all
      → Run parse sha1 unmarshal key limit t u all
      → Watching o t
      → Watching (advance o all) u
  Run-Watching o known due ended w = w
  Run-Watching o known due (stretch {t} {u} {rs} {cis} {more} a run e) w =
      let (front, back) =
        All-append (λ a. limit ≤ a.0 + wait_for) cis more
          (subst (All (λ a. limit ≤ a.0 + wait_for)) (sym e) due) in
      let w' = Arrive-Watching o t known front a w in
      subst (λ h. Watching h u) (advance-append o cis more ∙ ap (advance o) e)
        (Run-Watching (advance o cis) known back run w')
  Run-Watching o known due (woken {t} at before i after s late lt run) w =
      Run-Watching o known due run (woken-Watching o t at before i after s late lt w)
  Run-Watching o known due (popped {t} from ne run) w =
      Run-Watching o known due run (popped-Watching o t from ne w)

  -- The packets of a new gathering.
  advance-add_packets :
      (stream : ℕ → ℕ) (size : ℕ) (arrivals : List Arrival) (g : GatheredClientInitials) (now : ℕ)
      (last : ClientInitial)
      → advance (some g) (arrivals ++ (now, last) ∷ [])
        ≡ some (add_packet parse sha1 now (add_packets stream size parse sha1 g arrivals) last).0
  advance-add_packets stream size [] g now last = refl
  advance-add_packets stream size ((at, p) ∷ arrivals) g now last =
      advance-add_packets stream size arrivals (add_packet parse sha1 at g p).0 now last

  advance-fresh :
      (arrivals : List Arrival) (now : ℕ) (last : ClientInitial)
      → let all = arrivals ++ (now, last) ∷ [] in
        advance none all
        ≡ advance (some (gather_client_initials_with_deadline (first_time all + wait_for))) all
  advance-fresh [] now last = refl
  advance-fresh ((at, p) ∷ arrivals) now last = refl

module _ (sha1 : List ℕ → List ℕ) where
  -- The fingerprint of a complete gathering.
  peek_gathering_complete :
      (g : GatheredClientInitials) (hello : ClientHello) (q : QuicTransportParameters)
      → g.completed ≡ true
      → g.client_hello ≡ some hello
      → g.transport_parameters ≡ some q
      → (f : QuicFingerprint) × (peek_gathering sha1 (some g) ≡ ok (some f))
        × (f.client_initials ≡ g)
        × (f.num_id
            ≡ first_u64 (
                sha1
                  (update_u64 g.num_id ++ (update_u64 hello.norm_num_id ++ update_u64 q.num_id))))
  unfolding generate_quic_fingerprint wait
  peek_gathering_complete g hello q c h tp =
      let id =
        first_u64
          (sha1 (update_u64 g.num_id ++ (update_u64 hello.norm_num_id ++ update_u64 q.num_id))) in
      let f : QuicFingerprint = record {
        client_initials = g;
        hex_id = as_hex id;
        num_id = id;
        user_agent = [];
      } in
      let made : generate_quic_fingerprint sha1 g timer ≡ ok f =
        ap
          (λ (w : Result (Unit {0})).
            w >>= λ (done : Unit {0}). fingerprint_of sha1 g g.client_hello g.transport_parameters)
          (if_then g.completed _ _ c)
        ∙ ap₂ (fingerprint_of sha1 g) h tp in
      (f, if_then g.completed _ _ c ∙ ap (or_nil sha1) made, refl, refl)

module _ (parse : List ℕ → Result ClientHello) (sha1 : List ℕ → List ℕ)
    (unmarshal : List ℕ → Result ClientInitial) (key : List ℕ) where
  -- The fingerprinter is open, has a timeout that is not zero, no gathering of the address, and
  -- no goroutine of the address that is due before the timeout after its first packet. Stretches
  -- of the loop over the UDP socket, goroutines that wake up before that timeout and calls of
  -- `Pop` for other addresses follow in any order. The Initial packets of a connection from the
  -- address arrive, each at its own time from that of the first up to the timeout after it, in
  -- any order, among datagrams from other addresses, datagrams that the decoder refuses and reads
  -- that fail but not for good: at most four, as `AddPacket` accepts them, which carry a
  -- ClientHello between them that the parser accepts with transport parameters, and the last has
  -- a piece of it. Then `Peek` of the address returns a fingerprint, of all the packets and the
  -- parsed ClientHello, and its id hashes the ids of the headers, of the normalized ClientHello
  -- and of the transport parameters.
  pub peek_quic-Run :
      (stream : ℕ → ℕ) (size : ℕ) (t u : QuicFingerprinter) (arrivals : List Arrival) (now : ℕ)
      (last : ClientInitial) (hello : ClientHello) (q : QuicTransportParameters)
      → let all = arrivals ++ (now, last) ∷ [] in
        let limit = first_time all + t.timeout in
        t.closed ≡ false
        → (t.timeout == 0) ≡ false
        → load_gathering key t.gatherings ≡ none
        → All (IsLater key limit) t.expiries
        → All (IsWithin (first_time all) limit) all
        → Run parse sha1 unmarshal key limit t u all
        → IsMessage stream size
        → IsFlight stream size (packets_of arrivals ++ last ∷ [])
        → fragments last.frames ≢ []
        → parse (stream_bytes stream 0 size) ≡ ok hello
        → hello.qtp ≡ some q
        → (f : QuicFingerprint) × (peek_quic sha1 key u ≡ ok (some f))
          × (f.client_initials.packets ≡ sort_by number (packets_of arrivals ++ last ∷ []))
          × (f.client_initials.client_hello ≡ some hello)
          × (f.num_id
              ≡ first_u64 (
                  sha1 (
                    update_u64 f.client_initials.num_id
                    ++ (update_u64 hello.norm_num_id ++ update_u64 q.num_id))))
  unfolding peek_quic
  peek_quic-Run stream size t u arrivals now last hello q opened timed new quiet within run m fl ne
        accepted tp =
      let all = arrivals ++ (now, last) ∷ [] in
      let start = first_time all in
      let limit = start + t.timeout in
      let fresh = gather_client_initials_with_deadline limit in
      let r = add_packet parse sha1 now (add_packets stream size parse sha1 fresh arrivals) last in
      let early : All (λ a. a.0 ≤ limit) all = All-map (λ a h. h.1) all within in
      let (front, back) = All-append (λ a. a.0 ≤ limit) arrivals ((now, last) ∷ []) early in
      let done =
        add_packet-IsComplete stream size parse sha1 limit arrivals now last hello front back.0 m fl
          ne accepted in
      let due : All (λ a. limit ≤ a.0 + t.timeout) all =
        All-map (λ a h. let from_start = h.0 in omega arith) all within in
      let w =
        Run-Watching parse sha1 unmarshal key limit t.timeout none timed due run
          record { opened = opened; timed = refl; held = new; later = quiet } in
      let there : load_gathering key u.gatherings ≡ some r.0 =
        w.held
        ∙ advance-fresh parse sha1 unmarshal key limit t.timeout arrivals now last
        ∙ advance-add_packets parse sha1 unmarshal key limit t.timeout stream size arrivals fresh
            now last in
      let (f, made, same, id) =
        peek_gathering_complete sha1 r.0 hello q done.finished done.hello_lem
          (done.parameters_lem ∙ tp) in
      (
        f,
        ap (peek_gathering sha1) there ∙ made,
        ap (λ (g : GatheredClientInitials). g.packets) same ∙ done.packets_lem,
        ap (λ (g : GatheredClientInitials). g.client_hello) same ∙ done.hello_lem,
        id
            ∙ ap
                (λ (g : GatheredClientInitials). first_u64 (
                  sha1
                    (update_u64 g.num_id ++ (update_u64 hello.norm_num_id ++ update_u64 q.num_id))))
                (sym same),
      )

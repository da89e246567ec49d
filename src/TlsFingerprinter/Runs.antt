-- ===== src/TlsFingerprinter/Runs.antt =====
-- tls_fingerprint.go: runs of the TLS fingerprinter.
use clienthellod.Common.{
  ℕ, ◌+◌, ◌<◌, ◌≡◌, refl, subst, false, some, List, [], ◌∷◌, ◌++◌, All, All-map, ◌==◌,
  if◌then◌else◌, if-cases, arith,
}
use clienthellod.Outcome.{Result, ok, err, panic, stuck}
use clienthellod.ClientHello.{ClientHello}
use clienthellod.TlsFingerprinter.{
  TlsFingerprinter, Entry, Event, Step, default_expiry, new_tls_fingerprinter_with_timeout, load,
  store_hello, store_parsed, handle_message, peek, pop,
}
use clienthellod.TlsFingerprinter.Step.{
  message_step, connection_step, pop_step, timeout_step, close_step, expire_step,
}
use clienthellod.TlsFingerprinter.Expiry.{
  Kept, IsElsewhere, Step-Kept, All-without, same_string_refl, handle_tcp_conn-cases,
}

-- Events, each at its time.
pub data Steps (unmarshal : List ℕ → Result ClientHello) (parse : ClientHello → Result ClientHello)
    : List (ℕ × Event) → TlsFingerprinter → TlsFingerprinter → Type 0 where
  no_step : {t : TlsFingerprinter} → Steps unmarshal parse [] t t
  one_step :
      {now : ℕ} {v : Event} {vs : List (ℕ × Event)} {t t' u : TlsFingerprinter}
      → Step unmarshal parse now v t t'
      → Steps unmarshal parse vs t' u
      → Steps unmarshal parse ((now, v) ∷ vs) t u

-- Timers are for entries that were allocated.
abbrev pub IsAllocated : TlsFingerprinter → Type 0
IsAllocated t = All (λ i. i.old < t.next_pointer) t.timers

store_parsed-IsAllocated :
    (now : ℕ) (from : List ℕ) (t : TlsFingerprinter) (r : Result ClientHello)
    → IsAllocated t
    → IsAllocated (store_parsed now from t r).0
unfolding store_hello
store_parsed-IsAllocated now from t (ok ch) a =
    (omega arith, All-map {P = λ i. i.old < t.next_pointer} (λ i lt. omega arith) t.timers a)
store_parsed-IsAllocated now from t (err x) a = a
store_parsed-IsAllocated now from t panic a = a
store_parsed-IsAllocated now from t stuck a = a

module _ (unmarshal : List ℕ → Result ClientHello) (parse : ClientHello → Result ClientHello) where
  Step-IsAllocated :
      (now : ℕ) (v : Event) {t t' : TlsFingerprinter}
      → Step unmarshal parse now v t t'
      → IsAllocated t
      → IsAllocated t'
  unfolding handle_message pop
  Step-IsAllocated now v (message_step {t} from p) a =
      if-cases (λ (x : TlsFingerprinter × Result (Unit {0})). IsAllocated x.0) t.closed (λ c. a)
        (λ c. store_parsed-IsAllocated now from t (unmarshal p) a)
  Step-IsAllocated now v (connection_step {t} from chunks last) a =
      handle_tcp_conn-cases IsAllocated parse now from chunks last t a
        (λ r. store_parsed-IsAllocated now from t r a)
  Step-IsAllocated now v (pop_step from) a = a
  Step-IsAllocated now v (timeout_step n) a = a
  Step-IsAllocated now v close_step a = a
  Step-IsAllocated now v (expire_step {t} before i after s due) a =
      let whole : All (λ j. j.old < t.next_pointer) (before ++ i ∷ after) =
        subst (All (λ j. j.old < t.next_pointer)) s a in
      (All-without (λ j. j.old < t.next_pointer) before i after whole).1

  Steps-IsAllocated :
      {vs : List (ℕ × Event)} {t u : TlsFingerprinter}
      → Steps unmarshal parse vs t u
      → IsAllocated t
      → IsAllocated u
  Steps-IsAllocated no_step a = a
  Steps-IsAllocated (one_step {now} {v} s ss) a = Steps-IsAllocated ss (Step-IsAllocated now v s a)

  Steps-Kept :
      (key : List ℕ) (e : Entry) (until : ℕ) {vs : List (ℕ × Event)} {t u : TlsFingerprinter}
      → All (λ v. (v.0 < until) × IsElsewhere key v.1) vs
      → Steps unmarshal parse vs t u
      → Kept key e until t
      → Kept key e until u
  Steps-Kept key e until h no_step k = k
  Steps-Kept key e until h (one_step {now} {v} s ss) k =
      Steps-Kept key e until h.1 ss (Step-Kept unmarshal parse key e until now v h.0.0 h.0.1 s k)

  -- How long an entry stays.
  abbrev pub lifetime : TlsFingerprinter → ℕ
  lifetime t = if t.timeout == 0 then default_expiry else t.timeout

  store_hello-starts :
      (now : ℕ) (key : List ℕ) (ch : ClientHello) (t : TlsFingerprinter)
      → IsAllocated t
      → Kept key
          (record { from = key; pointer = t.next_pointer; hello = ch })
          (now + lifetime t)
          (store_hello now key ch t)
  unfolding store_hello load
  store_hello-starts now key ch t a = record {
    found = rw (same_string_refl key) refl;
    early = (
      λ same. omega arith,
      All-map {P = λ i. i.old < t.next_pointer} (λ i lt same. absurd (omega arith)) t.timers a,
    );
    fresh = omega arith;
  }

  -- A fingerprinter that was made new and has gone through any events parses a message from an
  -- address. Whatever happens next, before the time at which the entry's own timer is due and
  -- without another message or connection from the address or a Pop of it, Peek gives the
  -- ClientHello; timers of earlier messages from the same address that wake up meanwhile do not
  -- delete it.
  pub peek-Steps :
      (n now : ℕ) (key p : List ℕ) (ch : ClientHello) {past future : List (ℕ × Event)}
      {t u : TlsFingerprinter}
      → Steps unmarshal parse past (new_tls_fingerprinter_with_timeout n) t
      → t.closed ≡ false
      → unmarshal p ≡ ok ch
      → All (λ v. (v.0 < now + lifetime t) × IsElsewhere key v.1) future
      → Steps unmarshal parse future (handle_message unmarshal now key p t).0 u
      → peek key u ≡ some ch
  unfolding handle_message peek
  peek-Steps n now key p ch {t = t} past opened parsed h steps =
      let e : Entry = record { from = key; pointer = t.next_pointer; hello = ch } in
      let stored : (handle_message unmarshal now key p t).0 ≡ store_hello now key ch t =
        rw (opened, parsed, handle_message) refl in
      let start = store_hello-starts now key ch t (Steps-IsAllocated past tt) in
      let k = Steps-Kept key e (now + lifetime t) h steps (rw stored start) in
      rw (k.found, peek) refl

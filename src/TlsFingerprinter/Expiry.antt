-- ===== src/TlsFingerprinter/Expiry.antt =====
-- tls_fingerprint.go: one step, and the entry of an address.
use clienthellod.Common.{
  ℕ, ◌≤◌, ◌<◌, ◌≡◌, ◌≢◌, inl, inr, refl, sym, ap, ap₂, subst, ◌∙◌, true, false, Bool-cases, Option,
  none, some, Option-cases, List, [], ◌∷◌, ◌++◌, All, ◌==◌, if◌then◌else◌, if-cases, arith,
}
use clienthellod.Outcome.{Error, Result, ok, err, panic, stuck}
use clienthellod.ClientHello.{ClientHello}
use clienthellod.ClientHello.Read.{Hello, read_client_hello}
use clienthellod.ClientHello.Parse.{new_client_hello}
use clienthellod.Connection.{Conn}
use clienthellod.TlsFingerprinter.{
  TlsFingerprinter, Entry, Event, Step, same_string, load, remove, compare_and_delete, store_hello,
  store_parsed, handle_message, handle_hello, handle_tcp_conn, pop,
}
use clienthellod.TlsFingerprinter.Event.{message, connected, popped, timeout_set, closing, expiring}
use clienthellod.TlsFingerprinter.Step.{
  message_step, connection_step, pop_step, timeout_step, close_step, expire_step,
}

pub same_string-eq : (s t : List ℕ) → same_string s t ≡ true → s ≡ t
same_string-eq [] [] e = refl
same_string-eq [] (b ∷ t) e = cc
same_string-eq (a ∷ s) [] e = cc
same_string-eq (a ∷ s) (b ∷ t) e =
    let head : a ≡ b = ground arith in ap₂ (λ x xs. x ∷ xs) head (same_string-eq s t (ground arith))

pub same_string_refl : (s : List ℕ) → same_string s s ≡ true
same_string_refl [] = refl
same_string_refl (a ∷ s) = let rest = same_string_refl s in ground arith

load-remove_ne :
    (key from : List ℕ) (es : List Entry) → from ≢ key → load key (remove from es) ≡ load key es
unfolding load remove
load-remove_ne key from [] ne = refl
load-remove_ne key from (e ∷ es) ne =
    let ih = load-remove_ne key from es ne in
    elim (Bool-cases (same_string e.from from)) [
      | inl y ↦ elim (Bool-cases (same_string e.from key)) [
        | inl z ↦ absurd (ne (sym (same_string-eq e.from from y) ∙ same_string-eq e.from key z))
        | inr z ↦ rw (y, z) ih
      ]
      | inr n ↦ rw n (ap (λ o. if same_string e.from key then some e else o) ih)
    ]

load-compare_and_delete :
    (key from : List ℕ) (old : ℕ) (es : List Entry) (e : Entry)
    → load key es ≡ some e
    → e.pointer ≢ old
    → load key (compare_and_delete from old es) ≡ some e
unfolding compare_and_delete
load-compare_and_delete key from old es e h ne = elim (Bool-cases (same_string from key)) [
  | inl y ↦
      let same = same_string-eq from key y in
      let other : (e.pointer == old) ≡ false = ground arith in
      rw (same, h, other, compare_and_delete) h
  | inr n ↦ elim (Option-cases (load from es)) [
    | inl none_there ↦ rw (none_there, compare_and_delete) h
    | inr (e', there) ↦
        let differs : from ≢ key =
          λ s. let t : same_string from key ≡ true = rw s (same_string_refl key) in cc in
        rw (there, compare_and_delete)
          (if-cases (λ (l : List Entry). load key l ≡ some e) (e'.pointer == old)
            (λ t. load-remove_ne key from es differs ∙ h) (λ t. h))
  ]
]

-- The entry of an address, and no timer for it before a time.
pub record Kept (key : List ℕ) (e : Entry) (until : ℕ) (t : TlsFingerprinter) : Type 0 where
  pub found : load key t.entries ≡ some e
  pub early : All (λ i. i.old ≡ e.pointer → until ≤ i.due) t.timers
  pub fresh : e.pointer < t.next_pointer

-- The event neither stores a ClientHello for the address nor takes it away.
abbrev pub IsElsewhere : List ℕ → Event → Type 0
IsElsewhere key (message from p) = from ≢ key
IsElsewhere key (connected from) = from ≢ key
IsElsewhere key (popped from) = from ≢ key
IsElsewhere key (timeout_set n) = Unit {0}
IsElsewhere key closing = Unit {0}
IsElsewhere key (expiring i) = Unit {0}

store_hello-Kept :
    (key : List ℕ) (e : Entry) (until now : ℕ) (from : List ℕ) (ch : ClientHello)
    (t : TlsFingerprinter)
    → from ≢ key
    → Kept key e until t
    → Kept key e until (store_hello now from ch t)
unfolding store_hello load
store_hello-Kept key e until now from ch t ne k =
    let fresh = k.fresh in
    let other : same_string from key ≡ false = elim (Bool-cases (same_string from key)) [
      | inl y ↦ absurd (ne (same_string-eq from key y))
      | inr n ↦ n
    ] in
    record {
      found = rw other (load-remove_ne key from t.entries ne ∙ k.found);
      early = (λ same. omega arith, k.early);
      fresh = omega arith;
    }

store_parsed-Kept :
    (key : List ℕ) (e : Entry) (until now : ℕ) (from : List ℕ) (t : TlsFingerprinter)
    (r : Result ClientHello)
    → from ≢ key
    → Kept key e until t
    → Kept key e until (store_parsed now from t r).0
store_parsed-Kept key e until now from t (ok ch) ne k =
    store_hello-Kept key e until now from ch t ne k
store_parsed-Kept key e until now from t (err x) ne k = k
store_parsed-Kept key e until now from t panic ne k = k
store_parsed-Kept key e until now from t stuck ne k = k

pub All-without {ℓ κ} :
    {A : Type ℓ} (P : A → Type κ) (xs : List A) (y : A) (zs : List A)
    → All P (xs ++ y ∷ zs)
    → P y × All P (xs ++ zs)
All-without P [] y zs h = h
All-without P (x ∷ xs) y zs h = let (own, rest) = All-without P xs y zs h.1 in (own, (h.0, rest))

handle_hello-cases :
    (P : TlsFingerprinter → Type 0) (parse : ClientHello → Result ClientHello) (now : ℕ)
    (from : List ℕ) (t : TlsFingerprinter) (h : Hello) (last : Error) (e : Option Error)
    → P t
    → ((r : Result ClientHello) → P (store_parsed now from t r).0)
    → P (handle_hello parse now from t h last e).0
handle_hello-cases P parse now from t h last (some e) p f = p
handle_hello-cases P parse now from t h last none p f = f (parse (new_client_hello h.raw))

-- A connection leaves the fingerprinter as it was, or stores what was parsed.
pub handle_tcp_conn-cases :
    (P : TlsFingerprinter → Type 0) (parse : ClientHello → Result ClientHello) (now : ℕ)
    (from : List ℕ) (chunks : List (List ℕ)) (last : Error) (t : TlsFingerprinter)
    → P t
    → ((r : Result ClientHello) → P (store_parsed now from t r).0)
    → P (handle_tcp_conn parse now from chunks last t).0
unfolding handle_tcp_conn
handle_tcp_conn-cases P parse now from chunks last t p f =
    if-cases (λ (x : TlsFingerprinter × Result Conn). P x.0) t.closed (λ c. p)
      (λ c.
        handle_hello-cases P parse now from t (read_client_hello chunks last) last
          (read_client_hello chunks last).failed p f)

module _ (unmarshal : List ℕ → Result ClientHello) (parse : ClientHello → Result ClientHello) where
  pub Step-Kept :
      (key : List ℕ) (e : Entry) (until now : ℕ) (v : Event) {t t' : TlsFingerprinter}
      → now < until
      → IsElsewhere key v
      → Step unmarshal parse now v t t'
      → Kept key e until t
      → Kept key e until t'
  unfolding handle_message pop
  Step-Kept key e until now v lt ne (message_step {t} from p) k =
      if-cases (λ (x : TlsFingerprinter × Result (Unit {0})). Kept key e until x.0) t.closed
        (λ c. k) (λ c. store_parsed-Kept key e until now from t (unmarshal p) ne k)
  Step-Kept key e until now v lt ne (connection_step {t} from chunks last) k =
      handle_tcp_conn-cases (Kept key e until) parse now from chunks last t k
        (λ r. store_parsed-Kept key e until now from t r ne k)
  Step-Kept key e until now v lt ne (pop_step {t} from) k = record {
    found = load-remove_ne key from t.entries ne ∙ k.found;
    early = k.early;
    fresh = k.fresh;
  }
  Step-Kept key e until now v lt ne (timeout_step n) k = record {
    found = k.found;
    early = k.early;
    fresh = k.fresh;
  }
  Step-Kept key e until now v lt ne close_step k = record {
    found = k.found;
    early = k.early;
    fresh = k.fresh;
  }
  Step-Kept key e until now v lt ne (expire_step {t} before i after s due) k =
      let early : All (λ j. j.old ≡ e.pointer → until ≤ j.due) (before ++ i ∷ after) =
        subst (All (λ j. j.old ≡ e.pointer → until ≤ j.due)) s k.early in
      let (own, rest) = All-without (λ j. j.old ≡ e.pointer → until ≤ j.due) before i after early in
      let other : e.pointer ≢ i.old =
        λ same. let later : until ≤ i.due = own (sym same) in omega arith in
      record {
        found = load-compare_and_delete key i.key i.old t.entries e k.found other;
        early = rest;
        fresh = k.fresh;
      }

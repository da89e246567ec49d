-- ===== src/Reservoir/Visits.antt =====
-- modcaddy/app/reservoir.go: runs of the visitors and of the goroutines that forget them.
use clienthellod.Common.{
  ℕ, ◌+◌, ◌≤◌, ◌<◌, ◌≡◌, ◌≢◌, refl, sym, ap, subst, ◌∙◌, inl, inr, true, false, Bool-cases, some,
  Option-cases, List, [], ◌∷◌, ◌++◌, All, if◌then◌else◌, if-cases, arith,
}
use clienthellod.TlsFingerprinter.{same_string}
use clienthellod.TlsFingerprinter.Expiry.{same_string_refl, same_string-eq, All-without}
use clienthellod.Reservoir.{
  Reservoir, Visit, Event, visited, expiring, elsewhere, Step, visit_step, expire_step,
  fingerprint_step, load_visitor, delete_visitor, compare_and_delete_visitor, new_quic_visitor,
  get_last_quic_visitor,
}

abbrev Visitors : Type 0
Visitors = List (List ℕ × List ℕ)

other_ip : (a b : List ℕ) → a ≢ b → same_string a b ≡ false
other_ip a b ne = elim (Bool-cases (same_string a b)) [
  | inl y ↦ absurd (ne (same_string-eq a b y))
  | inr n ↦ n
]

load_visitor-delete :
    (ip from : List ℕ) (vs : Visitors)
    → from ≢ ip
    → load_visitor ip (delete_visitor from vs) ≡ load_visitor ip vs
unfolding load_visitor delete_visitor
load_visitor-delete ip from [] ne = refl
load_visitor-delete ip from ((k, v) ∷ vs) ne =
    let ih = load_visitor-delete ip from vs ne in
    elim (Bool-cases (same_string k from)) [
      | inl y ↦
          let other : same_string k ip ≡ false =
            other_ip k ip (λ e. ne (sym (same_string-eq k from y) ∙ e)) in
          rw (y, other) ih
      | inr n ↦ rw n (ap (λ o. if same_string k ip then some v else o) ih)
    ]

-- A goroutine for another visitor, or another IP, leaves a visitor.
load_visitor-compare_and_delete :
    (ip key from full_key : List ℕ) (vs : Visitors)
    → load_visitor ip vs ≡ some key
    → (from ≡ ip → full_key ≢ key)
    → load_visitor ip (compare_and_delete_visitor from full_key vs) ≡ some key
unfolding compare_and_delete_visitor
load_visitor-compare_and_delete ip key from full_key vs h ne =
    elim (Bool-cases (same_string from ip)) [
      | inl y ↦
          let same = same_string-eq from ip y in
          let other : same_string key full_key ≡ false =
            other_ip key full_key (λ e. ne same (sym e)) in
          rw (same, h, other, compare_and_delete_visitor) h
      | inr n ↦
          let differs : from ≢ ip =
            λ s. let t : same_string from ip ≡ true = rw s (same_string_refl ip) in cc in
          elim (Option-cases (load_visitor from vs)) [
            | inl none_there ↦ rw (none_there, compare_and_delete_visitor) h
            | inr (v, there) ↦
                rw (there, compare_and_delete_visitor)
                  (if-cases (λ (l : Visitors). load_visitor ip l ≡ some key)
                    (same_string v full_key) (λ t. load_visitor-delete ip from vs differs ∙ h)
                    (λ t. h))
          ]
    ]

-- No goroutine for this visitor before a time.
abbrev pub IsLater : List ℕ → List ℕ → ℕ → Visit → Type 0
IsLater ip key until i = i.ip ≡ ip → i.full_key ≡ key → until ≤ i.due

-- The visitor of an IP, and no goroutine for it before a time.
pub record Remembers (ip key : List ℕ) (until : ℕ) (r : Reservoir) : Type 0 where
  pub found : get_last_quic_visitor ip r ≡ some key
  pub early : All (IsLater ip key until) r.visits

-- The event is no visit from the IP.
abbrev pub IsElsewhere : List ℕ → Event → Type 0
IsElsewhere ip (visited from full_key) = from ≢ ip
IsElsewhere ip (expiring i) = Unit {0}
IsElsewhere ip elsewhere = Unit {0}

Step-Remembers :
    (ip key : List ℕ) (until now : ℕ) (v : Event) {r r' : Reservoir}
    → now < until
    → IsElsewhere ip v
    → Step now v r r'
    → Remembers ip key until r
    → Remembers ip key until r'
unfolding new_quic_visitor get_last_quic_visitor load_visitor
Step-Remembers ip key until now v lt ne (visit_step {r} from full_key) k = record {
  found = rw (other_ip from ip ne) (load_visitor-delete ip from r.visitors ne ∙ k.found);
  early = (λ same. absurd (ne same), k.early);
}
Step-Remembers ip key until now v lt ne (expire_step {r} before i after s due) k =
    let early : All (IsLater ip key until) (before ++ i ∷ after) =
      subst (All (IsLater ip key until)) s k.early in
    let (own, rest) = All-without (IsLater ip key until) before i after early in
    let other : i.ip ≡ ip → i.full_key ≢ key =
      λ same_ip same_key. let later : until ≤ i.due = own same_ip same_key in omega arith in
    record {
      found = load_visitor-compare_and_delete ip key i.ip i.full_key r.visitors k.found other;
      early = rest;
    }
Step-Remembers ip key until now v lt ne (fingerprint_step t q) k = record {
  found = k.found;
  early = k.early;
}

-- Events, each at its time.
pub data Steps : List (ℕ × Event) → Reservoir → Reservoir → Type 0 where
  no_step : {r : Reservoir} → Steps [] r r
  one_step :
      {now : ℕ} {v : Event} {vs : List (ℕ × Event)} {r r' u : Reservoir}
      → Step now v r r'
      → Steps vs r' u
      → Steps ((now, v) ∷ vs) r u

Steps-Remembers :
    (ip key : List ℕ) (until : ℕ) {vs : List (ℕ × Event)} {r u : Reservoir}
    → All (λ v. (v.0 < until) × IsElsewhere ip v.1) vs
    → Steps vs r u
    → Remembers ip key until r
    → Remembers ip key until u
Steps-Remembers ip key until h no_step k = k
Steps-Remembers ip key until h (one_step {now} {v} s ss) k =
    Steps-Remembers ip key until h.1 ss (Step-Remembers ip key until now v h.0.0 h.0.1 s k)

-- After a visit, whatever happens before the time to live is over but another visit of that IP,
-- the address is the last visitor of its IP, unless a goroutine of an earlier visit of the same
-- address is pending.
pub get_last_quic_visitor-Steps :
    (now : ℕ) (ip key : List ℕ) (r : Reservoir) {vs : List (ℕ × Event)} {u : Reservoir}
    → All (IsLater ip key (now + r.quic_ttl)) r.visits
    → All (λ v. (v.0 < now + r.quic_ttl) × IsElsewhere ip v.1) vs
    → Steps vs (new_quic_visitor now ip key r) u
    → get_last_quic_visitor ip u ≡ some key
unfolding new_quic_visitor get_last_quic_visitor load_visitor
get_last_quic_visitor-Steps now ip key r none_earlier h steps =
    let start : Remembers ip key (now + r.quic_ttl) (new_quic_visitor now ip key r) = record {
      found = rw (same_string_refl ip) refl;
      early = (λ same_ip same_key. omega arith, none_earlier);
    } in
    (Steps-Remembers ip key (now + r.quic_ttl) h steps start).found

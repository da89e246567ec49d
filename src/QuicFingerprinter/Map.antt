-- ===== src/QuicFingerprinter/Map.antt =====
-- quic_fingerprint.go: the map of gatherings.
use clienthellod.Common.{
  ℕ, ◌≡◌, ◌≢◌, refl, sym, ap, ◌∙◌, false, Bool-cases, inl, inr, some, List, [], ◌∷◌, if◌then◌else◌,
}
use clienthellod.Gather.{GatheredClientInitials}
use clienthellod.TlsFingerprinter.{same_string}
use clienthellod.TlsFingerprinter.Expiry.{same_string_refl, same_string-eq}
use clienthellod.QuicFingerprinter.{load_gathering, delete_gathering, put_gathering}

abbrev Gatherings : Type 0
Gatherings = List (List ℕ × GatheredClientInitials)

pub load_gathering-put :
    (key : List ℕ) (g : GatheredClientInitials) (gs : Gatherings)
    → load_gathering key (put_gathering key g gs) ≡ some g
unfolding load_gathering
load_gathering-put key g gs = rw (same_string_refl key) refl

other_string : (a b : List ℕ) → a ≢ b → same_string a b ≡ false
other_string a b ne = elim (Bool-cases (same_string a b)) [
  | inl y ↦ absurd (ne (same_string-eq a b y))
  | inr n ↦ n
]

pub load_gathering-delete :
    (key from : List ℕ) (gs : Gatherings)
    → from ≢ key
    → load_gathering key (delete_gathering from gs) ≡ load_gathering key gs
unfolding load_gathering delete_gathering
load_gathering-delete key from [] ne = refl
load_gathering-delete key from ((k, g) ∷ gs) ne =
    let ih = load_gathering-delete key from gs ne in
    elim (Bool-cases (same_string k from)) [
      | inl y ↦
          let other : same_string k key ≡ false =
            other_string k key (λ e. ne (sym (same_string-eq k from y) ∙ e)) in
          rw (y, other) ih
      | inr n ↦ rw n (ap (λ o. if same_string k key then some g else o) ih)
    ]

pub load_gathering-put_ne :
    (key from : List ℕ) (g : GatheredClientInitials) (gs : Gatherings)
    → from ≢ key
    → load_gathering key (put_gathering from g gs) ≡ load_gathering key gs
unfolding load_gathering
load_gathering-put_ne key from g gs ne =
    rw (other_string from key ne) (load_gathering-delete key from gs ne)

-- ===== src/Reconstructor/Pending.antt =====
-- quic_clienthello_reconstructor.go: the pending fragments.
use clienthellod.Common.{
  ℕ, suc, ◌+◌, ◌^◌, ◌≤◌, ◌<◌, ◌≡◌, ◌≢◌, sym, arith, false, none, some, List, [], ◌∷◌, length, All,
  ◌==◌, Bool-cases, inl, inr, subst,
}
use clienthellod.Reconstructor.{Fragment, lookup, delete, overlaps_one, overlaps}

abbrev pub len : Fragment → ℕ
len x = length x.1

abbrev pub end : Fragment → ℕ
end x = x.0 + len x

-- Different offsets, and neither reaches over the other's start.
pub record Separate (x y : Fragment) : Type 0 where
  pub offsets : x.0 ≢ y.0
  pub before : x.0 < y.0 → end x ≤ y.0
  pub behind : y.0 < x.0 → end y ≤ x.0

abbrev pub Apart : List Fragment → Type 0
Apart [] = Unit {0}
Apart (x ∷ xs) = All (Separate x) xs × Apart xs

pub Separate-sym : (x y : Fragment) → Separate x y → Separate y x
Separate-sym x y s = record {
  offsets = λ e. s.offsets (sym e);
  before = s.behind;
  behind = s.before;
}

pub All-delete {κ} :
    (P : Fragment → Type κ) (off : ℕ) (fs : List Fragment) → All P fs → All P (delete off fs)
unfolding delete
All-delete P off [] h = h
All-delete P off ((o, f) ∷ fs) h = ground (arith, All-delete P off fs h.1)

pub All-lookup {κ} :
    (P : Fragment → Type κ) (off : ℕ) (fs : List Fragment) {f : List ℕ}
    → lookup off fs ≡ some f
    → All P fs
    → P (off, f)
unfolding lookup
All-lookup P off [] e h = cc
All-lookup P off ((o, g) ∷ fs) {f} e h = ground (arith, All-lookup P off fs {f = f})

pub Apart-delete : (off : ℕ) (fs : List Fragment) → Apart fs → Apart (delete off fs)
unfolding delete
Apart-delete off [] h = h
Apart-delete off ((o, f) ∷ fs) h =
    ground (arith, Apart-delete off fs h.1, All-delete (Separate (o, f)) off fs h.0)

-- The fragment that was found is apart from those that stay.
pub lookup-Separate :
    (off : ℕ) (fs : List Fragment) {f : List ℕ}
    → lookup off fs ≡ some f
    → Apart fs
    → All (Separate (off, f)) (delete off fs)
unfolding lookup delete
lookup-Separate off [] e h = cc
lookup-Separate off ((o, g) ∷ fs) {f} e h = elim (Bool-cases (o == off)) [
  | inl y ↦
      let eo : o ≡ off = ground arith in
      let eg : g ≡ f = ground arith in
      rw (y, delete) (subst (λ x. All (Separate x) fs) (λ i. (eo i, eg i)) h.0)
  | inr n ↦
      let found : lookup off fs ≡ some f = ground arith in
      rw (n, delete)
        (
          Separate-sym (o, g) (off, f) (All-lookup (Separate (o, g)) off fs found h.0),
          lookup-Separate off fs found h.1,
        )
]

pub length-delete :
    (off : ℕ) (fs : List Fragment) {f : List ℕ}
    → lookup off fs ≡ some f
    → suc (length (delete off fs)) ≡ length fs
unfolding lookup delete
length-delete off [] e = cc
length-delete off ((o, g) ∷ fs) {f} e = ground (arith, length-delete off fs {f = f})

-- Past the check for duplicates and the overlap loop the new fragment is apart from all pending
-- ones, as long as no sum of an offset and a length wraps.
pub overlaps-Separate :
    (off : ℕ) (f : List ℕ) (fs : List Fragment)
    → lookup off fs ≡ none
    → overlaps off f fs ≡ false
    → off + length f < 2 ^ 64
    → All (λ y. end y < 2 ^ 64) fs
    → All (Separate (off, f)) fs
unfolding lookup overlaps
overlaps-Separate off f [] e h w hs = tt
overlaps-Separate off f ((o, g) ∷ fs) e h w hs =
    let far : (o == off) ≡ false = ground arith in
    let one : overlaps_one off f (o, g) ≡ false = ground arith in
    let fits = hs.0 in
    (
      record { offsets = ground arith; before = ground arith; behind = ground arith },
      overlaps-Separate off f fs (ground arith) (ground arith) w hs.1,
    )

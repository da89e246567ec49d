-- ===== src/Reconstructor/Packing.antt =====
-- quic_clienthello_reconstructor.go: the lengths of fragments that are apart.
use clienthellod.Common.{
  ℕ, zero, suc, ◌+◌, ◌≤◌, ◌<◌, ◌≡◌, refl, arith, List, [], ◌∷◌, length, All, All-both, All-map, ltb,
  if◌then◌else◌, Bool-cases, inl, inr,
}
use clienthellod.Reconstructor.{Reconstructor, Fragment, max_crypto_length}
use clienthellod.Reconstructor.Pending.{end, Separate, Apart}
use clienthellod.Reconstructor.Assemble.{Inv, total, held}

-- The fragments that start before `o`, and the others.
below : ℕ → List Fragment → List Fragment
below o [] = []
below o (x ∷ xs) = if ltb x.0 o then x ∷ below o xs else below o xs

above : ℕ → List Fragment → List Fragment
above o [] = []
above o (x ∷ xs) = if ltb x.0 o then above o xs else x ∷ above o xs

total-split : (o : ℕ) (xs : List Fragment) → total (below o xs) + total (above o xs) ≡ total xs
unfolding below above total
total-split o [] = refl
total-split o (x ∷ xs) = ground (arith, total-split o xs)

length-below : (o : ℕ) (xs : List Fragment) → length (below o xs) ≤ length xs
unfolding below
length-below o [] = omega arith
length-below o (x ∷ xs) = ground (arith, length-below o xs)

length-above : (o : ℕ) (xs : List Fragment) → length (above o xs) ≤ length xs
unfolding above
length-above o [] = omega arith
length-above o (x ∷ xs) = ground (arith, length-above o xs)

module _ {κ} (P : Fragment → Type κ) (o : ℕ) where
  All-below : (xs : List Fragment) → All P xs → All (λ x. P x × (x.0 < o)) (below o xs)
  unfolding below
  All-below [] h = tt
  All-below (x ∷ xs) h = elim (Bool-cases (ltb x.0 o)) [
    | inl y ↦ rw (y, below) ((h.0, ground arith), All-below xs h.1)
    | inr n ↦ rw (n, below) (All-below xs h.1)
  ]

  All-above : (xs : List Fragment) → All P xs → All (λ x. P x × (o ≤ x.0)) (above o xs)
  unfolding above
  All-above [] h = tt
  All-above (x ∷ xs) h = elim (Bool-cases (ltb x.0 o)) [
    | inl y ↦ rw (y, above) (All-above xs h.1)
    | inr n ↦ rw (n, above) ((h.0, ground arith), All-above xs h.1)
  ]

Apart-below : (o : ℕ) (xs : List Fragment) → Apart xs → Apart (below o xs)
unfolding below
Apart-below o [] h = tt
Apart-below o (x ∷ xs) h = elim (Bool-cases (ltb x.0 o)) [
  | inl y ↦
      rw (y, below) (All-map (λ y p. p.0) _ (All-below (Separate x) o xs h.0), Apart-below o xs h.1)
  | inr n ↦ rw (n, below) (Apart-below o xs h.1)
]

Apart-above : (o : ℕ) (xs : List Fragment) → Apart xs → Apart (above o xs)
unfolding above
Apart-above o [] h = tt
Apart-above o (x ∷ xs) h = elim (Bool-cases (ltb x.0 o)) [
  | inl y ↦ rw (y, above) (Apart-above o xs h.1)
  | inr n ↦
      rw (n, above) (All-map (λ y p. p.0) _ (All-above (Separate x) o xs h.0), Apart-above o xs h.1)
]

-- All between `lo` and `hi`.
abbrev pub Within : ℕ → ℕ → Fragment → Type 0
Within lo hi x = (lo ≤ x.0) × (end x ≤ hi)

packing_step :
    (n lo hi : ℕ) (xs : List Fragment)
    → length xs ≤ n
    → lo ≤ hi
    → Apart xs
    → All (Within lo hi) xs
    → lo + total xs ≤ hi
unfolding total
packing_step n lo hi [] l h a w = omega arith
packing_step zero lo hi (x ∷ xs) l h a w = absurd (omega arith)
packing_step (suc n) lo hi (x ∷ xs) l h (a, ap) (w, ws) =
    let both : All (λ y. Separate x y × Within lo hi y) xs = All-both (λ y s t. (s, t)) xs a ws in
    let left =
      packing_step n lo x.0 (below x.0 xs) (omega (arith, length-below x.0 xs)) w.0
        (Apart-below x.0 xs ap)
        (All-map (λ y ((s, t), b). (t.0, s.behind b)) (below x.0 xs) (All-below _ x.0 xs both)) in
    let right =
      packing_step n (end x) hi (above x.0 xs) (omega (arith, length-above x.0 xs)) w.1
        (Apart-above x.0 xs ap)
        (All-map (λ y ((s, t), b). (s.before (strictly y s b), t.1)) (above x.0 xs)
          (All-above _ x.0 xs both)) in
    omega (arith, left, right, total-split x.0 xs)
  where
    strictly : (y : Fragment) → Separate x y → x.0 ≤ y.0 → x.0 < y.0
    strictly y s b = let ne = s.offsets in omega arith

-- Fragments that are apart and lie between two offsets hold no more bytes than fit there.
pub total-le :
    (lo hi : ℕ) (xs : List Fragment)
    → lo ≤ hi
    → Apart xs
    → All (Within lo hi) xs
    → lo + total xs ≤ hi
total-le lo hi xs h a w = packing_step (length xs) lo hi xs (omega arith) h a w

-- Under the invariant the buffer and the pending fragments together hold at most 0x10000 bytes.
pub held-le : (q : Reconstructor) → Inv q → held q ≤ max_crypto_length
unfolding held
held-le q v =
    total-le (length q.buf) max_crypto_length q.frags v.filled v.apart
      (All-both (λ x a b. (omega arith, b)) q.frags v.ahead v.bounded)

-- A full buffer leaves nothing pending, and a pending fragment leaves a gap.
pub held-lt :
    (q : Reconstructor) (hi : ℕ)
    → Inv q
    → length q.buf < hi
    → All (λ x. end x ≤ hi) q.frags
    → held q < hi
unfolding held
held-lt q hi v l h = omega (
  arith,
  total-le (suc (length q.buf)) hi q.frags l v.apart (All-both (λ x a b. (a, b)) q.frags v.ahead h),
)

-- ===== src/Reconstructor/Keep.antt =====
-- quic_clienthello_reconstructor.go: bounds of the pending fragments, the room of a fragment that is
-- still to come, and the full length, across calls.
use clienthellod.Common.{
  ℕ, zero, suc, ◌+◌, ◌^◌, ◌≤◌, ◌<◌, ◌≡◌, refl, ◌∙◌, arith, false, none, List, [], ◌∷◌, length,
  length-append, All, All-map, Option-cases, inl, inr,
}
use clienthellod.Reconstructor.{
  Reconstructor, Fragment, lookup, overlaps_one, overlaps, refusal, assemble, save,
  max_crypto_length, max_crypto_fragments,
}
use clienthellod.Reconstructor.Pending.{end, Separate, All-delete, All-lookup, length-delete}
use clienthellod.Reconstructor.Assemble.{Inv, moved, total, held, held-assemble}
use clienthellod.Reconstructor.Invariant.{staged}

assemble-All {κ} :
    (P : Fragment → Type κ) (fuel : ℕ) (q : Reconstructor)
    → All P q.frags
    → All P (assemble fuel q).frags
unfolding assemble
assemble-All P zero q h = h
assemble-All P (suc fuel) q h = elim (Option-cases (lookup (length q.buf) q.frags)) [
  | inl e ↦ rw (e, assemble) h
  | inr (f, e) ↦
      rw (e, assemble) (assemble-All P fuel (moved q f) (All-delete P (length q.buf) q.frags h))
]

pub save-All {κ} :
    (P : Fragment → Type κ) (q : Reconstructor) (off : ℕ) (f : List ℕ)
    → P (off, f)
    → All P q.frags
    → All P (save q off f).frags
unfolding save
save-All P q off f p h = assemble-All P _ (staged q off f) (p, h)

assemble-full_len : (fuel : ℕ) (q : Reconstructor) → (assemble fuel q).full_len ≡ q.full_len
unfolding assemble
assemble-full_len zero q = refl
assemble-full_len (suc fuel) q = elim (Option-cases (lookup (length q.buf) q.frags)) [
  | inl e ↦ rw (e, assemble)
  | inr (f, e) ↦ rw (e, assemble) (assemble-full_len fuel (moved q f))
]

pub save-full_len :
    (q : Reconstructor) (off : ℕ) (f : List ℕ) → (save q off f).full_len ≡ q.full_len
unfolding save
save-full_len q off f = assemble-full_len _ (staged q off f)

length-assemble : (fuel : ℕ) (q : Reconstructor) → length (assemble fuel q).frags ≤ length q.frags
unfolding assemble
length-assemble zero q = omega arith
length-assemble (suc fuel) q = elim (Option-cases (lookup (length q.buf) q.frags)) [
  | inl e ↦ rw (e, assemble) (omega arith)
  | inr (f, e) ↦
      rw (e, assemble)
        (omega (arith, length-assemble fuel (moved q f), length-delete (length q.buf) q.frags e))
]

pub length-save :
    (q : Reconstructor) (off : ℕ) (f : List ℕ) → length (save q off f).frags ≤ length q.frags + 1
unfolding save
length-save q off f = omega (arith, length-assemble (suc (suc (length q.frags))) (staged q off f))

pub held-save : (q : Reconstructor) (off : ℕ) (f : List ℕ) → held (save q off f) ≡ held q + length f
unfolding save held total
held-save q off f = held-assemble (suc (suc (length q.frags))) (staged q off f) ∙ omega arith

-- A fragment that touches nothing held so far.
pub record Clear (q : Reconstructor) (c : Fragment) : Type 0 where
  pub behind : length q.buf ≤ c.0
  pub apart : All (Separate c) q.frags

assemble-Clear :
    (c : Fragment) (fuel : ℕ) (q : Reconstructor) → Clear q c → Clear (assemble fuel q) c
unfolding assemble
assemble-Clear c zero q h = h
assemble-Clear c (suc fuel) q h = elim (Option-cases (lookup (length q.buf) q.frags)) [
  | inl e ↦ rw (e, assemble) h
  | inr (f, e) ↦
      let s = All-lookup (Separate c) (length q.buf) q.frags e h.apart in
      rw (e, assemble)
        (assemble-Clear c fuel (moved q f) (record {
          behind = omega (arith, length-append q.buf f, s.offsets, s.behind, h.behind);
          apart = All-delete (Separate c) (length q.buf) q.frags h.apart;
        }))
]

-- It stays so when another fragment, apart from it, is saved.
pub save-Clear :
    (c : Fragment) (q : Reconstructor) (off : ℕ) (f : List ℕ)
    → Separate c (off, f)
    → Clear q c
    → Clear (save q off f) c
unfolding save
save-Clear c q off f s h =
    assemble-Clear c _ (staged q off f) (record { behind = h.behind; apart = (s, h.apart) })

lookup-Clear :
    (off : ℕ) (f : List ℕ) (fs : List Fragment) → All (Separate (off, f)) fs → lookup off fs ≡ none
unfolding lookup
lookup-Clear off f [] h = refl
lookup-Clear off f ((o, g) ∷ fs) h =
    let ne = h.0.offsets in ground (arith, lookup-Clear off f fs h.1)

overlaps-Clear :
    (off : ℕ) (f : List ℕ) (fs : List Fragment)
    → off + length f < 2 ^ 64
    → All (Separate (off, f)) fs
    → All (λ x. end x < 2 ^ 64) fs
    → overlaps off f fs ≡ false
unfolding overlaps
overlaps-Clear off f [] w h b = refl
overlaps-Clear off f ((o, g) ∷ fs) w h b =
    let s = h.0.before in
    let t = h.0.behind in
    let u = b.0 in
    let clear : overlaps_one off f (o, g) ≡ false = ground arith in
    rw (clear, overlaps) (overlaps-Clear off f fs w h.1 b.1)

-- A fragment that is clear, and lies below the maximal length, is not refused while there is room.
pub refusal-Clear :
    (q : Reconstructor) (off : ℕ) (f : List ℕ)
    → Inv q
    → Clear q (off, f)
    → off + length f ≤ max_crypto_length
    → length q.frags ≤ max_crypto_fragments
    → refusal q off f ≡ none
unfolding refusal
refusal-Clear q off f v c w few =
    let new = lookup-Clear off f q.frags c.apart in
    let clear =
      overlaps-Clear off f q.frags (omega arith) c.apart
        (All-map (λ x b. omega arith) q.frags v.bounded) in
    let behind = c.behind in rw (new, clear, refusal) (ground arith)

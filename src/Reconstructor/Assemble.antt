-- ===== src/Reconstructor/Assemble.antt =====
-- quic_clienthello_reconstructor.go: the loop of `AddCRYPTOFragment` that moves fragments to the
-- buffer.
use clienthellod.Common.{
  ℕ, zero, suc, ◌+◌, ◌≤◌, ◌<◌, ◌≡◌, ◌≢◌, refl, arith, none, some, List, [], ◌∷◌, ◌++◌, length,
  length-append, All, All-both, Option-cases, inl, inr,
}
use clienthellod.Reconstructor.{
  Reconstructor, Fragment, new_reconstructor, lookup, delete, assemble, max_crypto_length,
  max_crypto_fragments,
}
use clienthellod.Reconstructor.Pending.{
  len, end, Separate, Apart, All-delete, All-lookup, Apart-delete, lookup-Separate, length-delete,
}

-- Before `assemble`: the pending fragments are apart and start at or behind the end of the buffer.
pub record Staged (q : Reconstructor) : Type 0 where
  pub apart : Apart q.frags
  pub ahead : All (λ x. length q.buf ≤ x.0) q.frags
  pub bounded : All (λ x. end x ≤ max_crypto_length) q.frags
  pub filled : length q.buf ≤ max_crypto_length

-- Between calls: they are also strictly behind it, so that a byte is missing in between, all
-- bytes lie below 0x10000, and at most 33 fragments are pending.
pub record Inv (q : Reconstructor) : Type 0 where
  pub apart : Apart q.frags
  pub ahead : All (λ x. length q.buf < x.0) q.frags
  pub bounded : All (λ x. end x ≤ max_crypto_length) q.frags
  pub filled : length q.buf ≤ max_crypto_length
  pub few : length q.frags ≤ max_crypto_fragments + 1

pub new-Inv : Inv new_reconstructor
new-Inv = record { apart = tt; ahead = tt; bounded = tt; filled = omega arith; few = omega arith }

lookup-ne : (off : ℕ) (fs : List Fragment) → lookup off fs ≡ none → All (λ x. x.0 ≢ off) fs
unfolding lookup
lookup-ne off [] e = tt
lookup-ne off ((o, f) ∷ fs) e = (ground arith, lookup-ne off fs (ground arith))

-- The pending bytes.
unfoldable pub total : List Fragment → ℕ
total [] = 0
total (x ∷ xs) = len x + total xs

pub total-delete :
    (off : ℕ) (fs : List Fragment) {f : List ℕ}
    → lookup off fs ≡ some f
    → length f + total (delete off fs) ≡ total fs
unfolding lookup delete total
total-delete off [] e = cc
total-delete off ((o, g) ∷ fs) {f} e = ground (arith, total-delete off fs {f = f})

abbrev pub moved : Reconstructor → List ℕ → Reconstructor
moved q f = record q { buf = q.buf ++ f; frags = delete (length q.buf) q.frags }

pub moved-Staged :
    (q : Reconstructor) (f : List ℕ)
    → lookup (length q.buf) q.frags ≡ some f
    → Staged q
    → Staged (moved q f)
moved-Staged q f e s = record {
  apart = Apart-delete (length q.buf) q.frags s.apart;
  ahead =
      All-both (λ x p a. next x p a) (delete (length q.buf) q.frags)
        (lookup-Separate (length q.buf) q.frags e s.apart)
        (All-delete (λ x. length q.buf ≤ x.0) (length q.buf) q.frags s.ahead);
  bounded = All-delete (λ x. end x ≤ max_crypto_length) (length q.buf) q.frags s.bounded;
  filled = omega (
    arith,
    length-append q.buf f,
    All-lookup (λ x. end x ≤ max_crypto_length) (length q.buf) q.frags e s.bounded,
  );
}
  where
    next :
        (x : Fragment)
        → Separate (length q.buf, f) x
        → length q.buf ≤ x.0
        → length (q.buf ++ f) ≤ x.0
    next x p a = omega (arith, length-append q.buf f, p.offsets, p.before)

All-empty {κ} : (P : Fragment → Type κ) (fs : List Fragment) → length fs ≤ 0 → All P fs
All-empty P [] l = tt
All-empty P (x ∷ fs) l = absurd (omega arith)

pub assemble-Inv :
    (fuel : ℕ) (q : Reconstructor)
    → Staged q
    → length q.frags ≤ fuel
    → length q.frags ≤ max_crypto_fragments + 1
    → Inv (assemble fuel q)
unfolding assemble
assemble-Inv zero q s l few = record {
  apart = s.apart;
  ahead = All-empty (λ x. length q.buf < x.0) q.frags l;
  bounded = s.bounded;
  filled = s.filled;
  few = few;
}
assemble-Inv (suc fuel) q s l few = elim (Option-cases (lookup (length q.buf) q.frags)) [
  | inl e ↦
      rw (e, assemble)
        (record {
          apart = s.apart;
          ahead =
              All-both (λ x ne a. omega arith) q.frags (lookup-ne (length q.buf) q.frags e) s.ahead;
          bounded = s.bounded;
          filled = s.filled;
          few = few;
        })
  | inr (f, e) ↦
      let shorter = length-delete (length q.buf) q.frags e in
      rw (e, assemble)
        (assemble-Inv fuel (moved q f) (moved-Staged q f e s) (omega arith) (omega arith))
]

-- No byte is lost or made up by moving fragments to the buffer.
unfoldable pub held : Reconstructor → ℕ
held q = length q.buf + total q.frags

pub held-assemble : (fuel : ℕ) (q : Reconstructor) → held (assemble fuel q) ≡ held q
unfolding assemble held
held-assemble zero q = refl
held-assemble (suc fuel) q = elim (Option-cases (lookup (length q.buf) q.frags)) [
  | inl e ↦ rw (e, assemble)
  | inr (f, e) ↦
      rw (e, assemble)
        (omega (
          arith,
          held-assemble fuel (moved q f),
          length-append q.buf f,
          total-delete (length q.buf) q.frags e,
        ))
]

-- ===== src/Reconstructor/Invariant.antt =====
-- quic_clienthello_reconstructor.go: the well-formedness of the reconstructor.
use clienthellod.Common.{
  ℕ, ◌+◌, ◌^◌, ◌≤◌, ◌<◌, ◌≡◌, refl, arith, false, ◌&&◌, none, List, ◌∷◌, length, All, All-both, ltb,
  ◌==◌, Bool-cases, Option-cases, inl, inr,
}
use clienthellod.Reconstructor.{
  Reconstructor, lookup, overlaps, refusal, set_full_len, save, accept, add_crypto_fragment,
  max_crypto_length, max_crypto_fragments,
}
use clienthellod.Reconstructor.Pending.{end, Separate, overlaps-Separate}
use clienthellod.Reconstructor.Assemble.{Staged, Inv, assemble-Inv}

-- What a fragment has passed when it is saved.
pub record Passed (q : Reconstructor) (off : ℕ) (f : List ℕ) : Type 0 where
  pub apart : All (Separate (off, f)) q.frags
  pub behind : length q.buf ≤ off
  pub within : off + length f ≤ max_crypto_length
  pub room : length q.frags ≤ max_crypto_fragments

pub refusal-Passed :
    (q : Reconstructor) (off : ℕ) (f : List ℕ)
    → Inv q
    → off + length f < 2 ^ 64
    → refusal q off f ≡ none
    → Passed q off f
unfolding refusal
refusal-Passed q off f v w e =
    let new : lookup off q.frags ≡ none = ground arith in
    let clear : overlaps off f q.frags ≡ false = ground arith in
    record {
      apart = overlaps-Separate off f q.frags new clear w (
          All-both {Q = λ x. end x ≤ max_crypto_length} (λ x b c. omega arith) q.frags v.bounded
            v.bounded);
      behind = ground arith;
      within = ground arith;
      room = ground arith;
    }

abbrev pub staged : Reconstructor → ℕ → List ℕ → Reconstructor
staged q off f = record q { frags = (off, f) ∷ q.frags }

pub staged-Staged :
    (q : Reconstructor) (off : ℕ) (f : List ℕ) → Inv q → Passed q off f → Staged (staged q off f)
staged-Staged q off f v p = record {
  apart = (p.apart, v.apart);
  ahead = (
    p.behind,
    All-both {Q = λ x. length q.buf < x.0} (λ x a b. omega arith) q.frags v.ahead v.ahead,
  );
  bounded = (p.within, v.bounded);
  filled = v.filled;
}

pub save-Inv :
    (q : Reconstructor) (off : ℕ) (f : List ℕ) → Inv q → Passed q off f → Inv (save q off f)
unfolding save
save-Inv q off f v p =
    assemble-Inv _ (staged q off f) (staged-Staged q off f v p) (omega arith)
      (let r = p.room in omega arith)

pub set_full_len-same :
    (q : Reconstructor) → ((set_full_len q).buf ≡ q.buf) × ((set_full_len q).frags ≡ q.frags)
unfolding set_full_len
set_full_len-same q = elim (Bool-cases (q.full_len == 0 && ltb 4 (length q.buf))) [
  | inl y ↦ rw y (refl, refl)
  | inr n ↦ rw n (refl, refl)
]

pub set_full_len-Inv : (q : Reconstructor) → Inv q → Inv (set_full_len q)
unfolding set_full_len
set_full_len-Inv q v = elim (Bool-cases (q.full_len == 0 && ltb 4 (length q.buf))) [
  | inl y ↦ rw y (record {
    apart = v.apart;
    ahead = v.ahead;
    bounded = v.bounded;
    filled = v.filled;
    few = v.few;
  })
  | inr n ↦ rw n v
]

-- Whatever `AddCRYPTOFragment` answers, the reconstructor keeps its invariant, for an offset and a
-- length whose sum does not wrap: the pending fragments do not overlap one another or the buffer,
-- a byte is missing between the buffer and each of them, all bytes held lie below 0x10000, and at
-- most 33 fragments are pending.
pub add_crypto_fragment-Inv :
    (q : Reconstructor) (off : ℕ) (f : List ℕ)
    → off + length f < 2 ^ 64
    → Inv q
    → Inv (add_crypto_fragment q off f).0
unfolding add_crypto_fragment accept
add_crypto_fragment-Inv q off f w v = elim (Option-cases (refusal q off f)) [
  | inl e ↦
      rw (e, add_crypto_fragment)
        (set_full_len-Inv (save q off f) (save-Inv q off f v (refusal-Passed q off f v w e)))
  | inr (x, e) ↦ rw (e, add_crypto_fragment) v
]

-- ===== src/Vli/Rfc.antt =====
-- quic_common.go: `ReadNextVLI` and the format of RFC 9000, section 16.
use clienthellod.Common.{
  ℕ, zero, suc, ◌-◌, ◌%◌, ◌≤◌, ◌≡◌, refl, ap, ◌∙◌, arith, Bool, Bool-cases, inl, inr, Option, none,
  some, List, [], ◌∷◌, length, take, drop, All, leb, if◌then◌else◌,
}
use clienthellod.Outcome.{Result, ok}
use clienthellod.Reader.{Reader, content, fill}
use clienthellod.Reader.Laws.{Drained, Ready, Agrees, both_ok, both_err, both_panic}
use clienthellod.Vli.{read_next_vli}
use clienthellod.Vli.Laws.{
  IsByte, width, big_endian, width_bounds, spec_rest, spec_vli, read_next_vli-Agrees,
}

-- A whole integer: nothing is read where a byte of the integer is missing.
unfoldable pub rfc_vli : List ℕ → Option ((ℕ × ℕ) × List ℕ)
rfc_vli [] = none
rfc_vli (b ∷ s) =
    if leb (width b - 1) (length s)
    then some ((big_endian (b % 64) (take (width b - 1) s), width b), drop (width b - 1) s)
    else none

fill-whole : (n : ℕ) (bs : List ℕ) → n ≤ length bs → fill n bs ≡ take n bs
fill-whole zero bs h = refl
fill-whole (suc n) [] h = absurd (omega arith)
fill-whole (suc n) (b ∷ bs) h = ap (λ l. b ∷ l) (fill-whole n bs (omega arith))

-- Where no byte is missing the padding is not used.
spec_rest-whole :
    (b w : ℕ) (s : List ℕ)
    → 1 ≤ w
    → w - 1 ≤ length s
    → spec_rest b w s ≡ ok ((big_endian (b % 64) (take (w - 1) s), w), drop (w - 1) s)
unfolding spec_rest
spec_rest-whole b zero s h enough = absurd (omega arith)
spec_rest-whole b (suc zero) s h enough = refl
spec_rest-whole b (suc (suc n)) [] h enough = absurd (omega arith)
spec_rest-whole b (suc (suc n)) (c ∷ s) h enough =
    let left : suc (suc n) - 1 ≡ suc n = omega arith in
    rw left (
      ap (λ l. ok ((big_endian (b % 64) l, suc (suc n)), drop (suc n) (c ∷ s)))
        (fill-whole (suc n) (c ∷ s) (omega arith)))

as_result :
    {x : Option ((ℕ × ℕ) × List ℕ)} {p q : (ℕ × ℕ) × List ℕ} → x ≡ some p → x ≡ some q → ok p ≡ ok q
as_result d e = cc

rfc_vli-some :
    (s : List ℕ) (v : ℕ × ℕ) (t : List ℕ) → rfc_vli s ≡ some (v, t) → spec_vli s ≡ ok (v, t)
unfolding rfc_vli spec_vli
rfc_vli-some [] v t e = cc
rfc_vli-some (b ∷ s) v t e = elim (Bool-cases (leb (width b - 1) (length s))) [
  | inl whole ↦
      let known : rfc_vli (b ∷ s)
          ≡ some ((big_endian (b % 64) (take (width b - 1) s), width b), drop (width b - 1) s) =
        rw (whole, rfc_vli) refl in
      spec_rest-whole b (width b) s (width_bounds b).0 (ground arith) ∙ as_result known e
  | inr short ↦ let known : rfc_vli (b ∷ s) ≡ none = rw (short, rfc_vli) refl in cc
]

ok-Agrees :
    {A : Type 0} {P : Reader → Type 0} {m : Result (A × Reader)} {f : Result (A × List ℕ)} (v : A)
    (t : List ℕ)
    → Agrees P m f
    → f ≡ ok (v, t)
    → (r : Reader) × (m ≡ ok (v, r)) × (content r ≡ t)
ok-Agrees v t (both_ok a r p q d) e =
    let same : (a ≡ v) × (content r ≡ t) = (cc, cc) in (r, p ∙ ap (λ x. ok (x, r)) same.0, same.1)
ok-Agrees v t (both_err x p q) e = cc
ok-Agrees v t (both_panic p q) e = cc

-- `ReadNextVLI` over a reader that is drained, or has one byte put back over a drained buffer: if
-- the stream of its bytes begins with a whole integer in the format of RFC 9000, the result is that
-- value and length, and the rest of the stream is left in the reader. In any case the result, value
-- or error, and what is left are those of the flat reading `spec_vli`, which pads an integer that
-- is cut off behind its second byte with zeros, against RFC 9000.
pub read_next_vli-rfc_vli :
    (k : Bool) (r : Reader)
    → Ready k r
    → All IsByte (content r)
    → Agrees (Drained k) (read_next_vli r) (spec_vli (content r))
      × ((v : ℕ × ℕ) (t : List ℕ)
          → rfc_vli (content r) ≡ some (v, t)
          → (r' : Reader) × (read_next_vli r ≡ ok (v, r')) × (content r' ≡ t))
read_next_vli-rfc_vli k r d h =
    let agrees = read_next_vli-Agrees k r d h in
    (agrees, λ v t e. ok-Agrees v t agrees (rfc_vli-some (content r) v t e))

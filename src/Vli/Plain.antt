-- ===== src/Vli/Plain.antt =====
-- quic_common.go: `ReadNextVLI` over a `bytes.Reader`.
use clienthellod.Common.{
  ℕ, ◌-◌, ◌≡◌, refl, ap, subst, true, false, if◌then◌else◌, Option, none, some, List, [], ◌∷◌, All,
  get_or, ltb,
}
use clienthellod.Outcome.{Result, ok, err, panic, stuck, ◌>>=◌}
use clienthellod.Reader.{
  Reader, content, bytes_reader, bytes_buffer, rewind_reader, read, read_into,
}
use clienthellod.Reader.Laws.{both_ok, both_err, both_panic}
use clienthellod.Vli.{vli_width, after_width, read_rest, decode_from, read_next_vli}
use clienthellod.Vli.Laws.{IsByte, spec_vli, read_next_vli-Agrees}

abbrev pub IsPlain : Reader → Type 0
IsPlain (bytes_reader s) = Unit {0}
IsPlain (bytes_buffer s) = ⊥
IsPlain (rewind_reader bs r) = ⊥

IsPlain-eq : (r : Reader) → IsPlain r → r ≡ bytes_reader (content r)
IsPlain-eq (bytes_reader s) h = refl
IsPlain-eq (bytes_buffer s) h = absurd h
IsPlain-eq (rewind_reader bs r) h = absurd h

-- A reader that comes back with a value is plain.
abbrev GivesPlain {ℓ} : {A : Type ℓ} → Result (A × Reader) → Type 0
GivesPlain (ok (a, r)) = IsPlain r
GivesPlain (err e) = Unit {0}
GivesPlain panic = Unit {0}
GivesPlain stuck = Unit {0}

>>=-GivesPlain {ℓ κ} :
    {A : Type ℓ} {B : Type κ} (d : Result (A × Reader)) (next : A × Reader → Result (B × Reader))
    → GivesPlain d
    → ((a : A) (r : Reader) → IsPlain r → GivesPlain (next (a, r)))
    → GivesPlain (d >>= next)
>>=-GivesPlain (ok (a, r)) next h k = k a r h
>>=-GivesPlain (err e) next h k = tt
>>=-GivesPlain panic next h k = tt
>>=-GivesPlain stuck next h k = tt

read_into-GivesPlain : (r : Reader) (n : ℕ) → IsPlain r → GivesPlain (read_into r n)
unfolding read_into read
read_into-GivesPlain (bytes_reader []) n h = tt
read_into-GivesPlain (bytes_reader (b ∷ bs)) n h = tt
read_into-GivesPlain (bytes_buffer s) n h = absurd h
read_into-GivesPlain (rewind_reader bs r) n h = absurd h

read_rest-GivesPlain : (r : Reader) (n : ℕ) → IsPlain r → GivesPlain (read_rest r n)
unfolding read_rest
read_rest-GivesPlain r n h =
    elim (ltb 1 n) as (λ t. GivesPlain (if t then read_into r (n - 1) else ok ([], r))) [
      | true ↦ read_into-GivesPlain r (n - 1) h
      | false ↦ h
    ]

after_width-GivesPlain :
    (b : ℕ) (r : Reader) (w : Option ℕ) → IsPlain r → GivesPlain (after_width b r w)
after_width-GivesPlain b r none h = tt
after_width-GivesPlain b r (some n) h =
    >>=-GivesPlain (read_rest r n) _ (read_rest-GivesPlain r n h) (λ more r' k. k)

read_next_vli-GivesPlain : (s : List ℕ) → GivesPlain (read_next_vli (bytes_reader s))
unfolding read_next_vli decode_from
read_next_vli-GivesPlain s =
    >>=-GivesPlain (read_into (bytes_reader s) 1) decode_from
      (read_into-GivesPlain (bytes_reader s) 1 tt)
      (λ a r k. after_width-GivesPlain (get_or a 0 0) r (vli_width (get_or a 0 0)) k)

-- The flat result with a reader for its rest.
abbrev pub as_reader {ℓ} : {A : Type ℓ} → Result (A × List ℕ) → Result (A × Reader)
as_reader (ok (a, t)) = ok (a, bytes_reader t)
as_reader (err e) = err e
as_reader panic = panic
as_reader stuck = stuck

-- Over a `bytes.Reader` the result is that of the flat stream, with the rest in a `bytes.Reader`.
pub read_next_vli-as_reader :
    (s : List ℕ) → All IsByte s → read_next_vli (bytes_reader s) ≡ as_reader (spec_vli s)
read_next_vli-as_reader s h = elim (read_next_vli-Agrees false (bytes_reader s) (tt, tt) h) [
  | both_ok a r p q d ↦
      let plain = IsPlain-eq r (subst GivesPlain p (read_next_vli-GivesPlain s)) in
      rw (p, q) (ap (λ v. ok (a, v)) plain)
  | both_err x p q ↦ rw (p, q) refl
  | both_panic p q ↦ rw (p, q) refl
]

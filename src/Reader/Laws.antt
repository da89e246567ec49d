-- ===== src/Reader/Laws.antt =====
-- internal/utils/rewindreader.go: a stack of rewinding readers and the flat stream of its bytes.
use clienthellod.Common.{
  ℕ, zero, suc, ◌≡◌, refl, ap, sym, ◌∙◌, Bool, true, false, Option, none, some, List, [], ◌∷◌, take,
  drop,
}
use clienthellod.Outcome.{Error, eof, Result, ok, err, panic, ◌>>=◌}
use clienthellod.Reader.{
  Reader, bytes_reader, bytes_buffer, rewind_reader, Read, rewind_read, read, content, fill,
  outcome, read_into,
}

-- No byte waits in a rewinding layer.
abbrev pub IsDrained : Reader → Type 0
IsDrained (bytes_reader s) = Unit {0}
IsDrained (bytes_buffer s) = Unit {0}
IsDrained (rewind_reader [] r) = IsDrained r
IsDrained (rewind_reader (b ∷ bs) r) = ⊥

-- The bottom of the stack is a `bytes.Buffer`.
abbrev pub IsBuffered : Reader → Type 0
IsBuffered (bytes_reader s) = ⊥
IsBuffered (bytes_buffer s) = Unit {0}
IsBuffered (rewind_reader bs r) = IsBuffered r

-- The flat reading of `n + 1` bytes.
abbrev pub flat_failed : List ℕ → Option Error
flat_failed [] = some eof
flat_failed (b ∷ bs) = none

-- What a read of at least one byte from a drained reader does.
pub record Reads (r : Reader) (n : ℕ) (d : Read) : Type 0 where
  pub got_lem : d.got ≡ take n (content r)
  pub failed_lem : d.failed ≡ flat_failed (content r)
  pub rest_lem : content d.rest ≡ drop n (content r)
  pub rest-IsDrained : IsDrained d.rest

pub read-Reads : (r : Reader) (n : ℕ) → IsDrained r → Reads r (suc n) (read r (suc n))
unfolding read
read-Reads (bytes_reader []) n h = record {
  got_lem = refl;
  failed_lem = refl;
  rest_lem = refl;
  rest-IsDrained = tt;
}
read-Reads (bytes_reader (b ∷ bs)) n h = record {
  got_lem = refl;
  failed_lem = refl;
  rest_lem = refl;
  rest-IsDrained = tt;
}
read-Reads (bytes_buffer []) n h = record {
  got_lem = refl;
  failed_lem = refl;
  rest_lem = refl;
  rest-IsDrained = tt;
}
read-Reads (bytes_buffer (b ∷ bs)) n h = record {
  got_lem = refl;
  failed_lem = refl;
  rest_lem = refl;
  rest-IsDrained = tt;
}
read-Reads (rewind_reader [] r) n h =
    let ih = read-Reads r n h in
    record {
      got_lem = ih.got_lem;
      failed_lem = ih.failed_lem;
      rest_lem = ih.rest_lem;
      rest-IsDrained = ih.rest-IsDrained;
    }
read-Reads (rewind_reader (b ∷ bs) r) n h = absurd h

rewind_read-IsBuffered :
    (front left : List ℕ) (r : Reader) (more : Read)
    → IsBuffered r
    → IsBuffered more.rest
    → IsBuffered (rewind_read front left r more).rest
unfolding rewind_read
rewind_read-IsBuffered front [] r more h k = k
rewind_read-IsBuffered front (b ∷ left) r more h k = h

-- A read keeps the bottom of the stack.
pub read-IsBuffered : (r : Reader) (n : ℕ) → IsBuffered r → IsBuffered (read r n).rest
unfolding read
read-IsBuffered (bytes_reader s) n h = absurd h
read-IsBuffered (bytes_buffer []) zero h = tt
read-IsBuffered (bytes_buffer []) (suc n) h = tt
read-IsBuffered (bytes_buffer (b ∷ bs)) n h = tt
read-IsBuffered (rewind_reader [] r) n h = read-IsBuffered r n h
read-IsBuffered (rewind_reader (b ∷ bs) r) n h =
    rewind_read-IsBuffered _ (drop n (b ∷ bs)) r _ h (read-IsBuffered r _ h)

-- A read into an empty slice does nothing, where a buffer lies underneath.
read_nothing :
    (r : Reader)
    → IsBuffered r
    → IsDrained r
    → ((read r 0).got ≡ [])
      × ((read r 0).failed ≡ none)
      × (content (read r 0).rest ≡ content r)
      × IsDrained (read r 0).rest
unfolding read
read_nothing (bytes_reader s) b d = absurd b
read_nothing (bytes_buffer []) b d = (refl, refl, refl, tt)
read_nothing (bytes_buffer (x ∷ s)) b d = (refl, refl, refl, tt)
read_nothing (rewind_reader [] r) b d = read_nothing r b d
read_nothing (rewind_reader (x ∷ bs) r) b d = absurd d

-- Drained, or one byte put back over a drained buffer: what the frame parser hands on.
abbrev pub IsReady : Reader → Type 0
IsReady (bytes_reader s) = Unit {0}
IsReady (bytes_buffer s) = Unit {0}
IsReady (rewind_reader [] r) = IsDrained r
IsReady (rewind_reader (b ∷ []) r) = IsBuffered r × IsDrained r
IsReady (rewind_reader (b ∷ c ∷ bs) r) = ⊥

pub IsReady-of_IsDrained : (r : Reader) → IsDrained r → IsReady r
IsReady-of_IsDrained (bytes_reader s) h = tt
IsReady-of_IsDrained (bytes_buffer s) h = tt
IsReady-of_IsDrained (rewind_reader [] r) h = h
IsReady-of_IsDrained (rewind_reader (b ∷ bs) r) h = absurd h

-- The read of one byte takes the byte that was put back first, and leaves a drained reader.
pub read_one-Reads : (r : Reader) → IsReady r → Reads r 1 (read r 1)
unfolding read
read_one-Reads (bytes_reader s) h = read-Reads (bytes_reader s) 0 h
read_one-Reads (bytes_buffer s) h = read-Reads (bytes_buffer s) 0 h
read_one-Reads (rewind_reader [] r) h = read-Reads (rewind_reader [] r) 0 h
read_one-Reads (rewind_reader (b ∷ []) r) h =
    let z = read_nothing r h.0 h.1 in
    record { got_lem = ap (◌∷◌ b) z.0; failed_lem = z.1; rest_lem = z.2; rest-IsDrained = z.3 }
read_one-Reads (rewind_reader (b ∷ c ∷ bs) r) h = absurd h

-- `read_into` over the flat stream: the bytes, padded with zeros, and what is left of the stream.
unfoldable pub flat_read : ℕ → List ℕ → Result (List ℕ × List ℕ)
flat_read n [] = err eof
flat_read n (b ∷ bs) = ok (fill n (b ∷ bs), drop n (b ∷ bs))

-- `true` asks for a buffer at the bottom, `false` for nothing.
abbrev pub IsOver : Bool → Reader → Type 0
IsOver true r = IsBuffered r
IsOver false r = Unit {0}

pub read-IsOver : (k : Bool) (r : Reader) (n : ℕ) → IsOver k r → IsOver k (read r n).rest
read-IsOver true r n h = read-IsBuffered r n h
read-IsOver false r n h = tt

abbrev pub Drained : Bool → Reader → Type 0
Drained k r = IsDrained r × IsOver k r

abbrev pub Ready : Bool → Reader → Type 0
Ready k r = IsReady r × IsOver k r

-- A reader's result is that of the flat stream, and its reader meets `P`.
pub data Agrees {ℓ} {A : Type ℓ} (P : Reader → Type 0) (m : Result (A × Reader))
    (f : Result (A × List ℕ)) : Type ℓ where
  both_ok : (a : A) (r : Reader) → m ≡ ok (a, r) → f ≡ ok (a, content r) → P r → Agrees P m f
  both_err : (e : Error) → m ≡ err e → f ≡ err e → Agrees P m f
  both_panic : m ≡ panic → f ≡ panic → Agrees P m f

pub Agrees-bind {ℓ κ} :
    {A : Type ℓ} {B : Type κ} {P Q : Reader → Type 0} {m : Result (A × Reader)}
    {f : Result (A × List ℕ)} (next : A × Reader → Result (B × Reader))
    (flat : A × List ℕ → Result (B × List ℕ))
    → Agrees P m f
    → ((a : A) (r : Reader)
        → f ≡ ok (a, content r)
        → P r
        → Agrees Q (next (a, r)) (flat (a, content r)))
    → Agrees Q (m >>= next) (f >>= flat)
Agrees-bind next flat (both_ok a r p q h) step = rw (p, q) (step a r q h)
Agrees-bind next flat (both_err e p q) step = rw (p, q) (both_err e refl refl)
Agrees-bind next flat (both_panic p q) step = rw (p, q) (both_panic refl refl)

fill-take : (n : ℕ) (bs : List ℕ) → fill n (take n bs) ≡ fill n bs
fill-take zero bs = refl
fill-take (suc n) [] = refl
fill-take (suc n) (b ∷ bs) = ap (◌∷◌ b) (fill-take n bs)

Reads-Agrees :
    (k : Bool) (r : Reader) (n : ℕ) (d : Read) (s : List ℕ)
    → content r ≡ s
    → Reads r n d
    → IsOver k d.rest
    → Agrees (Drained k) (outcome n d) (flat_read n s)
unfolding flat_read
Reads-Agrees k r n d [] e h o = both_err eof (rw (h.failed_lem, e, outcome)) refl
Reads-Agrees k r n d (b ∷ bs) e h o =
    both_ok (fill n (b ∷ bs)) d.rest
      (rw (h.failed_lem, e, h.got_lem, outcome)
        (ap (λ x. ok (fill n (take n x), d.rest)) e
          ∙ ap (λ x. ok (x, d.rest)) (fill-take n (b ∷ bs))))
      (ap (λ x. ok (fill n (b ∷ bs), x)) (ap (drop n) (sym e) ∙ sym h.rest_lem))
      (h.rest-IsDrained, o)

pub read_into-Agrees :
    (k : Bool) (r : Reader) (n : ℕ)
    → Drained k r
    → Agrees (Drained k) (read_into r (suc n)) (flat_read (suc n) (content r))
unfolding read_into
read_into-Agrees k r n h =
    Reads-Agrees k r (suc n) _ _ refl (read-Reads r n h.0) (read-IsOver k r (suc n) h.1)

pub read_one-Agrees :
    (k : Bool) (r : Reader)
    → Ready k r
    → Agrees (Drained k) (read_into r 1) (flat_read 1 (content r))
unfolding read_into
read_one-Agrees k r h = Reads-Agrees k r 1 _ _ refl (read_one-Reads r h.0) (read-IsOver k r 1 h.1)

-- Nothing is wanted: over a buffer that is no error.
pub read_none-Agrees :
    (r : Reader) → Drained true r → Agrees (Drained true) (read_into r 0) (ok ([], content r))
unfolding read_into
read_none-Agrees r h =
    let z = read_nothing r h.1 h.0 in
    both_ok [] (read r 0).rest (rw (z.1, outcome)) (ap (λ t. ok ([], t)) (sym z.2))
      (z.3, read-IsBuffered r 0 h.1)

-- ===== src/Vli/Laws.antt =====
-- quic_common.go: `ReadNextVLI` over a reader, and flat readings of the same bytes.
use clienthellod.Common.{
  ℕ, zero, suc, ◌+◌, ◌-◌, ◌*◌, ◌%◌, ◌^◌, ◌≤◌, ◌<◌, ◌≡◌, refl, sym, ap, ◌∙◌, arith, Bool, true, some,
  List, [], ◌∷◌, length, drop, get_or, All, All-drop, length-drop, ltb, if◌then◌else◌, bit_and,
}
use clienthellod.Common.Bits.{bit_and_top_two, bit_and_low_six, bit_or_byte}
use clienthellod.Outcome.{Result, ok, err, ◌>>=◌, eof}
use clienthellod.Reader.{Reader, content, fill}
use clienthellod.Reader.Laws.{
  Drained, Ready, Agrees, Agrees-bind, both_ok, both_err, both_panic, flat_read, read_one-Agrees,
  read_into-Agrees,
}
use clienthellod.Vli.{vli_width, decode_loop, read_rest, decode_from, read_next_vli}

abbrev pub IsByte : ℕ → Type 0
IsByte b = b < 256

-- The two highest bits of the first byte are the logarithm of the length.
abbrev pub width : ℕ → ℕ
width b = if ltb b 64 then 1 else if ltb b 128 then 2 else if ltb b 192 then 4 else 8

-- Big-endian digits behind `acc`.
abbrev pub big_endian : ℕ → List ℕ → ℕ
big_endian acc [] = acc
big_endian acc (b ∷ bs) = big_endian (acc * 256 + b) bs

-- The rest of an integer of `w` bytes with the first byte `b`, as a flat reading of what the code
-- accepts: the six low bits of `b` and then `w - 1` bytes of the stream. RFC 9000 wants all of them;
-- here the stream must have one at least, and is padded with zeros.
unfoldable pub spec_rest : ℕ → ℕ → List ℕ → Result ((ℕ × ℕ) × List ℕ)
spec_rest b (suc (suc n)) [] = err eof
spec_rest b (suc (suc n)) (c ∷ s) =
    ok ((big_endian (b % 64) (fill (suc n) (c ∷ s)), suc (suc n)), drop (suc n) (c ∷ s))
spec_rest b w s = ok ((b % 64, w), s)

-- The flat reading, with padding.
unfoldable pub spec_vli : List ℕ → Result ((ℕ × ℕ) × List ℕ)
spec_vli [] = err eof
spec_vli (b ∷ s) = spec_rest b (width b) s

vli_width-width : (b : ℕ) → IsByte b → vli_width b ≡ some (width b)
unfolding vli_width
vli_width-width b h = ground (arith, bit_and_top_two b h)

pub big_endian-ge : (bs : List ℕ) (acc : ℕ) → acc ≤ big_endian acc bs
big_endian-ge [] acc = omega arith
big_endian-ge (b ∷ bs) acc = omega (arith, big_endian-ge bs (acc * 256 + b))

-- `n` digits in front of a bound.
abbrev pub grow : ℕ → ℕ → ℕ
grow zero k = k
grow (suc n) k = grow n (k * 256)

pub big_endian-lt-grow :
    (bs : List ℕ) (acc k : ℕ) → All IsByte bs → acc < k → big_endian acc bs < grow (length bs) k
big_endian-lt-grow [] acc k h lt = lt
big_endian-lt-grow (b ∷ bs) acc k h lt =
    big_endian-lt-grow bs (acc * 256 + b) (k * 256) h.1 (let hb = h.0 in omega arith)

pub grow_mono : (n m k : ℕ) → n ≤ m → grow n k ≤ grow m k
grow_mono zero zero k h = omega arith
grow_mono zero (suc m) k h = omega (arith, grow-ge m (k * 256))
  where
    grow-ge : (m k : ℕ) → k ≤ grow m k
    grow-ge zero k = omega arith
    grow-ge (suc m) k = omega (arith, grow-ge m (k * 256))
grow_mono (suc n) zero k h = absurd (omega arith)
grow_mono (suc n) (suc m) k h = grow_mono n m (k * 256) (omega arith)

-- Up to seven bytes behind six bits stay below 2 ^ 62.
pub big_endian-lt :
    (b : ℕ) (bs : List ℕ) → All IsByte bs → length bs ≤ 7 → big_endian (b % 64) bs < 2 ^ 62
big_endian-lt b bs h l =
    omega (arith, big_endian-lt-grow bs (b % 64) 64 h (omega arith), grow_mono (length bs) 7 64 l)

-- The loop on `uint64` computes the number, as long as that fits.
pub decode_loop-big_endian :
    (bs : List ℕ) (val : ℕ)
    → All IsByte bs
    → big_endian val bs < 2 ^ 64
    → decode_loop val bs ≡ big_endian val bs
unfolding decode_loop
decode_loop-big_endian [] val h fits = refl
decode_loop-big_endian (b ∷ bs) val h fits =
    let low : val * 256 + b < 2 ^ 64 = omega (arith, big_endian-ge bs (val * 256 + b)) in
    let whole : val * 256 % 2 ^ 64 ≡ val * 256 = omega arith in
    rw (whole, bit_or_byte val b h.0) (decode_loop-big_endian bs (val * 256 + b) h.1 fits)

decoded :
    (b : ℕ) (bs : List ℕ)
    → IsByte b
    → All IsByte bs
    → length bs ≤ 7
    → decode_loop 0 (bit_and b 0x3f ∷ bs) ≡ big_endian (b % 64) bs
decoded b bs hb h l = rw (bit_and_low_six b hb) (looped ∙ ap (λ t. big_endian t bs) start)
  where
    start : 0 * 256 + b % 64 ≡ b % 64
    start = omega arith

    fits : big_endian (0 * 256 + b % 64) bs < 2 ^ 64
    fits = rw start (omega (arith, big_endian-lt b bs h l))

    looped : decode_loop 0 (b % 64 ∷ bs) ≡ big_endian (0 * 256 + b % 64) bs
    looped = decode_loop-big_endian (b % 64 ∷ bs) 0 (omega arith, h) fits

pub fill-IsByte : (n : ℕ) (bs : List ℕ) → All IsByte bs → All IsByte (fill n bs)
fill-IsByte zero bs h = tt
fill-IsByte (suc n) [] h = (omega arith, fill-IsByte n [] tt)
fill-IsByte (suc n) (b ∷ bs) h = (h.0, fill-IsByte n bs h.1)

pub length-fill : (n : ℕ) (bs : List ℕ) → length (fill n bs) ≡ n
length-fill zero bs = refl
length-fill (suc n) [] = ap suc (length-fill n [])
length-fill (suc n) (b ∷ bs) = ap suc (length-fill n bs)

pub flat_read-IsByte :
    (n : ℕ) (s a t : List ℕ)
    → All IsByte s
    → flat_read n s ≡ ok (a, t)
    → All IsByte a × All IsByte t × (length a ≡ n)
unfolding flat_read
flat_read-IsByte n [] a t h e = cc
flat_read-IsByte n (b ∷ bs) a t h e =
    let ea : fill n (b ∷ bs) ≡ a = cc in
    let et : drop n (b ∷ bs) ≡ t = cc in
    rw (← ea, ← et) (fill-IsByte n (b ∷ bs) h, All-drop IsByte n (b ∷ bs) h, length-fill n (b ∷ bs))

spec_rest-bind :
    (b n : ℕ) (s : List ℕ)
    → spec_rest b (suc (suc n)) s
      ≡ (flat_read (suc n) s >>= λ p. ok ((big_endian (b % 64) p.0, suc (suc n)), p.1))
unfolding spec_rest flat_read
spec_rest-bind b n [] = refl
spec_rest-bind b n (c ∷ s) = refl

abbrev spec_from : List ℕ × List ℕ → Result ((ℕ × ℕ) × List ℕ)
spec_from p = spec_rest (get_or p.0 0 0) (width (get_or p.0 0 0)) p.1

spec_vli-bind : (s : List ℕ) → spec_vli s ≡ (flat_read 1 s >>= spec_from)
unfolding spec_vli flat_read
spec_vli-bind [] = refl
spec_vli-bind (b ∷ s) = refl

-- What follows the first byte `b` of an integer of `w` bytes.
rest-Agrees :
    (k : Bool) (b w : ℕ) (r : Reader)
    → IsByte b
    → All IsByte (content r)
    → 1 ≤ w
    → w ≤ 8
    → Drained k r
    → Agrees
        (Drained k)
        (read_rest r w >>= λ p. ok ((decode_loop 0 (bit_and b 0x3f ∷ p.0), w), p.1))
        (spec_rest b w (content r))
unfolding read_rest spec_rest
rest-Agrees k b zero r hb h lo hi d = absurd (omega arith)
rest-Agrees k b (suc zero) r hb h lo hi d =
    both_ok (b % 64, 1) r (rw (decoded b [] hb tt (omega arith))) refl d
rest-Agrees k b (suc (suc n)) r hb h lo hi d =
    let short : ltb 1 (suc (suc n)) ≡ true = ground arith in
    let left : suc (suc n) - 1 ≡ suc n = omega arith in
    rw (short, left, spec_rest-bind b n (content r))
      (Agrees-bind _ _ (read_into-Agrees k r n d) (λ a r' q d'.
        let (ha, ht, la) = flat_read-IsByte (suc n) (content r) a (content r') h q in
        both_ok (big_endian (b % 64) a, suc (suc n)) r'
          (ap (λ v. ok ((v, suc (suc n)), r')) (decoded b a hb ha (omega arith))) refl d'))

pub width_bounds : (b : ℕ) → (1 ≤ width b) × (width b ≤ 8)
width_bounds b = ground arith

from-Agrees :
    (k : Bool) (a : List ℕ) (r : Reader)
    → IsByte (get_or a 0 0)
    → All IsByte (content r)
    → Drained k r
    → Agrees (Drained k) (decode_from (a, r)) (spec_from (a, content r))
unfolding decode_from
from-Agrees k a r ha h d =
    let b = get_or a 0 0 in
    rw (vli_width-width b ha, decode_from)
      (rest-Agrees k b (width b) r ha h (width_bounds b).0 (width_bounds b).1 d)

pub head-IsByte : (a : List ℕ) → All IsByte a → IsByte (get_or a 0 0)
head-IsByte [] h = omega arith
head-IsByte (b ∷ a) h = h.0

pub read_next_vli-Agrees :
    (k : Bool) (r : Reader)
    → Ready k r
    → All IsByte (content r)
    → Agrees (Drained k) (read_next_vli r) (spec_vli (content r))
unfolding read_next_vli
read_next_vli-Agrees k r d h = rw (spec_vli-bind (content r)) (
    Agrees-bind _ _ (read_one-Agrees k r d) (λ a r' q d'.
      let (ha, ht, la) = flat_read-IsByte 1 (content r) a (content r') h q in
      from-Agrees k a r' (head-IsByte a ha) ht d'))

-- A number below 2 ^ 62, the announced length, and a rest that is shorter than the stream and
-- consists of bytes: what is behind that length, or nothing.
pub record VliBounds (s : List ℕ) (v n : ℕ) (t : List ℕ) : Type 0 where
  pub value_lt : v < 2 ^ 62
  pub length_lem : n ≡ width (get_or s 0 0)
  pub rest_lem : t ≡ drop n s
  pub rest-IsByte : All IsByte t
  pub shorter : length t < length s

spec_rest_bounds :
    (b w : ℕ) (s : List ℕ) (v n : ℕ) (t : List ℕ)
    → All IsByte s
    → w ≡ width b
    → w ≤ 8
    → 1 ≤ w
    → spec_rest b w s ≡ ok ((v, n), t)
    → VliBounds (b ∷ s) v n t
unfolding spec_rest
spec_rest_bounds b zero s v n t h e hi lo q = absurd (omega arith)
spec_rest_bounds b (suc zero) s v n t h e hi lo q =
    let (ev, en, et) : (b % 64 ≡ v) × (1 ≡ n) × (s ≡ t) = (cc, cc, cc) in
    record {
      value_lt = omega arith;
      length_lem = sym en ∙ e;
      rest_lem = sym et ∙ ap (λ n. drop n (b ∷ s)) en;
      rest-IsByte = rw (← et) h;
      shorter = rw (← et) (omega arith);
    }
spec_rest_bounds b (suc (suc m)) [] v n t h e hi lo q = cc
spec_rest_bounds b (suc (suc m)) (c ∷ s) v n t h e hi lo q =
    let ev : big_endian (b % 64) (fill (suc m) (c ∷ s)) ≡ v = cc in
    let en : suc (suc m) ≡ n = cc in
    let et : drop (suc m) (c ∷ s) ≡ t = cc in
    record {
      value_lt = rw (← ev) (
          big_endian-lt b (fill (suc m) (c ∷ s)) (fill-IsByte (suc m) (c ∷ s) h)
            (omega (arith, length-fill (suc m) (c ∷ s))));
      length_lem = sym en ∙ e;
      rest_lem = sym et ∙ ap (λ n. drop n (b ∷ c ∷ s)) en;
      rest-IsByte = rw (← et) (All-drop IsByte m s h.1);
      shorter = rw (← et) (omega (arith, length-drop m s));
    }

pub spec_vli_bounds :
    (s : List ℕ) (v n : ℕ) (t : List ℕ)
    → All IsByte s
    → spec_vli s ≡ ok ((v, n), t)
    → VliBounds s v n t
unfolding spec_vli
spec_vli_bounds [] v n t h q = cc
spec_vli_bounds (b ∷ s) v n t h q =
    spec_rest_bounds b (width b) s v n t h.1 refl (width_bounds b).1 (width_bounds b).0 q

-- A successful `ReadNextVLI` over a reader that is drained, or has one byte put back over a drained
-- buffer, returns a value below 2 ^ 62 with the length that the two highest bits of the first byte
-- announce, takes at least one byte, leaves what the stream has behind that length, or nothing
-- where the stream is shorter, and leaves the reader drained.
pub read_next_vli_bounds :
    (k : Bool) (r : Reader) (v n : ℕ) (r' : Reader)
    → Ready k r
    → All IsByte (content r)
    → read_next_vli r ≡ ok ((v, n), r')
    → VliBounds (content r) v n (content r') × Drained k r'
read_next_vli_bounds k r v n r' d h e = elim (read_next_vli-Agrees k r d h) [
  | both_ok a u p q d' ↦
      let ea : a ≡ (v, n) = cc in
      let er : u ≡ r' = cc in
      let vb : spec_vli (content r) ≡ ok ((v, n), content r') = rw (← ea, ← er) q in
      (spec_vli_bounds (content r) v n (content r') h vb, rw (← er) d')
  | both_err x p q ↦ cc
  | both_panic p q ↦ cc
]

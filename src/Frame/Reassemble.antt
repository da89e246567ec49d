-- ===== src/Frame/Reassemble.antt =====
-- quic_frame.go: `ReassembleCRYPTOFrames`, which sorts the CRYPTO frames of a packet by offset and
-- joins their data. Beside it, the fragments that a byte string is cut into.
use clienthellod.Common.{
  ℕ, suc, ◌+◌, ◌%◌, ◌^◌, ◌≤◌, ◌<◌, ◌≡◌, refl, ap, ap₂, sym, ◌∙◌, List, [], ◌∷◌, ◌++◌, length,
  length-append, append_assoc, append-nil, ◌==◌, if◌then◌else◌, if-cases, subst, All, All-map,
  arith,
}
use clienthellod.Outcome.{Result, ok, err, reassemble_failed}
use clienthellod.Frame.{Frame, padding, ping, crypto}
use clienthellod.Sort.{sort_by, IsSorted}
use clienthellod.Sort.Order.{IsDistinct, sort_by-Perm, sort_by-of_IsSorted}
use mathlib.Core.List.{Permᴰ}

-- The offset and the data of each CRYPTO frame.
abbrev pub crypto_frames : List Frame → List (ℕ × List ℕ)
crypto_frames [] = []
crypto_frames (padding n ∷ fs) = crypto_frames fs
crypto_frames (ping ∷ fs) = crypto_frames fs
crypto_frames (crypto off n bytes ∷ fs) = (off, bytes) ∷ crypto_frames fs

abbrev pub offset : ℕ × List ℕ → ℕ
offset c = c.0

-- The loop over the sorted frames: `first` is the offset of the first one.
unfoldable pub join_loop : ℕ → List ℕ → List (ℕ × List ℕ) → Result (List ℕ)
join_loop first reassembled [] = ok reassembled
join_loop first reassembled ((off, bytes) ∷ cs) =
    let rest = join_loop first (reassembled ++ bytes) cs in
    if (first + length reassembled) % 2 ^ 64 == off then rest else err reassemble_failed

-- Without a CRYPTO frame the result is a nil slice.
unfoldable pub reassemble_sorted : List (ℕ × List ℕ) → Result (List ℕ)
reassemble_sorted [] = ok []
reassemble_sorted ((off, bytes) ∷ cs) = join_loop off [] ((off, bytes) ∷ cs)

unfoldable pub reassemble_crypto_frames : List Frame → Result (List ℕ)
reassemble_crypto_frames frames = reassemble_sorted (sort_by offset (crypto_frames frames))

-- The pieces cut out of a string that starts at `off`, in order.
abbrev pub cut : ℕ → List (List ℕ) → List (ℕ × List ℕ)
cut off [] = []
cut off (p ∷ ps) = (off, p) ∷ cut (off + length p) ps

abbrev pub concat : List (List ℕ) → List ℕ
concat [] = []
concat (p ∷ ps) = p ++ concat ps

abbrev pub IsFilled : List ℕ → Type 0
IsFilled p = 0 < length p

cut_above : (low off : ℕ) (ps : List (List ℕ)) → low ≤ off → All (λ c. low ≤ offset c) (cut off ps)
cut_above low off [] h = tt
cut_above low off (p ∷ ps) h = (h, cut_above low (off + length p) ps (omega arith))

cut-IsSorted : (off : ℕ) (ps : List (List ℕ)) → IsSorted offset (cut off ps)
cut-IsSorted off [] = tt
cut-IsSorted off (p ∷ ps) =
    (cut_above off (off + length p) ps (omega arith), cut-IsSorted (off + length p) ps)

cut-IsDistinct : (off : ℕ) (ps : List (List ℕ)) → All IsFilled ps → IsDistinct offset (cut off ps)
cut-IsDistinct off [] h = tt
cut-IsDistinct off (p ∷ ps) h = (
  All-map {P = λ c. suc off ≤ offset c} (λ c le. omega arith) (cut (off + length p) ps)
      (cut_above (suc off) (off + length p) ps (omega (arith, h.0))),
  cut-IsDistinct (off + length p) ps h.1,
)

join_loop-cut :
    (first : ℕ) (acc : List ℕ) (ps : List (List ℕ))
    → first + length acc + length (concat ps) < 2 ^ 64
    → join_loop first acc (cut (first + length acc) ps) ≡ ok (acc ++ concat ps)
unfolding join_loop
join_loop-cut first acc [] h = ap ok (sym (append-nil acc))
join_loop-cut first acc (p ∷ ps) h =
    let here : first + length (acc ++ p) ≡ first + length acc + length p =
      omega (arith, length-append acc p) in
    let whole = length-append p (concat ps) in
    let ih = join_loop-cut first (acc ++ p) ps (omega arith) in
    if-cases (λ (r : Result (List ℕ)). r ≡ ok (acc ++ (p ++ concat ps)))
      ((first + length acc) % 2 ^ 64 == first + length acc)
      (λ e.
        subst (λ o. join_loop first (acc ++ p) (cut o ps) ≡ ok ((acc ++ p) ++ concat ps)) here ih
        ∙ ap ok (append_assoc acc p (concat ps)))
      (λ e. ground arith)

reassemble-cut :
    (off : ℕ) (ps : List (List ℕ))
    → off + length (concat ps) < 2 ^ 64
    → reassemble_sorted (cut off ps) ≡ ok (concat ps)
unfolding reassemble_sorted
reassemble-cut off [] h = refl
reassemble-cut off (p ∷ ps) h =
    subst (λ o. join_loop off [] (cut o (p ∷ ps)) ≡ ok (p ++ concat ps)) (omega arith)
      (join_loop-cut off [] (p ∷ ps) (omega arith))

-- A string is cut into pieces that are not empty, and each is the data of a CRYPTO frame at its
-- offset; the string ends below 2^64. In whatever order the frames are, among frames of other
-- types, ReassembleCRYPTOFrames gives back the string.
pub reassemble_crypto_frames-cut :
    (off : ℕ) (ps : List (List ℕ)) (frames : List Frame)
    → All IsFilled ps
    → off + length (concat ps) < 2 ^ 64
    → Permᴰ (cut off ps) (crypto_frames frames)
    → reassemble_crypto_frames frames ≡ ok (concat ps)
unfolding reassemble_crypto_frames
reassemble_crypto_frames-cut off ps frames f h p =
    ap reassemble_sorted (
      sym (sort_by-Perm offset p (cut-IsDistinct off ps f))
      ∙ sort_by-of_IsSorted offset (cut off ps) (cut-IsSorted off ps))
    ∙ reassemble-cut off ps h

-- The data alone.
abbrev pub parts : List (ℕ × List ℕ) → List (List ℕ)
parts [] = []
parts ((off, bytes) ∷ cs) = bytes ∷ parts cs

record Joined (first : ℕ) (acc : List ℕ) (cs : List (ℕ × List ℕ)) (out : List ℕ) : Type 0 where
  whole : out ≡ acc ++ concat (parts cs)
  places : cs ≡ cut (first + length acc) (parts cs)

join_loop-Joined :
    (first : ℕ) (acc : List ℕ) (cs : List (ℕ × List ℕ)) (out : List ℕ)
    → first + length out < 2 ^ 64
    → join_loop first acc cs ≡ ok out
    → Joined first acc cs out
unfolding join_loop
join_loop-Joined first acc [] out h e =
    let same : acc ≡ out = ground arith in
    record { whole = sym same ∙ sym (append-nil acc); places = refl }
join_loop-Joined first acc ((off, bytes) ∷ cs) out h e =
    if-cases (λ (r : Result (List ℕ)). r ≡ ok out → Joined first acc ((off, bytes) ∷ cs) out)
      ((first + length acc) % 2 ^ 64 == off)
      (λ t e'.
        let j = join_loop-Joined first (acc ++ bytes) cs out h e' in
        let all = j.whole ∙ append_assoc acc bytes (concat (parts cs)) in
        let l = ap length all ∙ length-append acc (bytes ++ concat (parts cs)) in
        let at : first + length acc ≡ off = ground arith in
        let next : first + length (acc ++ bytes) ≡ first + length acc + length bytes =
          omega (arith, length-append acc bytes) in
        record {
          whole = all;
          places =
              ap₂ (λ o l. (o, bytes) ∷ l) (sym at) (j.places ∙ ap (λ o. cut o (parts cs)) next);
        })
      (λ t e'. ground arith) e

-- When ReassembleCRYPTOFrames returns bytes that end below 2^64 after the first offset, the sorted
-- CRYPTO frames are exactly these bytes cut into pieces: each frame's data stands at its offset,
-- and there is no gap and no overlap.
pub reassemble_crypto_frames-Sound :
    (frames : List Frame) (out : List ℕ) (c : ℕ × List ℕ) (cs : List (ℕ × List ℕ))
    → sort_by offset (crypto_frames frames) ≡ c ∷ cs
    → offset c + length out < 2 ^ 64
    → reassemble_crypto_frames frames ≡ ok out
    → (out ≡ concat (parts (c ∷ cs))) × (c ∷ cs ≡ cut (offset c) (parts (c ∷ cs)))
unfolding reassemble_crypto_frames reassemble_sorted
reassemble_crypto_frames-Sound frames out (off, bytes) cs s h e =
    let j = join_loop-Joined off [] ((off, bytes) ∷ cs) out h (ap reassemble_sorted (sym s) ∙ e) in
    (j.whole, j.places ∙ ap (λ o. cut o (bytes ∷ parts cs)) (omega arith))

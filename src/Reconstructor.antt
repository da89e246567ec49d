-- ===== src/Reconstructor.antt =====
-- quic_clienthello_reconstructor.go: CRYPTO fragments, in any order, into the bytes of a
-- ClientHello. The map `frags` is an association list, which holds an offset at most once.
pub mod Pending
pub mod Assemble
pub mod Invariant
pub mod Packing
pub mod Stream
pub mod Keep
pub mod Piece
pub mod AnyOrder
pub mod Partial
pub mod Memory
use clienthellod.Common.{
  ℕ, zero, suc, ◌+◌, ◌*◌, ◌%◌, ◌^◌, Bool, true, false, not, ◌&&◌, ◌||◌, Option, none, some, List,
  [], ◌∷◌, ◌++◌, length, get_or, ltb, leb, ◌==◌, if◌then◌else◌,
}
use clienthellod.Outcome.{
  Error, eof, duplicate_fragment, overlap_fragment, too_many_fragments, offset_too_high,
  need_more_frames, is_eof,
}
use clienthellod.Frame.{Frame, padding, ping, crypto}

abbrev pub max_crypto_fragments : ℕ
max_crypto_fragments = 32

abbrev pub max_crypto_length : ℕ
max_crypto_length = 0x10000

-- An offset and the bytes there.
abbrev pub Fragment : Type 0
Fragment = ℕ × List ℕ

pub record Reconstructor : Type 0 where
  pub full_len : ℕ
  pub buf : List ℕ
  pub frags : List Fragment

abbrev pub new_reconstructor : Reconstructor
new_reconstructor = record { full_len = 0; buf = []; frags = [] }

unfoldable pub lookup : ℕ → List Fragment → Option (List ℕ)
lookup off [] = none
lookup off ((o, f) ∷ fs) = if o == off then some f else lookup off fs

unfoldable pub delete : ℕ → List Fragment → List Fragment
delete off [] = []
delete off ((o, f) ∷ fs) = if o == off then fs else (o, f) ∷ delete off fs

-- A sum of two `uint64`.
abbrev pub add_u64 : ℕ → ℕ → ℕ
add_u64 a b = (a + b) % 2 ^ 64

-- The test of the overlap loop for one pending fragment.
abbrev pub overlaps_one : ℕ → List ℕ → Fragment → Bool
overlaps_one offset frag (off, f) =
    (ltb off offset && ltb offset (add_u64 off (length f)))
    || (ltb offset off && ltb off (add_u64 offset (length frag)))

unfoldable pub overlaps : ℕ → List ℕ → List Fragment → Bool
overlaps offset frag [] = false
overlaps offset frag (f ∷ fs) = overlaps_one offset frag f || overlaps offset frag fs

-- The checks before a fragment is saved.
unfoldable pub refusal : Reconstructor → ℕ → List ℕ → Option Error
refusal q offset frag = elim (lookup offset q.frags) [
  | some f ↦ some duplicate_fragment
  | none ↦
      if overlaps offset frag q.frags
      then some overlap_fragment
      else if ltb offset (length q.buf)
      then some overlap_fragment
      else if ltb max_crypto_fragments (length q.frags)
      then some too_many_fragments
      else if ltb max_crypto_length (add_u64 offset (length frag))
      then some offset_too_high
      else none
]

-- The loop that moves the next available fragment to the buffer.
unfoldable pub assemble : ℕ → Reconstructor → Reconstructor
assemble zero q = q
assemble (suc fuel) q = elim (lookup (length q.buf) q.frags) [
  | none ↦ q
  | some f ↦ assemble fuel (record q { buf = q.buf ++ f; frags = delete (length q.buf) q.frags })
]

-- Bytes 1 to 3 as a big-endian number, plus the four bytes of the handshake header.
unfoldable pub declared_length : List ℕ → ℕ
declared_length buf = get_or buf 1 0 * 65536 + get_or buf 2 0 * 256 + get_or buf 3 0 + 4

unfoldable pub set_full_len : Reconstructor → Reconstructor
set_full_len q =
    if q.full_len == 0 && ltb 4 (length q.buf)
    then record q { full_len = declared_length q.buf }
    else q

-- The end of `AddCRYPTOFragment`: what it returns once the full length was looked for. The length
-- is compared with the maximum only in the call that sets it.
unfoldable pub verdict : Reconstructor → Reconstructor → Option Error
verdict before q =
    if before.full_len == 0 && ltb max_crypto_length q.full_len
    then some offset_too_high
    else if ltb 0 q.full_len && leb q.full_len (length q.buf % 2 ^ 32)
    then some eof
    else none

-- Each round of `assemble` takes a fragment off the map, so their number is fuel enough.
unfoldable pub save : Reconstructor → ℕ → List ℕ → Reconstructor
save q offset frag =
    let frags : List Fragment = (offset, frag) ∷ q.frags in
    assemble (suc (length frags)) (record q { frags = frags })

unfoldable pub accept : Reconstructor → Reconstructor × Option Error
accept q = (set_full_len q, verdict q (set_full_len q))

-- `none` is a nil error.
unfoldable pub add_crypto_fragment : Reconstructor → ℕ → List ℕ → Reconstructor × Option Error
add_crypto_fragment q offset frag = elim (refusal q offset frag) [
  | some e ↦ (q, some e)
  | none ↦ accept (save q offset frag)
]

-- A nil slice is the empty list.
unfoldable pub reconstruct_as_bytes : Reconstructor → List ℕ
reconstruct_as_bytes q =
    if q.full_len == 0 then [] else if ltb (length q.buf % 2 ^ 32) q.full_len then [] else q.buf

-- `FromFrames`: stops at `io.EOF` with success, and at any other error with that error.
unfoldable pub from_frames : Reconstructor → List Frame → Reconstructor × Option Error
from_frames q [] = (q, some need_more_frames)
from_frames q (crypto off len bytes ∷ fs) =
    let (q', e) = add_crypto_fragment q off bytes in
    let rest = from_frames q' fs in
    elim e [ none ↦ rest | some x ↦ (q', if is_eof x then none else some x) ]
from_frames q (padding n ∷ fs) = from_frames q fs
from_frames q (ping ∷ fs) = from_frames q fs

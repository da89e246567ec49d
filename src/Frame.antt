-- ===== src/Frame.antt =====
-- quic_frame.go: QUIC frames of an Initial packet, read from a stack of readers.
-- `max_slice` is the largest length at which `make([]byte, n)` succeeds; a longer slice is a panic.
pub mod Laws
pub mod Total
pub mod RoundTrip
pub mod Payload
pub mod Reassemble
use clienthellod.Common.{
  ℕ, zero, suc, ◌+◌, ◌%◌, ◌^◌, ◌≡◌, Bool, true, false, Option, none, some, List, [], ◌∷◌, ◌++◌,
  length, get_or, ltb, leb, ◌==◌, if◌then◌else◌, map,
}
use clienthellod.Outcome.{
  Error, Result, ok, err, panic, stuck, ◌>>=◌, unknown_frame_type, reassemble_failed, is_eof,
}
use clienthellod.Reader.{Reader, Read, content, read, read_into, fill, new_rewind_reader}
use clienthellod.Vli.{read_next_vli}

-- `crypto offset length data`: the length is the declared one, and `data` is a slice of it.
pub data Frame : Type 0 where
  padding : ℕ → Frame
  ping : Frame
  crypto : ℕ → ℕ → List ℕ → Frame

unfoldable pub frame_type : Frame → ℕ
frame_type (padding n) = 0
frame_type ping = 1
frame_type (crypto off len bytes) = 6

-- `PADDING.ReadReader` after its first byte: count zeros, and put back the first other byte.
unfoldable pub padding_loop : ℕ → Reader → ℕ → Result (Frame × Reader)
padding_loop zero r len = stuck
padding_loop (suc fuel) r len =
    let d = read r 1 in
    let b = get_or (fill 1 d.got) 0 0 in
    elim d.failed [
      | some e ↦ if is_eof e then ok (padding len, d.rest) else err e
      | none ↦ elim (b == 0) [
        | true ↦ padding_loop fuel d.rest ((len + 1) % 2 ^ 64)
        | false ↦ ok (padding len, new_rewind_reader d.rest (b ∷ []))
      ]
    ]

-- Each round takes a byte, so as many rounds as there are bytes, and one more, are enough.
unfoldable pub read_padding : Reader → Result (Frame × Reader)
read_padding r = padding_loop (suc (length (content r))) r 1

module _ (max_slice : ℕ) where
  -- `f.data = make([]byte, f.Length); _, err = r.Read(f.data)`
  unfoldable pub read_data : Reader → ℕ → Result (List ℕ × Reader)
  read_data r n = if ltb max_slice n then panic else read_into r n

  unfoldable pub read_crypto : Reader → Result (Frame × Reader)
  read_crypto r = do
    ((off, n), r₁) ← read_next_vli r
    ((len, m), r₂) ← read_next_vli r₁
    (bytes, r₃) ← read_data r₂ len
    ok (crypto off len bytes, r₃)

  -- The switch on the type and `frame.ReadReader`.
  unfoldable pub read_frame : ℕ → Reader → Result (Frame × Reader)
  read_frame t r =
      if t == 0
      then read_padding r
      else if t == 1
      then ok (ping, r)
      else if t == 6
      then read_crypto r
      else err unknown_frame_type

  -- The loop of `ReadAllFrames`. An `io.EOF` where a type is expected ends it.
  unfoldable pub frames_loop : ℕ → Reader → List Frame → Result (List Frame)
  frames_loop zero r frames = stuck
  frames_loop (suc fuel) r frames = elim (read_next_vli r) [
    | err e ↦ if is_eof e then ok frames else err e
    | panic ↦ panic
    | stuck ↦ stuck
    | ok ((t, n), r') ↦ read_frame t r' >>= λ p. frames_loop fuel p.1 (frames ++ p.0 ∷ [])
  ]

  unfoldable pub read_all_frames : Reader → Result (List Frame)
  read_all_frames r = frames_loop (suc (length (content r))) r []

unfoldable pub frame_types : List Frame → List ℕ
frame_types fs = map frame_type fs

-- `uint8(f.FrameType() & 0xFF)`
unfoldable pub frame_types_uint8 : List Frame → List ℕ
frame_types_uint8 fs = map (λ f. frame_type f % 256) fs

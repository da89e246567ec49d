-- ===== src/Tests/Wire.antt =====
-- Variable-length integers and frames: quic_common.go and quic_frame.go on concrete bytes.
use clienthellod.Common.{
  some, none, ℕ, ◌+◌, ◌*◌, ◌↔◌, ◌≡◌, ◌≢◌, refl, arith, true, List, [], ◌∷◌, ◌++◌,
}
use clienthellod.Outcome.{ok, err, panic, stuck, invalid_vli_length}
use clienthellod.Reader.{
  Reader, bytes_reader, bytes_buffer, rewind_reader, content, read, read_into,
}
use clienthellod.Reader.Laws.{Agrees, Drained}
use clienthellod.Vli.{
  vli_width, decode_loop, read_rest, decode_from, read_next_vli, decode_vli,
  is_grease_transport_parameter,
}
use clienthellod.Vli.Laws.{VliBounds, spec_vli, read_next_vli_bounds}
use clienthellod.Vli.Rfc.{rfc_vli, read_next_vli-rfc_vli}
use clienthellod.Vli.RoundTrip.{
  encode_vli, read_next_vli-encode, decode_vli-encode, read_next_vli_truncated,
  is_grease_transport_parameter_iff,
}
use clienthellod.Frame.{
  Frame, padding, ping, crypto, padding_loop, read_padding, read_data, read_crypto, read_frame,
  frames_loop, read_all_frames,
}
use clienthellod.Frame.Total.{spec_frames, read_all_frames-spec}
use clienthellod.Frame.RoundTrip.{encode_frames}
use clienthellod.Frame.Payload.{read_all_frames-encode}

-- The two examples of the comment on `ReadNextVLI`.
reads_one : read_next_vli (bytes_reader (0x0a ∷ [])) ≡ ok ((0xa, 1), bytes_reader [])
unfolding read_next_vli decode_from read_rest read_into read vli_width decode_loop
reads_one = refl

reads_four :
    read_next_vli (bytes_reader (0x80 ∷ 0x10 ∷ 0x00 ∷ 0x00 ∷ []))
    ≡ ok ((0x100000, 4), bytes_reader [])
unfolding read_next_vli decode_from read_rest read_into read vli_width decode_loop
reads_four = refl

too_short : decode_vli (0x80 ∷ 0x10 ∷ []) ≡ err invalid_vli_length
unfolding decode_vli read_next_vli decode_from read_rest read_into read vli_width decode_loop
too_short = refl

abbrev payload : List Frame
payload = padding 3 ∷ crypto 5 2 (7 ∷ 0 ∷ []) ∷ ping ∷ padding 1 ∷ crypto 0 0 [] ∷ []

payload_read : read_all_frames 2048 (bytes_buffer (encode_frames payload)) ≡ ok payload
unfolding read_all_frames frames_loop read_frame read_crypto read_data read_padding padding_loop
    read_next_vli decode_from read_rest read_into read vli_width decode_loop
payload_read = refl

-- A declared length past what can be made panics, whatever the packet holds.
huge_panics : read_all_frames 2048 (bytes_buffer (6 ∷ 0 ∷ 0x48 ∷ 0x01 ∷ [])) ≡ panic
unfolding read_all_frames frames_loop read_frame read_crypto read_data read_next_vli decode_from
    read_rest read_into read vli_width decode_loop
huge_panics = refl

abbrev put_back : Reader
put_back = rewind_reader (0x40 ∷ []) (rewind_reader [] (bytes_buffer (0x25 ∷ 9 ∷ [])))

read_next_vli-rfc_vli_example :
    Agrees (Drained true) (read_next_vli put_back) (spec_vli (0x40 ∷ 0x25 ∷ 9 ∷ []))
    × ((v : ℕ × ℕ) (t : List ℕ)
        → rfc_vli (0x40 ∷ 0x25 ∷ 9 ∷ []) ≡ some (v, t)
        → (r : Reader) × (read_next_vli put_back ≡ ok (v, r)) × (content r ≡ t))
read_next_vli-rfc_vli_example = read_next_vli-rfc_vli true put_back ((tt, tt), tt) (omega arith)

-- The integer is whole there, and is not without its second byte.
whole_and_cut_off :
    (rfc_vli (0x40 ∷ 0x25 ∷ 9 ∷ []) ≡ some ((0x25, 2), 9 ∷ [])) × (rfc_vli (0x40 ∷ []) ≡ none)
unfolding rfc_vli
whole_and_cut_off = (refl, refl)

put_back_read :
    read_next_vli put_back
    ≡ ok ((0x25, 2), rewind_reader [] (rewind_reader [] (bytes_buffer (9 ∷ []))))
unfolding read_next_vli decode_from read_rest read_into read vli_width decode_loop
put_back_read = refl

read_next_vli_bounds_example :
    VliBounds (0x40 ∷ 0x25 ∷ 9 ∷ []) 0x25 2 (9 ∷ [])
    × Drained true (rewind_reader [] (rewind_reader [] (bytes_buffer (9 ∷ []))))
read_next_vli_bounds_example =
    read_next_vli_bounds true put_back 0x25 2 _ ((tt, tt), tt) (omega arith) put_back_read

read_next_vli-encode_example :
    (r : Reader) × (read_next_vli (bytes_reader (encode_vli 15293 ++ 1 ∷ [])) ≡ ok ((15293, 2), r))
    × (content r ≡ 1 ∷ [])
read_next_vli-encode_example = read_next_vli-encode 15293 (1 ∷ []) (omega arith) (omega arith)

decode_vli-encode_example : decode_vli (encode_vli 151288809941952652) ≡ ok 151288809941952652
decode_vli-encode_example = decode_vli-encode 151288809941952652 (omega arith)

read_next_vli_truncated_example :
    (r : Reader) × (read_next_vli (bytes_reader (0x80 ∷ 0x10 ∷ [])) ≡ ok ((0x100000, 4), r))
    × (content r ≡ [])
read_next_vli_truncated_example = read_next_vli_truncated 0x80 0x10 [] (omega arith) (omega arith)

read_all_frames-spec_example :
    (read_all_frames 2048 (bytes_buffer (0 ∷ 0 ∷ 1 ∷ 6 ∷ []))
      ≡ spec_frames 2048 5 (0 ∷ 0 ∷ 1 ∷ 6 ∷ []) [])
    × (read_all_frames 2048 (bytes_buffer (0 ∷ 0 ∷ 1 ∷ 6 ∷ [])) ≢ stuck)
read_all_frames-spec_example = read_all_frames-spec 2048 (0 ∷ 0 ∷ 1 ∷ 6 ∷ []) (omega arith)

read_all_frames-encode_example :
    read_all_frames 2048 (bytes_buffer (encode_frames payload)) ≡ ok payload
read_all_frames-encode_example = read_all_frames-encode 2048 payload (
  omega arith,
  (λ p. p.1),
  (omega arith, (λ p. p.0), (tt, (λ p. p.0), (omega arith, (λ p. p.1), omega arith))),
)

is_grease_transport_parameter_iff_example :
    (is_grease_transport_parameter 58 ≡ true) ↔ ((n : ℕ) × (58 ≡ 31 * n + 27))
is_grease_transport_parameter_iff_example = is_grease_transport_parameter_iff 58

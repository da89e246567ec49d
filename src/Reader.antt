-- ===== src/Reader.antt =====
-- internal/utils/rewindreader.go over the in-memory readers of Go's standard library.
-- A reader is the bytes that it has still to give. A `Read` into a slice of `n` bytes returns the
-- bytes written to its front, an error, and the reader afterwards.
pub mod Laws
use clienthellod.Common.{ℕ, zero, suc, ◌-◌, Option, none, some, List, [], ◌∷◌, ◌++◌}
use clienthellod.Common.{length, take, drop}
use clienthellod.Outcome.{Error, eof, Result, ok, err}

-- In `rewind_reader bs r` the list is what `rr` has not yet given. It is empty just when
-- `rr.Size()` is 0, since a `Read` that uses `rr` up also resets it.
pub data Reader : Type 0 where
  bytes_reader : List ℕ → Reader
  bytes_buffer : List ℕ → Reader
  rewind_reader : List ℕ → Reader → Reader

-- All bytes still to come.
abbrev pub content : Reader → List ℕ
content (bytes_reader s) = s
content (bytes_buffer s) = s
content (rewind_reader bs r) = bs ++ content r

pub record Read : Type 0 where
  pub got : List ℕ
  pub failed : Option Error
  pub rest : Reader

abbrev pub rewound : Read → Read
rewound d = record d { rest = rewind_reader [] d.rest }

-- `(*bytes.Reader).Read`: at the end it fails also for an empty slice.
pub read_bytes_reader : List ℕ → ℕ → Read
read_bytes_reader [] n = record { got = []; failed = some eof; rest = bytes_reader [] }
read_bytes_reader (b ∷ bs) n = record {
  got = take n (b ∷ bs);
  failed = none;
  rest = bytes_reader (drop n (b ∷ bs));
}

-- `(*bytes.Buffer).Read`: at the end it fails unless the slice is empty.
pub read_bytes_buffer : List ℕ → ℕ → Read
read_bytes_buffer [] zero = record { got = []; failed = none; rest = bytes_buffer [] }
read_bytes_buffer [] (suc n) = record { got = []; failed = some eof; rest = bytes_buffer [] }
read_bytes_buffer (b ∷ bs) n = record {
  got = take n (b ∷ bs);
  failed = none;
  rest = bytes_buffer (drop n (b ∷ bs));
}

-- What `(*rewindReader).Read` does once `rr` has given `front` and still holds `left`: `more` is
-- the read of the remaining part of the slice from the reader underneath.
pub rewind_read : List ℕ → List ℕ → Reader → Read → Read
rewind_read front [] r more = record {
  got = front ++ more.got;
  failed = more.failed;
  rest = rewind_reader [] more.rest;
}
rewind_read front (b ∷ left) r more = record {
  got = front;
  failed = none;
  rest = rewind_reader (b ∷ left) r;
}

unfoldable pub read : Reader → ℕ → Read
unfolding read_bytes_reader read_bytes_buffer rewind_read
read (bytes_reader s) n = read_bytes_reader s n
read (bytes_buffer s) n = read_bytes_buffer s n
read (rewind_reader [] r) n = rewound (read r n)
read (rewind_reader (b ∷ bs) r) n =
    let front = take n (b ∷ bs) in rewind_read front (drop n (b ∷ bs)) r (read r (n - length front))

-- `RewindReader`: with nothing to rewind the reader itself is returned.
abbrev pub new_rewind_reader : Reader → List ℕ → Reader
new_rewind_reader r [] = r
new_rewind_reader r (b ∷ bs) = rewind_reader (b ∷ bs) r

-- The fresh slice of `n` bytes once `got` was written to its front: the rest keeps its zeros.
abbrev pub fill : ℕ → List ℕ → List ℕ
fill zero xs = []
fill (suc n) [] = 0 ∷ fill n []
fill (suc n) (x ∷ xs) = x ∷ fill n xs

abbrev pub outcome : ℕ → Read → Result (List ℕ × Reader)
outcome n d = elim d.failed [ none ↦ ok (fill n d.got, d.rest) | some e ↦ err e ]

-- `b := make([]byte, n); _, err := r.Read(b)`, followed by a return of the error.
-- A short read is no error: the slice keeps zeros at its end.
unfoldable pub read_into : Reader → ℕ → Result (List ℕ × Reader)
read_into r n = outcome n (read r n)

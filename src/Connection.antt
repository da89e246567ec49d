-- ===== src/Connection.antt =====
-- A `net.Conn` for reading, `io.ReadFull` over it, and internal/utils/rewindconn.go.
-- A connection gives its bytes in chunks, of which a `Read` takes one or a part, and then an error.
pub mod Laws
use clienthellod.Common.{
  ℕ, zero, suc, ◌-◌, Option, none, some, List, [], ◌∷◌, ◌++◌, length, take, drop, leb,
  if◌then◌else◌,
}
use clienthellod.Outcome.{Error, eof, unexpected_eof}

-- `rewound left c` is a `rewindConn`: `left` is what its `reader` has still to give, and `none` stands
-- for a reader whose `Size()` is 0.
pub data Conn : Type 0 where
  tcp : List (List ℕ) → Error → Conn
  rewound : Option (List ℕ) → Conn → Conn

abbrev pub joined : List (List ℕ) → List ℕ
joined [] = []
joined (c ∷ cs) = c ++ joined cs

-- All bytes still to come.
abbrev pub content : Conn → List ℕ
content (tcp chunks last) = joined chunks
content (rewound none c) = content c
content (rewound (some left) c) = left ++ content c

-- The bytes that a `Read` wrote, its error, and the connection afterwards.
pub record Read : Type 0 where
  pub got : List ℕ
  pub failed : Option Error
  pub rest : Conn

abbrev pub read_chunk : List (List ℕ) → Error → ℕ → Read
read_chunk [] last n = record { got = []; failed = some last; rest = tcp [] last }
read_chunk (c ∷ cs) last n =
    if leb (length c) n
    then record { got = c; failed = none; rest = tcp cs last }
    else record { got = take n c; failed = none; rest = tcp (drop n c ∷ cs) last }

-- `Read` into a slice of `n` bytes.
unfoldable pub read : Conn → ℕ → Read
read (tcp chunks last) n = read_chunk chunks last n
read (rewound none c) n = let d = read c n in record d { rest = rewound none d.rest }
read (rewound (some []) c) n = record { got = []; failed = none; rest = rewound none c }
read (rewound (some (b ∷ bs)) c) n = record {
  got = take n (b ∷ bs);
  failed = none;
  rest = rewound (some (drop n (b ∷ bs))) c;
}

-- `RewindConn` of a connection that is not nil.
abbrev pub rewind_conn : Conn → List ℕ → Conn
rewind_conn c [] = c
rewind_conn c (b ∷ buf) = rewound (some (b ∷ buf)) c

-- What `io.ReadFull` took, its error, and the chunks left.
pub record Full : Type 0 where
  pub got : List ℕ
  pub failed : Option Error
  pub rest : List (List ℕ)

abbrev pub after_chunk : List ℕ → Full → Full
after_chunk c d = record d { got = c ++ d.got }

-- The loop of `io.ReadFull`: reads are made until `n` bytes are there.
unfoldable pub fill_loop : ℕ → List (List ℕ) → Error → Full
fill_loop zero chunks last = record { got = []; failed = none; rest = chunks }
fill_loop (suc n) [] last = record { got = []; failed = some last; rest = [] }
fill_loop (suc n) (c ∷ cs) last =
    let more = fill_loop (suc n - length c) cs last in
    if leb (length c) (suc n)
    then after_chunk c more
    else record { got = take (suc n) c; failed = none; rest = drop (suc n) c ∷ cs }

-- An `io.EOF` behind the first byte is `io.ErrUnexpectedEOF`.
abbrev pub unexpected : List ℕ → Error → Error
unexpected [] e = e
unexpected (b ∷ bs) eof = unexpected_eof
unexpected (b ∷ bs) e = e

abbrev pub renamed : Full → Option Error → Full
renamed d none = d
renamed d (some e) = record d { failed = some (unexpected d.got e) }

unfoldable pub read_full : ℕ → List (List ℕ) → Error → Full
read_full n chunks last = let d = fill_loop n chunks last in renamed d d.failed

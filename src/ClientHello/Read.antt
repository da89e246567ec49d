-- ===== src/ClientHello/Read.antt =====
-- clienthello.go: `ReadClientHello`. It returns the raw bytes also beside an error.
use clienthellod.Common.{ℕ, ◌+◌, ◌*◌, Option, none, some, List, ◌++◌, get_or, ◌==◌, if◌then◌else◌}
use clienthellod.Outcome.{Error, not_tls_handshake}
use clienthellod.Reader.{fill}
use clienthellod.Connection.{Full, read_full}

-- The raw bytes, the error, and the chunks left.
pub record Hello : Type 0 where
  pub raw : List ℕ
  pub failed : Option Error
  pub rest : List (List ℕ)

-- `binary.BigEndian.Uint16(raw[3:5])`
abbrev pub record_length : List ℕ → ℕ
record_length header = get_or header 3 0 * 256 + get_or header 4 0

-- The record's body is read behind the five bytes of its header.
unfoldable pub read_body : List ℕ → List (List ℕ) → Error → Hello
read_body header chunks last =
    let n = record_length header in
    let d = read_full n chunks last in
    record { raw = header ++ fill n d.got; failed = d.failed; rest = d.rest }

abbrev pub after_header : Full → Option Error → Error → Hello
after_header d (some e) last = record { raw = fill 5 d.got; failed = some e; rest = d.rest }
after_header d none last =
    if get_or d.got 0 0 == 0x16
    then read_body d.got d.rest last
    else record { raw = d.got; failed = some not_tls_handshake; rest = d.rest }

unfoldable pub read_client_hello : List (List ℕ) → Error → Hello
read_client_hello chunks last = let d = read_full 5 chunks last in after_header d d.failed last

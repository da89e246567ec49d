-- ===== src/TlsFingerprinter/Rewind.antt =====
-- tls_fingerprint.go: `HandleTCPConn` on a connection that begins with a ClientHello.
use clienthellod.Common.{ℕ, ◌≡◌, refl, sym, ap₂, append_assoc, ◌∙◌, false, some, List, ◌++◌}
use clienthellod.Outcome.{Error, ok}
use clienthellod.Outcome.Ensures.{ok-Whenever}
use clienthellod.Connection.{Conn, tcp, joined, content, rewind_conn}
use clienthellod.Connection.Laws.{
  ReadsAll, content-ReadsAll, final, final-rewind_conn, content-rewind_conn,
}
use clienthellod.ClientHello.{ClientHello}
use clienthellod.ClientHello.Read.{read_client_hello}
use clienthellod.ClientHello.Record.{
  IsRecord, read_client_hello-append, KeepsRaw, parse_client_hello-KeepsRaw,
}
use clienthellod.ClientHello.Parse.{Utls, new_client_hello, parse_client_hello}
use clienthellod.Cryptobyte.{Cryptobyte, IsDocumented}
use clienthellod.TlsFingerprinter.{TlsFingerprinter, load, store_hello, handle_tcp_conn, peek}
use clienthellod.TlsFingerprinter.Expiry.{same_string_refl}

module _ (B : Cryptobyte) (documented : IsDocumented B) (max_slice : ℕ) (U : Utls)
    (sha1 : List ℕ → List ℕ) where
  pub handle_tcp_conn-content :
      (now : ℕ) (from header body s : List ℕ) (chunks : List (List ℕ)) (last : Error)
      (t : TlsFingerprinter) (ch : ClientHello)
      → t.closed ≡ false
      → IsRecord header body
      → joined chunks ≡ header ++ (body ++ s)
      → parse_client_hello B max_slice U sha1 (new_client_hello (header ++ body)) ≡ ok ch
      → (c : Conn) × ((handle_tcp_conn
            (parse_client_hello B max_slice U sha1)
            now
            from
            chunks
            last
            t).1
          ≡ ok c)
        × (content c ≡ joined chunks)
        × (final c ≡ last)
        × (peek from
              (handle_tcp_conn (parse_client_hello B max_slice U sha1) now from chunks last t).0
            ≡ some ch)
        × (ch.raw ≡ header ++ body)
  unfolding handle_tcp_conn peek store_hello load
  handle_tcp_conn-content now from header body s chunks last t ch opened known e parsed =
      let (raw, done, left) = read_client_hello-append header body s chunks last known e in
      let same : ch.raw ≡ header ++ body =
        ok-Whenever (KeepsRaw (new_client_hello (header ++ body)))
          (parse_client_hello-KeepsRaw max_slice U sha1 B documented
            (new_client_hello (header ++ body)))
          parsed in
      let parse = parse_client_hello B max_slice U sha1 in
      let h = read_client_hello chunks last in
      let c = rewind_conn (tcp h.rest last) ch.raw in
      let run : handle_tcp_conn parse now from chunks last t ≡ (store_hello now from ch t, ok c) =
        rw (opened, done, raw, parsed, handle_tcp_conn) refl in
      let whole : content c ≡ joined chunks =
        content-rewind_conn (tcp h.rest last) ch.raw
        ∙ ap₂ ◌++◌ same left
        ∙ append_assoc header body s
        ∙ sym e in
      rw run (
        c,
        refl,
        whole,
        final-rewind_conn (tcp h.rest last) ch.raw,
        rw (same_string_refl from, peek) refl,
        same,
      )

  -- A connection begins with a handshake record, whose ClientHello is parsed, in any chunks and
  -- with anything behind it, and the fingerprinter is open: `HandleTCPConn` returns a connection
  -- whose `Read` gives just the bytes of the original one, from the first, and then its error, as
  -- soon as there are enough calls, into slices of any lengths but zero; and `Peek` of its address
  -- finds the ClientHello, with the record as its raw bytes.
  pub handle_tcp_conn_rewound :
      (now : ℕ) (from header body s : List ℕ) (chunks : List (List ℕ)) (last : Error)
      (t : TlsFingerprinter) (ch : ClientHello)
      → t.closed ≡ false
      → IsRecord header body
      → joined chunks ≡ header ++ (body ++ s)
      → parse_client_hello B max_slice U sha1 (new_client_hello (header ++ body)) ≡ ok ch
      → (c : Conn) × ((handle_tcp_conn
            (parse_client_hello B max_slice U sha1)
            now
            from
            chunks
            last
            t).1
          ≡ ok c)
        × ReadsAll c (joined chunks) last
        × (peek from
              (handle_tcp_conn (parse_client_hello B max_slice U sha1) now from chunks last t).0
            ≡ some ch)
        × (ch.raw ≡ header ++ body)
  handle_tcp_conn_rewound now from header body s chunks last t ch opened known e parsed =
      let (c, given, whole, end, found, same) =
        handle_tcp_conn-content now from header body s chunks last t ch opened known e parsed in
      (c, given, content-ReadsAll c whole end, found, same)

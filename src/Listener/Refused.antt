-- ===== src/Listener/Refused.antt =====
-- modcaddy/listener/listener.go: `Accept` on connections that `HandleTCPConn` returns an error for.
use clienthellod.Common.{ℕ, ◌≡◌, refl, Option, none, some, List, [], ◌∷◌, ◌++◌, All, if-cases}
use clienthellod.Outcome.{Error, Result, ok, err, panic, stuck}
use clienthellod.ClientHello.{ClientHello}
use clienthellod.ClientHello.Read.{Hello, read_client_hello}
use clienthellod.ClientHello.Parse.{new_client_hello}
use clienthellod.Connection.{Conn}
use clienthellod.TlsFingerprinter.{
  TlsFingerprinter, handle_tcp_conn, handle_hello, store_parsed, give_back,
}
use clienthellod.Reservoir.{Reservoir}
use clienthellod.Listener.{Incoming, connection, accept}

-- An error leaves the fingerprinter as it was.
abbrev Unchanged : TlsFingerprinter → TlsFingerprinter × Result Conn → Type 0
Unchanged t x = (e : Error) → x.1 ≡ err e → x.0 ≡ t

store_parsed-Unchanged :
    (now : ℕ) (from : List ℕ) (t : TlsFingerprinter) (h : Hello) (last : Error)
    (r : Result ClientHello)
    → Unchanged t ((store_parsed now from t r).0, give_back h last r)
store_parsed-Unchanged now from t h last (ok ch) e q = cc
store_parsed-Unchanged now from t h last (err x) e q = refl
store_parsed-Unchanged now from t h last panic e q = refl
store_parsed-Unchanged now from t h last stuck e q = refl

module _ (parse : ClientHello → Result ClientHello) where
  handle_hello-Unchanged :
      (now : ℕ) (from : List ℕ) (t : TlsFingerprinter) (h : Hello) (last : Error)
      (failed : Option Error)
      → Unchanged t (handle_hello parse now from t h last failed)
  handle_hello-Unchanged now from t h last (some x) e q = refl
  handle_hello-Unchanged now from t h last none e q =
      store_parsed-Unchanged now from t h last (parse (new_client_hello h.raw)) e q

  handle_tcp_conn-Unchanged :
      (now : ℕ) (from : List ℕ) (chunks : List (List ℕ)) (last : Error) (t : TlsFingerprinter)
      → Unchanged t (handle_tcp_conn parse now from chunks last t)
  unfolding handle_tcp_conn
  handle_tcp_conn-Unchanged now from chunks last t =
      let h = read_client_hello chunks last in
      if-cases (Unchanged t) t.closed (λ c e q. refl)
        (λ c. handle_hello-Unchanged now from t h last h.failed)

  -- A connection that a fingerprinter returns an error for.
  pub data IsRefused (t : TlsFingerprinter) : Incoming → Type 0 where
    refused :
        (now : ℕ) (from : List ℕ) (chunks : List (List ℕ)) (last e : Error)
        → (handle_tcp_conn parse now from chunks last t).1 ≡ err e
        → IsRefused t (connection now from chunks last)

  accept-refused :
      (i : Incoming) (rest : List Incoming) (r : Reservoir)
      → IsRefused r.tls_fingerprinter i
      → accept parse (i ∷ rest) r ≡ accept parse rest r
  unfolding accept
  accept-refused i rest r (refused now from chunks last e q) =
      let same = handle_tcp_conn-Unchanged now from chunks last r.tls_fingerprinter e q in
      rw (q, same) refl

  pub accept-skips :
      (is rest : List Incoming) (r : Reservoir)
      → All (IsRefused r.tls_fingerprinter) is
      → accept parse (is ++ rest) r ≡ accept parse rest r
  accept-skips [] rest r known = refl
  accept-skips (i ∷ is) rest r known =
      rw (accept-refused i (is ++ rest) r known.0) (accept-skips is rest r known.1)

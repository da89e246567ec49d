-- ===== src/Tests/Expiring.antt =====
-- The TLS fingerprinter of tls_fingerprint.go on two messages from one address.
use clienthellod.Common.{ℕ, ◌≡◌, refl, arith, false, none, some, List, [], ◌∷◌, ◌++◌}
use clienthellod.Outcome.{Result, ok}
use clienthellod.ClientHello.{ClientHello}
use clienthellod.TlsFingerprinter.{
  TlsFingerprinter, Timer, new_tls_fingerprinter_with_timeout, store_hello, handle_message, peek,
  expire,
}
use clienthellod.TlsFingerprinter.Step.{message_step, expire_step}
use clienthellod.TlsFingerprinter.Runs.{no_step, one_step, peek-Steps}

abbrev hello : ClientHello
hello = record {
  raw = [];
  tls_record_version = 0;
  tls_handshake_version = 0x303;
  cipher_suites = [];
  compression_methods = [];
  extensions = [];
  extensions_normalized = [];
  server_name = [];
  named_group_list = [];
  ec_point_format_list = [];
  signature_scheme_list = [];
  alpn = [];
  cert_compress_algo = [];
  record_size_limit = [];
  supported_versions = [];
  psk_key_exchange_modes = [];
  key_share = [];
  application_settings = [];
  user_agent = [];
  num_id = 0;
  norm_num_id = 0;
  hex_id = [];
  norm_hex_id = [];
  length_prefixed_supported_groups = [];
  length_prefixed_ec_point_formats = [];
  length_prefixed_signature_algos = [];
  alpn_with_lengths = [];
  length_prefixed_cert_compress_algos = [];
  keyshare_groups_with_lengths = [];
  qtp = none;
}

-- In place of the parser.
abbrev unmarshal_any : List ℕ → Result ClientHello
unmarshal_any p = ok hello

abbrev address : List ℕ
address = 49 ∷ 58 ∷ 50 ∷ []

abbrev fresh : TlsFingerprinter
fresh = new_tls_fingerprinter_with_timeout 10

abbrev once : TlsFingerprinter
once = (handle_message unmarshal_any 0 address [] fresh).0

abbrev twice : TlsFingerprinter
twice = (handle_message unmarshal_any 5 address [] once).0

abbrev first_timer : Timer
first_timer = record { due = 10; key = address; old = 0 }

abbrev second_timer : Timer
second_timer = record { due = 15; key = address; old = 1 }

once_open : once.closed ≡ false
unfolding handle_message store_hello
once_open = refl

two_timers : twice.timers ≡ (second_timer ∷ []) ++ first_timer ∷ []
unfolding handle_message store_hello
two_timers = refl

-- The timer of the first message wakes up at 12, before the second one's is due.
peek-Steps_example : peek address (expire first_timer (second_timer ∷ []) twice) ≡ some hello
unfolding handle_message store_hello
peek-Steps_example =
    peek-Steps unmarshal_any ok 10 5 address [] hello
      (one_step {now = 0} (message_step address []) no_step) once_open refl ((omega arith, tt), tt)
      (one_step {now = 12} (expire_step (second_timer ∷ []) first_timer [] two_timers (omega arith))
        no_step)

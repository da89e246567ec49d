-- ===== src/Reservoir/Caddyfile.antt =====
-- modcaddy/app/caddyfile.go: the times to live in a Caddyfile. `parse_duration` is
-- `caddy.ParseDuration`; the messages of the errors are not told apart but for a repeated option.
use clienthellod.Common.{ℕ, Option, List, [], ◌∷◌, ◌==◌, if◌then◌else◌}
use clienthellod.Outcome.{Result, ok, err, ◌>>=◌, map_ok, some_or, repeated_option, bad_arguments}
use clienthellod.TlsFingerprinter.{default_expiry}
use clienthellod.QuicFingerprinter.{default_quic_expiry}

-- A line of the block: `d.Val()` and its arguments.
pub data TtlOption : Type 0 where
  tls_ttl_option quic_ttl_option other_option : List (List ℕ) → TtlOption

-- The times to live of the reservoir.
pub record Ttls : Type 0 where
  pub tls : ℕ
  pub quic : ℕ

abbrev pub default_ttls : Ttls
default_ttls = record { tls = default_expiry; quic = default_quic_expiry }

module _ (parse_duration : List ℕ → Option ℕ) where
  -- The one argument of an option.
  abbrev pub parse_arguments : List (List ℕ) → Result ℕ
  parse_arguments [] = err bad_arguments
  parse_arguments (a ∷ []) = some_or bad_arguments (parse_duration a)
  parse_arguments (a ∷ b ∷ rest) = err bad_arguments

  -- An option is taken while its value is the default.
  abbrev pub parse_ttl : ℕ → ℕ → List (List ℕ) → Result ℕ
  parse_ttl current default_value args =
      if current == default_value then parse_arguments args else err repeated_option

  -- One round of the loop.
  abbrev pub parse_option : TtlOption → Ttls → Result Ttls
  parse_option (tls_ttl_option args) t =
      map_ok (λ n. record t { tls = n }) (parse_ttl t.tls default_expiry args)
  parse_option (quic_ttl_option args) t =
      map_ok (λ n. record t { quic = n }) (parse_ttl t.quic default_quic_expiry args)
  parse_option (other_option args) t = ok t

  unfoldable pub options_loop : List TtlOption → Ttls → Result Ttls
  options_loop [] t = ok t
  options_loop (o ∷ os) t = parse_option o t >>= options_loop os

  unfoldable pub parse_caddyfile : List TtlOption → Result Ttls
  parse_caddyfile os = options_loop os default_ttls

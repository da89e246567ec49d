-- ===== src/Handler/Options.antt =====
-- modcaddy/handler/handler.go: the options of the handler, `UnmarshalCaddyfile` and `Provision`.
use clienthellod.Common.{
  ℕ, suc, ◌<◌, ◌≡◌, ◌≢◌, ap, refl, ◌↔◌, inl, inr, ◌⊎◌, true, false, List, [], ◌∷◌, arith,
}
use clienthellod.Outcome.{Error, Result, ok, err, ◌>>=◌, repeated_option, exclusive_options}
use clienthellod.Reservoir.{Reservoir}
use clienthellod.Handler.{
  Handler, Directive, tls_directive, quic_directive, other_directive, unmarshal_caddyfile,
  provision,
}

-- The number of directives that choose a fingerprint.
abbrev pub choices : List Directive → ℕ
choices [] = 0
choices (tls_directive ∷ ds) = suc (choices ds)
choices (quic_directive ∷ ds) = suc (choices ds)
choices (other_directive ∷ ds) = choices ds

-- A new handler with the options of a block, provisioned.
abbrev pub configured : List Directive → Reservoir → Result Reservoir
configured ds r =
    unmarshal_caddyfile ds (record { tls = false; quic = false }) >>= λ h. provision h (ok r)

abbrev Fails : List Directive → Handler → Type 0
Fails ds h = (e : Error) × (unmarshal_caddyfile ds h ≡ err e)

-- With one option chosen, any other is refused.
unmarshal_caddyfile-tls :
    (ds : List Directive)
    → ((choices ds ≡ 0)
        × (unmarshal_caddyfile ds (record { tls = true; quic = false })
            ≡ ok (record { tls = true; quic = false })))
      ⊎ ((0 < choices ds) × Fails ds (record { tls = true; quic = false }))
unfolding unmarshal_caddyfile
unmarshal_caddyfile-tls [] = inl (refl, refl)
unmarshal_caddyfile-tls (tls_directive ∷ ds) = inr (omega arith, (repeated_option, refl))
unmarshal_caddyfile-tls (quic_directive ∷ ds) = inr (omega arith, (exclusive_options, refl))
unmarshal_caddyfile-tls (other_directive ∷ ds) = unmarshal_caddyfile-tls ds

unmarshal_caddyfile-quic :
    (ds : List Directive)
    → ((choices ds ≡ 0)
        × (unmarshal_caddyfile ds (record { tls = false; quic = true })
            ≡ ok (record { tls = false; quic = true })))
      ⊎ ((0 < choices ds) × Fails ds (record { tls = false; quic = true }))
unfolding unmarshal_caddyfile
unmarshal_caddyfile-quic [] = inl (refl, refl)
unmarshal_caddyfile-quic (tls_directive ∷ ds) = inr (omega arith, (exclusive_options, refl))
unmarshal_caddyfile-quic (quic_directive ∷ ds) = inr (omega arith, (repeated_option, refl))
unmarshal_caddyfile-quic (other_directive ∷ ds) = unmarshal_caddyfile-quic ds

err≢ok : (x : Error) (r : Reservoir) {run : Result Reservoir} → run ≡ err x → run ≢ ok r
err≢ok x r failed e = cc

zero≢more : (n : ℕ) → 0 < n → suc n ≢ 1
zero≢more n more e = omega arith

-- A handler is configured by a block of directives without an error just if one and only one of
-- them is `tls` or `quic`.
pub configured_iff :
    (ds : List Directive) (r : Reservoir) → (configured ds r ≡ ok r) ↔ (choices ds ≡ 1)
unfolding unmarshal_caddyfile provision
configured_iff [] r = (λ e. cc, λ e. cc)
configured_iff (tls_directive ∷ ds) r = elim (unmarshal_caddyfile-tls ds) [
  | inl (none_left, same) ↦ (λ e. ap suc none_left, λ e. rw same refl)
  | inr (more, (x, failed)) ↦
      let run : configured (tls_directive ∷ ds) r ≡ err x = rw failed refl in
      (λ e. absurd (err≢ok x r run e), λ e. absurd (zero≢more (choices ds) more e))
]
configured_iff (quic_directive ∷ ds) r = elim (unmarshal_caddyfile-quic ds) [
  | inl (none_left, same) ↦ (λ e. ap suc none_left, λ e. rw same refl)
  | inr (more, (x, failed)) ↦
      let run : configured (quic_directive ∷ ds) r ≡ err x = rw failed refl in
      (λ e. absurd (err≢ok x r run e), λ e. absurd (zero≢more (choices ds) more e))
]
configured_iff (other_directive ∷ ds) r = configured_iff ds r

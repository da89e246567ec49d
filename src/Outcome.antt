-- ===== src/Outcome.antt =====
-- Go's `(value, error)` results, with a panic as a third outcome, and the error values that the
-- root package and the standard readers return. `stuck` is no Go value: a loop of the model that
-- runs on fuel had not enough of it.
pub mod Ensures
use clienthellod.Common.{Bool, true, false, ◌≡◌, refl, ◌⊎◌, inl, inr, Option, none, some}

-- One constructor for each error value of the source. `wrapped` is `fmt.Errorf("...: %w", e)`.
pub data Error : Type 0 where
  eof unexpected_eof : Error
  invalid_first_byte invalid_vli_length : Error
  unknown_frame_type reassemble_failed : Error
  duplicate_fragment overlap_fragment too_many_fragments offset_too_high need_more_frames : Error
  gathering_expired packet_rejected closed_before_completion : Error
  fingerprinter_closed not_found recovered_panic : Error
  not_quic_long_header not_quic_initial unsupported_version : Error
  packet_too_short bad_dcid bad_scid token_too_long short_read payload_too_short : Error
  payload_too_long : Error
  not_tls_handshake bad_client_hello invalid_input decrypt_failed corrupted_parameter unknown_error
        builder_failed bad_ttl bad_arguments repeated_option exclusive_options no_option :
      Error
  wrapped : Error → Error

pub data Result {ℓ} (A : Type ℓ) : Type ℓ where
  ok : A → Result A
  err : Error → Result A
  panic stuck : Result A

-- The first outcome that is not a value ends a chain of calls.
infixl 5 ◌>>=◌
abbrev pub ◌>>=◌ {ℓ κ} : {A : Type ℓ} {B : Type κ} → Result A → (A → Result B) → Result B
panic >>= next = panic
stuck >>= next = stuck
err e >>= next = err e
ok a >>= next = next a

abbrev pub map_ok {ℓ κ} : {A : Type ℓ} {B : Type κ} → (A → B) → Result A → Result B
map_ok f (ok a) = ok (f a)
map_ok f (err e) = err e
map_ok f panic = panic
map_ok f stuck = stuck

-- A missing value is the error `e`.
abbrev pub some_or {ℓ} : {A : Type ℓ} → Error → Option A → Result A
some_or e none = err e
some_or e (some a) = ok a

-- A chain that ends in a value had a value at each step.
pub >>=-eq-ok {ℓ κ} :
    {A : Type ℓ} {B : Type κ} (first : Result A) (next : A → Result B) {b : B}
    → (first >>= next) ≡ ok b
    → (a : A) × (first ≡ ok a) × (next a ≡ ok b)
>>=-eq-ok panic next e = cc
>>=-eq-ok stuck next e = cc
>>=-eq-ok (err x) next e = cc
>>=-eq-ok (ok a) next e = (a, refl, e)

abbrev pub is_eof : Error → Bool
is_eof eof = true
is_eof _ = false

abbrev pub is_need_more_frames : Error → Bool
is_need_more_frames need_more_frames = true
is_need_more_frames _ = false

pub Result-cases {ℓ} :
    {A : Type ℓ} (r : Result A)
    → ((a : A) × (r ≡ ok a)) ⊎ (((e : Error) × (r ≡ err e)) ⊎ ((r ≡ panic) ⊎ (r ≡ stuck)))
Result-cases (ok a) = inl (a, refl)
Result-cases (err e) = inr (inl (e, refl))
Result-cases panic = inr (inr (inl refl))
Result-cases stuck = inr (inr (inr refl))

-- ===== src/TransportParameters/Order.antt =====
-- quic_transport_parameters.go: the same parameters in another order.
use clienthellod.Common.{
  ℕ, ◌≡◌, ◌≢◌, refl, sym, ap, ap₂, ◌∙◌, List, All, [], ◌∷◌, ◌++◌, append_assoc, append-nil, Option,
  none, some, get_or, inl, inr, Bool-cases, ◌==◌, if◌then◌else◌, arith,
}
use clienthellod.Outcome.{ok}
use clienthellod.Vli.{is_grease_transport_parameter}
use clienthellod.Hash.{as_hex}
use clienthellod.Sort.Order.{IsDistinct, IsDistinct-Perm, sort-Perm}
use clienthellod.TransportParameters.{
  Field, fields, place, QuicTransportParameters, new_parameters, qtp_grease, unset_vli_bits,
  write_field, case_of, store, add_id, calc_numeric_id, finish, parse_quic_transport_parameters,
}
use clienthellod.TransportParameters.Encode.{
  Param, IsParam, encode_params, apply_param, apply_params, parse_quic_transport_parameters-encode,
}
use mathlib.Core.List.{Permᴰ}
use mathlib.Core.Path.{fun_ext}

-- The list has each field at its place.
get_or-place : (f : Field) → get_or fields (place f) Field.max_idle_timeout ≡ f
get_or-place Field.max_idle_timeout = refl
get_or-place Field.max_udp_payload_size = refl
get_or-place Field.initial_max_data = refl
get_or-place Field.initial_max_stream_data_bidi_local = refl
get_or-place Field.initial_max_stream_data_bidi_remote = refl
get_or-place Field.initial_max_stream_data_uni = refl
get_or-place Field.initial_max_streams_bidi = refl
get_or-place Field.initial_max_streams_uni = refl
get_or-place Field.ack_delay_exponent = refl
get_or-place Field.max_ack_delay = refl
get_or-place Field.active_connection_id_limit = refl

place-injective : (f g : Field) → place f ≡ place g → f ≡ g
place-injective f g e =
    sym (get_or-place f) ∙ ap (λ n. get_or fields n Field.max_idle_timeout) e ∙ get_or-place g

-- Writes to two fields in either order.
write_field-swap :
    (f g : Field) (u v : List ℕ) (values : Field → List ℕ)
    → place f ≢ place g
    → write_field f u (write_field g v values) ≡ write_field g v (write_field f u values)
write_field-swap f g u v values ne = fun_ext (λ h. ground arith)

abbrev canonical : Param → ℕ
canonical p = if is_grease_transport_parameter p.0 then qtp_grease else p.0

abbrev ids : List Param → List ℕ
ids [] = []
ids (p ∷ ps) = canonical p ∷ ids ps

ids-Perm : {ps ps' : List Param} → Permᴰ ps ps' → Permᴰ (ids ps) (ids ps')
ids-Perm Permᴰ.nil = Permᴰ.nil
ids-Perm (Permᴰ.cons e p) = Permᴰ.cons (ap canonical e) (ids-Perm p)
ids-Perm (Permᴰ.swap e f) = Permᴰ.swap (ap canonical e) (ap canonical f)
ids-Perm (Permᴰ.trans p q) = Permᴰ.trans (ids-Perm p) (ids-Perm q)

module _ (dicttls : Field → ℕ) where
  case_of-some :
      (t : ℕ) (fs : List Field) (f : Field) → case_of dicttls t fs ≡ some f → t ≡ dicttls f
  case_of-some t [] f e = cc
  case_of-some t (g ∷ fs) f e = elim (Bool-cases (t == dicttls g)) [
    | inl y ↦ let ef : g ≡ f = ground arith in ground arith
    | inr n ↦ case_of-some t fs f (ground arith)
  ]

  -- What a parameter does to the values alone.
  abbrev write_case : Option Field → List ℕ → (Field → List ℕ) → (Field → List ℕ)
  write_case none v values = values
  write_case (some f) v values = write_field f (unset_vli_bits v) values

  abbrev write_param : Param → (Field → List ℕ) → (Field → List ℕ)
  write_param (t, []) values = values
  write_param (t, b ∷ bs) values = write_case (case_of dicttls t fields) (b ∷ bs) values

  abbrev write_params : List Param → (Field → List ℕ) → (Field → List ℕ)
  write_params [] values = values
  write_params (p ∷ ps) values = write_params ps (write_param p values)

  case-swap :
      (o o' : Option Field) (u v : List ℕ) (values : Field → List ℕ)
      → ((f g : Field) → o ≡ some f → o' ≡ some g → place f ≢ place g)
      → write_case o u (write_case o' v values) ≡ write_case o' v (write_case o u values)
  case-swap none o' u v values h = refl
  case-swap (some f) none u v values h = refl
  case-swap (some f) (some g) u v values h = write_field-swap f g _ _ values (h f g refl refl)

  param-swap :
      (a b : Param) (values : Field → List ℕ)
      → a.0 ≢ b.0
      → write_param a (write_param b values) ≡ write_param b (write_param a values)
  param-swap (t, []) b values ne = refl
  param-swap (t, x ∷ xs) (t', []) values ne = refl
  param-swap (t, x ∷ xs) (t', y ∷ ys) values ne =
      case-swap (case_of dicttls t fields) (case_of dicttls t' fields) (x ∷ xs) (y ∷ ys) values
        (λ f g e e' same. ne (
          case_of-some t fields f e
          ∙ ap dicttls (place-injective f g same)
          ∙ sym (case_of-some t' fields g e')))

  write_params-Perm :
      {ps ps' : List Param}
      → Permᴰ ps ps'
      → IsDistinct (λ p. p.0) ps
      → (values : Field → List ℕ) → write_params ps values ≡ write_params ps' values
  write_params-Perm Permᴰ.nil h values = refl
  write_params-Perm (Permᴰ.cons {b = b} {l₁ = l} e p) h values =
      ap (λ a. write_params l (write_param a values)) e
      ∙ write_params-Perm p h.1 (write_param b values)
  write_params-Perm (Permᴰ.swap {a} {b} {l = l} e f) h values =
      ap (write_params l) (sym (param-swap a b values h.0.0))
      ∙ ap₂ (λ x y. write_params l (write_param y (write_param x values))) f e
  write_params-Perm (Permᴰ.trans p q) h values =
      write_params-Perm p h values ∙ write_params-Perm q (IsDistinct-Perm (λ p. p.0) p h) values

  store-write_case :
      (o : Option Field) (v : List ℕ) (q : QuicTransportParameters)
      → elim o [
        | none ↦ q
        | some f ↦ record q { values = write_field f (unset_vli_bits v) q.values }
      ]
        ≡ record q { values = write_case o v q.values }
  store-write_case none v q = refl
  store-write_case (some f) v q = refl

  -- The two parts of what a parameter does.
  apply_param-parts :
      (p : Param) (q : QuicTransportParameters)
      → apply_param dicttls p q
        ≡ record q { values = write_param p q.values; qtp_ids = q.qtp_ids ++ canonical p ∷ [] }
  unfolding store add_id
  apply_param-parts (t, []) q = refl
  apply_param-parts (t, b ∷ bs) q =
      store-write_case (case_of dicttls t fields) (b ∷ bs) (add_id t q)

  apply_params-parts :
      (ps : List Param) (q : QuicTransportParameters)
      → apply_params dicttls ps q
        ≡ record q { values = write_params ps q.values; qtp_ids = q.qtp_ids ++ ids ps }
  apply_params-parts [] q = ap (λ l. record q { qtp_ids = l }) (sym (append-nil q.qtp_ids))
  apply_params-parts (p ∷ ps) q =
      ap (apply_params dicttls ps) (apply_param-parts p q)
      ∙ apply_params-parts ps
          (record q { values = write_param p q.values; qtp_ids = q.qtp_ids ++ canonical p ∷ [] })
      ∙ ap (λ l. record q { values = write_params (p ∷ ps) q.values; qtp_ids = l })
          (append_assoc q.qtp_ids (canonical p ∷ []) (ids ps))

  module _ (max_slice : ℕ) (sha1 : List ℕ → List ℕ) where
    -- The struct with the ids `l`, already sorted, and the values `v`.
    finished : List ℕ → (Field → List ℕ) → QuicTransportParameters
    finished l v =
        let q : QuicTransportParameters = record new_parameters {
          values = v;
          qtp_ids = l;
          parse_error = none;
        } in
        let id = calc_numeric_id sha1 q in record q { num_id = id; hex_id = as_hex id }

    -- Two extensions with the same transport parameters in a different order, no type occurring
    -- twice, are parsed to the same struct, and so get the same numeric id.
    pub parse_quic_transport_parameters-Perm :
        (ps ps' : List Param)
        → All (IsParam max_slice) ps
        → All (IsParam max_slice) ps'
        → IsDistinct (λ p. p.0) ps
        → Permᴰ ps ps'
        → parse_quic_transport_parameters max_slice dicttls sha1 (encode_params ps)
          ≡ parse_quic_transport_parameters max_slice dicttls sha1 (encode_params ps')
    unfolding finish finished
    parse_quic_transport_parameters-Perm ps ps' h h' d p =
        parse_quic_transport_parameters-encode max_slice dicttls sha1 ps h
        ∙ ap (λ q. ok (finish sha1 q)) (apply_params-parts ps new_parameters)
        ∙ ap₂ (λ l v. ok (finished l v)) (sort-Perm (ids-Perm p))
            (write_params-Perm p d new_parameters.values)
        ∙ sym (ap (λ q. ok (finish sha1 q)) (apply_params-parts ps' new_parameters))
        ∙ sym (parse_quic_transport_parameters-encode max_slice dicttls sha1 ps' h')

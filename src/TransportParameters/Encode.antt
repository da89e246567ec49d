-- ===== src/TransportParameters/Encode.antt =====
-- quic_transport_parameters.go: the parser and a writer in the format of RFC 9000.
use clienthellod.Common.{
  ℕ, zero, suc, ◌-◌, ◌^◌, ◌≤◌, ◌<◌, ◌≡◌, refl, sym, ap, subst, ◌∙◌, List, [], ◌∷◌, ◌++◌, length,
  length-append, take, drop, take-length_append, drop-length_append, append_assoc, All, All-append,
  none, some, true, false, ltb, ◌==◌, arith,
}
use clienthellod.Outcome.{ok}
use clienthellod.Reader.{Reader, content, read, bytes_reader}
use clienthellod.Reader.Laws.{Drained, read-Reads, flat_failed}
use clienthellod.Vli.{read_next_vli}
use clienthellod.Vli.Laws.{IsByte, spec_vli}
use clienthellod.Vli.RoundTrip.{encode_vli, spec_vli-encode, encode_vli-IsByte, of_spec}
use clienthellod.TransportParameters.{
  Field, QuicTransportParameters, new_parameters, store, add_id, finish, read_value, read_param,
  params_loop, parse_quic_transport_parameters,
}

-- A parameter on the wire: its type and its value.
abbrev pub Param : Type 0
Param = ℕ × List ℕ

abbrev pub encode_param : Param → List ℕ
encode_param (t, v) = encode_vli t ++ (encode_vli (length v) ++ v)

abbrev pub encode_params : List Param → List ℕ
encode_params [] = []
encode_params (p ∷ ps) = encode_param p ++ encode_params ps

pub record IsParam (max_slice : ℕ) (p : Param) : Type 0 where
  pub type_lem : p.0 < 2 ^ 62
  pub bytes : All IsByte p.1
  pub short : length p.1 ≤ max_slice
  pub length_lem : length p.1 < 2 ^ 62

module _ (dicttls : Field → ℕ) where
  -- What a parameter does to the struct: one without a value only adds its type.
  abbrev pub apply_param : Param → QuicTransportParameters → QuicTransportParameters
  apply_param (t, []) q = add_id t q
  apply_param (t, b ∷ bs) q = store dicttls t (b ∷ bs) (add_id t q)

  abbrev pub apply_params : List Param → QuicTransportParameters → QuicTransportParameters
  apply_params [] q = q
  apply_params (p ∷ ps) q = apply_params ps (apply_param p q)

record Gives (r : Reader) (rest : List ℕ) : Type 0 where
  content_lem : content r ≡ rest
  drained : Drained false r

length-encode_vli : (v : ℕ) → 0 < length (encode_vli v)
length-encode_vli v = ground arith

-- Reading an integer off the front.
read_front :
    (r : Reader) (v : ℕ) (rest : List ℕ)
    → v < 2 ^ 62
    → All IsByte rest
    → Gives r (encode_vli v ++ rest)
    → (r' : Reader) × (read_next_vli r ≡ ok ((v, length (encode_vli v)), r')) × Gives r' rest
read_front r v rest h k g =
    let bytes = All-append IsByte (encode_vli v) rest (encode_vli-IsByte v h) k in
    let (r', e, c, d) =
      of_spec r g.drained (subst (All IsByte) (sym g.content_lem) bytes)
        (ap spec_vli g.content_lem ∙ spec_vli-encode v rest h) in
    (r', e, record { content_lem = c; drained = d })

module _ (max_slice : ℕ) (dicttls : Field → ℕ) where
  read_value-Gives :
      (t : ℕ) (v rest : List ℕ) (r : Reader) (q : QuicTransportParameters)
      → length v ≤ max_slice
      → Gives r (v ++ rest)
      → (r' : Reader) × (read_value max_slice dicttls t (length v) r (add_id t q)
          ≡ ok (apply_param dicttls (t, v) q, some r'))
        × Gives r' rest
  unfolding read_value
  read_value-Gives t [] rest r q h g = (r, refl, g)
  read_value-Gives t (b ∷ bs) rest r q h g =
      let d = read-Reads r (length bs) g.drained.0 in
      let c = g.content_lem in
      let got : (read r (suc (length bs))).got ≡ b ∷ bs =
        d.got_lem ∙ ap (take (suc (length bs))) c ∙ take-length_append (b ∷ bs) rest in
      let good : (read r (suc (length bs))).failed ≡ none = d.failed_lem ∙ ap flat_failed c in
      let left : content (read r (suc (length bs))).rest ≡ rest =
        d.rest_lem ∙ ap (drop (suc (length bs))) c ∙ drop-length_append (b ∷ bs) rest in
      let fits : ltb max_slice (suc (length bs)) ≡ false = ground arith in
      let filled : (suc (length bs) == 0) ≡ false = ground arith in
      let whole : (suc (length bs) == suc (length bs)) ≡ true = ground arith in
      (
        (read r (suc (length bs))).rest,
        rw (filled, fits, good, got, whole) refl,
        record { content_lem = left; drained = (d.rest-IsDrained, tt) },
      )

  read_param-value :
      (r r₁ r₂ : Reader) (q : QuicTransportParameters) {t n len m : ℕ}
      → read_next_vli r ≡ ok ((t, n), r₁)
      → read_next_vli r₁ ≡ ok ((len, m), r₂)
      → read_param max_slice dicttls r q ≡ read_value max_slice dicttls t len r₂ (add_id t q)
  unfolding read_param
  read_param-value r r₁ r₂ q e₁ e₂ = rw (e₁, e₂, read_param) refl

  read_param-Gives :
      (p : Param) (rest : List ℕ) (r : Reader) (q : QuicTransportParameters)
      → IsParam max_slice p
      → All IsByte rest
      → Gives r (encode_param p ++ rest)
      → (r' : Reader) × (read_param max_slice dicttls r q ≡ ok (apply_param dicttls p q, some r'))
        × Gives r' rest
  unfolding read_param
  read_param-Gives (t, v) rest r q h k g =
      let k' = All-append IsByte v rest h.bytes k in
      let k'' =
        All-append IsByte (encode_vli (length v)) (v ++ rest)
          (encode_vli-IsByte (length v) h.length_lem) k' in
      let flat =
        append_assoc (encode_vli t) (encode_vli (length v) ++ v) rest
        ∙ ap (λ s. encode_vli t ++ s) (append_assoc (encode_vli (length v)) v rest) in
      let (r₁, e₁, g₁) =
        read_front r t (encode_vli (length v) ++ (v ++ rest)) h.type_lem k''
          (record { content_lem = g.content_lem ∙ flat; drained = g.drained }) in
      let (r₂, e₂, g₂) = read_front r₁ (length v) (v ++ rest) h.length_lem k' g₁ in
      let (r₃, e₃, g₃) = read_value-Gives t v rest r₂ q h.short g₂ in
      (r₃, read_param-value r r₁ r₂ q e₁ e₂ ∙ e₃, g₃)

  encode_params-IsByte :
      (ps : List Param) → All (IsParam max_slice) ps → All IsByte (encode_params ps)
  encode_params-IsByte [] h = tt
  encode_params-IsByte ((t, v) ∷ ps) h =
      All-append IsByte (encode_param (t, v)) (encode_params ps)
        (All-append IsByte (encode_vli t) (encode_vli (length v) ++ v)
          (encode_vli-IsByte t h.0.type_lem)
          (All-append IsByte (encode_vli (length v)) v (encode_vli-IsByte (length v) h.0.length_lem)
            h.0.bytes))
        (encode_params-IsByte ps h.1)

  -- A round for each parameter.
  length-encode_params : (ps : List Param) → length ps ≤ length (encode_params ps)
  length-encode_params [] = omega arith
  length-encode_params ((t, v) ∷ ps) =
      let e = length-append (encode_param (t, v)) (encode_params ps) in
      let e' = length-append (encode_vli t) (encode_vli (length v) ++ v) in
      omega (arith, length-encode_params ps, length-encode_vli t)

  filled :
      (p : Param) (ps : List Param) (r : Reader)
      → Gives r (encode_params (p ∷ ps))
      → 0 < length (content r)
  filled p ps r g = omega (arith, ap length g.content_lem, length-encode_params (p ∷ ps))

  module _ (sha1 : List ℕ → List ℕ) where
    params_loop-round :
        (fuel : ℕ) (r r' : Reader) (q q' : QuicTransportParameters)
        → 0 < length (content r)
        → read_param max_slice dicttls r q ≡ ok (q', some r')
        → params_loop max_slice dicttls sha1 (suc fuel) r q
          ≡ params_loop max_slice dicttls sha1 fuel r' q'
    unfolding params_loop
    params_loop-round fuel r r' q q' h e =
        let some_left : length (content r) ≡ suc (length (content r) - 1) = omega arith in
        rw (some_left, e, params_loop) refl

    params_loop-encode :
        (ps : List Param) (fuel : ℕ) (r : Reader) (q : QuicTransportParameters)
        → All (IsParam max_slice) ps
        → Gives r (encode_params ps)
        → length ps < fuel
        → params_loop max_slice dicttls sha1 fuel r q ≡ ok (finish sha1 (apply_params dicttls ps q))
    unfolding params_loop
    params_loop-encode ps zero r q h g lt = absurd (omega arith)
    params_loop-encode [] (suc fuel) r q h g lt =
        let e = ap length g.content_lem in rw (e, params_loop) refl
    params_loop-encode (p ∷ ps) (suc fuel) r q h g lt =
        let (r', e, g') =
          read_param-Gives p (encode_params ps) r q h.0 (encode_params-IsByte ps h.1) g in
        let ih = params_loop-encode ps fuel r' (apply_param dicttls p q) h.1 g' (omega arith) in
        params_loop-round fuel r r' q (apply_param dicttls p q) (filled p ps r g) e ∙ ih

    pub parse_quic_transport_parameters-encode :
        (ps : List Param)
        → All (IsParam max_slice) ps
        → parse_quic_transport_parameters max_slice dicttls sha1 (encode_params ps)
          ≡ ok (finish sha1 (apply_params dicttls ps new_parameters))
    unfolding parse_quic_transport_parameters
    parse_quic_transport_parameters-encode ps h =
        params_loop-encode ps (suc (length (encode_params ps))) (bytes_reader (encode_params ps))
          new_parameters h (record { content_lem = refl; drained = (tt, tt) })
          (omega (arith, length-encode_params ps))

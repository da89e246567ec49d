-- ===== src/Reconstructor/Piece.antt =====
-- quic_clienthello_reconstructor.go: `AddCRYPTOFragment` on a piece of a ClientHello that touches
-- nothing held so far.
use clienthellod.Common.{
  ℕ, ◌+◌, ◌*◌, ◌≤◌, ◌<◌, ◌≡◌, ◌⊎◌, arith, none, some, List, [], ◌∷◌, length, All, ltb, Bool-cases,
  inl, inr,
}
use clienthellod.Outcome.{eof}
use clienthellod.Reconstructor.{
  Reconstructor, Fragment, refusal, set_full_len, verdict, save, accept, add_crypto_fragment,
  declared_length, max_crypto_length, max_crypto_fragments,
}
use clienthellod.Reconstructor.Pending.{len, end}
use clienthellod.Reconstructor.Assemble.{Inv, held}
use clienthellod.Reconstructor.Invariant.{
  refusal-Passed, save-Inv, set_full_len-same, set_full_len-Inv,
}
use clienthellod.Reconstructor.Packing.{held-lt}
use clienthellod.Reconstructor.Stream.{Follows, IsPart, accept-save-IsPart}
use clienthellod.Reconstructor.Keep.{Clear, save-All, save-full_len, refusal-Clear}

buf-le-held : (q : Reconstructor) → length q.buf ≤ held q
unfolding held
buf-le-held q = omega arith

-- Under the invariant nothing is pending once as much is held as there is.
buf_full :
    (size : ℕ) (q : Reconstructor)
    → Inv q
    → All (λ x. end x ≤ size) q.frags
    → held q ≡ size
    → length q.buf ≡ size
buf_full size q v h e = elim (Bool-cases (ltb (length q.buf) size)) [
  | inl y ↦ absurd (omega (arith, e, held-lt q size v (ground arith) h))
  | inr n ↦ let ge : size ≤ length q.buf = ground arith in omega (arith, buf-le-held q)
]

module _ (stream : ℕ → ℕ) (size : ℕ) where
  -- The stream is a handshake message: bytes 1 to 3 give its size, header included, which is more
  -- than the header and at most 0x10000.
  pub record IsMessage : Type 0 where
    pub declared : stream 1 * 65536 + stream 2 * 256 + stream 3 + 4 ≡ size
    pub body : 4 < size
    pub fits : size ≤ max_crypto_length

  -- A piece of the message that is not empty.
  pub record IsPiece (c : Fragment) : Type 0 where
    pub carried : Follows stream c.0 c.1
    pub nonempty : 0 < len c
    pub within : end c ≤ size

  declared_length-Follows :
      (buf : List ℕ)
      → IsMessage
      → Follows stream 0 buf
      → 4 < length buf
      → declared_length buf ≡ size
  unfolding declared_length
  declared_length-Follows [] m h l = absurd (omega arith)
  declared_length-Follows (a ∷ []) m h l = absurd (omega arith)
  declared_length-Follows (a ∷ b ∷ []) m h l = absurd (omega arith)
  declared_length-Follows (a ∷ b ∷ c ∷ []) m h l = absurd (omega arith)
  declared_length-Follows (a ∷ b ∷ c ∷ d ∷ bs) m h l =
      omega (arith, m.declared, h.1.0, h.1.1.0, h.1.1.1.0)

  -- The reconstructor while pieces of the message are still to come.
  pub record Loading (q : Reconstructor) : Type 0 where
    pub inv : Inv q
    pub part : IsPart stream q
    pub inside : All (λ x. end x ≤ size) q.frags
    pub known : (q.full_len ≡ 0) ⊎ (q.full_len ≡ size)

  -- What `AddCRYPTOFragment` does with a piece that touches nothing held so far.
  pub record Adds (q : Reconstructor) (off : ℕ) (f : List ℕ) : Type 0 where
    pub same : (add_crypto_fragment q off f).0 ≡ set_full_len (save q off f)
    pub loading : Loading (set_full_len (save q off f))
    pub more : held (save q off f) < size → (add_crypto_fragment q off f).1 ≡ none
    pub complete :
        held (save q off f) ≡ size
        → ((add_crypto_fragment q off f).1 ≡ some eof)
          × (length (set_full_len (save q off f)).buf ≡ size)
          × ((set_full_len (save q off f)).full_len ≡ size)

  full_len-cases :
      (q : Reconstructor)
      → IsMessage
      → (q.full_len ≡ 0) ⊎ (q.full_len ≡ size)
      → (4 < length q.buf → declared_length q.buf ≡ size)
      → ((set_full_len q).full_len ≡ 0) ⊎ ((set_full_len q).full_len ≡ size)
  unfolding set_full_len
  full_len-cases q m k d = let body = m.body in let fits = m.fits in ground arith

  verdict_more :
      (q : Reconstructor)
      → IsMessage
      → (q.full_len ≡ 0) ⊎ (q.full_len ≡ size)
      → (4 < length q.buf → declared_length q.buf ≡ size)
      → length q.buf < size
      → verdict q (set_full_len q) ≡ none
  unfolding set_full_len verdict
  verdict_more q m k d l = let body = m.body in let fits = m.fits in ground arith

  verdict_complete :
      (q : Reconstructor)
      → IsMessage
      → (q.full_len ≡ 0) ⊎ (q.full_len ≡ size)
      → (4 < length q.buf → declared_length q.buf ≡ size)
      → length q.buf ≡ size
      → (verdict q (set_full_len q) ≡ some eof) × ((set_full_len q).full_len ≡ size)
  unfolding set_full_len verdict
  verdict_complete q m k d l = let body = m.body in let fits = m.fits in ground arith

  pub Adds-of_Clear :
      (q : Reconstructor) (c : Fragment)
      → IsMessage
      → Loading q
      → IsPiece c
      → Clear q c
      → length q.frags ≤ max_crypto_fragments
      → Adds q c.0 c.1
  unfolding add_crypto_fragment accept
  Adds-of_Clear q c m g p k few =
      let q₁ = save q c.0 c.1 in
      let fits = m.fits in
      let within = p.within in
      let ok : refusal q c.0 c.1 ≡ none = refusal-Clear q c.0 c.1 g.inv k (omega arith) few in
      let passed = refusal-Passed q c.0 c.1 g.inv (omega arith) ok in
      let inv₁ = save-Inv q c.0 c.1 g.inv passed in
      let part = accept-save-IsPart stream q c.0 c.1 p.carried g.part in
      let (sb, sf) = set_full_len-same q₁ in
      let inside : All (λ x. end x ≤ size) q₁.frags =
        save-All (λ x. end x ≤ size) q c.0 c.1 within g.inside in
      let known : (q₁.full_len ≡ 0) ⊎ (q₁.full_len ≡ size) = rw (save-full_len q c.0 c.1) g.known in
      let prefix : Follows stream 0 q₁.buf = rw (← sb) part.prefix in
      let dec : (4 < length q₁.buf → declared_length q₁.buf ≡ size) =
        λ l. declared_length-Follows q₁.buf m prefix l in
      record {
        same = rw (ok, add_crypto_fragment);
        loading = record {
          inv = set_full_len-Inv q₁ inv₁;
          part = part;
          inside = rw sf inside;
          known = full_len-cases q₁ m known dec;
        };
        more = λ h.
            rw (ok, add_crypto_fragment)
              (verdict_more q₁ m known dec (omega (arith, buf-le-held q₁)));
        complete = λ h.
            let full = buf_full size q₁ inv₁ inside h in
            let (v, f) = verdict_complete q₁ m known dec full in
            (rw (ok, add_crypto_fragment) v, rw sb full, f);
      }

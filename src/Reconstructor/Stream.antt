-- ===== src/Reconstructor/Stream.antt =====
-- quic_clienthello_reconstructor.go: fragments of one stream of bytes.
use clienthellod.Common.{
  ℕ, zero, suc, ◌+◌, ◌%◌, ◌^◌, ◌≡◌, subst, arith, List, [], ◌∷◌, ◌++◌, length, All, ltb, ◌==◌,
  Bool-cases, Option-cases, inl, inr,
}
use clienthellod.Frame.{Frame, padding, ping, crypto}
use clienthellod.Reconstructor.{
  Reconstructor, Fragment, new_reconstructor, lookup, refusal, assemble, set_full_len, save, accept,
  add_crypto_fragment, from_frames, reconstruct_as_bytes,
}
use clienthellod.Reconstructor.Pending.{All-delete, All-lookup}
use clienthellod.Reconstructor.Assemble.{moved}
use clienthellod.Reconstructor.Invariant.{staged, set_full_len-same}

-- The reconstructor after the CRYPTO frames of several packets.
abbrev pub feed : Reconstructor → List (List Frame) → Reconstructor
feed q [] = q
feed q (p ∷ ps) = feed (from_frames q p).0 ps

-- `bs` stands at offset `k` of the stream.
abbrev pub Follows : (ℕ → ℕ) → ℕ → List ℕ → Type 0
Follows stream k [] = Unit {0}
Follows stream k (b ∷ bs) = (b ≡ stream k) × Follows stream (suc k) bs

module _ (stream : ℕ → ℕ) where
  pub Follows-append :
      (k : ℕ) (xs ys : List ℕ)
      → Follows stream k xs
      → Follows stream (k + length xs) ys
      → Follows stream k (xs ++ ys)
  Follows-append k [] ys h t =
      let e : k + 0 ≡ k = omega arith in subst (λ n. Follows stream n ys) e t
  Follows-append k (x ∷ xs) ys h t =
      let e : k + suc (length xs) ≡ suc k + length xs = omega arith in
      (h.0, Follows-append (suc k) xs ys h.1 (subst (λ n. Follows stream n ys) e t))

  abbrev pub Placed : Fragment → Type 0
  Placed x = Follows stream x.0 x.1

  pub record IsPart (q : Reconstructor) : Type 0 where
    pub prefix : Follows stream 0 q.buf
    pub pending : All Placed q.frags

  assemble-IsPart : (fuel : ℕ) (q : Reconstructor) → IsPart q → IsPart (assemble fuel q)
  unfolding assemble
  assemble-IsPart zero q s = s
  assemble-IsPart (suc fuel) q s = elim (Option-cases (lookup (length q.buf) q.frags)) [
    | inl e ↦ rw (e, assemble) s
    | inr (f, e) ↦
        let here : Follows stream (length q.buf) f =
          All-lookup Placed (length q.buf) q.frags e s.pending in
        let zeroth : length q.buf ≡ 0 + length q.buf = omega arith in
        rw (e, assemble)
          (assemble-IsPart fuel (moved q f) (record {
            prefix =
                Follows-append 0 q.buf f s.prefix (subst (λ n. Follows stream n f) zeroth here);
            pending = All-delete Placed (length q.buf) q.frags s.pending;
          }))
  ]

  set_full_len-IsPart : (q : Reconstructor) → IsPart q → IsPart (set_full_len q)
  set_full_len-IsPart q s =
      let (b, f) = set_full_len-same q in
      record { prefix = rw b s.prefix; pending = rw f s.pending }

  pub accept-save-IsPart :
      (q : Reconstructor) (off : ℕ) (f : List ℕ)
      → Follows stream off f
      → IsPart q
      → IsPart (set_full_len (save q off f))
  unfolding save
  accept-save-IsPart q off f h s =
      set_full_len-IsPart _ (
        assemble-IsPart _ (staged q off f) (record { prefix = s.prefix; pending = (h, s.pending) }))

  -- Whether the fragment is taken or refused, what the reconstructor holds agrees with the stream.
  pub add_crypto_fragment-IsPart :
      (q : Reconstructor) (off : ℕ) (f : List ℕ)
      → Follows stream off f
      → IsPart q
      → IsPart (add_crypto_fragment q off f).0
  unfolding add_crypto_fragment accept
  add_crypto_fragment-IsPart q off f h s = elim (Option-cases (refusal q off f)) [
    | inl e ↦ rw (e, add_crypto_fragment) (accept-save-IsPart q off f h s)
    | inr (x, e) ↦ rw (e, add_crypto_fragment) s
  ]

  -- The CRYPTO frames of a packet carry bytes of the stream.
  abbrev pub Carries : Frame → Type 0
  Carries (padding n) = Unit {0}
  Carries ping = Unit {0}
  Carries (crypto off len bytes) = Follows stream off bytes

  from_frames-IsPart :
      (q : Reconstructor) (fs : List Frame)
      → All Carries fs
      → IsPart q
      → IsPart (from_frames q fs).0
  unfolding from_frames
  from_frames-IsPart q [] h s = s
  from_frames-IsPart q (padding n ∷ fs) h s = from_frames-IsPart q fs h.1 s
  from_frames-IsPart q (ping ∷ fs) h s = from_frames-IsPart q fs h.1 s
  from_frames-IsPart q (crypto off len bytes ∷ fs) h s =
      let s' = add_crypto_fragment-IsPart q off bytes h.0 s in
      elim (Option-cases (add_crypto_fragment q off bytes).1) [
        | inl e ↦
            rw (e, from_frames) (from_frames-IsPart (add_crypto_fragment q off bytes).0 fs h.1 s')
        | inr (x, e) ↦ rw (e, from_frames) s'
      ]

  feed-IsPart :
      (packets : List (List Frame)) (q : Reconstructor)
      → All (All Carries) packets
      → IsPart q
      → IsPart (feed q packets)
  feed-IsPart [] q h s = s
  feed-IsPart (p ∷ ps) q h s = feed-IsPart ps (from_frames q p).0 h.1 (from_frames-IsPart q p h.0 s)

  bytes-Follows : (q : Reconstructor) → IsPart q → Follows stream 0 (reconstruct_as_bytes q)
  unfolding reconstruct_as_bytes
  bytes-Follows q s = elim (Bool-cases (q.full_len == 0)) [
    | inl y ↦ rw (y, reconstruct_as_bytes) tt
    | inr n ↦ elim (Bool-cases (ltb (length q.buf % 2 ^ 32) q.full_len)) [
      | inl y ↦ rw (n, y, reconstruct_as_bytes) tt
      | inr m ↦ rw (n, m, reconstruct_as_bytes) s.prefix
    ]
  ]

  -- If all CRYPTO frames of all packets carry bytes of one stream at their offsets, whatever their
  -- order, overlap or repetition, then the bytes that a new reconstructor gives after those
  -- packets are a prefix of that stream.
  pub reconstruct_as_bytes-Follows :
      (packets : List (List Frame))
      → All (All Carries) packets
      → Follows stream 0 (reconstruct_as_bytes (feed new_reconstructor packets))
  reconstruct_as_bytes-Follows packets h =
      bytes-Follows _
        (feed-IsPart packets new_reconstructor h (record { prefix = tt; pending = tt }))

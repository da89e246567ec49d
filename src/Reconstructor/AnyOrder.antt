-- ===== src/Reconstructor/AnyOrder.antt =====
-- quic_clienthello_reconstructor.go: `FromFrames` on the fragments of one ClientHello in any order.
use clienthellod.Common.{
  ℕ, ◌+◌, ◌≤◌, ◌<◌, ◌≡◌, ◌≢◌, ◌⊎◌, refl, ap, arith, Option, none, List, [], ◌∷◌, length, All,
  All-both, All-map, inl, inr,
}
use clienthellod.Outcome.{Error}
use clienthellod.Frame.{Frame, padding, ping, crypto}
use clienthellod.Reconstructor.{
  Reconstructor, Fragment, new_reconstructor, set_full_len, save, add_crypto_fragment, from_frames,
  reconstruct_as_bytes, max_crypto_fragments,
}
use clienthellod.Reconstructor.Pending.{Separate, Separate-sym, Apart}
use clienthellod.Reconstructor.Assemble.{new-Inv, total, held}
use clienthellod.Reconstructor.Invariant.{set_full_len-same}
use clienthellod.Reconstructor.Stream.{Follows}
use clienthellod.Reconstructor.Keep.{Clear, length-save, held-save, save-Clear}
use clienthellod.Reconstructor.Piece.{IsMessage, IsPiece, Loading, Adds, Adds-of_Clear}

-- The fragments that the CRYPTO frames of a packet carry.
abbrev pub fragments : List Frame → List Fragment
fragments [] = []
fragments (padding n ∷ fs) = fragments fs
fragments (ping ∷ fs) = fragments fs
fragments (crypto off n bytes ∷ fs) = (off, bytes) ∷ fragments fs

module _ (stream : ℕ → ℕ) (size : ℕ) where
  -- The pieces still to come, and what is held: together the whole message.
  pub record Remaining (q : Reconstructor) (cs : List Fragment) : Type 0 where
    pub loading : Loading stream size q
    pub pieces : All (IsPiece stream size) cs
    pub apart : Apart cs
    pub clear : All (Clear q) cs
    pub room : length q.frags + length cs ≤ max_crypto_fragments + 1
    pub whole : held q + total cs ≡ size

  pub record Loaded (r : Reconstructor × Option Error) : Type 0 where
    pub success : r.1 ≡ none
    pub length_lem : length r.0.buf ≡ size
    pub full_len_lem : r.0.full_len ≡ size
    pub prefix : Follows stream 0 r.0.buf

  still-Clear :
      (q : Reconstructor) (c x : Fragment)
      → Separate c x
      → Clear q x
      → Clear (set_full_len (save q c.0 c.1)) x
  still-Clear q c x s k =
      let (sb, sf) = set_full_len-same (save q c.0 c.1) in
      let k' = save-Clear x q c.0 c.1 (Separate-sym c x s) k in
      record { behind = rw sb k'.behind; apart = rw sf k'.apart }

  -- One more piece leaves the rest to come.
  pub add-Remaining :
      (q : Reconstructor) (c : Fragment) (cs : List Fragment)
      → IsMessage stream size
      → Remaining q (c ∷ cs)
      → (a : Adds stream size q c.0 c.1) → Remaining (set_full_len (save q c.0 c.1)) cs
  unfolding total held
  add-Remaining q c cs m r a =
      let (sb, sf) = set_full_len-same (save q c.0 c.1) in
      record {
        loading = a.loading;
        pieces = r.pieces.1;
        apart = r.apart.1;
        clear = All-both (λ x s k. still-Clear q c x s k) cs r.apart.0 r.clear.1;
        room = rw sf (let room = r.room in omega (arith, length-save q c.0 c.1));
        whole = rw (sb, sf) (let whole = r.whole in omega (arith, held-save q c.0 c.1));
      }

  pub last-or-more :
      (cs : List Fragment) → All (IsPiece stream size) cs → (cs ≡ []) ⊎ (0 < total cs)
  unfolding total
  last-or-more [] h = inl refl
  last-or-more (c ∷ cs) h = let n = h.0.nonempty in inr (omega arith)

  pub from_frames-Loaded :
      (fs : List Frame) (q : Reconstructor)
      → IsMessage stream size
      → Remaining q (fragments fs)
      → fragments fs ≢ []
      → Loaded (from_frames q fs)
  unfolding from_frames total
  from_frames-Loaded [] q m r ne = absurd (ne refl)
  from_frames-Loaded (padding n ∷ fs) q m r ne = from_frames-Loaded fs q m r ne
  from_frames-Loaded (ping ∷ fs) q m r ne = from_frames-Loaded fs q m r ne
  from_frames-Loaded (crypto off n bytes ∷ fs) q m r ne =
      let c : Fragment = (off, bytes) in
      let room = r.room in
      let a = Adds-of_Clear stream size q c m r.loading r.pieces.0 r.clear.0 (omega arith) in
      let r' = add-Remaining q c (fragments fs) m r a in
      let whole = r.whole in
      let kept = held-save q off bytes in
      elim (last-or-more (fragments fs) r.pieces.1) [
        | inl last ↦
            let none_left : total (fragments fs) ≡ 0 = ap total last in
            let (e, full, fl) = a.complete (omega arith) in
            rw (e, from_frames)
              (record {
                success = refl;
                length_lem = rw a.same full;
                full_len_lem = rw a.same fl;
                prefix = rw a.same a.loading.part.prefix;
              })
        | inr left ↦
            rw (a.more (omega arith), from_frames)
              (from_frames-Loaded fs (add_crypto_fragment q off bytes).0 m (rw a.same r')
                (λ e. let z : total (fragments fs) ≡ 0 = ap total e in omega arith))
      ]

  pub start-Remaining :
      (cs : List Fragment)
      → All (IsPiece stream size) cs
      → Apart cs
      → length cs ≤ max_crypto_fragments + 1
      → total cs ≡ size
      → Remaining new_reconstructor cs
  unfolding held total
  start-Remaining cs p a l t = record {
    loading = record {
      inv = new-Inv;
      part = record { prefix = tt; pending = tt };
      inside = tt;
      known = inl refl;
    };
    pieces = p;
    apart = a;
    clear = All-map (λ x h. record { behind = omega arith; apart = tt }) cs p;
    room = omega arith;
    whole = omega arith;
  }

  -- A loaded reconstructor gives its buffer.
  pub reconstruct_as_bytes-Loaded :
      (r : Reconstructor × Option Error)
      → IsMessage stream size
      → Loaded r
      → reconstruct_as_bytes r.0 ≡ r.0.buf
  unfolding reconstruct_as_bytes
  reconstruct_as_bytes-Loaded r m d =
      let body = m.body in
      let fits = m.fits in let full = d.full_len_lem in let long = d.length_lem in ground arith

  -- The frames of a packet, in any order and with PADDING and PING between them, carry at most 33
  -- pieces of a handshake message of more than 4 and at most 0x10000 bytes that declares its
  -- size. The pieces are not empty, do not overlap, and together have that size. Then a new
  -- reconstructor takes them without error, and gives the whole message: as many bytes as it
  -- declares, each as in the stream.
  pub reconstruct_as_bytes-from_frames :
      (fs : List Frame)
      → IsMessage stream size
      → All (IsPiece stream size) (fragments fs)
      → Apart (fragments fs)
      → length (fragments fs) ≤ max_crypto_fragments + 1
      → total (fragments fs) ≡ size
      → ((from_frames new_reconstructor fs).1 ≡ none)
        × (length (reconstruct_as_bytes (from_frames new_reconstructor fs).0) ≡ size)
        × Follows stream 0 (reconstruct_as_bytes (from_frames new_reconstructor fs).0)
  unfolding total
  reconstruct_as_bytes-from_frames fs m p a l t =
      let body = m.body in
      let some_left : fragments fs ≢ [] =
        λ e. let z : total (fragments fs) ≡ 0 = ap total e in omega arith in
      let d =
        from_frames-Loaded fs new_reconstructor m (start-Remaining (fragments fs) p a l t)
          some_left in
      let given = reconstruct_as_bytes-Loaded (from_frames new_reconstructor fs) m d in
      (d.success, rw given d.length_lem, rw given d.prefix)

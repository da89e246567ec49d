-- ===== src/Reconstructor/Partial.antt =====
-- quic_clienthello_reconstructor.go: a packet with some of the pieces of a ClientHello, but not the
-- last to come.
use clienthellod.Common.{
  ℕ, zero, suc, ◌≡◌, ◌≢◌, inl, inr, refl, ap₂, arith, some, List, [], ◌∷◌, ◌++◌, length,
}
use clienthellod.Outcome.{need_more_frames}
use clienthellod.Frame.{Frame, padding, ping, crypto}
use clienthellod.Reconstructor.{Reconstructor, Fragment, add_crypto_fragment, from_frames}
use clienthellod.Reconstructor.Assemble.{total}
use clienthellod.Reconstructor.Keep.{held-save}
use clienthellod.Reconstructor.Stream.{Follows}
use clienthellod.Reconstructor.Piece.{IsMessage, Adds-of_Clear}
use clienthellod.Reconstructor.AnyOrder.{fragments, Remaining, add-Remaining, last-or-more}

-- The first `n` bytes of a stream from an offset on.
abbrev pub stream_bytes : (ℕ → ℕ) → ℕ → ℕ → List ℕ
stream_bytes stream off zero = []
stream_bytes stream off (suc n) = stream off ∷ stream_bytes stream (suc off) n

pub Follows-eq :
    (stream : ℕ → ℕ) (bs : List ℕ) (off n : ℕ)
    → Follows stream off bs
    → length bs ≡ n
    → bs ≡ stream_bytes stream off n
Follows-eq stream [] off zero f l = refl
Follows-eq stream [] off (suc n) f l = absurd (omega arith)
Follows-eq stream (b ∷ bs) off zero f l = absurd (omega arith)
Follows-eq stream (b ∷ bs) off (suc n) f l =
    ap₂ (λ x xs. x ∷ xs) f.0 (Follows-eq stream bs (suc off) n f.1 (omega arith))

pub some_more : (cs more : List Fragment) → more ≢ [] → cs ++ more ≢ []
some_more [] more ne = ne
some_more (c ∷ cs) more ne = λ e. cc

module _ (stream : ℕ → ℕ) (size : ℕ) where
  pub from_frames-Remaining :
      (fs : List Frame) (q : Reconstructor) (more : List Fragment)
      → IsMessage stream size
      → Remaining stream size q (fragments fs ++ more)
      → more ≢ []
      → ((from_frames q fs).1 ≡ some need_more_frames)
        × Remaining stream size (from_frames q fs).0 more
  unfolding from_frames total
  from_frames-Remaining [] q more m r ne = (refl, r)
  from_frames-Remaining (padding n ∷ fs) q more m r ne = from_frames-Remaining fs q more m r ne
  from_frames-Remaining (ping ∷ fs) q more m r ne = from_frames-Remaining fs q more m r ne
  from_frames-Remaining (crypto off n bytes ∷ fs) q more m r ne =
      let c : Fragment = (off, bytes) in
      let cs = fragments fs ++ more in
      let room = r.room in
      let a = Adds-of_Clear stream size q c m r.loading r.pieces.0 r.clear.0 (omega arith) in
      let r' = add-Remaining stream size q c cs m r a in
      let whole = r.whole in
      let kept = held-save q off bytes in
      elim (last-or-more stream size cs r.pieces.1) [
        | inl last ↦ absurd (some_more (fragments fs) more ne last)
        | inr left ↦
            rw (a.more (omega arith), from_frames)
              (from_frames-Remaining fs (add_crypto_fragment q off bytes).0 more m (rw a.same r')
                ne)
      ]

-- ===== src/Gather/Invariant.antt =====
-- quic_client_initial.go: the well-formedness of a gathering.
use clienthellod.Common.{
  ℕ, ◌≤◌, ◌<◌, ◌≡◌, ◌≢◌, ◌⊎◌, inl, inr, refl, ◌∙◌, Bool, true, false, Option, none, some,
  Option-cases, List, [], ◌∷◌, ◌++◌, length, length-append, All, All-append, if-cases, arith,
}
use clienthellod.Outcome.{Result, ok, err, panic, stuck}
use clienthellod.Reconstructor.{Reconstructor, from_frames}
use clienthellod.Reconstructor.Assemble.{Inv, new-Inv}
use clienthellod.Reconstructor.Memory.{FitsU64, from_frames-Inv}
use clienthellod.Sort.{sort_by, IsSorted}
use clienthellod.Sort.Order.{
  sort_by-All, sort_by-IsSorted, length-sort_by, IsDistinct, IsDistinct-Perm, IsDistinct-snoc,
  Perm-sort_by,
}
use clienthellod.ClientHello.{ClientHello}
use clienthellod.Gather.{
  ClientInitial, GatheredClientInitials, number, pn_distance, anchor, rejects, seen, expired,
  gather_client_initials, reconstruct, mark_complete, set_client_hello, locked_gather_complete,
  collect, admit, add_packet, calc_numeric_id,
}
use clienthellod.TransportParameters.{QuicTransportParameters}
use clienthellod.Hash.{as_hex}

-- The first packets of a connection: sorted, none twice, not too many and none too far away. The
-- reconstructor is well formed, and a completed gathering has its ClientHello.
pub record IsWellFormed (g : GatheredClientInitials) : Type 0 where
  pub ordered : IsSorted number g.packets
  pub distinct : IsDistinct number g.packets
  pub near : All (λ p. pn_distance (number p) g.pn_base ≤ g.max_packet_number) g.packets
  pub few : length g.packets ≤ g.max_packet_count
  pub anchored : (g.pn_base_set ≡ true) ⊎ (g.packets ≡ [])
  pub assembling : Inv g.reconstructor
  pub hello : g.completed ≡ true → g.client_hello ≢ none

pub new-IsWellFormed : IsWellFormed gather_client_initials
new-IsWellFormed = record {
  ordered = tt;
  distinct = tt;
  near = tt;
  few = omega arith;
  anchored = inr refl;
  assembling = new-Inv;
  hello = λ e. cc;
}

-- The fields about the result may change together.
with_hello :
    (g : GatheredClientInitials) (o : Option ClientHello) (tp : Option QuicTransportParameters)
    (hex : List ℕ) (id : ℕ) (c closed : Bool)
    → IsWellFormed g
    → (c ≡ true → o ≢ none)
    → IsWellFormed (record g {
      client_hello = o;
      transport_parameters = tp;
      hex_id = hex;
      num_id = id;
      completed = c;
      complete_chan_closed = closed;
    })
with_hello g o tp hex id c closed w h = record {
  ordered = w.ordered;
  distinct = w.distinct;
  near = w.near;
  few = w.few;
  anchored = w.anchored;
  assembling = w.assembling;
  hello = h;
}

anchor-IsWellFormed :
    (g : GatheredClientInitials) (ci : ClientInitial)
    → IsWellFormed g
    → IsWellFormed (anchor g ci) × ((anchor g ci).pn_base_set ≡ true)
unfolding anchor
anchor-IsWellFormed g ci w =
    if-cases (λ h. IsWellFormed h × (h.pn_base_set ≡ true)) g.pn_base_set (λ e. (w, e))
      (λ e.
        let none_yet : g.packets ≡ [] = elim w.anchored [ inl t ↦ cc | inr n ↦ n ] in
        (
          record {
            ordered = w.ordered;
            distinct = w.distinct;
            near = rw none_yet tt;
            few = w.few;
            anchored = inl refl;
            assembling = w.assembling;
            hello = w.hello;
          },
          refl,
        ))

anchor-client_hello :
    (g : GatheredClientInitials) (ci : ClientInitial) → (anchor g ci).client_hello ≡ g.client_hello
unfolding anchor
anchor-client_hello g ci =
    if-cases (λ (h : GatheredClientInitials). h.client_hello ≡ g.client_hello) g.pn_base_set
      (λ e. refl) (λ e. refl)

seen-false : (n : ℕ) (ps : List ClientInitial) → seen n ps ≡ false → All (λ p. number p ≢ n) ps
unfolding seen
seen-false n [] e = tt
seen-false n (p ∷ ps) e = (ground arith, seen-false n ps (ground arith))

-- A packet that is let in keeps the order and the bounds.
extended-IsWellFormed :
    (g : GatheredClientInitials) (ci : ClientInitial) (q : Reconstructor)
    → IsWellFormed g
    → g.pn_base_set ≡ true
    → rejects g ci ≡ false
    → seen (number ci) g.packets ≡ false
    → Inv q
    → IsWellFormed (record g { packets = sort_by number (g.packets ++ ci ∷ []); reconstructor = q })
unfolding rejects
extended-IsWellFormed g ci q w b r s v =
    let all : List ClientInitial = g.packets ++ ci ∷ [] in
    let near : pn_distance (number ci) g.pn_base ≤ g.max_packet_number = ground arith in
    let room : length g.packets < g.max_packet_count = ground arith in
    record {
      ordered = sort_by-IsSorted number all;
      distinct =
          IsDistinct-Perm number (Perm-sort_by number all)
            (IsDistinct-snoc number g.packets ci w.distinct (seen-false (number ci) g.packets s));
      near =
          sort_by-All number (λ p. pn_distance (number p) g.pn_base ≤ g.max_packet_number) all
            (All-append _ g.packets (ci ∷ []) w.near (near, tt));
      few = omega (arith, length-sort_by number all, length-append g.packets (ci ∷ []));
      anchored = inl b;
      assembling = v;
      hello = w.hello;
    }

module _ (parse : List ℕ → Result ClientHello) (sha1 : List ℕ → List ℕ) where
  mark_complete-IsWellFormed :
      (g : GatheredClientInitials) (r : Result ℕ)
      → IsWellFormed g
      → g.client_hello ≢ none
      → IsWellFormed (mark_complete parse sha1 g r).0
  mark_complete-IsWellFormed g (ok id) w s =
      with_hello g g.client_hello g.transport_parameters (as_hex id) id true true w (λ e. s)
  mark_complete-IsWellFormed g (err e) w s = w
  mark_complete-IsWellFormed g panic w s = w
  mark_complete-IsWellFormed g stuck w s = w

  set_client_hello-IsWellFormed :
      (g : GatheredClientInitials) (r : Result ClientHello)
      → IsWellFormed g
      → g.client_hello ≡ none
      → IsWellFormed (set_client_hello parse sha1 g r).0
  set_client_hello-IsWellFormed g (ok hello) w n =
      mark_complete-IsWellFormed _ (calc_numeric_id parse sha1 _)
        (with_hello g (some hello) hello.qtp g.hex_id g.num_id g.completed g.complete_chan_closed w
          (λ e. cc))
        cc
  set_client_hello-IsWellFormed g (err e) w n =
      with_hello g none g.transport_parameters g.hex_id g.num_id g.completed g.complete_chan_closed
        w (λ c. absurd (w.hello c n))
  set_client_hello-IsWellFormed g panic w n = w
  set_client_hello-IsWellFormed g stuck w n = w

  collect-IsWellFormed :
      (g : GatheredClientInitials) (ci : ClientInitial)
      → IsWellFormed g
      → g.pn_base_set ≡ true
      → g.client_hello ≡ none
      → rejects g ci ≡ false
      → seen (number ci) g.packets ≡ false
      → All FitsU64 ci.frames
      → IsWellFormed (collect parse sha1 g ci).0
  unfolding collect locked_gather_complete
  collect-IsWellFormed g ci w b n r s f =
      let w' =
        extended-IsWellFormed g ci (from_frames g.reconstructor ci.frames).0 w b r s
          (from_frames-Inv ci.frames g.reconstructor f w.assembling) in
      elim (Option-cases (from_frames g.reconstructor ci.frames).1) [
        | inl e ↦ rw (e, collect) (set_client_hello-IsWellFormed _ (reconstruct parse sha1 _) w' n)
        | inr (x, e) ↦ rw (e, collect) w'
      ]

  admit-IsWellFormed :
      (g : GatheredClientInitials) (ci : ClientInitial)
      → IsWellFormed g
      → g.pn_base_set ≡ true
      → g.client_hello ≡ none
      → All FitsU64 ci.frames
      → IsWellFormed (admit parse sha1 g ci).0
  unfolding admit
  admit-IsWellFormed g ci w b n f =
      if-cases (λ (x : GatheredClientInitials × Result (Unit {0})). IsWellFormed x.0) (rejects g ci)
        (λ e. w)
        (λ r.
          if-cases (λ (x : GatheredClientInitials × Result (Unit {0})). IsWellFormed x.0)
            (seen (number ci) g.packets) (λ e. w) (λ s. collect-IsWellFormed g ci w b n r s f))

  -- Whatever the time and the result, an error or a panic of the parser among them, AddPacket with
  -- a packet whose frames end below 2^64 keeps the packets sorted by number, none twice, at most
  -- `maxPacketCount` of them and none further than `maxPacketNumber` from the first one seen; the
  -- reconstructor stays well formed, and a completed gathering has its ClientHello.
  pub add_packet-IsWellFormed :
      (now : ℕ) (g : GatheredClientInitials) (ci : ClientInitial)
      → IsWellFormed g
      → All FitsU64 ci.frames
      → IsWellFormed (add_packet parse sha1 now g ci).0
  unfolding add_packet
  add_packet-IsWellFormed now g ci w f =
      let (w', b) = anchor-IsWellFormed g ci w in
      if-cases (λ (x : GatheredClientInitials × Result (Unit {0})). IsWellFormed x.0)
        (expired now g) (λ e. w)
        (λ e. elim (Option-cases g.client_hello) [
          | inl n ↦ rw n (admit-IsWellFormed (anchor g ci) ci w' b (anchor-client_hello g ci ∙ n) f)
          | inr (h, n) ↦ rw n w
        ])

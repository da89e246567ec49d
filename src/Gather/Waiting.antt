-- ===== src/Gather/Waiting.antt =====
-- quic_client_initial.go: `AddPacket` while the last piece of the ClientHello is still to come.
use clienthellod.Common.{
  ℕ, ◌+◌, ◌≤◌, ◌≡◌, ◌≢◌, refl, sym, ap, subst, ◌∙◌, Bool, true, false, Option, none, some, List, [],
  ◌∷◌, ◌++◌, append_assoc, length, length-append, All, if◌then◌else◌, arith,
}
use clienthellod.Outcome.{Result, ok}
use clienthellod.Reconstructor.{Fragment, from_frames}
use clienthellod.Reconstructor.Piece.{IsMessage}
use clienthellod.Reconstructor.AnyOrder.{fragments, Remaining}
use clienthellod.Reconstructor.Partial.{from_frames-Remaining}
use clienthellod.Sort.{sort_by}
use clienthellod.Sort.Order.{sort_by-All, sort_by-Perm, length-sort_by, IsDistinct, Perm-sort_by}
use clienthellod.ClientHello.{ClientHello}
use clienthellod.Gather.{
  ClientInitial, GatheredClientInitials, number, pn_distance, anchor, rejects, seen, expired,
  collect, admit, add_packet,
}
use mathlib.Core.List.Permᴰ

-- The pieces of the ClientHello that packets carry.
abbrev pub pieces : List ClientInitial → List Fragment
pieces [] = []
pieces (p ∷ ps) = fragments p.frames ++ pieces ps

-- The fields that adding a packet that is not the last changes.
abbrev pub grown : GatheredClientInitials → ClientInitial → GatheredClientInitials
grown g p = record g {
  packets = sort_by number (g.packets ++ p ∷ []);
  reconstructor = (from_frames g.reconstructor p.frames).0;
}

All-middle {ℓ κ} :
    {A : Type ℓ} (P : A → Type κ) (xs : List A) (y : A) (zs : List A) → All P (xs ++ y ∷ zs) → P y
All-middle P [] y zs h = h.0
All-middle P (x ∷ xs) y zs h = All-middle P xs y zs h.1

All-front {ℓ κ} : {A : Type ℓ} (P : A → Type κ) (xs ys : List A) → All P (xs ++ ys) → All P xs
All-front P [] ys h = tt
All-front P (x ∷ xs) ys h = (h.0, All-front P xs ys h.1)

IsDistinct-front {ℓ} :
    {A : Type ℓ} (key : A → ℕ) (xs ys : List A) → IsDistinct key (xs ++ ys) → IsDistinct key xs
IsDistinct-front key [] ys d = tt
IsDistinct-front key (x ∷ xs) ys d = (All-front _ xs ys d.0, IsDistinct-front key xs ys d.1)

IsDistinct-middle {ℓ} :
    {A : Type ℓ} (key : A → ℕ) (xs : List A) (y : A) (zs : List A)
    → IsDistinct key (xs ++ y ∷ zs)
    → All (λ x. key x ≢ key y) xs
IsDistinct-middle key [] y zs d = tt
IsDistinct-middle key (x ∷ xs) y zs d =
    (All-middle (λ z. key x ≢ key z) xs y zs d.0, IsDistinct-middle key xs y zs d.1)

unseen : (n : ℕ) (ps : List ClientInitial) → All (λ p. number p ≢ n) ps → seen n ps ≡ false
unfolding seen
unseen n [] h = refl
unseen n (p ∷ ps) h = let ne = h.0 in let rest = unseen n ps h.1 in ground arith

pub if_then {ℓ} : {A : Type ℓ} (b : Bool) (x y : A) → b ≡ true → (if b then x else y) ≡ x
if_then true x y e = refl
if_then false x y e = cc

pub if_else {ℓ} : {A : Type ℓ} (b : Bool) (x y : A) → b ≡ false → (if b then x else y) ≡ y
if_else true x y e = cc
if_else false x y e = refl

pub elim_none {ℓ κ} :
    {A : Type ℓ} {B : Type κ} (o : Option A) (f : A → B) (y : B)
    → o ≡ none
    → elim o [ some a ↦ f a | none ↦ y ] ≡ y
elim_none none f y e = refl
elim_none (some a) f y e = cc

module _ (deadline : ℕ) (stream : ℕ → ℕ) (size : ℕ) where
  -- Packets `came`, in this order, and the packets `rest` are still to come.
  pub record Waiting (g : GatheredClientInitials) (came rest : List ClientInitial) : Type 0 where
    pub timed : g.deadline ≡ deadline
    pub unset : g.client_hello ≡ none
    pub based : g.pn_base_set ≡ true
    pub near : All (λ p. pn_distance (number p) g.pn_base ≤ g.max_packet_number) rest
    pub held_lem : g.packets ≡ sort_by number came
    pub distinct : IsDistinct number (came ++ rest)
    pub few : length came + length rest ≤ g.max_packet_count
    pub remaining : Remaining stream size g.reconstructor (pieces rest)

  Waiting-admits :
      (g : GatheredClientInitials) (came rest : List ClientInitial) (p : ClientInitial)
      → Waiting g came (p ∷ rest)
      → (rejects g p ≡ false) × (seen (number p) g.packets ≡ false)
  unfolding rejects
  Waiting-admits g came rest p w =
      let near = w.near.0 in
      let few = w.few in
      let count : length g.packets ≡ length came =
        ap length w.held_lem ∙ length-sort_by number came in
      (
        ground arith,
        unseen (number p) g.packets (
            subst (All (λ q. number q ≢ number p)) (sym w.held_lem) (
              sort_by-All number (λ q. number q ≢ number p) came
                (IsDistinct-middle number came p rest w.distinct))),
      )

  pub grown-packets :
      (g : GatheredClientInitials) (came rest : List ClientInitial) (p : ClientInitial)
      → Waiting g came (p ∷ rest)
      → (grown g p).packets ≡ sort_by number (came ++ p ∷ [])
  grown-packets g came rest p w =
      let d =
        IsDistinct-front number (came ++ p ∷ []) rest
          (subst (IsDistinct number) (sym (append_assoc came (p ∷ []) rest)) w.distinct) in
      ap (λ l. sort_by number (l ++ p ∷ [])) w.held_lem
      ∙ sym (sort_by-Perm number (Permᴰ.append_right (p ∷ []) (Perm-sort_by number came)) d)

  in_time :
      (now : ℕ) (g : GatheredClientInitials)
      → g.deadline ≡ deadline
      → now ≤ deadline
      → expired now g ≡ false
  in_time now g e le = ground arith

  module _ (parse : List ℕ → Result ClientHello) (sha1 : List ℕ → List ℕ) where
    pub add_packet-admit :
        (now : ℕ) (g : GatheredClientInitials) (p : ClientInitial)
        → expired now g ≡ false
        → g.client_hello ≡ none
        → add_packet parse sha1 now g p ≡ admit parse sha1 (anchor g p) p
    unfolding add_packet
    add_packet-admit now g p t u =
        if_else (expired now g) _ _ t ∙ elim_none g.client_hello (λ h. (g, ok tt)) _ u

    pub add_packet-collect :
        (now : ℕ) (g : GatheredClientInitials) (came rest : List ClientInitial) (p : ClientInitial)
        → now ≤ deadline
        → Waiting g came (p ∷ rest)
        → add_packet parse sha1 now g p ≡ collect parse sha1 g p
    unfolding admit anchor
    add_packet-collect now g came rest p le w =
        let (r, s) = Waiting-admits g came rest p w in
        let t = in_time now g w.timed le in
        let u = w.unset in
        let b = w.based in
        let anchored : anchor g p ≡ g = if_then g.pn_base_set _ _ b in
        let second : admit parse sha1 g p ≡ collect parse sha1 g p =
          if_else (rejects g p) _ _ r ∙ if_else (seen (number p) g.packets) _ _ s in
        add_packet-admit now g p t u ∙ ap (λ h. admit parse sha1 h p) anchored ∙ second

    -- A packet that is not the last to bring a piece.
    pub add_packet-grown :
        (now : ℕ) (g : GatheredClientInitials) (came rest : List ClientInitial) (p : ClientInitial)
        → now ≤ deadline
        → IsMessage stream size
        → Waiting g came (p ∷ rest)
        → pieces rest ≢ []
        → (add_packet parse sha1 now g p ≡ (grown g p, ok tt))
          × Waiting (grown g p) (came ++ p ∷ []) rest
    unfolding collect
    add_packet-grown now g came rest p le m w ne =
        let (e, r) =
          from_frames-Remaining stream size p.frames g.reconstructor (pieces rest) m w.remaining
            ne in
        let few = w.few in
        (
          add_packet-collect now g came rest p le w ∙ rw (e, collect) refl,
          record {
            timed = w.timed;
            unset = w.unset;
            based = w.based;
            near = w.near.1;
            held_lem = grown-packets g came rest p w;
            distinct = subst (IsDistinct number) (sym (append_assoc came (p ∷ []) rest)) w.distinct;
            few = omega (arith, length-append came (p ∷ []));
            remaining = r;
          },
        )

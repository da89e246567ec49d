-- ===== src/Gather/Complete.antt =====
-- quic_client_initial.go: calls of `AddPacket` with all packets of a connection.
use clienthellod.Common.{
  ℕ, zero, suc, ◌+◌, ◌≤◌, ◌<◌, ◌≡◌, ◌≢◌, refl, sym, ap, subst, ◌∙◌, true, false, Option, none, some,
  List, [], ◌∷◌, ◌++◌, append_assoc, append-nil, length, length-append, All, ltb, if◌then◌else◌,
  arith,
}
use clienthellod.Outcome.{Error, Result, ok, err, need_more_frames}
use clienthellod.Reconstructor.{max_crypto_fragments, Reconstructor, from_frames}
use clienthellod.Reconstructor.Piece.{IsMessage, IsPiece}
use clienthellod.Reconstructor.Pending.{Apart}
use clienthellod.Reconstructor.Assemble.{total}
use clienthellod.Reconstructor.AnyOrder.{
  fragments, Remaining, start-Remaining, Loaded, from_frames-Loaded, reconstruct_as_bytes-Loaded,
}
use clienthellod.Reconstructor.Partial.{stream_bytes, some_more, Follows-eq}
use clienthellod.Sort.{sort_by}
use clienthellod.Sort.Order.{length-sort_by, IsDistinct}
use clienthellod.ClientHello.{ClientHello}
use clienthellod.Gather.{
  gather_client_initials_with_deadline, ClientInitial, GatheredClientInitials, number, pn_distance,
  anchor, expired, reconstruct, calc_numeric_id, set_client_hello, mark_complete, header_hashed,
  locked_gather_complete, collect, admit, add_packet,
}
use clienthellod.Gather.Waiting.{
  pieces, grown, if_then, if_else, elim_none, Waiting, grown-packets, add_packet-admit,
  add_packet-collect, add_packet-grown,
}
use clienthellod.Hash.{first_u64}
use mathlib.Core.Path.{subst⁻¹}

length-stream_bytes : (stream : ℕ → ℕ) (off n : ℕ) → length (stream_bytes stream off n) ≡ n
length-stream_bytes stream off zero = refl
length-stream_bytes stream off (suc n) = ap suc (length-stream_bytes stream (suc off) n)

some_first {ℓ} : {A : Type ℓ} (l : List A) → 0 < length l → (x : A) × (xs : List A) × (l ≡ x ∷ xs)
some_first [] h = absurd (omega arith)
some_first (x ∷ xs) h = (x, xs, refl)

-- The number of the first packet to arrive.
abbrev pub first_number : List ClientInitial → ℕ
first_number [] = 0
first_number (p ∷ ps) = number p

abbrev based_at : ℕ → GatheredClientInitials → GatheredClientInitials
based_at n g = record g { pn_base = n; pn_base_set = true }

pieces-last :
    (ps : List ClientInitial) (last : ClientInitial)
    → fragments last.frames ≢ []
    → pieces (ps ++ last ∷ []) ≢ []
pieces-last [] last ne = λ e. ne (sym (append-nil (fragments last.frames)) ∙ e)
pieces-last (p ∷ ps) last ne =
    some_more (fragments p.frames) (pieces (ps ++ last ∷ [])) (pieces-last ps last ne)

-- The packets of a connection, in the order in which they arrive.
pub record IsFlight (stream : ℕ → ℕ) (size : ℕ) (all : List ClientInitial) : Type 0 where
  pub near : All (λ p. pn_distance (number p) (first_number all) ≤ 32) all
  pub distinct : IsDistinct number all
  pub few : length all ≤ 4
  pub carried : All (IsPiece stream size) (pieces all)
  pub apart : Apart (pieces all)
  pub count : length (pieces all) ≤ max_crypto_fragments + 1
  pub whole : total (pieces all) ≡ size

-- A packet and the time at which it arrives.
abbrev pub Arrival : Type 0
Arrival = ℕ × ClientInitial

abbrev pub packets_of : List Arrival → List ClientInitial
packets_of [] = []
packets_of ((at, p) ∷ arrivals) = p ∷ packets_of arrivals

packets_of-append :
    (arrivals : List Arrival) (at : ℕ) (p : ClientInitial)
    → packets_of (arrivals ++ (at, p) ∷ []) ≡ packets_of arrivals ++ p ∷ []
packets_of-append [] at p = refl
packets_of-append ((b, q) ∷ arrivals) at p = ap (λ l. q ∷ l) (packets_of-append arrivals at p)

module _ (stream : ℕ → ℕ) (size : ℕ) where
  module _ (parse : List ℕ → Result ClientHello) (sha1 : List ℕ → List ℕ) where
    -- The calls of `AddPacket`, each at its own time.
    abbrev pub add_packets : GatheredClientInitials → List Arrival → GatheredClientInitials
    add_packets g [] = g
    add_packets g ((at, p) ∷ arrivals) = add_packets (add_packet parse sha1 at g p).0 arrivals

    pub record IsComplete (r : GatheredClientInitials × Result (Unit {0})) (hello : ClientHello)
        (all : List ClientInitial) : Type 0 where
      pub success : r.1 ≡ ok tt
      pub finished : r.0.completed ≡ true
      pub hello_lem : r.0.client_hello ≡ some hello
      pub parameters_lem : r.0.transport_parameters ≡ hello.qtp
      pub packets_lem : r.0.packets ≡ sort_by number all

    calc_numeric_id-some :
        (g : GatheredClientInitials)
        → 0 < length g.packets
        → (id : ℕ) × (calc_numeric_id parse sha1 g ≡ ok id)
    unfolding calc_numeric_id
    calc_numeric_id-some g h =
        let (x, xs, e) = some_first g.packets h in
        (first_u64 (sha1 (header_hashed x)), rw (e, calc_numeric_id) refl)

    reconstruct-Loaded :
        (r : Reconstructor × Option Error) (hello : ClientHello)
        → IsMessage stream size
        → Loaded stream size r
        → parse (stream_bytes stream 0 size) ≡ ok hello
        → reconstruct parse sha1 r.0 ≡ ok hello
    unfolding reconstruct
    reconstruct-Loaded r hello m d ok_parse =
        let body = m.body in
        let bytes =
          reconstruct_as_bytes-Loaded stream size r m d
          ∙ Follows-eq stream r.0.buf 0 size d.prefix d.length_lem in
        let filled : ltb 0 (length (stream_bytes stream 0 size)) ≡ true =
          (let l = length-stream_bytes stream 0 size in ground arith) in
        ap (λ b. if ltb 0 (length b) then parse b else err need_more_frames) bytes
        ∙ if_then _ _ _ filled
        ∙ ok_parse

    add_packet-last :
        (deadline now : ℕ) (g : GatheredClientInitials) (came : List ClientInitial)
        (p : ClientInitial) (hello : ClientHello)
        → now ≤ deadline
        → IsMessage stream size
        → Waiting deadline stream size g came (p ∷ [])
        → fragments p.frames ≢ []
        → parse (stream_bytes stream 0 size) ≡ ok hello
        → IsComplete (add_packet parse sha1 now g p) hello (came ++ p ∷ [])
    unfolding collect locked_gather_complete
    add_packet-last deadline now g came p hello le m w ne ok_parse =
        let d =
          from_frames-Loaded stream size p.frames g.reconstructor m
            (subst (Remaining stream size g.reconstructor) (append-nil (fragments p.frames))
              w.remaining)
            ne in
        let rec = reconstruct-Loaded (from_frames g.reconstructor p.frames) hello m d ok_parse in
        let g' : GatheredClientInitials = record (grown g p) {
          client_hello = some hello;
          transport_parameters = hello.qtp;
        } in
        let count : length (grown g p).packets ≡ suc (length g.packets) =
          omega (
            arith,
            length-sort_by number (g.packets ++ p ∷ []),
            length-append g.packets (p ∷ []),
          ) in
        let (id, known) = calc_numeric_id-some g' (omega arith) in
        let whole : add_packet parse sha1 now g p ≡ mark_complete parse sha1 g' (ok id) =
          add_packet-collect deadline stream size parse sha1 now g came [] p le w
          ∙ elim_none (from_frames g.reconstructor p.frames).1 _ _ d.success
          ∙ ap (set_client_hello parse sha1 (grown g p)) rec
          ∙ ap (mark_complete parse sha1 g') known in
        subst⁻¹ (λ r. IsComplete r hello (came ++ p ∷ [])) whole
          (record {
            success = refl;
            finished = refl;
            hello_lem = refl;
            parameters_lem = refl;
            packets_lem = grown-packets deadline stream size g came [] p w;
          })

    add_packets-Waiting :
        (deadline : ℕ) (arrivals : List Arrival) (g : GatheredClientInitials)
        (came : List ClientInitial) (last : ClientInitial)
        → All (λ a. a.0 ≤ deadline) arrivals
        → IsMessage stream size
        → fragments last.frames ≢ []
        → Waiting deadline stream size g came (packets_of arrivals ++ last ∷ [])
        → Waiting deadline stream size
            (add_packets g arrivals)
            (came ++ packets_of arrivals)
            (last ∷ [])
    add_packets-Waiting deadline [] g came last le m ne w =
        subst (λ c. Waiting deadline stream size g c (last ∷ [])) (sym (append-nil came)) w
    add_packets-Waiting deadline ((at, p) ∷ arrivals) g came last le m ne w =
        let ps = packets_of arrivals in
        let (e, w') =
          add_packet-grown deadline stream size parse sha1 at g came (ps ++ last ∷ []) p le.0 m w
            (pieces-last ps last ne) in
        let all =
          add_packets-Waiting deadline arrivals (grown g p) (came ++ p ∷ []) last le.1 m ne w' in
        let same : add_packets g ((at, p) ∷ arrivals) ≡ add_packets (grown g p) arrivals =
          ap (λ r. add_packets r.0 arrivals) e in
        subst⁻¹ (λ h. Waiting deadline stream size h (came ++ p ∷ ps) (last ∷ [])) same
          (subst
            (λ c. Waiting deadline stream size (add_packets (grown g p) arrivals) c (last ∷ []))
            (append_assoc came (p ∷ []) ps) all)

    -- The first packet sets the base, whether it is set before or not.
    add_packet-based :
        (now : ℕ) (g : GatheredClientInitials) (p : ClientInitial)
        → expired now g ≡ false
        → g.client_hello ≡ none
        → g.pn_base_set ≡ false
        → add_packet parse sha1 now g p ≡ add_packet parse sha1 now (based_at (number p) g) p
    unfolding anchor
    add_packet-based now g p t u b =
        let first = add_packet-admit 0 stream size parse sha1 now g p t u in
        let second = add_packet-admit 0 stream size parse sha1 now (based_at (number p) g) p t u in
        first ∙ ap (λ h. admit parse sha1 h p) (if_else g.pn_base_set _ _ b) ∙ sym second

    add_packets-based :
        (now deadline : ℕ) (arrivals : List Arrival) (last : ClientInitial)
        → All (λ a. a.0 ≤ deadline) arrivals
        → now ≤ deadline
        → let g = gather_client_initials_with_deadline deadline in
          add_packet parse sha1 now (add_packets g arrivals) last
          ≡ add_packet parse sha1 now
              (add_packets (based_at (first_number (packets_of arrivals ++ last ∷ [])) g) arrivals)
              last
    add_packets-based now deadline [] last early le =
        add_packet-based now (gather_client_initials_with_deadline deadline) last (ground arith)
          refl refl
    add_packets-based now deadline ((at, p) ∷ arrivals) last early le =
        let first_early = early.0 in
        ap (λ r. add_packet parse sha1 now (add_packets r.0 arrivals) last)
          (add_packet-based at (gather_client_initials_with_deadline deadline) p (ground arith) refl
            refl)

    -- At most four Initial packets of a connection, no number twice and none more than 32 from that
    -- of the first to arrive, carry the pieces of a ClientHello between them: at most 33, not empty
    -- and disjoint. They arrive in any order, each at a time that is not behind the deadline, and
    -- the last to arrive has a piece. The parser accepts the ClientHello. Then the last call of
    -- AddPacket succeeds, the gathering is completed with the parsed ClientHello and its transport
    -- parameters, and has all packets, sorted by number.
    pub add_packet-IsComplete :
        (deadline : ℕ) (arrivals : List Arrival) (now : ℕ) (last : ClientInitial)
        (hello : ClientHello)
        → All (λ a. a.0 ≤ deadline) arrivals
        → now ≤ deadline
        → IsMessage stream size
        → IsFlight stream size (packets_of arrivals ++ last ∷ [])
        → fragments last.frames ≢ []
        → parse (stream_bytes stream 0 size) ≡ ok hello
        → IsComplete
            (add_packet parse sha1 now
              (add_packets (gather_client_initials_with_deadline deadline) arrivals)
              last)
            hello
            (packets_of arrivals ++ last ∷ [])
    unfolding sort_by
    add_packet-IsComplete deadline arrivals now last hello early le m f ne ok_parse =
        let all : List ClientInitial = packets_of arrivals ++ last ∷ [] in
        let few = f.few in
        let g = gather_client_initials_with_deadline deadline in
        let start : Waiting deadline stream size (based_at (first_number all) g) [] all = record {
          timed = refl;
          unset = refl;
          based = refl;
          near = f.near;
          held_lem = refl;
          distinct = f.distinct;
          few = omega arith;
          remaining = start-Remaining stream size (pieces all) f.carried f.apart f.count f.whole;
        } in
        let waiting =
          add_packets-Waiting deadline arrivals (based_at (first_number all) g) [] last early m ne
            start in
        subst⁻¹ (λ r. IsComplete r hello all)
          (add_packets-based now deadline arrivals last early le)
          (add_packet-last deadline now (add_packets (based_at (first_number all) g) arrivals)
            (packets_of arrivals) last hello le m waiting ne ok_parse)

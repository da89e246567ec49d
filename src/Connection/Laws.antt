-- ===== src/Connection/Laws.antt =====
-- Reads of a connection, `io.ReadFull`, and internal/utils/rewindconn.go.
use clienthellod.Common.{
  ℕ, zero, suc, ◌+◌, ◌-◌, ◌≤◌, ◌<◌, ◌≡◌, refl, sym, ap, ap₂, ◌∙◌, arith, All, Option, Option-cases,
  inl, inr, none, some, List, [], ◌∷◌, ◌++◌, append_assoc, length, take, drop, leb, if-cases,
  take-append-drop, length-append, length-take, length-drop,
}
use clienthellod.Outcome.{Error}
use clienthellod.Connection.{
  Conn, tcp, rewound, joined, content, Read, read, rewind_conn, Full, after_chunk, fill_loop,
  unexpected, renamed, read_full,
}

-- The bytes of a `Read`, with those of the later ones unless it failed.
abbrev pub and_later : Read → List ℕ × Option Error → Option Error → List ℕ × Option Error
and_later d later none = (d.got ++ later.0, later.1)
and_later d later (some e) = (d.got, some e)

-- Reads into slices of these lengths, up to the first error: the bytes, and the error.
abbrev pub drain : Conn → List ℕ → List ℕ × Option Error
drain c [] = ([], none)
drain c (n ∷ ns) = and_later (read c n) (drain (read c n).rest ns) (read c n).failed

-- The error at the end of a connection.
abbrev pub final : Conn → Error
final (tcp chunks last) = last
final (rewound left c) = final c

-- As many reads as are needed at most.
abbrev chunk_reads : List (List ℕ) → ℕ
chunk_reads [] = 1
chunk_reads (c ∷ cs) = suc (length c + chunk_reads cs)

abbrev pub reads_needed : Conn → ℕ
reads_needed (tcp chunks last) = chunk_reads chunks
reads_needed (rewound none c) = reads_needed c
reads_needed (rewound (some left) c) = suc (length left + reads_needed c)

reads_needed-positive : (c : Conn) → 1 ≤ reads_needed c
reads_needed-positive (tcp [] last) = omega arith
reads_needed-positive (tcp (c ∷ cs) last) = omega arith
reads_needed-positive (rewound none c) = reads_needed-positive c
reads_needed-positive (rewound (some left) c) = omega arith

-- A `Read` that does not fail gets nearer to the end, and one that fails is at the end.
record Nearer (c : Conn) (d : Read) : Type 0 where
  going : d.failed ≡ none → (suc (reads_needed d.rest) ≤ reads_needed c) × (final d.rest ≡ final c)
  over : (e : Error) → d.failed ≡ some e → (d.got ≡ content c) × (e ≡ final c)

read-Nearer : (c : Conn) (n : ℕ) → 1 ≤ n → Nearer c (read c n)
unfolding read
read-Nearer (tcp [] last) n h = record { going = λ q. cc; over = λ e q. (refl, cc) }
read-Nearer (tcp (c ∷ cs) last) n h =
    if-cases (Nearer (tcp (c ∷ cs) last)) (leb (length c) n)
      (λ whole. record { going = λ q. (omega arith, refl); over = λ e q. cc })
      (λ part. record {
        going =
            λ q. (let more : n < length c = ground arith in omega (arith, length-drop n c), refl);
        over = λ e q. cc;
      })
read-Nearer (rewound none c) n h =
    let k = read-Nearer c n h in record { going = k.going; over = k.over }
read-Nearer (rewound (some []) c) n h = record {
  going = λ q. (omega arith, refl);
  over = λ e q. cc;
}
read-Nearer (rewound (some (b ∷ bs)) c) n h = record {
  going = λ q. (omega (arith, length-drop n (b ∷ bs)), refl);
  over = λ e q. cc;
}

-- A `Read` gives the next bytes.
abbrev pub GivesNext : List ℕ → Read → Type 0
GivesNext s d = d.got ++ content d.rest ≡ s

pub read-GivesNext : (c : Conn) (n : ℕ) → GivesNext (content c) (read c n)
unfolding read
read-GivesNext (tcp [] last) n = refl
read-GivesNext (tcp (c ∷ cs) last) n =
    if-cases (GivesNext (c ++ joined cs)) (leb (length c) n) (λ whole. refl)
      (λ part.
        sym (append_assoc (take n c) (drop n c) (joined cs))
        ∙ ap (λ s. s ++ joined cs) (take-append-drop n c))
read-GivesNext (rewound none c) n = read-GivesNext c n
read-GivesNext (rewound (some []) c) n = refl
read-GivesNext (rewound (some (b ∷ bs)) c) n =
    sym (append_assoc (take n (b ∷ bs)) (drop n (b ∷ bs)) (content c))
    ∙ ap (λ s. s ++ content c) (take-append-drop n (b ∷ bs))

-- Enough reads give all bytes, and then the error.
pub drain-content :
    (ns : List ℕ) (c : Conn)
    → All (λ n. 1 ≤ n) ns
    → reads_needed c ≤ length ns
    → drain c ns ≡ (content c, some (final c))
drain-content [] c h enough = absurd (let some_needed = reads_needed-positive c in omega arith)
drain-content (n ∷ ns) c h enough =
    let near = read-Nearer c n h.0 in
    let next = read-GivesNext c n in
    elim (Option-cases (read c n).failed) [
      | inl going ↦
          let (less, same) = near.going going in
          let rest = drain-content ns (read c n).rest h.1 (omega arith) in
          rw (going, rest) (ap₂ (λ s e. (s, some e)) next same)
      | inr (e, failed) ↦
          let (all, end) = near.over e failed in rw failed (ap₂ (λ s e. (s, some e)) all end)
    ]

-- However the bytes are asked for, at least one at a time: enough reads give all of `s` and then the
-- error.
abbrev pub ReadsAll : Conn → List ℕ → Error → Type 0
ReadsAll c s e =
    (ns : List ℕ) → All (λ n. 1 ≤ n) ns → reads_needed c ≤ length ns → drain c ns ≡ (s, some e)

pub content-ReadsAll :
    (c : Conn) {s : List ℕ} {e : Error} → content c ≡ s → final c ≡ e → ReadsAll c s e
content-ReadsAll c all end ns h enough =
    drain-content ns c h enough ∙ ap₂ (λ t x. (t, some x)) all end

pub final-rewind_conn : (c : Conn) (buf : List ℕ) → final (rewind_conn c buf) ≡ final c
final-rewind_conn c [] = refl
final-rewind_conn c (b ∷ buf) = refl

pub content-rewind_conn : (c : Conn) (buf : List ℕ) → content (rewind_conn c buf) ≡ buf ++ content c
content-rewind_conn c [] = refl
content-rewind_conn c (b ∷ buf) = refl

-- `io.ReadFull` gives the next `n` bytes, or fails when there are not so many.
pub record IsFull (n : ℕ) (chunks : List (List ℕ)) (d : Full) : Type 0 where
  pub got_lem : d.got ++ joined d.rest ≡ joined chunks
  pub whole : n ≤ length (joined chunks) → (d.failed ≡ none) × (length d.got ≡ n)
  pub short : length (joined chunks) < n → (e : Error) × (d.failed ≡ some e)

-- A whole chunk in front.
after_chunk-IsFull :
    (n : ℕ) (c : List ℕ) (cs : List (List ℕ)) (d : Full)
    → length c ≤ n
    → IsFull (n - length c) cs d
    → IsFull n (c ∷ cs) (after_chunk c d)
after_chunk-IsFull n c cs d fits more =
    let total = length-append c (joined cs) in
    record {
      got_lem = append_assoc c d.got (joined d.rest) ∙ ap (λ s. c ++ s) more.got_lem;
      whole = λ h.
          let (e, size) = more.whole (omega arith) in (e, omega (arith, length-append c d.got));
      short = λ h. more.short (omega arith);
    }

-- A part of a chunk.
part-IsFull :
    (n : ℕ) (c : List ℕ) (cs : List (List ℕ))
    → n < length c
    → IsFull n (c ∷ cs) record { got = take n c; failed = none; rest = drop n c ∷ cs }
part-IsFull n c cs part =
    let total = length-append c (joined cs) in
    record {
      got_lem =
          sym (append_assoc (take n c) (drop n c) (joined cs))
          ∙ ap (λ s. s ++ joined cs) (take-append-drop n c);
      whole = λ h. (refl, omega (arith, length-take n c));
      short = λ h. absurd (omega arith);
    }

fill_loop-IsFull :
    (n : ℕ) (chunks : List (List ℕ)) (last : Error) → IsFull n chunks (fill_loop n chunks last)
unfolding fill_loop
fill_loop-IsFull zero chunks last = record {
  got_lem = refl;
  whole = λ h. (refl, refl);
  short = λ h. absurd (omega arith);
}
fill_loop-IsFull (suc n) [] last = record {
  got_lem = refl;
  whole = λ h. absurd (omega arith);
  short = λ h. (last, refl);
}
fill_loop-IsFull (suc n) (c ∷ cs) last =
    let more = fill_loop-IsFull (suc n - length c) cs last in
    if-cases (IsFull (suc n) (c ∷ cs)) (leb (length c) (suc n))
      (λ fits.
        after_chunk-IsFull (suc n) c cs (fill_loop (suc n - length c) cs last) (ground arith) more)
      (λ part. part-IsFull (suc n) c cs (ground arith))

renamed-IsFull :
    (n : ℕ) (chunks : List (List ℕ)) (d : Full)
    → IsFull n chunks d
    → (e : Option Error) → d.failed ≡ e
    → IsFull n chunks (renamed d e)
renamed-IsFull n chunks d h none q = h
renamed-IsFull n chunks d h (some e) q = record {
  got_lem = h.got_lem;
  whole = λ k. let (q', size) = h.whole k in cc;
  short = λ k. (unexpected d.got e, refl);
}

pub read_full-IsFull :
    (n : ℕ) (chunks : List (List ℕ)) (last : Error) → IsFull n chunks (read_full n chunks last)
unfolding read_full
read_full-IsFull n chunks last =
    let d = fill_loop n chunks last in
    renamed-IsFull n chunks d (fill_loop-IsFull n chunks last) d.failed refl

-- ===== src/ClientHello/Walk.antt =====
-- clienthello.go: the steps of `parseExtra`, and writers for what they read (RFC 8446, section
-- 4.1.2).
use clienthellod.Common.{
  ℕ, zero, suc, ◌/◌, ◌%◌, ◌≤◌, ◌<◌, ◌≡◌, ◌≢◌, refl, sym, ap, ◌∙◌, arith, Bool, true, false,
  if◌then◌else◌, Bool-cases, inl, inr, List, [], ◌∷◌, ◌++◌, append_assoc, append-nil, map, All,
  length, ◌==◌, length-append,
}
use clienthellod.Outcome.{Result, ok}
use clienthellod.Cryptobyte.{Cryptobyte, IsDocumented}
use clienthellod.Cryptobyte.Laws.{
  u16_before, prefixed16_before, read_u16, read_prefixed16, skip_bytes,
}
use clienthellod.ClientHello.{ClientHello}
use clienthellod.ClientHello.Extra.{
  is_grease_uint16, parse_key_share, key_shares_loop, parse_key_shares, parse_extension_extra,
  parse_extension, extensions_loop, parse_extensions_extra,
}

-- The group and the body of each key share.
abbrev pub write_shares : List (ℕ × List ℕ) → List ℕ
write_shares [] = []
write_shares ((group, body) ∷ gs) = u16_before group (prefixed16_before body (write_shares gs))

-- An extension that is no key_share(51), or one that is.
pub data Extension : Type 0 where
  plain : ℕ → List ℕ → Extension
  key_share : List (ℕ × List ℕ) → Extension

abbrev pub shares_body : List (ℕ × List ℕ) → List ℕ
shares_body gs = u16_before (length (write_shares gs)) (write_shares gs)

abbrev pub extension_before : Extension → List ℕ → List ℕ
extension_before (plain id body) s = u16_before id (prefixed16_before body s)
extension_before (key_share gs) s = u16_before 51 (prefixed16_before (shares_body gs) s)

abbrev pub write_extensions : List Extension → List ℕ
write_extensions [] = []
write_extensions (e ∷ es) = extension_before e (write_extensions es)

abbrev pub IsNamed : Extension → Type 0
IsNamed (plain id body) = id ≢ 51
IsNamed (key_share gs) = Unit {0}

length-write_shares : (gs : List (ℕ × List ℕ)) → length gs ≤ length (write_shares gs)
length-write_shares [] = omega arith
length-write_shares ((group, body) ∷ gs) =
    omega (arith, length-append body (write_shares gs), length-write_shares gs)

length-write_extensions : (es : List Extension) → length es ≤ length (write_extensions es)
length-write_extensions [] = omega arith
length-write_extensions (plain id body ∷ es) =
    omega (arith, length-append body (write_extensions es), length-write_extensions es)
length-write_extensions (key_share gs ∷ es) =
    omega (arith, length-append (shares_body gs) (write_extensions es), length-write_extensions es)

module _ (grease_placeholder : ℕ) where
  abbrev pub shown_u16 : ℕ → ℕ
  shown_u16 v = if is_grease_uint16 v then grease_placeholder else v

  abbrev pub shown : Extension → ℕ
  shown (plain id body) = shown_u16 id
  shown (key_share gs) = 51

  abbrev pub shares_shown : List (ℕ × List ℕ) → List ℕ
  shares_shown [] = []
  shares_shown ((group, body) ∷ gs) = shown_u16 group ∷ length body ∷ shares_shown gs

  -- What an extension leaves in the struct.
  abbrev pub noted : Extension → ClientHello → ClientHello
  noted (plain id body) ch = if id == 16 then record ch { alpn_with_lengths = body } else ch
  noted (key_share gs) ch = record ch {
    keyshare_groups_with_lengths = ch.keyshare_groups_with_lengths ++ shares_shown gs;
  }

  abbrev pub all_noted : List Extension → ClientHello → ClientHello
  all_noted [] ch = ch
  all_noted (e ∷ es) ch = all_noted es (noted e ch)

  module _ (B : Cryptobyte) (documented : IsDocumented B) where
    parse_key_share-write :
        (group : ℕ) (body s : List ℕ)
        → parse_key_share B grease_placeholder (u16_before group (prefixed16_before body s))
          ≡ ok (shown_u16 group ∷ length body ∷ [], s)
    unfolding parse_key_share
    parse_key_share-write group body s =
        rw
          (
            read_u16 B documented group (prefixed16_before body s),
            read_u16 B documented (length body) (body ++ s),
            skip_bytes B documented body s,
          )
          refl

    key_shares_loop-write :
        (gs : List (ℕ × List ℕ)) (fuel : ℕ) (acc : List ℕ)
        → length gs < fuel
        → key_shares_loop B grease_placeholder fuel (write_shares gs) acc
          ≡ ok (acc ++ shares_shown gs)
    unfolding key_shares_loop
    key_shares_loop-write gs zero acc h = absurd (omega arith)
    key_shares_loop-write [] (suc fuel) acc h = ap ok (sym (append-nil acc))
    key_shares_loop-write ((group, body) ∷ gs) (suc fuel) acc h =
        let two = shown_u16 group ∷ length body ∷ [] in
        rw (parse_key_share-write group body (write_shares gs)) (
          key_shares_loop-write gs fuel (acc ++ two) (omega arith)
          ∙ ap ok (append_assoc acc two (shares_shown gs)))

    parse_key_shares-write :
        (gs : List (ℕ × List ℕ)) (ch : ClientHello)
        → parse_key_shares B grease_placeholder (shares_body gs) ch ≡ ok (noted (key_share gs) ch)
    unfolding parse_key_shares
    parse_key_shares-write gs ch =
        let n = length (write_shares gs) in
        rw
          (
            skip_bytes B documented ((n / 256) ∷ (n % 256) ∷ []) (write_shares gs),
            key_shares_loop-write gs (suc n) ch.keyshare_groups_with_lengths
                (omega (arith, length-write_shares gs)),
          )
          refl

    parse_extension_extra-plain :
        (id : ℕ) (body : List ℕ) (ch : ClientHello)
        → id ≢ 51
        → parse_extension_extra B grease_placeholder id body ch
          ≡ ok (shown_u16 id, noted (plain id body) ch)
    unfolding parse_extension_extra is_grease_uint16
    parse_extension_extra-plain id body ch h =
        let no : (id == 51) ≡ false = ground arith in
        elim (Bool-cases (id == 16)) [
          | inl same ↦ let e : id ≡ 16 = ground arith in rw e refl
          | inr other ↦ rw (other, no) (shown_id (is_grease_uint16 id) id ch)
        ]
      where
        shown_id :
            (grease : Bool) (id : ℕ) (ch : ClientHello)
            → if◌then◌else◌ {A = Result (ℕ × ClientHello)} grease
                (ok (grease_placeholder, ch))
                (ok (id, ch))
              ≡ ok ((if grease then grease_placeholder else id), ch)
        shown_id true id ch = refl
        shown_id false id ch = refl

    parse_extension_extra-key_share :
        (gs : List (ℕ × List ℕ)) (ch : ClientHello)
        → parse_extension_extra B grease_placeholder 51 (shares_body gs) ch
          ≡ ok (51, noted (key_share gs) ch)
    unfolding parse_extension_extra
    parse_extension_extra-key_share gs ch = rw (parse_key_shares-write gs ch) refl

    parse_extension-before :
        (e : Extension) (s : List ℕ) (ch : ClientHello)
        → IsNamed e
        → parse_extension B grease_placeholder (extension_before e s) ch
          ≡ ok (shown e, noted e ch, s)
    unfolding parse_extension
    parse_extension-before (plain id body) s ch h =
        rw
          (
            read_u16 B documented id (prefixed16_before body s),
            read_prefixed16 B documented body s,
            parse_extension_extra-plain id body ch h,
          )
          refl
    parse_extension-before (key_share gs) s ch h =
        rw
          (
            read_u16 B documented 51 (prefixed16_before (shares_body gs) s),
            read_prefixed16 B documented (shares_body gs) s,
            parse_extension_extra-key_share gs ch,
          )
          refl

    extensions_loop-write :
        (es : List Extension) (fuel : ℕ) (ids : List ℕ) (ch : ClientHello)
        → All IsNamed es
        → length es < fuel
        → extensions_loop B grease_placeholder fuel (write_extensions es) ids ch
          ≡ ok (record (all_noted es ch) { extensions = ids ++ map shown es })
    unfolding extensions_loop
    extensions_loop-write es zero ids ch h l = absurd (omega arith)
    extensions_loop-write [] (suc fuel) ids ch h l =
        ap (λ xs. ok (record ch { extensions = xs })) (sym (append-nil ids))
    extensions_loop-write (plain id body ∷ es) (suc fuel) ids ch h l =
        rw (parse_extension-before (plain id body) (write_extensions es) ch h.0) (
          extensions_loop-write es fuel (ids ++ shown_u16 id ∷ []) (noted (plain id body) ch) h.1
            (omega arith)
          ∙ ap (λ xs. ok (record (all_noted es (noted (plain id body) ch)) { extensions = xs }))
              (append_assoc ids (shown_u16 id ∷ []) (map shown es)))
    extensions_loop-write (key_share gs ∷ es) (suc fuel) ids ch h l =
        rw (parse_extension-before (key_share gs) (write_extensions es) ch h.0) (
          extensions_loop-write es fuel (ids ++ 51 ∷ []) (noted (key_share gs) ch) h.1 (omega arith)
          ∙ ap (λ xs. ok (record (all_noted es (noted (key_share gs) ch)) { extensions = xs }))
              (append_assoc ids (51 ∷ []) (map shown es)))

    pub parse_extensions_extra-write :
        (es : List Extension) (ch : ClientHello)
        → All IsNamed es
        → parse_extensions_extra B grease_placeholder (write_extensions es) ch
          ≡ ok (record (all_noted es ch) { extensions = map shown es })
    unfolding parse_extensions_extra
    parse_extensions_extra-write es ch h =
        extensions_loop-write es (suc (length (write_extensions es))) [] ch h
          (omega (arith, length-write_extensions es))

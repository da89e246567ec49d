-- ===== src/ClientHello/Message.antt =====
-- clienthello.go: `parseExtra` and a writer of whole ClientHellos in their record.
use clienthellod.Common.{ℕ, ◌≡◌, refl, sym, List, [], ◌∷◌, ◌++◌, map, All, length}
use clienthellod.Outcome.{ok}
use clienthellod.Cryptobyte.{Cryptobyte, IsDocumented}
use clienthellod.Cryptobyte.Laws.{
  u16_before, prefixed16_before, prefixed8_before, read_u16, read_prefixed16, read_prefixed8,
  skip_bytes,
}
use clienthellod.ClientHello.{ClientHello, set_fingerprint}
use clienthellod.ClientHello.Extra.{
  parse_record_header, parse_handshake_header, skip_lists, parse_rest, parse_extra,
}
use clienthellod.ClientHello.Walk.{
  Extension, write_extensions, IsNamed, shown, all_noted, parse_extensions_extra-write,
}

-- A ClientHello message with its record header; `kind`, `size`, `handshake_type`,
-- `handshake_size` and `random` are the bytes that are passed over.
pub record Message : Type 0 where
  pub kind : ℕ
  pub record_version : ℕ
  pub size : List ℕ
  pub handshake_type : ℕ
  pub handshake_size : List ℕ
  pub handshake_version : ℕ
  pub random : List ℕ
  pub session_id : List ℕ
  pub cipher_suites : List ℕ
  pub compression_methods : List ℕ
  pub extensions : List Extension

pub record IsMessage (m : Message) : Type 0 where
  pub size_lem : length m.size ≡ 2
  pub handshake_size_lem : length m.handshake_size ≡ 3
  pub random_lem : length m.random ≡ 32
  pub extensions-IsNamed : All IsNamed m.extensions

abbrev pub lists_before : Message → List ℕ → List ℕ
lists_before m s =
    prefixed8_before m.session_id
      (prefixed16_before m.cipher_suites (prefixed8_before m.compression_methods s))

-- The bytes of the message, with `trailing` behind it.
abbrev pub write_message : Message → List ℕ → List ℕ
write_message m trailing =
    m.kind
    ∷ u16_before m.record_version (
        m.size
        ++ (m.handshake_type ∷ m.handshake_size
            ++ u16_before m.handshake_version (
                m.random
                ++ lists_before m (prefixed16_before (write_extensions m.extensions) trailing))))

module _ (B : Cryptobyte) (documented : IsDocumented B) where
  parse_record_header-write :
      (kind version : ℕ) (size s : List ℕ)
      → length size ≡ 2
      → parse_record_header B (kind ∷ u16_before version (size ++ s)) ≡ ok (version, s)
  unfolding parse_record_header
  parse_record_header-write kind version size s h =
      rw
        (
          skip_bytes B documented (kind ∷ []) (u16_before version (size ++ s)),
          read_u16 B documented version (size ++ s),
          sym h,
          skip_bytes B documented size s,
        )
        refl

  parse_handshake_header-write :
      (kind : ℕ) (size random s : List ℕ) (version : ℕ)
      → length size ≡ 3
      → length random ≡ 32
      → parse_handshake_header B (kind ∷ size ++ u16_before version (random ++ s)) ≡ ok (version, s)
  unfolding parse_handshake_header
  parse_handshake_header-write kind size random s version h r =
      rw
        (
          skip_bytes B documented (kind ∷ []) (size ++ u16_before version (random ++ s)),
          sym h,
          skip_bytes B documented size (u16_before version (random ++ s)),
          read_u16 B documented version (random ++ s),
          sym r,
          skip_bytes B documented random s,
        )
        refl

  skip_lists-write : (m : Message) (s : List ℕ) → skip_lists B (lists_before m s) ≡ ok s
  unfolding skip_lists
  skip_lists-write m s =
      rw
        (
          read_prefixed8 B documented m.session_id
              (prefixed16_before m.cipher_suites (prefixed8_before m.compression_methods s)),
          read_prefixed16 B documented m.cipher_suites (prefixed8_before m.compression_methods s),
          read_prefixed8 B documented m.compression_methods s,
        )
        refl

  module _ (grease_placeholder : ℕ) (sha1 : List ℕ → List ℕ) where
    -- A ClientHello message in its record is read to its end: the versions are those of the message,
    -- the extensions are its extensions in their order, with one id in place of all GREASE ids and
    -- groups, the key shares' groups and lengths and the last ALPN body are noted, and the ids are
    -- computed from that. The structure of RFC 8446 is meant, with at least the extensions' length;
    -- an extension with the id 51 is a list of key shares.
    pub parse_extra-write_message :
        (m : Message) (trailing : List ℕ) (ch : ClientHello)
        → IsMessage m
        → ch.raw ≡ write_message m trailing
        → parse_extra B grease_placeholder sha1 ch
          ≡ ok (
              set_fingerprint sha1
                (record (all_noted grease_placeholder m.extensions (record ch {
                  tls_record_version = m.record_version;
                  tls_handshake_version = m.handshake_version;
                })) { extensions = map (shown grease_placeholder) m.extensions }))
    unfolding parse_extra parse_rest
    parse_extra-write_message m trailing ch known e =
        let exts = prefixed16_before (write_extensions m.extensions) trailing in
        let body = m.random ++ lists_before m exts in
        rw
          (
            e,
            parse_record_header-write m.kind m.record_version m.size
                (m.handshake_type ∷ m.handshake_size ++ u16_before m.handshake_version body)
                known.size_lem,
            parse_handshake_header-write m.handshake_type m.handshake_size m.random
                (lists_before m exts) m.handshake_version known.handshake_size_lem known.random_lem,
            skip_lists-write m exts,
            read_prefixed16 B documented (write_extensions m.extensions) trailing,
            parse_extensions_extra-write grease_placeholder B documented m.extensions _
                known.extensions-IsNamed,
          )
          refl

-- ===== src/ClientHello.antt =====
-- clienthello.go: the struct and its fingerprint, with `calcNumericID` of fingerprint_hash.go.
-- `sha1` is the hash. A string is the list of its bytes, and a nil slice is the empty list.
pub mod Read
pub mod Extra
pub mod Parse
pub mod Ends
pub mod Record
pub mod QuicMessage
pub mod Walk
pub mod Message
pub mod Invariance
use clienthellod.Common.{
  ℕ, ◌*◌, ◌%◌, Bool, true, false, Option, List, [], ◌∷◌, ◌++◌, length, take, ltb, leb,
  if◌then◌else◌,
}
use clienthellod.Sort.{sort}
use clienthellod.Hash.{
  update_u16, update_u32, ungrease_u16, ungrease_psk, is_grease_alpn, first_u64, as_hex,
}
use clienthellod.TransportParameters.{QuicTransportParameters}

pub record ClientHello : Type 0 where
  pub raw : List ℕ
  pub tls_record_version : ℕ
  pub tls_handshake_version : ℕ
  pub cipher_suites : List ℕ
  pub compression_methods : List ℕ
  pub extensions : List ℕ
  pub extensions_normalized : List ℕ
  pub server_name : List ℕ
  pub named_group_list : List ℕ
  pub ec_point_format_list : List ℕ
  pub signature_scheme_list : List ℕ
  pub alpn : List (List ℕ)
  pub cert_compress_algo : List ℕ
  pub record_size_limit : List ℕ
  pub supported_versions : List ℕ
  pub psk_key_exchange_modes : List ℕ
  pub key_share : List ℕ
  pub application_settings : List (List ℕ)
  pub user_agent : List ℕ
  pub num_id : ℕ
  pub norm_num_id : ℕ
  pub hex_id : List ℕ
  pub norm_hex_id : List ℕ
  pub length_prefixed_supported_groups : List ℕ
  pub length_prefixed_ec_point_formats : List ℕ
  pub length_prefixed_signature_algos : List ℕ
  pub alpn_with_lengths : List ℕ
  pub length_prefixed_cert_compress_algos : List ℕ
  pub keyshare_groups_with_lengths : List ℕ
  pub qtp : Option QuicTransportParameters

-- A loop of `binary.Write(h, binary.BigEndian, ungreaseU16(v))`.
abbrev pub write_ungreased : List ℕ → List ℕ
write_ungreased [] = []
write_ungreased (v ∷ vs) = update_u16 (ungrease_u16 v) ++ write_ungreased vs

abbrev pub write_u16s : List ℕ → List ℕ
write_u16s [] = []
write_u16s (v ∷ vs) = update_u16 v ++ write_u16s vs

abbrev pub ungrease_alpn : List ℕ → List ℕ
ungrease_alpn proto = if is_grease_alpn proto then 0x0a ∷ 0x0a ∷ [] else proto

-- A length of one byte and the string.
abbrev pub write_alpn : List (List ℕ) → List ℕ
write_alpn [] = []
write_alpn (proto ∷ protos) =
    length (ungrease_alpn proto) % 256 ∷ ungrease_alpn proto ++ write_alpn protos

abbrev pub write_psk_modes : List ℕ → List ℕ
write_psk_modes [] = []
write_psk_modes (m ∷ ms) = ungrease_psk m ∷ write_psk_modes ms

abbrev pub write_cert_compress : List ℕ → List ℕ
write_cert_compress [] = []
write_cert_compress (a ∷ algos) = 2 * length (a ∷ algos) % 256 ∷ write_u16s (a ∷ algos)

abbrev pub write_record_size_limit : List ℕ → List ℕ
write_record_size_limit limit = if leb 2 (length limit) then take 2 limit else 0 ∷ 0 ∷ []

-- All that one round of the loop of `calcNumericID` writes to the hash.
unfoldable pub hashed : Bool → ClientHello → List ℕ
hashed normalized ch =
    update_u32 ch.tls_handshake_version
    ++ write_ungreased ch.cipher_suites
    ++ ch.compression_methods
    ++ write_ungreased (if normalized then ch.extensions_normalized else ch.extensions)
    ++ write_ungreased ch.named_group_list
    ++ ch.ec_point_format_list
    ++ write_ungreased ch.signature_scheme_list
    ++ write_alpn ch.alpn
    ++ write_ungreased ch.key_share
    ++ write_psk_modes ch.psk_key_exchange_modes
    ++ write_ungreased ch.supported_versions
    ++ write_cert_compress ch.cert_compress_algo
    ++ write_record_size_limit ch.record_size_limit

module _ (sha1 : List ℕ → List ℕ) where
  unfoldable pub calc_numeric_id : ClientHello → ℕ × ℕ
  calc_numeric_id ch = (first_u64 (sha1 (hashed false ch)), first_u64 (sha1 (hashed true ch)))

  -- The end of `parseExtra`: the extensions are sorted and the ids computed.
  unfoldable pub set_fingerprint : ClientHello → ClientHello
  set_fingerprint ch =
      let sorted = record ch { extensions_normalized = sort ch.extensions } in
      let (orig, norm) = calc_numeric_id sorted in
      record sorted {
        num_id = orig;
        norm_num_id = norm;
        hex_id = as_hex orig;
        norm_hex_id = as_hex norm;
      }

-- ===== src/Rtp/Packet/RoundTrip.antt =====
-- `RTPMessage.parse` against the layout of RFC 3550, and against `_build_rtp_packet`.
use rfcvoip.Prelude.{
  ℕ, ◌+◌, ◌*◌, ◌%◌, ◌^◌, ◌<◌, ◌≡◌, refl, ap, ◌∙◌, Bool, false, Option, none, some, List, [], ◌∷◌,
  ◌++◌, append-nil, ltb, if◌then◌else◌, length, arith, slice, drop, to_bytes, concat, All, le→ltb,
  length-append,
}
use rfcvoip.Prelude.Int.{pos}
use rfcvoip.Rtp.Payload.{PayloadType}
use rfcvoip.Rtp.Packet.{
  RtpMessage, Assoc, ok, ◌>>=◌, of_bits, flag, bits_of, payload_type_for, parse_extension,
  strip_padding, parse, build_rtp_packet,
}
use rfcvoip.Rtp.Packet.Parts.{
  octet_value, second_octet_lem, parse_steps, parse_csrc-concat, Extension, IsExtension,
  extension_bytes, profile_of, content_of, is_some, from_bytes-to_bytes_2, from_bytes-to_bytes_4,
  parse_extension_bytes, behind_extension, padding_bytes, strip_padding_bytes,
}

-- A version 2 packet as RFC 3550 lays it out: the fields, the optional header extension and the
-- optional padding, given by its filler octets.
pub record Layout : Type 0 where
  pub marker : Bool
  pub payload_number : ℕ
  pub sequence : ℕ
  pub timestamp : ℕ
  pub ssrc : ℕ
  pub csrc : List (List ℕ)
  pub extension : Option Extension
  pub payload : List ℕ
  pub filler : Option (List ℕ)

abbrev first_octet : Bool → Bool → ℕ → ℕ
first_octet padding extension cc =
    128 + (if padding then 32 else 0) + (if extension then 16 else 0) + cc

abbrev first_octet_of : Layout → ℕ
first_octet_of l = first_octet (is_some l.filler) (is_some l.extension) (length l.csrc)

abbrev behind_csrc : Layout → List ℕ
behind_csrc l = extension_bytes l.extension ++ (l.payload ++ padding_bytes l.filler)

abbrev header_bytes : Layout → List ℕ
header_bytes l =
    first_octet_of l ∷ octet_value l.marker l.payload_number ∷ to_bytes 2 l.sequence
    ++ to_bytes 4 l.timestamp
    ++ to_bytes 4 l.ssrc

abbrev pub encode : Layout → List ℕ
encode l = header_bytes l ++ (concat l.csrc ++ behind_csrc l)

abbrev IsValidExtension : Option Extension → Type 0
IsValidExtension none = Unit
IsValidExtension (some x) = IsExtension x

-- Every field fits its width.
pub record IsLayout (l : Layout) : Type 0 where
  pub payload_number_fits : l.payload_number < 128
  pub sequence_fits : l.sequence < 2 ^ 16
  pub timestamp_fits : l.timestamp < 2 ^ 32
  pub ssrc_fits : l.ssrc < 2 ^ 32
  pub csrc_count : length l.csrc < 16
  pub csrc_sizes : All (λ c. length c ≡ 4) l.csrc
  pub extension_fits : IsValidExtension l.extension

abbrev pub message_of : PayloadType → Layout → RtpMessage
message_of codec l = record {
  version = 2;
  padding = is_some l.filler;
  extension = is_some l.extension;
  cc = length l.csrc;
  marker = l.marker;
  payload_type = codec;
  payload_number = l.payload_number;
  sequence = l.sequence;
  timestamp = l.timestamp;
  ssrc = l.ssrc;
  csrc = l.csrc;
  extension_profile = profile_of l.extension;
  extension_payload = content_of l.extension;
  payload = l.payload;
}

module _ (p e : Bool) (cc : ℕ) (h : cc < 16) where
  first_version : of_bits (slice 0 2 (bits_of (first_octet p e cc))) ≡ 2
  first_version = ground arith

  first_padding : flag (slice 2 3 (bits_of (first_octet p e cc))) ≡ p
  first_padding = ground arith

  first_extension : flag (slice 3 4 (bits_of (first_octet p e cc))) ≡ e
  first_extension = ground arith

  first_cc : of_bits (drop 4 (bits_of (first_octet p e cc))) ≡ cc
  first_cc = ground arith

module _ (m : Bool) (pt : ℕ) (h : pt < 128) where
  second_marker : flag (slice 0 1 (bits_of (octet_value m pt))) ≡ m
  second_marker = ground arith

  second_pt : of_bits (drop 1 (bits_of (octet_value m pt))) ≡ pt
  second_pt = ground arith

extension_step :
    (x : Option Extension) (i : ℕ) (packet rest : List ℕ)
    → IsValidExtension x
    → drop i packet ≡ extension_bytes x ++ rest
    → (end : ℕ) × (parse_extension (is_some x) i packet ≡ ok (profile_of x, content_of x, end))
      × (drop end packet ≡ rest)
unfolding parse_extension
extension_step none i packet rest valid here = (i, refl, here)
extension_step (some x) i packet rest valid here = (
  i + 4 + x.words * 4,
  parse_extension_bytes x valid i packet rest here,
  behind_extension x valid i packet rest here,
)

length-concat :
    (cs : List (List ℕ)) → All (λ c. length c ≡ 4) cs → length (concat cs) ≡ length cs * 4
length-concat [] h = refl
length-concat (c ∷ cs) h = omega (arith, length-append c (concat cs), length-concat cs h.1, h.0)

-- Whatever the sources, the header extension and the padding, `parse` reads every field of a
-- well-formed packet whose payload type is known back as it was laid out.
pub parse-encode :
    (assoc : Assoc) (l : Layout) (codec : PayloadType)
    → IsLayout l
    → payload_type_for assoc l.payload_number ≡ ok codec
    → parse assoc (encode l) ≡ ok (message_of codec l)
parse-encode assoc l codec v known =
    let packet = encode l in
    let size = length-append (concat l.csrc) (behind_csrc l) in
    let (listed, behind) = parse_csrc-concat l.csrc 12 packet (behind_csrc l) v.csrc_sizes refl in
    let (end, extended, left) =
      extension_step l.extension (12 + length l.csrc * 4) packet _ v.extension_fits behind in
    let long : ltb (length packet) 12 ≡ false = le→ltb _ _ (omega arith) in
    let room : ltb (length packet) (12 + length l.csrc * 4) ≡ false =
      le→ltb _ _ (omega (arith, size, length-concat l.csrc v.csrc_sizes)) in
    parse_steps assoc packet _ _ (length l.csrc) l.payload_number (is_some l.filler)
      (is_some l.extension) l.marker codec l.csrc (12 + length l.csrc * 4) end
      (profile_of l.extension) (content_of l.extension) l.payload long refl refl
      (first_version (is_some l.filler) (is_some l.extension) (length l.csrc) v.csrc_count)
      (first_padding (is_some l.filler) (is_some l.extension) (length l.csrc) v.csrc_count)
      (first_extension (is_some l.filler) (is_some l.extension) (length l.csrc) v.csrc_count)
      (first_cc (is_some l.filler) (is_some l.extension) (length l.csrc) v.csrc_count)
      (second_marker l.marker l.payload_number v.payload_number_fits)
      (second_pt l.marker l.payload_number v.payload_number_fits) known room listed extended
      (ap (strip_padding (is_some l.filler)) left ∙ strip_padding_bytes l.filler l.payload)
    ∙ rw (
      from_bytes-to_bytes_2 l.sequence v.sequence_fits,
      from_bytes-to_bytes_4 l.timestamp v.timestamp_fits,
      from_bytes-to_bytes_4 l.ssrc v.ssrc_fits,
    )

-- The layout that `_build_rtp_packet` writes: no sources, no extension, no padding.
abbrev pub plain : ℕ → ℕ → ℕ → ℕ → Bool → List ℕ → Layout
plain seq ssrc pt ts marker payload = record {
  marker = marker;
  payload_number = pt;
  sequence = seq % 2 ^ 16;
  timestamp = ts % 2 ^ 32;
  ssrc = ssrc % 2 ^ 32;
  csrc = [];
  extension = none;
  payload = payload;
  filler = none;
}

pub plain-IsLayout :
    (seq ssrc pt ts : ℕ) (marker : Bool) (payload : List ℕ)
    → pt < 128
    → IsLayout (plain seq ssrc pt ts marker payload)
plain-IsLayout seq ssrc pt ts marker payload h = record {
  payload_number_fits = h;
  sequence_fits = omega arith;
  timestamp_fits = omega arith;
  ssrc_fits = omega arith;
  csrc_count = omega arith;
  csrc_sizes = tt;
  extension_fits = tt;
}

pub build_rtp_packet-eq-encode :
    (seq ssrc pt ts : ℕ) (marker : Bool) (payload : List ℕ)
    → pt < 128
    → build_rtp_packet seq ssrc (pos pt) payload marker ts
      ≡ ok (encode (plain seq ssrc pt ts marker payload))
unfolding build_rtp_packet
build_rtp_packet-eq-encode seq ssrc pt ts marker payload h =
    rw (le→ltb 127 pt (omega arith), second_octet_lem marker pt h, append-nil)

-- For every sequence number, source, timestamp, marker, payload and payload type from 0 to 127
-- that the map or the static table knows, the packet that `_build_rtp_packet` writes parses to the
-- fields that were given, the numbers modulo the widths of their fields.
pub parse-build_rtp_packet :
    (assoc : Assoc) (seq ssrc pt ts : ℕ) (marker : Bool) (payload : List ℕ) (codec : PayloadType)
    → pt < 128
    → payload_type_for assoc pt ≡ ok codec
    → (build_rtp_packet seq ssrc (pos pt) payload marker ts >>= parse assoc)
      ≡ ok (message_of codec (plain seq ssrc pt ts marker payload))
parse-build_rtp_packet assoc seq ssrc pt ts marker payload codec h known =
    rw (build_rtp_packet-eq-encode seq ssrc pt ts marker payload h)
      (parse-encode assoc _ codec (plain-IsLayout seq ssrc pt ts marker payload h) known)

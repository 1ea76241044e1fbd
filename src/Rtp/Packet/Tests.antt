-- ===== src/Rtp/Packet/Tests.antt =====
-- Runs of the packet parser, and its theorems at packets that exercise them.
use rfcvoip.Prelude.{◌≡◌, ◌↔◌, refl, true, false, some, [], ◌∷◌, arith}
use rfcvoip.Prelude.Int.{pos}
use rfcvoip.Rtp.Payload.{of_number, of_number_iff, value, number, pcmu, opus, event}
use rfcvoip.Rtp.Packet.{
  Assoc, ok, err, parse, build_rtp_packet, payload_type_for, parse_csrc, parse_extension,
  strip_padding, ◌>>=◌, version_not_compatible, packet_too_short, unsupported_codec,
  invalid_padding,
}
use rfcvoip.Rtp.Packet.RoundTrip.{
  Layout, IsLayout, encode, message_of, parse-encode, plain, parse-build_rtp_packet,
}

abbrev assoc : Assoc
assoc = (0, pcmu) ∷ (101, event) ∷ (111, opus) ∷ []

-- A marked Opus packet with two sources, a header extension of one word and two octets of padding.
abbrev full_packet : Layout
full_packet = record {
  marker = true;
  payload_number = 111;
  sequence = 65535;
  timestamp = 4294967295;
  ssrc = 7;
  csrc = (1 ∷ 2 ∷ 3 ∷ 4 ∷ []) ∷ (5 ∷ 6 ∷ 7 ∷ 8 ∷ []) ∷ [];
  extension = some (record { profile = 0xbede; words = 1; content = 9 ∷ 9 ∷ 9 ∷ 9 ∷ [] });
  payload = 10 ∷ 20 ∷ 30 ∷ [];
  filler = some (0 ∷ []);
}

full_packet-IsLayout : IsLayout full_packet
full_packet-IsLayout = omega arith

parse-encode_example : parse assoc (encode full_packet) ≡ ok (message_of opus full_packet)
unfolding payload_type_for
parse-encode_example = parse-encode assoc full_packet opus full_packet-IsLayout refl

parse-full_packet : parse assoc (encode full_packet) ≡ ok (message_of opus full_packet)
unfolding parse payload_type_for parse_csrc parse_extension strip_padding
parse-full_packet = refl

-- A sequence number above 16 bits wraps.
parse-build_rtp_packet_example :
    (build_rtp_packet 70000 5 (pos 0) (1 ∷ 2 ∷ []) false 4294967300 >>= parse assoc)
    ≡ ok (message_of pcmu (plain 70000 5 0 4294967300 false (1 ∷ 2 ∷ [])))
unfolding payload_type_for
parse-build_rtp_packet_example =
    parse-build_rtp_packet assoc 70000 5 0 4294967300 false (1 ∷ 2 ∷ []) pcmu (omega arith) refl

parse_errors :
    (parse assoc (128 ∷ 0 ∷ []) ≡ err (packet_too_short 2))
    × (parse assoc (64 ∷ 0 ∷ 0 ∷ 0 ∷ 0 ∷ 0 ∷ 0 ∷ 0 ∷ 0 ∷ 0 ∷ 0 ∷ 0 ∷ [])
        ≡ err (version_not_compatible 1))
    × (parse assoc (128 ∷ 77 ∷ 0 ∷ 0 ∷ 0 ∷ 0 ∷ 0 ∷ 0 ∷ 0 ∷ 0 ∷ 0 ∷ 0 ∷ [])
        ≡ err (unsupported_codec 77))
    × (parse assoc (160 ∷ 0 ∷ 0 ∷ 0 ∷ 0 ∷ 0 ∷ 0 ∷ 0 ∷ 0 ∷ 0 ∷ 0 ∷ 0 ∷ 2 ∷ []) ≡ err invalid_padding)
unfolding parse payload_type_for of_number parse_csrc parse_extension strip_padding
parse_errors = (refl, refl, refl, refl)

of_number_iff_example : (of_number 0 ≡ some pcmu) ↔ (value pcmu ≡ number 0)
of_number_iff_example = of_number_iff 0 pcmu

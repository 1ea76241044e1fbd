-- ===== src/Lib.antt =====
-- A model of rfcvoip, a SIP and RTP telephone library, with the theorems about it.
--
-- The program. A `VoIPPhone` (rfcvoip/VoIP/VoIP.py) owns a pool of RTP ports and its calls. A call
-- has an `RTPClient` (rfcvoip/RTP.py) for each media connection. The client's receive thread parses
-- packets (`RTPMessage.parse`); audio goes through `RTPPacketManager`, which orders it by
-- timestamp, and telephone events through `parse_telephone_event`, which calls the application back
-- for each digit. The transmit thread drains an `RTPAudioOutput` and builds packets
-- (`_build_rtp_packet`); `transmit_dtmf` sends telephone events between them. The phone's SIP client
-- receives its messages from a transport (rfcvoip/SIPTransport.py), which cuts the bytes of a TCP or
-- TLS stream into messages, and answers the challenges of a server by digests
-- (rfcvoip/SIPAuth.py): it parses them, chooses one, and prints an authorization header; a server
-- parses that header and verifies it.
--
-- The files. Each module below names the class or the functions that it models.
--   Rtp/Payload: `PayloadType`, its members and attributes, and the lookup by number.
--   Rtp/Packet: `RTPMessage.parse`, `byte_to_bits`, `add_bytes`, `RTPClient._build_rtp_packet`;
--     Packet/Parts and Packet/RoundTrip lay a packet out as RFC 3550 does.
--   Rtp/BytesIo: `io.BytesIO` as the receive buffer uses it.
--   Rtp/PacketManager: `RTPPacketManager`: `init`, `available`, `compact` (`_compact_locked`),
--     `read`, `rebuild`, `write`; PacketManager/Log is the loop over the log in `write`.
--   Rtp/AudioOutput: `RTPAudioOutput`: `init`, `configure`, `enable_realtime`, `take_locked`,
--     `trim_locked`, `write`, `read`.
--   Rtp/Dtmf: `normalize_dtmf_sequence`, `normalize_dtmf_digit`, `_build_telephone_event_payload`;
--     Dtmf/Pending is `send_dtmf`, `send_dtmf_sequence` and `_find_telephone_event_payload_type`;
--     Dtmf/Sending is `transmit_dtmf` with `_send_rtp_packet`, Dtmf/Receiving is
--     `parse_telephone_event` with `_parse_telephone_event_report`, and Dtmf/Wire joins them by the
--     packets between a sender and a receiver (`parse_packet`; its branches for other messages are a
--     parameter).
--   Rtp/Selection: `prioritize_payload_type_map`, `select_transmittable_audio_codec` and
--     `payload_type_from_name`; what these ask of rfcvoip/codecs is a parameter.
--   Rtp/TransmitType: `TransmitType`.
--   Voip/Media/Offer: `_has_assignable_audio_ports` and what it tests of a media section.
--   Voip/Media: `_negotiate_local_transmit_type`, `_media_connections`, `_connection_address_at`,
--     `_expanded_media_connections`, `_media_rtp_targets`, `_ports_are_consecutive`.
--   Voip/Ports: `request_ports`, `reserve_ports`, `release_ports` of `VoIPPhone`, with
--     `_cleanup_dead_calls_locked` and the part of `VoIPCall._finalize_ended_call` that they need.
--   Sip/Framing: `_discard_stream_keepalive_prefix`, `_stream_has_message`, `_stream_message_length`,
--     `_pop_stream_message` and `_recv_stream_message`; its modules Buffer, Lines, Headers, Frame and
--     Stream lead from the search for the end of the headers to the calls on a whole stream, and Pop,
--     Receive and Rejects are about what a pop and a receive do.
--   Sip/Digest: `parse_digest_params`; Digest/Fields is `_quote` and the joined fields,
--     Digest/Algorithms the names of algorithms and qops and the hashes, Digest/Response
--     `compute_digest_response`, Digest/Authorization `build_authorization_parameters` and
--     `build_digest_auth_header`, Digest/Verification `verify_digest_response`, Digest/Challenge
--     `_ordered_algorithms`, `choose_digest_challenge` and `build_digest_challenge_headers`. Reading
--     and RoundTrip are about printed fields, Printed, Header, Agreement, Hex and Accepts about the
--     way of a header from client to server, Candidates and Best about the choice.
--   AudioFormat: `normalize_audio_bit_depth`, `public_pcm_to_s16le`, `s16le_to_public_pcm` and
--     `silence_bytes` of rfcvoip/audio_format.py; Numbers and Bytes are about one sample, Chunks and
--     Conversions about the loops over samples, RoundTrip about both conversions.
--   Sip/Redaction: `redact_sensitive_sip_headers`.
--   Sip/Result, Sip/Dict, Sip/Utf8: exceptions as values, dictionaries with text for keys, and
--     the decoder and encoder of UTF-8.
--   Text: the methods of `str` that the program uses.
--   Prelude: Boolean tests, lists by native numbers, slices, bytes, integers.
--
-- State is passed explicitly: a class is a record, a method a function from the old record to the
-- new one and what it returns. Each method that holds its lock throughout is one step, so threads
-- are sequences of calls; `request_ports`, which gives the lock up between its looks, is also modelled
-- by its looks as single steps. Exceptions are values (`Result`, `Outcome`, `Option`). Bytes are lists of
-- numbers; text is a list of code points.
--
-- Bounds. Sequence numbers, timestamps and sources wrap modulo 2 ^ 16 and 2 ^ 32 where the code
-- masks them. Offsets of the receive buffer, which the code only compares and subtracts, are
-- naturals counted from a base below all that occur, since the client may compute negative ones.
-- The clock of the audio output counts whole nanoseconds; the two quotients of floats with their
-- slack of 1e-9 are computed exactly. The loops of `transmit_dtmf` run on fuel: each segment and
-- each step takes at least one tick, so the ticks of the tone are enough. `NSD`, which another
-- thread may clear, is the number of tests that still find it set. `random.choice` takes any number
-- as its choice. The loop of `request_ports` takes the list of the turns that it makes. The loop of
-- `parse_digest_params` runs on fuel, one more than the characters of the text: each round takes at
-- least one of them. `int` reads at most 4300 digits, as CPython does. What `sock.recv` does is a
-- list of events. `hashlib`, `generate_cnonce` and `generate_nonce` are parameters; `hashlib` gives
-- a text for each name that it provides, or none.
--
-- Not modelled: `_shift_unread_receive_suffix`, which sets the receive buffer's log; sockets, threads and
-- locks; the clock that maps RTP timestamps to the audio timeline
-- (its calls by the event parser are recorded); the codecs; SIP messages, transactions and
-- subscriptions; nonces; the state machine of calls; telemetry.
pub mod Prelude
pub mod Text
pub mod Rtp
pub mod Voip
pub mod AudioFormat
pub mod Sip

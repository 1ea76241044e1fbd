-- ===== src/Rtp/Dtmf/Tests.antt =====
-- DTMF at concrete digits, and the theorems about it at them.
use rfcvoip.Text.{is_space, upper}
use rfcvoip.Prelude.{◌≡◌, refl, arith, true, false, none, some, [], ◌∷◌, ◌++◌, All}
use rfcvoip.Rtp.Payload.{event}
use rfcvoip.Rtp.TransmitType.{sendrecv}
use rfcvoip.Rtp.Packet.{Assoc, ok, payload_type_for}
use rfcvoip.Rtp.Dtmf.{normalize_dtmf_sequence, clean}
use rfcvoip.Rtp.Dtmf.Normal.{IsDigit, normalize-IsNormal}
use rfcvoip.Rtp.Dtmf.Sending.{Sender, tone_of, transmit_dtmf, event_of}
use rfcvoip.Rtp.Dtmf.Sending.Schedule.{IsSending}
use rfcvoip.Rtp.Dtmf.Sending.Transmission.{after_tone, transmit_dtmf-sends}
use rfcvoip.Rtp.Dtmf.Receiving.{done, raised, payload_too_short, Receiver}
use rfcvoip.Rtp.Dtmf.Wire.{OnOther, hear_packets}
use rfcvoip.Rtp.Dtmf.OneDigit.{transmit_dtmf-hear_packets}

ignores_spaces : normalize_dtmf_sequence true (b'1' ∷ b' ' ∷ b'a' ∷ []) ≡ b'1' ∷ b'A' ∷ []
unfolding normalize_dtmf_sequence clean upper is_space
ignores_spaces = refl

rejects_letters : normalize_dtmf_sequence false (b'1' ∷ b'a' ∷ []) ≡ []
unfolding normalize_dtmf_sequence clean upper is_space
rejects_letters = refl

normalize-IsNormal_example :
    All (IsDigit true) (normalize_dtmf_sequence true (b'1' ∷ b' ' ∷ b'a' ∷ []))
    × (normalize_dtmf_sequence true (normalize_dtmf_sequence true (b'1' ∷ b' ' ∷ b'a' ∷ []))
        ≡ normalize_dtmf_sequence true (b'1' ∷ b' ' ∷ b'a' ∷ []))
normalize-IsNormal_example = normalize-IsNormal true (b'1' ∷ b' ' ∷ b'a' ∷ [])

abbrev idle_sender : Sender
idle_sender = record {
  out_sequence = 65535;
  out_timestamp = 4294967295;
  out_ssrc = 7;
  telephone_event_pt = some 101;
  transmit_type = sendrecv;
  connected = true;
  stops_after = none;
  sent = [];
}

idle_sender-IsSending : IsSending idle_sender
idle_sender-IsSending = record { connected = refl; allowed = refl; runs_on = refl }

abbrev fresh_receiver : Receiver
fresh_receiver = record {
  listening = true;
  received = [];
  order = [];
  segments = [];
  receive_ssrc = none;
  clocked = [];
  digits = [];
}

-- No other message is expected.
abbrev refuse_other : OnOther
refuse_other m r = raised payload_too_short

abbrev events_only : Assoc
events_only = (101, event) ∷ []

events_only_mapped : payload_type_for events_only 101 ≡ ok event
unfolding payload_type_for
events_only_mapped = refl

hash_event : event_of (b'#' ∷ []) ≡ some 11
unfolding upper is_space
hash_event = refl

transmit_dtmf-sends_example :
    transmit_dtmf (b'#' ∷ []) 20000 50 10 idle_sender
    ≡ ok (true, after_tone (tone_of 101 11 20000 50 10 idle_sender) idle_sender)
transmit_dtmf-sends_example =
    transmit_dtmf-sends (b'#' ∷ []) 20000 50 10 idle_sender 101 11 idle_sender-IsSending refl
      (omega arith) hash_event

-- A tone of twenty seconds, which takes three segments.
transmit_dtmf-hear_packets_example :
    (s' : Sender) × (r' : Receiver) × (transmit_dtmf (b'#' ∷ []) 20000 50 10 idle_sender
      ≡ ok (true, s'))
    × (hear_packets refuse_other events_only s'.sent fresh_receiver ≡ done r')
    × (r'.digits ≡ [] ++ b'#' ∷ [])
transmit_dtmf-hear_packets_example =
    transmit_dtmf-hear_packets events_only refuse_other b'#' 20000 50 10 101 idle_sender
      fresh_receiver refl idle_sender-IsSending refl (omega arith) events_only_mapped refl
      (omega arith) refl refl refl

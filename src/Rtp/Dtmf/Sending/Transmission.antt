-- ===== src/Rtp/Dtmf/Sending/Transmission.antt =====
-- `transmit_dtmf` as a whole, with its guards.
use rfcvoip.Prelude.{
  ℕ, ◌+◌, ◌%◌, ◌^◌, ◌<◌, ◌≡◌, ap, ◌∙◌, Bool, true, false, ◌||◌, not, Option, some, List,
  if◌then◌else◌,
}
use rfcvoip.Rtp.TransmitType.{is_silent}
use rfcvoip.Rtp.Packet.{ok}
use rfcvoip.Rtp.Dtmf.Sending.{
  Sender, Tone, event_of, tone_of, transmit_tone, transmit_event, transmit_code, transmit_dtmf,
}
use rfcvoip.Rtp.Dtmf.Sending.Schedule.{
  tone_reports, put_reports, IsSending, nsd_on, send_segments_lem,
}

-- What a tone leaves: its reports are sent, and the timestamp is behind it.
abbrev pub after_tone : Tone → Sender → Sender
after_tone t s = record (put_reports t (tone_reports t.total t 0) s) {
  out_timestamp = (t.start + t.total) % 2 ^ 32;
}

pub transmit_tone_lem :
    (t : Tone) (s : Sender)
    → t.pt < 128
    → IsSending s
    → transmit_tone t s ≡ ok (true, after_tone t s)
unfolding transmit_tone
transmit_tone_lem t s fits h = rw (send_segments_lem t fits t.total 0 s h)

-- A sender that is connected, may send and is not stopped, with a telephone-event payload type below
-- 128, transmits a DTMF digit by the packets of the scheduled reports of its tone, in their order, one
-- sequence number each; it returns True, and its timestamp moves to the end of the tone.
pub transmit_dtmf-sends :
    (code : List ℕ) (duration_ms packet_ms volume : ℕ) (s : Sender) (pt event_code : ℕ)
    → IsSending s
    → s.telephone_event_pt ≡ some pt
    → pt < 128
    → event_of code ≡ some event_code
    → transmit_dtmf code duration_ms packet_ms volume s
      ≡ ok (true, after_tone (tone_of pt event_code duration_ms packet_ms volume s) s)
unfolding transmit_dtmf
transmit_dtmf-sends code duration_ms packet_ms volume s pt event_code h known fits digit =
    let t = tone_of pt event_code duration_ms packet_ms volume s in
    let behind = λ (p : Bool × Sender).
      if not p.0 || is_silent s.transmit_type
      then ok (false, p.1)
      else transmit_event (event_of code) pt duration_ms packet_ms volume p.1 in
    ap (λ (o : Option ℕ). transmit_code o code duration_ms packet_ms volume s) known
    ∙ ap behind (nsd_on s h)
    ∙ ap
        (λ (b : Bool).
          if not true || b
          then ok (false, s)
          else transmit_event (event_of code) pt duration_ms packet_ms volume s)
        h.allowed
    ∙ ap (λ (o : Option ℕ). transmit_event o pt duration_ms packet_ms volume s) digit
    ∙ transmit_tone_lem t s fits h

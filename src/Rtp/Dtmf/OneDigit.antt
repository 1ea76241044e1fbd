-- ===== src/Rtp/Dtmf/OneDigit.antt =====
-- A tone that `transmit_dtmf` sends, of fewer than 2 ^ 32 ticks, at a receiver.
use rfcvoip.Text.{rstrip, upper}
use rfcvoip.Prelude.{
  ℕ, suc, ◌*◌, ◌/◌, ◌^◌, ◌<◌, max, ◌≡◌, sym, ap, ◌∙◌, Bool, true, ◌||◌, some, inl, inr, List,
  contains, [], ◌∷◌, ◌++◌, map, length, get_elem?, ◌==◌, if◌then◌else◌, arith, Bool-cases, ==_iff,
}
use rfcvoip.Rtp.Packet.{Assoc, ok, payload_type_for}
use rfcvoip.Rtp.Dtmf.{dtmf_event_to_char, dtmf_char_to_event, position}
use rfcvoip.Rtp.Dtmf.Normal.{IsDigit, digit_upper, digit_space}
use rfcvoip.Rtp.Dtmf.Sending.{Sender, single_event, event_of, tone_of, transmit_dtmf}
use rfcvoip.Rtp.Dtmf.Sending.Schedule.{IsSending, tone_reports}
use rfcvoip.Rtp.Dtmf.Sending.Transmission.{after_tone, transmit_dtmf-sends}
use rfcvoip.Rtp.Dtmf.Receiving.{done, Receiver}
use rfcvoip.Rtp.Dtmf.Wire.{OnOther, event_type, wire, hear_packets, sent-put_reports}
use rfcvoip.Rtp.Dtmf.Segments.{hear_tone}

position_found :
    (c : ℕ) (ds : List ℕ)
    → contains c ds ≡ true
    → (i : ℕ) × (position c ds ≡ some i) × (i < length ds) × (get_elem? ds i ≡ some c)
position_found c [] h = absurd (ground (arith, h))
position_found c (d ∷ ds) h = elim (Bool-cases (c == d)) [
  | inl same ↦ (0, rw same, omega arith, ap some (sym ((==_iff c d).0 same)))
  | inr other ↦
      let (i, at, within, here) =
        position_found c ds (ap (λ (b : Bool). b || contains c ds) (sym other) ∙ h) in
      (suc i, rw (other, at), omega (arith, within), here)
]

-- One character that is a DTMF digit is the event of its place in the table.
digit_event : (c : ℕ) → IsDigit true c → event_of (c ∷ []) ≡ dtmf_char_to_event c
digit_event c h =
    let visible = digit_space true c h in
    ap (λ (b : Bool). single_event (map upper (rstrip (if b then [] else c ∷ [])))) visible
    ∙ ap (λ (b : Bool). single_event (map upper (if b then [] else c ∷ []))) visible
    ∙ ap dtmf_char_to_event (digit_upper true c h)

-- A sender that is connected, may send, is not stopped, has sent nothing yet and has a telephone-event
-- payload type below 128 transmits a DTMF digit of fewer than 2 ^ 32 ticks, and returns True. A
-- receiver that listens, maps the payload type to the telephone event and knows no event yet hears the
-- packets sent without an exception, and calls back exactly once, with that digit.
pub transmit_dtmf-hear_packets :
    (assoc : Assoc) (otherwise : OnOther) (c duration_ms packet_ms volume pt : ℕ) (s : Sender)
    (r : Receiver)
    → IsDigit true c
    → IsSending s
    → s.telephone_event_pt ≡ some pt
    → pt < 128
    → payload_type_for assoc pt ≡ ok event_type
    → s.sent ≡ []
    → max 1 (duration_ms * 8000 / 1000) < 2 ^ 32
    → r.listening ≡ true
    → r.received ≡ []
    → r.order ≡ []
    → (s' : Sender) × (r' : Receiver) × (transmit_dtmf (c ∷ []) duration_ms packet_ms volume s
        ≡ ok (true, s'))
      × (hear_packets otherwise assoc s'.sent r ≡ done r')
      × (r'.digits ≡ r.digits ++ c ∷ [])
transmit_dtmf-hear_packets assoc otherwise c duration_ms packet_ms volume pt s r digit sending typed
      fits mapped unsent short listening none_known none_ordered =
    let (code, at, within, here) = position_found c dtmf_event_to_char digit in
    let t = tone_of pt code duration_ms packet_ms volume s in
    let (r', end, last, heard, ends, whole, digits) =
      hear_tone assoc otherwise t s.out_ssrc c fits mapped within here short t.total s.out_sequence
        r (omega arith) (omega arith) listening none_known none_ordered in
    let sent : (after_tone t s).sent ≡ wire t s.out_sequence s.out_ssrc (tone_reports t.total t 0) =
      sent-put_reports t (tone_reports t.total t 0) s
      ∙ ap
          (λ (ps : List (List ℕ)).
            ps ++ wire t s.out_sequence s.out_ssrc (tone_reports t.total t 0))
          unsent in
    (
      after_tone t s,
      r',
      transmit_dtmf-sends (c ∷ []) duration_ms packet_ms volume s pt code sending typed fits
          (digit_event c digit ∙ at),
      ap (λ (ps : List (List ℕ)). hear_packets otherwise assoc ps r) sent ∙ heard,
      digits,
    )

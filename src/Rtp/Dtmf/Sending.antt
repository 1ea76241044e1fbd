-- ===== src/Rtp/Dtmf/Sending.antt =====
-- `RTPClient.transmit_dtmf` and `_send_rtp_packet` of rfcvoip/RTP.py. `NSD` may be cleared by
-- another thread: `stops_after` is the number of tests that still find it set, `none` for all of them.
pub mod Schedule
pub mod Transmission
use rfcvoip.Text.{is_space, lstrip, rstrip, upper}
use rfcvoip.Prelude.{
  ℕ, zero, suc, ◌+◌, ◌-◌, ◌*◌, ◌/◌, ◌%◌, ◌^◌, min, max, Bool, true, false, ◌&&◌, ◌||◌, not, Option,
  none, some, List, [], ◌∷◌, ◌++◌, map, ltb, ◌==◌, if◌then◌else◌,
}
use rfcvoip.Prelude.Int.{pos}
use rfcvoip.Rtp.TransmitType.{TransmitType, is_silent}
use rfcvoip.Rtp.Packet.{RtpError, Result, ok, err, ◌>>=◌, build_rtp_packet}
use rfcvoip.Rtp.Dtmf.{dtmf_char_to_event, telephone_event_payload}

-- The fields of `RTPClient` that sending reads and writes, and the packets handed to the socket.
pub record Sender : Type 0 where
  pub out_sequence : ℕ
  pub out_timestamp : ℕ
  pub out_ssrc : ℕ
  pub telephone_event_pt : Option ℕ
  pub transmit_type : TransmitType
  pub connected : Bool
  pub stops_after : Option ℕ
  pub sent : List (List ℕ)

-- One test of `self.NSD`.
abbrev pub nsd_by : Option ℕ → Sender → Bool × Sender
nsd_by none s = (true, s)
nsd_by (some zero) s = (false, s)
nsd_by (some (suc n)) s = (true, record s { stops_after = some n })

abbrev pub nsd : Sender → Bool × Sender
nsd s = nsd_by s.stops_after s

abbrev pub put : List ℕ → Sender → Sender
put packet s = record s {
  out_sequence = (s.out_sequence + 1) % 2 ^ 16;
  sent = s.sent ++ packet ∷ [];
}

-- The part of `_send_rtp_packet` behind the build: the packet goes out and uses up its sequence
-- number. A socket that fails to send only warns.
abbrev pub hand_over : List ℕ → Sender → Sender
hand_over packet s =
    if not s.connected
    then s
    else (let alive = nsd s in
        if not alive.0 || is_silent s.transmit_type then alive.1 else put packet alive.1)

-- `_send_rtp_packet`
pub send_rtp_packet : (pt : ℕ) → List ℕ → (marker : Bool) → (timestamp : ℕ) → Sender → Result Sender
send_rtp_packet pt payload marker timestamp s =
    build_rtp_packet s.out_sequence s.out_ssrc (pos pt) payload marker timestamp >>= λ packet.
    ok (hand_over packet s)

-- What the loops of one call of `transmit_dtmf` do not change.
pub record Tone : Type 0 where
  pub pt : ℕ
  pub event_code : ℕ
  pub volume : ℕ
  pub start : ℕ
  pub total : ℕ
  pub step : ℕ

-- One report of the event.
abbrev pub send_report :
    Tone → (marker : Bool) → (timestamp duration : ℕ) → (end : Bool) → Sender → Result Sender
send_report t marker timestamp duration end =
    send_rtp_packet t.pt (telephone_event_payload t.event_code duration end t.volume) marker
      timestamp

-- The loop of updates of a segment, on fuel.
pub send_updates : (fuel : ℕ) → Tone → (timestamp segment elapsed : ℕ) → Sender → Result Sender
send_updates zero t timestamp segment elapsed s = ok s
send_updates (suc fuel) t timestamp segment elapsed s =
    if ltb (elapsed + t.step) segment
    then (let alive = nsd s in
        if alive.0
        then (send_report t false timestamp (elapsed + t.step) false alive.1
            >>= send_updates fuel t timestamp segment (elapsed + t.step))
        else ok alive.1)
    else ok s

-- The repeats of the final report.
pub send_finals :
    (repeats : ℕ) → Tone → (timestamp segment : ℕ) → (end : Bool) → Sender → Result Sender
send_finals zero t timestamp segment end s = ok s
send_finals (suc repeats) t timestamp segment end s =
    let alive = nsd s in
    if alive.0
    then (send_report t false timestamp segment end alive.1
        >>= send_finals repeats t timestamp segment end)
    else ok alive.1

-- The body of the outer loop: one segment.
pub send_segment : Tone → (completed segment : ℕ) → Sender → Result Sender
send_segment t completed segment s =
    let timestamp = (t.start + completed) % 2 ^ 32 in
    let first = min t.step segment in
    send_report t (completed == 0) timestamp first false s
    >>= send_updates segment t timestamp segment first
    >>= send_finals 3 t timestamp segment (completed + segment == t.total)

-- The outer loop, on fuel.
pub send_segments : (fuel : ℕ) → Tone → (completed : ℕ) → Sender → Result Sender
send_segments zero t completed s = ok s
send_segments (suc fuel) t completed s =
    if ltb completed t.total
    then (let alive = nsd s in
        let segment = min 0xffff (t.total - completed) in
        if alive.0
        then send_segment t completed segment alive.1 >>= send_segments fuel t (completed + segment)
        else ok alive.1)
    else ok s

abbrev pub single_event : List ℕ → Option ℕ
single_event [] = none
single_event (c ∷ []) = dtmf_char_to_event c
single_event (c ∷ d ∷ ds) = none

-- `str.strip` and `str.upper`, and the number of the event for one character
abbrev pub event_of : List ℕ → Option ℕ
event_of code = single_event (map upper (rstrip (lstrip code)))

abbrev pub tone_of : (pt event_code duration_ms packet_ms volume : ℕ) → Sender → Tone
tone_of pt event_code duration_ms packet_ms volume s = record {
  pt = pt;
  event_code = event_code;
  volume = volume;
  start = s.out_timestamp % 2 ^ 32;
  total = max 1 (duration_ms * 8000 / 1000);
  step = max 1 (packet_ms * 8000 / 1000);
}

-- The part of `transmit_dtmf` behind its tests. Each segment and each step is at least one tick, so
-- the total is fuel enough.
pub transmit_tone : Tone → Sender → Result (Bool × Sender)
transmit_tone t s = send_segments t.total t 0 s >>= λ s'.
    ok (true, record s' { out_timestamp = (t.start + t.total) % 2 ^ 32 })

abbrev pub transmit_event :
    Option ℕ → (pt duration_ms packet_ms volume : ℕ) → Sender → Result (Bool × Sender)
transmit_event none pt duration_ms packet_ms volume s = ok (false, s)
transmit_event (some event_code) pt duration_ms packet_ms volume s =
    transmit_tone (tone_of pt event_code duration_ms packet_ms volume s) s

abbrev pub transmit_code :
    Option ℕ → List ℕ → (duration_ms packet_ms volume : ℕ) → Sender → Result (Bool × Sender)
transmit_code none code duration_ms packet_ms volume s = ok (false, s)
transmit_code (some pt) code duration_ms packet_ms volume s =
    let alive = nsd s in
    if not alive.0 || is_silent s.transmit_type
    then ok (false, alive.1)
    else transmit_event (event_of code) pt duration_ms packet_ms volume alive.1

-- `transmit_dtmf`
pub transmit_dtmf : List ℕ → (duration_ms packet_ms volume : ℕ) → Sender → Result (Bool × Sender)
transmit_dtmf code duration_ms packet_ms volume s =
    transmit_code s.telephone_event_pt code duration_ms packet_ms volume s

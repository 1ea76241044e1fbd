-- ===== src/Rtp/Dtmf/Wire.antt =====
-- The packets of a tone on the wire, and a receiver that parses them.
use Prim.Native.Nat.{bit_or}
use mathlib.Core.Path.{fun_ext}
use rfcvoip.Prelude.{
  ℕ, ◌+◌, ◌/◌, ◌%◌, ◌^◌, ◌<◌, ◌≡◌, refl, sym, ap, ◌∙◌, Bool, true, false, not, Option, some, List,
  [], ◌∷◌, ◌++◌, append_assoc, append-nil, get_elem?, from_bytes, every_below, every_below_sound,
  if◌then◌else◌, arith,
}
use rfcvoip.Rtp.Payload
use rfcvoip.Rtp.Payload.{PayloadType}
use rfcvoip.Rtp.Dtmf.Pending.{is_event}
use rfcvoip.Rtp.Packet.{Assoc, RtpMessage, Result, ok, err, payload_type_for, parse}
use rfcvoip.Rtp.Packet.RoundTrip.{plain, plain-IsLayout, parse-encode}
use rfcvoip.Rtp.Dtmf.{dtmf_event_to_char, telephone_event_payload}
use rfcvoip.Rtp.Dtmf.Sending.{Sender, Tone}
use rfcvoip.Rtp.Dtmf.Sending.Schedule.{Report, payload_of, packet_of, put_report, put_reports}
use rfcvoip.Rtp.Dtmf.Receiving.Payload.{one_report, SameEvents, clock-SameEvents}
use rfcvoip.Rtp.Dtmf.Receiving.{
  rtp_error, Outcome, done, raised, ◌>>=◌, EventKey, Receiver, end_flag, clock, report_event,
  parse_telephone_event,
}

-- The packets of some reports, with sequence numbers from `sequence` on.
unfoldable pub wire : Tone → (sequence ssrc : ℕ) → List Report → List (List ℕ)
wire t sequence ssrc [] = []
wire t sequence ssrc (r ∷ rs) =
    packet_of t sequence ssrc r ∷ wire t ((sequence + 1) % 2 ^ 16) ssrc rs

unfoldable pub sequence_after : ℕ → List Report → ℕ
sequence_after sequence [] = sequence
sequence_after sequence (r ∷ rs) = sequence_after ((sequence + 1) % 2 ^ 16) rs

pub wire-append :
    (t : Tone) (sequence ssrc : ℕ) (rs qs : List Report)
    → wire t sequence ssrc (rs ++ qs)
      ≡ wire t sequence ssrc rs ++ wire t (sequence_after sequence rs) ssrc qs
unfolding wire sequence_after
wire-append t sequence ssrc [] qs = refl
wire-append t sequence ssrc (r ∷ rs) qs =
    ap (λ (ps : List (List ℕ)). packet_of t sequence ssrc r ∷ ps)
      (wire-append t ((sequence + 1) % 2 ^ 16) ssrc rs qs)

pub sent-put_reports :
    (t : Tone) (rs : List Report) (s : Sender)
    → (put_reports t rs s).sent ≡ s.sent ++ wire t s.out_sequence s.out_ssrc rs
unfolding put_reports put_report wire
sent-put_reports t [] s = sym (append-nil s.sent)
sent-put_reports t (r ∷ rs) s =
    sent-put_reports t rs (put_report t r s)
    ∙ append_assoc s.sent (packet_of t s.out_sequence s.out_ssrc r ∷ []) _

-- `PayloadType.EVENT`
abbrev pub event_type : PayloadType
event_type = Payload.event

-- What `parse_packet` does with a message that is no telephone event: `parse_audio`, or an error.
abbrev pub OnOther : Type 0
OnOther = RtpMessage → Receiver → Outcome Receiver

-- `RTPClient.parse_packet`
abbrev pub hear_message : OnOther → Result RtpMessage → Receiver → Outcome Receiver
hear_message otherwise (err e) r = raised (rtp_error e)
hear_message otherwise (ok m) r =
    if is_event m.payload_type
    then parse_telephone_event m.payload m.ssrc m.sequence m.timestamp m.marker r
    else otherwise m r

unfoldable pub hear_packets : OnOther → Assoc → List (List ℕ) → Receiver → Outcome Receiver
hear_packets otherwise assoc [] r = done r
hear_packets otherwise assoc (p ∷ ps) r =
    hear_message otherwise (parse assoc p) r >>= hear_packets otherwise assoc ps

flags_of : Bool → ℕ → ℕ
flags_of end volume = bit_or (if end then 0x80 else 0) volume

end_table : every_below (λ v. end_flag (flags_of true v)) 64 ≡ true
unfolding every_below flags_of
end_table = refl

more_table : every_below (λ v. not (end_flag (flags_of false v))) 64 ≡ true
unfolding every_below flags_of
more_table = refl

end_flag_lem :
    (end : Bool) (volume : ℕ) → end_flag (bit_or (if end then 0x80 else 0) (volume % 64)) ≡ end
unfolding flags_of
end_flag_lem true volume =
    every_below_sound (λ v. end_flag (flags_of true v)) 64 (volume % 64) (omega arith) end_table
end_flag_lem false volume = ground (
  arith,
  every_below_sound (λ v. not (end_flag (flags_of false v))) 64 (volume % 64) (omega arith)
      more_table,
)

-- A packet of a report, at a receiver that maps its payload type to the telephone event.
pub hear_packet :
    (assoc : Assoc) (otherwise : OnOther) (t : Tone) (sequence ssrc event : ℕ) (p : Report)
    (r : Receiver)
    → t.pt < 128
    → payload_type_for assoc t.pt ≡ ok event_type
    → t.event_code < 16
    → get_elem? dtmf_event_to_char t.event_code ≡ some event
    → p.duration < 2 ^ 16
    → (r1 : Receiver) × SameEvents r r1
      × (hear_message otherwise (parse assoc (packet_of t sequence ssrc p)) r
          ≡ report_event
              (some event)
              (record {
                ssrc = ssrc % 2 ^ 32;
                timestamp = p.timestamp % 2 ^ 32;
                code = t.event_code;
              })
              p.duration
              p.end
              p.marker
              false
              r1)
unfolding telephone_event_payload
hear_packet assoc otherwise t sequence ssrc event p r pt_fits known code_fits named fits =
    let layout = plain sequence ssrc t.pt p.timestamp p.marker (payload_of t p) in
    let flags = bit_or (if p.end then 0x80 else 0) (t.volume % 64) in
    let high = p.duration / 256 % 256 in
    let low = p.duration % 256 in
    let r1 =
      clock (ssrc % 2 ^ 32) (sequence % 2 ^ 16) (p.timestamp % 2 ^ 32) flags
        (from_bytes (high ∷ low ∷ [])) r in
    let source = ssrc % 2 ^ 32 in
    let time = p.timestamp % 2 ^ 32 in
    let k : EventKey = record { ssrc = source; timestamp = time; code = t.event_code } in
    let byte : t.event_code % 256 ≡ t.event_code = omega (arith, code_fits) in
    let whole : from_bytes (high ∷ low ∷ []) ≡ p.duration = omega (arith, fits) in
    (
      r1,
      clock-SameEvents _ _ _ _ _ r,
      ap (λ (m : Result RtpMessage). hear_message otherwise m r)
            (parse-encode assoc layout event_type
              (plain-IsLayout sequence ssrc t.pt p.timestamp p.marker (payload_of t p) pt_fits)
              known)
          ∙ ap
              (λ (c : ℕ).
                parse_telephone_event (c ∷ flags ∷ high ∷ low ∷ []) source (sequence % 2 ^ 16) time
                  p.marker r)
              byte
          ∙ one_report t.event_code flags high low source (sequence % 2 ^ 16) time p.marker r
              code_fits
          ∙ ap
              (λ (o : Option ℕ).
                report_event o k (from_bytes (high ∷ low ∷ [])) (end_flag flags) p.marker false r1)
              named
          ∙ ap (λ (d : ℕ). report_event (some event) k d (end_flag flags) p.marker false r1) whole
          ∙ ap (λ (e : Bool). report_event (some event) k p.duration e p.marker false r1)
              (end_flag_lem p.end t.volume),
    )

bind_assoc :
    {A B C : Type 0} (m : Outcome A) (f : A → Outcome B) (g : B → Outcome C)
    → (m >>= λ a. f a >>= g) ≡ (m >>= f >>= g)
bind_assoc (done a) f g = refl
bind_assoc (raised e) f g = refl

pub hear_packets-append :
    (otherwise : OnOther) (assoc : Assoc) (ps qs : List (List ℕ)) (r : Receiver)
    → hear_packets otherwise assoc (ps ++ qs) r
      ≡ (hear_packets otherwise assoc ps r >>= hear_packets otherwise assoc qs)
unfolding hear_packets
hear_packets-append otherwise assoc [] qs r = refl
hear_packets-append otherwise assoc (p ∷ ps) qs r =
    ap (λ (f : Receiver → Outcome Receiver). hear_message otherwise (parse assoc p) r >>= f)
      (fun_ext (λ r1. hear_packets-append otherwise assoc ps qs r1))
    ∙ bind_assoc (hear_message otherwise (parse assoc p) r) (hear_packets otherwise assoc ps)
        (hear_packets otherwise assoc qs)

-- ===== src/Rtp/Dtmf/Sending/Schedule.antt =====
-- The reports that a tone consists of, and the loops of `transmit_dtmf` over them.
use rfcvoip.Prelude.{
  ℕ, zero, suc, ◌+◌, ◌-◌, ◌%◌, ◌^◌, ◌<◌, min, ◌≡◌, refl, sym, ap, ◌∙◌, Bool, true, false, ◌||◌, not,
  Option, none, inl, inr, List, [], ◌∷◌, ◌++◌, map, replicate, ltb, ◌==◌, if◌then◌else◌, ltb→lt,
  All, Bool-cases,
}
use rfcvoip.Rtp.TransmitType.{is_silent}
use rfcvoip.Rtp.Packet.{ok}
use rfcvoip.Rtp.Packet.RoundTrip.{encode, plain, build_rtp_packet-eq-encode}
use rfcvoip.Rtp.Dtmf.{telephone_event_payload}
use rfcvoip.Rtp.Dtmf.Sending.{
  Sender, nsd_by, nsd, put, hand_over, send_rtp_packet, Tone, send_report, send_updates,
  send_finals, send_segment, send_segments,
}

pub record Report : Type 0 where
  pub marker : Bool
  pub timestamp : ℕ
  pub duration : ℕ
  pub end : Bool

-- The durations of the updates: steps from `elapsed` that stay below the segment.
unfoldable pub update_durations : (fuel : ℕ) → (step segment elapsed : ℕ) → List ℕ
update_durations zero step segment elapsed = []
update_durations (suc fuel) step segment elapsed =
    let rest = update_durations fuel step segment (elapsed + step) in
    if ltb (elapsed + step) segment then (elapsed + step) ∷ rest else []

pub update_durations-IsBelow :
    (fuel step segment elapsed : ℕ)
    → All (λ d. d < segment) (update_durations fuel step segment elapsed)
unfolding update_durations
update_durations-IsBelow zero step segment elapsed = tt
update_durations-IsBelow (suc fuel) step segment elapsed =
    elim (Bool-cases (ltb (elapsed + step) segment)) [
      | inl more ↦
          rw more (ltb→lt _ _ more, update_durations-IsBelow fuel step segment (elapsed + step))
      | inr enough ↦ rw enough tt
    ]

abbrev pub update_report : ℕ → ℕ → Report
update_report timestamp duration = record {
  marker = false;
  timestamp = timestamp;
  duration = duration;
  end = false;
}

abbrev pub final_report : ℕ → ℕ → Bool → Report
final_report timestamp duration end = record {
  marker = false;
  timestamp = timestamp;
  duration = duration;
  end = end;
}

abbrev pub segment_time : Tone → ℕ → ℕ
segment_time t completed = (t.start + completed) % 2 ^ 32

-- A segment: its first report, the updates, and three final reports.
abbrev pub segment_reports : Tone → (completed segment : ℕ) → List Report
segment_reports t completed segment =
    let timestamp = segment_time t completed in
    let first = min t.step segment in
    record { marker = completed == 0; timestamp = timestamp; duration = first; end = false }
      ∷ map (update_report timestamp) (update_durations segment t.step segment first)
    ++ replicate 3 (final_report timestamp segment (completed + segment == t.total))

-- Segments of at most 65535 ticks up to the total.
unfoldable pub tone_reports : (fuel : ℕ) → Tone → (completed : ℕ) → List Report
tone_reports zero t completed = []
tone_reports (suc fuel) t completed =
    let segment = min 0xffff (t.total - completed) in
    let rest = tone_reports fuel t (completed + segment) in
    if ltb completed t.total then segment_reports t completed segment ++ rest else []

-- The packet of a report.
abbrev pub payload_of : Tone → Report → List ℕ
payload_of t r = telephone_event_payload t.event_code r.duration r.end t.volume

abbrev pub packet_of : Tone → (sequence ssrc : ℕ) → Report → List ℕ
packet_of t sequence ssrc r =
    encode (plain sequence ssrc t.pt r.timestamp r.marker (payload_of t r))

unfoldable pub put_report : Tone → Report → Sender → Sender
put_report t r s = put (packet_of t s.out_sequence s.out_ssrc r) s

unfoldable pub put_reports : Tone → List Report → Sender → Sender
put_reports t [] s = s
put_reports t (r ∷ rs) s = put_reports t rs (put_report t r s)

-- Nothing keeps the sender from sending: it is connected, its direction allows it, and `NSD` stays set.
pub record IsSending (s : Sender) : Type 0 where
  pub connected : s.connected ≡ true
  pub allowed : is_silent s.transmit_type ≡ false
  pub runs_on : s.stops_after ≡ none

put_report-IsSending :
    (t : Tone) (r : Report) (s : Sender) → IsSending s → IsSending (put_report t r s)
unfolding put_report
put_report-IsSending t r s h = record {
  connected = h.connected;
  allowed = h.allowed;
  runs_on = h.runs_on;
}

put_reports-IsSending :
    (t : Tone) (rs : List Report) (s : Sender) → IsSending s → IsSending (put_reports t rs s)
unfolding put_reports
put_reports-IsSending t [] s h = h
put_reports-IsSending t (r ∷ rs) s h =
    put_reports-IsSending t rs (put_report t r s) (put_report-IsSending t r s h)

put_reports-append :
    (t : Tone) (rs qs : List Report) (s : Sender)
    → put_reports t (rs ++ qs) s ≡ put_reports t qs (put_reports t rs s)
unfolding put_reports
put_reports-append t [] qs s = refl
put_reports-append t (r ∷ rs) qs s = put_reports-append t rs qs (put_report t r s)

put_reports-nil : (t : Tone) (s : Sender) → put_reports t [] s ≡ s
unfolding put_reports
put_reports-nil t s = refl

pub nsd_on : (s : Sender) → IsSending s → nsd s ≡ (true, s)
nsd_on s h = ap (λ (o : Option ℕ). nsd_by o s) h.runs_on

hand_over-put : (packet : List ℕ) (s : Sender) → IsSending s → hand_over packet s ≡ put packet s
hand_over-put packet s h =
    let behind =
      λ (p : Bool × Sender). if not p.0 || is_silent s.transmit_type then p.1 else put packet p.1 in
    ap (λ (c : Bool). if not c then s else behind (nsd s)) h.connected
    ∙ ap behind (nsd_on s h)
    ∙ ap (λ (b : Bool). if not true || b then s else put packet s) h.allowed

send_report_lem :
    (t : Tone) (r : Report) (s : Sender)
    → t.pt < 128
    → IsSending s
    → send_report t r.marker r.timestamp r.duration r.end s ≡ ok (put_report t r s)
unfolding send_rtp_packet put_report
send_report_lem t r s fits h =
    let built =
      build_rtp_packet-eq-encode s.out_sequence s.out_ssrc t.pt r.timestamp r.marker
        (payload_of t r) fits in
    rw built (ap ok (hand_over-put (packet_of t s.out_sequence s.out_ssrc r) s h))

module _ (t : Tone) (fits : t.pt < 128) where
  send_updates_lem :
      (fuel timestamp segment elapsed : ℕ) (s : Sender)
      → IsSending s
      → send_updates fuel t timestamp segment elapsed s
        ≡ ok (
            put_reports t
              (map (update_report timestamp) (update_durations fuel t.step segment elapsed))
              s)
  unfolding send_updates update_durations put_reports
  send_updates_lem zero timestamp segment elapsed s h = refl
  send_updates_lem (suc fuel) timestamp segment elapsed s h =
      elim (Bool-cases (ltb (elapsed + t.step) segment)) [
        | inl more ↦
            let r = update_report timestamp (elapsed + t.step) in
            rw (more, nsd_on s h, send_report_lem t r s fits h)
              (send_updates_lem fuel timestamp segment (elapsed + t.step) (put_report t r s)
                (put_report-IsSending t r s h))
        | inr enough ↦ rw enough
      ]

  send_finals_lem :
      (repeats timestamp segment : ℕ) (end : Bool) (s : Sender)
      → IsSending s
      → send_finals repeats t timestamp segment end s
        ≡ ok (put_reports t (replicate repeats (final_report timestamp segment end)) s)
  unfolding send_finals put_reports
  send_finals_lem zero timestamp segment end s h = refl
  send_finals_lem (suc repeats) timestamp segment end s h =
      let r = final_report timestamp segment end in
      rw (nsd_on s h, send_report_lem t r s fits h)
        (send_finals_lem repeats timestamp segment end (put_report t r s)
          (put_report-IsSending t r s h))

  send_segment_lem :
      (completed segment : ℕ) (s : Sender)
      → IsSending s
      → send_segment t completed segment s
        ≡ ok (put_reports t (segment_reports t completed segment) s)
  unfolding send_segment put_reports
  send_segment_lem completed segment s h =
      let timestamp = segment_time t completed in
      let first : Report = record {
        marker = completed == 0;
        timestamp = timestamp;
        duration = min t.step segment;
        end = false;
      } in
      let updates =
        map (update_report timestamp)
          (update_durations segment t.step segment (min t.step segment)) in
      let s1 = put_report t first s in
      let h1 = put_report-IsSending t first s h in
      rw (
        send_report_lem t first s fits h,
        send_updates_lem segment timestamp segment (min t.step segment) s1 h1,
        send_finals_lem 3 timestamp segment (completed + segment == t.total)
            (put_reports t updates s1) (put_reports-IsSending t updates s1 h1),
        put_reports-append t updates
            (replicate 3 (final_report timestamp segment (completed + segment == t.total))) s1,
      )

  pub send_segments_lem :
      (fuel completed : ℕ) (s : Sender)
      → IsSending s
      → send_segments fuel t completed s ≡ ok (put_reports t (tone_reports fuel t completed) s)
  unfolding send_segments tone_reports
  send_segments_lem zero completed s h = ap ok (sym (put_reports-nil t s))
  send_segments_lem (suc fuel) completed s h = elim (Bool-cases (ltb completed t.total)) [
    | inl more ↦
        let segment = min 0xffff (t.total - completed) in
        let reports = segment_reports t completed segment in
        rw (more, nsd_on s h, send_segment_lem completed segment s h)
          (send_segments_lem fuel (completed + segment) (put_reports t reports s)
              (put_reports-IsSending t reports s h)
            ∙ ap ok
                (sym (put_reports-append t reports (tone_reports fuel t (completed + segment)) s)))
    | inr enough ↦ rw enough (ap ok (sym (put_reports-nil t s)))
  ]

-- ===== src/Rtp/Dtmf/Segments.antt =====
-- The segments of a tone one after the other, at a receiver that parses their packets.
use mathlib.Core.Path.{subst}
use rfcvoip.Prelude.{
  ℕ, zero, suc, ◌+◌, ◌-◌, ◌%◌, ◌^◌, ◌≤◌, ◌<◌, min, ◌≡◌, refl, sym, ap, ◌∙◌, Bool, true, false, some,
  inl, inr, List, [], ◌∷◌, ◌++◌, map, replicate, get_elem?, lt→ltb, le→ltb, ◌==◌, arith, append-nil,
  Bool-cases, ==_iff,
}
use rfcvoip.Rtp.Packet.{Assoc, ok, payload_type_for}
use rfcvoip.Rtp.Dtmf.{dtmf_event_to_char}
use rfcvoip.Rtp.Dtmf.Sending.{Tone}
use rfcvoip.Rtp.Dtmf.Sending.Schedule.{
  Report, update_durations, update_report, final_report, segment_time, tone_reports,
}
use rfcvoip.Rtp.Dtmf.Receiving.{Outcome, done, ◌>>=◌, Receiver}
use rfcvoip.Rtp.Dtmf.Receiving.Event.{IsHeard}
use rfcvoip.Rtp.Dtmf.Wire.{
  OnOther, event_type, wire, sequence_after, hear_packets, hear_packets-append,
}
use rfcvoip.Rtp.Dtmf.Hearing.{
  Hears, settled, joined, joined_one, segment_rest, next_packet, first_packet,
}

reports_done : (fuel : ℕ) (t : Tone) (n : ℕ) → t.total ≤ n → tone_reports fuel t n ≡ []
unfolding tone_reports
reports_done zero t n h = refl
reports_done (suc fuel) t n h = rw (le→ltb n t.total h)

module _ (assoc : Assoc) (otherwise : OnOther) (t : Tone) (ssrc event : ℕ) (pt_fits : t.pt < 128)
    (mapped : payload_type_for assoc t.pt ≡ ok event_type) (code_fits : t.event_code < 16)
    (named : get_elem? dtmf_event_to_char t.event_code ≡ some event)
    (short : t.total < 2 ^ 32) where
  abbrev Heard : Receiver → ℕ → ℕ → Bool → Type 0
  Heard = IsHeard (ssrc % 2 ^ 32) t.event_code t.start event

  abbrev HearsTone : (sequence : ℕ) → List Report → (r r' : Receiver) → (c d : ℕ) → Bool → Type 0
  HearsTone = Hears assoc otherwise t ssrc event pt_fits mapped code_fits named

  abbrev segment_at : ℕ → ℕ
  segment_at n = min 0xffff (t.total - n)

  -- The reports of the segment at `n` behind its first one.
  abbrev behind_first : ℕ → List Report
  behind_first n =
      map (update_report (segment_time t n))
        (update_durations (segment_at n) t.step (segment_at n) (min t.step (segment_at n)))
      ++ replicate 3 (final_report (segment_time t n) (segment_at n) (n + segment_at n == t.total))

  abbrev first_report : ℕ → Report
  first_report n = record {
    marker = n == 0;
    timestamp = segment_time t n;
    duration = min t.step (segment_at n);
    end = false;
  }

  reports_more :
      (fuel n : ℕ)
      → n < t.total
      → tone_reports (suc fuel) t n
        ≡ first_report n ∷ (behind_first n ++ tone_reports fuel t (n + segment_at n))
  unfolding tone_reports
  reports_more fuel n h = rw (lt→ltb n t.total h)

  -- The tone is heard to its end.
  abbrev Ends : (sequence : ℕ) → List Report → Receiver → Type 0
  Ends sequence reports r =
      (r' : Receiver) × (c d : ℕ) × HearsTone sequence reports r r' c d true × (c + d ≡ t.total)

  ended :
      (fuel sequence : ℕ) (r r1 : Receiver) (n : ℕ)
      → n < t.total
      → (n + segment_at n == t.total) ≡ true
      → HearsTone sequence (behind_first n) r r1 n (segment_at n) (n + segment_at n == t.total)
      → Ends sequence (behind_first n ++ tone_reports fuel t (n + segment_at n)) r
  ended fuel sequence r r1 n more last k =
      let whole = (==_iff (n + segment_at n) t.total).0 last in
      let same : behind_first n ++ tone_reports fuel t (n + segment_at n) ≡ behind_first n =
        ap (λ (rest : List Report). behind_first n ++ rest)
          (reports_done fuel t (n + segment_at n) (omega (arith, whole)))
        ∙ append-nil (behind_first n) in
      subst (λ ps. Ends sequence ps r) (sym same)
        (
          r1,
          n,
          segment_at n,
          settled assoc otherwise t ssrc event pt_fits mapped code_fits named sequence
              (behind_first n) r r1 n (segment_at n) (segment_at n) (n + segment_at n == t.total)
              true refl last k,
          whole,
        )

  -- Behind the first report of the segment at `n`, the receiver hears the tone to its end.
  after_first :
      (fuel sequence : ℕ) (r : Receiver) (n : ℕ)
      → n < t.total
      → t.total ≤ n + suc fuel
      → Heard r n (min t.step (segment_at n)) false
      → Ends sequence (behind_first n ++ tone_reports fuel t (n + segment_at n)) r
  after_first zero sequence r n more enough h =
      let last = n + segment_at n == t.total in
      let (r1, k1) =
        segment_rest assoc otherwise t ssrc event pt_fits mapped code_fits named (segment_at n)
          sequence (segment_at n) last r n (min t.step (segment_at n)) (omega arith) (omega arith)
          h in
      ended 0 sequence r r1 n more
        ((==_iff (n + segment_at n) t.total).1 (omega (arith, more, enough))) k1
  after_first (suc fuel) sequence r n more enough h =
      let last = n + segment_at n == t.total in
      let (r1, k1) =
        segment_rest assoc otherwise t ssrc event pt_fits mapped code_fits named (segment_at n)
          sequence (segment_at n) last r n (min t.step (segment_at n)) (omega arith) (omega arith)
          h in
      elim (Bool-cases last) [
        | inl is_last ↦ ended (suc fuel) sequence r r1 n more is_last k1
        | inr not_last ↦
            let full : segment_at n ≡ 0xffff = ground (arith, not_last, more) in
            let m = n + 0xffff in
            let m_more : m < t.total = ground (arith, not_last, more) in
            let k =
              settled assoc otherwise t ssrc event pt_fits mapped code_fits named sequence
                (behind_first n) r r1 n (segment_at n) 0xffff last false full not_last k1 in
            let later = sequence_after sequence (behind_first n) in
            let (r2, k2) =
              next_packet assoc otherwise t ssrc event pt_fits mapped code_fits named later
                (first_report m) r1 n refl (omega arith) (ground arith) refl
                (omega (arith, m_more, short)) k.heard in
            let (r3, c, d, k3, whole) =
              after_first fuel ((later + 1) % 2 ^ 16) r2 m m_more (omega (arith, enough))
                k2.heard in
            let rest = behind_first m ++ tone_reports fuel t (m + segment_at m) in
            let tail =
              joined_one assoc otherwise t ssrc event pt_fits mapped code_fits named later
                (first_report m) rest r1 r2 r3 m c (min t.step (segment_at m)) d false true k2 k3 in
            let same : tone_reports (suc fuel) t (n + segment_at n) ≡ first_report m ∷ rest =
              ap (λ (x : ℕ). tone_reports (suc fuel) t (n + x)) full ∙ reports_more fuel m m_more in
            subst (λ ps. Ends sequence (behind_first n ++ ps) r) (sym same)
              (
                r3,
                c,
                d,
                joined assoc otherwise t ssrc event pt_fits mapped code_fits named sequence
                    (behind_first n) (first_report m ∷ rest) r r1 r3 n c 0xffff d false true k tail,
                whole,
              )
      ]

  -- A tone to a receiver that knows no event: one call of the callback, and the end is heard.
  pub hear_tone :
      (fuel sequence : ℕ) (r : Receiver)
      → 0 < t.total
      → t.total ≤ fuel
      → r.listening ≡ true
      → r.received ≡ []
      → r.order ≡ []
      → (r' : Receiver) × (c d : ℕ) × (hear_packets otherwise assoc
            (wire t sequence ssrc (tone_reports fuel t 0))
            r
          ≡ done r')
        × Heard r' c d true
        × (c + d ≡ t.total)
        × (r'.digits ≡ r.digits ++ event ∷ [])
  unfolding wire
  hear_tone zero sequence r some_time enough listening none_known none_ordered =
      absurd (omega (arith, some_time, enough))
  hear_tone (suc fuel) sequence r some_time enough listening none_known none_ordered =
      let p = first_report 0 in
      let rest = behind_first 0 ++ tone_reports fuel t (0 + segment_at 0) in
      let (r1, heard, h, digits) =
        first_packet assoc otherwise t ssrc event pt_fits mapped code_fits named sequence p r refl
          (omega arith) refl refl listening none_known none_ordered in
      let (r2, c, d, k, whole) =
        after_first fuel ((sequence + 1) % 2 ^ 16) r1 0 some_time (omega (arith, enough)) h in
      (
        r2,
        c,
        d,
        ap (λ (ps : List Report). hear_packets otherwise assoc (wire t sequence ssrc ps) r)
              (reports_more fuel 0 some_time)
            ∙ hear_packets-append otherwise assoc (wire t sequence ssrc (p ∷ []))
                (wire t ((sequence + 1) % 2 ^ 16) ssrc rest) r
            ∙ ap
                (λ (o : Outcome Receiver).
                  o >>= hear_packets otherwise assoc (wire t ((sequence + 1) % 2 ^ 16) ssrc rest))
                heard
            ∙ k.result,
        k.heard,
        whole,
        k.same_digits ∙ digits,
      )

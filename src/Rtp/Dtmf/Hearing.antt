-- ===== src/Rtp/Dtmf/Hearing.antt =====
-- The packets of one segment of a tone, at a receiver that parses them.
use mathlib.Core.Path.{subst}
use rfcvoip.Prelude.{
  ℕ, zero, suc, ◌+◌, ◌%◌, ◌^◌, ◌≤◌, ◌<◌, max, ◌≡◌, refl, ap, ◌∙◌, Bool, true, false, ◌||◌, some,
  List, [], ◌∷◌, ◌++◌, map, replicate, All, get_elem?, arith,
}
use rfcvoip.Rtp.Packet.{Assoc, ok, payload_type_for, parse}
use rfcvoip.Rtp.Dtmf.{dtmf_event_to_char}
use rfcvoip.Rtp.Dtmf.Sending.{Tone}
use rfcvoip.Rtp.Dtmf.Sending.Schedule.{
  Report, update_durations, update_durations-IsBelow, update_report, final_report, segment_time,
  packet_of,
}
use rfcvoip.Rtp.Dtmf.Receiving.{Outcome, done, ◌>>=◌, EventKey, Receiver, report_event}
use rfcvoip.Rtp.Dtmf.Receiving.Event.{key_at, IsHeard, SameEvents-IsHeard, again, next, first}
use rfcvoip.Rtp.Dtmf.Wire.{
  OnOther, event_type, wire, sequence_after, wire-append, hear_message, hear_packets,
  hear_packets-append, hear_packet,
}

or_self : (b : Bool) → (b || b) ≡ b
or_self true = refl
or_self false = refl

or_none : (b : Bool) → (b || false) ≡ b
or_none true = refl
or_none false = refl

abbrev key_from : ℕ → ℕ → ℕ → EventKey
key_from ssrc timestamp code = record { ssrc = ssrc; timestamp = timestamp; code = code }

-- A tone to a receiver that maps its payload type to the telephone event.
module _ (assoc : Assoc) (otherwise : OnOther) (t : Tone) (ssrc event : ℕ) (pt_fits : t.pt < 128)
    (mapped : payload_type_for assoc t.pt ≡ ok event_type) (code_fits : t.event_code < 16)
    (named : get_elem? dtmf_event_to_char t.event_code ≡ some event) where
  abbrev source : ℕ
  source = ssrc % 2 ^ 32

  -- The receiver in the middle of the tone, and what it has heard so far.
  abbrev Heard : Receiver → ℕ → ℕ → Bool → Type 0
  Heard = IsHeard source t.event_code t.start event

  abbrev time_at : ℕ → ℕ
  time_at c = segment_time t c

  same_time : (c : ℕ) → time_at c % 2 ^ 32 ≡ time_at c
  same_time c = omega arith

  -- One packet: `answer` is the receiver behind it.
  one_packet :
      (sequence : ℕ) (p : Report) (r r1 r2 : Receiver) (c : ℕ)
      → p.timestamp ≡ time_at c
      → hear_message otherwise (parse assoc (packet_of t sequence ssrc p)) r
        ≡ report_event
            (some event)
            (record { ssrc = ssrc % 2 ^ 32; timestamp = p.timestamp % 2 ^ 32; code = t.event_code })
            p.duration
            p.end
            p.marker
            false
            r1
      → report_event
          (some event)
          (key_at source t.event_code t.start event c)
          p.duration
          p.end
          p.marker
          false
          r1
        ≡ done r2
      → hear_packets otherwise assoc (wire t sequence ssrc (p ∷ [])) r ≡ done r2
  unfolding hear_packets wire
  one_packet sequence p r r1 r2 c at heard result =
      let k = λ (tm : ℕ). key_from source tm t.event_code in
      ap (λ (o : Outcome Receiver). o >>= λ r'. done r')
        (heard
          ∙ ap (λ (tm : ℕ). report_event (some event) (k tm) p.duration p.end p.marker false r1)
              (ap (λ (tm : ℕ). tm % 2 ^ 32) at ∙ same_time c)
          ∙ result)

  -- Some packets from `r` on: the receiver behind them, at the same segment.
  pub record Hears (sequence : ℕ) (reports : List Report) (r r' : Receiver) (c d : ℕ) (e : Bool)
      : Type 0 where
    pub result : hear_packets otherwise assoc (wire t sequence ssrc reports) r ≡ done r'
    pub heard : Heard r' c d e
    pub same_digits : r'.digits ≡ r.digits

  one_again :
      (sequence : ℕ) (p : Report) (r : Receiver) (c d : ℕ) (e : Bool)
      → p.timestamp ≡ time_at c
      → p.duration < 2 ^ 16
      → Heard r c d e
      → (r' : Receiver) × Hears sequence (p ∷ []) r r' c (max p.duration d) (p.end || e)
  one_again sequence p r c d e at fits h =
      let (r1, same, step) =
        hear_packet assoc otherwise t sequence ssrc event p r pt_fits mapped code_fits named fits in
      let (r2, answer, h2, digits) =
        again source t.event_code t.start event r1 c d p.duration e p.end p.marker
          (SameEvents-IsHeard source t.event_code t.start event r r1 c d e same h) in
      (
        r2,
        record {
          result = one_packet sequence p r r1 r2 c at step answer;
          heard = h2;
          same_digits = digits ∙ same.digits;
        },
      )

  pub joined :
      (sequence : ℕ) (ps qs : List Report) (r r1 r2 : Receiver) (c c' d d' : ℕ) (e e' : Bool)
      → Hears sequence ps r r1 c d e
      → Hears (sequence_after sequence ps) qs r1 r2 c' d' e'
      → Hears sequence (ps ++ qs) r r2 c' d' e'
  joined sequence ps qs r r1 r2 c c' d d' e e' h k = record {
    result =
        ap (λ (w : List (List ℕ)). hear_packets otherwise assoc w r)
          (wire-append t sequence ssrc ps qs)
        ∙ hear_packets-append otherwise assoc (wire t sequence ssrc ps) _ r
        ∙ ap
            (λ (o : Outcome Receiver).
              o >>= hear_packets otherwise assoc (wire t (sequence_after sequence ps) ssrc qs))
            h.result
        ∙ k.result;
    heard = k.heard;
    same_digits = k.same_digits ∙ h.same_digits;
  }

  reported :
      (p : Report) (r1 r2 : Receiver) (c : ℕ) (marker : Bool)
      → p.marker ≡ marker
      → p.end ≡ false
      → report_event
          (some event)
          (key_at source t.event_code t.start event c)
          p.duration
          false
          marker
          false
          r1
        ≡ done r2
      → report_event
          (some event)
          (key_at source t.event_code t.start event c)
          p.duration
          p.end
          p.marker
          false
          r1
        ≡ done r2
  reported p r1 r2 c marker em ee h =
      let k = key_at source t.event_code t.start event c in
      ap (λ (m : Bool). report_event (some event) k p.duration p.end m false r1) em
      ∙ ap (λ (e : Bool). report_event (some event) k p.duration e marker false r1) ee
      ∙ h

  pub settled :
      (sequence : ℕ) (ps : List Report) (r r' : Receiver) (c d d' : ℕ) (e e' : Bool)
      → d ≡ d'
      → e ≡ e'
      → Hears sequence ps r r' c d e
      → Hears sequence ps r r' c d' e'
  settled sequence ps r r' c d d' e e' ed ee h =
      subst (λ x. Hears sequence ps r r' c x e') ed (subst (λ x. Hears sequence ps r r' c d x) ee h)

  pub nothing :
      (sequence : ℕ) (r : Receiver) (c d : ℕ) (e : Bool)
      → Heard r c d e
      → Hears sequence [] r r c d e
  unfolding hear_packets wire
  nothing sequence r c d e h = record { result = refl; heard = h; same_digits = refl }

  pub joined_one :
      (sequence : ℕ) (p : Report) (qs : List Report) (r r1 r2 : Receiver) (c c' d d' : ℕ)
      (e e' : Bool)
      → Hears sequence (p ∷ []) r r1 c d e
      → Hears ((sequence + 1) % 2 ^ 16) qs r1 r2 c' d' e'
      → Hears sequence (p ∷ qs) r r2 c' d' e'
  unfolding sequence_after
  joined_one sequence p qs r r1 r2 c c' d d' e e' h k =
      joined sequence (p ∷ []) qs r r1 r2 c c' d d' e e' h k

  updates :
      (ds : List ℕ) (sequence segment : ℕ) (r : Receiver) (c d : ℕ)
      → All (λ x. x < segment) ds
      → segment < 2 ^ 16
      → d ≤ segment
      → Heard r c d false
      → (r' : Receiver) × (d' : ℕ) × (d' ≤ segment)
        × Hears sequence (map (update_report (time_at c)) ds) r r' c d' false
  updates [] sequence segment r c d small fits le h = (r, d, le, nothing sequence r c d false h)
  updates (x ∷ ds) sequence segment r c d (small, smalls) fits le h =
      let p = update_report (time_at c) x in
      let (r1, k) = one_again sequence p r c d false refl (omega (arith, small, fits)) h in
      let (r2, d2, le2, k2) =
        updates ds ((sequence + 1) % 2 ^ 16) segment r1 c (max x d) smalls fits
          (omega (arith, small, le)) k.heard in
      (
        r2,
        d2,
        le2,
        joined_one sequence p (map (update_report (time_at c)) ds) r r1 r2 c c (max x d) d2 false
            false k k2,
      )

  -- Final reports from a segment whose end flag is `last` already.
  repeats :
      (n sequence segment : ℕ) (last : Bool) (r : Receiver) (c : ℕ)
      → segment < 2 ^ 16
      → Heard r c segment last
      → (r' : Receiver) × Hears sequence
          (replicate n (final_report (time_at c) segment last))
          r
          r'
          c
          segment
          last
  repeats zero sequence segment last r c fits h = (r, nothing sequence r c segment last h)
  repeats (suc n) sequence segment last r c fits h =
      let p = final_report (time_at c) segment last in
      let (r1, k) = one_again sequence p r c segment last refl fits h in
      let k1 =
        settled sequence (p ∷ []) r r1 c (max segment segment) segment (last || last) last
          (omega arith) (or_self last) k in
      let (r2, k2) = repeats n ((sequence + 1) % 2 ^ 16) segment last r1 c fits k1.heard in
      (r2, joined_one sequence p (replicate n p) r r1 r2 c c segment segment last last k1 k2)

  finals :
      (n sequence segment : ℕ) (last : Bool) (r : Receiver) (c d : ℕ)
      → segment < 2 ^ 16
      → d ≤ segment
      → Heard r c d false
      → (r' : Receiver) × Hears sequence
          (replicate (suc n) (final_report (time_at c) segment last))
          r
          r'
          c
          segment
          last
  finals n sequence segment last r c d fits le h =
      let p = final_report (time_at c) segment last in
      let (r1, k) = one_again sequence p r c d false refl fits h in
      let k1 =
        settled sequence (p ∷ []) r r1 c (max segment d) segment (last || false) last
          (omega (arith, le)) (or_none last) k in
      let (r2, k2) = repeats n ((sequence + 1) % 2 ^ 16) segment last r1 c fits k1.heard in
      (r2, joined_one sequence p (replicate n p) r r1 r2 c c segment segment last last k1 k2)

  -- The rest of a segment whose first report was heard.
  pub segment_rest :
      (fuel sequence segment : ℕ) (last : Bool) (r : Receiver) (c first : ℕ)
      → segment < 2 ^ 16
      → first ≤ segment
      → Heard r c first false
      → (r' : Receiver) × Hears sequence
          (map (update_report (time_at c)) (update_durations fuel t.step segment first)
            ++ replicate 3 (final_report (time_at c) segment last))
          r
          r'
          c
          segment
          last
  segment_rest fuel sequence segment last r c first fits le h =
      let ds = update_durations fuel t.step segment first in
      let us = map (update_report (time_at c)) ds in
      let (r1, d, le1, k1) =
        updates ds sequence segment r c first (update_durations-IsBelow fuel t.step segment first)
          fits le h in
      let (r2, k2) = finals 2 (sequence_after sequence us) segment last r1 c d fits le1 k1.heard in
      (
        r2,
        joined sequence us (replicate 3 (final_report (time_at c) segment last)) r r1 r2 c c d
            segment false last k1 k2,
      )

  -- The first report of a segment that follows a full one.
  pub next_packet :
      (sequence : ℕ) (p : Report) (r : Receiver) (c : ℕ)
      → p.timestamp ≡ time_at (c + 0xffff)
      → p.duration < 2 ^ 16
      → p.marker ≡ false
      → p.end ≡ false
      → c + 0xffff < 2 ^ 32
      → Heard r c 0xffff false
      → (r' : Receiver) × Hears sequence (p ∷ []) r r' (c + 0xffff) p.duration false
  next_packet sequence p r c at fits unmarked goes_on small h =
      let (r1, same, step) =
        hear_packet assoc otherwise t sequence ssrc event p r pt_fits mapped code_fits named fits in
      let (r2, answer, h2, digits) =
        next source t.event_code t.start event r1 c p.duration false small
          (SameEvents-IsHeard source t.event_code t.start event r r1 c 0xffff false same h) in
      (
        r2,
        record {
          result =
              one_packet sequence p r r1 r2 (c + 0xffff) at step
                (reported p r1 r2 (c + 0xffff) false unmarked goes_on answer);
          heard = h2;
          same_digits = digits ∙ same.digits;
        },
      )

  -- The first report of the tone.
  pub first_packet :
      (sequence : ℕ) (p : Report) (r : Receiver)
      → p.timestamp ≡ time_at 0
      → p.duration < 2 ^ 16
      → p.marker ≡ true
      → p.end ≡ false
      → r.listening ≡ true
      → r.received ≡ []
      → r.order ≡ []
      → (r' : Receiver) × (hear_packets otherwise assoc (wire t sequence ssrc (p ∷ [])) r ≡ done r')
        × Heard r' 0 p.duration false
        × (r'.digits ≡ r.digits ++ event ∷ [])
  first_packet sequence p r at fits marked goes_on listening none_known none_ordered =
      let (r1, same, step) =
        hear_packet assoc otherwise t sequence ssrc event p r pt_fits mapped code_fits named fits in
      let (r2, answer, h2, digits) =
        first source t.event_code t.start event r1 p.duration false (same.listening ∙ listening)
          (same.received ∙ none_known) (same.order ∙ none_ordered) in
      (
        r2,
        one_packet sequence p r r1 r2 0 at step (reported p r1 r2 0 true marked goes_on answer),
        h2,
        digits ∙ ap (λ (ds : List ℕ). ds ++ event ∷ []) same.digits,
      )

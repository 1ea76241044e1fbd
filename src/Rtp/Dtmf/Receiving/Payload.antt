-- ===== src/Rtp/Dtmf/Receiving/Payload.antt =====
-- `parse_telephone_event` of a payload of one report.
use rfcvoip.Prelude.{
  ℕ, ◌<◌, ◌≡◌, refl, Bool, false, [], ◌∷◌, get_elem?, from_bytes, lt→leb, Bool-cases, inl, inr,
}
use rfcvoip.Rtp.Dtmf.{dtmf_event_to_char}
use rfcvoip.Rtp.Dtmf.Receiving.{
  Outcome, done, raised, ◌>>=◌, Receiver, end_flag, clock, report_event, parse_report, bad_code,
  parse_reports, parse_telephone_event, is_current,
}

done_last : (o : Outcome Receiver) → (o >>= λ r. done r) ≡ o
done_last (done r) = refl
done_last (raised e) = refl

-- A payload of one report whose code is in the table is that report.
pub one_report :
    (code flags high low ssrc sequence timestamp : ℕ) (marker : Bool) (r : Receiver)
    → code < 16
    → parse_telephone_event (code ∷ flags ∷ high ∷ low ∷ []) ssrc sequence timestamp marker r
      ≡ report_event
          (get_elem? dtmf_event_to_char code)
          (record { ssrc = ssrc; timestamp = timestamp; code = code })
          (from_bytes (high ∷ low ∷ []))
          (end_flag flags)
          marker
          false
          (clock ssrc sequence timestamp flags (from_bytes (high ∷ low ∷ [])) r)
unfolding parse_telephone_event bad_code parse_reports parse_report
one_report code flags high low ssrc sequence timestamp marker r h =
    rw (lt→leb 16 code h) (done_last _)

-- The two receivers know the same events.
pub record SameEvents (r r' : Receiver) : Type 0 where
  pub listening : r'.listening ≡ r.listening
  pub received : r'.received ≡ r.received
  pub order : r'.order ≡ r.order
  pub segments : r'.segments ≡ r.segments
  pub digits : r'.digits ≡ r.digits

pub clock-SameEvents :
    (ssrc sequence timestamp flags duration : ℕ) (r : Receiver)
    → SameEvents r (clock ssrc sequence timestamp flags duration r)
clock-SameEvents ssrc sequence timestamp flags duration r =
    elim (Bool-cases (is_current r.receive_ssrc ssrc)) [
      | inl current ↦ simp current (record {
        listening = refl;
        received = refl;
        order = refl;
        segments = refl;
        digits = refl;
      })
      | inr other ↦ simp other (record {
        listening = refl;
        received = refl;
        order = refl;
        segments = refl;
        digits = refl;
      })
    ]

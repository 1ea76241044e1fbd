-- ===== src/Rtp/Dtmf/Pending.antt =====
-- `RTPClient.send_dtmf`, `send_dtmf_sequence` and `_find_telephone_event_payload_type` of
-- rfcvoip/RTP.py: the digits that wait for the transmitter.
use rfcvoip.Prelude.{
  ℕ, Bool, true, false, Option, none, some, List, [], ◌∷◌, ◌++◌, leb, if◌then◌else◌,
}
use rfcvoip.Rtp.Payload.{PayloadType, event}
use rfcvoip.Rtp.Packet.{Assoc}
use rfcvoip.Rtp.Dtmf.{normalize_dtmf_sequence, normalize_dtmf_digit}

abbrev pub is_event : PayloadType → Bool
is_event event = true
is_event _ = false

-- `_find_telephone_event_payload_type`
pub find_telephone_event_payload_type : Assoc → Option ℕ
find_telephone_event_payload_type [] = none
find_telephone_event_payload_type ((number, codec) ∷ assoc) =
    let rest = find_telephone_event_payload_type assoc in
    if is_event codec then (if leb number 127 then some number else rest) else rest

-- `_telephone_event_pt` and `_pending_dtmf`
pub record DtmfQueue : Type 0 where
  pub telephone_event_pt : Option ℕ
  pub pending : List ℕ

abbrev queue_digits : List ℕ → Option ℕ → DtmfQueue → Bool × DtmfQueue
queue_digits [] pt q = (false, q)
queue_digits (d ∷ ds) none q = (false, q)
queue_digits (d ∷ ds) (some pt) q = (true, record q { pending = q.pending ++ d ∷ ds })

-- `send_dtmf_sequence`
pub send_dtmf_sequence : (digits : List ℕ) → (allow_abcd : Bool) → DtmfQueue → Bool × DtmfQueue
send_dtmf_sequence digits allow_abcd q =
    queue_digits (normalize_dtmf_sequence allow_abcd digits) q.telephone_event_pt q

abbrev queue_digit : List ℕ → DtmfQueue → Bool × DtmfQueue
queue_digit [] q = (false, q)
queue_digit (d ∷ ds) q = send_dtmf_sequence (d ∷ ds) true q

-- `send_dtmf`
pub send_dtmf : (code : List ℕ) → DtmfQueue → Bool × DtmfQueue
send_dtmf code q = queue_digit (normalize_dtmf_digit true code) q

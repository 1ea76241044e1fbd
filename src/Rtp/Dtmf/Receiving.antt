-- ===== src/Rtp/Dtmf/Receiving.antt =====
-- `RTPClient.parse_telephone_event` and `_parse_telephone_event_report` of rfcvoip/RTP.py.
-- `_receive_media_offset`, which these call for the clock of the audio, is recorded by its arguments.
pub mod Payload
pub mod Heard
pub mod Event
use rfcvoip.Prelude.{
  ℕ, zero, suc, ◌+◌, ◌-◌, ◌*◌, ◌/◌, ◌%◌, ◌^◌, max, Bool, true, false, ◌&&◌, ◌||◌, not, Option, none,
  some, List, [], ◌∷◌, ◌++◌, length, get_elem?, from_bytes, ltb, leb, ◌==◌, if◌then◌else◌,
}
use rfcvoip.Rtp.Packet.{RtpError}
use rfcvoip.Rtp.Dtmf.{dtmf_event_to_char}

-- The ways out of the code by an exception: the three `RTPParseError`s, and the `KeyError` and
-- `IndexError` that its subscripts would raise.
pub data EventError : Type 0 where
  payload_too_short partial_report key_error index_error : EventError
  unsupported_code : ℕ → EventError
  rtp_error : RtpError → EventError

pub data Outcome {ℓ} (A : Type ℓ) : Type ℓ where
  done : A → Outcome A
  raised : EventError → Outcome A

infixl 5 ◌>>=◌
abbrev pub ◌>>=◌ {ℓ κ} : {A : Type ℓ} {B : Type κ} → Outcome A → (A → Outcome B) → Outcome B
done a >>= f = f a
raised e >>= f = raised e

-- `event_key`: the source, the timestamp and the code
pub record EventKey : Type 0 where
  pub ssrc : ℕ
  pub timestamp : ℕ
  pub code : ℕ

abbrev pub same_key : EventKey → EventKey → Bool
same_key a b = a.ssrc == b.ssrc && a.timestamp == b.timestamp && a.code == b.code

-- A dict from keys to the longest duration and whether an end was seen.
abbrev pub Segments : Type 0
Segments = List (EventKey × (ℕ × Bool))

pub find_segment : EventKey → Segments → Option (ℕ × Bool)
find_segment k [] = none
find_segment k ((j, v) ∷ m) = if same_key k j then some v else find_segment k m

pub set_segment : EventKey → ℕ × Bool → Segments → Segments
set_segment k v [] = (k, v) ∷ []
set_segment k v ((j, w) ∷ m) = if same_key k j then (j, v) ∷ m else (j, w) ∷ set_segment k v m

-- `pop(k, None)`
pub pop_segment : EventKey → Segments → Segments
pop_segment k [] = []
pop_segment k ((j, w) ∷ m) = if same_key k j then m else (j, w) ∷ pop_segment k m

pub has_key : EventKey → List EventKey → Bool
has_key k [] = false
has_key k (j ∷ js) = same_key k j || has_key k js

-- `set.remove`, whose `KeyError` is `none`
pub remove_key : EventKey → List EventKey → Option (List EventKey)
remove_key k [] = none
remove_key k (j ∷ js) =
    if same_key k j
    then some js
    else elim (remove_key k js) [ none ↦ none | some ks ↦ some (j ∷ ks) ]

-- The fields of `RTPClient` that the events touch. `digits` are the calls of the `dtmf` callback,
-- which is `None` if `listening` is false; a callback that raises only warns.
pub record Receiver : Type 0 where
  pub listening : Bool
  pub received : List EventKey
  pub order : List EventKey
  pub segments : Segments
  pub receive_ssrc : Option ℕ
  pub clocked : List (ℕ × ℕ × Option ℕ)
  pub digits : List ℕ

abbrev pub forget_known :
    EventKey → List EventKey → Option (List EventKey) → Receiver → Outcome Receiver
forget_known expired order none r = raised key_error
forget_known expired order (some received) r =
    done
      (record r { order = order; received = received; segments = pop_segment expired r.segments })

abbrev pub forget_first : List EventKey → Receiver → Outcome Receiver
forget_first [] r = raised index_error
forget_first (expired ∷ order) r = forget_known expired order (remove_key expired r.received) r

-- The oldest event is forgotten when there are more than 256.
pub forget_oldest : Receiver → Outcome Receiver
forget_oldest r = if ltb 256 (length r.order) then forget_first r.order r else done r

abbrev pub is_full_segment : Option (ℕ × Bool) → Bool
is_full_segment none = false
is_full_segment (some (duration, end)) = duration == 0xffff && not end

-- The segment before: its key has a timestamp 65535 ticks earlier.
abbrev pub preceding_key : EventKey → EventKey
preceding_key k = record k { timestamp = (k.timestamp + 2 ^ 32 - 0xffff) % 2 ^ 32 }

abbrev pub call_back : (event : ℕ) → Receiver → Receiver
call_back event r = record r { digits = r.digits ++ event ∷ [] }

abbrev pub update_found :
    Option (ℕ × Bool) → EventKey → (duration : ℕ) → (end : Bool) → Receiver → Outcome Receiver
update_found none k duration end r = raised key_error
update_found (some (previous_duration, previous_end)) k duration end r = done (record r {
  segments = set_segment k (max duration previous_duration, end || previous_end) r.segments;
})

-- A report of an event that is known.
abbrev pub update_event : EventKey → (duration : ℕ) → (end : Bool) → Receiver → Outcome Receiver
update_event k duration end r = update_found (find_segment k r.segments) k duration end r

-- The first report of an event.
abbrev pub start_event :
    EventKey → (event duration : ℕ) → (end marker packed : Bool) → Receiver → Outcome Receiver
start_event k event duration end marker packed r =
    let continuation =
      (not marker || packed) && is_full_segment (find_segment (preceding_key k) r.segments) in
    forget_oldest (record r {
      received = r.received ++ k ∷ [];
      order = r.order ++ k ∷ [];
      segments = set_segment k (duration, end) r.segments;
    })
    >>= λ r'. done (if not continuation then call_back event r' else r')

-- `report[1] & 0x80`
abbrev pub end_flag : ℕ → Bool
end_flag flags = flags / 128 % 2 == 1

abbrev pub report_event :
    Option ℕ → EventKey → (duration : ℕ) → (end marker packed : Bool) → Receiver → Outcome Receiver
report_event none k duration end marker packed r = raised index_error
report_event (some event) k duration end marker packed r =
    if not r.listening
    then done r
    else if has_key k r.received
    then update_event k duration end r
    else start_event k event duration end marker packed r

-- `_parse_telephone_event_report`, of the four bytes of a report
pub parse_report :
    (code flags high low : ℕ)
    → (ssrc timestamp : ℕ) → (marker packed : Bool) → Receiver
    → Outcome Receiver
parse_report code flags high low ssrc timestamp marker packed r =
    report_event (get_elem? dtmf_event_to_char code)
      (record { ssrc = ssrc; timestamp = timestamp; code = code }) (from_bytes (high ∷ low ∷ []))
      (end_flag flags) marker packed r

-- `self._receive_ssrc == packet.SSRC`
abbrev pub is_current : Option ℕ → ℕ → Bool
is_current none ssrc = false
is_current (some current) ssrc = current == ssrc

-- The call of `_receive_media_offset`, by its timestamp, sequence and duration.
abbrev pub clock : (ssrc sequence timestamp flags duration : ℕ) → Receiver → Receiver
clock ssrc sequence timestamp flags duration r =
    if is_current r.receive_ssrc ssrc
    then record r {
      clocked =
          r.clocked ++ (timestamp, sequence, if end_flag flags then some duration else none) ∷ [];
    }
    else r

-- The first loop of `parse_telephone_event`: the first code that is not supported.
pub bad_code : List ℕ → Option ℕ
bad_code (code ∷ flags ∷ high ∷ low ∷ rest) =
    if leb (length dtmf_event_to_char) code then some code else bad_code rest
bad_code bytes = none

-- The second loop, over the reports.
pub parse_reports :
    List ℕ → (ssrc sequence timestamp : ℕ) → (marker packed : Bool) → Receiver → Outcome Receiver
parse_reports (code ∷ flags ∷ high ∷ low ∷ rest) ssrc sequence timestamp marker packed r =
    let duration = from_bytes (high ∷ low ∷ []) in
    parse_report code flags high low ssrc timestamp marker packed
      (clock ssrc sequence timestamp flags duration r)
    >>= parse_reports rest ssrc sequence ((timestamp + duration) % 2 ^ 32) (end_flag flags) packed
parse_reports bytes ssrc sequence timestamp marker packed r = done r

abbrev pub parse_supported :
    Option ℕ
    → List ℕ
    → (ssrc sequence timestamp : ℕ) → (marker : Bool) → Receiver
    → Outcome Receiver
parse_supported (some code) payload ssrc sequence timestamp marker r =
    raised (unsupported_code code)
parse_supported none payload ssrc sequence timestamp marker r =
    parse_reports payload ssrc sequence timestamp marker (ltb 4 (length payload)) r

-- `parse_telephone_event`
pub parse_telephone_event :
    (payload : List ℕ)
    → (ssrc sequence timestamp : ℕ) → (marker : Bool) → Receiver
    → Outcome Receiver
parse_telephone_event payload ssrc sequence timestamp marker r =
    if ltb (length payload) 4
    then raised payload_too_short
    else if not (length payload % 4 == 0)
    then raised partial_report
    else parse_supported (bad_code payload) payload ssrc sequence timestamp marker r

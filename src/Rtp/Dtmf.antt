-- ===== src/Rtp/Dtmf.antt =====
-- DTMF digits of rfcvoip/RTP.py: `normalize_dtmf_sequence`, `normalize_dtmf_digit` and the payload of
-- a telephone event. Text is a list of code points, read by the methods of rfcvoip.Text.
pub mod Normal
pub mod Sending
pub mod Pending
pub mod Receiving
pub mod Wire
pub mod Hearing
pub mod Segments
pub mod OneDigit
mod Tests
use rfcvoip.Text.{is_space, upper}
use Prim.Native.Nat.{bit_or}
use rfcvoip.Prelude.{
  ℕ, zero, suc, ◌+◌, ◌-◌, ◌/◌, ◌%◌, ◌^◌, Bool, true, false, ◌&&◌, ◌||◌, not, Option, none, some,
  List, contains, [], ◌∷◌, length, map, ltb, leb, ◌==◌, if◌then◌else◌,
}

-- `_DTMF_EVENT_TO_CHAR`
abbrev pub dtmf_event_to_char : List ℕ
dtmf_event_to_char =
    b'0' ∷ b'1' ∷ b'2' ∷ b'3' ∷ b'4' ∷ b'5' ∷ b'6' ∷ b'7' ∷ b'8' ∷ b'9' ∷ b'*' ∷ b'#' ∷ b'A' ∷ b'B'
    ∷ b'C' ∷ b'D' ∷ []

abbrev pub dtmf_basic_digits : List ℕ
dtmf_basic_digits =
    b'0' ∷ b'1' ∷ b'2' ∷ b'3' ∷ b'4' ∷ b'5' ∷ b'6' ∷ b'7' ∷ b'8' ∷ b'9' ∷ b'*' ∷ b'#' ∷ []

abbrev pub position : ℕ → List ℕ → Option ℕ
position c [] = none
position c (d ∷ ds) =
    if c == d then some 0 else elim (position c ds) [ none ↦ none | some i ↦ some (suc i) ]

-- `_DTMF_CHAR_TO_EVENT`
abbrev pub dtmf_char_to_event : ℕ → Option ℕ
dtmf_char_to_event c = position c dtmf_event_to_char

abbrev pub allowed_digits : Bool → List ℕ
allowed_digits allow_abcd = if allow_abcd then dtmf_event_to_char else dtmf_basic_digits

-- The loop of `normalize_dtmf_sequence`; `none` is its `return ""`.
pub clean : (allowed : List ℕ) → List ℕ → Option (List ℕ)
clean allowed [] = some []
clean allowed (c ∷ cs) =
    let rest = clean allowed cs in
    if is_space c
    then rest
    else if not (contains c allowed)
    then none
    else elim rest [ none ↦ none | some ds ↦ some (c ∷ ds) ]

abbrev pub or_empty : Option (List ℕ) → List ℕ
or_empty none = []
or_empty (some cs) = cs

-- `normalize_dtmf_sequence`
pub normalize_dtmf_sequence : (allow_abcd : Bool) → List ℕ → List ℕ
normalize_dtmf_sequence allow_abcd value =
    or_empty (clean (allowed_digits allow_abcd) (map upper value))

-- `normalize_dtmf_digit`
pub normalize_dtmf_digit : (allow_abcd : Bool) → List ℕ → List ℕ
normalize_dtmf_digit allow_abcd value =
    let digit = normalize_dtmf_sequence allow_abcd value in if length digit == 1 then digit else []

-- `RTPClient._build_telephone_event_payload`
pub telephone_event_payload : (event_code duration : ℕ) (end : Bool) (volume : ℕ) → List ℕ
telephone_event_payload event_code duration end volume =
    event_code % 256
    ∷ bit_or (if end then 0x80 else 0) (volume % 64)
    ∷ duration / 256 % 256
    ∷ duration % 256
    ∷ []

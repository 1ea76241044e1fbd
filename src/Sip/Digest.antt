-- ===== src/Sip/Digest.antt =====
-- Digest authentication in rfcvoip/SIPAuth.py: the parser of parameters, here, and behind it the
-- algorithms, the responses, and the choice among challenges.
pub mod Parsing
pub mod Fields
pub mod Reading
pub mod RoundTrip
pub mod Algorithms
pub mod Response
pub mod Authorization
pub mod Verification
pub mod Known
pub mod Printed
pub mod Header
pub mod Agreement
pub mod Hex
pub mod Accepts
pub mod Rejects
pub mod Challenge
pub mod Candidates
pub mod Best
mod Tests
use rfcvoip.Prelude.{
  ℕ, zero, suc, ◌-◌, ◌+◌, Bool, true, false, not, ◌&&◌, ◌||◌, Option, none, some, List, [], ◌∷◌,
  ◌++◌, length, drop, map, leb, ◌==◌, if◌then◌else◌,
}
use rfcvoip.Text.{lower, is_space, strip, lstrip, take_until, drop_until, starts_with, characters}
use rfcvoip.Sip.Dict.{Dict, put}

-- `" \t\r\n,"`
abbrev pub is_separator : ℕ → Bool
is_separator c = c == b' ' || c == 9 || c == 13 || c == 10 || c == b','

-- `"=, \t\r\n"`
abbrev pub ends_key : ℕ → Bool
ends_key c = c == b'=' || c == b',' || c == b' ' || c == 9 || c == 13 || c == 10

abbrev pub is_comma : ℕ → Bool
is_comma c = c == b','

abbrev pub quote : ℕ
quote = 34

abbrev pub backslash : ℕ
backslash = 92

abbrev pub push_char : ℕ → List ℕ × List ℕ → List ℕ × List ℕ
push_char c (chars, rest) = (c ∷ chars, rest)

-- The loop over a quoted value: its characters, and the text behind the closing quote.
unfoldable pub read_quoted : List ℕ → List ℕ × List ℕ
read_quoted [] = ([], [])
read_quoted (c ∷ []) = if c == quote then ([], []) else (c ∷ [], [])
read_quoted (c ∷ d ∷ rest) =
    let escaped = read_quoted rest in
    let next = read_quoted (d ∷ rest) in
    if c == backslash
    then push_char d escaped
    else if c == quote
    then ([], d ∷ rest)
    else push_char c next

-- The value behind the equals sign, and the text behind the value.
abbrev pub read_value : List ℕ → List ℕ × List ℕ
read_value [] = ([], [])
read_value (c ∷ cs) =
    if c == quote
    then read_quoted cs
    else (strip (take_until is_comma (c ∷ cs)), drop_until is_comma (c ∷ cs))

-- One round of the loop: the entry that it sets, if any, and the text that is left.
abbrev pub entry_of : (key : List ℕ) → (value : List ℕ) → Option (List ℕ × List ℕ)
entry_of [] value = none
entry_of (c ∷ cs) value = some (map lower (c ∷ cs), value)

abbrev pub with_value : (key : List ℕ) → List ℕ × List ℕ → Option (List ℕ × List ℕ) × List ℕ
with_value key (value, rest) = (entry_of key value, drop 1 (drop_until is_comma rest))

-- The text behind the key, past white space.
abbrev pub read_equals : (key : List ℕ) → List ℕ → Option (List ℕ × List ℕ) × List ℕ
read_equals key [] = (none, [])
read_equals key (c ∷ cs) =
    if c == b'='
    then with_value key (read_value (lstrip cs))
    else (none, drop_until is_comma (c ∷ cs))

abbrev pub read_entry : List ℕ → Option (List ℕ × List ℕ) × List ℕ
read_entry text = read_equals (strip (take_until ends_key text)) (lstrip (drop_until ends_key text))

abbrev pub skip_separators : List ℕ → List ℕ
skip_separators text = drop_until (λ c. not (is_separator c)) text

abbrev pub put_entry : Option (List ℕ × List ℕ) → Dict → Dict
put_entry none params = params
put_entry (some (key, value)) params = put key value params

-- The loop, on fuel; `none` means that the fuel ran out.
abbrev pub loop_on :
    (List ℕ → Dict → Option Dict) → Option (List ℕ × List ℕ) × List ℕ → Dict → Option Dict
loop_on loop (entry, rest) params = loop rest (put_entry entry params)

abbrev pub loop_body : (List ℕ → Dict → Option Dict) → List ℕ → Dict → Option Dict
loop_body loop [] params = some params
loop_body loop (c ∷ cs) params = loop_on loop (read_entry (c ∷ cs)) params

unfoldable pub parse_loop : (fuel : ℕ) → List ℕ → Dict → Option Dict
parse_loop zero text params = none
parse_loop (suc fuel) text params = loop_body (parse_loop fuel) (skip_separators text) params

-- The text behind the name of the scheme.
abbrev pub without_scheme : List ℕ → List ℕ
without_scheme text =
    if starts_with (characters "digest") (map lower text) then lstrip (drop 6 text) else text

abbrev pub or_no_params : Option Dict → Dict
or_no_params none = []
or_no_params (some params) = params

-- `parse_digest_params`; a round of the loop takes a character at least.
unfoldable pub parse_digest_params : List ℕ → Dict
parse_digest_params value =
    let text = without_scheme (strip value) in or_no_params (parse_loop (suc (length text)) text [])

-- ===== src/Sip/Framing/Headers.antt =====
-- The loops of `_stream_message_length` in rfcvoip/SIPTransport.py over the lines of the headers.
use rfcvoip.Prelude.{
  le→ltb, ℕ, ◌≤◌, ◌≡◌, refl, sym, ap, ◌∙◌, Bool, true, false, not, none, some, List, [], ◌∷◌, ◌++◌,
  append_assoc, append-nil, All, length, drop, contains, if◌then◌else◌, arith,
}
use rfcvoip.Text.{
  is_empty, every, IsFree, is_digit, strip, take_until-append, drop_until-append, number_from,
}
use rfcvoip.Sip.Result.{Result, ok, ◌>>=◌, raise_if}
use rfcvoip.Sip.Framing.{
  FramingError, malformed_header, empty_name, is_folded, unfold_lines, is_colon, name_of, value_of,
  is_length_name, max_str_digits, length_of, length_in, content_lengths,
}

-- Lines that do not begin with white space stay as they are.
pub unfold_lines_plain :
    (unfolded lines : List (List ℕ))
    → All (λ line. is_folded line ≡ false) lines
    → unfold_lines unfolded lines ≡ ok (unfolded ++ lines)
unfolding unfold_lines
unfold_lines_plain unfolded [] h = ap ok (sym (append-nil unfolded))
unfold_lines_plain [] (line ∷ lines) (h, hs) = rw (h) (unfold_lines_plain (line ∷ []) lines hs)
unfold_lines_plain (first ∷ us) (line ∷ lines) (h, hs) = rw (h) (
    unfold_lines_plain ((first ∷ us) ++ line ∷ []) lines hs
    ∙ ap ok (append_assoc (first ∷ us) (line ∷ []) lines))

-- A header's text: a name with no colon, a colon, and a value; `is_length` says whether the name,
-- with the white space round it removed, is that of the length.
abbrev pub Header : (is_length : Bool) → (name value text : List ℕ) → Type 0
Header is_length name value text =
    (text ≡ name ++ b':' ∷ value)
    × IsFree is_colon name
    × (is_empty (strip name) ≡ false)
    × (is_length_name (strip name) ≡ is_length)

abbrev pub IsOther : List ℕ → Type 0
IsOther text = (name value : List ℕ) × Header false name value text

-- A value that is the length `n` in digits, with white space round it.
abbrev pub Says : ℕ → List ℕ → Type 0
Says n text =
    (name value : List ℕ) × Header true name value text
    × (is_empty (strip value) ≡ false)
    × (every is_digit (strip value) ≡ true)
    × (length (strip value) ≤ max_str_digits)
    × (number_from 0 (strip value) ≡ n)

contains_colon : (name value : List ℕ) → contains b':' (name ++ b':' ∷ value) ≡ true
contains_colon [] value = refl
contains_colon (c ∷ name) value = ground (arith, contains_colon name value)

name_of-header :
    (name value : List ℕ) → IsFree is_colon name → name_of (name ++ b':' ∷ value) ≡ strip name
name_of-header name value free = ap strip (take_until-append is_colon name b':' value free refl)

value_of-header :
    (name value : List ℕ) → IsFree is_colon name → value_of (name ++ b':' ∷ value) ≡ strip value
value_of-header name value free =
    ap (λ (t : List ℕ). strip (drop 1 t)) (drop_until-append is_colon name b':' value free refl)

judged :
    (a b c is_length : Bool) (r s : Result FramingError ℕ)
    → a ≡ true
    → b ≡ false
    → c ≡ is_length
    → r ≡ s
    → raise_if
        (not a)
        malformed_header
        (raise_if b empty_name (if c then (r >>= λ n. ok (some n)) else ok none))
      ≡ (if is_length then (s >>= λ n. ok (some n)) else ok none)
judged a b c is_length r s ha hb hc hr = rw (ha, hb, hc, hr) refl

-- A line with a name and a colon passes the tests, whatever its value.
length_in-Header :
    (is_length : Bool) (name value text : List ℕ)
    → Header is_length name value text
    → length_in text
      ≡ (if is_length then (length_of (strip value) >>= λ n. ok (some n)) else ok none)
unfolding length_in
length_in-Header is_length [] value text (e, free, filled, h) = absurd (ground (arith, filled))
length_in-Header is_length (c ∷ name) value text (e, free, filled, h) =
    let named = name_of-header (c ∷ name) value free in
    ap length_in e
    ∙ judged _ _ _ is_length _ (length_of (strip value)) (contains_colon (c ∷ name) value)
        (ap is_empty named ∙ filled) (ap is_length_name named ∙ h)
        (ap length_of (value_of-header (c ∷ name) value free))

pub length_in-other : (text : List ℕ) → IsOther text → length_in text ≡ ok none
length_in-other text (name, value, header) = length_in-Header false name value text header

length_of_says :
    (value : List ℕ) (n : ℕ)
    → is_empty value ≡ false
    → every is_digit value ≡ true
    → length value ≤ max_str_digits
    → number_from 0 value ≡ n
    → length_of value ≡ ok n
length_of_says value n filled digits short e =
    rw (filled, digits, le→ltb max_str_digits (length value) short, e) refl

pub length_in-Says : (n : ℕ) (text : List ℕ) → Says n text → length_in text ≡ ok (some n)
length_in-Says n text (name, value, (e, free, named, h), filled, digits, short, number) =
    length_in-Header true name value text (e, free, named, h)
    ∙ ap (λ (r : Result FramingError ℕ). r >>= λ k. ok (some k))
        (length_of_says (strip value) n filled digits short number)

pub content_lengths_others :
    (lines : List (List ℕ)) → All IsOther lines → content_lengths lines ≡ ok []
unfolding content_lengths
content_lengths_others [] h = refl
content_lengths_others (line ∷ lines) (h, hs) =
    rw (length_in-other line h, content_lengths_others lines hs) refl

-- One header that says the length among others, as far as the loop goes.
pub content_lengths_one :
    (n : ℕ) (before : List (List ℕ)) (line : List ℕ) (after : List (List ℕ))
    → All IsOther before
    → Says n line
    → All IsOther after
    → content_lengths (before ++ line ∷ after) ≡ ok (n ∷ [])
unfolding content_lengths
content_lengths_one n [] line after hb says ha =
    rw (length_in-Says n line says, content_lengths_others after ha) refl
content_lengths_one n (b ∷ before) line after (h, hb) says ha =
    rw (length_in-other b h, content_lengths_one n before line after hb says ha) refl

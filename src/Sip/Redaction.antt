-- ===== src/Sip/Redaction.antt =====
-- The redaction of messages for logs: `redact_sensitive_sip_headers` in rfcvoip/SIPAuth.py.
mod Tests
use rfcvoip.Prelude.{
  ℕ, ◌≡◌, refl, ap, sym, ◌∙◌, Bool, true, false, ◌&&◌, ◌||◌, List, [], ◌∷◌, ◌++◌, map, concat, All,
  ◌==◌, leb, if◌then◌else◌, Bool-cases, inl, inr, arith,
}
use rfcvoip.Text.{lower, strip, take_until, characters, same_text, IsFree, take_until-append}
use rfcvoip.Sip.Framing.{is_colon}

-- The characters that `str.splitlines` breaks a text at
unfoldable pub is_break : ℕ → Bool
is_break c = leb 10 c && leb c 13 || leb 28 c && leb c 30 || c == 0x85 || c == 0x2028 || c == 0x2029

abbrev pub add_first : ℕ → List (List ℕ) → List (List ℕ)
add_first c [] = (c ∷ []) ∷ []
add_first c (line ∷ lines) = (c ∷ line) ∷ lines

-- `text.splitlines()`
unfoldable pub split_lines : List ℕ → List (List ℕ)
split_lines [] = []
split_lines (c ∷ []) = if is_break c then [] ∷ [] else (c ∷ []) ∷ []
split_lines (c ∷ d ∷ rest) =
    let behind = split_lines rest in
    let next = split_lines (d ∷ rest) in
    if c == 13 && d == 10 then [] ∷ behind else if is_break c then [] ∷ next else add_first c next

-- `line.startswith((" ", "\t"))`
abbrev pub is_folded : List ℕ → Bool
is_folded [] = false
is_folded (c ∷ cs) = c == b' ' || c == 9

-- `header in ("authorization", "proxy-authorization")`, of the name of a line
abbrev pub is_sensitive_name : List ℕ → Bool
is_sensitive_name name =
    same_text (map lower (strip name)) (characters "authorization")
    || same_text (map lower (strip name)) (characters "proxy-authorization")

abbrev pub is_sensitive : List ℕ → Bool
is_sensitive line = is_sensitive_name (take_until is_colon line)

-- What is kept of a line, and `redacting_sensitive_header` behind it
abbrev pub redact_line : (redacting : Bool) → List ℕ → List ℕ
redact_line redacting line =
    if is_folded line && redacting
    then characters " <redacted>"
    else if is_sensitive line
    then take_until is_colon line ++ characters ": <redacted>"
    else line

abbrev pub redacts : (redacting : Bool) → List ℕ → Bool
redacts redacting line = is_folded line && redacting || is_sensitive line

unfoldable pub redact_lines : (redacting : Bool) → List (List ℕ) → List (List ℕ)
redact_lines redacting [] = []
redact_lines redacting (line ∷ lines) =
    redact_line redacting line ∷ redact_lines (redacts redacting line) lines

-- `"\n".join(lines)`
abbrev pub join_lines : List (List ℕ) → List ℕ
join_lines [] = []
join_lines (line ∷ []) = line
join_lines (line ∷ next ∷ lines) = line ++ 10 ∷ join_lines (next ∷ lines)

-- `redact_sensitive_sip_headers`
unfoldable pub redact_sensitive_sip_headers : List ℕ → List ℕ
redact_sensitive_sip_headers message = join_lines (redact_lines false (split_lines message))

-- Lines that differ only in what is secret: in the values of sensitive headers, and in the lines that
-- continue them. `redacting` says that a sensitive header stands before.
pub data Alike : (redacting : Bool) → (these those : List (List ℕ)) → Type 0 where
  done : {redacting : Bool} → Alike redacting [] []
  shown :
      {redacting : Bool} {these those : List (List ℕ)} (line : List ℕ)
      → Alike (redacts redacting line) these those
      → Alike redacting (line ∷ these) (line ∷ those)
  secret :
      {redacting : Bool} {these those : List (List ℕ)} (name value other : List ℕ)
      → IsFree is_colon name
      → is_sensitive_name name ≡ true
      → Alike true these those
      → Alike redacting ((name ++ b':' ∷ value) ∷ these) ((name ++ b':' ∷ other) ∷ those)
  continued :
      {these those : List (List ℕ)} (line other : List ℕ)
      → is_folded line ≡ true
      → is_folded other ≡ true
      → Alike true these those
      → Alike true (line ∷ these) (other ∷ those)

-- Lines as a message: each with its line end
abbrev pub message_of : List (List ℕ) → List ℕ
message_of [] = []
message_of (line ∷ lines) = line ++ 13 ∷ 10 ∷ message_of lines

not_cr : (c : ℕ) → is_break c ≡ false → (c == 13) ≡ false
unfolding is_break
not_cr c h = ground arith

split_lines-line :
    (line rest : List ℕ)
    → IsFree is_break line
    → split_lines (line ++ 13 ∷ 10 ∷ rest) ≡ line ∷ split_lines rest
unfolding split_lines
split_lines-line [] rest free = refl
split_lines-line (c ∷ []) rest (h, free) = rw (not_cr c h, h) refl
split_lines-line (c ∷ d ∷ line) rest (h, free) =
    rw (not_cr c h, h, split_lines-line (d ∷ line) rest free) refl

split_lines-message_of :
    (lines : List (List ℕ)) → All (IsFree is_break) lines → split_lines (message_of lines) ≡ lines
unfolding split_lines
split_lines-message_of [] h = refl
split_lines-message_of (line ∷ lines) (h, hs) =
    split_lines-line line (message_of lines) h
    ∙ ap (λ (ls : List (List ℕ)). line ∷ ls) (split_lines-message_of lines hs)

-- A line of a sensitive header
secret-is_folded :
    (name value : List ℕ) → is_folded (name ++ b':' ∷ value) ≡ is_folded (name ++ b':' ∷ [])
secret-is_folded [] value = refl
secret-is_folded (c ∷ name) value = refl

redact_line-secret :
    (redacting : Bool) (name value : List ℕ)
    → IsFree is_colon name
    → is_sensitive_name name ≡ true
    → redact_line redacting (name ++ b':' ∷ value) ≡ (
        if is_folded (name ++ b':' ∷ []) && redacting
        then characters " <redacted>"
        else name ++ characters ": <redacted>")
redact_line-secret redacting name value free h =
    rw (secret-is_folded name value, take_until-append is_colon name b':' value free refl, h) refl

or_true : (b : Bool) → b || true ≡ true
or_true true = refl
or_true false = refl

redacts-secret :
    (redacting : Bool) (name value : List ℕ)
    → IsFree is_colon name
    → is_sensitive_name name ≡ true
    → redacts redacting (name ++ b':' ∷ value) ≡ true
redacts-secret redacting name value free h =
    rw (take_until-append is_colon name b':' value free refl, h)
      (or_true (is_folded (name ++ b':' ∷ value) && redacting))

redact_lines-Alike :
    {redacting : Bool} {these those : List (List ℕ)}
    → Alike redacting these those
    → redact_lines redacting these ≡ redact_lines redacting those
unfolding redact_lines
redact_lines-Alike done = refl
redact_lines-Alike (shown {redacting} line alike) =
    ap (λ (ls : List (List ℕ)). redact_line redacting line ∷ ls) (redact_lines-Alike alike)
redact_lines-Alike (secret {redacting} name value other free h alike) =
    rw
      (
        redact_line-secret redacting name value free h,
        redact_line-secret redacting name other free h,
        redacts-secret redacting name value free h,
        redacts-secret redacting name other free h,
        redact_lines-Alike alike,
      )
      refl
redact_lines-Alike (continued line other h k alike) =
    rw (h, k)
      (ap (λ (ls : List (List ℕ)). characters " <redacted>" ∷ ls) (redact_lines-Alike alike))

-- Logs keep secrets: messages that differ only in the values of `Authorization` and
-- `Proxy-Authorization` headers, however these names are written, and in the folded lines that
-- continue them, are redacted to the same text.
pub redact-Alike :
    (these those : List (List ℕ))
    → All (IsFree is_break) these
    → All (IsFree is_break) those
    → Alike false these those
    → redact_sensitive_sip_headers (message_of these)
      ≡ redact_sensitive_sip_headers (message_of those)
unfolding redact_sensitive_sip_headers
redact-Alike these those h k alike =
    rw (split_lines-message_of these h, split_lines-message_of those k)
      (ap join_lines (redact_lines-Alike alike))

-- ===== src/Sip/Redaction/Tests.antt =====
-- Runs of the redaction of rfcvoip/SIPAuth.py.
use rfcvoip.Prelude.{ℕ, ◌≡◌, refl, List, [], ◌∷◌, ◌++◌, All, false}
use rfcvoip.Text.{characters, lower, is_space, IsFree, every-IsFree}
use rfcvoip.Sip.Framing.{is_colon}
use rfcvoip.Sip.Redaction.{
  is_break, split_lines, redact_lines, redact_sensitive_sip_headers, message_of, Alike, done, shown,
  secret, continued, redact-Alike,
}

abbrev start_line : List ℕ
start_line = characters "BYE sip:b"

-- A request with a sensitive header on two lines
abbrev request : (value rest : List ℕ) → List (List ℕ)
request value rest =
    start_line
    ∷ (characters "authorization" ++ b':' ∷ value)
    ∷ (b' ' ∷ rest)
    ∷ characters "To: b"
    ∷ []

redacted :
    redact_sensitive_sip_headers (message_of (request (characters "Digest a") (characters "b")))
    ≡ characters "BYE sip:b"
      ++ 10
        ∷ (characters "authorization: <redacted>"
            ++ 10 ∷ (characters " <redacted>" ++ 10 ∷ characters "To: b"))
unfolding redact_sensitive_sip_headers redact_lines split_lines is_break lower is_space
redacted = refl

all-IsFree :
    (value rest : List ℕ)
    → IsFree is_break (characters "authorization" ++ b':' ∷ value)
    → IsFree is_break (b' ' ∷ rest)
    → All (IsFree is_break) (request value rest)
unfolding is_break
all-IsFree value rest h k = (
  every-IsFree is_break start_line refl,
  (h, (k, (every-IsFree is_break (characters "To: b") refl, tt))),
)

first-IsFree : All (IsFree is_break) (request (characters "Digest a") (characters "b"))
unfolding is_break
first-IsFree =
    all-IsFree (characters "Digest a") (characters "b")
      (every-IsFree is_break (characters "authorization:Digest a") refl)
      (every-IsFree is_break (characters " b") refl)

other-IsFree : All (IsFree is_break) (request (characters "none") (characters "cd"))
unfolding is_break
other-IsFree =
    all-IsFree (characters "none") (characters "cd")
      (every-IsFree is_break (characters "authorization:none") refl)
      (every-IsFree is_break (characters " cd") refl)

requests-Alike :
    Alike false
      (request (characters "Digest a") (characters "b"))
      (request (characters "none") (characters "cd"))
unfolding lower is_space
requests-Alike = shown start_line (
    secret (characters "authorization") (characters "Digest a") (characters "none")
      (every-IsFree is_colon (characters "authorization") refl) refl
      (continued (characters " b") (characters " cd") refl refl (shown (characters "To: b") done)))

redact-Alike_example :
    redact_sensitive_sip_headers (message_of (request (characters "Digest a") (characters "b")))
    ≡ redact_sensitive_sip_headers (message_of (request (characters "none") (characters "cd")))
redact-Alike_example =
    redact-Alike (request (characters "Digest a") (characters "b"))
      (request (characters "none") (characters "cd")) first-IsFree other-IsFree requests-Alike

-- ===== src/Sip/Digest/Hex.antt =====
-- The digests of rfcvoip/SIPAuth.py as text: hexadecimal digits.
use rfcvoip.Prelude.{
  ℕ, ◌≡◌, refl, ap, ◌∙◌, Bool, true, false, not, ◌&&◌, ◌||◌, Option, none, some, List, [], ◌∷◌, ltb,
  leb, if◌then◌else◌, arith,
}
use rfcvoip.Text.{lower, is_space, is_digit, strip, strip_free, every, is_empty, IsFree}
use rfcvoip.Sip.Result.{ok}
use rfcvoip.Sip.Digest.Algorithms.{
  Hashlib, Qop, auth, auth_int, is_some, is_quote, rstrip_quotes, strip_quotes,
  normalize_authorization_qop,
}
use rfcvoip.Sip.Digest.Printed.{nc_of}
use rfcvoip.Sip.Digest.Header.{every-excludes}
use rfcvoip.Sip.Digest.Response.{or_no_text}
use rfcvoip.Sip.Digest.Verification.{text_of_qop, is_nonce_count, Check}
use rfcvoip.Sip.Digest.Authorization.{Login}

-- A digest in hexadecimal digits, as `hexdigest` gives them.
abbrev pub is_lower_hex : ℕ → Bool
is_lower_hex c = is_digit c || leb b'a' c && leb c b'f'

abbrev pub GivesHex : Hashlib → Type 0
GivesHex h =
    (name bytes : List ℕ)
    → (is_empty (h.hexdigest name bytes) ≡ false)
      × (every is_lower_hex (h.hexdigest name bytes) ≡ true)

-- The check of a server that knows the password and has the same request.
abbrev pub check_for : Login → Check
check_for l = record {
  method = l.method;
  password = some l.password;
  stored_ha1 = none;
  body = l.body;
  supported_algorithms = l.supported_algorithms;
}

-- A text of such digits has no quotes, no white space, and only ASCII characters.
abbrev pub IsHexText : List ℕ → Type 0
IsHexText t = (is_empty t ≡ false) × (every is_lower_hex t ≡ true)

rstrip_quotes_free : (t : List ℕ) → IsFree is_quote t → rstrip_quotes t ≡ t
rstrip_quotes_free [] free = refl
rstrip_quotes_free (c ∷ t) (h, free) =
    ap
      (λ (r : List ℕ). elim r as (λ _. List ℕ) [
        | [] ↦ if is_quote c then [] else c ∷ []
        | d ∷ ds ↦ c ∷ d ∷ ds
      ])
      (rstrip_quotes_free t free)
    ∙ stays t
  where
    stays :
        (r : List ℕ)
        → elim r as (λ _. List ℕ) [ [] ↦ if is_quote c then [] else c ∷ [] | d ∷ ds ↦ c ∷ d ∷ ds ]
          ≡ c ∷ r
    stays [] = rw h refl
    stays (d ∷ ds) = refl

strip_quotes_free : (t : List ℕ) → IsFree is_quote t → strip_quotes t ≡ t
strip_quotes_free [] free = refl
strip_quotes_free (c ∷ t) (h, free) = rw h (rstrip_quotes_free (c ∷ t) (h, free))

hex_no_quote : (c : ℕ) → is_lower_hex c ≡ true → is_quote c ≡ false
hex_no_quote c h = ground (arith, h)

pub hex_no_space : (c : ℕ) → is_lower_hex c ≡ true → is_space c ≡ false
unfolding is_space
hex_no_space c h = ground (arith, h)

pub hex_ascii : (t : List ℕ) → every is_lower_hex t ≡ true → every (λ x. ltb x 0x80) t ≡ true
hex_ascii [] h = refl
hex_ascii (c ∷ t) h = ground (arith, h, hex_ascii t)

pub hex_stays : (t : List ℕ) → IsHexText t → strip_quotes (strip t) ≡ t
hex_stays t (filled, hex) =
    ap strip_quotes (strip_free t (every-excludes is_lower_hex is_space hex_no_space t hex))
    ∙ strip_quotes_free t (every-excludes is_lower_hex is_quote hex_no_quote t hex)

pub qop_again : (q : Option Qop) → normalize_authorization_qop (text_of_qop q) ≡ ok q
unfolding normalize_authorization_qop lower is_space
qop_again none = refl
qop_again (some auth) = refl
qop_again (some auth_int) = refl

pub counted :
    (q : Option Qop) (nc : List ℕ)
    → is_nonce_count nc ≡ true
    → (is_some q && not (is_nonce_count (or_no_text (nc_of q nc)))) ≡ false
counted none nc hex = refl
counted (some q) nc hex = rw hex refl

-- ===== src/Sip/Digest/Verification.antt =====
-- `verify_digest_response` of rfcvoip/SIPAuth.py.
use rfcvoip.Prelude.{
  ℕ, Bool, false, not, ◌&&◌, ◌||◌, Option, none, some, List, length, map, leb, ltb, ◌==◌,
  if◌then◌else◌,
}
use rfcvoip.Text.{is_empty, every, is_digit, lower, strip, same_text, characters}
use rfcvoip.Sip.Dict.{Dict, get}
use rfcvoip.Sip.Result.{Result, err, ok}
use rfcvoip.Sip.Digest.Algorithms.{
  AuthError, strip_quotes, is_some, Hashlib, Qop, qop_text, normalize_authorization_qop,
}
use rfcvoip.Sip.Digest.Response.{Request, or_no_text, compute_digest_response}

-- `re.fullmatch(r"[0-9a-fA-F]{8}", nc)`
abbrev pub is_hex : ℕ → Bool
is_hex c = is_digit c || leb b'a' c && leb c b'f' || leb b'A' c && leb c b'F'

abbrev pub is_nonce_count : List ℕ → Bool
is_nonce_count nc = length nc == 8 && every is_hex nc

-- What a server gives to `verify_digest_response`
pub record Check : Type 0 where
  pub method : List ℕ
  pub password : Option (List ℕ)
  pub stored_ha1 : Option (List ℕ)
  pub body : List ℕ
  pub supported_algorithms : Option (List (List ℕ))

abbrev pub text_of_qop : Option Qop → Option (List ℕ)
text_of_qop none = none
text_of_qop (some qop) = some (qop_text qop)

abbrev pub request_of : Check → Option Qop → Request
request_of c qop = record {
  username = none;
  password = c.password;
  stored_ha1 = c.stored_ha1;
  method = c.method;
  uri = none;
  nonce = none;
  cnonce = none;
  nonce_count = none;
  qop = text_of_qop qop;
  body = c.body;
  supported_algorithms = c.supported_algorithms;
}

-- The comparison, and `except SIPAuthError: return False`
abbrev pub is_response : (actual : List ℕ) → Result AuthError (List ℕ) → Bool
is_response actual (err e) = false
is_response actual (ok expected) = same_text (map lower expected) (map lower actual)

abbrev pub actual_response : Dict → List ℕ
actual_response authorization =
    strip_quotes (strip (or_no_text (get (characters "response") authorization)))

module _ (h : Hashlib) where
  abbrev pub verify_qop :
      (authorization : Dict) → Check → (actual : List ℕ) → Result AuthError (Option Qop) → Bool
  verify_qop authorization c actual (err e) = false
  verify_qop authorization c actual (ok qop) =
      if is_some qop && not (is_nonce_count (or_no_text (get (characters "nc") authorization)))
      then false
      else is_response actual (compute_digest_response h authorization (request_of c qop))

  -- `verify_digest_response`
  unfoldable pub verify_digest_response : (authorization : Dict) → Check → Bool
  verify_digest_response authorization c =
      let actual = actual_response authorization in
      if is_empty actual || not (every (λ x. ltb x 0x80) actual)
      then false
      else verify_qop authorization c actual
          (normalize_authorization_qop (get (characters "qop") authorization))

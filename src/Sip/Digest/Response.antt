-- ===== src/Sip/Digest/Response.antt =====
-- Digest responses in rfcvoip/SIPAuth.py: `compute_digest_response`.
use rfcvoip.Prelude.{ℕ, not, ◌&&◌, Option, none, some, List, [], ◌∷◌, ◌++◌, map, if◌then◌else◌}
use rfcvoip.Text.{is_empty, lower, strip, characters}
use rfcvoip.Sip.Dict.{Dict, get}
use rfcvoip.Sip.Result.{Result, err, ok, ◌>>=◌, raise_if}
use rfcvoip.Sip.Digest.Algorithms.{
  AuthError, missing_password, missing_realm, missing_nonce, missing_uri, missing_username,
  qop_requires_cnonce, session_requires_cnonce, or_text, is_some, is_session_algorithm,
  ensure_supported, Hashlib, Qop, auth_int, qop_text, select_qop, normalize_authorization_qop,
  hash_bytes, hash_text, make_digest_credential_hash,
}

-- The arguments of `compute_digest_response`
pub record Request : Type 0 where
  pub username : Option (List ℕ)
  pub password : Option (List ℕ)
  pub stored_ha1 : Option (List ℕ)
  pub method : List ℕ
  pub uri : Option (List ℕ)
  pub nonce : Option (List ℕ)
  pub cnonce : Option (List ℕ)
  pub nonce_count : Option (List ℕ)
  pub qop : Option (List ℕ)
  pub body : List ℕ
  pub supported_algorithms : Option (List (List ℕ))

-- The values that the response is computed from.
pub record Values : Type 0 where
  pub algorithm : List ℕ
  pub realm : List ℕ
  pub nonce : List ℕ
  pub uri : List ℕ
  pub username : List ℕ
  pub qop : Option Qop
  pub cnonce : List ℕ
  pub nc : List ℕ

-- `str(value or "")`
abbrev pub or_no_text : Option (List ℕ) → List ℕ
or_no_text none = []
or_no_text (some text) = text

-- `str(a or params.get(key) or other)`
abbrev pub given : Option (List ℕ) → Option (List ℕ) → List ℕ → List ℕ
given argument param other = or_text argument (or_text param other)

abbrev pub qop_of : (argument param : Option (List ℕ)) → Result AuthError (Option Qop)
qop_of none param = select_qop param
qop_of (some qop) param = normalize_authorization_qop (some qop)

abbrev pub default_nc : List ℕ
default_nc = characters "00000001"

-- The tests of `compute_digest_response`, and what it has read when they are passed.
abbrev pub with_qop :
    (params : Dict) → Request → (algorithm : List ℕ) → Option Qop → Result AuthError Values
with_qop params r algorithm qop =
    let cnonce = given r.cnonce (get (characters "cnonce") params) [] in
    raise_if (is_some qop && is_empty cnonce) qop_requires_cnonce (
      raise_if (is_session_algorithm (some algorithm) && is_empty cnonce) session_requires_cnonce (
        ok (record {
          algorithm = algorithm;
          realm = or_no_text (get (characters "realm") params);
          nonce = given r.nonce (get (characters "nonce") params) [];
          uri = given r.uri (get (characters "uri") params) [];
          username = given r.username (get (characters "username") params) [];
          qop = qop;
          cnonce = cnonce;
          nc = given r.nonce_count (get (characters "nc") params) default_nc;
        })))

abbrev pub with_algorithm :
    (params : Dict) → Request → (algorithm : List ℕ) → Result AuthError Values
with_algorithm params r algorithm =
    raise_if (not (is_some (get (characters "realm") params))) missing_realm (
      raise_if (is_empty (given r.nonce (get (characters "nonce") params) [])) missing_nonce (
        raise_if (is_empty (given r.uri (get (characters "uri") params) [])) missing_uri (
          raise_if (is_empty (given r.username (get (characters "username") params) []))
            missing_username
            (qop_of r.qop (get (characters "qop") params) >>= with_qop params r algorithm))))

unfoldable pub read_values : (params : Dict) → Request → Result AuthError Values
read_values params r =
    ensure_supported (get (characters "algorithm") params) r.supported_algorithms
    >>= with_algorithm params r

-- Texts with colons between them
abbrev pub colon : List ℕ → List ℕ → List ℕ
colon left right = left ++ b':' ∷ right

module _ (h : Hashlib) where
  -- `_ha1_digest`
  unfoldable pub ha1_digest :
      (username realm : List ℕ)
      → (password : Option (List ℕ)) → (algorithm : List ℕ) → (stored_ha1 : Option (List ℕ))
      → Result AuthError (List ℕ)
  ha1_digest username realm password algorithm (some stored) = ok (map lower (strip stored))
  ha1_digest username realm none algorithm none = err missing_password
  ha1_digest username realm (some password) algorithm none =
      make_digest_credential_hash h username realm password algorithm

  abbrev pub session_ha1 : Values → List ℕ → Result AuthError (List ℕ)
  session_ha1 v ha1 =
      if is_session_algorithm (some v.algorithm)
      then hash_text h (colon ha1 (colon v.nonce v.cnonce)) v.algorithm
      else ok ha1

  abbrev pub a2_text : Values → (method body : List ℕ) → Option Qop → Result AuthError (List ℕ)
  a2_text v method body (some auth_int) =
      hash_bytes h body v.algorithm >>= λ entity. ok (colon method (colon v.uri entity))
  a2_text v method body _ = ok (colon method v.uri)

  abbrev pub response_input : Values → (ha1 ha2 : List ℕ) → Option Qop → List ℕ
  response_input v ha1 ha2 none = colon ha1 (colon v.nonce ha2)
  response_input v ha1 ha2 (some qop) =
      colon ha1 (colon v.nonce (colon v.nc (colon v.cnonce (colon (qop_text qop) ha2))))

  abbrev pub with_ha2 : Values → (ha1 ha2 : List ℕ) → Result AuthError (List ℕ)
  with_ha2 v ha1 ha2 = hash_text h (response_input v ha1 ha2 v.qop) v.algorithm

  abbrev pub with_a2 : Values → (ha1 a2 : List ℕ) → Result AuthError (List ℕ)
  with_a2 v ha1 a2 = hash_text h a2 v.algorithm >>= with_ha2 v ha1

  abbrev pub with_ha1 : (method body : List ℕ) → Values → (ha1 : List ℕ) → Result AuthError (List ℕ)
  with_ha1 method body v ha1 = a2_text v method body v.qop >>= with_a2 v ha1

  abbrev pub first_ha1 :
      (password stored_ha1 : Option (List ℕ)) → Values → Result AuthError (List ℕ)
  first_ha1 password stored_ha1 v =
      ha1_digest v.username v.realm password v.algorithm stored_ha1 >>= session_ha1 v

  -- The hashes of `compute_digest_response`
  unfoldable pub respond :
      (password stored_ha1 : Option (List ℕ))
      → (method body : List ℕ) → Values
      → Result AuthError (List ℕ)
  respond password stored_ha1 method body v =
      first_ha1 password stored_ha1 v >>= with_ha1 method body v

  -- `compute_digest_response`
  unfoldable pub compute_digest_response : (params : Dict) → Request → Result AuthError (List ℕ)
  compute_digest_response params r =
      read_values params r >>= respond r.password r.stored_ha1 r.method r.body

-- ===== src/Sip/Digest/Authorization.antt =====
-- The client's answer to a challenge in rfcvoip/SIPAuth.py: `build_authorization_parameters` and
-- `build_digest_auth_header`.
use rfcvoip.Prelude.{ℕ, not, ◌||◌, Option, none, some, List, [], ◌∷◌, ◌++◌, if◌then◌else◌}
use rfcvoip.Text.{characters}
use rfcvoip.Sip.Dict.{Dict, get, put}
use rfcvoip.Sip.Result.{Result, ok, ◌>>=◌, raise_if}
use rfcvoip.Sip.Digest.Algorithms.{
  AuthError, missing_realm, is_some, is_session_algorithm, ensure_supported, Hashlib, Qop, qop_text,
  select_qop,
}
use rfcvoip.Sip.Digest.Fields.{Field, quoted, bare, join_fields}
use rfcvoip.Sip.Digest.Response.{Request, or_no_text, compute_digest_response}

-- `params[key] = value`, of a value that may be missing
abbrev pub put_some : (key : List ℕ) → Option (List ℕ) → Dict → Dict
put_some key none params = params
put_some key (some value) params = put key value params

abbrev pub qop_params : Option Qop → (nonce_count : List ℕ) → Dict → Dict
qop_params none nonce_count params = params
qop_params (some qop) nonce_count params =
    put (characters "nc") nonce_count (put (characters "qop") (qop_text qop) params)

-- What a user and a request give to `build_authorization_parameters`; `cnonce` is what
-- `generate_cnonce` draws.
pub record Login : Type 0 where
  pub username : List ℕ
  pub password : List ℕ
  pub method : List ℕ
  pub uri : List ℕ
  pub nonce_count : List ℕ
  pub body : List ℕ
  pub supported_algorithms : Option (List (List ℕ))
  pub cnonce : List ℕ

-- The parameters before the response is put.
abbrev pub cnonce_for : Login → (algorithm : List ℕ) → Option Qop → List ℕ
cnonce_for l algorithm qop =
    if is_some qop || is_session_algorithm (some algorithm) then l.cnonce else []

abbrev pub put_cnonce : List ℕ → Dict → Dict
put_cnonce [] params = params
put_cnonce (c ∷ cs) params = put (characters "cnonce") (c ∷ cs) params

abbrev pub first_params : (challenge : Dict) → Login → (algorithm : List ℕ) → Dict
first_params challenge l algorithm =
    (characters "username", l.username)
    ∷ (characters "realm", or_no_text (get (characters "realm") challenge))
    ∷ (characters "nonce", or_no_text (get (characters "nonce") challenge))
    ∷ (characters "uri", l.uri)
    ∷ (characters "algorithm", algorithm)
    ∷ []

abbrev pub params_for : (challenge : Dict) → Login → (algorithm : List ℕ) → Option Qop → Dict
params_for challenge l algorithm qop =
    qop_params qop l.nonce_count
      (put_cnonce (cnonce_for l algorithm qop) (first_params challenge l algorithm))

abbrev pub request_for : Login → Dict → Request
request_for l params = record {
  username = some l.username;
  password = some l.password;
  stored_ha1 = none;
  method = l.method;
  uri = some l.uri;
  nonce = get (characters "nonce") params;
  cnonce = get (characters "cnonce") params;
  nonce_count = get (characters "nc") params;
  qop = get (characters "qop") params;
  body = l.body;
  supported_algorithms = l.supported_algorithms;
}

module _ (h : Hashlib) where
  -- `build_authorization_parameters`
  abbrev pub with_response : (challenge : Dict) → Login → Dict → Result AuthError Dict
  with_response challenge l params =
      compute_digest_response h params (request_for l params) >>= λ response. ok (
        put_some (characters "opaque") (get (characters "opaque") challenge)
          (put (characters "response") response params))

  unfoldable pub build_authorization_parameters : (challenge : Dict) → Login → Result AuthError Dict
  build_authorization_parameters challenge l =
      raise_if (not (is_some (get (characters "realm") challenge))) missing_realm (
        ensure_supported (get (characters "algorithm") challenge) l.supported_algorithms
        >>= λ algorithm. select_qop (get (characters "qop") challenge) >>= λ qop.
            with_response challenge l (params_for challenge l algorithm qop))

-- `params[key]`, of a key that is there
abbrev pub at : List ℕ → Dict → List ℕ
at key params = or_no_text (get key params)

abbrev pub opaque_fields : Option (List ℕ) → List Field
opaque_fields none = []
opaque_fields (some opaque) = quoted (characters "opaque") opaque ∷ []

-- The branches on `qop` and on `cnonce`
abbrev pub qop_fields : (params : Dict) → (qop cnonce : Option (List ℕ)) → List Field
qop_fields params (some qop) cnonce =
    bare (characters "qop") qop
    ∷ bare (characters "nc") (at (characters "nc") params)
    ∷ quoted (characters "cnonce") (or_no_text cnonce)
    ∷ []
qop_fields params none (some cnonce) = quoted (characters "cnonce") cnonce ∷ []
qop_fields params none none = []

abbrev pub first_field : Dict → Field
first_field params = quoted (characters "username") (at (characters "username") params)

abbrev pub other_fields : Dict → List Field
other_fields params =
    quoted (characters "realm") (at (characters "realm") params)
    ∷ quoted (characters "nonce") (at (characters "nonce") params)
    ∷ quoted (characters "uri") (at (characters "uri") params)
    ∷ quoted (characters "response") (at (characters "response") params)
    ∷ bare (characters "algorithm") (at (characters "algorithm") params)
    ∷ (qop_fields params (get (characters "qop") params) (get (characters "cnonce") params)
        ++ opaque_fields (get (characters "opaque") params))

-- The value of the header, behind its name and before the line end.
abbrev pub header_value : Dict → List ℕ
header_value params = characters "Digest " ++ join_fields (first_field params ∷ other_fields params)

module _ (h : Hashlib) where
  -- `build_digest_auth_header`
  unfoldable pub build_digest_auth_header :
      (challenge : Dict) → (header_name : List ℕ) → Login → Result AuthError (List ℕ)
  build_digest_auth_header challenge header_name l =
      build_authorization_parameters h challenge l >>= λ params.
      ok (header_name ++ (characters ": " ++ (header_value params ++ 13 ∷ 10 ∷ [])))

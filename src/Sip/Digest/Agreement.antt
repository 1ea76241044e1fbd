-- ===== src/Sip/Digest/Agreement.antt =====
-- The values from which a client and a server compute a digest response in rfcvoip/SIPAuth.py.
use rfcvoip.Prelude.{ℕ, ◌≡◌, refl, ap, ◌∙◌, not, ◌&&◌, Option, none, some, List, [], ◌∷◌}
use rfcvoip.Text.{characters, is_empty}
use rfcvoip.Sip.Dict.{Dict, get}
use rfcvoip.Sip.Result.{Result, ok, ◌>>=◌, raise_if}
use rfcvoip.Sip.Digest.Algorithms.{
  AuthError, missing_realm, missing_nonce, missing_uri, missing_username, qop_requires_cnonce,
  session_requires_cnonce, Qop, or_text, is_some, is_session_algorithm, ensure_supported,
}
use rfcvoip.Sip.Digest.Printed.{Printed, nc_of, Asks, asked_params-Asks}
use rfcvoip.Sip.Digest.Response.{
  Request, Values, or_no_text, given, qop_of, default_nc, read_values,
}
use rfcvoip.Sip.Digest.Verification.{text_of_qop, Check, request_of}
use rfcvoip.Sip.Digest.Authorization.{Login, cnonce_for, params_for, request_for}

-- What is read of the parameters and the arguments, one by one.
abbrev pub values_from :
    Result AuthError (List ℕ)
    → (realm : Option (List ℕ)) → (nonce uri username : List ℕ) → Result AuthError (Option Qop)
    → (cnonce nc : List ℕ) → Result AuthError Values
values_from algorithm realm nonce uri username qop cnonce nc = algorithm >>= λ a.
    raise_if (not (is_some realm)) missing_realm (
      raise_if (is_empty nonce) missing_nonce (
        raise_if (is_empty uri) missing_uri (
          raise_if (is_empty username) missing_username (
            qop >>= λ q. raise_if (is_some q && is_empty cnonce) qop_requires_cnonce (
              raise_if (is_session_algorithm (some a) && is_empty cnonce) session_requires_cnonce (
                ok (record {
                  algorithm = a;
                  realm = or_no_text realm;
                  nonce = nonce;
                  uri = uri;
                  username = username;
                  qop = q;
                  cnonce = cnonce;
                  nc = nc;
                })))))))

read_values-from :
    (params : Dict) (r : Request)
    → read_values params r
      ≡ values_from
          (ensure_supported (get (characters "algorithm") params) r.supported_algorithms)
          (get (characters "realm") params)
          (given r.nonce (get (characters "nonce") params) [])
          (given r.uri (get (characters "uri") params) [])
          (given r.username (get (characters "username") params) [])
          (qop_of r.qop (get (characters "qop") params))
          (given r.cnonce (get (characters "cnonce") params) [])
          (given r.nonce_count (get (characters "nc") params) default_nc)
unfolding read_values
read_values-from params r = refl

or_text_none : (t : Option (List ℕ)) → or_text t [] ≡ or_no_text t
or_text_none none = refl
or_text_none (some []) = refl
or_text_none (some (c ∷ cs)) = refl

or_text_twice : (t : Option (List ℕ)) (o : List ℕ) → or_text t (or_text t o) ≡ or_text t o
or_text_twice none o = refl
or_text_twice (some []) o = refl
or_text_twice (some (c ∷ cs)) o = refl

given-none : (t : Option (List ℕ)) (v : List ℕ) → or_no_text t ≡ v → given none t [] ≡ v
given-none t v e = or_text_none t ∙ e

given_twice : (t : Option (List ℕ)) (v : List ℕ) → or_no_text t ≡ v → given t t [] ≡ v
given_twice t v e = or_text_twice t [] ∙ or_text_none t ∙ e

-- The values of the parameters `p`.
abbrev values_of : Printed → (supported : Option (List (List ℕ))) → Result AuthError Values
values_of p supported =
    values_from (ensure_supported (some p.algorithm) supported) (some p.realm) p.nonce p.uri
      p.username (qop_of (text_of_qop p.qop) (text_of_qop p.qop)) p.cnonce
      (or_text (nc_of p.qop p.nc) default_nc)

values_from-eq :
    {a a' : Result AuthError (List ℕ)} {r r' : Option (List ℕ)} {n n' u u' w w' c c' k k' : List ℕ}
    {q q' : Result AuthError (Option Qop)}
    → a ≡ a'
    → r ≡ r'
    → n ≡ n'
    → u ≡ u'
    → w ≡ w'
    → q ≡ q'
    → c ≡ c'
    → k ≡ k'
    → values_from a r n u w q c k ≡ values_from a' r' n' u' w' q' c' k'
values_from-eq ea er en eu ew eq ec ek i =
    values_from (ea i) (er i) (en i) (eu i) (ew i) (eq i) (ec i) (ek i)

pub server_values :
    (p : Printed) (d : Dict) (c : Check)
    → Asks p d
    → read_values d (request_of c p.qop) ≡ values_of p c.supported_algorithms
server_values p d c a =
    read_values-from d (request_of c p.qop)
    ∙ values_from-eq (ap (λ t. ensure_supported t c.supported_algorithms) a.algorithm) a.realm
        (given-none _ p.nonce (ap or_no_text a.nonce)) (given-none _ p.uri (ap or_no_text a.uri))
        (given-none _ p.username (ap or_no_text a.username)) (ap (qop_of (text_of_qop p.qop)) a.qop)
        (given-none _ p.cnonce a.cnonce) (ap (λ t. or_text t default_nc) a.nc)

-- What `build_authorization_parameters` prints, for an algorithm, a qop and a response.
abbrev pub printed_for : (challenge : Dict) → Login → List ℕ → Option Qop → List ℕ → Printed
printed_for challenge l a q response = record {
  username = l.username;
  realm = or_no_text (get (characters "realm") challenge);
  nonce = or_no_text (get (characters "nonce") challenge);
  uri = l.uri;
  algorithm = a;
  qop = q;
  cnonce = cnonce_for l a q;
  nc = l.nonce_count;
  response = response;
  opaque = get (characters "opaque") challenge;
}

pub client_values :
    (challenge : Dict) (l : Login) (a : List ℕ) (q : Option Qop) (response : List ℕ)
    → read_values (params_for challenge l a q) (request_for l (params_for challenge l a q))
      ≡ values_of (printed_for challenge l a q response) l.supported_algorithms
client_values challenge l a q response =
    let p = printed_for challenge l a q response in
    let asks = asked_params-Asks p in
    read_values-from (params_for challenge l a q) (request_for l (params_for challenge l a q))
    ∙ values_from-eq (ap (λ t. ensure_supported t l.supported_algorithms) asks.algorithm) asks.realm
        (given_twice _ p.nonce (ap or_no_text asks.nonce))
        (ap (λ t. given (some l.uri) t []) asks.uri ∙ given_twice (some l.uri) l.uri refl)
        (ap (λ t. given (some l.username) t []) asks.username
          ∙ given_twice (some l.username) l.username refl)
        (qop_twice _ (text_of_qop q) asks.qop) (given_twice _ p.cnonce asks.cnonce)
        (or_text_twice (get (characters "nc") (params_for challenge l a q)) default_nc
          ∙ ap (λ t. or_text t default_nc) asks.nc)
  where
    qop_twice : (t s : Option (List ℕ)) → t ≡ s → qop_of t t ≡ qop_of s s
    qop_twice t s e i = qop_of (e i) (e i)

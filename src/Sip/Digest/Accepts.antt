-- ===== src/Sip/Digest/Accepts.antt =====
-- `verify_digest_response` of rfcvoip/SIPAuth.py on the headers of `build_digest_auth_header`.
use mathlib.Core.Path.{subst}
use rfcvoip.Prelude.{
  map, ℕ, ◌≡◌, refl, sym, ap, ◌∙◌, Bool, true, false, not, ◌&&◌, ◌||◌, Option, none, some, inl, inr,
  List, [], ◌∷◌, ◌++◌, ltb, if◌then◌else◌, Bool-cases, arith,
}
use rfcvoip.Text.{characters, lower, strip, same_text_self, every, is_empty}
use rfcvoip.Sip.Dict.{Dict, get}
use rfcvoip.Sip.Result.{
  Result, err, ok, ◌>>=◌, bind-eq-ok, raise_if-eq-ok, Always, bind-Always, ok-injective,
}
use rfcvoip.Sip.Digest.{parse_digest_params}
use rfcvoip.Sip.Digest.Algorithms.{
  AuthError, missing_realm, Hashlib, Qop, is_some, strip_quotes, ensure_supported, select_qop,
  normalize_authorization_qop, hash_by, hash_bytes, hash_text,
}
use rfcvoip.Sip.Digest.Known.{AllKnown, ensure_supported_again}
use rfcvoip.Sip.Digest.Printed.{Printed, printed_params, Asks, Reads}
use rfcvoip.Sip.Digest.Header.{parse-header_value}
use rfcvoip.Sip.Digest.Response.{
  Request, Values, or_no_text, read_values, respond, first_ha1, with_ha1, a2_text, with_a2,
  with_ha2, response_input, compute_digest_response,
}
use rfcvoip.Sip.Digest.Verification.{
  is_nonce_count, Check, request_of, is_response, verify_qop, actual_response,
  verify_digest_response,
}
use rfcvoip.Sip.Digest.Authorization.{
  Login, params_for, request_for, build_authorization_parameters, with_response, header_value,
  build_digest_auth_header,
}
use rfcvoip.Sip.Digest.Agreement.{server_values, printed_for, client_values}
use rfcvoip.Sip.Digest.Hex.{
  GivesHex, check_for, IsHexText, hex_ascii, hex_stays, qop_again, counted,
}

module _ (h : Hashlib) where
  -- The result is a digest.
  unfoldable pub IsHexdigest : List ℕ → Type 0
  IsHexdigest t = (n bytes : List ℕ) × (t ≡ h.hexdigest n bytes)

  hash_by-hex :
      (bytes : List ℕ) (name : Option (List ℕ)) → Always IsHexdigest (hash_by h bytes name)
  unfolding IsHexdigest
  hash_by-hex bytes none = tt
  hash_by-hex bytes (some name) = elim (Bool-cases (h.provides name)) [
    | inl provided ↦ rw provided (name, bytes, refl)
    | inr missing ↦ rw missing tt
  ]

  pub hash_text-hex : (text algorithm : List ℕ) → Always IsHexdigest (hash_text h text algorithm)
  unfolding hash_text hash_bytes
  hash_text-hex text algorithm = hash_by-hex _ _

  respond-hex :
      (password stored_ha1 : Option (List ℕ)) (method body : List ℕ) (v : Values)
      → Always IsHexdigest (respond h password stored_ha1 method body v)
  unfolding respond
  respond-hex password stored method body v =
      bind-Always IsHexdigest (first_ha1 h password stored v) (with_ha1 h method body v) (λ ha1.
        bind-Always IsHexdigest (a2_text h v method body v.qop) (with_a2 h v ha1) (λ a2.
          bind-Always IsHexdigest (hash_text h a2 v.algorithm) (with_ha2 h v ha1)
            (λ ha2. hash_text-hex (response_input h v ha1 ha2 v.qop) v.algorithm)))

  compute-hex :
      (params : Dict) (r : Request) → Always IsHexdigest (compute_digest_response h params r)
  unfolding compute_digest_response
  compute-hex params r =
      bind-Always IsHexdigest (read_values params r)
        (respond h r.password r.stored_ha1 r.method r.body)
        (λ v. respond-hex r.password r.stored_ha1 r.method r.body v)

  -- A server that reads the parameters, and computes the same response, accepts it.
  verify-Reads :
      (p : Printed) (d : Dict) (c : Check)
      → Reads p d
      → is_nonce_count p.nc ≡ true
      → IsHexText p.response
      → compute_digest_response h d (request_of c p.qop) ≡ ok p.response
      → verify_digest_response h d c ≡ true
  unfolding verify_digest_response
  verify-Reads p d c r hex (filled, digits) computed =
      let actual : actual_response d ≡ p.response =
        ap (λ t. strip_quotes (strip (or_no_text t))) r.response
        ∙ hex_stays p.response (filled, digits) in
      let tested : (is_empty p.response || not (every (λ x. ltb x 0x80) p.response)) ≡ false =
        rw (filled, hex_ascii p.response digits) refl in
      ap
        (λ (t : List ℕ).
          if is_empty t || not (every (λ x. ltb x 0x80) t)
          then false
          else verify_qop h d c t (normalize_authorization_qop (get (characters "qop") d)))
        actual
      ∙ ap
          (λ (b : Bool).
            if b
            then false
            else verify_qop h d c p.response
                (normalize_authorization_qop (get (characters "qop") d)))
          tested
      ∙ ap (verify_qop h d c p.response)
          (ap normalize_authorization_qop r.asks.qop ∙ qop_again p.qop)
      ∙ ap
          (λ (b : Bool).
            if b
            then false
            else is_response p.response (compute_digest_response h d (request_of c p.qop)))
          (ap (λ t. is_some p.qop && not (is_nonce_count (or_no_text t))) r.asks.nc
            ∙ counted p.qop p.nc hex)
      ∙ ap (is_response p.response) computed
      ∙ same_text_self (map lower p.response)

  -- What a successful build has chosen, and the response that it has put.
  built :
      (challenge : Dict) (l : Login) (params : Dict)
      → build_authorization_parameters h challenge l ≡ ok params
      → (a : List ℕ) × (q : Option Qop) × (response : List ℕ) × (ensure_supported
            (get (characters "algorithm") challenge)
            l.supported_algorithms
          ≡ ok a)
        × (compute_digest_response h
              (params_for challenge l a q)
              (request_for l (params_for challenge l a q))
            ≡ ok response)
        × (params ≡ printed_params (printed_for challenge l a q response))
  unfolding build_authorization_parameters
  built challenge l params e =
      let e1 =
        raise_if-eq-ok (not (is_some (get (characters "realm") challenge))) missing_realm
          (ensure_supported (get (characters "algorithm") challenge) l.supported_algorithms
            >>= λ algorithm. select_qop (get (characters "qop") challenge) >>= λ qop.
                with_response h challenge l (params_for challenge l algorithm qop))
          e in
      let (a, ea, e2) =
        bind-eq-ok
          (ensure_supported (get (characters "algorithm") challenge) l.supported_algorithms)
          (λ algorithm. select_qop (get (characters "qop") challenge) >>= λ qop.
            with_response h challenge l (params_for challenge l algorithm qop))
          e1 in
      let (q, eq, e3) =
        bind-eq-ok (select_qop (get (characters "qop") challenge))
          (λ qop. with_response h challenge l (params_for challenge l a qop)) e2 in
      let (response, er, e4) =
        bind-eq-ok
          (compute_digest_response h (params_for challenge l a q)
            (request_for l (params_for challenge l a q)))
          (λ r. ok (printed_params (printed_for challenge l a q r))) e3 in
      (a, q, response, ea, er, ok-injective (sym e4))

  -- The response of the client is the response that a server computes from what it reads.
  same_response :
      (challenge : Dict) (l : Login) (a : List ℕ) (q : Option Qop) (response : List ℕ) (d : Dict)
      → Asks (printed_for challenge l a q response) d
      → compute_digest_response h
          (params_for challenge l a q)
          (request_for l (params_for challenge l a q))
        ≡ ok response
      → compute_digest_response h d (request_of (check_for l) q) ≡ ok response
  unfolding compute_digest_response
  same_response challenge l a q response d asks e =
      ap (λ r. r >>= respond h (some l.password) none l.method l.body)
        (server_values (printed_for challenge l a q response) d (check_for l) asks
          ∙ sym (client_values challenge l a q response))
      ∙ e

module _ (h : Hashlib) (hex : GivesHex h) where
  pub hexdigest-IsHexText :
      (r : Result AuthError (List ℕ)) (t : List ℕ)
      → Always (IsHexdigest h) r
      → r ≡ ok t
      → IsHexText t
  unfolding IsHexdigest
  hexdigest-IsHexText (err e) t always k = absurd (ground (arith, k))
  hexdigest-IsHexText (ok a) t (n, bytes, e) k =
      subst IsHexText (sym e ∙ ok-injective k) (hex n bytes)

  accepted :
      (challenge : Dict) (l : Login) (params : Dict)
      → AllKnown l.supported_algorithms
      → is_nonce_count l.nonce_count ≡ true
      → build_authorization_parameters h challenge l ≡ ok params
      → verify_digest_response h (parse_digest_params (header_value params)) (check_for l) ≡ true
  accepted challenge l params known counts e =
      let (a, q, response, ea, er, ep) = built h challenge l params e in
      let p = printed_for challenge l a q response in
      let reads =
        parse-header_value p
          (ensure_supported_again (get (characters "algorithm") challenge) l.supported_algorithms a
            known ea).0
          counts in
      subst
        (λ (ps : Dict).
          verify_digest_response h (parse_digest_params (header_value ps)) (check_for l) ≡ true)
        (sym ep)
        (verify-Reads h p (parse_digest_params (header_value (printed_params p))) (check_for l)
          reads counts
          (hexdigest-IsHexText
            (compute_digest_response h (params_for challenge l a q)
              (request_for l (params_for challenge l a q)))
            response
            (compute-hex h (params_for challenge l a q)
              (request_for l (params_for challenge l a q)))
            er)
          (same_response h challenge l a q response _ reads.asks er))

  -- A server accepts the client's answer to a challenge. When the header can be built, for a nonce
  -- count of eight hexadecimal digits and with no algorithms supported but the known six, the header
  -- is its name, a colon and a space, a value, and a line end; and the value, parsed by a server that
  -- knows the password and has the same method, body and algorithms, passes the verification. User
  -- name, realm, nonce, URI, cnonce and opaque may be any texts. `hashlib` gives hexadecimal digits.
  pub verify-build_digest_auth_header :
      (challenge : Dict) (header_name : List ℕ) (l : Login) (header : List ℕ)
      → AllKnown l.supported_algorithms
      → is_nonce_count l.nonce_count ≡ true
      → build_digest_auth_header h challenge header_name l ≡ ok header
      → (value : List ℕ) × (header ≡ header_name ++ (characters ": " ++ (value ++ 13 ∷ 10 ∷ [])))
        × (verify_digest_response h (parse_digest_params value) (check_for l) ≡ true)
  unfolding build_digest_auth_header
  verify-build_digest_auth_header challenge header_name l header known counts e =
      let (params, ep, eh) =
        bind-eq-ok (build_authorization_parameters h challenge l)
          (λ (params : Dict).
            ok (header_name ++ (characters ": " ++ (header_value params ++ 13 ∷ 10 ∷ []))))
          e in
      (header_value params, ok-injective (sym eh), accepted challenge l params known counts ep)

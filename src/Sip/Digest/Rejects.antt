-- ===== src/Sip/Digest/Rejects.antt =====
-- What `verify_digest_response` of rfcvoip/SIPAuth.py accepts, and the stored hashes that it can do
-- with in place of a password.
use rfcvoip.Prelude.{
  ℕ, ◌≡◌, refl, sym, ap, ◌∙◌, Bool, true, false, not, ◌&&◌, Option, none, some, inl, inr, List, [],
  ◌∷◌, ◌++◌, map, ltb, if◌then◌else◌, Bool-cases, arith,
}
use rfcvoip.Text.{
  characters, lower, upper, is_space, strip, strip_free, same_text_iff, every, is_empty,
}
use rfcvoip.Sip.Dict.{Dict, get}
use rfcvoip.Sip.Result.{Result, err, ok, ◌>>=◌, bind-Always}
use rfcvoip.Sip.Digest.Algorithms.{
  AuthError, Hashlib, Qop, is_some, ensure_supported, normalize_authorization_qop,
  make_digest_credential_hash, hash_text, hash_bytes, base_algorithm, sess_base,
  normalize_digest_algorithm, supported_digest_algorithms,
}
use rfcvoip.Sip.Digest.Known.{IsKnown, is_in-All}
use rfcvoip.Sip.Digest.Header.{every-excludes}
use rfcvoip.Sip.Digest.Hex.{GivesHex, is_lower_hex, IsHexText, hex_no_space}
use rfcvoip.Sip.Digest.Accepts.{hexdigest-IsHexText, IsHexdigest, hash_text-hex}
use rfcvoip.Sip.Digest.Response.{
  Values, or_no_text, compute_digest_response, respond, ha1_digest, session_ha1, with_ha1,
}
use rfcvoip.Sip.Digest.Verification.{
  is_nonce_count, Check, request_of, is_response, verify_qop, actual_response,
  verify_digest_response,
}

-- What an accepted authorization has: the response is the computed one, but for the case of its
-- letters, for the qop that it names; and with a qop its nonce count has eight hexadecimal digits.
pub record IsAccepted (h : Hashlib) (d : Dict) (c : Check) : Type 0 where
  pub qop : Option Qop
  pub expected : List ℕ
  pub named : normalize_authorization_qop (get (characters "qop") d) ≡ ok qop
  pub counted : is_some qop ≡ true → is_nonce_count (or_no_text (get (characters "nc") d)) ≡ true
  pub computed : compute_digest_response h d (request_of c qop) ≡ ok expected
  pub same : map lower expected ≡ map lower (actual_response d)
  pub filled : is_empty (actual_response d) ≡ false

module _ (h : Hashlib) (d : Dict) (c : Check) where
  response_found :
      (r : Result AuthError (List ℕ)) (actual : List ℕ)
      → is_response actual r ≡ true
      → (expected : List ℕ) × (r ≡ ok expected) × (map lower expected ≡ map lower actual)
  response_found (err e) actual k = absurd (ground (arith, k))
  response_found (ok expected) actual k = (expected, refl, (same_text_iff _ _).0 k)

  IsAccepted-by :
      (r : Result AuthError (Option Qop))
      → normalize_authorization_qop (get (characters "qop") d) ≡ r
      → is_empty (actual_response d) ≡ false
      → verify_qop h d c (actual_response d) r ≡ true
      → IsAccepted h d c
  IsAccepted-by (err e) named filled k = absurd (ground (arith, k))
  IsAccepted-by (ok q) named filled k =
      elim (Bool-cases (is_some q && not (is_nonce_count (or_no_text (get (characters "nc") d))))) [
        | inl uncounted ↦ absurd (ground (arith, uncounted, k))
        | inr counted ↦
            let (expected, computed, same) =
              response_found (compute_digest_response h d (request_of c q)) (actual_response d)
                (passed _ counted k) in
            record {
              qop = q;
              expected = expected;
              named = named;
              counted =
                  count_tested (is_some q) (is_nonce_count (or_no_text (get (characters "nc") d)))
                    counted;
              computed = computed;
              same = same;
              filled = filled;
            }
      ]
    where
      passed : {r : Bool} (b : Bool) → b ≡ false → (if b then false else r) ≡ true → r ≡ true
      passed false e k = k
      passed true e k = absurd (ground (arith, e))

      count_tested : (s n : Bool) → (s && not n) ≡ false → s ≡ true → n ≡ true
      count_tested true true e f = refl
      count_tested true false e f = absurd (ground (arith, e))
      count_tested false n e f = absurd (ground (arith, f))

  -- An authorization is accepted only with the response that is computed from it, but for the case of
  -- letters, and, when it names a qop, with a nonce count of eight hexadecimal digits.
  pub verify-IsAccepted : verify_digest_response h d c ≡ true → IsAccepted h d c
  unfolding verify_digest_response
  verify-IsAccepted k = elim (Bool-cases (is_empty (actual_response d))) [
    | inl empty ↦ absurd (ground (arith, empty, k))
    | inr filled ↦ elim (Bool-cases (every (λ x. ltb x 0x80) (actual_response d))) [
      | inl ascii ↦ IsAccepted-by _ refl filled (ground (arith, filled, ascii, k))
      | inr other ↦ absurd (ground (arith, other, filled, k))
    ]
  ]

-- Hexadecimal digits in lower case stay as they are.
lower_hex : (t : List ℕ) → every is_lower_hex t ≡ true → map lower t ≡ t
unfolding lower
lower_hex [] hex = refl
lower_hex (c ∷ t) hex = ground (arith, hex, lower_hex t)

stored_stays : (t : List ℕ) → IsHexText t → map lower (strip t) ≡ t
stored_stays t (filled, hex) =
    ap (map lower) (strip_free t (every-excludes is_lower_hex is_space hex_no_space t hex))
    ∙ lower_hex t hex

module _ (h : Hashlib) (username realm password : List ℕ) where
  -- The hash for a name is the one for its base.
  SameCredential : List ℕ → Type 0
  SameCredential a =
      make_digest_credential_hash h username realm password a
      ≡ make_digest_credential_hash h username realm password (base_algorithm (some a))

  credential_base : (a : List ℕ) → IsKnown a → SameCredential a
  unfolding SameCredential make_digest_credential_hash hash_text hash_bytes ensure_supported
      normalize_digest_algorithm base_algorithm sess_base get upper is_space
  credential_base a known =
      is_in-All SameCredential supported_digest_algorithms a
        (refl, (refl, (refl, (refl, (refl, (refl, tt)))))) known

  credential-IsHexText :
      (hex : GivesHex h) (a t : List ℕ)
      → make_digest_credential_hash h username realm password a ≡ ok t
      → IsHexText t
  unfolding make_digest_credential_hash
  credential-IsHexText hex a t e =
      hexdigest-IsHexText h hex (make_digest_credential_hash h username realm password a) t
        (bind-Always (IsHexdigest h) (ensure_supported (some a) none)
          (λ name. hash_text h (username ++ b':' ∷ (realm ++ b':' ∷ password)) name)
          (λ name. hash_text-hex h (username ++ b':' ∷ (realm ++ b':' ∷ password)) name))
        e

-- When `hashlib` gives lower-case hexadecimal digits, a server that has stored the hash of user
-- name, realm and password for the base of one of the six algorithms, with or without `-sess`,
-- computes from it the response that it would compute from the password.
pub respond_stored :
    (h : Hashlib) (hex : GivesHex h) (v : Values) (password stored method body : List ℕ)
    → IsKnown v.algorithm
    → make_digest_credential_hash h v.username v.realm password (base_algorithm (some v.algorithm))
      ≡ ok stored
    → respond h none (some stored) method body v ≡ respond h (some password) none method body v
unfolding respond ha1_digest SameCredential
respond_stored h hex v password stored method body known e =
    ap (λ r. r >>= session_ha1 h v >>= with_ha1 h method body v)
      (ap ok
          (stored_stays stored (credential-IsHexText h v.username v.realm password hex _ stored e))
        ∙ sym (credential_base h v.username v.realm password v.algorithm known ∙ e))

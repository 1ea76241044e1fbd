-- ===== src/Sip/Digest/Tests.antt =====
-- Digest authentication, and the theorems about it, with a hash that is a checksum in two digits.
use rfcvoip.Prelude.{
  ℕ, ◌+◌, ◌-◌, ◌/◌, ◌%◌, ◌<◌, ◌≡◌, refl, true, Option, none, some, ◌⊎◌, List, [], ◌∷◌, ◌++◌, ltb,
  if◌then◌else◌, arith,
}
use rfcvoip.Text.{characters, lower, upper, is_space}
use rfcvoip.Sip.Dict.{Dict, get, put}
use rfcvoip.Sip.Result.{Result, err, ok}
use rfcvoip.Sip.Utf8.{encode}
use rfcvoip.Sip.Digest.{parse_digest_params, parse_loop}
use rfcvoip.Sip.Digest.Fields.{quoted, bare, join_fields}
use rfcvoip.Sip.Digest.Parsing.{parse_loop_total}
use rfcvoip.Sip.Digest.RoundTrip.{entries, parse_digest_params-join_fields}
use rfcvoip.Sip.Digest.Algorithms.{
  AuthError, Hashlib, auth, or_value, supported_digest_algorithms, normalize_digest_algorithm,
  sess_base, base_algorithm, is_session_algorithm, ensure_supported, select_qop, qop_tokens,
  normalize_authorization_qop, hash_bytes, hash_text, make_digest_credential_hash,
}
use rfcvoip.Sip.Digest.Response.{Values, read_values, ha1_digest, respond, compute_digest_response}
use rfcvoip.Sip.Digest.Authorization.{
  Login, build_authorization_parameters, build_digest_auth_header,
}
use rfcvoip.Sip.Digest.Verification.{Check, verify_digest_response}
use rfcvoip.Sip.Digest.Hex.{GivesHex, is_lower_hex, check_for}
use rfcvoip.Sip.Digest.Accepts.{verify-build_digest_auth_header}
use rfcvoip.Sip.Digest.Rejects.{IsAccepted, verify-IsAccepted, respond_stored}
use rfcvoip.Sip.Digest.Challenge.{choose_digest_challenge, ordered_algorithms}
use rfcvoip.Sip.Digest.Header.{realm-IsName, nc-IsName, is_bare-IsBare}
use rfcvoip.Sip.Digest.Candidates.{Chosen}
use rfcvoip.Sip.Digest.Best.{choose-Chosen}

abbrev hex_digit : ℕ → ℕ
hex_digit n = if ltb n 10 then b'0' + n else b'a' + (n - 10)

abbrev sum : List ℕ → ℕ
sum [] = 0
sum (c ∷ cs) = c + sum cs

checksum : (name bytes : List ℕ) → List ℕ
checksum name bytes = hex_digit (sum bytes / 16 % 16) ∷ hex_digit (sum bytes % 16) ∷ []

abbrev checksums : Hashlib
checksums = record { provides = λ name. true; hexdigest = checksum }

hex_digit-is_lower_hex : (n : ℕ) → n < 16 → is_lower_hex (hex_digit n) ≡ true
hex_digit-is_lower_hex n h = ground (arith, h)

checksums-GivesHex : GivesHex checksums
unfolding checksum
checksums-GivesHex name bytes = (
  refl,
  (let high = hex_digit-is_lower_hex (sum bytes / 16 % 16) (omega arith) in
      let low = hex_digit-is_lower_hex (sum bytes % 16) (omega arith) in rw (high, low) refl),
)

abbrev challenge : Dict
challenge =
    (characters "realm", characters "a \\ realm")
    ∷ (characters "nonce", characters "n0")
    ∷ (characters "algorithm", characters "sha256-sess")
    ∷ (characters "qop", characters "auth-int,auth")
    ∷ (characters "opaque", [])
    ∷ []

abbrev login : Login
login = record {
  username = characters "bob, the \"builder\"";
  password = characters "secret";
  method = characters "REGISTER";
  uri = characters "sip:a";
  nonce_count = characters "0000002a";
  body = [];
  supported_algorithms = none;
  cnonce = characters "c1";
}

abbrev header_or_empty : Result AuthError (List ℕ) → List ℕ
header_or_empty (err e) = []
header_or_empty (ok header) = header

abbrev header : List ℕ
header =
    header_or_empty
      (build_digest_auth_header checksums challenge (characters "Authorization") login)

header_built :
    build_digest_auth_header checksums challenge (characters "Authorization") login ≡ ok header
unfolding build_digest_auth_header build_authorization_parameters compute_digest_response
    read_values respond ha1_digest make_digest_credential_hash hash_text hash_bytes encode
    ensure_supported normalize_digest_algorithm base_algorithm sess_base is_session_algorithm
    select_qop qop_tokens normalize_authorization_qop get put upper lower is_space checksum
header_built = refl

verify-build_digest_auth_header_example :
    (value : List ℕ) × (header
      ≡ characters "Authorization" ++ (characters ": " ++ (value ++ 13 ∷ 10 ∷ [])))
    × (verify_digest_response checksums (parse_digest_params value) (check_for login) ≡ true)
verify-build_digest_auth_header_example =
    verify-build_digest_auth_header checksums checksums-GivesHex challenge
      (characters "Authorization") login header tt refl header_built

-- An authorization without a qop, which a server checks by the stored hash.
abbrev stored : List ℕ
stored = checksum [] (characters "bob:r:pw")

abbrev values : Values
values = record {
  algorithm = characters "SHA-256-sess";
  realm = characters "r";
  nonce = characters "n0";
  uri = characters "sip:a";
  username = characters "bob";
  qop = some auth;
  cnonce = characters "c1";
  nc = characters "00000001";
}

stored_credential :
    make_digest_credential_hash checksums
      (characters "bob")
      (characters "r")
      (characters "pw")
      (base_algorithm (some (characters "SHA-256-sess")))
    ≡ ok stored
unfolding make_digest_credential_hash hash_text hash_bytes encode ensure_supported
    normalize_digest_algorithm base_algorithm sess_base get upper is_space checksum
stored_credential = refl

respond_stored_example :
    respond checksums none (some stored) (characters "REGISTER") [] values
    ≡ respond checksums (some (characters "pw")) none (characters "REGISTER") [] values
respond_stored_example =
    respond_stored checksums checksums-GivesHex values (characters "pw") stored
      (characters "REGISTER") [] refl stored_credential

abbrev authorization : Dict
authorization =
    (characters "username", characters "bob")
    ∷ (characters "realm", characters "r")
    ∷ (characters "nonce", characters "n0")
    ∷ (characters "uri", characters "sip:a")
    ∷ (characters "response", characters "E0")
    ∷ []

abbrev check : Check
check = record {
  method = characters "REGISTER";
  password = some (characters "pw");
  stored_ha1 = none;
  body = [];
  supported_algorithms = none;
}

authorization_accepted : verify_digest_response checksums authorization check ≡ true
unfolding verify_digest_response compute_digest_response read_values respond ha1_digest
    make_digest_credential_hash hash_text hash_bytes encode ensure_supported
    normalize_digest_algorithm base_algorithm sess_base is_session_algorithm select_qop qop_tokens
    normalize_authorization_qop get put upper lower is_space checksum
authorization_accepted = refl

verify-IsAccepted_example : IsAccepted checksums authorization check
verify-IsAccepted_example = verify-IsAccepted checksums authorization check authorization_accepted

parse_loop_total_example :
    (result : Dict) × (parse_loop 12 (characters "a=b,,c=\"d\"") [] ≡ some result)
parse_loop_total_example = parse_loop_total 12 (characters "a=b,,c=\"d\"") [] (omega arith)

-- Challenges: no dict, one with an unknown algorithm, two that can be answered.
abbrev challenges : List (Option Dict)
challenges =
    none
    ∷ some (
        (characters "realm", characters "r")
        ∷ (characters "nonce", characters "n")
        ∷ (characters "algorithm", characters "SHA-1")
        ∷ [])
    ∷ some ((characters "realm", characters "r") ∷ (characters "nonce", characters "n") ∷ [])
    ∷ some challenge
    ∷ []

choose-Chosen_example :
    (ordered_algorithms checksums (or_value none supported_digest_algorithms) ≡ [])
      × (choose_digest_challenge checksums challenges none ≡ none)
    ⊎ Chosen
        (ordered_algorithms checksums (or_value none supported_digest_algorithms))
        challenges
        (choose_digest_challenge checksums challenges none)
choose-Chosen_example = choose-Chosen checksums challenges none

parse_digest_params-join_fields_example :
    parse_digest_params (
      characters "Digest "
      ++ join_fields (
          quoted (characters "realm") (characters "a, \"b\"")
          ∷ bare (characters "nc") (characters "1")
          ∷ []))
    ≡ entries
        (quoted (characters "realm") (characters "a, \"b\"")
          ∷ bare (characters "nc") (characters "1")
          ∷ [])
        []
unfolding is_space
parse_digest_params-join_fields_example =
    parse_digest_params-join_fields (quoted (characters "realm") (characters "a, \"b\""))
      (bare (characters "nc") (characters "1") ∷ []) realm-IsName
      ((nc-IsName, is_bare-IsBare (characters "1") refl), tt)

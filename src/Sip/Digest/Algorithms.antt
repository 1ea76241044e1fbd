-- ===== src/Sip/Digest/Algorithms.antt =====
-- The digest algorithms and the qop of rfcvoip/SIPAuth.py: their names, the tests of them, and the
-- hashes. `hashlib` is a parameter.
use rfcvoip.Prelude.{
  ℕ, Bool, true, false, not, ◌||◌, Option, none, some, List, [], ◌∷◌, ◌++◌, map, filter, ◌==◌,
  if◌then◌else◌,
}
use rfcvoip.Text.{is_empty, upper, lower, strip, drop_until, same_text, characters}
use rfcvoip.Sip.Dict.{Dict, get}
use rfcvoip.Sip.Result.{Result, err, ok, ◌>>=◌, raise_if}
use rfcvoip.Sip.Utf8.{encode}
use rfcvoip.Sip.Digest.{quote}

-- The texts of `SIPAuthError`
pub data AuthError : Type 0 where
  unsupported_algorithm not_provided unsupported_qop missing_password : AuthError
  missing_realm missing_nonce missing_uri missing_username : AuthError
  qop_requires_cnonce session_requires_cnonce : AuthError

abbrev pub md5 : List ℕ
md5 = characters "MD5"

abbrev pub sha_256 : List ℕ
sha_256 = characters "SHA-256"

abbrev pub sha_512_256 : List ℕ
sha_512_256 = characters "SHA-512-256"

abbrev pub sess : List ℕ
sess = characters "-sess"

-- `SUPPORTED_DIGEST_ALGORITHMS`
abbrev pub supported_digest_algorithms : List (List ℕ)
supported_digest_algorithms =
    sha_512_256
    ∷ characters "SHA-512-256-sess"
    ∷ sha_256
    ∷ characters "SHA-256-sess"
    ∷ characters "MD5-sess"
    ∷ md5
    ∷ []

-- `_HASHLIB_ALGORITHMS`
abbrev pub hashlib_algorithms : Dict
hashlib_algorithms =
    (md5, characters "md5")
    ∷ (sha_256, characters "sha256")
    ∷ (sha_512_256, characters "sha512_256")
    ∷ []

-- `_ALGORITHM_ALIASES`
abbrev pub algorithm_aliases : Dict
algorithm_aliases =
    (md5, md5)
    ∷ (characters "MD5-SESS", characters "MD5-sess")
    ∷ (sha_256, sha_256)
    ∷ (characters "SHA256", sha_256)
    ∷ (characters "SHA-256-SESS", characters "SHA-256-sess")
    ∷ (characters "SHA256-SESS", characters "SHA-256-sess")
    ∷ (sha_512_256, sha_512_256)
    ∷ (characters "SHA512-256", sha_512_256)
    ∷ (characters "SHA-512/256", sha_512_256)
    ∷ (characters "SHA512/256", sha_512_256)
    ∷ (characters "SHA512_256", sha_512_256)
    ∷ (characters "SHA-512-256-SESS", characters "SHA-512-256-sess")
    ∷ (characters "SHA512-256-SESS", characters "SHA-512-256-sess")
    ∷ (characters "SHA-512/256-SESS", characters "SHA-512-256-sess")
    ∷ (characters "SHA512/256-SESS", characters "SHA-512-256-sess")
    ∷ (characters "SHA512_256-SESS", characters "SHA-512-256-sess")
    ∷ []

-- `str.upper`, as far as the aliases can tell: besides the ASCII letters, two characters have an upper
-- case of the letter S.
abbrev pub upper_name : List ℕ → List ℕ
upper_name [] = []
upper_name (c ∷ cs) =
    (if c == 0xdf then characters "SS" else if c == 0x17f then characters "S" else upper c ∷ [])
    ++ upper_name cs

-- `text.strip('"')`
abbrev pub is_quote : ℕ → Bool
is_quote c = c == quote

abbrev pub rstrip_quotes : List ℕ → List ℕ
rstrip_quotes [] = []
rstrip_quotes (c ∷ cs) = elim (rstrip_quotes cs) [
  | [] ↦ if is_quote c then [] else c ∷ []
  | d ∷ ds ↦ c ∷ d ∷ ds
]

abbrev pub strip_quotes : List ℕ → List ℕ
strip_quotes text = rstrip_quotes (drop_until (λ c. not (is_quote c)) text)

-- `a or b`, of texts
abbrev pub or_text : Option (List ℕ) → List ℕ → List ℕ
or_text none other = other
or_text (some []) other = other
or_text (some (c ∷ cs)) other = c ∷ cs

abbrev pub or_value {ℓ} : {A : Type ℓ} → Option A → A → A
or_value none other = other
or_value (some a) other = a

abbrev pub or_md5 : List ℕ → List ℕ
or_md5 [] = md5
or_md5 (c ∷ cs) = c ∷ cs

-- `normalize_digest_algorithm`
abbrev pub alias_of : List ℕ → List ℕ
alias_of raw = or_value (get (upper_name raw) algorithm_aliases) raw

unfoldable pub normalize_digest_algorithm : Option (List ℕ) → List ℕ
normalize_digest_algorithm algorithm =
    alias_of (or_md5 (strip_quotes (strip (or_text algorithm md5))))

-- The text before a final `-sess`
abbrev pub before : ℕ → Option (List ℕ) → Option (List ℕ)
before c none = none
before c (some cs) = some (c ∷ cs)

unfoldable pub sess_base : List ℕ → Option (List ℕ)
sess_base [] = none
sess_base (c ∷ cs) = if same_text (c ∷ cs) sess then some [] else before c (sess_base cs)

-- `_base_algorithm`
unfoldable pub base_algorithm : Option (List ℕ) → List ℕ
base_algorithm algorithm =
    let name = normalize_digest_algorithm algorithm in or_value (sess_base name) name

abbrev pub is_some {ℓ} : {A : Type ℓ} → Option A → Bool
is_some none = false
is_some (some a) = true

-- `_is_session_algorithm`
unfoldable pub is_session_algorithm : Option (List ℕ) → Bool
is_session_algorithm algorithm = is_some (sess_base (normalize_digest_algorithm algorithm))

-- `name in names`
abbrev pub is_in : List ℕ → List (List ℕ) → Bool
is_in name [] = false
is_in name (n ∷ ns) = same_text name n || is_in name ns

-- The names that are asked for, or all.
abbrev pub supported_names : Option (List (List ℕ)) → List (List ℕ)
supported_names supported =
    map (λ (name : List ℕ). normalize_digest_algorithm (some name))
      (or_value supported supported_digest_algorithms)

-- `_ensure_supported_algorithm`
unfoldable pub ensure_supported :
    Option (List ℕ) → (supported : Option (List (List ℕ))) → Result AuthError (List ℕ)
ensure_supported algorithm supported =
    let name = normalize_digest_algorithm algorithm in
    raise_if (not (is_in name (supported_names supported))) unsupported_algorithm (
      raise_if (not (is_some (get (base_algorithm (some name)) hashlib_algorithms)))
        unsupported_algorithm (ok name))

-- What `hashlib` gives: whether it has the algorithm of a name, and its digest in hexadecimal digits.
pub record Hashlib : Type 0 where
  pub provides : (name : List ℕ) → Bool
  pub hexdigest : (name bytes : List ℕ) → List ℕ

-- `qop` as the source chooses it; `qop_text` is its name.
pub data Qop : Type 0 where
  auth auth_int : Qop

abbrev pub qop_text : Qop → List ℕ
qop_text auth = characters "auth"
qop_text auth_int = characters "auth-int"

-- `text.split(",")`
abbrev pub add_char : ℕ → List (List ℕ) → List (List ℕ)
add_char c [] = (c ∷ []) ∷ []
add_char c (part ∷ parts) = (c ∷ part) ∷ parts

abbrev pub split_commas : List ℕ → List (List ℕ)
split_commas [] = [] ∷ []
split_commas (c ∷ cs) = if c == b',' then [] ∷ split_commas cs else add_char c (split_commas cs)

-- `_qop_tokens`
unfoldable pub qop_tokens : Option (List ℕ) → List (List ℕ)
qop_tokens none = []
qop_tokens (some qop) =
    map (λ (token : List ℕ). map lower (strip token))
      (filter (λ token. not (is_empty (strip token))) (split_commas (strip_quotes (strip qop))))

abbrev pub qop_among : List (List ℕ) → Result AuthError (Option Qop)
qop_among [] = ok none
qop_among (token ∷ tokens) =
    if is_in (qop_text auth) (token ∷ tokens)
    then ok (some auth)
    else if is_in (qop_text auth_int) (token ∷ tokens)
    then ok (some auth_int)
    else err unsupported_qop

-- `_select_qop`
unfoldable pub select_qop : Option (List ℕ) → Result AuthError (Option Qop)
unfolding qop_tokens
select_qop qop = qop_among (qop_tokens qop)

abbrev pub qop_named : List ℕ → Result AuthError (Option Qop)
qop_named name =
    if same_text name (qop_text auth)
    then ok (some auth)
    else if same_text name (qop_text auth_int)
    then ok (some auth_int)
    else err unsupported_qop

-- `_normalize_authorization_qop`
unfoldable pub normalize_authorization_qop : Option (List ℕ) → Result AuthError (Option Qop)
normalize_authorization_qop none = ok none
normalize_authorization_qop (some []) = ok none
normalize_authorization_qop (some (c ∷ cs)) = qop_named (map lower (strip_quotes (strip (c ∷ cs))))

module _ (h : Hashlib) where
  -- `_hash_bytes`
  abbrev pub hash_by : (bytes : List ℕ) → (name : Option (List ℕ)) → Result AuthError (List ℕ)
  hash_by bytes none = err unsupported_algorithm
  hash_by bytes (some name) =
      raise_if (not (h.provides name)) not_provided (ok (h.hexdigest name bytes))

  unfoldable pub hash_bytes : (bytes algorithm : List ℕ) → Result AuthError (List ℕ)
  hash_bytes bytes algorithm =
      hash_by bytes (get (base_algorithm (some algorithm)) hashlib_algorithms)

  -- `_hash_text`
  unfoldable pub hash_text : (text algorithm : List ℕ) → Result AuthError (List ℕ)
  hash_text text algorithm = hash_bytes (encode text) algorithm

  -- `make_digest_credential_hash`
  unfoldable pub make_digest_credential_hash :
      (username realm password algorithm : List ℕ) → Result AuthError (List ℕ)
  make_digest_credential_hash username realm password algorithm =
      ensure_supported (some algorithm) none >>= λ name.
      hash_text (username ++ b':' ∷ (realm ++ b':' ∷ password)) name

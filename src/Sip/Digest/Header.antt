-- ===== src/Sip/Digest/Header.antt =====
-- The header that `build_digest_auth_header` of rfcvoip/SIPAuth.py prints, when it is parsed.
use mathlib.Core.Path.{subst}
use rfcvoip.Prelude.{
  ℕ, ◌≡◌, refl, sym, Bool, true, false, not, ◌&&◌, Option, none, some, List, [], ◌∷◌, All, map,
  ◌==◌, arith,
}
use rfcvoip.Text.{characters, lower, is_space, every, is_empty, IsFree}
use rfcvoip.Sip.Dict.{get, put}
use rfcvoip.Sip.Digest.{is_comma, ends_key, quote, parse_digest_params}
use rfcvoip.Sip.Digest.Algorithms.{Qop, auth, auth_int, qop_text, supported_digest_algorithms}
use rfcvoip.Sip.Digest.Fields.{Field, quoted, bare}
use rfcvoip.Sip.Digest.Known.{IsKnown, is_in-All}
use rfcvoip.Sip.Digest.Reading.{IsName, IsBare, IsField}
use rfcvoip.Sip.Digest.RoundTrip.{parse_digest_params-join_fields}
use rfcvoip.Sip.Digest.Authorization.{first_field, other_fields, header_value, opaque_fields}
use rfcvoip.Sip.Digest.Verification.{is_hex, is_nonce_count}
use rfcvoip.Sip.Digest.Printed.{Reads, Printed, printed_params, Reads-back}

-- The characters of a name, and those of a value that is not quoted, as tests.
abbrev name_char : ℕ → Bool
name_char c = not (ends_key c) && not (is_space c)

abbrev pub bare_char : ℕ → Bool
bare_char c = not (is_comma c) && (not (is_space c) && not (c == quote))

both : (a b : Bool) → (a && b) ≡ true → (a ≡ true) × (b ≡ true)
both true b h = (refl, h)
both false b h = absurd (ground (arith, h))

negated : (a : Bool) → not a ≡ true → a ≡ false
negated false h = refl
negated true h = absurd (ground (arith, h))

-- A text of which every character passes a test is free of what the test excludes.
module _ (test excluded : ℕ → Bool) (excludes : (c : ℕ) → test c ≡ true → excluded c ≡ false) where
  pub every-excludes : (a : List ℕ) → every test a ≡ true → IsFree excluded a
  every-excludes [] h = tt
  every-excludes (c ∷ a) h =
      let (first, rest) = both (test c) (every test a) h in
      (excludes c first, every-excludes a rest)

IsName-checked :
    (name : List ℕ)
    → is_empty name ≡ false
    → every name_char name ≡ true
    → map lower name ≡ name
    → IsName name
IsName-checked name filled chars same = (
  filled,
  every-excludes name_char ends_key
      (λ c h. negated (ends_key c) (both (not (ends_key c)) (not (is_space c)) h).0) name chars,
  every-excludes name_char is_space
      (λ c h. negated (is_space c) (both (not (ends_key c)) (not (is_space c)) h).1) name chars,
  same,
)

IsBare-checked :
    (value : List ℕ) → is_empty value ≡ false → every bare_char value ≡ true → IsBare value
IsBare-checked value filled chars = (
  filled,
  every-excludes bare_char is_comma (λ c h. negated (is_comma c) (both (not (is_comma c)) _ h).0)
      value chars,
  every-excludes bare_char is_space
      (λ c h. negated (is_space c) (both (not (is_space c)) _ (both (not (is_comma c)) _ h).1).0)
      value chars,
  every-excludes bare_char (λ c. c == quote)
      (λ c h. negated (c == quote) (both (not (is_space c)) _ (both (not (is_comma c)) _ h).1).1)
      value chars,
)

abbrev pub is_bare : List ℕ → Bool
is_bare value = not (is_empty value) && every bare_char value

pub is_bare-IsBare : (value : List ℕ) → is_bare value ≡ true → IsBare value
is_bare-IsBare value h =
    let (filled, chars) = both (not (is_empty value)) (every bare_char value) h in
    IsBare-checked value (negated (is_empty value) filled) chars

known-IsBare : (a : List ℕ) → IsKnown a → IsBare a
unfolding is_space
known-IsBare a h =
    is_bare-IsBare a
      (is_in-All (λ (n : List ℕ). is_bare n ≡ true) supported_digest_algorithms a all_bare h)
  where
    all_bare : All (λ (n : List ℕ). is_bare n ≡ true) supported_digest_algorithms
    all_bare = (refl, (refl, (refl, (refl, (refl, (refl, tt))))))

qop-IsBare : (q : Qop) → IsBare (qop_text q)
unfolding is_space
qop-IsBare auth = is_bare-IsBare (qop_text auth) refl
qop-IsBare auth_int = is_bare-IsBare (qop_text auth_int) refl

hex_bare : (c : ℕ) → is_hex c ≡ true → bare_char c ≡ true
unfolding is_space
hex_bare c h = ground (arith, h)

every_hex : (nc : List ℕ) → every is_hex nc ≡ true → every bare_char nc ≡ true
every_hex [] h = refl
every_hex (c ∷ nc) h =
    let (first, rest) = both (is_hex c) (every is_hex nc) h in
    rw (hex_bare c first, every_hex nc rest) refl

nc-IsBare : (nc : List ℕ) → is_nonce_count nc ≡ true → IsBare nc
nc-IsBare [] h = absurd (ground (arith, h))
nc-IsBare (c ∷ nc) h = IsBare-checked (c ∷ nc) refl (every_hex (c ∷ nc) (both _ _ h).1)

-- The names of the fields are names.
username-IsName : IsName (characters "username")
unfolding lower is_space
username-IsName = IsName-checked (characters "username") refl refl refl

pub realm-IsName : IsName (characters "realm")
unfolding lower is_space
realm-IsName = IsName-checked (characters "realm") refl refl refl

nonce-IsName : IsName (characters "nonce")
unfolding lower is_space
nonce-IsName = IsName-checked (characters "nonce") refl refl refl

uri-IsName : IsName (characters "uri")
unfolding lower is_space
uri-IsName = IsName-checked (characters "uri") refl refl refl

response-IsName : IsName (characters "response")
unfolding lower is_space
response-IsName = IsName-checked (characters "response") refl refl refl

algorithm-IsName : IsName (characters "algorithm")
unfolding lower is_space
algorithm-IsName = IsName-checked (characters "algorithm") refl refl refl

qop-IsName : IsName (characters "qop")
unfolding lower is_space
qop-IsName = IsName-checked (characters "qop") refl refl refl

pub nc-IsName : IsName (characters "nc")
unfolding lower is_space
nc-IsName = IsName-checked (characters "nc") refl refl refl

cnonce-IsName : IsName (characters "cnonce")
unfolding lower is_space
cnonce-IsName = IsName-checked (characters "cnonce") refl refl refl

opaque-IsName : IsName (characters "opaque")
unfolding lower is_space
opaque-IsName = IsName-checked (characters "opaque") refl refl refl

module _ (p : Printed) (known : IsKnown p.algorithm) (hex : is_nonce_count p.nc ≡ true) where
  common_fields :
      (fs : List Field)
      → All IsField fs
      → All IsField (
          quoted (characters "realm") p.realm
          ∷ quoted (characters "nonce") p.nonce
          ∷ quoted (characters "uri") p.uri
          ∷ quoted (characters "response") p.response
          ∷ bare (characters "algorithm") p.algorithm
          ∷ fs)
  common_fields fs h = (
    realm-IsName,
    (
      nonce-IsName,
      (uri-IsName, (response-IsName, ((algorithm-IsName, known-IsBare p.algorithm known), h))),
    ),
  )

  opaque-IsField : (o : Option (List ℕ)) → All IsField (opaque_fields o)
  opaque-IsField none = tt
  opaque-IsField (some o) = (opaque-IsName, tt)

  qop-IsField :
      (q : Qop) (cnonce : List ℕ) (fs : List Field)
      → All IsField fs
      → All IsField (
          bare (characters "qop") (qop_text q)
          ∷ bare (characters "nc") p.nc
          ∷ quoted (characters "cnonce") cnonce
          ∷ fs)
  qop-IsField q cnonce fs h =
      ((qop-IsName, qop-IsBare q), ((nc-IsName, nc-IsBare p.nc hex), (cnonce-IsName, h)))

  cnonce-IsField :
      (cnonce : List ℕ) (fs : List Field)
      → All IsField fs
      → All IsField (quoted (characters "cnonce") cnonce ∷ fs)
  cnonce-IsField cnonce fs h = (cnonce-IsName, h)

  -- The fields behind the name of the user, by the branches of the header.
  other-IsField :
      (q : Option Qop) (cnonce : List ℕ) (o : Option (List ℕ))
      → All IsField
          (other_fields (printed_params (record p { qop = q; cnonce = cnonce; opaque = o })))
  unfolding get put
  other-IsField none [] none = common_fields (opaque_fields none) (opaque-IsField none)
  other-IsField none [] (some o) = common_fields (opaque_fields (some o)) (opaque-IsField (some o))
  other-IsField none (c ∷ cs) none =
      common_fields (quoted (characters "cnonce") (c ∷ cs) ∷ opaque_fields none)
        (cnonce-IsField (c ∷ cs) (opaque_fields none) (opaque-IsField none))
  other-IsField none (c ∷ cs) (some o) =
      common_fields (quoted (characters "cnonce") (c ∷ cs) ∷ opaque_fields (some o))
        (cnonce-IsField (c ∷ cs) (opaque_fields (some o)) (opaque-IsField (some o)))
  other-IsField (some q) [] none =
      common_fields
        (bare (characters "qop") (qop_text q)
          ∷ bare (characters "nc") p.nc
          ∷ quoted (characters "cnonce") []
          ∷ opaque_fields none)
        (qop-IsField q [] (opaque_fields none) (opaque-IsField none))
  other-IsField (some q) [] (some o) =
      common_fields
        (bare (characters "qop") (qop_text q)
          ∷ bare (characters "nc") p.nc
          ∷ quoted (characters "cnonce") []
          ∷ opaque_fields (some o))
        (qop-IsField q [] (opaque_fields (some o)) (opaque-IsField (some o)))
  other-IsField (some q) (c ∷ cs) none =
      common_fields
        (bare (characters "qop") (qop_text q)
          ∷ bare (characters "nc") p.nc
          ∷ quoted (characters "cnonce") (c ∷ cs)
          ∷ opaque_fields none)
        (qop-IsField q (c ∷ cs) (opaque_fields none) (opaque-IsField none))
  other-IsField (some q) (c ∷ cs) (some o) =
      common_fields
        (bare (characters "qop") (qop_text q)
          ∷ bare (characters "nc") p.nc
          ∷ quoted (characters "cnonce") (c ∷ cs)
          ∷ opaque_fields (some o))
        (qop-IsField q (c ∷ cs) (opaque_fields (some o)) (opaque-IsField (some o)))

  -- What a server reads in the printed header is what the client has computed the response from.
  pub parse-header_value : Reads p (parse_digest_params (header_value (printed_params p)))
  parse-header_value =
      subst (Reads p)
        (sym (
          parse_digest_params-join_fields (first_field (printed_params p))
            (other_fields (printed_params p)) username-IsName
            (other-IsField p.qop p.cnonce p.opaque)))
        (Reads-back p p.qop p.cnonce p.opaque)

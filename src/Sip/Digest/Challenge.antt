-- ===== src/Sip/Digest/Challenge.antt =====
-- Digest challenges in rfcvoip/SIPAuth.py: `_ordered_algorithms`, `choose_digest_challenge` and
-- `build_digest_challenge_headers`.
use rfcvoip.Prelude.{
  ℕ, suc, Bool, not, ◌&&◌, ◌||◌, Option, none, some, List, [], ◌∷◌, ◌++◌, map, filter, ltb, leb,
  ◌==◌, if◌then◌else◌,
}
use rfcvoip.Text.{is_empty, characters, same_text}
use rfcvoip.Sip.Dict.{Dict, get}
use rfcvoip.Sip.Result.{Result, err, ok}
use rfcvoip.Sip.Digest.Algorithms.{
  AuthError, Hashlib, Qop, is_some, is_in, supported_digest_algorithms, ensure_supported, or_value,
  select_qop, hash_bytes,
}
use rfcvoip.Sip.Digest.Fields.{Field, quoted, bare, join_fields}
use rfcvoip.Sip.Digest.Response.{or_no_text}
use rfcvoip.Sip.Digest.Authorization.{opaque_fields}

-- The place of a name in a list: `{name: index for index, name in enumerate(names)}.get(name, 999)`,
-- of names that are distinct.
abbrev pub index_from : ℕ → List ℕ → List (List ℕ) → ℕ
index_from i name [] = 999
index_from i name (n ∷ names) = if same_text name n then i else index_from (suc i) name names

abbrev pub preference : List ℕ → List (List ℕ) → ℕ
preference name names = index_from 0 name names

-- `dict.fromkeys(names)`
abbrev pub distinct_from : (seen names : List (List ℕ)) → List (List ℕ)
distinct_from seen [] = []
distinct_from seen (n ∷ names) =
    let rest = distinct_from (n ∷ seen) names in
    let others = distinct_from seen names in if is_in n seen then others else n ∷ rest

-- `sorted(names, key=preference)`
abbrev pub insert_name : List ℕ → List (List ℕ) → List (List ℕ)
insert_name name [] = name ∷ []
insert_name name (n ∷ names) =
    if leb (preference name supported_digest_algorithms) (preference n supported_digest_algorithms)
    then name ∷ n ∷ names
    else n ∷ insert_name name names

abbrev pub sort_names : List (List ℕ) → List (List ℕ)
sort_names [] = []
sort_names (n ∷ names) = insert_name n (sort_names names)

module _ (h : Hashlib) where
  -- The body of the loop over the algorithms: none where `SIPAuthError` is caught.
  abbrev pub if_hashed : List ℕ → Result AuthError (List ℕ) → Option (List ℕ)
  if_hashed name (err e) = none
  if_hashed name (ok digest) = some name

  abbrev pub usable : Result AuthError (List ℕ) → Option (List ℕ)
  usable (err e) = none
  usable (ok name) = if_hashed name (hash_bytes h [] name)

  abbrev pub append_usable : Option (List ℕ) → List (List ℕ) → List (List ℕ)
  append_usable none names = names
  append_usable (some name) names = name ∷ names

  abbrev pub usable_names : List (List ℕ) → List (List ℕ)
  usable_names [] = []
  usable_names (a ∷ algorithms) =
      append_usable (usable (ensure_supported (some a) none)) (usable_names algorithms)

  -- `_ordered_algorithms`
  unfoldable pub ordered_algorithms : List (List ℕ) → List (List ℕ)
  ordered_algorithms algorithms = sort_names (distinct_from [] (usable_names algorithms))

-- A challenge's preference, none where the loop of `choose_digest_challenge` continues. A challenge
-- that is no `dict` is none.
abbrev pub rank_by :
    (supported : List (List ℕ))
    → Result AuthError (List ℕ)
    → Result AuthError (Option Qop)
    → Option ℕ
rank_by supported (err e) qop = none
rank_by supported (ok algorithm) (err e) = none
rank_by supported (ok algorithm) (ok qop) = some (preference algorithm supported)

abbrev pub has_realm_and_nonce : Dict → Bool
has_realm_and_nonce challenge =
    is_some (get (characters "realm") challenge)
    && not (is_empty (or_no_text (get (characters "nonce") challenge)))

abbrev pub rank_of : (supported : List (List ℕ)) → Option Dict → Option ℕ
rank_of supported none = none
rank_of supported (some challenge) =
    if has_realm_and_nonce challenge
    then rank_by supported
        (ensure_supported (get (characters "algorithm") challenge) (some supported))
        (select_qop (get (characters "qop") challenge))
    else none

-- The candidates: preference, index and challenge
pub record Candidate : Type 0 where
  pub rank : ℕ
  pub index : ℕ
  pub challenge : Dict

abbrev pub append_candidate : Option ℕ → (index : ℕ) → Option Dict → List Candidate → List Candidate
append_candidate none index challenge candidates = candidates
append_candidate (some rank) index none candidates = candidates
append_candidate (some rank) index (some challenge) candidates =
    record { rank = rank; index = index; challenge = challenge } ∷ candidates

unfoldable pub candidates_from :
    (supported : List (List ℕ)) → (index : ℕ) → List (Option Dict) → List Candidate
candidates_from supported index [] = []
candidates_from supported index (challenge ∷ challenges) =
    append_candidate (rank_of supported challenge) index challenge
      (candidates_from supported (suc index) challenges)

-- `candidates.sort(key=lambda item: (item[0], item[1]))`
abbrev pub goes_before : Candidate → Candidate → Bool
goes_before c d = ltb c.rank d.rank || c.rank == d.rank && leb c.index d.index

abbrev pub insert_candidate : Candidate → List Candidate → List Candidate
insert_candidate c [] = c ∷ []
insert_candidate c (d ∷ ds) = if goes_before c d then c ∷ d ∷ ds else d ∷ insert_candidate c ds

unfoldable pub sort_candidates : List Candidate → List Candidate
sort_candidates [] = []
sort_candidates (c ∷ cs) = insert_candidate c (sort_candidates cs)

abbrev pub first_challenge : List Candidate → Option Dict
first_challenge [] = none
first_challenge (c ∷ cs) = some c.challenge

abbrev pub choose_among : (supported : List (List ℕ)) → List (Option Dict) → Option Dict
choose_among [] challenges = none
choose_among (s ∷ supported) challenges =
    first_challenge (sort_candidates (candidates_from (s ∷ supported) 0 challenges))

module _ (h : Hashlib) where
  -- `choose_digest_challenge`
  unfoldable pub choose_digest_challenge :
      List (Option Dict) → (supported_algorithms : Option (List (List ℕ))) → Option Dict
  choose_digest_challenge challenges supported_algorithms =
      choose_among
        (ordered_algorithms h (or_value supported_algorithms supported_digest_algorithms))
        challenges

-- `", ".join(token for token in qop if token)`
abbrev pub join_tokens : List (List ℕ) → List ℕ
join_tokens [] = []
join_tokens (token ∷ []) = token
join_tokens (token ∷ next ∷ tokens) = token ++ (characters ", " ++ join_tokens (next ∷ tokens))

abbrev pub qop_field : List ℕ → List Field
qop_field [] = []
qop_field (c ∷ cs) = quoted (characters "qop") (c ∷ cs) ∷ []

-- The fields of the challenge for an algorithm
abbrev pub challenge_fields :
    (realm nonce algorithm qop_value : List ℕ) → (opaque : Option (List ℕ)) → List Field
challenge_fields realm nonce algorithm qop_value opaque =
    quoted (characters "realm") realm
    ∷ quoted (characters "nonce") nonce
    ∷ bare (characters "algorithm") algorithm
    ∷ (qop_field qop_value ++ opaque_fields opaque)

module _ (h : Hashlib) where
  -- `build_digest_challenge_headers`; `nonce` is what `generate_nonce` has given.
  unfoldable pub build_digest_challenge_headers :
      (realm nonce header_name : List ℕ)
      → (algorithms qop : List (List ℕ)) → (opaque : Option (List ℕ)) → List (List ℕ)
  build_digest_challenge_headers realm nonce header_name algorithms qop opaque =
      map
        (λ (algorithm : List ℕ).
          header_name
          ++ (characters ": Digest "
              ++ (join_fields (
                    challenge_fields realm nonce algorithm
                      (join_tokens (filter (λ token. not (is_empty token)) qop)) opaque)
                  ++ 13 ∷ 10 ∷ [])))
        (ordered_algorithms h algorithms)

-- ===== src/Sip/Digest/Known.antt =====
-- The names of the six algorithms of rfcvoip/SIPAuth.py under its own tests.
use mathlib.Core.Path.{subst}
use rfcvoip.Prelude.{
  ℕ, ◌≡◌, refl, sym, ap, ◌∙◌, Bool, true, false, not, Option, none, some, inl, inr, List, [], ◌∷◌,
  All, map, Bool-cases, arith,
}
use rfcvoip.Text.{upper, is_space, same_text, same_text_iff}
use rfcvoip.Sip.Dict.{get}
use rfcvoip.Sip.Result.{ok, raise_if}
use rfcvoip.Sip.Digest.Algorithms.{
  unsupported_algorithm, supported_digest_algorithms, hashlib_algorithms, is_some, is_in,
  supported_names, normalize_digest_algorithm, sess_base, base_algorithm, ensure_supported,
}

abbrev pub IsKnown : List ℕ → Type 0
IsKnown name = is_in name supported_digest_algorithms ≡ true

-- What holds of each of the names holds of every name that is among them.
pub is_in-All {κ} :
    (P : List ℕ → Type κ) (names : List (List ℕ)) (a : List ℕ)
    → All P names
    → is_in a names ≡ true
    → P a
is_in-All P [] a h found = absurd (ground (arith, found))
is_in-All P (n ∷ names) a (h, hs) found = elim (Bool-cases (same_text a n)) [
  | inl same ↦ subst P (sym ((same_text_iff a n).0 same)) h
  | inr other ↦ is_in-All P names a hs (ground (arith, found, other))
]

-- A known name is its own normal form, and stands for a hash of `hashlib`.
abbrev pub IsNormal : List ℕ → Type 0
IsNormal name =
    (normalize_digest_algorithm (some name) ≡ name)
    × (is_some (get (base_algorithm (some name)) hashlib_algorithms) ≡ true)

names-IsNormal : All IsNormal supported_digest_algorithms
unfolding normalize_digest_algorithm base_algorithm sess_base get upper is_space
names-IsNormal = (
  (refl, refl),
  ((refl, refl), ((refl, refl), ((refl, refl), ((refl, refl), ((refl, refl), tt))))),
)

pub known-IsNormal : (a : List ℕ) → IsKnown a → IsNormal a
known-IsNormal a h = is_in-All IsNormal supported_digest_algorithms a names-IsNormal h

-- The names that a caller supports are known ones.
abbrev pub AllKnown : Option (List (List ℕ)) → Type 0
AllKnown none = Unit {0}
AllKnown (some names) = All IsKnown names

map-normal :
    (names : List (List ℕ))
    → All IsKnown names
    → map (λ (name : List ℕ). normalize_digest_algorithm (some name)) names ≡ names
map-normal [] h = refl
map-normal (n ∷ names) (h, hs) = rw ((known-IsNormal n h).0, map-normal names hs) refl

own-IsKnown : All IsKnown supported_digest_algorithms
own-IsKnown = (refl, (refl, (refl, (refl, (refl, (refl, tt))))))

supported-IsKnown :
    (supported : Option (List (List ℕ))) (a : List ℕ)
    → AllKnown supported
    → is_in a (supported_names supported) ≡ true
    → IsKnown a
supported-IsKnown none a h found =
    is_in-All IsKnown supported_digest_algorithms a own-IsKnown
      (ap (is_in a) (sym (map-normal supported_digest_algorithms own-IsKnown)) ∙ found)
supported-IsKnown (some names) a h found =
    is_in-All IsKnown names a h (ap (is_in a) (sym (map-normal names h)) ∙ found)

ensured :
    (known base : Bool) (name a : List ℕ)
    → raise_if
        (not known)
        unsupported_algorithm
        (raise_if (not base) unsupported_algorithm (ok name))
      ≡ ok a
    → (known ≡ true) × (name ≡ a)
ensured true true name a h = (refl, ground (arith, h))
ensured true false name a h = absurd (ground (arith, h))
ensured false base name a h = absurd (ground (arith, h))

-- An algorithm that passed the test is known, and passes it again under its own name.
pub ensure_supported_again :
    (algorithm : Option (List ℕ)) (supported : Option (List (List ℕ))) (a : List ℕ)
    → AllKnown supported
    → ensure_supported algorithm supported ≡ ok a
    → IsKnown a × (ensure_supported (some a) supported ≡ ok a)
unfolding ensure_supported
ensure_supported_again algorithm supported a all h =
    let (among, e) = ensured _ _ (normalize_digest_algorithm algorithm) a h in
    let among_a = subst (λ (n : List ℕ). is_in n (supported_names supported) ≡ true) e among in
    let known = supported-IsKnown supported a all among_a in
    (known, passes (known-IsNormal a known) among_a)
  where
    passes :
        IsNormal a
        → is_in a (supported_names supported) ≡ true
        → raise_if
            (not (is_in (normalize_digest_algorithm (some a)) (supported_names supported)))
            unsupported_algorithm
            (raise_if
              (not (
                is_some (
                  get
                    (base_algorithm (some (normalize_digest_algorithm (some a))))
                    hashlib_algorithms)))
              unsupported_algorithm
              (ok (normalize_digest_algorithm (some a))))
          ≡ ok a
    passes (normal, base) among = rw (normal) (rw (among, base) refl)

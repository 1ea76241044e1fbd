-- ===== src/Sip/Dict.antt =====
-- Dictionaries with text for keys, as association lists in the order of insertion. A key whose value
-- is `None` is one that is missing: the program reads them by `get` alone.
use rfcvoip.Prelude.{ℕ, ◌≡◌, refl, Option, none, some, List, [], ◌∷◌, if◌then◌else◌, arith}
use rfcvoip.Text.{same_text, same_text_iff}

module _ {ℓ} {V : Type ℓ} where
  -- `d.get(key)`
  unfoldable pub get : List ℕ → List (List ℕ × V) → Option V
  get key [] = none
  get key ((k, v) ∷ d) = if same_text k key then some v else get key d

  -- `d[key] = value`
  unfoldable pub put : List ℕ → V → List (List ℕ × V) → List (List ℕ × V)
  put key value [] = (key, value) ∷ []
  put key value ((k, v) ∷ d) = if same_text k key then (k, value) ∷ d else (k, v) ∷ put key value d

  pub get-put :
      (key other : List ℕ) (value : V) (d : List (List ℕ × V))
      → get other (put key value d) ≡ (if same_text key other then some value else get other d)
  unfolding get put
  get-put key other value [] = refl
  get-put key other value ((k, v) ∷ d) = ground (
    arith,
    same_text_iff k key,
    same_text_iff k other,
    same_text_iff key other,
    get-put key other value d,
  )

-- The dictionaries of digest parameters
abbrev pub Dict : Type 0
Dict = List (List ℕ × List ℕ)

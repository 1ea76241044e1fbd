-- ===== src/Prelude/Slices.antt =====
-- Laws of `take` and `drop`, which stand for Python's slices of bytes and lists.
use Prim.Native.Nat.{ℕ, zero, suc, ◌+◌, ◌-◌, ◌<◌, ◌≤◌}
use mathlib.Core.Path.{◌≡◌, refl, sym, ap, ◌∙◌}
use mathlib.Core.List.{List, [], ◌∷◌, ◌++◌}
use mathlib.Core.Option.{none}
use native.Mathlib.Omega.{arith}
use mathlib.Core.Option.{some}
use rfcvoip.Prelude.Lists.{get_elem?, length, take, drop, get_elem?}

module _ {ℓ} {A : Type ℓ} where
  -- `xs[i:j]`
  abbrev pub slice : ℕ → ℕ → List A → List A
  slice i j xs = take (j - i) (drop i xs)

  pub take-append : (xs ys : List A) → take (length xs) (xs ++ ys) ≡ xs
  take-append [] ys = refl
  take-append (x ∷ xs) ys = rw (take-append xs ys)

  pub drop-append : (xs ys : List A) → drop (length xs) (xs ++ ys) ≡ ys
  drop-append [] ys = refl
  drop-append (x ∷ xs) ys = drop-append xs ys

  pub take_all : (n : ℕ) (xs : List A) → length xs ≤ n → take n xs ≡ xs
  take_all zero [] h = refl
  take_all zero (x ∷ xs) h = elim h [ ]
  take_all (suc n) [] h = refl
  take_all (suc n) (x ∷ xs) h = rw (take_all n xs (omega arith))

  pub drop_all : (n : ℕ) (xs : List A) → length xs ≤ n → drop n xs ≡ []
  drop_all zero [] h = refl
  drop_all zero (x ∷ xs) h = elim h [ ]
  drop_all (suc n) [] h = refl
  drop_all (suc n) (x ∷ xs) h = drop_all n xs (omega arith)

  pub drop-nil : (n : ℕ) → drop {A = A} n [] ≡ []
  drop-nil zero = refl
  drop-nil (suc n) = refl

  pub drop-drop : (m n : ℕ) (xs : List A) → drop m (drop n xs) ≡ drop (n + m) xs
  drop-drop m zero xs = ap (λ (k : ℕ). drop k xs) (omega arith)
  drop-drop m (suc n) [] = drop-nil m ∙ sym (drop-nil (suc n + m))
  drop-drop m (suc n) (x ∷ xs) =
      drop-drop m n xs
      ∙ ap (λ (k : ℕ). drop k (x ∷ xs)) (let e : suc (n + m) ≡ suc n + m = omega arith in e)

  -- A part that stands at `i` is what the slice cuts out, and what follows it stands behind it.
  pub slice_at :
      (i n : ℕ) (xs ys zs : List A) → drop i xs ≡ ys ++ zs → length ys ≡ n → slice i (i + n) xs ≡ ys
  slice_at i n xs ys zs h e =
      rw (h, (let k : i + n - i ≡ length ys = omega arith in k)) (take-append ys zs)

  pub drop_after :
      (i n : ℕ) (xs ys zs : List A) → drop i xs ≡ ys ++ zs → length ys ≡ n → drop (i + n) xs ≡ zs
  drop_after i n xs ys zs h e = sym (drop-drop n i xs) ∙ (rw (h, ← e) (drop-append ys zs))

  pub get_elem?-append_last : (xs : List A) (y : A) → get_elem? (xs ++ y ∷ []) (length xs) ≡ some y
  get_elem?-append_last [] y = refl
  get_elem?-append_last (x ∷ xs) y = get_elem?-append_last xs y

  pub get_elem?-take :
      (n : ℕ) (xs : List A) (i : ℕ) → i < n → get_elem? (take n xs) i ≡ get_elem? xs i
  get_elem?-take zero xs i h = elim h [ ]
  get_elem?-take (suc n) [] i h = refl
  get_elem?-take (suc n) (x ∷ xs) zero h = refl
  get_elem?-take (suc n) (x ∷ xs) (suc i) h = get_elem?-take n xs i (omega arith)

  pub get_elem?-drop :
      (n : ℕ) (xs : List A) (i : ℕ) → get_elem? (drop n xs) i ≡ get_elem? xs (n + i)
  get_elem?-drop zero xs i = ap (get_elem? xs) (omega arith)
  get_elem?-drop (suc n) [] i = refl
  get_elem?-drop (suc n) (x ∷ xs) i =
      get_elem?-drop n xs i
      ∙ ap (get_elem? (x ∷ xs)) (let e : suc (n + i) ≡ suc n + i = omega arith in e)

  pub get_elem?-none : (xs : List A) (i : ℕ) → length xs ≤ i → get_elem? xs i ≡ none
  get_elem?-none [] i h = refl
  get_elem?-none (x ∷ xs) zero h = elim h [ ]
  get_elem?-none (x ∷ xs) (suc i) h = get_elem?-none xs i (omega arith)

  pub get_elem?-some : (xs : List A) (i : ℕ) → i < length xs → (x : A) × (get_elem? xs i ≡ some x)
  get_elem?-some [] i h = elim h [ ]
  get_elem?-some (x ∷ xs) zero h = (x, refl)
  get_elem?-some (x ∷ xs) (suc i) h = get_elem?-some xs i (omega arith)

  pub get_elem?-append_left :
      (xs ys : List A) (i : ℕ) → i < length xs → get_elem? (xs ++ ys) i ≡ get_elem? xs i
  get_elem?-append_left [] ys i h = elim h [ ]
  get_elem?-append_left (x ∷ xs) ys zero h = refl
  get_elem?-append_left (x ∷ xs) ys (suc i) h = get_elem?-append_left xs ys i (omega arith)

  pub get_elem?-append_right :
      (xs ys : List A) (i : ℕ)
      → length xs ≤ i
      → get_elem? (xs ++ ys) i ≡ get_elem? ys (i - length xs)
  get_elem?-append_right [] ys i h = ap (get_elem? ys) (omega arith)
  get_elem?-append_right (x ∷ xs) ys zero h = elim h [ ]
  get_elem?-append_right (x ∷ xs) ys (suc i) h =
      get_elem?-append_right xs ys i (omega arith)
      ∙ ap (get_elem? ys) (let e : i - length xs ≡ suc i - suc (length xs) = omega arith in e)

  pub get_elem?_bound : (xs : List A) (i : ℕ) (x : A) → get_elem? xs i ≡ some x → i < length xs
  get_elem?_bound [] i x h = cc
  get_elem?_bound (y ∷ xs) zero x h = omega arith
  get_elem?_bound (y ∷ xs) (suc i) x h = omega (arith, get_elem?_bound xs i x h)

  pub take-append_le : (n : ℕ) (xs ys : List A) → n ≤ length xs → take n (xs ++ ys) ≡ take n xs
  take-append_le zero xs ys h = refl
  take-append_le (suc n) [] ys h = elim h [ ]
  take-append_le (suc n) (x ∷ xs) ys h = rw (take-append_le n xs ys (omega arith))

  pub drop-append_le :
      (n : ℕ) (xs ys : List A) → n ≤ length xs → drop n (xs ++ ys) ≡ drop n xs ++ ys
  drop-append_le zero xs ys h = refl
  drop-append_le (suc n) [] ys h = elim h [ ]
  drop-append_le (suc n) (x ∷ xs) ys h = drop-append_le n xs ys (omega arith)

  pub take-append_ge :
      (n : ℕ) (xs ys : List A) → length xs ≤ n → take n (xs ++ ys) ≡ xs ++ take (n - length xs) ys
  take-append_ge n [] ys h = ap (λ (k : ℕ). take k ys) (omega arith)
  take-append_ge zero (x ∷ xs) ys h = elim h [ ]
  take-append_ge (suc n) (x ∷ xs) ys h =
      let e : suc n - suc (length xs) ≡ n - length xs = omega arith in
      rw (take-append_ge n xs ys (omega arith), e)

  pub drop-append_ge :
      (n : ℕ) (xs ys : List A) → length xs ≤ n → drop n (xs ++ ys) ≡ drop (n - length xs) ys
  drop-append_ge n [] ys h = ap (λ (k : ℕ). drop k ys) (omega arith)
  drop-append_ge zero (x ∷ xs) ys h = elim h [ ]
  drop-append_ge (suc n) (x ∷ xs) ys h =
      let e : suc n - suc (length xs) ≡ n - length xs = omega arith in
      rw e (drop-append_ge n xs ys (omega arith))

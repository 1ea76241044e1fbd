-- ===== src/Prelude/Members.antt =====
-- Membership in a list of numbers as a Boolean, ranges, and lists without repetition.
use Prim.Native.Nat.{ℕ, zero, suc, ◌+◌}
use mathlib.Core.Path.{◌≡◌, refl, ap, ◌∙◌}
use mathlib.Core.Logic.{inl, inr}
use mathlib.Core.Bool.{Bool, false, ◌&&◌, ◌||◌}
use mathlib.Core.List.{List, [], ◌∷◌, ◌++◌}
use native.Mathlib.Omega.{arith}
use rfcvoip.Prelude.Tests.{ltb, leb, ◌==◌, if◌then◌else◌, Bool-cases, ==_iff}
use rfcvoip.Prelude.Lists.{All}

-- `n in xs`
abbrev pub contains : ℕ → List ℕ → Bool
contains n [] = false
contains n (m ∷ ms) = n == m || contains n ms

-- `list(range(start, start + count))`
abbrev pub range_from : ℕ → ℕ → List ℕ
range_from start zero = []
range_from start (suc count) = start ∷ range_from (suc start) count

-- `[x for x in xs if p(x)]`
abbrev pub filter {ℓ} : {A : Type ℓ} → (A → Bool) → List A → List A
filter p [] = []
filter p (x ∷ xs) = if p x then x ∷ filter p xs else filter p xs

-- `xs.remove(n)` of a list that may contain `n`
abbrev pub remove : ℕ → List ℕ → List ℕ
remove n [] = []
remove n (m ∷ ms) = if n == m then ms else m ∷ remove n ms

abbrev pub IsDistinct : List ℕ → Type 0
IsDistinct [] = Unit
IsDistinct (x ∷ xs) = (contains x xs ≡ false) × IsDistinct xs

pub contains-append :
    (n : ℕ) (xs ys : List ℕ) → contains n (xs ++ ys) ≡ (contains n xs || contains n ys)
contains-append n [] ys = refl
contains-append n (x ∷ xs) ys = ground (arith, contains-append n xs ys)

pub contains-range :
    (n start count : ℕ)
    → contains n (range_from start count) ≡ (leb start n && ltb n (start + count))
contains-range n start zero = ground arith
contains-range n start (suc count) = ground (arith, contains-range n (suc start) count)

pub contains-remove_other :
    (n m : ℕ) (xs : List ℕ) → (n == m) ≡ false → contains n (remove m xs) ≡ contains n xs
contains-remove_other n m [] h = refl
contains-remove_other n m (x ∷ xs) h = ground (arith, contains-remove_other n m xs h)

pub contains-remove_self : (n : ℕ) (xs : List ℕ) → IsDistinct xs → contains n (remove n xs) ≡ false
contains-remove_self n [] h = refl
contains-remove_self n (x ∷ xs) (hx, hs) = elim (Bool-cases (n == x)) [
  | inl same ↦ rw same (ap (λ (k : ℕ). contains k xs) ((==_iff n x).0 same) ∙ hx)
  | inr other ↦
      rw (other)
        (ap (λ (b : Bool). b || contains n (remove n xs)) other ∙ contains-remove_self n xs hs)
]

pub remove-IsDistinct : (n : ℕ) (xs : List ℕ) → IsDistinct xs → IsDistinct (remove n xs)
remove-IsDistinct n [] h = tt
remove-IsDistinct n (x ∷ xs) (hx, hs) = elim (Bool-cases (n == x)) [
  | inl same ↦ rw same hs
  | inr other ↦
      rw other
        (contains-remove_other x n xs (ground (arith, other)) ∙ hx, remove-IsDistinct n xs hs)
]

pub range-IsDistinct : (start count : ℕ) → IsDistinct (range_from start count)
range-IsDistinct start zero = tt
range-IsDistinct start (suc count) =
    (contains-range start (suc start) count ∙ ground arith, range-IsDistinct (suc start) count)

pub append-IsDistinct :
    (xs ys : List ℕ)
    → IsDistinct xs
    → IsDistinct ys
    → All (λ x. contains x ys ≡ false) xs
    → IsDistinct (xs ++ ys)
append-IsDistinct [] ys hx hy apart = hy
append-IsDistinct (x ∷ xs) ys (h, hs) hy (a, rest) =
    (contains-append x xs ys ∙ ground (arith, h, a), append-IsDistinct xs ys hs hy rest)

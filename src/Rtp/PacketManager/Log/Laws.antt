-- ===== src/Rtp/PacketManager/Log/Laws.antt =====
-- Lookups, updates and the bytes shown by a log whose entries do not meet.
use rfcvoip.Prelude.{
  ℕ, ◌+◌, ◌-◌, ◌≤◌, ◌<◌, ◌≡◌, refl, inl, inr, ◌≢◌, true, none, some, List, [], ◌∷◌, length,
  get_elem?, if◌then◌else◌, arith, get_elem?-some, max,
}
use native.Mathlib.Decide.{dec_le}
use rfcvoip.Rtp.PacketManager.Log.{
  PacketLog, lookup, set, erase, covers, view, Apart, Free, IsDisjoint,
}

-- Nothing is shown in a free interval.
pub view-Free : (a b p : ℕ) (m : PacketLog) → Free a b m → a ≤ p → p < b → view m p ≡ none
view-Free a b p [] f h k = refl
view-Free a b p (e ∷ m) f h k = ground (arith, view-Free a b p m f.1 h k)

pub Apart-lookup :
    (a b k : ℕ) (d : List ℕ) (m : PacketLog) → Free a b m → lookup k m ≡ some d → Apart a b (k, d)
Apart-lookup a b k d [] f h = cc
Apart-lookup a b k d ((j, w) ∷ m) f h = ground (arith, Apart-lookup a b k d m f.1)

pub length-lookup :
    (k : ℕ) (d : List ℕ) (m : PacketLog) → IsDisjoint m → lookup k m ≡ some d → 0 < length d
length-lookup k d [] f h = cc
length-lookup k d ((j, w) ∷ m) f h = ground (arith, length-lookup k d m f.2)

pub Free-erase : (a b k : ℕ) (m : PacketLog) → Free a b m → Free a b (erase k m)
Free-erase a b k [] f = tt
Free-erase a b k ((j, w) ∷ m) f = ground (arith, Free-erase a b k m f.1)

pub Free-erase_self :
    (k : ℕ) (d : List ℕ) (m : PacketLog)
    → IsDisjoint m
    → lookup k m ≡ some d
    → Free k (k + length d) (erase k m)
Free-erase_self k d [] f h = tt
Free-erase_self k d ((j, w) ∷ m) f h =
    ground (arith, Free-erase_self k d m f.2, Apart-lookup j (j + length w) k d m f.1)

pub IsDisjoint-erase : (k : ℕ) (m : PacketLog) → IsDisjoint m → IsDisjoint (erase k m)
IsDisjoint-erase k [] f = tt
IsDisjoint-erase k ((j, w) ∷ m) f =
    ground (arith, IsDisjoint-erase k m f.2, Free-erase j (j + length w) k m f.1)

pub view-erase :
    (k : ℕ) (d : List ℕ) (m : PacketLog) (p : ℕ)
    → IsDisjoint m
    → lookup k m ≡ some d
    → view (erase k m) p ≡ (if covers k d p then none else view m p)
view-erase k d [] p f h = cc
view-erase k d ((j, w) ∷ m) p f h = ground (
  arith,
  view-erase k d m p f.2,
  view-Free j (j + length w) p m f.1,
  Apart-lookup j (j + length w) k d m f.1,
)

pub lookup-erase_ne :
    (k j : ℕ) (d : List ℕ) (m : PacketLog)
    → k ≢ j
    → lookup j m ≡ some d
    → lookup j (erase k m) ≡ some d
lookup-erase_ne k j d [] ne h = h
lookup-erase_ne k j d ((i, w) ∷ m) ne h = ground (arith, lookup-erase_ne k j d m ne)

pub Free-set :
    (a b k : ℕ) (v : List ℕ) (m : PacketLog) → Free a b m → Apart a b (k, v) → Free a b (set k v m)
Free-set a b k v [] f h = (h, tt)
Free-set a b k v ((j, w) ∷ m) f h = ground (arith, Free-set a b k v m f.1 h)

module _ (k : ℕ) (v : List ℕ) (filled : 0 < length v) where
  pub IsDisjoint-set :
      (m : PacketLog) → IsDisjoint m → Free k (k + length v) m → IsDisjoint (set k v m)
  IsDisjoint-set [] f g = (filled, tt, tt)
  IsDisjoint-set ((j, w) ∷ m) f g =
      ground (arith, IsDisjoint-set m f.2 g.1, Free-set j (j + length w) k v m f.1)

  pub view-set :
      (m : PacketLog) (p : ℕ)
      → IsDisjoint m
      → Free k (k + length v) m
      → view (set k v m) p ≡ (if covers k v p then get_elem? v (p - k) else view m p)
  view-set [] p f g = refl
  view-set ((j, w) ∷ m) p f g = ground (arith, view-set m p f.2 g.1)

  pub lookup-set-Free :
      (j : ℕ) (d : List ℕ) (m : PacketLog)
      → IsDisjoint m
      → Free k (k + length v) m
      → lookup j m ≡ some d
      → lookup j (set k v m) ≡ some d
  lookup-set-Free j d [] f g h = cc
  lookup-set-Free j d ((i, w) ∷ m) f g h = ground (arith, lookup-set-Free j d m f.2 g.1)

  pub lookup-set_self :
      (m : PacketLog) → IsDisjoint m → Free k (k + length v) m → lookup k (set k v m) ≡ some v
  lookup-set_self [] f g = ground arith
  lookup-set_self ((i, w) ∷ m) f g = ground (arith, lookup-set_self m f.2 g.1)

pub view-lookup :
    (k : ℕ) (d : List ℕ) (m : PacketLog) (p : ℕ)
    → IsDisjoint m
    → lookup k m ≡ some d
    → covers k d p ≡ true
    → view m p ≡ get_elem? d (p - k)
view-lookup k d [] p f h c = cc
view-lookup k d ((j, w) ∷ m) p f h c =
    ground (arith, view-lookup k d m p f.2, Apart-lookup j (j + length w) k d m f.1)

pub Free-shrink : (a b a' b' : ℕ) (m : PacketLog) → Free a b m → a ≤ a' → b' ≤ b → Free a' b' m
Free-shrink a b a' b' [] f h k = tt
Free-shrink a b a' b' (e ∷ m) f h k = (omega arith, Free-shrink a b a' b' m f.1 h k)

-- An entry that meets an interval shows a byte in it.
shown_byte :
    (a b o : ℕ) (d : List ℕ) (m : PacketLog)
    → a < o + length d
    → o < b
    → a < b
    → 0 < length d
    → ((p : ℕ) → a ≤ p → p < b → view ((o, d) ∷ m) p ≡ none)
    → ⊥
shown_byte a b o d m h k lt filled silent =
    let (x, e) = get_elem?-some d (max a o - o) (omega arith) in
    ground (arith, silent (max a o) (omega arith) (omega arith), e)

-- Where nothing is shown no entry stands.
pub Free-of_view :
    (a b : ℕ) (m : PacketLog)
    → a < b
    → IsDisjoint m
    → ((p : ℕ) → a ≤ p → p < b → view m p ≡ none)
    → Free a b m
Free-of_view a b [] lt f h = tt
Free-of_view a b ((o, d) ∷ m) lt f h =
    let apart : Apart a b (o, d) = elim (dec_le (o + length d) a) [
      | yes l ↦ inl l
      | no l ↦ elim (dec_le b o) [
        | yes r ↦ inr r
        | no r ↦ absurd (shown_byte a b o d m (omega arith) (omega arith) lt f.0 h)
      ]
    ] in
    (apart, Free-of_view a b m lt f.2 (λ p hp hq. ground (arith, h p hp hq)))

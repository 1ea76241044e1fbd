-- ===== src/Voip/Ports/Starts.antt =====
-- The free blocks of the pool, and the block that is assigned.
use native.Mathlib.Nat.{mod-lt}
use rfcvoip.Prelude.{
  ℕ, zero, suc, ◌+◌, ◌-◌, ◌%◌, ◌≤◌, ◌≡◌, refl, sym, ap, ◌∙◌, Bool, true, false, ◌&&◌, Option, none,
  some, inl, inr, ◌⊎◌, List, [], ◌∷◌, ◌++◌, length, get_elem?, get_elem?-some, contains,
  contains-range, range_from, filter, ltb, le→ltb, lt→ltb, le→leb, ◌==◌, arith, Bool-cases,
  Option-cases, ==_iff,
}
use rfcvoip.Voip.Ports.{Phone, is_free, available_starts, choose, assign_block, try_assign}

-- A block of `count` ports inside the range of the pool, none of which is assigned.
pub record IsFreeBlock (p : Phone) (count start : ℕ) : Type 0 where
  pub above : p.rtp_port_low ≤ start
  pub below : start + count ≤ p.rtp_port_high + 1
  pub free : is_free (range_from start count) p.assigned ≡ true

contains-filter :
    (f : ℕ → Bool) (n : ℕ) (xs : List ℕ) → contains n (filter f xs) ≡ (contains n xs && f n)
contains-filter f n [] = refl
contains-filter f n (x ∷ xs) = elim (Bool-cases (n == x)) [
  | inl same ↦ ground (arith, contains-filter f n xs, ap f ((==_iff n x).0 same))
  | inr other ↦ ground (arith, contains-filter f n xs, other)
]

-- The starts listed are those of the free blocks.
pub available_starts-IsFreeBlock :
    (count start : ℕ) (p : Phone)
    → contains start (available_starts (suc count) p) ≡ true
    → IsFreeBlock p (suc count) start
unfolding available_starts
available_starts-IsFreeBlock count start p h =
    elim (Bool-cases (ltb (p.rtp_port_high - p.rtp_port_low + 1) (suc count))) [
      | inl large ↦
          let nothing : false ≡ true = sym (rw large) ∙ h in absurd (ground (arith, nothing))
      | inr fits ↦
          let range =
            contains-range start p.rtp_port_low
              (p.rtp_port_high + 2 - suc count - p.rtp_port_low) in
          let f = λ (s : ℕ). is_free (range_from s (suc count)) p.assigned in
          let listed : (contains start
                  (range_from p.rtp_port_low (p.rtp_port_high + 2 - suc count - p.rtp_port_low))
                && f start)
              ≡ true =
            sym (contains-filter f start _) ∙ (sym (rw fits) ∙ h) in
          record {
            above = ground (arith, listed, range);
            below = ground (arith, listed, range);
            free = ground (arith, listed);
          }
    ]

pub IsFreeBlock-available_starts :
    (count start : ℕ) (p : Phone)
    → IsFreeBlock p (suc count) start
    → contains start (available_starts (suc count) p) ≡ true
unfolding available_starts
IsFreeBlock-available_starts count start p h =
    let f = λ (s : ℕ). is_free (range_from s (suc count)) p.assigned in
    let fits : ltb (p.rtp_port_high - p.rtp_port_low + 1) (suc count) ≡ false =
      le→ltb _ _ (omega (arith, h.above, h.below)) in
    let low = le→leb p.rtp_port_low start h.above in
    let high =
      lt→ltb start (p.rtp_port_low + (p.rtp_port_high + 2 - suc count - p.rtp_port_low))
        (omega (arith, h.above, h.below)) in
    rw fits (
      contains-filter f start _
      ∙ ap (λ (b : Bool). b && f start) (contains-range start p.rtp_port_low _)
      ∙ ap
          (λ (b : Bool).
            (b && ltb start (p.rtp_port_low + (p.rtp_port_high + 2 - suc count - p.rtp_port_low)))
            && f start)
          low
      ∙ ap (λ (b : Bool). b && f start) high
      ∙ h.free)

contains_at : (xs : List ℕ) (i x : ℕ) → get_elem? xs i ≡ some x → contains x xs ≡ true
contains_at [] i x h = absurd (ground (arith, h))
contains_at (y ∷ xs) zero x h = ground (arith, h)
contains_at (y ∷ xs) (suc i) x h = ground (arith, contains_at xs i x h)

-- A choice is one of the starts, and there is one if there is a start.
choose-some :
    (choice start : ℕ) (starts : List ℕ)
    → choose choice starts ≡ some start
    → contains start starts ≡ true
choose-some choice start starts h = contains_at starts (choice % length starts) start h

choose-none :
    (choice start : ℕ) (starts : List ℕ)
    → choose choice starts ≡ none
    → contains start starts ≡ false
choose-none choice start [] h = refl
choose-none choice start (s ∷ starts) h =
    let (x, e) =
      get_elem?-some (s ∷ starts) (choice % length (s ∷ starts)) (mod-lt choice (omega arith)) in
    absurd (ground (arith, h, e))

-- The pool has a free block of `count` ports.
abbrev pub HasBlock : Phone → ℕ → Type 0
HasBlock p count = (start : ℕ) × IsFreeBlock p count start

-- `p'` is `p` with a free block of `count` ports assigned, which are `ports`.
pub record IsGranted (p p' : Phone) (count : ℕ) (ports : List ℕ) : Type 0 where
  pub start : ℕ
  pub block : IsFreeBlock p count start
  pub listed : ports ≡ range_from start count
  pub assigned : p' ≡ record p { assigned = p.assigned ++ ports }

-- A free block is assigned if there is one, whatever the choice.
pub try_assign-cases :
    (choice count : ℕ) (p : Phone)
    → ((ports : List ℕ) × (p' : Phone) × (try_assign choice (suc count) p ≡ some (ports, p'))
        × IsGranted p p' (suc count) ports)
      ⊎ ((try_assign choice (suc count) p ≡ none) × ¬ HasBlock p (suc count))
unfolding try_assign
try_assign-cases choice count p =
    elim (Option-cases (choose choice (available_starts (suc count) p))) [
      | inl full ↦ inr (
        ap (λ (o : Option ℕ). assign_block o (suc count) p) full,
        λ (start, block).
            let listed = IsFreeBlock-available_starts count start p block in
            let unlisted = choose-none choice start (available_starts (suc count) p) full in
            let nothing : false ≡ true = sym unlisted ∙ listed in absurd (ground (arith, nothing)),
      )
      | inr (start, chosen) ↦ inl (
        range_from start (suc count),
        record p { assigned = p.assigned ++ range_from start (suc count) },
        ap (λ (o : Option ℕ). assign_block o (suc count) p) chosen,
        record {
          start = start;
          block =
              available_starts-IsFreeBlock count start p
                (choose-some choice start (available_starts (suc count) p) chosen);
          listed = refl;
          assigned = refl;
        },
      )
    ]

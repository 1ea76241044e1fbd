-- ===== src/Voip/Ports/Request.antt =====
-- A turn of `request_ports` as a whole: what it grants and what it refuses.
use mathlib.Core.Path.{subst}
use rfcvoip.Prelude.{
  ℕ, suc, ◌≡◌, refl, sym, ap, Bool, Option, none, some, inl, inr, ◌⊎◌, List, if◌then◌else◌,
}
use rfcvoip.Voip.Ports.{
  Phone, Outcome, granted, refused, no_ports_available, reclaim, or_wait, or_reclaimed, Turn,
  request_turn,
}
use rfcvoip.Voip.Ports.Starts.{HasBlock, IsGranted, try_assign-cases}

-- The ports granted were free in the pool as it was, or as it is once the ended calls are reclaimed.
abbrev pub IsServed : Phone → ℕ → Option (Outcome (List ℕ)) × Phone → Type 0
IsServed p count (o, p') =
    (ports : List ℕ) × (o ≡ some (granted ports))
    × (IsGranted p p' count ports ⊎ IsGranted (reclaim p) p' count ports)

-- There is no free block, and reclaiming the ended calls does not give one; the request waits or is
-- refused.
abbrev pub IsDenied : Phone → ℕ → Bool → Option (Outcome (List ℕ)) × Phone → Type 0
IsDenied p count waits (o, p') =
    (¬ HasBlock p count)
    × (¬ HasBlock (reclaim p) count)
    × (o ≡ (if waits then none else some (refused no_ports_available)))
    × (p' ≡ reclaim p)

-- A turn of the loop of `request_ports` for a positive count either grants a block of consecutive
-- ports inside the range, none of which was assigned before the call or behind the release of ended
-- calls, and adds it to the assigned ports; or no block of that size is free, before or behind that
-- release, and the turn waits if it may, and is refused otherwise.
pub request_turn-cases :
    (t : Turn) (count : ℕ) (p : Phone)
    → IsServed p (suc count) (request_turn t (suc count) p)
      ⊎ IsDenied p (suc count) t.waits (request_turn t (suc count) p)
unfolding request_turn
request_turn-cases t count p =
    let answer = λ (r : Option (Outcome (List ℕ)) × Phone).
      IsServed p (suc count) r ⊎ IsDenied p (suc count) t.waits r in
    let reclaimed = λ (o : Option (List ℕ × Phone)). or_wait o t.waits (reclaim p) in
    elim (try_assign-cases t.first_choice count p) [
      | inl (ports, p', found, block) ↦
          subst answer
            (sym (
              ap
                (λ (o : Option (List ℕ × Phone)).
                  or_reclaimed o t.second_choice (suc count) t.waits p)
                found))
            (inl (ports, refl, inl block))
      | inr (full, no_block) ↦
          subst answer
            (sym (
              ap
                (λ (o : Option (List ℕ × Phone)).
                  or_reclaimed o t.second_choice (suc count) t.waits p)
                full))
            (elim (try_assign-cases t.second_choice count (reclaim p)) [
              | inl (ports, p', found, block) ↦
                  subst answer (sym (ap reclaimed found)) (inl (ports, refl, inr block))
              | inr (still, no_block') ↦
                  subst answer (sym (ap reclaimed still)) (inr (no_block, no_block', refl, refl))
            ])
    ]

-- ===== src/Voip/Ports/Pool.antt =====
-- The assigned ports of the pool under each of its calls.
use rfcvoip.Prelude.{
  ℕ, ◌≤◌, Option, some, inl, inr, List, [], ◌∷◌, contains, remove, IsDistinct, remove-IsDistinct,
  All, ◌==◌, Bool-cases,
}
use rfcvoip.Voip.Ports.{
  Call, Phone, cleanup_dead_calls, release_each, release_ports, finalize_ended_call, reclaim_each,
  reclaim,
}

abbrev pub IsInside : ℕ → ℕ → ℕ → Type 0
IsInside low high port = (low ≤ port) × (port ≤ high)

-- Every port is assigned once, and is in the range of the pool.
pub record IsPool (p : Phone) : Type 0 where
  pub distinct : IsDistinct p.assigned
  pub inside : All (IsInside p.rtp_port_low p.rtp_port_high) p.assigned

remove-All : (P : ℕ → Type 0) (n : ℕ) (xs : List ℕ) → All P xs → All P (remove n xs)
remove-All P n [] h = tt
remove-All P n (x ∷ xs) (hx, hs) = elim (Bool-cases (n == x)) [
  | inl same ↦ rw same hs
  | inr other ↦ rw other (hx, remove-All P n xs hs)
]

release_each-IsDistinct :
    (ports assigned : List ℕ) → IsDistinct assigned → IsDistinct (release_each ports assigned)
unfolding release_each
release_each-IsDistinct [] assigned h = h
release_each-IsDistinct (port ∷ ports) assigned h =
    release_each-IsDistinct ports _ (elim (Bool-cases (contains port assigned)) [
      | inl here ↦ rw here (remove-IsDistinct port assigned h)
      | inr away ↦ rw away h
    ])

release_each-All :
    (P : ℕ → Type 0) (ports assigned : List ℕ)
    → All P assigned
    → All P (release_each ports assigned)
unfolding release_each
release_each-All P [] assigned h = h
release_each-All P (port ∷ ports) assigned h =
    release_each-All P ports _ (elim (Bool-cases (contains port assigned)) [
      | inl here ↦ rw here (remove-All P port assigned h)
      | inr away ↦ rw away h
    ])

pub release_ports-IsPool :
    (call : Option (List ℕ)) (p : Phone) → IsPool p → IsPool (release_ports call p)
unfolding release_ports cleanup_dead_calls
release_ports-IsPool call p h = record {
  distinct = release_each-IsDistinct _ p.assigned h.distinct;
  inside = release_each-All (IsInside p.rtp_port_low p.rtp_port_high) _ p.assigned h.inside;
}

pub finalize-IsPool : (c : Call) (p : Phone) → IsPool p → IsPool (finalize_ended_call c p)
unfolding finalize_ended_call
finalize-IsPool c p h = elim (Bool-cases c.finalized) [
  | inl already ↦ simp already h
  | inr first ↦
      let released = release_ports-IsPool (some c.assigned_ports) p h in
      simp first (record { distinct = released.distinct; inside = released.inside })
]

reclaim_each-IsPool : (cs : List Call) (p : Phone) → IsPool p → IsPool (reclaim_each cs p)
unfolding reclaim_each
reclaim_each-IsPool [] p h = h
reclaim_each-IsPool (c ∷ cs) p h = reclaim_each-IsPool cs _ (elim (Bool-cases c.ended) [
  | inl ended ↦ simp ended (finalize-IsPool c p h)
  | inr active ↦ simp active h
])

pub reclaim-IsPool : (p : Phone) → IsPool p → IsPool (reclaim p)
unfolding reclaim
reclaim-IsPool p h = reclaim_each-IsPool p.calls p h

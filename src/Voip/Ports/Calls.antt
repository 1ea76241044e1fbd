-- ===== src/Voip/Ports/Calls.antt =====
-- Sequences of calls of the pool, and of the locked steps that they are made of, so that the steps
-- of threads may alternate; and the release of a granted request.
use mathlib.Core.Path.{subst}
use rfcvoip.Prelude.{
  ℕ, zero, suc, ◌+◌, ◌-◌, ◌≤◌, ◌≡◌, refl, sym, ap, ◌∙◌, Bool, true, false, ◌&&◌, ◌||◌, not, Option,
  none, some, inl, inr, List, [], ◌∷◌, ◌++◌, contains, remove, range_from, IsDistinct,
  range-IsDistinct, append-IsDistinct, All, All-append, ltb, ◌==◌, arith, append-nil, Bool-cases,
  ==_self,
}
use rfcvoip.Prelude.Int.{ℤ, pos, negsuc}
use rfcvoip.Voip.Ports.{
  Phone, Call, Outcome, try_assign, finalize_ended_call, is_free, reclaim, cleanup_dead_calls,
  release_each, release_ports, Turn, request_turn, or_next, request_turns, request_ports,
  is_distinct, may_reserve, reserve_each, reserve_ports,
}
use rfcvoip.Voip.Ports.Starts.{IsGranted, try_assign-cases}
use rfcvoip.Voip.Ports.Request.{request_turn-cases}
use rfcvoip.Voip.Ports.Pool.{
  IsInside, IsPool, finalize-IsPool, release_ports-IsPool, reclaim-IsPool,
}

is_free_cons :
    (x : ℕ) (ports assigned : List ℕ)
    → is_free ports (x ∷ assigned) ≡ (not (contains x ports) && is_free ports assigned)
is_free_cons x [] assigned = refl
is_free_cons x (port ∷ ports) assigned = ground (arith, is_free_cons x ports assigned)

is_free_apart :
    (ports assigned : List ℕ)
    → is_free ports assigned ≡ true
    → All (λ x. contains x ports ≡ false) assigned
is_free_apart ports [] h = tt
is_free_apart ports (x ∷ assigned) h =
    let both = sym (is_free_cons x ports assigned) ∙ h in
    (ground (arith, both), is_free_apart ports assigned (ground (arith, both)))

range_inside :
    (low high start count : ℕ)
    → low ≤ start
    → start + count ≤ high + 1
    → All (IsInside low high) (range_from start count)
range_inside low high start zero above below = tt
range_inside low high start (suc count) above below = (
  (above, omega (arith, below)),
  range_inside low high (suc start) count (omega (arith, above)) (omega (arith, below)),
)

IsGranted-IsPool :
    (p p' : Phone) (count : ℕ) (ports : List ℕ) → IsPool p → IsGranted p p' count ports → IsPool p'
IsGranted-IsPool p p' count ports h g =
    let block = range_from g.start count in
    subst IsPool
      (sym (g.assigned ∙ ap (λ (ps : List ℕ). record p { assigned = p.assigned ++ ps }) g.listed))
      (record {
        distinct =
            append-IsDistinct p.assigned block h.distinct (range-IsDistinct g.start count)
              (is_free_apart block p.assigned g.block.free);
        inside =
            All-append (IsInside p.rtp_port_low p.rtp_port_high) p.assigned block h.inside (
              range_inside p.rtp_port_low p.rtp_port_high g.start count g.block.above
                g.block.below);
      })

request_turn-IsPool :
    (t : Turn) (count : ℕ) (p : Phone) → IsPool p → IsPool (request_turn t (suc count) p).1
request_turn-IsPool t count p h = elim (request_turn-cases t count p) [
  | inl (ports, served, inl g) ↦ IsGranted-IsPool p _ (suc count) ports h g
  | inl (ports, served, inr g) ↦
      IsGranted-IsPool (reclaim p) _ (suc count) ports (reclaim-IsPool p h) g
  | inr (no_block, no_block', denied, left) ↦ subst IsPool (sym left) (reclaim-IsPool p h)
]

or_next-IsPool :
    (r : Option (Outcome (List ℕ)) × Phone) (next : Phone → Option (Outcome (List ℕ)) × Phone)
    → IsPool r.1
    → ((p : Phone) → IsPool p → IsPool (next p).1)
    → IsPool (or_next r next).1
or_next-IsPool (none, p) next h k = k p h
or_next-IsPool (some o, p) next h k = h

request_turns-IsPool :
    (ts : List Turn) (count : ℕ) (p : Phone) → IsPool p → IsPool (request_turns ts (suc count) p).1
unfolding request_turns
request_turns-IsPool [] count p h = h
request_turns-IsPool (t ∷ ts) count p h =
    or_next-IsPool (request_turn t (suc count) p) (request_turns ts (suc count))
      (request_turn-IsPool t count p h) (request_turns-IsPool ts count)

request_ports-IsPool :
    (ts : List Turn) (count : ℤ) (p : Phone) → IsPool p → IsPool (request_ports ts count p).1
unfolding request_ports
request_ports-IsPool ts (negsuc n) p h = h
request_ports-IsPool ts (pos zero) p h = h
request_ports-IsPool ts (pos (suc n)) p h =
    elim (Bool-cases (ltb (p.rtp_port_high - p.rtp_port_low + 1) (suc n))) [
      | inl large ↦ simp large h
      | inr fits ↦ simp fits (request_turns-IsPool ts n p h)
    ]

reserve_each-IsDistinct :
    (ports assigned : List ℕ) → IsDistinct assigned → IsDistinct (reserve_each ports assigned)
unfolding reserve_each
reserve_each-IsDistinct [] assigned h = h
reserve_each-IsDistinct (port ∷ ports) assigned h =
    reserve_each-IsDistinct ports _ (elim (Bool-cases (contains port assigned)) [
      | inl here ↦ rw here h
      | inr away ↦ rw away (
          append-IsDistinct assigned (port ∷ []) h (refl, tt)
            (is_free_apart (port ∷ []) assigned (ap (λ (b : Bool). not b && true) away)))
    ])

reserve_each-All :
    (P : ℕ → Type 0) (ports assigned : List ℕ)
    → All P ports
    → All P assigned
    → All P (reserve_each ports assigned)
unfolding reserve_each
reserve_each-All P [] assigned hs h = h
reserve_each-All P (port ∷ ports) assigned (hp, hs) h =
    reserve_each-All P ports _ hs (elim (Bool-cases (contains port assigned)) [
      | inl here ↦ rw here h
      | inr away ↦ rw away (All-append P assigned (port ∷ []) h (hp, tt))
    ])

may_reserve-IsInside :
    (low high : ℕ) (assigned allowed ports : List ℕ)
    → may_reserve low high assigned allowed ports ≡ true
    → All (IsInside low high) ports
may_reserve-IsInside low high assigned allowed [] h = tt
may_reserve-IsInside low high assigned allowed (port ∷ ports) h = (
  (ground (arith, h), ground (arith, h)),
  may_reserve-IsInside low high assigned allowed ports (ground (arith, h)),
)

reserve_ports-IsPool :
    (ports allowed : List ℕ) (p : Phone) → IsPool p → IsPool (reserve_ports ports allowed p).1
unfolding reserve_ports
reserve_ports-IsPool ports allowed p h =
    let may = may_reserve p.rtp_port_low p.rtp_port_high p.assigned allowed ports in
    elim (Bool-cases (not (is_distinct ports) || not may)) [
      | inl refusal ↦ simp refusal h
      | inr allowed_all ↦
          let inside =
            may_reserve-IsInside p.rtp_port_low p.rtp_port_high p.assigned allowed ports
              (ground (arith, allowed_all)) in
          simp allowed_all (record {
            distinct = reserve_each-IsDistinct ports p.assigned h.distinct;
            inside =
                reserve_each-All (IsInside p.rtp_port_low p.rtp_port_high) ports p.assigned inside
                  h.inside;
          })
    ]

-- A call without interruption, or a step of `request_ports` under the lock: a look for a free block of
-- a positive count, or the end of a call.
pub data PoolCall : Type 0 where
  look_step : (choice count : ℕ) → PoolCall
  finalize_step : Call → PoolCall
  request_call : List Turn → ℤ → PoolCall
  reserve_call : (ports allow_existing : List ℕ) → PoolCall
  release_call : Option (List ℕ) → PoolCall

-- The pool behind a look
abbrev pub after_look : Option (List ℕ × Phone) → Phone → Phone
after_look none p = p
after_look (some (ports, p')) p = p'

pub perform : PoolCall → Phone → Phone
perform (look_step choice count) p = after_look (try_assign choice (suc count) p) p
perform (finalize_step c) p = finalize_ended_call c p
perform (request_call turns count) p = (request_ports turns count p).1
perform (reserve_call ports allow_existing) p = (reserve_ports ports allow_existing p).1
perform (release_call call) p = release_ports call p

pub perform_all : List PoolCall → Phone → Phone
perform_all [] p = p
perform_all (c ∷ cs) p = perform_all cs (perform c p)

perform-IsPool : (c : PoolCall) (p : Phone) → IsPool p → IsPool (perform c p)
unfolding perform
perform-IsPool (look_step choice count) p h = elim (try_assign-cases choice count p) [
  | inl (ports, p', found, g) ↦ rw found (IsGranted-IsPool p p' (suc count) ports h g)
  | inr (full, no_block) ↦ rw full h
]
perform-IsPool (finalize_step c) p h = finalize-IsPool c p h
perform-IsPool (request_call turns count) p h = request_ports-IsPool turns count p h
perform-IsPool (reserve_call ports allow_existing) p h =
    reserve_ports-IsPool ports allow_existing p h
perform-IsPool (release_call call) p h = release_ports-IsPool call p h

-- Whatever ports are requested, reserved and released, in any order and with whatever outcomes, also
-- when other threads' calls come between the looks and the releases of a request, a pool whose
-- assigned ports are distinct and in its range stays such a pool.
pub perform_all-IsPool : (cs : List PoolCall) (p : Phone) → IsPool p → IsPool (perform_all cs p)
unfolding perform_all
perform_all-IsPool [] p h = h
perform_all-IsPool (c ∷ cs) p h = perform_all-IsPool cs (perform c p) (perform-IsPool c p h)

contains_middle : (n : ℕ) (xs ys : List ℕ) → contains n (xs ++ n ∷ ys) ≡ true
contains_middle n [] ys = ap (λ (b : Bool). b || contains n ys) (==_self n)
contains_middle n (x ∷ xs) ys = ground (arith, contains_middle n xs ys)

remove_middle :
    (n : ℕ) (xs ys : List ℕ) → contains n xs ≡ false → remove n (xs ++ n ∷ ys) ≡ xs ++ ys
remove_middle n [] ys h = rw (==_self n)
remove_middle n (x ∷ xs) ys h =
    let other : (n == x) ≡ false = ground (arith, h) in
    rw other (ap (λ (r : List ℕ). x ∷ r) (remove_middle n xs ys (ground (arith, h))))

release_each-append :
    (ports assigned : List ℕ)
    → is_free ports assigned ≡ true
    → release_each ports (assigned ++ ports) ≡ assigned
unfolding release_each
release_each-append [] assigned h = append-nil assigned
release_each-append (port ∷ ports) assigned h =
    let away : contains port assigned ≡ false = ground (arith, h) in
    rw (contains_middle port assigned ports, remove_middle port assigned ports away)
      (release_each-append ports assigned (ground (arith, h)))

-- The ports of a granted request, released for their call, leave the assigned ports as they were
-- before the grant, in the same order.
pub release_ports-granted :
    (p p' : Phone) (count : ℕ) (ports : List ℕ)
    → IsGranted p p' count ports
    → (release_ports (some ports) p').assigned ≡ p.assigned
unfolding release_ports cleanup_dead_calls
release_ports-granted p p' count ports g =
    ap (λ (q : Phone). release_each ports q.assigned) g.assigned
    ∙ release_each-append ports p.assigned
        (ap (λ (ps : List ℕ). is_free ps p.assigned) g.listed ∙ g.block.free)

-- ===== src/Voip/Ports/Tests.antt =====
-- The pool at a small range, and the theorems about it there.
use rfcvoip.Prelude.{◌≡◌, refl, ◌⊎◌, true, false, none, some, [], ◌∷◌, arith}
use rfcvoip.Prelude.Int.{pos}
use rfcvoip.Voip.Ports.{
  Phone, granted, Turn, request_turn, request_ports, request_turns, try_assign, available_starts,
  reclaim, reclaim_each, finalize_ended_call, release_ports, release_each, cleanup_dead_calls,
}
use rfcvoip.Voip.Ports.Starts.{IsGranted}
use rfcvoip.Voip.Ports.Request.{IsServed, IsDenied, request_turn-cases}
use rfcvoip.Voip.Ports.Pool.{IsPool}
use rfcvoip.Voip.Ports.Calls.{
  request_call, reserve_call, release_call, perform_all, perform_all-IsPool, release_ports-granted,
}

-- Four ports, two of which an ended call still holds.
abbrev small_pool : Phone
small_pool = record {
  rtp_port_low = 10000;
  rtp_port_high = 10003;
  assigned = 10001 ∷ 10002 ∷ [];
  calls =
      record { call_id = 1; ended = true; finalized = false; assigned_ports = 10001 ∷ 10002 ∷ [] }
      ∷ [];
  threads = [];
}

small_pool-IsPool : IsPool small_pool
small_pool-IsPool = record { distinct = (refl, (refl, tt)); inside = omega arith }

abbrev one_turn : Turn
one_turn = record { first_choice = 0; second_choice = 5; waits = false }

-- Three ports in a row are free once the ended call is reclaimed; the choice is the second of two.
reclaims_ports :
    (request_ports (one_turn ∷ []) (pos 3) small_pool).0
    ≡ some (granted (10001 ∷ 10002 ∷ 10003 ∷ []))
unfolding request_ports request_turns request_turn try_assign available_starts reclaim reclaim_each
    finalize_ended_call release_ports release_each cleanup_dead_calls
reclaims_ports = refl

request_turn-cases_example :
    IsServed small_pool 3 (request_turn one_turn 3 small_pool)
    ⊎ IsDenied small_pool 3 false (request_turn one_turn 3 small_pool)
request_turn-cases_example = request_turn-cases one_turn 2 small_pool

perform_all-IsPool_example : IsPool (
    perform_all
      (request_call (one_turn ∷ []) (pos 2)
        ∷ reserve_call (10000 ∷ []) []
        ∷ release_call (some (10001 ∷ []))
        ∷ release_call none
        ∷ [])
      small_pool)
perform_all-IsPool_example =
    perform_all-IsPool
      (request_call (one_turn ∷ []) (pos 2)
        ∷ reserve_call (10000 ∷ []) []
        ∷ release_call (some (10001 ∷ []))
        ∷ release_call none
        ∷ [])
      small_pool small_pool-IsPool

abbrev larger_pool : Phone
larger_pool = record small_pool { assigned = 10001 ∷ 10002 ∷ 10003 ∷ [] }

larger_pool-IsGranted : IsGranted small_pool larger_pool 1 (10003 ∷ [])
larger_pool-IsGranted = record {
  start = 10003;
  block = record { above = omega arith; below = omega arith; free = refl };
  listed = refl;
  assigned = refl;
}

release_ports-granted_example :
    (release_ports (some (10003 ∷ [])) larger_pool).assigned ≡ 10001 ∷ 10002 ∷ []
release_ports-granted_example =
    release_ports-granted small_pool larger_pool 1 (10003 ∷ []) larger_pool-IsGranted

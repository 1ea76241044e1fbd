-- ===== src/Voip/Ports.antt =====
-- The pool of RTP ports of `VoIPPhone` in rfcvoip/VoIP/VoIP.py: `request_ports`, `reserve_ports`,
-- `release_ports` and what they call. `reserve_ports` and `release_ports` run under `portsLock`, and so
-- does each look of `request_ports` for a free block, but not its turn: `request_turn` and
-- `request_turns` are turns in which no other thread takes the lock between the looks and in the
-- sleep. Ports/Calls has the looks and the releases as steps that other calls may come between.
pub mod Starts
pub mod Pool
pub mod Request
pub mod Calls
mod Tests
use rfcvoip.Prelude.{
  ℕ, zero, suc, ◌+◌, ◌-◌, ◌%◌, Bool, true, false, ◌&&◌, ◌||◌, not, Option, none, some, List, [],
  ◌∷◌, ◌++◌, map, concat, length, get_elem?, contains, range_from, filter, remove, ltb, leb, ◌==◌,
  if◌then◌else◌,
}
use rfcvoip.Prelude.Int.{ℤ, pos, negsuc}

-- What the pool reads of a `VoIPCall`.
pub record Call : Type 0 where
  pub call_id : ℕ
  pub ended : Bool
  pub finalized : Bool
  pub assigned_ports : List ℕ

-- A thread of `self.threads`, with its entry of `self.threadLookup`.
pub record CallThread : Type 0 where
  pub alive : Bool
  pub call_id : Option ℕ

pub record Phone : Type 0 where
  pub rtp_port_low : ℕ
  pub rtp_port_high : ℕ
  pub assigned : List ℕ
  pub calls : List Call
  pub threads : List CallThread

pub data PortError : Type 0 where
  invalid_range : PortError
  no_ports_available : PortError

pub data Outcome {ℓ} (A : Type ℓ) : Type ℓ where
  granted : A → Outcome A
  refused : PortError → Outcome A

-- `all(port not in assigned for port in ports)`
abbrev pub is_free : List ℕ → List ℕ → Bool
is_free [] assigned = true
is_free (port ∷ ports) assigned = not (contains port assigned) && is_free ports assigned

-- `_available_contiguous_port_starts_locked`
pub available_starts : (count : ℕ) → Phone → List ℕ
available_starts count p =
    if ltb (p.rtp_port_high - p.rtp_port_low + 1) count
    then []
    else filter (λ start. is_free (range_from start count) p.assigned)
        (range_from p.rtp_port_low (p.rtp_port_high + 2 - count - p.rtp_port_low))

-- The threads that are not alive lose their call, if it has ended.
abbrev pub without_ended : Option ℕ → List Call → List Call
without_ended none calls = calls
without_ended (some call_id) calls = filter (λ c. not (c.call_id == call_id && c.ended)) calls

abbrev pub cleanup_calls : List CallThread → List Call → List Call
cleanup_calls [] calls = calls
cleanup_calls (t ∷ ts) calls =
    cleanup_calls ts (if t.alive then calls else without_ended t.call_id calls)

-- `_cleanup_dead_calls_locked`
pub cleanup_dead_calls : Phone → Phone
cleanup_dead_calls p = record p {
  calls = cleanup_calls p.threads p.calls;
  threads = filter (λ t. t.alive) p.threads;
}

-- The loop that ends `release_ports`.
pub release_each : List ℕ → List ℕ → List ℕ
release_each [] assigned = assigned
release_each (port ∷ ports) assigned =
    release_each ports (if contains port assigned then remove port assigned else assigned)

-- The ports to release: those of the call, or those that no call holds.
abbrev pub ports_to_release : Option (List ℕ) → Phone → List ℕ
ports_to_release (some ports) p = ports
ports_to_release none p =
    filter (λ port. not (contains port (concat (map (λ (c : Call). c.assigned_ports) p.calls))))
      p.assigned

-- `release_ports`, with the assigned ports of the call when one is given
pub release_ports : Option (List ℕ) → Phone → Phone
release_ports call p =
    let cleaned = cleanup_dead_calls p in
    record cleaned { assigned = release_each (ports_to_release call cleaned) cleaned.assigned }

-- `VoIPCall._finalize_ended_call`, as far as the pool is concerned: once per call, its ports are
-- released and it leaves `calls`.
pub finalize_ended_call : Call → Phone → Phone
finalize_ended_call c p =
    if c.finalized
    then p
    else (let released = release_ports (some c.assigned_ports) p in
        record released { calls = filter (λ d. not (d.call_id == c.call_id)) released.calls })

-- The loop over `_calls_snapshot()` in `request_ports`.
pub reclaim_each : List Call → Phone → Phone
reclaim_each [] p = p
reclaim_each (c ∷ cs) p = reclaim_each cs (if c.ended then finalize_ended_call c p else p)

pub reclaim : Phone → Phone
reclaim p = reclaim_each p.calls p

-- `random.choice`: any number stands for the choice.
abbrev pub choose : (choice : ℕ) → (starts : List ℕ) → Option ℕ
choose choice starts = get_elem? starts (choice % length starts)

abbrev pub assign_block : Option ℕ → (count : ℕ) → Phone → Option (List ℕ × Phone)
assign_block none count p = none
assign_block (some start) count p =
    some (range_from start count, record p { assigned = p.assigned ++ range_from start count })

-- One look for a free block under `portsLock`.
pub try_assign : (choice count : ℕ) → Phone → Option (List ℕ × Phone)
try_assign choice count p = assign_block (choose choice (available_starts count p)) count p

-- The outcome of a turn of the loop, if it is the last: `none` is the sleep before the next turn.
abbrev pub or_wait :
    Option (List ℕ × Phone) → (waits : Bool) → Phone → Option (Outcome (List ℕ)) × Phone
or_wait (some (ports, p')) waits p = (some (granted ports), p')
or_wait none waits p = (if waits then none else some (refused no_ports_available), p)

abbrev pub or_reclaimed :
    Option (List ℕ × Phone)
    → (choice count : ℕ) → (waits : Bool) → Phone
    → Option (Outcome (List ℕ)) × Phone
or_reclaimed (some (ports, p')) choice count waits p = (some (granted ports), p')
or_reclaimed none choice count waits p =
    or_wait (try_assign choice count (reclaim p)) waits (reclaim p)

-- What a turn of the loop meets: the two choices, and `self.NSD and blocking`.
pub record Turn : Type 0 where
  pub first_choice : ℕ
  pub second_choice : ℕ
  pub waits : Bool

pub request_turn : Turn → (count : ℕ) → Phone → Option (Outcome (List ℕ)) × Phone
request_turn t count p =
    or_reclaimed (try_assign t.first_choice count p) t.second_choice count t.waits p

abbrev pub or_next :
    Option (Outcome (List ℕ)) × Phone
    → (Phone → Option (Outcome (List ℕ)) × Phone)
    → Option (Outcome (List ℕ)) × Phone
or_next (some o, p) next = (some o, p)
or_next (none, p) next = next p

-- The loop, over the turns that it takes; `none` if it still waits behind them.
pub request_turns : List Turn → (count : ℕ) → Phone → Option (Outcome (List ℕ)) × Phone
request_turns [] count p = (none, p)
request_turns (t ∷ ts) count p = or_next (request_turn t count p) (request_turns ts count)

-- `request_ports`
pub request_ports : List Turn → ℤ → Phone → Option (Outcome (List ℕ)) × Phone
request_ports turns (negsuc n) p = (some (refused invalid_range), p)
request_ports turns (pos zero) p = (some (refused invalid_range), p)
request_ports turns (pos (suc n)) p =
    if ltb (p.rtp_port_high - p.rtp_port_low + 1) (suc n)
    then (some (refused no_ports_available), p)
    else request_turns turns (suc n) p

-- `len(set(ports)) == len(ports)`
abbrev pub is_distinct : List ℕ → Bool
is_distinct [] = true
is_distinct (port ∷ ports) = not (contains port ports) && is_distinct ports

-- The tests of `reserve_ports`.
abbrev pub may_reserve : (low high : ℕ) → (assigned allow_existing ports : List ℕ) → Bool
may_reserve low high assigned allow_existing [] = true
may_reserve low high assigned allow_existing (port ∷ ports) =
    not (ltb port low || ltb high port)
    && not (contains port assigned && not (contains port allow_existing))
    && may_reserve low high assigned allow_existing ports

-- The assignments of `reserve_ports`.
pub reserve_each : (ports assigned : List ℕ) → List ℕ
reserve_each [] assigned = assigned
reserve_each (port ∷ ports) assigned =
    reserve_each ports (if not (contains port assigned) then assigned ++ port ∷ [] else assigned)

-- `reserve_ports`
pub reserve_ports : (ports allow_existing : List ℕ) → Phone → Outcome (List ℕ) × Phone
reserve_ports ports allow_existing p =
    if not (is_distinct ports)
      || not (may_reserve p.rtp_port_low p.rtp_port_high p.assigned allow_existing ports)
    then (refused no_ports_available, p)
    else (granted ports, record p { assigned = reserve_each ports p.assigned })

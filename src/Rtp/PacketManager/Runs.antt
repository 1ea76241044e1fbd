-- ===== src/Rtp/PacketManager/Runs.antt =====
-- Any sequence of calls of the packet manager, from its construction on.
use rfcvoip.Prelude.{
  ℕ, ◌+◌, ◌-◌, ◌≤◌, ◌<◌, ◌≡◌, refl, ◌⊎◌, inl, inr, Bool, true, false, length, get_elem?, List, [],
  ◌∷◌, arith, if◌then◌else◌,
}
use rfcvoip.Rtp.PacketManager.{Manager, init, cursor, compact, advance, read_bytes, write, rebuild}
use rfcvoip.Rtp.PacketManager.Invariant.{
  IsConsistent, read_bytes-IsConsistent, rebuild_log-IsConsistent, cutoff_of,
}
use rfcvoip.Rtp.PacketManager.Delivery.{
  rebuild-IsConsistent, write-IsConsistent, IsAhead, delivered_first, delivered_consistent,
}

-- A call: `read(n)`, `write(offset, data)`, `rebuild(True, offset, data)`, with data or without, or
-- `rebuild(False)`.
pub data Call : Type 0 where
  reading : ℕ → Call
  writing : ℕ → List ℕ → Call
  restarting : ℕ → List ℕ → Call
  rebuilding : Call

unfoldable pub perform : Call → Manager → Manager
perform (reading n) m = (read_bytes n m).1
perform (writing offset bytes) m = write offset bytes m
perform (restarting offset bytes) m = rebuild true offset bytes m
perform rebuilding m = rebuild false 0 [] m

unfoldable pub run : List Call → Manager → Manager
run [] m = m
run (c ∷ cs) m = run cs (perform c m)

-- Nothing was received yet, or the buffer, the log and the flags agree.
abbrev pub IsSound : Manager → Type 0
IsSound m = (m.initialized ≡ false) ⊎ IsConsistent m

initialized-compact_if :
    (b : Bool) (m : Manager) → (if b then compact m else m).initialized ≡ m.initialized
unfolding compact
initialized-compact_if b m = ground arith

perform-IsSound : (c : Call) (m : Manager) → IsSound m → IsSound (perform c m)
unfolding perform read_bytes write rebuild
perform-IsSound (reading n) m (inl new) = inl (rw (initialized-compact_if _ (advance n m)) new)
perform-IsSound (reading n) m (inr v) = inr (read_bytes-IsConsistent n m v)
perform-IsSound (writing offset bytes) m (inl new) = inr_or offset bytes m new
  where
    inr_or :
        (offset : ℕ) (bytes : List ℕ) (m : Manager)
        → m.initialized ≡ false
        → IsSound (write offset bytes m)
    inr_or offset [] m new = inl new
    inr_or offset (b ∷ bs) m new = inr (rw new (rebuild-IsConsistent offset (b ∷ bs) m))
perform-IsSound (writing offset bytes) m (inr v) = inr (write-IsConsistent offset bytes m v)
perform-IsSound (restarting offset bytes) m h = inr (rebuild-IsConsistent offset bytes m)
perform-IsSound rebuilding m (inl new) = inl new
perform-IsSound rebuilding m (inr v) = inr (rebuild_log-IsConsistent 0 [] m v)

run-IsSound_from : (cs : List Call) (m : Manager) → IsSound m → IsSound (run cs m)
unfolding run
run-IsSound_from [] m h = h
run-IsSound_from (c ∷ cs) m h = run-IsSound_from cs (perform c m) (perform-IsSound c m h)

-- After any reads, writes and rebuilds, in any order and with any offsets, a constructed manager has
-- received nothing or is consistent: its log entries do not meet, every byte that the log shows from
-- the offset on stands in the buffer at its place, and playout that has not started stands at the
-- offset.
pub run-IsSound :
    (base : ℕ) (silence : List ℕ) (cs : List Call) → IsSound (run cs (init base silence))
run-IsSound base silence cs = run-IsSound_from cs (init base silence) (inl refl)

-- After any reads, writes and rebuilds of a constructed manager, a packet that is neither older than the
-- log's cutoff nor, once playout has started, behind the cursor reaches the reader: byte `i` of it
-- stands at its place in what is read next, if the read covers that place.
pub delivered :
    (base : ℕ) (silence : List ℕ) (cs : List Call) (offset i n : ℕ) (bytes : List ℕ)
    → cutoff_of offset (run cs (init base silence)) ≤ offset
    → IsAhead offset (run cs (init base silence))
    → i < length bytes
    → cursor (write offset bytes (run cs (init base silence))) ≤ offset + i
    → offset + i < cursor (write offset bytes (run cs (init base silence))) + n
    → get_elem?
        (read_bytes n (write offset bytes (run cs (init base silence)))).0
        (offset + i - cursor (write offset bytes (run cs (init base silence))))
      ≡ get_elem? bytes i
delivered base silence cs offset i n bytes recent ahead h from to =
    let m : Manager = run cs (init base silence) in
    elim (run-IsSound base silence cs) [
      | inl new ↦ delivered_first offset i n bytes m h from to new
      | inr v ↦ delivered_consistent offset i n bytes m h from to v recent ahead
    ]

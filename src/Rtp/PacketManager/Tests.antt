-- ===== src/Rtp/PacketManager/Tests.antt =====
-- Runs of the packet manager, and its theorems at states that exercise them.
use rfcvoip.Prelude.{List, ◌+◌, ◌-◌, ◌≤◌, ◌≡◌, refl, true, some, [], ◌∷◌, length, get_elem?, arith}
use rfcvoip.Rtp.PacketManager.{
  Manager, init, cursor, read_bytes, write, store, write_ahead, write_behind, write_at, compact,
  rebuild, rebuild_loop, rebuild_entry, sort_log, place,
}
use rfcvoip.Rtp.PacketManager.Log.{prune, prune_entry}
use rfcvoip.Rtp.PacketManager.Cursor.{read_bytes-cursor, cursor-write_mono}
use rfcvoip.Rtp.PacketManager.Invariant.{IsConsistent}
use rfcvoip.Rtp.PacketManager.Delivery.{rebuild-IsConsistent, write-IsConsistent}
use rfcvoip.Rtp.PacketManager.Runs.{
  Call, reading, writing, restarting, rebuilding, perform, IsSound, run, run-IsSound, delivered,
}

abbrev start : Manager
start = rebuild true 1000 (1 ∷ 2 ∷ []) (init 0 (128 ∷ []))

start-IsConsistent : IsConsistent start
start-IsConsistent = rebuild-IsConsistent 1000 (1 ∷ 2 ∷ []) (init 0 (128 ∷ []))

-- Two bytes were read, and playout stands at 1002.
abbrev playing : Manager
playing = (read_bytes 2 start).1

-- A packet behind a gap, and one that overlaps it: the gap is silence, the later bytes win.
reads_back :
    (read_bytes 6 (write 1004 (7 ∷ 8 ∷ []) (write 1003 (5 ∷ 6 ∷ []) start))).0
    ≡ 1 ∷ 2 ∷ 128 ∷ 5 ∷ 7 ∷ 8 ∷ []
unfolding read_bytes write store write_ahead write_at prune prune_entry place rebuild compact
reads_back = refl

-- A packet before the first one moves the offset back while nothing was read.
reads_earlier : (read_bytes 4 (write 998 (3 ∷ 4 ∷ []) start)).0 ≡ 3 ∷ 4 ∷ 1 ∷ 2 ∷ []
unfolding read_bytes write store write_behind prune prune_entry place rebuild rebuild_loop
    rebuild_entry sort_log compact
reads_earlier = refl

read_bytes-cursor_example :
    let (packet, m') = read_bytes 6 start in (length packet ≡ 6) × (cursor m' ≡ cursor start + 6)
read_bytes-cursor_example = read_bytes-cursor 6 start

cursor-write_mono_example : cursor playing ≤ cursor (write 1001 (9 ∷ 9 ∷ 9 ∷ []) playing)
unfolding read_bytes rebuild
cursor-write_mono_example = cursor-write_mono 1001 (9 ∷ 9 ∷ 9 ∷ []) playing refl refl

write-IsConsistent_example : IsConsistent (write 1003 (5 ∷ 6 ∷ []) start)
write-IsConsistent_example = write-IsConsistent 1003 (5 ∷ 6 ∷ []) start start-IsConsistent

-- A client's manager: it is restarted without data, and a reader waits before the first packet.
abbrev opened : List Call
opened = restarting 0 [] ∷ reading 2 ∷ []

delivered_example :
    get_elem?
      (read_bytes 6 (write 4 (5 ∷ 6 ∷ []) (run opened (init 0 [])))).0
      (5 - cursor (write 4 (5 ∷ 6 ∷ []) (run opened (init 0 []))))
    ≡ some 6
unfolding run perform read_bytes write store write_ahead write_at prune prune_entry place rebuild
    compact
delivered_example =
    delivered 0 [] opened 4 1 6 (5 ∷ 6 ∷ []) (omega arith) (λ e. omega arith) (omega arith)
      (omega arith) (omega arith)

-- The first packet of a new manager
first_of_new : (read_bytes 2 (run (writing 7 (5 ∷ 6 ∷ []) ∷ []) (init 10 []))).0 ≡ 5 ∷ 6 ∷ []
unfolding run perform read_bytes write rebuild compact
first_of_new = refl

run-IsSound_example : IsSound (
    run
      (reading 3 ∷ writing 50 (1 ∷ []) ∷ restarting 7 [] ∷ writing 9 (2 ∷ []) ∷ rebuilding ∷ [])
      (init 0 []))
run-IsSound_example =
    run-IsSound 0 []
      (reading 3 ∷ writing 50 (1 ∷ []) ∷ restarting 7 [] ∷ writing 9 (2 ∷ []) ∷ rebuilding ∷ [])

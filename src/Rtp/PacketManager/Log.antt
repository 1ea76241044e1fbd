-- ===== src/Rtp/PacketManager/Log.antt =====
-- `self.log` of the packet manager: a dict from offsets to the bytes received there, in insertion
-- order, and the loop of `RTPPacketManager.write` that cuts old and overwritten bytes from it.
pub mod Laws
pub mod Cut
pub mod Prune
pub mod Stored
use rfcvoip.Prelude.{
  ℕ, zero, suc, ◌+◌, ◌-◌, ◌≤◌, ◌<◌, ◌≡◌, ◌⊎◌, Bool, true, false, ◌&&◌, Option, none, some, List, [],
  ◌∷◌, length, take, drop, get_elem?, All, ltb, leb, ◌==◌, if◌then◌else◌, max,
}

abbrev pub PacketLog : Type 0
PacketLog = List (ℕ × List ℕ)

abbrev pub lookup : ℕ → PacketLog → Option (List ℕ)
lookup k [] = none
lookup k ((j, v) ∷ m) = if k == j then some v else lookup k m

-- `self.log[k] = v`
abbrev pub set : ℕ → List ℕ → PacketLog → PacketLog
set k v [] = (k, v) ∷ []
set k v ((j, w) ∷ m) = if k == j then (k, v) ∷ m else (j, w) ∷ set k v m

-- `del self.log[k]` of a key that is there
abbrev pub erase : ℕ → PacketLog → PacketLog
erase k [] = []
erase k ((j, w) ∷ m) = if k == j then m else (j, w) ∷ erase k m

-- `max(self.log) if self.log else default`
abbrev pub newest_from : ℕ → PacketLog → ℕ
newest_from best [] = best
newest_from best ((j, w) ∷ m) = newest_from (max best j) m

abbrev pub newest_or : ℕ → PacketLog → ℕ
newest_or default [] = default
newest_or default ((j, w) ∷ m) = newest_from j m

-- The part of an entry before the new packet stays.
pub keep_before : (offset : ℕ) → ℕ × List ℕ → PacketLog → PacketLog
keep_before offset (logged_offset, logged_data) log =
    if ltb logged_offset offset
    then set logged_offset (take (offset - logged_offset) logged_data) log
    else log

-- The part of an entry behind the new packet stays, under its own offset.
pub keep_behind : (end : ℕ) → ℕ × List ℕ → PacketLog → PacketLog
keep_behind end (logged_offset, logged_data) log =
    if ltb end (logged_offset + length logged_data)
    then set end (drop (end - logged_offset) logged_data) log
    else log

-- The bytes of one entry that lie in the new packet's interval are dropped from it.
pub cut_overlap : (offset end : ℕ) → ℕ × List ℕ → PacketLog → PacketLog
unfolding keep_before keep_behind
cut_overlap offset end (logged_offset, logged_data) log =
    if ltb logged_offset end && ltb offset (logged_offset + length logged_data)
    then keep_behind end (logged_offset, logged_data)
        (keep_before offset (logged_offset, logged_data) (erase logged_offset log))
    else log

-- One round of the loop over `list(self.log.items())`.
unfoldable pub prune_entry : (cutoff offset end : ℕ) → ℕ × List ℕ → PacketLog → PacketLog
unfolding cut_overlap
prune_entry cutoff offset end (logged_offset, logged_data) log =
    if ltb logged_offset cutoff
    then (let log1 = erase logged_offset log in
        if leb (logged_offset + length logged_data) cutoff
        then log1
        else (let rest = drop (cutoff - logged_offset) logged_data in
            cut_overlap offset end (cutoff, rest) (set cutoff rest log1)))
    else cut_overlap offset end (logged_offset, logged_data) log

-- The loop over the snapshot of the entries; the log changes on the way.
unfoldable pub prune : (cutoff offset end : ℕ) → PacketLog → PacketLog → PacketLog
prune cutoff offset end [] log = log
prune cutoff offset end (e ∷ snapshot) log =
    prune cutoff offset end snapshot (prune_entry cutoff offset end e log)

-- The byte that the log holds for a position of the playout timeline.
abbrev pub covers : ℕ → List ℕ → ℕ → Bool
covers o d p = leb o p && ltb p (o + length d)

abbrev pub view : PacketLog → ℕ → Option ℕ
view [] p = none
view ((o, d) ∷ m) p = if covers o d p then get_elem? d (p - o) else view m p

-- No entry meets the interval from `a` to `b`.
abbrev pub Apart : ℕ → ℕ → ℕ × List ℕ → Type 0
Apart a b (o, d) = (o + length d ≤ a) ⊎ (b ≤ o)

abbrev pub Free : ℕ → ℕ → PacketLog → Type 0
Free a b [] = Unit
Free a b (e ∷ m) = Apart a b e × Free a b m

-- The entries are not empty, and their intervals do not meet.
abbrev pub IsDisjoint : PacketLog → Type 0
IsDisjoint [] = Unit
IsDisjoint ((o, d) ∷ m) = (0 < length d) × Free o (o + length d) m × IsDisjoint m

-- `rebuild(True)` without data leaves one empty entry, which stays in front of the others until a packet
-- overwrites it or it is pruned; no other entry covers its offset.
pub data IsTidy : PacketLog → Type 0 where
  tidy_filled : {log : PacketLog} → IsDisjoint log → IsTidy log
  tidy_marked :
      {o : ℕ} {log : PacketLog} → IsDisjoint log → Free o (suc o) log → IsTidy ((o, []) ∷ log)

-- Entries that do not meet, empty ones among them
abbrev pub IsLoose : PacketLog → Type 0
IsLoose [] = Unit
IsLoose ((o, d) ∷ m) = Free o (o + length d) m × IsLoose m

-- ===== src/Rtp/PacketManager.antt =====
-- `class RTPPacketManager` of rfcvoip/RTP.py: the receive buffer that orders packets by timestamp.
-- The code only compares and subtracts offsets, which may be negative: here they are naturals that are
-- counted from a base below all that occur, `cutoff` included; a cutoff below the base cuts nothing, and
-- neither does the base. `_shift_unread_receive_suffix`, which sets the log itself, is not modelled.
pub mod Log
pub mod Cursor
pub mod Place
pub mod Rebuild
pub mod Buffer
pub mod Invariant
pub mod Delivery
pub mod Runs
mod Tests
use rfcvoip.Prelude.{
  ℕ, zero, suc, ◌+◌, ◌-◌, ◌*◌, ◌/◌, ◌^◌, max, ◌≡◌, Bool, true, false, ◌&&◌, ◌||◌, not, Option, none,
  some, List, [], ◌∷◌, ◌++◌, length, take, drop, replicate, ltb, leb, ◌==◌, if◌then◌else◌,
}
use rfcvoip.Prelude.Int.{ℤ, pos, negsuc}
use rfcvoip.Rtp.BytesIo.{BytesIo, open_bytes, seek, seek_end, seek_on, read_all}
use rfcvoip.Rtp.BytesIo
use rfcvoip.Rtp.PacketManager.Log.{PacketLog, set, newest_or, prune}

pub record Manager : Type 0 where
  pub offset : ℕ
  pub buffer : BytesIo
  pub log : PacketLog
  pub max_log_span : ℕ
  pub rebuilding : Bool
  pub initialized : Bool
  pub read_started : Bool
  pub silence_byte : ℕ

-- `bytes(silence_byte or b"\x00")[:1] or b"\x00"`
abbrev pub first_or_zero : List ℕ → ℕ
first_or_zero [] = 0
first_or_zero (b ∷ bs) = b

-- `RTPPacketManager.__init__`
abbrev pub init : (base : ℕ) → List ℕ → Manager
init base silence = record {
  offset = base + 4294967296;
  buffer = open_bytes [];
  log = [];
  max_log_span = 200000;
  rebuilding = false;
  initialized = false;
  read_started = false;
  silence_byte = first_or_zero silence;
}

-- The absolute playout position.
abbrev pub cursor : Manager → ℕ
cursor m = m.offset + m.buffer.pos

-- `available`, `_available_locked`: the position may stand behind the end.
pub available : Manager → ℕ
available m = length m.buffer.content - m.buffer.pos

-- The entries that reach past the new offset.
abbrev pub keep_from : ℕ → PacketLog → PacketLog
keep_from offset [] = []
keep_from offset ((o, d) ∷ log) =
    if ltb offset (o + length d) then (o, d) ∷ keep_from offset log else keep_from offset log

-- `_compact_locked`
unfoldable pub compact : Manager → Manager
compact m = if m.buffer.pos == 0 || not m.initialized then m else record m {
  buffer = open_bytes (read_all m.buffer);
  offset = m.offset + m.buffer.pos;
  log = keep_from (m.offset + m.buffer.pos) m.log;
}

-- The stream behind `self.buffer.read(length)` and the seek over what is missing.
abbrev pub skip_missing : ℕ → List ℕ × BytesIo → BytesIo
skip_missing n (packet, buffer) =
    if ltb (length packet) n then seek_on (n - length packet) buffer else buffer

-- What `read` returns: the bytes that are there, and silence for the missing ones.
abbrev pub pad_silence : ℕ → ℕ → List ℕ → List ℕ
pad_silence silence n packet =
    if ltb (length packet) n then packet ++ replicate (n - length packet) silence else packet

-- The manager behind the bytes of a `read`, before it is compacted.
abbrev pub advance : ℕ → Manager → Manager
advance n m = record m {
  buffer = skip_missing n (BytesIo.read n m.buffer);
  read_started = if not (n == 0) && m.initialized then true else m.read_started;
}

-- `read` of a length that is not negative
pub read_bytes : ℕ → Manager → List ℕ × Manager
read_bytes n m =
    let m1 = advance n m in
    (
      pad_silence m.silence_byte n (BytesIo.read n m.buffer).0,
      if leb (m.max_log_span / 2) m1.buffer.pos then compact m1 else m1,
    )

-- `read`; `none` is the `ValueError` of a negative length.
pub read : ℤ → Manager → Option (List ℕ × Manager)
unfolding read_bytes
read (negsuc n) m = none
read (pos n) m = some (read_bytes n m)

-- Writes `data` at `adjusted`, with silence in the gap behind the end if there is one. The position
-- is behind the data afterwards.
pub place : (silence adjusted : ℕ) → List ℕ → BytesIo → BytesIo
place silence adjusted bytes buffer =
    let at_end = seek_end buffer in
    let filled =
      if ltb at_end.pos adjusted
      then BytesIo.write (replicate (adjusted - at_end.pos) silence) at_end
      else at_end in
    BytesIo.write bytes (seek adjusted filled)

-- `sorted(list(self.log.items()))`: the keys differ, so the order is theirs.
pub insert_sorted : ℕ × List ℕ → PacketLog → PacketLog
insert_sorted e [] = e ∷ []
insert_sorted e (f ∷ log) = if leb e.0 f.0 then e ∷ f ∷ log else f ∷ insert_sorted e log

pub sort_log : PacketLog → PacketLog
unfolding insert_sorted
sort_log [] = []
sort_log (e ∷ log) = insert_sorted e (sort_log log)

-- One round of the loop in `rebuild`.
pub rebuild_entry : (silence offset : ℕ) → ℕ × List ℕ → BytesIo → BytesIo
rebuild_entry silence offset (pkt, payload) buffer =
    if ltb pkt offset
    then (let rest = drop (offset - pkt) payload in
        if length rest == 0 then buffer else place silence 0 rest buffer)
    else place silence (pkt - offset) payload buffer

pub rebuild_loop : (silence offset : ℕ) → PacketLog → BytesIo → BytesIo
rebuild_loop silence offset [] buffer = buffer
rebuild_loop silence offset (e ∷ log) buffer =
    rebuild_loop silence offset log (rebuild_entry silence offset e buffer)

-- `rebuild`; both ends clear the `rebuilding` flag that it set.
pub rebuild : (reset : Bool) → ℕ → List ℕ → Manager → Manager
rebuild true offset bytes m = record m {
  offset = offset;
  log = (offset, bytes) ∷ [];
  buffer = open_bytes bytes;
  rebuilding = false;
  initialized = true;
  read_started = false;
}
rebuild false offset bytes m = record m {
  buffer =
      seek m.buffer.pos (rebuild_loop m.silence_byte m.offset (sort_log m.log) (open_bytes []));
  rebuilding = false;
}

-- Playout restarts at data that is still too far ahead; other data is placed in the buffer.
pub write_at : ℕ → List ℕ → Manager → Manager
write_at offset bytes m =
    if ltb m.max_log_span (offset - m.offset)
    then record m {
      offset = offset;
      log = (offset, bytes) ∷ [];
      buffer = open_bytes bytes;
      read_started = false;
    }
    else record m {
      buffer = seek m.buffer.pos (place m.silence_byte (offset - m.offset) bytes m.buffer);
    }

-- The tail of `write` for an offset not before `self.offset`.
pub write_ahead : ℕ → List ℕ → Manager → Manager
write_ahead offset bytes m =
    write_at offset bytes (if ltb m.max_log_span (offset - m.offset) then compact m else m)

-- The tail of `write` for an offset before `self.offset`: the buffer is rebuilt from the log, or
-- restarted when the distance is 100,000 bytes or more.
pub write_behind : ℕ → List ℕ → Manager → Manager
write_behind offset bytes m =
    rebuild (leb 100000 (m.offset - offset)) offset bytes (record m { offset = offset })

-- `write` from the cutoff on, with data that is not empty.
pub store : ℕ → List ℕ → Manager → Manager
store offset bytes m =
    let newest = newest_or offset m.log in
    let cutoff = max newest offset - m.max_log_span in
    if ltb offset cutoff
    then m
    else (let pruned = prune cutoff offset (offset + length bytes) m.log m.log in
        let m1 = record m { log = set offset bytes pruned } in
        if ltb offset m.offset then write_behind offset bytes m1 else write_ahead offset bytes m1)

-- `write`
pub write : ℕ → List ℕ → Manager → Manager
write offset [] m = m
write offset (b ∷ bs) m =
    if not m.initialized
    then rebuild true offset (b ∷ bs) m
    else if m.read_started && ltb offset (cursor m)
    then (let rest = drop (cursor m - offset) (b ∷ bs) in
        if length rest == 0 then m else store (cursor m) rest m)
    else store offset (b ∷ bs) m

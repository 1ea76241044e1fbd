-- ===== src/Rtp/PacketManager/Cursor.antt =====
-- The playout cursor of the packet manager.
use rfcvoip.Prelude.{
  ℕ, ◌+◌, ◌-◌, ◌≤◌, ◌≡◌, true, List, [], ◌∷◌, length, take, drop, replicate, length-append,
  length-replicate, length-take, ltb, arith, Bool-cases, inl, inr, max,
}
use rfcvoip.Rtp.PacketManager.{
  Manager, cursor, compact, read_bytes, write, store, write_at, write_ahead,
}
use rfcvoip.Rtp.PacketManager.Log.{set, prune, newest_or}

pub cursor-compact : (m : Manager) → cursor (compact m) ≡ cursor m
unfolding compact
cursor-compact m = ground arith

-- `read` returns as many bytes as were asked for, and moves the playout cursor by as many.
pub read_bytes-cursor :
    (n : ℕ) (m : Manager)
    → let (packet, m') = read_bytes n m in (length packet ≡ n) × (cursor m' ≡ cursor m + n)
unfolding read_bytes compact
read_bytes-cursor n m = (
  ground (
    arith,
    length-take n (drop m.buffer.pos m.buffer.content),
    length-append (take n (drop m.buffer.pos m.buffer.content))
        (replicate (n - length (take n (drop m.buffer.pos m.buffer.content))) m.silence_byte),
    length-replicate (n - length (take n (drop m.buffer.pos m.buffer.content))) m.silence_byte,
  ),
  ground (arith, length-take n (drop m.buffer.pos m.buffer.content)),
)

-- A packet ahead of the cursor leaves it alone, or is so far ahead that playout restarts there.
cursor-write_at :
    (offset : ℕ) (bytes : List ℕ) (m : Manager)
    → cursor m ≤ offset
    → cursor m ≤ cursor (write_at offset bytes m)
unfolding write_at
cursor-write_at offset bytes m h = ground arith

cursor-write_ahead :
    (offset : ℕ) (bytes : List ℕ) (m : Manager)
    → cursor m ≤ offset
    → cursor m ≤ cursor (write_ahead offset bytes m)
unfolding write_ahead
cursor-write_ahead offset bytes m h = elim (Bool-cases (ltb m.max_log_span (offset - m.offset))) [
  | inl far ↦ rw far (
      rw (cursor-compact m) at (cursor-write_at offset bytes (compact m) (rw (cursor-compact m) h)))
  | inr near ↦ rw near (cursor-write_at offset bytes m h)
]

cursor-store :
    (offset : ℕ) (bytes : List ℕ) (m : Manager)
    → cursor m ≤ offset
    → cursor m ≤ cursor (store offset bytes m)
unfolding store
cursor-store offset bytes m h = ground (
  arith,
  cursor-write_ahead offset bytes (record m {
    log = set offset bytes (
        prune (max (newest_or offset m.log) offset - m.max_log_span) offset (offset + length bytes)
          m.log m.log);
  }),
)

-- Once playout has started, no packet moves the playout cursor back, whatever its offset.
pub cursor-write_mono :
    (offset : ℕ) (bytes : List ℕ) (m : Manager)
    → m.initialized ≡ true
    → m.read_started ≡ true
    → cursor m ≤ cursor (write offset bytes m)
unfolding write
cursor-write_mono offset [] m i r = omega arith
cursor-write_mono offset (b ∷ bs) m i r = ground (
  arith,
  cursor-store (cursor m) (drop (cursor m - offset) (b ∷ bs)) m,
  cursor-store offset (b ∷ bs) m,
)

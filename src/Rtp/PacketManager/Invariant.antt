-- ===== src/Rtp/PacketManager/Invariant.antt =====
-- The invariant of the packet manager, and the steps of `write`.
use rfcvoip.Prelude.{
  ℕ, zero, suc, ◌+◌, ◌-◌, ◌<◌, ◌≡◌, refl, Bool, true, false, none, List, length, get_elem?, ltb,
  leb, if◌then◌else◌, arith, max, Bool-cases, inl, inr,
}
use rfcvoip.Rtp.PacketManager.{
  Manager, advance, compact, read_bytes, write_at, write_ahead, write_behind, rebuild,
}
use rfcvoip.Rtp.PacketManager.Buffer.{IsBacked, IsPending, single-IsBacked, read_bytes-IsBacked}
use rfcvoip.Rtp.PacketManager.Rebuild.{rebuild_holds}
use rfcvoip.Rtp.PacketManager.Log.{set, prune, newest_or, view, covers, IsTidy}
use rfcvoip.Rtp.PacketManager.Log.Stored.{stored-IsTidy}

-- Playout that has not started stands at the offset.
pub record IsStarted (m : Manager) : Type 0 where
  pub initialized : m.initialized ≡ true
  pub at_offset : m.read_started ≡ false → m.buffer.pos ≡ 0

pub record IsConsistent (m : Manager) : Type 0 where
  pub backed : IsBacked m
  pub started : IsStarted m

compact-IsStarted : (m : Manager) → IsStarted m → IsStarted (compact m)
unfolding compact
compact-IsStarted m v = ground (arith, v.initialized, v.at_offset)

compact_if-IsStarted :
    (b : Bool) (m : Manager) → IsStarted m → IsStarted (if b then compact m else m)
compact_if-IsStarted true m v = compact-IsStarted m v
compact_if-IsStarted false m v = v

advance-IsStarted : (n : ℕ) (m : Manager) → IsStarted m → IsStarted (advance n m)
advance-IsStarted zero m v = record {
  initialized = v.initialized;
  at_offset = λ e. omega (arith, v.at_offset e);
}
advance-IsStarted (suc n) m v = ground (arith, v.initialized)

-- Reading keeps the packet manager consistent.
pub read_bytes-IsConsistent :
    (n : ℕ) (m : Manager) → IsConsistent m → IsConsistent (read_bytes n m).1
unfolding read_bytes
read_bytes-IsConsistent n m v = record {
  backed = read_bytes-IsBacked n m v.backed;
  started = compact_if-IsStarted _ _ (advance-IsStarted n m v.started);
}

pub write_at-IsStarted :
    (offset : ℕ) (bytes : List ℕ) (m : Manager) → IsStarted m → IsStarted (write_at offset bytes m)
unfolding write_at
write_at-IsStarted offset bytes m v = ground (arith, v.initialized, v.at_offset)

pub write_ahead-IsStarted :
    (offset : ℕ) (bytes : List ℕ) (m : Manager)
    → IsStarted m
    → IsStarted (write_ahead offset bytes m)
unfolding write_ahead
write_ahead-IsStarted offset bytes m v =
    write_at-IsStarted offset bytes _ (compact_if-IsStarted _ m v)

pub write_behind-IsStarted :
    (offset : ℕ) (bytes : List ℕ) (m : Manager)
    → IsStarted m
    → IsStarted (write_behind offset bytes m)
unfolding write_behind rebuild
write_behind-IsStarted offset bytes m v = elim (Bool-cases (leb 100000 (m.offset - offset))) [
  | inl far ↦ rw far (record { initialized = refl; at_offset = λ _. refl })
  | inr near ↦ rw near (record { initialized = v.initialized; at_offset = v.at_offset })
]

-- The log of `store` once the loop has run and the new packet is in it.
abbrev pub cutoff_of : ℕ → Manager → ℕ
cutoff_of offset m = max (newest_or offset m.log) offset - m.max_log_span

abbrev pub logged : ℕ → List ℕ → Manager → Manager
logged offset bytes m = record m {
  log = set offset bytes (prune (cutoff_of offset m) offset (offset + length bytes) m.log m.log);
}

module _ (offset : ℕ) (bytes : List ℕ) (m : Manager) (filled : 0 < length bytes)
    (v : IsBacked m) where
  logged-IsTidy : IsTidy (logged offset bytes m).log
  logged-IsTidy = (stored-IsTidy (cutoff_of offset m) offset bytes filled m.log v.tidy).0

  -- What the log shows when the packet is in it: the packet in its interval, nothing before the cutoff,
  -- and elsewhere what it showed before.
  pub view-logged :
      (p : ℕ)
      → view (logged offset bytes m).log p ≡ (
          if covers offset bytes p
          then get_elem? bytes (p - offset)
          else if ltb p (cutoff_of offset m)
          then none
          else view m.log p)
  view-logged = (stored-IsTidy (cutoff_of offset m) offset bytes filled m.log v.tidy).1

  pub logged-IsPending : IsPending offset bytes filled (logged offset bytes m)
  logged-IsPending = record {
    apart = logged-IsTidy;
    shows = λ p h k. ground (arith, view-logged p);
    others = λ p x behind away shown.
        v.holds p x behind (inr (omega arith)) (ground (arith, view-logged p, shown, away));
  }

  pub write_behind-IsBacked :
      offset < m.offset → IsBacked (write_behind offset bytes (logged offset bytes m))
  unfolding write_behind rebuild
  write_behind-IsBacked before = elim (Bool-cases (leb 100000 (m.offset - offset))) [
    | inl far ↦ rw far (single-IsBacked _ offset bytes refl refl refl)
    | inr near ↦ rw near (record {
      tidy = logged-IsTidy;
      holds = λ p x behind away shown.
          rebuild_holds offset bytes (record (logged offset bytes m) { offset = offset }) p x
            logged-IsTidy (behind) (shown);
    })
  ]

-- `rebuild(False)` keeps the packet manager consistent.
pub rebuild_log-IsConsistent :
    (offset : ℕ) (bytes : List ℕ) (m : Manager)
    → IsConsistent m
    → IsConsistent (rebuild false offset bytes m)
unfolding rebuild
rebuild_log-IsConsistent offset bytes m v = record {
  backed = record {
    tidy = v.backed.tidy;
    holds = λ p x behind away shown. rebuild_holds offset bytes m p x v.backed.tidy behind shown;
  };
  started = record { initialized = v.started.initialized; at_offset = v.started.at_offset };
}

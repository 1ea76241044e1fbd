-- ===== src/Rtp/PacketManager/Delivery.antt =====
-- A consistent packet manager under `write`, and the data that a reader gets from it.
use native.Mathlib.Decide.{dec_lt}
use rfcvoip.Prelude.{
  ℕ, ◌+◌, ◌-◌, ◌≤◌, ◌<◌, ◌≡◌, refl, sym, ap, ◌∙◌, true, false, ◌&&◌, not, List, [], ◌∷◌, length,
  drop, get_elem?, ltb, leb, ◌==◌, arith, Bool-cases, inl, inr, lt→ltb, le→ltb, get_elem?-some,
}
use rfcvoip.Rtp.PacketManager.{
  Manager, cursor, compact, read_bytes, write, store, write_at, write_ahead, write_behind, rebuild,
}
use rfcvoip.Rtp.PacketManager.Cursor.{cursor-compact}
use rfcvoip.Rtp.PacketManager.Buffer.{
  IsBacked, IsPending, single-IsBacked, write_ahead-IsBacked, read_bytes_lem, IsPending-compact,
}
use rfcvoip.Rtp.PacketManager.Log.{view}
use rfcvoip.Rtp.PacketManager.Invariant.{
  IsStarted, IsConsistent, write_ahead-IsStarted, write_behind-IsStarted, cutoff_of, logged,
  view-logged, logged-IsPending, write_behind-IsBacked,
}

-- `rebuild(True, offset, data)` starts a consistent buffer, with data or without.
pub rebuild-IsConsistent :
    (offset : ℕ) (bytes : List ℕ) (m : Manager) → IsConsistent (rebuild true offset bytes m)
unfolding rebuild
rebuild-IsConsistent offset bytes m = record {
  backed = single-IsBacked _ offset bytes refl refl refl;
  started = record { initialized = refl; at_offset = λ _. refl };
}

-- Where playout stands, seen from a packet that `store` is given.
abbrev pub IsAhead : ℕ → Manager → Type 0
IsAhead offset m = m.read_started ≡ true → cursor m ≤ offset

ahead_cursor :
    (offset : ℕ) (m : Manager)
    → IsStarted m
    → IsAhead offset m
    → m.offset ≤ offset
    → cursor m ≤ offset
ahead_cursor offset m v ahead h = elim (Bool-cases m.read_started) [
  | inl e ↦ ahead e
  | inr e ↦ omega (arith, v.at_offset e)
]

module _ (offset : ℕ) (bytes : List ℕ) (m : Manager) (filled : 0 < length bytes)
    (v : IsConsistent m) (ahead : IsAhead offset m) where
  store-IsConsistent : IsConsistent (store offset bytes m)
  unfolding store
  store-IsConsistent = elim (Bool-cases (ltb offset (cutoff_of offset m))) [
    | inl old ↦ rw old v
    | inr recent ↦ elim (dec_lt offset m.offset) [
      | yes before ↦
          rw (recent, lt→ltb offset m.offset before)
            (record {
              backed = write_behind-IsBacked offset bytes m filled v.backed before;
              started =
                  write_behind-IsStarted offset bytes (logged offset bytes m) (record {
                    initialized = v.started.initialized;
                    at_offset = v.started.at_offset;
                  });
            })
      | no behind ↦
          rw (recent, le→ltb offset m.offset (omega arith))
            (record {
              backed =
                  write_ahead-IsBacked offset bytes filled (logged offset bytes m)
                    (ahead_cursor offset m v.started ahead (omega arith))
                    (logged-IsPending offset bytes m filled v.backed);
              started =
                  write_ahead-IsStarted offset bytes (logged offset bytes m) (record {
                    initialized = v.started.initialized;
                    at_offset = v.started.at_offset;
                  });
            })
    ]
  ]

-- Whatever packet is written, a consistent manager stays consistent.
pub write-IsConsistent :
    (offset : ℕ) (bytes : List ℕ) (m : Manager)
    → IsConsistent m
    → IsConsistent (write offset bytes m)
unfolding write
write-IsConsistent offset [] m v = v
write-IsConsistent offset (b ∷ bs) m v =
    let running : not m.initialized ≡ false = rw v.started.initialized in
    elim (Bool-cases (m.read_started && ltb offset (cursor m))) [
      | inl late ↦
          let rest = drop (cursor m - offset) (b ∷ bs) in
          elim (Bool-cases (length rest == 0)) [
            | inl gone ↦ rw (running, late, gone) v
            | inr left ↦
                rw (running, late, left)
                  (store-IsConsistent (cursor m) rest m (ground (arith, left)) v (λ _. omega arith))
          ]
      | inr ahead ↦
          rw (running, ahead)
            (store-IsConsistent offset (b ∷ bs) m (omega arith) v (λ e. ground (arith, e, ahead)))
    ]

-- What the log shows in the packet's interval once it is stored.
view_single :
    (offset i : ℕ) (bytes : List ℕ)
    → i < length bytes
    → view ((offset, bytes) ∷ []) (offset + i) ≡ get_elem? bytes i
view_single offset i bytes h = let e : offset + i - offset ≡ i = omega arith in ground (arith, e)

view-write_at :
    (offset i : ℕ) (bytes : List ℕ) (m : Manager) (filled : 0 < length bytes)
    → i < length bytes
    → IsPending offset bytes filled m
    → view (write_at offset bytes m).log (offset + i) ≡ get_elem? bytes i
unfolding write_at
view-write_at offset i bytes m filled h v =
    let e : offset + i - offset ≡ i = omega arith in
    elim (Bool-cases (ltb m.max_log_span (offset - m.offset))) [
      | inl far ↦ rw far (view_single offset i bytes h)
      | inr near ↦ rw near (v.shows (offset + i) (omega arith) (omega arith) ∙ rw e)
    ]

view-write_ahead :
    (offset i : ℕ) (bytes : List ℕ) (m : Manager) (filled : 0 < length bytes)
    → cursor m ≤ offset
    → i < length bytes
    → IsPending offset bytes filled m
    → view (write_ahead offset bytes m).log (offset + i) ≡ get_elem? bytes i
unfolding write_ahead
view-write_ahead offset i bytes m filled ahead h v =
    elim (Bool-cases (ltb m.max_log_span (offset - m.offset))) [
      | inl far ↦
          let room : (compact m).offset ≤ offset = omega (arith, cursor-compact m) in
          rw far (
            view-write_at offset i bytes (compact m) filled h
              (IsPending-compact offset bytes filled m room v))
      | inr near ↦ rw near (view-write_at offset i bytes m filled h v)
    ]

view-write_behind :
    (offset i : ℕ) (bytes : List ℕ) (m : Manager)
    → i < length bytes
    → view m.log (offset + i) ≡ get_elem? bytes i
    → view (write_behind offset bytes m).log (offset + i) ≡ get_elem? bytes i
unfolding write_behind rebuild
view-write_behind offset i bytes m h shown = elim (Bool-cases (leb 100000 (m.offset - offset))) [
  | inl far ↦ rw far (view_single offset i bytes h)
  | inr near ↦ rw near shown
]

view-store :
    (offset i : ℕ) (bytes : List ℕ) (m : Manager) (filled : 0 < length bytes)
    → IsConsistent m
    → IsAhead offset m
    → cutoff_of offset m ≤ offset
    → i < length bytes
    → view (store offset bytes m).log (offset + i) ≡ get_elem? bytes i
unfolding store
view-store offset i bytes m filled v ahead recent h =
    let new : ltb offset (cutoff_of offset m) ≡ false = le→ltb _ _ recent in
    let e : offset + i - offset ≡ i = omega arith in
    elim (dec_lt offset m.offset) [
      | yes before ↦
          rw (new, lt→ltb offset m.offset before)
            (view-write_behind offset i bytes (logged offset bytes m) h
              (ground (arith, view-logged offset bytes m filled v.backed (offset + i), e)))
      | no behind ↦
          rw (new, le→ltb offset m.offset (omega arith))
            (view-write_ahead offset i bytes (logged offset bytes m) filled
              (ahead_cursor offset m v.started ahead (omega arith)) h
              (logged-IsPending offset bytes m filled v.backed))
    ]

write-eq-store :
    (offset : ℕ) (bytes : List ℕ) (m : Manager)
    → IsStarted m
    → IsAhead offset m
    → 0 < length bytes
    → write offset bytes m ≡ store offset bytes m
unfolding write
write-eq-store offset [] m v ahead h = elim h [ ]
write-eq-store offset (b ∷ bs) m v ahead h =
    let running : not m.initialized ≡ false = rw v.initialized in
    let in_time : (m.read_started && ltb offset (cursor m)) ≡ false = ground (arith, ahead) in
    rw (running, in_time)

write_first :
    (offset : ℕ) (bytes : List ℕ) (m : Manager)
    → m.initialized ≡ false
    → 0 < length bytes
    → write offset bytes m ≡ rebuild true offset bytes m
unfolding write
write_first offset [] m new h = elim h [ ]
write_first offset (b ∷ bs) m new h = rw new refl

view_restart :
    (offset i : ℕ) (bytes : List ℕ) (m : Manager)
    → i < length bytes
    → view (rebuild true offset bytes m).log (offset + i) ≡ get_elem? bytes i
unfolding rebuild
view_restart offset i bytes m h = view_single offset i bytes h

-- A reader gets a byte that the log shows.
delivered_shown :
    (offset i n : ℕ) (bytes : List ℕ) (m' : Manager)
    → IsBacked m'
    → view m'.log (offset + i) ≡ get_elem? bytes i
    → i < length bytes
    → cursor m' ≤ offset + i
    → offset + i < cursor m' + n
    → get_elem? (read_bytes n m').0 (offset + i - cursor m') ≡ get_elem? bytes i
delivered_shown offset i n bytes m' v shown h from to =
    let (x, e) = get_elem?-some bytes i h in
    let back : cursor m' + (offset + i - cursor m') ≡ offset + i = omega arith in
    read_bytes_lem n (offset + i - cursor m') x m' v (omega arith) (rw back (shown ∙ e)) ∙ sym e

module _ (offset i n : ℕ) (bytes : List ℕ) (m : Manager) (h : i < length bytes)
    (from : cursor (write offset bytes m) ≤ offset + i)
    (to : offset + i < cursor (write offset bytes m) + n) where
  -- A consistent manager delivers what is recent and not late.
  pub delivered_consistent :
      IsConsistent m
      → cutoff_of offset m ≤ offset
      → IsAhead offset m
      → get_elem?
          (read_bytes n (write offset bytes m)).0
          (offset + i - cursor (write offset bytes m))
        ≡ get_elem? bytes i
  delivered_consistent v recent ahead =
      delivered_shown offset i n bytes (write offset bytes m)
        (write-IsConsistent offset bytes m v).backed
        (ap (λ (k : Manager). view k.log (offset + i))
            (write-eq-store offset bytes m v.started ahead (omega arith))
          ∙ view-store offset i bytes m (omega arith) v ahead recent h)
        h from to

  -- A manager that has received nothing delivers its first packet.
  pub delivered_first :
      m.initialized ≡ false
      → get_elem?
          (read_bytes n (write offset bytes m)).0
          (offset + i - cursor (write offset bytes m))
        ≡ get_elem? bytes i
  delivered_first new =
      let first : write offset bytes m ≡ rebuild true offset bytes m =
        write_first offset bytes m new (omega arith) in
      delivered_shown offset i n bytes (write offset bytes m)
        (rw first (rebuild-IsConsistent offset bytes m).backed)
        (rw first (view_restart offset i bytes m h)) h from to

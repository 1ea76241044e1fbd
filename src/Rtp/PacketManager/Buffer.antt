-- ===== src/Rtp/PacketManager/Buffer.antt =====
-- The buffer of the packet manager and the bytes that its log shows, under reads, compaction and a
-- write ahead of the cursor.
use native.Mathlib.Decide.{dec_lt}
use rfcvoip.Prelude.{
  ℕ, suc, not, ◌||◌, ◌==◌, ltb, ◌+◌, ◌-◌, ◌/◌, ◌≤◌, ◌<◌, ◌≡◌, refl, sym, ◌∙◌, ◌⊎◌, Bool, true,
  false, some, List, [], ◌∷◌, length, drop, replicate, get_elem?, leb, if◌then◌else◌, arith,
  Bool-cases, inl, inr, get_elem?-take, get_elem?-drop, get_elem?-append_left, get_elem?_bound,
}
use rfcvoip.Rtp.BytesIo
use rfcvoip.Rtp.BytesIo.{BytesIo, open_bytes, seek, read_all}
use rfcvoip.Rtp.PacketManager.{
  advance, skip_missing, pad_silence, Manager, cursor, compact, keep_from, read_bytes, write_at,
  write_ahead, place,
}
use rfcvoip.Rtp.PacketManager.Cursor.{cursor-compact}
use rfcvoip.Rtp.PacketManager.Place.{place_in, place_out}
use rfcvoip.Rtp.PacketManager.Log.{
  PacketLog, view, Free, IsDisjoint, IsTidy, tidy_filled, tidy_marked,
}

-- The buffer holds what the log shows from the offset on, but perhaps not between `a` and `b`.
abbrev pub Holds : (a b : ℕ) → Manager → Type 0
Holds a b m =
    (p x : ℕ)
    → m.offset ≤ p
    → (p < a) ⊎ (b ≤ p)
    → view m.log p ≡ some x
    → get_elem? m.buffer.content (p - m.offset) ≡ some x

pub record IsBacked (m : Manager) : Type 0 where
  pub tidy : IsTidy m.log
  pub holds : Holds 0 0 m

-- Compaction drops the entries that end before the new offset, and no others.
view-keep_from : (c : ℕ) (l : PacketLog) (p : ℕ) → c ≤ p → view (keep_from c l) p ≡ view l p
view-keep_from c [] p h = refl
view-keep_from c ((o, d) ∷ l) p h = ground (arith, view-keep_from c l p h)

Free-keep_from : (a b c : ℕ) (l : PacketLog) → Free a b l → Free a b (keep_from c l)
Free-keep_from a b c [] f = tt
Free-keep_from a b c ((o, d) ∷ l) f = ground (arith, Free-keep_from a b c l f.1)

IsDisjoint-keep_from : (c : ℕ) (l : PacketLog) → IsDisjoint l → IsDisjoint (keep_from c l)
IsDisjoint-keep_from c [] f = tt
IsDisjoint-keep_from c ((o, d) ∷ l) f =
    ground (arith, IsDisjoint-keep_from c l f.2, Free-keep_from o (o + length d) c l f.1)

IsTidy-keep_from : (c : ℕ) (l : PacketLog) → IsTidy l → IsTidy (keep_from c l)
IsTidy-keep_from c l (tidy_filled v) = tidy_filled (IsDisjoint-keep_from c l v)
IsTidy-keep_from c ((o, []) ∷ l) (tidy_marked v f) = elim (Bool-cases (ltb c (o + 0))) [
  | inl later ↦ rw later (tidy_marked (IsDisjoint-keep_from c l v) (Free-keep_from o (suc o) c l f))
  | inr passed ↦ rw passed (tidy_filled (IsDisjoint-keep_from c l v))
]

module _ (m : Manager) where
  IsTidy-compact : IsTidy m.log → IsTidy (compact m).log
  unfolding compact
  IsTidy-compact f = elim (Bool-cases (m.buffer.pos == 0 || not m.initialized)) [
    | inl idle ↦ rw idle f
    | inr consumed ↦ rw consumed (IsTidy-keep_from (m.offset + m.buffer.pos) m.log f)
  ]

  offset-compact : m.offset ≤ (compact m).offset
  unfolding compact
  offset-compact = ground arith

  pub view-compact : (p : ℕ) → (compact m).offset ≤ p → view (compact m).log p ≡ view m.log p
  unfolding compact
  view-compact p h = ground (arith, view-keep_from (m.offset + m.buffer.pos) m.log p)

  content-compact :
      (p : ℕ)
      → (compact m).offset ≤ p
      → get_elem? (compact m).buffer.content (p - (compact m).offset)
        ≡ get_elem? m.buffer.content (p - m.offset)
  unfolding compact
  content-compact p h =
      ground (arith, get_elem?-drop m.buffer.pos m.buffer.content (p - (m.offset + m.buffer.pos)))

  Holds-compact : (a b : ℕ) → Holds a b m → Holds a b (compact m)
  Holds-compact a b h p x behind away shown =
      content-compact p behind
      ∙ h p x (omega (arith, offset-compact)) away (sym (view-compact p behind) ∙ shown)

  pub compact-IsBacked : IsBacked m → IsBacked (compact m)
  compact-IsBacked v = record { tidy = IsTidy-compact v.tidy; holds = Holds-compact 0 0 v.holds }

-- Only the log, the offset and the content matter.
IsBacked-same :
    (m m' : Manager)
    → m'.log ≡ m.log
    → m'.offset ≡ m.offset
    → m'.buffer.content ≡ m.buffer.content
    → IsBacked m
    → IsBacked m'
IsBacked-same m m' el eo ec v = record {
  tidy = rw el v.tidy;
  holds =
      λ p x behind away shown. rw (ec, eo) (v.holds p x (rw eo at behind) away (rw el at shown));
}

compact_if : (b : Bool) (m : Manager) → IsBacked m → IsBacked (if b then compact m else m)
compact_if true m v = compact-IsBacked m v
compact_if false m v = v

content-skip_missing :
    (n : ℕ) (got : List ℕ × BytesIo) → (skip_missing n got).content ≡ got.1.content
content-skip_missing n got = ground arith

-- Reading keeps the buffer and the log consistent.
pub read_bytes-IsBacked : (n : ℕ) (m : Manager) → IsBacked m → IsBacked (read_bytes n m).1
unfolding read_bytes
read_bytes-IsBacked n m v =
    compact_if (leb (m.max_log_span / 2) (advance n m).buffer.pos) (advance n m)
      (IsBacked-same m (advance n m) refl refl (content-skip_missing n (BytesIo.read n m.buffer)) v)

-- What `read` returns begins with the bytes of the buffer.
get_elem?-pad_silence :
    (s n i x : ℕ) (packet : List ℕ)
    → get_elem? packet i ≡ some x
    → get_elem? (pad_silence s n packet) i ≡ some x
get_elem?-pad_silence s n i x packet h = ground (
  arith,
  get_elem?-append_left packet (replicate (n - length packet) s) i,
  get_elem?_bound packet i x h,
)

-- A reader gets every logged byte at its place: the byte `i` of what is read is the one that the log
-- shows `i` positions behind the cursor.
pub read_bytes_lem :
    (n i x : ℕ) (m : Manager)
    → IsBacked m
    → i < n
    → view m.log (cursor m + i) ≡ some x
    → get_elem? (read_bytes n m).0 i ≡ some x
unfolding read_bytes
read_bytes_lem n i x m v h shown =
    let place : cursor m + i - m.offset ≡ m.buffer.pos + i = omega arith in
    get_elem?-pad_silence m.silence_byte n i x _ (
      get_elem?-take n (drop m.buffer.pos m.buffer.content) i h
      ∙ get_elem?-drop m.buffer.pos m.buffer.content i
      ∙ (rw place at (v.holds (cursor m + i) x (omega arith) (inr (omega arith)) shown)))

-- The bytes around a placed interval stay, the interval holds the placed bytes.
Holds-placed :
    (a : ℕ) (bytes : List ℕ) (m : Manager)
    → 0 < length bytes
    → m.offset ≤ a
    → ((p : ℕ) → a ≤ p → p < a + length bytes → view m.log p ≡ get_elem? bytes (p - a))
    → Holds a (a + length bytes) m
    → Holds 0 0 (record m {
      buffer = seek m.buffer.pos (place m.silence_byte (a - m.offset) bytes m.buffer);
    })
Holds-placed a bytes m filled ahead shows h p x behind away shown = elim (dec_lt p a) [
  | yes before ↦
      place_out m.silence_byte (a - m.offset) bytes m.buffer filled (p - m.offset) x
        (inl (omega arith)) (h p x behind (inl before) shown)
  | no late ↦ elim (dec_lt p (a + length bytes)) [
    | yes within ↦
        let e : p - m.offset - (a - m.offset) ≡ p - a = omega arith in
        place_in m.silence_byte (a - m.offset) bytes m.buffer filled (p - m.offset) (omega arith)
          (omega arith)
        ∙ (rw e (sym (shows p (omega arith) within) ∙ shown))
    | no beyond ↦
        place_out m.silence_byte (a - m.offset) bytes m.buffer filled (p - m.offset) x
          (inr (omega arith)) (h p x behind (inr (omega arith)) shown)
  ]
]

single-IsTidy : (offset : ℕ) (bytes : List ℕ) → IsTidy ((offset, bytes) ∷ [])
single-IsTidy offset [] = tidy_marked tt tt
single-IsTidy offset (b ∷ bs) = tidy_filled (omega arith, tt, tt)

-- The log of a restart.
pub single-IsBacked :
    (m : Manager) (offset : ℕ) (bytes : List ℕ)
    → m.offset ≡ offset
    → m.log ≡ (offset, bytes) ∷ []
    → m.buffer.content ≡ bytes
    → IsBacked m
single-IsBacked m offset bytes eo el ec = record {
  tidy = rw el (single-IsTidy offset bytes);
  holds = λ p x behind away shown. ground (arith, eo, el, ec, (rw el at shown));
}

module _ (offset : ℕ) (bytes : List ℕ) (filled : 0 < length bytes) where
  -- The log shows the new packet, and the buffer holds all else.
  pub record IsPending (m : Manager) : Type 0 where
    pub apart : IsTidy m.log
    pub shows :
        (p : ℕ)
        → offset ≤ p
        → p < offset + length bytes
        → view m.log p ≡ get_elem? bytes (p - offset)
    pub others : Holds offset (offset + length bytes) m

  pub IsPending-compact :
      (m : Manager) → (compact m).offset ≤ offset → IsPending m → IsPending (compact m)
  IsPending-compact m ahead v = record {
    apart = IsTidy-compact m v.apart;
    shows = λ p h k. view-compact m p (omega arith) ∙ v.shows p h k;
    others = Holds-compact m offset (offset + length bytes) v.others;
  }

  pub write_at-IsBacked :
      (m : Manager) → m.offset ≤ offset → IsPending m → IsBacked (write_at offset bytes m)
  unfolding write_at
  write_at-IsBacked m ahead v = elim (Bool-cases (ltb m.max_log_span (offset - m.offset))) [
    | inl far ↦ rw far (single-IsBacked _ offset bytes refl refl refl)
    | inr near ↦ rw near (record {
      tidy = v.apart;
      holds = Holds-placed offset bytes m filled ahead v.shows v.others;
    })
  ]

  pub write_ahead-IsBacked :
      (m : Manager) → cursor m ≤ offset → IsPending m → IsBacked (write_ahead offset bytes m)
  unfolding write_ahead
  write_ahead-IsBacked m ahead v = elim (Bool-cases (ltb m.max_log_span (offset - m.offset))) [
    | inl far ↦
        let room : (compact m).offset ≤ offset = omega (arith, cursor-compact m) in
        rw far (write_at-IsBacked (compact m) room (IsPending-compact m room v))
    | inr near ↦ rw near (write_at-IsBacked m (omega arith) v)
  ]

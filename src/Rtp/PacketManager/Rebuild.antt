-- ===== src/Rtp/PacketManager/Rebuild.antt =====
-- `rebuild` from the log, and what stands in the new buffer.
use native.Mathlib.Decide.{dec_lt}
use rfcvoip.Prelude.{
  ℕ, suc, ◌+◌, ◌-◌, ◌≤◌, ◌<◌, ◌≡◌, refl, ◌∙◌, ◌⊎◌, true, false, none, some, List, [], ◌∷◌, length,
  drop, get_elem?, ◌==◌, arith, Bool-cases, inl, inr, lt→ltb, le→ltb, get_elem?-drop, length-drop,
  drop-nil, get_elem?-some,
}
use rfcvoip.Rtp.BytesIo.{BytesIo, open_bytes}
use rfcvoip.Rtp.PacketManager.{
  Manager, rebuild, rebuild_loop, rebuild_entry, sort_log, insert_sorted,
}
use rfcvoip.Rtp.PacketManager.Place.{place_in, place_out, place_empty}
use rfcvoip.Rtp.PacketManager.Log.{
  PacketLog, view, covers, Free, Apart, IsDisjoint, IsLoose, IsTidy, tidy_filled, tidy_marked,
}
use rfcvoip.Rtp.PacketManager.Log.Laws.{view-Free, Free-shrink}

-- Sorting changes the order of the entries only.
Free-insert_sorted :
    (a b : ℕ) (e : ℕ × List ℕ) (l : PacketLog)
    → Apart a b e
    → Free a b l
    → Free a b (insert_sorted e l)
unfolding insert_sorted
Free-insert_sorted a b e [] h f = (h, tt)
Free-insert_sorted a b e (g ∷ l) h f = ground (arith, Free-insert_sorted a b e l h f.1)

IsLoose-insert_sorted :
    (o : ℕ) (d : List ℕ) (l : PacketLog)
    → Free o (o + length d) l
    → IsLoose l
    → IsLoose (insert_sorted (o, d) l)
unfolding insert_sorted
IsLoose-insert_sorted o d [] f v = (tt, tt)
IsLoose-insert_sorted o d ((j, w) ∷ l) f v =
    ground
      (arith, IsLoose-insert_sorted o d l f.1 v.1, Free-insert_sorted j (j + length w) (o, d) l)

view-insert_sorted :
    (o : ℕ) (d : List ℕ) (l : PacketLog) (p : ℕ)
    → Free o (o + length d) l
    → view (insert_sorted (o, d) l) p ≡ view ((o, d) ∷ l) p
unfolding insert_sorted
view-insert_sorted o d [] p f = refl
view-insert_sorted o d ((j, w) ∷ l) p f = ground (arith, view-insert_sorted o d l p f.1)

Free-sort_log : (a b : ℕ) (l : PacketLog) → Free a b l → Free a b (sort_log l)
unfolding sort_log
Free-sort_log a b [] f = tt
Free-sort_log a b (e ∷ l) f = Free-insert_sorted a b e (sort_log l) f.0 (Free-sort_log a b l f.1)

IsLoose-sort_log : (l : PacketLog) → IsLoose l → IsLoose (sort_log l)
unfolding sort_log
IsLoose-sort_log [] v = tt
IsLoose-sort_log ((o, d) ∷ l) v =
    IsLoose-insert_sorted o d (sort_log l) (Free-sort_log o (o + length d) l v.0)
      (IsLoose-sort_log l v.1)

view-sort_log : (l : PacketLog) (p : ℕ) → IsLoose l → view (sort_log l) p ≡ view l p
unfolding sort_log
view-sort_log [] p v = refl
view-sort_log ((o, d) ∷ l) p v =
    view-insert_sorted o d (sort_log l) p (Free-sort_log o (o + length d) l v.0)
    ∙ ground (arith, view-sort_log l p v.1)

covers_bounds : (o : ℕ) (d : List ℕ) (p : ℕ) → covers o d p ≡ true → (o ≤ p) × (p < o + length d)
covers_bounds o d p h = ground arith

not_covers : (o : ℕ) (d : List ℕ) (p : ℕ) → covers o d p ≡ false → (p < o) ⊎ (o + length d ≤ p)
not_covers o d p h = ground arith

-- A position that shows nothing is covered by no entry.
hidden_head :
    (o : ℕ) (d : List ℕ) (l : PacketLog) (p : ℕ)
    → view ((o, d) ∷ l) p ≡ none
    → (covers o d p ≡ false) × (view l p ≡ none)
hidden_head o d l p h = elim (Bool-cases (covers o d p)) [
  | inl c ↦
      let (ge, lt) = covers_bounds o d p c in
      let (x, e) = get_elem?-some d (p - o) (omega arith) in ground (arith, c, e)
  | inr c ↦ (c, ground (arith, c))
]

module _ (s offset o : ℕ) (d : List ℕ) (buffer : BytesIo) (filled : 0 < length d) (p x : ℕ)
    (behind : offset ≤ p) where
  rebuild_entry_in :
      covers o d p ≡ true
      → get_elem? d (p - o) ≡ some x
      → get_elem? (rebuild_entry s offset (o, d) buffer).content (p - offset) ≡ some x
  unfolding rebuild_entry
  rebuild_entry_in c h =
      let (ge, lt) = covers_bounds o d p c in
      let size = length-drop (offset - o) d in
      elim (dec_lt o offset) [
        | yes old ↦
            let nonempty : (length (drop (offset - o) d) == 0) ≡ false = ground (arith, size) in
            let index : offset - o + (p - offset - 0) ≡ p - o = omega arith in
            rw (lt→ltb o offset old, nonempty)
              (place_in s 0 (drop (offset - o) d) buffer (omega (arith, size)) (p - offset)
                  (omega arith) (omega (arith, size))
                ∙ get_elem?-drop (offset - o) d (p - offset - 0)
                ∙ rw index h)
        | no recent ↦
            let index : p - offset - (o - offset) ≡ p - o = omega arith in
            rw (le→ltb o offset (omega arith)) (
              place_in s (o - offset) d buffer filled (p - offset) (omega arith) (omega arith)
              ∙ rw index h)
      ]

  rebuild_entry_out :
      covers o d p ≡ false
      → get_elem? buffer.content (p - offset) ≡ some x
      → get_elem? (rebuild_entry s offset (o, d) buffer).content (p - offset) ≡ some x
  unfolding rebuild_entry
  rebuild_entry_out c h =
      let away = not_covers o d p c in
      let size = length-drop (offset - o) d in
      elim (dec_lt o offset) [
        | yes old ↦ elim (dec_lt offset (o + length d)) [
          | yes reaches ↦
              let nonempty : (length (drop (offset - o) d) == 0) ≡ false = ground (arith, size) in
              rw (lt→ltb o offset old, nonempty)
                (place_out s 0 (drop (offset - o) d) buffer (omega (arith, size)) (p - offset) x
                  (inr (omega (arith, size))) h)
          | no passed ↦
              let nothing : (length (drop (offset - o) d) == 0) ≡ true = ground (arith, size) in
              rw (lt→ltb o offset old, nothing) h
        ]
        | no recent ↦
            let apart : (p - offset < o - offset) ⊎ (o - offset + length d ≤ p - offset) =
              omega arith in
            rw (le→ltb o offset (omega arith))
              (place_out s (o - offset) d buffer filled (p - offset) x apart h)
      ]

-- An empty entry at most fills a gap.
rebuild_entry_empty :
    (s offset o : ℕ) (buffer : BytesIo) (i x : ℕ)
    → get_elem? buffer.content i ≡ some x
    → get_elem? (rebuild_entry s offset (o, []) buffer).content i ≡ some x
unfolding rebuild_entry
rebuild_entry_empty s offset o buffer i x h =
    let nothing : drop {A = ℕ} (offset - o) [] ≡ [] = drop-nil (offset - o) in
    elim (dec_lt o offset) [
      | yes old ↦ rw (lt→ltb o offset old, nothing) h
      | no recent ↦ rw (le→ltb o offset (omega arith)) (place_empty s (o - offset) buffer i x h)
    ]

module _ (s offset p x : ℕ) (behind : offset ≤ p) where
  loop_keeps :
      (l : PacketLog) (buffer : BytesIo)
      → IsLoose l
      → view l p ≡ none
      → get_elem? buffer.content (p - offset) ≡ some x
      → get_elem? (rebuild_loop s offset l buffer).content (p - offset) ≡ some x
  unfolding rebuild_loop
  loop_keeps [] buffer v hidden h = h
  loop_keeps ((o, []) ∷ l) buffer v hidden h =
      loop_keeps l (rebuild_entry s offset (o, []) buffer) v.1 (hidden_head o [] l p hidden).1
        (rebuild_entry_empty s offset o buffer (p - offset) x h)
  loop_keeps ((o, b ∷ bs) ∷ l) buffer v hidden h =
      let (c, hidden') = hidden_head o (b ∷ bs) l p hidden in
      loop_keeps l (rebuild_entry s offset (o, b ∷ bs) buffer) v.1 hidden'
        (rebuild_entry_out s offset o (b ∷ bs) buffer (omega arith) p x behind c h)

  loop_fills :
      (l : PacketLog) (buffer : BytesIo)
      → IsLoose l
      → view l p ≡ some x
      → get_elem? (rebuild_loop s offset l buffer).content (p - offset) ≡ some x
  unfolding rebuild_loop
  loop_fills [] buffer v h = cc
  loop_fills ((o, d) ∷ l) buffer v h = elim (Bool-cases (covers o d p)) [
    | inl c ↦
        let (ge, lt) = covers_bounds o d p c in
        loop_keeps l (rebuild_entry s offset (o, d) buffer) v.1
          (view-Free o (o + length d) p l v.0 ge lt)
          (rebuild_entry_in s offset o d buffer (omega (arith, ge, lt)) p x behind c
            (ground (arith, c)))
    | inr c ↦ loop_fills l (rebuild_entry s offset (o, d) buffer) v.1 (ground (arith, c))
  ]

disjoint-IsLoose : (l : PacketLog) → IsDisjoint l → IsLoose l
disjoint-IsLoose [] v = tt
disjoint-IsLoose ((o, d) ∷ l) v = (v.1, disjoint-IsLoose l v.2)

tidy-IsLoose : (l : PacketLog) → IsTidy l → IsLoose l
tidy-IsLoose l (tidy_filled v) = disjoint-IsLoose l v
tidy-IsLoose ((o, []) ∷ l) (tidy_marked v f) =
    (Free-shrink o (suc o) o (o + 0) l f (omega arith) (omega arith), disjoint-IsLoose l v)

-- After `rebuild(False)` every byte that the log shows from the offset on stands in the buffer, and
-- the log, the offset and the position are as before.
pub rebuild_holds :
    (offset : ℕ) (bytes : List ℕ) (m : Manager) (p x : ℕ)
    → IsTidy m.log
    → m.offset ≤ p
    → view m.log p ≡ some x
    → get_elem? (rebuild false offset bytes m).buffer.content (p - m.offset) ≡ some x
unfolding rebuild
rebuild_holds offset bytes m p x v behind shown =
    loop_fills m.silence_byte m.offset p x behind (sort_log m.log) (open_bytes [])
      (IsLoose-sort_log m.log (tidy-IsLoose m.log v))
      (view-sort_log m.log p (tidy-IsLoose m.log v) ∙ shown)

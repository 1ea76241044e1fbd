-- ===== src/Rtp/PacketManager/Log/Prune.antt =====
-- What the pruning loop of `RTPPacketManager.write` leaves of the log.
use native.Mathlib.Decide.{dec_lt}
use rfcvoip.Prelude.{
  ℕ, ◌+◌, ◌-◌, ◌<◌, ◌≡◌, refl, ◌≢◌, Bool, false, ◌&&◌, ◌||◌, none, some, List, [], ◌∷◌, length,
  drop, ltb, if◌then◌else◌, arith, length-drop, get_elem?-drop, lt→ltb, le→ltb, le→leb, lt→leb,
}
use rfcvoip.Rtp.PacketManager.Log.{
  PacketLog, lookup, set, erase, covers, view, Free, IsDisjoint, cut_overlap, prune_entry, prune,
}
use rfcvoip.Rtp.PacketManager.Log.Laws.{
  Free-erase_self, IsDisjoint-erase, view-erase, lookup-erase_ne, IsDisjoint-set, view-set,
  lookup-set-Free, lookup-set_self, length-lookup, Apart-lookup, Free-shrink, view-lookup,
}
use rfcvoip.Rtp.PacketManager.Log.Cut.{
  inside, view-cut_overlap, IsDisjoint-cut_overlap, lookup-cut_overlap,
}

-- Positions that the loop clears.
abbrev pub dead : (cutoff offset end : ℕ) → ℕ → Bool
dead cutoff offset end p = ltb p cutoff || inside offset end p

module _ (cutoff offset end o : ℕ) (d : List ℕ) (ordered : offset < end) (m : PacketLog)
    (disjoint : IsDisjoint m) (here : lookup o m ≡ some d) where
  module _ (old : o < cutoff) (reaches : cutoff < o + length d) where
    rest_size : length (drop (cutoff - o) d) ≡ o + length d - cutoff
    rest_size = omega (arith, length-drop (cutoff - o) d)

    rest-Free : Free cutoff (cutoff + length (drop (cutoff - o) d)) (erase o m)
    rest-Free =
        Free-shrink o (o + length d) _ _ (erase o m) (Free-erase_self o d m disjoint here)
          (omega arith) (omega (arith, rest_size))

    moved_IsDisjoint : IsDisjoint (set cutoff (drop (cutoff - o) d) (erase o m))
    moved_IsDisjoint =
        IsDisjoint-set cutoff _ (omega (arith, rest_size)) _ (IsDisjoint-erase o m disjoint)
          rest-Free

    moved_here :
        lookup cutoff (set cutoff (drop (cutoff - o) d) (erase o m)) ≡ some (drop (cutoff - o) d)
    moved_here =
        lookup-set_self cutoff _ (omega (arith, rest_size)) _ (IsDisjoint-erase o m disjoint)
          rest-Free

    view_moved :
        (p : ℕ)
        → view
            (cut_overlap offset end
              (cutoff, drop (cutoff - o) d)
              (set cutoff (drop (cutoff - o) d) (erase o m)))
            p
          ≡ (if covers o d p && dead cutoff offset end p then none else view m p)
    view_moved p = ground (
      arith,
      view-cut_overlap offset end cutoff (drop (cutoff - o) d) ordered _ moved_IsDisjoint moved_here
          p,
      view-set cutoff (drop (cutoff - o) d) (omega (arith, rest_size)) _ p
          (IsDisjoint-erase o m disjoint) rest-Free,
      view-erase o d m p disjoint here,
      view-lookup o d m p disjoint here,
      get_elem?-drop (cutoff - o) d (p - cutoff),
      rest_size,
    )

    lookup_moved :
        (j : ℕ) (w : List ℕ)
        → o ≢ j
        → lookup j m ≡ some w
        → lookup j (
            cut_overlap offset end
              (cutoff, drop (cutoff - o) d)
              (set cutoff (drop (cutoff - o) d) (erase o m)))
          ≡ some w
    lookup_moved j w ne found =
        let kept : lookup j (erase o m) ≡ some w = lookup-erase_ne o j w m ne found in
        let filled : 0 < length w = length-lookup j w m disjoint found in
        let apart = Apart-lookup cutoff _ j w (erase o m) rest-Free kept in
        lookup-cut_overlap offset end cutoff (drop (cutoff - o) d) ordered _ moved_IsDisjoint
          moved_here j w (λ e. ground (arith, e, apart, filled, rest_size))
          (lookup-set-Free cutoff _ (omega (arith, rest_size)) j w _ (IsDisjoint-erase o m disjoint)
            rest-Free kept)

  view-prune_entry :
      (p : ℕ)
      → view (prune_entry cutoff offset end (o, d) m) p
        ≡ (if covers o d p && dead cutoff offset end p then none else view m p)
  unfolding prune_entry
  view-prune_entry p = elim (dec_lt o cutoff) [
    | yes old ↦ elim (dec_lt cutoff (o + length d)) [
      | yes reaches ↦
          rw (lt→ltb o cutoff old, lt→leb (o + length d) cutoff reaches) (view_moved old reaches p)
      | no passed ↦
          rw (lt→ltb o cutoff old, le→leb (o + length d) cutoff (omega arith))
            (ground (arith, view-erase o d m p disjoint here))
    ]
    | no recent ↦
        rw (le→ltb o cutoff (omega arith))
          (ground (arith, view-cut_overlap offset end o d ordered m disjoint here p))
  ]

  IsDisjoint-prune_entry : IsDisjoint (prune_entry cutoff offset end (o, d) m)
  unfolding prune_entry
  IsDisjoint-prune_entry = elim (dec_lt o cutoff) [
    | yes old ↦ elim (dec_lt cutoff (o + length d)) [
      | yes reaches ↦
          rw (lt→ltb o cutoff old, lt→leb (o + length d) cutoff reaches)
            (IsDisjoint-cut_overlap offset end cutoff (drop (cutoff - o) d) ordered _
              (moved_IsDisjoint old reaches) (moved_here old reaches))
      | no passed ↦
          rw (lt→ltb o cutoff old, le→leb (o + length d) cutoff (omega arith))
            (IsDisjoint-erase o m disjoint)
    ]
    | no recent ↦
        rw (le→ltb o cutoff (omega arith))
          (IsDisjoint-cut_overlap offset end o d ordered m disjoint here)
  ]

  lookup-prune_entry :
      (j : ℕ) (w : List ℕ)
      → o ≢ j
      → lookup j m ≡ some w
      → lookup j (prune_entry cutoff offset end (o, d) m) ≡ some w
  unfolding prune_entry
  lookup-prune_entry j w ne found = elim (dec_lt o cutoff) [
    | yes old ↦ elim (dec_lt cutoff (o + length d)) [
      | yes reaches ↦
          rw (lt→ltb o cutoff old, lt→leb (o + length d) cutoff reaches)
            (lookup_moved old reaches j w ne found)
      | no passed ↦
          rw (lt→ltb o cutoff old, le→leb (o + length d) cutoff (omega arith))
            (lookup-erase_ne o j w m ne found)
    ]
    | no recent ↦
        rw (le→ltb o cutoff (omega arith))
          (lookup-cut_overlap offset end o d ordered m disjoint here j w ne found)
  ]

-- The entries of the snapshot that the loop has still to visit stand in the log unchanged.
abbrev Kept : PacketLog → PacketLog → Type 0
Kept [] m = Unit
Kept ((o, d) ∷ r) m = (lookup o m ≡ some d) × Kept r m

abbrev covered : PacketLog → ℕ → Bool
covered [] p = false
covered ((o, d) ∷ r) p = covers o d p || covered r p

Kept-cons :
    (k : ℕ) (v : List ℕ) (r m : PacketLog)
    → Free k (k + length v) r
    → 0 < length v
    → IsDisjoint r
    → Kept r m
    → Kept r ((k, v) ∷ m)
Kept-cons k v [] m f filled dr h = tt
Kept-cons k v ((j, w) ∷ r) m f filled dr h =
    (ground (arith, f.0, dr.0, h.0), Kept-cons k v r m f.1 filled dr.2 h.1)

Kept-self : (m : PacketLog) → IsDisjoint m → Kept m m
Kept-self [] f = tt
Kept-self ((o, d) ∷ m) f = (ground arith, Kept-cons o d m m f.1 f.0 f.2 (Kept-self m f.2))

view_uncovered : (m : PacketLog) (p : ℕ) → covered m p ≡ false → view m p ≡ none
view_uncovered [] p h = refl
view_uncovered ((o, d) ∷ m) p h = ground (arith, view_uncovered m p)

module _ (cutoff offset end : ℕ) (ordered : offset < end) where
  Kept-prune_entry :
      (o : ℕ) (d : List ℕ) (r m : PacketLog)
      → IsDisjoint m
      → lookup o m ≡ some d
      → 0 < length d
      → Free o (o + length d) r
      → IsDisjoint r
      → Kept r m
      → Kept r (prune_entry cutoff offset end (o, d) m)
  Kept-prune_entry o d [] m f here filled g dr k = tt
  Kept-prune_entry o d ((j, w) ∷ r) m f here filled g dr k = (
    lookup-prune_entry cutoff offset end o d ordered m f here j w
        (λ e. ground (arith, e, g.0, dr.0)) k.0,
    Kept-prune_entry o d r m f here filled g.1 dr.2 k.1,
  )

  IsDisjoint-prune_from :
      (r m : PacketLog)
      → IsDisjoint r
      → IsDisjoint m
      → Kept r m
      → IsDisjoint (prune cutoff offset end r m)
  unfolding prune
  IsDisjoint-prune_from [] m dr f k = f
  IsDisjoint-prune_from ((o, d) ∷ r) m dr f k =
      IsDisjoint-prune_from r _ dr.2 (IsDisjoint-prune_entry cutoff offset end o d ordered m f k.0)
        (Kept-prune_entry o d r m f k.0 dr.0 dr.1 dr.2 k.1)

  view-prune_from :
      (r m : PacketLog) (p : ℕ)
      → IsDisjoint r
      → IsDisjoint m
      → Kept r m
      → view (prune cutoff offset end r m) p
        ≡ (if covered r p && dead cutoff offset end p then none else view m p)
  unfolding prune
  view-prune_from [] m p dr f k = refl
  view-prune_from ((o, d) ∷ r) m p dr f k = ground (
    arith,
    view-prune_from r (prune_entry cutoff offset end (o, d) m) p dr.2
        (IsDisjoint-prune_entry cutoff offset end o d ordered m f k.0)
        (Kept-prune_entry o d r m f k.0 dr.0 dr.1 dr.2 k.1),
    view-prune_entry cutoff offset end o d ordered m f k.0 p,
  )

  pub IsDisjoint-prune : (m : PacketLog) → IsDisjoint m → IsDisjoint (prune cutoff offset end m m)
  IsDisjoint-prune m f = IsDisjoint-prune_from m m f f (Kept-self m f)

  -- The loop clears exactly the positions before the cutoff and in the new packet's interval.
  pub view-prune :
      (m : PacketLog) (p : ℕ)
      → IsDisjoint m
      → view (prune cutoff offset end m m) p ≡ (if dead cutoff offset end p then none else view m p)
  view-prune m p f = ground (arith, view-prune_from m m p f f (Kept-self m f), view_uncovered m p)

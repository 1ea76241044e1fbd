-- ===== src/Rtp/PacketManager/Log/Cut.antt =====
-- What remains of one log entry that the new packet overlaps.
use rfcvoip.Prelude.{
  ℕ, ◌+◌, ◌-◌, ◌<◌, ◌≡◌, inl, inr, ◌≢◌, Bool, ◌&&◌, none, some, List, length, take, drop, get_elem?,
  ltb, leb, if◌then◌else◌, arith, length-take, length-drop, get_elem?-take, get_elem?-drop,
  Bool-cases, lt→ltb, le→ltb,
}
use native.Mathlib.Decide.{dec_lt}
use rfcvoip.Rtp.PacketManager.Log.{
  PacketLog, lookup, erase, covers, view, Free, IsDisjoint, keep_before, keep_behind, cut_overlap,
}
use rfcvoip.Rtp.PacketManager.Log.Laws.{
  Free-erase_self, IsDisjoint-erase, view-erase, lookup-erase_ne, Free-set, IsDisjoint-set,
  view-set, lookup-set-Free, Free-shrink, view-lookup,
}

abbrev pub inside : ℕ → ℕ → ℕ → Bool
inside a b p = leb a p && ltb p b

module _ (offset end o : ℕ) (d : List ℕ) (ordered : offset < end) (m : PacketLog)
    (disjoint : IsDisjoint m) (free : Free o (o + length d) m) (met : offset < o + length d)
    (starts : o < end) where
  before_size : o < offset → length (take (offset - o) d) ≡ offset - o
  before_size h = omega (arith, length-take (offset - o) d)

  before-Free : o < offset → Free o (o + length (take (offset - o) d)) m
  before-Free h =
      Free-shrink o (o + length d) _ _ m free (omega arith) (omega (arith, before_size h))

  view-keep_before :
      (p : ℕ)
      → view (keep_before offset (o, d) m) p
        ≡ (if covers o d p && ltb p offset then get_elem? d (p - o) else view m p)
  unfolding keep_before
  view-keep_before p = elim (dec_lt o offset) [
    | yes h ↦ ground (
      arith,
      view-set o (take (offset - o) d) (omega (arith, before_size h)) m p disjoint (before-Free h),
      get_elem?-take (offset - o) d (p - o),
      before_size h,
    )
    | no h ↦ ground arith
  ]

  IsDisjoint-keep_before : IsDisjoint (keep_before offset (o, d) m)
  unfolding keep_before
  IsDisjoint-keep_before = elim (dec_lt o offset) [
    | yes h ↦ rw (lt→ltb o offset h) (
        IsDisjoint-set o (take (offset - o) d) (omega (arith, before_size h)) m disjoint
          (before-Free h))
    | no h ↦ rw (le→ltb o offset (omega arith)) disjoint
  ]

  Free-keep_before : Free end (o + length d) (keep_before offset (o, d) m)
  unfolding keep_before
  Free-keep_before =
      let free' : Free end (o + length d) m =
        Free-shrink o (o + length d) _ _ m free (omega arith) (omega arith) in
      elim (dec_lt o offset) [
        | yes h ↦ rw (lt→ltb o offset h) (
            Free-set end (o + length d) o (take (offset - o) d) m free'
              (inl (omega (arith, before_size h))))
        | no h ↦ rw (le→ltb o offset (omega arith)) free'
      ]

  lookup-keep_before :
      (j : ℕ) (w : List ℕ) → lookup j m ≡ some w → lookup j (keep_before offset (o, d) m) ≡ some w
  unfolding keep_before
  lookup-keep_before j w found = elim (dec_lt o offset) [
    | yes h ↦ rw (lt→ltb o offset h) (
        lookup-set-Free o (take (offset - o) d) (omega (arith, before_size h)) j w m disjoint
          (before-Free h) found)
    | no h ↦ rw (le→ltb o offset (omega arith)) found
  ]

module _ (end o : ℕ) (d : List ℕ) (starts : o < end) (m : PacketLog) (disjoint : IsDisjoint m)
    (free : Free end (o + length d) m) where
  behind_size : end < o + length d → length (drop (end - o) d) ≡ o + length d - end
  behind_size h = omega (arith, length-drop (end - o) d)

  behind-Free : end < o + length d → Free end (end + length (drop (end - o) d)) m
  behind-Free h =
      Free-shrink end (o + length d) _ _ m free (omega arith) (omega (arith, behind_size h))

  view-keep_behind :
      (p : ℕ)
      → view (keep_behind end (o, d) m) p
        ≡ (if covers o d p && leb end p then get_elem? d (p - o) else view m p)
  unfolding keep_behind
  view-keep_behind p = elim (dec_lt end (o + length d)) [
    | yes h ↦ ground (
      arith,
      view-set end (drop (end - o) d) (omega (arith, behind_size h)) m p disjoint (behind-Free h),
      get_elem?-drop (end - o) d (p - end),
      behind_size h,
    )
    | no h ↦ ground arith
  ]

  IsDisjoint-keep_behind : IsDisjoint (keep_behind end (o, d) m)
  unfolding keep_behind
  IsDisjoint-keep_behind = elim (dec_lt end (o + length d)) [
    | yes h ↦ rw (lt→ltb end _ h) (
        IsDisjoint-set end (drop (end - o) d) (omega (arith, behind_size h)) m disjoint
          (behind-Free h))
    | no h ↦ rw (le→ltb end (o + length d) (omega arith)) disjoint
  ]

  lookup-keep_behind :
      (j : ℕ) (w : List ℕ) → lookup j m ≡ some w → lookup j (keep_behind end (o, d) m) ≡ some w
  unfolding keep_behind
  lookup-keep_behind j w found = elim (dec_lt end (o + length d)) [
    | yes h ↦ rw (lt→ltb end _ h) (
        lookup-set-Free end (drop (end - o) d) (omega (arith, behind_size h)) j w m disjoint
          (behind-Free h) found)
    | no h ↦ rw (le→ltb end (o + length d) (omega arith)) found
  ]

module _ (offset end o : ℕ) (d : List ℕ) (ordered : offset < end) (m : PacketLog)
    (disjoint : IsDisjoint m) (here : lookup o m ≡ some d) where
  module _ (met : offset < o + length d) (starts : o < end) where
    free : Free o (o + length d) (erase o m)
    free = Free-erase_self o d m disjoint here

    disjoint1 : IsDisjoint (erase o m)
    disjoint1 = IsDisjoint-erase o m disjoint

    disjoint2 : IsDisjoint (keep_before offset (o, d) (erase o m))
    disjoint2 = IsDisjoint-keep_before offset end o d ordered (erase o m) disjoint1 free met starts

    free2 : Free end (o + length d) (keep_before offset (o, d) (erase o m))
    free2 = Free-keep_before offset end o d ordered (erase o m) disjoint1 free met starts

    view_met :
        (p : ℕ)
        → view (keep_behind end (o, d) (keep_before offset (o, d) (erase o m))) p
          ≡ (if covers o d p && inside offset end p then none else view m p)
    view_met p = ground (
      arith,
      view-keep_behind end o d starts _ disjoint2 free2 p,
      view-keep_before offset end o d ordered _ disjoint1 free met starts p,
      view-erase o d m p disjoint here,
      view-lookup o d m p disjoint here,
    )

  pub view-cut_overlap :
      (p : ℕ)
      → view (cut_overlap offset end (o, d) m) p
        ≡ (if covers o d p && inside offset end p then none else view m p)
  unfolding cut_overlap
  view-cut_overlap p = elim (dec_lt offset (o + length d)) [
    | yes met ↦ elim (dec_lt o end) [
      | yes starts ↦ rw (lt→ltb o end starts, lt→ltb offset _ met) (view_met met starts p)
      | no late ↦ ground arith
    ]
    | no early ↦ ground arith
  ]

  pub IsDisjoint-cut_overlap : IsDisjoint (cut_overlap offset end (o, d) m)
  unfolding cut_overlap
  IsDisjoint-cut_overlap = elim (dec_lt offset (o + length d)) [
    | yes met ↦ elim (dec_lt o end) [
      | yes starts ↦
          rw (lt→ltb o end starts, lt→ltb offset _ met)
            (IsDisjoint-keep_behind end o d starts _ (disjoint2 met starts) (free2 met starts))
      | no late ↦ rw (le→ltb o end (omega arith)) disjoint
    ]
    | no early ↦ elim (Bool-cases (ltb o end)) [
      | inl e ↦ rw (e, le→ltb offset (o + length d) (omega arith)) disjoint
      | inr e ↦ rw e disjoint
    ]
  ]

  pub lookup-cut_overlap :
      (j : ℕ) (w : List ℕ)
      → o ≢ j
      → lookup j m ≡ some w
      → lookup j (cut_overlap offset end (o, d) m) ≡ some w
  unfolding cut_overlap
  lookup-cut_overlap j w ne found = elim (dec_lt offset (o + length d)) [
    | yes met ↦ elim (dec_lt o end) [
      | yes starts ↦
          rw (lt→ltb o end starts, lt→ltb offset _ met)
            (lookup-keep_behind end o d starts _ (disjoint2 met starts) (free2 met starts) j w (
              lookup-keep_before offset end o d ordered _ (disjoint1 met starts) (free met starts)
                met starts j w (lookup-erase_ne o j w m ne found)))
      | no late ↦ rw (le→ltb o end (omega arith)) found
    ]
    | no early ↦ elim (Bool-cases (ltb o end)) [
      | inl e ↦ rw (e, le→ltb offset (o + length d) (omega arith)) found
      | inr e ↦ rw e found
    ]
  ]

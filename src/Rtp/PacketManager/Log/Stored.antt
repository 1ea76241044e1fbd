-- ===== src/Rtp/PacketManager/Log/Stored.antt =====
-- The log with a new packet in it, for a log that may begin with the empty entry of a restart.
use native.Mathlib.Decide.{dec_lt}
use rfcvoip.Prelude.{
  ℕ, suc, ◌+◌, ◌-◌, ◌≤◌, ◌<◌, ◌≡◌, refl, sym, ap, ◌∙◌, ◌⊎◌, inl, inr, none, Option, List, [], ◌∷◌,
  length, ltb, ◌==◌, if◌then◌else◌, arith, length-drop, get_elem?, Bool-cases,
}
use rfcvoip.Rtp.PacketManager.Log.{
  PacketLog, set, covers, view, Apart, Free, IsDisjoint, IsTidy, tidy_filled, tidy_marked,
  cut_overlap, keep_before, keep_behind, prune_entry, prune,
}
use rfcvoip.Rtp.PacketManager.Log.Laws.{Free-set, Free-of_view, IsDisjoint-set, view-set, view-Free}
use rfcvoip.Rtp.PacketManager.Log.Prune.{dead, view-prune, IsDisjoint-prune}

module _ (cutoff offset end o : ℕ) (kept : cutoff ≤ o) (away : (o ≤ offset) ⊎ (end ≤ o)) where
  prune_entry-marked :
      (j : ℕ) (w : List ℕ) (log : PacketLog)
      → 0 < length w
      → Apart o (suc o) (j, w)
      → prune_entry cutoff offset end (j, w) ((o, []) ∷ log)
        ≡ (o, []) ∷ prune_entry cutoff offset end (j, w) log
  unfolding prune_entry cut_overlap keep_before keep_behind
  prune_entry-marked j w log full apart = ground (arith, length-drop (cutoff - j) w)

  prune-marked :
      (snapshot log : PacketLog)
      → IsDisjoint snapshot
      → Free o (suc o) snapshot
      → prune cutoff offset end snapshot ((o, []) ∷ log)
        ≡ (o, []) ∷ prune cutoff offset end snapshot log
  unfolding prune
  prune-marked [] log v f = refl
  prune-marked ((j, w) ∷ snapshot) log v f =
      ap (prune cutoff offset end snapshot) (prune_entry-marked j w log v.0 f.0)
      ∙ prune-marked snapshot (prune_entry cutoff offset end (j, w) log) v.2 f.1

module _ (cutoff offset end o : ℕ) (log : PacketLog) where
  mark_gone :
      (o < cutoff) ⊎ ((offset < o) × (o < end))
      → prune_entry cutoff offset end (o, []) ((o, []) ∷ log) ≡ log
  unfolding prune_entry cut_overlap keep_before keep_behind
  mark_gone h = ground arith

  mark_kept :
      cutoff ≤ o
      → (o ≤ offset) ⊎ (end ≤ o)
      → prune_entry cutoff offset end (o, []) ((o, []) ∷ log) ≡ (o, []) ∷ log
  unfolding prune_entry cut_overlap keep_before keep_behind
  mark_kept h k = ground arith

  -- The mark is pruned, or it stays in front.
  prune-mark :
      IsDisjoint log
      → Free o (suc o) log
      → (prune cutoff offset end ((o, []) ∷ log) ((o, []) ∷ log) ≡ prune cutoff offset end log log)
        ⊎ ((prune cutoff offset end ((o, []) ∷ log) ((o, []) ∷ log)
              ≡ (o, []) ∷ prune cutoff offset end log log)
            × ((o ≤ offset) ⊎ (end ≤ o)))
  unfolding prune
  prune-mark v f = elim (dec_lt o cutoff) [
    | yes old ↦ inl (ap (prune cutoff offset end log) (mark_gone (inl old)))
    | no recent ↦ elim (dec_lt offset o) [
      | yes behind ↦ elim (dec_lt o end) [
        | yes within ↦ inl (ap (prune cutoff offset end log) (mark_gone (inr (behind, within))))
        | no beyond ↦ stays (omega arith) (inr (omega arith))
      ]
      | no before ↦ stays (omega arith) (inl (omega arith))
    ]
  ]
    where
      stays :
          cutoff ≤ o
          → (away : (o ≤ offset) ⊎ (end ≤ o))
          → (prune cutoff offset end log (prune_entry cutoff offset end (o, []) ((o, []) ∷ log))
              ≡ prune cutoff offset end log log)
            ⊎ ((prune cutoff offset end log (prune_entry cutoff offset end (o, []) ((o, []) ∷ log))
                  ≡ (o, []) ∷ prune cutoff offset end log log)
                × ((o ≤ offset) ⊎ (end ≤ o)))
      stays kept away = inr (
        ap (prune cutoff offset end log) (mark_kept kept away)
            ∙ prune-marked cutoff offset end o kept away log log v f,
        away,
      )

-- The view of a log does not depend on a mark.
view_mark : (o : ℕ) (log : PacketLog) (p : ℕ) → view ((o, []) ∷ log) p ≡ view log p
view_mark o log p = ground arith

module _ (cutoff offset : ℕ) (bytes : List ℕ) (full : 0 < length bytes) where
  -- The log that the packet is put in, and the log behind that.
  abbrev pruned : PacketLog → PacketLog
  pruned log = prune cutoff offset (offset + length bytes) log log

  abbrev pub stored : PacketLog → PacketLog
  stored log = set offset bytes (pruned log)

  -- What a log shows in which the packet was stored.
  abbrev Shows : PacketLog → PacketLog → Type 0
  Shows log log' =
      (p : ℕ)
      → view log' p ≡ (
          if covers offset bytes p
          then get_elem? bytes (p - offset)
          else if ltb p cutoff
          then none
          else view log p)

  module _ (log : PacketLog) (v : IsDisjoint log) where
    pruned-view :
        (p : ℕ)
        → view (pruned log) p
          ≡ (if dead cutoff offset (offset + length bytes) p then none else view log p)
    pruned-view p = view-prune cutoff offset (offset + length bytes) (omega arith) log p v

    pruned-IsDisjoint : IsDisjoint (pruned log)
    pruned-IsDisjoint = IsDisjoint-prune cutoff offset (offset + length bytes) (omega arith) log v

    pruned-Free : Free offset (offset + length bytes) (pruned log)
    pruned-Free =
        Free-of_view offset (offset + length bytes) (pruned log) (omega arith) pruned-IsDisjoint
          (λ p h k. ground (arith, pruned-view p))

    Shows-stored : Shows log (stored log)
    Shows-stored p = ground (
      arith,
      view-set offset bytes full (pruned log) p pruned-IsDisjoint pruned-Free,
      pruned-view p,
    )

    Shows-cons : Shows log ((offset, bytes) ∷ pruned log)
    Shows-cons p = ground (arith, pruned-view p)

    stored-IsDisjoint : IsDisjoint (stored log)
    stored-IsDisjoint = IsDisjoint-set offset bytes full (pruned log) pruned-IsDisjoint pruned-Free

    -- A mark in front of the pruned log
    mark-stored :
        (o : ℕ)
        → Free o (suc o) log
        → (o ≤ offset) ⊎ (offset + length bytes ≤ o)
        → IsTidy (set offset bytes ((o, []) ∷ pruned log))
          × Shows log (set offset bytes ((o, []) ∷ pruned log))
    mark-stored o f away = elim (Bool-cases (offset == o)) [
      | inl same ↦ (
        rw same (tidy_filled (full, pruned-Free, pruned-IsDisjoint)),
        λ p. rw same (Shows-cons p),
      )
      | inr other ↦ (
        rw other (
            tidy_marked stored-IsDisjoint (
              Free-set o (suc o) offset bytes (pruned log)
                (Free-of_view o (suc o) (pruned log) (omega arith) pruned-IsDisjoint
                  (λ p h k. ground (arith, pruned-view p, view-Free o (suc o) p log f h k)))
                (ground (arith, other, away)))),
        λ p. rw other (view_mark o (stored log) p ∙ Shows-stored p),
      )
    ]

  Shows-mark : (o : ℕ) (log log' : PacketLog) → Shows log log' → Shows ((o, []) ∷ log) log'
  Shows-mark o log log' h p =
      h p
      ∙ ap
          (λ (w : Option ℕ).
            if covers offset bytes p
            then get_elem? bytes (p - offset)
            else if ltb p cutoff
            then none
            else w)
          (sym (view_mark o log p))

  -- Storing a packet in a tidy log
  pub stored-IsTidy : (log : PacketLog) → IsTidy log → IsTidy (stored log) × Shows log (stored log)
  stored-IsTidy log (tidy_filled v) = (tidy_filled (stored-IsDisjoint log v), Shows-stored log v)
  stored-IsTidy ((o, []) ∷ log) (tidy_marked v f) =
      elim (prune-mark cutoff offset (offset + length bytes) o log v f) [
        | inl gone ↦ (
          rw gone (tidy_filled (stored-IsDisjoint log v)),
          λ p. rw gone (Shows-mark o log (stored log) (Shows-stored log v) p),
        )
        | inr (stays, away) ↦
            let (tidy, shows) = mark-stored log v o f away in
            (
              rw stays tidy,
              λ p. rw stays (Shows-mark o log (set offset bytes ((o, []) ∷ pruned log)) shows p),
            )
      ]

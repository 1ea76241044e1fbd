-- ===== src/Rtp/Selection/Order.antt =====
-- The sort of codecs in rfcvoip/RTP.py by their scores.
use rfcvoip.Prelude.{
  ◌≡◌, refl, sym, ap, ◌∙◌, Bool, true, false, not, ◌&&◌, inl, inr, List, [], ◌∷◌, filter, All,
  if◌then◌else◌, arith, Bool-cases,
}
use rfcvoip.Prelude.Int.{ℤ, ◌≤ℤ◌, ltb_ℤ}
use rfcvoip.Rtp.Packet.{Assoc}
use rfcvoip.Rtp.Selection.{
  Registry, Entry, stays_before, insert_entry, sort_entries, prioritize_payload_type_map,
}

-- `f` has no higher score than `e`.
abbrev pub IsBelow : Registry → Entry → Entry → Type 0
IsBelow g e f = g.codec_priority_score f.1 ≤ℤ g.codec_priority_score e.1

-- The scores do not rise.
abbrev pub IsSorted : Registry → List Entry → Type 0
IsSorted g [] = Unit
IsSorted g (e ∷ es) = All (IsBelow g e) es × IsSorted g es

before-IsBelow : (g : Registry) (e f : Entry) → stays_before g e f ≡ true → IsBelow g e f
before-IsBelow g e f h = ground (arith, h)

after-IsBelow : (g : Registry) (e f : Entry) → stays_before g e f ≡ false → IsBelow g f e
after-IsBelow g e f h = ground (arith, h)

All-IsBelow :
    (g : Registry) (e f : Entry) (es : List Entry)
    → IsBelow g e f
    → All (IsBelow g f) es
    → All (IsBelow g e) es
All-IsBelow g e f [] h k = tt
All-IsBelow g e f (d ∷ es) h (kd, k) = (omega (arith, h, kd), All-IsBelow g e f es h k)

All-insert :
    (g : Registry) (P : Entry → Type 0) (e : Entry) (es : List Entry)
    → P e
    → All P es
    → All P (insert_entry g e es)
unfolding insert_entry
All-insert g P e [] h k = (h, tt)
All-insert g P e (f ∷ es) h (kf, k) = elim (Bool-cases (stays_before g e f)) [
  | inl first ↦ rw first (h, (kf, k))
  | inr later ↦ rw later (kf, All-insert g P e es h k)
]

insert-IsSorted :
    (g : Registry) (e : Entry) (es : List Entry) → IsSorted g es → IsSorted g (insert_entry g e es)
unfolding insert_entry
insert-IsSorted g e [] h = (tt, tt)
insert-IsSorted g e (f ∷ es) (hf, h) = elim (Bool-cases (stays_before g e f)) [
  | inl first ↦
      let below = before-IsBelow g e f first in
      rw first ((below, All-IsBelow g e f es below hf), (hf, h))
  | inr later ↦
      rw later
        (All-insert g (IsBelow g f) e es (after-IsBelow g e f later) hf, insert-IsSorted g e es h)
]

pub sort-IsSorted : (g : Registry) (es : List Entry) → IsSorted g (sort_entries g es)
unfolding sort_entries
sort-IsSorted g [] = tt
sort-IsSorted g (e ∷ es) = insert-IsSorted g e (sort_entries g es) (sort-IsSorted g es)

-- An entry that stays before all of them is inserted at their front.
insert_front :
    (g : Registry) (e : Entry) (es : List Entry)
    → All (IsBelow g e) es
    → insert_entry g e es ≡ e ∷ es
unfolding insert_entry
insert_front g e [] h = refl
insert_front g e (f ∷ es) (h, hs) =
    let first : stays_before g e f ≡ true = ground (arith, h) in rw first

All-filter :
    (P : Entry → Type 0) (p : Entry → Bool) (es : List Entry) → All P es → All P (filter p es)
All-filter P p [] h = tt
All-filter P p (e ∷ es) (h, hs) = elim (Bool-cases (p e)) [
  | inl kept ↦ rw kept (h, All-filter P p es hs)
  | inr left ↦ rw left (All-filter P p es hs)
]

-- An entry that does not stay before the first one goes behind it.
behind :
    (g : Registry) (e f : Entry) (b : Bool) (es : List Entry)
    → stays_before g e f ≡ false
    → f ∷ (if b then insert_entry g e es else es)
      ≡ (if b then insert_entry g e (f ∷ es) else f ∷ es)
unfolding insert_entry
behind g e f true es h = rw h
behind g e f false es h = refl

-- A filter of the inserted list.
filter-insert :
    (g : Registry) (p : Entry → Bool) (e : Entry) (es : List Entry)
    → IsSorted g es
    → filter p (insert_entry g e es) ≡ (if p e then insert_entry g e (filter p es) else filter p es)
unfolding insert_entry
filter-insert g p e [] h = refl
filter-insert g p e (f ∷ es) (hf, h) = elim (Bool-cases (stays_before g e f)) [
  | inl first ↦
      let below = before-IsBelow g e f first in
      let front =
        insert_front g e (filter p (f ∷ es))
          (All-filter (IsBelow g e) p (f ∷ es) (below, All-IsBelow g e f es below hf)) in
      rw first (ap (λ (xs : List Entry). if p e then xs else filter p (f ∷ es)) (sym front))
  | inr later ↦ elim (Bool-cases (p f)) [
    | inl kept ↦
        rw (later, kept)
          (ap (λ (xs : List Entry). f ∷ xs) (filter-insert g p e es h)
            ∙ behind g e f (p e) (filter p es) later)
    | inr left ↦ rw (later, left) (filter-insert g p e es h)
  ]
]

pub filter-sort :
    (g : Registry) (p : Entry → Bool) (es : List Entry)
    → filter p (sort_entries g es) ≡ sort_entries g (filter p es)
unfolding sort_entries
filter-sort g p [] = refl
filter-sort g p (e ∷ es) =
    filter-insert g p e (sort_entries g es) (sort-IsSorted g es) ∙ elim (Bool-cases (p e)) [
      | inl kept ↦ rw kept (ap (insert_entry g e) (filter-sort g p es))
      | inr left ↦ rw left (filter-sort g p es)
    ]

-- Equality of two scores
abbrev pub same_ℤ : ℤ → ℤ → Bool
same_ℤ a b = not (ltb_ℤ a b) && not (ltb_ℤ b a)

-- Entries of one score
abbrev pub has_score : Registry → ℤ → Entry → Bool
has_score g score e = same_ℤ (g.codec_priority_score e.1) score

-- Of two entries with one score the earlier stays before.
same_score_stays :
    (g : Registry) (score : ℤ) (e f : Entry)
    → stays_before g e f ≡ false
    → has_score g score e ≡ true
    → has_score g score f ≡ false
same_score_stays g score e f later same = elim (Bool-cases (has_score g score f)) [
  | inl other ↦ absurd (ground (arith, later, same, other))
  | inr differs ↦ differs
]

insert-same_score :
    (g : Registry) (score : ℤ) (e : Entry) (es : List Entry)
    → filter (has_score g score) (insert_entry g e es) ≡ filter (has_score g score) (e ∷ es)
unfolding insert_entry
insert-same_score g score e [] = refl
insert-same_score g score e (f ∷ es) = elim (Bool-cases (stays_before g e f)) [
  | inl first ↦ rw first refl
  | inr later ↦ elim (Bool-cases (has_score g score e)) [
    | inl same ↦
        rw (later, same_score_stays g score e f later same, insert-same_score g score e es, same)
          refl
    | inr other ↦ rw (later, insert-same_score g score e es, other) refl
  ]
]

sort-same_score :
    (g : Registry) (score : ℤ) (es : List Entry)
    → filter (has_score g score) (sort_entries g es) ≡ filter (has_score g score) es
unfolding sort_entries
sort-same_score g score [] = refl
sort-same_score g score (e ∷ es) =
    insert-same_score g score e (sort_entries g es)
    ∙ ap (λ (xs : List Entry). if has_score g score e then e ∷ xs else xs)
        (sort-same_score g score es)

-- The scores of the prioritized map do not rise; for each score its entries are those of the map, in the
-- same order, so that no entry is lost, added or changed, and ties preserve the input order; and
-- keeping only the entries that pass a test gives the same map before and after it is prioritized.
pub prioritize-IsSorted :
    (g : Registry) (assoc : Assoc) (p : Entry → Bool)
    → IsSorted g (prioritize_payload_type_map g assoc)
      × ((score : ℤ)
          → filter (has_score g score) (prioritize_payload_type_map g assoc)
            ≡ filter (has_score g score) assoc)
      × (filter p (prioritize_payload_type_map g assoc)
          ≡ prioritize_payload_type_map g (filter p assoc))
unfolding prioritize_payload_type_map
prioritize-IsSorted g assoc p =
    (sort-IsSorted g assoc, λ score. sort-same_score g score assoc, filter-sort g p assoc)

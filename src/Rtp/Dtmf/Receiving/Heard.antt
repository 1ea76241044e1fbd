-- ===== src/Rtp/Dtmf/Receiving/Heard.antt =====
-- What the receiver keeps while the segments of one event arrive.
use mathlib.Core.Path.{subst}
use rfcvoip.Prelude.{
  ℕ, ◌≡◌, refl, ap, ◌∙◌, Bool, true, false, ◌||◌, Option, some, inl, inr, List, [], ◌∷◌, ◌++◌,
  length, drop, All, ltb, ltb→lt, if◌then◌else◌, arith, Bool-cases, ==_self,
}
use rfcvoip.Rtp.Dtmf.Receiving.{
  done, EventKey, same_key, Segments, find_segment, set_segment, pop_segment, has_key, remove_key,
  Receiver, forget_known, forget_first, forget_oldest,
}

pub same_key_self : (k : EventKey) → same_key k k ≡ true
same_key_self k = rw (==_self k.ssrc, ==_self k.timestamp, ==_self k.code)

key_of : ℕ → ℕ → ℕ → EventKey
key_of ssrc timestamp code = record { ssrc = ssrc; timestamp = timestamp; code = code }

same_key_eq : (a b : EventKey) → same_key a b ≡ true → a ≡ b
unfolding key_of
same_key_eq a b h =
    let same_ssrc : a.ssrc ≡ b.ssrc = ground arith in
    let same_time : a.timestamp ≡ b.timestamp = ground arith in
    let same_code : a.code ≡ b.code = ground arith in
    ap (λ (x : ℕ). key_of x a.timestamp a.code) same_ssrc
    ∙ ap (λ (x : ℕ). key_of b.ssrc x a.code) same_time
    ∙ ap (key_of b.ssrc b.timestamp) same_code

other_key : (k j i : EventKey) → same_key k j ≡ false → same_key j i ≡ true → same_key k i ≡ false
other_key k j i h same = subst (λ x. same_key k x ≡ false) (same_key_eq j i same) h

pub find-set :
    (k : EventKey) (v : ℕ × Bool) (m : Segments) → find_segment k (set_segment k v m) ≡ some v
unfolding find_segment set_segment
find-set k v [] = rw (same_key_self k)
find-set k v ((j, w) ∷ m) = elim (Bool-cases (same_key k j)) [
  | inl same ↦ rw same (ap (λ (b : Bool). if b then some v else find_segment k m) same)
  | inr other ↦ rw other (
      ap (λ (b : Bool). if b then some w else find_segment k (set_segment k v m)) other
      ∙ find-set k v m)
]

pub find-set_other :
    (k j : EventKey) (v : ℕ × Bool) (m : Segments)
    → same_key k j ≡ false
    → find_segment k (set_segment j v m) ≡ find_segment k m
unfolding find_segment set_segment
find-set_other k j v [] h = rw h
find-set_other k j v ((i, w) ∷ m) h = elim (Bool-cases (same_key j i)) [
  | inl same ↦ rw (same, other_key k j i h same)
  | inr other ↦ rw other (
      ap (λ (r : Option (ℕ × Bool)). if same_key k i then some w else r) (find-set_other k j v m h))
]

pub find-pop_other :
    (k j : EventKey) (m : Segments)
    → same_key k j ≡ false
    → find_segment k (pop_segment j m) ≡ find_segment k m
unfolding find_segment pop_segment
find-pop_other k j [] h = refl
find-pop_other k j ((i, w) ∷ m) h = elim (Bool-cases (same_key j i)) [
  | inl same ↦ rw (same, other_key k j i h same)
  | inr other ↦
      rw other (
        ap (λ (r : Option (ℕ × Bool)). if same_key k i then some w else r) (find-pop_other k j m h))
]

or_true : (b : Bool) → (b || true) ≡ true
or_true true = refl
or_true false = refl

pub has_key-append_last : (k : EventKey) (js : List EventKey) → has_key k (js ++ k ∷ []) ≡ true
unfolding has_key
has_key-append_last k [] = rw (same_key_self k)
has_key-append_last k (j ∷ js) =
    ap (λ (b : Bool). same_key k j || b) (has_key-append_last k js) ∙ or_true (same_key k j)

pub has_key_none :
    (k : EventKey) (js : List EventKey) → All (λ j. same_key k j ≡ false) js → has_key k js ≡ false
unfolding has_key
has_key_none k [] h = refl
has_key_none k (j ∷ js) (h, hs) = rw (h, has_key_none k js hs)

-- What `forget_oldest` keeps, for a key that has just been added.
pub record IsKept (k : EventKey) (front : List EventKey) (r r' : Receiver) : Type 0 where
  pub result : forget_oldest r ≡ done r'
  pub dropped : ℕ
  pub received : r'.received ≡ drop dropped front ++ k ∷ []
  pub order : r'.order ≡ r'.received
  pub found : find_segment k r'.segments ≡ find_segment k r.segments
  pub listening : r'.listening ≡ r.listening
  pub digits : r'.digits ≡ r.digits

remove_first : (k : EventKey) (ks : List EventKey) → remove_key k (k ∷ ks) ≡ some ks
unfolding remove_key
remove_first k ks = rw (same_key_self k)

pub forget_oldest-IsKept :
    (k : EventKey) (front : List EventKey) (r : Receiver)
    → r.received ≡ front ++ k ∷ []
    → r.order ≡ r.received
    → All (λ j. same_key k j ≡ false) front
    → (r' : Receiver) × IsKept k front r r'
unfolding forget_oldest
forget_oldest-IsKept k front r e eo h = elim (Bool-cases (ltb 256 (length r.order))) [
  | inr few ↦ (
    r,
    record {
      result = rw few;
      dropped = 0;
      received = e;
      order = eo;
      found = refl;
      listening = refl;
      digits = refl;
    },
  )
  | inl many ↦
      elim front
          as (λ f.
            r.received ≡ f ++ k ∷ []
            → All (λ j. same_key k j ≡ false) f
            → (r' : Receiver) × IsKept k f r r') [
              | [] ↦ λ e h.
                  absurd (omega (arith, ltb→lt _ _ many, ap (length {A = EventKey}) (eo ∙ e)))
              | x ∷ xs ↦ λ e h. (
                record r {
                  order = xs ++ k ∷ [];
                  received = xs ++ k ∷ [];
                  segments = pop_segment x r.segments;
                },
                record {
                  result = rw many (
                      ap (λ (o : List EventKey). forget_first o r) (eo ∙ e)
                      ∙ ap
                          (λ (ks : List EventKey).
                            forget_known x (xs ++ k ∷ []) (remove_key x ks) r)
                          e
                      ∙ ap (λ (o : Option (List EventKey)). forget_known x (xs ++ k ∷ []) o r)
                          (remove_first x (xs ++ k ∷ [])));
                  dropped = 1;
                  received = refl;
                  order = refl;
                  found = find-pop_other k x r.segments h.0;
                  listening = refl;
                  digits = refl;
                },
              )
            ]
        e h
]

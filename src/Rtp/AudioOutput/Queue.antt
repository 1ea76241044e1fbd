-- ===== src/Rtp/AudioOutput/Queue.antt =====
-- The queue as one string of bytes: what its loops take from the front, and what they leave.
use native.Mathlib.Decide.{dec_lt}
use rfcvoip.Prelude.{
  ℕ, zero, suc, ◌+◌, ◌-◌, ◌≤◌, min, ◌≡◌, refl, sym, ap, ◌∙◌, List, [], ◌∷◌, ◌++◌, length, take,
  drop, arith, lt→ltb, le→ltb, append_assoc, append-nil, length-append, take-append_le,
  drop-append_le, take-append_ge, drop-append_ge, drop-nil,
}
use rfcvoip.Rtp.AudioOutput.{Chunks, take_chunks, discard_chunks, expire_chunks}

abbrev pub content : Chunks → List ℕ
content [] = []
content ((t, c) ∷ chunks) = c ++ content chunks

take-nil : (n : ℕ) → take {A = ℕ} n [] ≡ []
take-nil zero = refl
take-nil (suc n) = refl

-- `_take_locked` takes the first bytes of the queue, and leaves the others.
pub take_chunks_lem :
    (n : ℕ) (chunks : Chunks)
    → ((take_chunks n chunks).0 ≡ take n (content chunks))
      × (content (take_chunks n chunks).1 ≡ drop n (content chunks))
unfolding take_chunks
take_chunks_lem n [] = (sym (take-nil n), sym (drop-nil n))
take_chunks_lem zero (c ∷ chunks) = (refl, refl)
take_chunks_lem (suc n) ((t, c) ∷ chunks) = elim (dec_lt (suc n) (length c)) [
  | yes part ↦
      let count : min (suc n) (length c) ≡ suc n = omega arith in
      rw (count, lt→ltb (suc n) (length c) part)
        (
          sym (take-append_le (suc n) c (content chunks) (omega arith)),
          sym (drop-append_le (suc n) c (content chunks) (omega arith)),
        )
  | no whole ↦
      let count : min (suc n) (length c) ≡ length c = omega arith in
      let (taken, left) = take_chunks_lem (suc n - length c) chunks in
      rw (count, le→ltb (length c) (length c) (omega arith))
        (
          ap (λ (r : List ℕ). c ++ r) taken
              ∙ sym (take-append_ge (suc n) c (content chunks) (omega arith)),
          left ∙ sym (drop-append_ge (suc n) c (content chunks) (omega arith)),
        )
]

pub discard_chunks_lem :
    (n : ℕ) (chunks : Chunks) → content (discard_chunks n chunks) ≡ drop n (content chunks)
unfolding discard_chunks
discard_chunks_lem n [] = sym (drop-nil n)
discard_chunks_lem zero (c ∷ chunks) = refl
discard_chunks_lem (suc n) ((t, c) ∷ chunks) = elim (dec_lt (suc n) (length c)) [
  | yes part ↦
      let count : min (suc n) (length c) ≡ suc n = omega arith in
      rw (count, lt→ltb (suc n) (length c) part)
        (sym (drop-append_le (suc n) c (content chunks) (omega arith)))
  | no whole ↦
      let count : min (suc n) (length c) ≡ length c = omega arith in
      rw (count, le→ltb (length c) (length c) (omega arith))
        (discard_chunks_lem (suc n - length c) chunks
          ∙ sym (drop-append_ge (suc n) c (content chunks) (omega arith)))
]

-- The loop over old chunks removes a prefix, and says how long it was.
pub expire_chunks_lem :
    (now latency : ℕ) (chunks : Chunks)
    → ((expire_chunks now latency chunks).0 ≤ length (content chunks))
      × (content (expire_chunks now latency chunks).1
          ≡ drop (expire_chunks now latency chunks).0 (content chunks))
unfolding expire_chunks
expire_chunks_lem now latency [] = (omega arith, refl)
expire_chunks_lem now latency ((t, c) ∷ chunks) = elim (dec_lt (t + latency) now) [
  | yes old ↦
      let (bound, left) = expire_chunks_lem now latency chunks in
      let k = (expire_chunks now latency chunks).0 in
      let e : length c + k - length c ≡ k = omega arith in
      rw (lt→ltb (t + latency) now old) (
        omega (arith, bound, length-append c (content chunks)),
        left ∙ sym (drop-append_ge (length c + k) c (content chunks) (omega arith) ∙ rw e),
      )
  | no fresh ↦ rw (le→ltb (t + latency) now (omega arith)) (omega arith, refl)
]

pub content-append :
    (chunks : Chunks) (t : ℕ) (c : List ℕ) → content (chunks ++ (t, c) ∷ []) ≡ content chunks ++ c
content-append [] t c = append-nil c
content-append ((t', c') ∷ chunks) t c =
    ap (λ (r : List ℕ). c' ++ r) (content-append chunks t c)
    ∙ sym (append_assoc c' (content chunks) c)

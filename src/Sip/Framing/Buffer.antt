-- ===== src/Sip/Framing/Buffer.antt =====
-- The stream buffer of rfcvoip/SIPTransport.py when more bytes arrive: the searches in it.
use mathlib.Core.Path.{subst}
use rfcvoip.Prelude.{
  ℕ, zero, suc, ◌+◌, ◌≤◌, ◌≡◌, refl, sym, ap, ◌∙◌, Bool, true, false, ◌⊎◌, Option, none, some, inl,
  inr, List, [], ◌∷◌, ◌++◌, length, take, drop, if◌then◌else◌, Bool-cases, arith,
}
use rfcvoip.Text.{starts_with}
use rfcvoip.Sip.Result.{ok, ◌>>=◌}
use rfcvoip.Sip.Framing.{
  header_end, is_crlf, discard_keepalive, later, find_end, body_length, length_after,
  stream_message_length,
}

starts_with-append :
    (p b c : List ℕ) → length p ≤ length b → starts_with p (b ++ c) ≡ starts_with p b
starts_with-append [] b c h = refl
starts_with-append (x ∷ p) [] c h = elim h [ ]
starts_with-append (x ∷ p) (y ∷ b) c h = rw (starts_with-append p b c (omega arith))

starts_with-le : (p b : List ℕ) → starts_with p b ≡ true → length p ≤ length b
starts_with-le [] b h = omega arith
starts_with-le (x ∷ p) [] h = cc
starts_with-le (x ∷ p) (y ∷ b) h = ground (arith, starts_with-le p b)

found_cases :
    (here : Bool) (rest : Option ℕ) (i : ℕ)
    → (if here then some 0 else later rest) ≡ some i
    → (here ≡ true) × (i ≡ 0) ⊎ (j : ℕ) × (here ≡ false) × (rest ≡ some j) × (i ≡ suc j)
found_cases true rest i h = inl (refl, ground (arith, h))
found_cases false none i h = absurd (ground (arith, h))
found_cases false (some j) i h = inr (j, refl, refl, ground (arith, h))

-- The end of the headers lies inside the buffer.
pub find_end-le : (b : List ℕ) (i : ℕ) → find_end b ≡ some i → i + 4 ≤ length b
unfolding find_end
find_end-le [] i h = absurd (ground (arith, h))
find_end-le (x ∷ b) i h = elim (found_cases (starts_with header_end (x ∷ b)) (find_end b) i h) [
  | inl (here, e) ↦ omega (arith, starts_with-le header_end (x ∷ b) here)
  | inr (j, there, later, e) ↦ omega (arith, find_end-le b j later)
]

found_here :
    {here : Bool} (rest : Option ℕ) {i : ℕ}
    → here ≡ true
    → i ≡ 0
    → (if here then some 0 else later rest) ≡ some i
found_here rest h e = rw (h, e) refl

found_later :
    {here : Bool} {rest : Option ℕ} {i j : ℕ}
    → here ≡ false
    → rest ≡ some j
    → i ≡ suc j
    → (if here then some 0 else later rest) ≡ some i
found_later h r e = rw (h, r, e) refl

pub find_end-append : (b c : List ℕ) (i : ℕ) → find_end b ≡ some i → find_end (b ++ c) ≡ some i
unfolding find_end
find_end-append [] c i h = absurd (ground (arith, h))
find_end-append (x ∷ b) c i h =
    let same = starts_with-append header_end (x ∷ b) c (omega (arith, find_end-le (x ∷ b) i h)) in
    elim (found_cases (starts_with header_end (x ∷ b)) (find_end b) i h) [
      | inl (here, e) ↦ found_here (find_end (b ++ c)) (same ∙ here) e
      | inr (j, there, later, e) ↦ found_later (same ∙ there) (find_end-append b c j later) e
    ]

pub discard-append :
    (b c : List ℕ)
    → 2 ≤ length (discard_keepalive b)
    → discard_keepalive (b ++ c) ≡ discard_keepalive b ++ c
unfolding discard_keepalive
discard-append [] c h = absurd (omega arith)
discard-append (x ∷ []) c h = absurd (omega arith)
discard-append (x ∷ y ∷ b) c h = elim (Bool-cases (is_crlf x y)) [
  | inl crlf ↦ rw (crlf) (
      discard-append b c
        (subst (λ (t : Bool). 2 ≤ length (if t then discard_keepalive b else x ∷ y ∷ b)) crlf h))
  | inr other ↦ rw other refl
]

pub discard-discard :
    (b c : List ℕ) → discard_keepalive (discard_keepalive b ++ c) ≡ discard_keepalive (b ++ c)
unfolding discard_keepalive
discard-discard [] c = refl
discard-discard (x ∷ []) c = refl
discard-discard (x ∷ y ∷ b) c = elim (Bool-cases (is_crlf x y)) [
  | inl crlf ↦ rw crlf (discard-discard b c)
  | inr other ↦ rw (other) (rw other refl)
]

pub length-discard : (b : List ℕ) → length (discard_keepalive b) ≤ length b
unfolding discard_keepalive
length-discard [] = omega arith
length-discard (x ∷ []) = omega arith
length-discard (x ∷ y ∷ b) = ground (arith, length-discard b)

pub take-append_le {ℓ} :
    {A : Type ℓ} (n : ℕ) (xs ys : List A) → n ≤ length xs → take n (xs ++ ys) ≡ take n xs
take-append_le zero xs ys h = refl
take-append_le (suc n) [] ys h = elim h [ ]
take-append_le (suc n) (x ∷ xs) ys h = rw (take-append_le n xs ys (omega arith))

pub drop-append_le {ℓ} :
    {A : Type ℓ} (n : ℕ) (xs ys : List A) → n ≤ length xs → drop n (xs ++ ys) ≡ drop n xs ++ ys
drop-append_le zero xs ys h = refl
drop-append_le (suc n) [] ys h = elim h [ ]
drop-append_le (suc n) (x ∷ xs) ys h = drop-append_le n xs ys (omega arith)

-- Once the headers are complete, more bytes do not change the length of the message.
pub message_length-append :
    (b c : List ℕ) (i : ℕ)
    → find_end b ≡ some i
    → stream_message_length (b ++ c) ≡ stream_message_length b
unfolding stream_message_length
message_length-append b c i h =
    ap (length_after (b ++ c)) (find_end-append b c i h)
    ∙ ap (λ (t : List ℕ). body_length t >>= λ n. ok (some (i + 4 + n)))
        (take-append_le i b c (omega (arith, find_end-le b i h)))
    ∙ sym (ap (length_after b) h)

-- With no end of the headers there is nothing to wait for but bytes.
pub no_end : (b : List ℕ) → find_end b ≡ none → stream_message_length b ≡ ok none
unfolding stream_message_length
no_end b h = ap (length_after b) h

pub complete-append :
    (b c : List ℕ) (i : ℕ)
    → find_end (discard_keepalive b) ≡ some i
    → (discard_keepalive (b ++ c) ≡ discard_keepalive b ++ c)
      × (stream_message_length (discard_keepalive (b ++ c))
          ≡ stream_message_length (discard_keepalive b))
complete-append b c i h =
    let grown = discard-append b c (omega (arith, find_end-le (discard_keepalive b) i h)) in
    (grown, ap stream_message_length grown ∙ message_length-append (discard_keepalive b) c i h)

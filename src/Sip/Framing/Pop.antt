-- ===== src/Sip/Framing/Pop.antt =====
-- The pops of rfcvoip/SIPTransport.py when more bytes arrive.
use rfcvoip.Prelude.{
  ℕ, ◌+◌, ◌≤◌, ◌≡◌, refl, sym, ap, ◌∙◌, Bool, true, false, Option, none, some, inl, inr, List, [],
  ◌++◌, append-nil, length, take, drop, le→ltb, take-append-drop, length-append, length-drop, ltb,
  if◌then◌else◌, Bool-cases, Option-cases, arith,
}
use rfcvoip.Sip.Result.{Result, err, ok, ◌>>=◌, Result-cases}
use rfcvoip.Sip.Framing.{
  FramingError, discard_keepalive, find_end, body_length, length_after, stream_message_length,
  pop_needed, pop_stream_message, has_needed, stream_has_message,
}
use rfcvoip.Sip.Framing.Buffer.{
  discard-discard, length-discard, take-append_le, drop-append_le, no_end, complete-append,
}

-- What the result of a pop says of the length that it goes by.
abbrev popped :
    List ℕ → Result FramingError (Option ℕ) → Result FramingError (Option (List ℕ) × List ℕ)
popped left r = r >>= λ needed. ok (pop_needed left needed)

popped_err :
    (left : List ℕ) (r : Result FramingError (Option ℕ)) (e : FramingError)
    → popped left r ≡ err e
    → r ≡ err e
popped_err left (err d) e h = ground (arith, h)
popped_err left (ok needed) e h = absurd (ground (arith, h))

popped-none :
    (left : List ℕ) (r : Result FramingError (Option ℕ)) (l : List ℕ)
    → popped left r ≡ ok (none, l)
    → l ≡ left
popped-none left (err d) l h = absurd (ground (arith, h))
popped-none left (ok none) l h = ground (arith, h)
popped-none left (ok (some needed)) l h = ground (arith, h)

popped-some :
    (left : List ℕ) (r : Result FramingError (Option ℕ)) (m l : List ℕ)
    → popped left r ≡ ok (some m, l)
    → (needed : ℕ) × (r ≡ ok (some needed))
      × (needed ≤ length left)
      × (m ≡ take needed left)
      × (l ≡ drop needed left)
popped-some left (err d) m l h = absurd (ground (arith, h))
popped-some left (ok none) m l h = absurd (ground (arith, h))
popped-some left (ok (some needed)) m l h =
    (needed, refl, ground (arith, h), ground (arith, h), ground (arith, h))

popped-take :
    (left c : List ℕ) (r : Result FramingError (Option ℕ)) (needed : ℕ)
    → r ≡ ok (some needed)
    → needed ≤ length left
    → popped (left ++ c) r ≡ ok (some (take needed left), drop needed left ++ c)
popped-take left c r needed e h =
    ap (popped (left ++ c)) e
    ∙ ap
        (λ (t : Bool). ok (
          if t
          then (none, left ++ c)
          else (some (take needed (left ++ c)), drop needed (left ++ c))))
        (le→ltb (length (left ++ c)) needed (omega (arith, length-append left c)))
    ∙ ap ok (ground (arith, take-append_le needed left c h, drop-append_le needed left c h))

some_ok : {m n : ℕ} → ◌≡◌ {A = Result FramingError (Option ℕ)} (ok (some m)) (ok (some n)) → m ≡ n
some_ok h = ground (arith, h)

needed_four :
    (left : List ℕ) (end : Option ℕ) (needed : ℕ)
    → length_after left end ≡ ok (some needed)
    → 4 ≤ needed
needed_four left none needed h = absurd (ground (arith, h))
needed_four left (some i) needed h = elim (Result-cases (body_length (take i left))) [
  | inl (e, failed) ↦
      absurd (cc (h, ap (λ (r : Result FramingError ℕ). r >>= λ n. ok (some (i + 4 + n))) failed))
  | inr (n, found) ↦ omega (
    arith,
    some_ok (sym h ∙ ap (λ (r : Result FramingError ℕ). r >>= λ n. ok (some (i + 4 + n))) found),
  )
]

pub pop-append_err :
    (b c : List ℕ) (e : FramingError)
    → pop_stream_message b ≡ err e
    → pop_stream_message (b ++ c) ≡ err e
unfolding pop_stream_message
pop-append_err b c e h =
    let failed = popped_err (discard_keepalive b) _ e h in
    elim (Option-cases (find_end (discard_keepalive b))) [
      | inl missing ↦ absurd (cc (failed, no_end (discard_keepalive b) missing))
      | inr (i, found) ↦
          ap (popped (discard_keepalive (b ++ c))) ((complete-append b c i found).1 ∙ failed)
    ]

pub pop-append :
    (b c m left : List ℕ)
    → pop_stream_message b ≡ ok (some m, left)
    → pop_stream_message (b ++ c) ≡ ok (some m, left ++ c)
unfolding pop_stream_message
pop-append b c m left h =
    let (needed, length_found, fits, em, el) = popped-some (discard_keepalive b) _ m left h in
    elim (Option-cases (find_end (discard_keepalive b))) [
      | inl missing ↦ absurd (cc (length_found, no_end (discard_keepalive b) missing))
      | inr (i, found) ↦
          let grown = complete-append b c i found in
          ap (λ (l : List ℕ). popped l (stream_message_length (discard_keepalive (b ++ c)))) grown.0
          ∙ popped-take (discard_keepalive b) c _ needed (grown.1 ∙ length_found) fits
          ∙ rw (em, el) refl
    ]

pub pop_waits :
    (b left : List ℕ) → pop_stream_message b ≡ ok (none, left) → left ≡ discard_keepalive b
unfolding pop_stream_message
pop_waits b left h = popped-none (discard_keepalive b) _ left h

-- A pop of what a pop has left does not see the discarded prefix.
pub pop-discard :
    (b c : List ℕ) → pop_stream_message (discard_keepalive b ++ c) ≡ pop_stream_message (b ++ c)
unfolding pop_stream_message
pop-discard b c = ap (λ (l : List ℕ). popped l (stream_message_length l)) (discard-discard b c)

-- A popped message stands at the front of the buffer behind the prefix, and has four bytes at least.
pub pop_front :
    (b m left : List ℕ)
    → pop_stream_message b ≡ ok (some m, left)
    → (discard_keepalive b ≡ m ++ left) × (length left + 4 ≤ length b)
unfolding pop_stream_message stream_message_length
pop_front b m left h =
    let (needed, length_found, fits, em, el) = popped-some (discard_keepalive b) _ m left h in
    let four =
      needed_four (discard_keepalive b) (find_end (discard_keepalive b)) needed length_found in
    (
      rw (em, el) (sym (take-append-drop needed (discard_keepalive b))),
      omega (arith, ap length el, length-drop needed (discard_keepalive b), length-discard b),
    )

-- Whether the buffer has a message, as a pop of it tells.
abbrev pub has_popped : Result FramingError (Option (List ℕ) × List ℕ) → Result FramingError Bool
has_popped (err e) = err e
has_popped (ok (none, left)) = ok false
has_popped (ok (some m, left)) = ok true

has_popped-popped :
    (left : List ℕ) (r : Result FramingError (Option ℕ))
    → (r >>= λ needed. ok (has_needed left needed)) ≡ has_popped (popped left r)
has_popped-popped left (err e) = refl
has_popped-popped left (ok none) = refl
has_popped-popped left (ok (some needed)) = elim (Bool-cases (ltb (length left) needed)) [
  | inl short ↦ rw short (ap ok (ground (arith, short)))
  | inr enough ↦ rw enough (ap ok (ground (arith, enough)))
]

-- A buffer has a message exactly when a pop of it, or of what the test leaves of it, gives one; and
-- where the pop raises, the test raises the same error.
pub stream_has_message-pop :
    (b : List ℕ)
    → ((stream_has_message b).0 ≡ has_popped (pop_stream_message b))
      × (pop_stream_message (stream_has_message b).1 ≡ pop_stream_message b)
unfolding stream_has_message pop_stream_message
stream_has_message-pop b = (
  has_popped-popped (discard_keepalive b) (stream_message_length (discard_keepalive b)),
  ap (λ (l : List ℕ). popped l (stream_message_length l))
      (ap discard_keepalive (sym (append-nil (discard_keepalive b)))
        ∙ discard-discard b []
        ∙ ap discard_keepalive (append-nil b)),
)

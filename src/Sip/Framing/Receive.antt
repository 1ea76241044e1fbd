-- ===== src/Sip/Framing/Receive.antt =====
-- `_recv_stream_message` of rfcvoip/SIPTransport.py against the bytes that arrive, however they are
-- cut into chunks.
use mathlib.Core.Path.{subst}
use rfcvoip.Prelude.{
  ℕ, ◌≤◌, ◌≡◌, refl, sym, ap, ◌∙◌, false, Option, none, some, List, [], ◌∷◌, ◌++◌, append_assoc,
  append-nil, All, length, concat, arith,
}
use rfcvoip.Sip.Result.{Result, err, ok}
use rfcvoip.Sip.Framing.{
  FramingError, framing, Event, received, Received, message, raised, or_more, receive_loop,
  recv_stream_message, discard_keepalive, pop_stream_message,
}
use rfcvoip.Sip.Framing.Pop.{pop-append_err, pop-append, pop_waits, pop-discard}

-- Chunks that arrive while the connection is open; an empty one would end the stream.
abbrev pub arrivals : List (List ℕ) → List Event
arrivals [] = []
arrivals (chunk ∷ chunks) = received chunk false ∷ arrivals chunks

abbrev pub Filled : List ℕ → Type 0
Filled chunk = 1 ≤ length chunk

-- How a receive answers to the pop of all the bytes that arrive before the other events, `tail`.
abbrev pub Answers :
    (tail : List Event) → Result FramingError (Option (List ℕ) × List ℕ) → Received → Type 0
Answers tail (err e) r =
    (rest : List (List ℕ)) × (left : List ℕ) × (r ≡ raised (framing e) (arrivals rest ++ tail) left)
Answers tail (ok (some m, l)) r =
    (rest : List (List ℕ)) × (left : List ℕ) × (r ≡ message m (arrivals rest ++ tail) left)
    × (l ≡ left ++ concat rest)
    × All Filled rest
Answers tail (ok (none, l)) r = r ≡ receive_loop tail l

pop-discard_self : (b : List ℕ) → pop_stream_message (discard_keepalive b) ≡ pop_stream_message b
pop-discard_self b =
    ap pop_stream_message (sym (append-nil (discard_keepalive b)))
    ∙ pop-discard b []
    ∙ ap pop_stream_message (append-nil b)

module _ (tail : List Event) where
  -- The test of a popped message, when the loop behind it answers.
  or_more-Answers :
      (chunks : List (List ℕ)) (b : List ℕ)
      → All Filled chunks
      → ((l : List ℕ)
          → pop_stream_message l ≡ ok (none, l)
          → Answers tail
              (pop_stream_message (l ++ concat chunks))
              (receive_loop (arrivals chunks ++ tail) l))
      → (p : Result FramingError (Option (List ℕ) × List ℕ)) → pop_stream_message b ≡ p
      → Answers tail
          (pop_stream_message (b ++ concat chunks))
          (or_more (arrivals chunks ++ tail) b (receive_loop (arrivals chunks ++ tail)) p)
  or_more-Answers chunks b filled loop (err e) h =
      rw (pop-append_err b (concat chunks) e h) (chunks, discard_keepalive b, refl)
  or_more-Answers chunks b filled loop (ok (some m, l)) h =
      rw (pop-append b (concat chunks) m l h) (chunks, l, refl, refl, filled)
  or_more-Answers chunks b filled loop (ok (none, l)) h =
      let e = pop_waits b l h in
      subst (λ p. Answers tail p (receive_loop (arrivals chunks ++ tail) l))
        (ap (λ (t : List ℕ). pop_stream_message (t ++ concat chunks)) e
          ∙ pop-discard b (concat chunks))
        (loop l (ap pop_stream_message e ∙ pop-discard_self b ∙ h))

  or_more-pop :
      (chunks : List (List ℕ)) (b : List ℕ)
      → All Filled chunks
      → ((l : List ℕ)
          → pop_stream_message l ≡ ok (none, l)
          → Answers tail
              (pop_stream_message (l ++ concat chunks))
              (receive_loop (arrivals chunks ++ tail) l))
      → Answers tail (pop_stream_message (b ++ concat chunks)) (
          or_more
            (arrivals chunks ++ tail)
            b
            (receive_loop (arrivals chunks ++ tail))
            (pop_stream_message (discard_keepalive b)))
  or_more-pop chunks b filled loop =
      or_more-Answers chunks b filled loop (pop_stream_message (discard_keepalive b))
        (sym (pop-discard_self b))

  loop-Answers :
      (chunks : List (List ℕ)) (l : List ℕ)
      → All Filled chunks
      → pop_stream_message l ≡ ok (none, l)
      → Answers tail
          (pop_stream_message (l ++ concat chunks))
          (receive_loop (arrivals chunks ++ tail) l)
  unfolding receive_loop
  loop-Answers [] l filled h = rw (append-nil l, h) refl
  loop-Answers ([] ∷ chunks) l filled h = absurd (omega (arith, filled.0))
  loop-Answers ((c ∷ cs) ∷ chunks) l filled h =
      subst
        (λ (t : List ℕ).
          Answers tail (pop_stream_message t)
            (receive_loop (arrivals ((c ∷ cs) ∷ chunks) ++ tail) l))
        (append_assoc l (c ∷ cs) (concat chunks))
        (or_more-pop chunks (l ++ c ∷ cs) filled.1 (λ k. loop-Answers chunks k filled.1))

  -- A receive of chunks that hold a byte at least gives what a pop of the buffer and all the
  -- chunks gives: the same message, with the rest of the bytes in the buffer and in the chunks to
  -- come, or the same error; and when these bytes hold no message yet, it goes on with the other
  -- events.
  pub recv-Answers :
      (chunks : List (List ℕ)) (buffer : List ℕ)
      → All Filled chunks
      → Answers tail
          (pop_stream_message (buffer ++ concat chunks))
          (recv_stream_message (arrivals chunks ++ tail) buffer)
  unfolding recv_stream_message
  recv-Answers chunks buffer filled =
      or_more-pop chunks buffer filled (λ l. loop-Answers chunks l filled)

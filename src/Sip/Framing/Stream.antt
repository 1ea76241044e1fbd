-- ===== src/Sip/Framing/Stream.antt =====
-- A stream of SIP messages on a connection, as rfcvoip/SIPTransport.py receives it.
use mathlib.Core.Path.{subst}
use rfcvoip.Prelude.{
  ℕ, zero, suc, ◌≡◌, refl, sym, ap, ◌∙◌, Option, none, some, List, [], ◌∷◌, ◌++◌, append_assoc, All,
  length, concat,
}
use rfcvoip.Sip.Result.{ok, ◌>>=◌}
use rfcvoip.Sip.Framing.{
  cr, lf, discard_keepalive, stream_message_length, pop_stream_message, Event, Received, message,
  recv_stream_message, pop_needed,
}
use rfcvoip.Sip.Framing.Receive.{arrivals, Filled, Answers, recv-Answers}
use rfcvoip.Sip.Framing.Frame.{Frame, IsFrame, bytes_of, pop-frame}

-- The stream that a peer sends: each message behind some keepalives.
abbrev pub keepalives : ℕ → List ℕ
keepalives zero = []
keepalives (suc n) = cr ∷ lf ∷ keepalives n

abbrev pub stream_of : List (ℕ × Frame) → List ℕ
stream_of [] = []
stream_of ((pings, f) ∷ fs) = (keepalives pings ++ bytes_of f) ++ stream_of fs

abbrev pub messages_of : List (ℕ × Frame) → List (List ℕ)
messages_of [] = []
messages_of ((pings, f) ∷ fs) = bytes_of f ∷ messages_of fs

abbrev pub AllFrames : List (ℕ × Frame) → Type 0
AllFrames = All (λ p. IsFrame p.1)

-- So many calls of `_recv_stream_message`; `none` when one of them gives no message.
abbrev pub and_message : List ℕ → Option (List (List ℕ)) → Option (List (List ℕ))
and_message m none = none
and_message m (some ms) = some (m ∷ ms)

abbrev pub then_recv :
    (List Event → List ℕ → Option (List (List ℕ))) → Received → Option (List (List ℕ))
then_recv rest (message m events buffer) = and_message m (rest events buffer)
then_recv rest _ = none

unfoldable pub recv_calls : (calls : ℕ) → List Event → (buffer : List ℕ) → Option (List (List ℕ))
recv_calls zero events buffer = some []
recv_calls (suc calls) events buffer =
    then_recv (recv_calls calls) (recv_stream_message events buffer)

discard_keepalives :
    (n : ℕ) (rest : List ℕ) → discard_keepalive (keepalives n ++ rest) ≡ discard_keepalive rest
unfolding discard_keepalive
discard_keepalives zero rest = refl
discard_keepalives (suc n) rest = discard_keepalives n rest

pop-keepalives :
    (n : ℕ) (rest : List ℕ) → pop_stream_message (keepalives n ++ rest) ≡ pop_stream_message rest
unfolding pop_stream_message
pop-keepalives n rest =
    ap (λ (l : List ℕ). stream_message_length l >>= λ k. ok (pop_needed l k))
      (discard_keepalives n rest)

pop-stream :
    (pings : ℕ) (f : Frame) (fs : List (ℕ × Frame))
    → IsFrame f
    → pop_stream_message (stream_of ((pings, f) ∷ fs)) ≡ ok (some (bytes_of f), stream_of fs)
pop-stream pings f fs h =
    ap pop_stream_message (append_assoc (keepalives pings) (bytes_of f) (stream_of fs))
    ∙ pop-keepalives pings (bytes_of f ++ stream_of fs)
    ∙ pop-frame f h (stream_of fs)

module _ (tail : List Event) where
  -- One call on the bytes of a stream, by what it answers.
  recv_step :
      (m : List ℕ) (l : List ℕ) (calls : ℕ) (ms : List (List ℕ)) (r : Received)
      → Answers tail (ok (some m, l)) r
      → ((chunks : List (List ℕ)) (buffer : List ℕ)
          → All Filled chunks
          → buffer ++ concat chunks ≡ l
          → recv_calls calls (arrivals chunks ++ tail) buffer ≡ some ms)
      → then_recv (recv_calls calls) r ≡ some (m ∷ ms)
  recv_step m l calls ms r (rest, left, e, el, filled) next =
      ap (then_recv (recv_calls calls)) e ∙ ap (and_message m) (next rest left filled (sym el))

  -- However the bytes of a stream of frames, with keepalives before each, are cut into chunks that
  -- hold a byte at least, and whatever part of them is in the buffer already, as many receives as
  -- there are frames give exactly these messages, in order. A frame has a start line that is not
  -- blank, headers that are not folded, do not hold a carriage return and each have a name, and
  -- exactly one of them is `Content-Length`, with the length of the body in at most 4300 digits.
  pub recv_calls-stream :
      (fs : List (ℕ × Frame)) (chunks : List (List ℕ)) (buffer : List ℕ)
      → AllFrames fs
      → All Filled chunks
      → buffer ++ concat chunks ≡ stream_of fs
      → recv_calls (length fs) (arrivals chunks ++ tail) buffer ≡ some (messages_of fs)
  unfolding recv_calls
  recv_calls-stream [] chunks buffer hs filled e = refl
  recv_calls-stream ((pings, f) ∷ fs) chunks buffer (h, hs) filled e =
      recv_step (bytes_of f) (stream_of fs) (length fs) (messages_of fs)
        (recv_stream_message (arrivals chunks ++ tail) buffer)
        (subst (λ p. Answers tail p (recv_stream_message (arrivals chunks ++ tail) buffer))
          (ap pop_stream_message e ∙ pop-stream pings f fs h)
          (recv-Answers tail chunks buffer filled))
        (λ cs b. recv_calls-stream fs cs b hs)

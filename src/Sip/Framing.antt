-- ===== src/Sip/Framing.antt =====
-- The framing of stream messages in rfcvoip/SIPTransport.py: `_discard_stream_keepalive_prefix`,
-- `_stream_message_length`, `_stream_has_message`, `_pop_stream_message`, `_recv_stream_message`.
-- The stream buffer is a list of bytes.
pub mod Buffer
pub mod Pop
pub mod Receive
pub mod Lines
pub mod Headers
pub mod Frame
pub mod Stream
pub mod Rejects
mod Tests
use rfcvoip.Prelude.{
  ℕ, zero, suc, ◌+◌, Bool, true, false, not, ◌&&◌, ◌||◌, Option, none, some, List, [], ◌∷◌, ◌++◌,
  length, take, drop, map, contains, ltb, leb, ◌==◌, if◌then◌else◌,
}
use rfcvoip.Text.{
  is_empty, lower, is_space, strip, lstrip, take_until, drop_until, starts_with, is_digit, every,
  number_from, same_text, characters,
}
use rfcvoip.Sip.Result.{Result, err, ok, ◌>>=◌, raise_if}
use rfcvoip.Sip.Utf8.{decode}

-- The texts of `SIPFramingError`.
pub data FramingError : Type 0 where
  empty_start_line folded_first malformed_header empty_name invalid_length : FramingError
  missing_length conflicting_lengths : FramingError

abbrev pub cr : ℕ
cr = 13

abbrev pub lf : ℕ
lf = 10

-- `b"\r\n\r\n"`
abbrev pub header_end : List ℕ
header_end = cr ∷ lf ∷ cr ∷ lf ∷ []

abbrev pub is_crlf : ℕ → ℕ → Bool
is_crlf a b = a == cr && b == lf

-- `_discard_stream_keepalive_prefix`
unfoldable pub discard_keepalive : List ℕ → List ℕ
discard_keepalive [] = []
discard_keepalive (a ∷ []) = a ∷ []
discard_keepalive (a ∷ b ∷ rest) =
    let discarded = discard_keepalive rest in if is_crlf a b then discarded else a ∷ b ∷ rest

-- `buffer.find(b"\r\n\r\n")`
abbrev pub later : Option ℕ → Option ℕ
later none = none
later (some i) = some (suc i)

unfoldable pub find_end : List ℕ → Option ℕ
find_end [] = none
find_end (b ∷ bs) = if starts_with header_end (b ∷ bs) then some 0 else later (find_end bs)

-- `text.split("\r\n")`
abbrev pub add_first : ℕ → List (List ℕ) → List (List ℕ)
add_first c [] = (c ∷ []) ∷ []
add_first c (line ∷ lines) = (c ∷ line) ∷ lines

unfoldable pub split_crlf : List ℕ → List (List ℕ)
split_crlf [] = [] ∷ []
split_crlf (c ∷ []) = (c ∷ []) ∷ []
split_crlf (c ∷ d ∷ rest) =
    let behind = split_crlf rest in
    let longer = split_crlf (d ∷ rest) in if is_crlf c d then [] ∷ behind else add_first c longer

-- `line.startswith((" ", "\t"))`
abbrev pub is_folded : List ℕ → Bool
is_folded [] = false
is_folded (c ∷ cs) = c == b' ' || c == 9

-- `unfolded[-1] += text`
abbrev pub add_last : List ℕ → List (List ℕ) → List (List ℕ)
add_last text [] = []
add_last text (line ∷ []) = (line ++ text) ∷ []
add_last text (line ∷ next ∷ lines) = line ∷ add_last text (next ∷ lines)

abbrev pub unfold_line : List (List ℕ) → List ℕ → Result FramingError (List (List ℕ))
unfold_line [] line = raise_if (is_folded line) folded_first (ok (line ∷ []))
unfold_line (first ∷ lines) line = ok (
    if is_folded line
    then add_last (b' ' ∷ lstrip line) (first ∷ lines)
    else (first ∷ lines) ++ line ∷ [])

-- The loop that builds `unfolded`.
unfoldable pub unfold_lines : (unfolded lines : List (List ℕ)) → Result FramingError (List (List ℕ))
unfold_lines unfolded [] = ok unfolded
unfold_lines unfolded (line ∷ lines) =
    unfold_line unfolded line >>= λ longer. unfold_lines longer lines

abbrev pub is_colon : ℕ → Bool
is_colon c = c == b':'

-- `line.split(":", 1)`, for a line that has a colon; `strip` is the caller's.
abbrev pub name_of : List ℕ → List ℕ
name_of line = strip (take_until is_colon line)

abbrev pub value_of : List ℕ → List ℕ
value_of line = strip (drop 1 (drop_until is_colon line))

-- `name.lower() in ("content-length", "l")`
abbrev pub is_length_name : List ℕ → Bool
is_length_name name =
    same_text (map lower name) (characters "content-length")
    || same_text (map lower name) (characters "l")

-- The most digits that `int` reads.
abbrev pub max_str_digits : ℕ
max_str_digits = 4300

-- `int(value)` of a value that is digits only
abbrev pub length_of : List ℕ → Result FramingError ℕ
length_of value =
    if is_empty value || not (every is_digit value) || ltb max_str_digits (length value)
    then err invalid_length
    else ok (number_from 0 value)

-- The body of the loop over `unfolded`: `none` where it continues. The length is never negative.
unfoldable pub length_in : List ℕ → Result FramingError (Option ℕ)
length_in [] = ok none
length_in (c ∷ cs) = raise_if (not (contains b':' (c ∷ cs))) malformed_header (
    raise_if (is_empty (name_of (c ∷ cs))) empty_name (
      if is_length_name (name_of (c ∷ cs))
      then (length_of (value_of (c ∷ cs)) >>= λ n. ok (some n))
      else ok none))

abbrev pub add_length : Option ℕ → List ℕ → List ℕ
add_length none lengths = lengths
add_length (some n) lengths = n ∷ lengths

unfoldable pub content_lengths : List (List ℕ) → Result FramingError (List ℕ)
content_lengths [] = ok []
content_lengths (line ∷ lines) =
    length_in line >>= λ found. content_lengths lines >>= λ lengths. ok (add_length found lengths)

-- The tests of `content_lengths`.
abbrev pub one_length : List ℕ → Result FramingError ℕ
one_length [] = err missing_length
one_length (n ∷ ns) = if every (λ m. m == n) ns then ok n else err conflicting_lengths

abbrev pub length_of_headers : List (List ℕ) → Result FramingError ℕ
length_of_headers lines =
    unfold_lines [] lines >>= λ unfolded. content_lengths unfolded >>= one_length

-- The value of `Content-Length` that the text of the headers gives.
abbrev pub content_length_of : List (List ℕ) → Result FramingError ℕ
content_length_of [] = err empty_start_line
content_length_of (first ∷ lines) =
    raise_if (is_empty (strip first)) empty_start_line (length_of_headers lines)

unfoldable pub body_length : (headers : List ℕ) → Result FramingError ℕ
body_length headers = content_length_of (split_crlf (decode headers))

-- `_stream_message_length`
abbrev pub length_after : (buffer : List ℕ) → Option ℕ → Result FramingError (Option ℕ)
length_after buffer none = ok none
length_after buffer (some end) = body_length (take end buffer) >>= λ n. ok (some (end + 4 + n))

unfoldable pub stream_message_length : List ℕ → Result FramingError (Option ℕ)
stream_message_length buffer = length_after buffer (find_end buffer)

-- `_stream_has_message`, which also discards the prefix
abbrev pub has_needed : (buffer : List ℕ) → Option ℕ → Bool
has_needed buffer none = false
has_needed buffer (some needed) = leb needed (length buffer)

pub stream_has_message : List ℕ → Result FramingError Bool × List ℕ
stream_has_message buffer =
    let left = discard_keepalive buffer in
    (stream_message_length left >>= λ needed. ok (has_needed left needed), left)

-- `_pop_stream_message`
abbrev pub pop_needed : (buffer : List ℕ) → Option ℕ → Option (List ℕ) × List ℕ
pop_needed buffer none = (none, buffer)
pop_needed buffer (some needed) =
    if ltb (length buffer) needed
    then (none, buffer)
    else (some (take needed buffer), drop needed buffer)

unfoldable pub pop_stream_message : List ℕ → Result FramingError (Option (List ℕ) × List ℕ)
pop_stream_message buffer =
    let left = discard_keepalive buffer in
    stream_message_length left >>= λ needed. ok (pop_needed left needed)

-- What a `sock.recv` does: it gives a chunk, empty at the end of the stream, or raises; `replaced`
-- says that another thread has closed the connection meanwhile.
pub data Event : Type 0 where
  received : (chunk : List ℕ) → (replaced : Bool) → Event
  want_read tls_failure : Event

pub data ReceiveError : Type 0 where
  framing : FramingError → ReceiveError
  wants_read tls_read_failed connection_closed stream_closed : ReceiveError

-- How a call of `_recv_stream_message` goes on: with a message, an error, or waiting for an event
-- that has not come yet; with the buffer and the events that are left.
pub data Received : Type 0 where
  message : (bytes : List ℕ) → (events : List Event) → (buffer : List ℕ) → Received
  raised : (error : ReceiveError) → (events : List Event) → (buffer : List ℕ) → Received
  waiting : (buffer : List ℕ) → Received

-- The test of the popped message; `more` is the loop behind it.
abbrev pub or_more :
    (events : List Event)
    → (buffer : List ℕ) → (more : List ℕ → Received)
    → Result FramingError (Option (List ℕ) × List ℕ)
    → Received
or_more events buffer more (err e) = raised (framing e) events (discard_keepalive buffer)
or_more events buffer more (ok (some bytes, left)) = message bytes events left
or_more events buffer more (ok (none, left)) = more left

-- One round of the loop over what is received.
unfoldable pub receive_loop : List Event → (buffer : List ℕ) → Received
receive_loop [] buffer = waiting buffer
receive_loop (want_read ∷ events) buffer = raised wants_read events buffer
receive_loop (tls_failure ∷ events) buffer = raised tls_read_failed events buffer
receive_loop (received chunk true ∷ events) buffer = raised connection_closed events buffer
receive_loop (received [] false ∷ events) buffer = raised stream_closed events buffer
receive_loop (received (b ∷ bs) false ∷ events) buffer =
    or_more events (buffer ++ b ∷ bs) (receive_loop events)
      (pop_stream_message (discard_keepalive (buffer ++ b ∷ bs)))

-- `_recv_stream_message`
unfoldable pub recv_stream_message : List Event → (buffer : List ℕ) → Received
recv_stream_message events buffer =
    or_more events buffer (receive_loop events) (pop_stream_message (discard_keepalive buffer))

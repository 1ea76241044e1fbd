-- ===== src/Sip/Framing/Tests.antt =====
-- The framing of streams, and the theorems about it, at concrete bytes.
use rfcvoip.Prelude.{
  ℕ, ◌≡◌, refl, false, true, some, List, [], ◌∷◌, ◌++◌, concat, map, take, drop, All, not, arith,
}
use rfcvoip.Text.{
  is_empty, every, every-IsFree, IsFree, strip, characters, is_space, lower, number_from,
}
use rfcvoip.Sip.Result.{err}
use rfcvoip.Sip.Utf8.{decode, decode_from, step, start}
use rfcvoip.Sip.Framing.{
  is_colon, is_folded, header_end, conflicting_lengths, stream_has_message, want_read,
  pop_stream_message, recv_stream_message,
}
use rfcvoip.Sip.Framing.Lines.{is_cr, headers_text}
use rfcvoip.Sip.Framing.Frame.{Frame, IsHeaderLine, IsFrame}
use rfcvoip.Sip.Framing.Receive.{arrivals, Answers, recv-Answers}
use rfcvoip.Sip.Framing.Stream.{recv_calls, stream_of, messages_of, recv_calls-stream}
use rfcvoip.Sip.Framing.Rejects.{Lengths, end, other, says, conflict, pop_refused}
use rfcvoip.Sip.Framing.Pop.{has_popped, stream_has_message-pop}

abbrev options : Frame
options = record {
  first = characters "OPTIONS sip:a SIP/2.0";
  before = characters "Via: x" ∷ [];
  length_header = characters "l: 2 ";
  after = characters "Subject: y" ∷ [];
  body = characters "hi";
}

abbrev empty_body : Frame
empty_body = record {
  first = characters "SIP/2.0 200 OK";
  before = [];
  length_header = characters "Content-LENGTH:0";
  after = [];
  body = [];
}

no_colon : (name : List ℕ) → every (λ c. not (is_colon c)) name ≡ true → IsFree is_colon name
no_colon name h = every-IsFree is_colon name h

plain_line :
    (line : List ℕ)
    → every (λ c. not (is_cr c)) line ≡ true
    → is_empty line ≡ false
    → is_folded (decode line) ≡ false
    → IsHeaderLine line
plain_line line free filled plain = ((every-IsFree is_cr line free, filled), plain)

options-IsFrame : IsFrame options
unfolding decode decode_from step start is_space lower number_from
options-IsFrame = record {
  first_free = every-IsFree is_cr options.first refl;
  first_filled = refl;
  lines = (
    plain_line (characters "Via: x") refl refl refl,
    (
      plain_line (characters "l: 2 ") refl refl refl,
      (plain_line (characters "Subject: y") refl refl refl, tt),
    ),
  );
  others_before = (
    (characters "Via", characters " x", (refl, no_colon (characters "Via") refl, refl, refl)),
    tt,
  );
  says = (
    characters "l",
    characters " 2 ",
    (refl, no_colon (characters "l") refl, refl, refl),
    refl,
    refl,
    omega arith,
    refl,
  );
  others_after = (
    (
      characters "Subject",
      characters " y",
      (refl, no_colon (characters "Subject") refl, refl, refl),
    ),
    tt,
  );
}

empty_body-IsFrame : IsFrame empty_body
unfolding decode decode_from step start is_space lower number_from
empty_body-IsFrame = record {
  first_free = every-IsFree is_cr empty_body.first refl;
  first_filled = refl;
  lines = (plain_line (characters "Content-LENGTH:0") refl refl refl, tt);
  others_before = tt;
  says = (
    characters "Content-LENGTH",
    characters "0",
    (refl, no_colon (characters "Content-LENGTH") refl, refl, refl),
    refl,
    refl,
    omega arith,
    refl,
  );
  others_after = tt;
}

-- The two messages, with keepalives, cut inside of a keepalive and inside of the headers.
abbrev two_frames : List (ℕ × Frame)
two_frames = (1, options) ∷ (0, empty_body) ∷ []

abbrev in_chunks : List (List ℕ)
in_chunks =
    take 1 (stream_of two_frames)
    ∷ take 40 (drop 1 (stream_of two_frames))
    ∷ drop 41 (stream_of two_frames)
    ∷ []

recv_calls-stream_example :
    recv_calls 2 (arrivals in_chunks ++ want_read ∷ []) [] ≡ some (messages_of two_frames)
recv_calls-stream_example =
    recv_calls-stream (want_read ∷ []) two_frames in_chunks []
      (options-IsFrame, (empty_body-IsFrame, tt)) (omega arith) refl

recv-Answers_example :
    Answers [] (pop_stream_message (concat in_chunks)) (recv_stream_message (arrivals in_chunks) [])
recv-Answers_example = recv-Answers [] in_chunks [] (omega arith)

abbrev disagreeing : List (List ℕ)
disagreeing = characters "l:1" ∷ characters "Via: x" ∷ characters "Content-Length: 2" ∷ []

disagreeing-Lengths : Lengths (map decode disagreeing) (1 ∷ 2 ∷ [])
unfolding decode decode_from step start is_space lower number_from
disagreeing-Lengths =
    says
      (
        characters "l",
        characters "1",
        (refl, no_colon (characters "l") refl, refl, refl),
        refl,
        refl,
        omega arith,
        refl,
      )
      (other
        (characters "Via", characters " x", (refl, no_colon (characters "Via") refl, refl, refl))
        (says
          (
            characters "Content-Length",
            characters " 2",
            (refl, no_colon (characters "Content-Length") refl, refl, refl),
            refl,
            refl,
            omega arith,
            refl,
          )
          end))

disagreeing_plain : All IsHeaderLine disagreeing
unfolding decode decode_from step start
disagreeing_plain = (
  plain_line (characters "l:1") refl refl refl,
  (
    plain_line (characters "Via: x") refl refl refl,
    (plain_line (characters "Content-Length: 2") refl refl refl, tt),
  ),
)

first_filled : is_empty (strip (decode (characters "SIP/2.0 200 OK"))) ≡ false
unfolding decode decode_from step start is_space
first_filled = refl

pop_refused_example :
    pop_stream_message
      (headers_text (characters "SIP/2.0 200 OK") disagreeing ++ (header_end ++ []))
    ≡ err conflicting_lengths
pop_refused_example =
    pop_refused (characters "SIP/2.0 200 OK") disagreeing (1 ∷ 2 ∷ [])
      (every-IsFree is_cr (characters "SIP/2.0 200 OK") refl) first_filled disagreeing_plain
      disagreeing-Lengths [] conflicting_lengths (conflict 1 (2 ∷ []) refl)

stream_has_message-pop_example :
    ((stream_has_message (concat in_chunks)).0 ≡ has_popped (pop_stream_message (concat in_chunks)))
    × (pop_stream_message (stream_has_message (concat in_chunks)).1
        ≡ pop_stream_message (concat in_chunks))
stream_has_message-pop_example = stream_has_message-pop (concat in_chunks)

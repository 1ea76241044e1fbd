-- ===== src/Sip/Framing/Frame.antt =====
-- Whole SIP messages on a stream: a start line, headers of which one says the length of the body, and
-- the body, as rfcvoip/SIPTransport.py frames them.
use rfcvoip.Prelude.{
  ℕ, ◌+◌, ◌≡◌, refl, sym, ap, ◌∙◌, Bool, false, Option, some, List, [], ◌∷◌, ◌++◌, append-nil, All,
  length, length-append, le→ltb, take_all, drop_all, take-append, map, arith,
}
use rfcvoip.Text.{is_empty, IsFree, strip}
use rfcvoip.Sip.Utf8.{decode, decode_ascii}
use rfcvoip.Sip.Result.{Result, ok, ◌>>=◌, raise_if}
use rfcvoip.Sip.Framing.{
  FramingError, empty_start_line, header_end, is_folded, discard_keepalive, content_lengths,
  one_length, body_length, stream_message_length, length_after, pop_stream_message,
  length_of_headers, content_length_of, pop_needed,
}
use rfcvoip.Sip.Framing.Pop.{pop-append}
use rfcvoip.Sip.Framing.Lines.{
  is_cr, headers_text, tail_text, IsLine, find_end-headers, split_crlf-decode,
}
use rfcvoip.Sip.Framing.Headers.{IsOther, Says, unfold_lines_plain, content_lengths_one}

-- The parts of a message, in bytes. The headers `before` and `after` are the others.
pub record Frame : Type 0 where
  pub first : List ℕ
  pub before : List (List ℕ)
  pub length_header : List ℕ
  pub after : List (List ℕ)
  pub body : List ℕ

abbrev pub header_lines : Frame → List (List ℕ)
header_lines f = f.before ++ f.length_header ∷ f.after

abbrev pub headers_of : Frame → List ℕ
headers_of f = headers_text f.first (header_lines f)

abbrev pub bytes_of : Frame → List ℕ
bytes_of f = headers_of f ++ (header_end ++ f.body)

-- A header as the stream carries it: a line that is not folded.
abbrev pub IsHeaderLine : List ℕ → Type 0
IsHeaderLine line = IsLine line × (is_folded (decode line) ≡ false)

pub record IsFrame (f : Frame) : Type 0 where
  pub first_free : IsFree is_cr f.first
  pub first_filled : is_empty (strip (decode f.first)) ≡ false
  pub lines : All IsHeaderLine (header_lines f)
  pub others_before : All IsOther (map decode f.before)
  pub says : Says (length f.body) (decode f.length_header)
  pub others_after : All IsOther (map decode f.after)

pub All-first {ℓ κ ν} :
    {A : Type ℓ} (P : A → Type κ) (Q : A → Type ν) (xs : List A)
    → All (λ x. P x × Q x) xs
    → All P xs
All-first P Q [] h = tt
All-first P Q (x ∷ xs) (h, hs) = (h.0, All-first P Q xs hs)

pub plain_lines :
    (ls : List (List ℕ))
    → All IsHeaderLine ls
    → All (λ line. is_folded line ≡ false) (map decode ls)
plain_lines [] h = tt
plain_lines (l ∷ ls) (h, hs) = (h.1, plain_lines ls hs)

map-append_one :
    (before : List (List ℕ)) (line : List ℕ) (after : List (List ℕ))
    → map decode (before ++ line ∷ after) ≡ map decode before ++ decode line ∷ map decode after
map-append_one [] line after = refl
map-append_one (b ∷ before) line after =
    ap (λ (t : List (List ℕ)). decode b ∷ t) (map-append_one before line after)

discard_other : (c : ℕ) (rest : List ℕ) → is_cr c ≡ false → discard_keepalive (c ∷ rest) ≡ c ∷ rest
unfolding discard_keepalive
discard_other c [] h = refl
discard_other c (d ∷ rest) h = ground (arith, h)

pub discard_line :
    (first a b c : List ℕ)
    → IsFree is_cr first
    → is_empty (strip (decode first)) ≡ false
    → discard_keepalive (first ++ a ++ b ++ c) ≡ first ++ a ++ b ++ c
discard_line [] a b c free filled =
    absurd (cc (filled, ap (λ (t : List ℕ). is_empty (strip t)) (decode_ascii [] tt)))
discard_line (x ∷ first) a b c (h, free) filled = discard_other x (first ++ a ++ b ++ c) h

popped_whole :
    (left m : List ℕ) (n : ℕ) → left ≡ m → n ≡ length m → pop_needed left (some n) ≡ (some m, [])
popped_whole left m n e k =
    rw
      (
        e,
        k,
        le→ltb (length m) (length m) (omega arith),
        take_all (length m) m (omega arith),
        drop_all (length m) m (omega arith),
      )
      refl

module _ (f : Frame) (h : IsFrame f) where
  only_lines : All IsLine (header_lines f)
  only_lines = All-first IsLine (λ line. is_folded (decode line) ≡ false) (header_lines f) h.lines

  headers_length : length_of_headers (map decode (header_lines f)) ≡ ok (length f.body)
  headers_length =
      ap (λ (r : Result FramingError (List (List ℕ))). r >>= λ u. content_lengths u >>= one_length)
        (unfold_lines_plain [] (map decode (header_lines f)) (plain_lines (header_lines f) h.lines))
      ∙ ap (λ (ls : List (List ℕ)). content_lengths ls >>= one_length)
          (map-append_one f.before f.length_header f.after)
      ∙ ap (λ (r : Result FramingError (List ℕ)). r >>= one_length)
          (content_lengths_one (length f.body) (map decode f.before) (decode f.length_header)
            (map decode f.after) h.others_before h.says h.others_after)

  body_length_frame : body_length (headers_of f) ≡ ok (length f.body)
  unfolding body_length
  body_length_frame =
      ap content_length_of (split_crlf-decode f.first (header_lines f) h.first_free only_lines)
      ∙ ap
          (λ (b : Bool).
            raise_if b empty_start_line (length_of_headers (map decode (header_lines f))))
          h.first_filled
      ∙ headers_length

  length_bytes : length (bytes_of f) ≡ length (headers_of f) + 4 + length f.body
  length_bytes = omega (arith, length-append (headers_of f) (header_end ++ f.body))

  -- The stream message of a whole frame is the frame.
  message_length-frame : stream_message_length (bytes_of f) ≡ ok (some (length (bytes_of f)))
  unfolding stream_message_length
  message_length-frame =
      ap (length_after (bytes_of f))
        (find_end-headers f.first (header_lines f) f.body h.first_free only_lines)
      ∙ ap (λ (t : List ℕ). body_length t >>= λ n. ok (some (length (headers_of f) + 4 + n)))
          (take-append (headers_of f) (header_end ++ f.body))
      ∙ ap (λ (r : Result FramingError ℕ). r >>= λ n. ok (some (length (headers_of f) + 4 + n)))
          body_length_frame
      ∙ ap (λ (n : ℕ). ok (some n)) (sym length_bytes)

  starts_plain : (rest : List ℕ) → discard_keepalive (bytes_of f ++ rest) ≡ bytes_of f ++ rest
  starts_plain rest =
      discard_line f.first (tail_text (header_lines f)) (header_end ++ f.body) rest h.first_free
        h.first_filled

  discard_bytes : discard_keepalive (bytes_of f) ≡ bytes_of f
  discard_bytes =
      ap discard_keepalive (sym (append-nil (bytes_of f)))
      ∙ starts_plain []
      ∙ append-nil (bytes_of f)

  pop_frame_alone : pop_stream_message (bytes_of f) ≡ ok (some (bytes_of f), [])
  unfolding pop_stream_message
  pop_frame_alone =
      let plain = discard_bytes in
      ap (λ (l : List ℕ). stream_message_length l >>= λ n. ok (pop_needed l n)) plain
      ∙ ap (λ (r : Result FramingError (Option ℕ)). r >>= λ n. ok (pop_needed (bytes_of f) n))
          message_length-frame
      ∙ ap ok (popped_whole (bytes_of f) (bytes_of f) (length (bytes_of f)) refl refl)

  -- A whole message at the front of the buffer is popped, and the bytes behind it are left.
  pub pop-frame :
      (rest : List ℕ) → pop_stream_message (bytes_of f ++ rest) ≡ ok (some (bytes_of f), rest)
  pop-frame rest = pop-append (bytes_of f) rest (bytes_of f) [] pop_frame_alone

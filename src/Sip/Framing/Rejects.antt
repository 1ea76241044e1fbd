-- ===== src/Sip/Framing/Rejects.antt =====
-- The headers that rfcvoip/SIPTransport.py refuses to frame by: none that says the length, or two that
-- disagree.
use rfcvoip.Prelude.{
  ℕ, ◌+◌, ◌≡◌, refl, sym, ap, ◌∙◌, Bool, false, Option, some, List, [], ◌∷◌, ◌++◌, append-nil, All,
  length, take-append, map, ◌==◌, arith,
}
use rfcvoip.Text.{is_empty, IsFree, strip, every}
use rfcvoip.Sip.Utf8.{decode}
use rfcvoip.Sip.Result.{Result, err, ok, ◌>>=◌, raise_if}
use rfcvoip.Sip.Framing.{
  FramingError, empty_start_line, missing_length, conflicting_lengths, header_end,
  discard_keepalive, pop_needed, content_lengths, one_length, body_length, content_length_of,
  stream_message_length, length_after, pop_stream_message, length_of_headers,
}
use rfcvoip.Sip.Framing.Lines.{
  is_cr, headers_text, tail_text, IsLine, find_end-headers, split_crlf-decode,
}
use rfcvoip.Sip.Framing.Headers.{IsOther, Says, length_in-other, length_in-Says, unfold_lines_plain}
use rfcvoip.Sip.Framing.Frame.{IsHeaderLine, All-first, plain_lines, discard_line}

-- The lengths that the headers say, in order.
pub data Lengths : List (List ℕ) → List ℕ → Type 0 where
  end : Lengths [] []
  other :
      {line : List ℕ} {lines : List (List ℕ)} {ns : List ℕ}
      → IsOther line
      → Lengths lines ns
      → Lengths (line ∷ lines) ns
  says :
      {line : List ℕ} {lines : List (List ℕ)} {n : ℕ} {ns : List ℕ}
      → Says n line
      → Lengths lines ns
      → Lengths (line ∷ lines) (n ∷ ns)

-- Why the lengths are refused: there is none, or one is not the first.
pub data Refuses : List ℕ → FramingError → Type 0 where
  missing : Refuses [] missing_length
  conflict :
      (n : ℕ) (ms : List ℕ) → every (λ m. m == n) ms ≡ false → Refuses (n ∷ ms) conflicting_lengths

one_length-Refuses : {ns : List ℕ} {e : FramingError} → Refuses ns e → one_length ns ≡ err e
one_length-Refuses missing = refl
one_length-Refuses (conflict n ms differ) = ground (arith, differ)

content_lengths-Lengths :
    {lines : List (List ℕ)} {ns : List ℕ} → Lengths lines ns → content_lengths lines ≡ ok ns
unfolding content_lengths
content_lengths-Lengths end = refl
content_lengths-Lengths (other {line} h rest) =
    rw (length_in-other line h, content_lengths-Lengths rest) refl
content_lengths-Lengths (says {line} {n = n} h rest) =
    rw (length_in-Says n line h, content_lengths-Lengths rest) refl

module _ (first : List ℕ) (lines : List (List ℕ)) (ns : List ℕ) (free : IsFree is_cr first)
    (filled : is_empty (strip (decode first)) ≡ false) (plain : All IsHeaderLine lines)
    (lengths : Lengths (map decode lines) ns) where
  only_lines : All IsLine lines
  only_lines = All-first IsLine _ lines plain

  body_length-lengths : body_length (headers_text first lines) ≡ one_length ns
  unfolding body_length
  body_length-lengths =
      ap content_length_of (split_crlf-decode first lines free only_lines)
      ∙ ap (λ (b : Bool). raise_if b empty_start_line (length_of_headers (map decode lines))) filled
      ∙ ap
          (λ (r : Result FramingError (List (List ℕ))). r >>= λ u. content_lengths u >>= one_length)
          (unfold_lines_plain [] (map decode lines) (plain_lines lines plain))
      ∙ ap (λ (r : Result FramingError (List ℕ)). r >>= one_length)
          (content_lengths-Lengths lengths)

  pop_lengths :
      (rest : List ℕ) (e : FramingError)
      → one_length ns ≡ err e
      → pop_stream_message (headers_text first lines ++ (header_end ++ rest)) ≡ err e
  unfolding pop_stream_message stream_message_length
  pop_lengths rest e refused =
      ap (λ (l : List ℕ). stream_message_length l >>= λ n. ok (pop_needed l n))
        (discard_headers first (tail_text lines) (header_end ++ rest) free filled)
      ∙ ap (λ (o : Option ℕ). length_after whole o >>= λ n. ok (pop_needed whole n))
          (find_end-headers first lines rest free only_lines)
      ∙ ap
          (λ (t : List ℕ).
            body_length t >>= (λ n. ok (some (length (headers_text first lines) + 4 + n))) >>= λ n.
            ok (pop_needed whole n))
          (take-append (headers_text first lines) (header_end ++ rest))
      ∙ ap
          (λ (r : Result FramingError ℕ).
            r >>= (λ n. ok (some (length (headers_text first lines) + 4 + n))) >>= λ n.
            ok (pop_needed whole n))
          (body_length-lengths ∙ refused)
    where
      whole : List ℕ
      whole = headers_text first lines ++ (header_end ++ rest)

      discard_headers :
          (a b c : List ℕ)
          → IsFree is_cr a
          → is_empty (strip (decode a)) ≡ false
          → discard_keepalive (a ++ b ++ c) ≡ a ++ b ++ c
      discard_headers a b c f g =
          ap discard_keepalive (sym (append-nil (a ++ b ++ c)))
          ∙ discard_line a b c [] f g
          ∙ append-nil (a ++ b ++ c)

  -- Complete headers, of a start line that is not blank and lines that are not folded and are well
  -- formed, are refused when none says a length, and when one says another length than the first,
  -- whatever bytes follow.
  pub pop_refused :
      (rest : List ℕ) (e : FramingError)
      → Refuses ns e
      → pop_stream_message (headers_text first lines ++ (header_end ++ rest)) ≡ err e
  pop_refused rest e refuses = pop_lengths rest e (one_length-Refuses refuses)

-- ===== src/Sip/Framing/Lines.antt =====
-- The lines of a stream message in rfcvoip/SIPTransport.py: where the headers end, how their text is
-- split, and what the loops over the lines find.
use rfcvoip.Prelude.{
  ℕ, suc, ◌+◌, ◌≤◌, ◌<◌, ◌≡◌, refl, sym, ap, ◌∙◌, Bool, false, some, List, [], ◌∷◌, ◌++◌,
  append_assoc, append-nil, All, length, length-append, map, ◌==◌, arith,
}
use rfcvoip.Text.{is_empty, IsFree}
use rfcvoip.Sip.Utf8.{decode, decode-append, decode_ascii, decode-IsFree}
use rfcvoip.Sip.Framing.{cr, lf, header_end, find_end, add_first, split_crlf}

abbrev pub is_cr : ℕ → Bool
is_cr c = c == cr

-- The headers behind the start line.
abbrev pub tail_text : List (List ℕ) → List ℕ
tail_text [] = []
tail_text (line ∷ lines) = cr ∷ lf ∷ (line ++ tail_text lines)

abbrev pub headers_text : List ℕ → List (List ℕ) → List ℕ
headers_text first lines = first ++ tail_text lines

-- A line that can stand in the headers: not empty, and with no carriage return.
abbrev pub IsLine : List ℕ → Type 0
IsLine line = IsFree is_cr line × (is_empty line ≡ false)

find_end-line :
    (line rest : List ℕ) (i : ℕ)
    → IsFree is_cr line
    → find_end rest ≡ some i
    → find_end (line ++ rest) ≡ some (length line + i)
unfolding find_end
find_end-line [] rest i free h = h ∙ ap some (omega arith)
find_end-line (c ∷ line) rest i (c_free, free) h =
    ground (arith, c_free, find_end-line line rest i free h)

find_end-break :
    (line rest : List ℕ) (i : ℕ)
    → IsLine line
    → find_end (line ++ rest) ≡ some i
    → find_end (cr ∷ lf ∷ (line ++ rest)) ≡ some (suc (suc i))
unfolding find_end
find_end-break [] rest i (free, filled) h = absurd (ground (arith, filled))
find_end-break (c ∷ line) rest i (free, filled) h = ground (arith, free.0, h)

find_end-tail :
    (lines : List (List ℕ)) (rest : List ℕ)
    → All IsLine lines
    → find_end (tail_text lines ++ (header_end ++ rest)) ≡ some (length (tail_text lines))
unfolding find_end
find_end-tail [] rest h = refl
find_end-tail (line ∷ lines) rest (h, hs) =
    ap find_end (append_assoc (cr ∷ lf ∷ line) (tail_text lines) (header_end ++ rest))
    ∙ find_end-break line _ _ h (find_end-line line _ _ h.0 (find_end-tail lines rest hs))
    ∙ ap some (
        let e : suc (suc (length line + length (tail_text lines)))
            ≡ suc (suc (length (line ++ tail_text lines))) =
          omega (arith, length-append line (tail_text lines)) in
        e)

-- The headers end where their text does.
pub find_end-headers :
    (first : List ℕ) (lines : List (List ℕ)) (rest : List ℕ)
    → IsFree is_cr first
    → All IsLine lines
    → find_end (headers_text first lines ++ (header_end ++ rest))
      ≡ some (length (headers_text first lines))
find_end-headers first lines rest free h =
    ap find_end (append_assoc first (tail_text lines) (header_end ++ rest))
    ∙ find_end-line first _ _ free (find_end-tail lines rest h)
    ∙ ap some (sym (length-append first (tail_text lines)))

decode_first : (b : ℕ) (bs : List ℕ) → b < 0x80 → decode (b ∷ bs) ≡ b ∷ decode bs
decode_first b bs h =
    decode-append [] b bs h ∙ ap (λ (t : List ℕ). t ++ b ∷ decode bs) (decode_ascii [] tt)

decode-tail :
    (lines : List (List ℕ)) (line : List ℕ)
    → decode (line ++ tail_text lines) ≡ decode line ++ tail_text (map decode lines)
decode-tail [] line = rw (append-nil line) (sym (append-nil (decode line)))
decode-tail (next ∷ lines) line =
    decode-append line cr (lf ∷ (next ++ tail_text lines)) (omega arith)
    ∙ ap (λ (t : List ℕ). decode line ++ cr ∷ t)
        (decode_first lf (next ++ tail_text lines) (omega arith)
          ∙ ap (λ (t : List ℕ). lf ∷ t) (decode-tail lines next))

split_crlf_other :
    (c d : ℕ) (rest : List ℕ)
    → is_cr c ≡ false
    → split_crlf (c ∷ d ∷ rest) ≡ add_first c (split_crlf (d ∷ rest))
unfolding split_crlf
split_crlf_other c d rest h = ground (arith, h)

split_crlf-line :
    (line rest : List ℕ)
    → IsFree is_cr line
    → split_crlf (line ++ (cr ∷ lf ∷ rest)) ≡ line ∷ split_crlf rest
unfolding split_crlf
split_crlf-line [] rest free = refl
split_crlf-line (c ∷ []) rest (h, free) = split_crlf_other c cr (lf ∷ rest) h
split_crlf-line (c ∷ d ∷ line) rest (h, free) =
    split_crlf_other c d (line ++ (cr ∷ lf ∷ rest)) h
    ∙ ap (add_first c) (split_crlf-line (d ∷ line) rest free)

split_crlf_last : (line : List ℕ) → IsFree is_cr line → split_crlf line ≡ line ∷ []
unfolding split_crlf
split_crlf_last [] free = refl
split_crlf_last (c ∷ []) free = refl
split_crlf_last (c ∷ d ∷ line) (h, free) =
    split_crlf_other c d line h ∙ ap (add_first c) (split_crlf_last (d ∷ line) free)

split_crlf-tail :
    (line : List ℕ) (lines : List (List ℕ))
    → IsFree is_cr line
    → All (IsFree is_cr) lines
    → split_crlf (line ++ tail_text lines) ≡ line ∷ lines
split_crlf-tail line [] free h = ap split_crlf (append-nil line) ∙ split_crlf_last line free
split_crlf-tail line (next ∷ lines) free (h, hs) =
    split_crlf-line line (next ++ tail_text lines) free
    ∙ ap (λ (t : List (List ℕ)). line ∷ t) (split_crlf-tail next lines h hs)

-- The decoded text of the headers is split into its decoded lines.
pub split_crlf-decode :
    (first : List ℕ) (lines : List (List ℕ))
    → IsFree is_cr first
    → All IsLine lines
    → split_crlf (decode (headers_text first lines)) ≡ decode first ∷ map decode lines
split_crlf-decode first lines free h =
    ap split_crlf (decode-tail lines first)
    ∙ split_crlf-tail (decode first) (map decode lines) (decode-IsFree is_cr cr_ascii first free)
        (decoded_free lines h)
  where
    cr_ascii : (c : ℕ) → 0x80 ≤ c → is_cr c ≡ false
    cr_ascii c h = ground (arith, h)

    decoded_free : (ls : List (List ℕ)) → All IsLine ls → All (IsFree is_cr) (map decode ls)
    decoded_free [] h = tt
    decoded_free (l ∷ ls) (h, hs) = (decode-IsFree is_cr cr_ascii l h.0, decoded_free ls hs)

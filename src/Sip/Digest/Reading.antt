-- ===== src/Sip/Digest/Reading.antt =====
-- One round of the loop of `parse_digest_params` in rfcvoip/SIPAuth.py, on a field of a header.
use rfcvoip.Prelude.{
  ℕ, ◌≡◌, refl, sym, ap, ◌∙◌, false, Option, some, inl, inr, ◌⊎◌, List, [], ◌∷◌, ◌++◌, append_assoc,
  append-nil, drop, map, ◌==◌, Bool-cases, ==_iff, arith,
}
use rfcvoip.Text.{
  is_empty, lower, is_space, strip, lstrip, take_until, drop_until, IsFree, take_until-append,
  drop_until-append, take_until_all, drop_until_all, strip_free,
}
use rfcvoip.Sip.Digest.{
  ends_key, is_comma, quote, backslash, read_quoted, read_value, with_value, entry_of, read_equals,
  read_entry, skip_separators, push_char,
}
use rfcvoip.Sip.Digest.Fields.{replace, quote_text, Field, quoted, bare, field_text}

read_plain :
    (c : ℕ) (rest : List ℕ)
    → (c == backslash) ≡ false
    → (c == quote) ≡ false
    → read_quoted (c ∷ rest) ≡ push_char c (read_quoted rest)
unfolding read_quoted
read_plain c [] h k = rw k refl
read_plain c (d ∷ rest) h k = rw (h, k) refl

read_end : (rest : List ℕ) → read_quoted (quote ∷ rest) ≡ ([], rest)
unfolding read_quoted
read_end [] = refl
read_end (d ∷ rest) = refl

read_escaped :
    (d : ℕ) (rest : List ℕ) → read_quoted (backslash ∷ d ∷ rest) ≡ push_char d (read_quoted rest)
unfolding read_quoted
read_escaped d rest = refl

pub name_start : (c : ℕ) (cs : List ℕ) → ends_key c ≡ false → skip_separators (c ∷ cs) ≡ c ∷ cs
name_start c cs h = ground (arith, h)

-- Whatever a value holds, its quoted text is read back up to the closing quote.
read_quoted-quote_text :
    (value rest : List ℕ) → read_quoted (quote_text value ++ quote ∷ rest) ≡ (value, rest)
unfolding quote_text replace
read_quoted-quote_text [] rest = read_end rest
read_quoted-quote_text (c ∷ value) rest =
    let ih = read_quoted-quote_text value rest in
    elim (Bool-cases (c == backslash)) [
      | inl slash ↦ rw slash (
          read_escaped backslash _
          ∙ ap (push_char backslash) ih
          ∙ ap (λ (k : ℕ). (k ∷ value, rest)) (sym ((==_iff c backslash).0 slash)))
      | inr plain ↦ elim (Bool-cases (c == quote)) [
        | inl closing ↦
            rw (plain, closing)
              (read_escaped quote _
                ∙ ap (push_char quote) ih
                ∙ ap (λ (k : ℕ). (k ∷ value, rest)) (sym ((==_iff c quote).0 closing)))
        | inr other ↦ rw (plain, other) (read_plain c _ plain other ∙ ap (push_char c) ih)
      ]
    ]

-- What a field can be printed from: a name in lower case with none of the characters that end one,
-- and a value, which is not quoted only if it has no comma, no white space and no quote.
abbrev pub IsName : List ℕ → Type 0
IsName name =
    (is_empty name ≡ false) × IsFree ends_key name × IsFree is_space name × (map lower name ≡ name)

abbrev pub IsBare : List ℕ → Type 0
IsBare value =
    (is_empty value ≡ false)
    × IsFree is_comma value
    × IsFree is_space value
    × IsFree (λ c. c == quote) value

abbrev pub IsField : Field → Type 0
IsField (quoted name value) = IsName name
IsField (bare name value) = IsName name × IsBare value

abbrev pub entry : Field → List ℕ × List ℕ
entry (quoted name value) = (name, value)
entry (bare name value) = (name, value)

-- What stands behind a field: the end, or a comma and the other fields.
abbrev pub Ends : (tail rest : List ℕ) → Type 0
Ends tail rest = (tail ≡ []) × (rest ≡ []) ⊎ (tail ≡ b',' ∷ rest)

skip_to_comma : (tail rest : List ℕ) → Ends tail rest → drop 1 (drop_until is_comma tail) ≡ rest
skip_to_comma tail rest (inl (e, k)) = ap (λ (t : List ℕ). drop 1 (drop_until is_comma t)) e ∙ sym k
skip_to_comma tail rest (inr e) = ap (λ (t : List ℕ). drop 1 (drop_until is_comma t)) e

take_to_comma :
    (value tail rest : List ℕ)
    → IsFree is_comma value
    → Ends tail rest
    → (take_until is_comma (value ++ tail) ≡ value) × (drop_until is_comma (value ++ tail) ≡ tail)
take_to_comma value tail rest free (inl (e, k)) =
    rw (e, append-nil value)
      (take_until_all is_comma value free, drop_until_all is_comma value free)
take_to_comma value tail rest free (inr e) = rw e (
  take_until-append is_comma value b',' rest free refl,
  drop_until-append is_comma value b',' rest free refl,
)

entry_of-name :
    (name value : List ℕ)
    → is_empty name ≡ false
    → map lower name ≡ name
    → entry_of name value ≡ some (name, value)
entry_of-name [] value filled same = absurd (ground (arith, filled))
entry_of-name (c ∷ name) value filled same = ap (λ (n : List ℕ). some (n, value)) same

equals_stays : (value : List ℕ) → lstrip (b'=' ∷ value) ≡ b'=' ∷ value
unfolding is_space
equals_stays value = refl

-- One round of the loop reads the name up to the equals sign.
read_entry-name :
    (name value : List ℕ) (v : List ℕ × List ℕ)
    → IsName name
    → read_value (lstrip value) ≡ v
    → read_entry (name ++ b'=' ∷ value) ≡ (some (name, v.0), drop 1 (drop_until is_comma v.1))
read_entry-name name value v (filled, free, plain, same) e =
    ap (λ (t : List ℕ). read_equals (strip t) (lstrip (drop_until ends_key (name ++ b'=' ∷ value))))
      (take_until-append ends_key name b'=' value free refl)
    ∙ ap (λ (t : List ℕ). read_equals t (lstrip (drop_until ends_key (name ++ b'=' ∷ value))))
        (strip_free name plain)
    ∙ ap (λ (t : List ℕ). read_equals name t)
        (ap lstrip (drop_until-append ends_key name b'=' value free refl) ∙ equals_stays value)
    ∙ ap (with_value name) e
    ∙ ap (λ (o : Option (List ℕ × List ℕ)). (o, drop 1 (drop_until is_comma v.1)))
        (entry_of-name name v.0 filled same)

quote_stays : (value : List ℕ) → lstrip (quote ∷ value) ≡ quote ∷ value
unfolding is_space
quote_stays value = refl

bare_stays :
    (value tail : List ℕ)
    → is_empty value ≡ false
    → IsFree is_space value
    → lstrip (value ++ tail) ≡ value ++ tail
bare_stays [] tail filled plain = absurd (ground (arith, filled))
bare_stays (c ∷ value) tail filled (h, plain) = rw h refl

read_bare :
    (value tail : List ℕ)
    → is_empty value ≡ false
    → IsFree (λ c. c == quote) value
    → read_value (value ++ tail)
      ≡ (strip (take_until is_comma (value ++ tail)), drop_until is_comma (value ++ tail))
read_bare [] tail filled unquoted = absurd (ground (arith, filled))
read_bare (c ∷ value) tail filled (h, rest) = rw h refl

-- A round of the loop on a field, whatever fields stand behind it.
pub read_entry-field :
    (f : Field) (tail rest : List ℕ)
    → IsField f
    → Ends tail rest
    → read_entry (field_text f ++ tail) ≡ (some (entry f), rest)
read_entry-field (quoted name value) tail rest h ends =
    ap read_entry (quoted_regroup name (quote_text value) tail)
    ∙ read_entry-name name (quote ∷ (quote_text value ++ quote ∷ tail)) (value, tail) h
        (ap read_value (quote_stays (quote_text value ++ quote ∷ tail))
          ∙ read_quoted-quote_text value tail)
    ∙ ap (λ (t : List ℕ). (some (name, value), t)) (skip_to_comma tail rest ends)
  where
    quoted_regroup :
        (n q t : List ℕ)
        → (n ++ (b'=' ∷ quote ∷ (q ++ quote ∷ []))) ++ t ≡ n ++ b'=' ∷ quote ∷ (q ++ quote ∷ t)
    quoted_regroup n q t =
        append_assoc n (b'=' ∷ quote ∷ (q ++ quote ∷ [])) t
        ∙ ap (λ (r : List ℕ). n ++ b'=' ∷ quote ∷ r) (append_assoc q (quote ∷ []) t)
read_entry-field (bare name value) tail rest (h, (filled, free, plain, unquoted)) ends =
    ap read_entry (append_assoc name (b'=' ∷ value) tail)
    ∙ read_entry-name name (value ++ tail) (value, tail) h
        (ap read_value (bare_stays value tail filled plain)
          ∙ read_bare value tail filled unquoted
          ∙ (let ends_at = take_to_comma value tail rest free ends in
              ap (λ (t : List ℕ). (strip t, drop_until is_comma (value ++ tail))) ends_at.0
              ∙ ap (λ (t : List ℕ). (strip value, t)) ends_at.1
              ∙ ap (λ (t : List ℕ). (t, tail)) (strip_free value plain)))
    ∙ ap (λ (t : List ℕ). (some (name, value), t)) (skip_to_comma tail rest ends)

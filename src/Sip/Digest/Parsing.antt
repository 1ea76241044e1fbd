-- ===== src/Sip/Digest/Parsing.antt =====
-- The loop of `parse_digest_params` in rfcvoip/SIPAuth.py and its fuel.
use mathlib.Core.Path.{subst}
use rfcvoip.Prelude.{
  ℕ, zero, suc, ◌≤◌, ◌<◌, ◌≡◌, refl, sym, ap, true, false, not, Option, some, inl, inr, List, [],
  ◌∷◌, length, length-drop, ◌==◌, Bool-cases, arith,
}
use rfcvoip.Text.{
  is_space, strip, lstrip, take_until, drop_until, length-lstrip, length-drop_until,
  drop_until_head,
}
use rfcvoip.Sip.Dict.{Dict}
use rfcvoip.Sip.Digest.{
  is_separator, ends_key, is_comma, quote, read_quoted, read_value, with_value, read_equals,
  read_entry, skip_separators, put_entry, loop_body, parse_loop,
}

length-read_quoted : (a : List ℕ) → length (read_quoted a).1 ≤ length a
unfolding read_quoted
length-read_quoted [] = omega arith
length-read_quoted (c ∷ []) = ground arith
length-read_quoted (c ∷ d ∷ a) = ground (arith, length-read_quoted a, length-read_quoted (d ∷ a))

length-read_value : (a : List ℕ) → length (read_value a).1 ≤ length a
length-read_value [] = omega arith
length-read_value (c ∷ a) = elim (Bool-cases (c == quote)) [
  | inl quoted ↦ rw quoted (omega (arith, length-read_quoted a))
  | inr bare ↦ rw bare (length-drop_until is_comma (c ∷ a))
]

length-with_value : (key : List ℕ) (v : List ℕ × List ℕ) → length (with_value key v).1 ≤ length v.1
length-with_value key (value, rest) =
    omega (arith, length-drop 1 (drop_until is_comma rest), length-drop_until is_comma rest)

length_equals :
    (key : List ℕ) (c : ℕ) (cs : List ℕ)
    → (c == b'=') ≡ true
    → length (read_equals key (c ∷ cs)).1 ≤ length cs
length_equals key c cs h = rw h (
    omega (
      arith,
      length-with_value key (read_value (lstrip cs)),
      length-read_value (lstrip cs),
      length-lstrip cs,
    ))

length-read_equals : (key text : List ℕ) → length (read_equals key text).1 ≤ length text
length-read_equals key [] = omega arith
length-read_equals key (c ∷ cs) = elim (Bool-cases (c == b'=')) [
  | inl equals ↦ omega (arith, length_equals key c cs equals)
  | inr other ↦ rw other (length-drop_until is_comma (c ∷ cs))
]

at_equals :
    (c : ℕ) (cs : List ℕ) → (c == b'=') ≡ true → lstrip (drop_until ends_key (c ∷ cs)) ≡ c ∷ cs
unfolding is_space
at_equals c cs h = ground (arith, h)

in_key :
    (c : ℕ) (cs : List ℕ)
    → is_separator c ≡ false
    → (c == b'=') ≡ false
    → drop_until ends_key (c ∷ cs) ≡ drop_until ends_key cs
in_key c cs h other = ground (arith, h, other)

-- A round on text that begins with no separator leaves less.
length-read_entry :
    (c : ℕ) (cs : List ℕ) → is_separator c ≡ false → length (read_entry (c ∷ cs)).1 ≤ length cs
length-read_entry c cs h = elim (Bool-cases (c == b'=')) [
  | inl equals ↦
      subst
        (λ (t : List ℕ).
          length (read_equals (strip (take_until ends_key (c ∷ cs))) t).1 ≤ length cs)
        (sym (at_equals c cs equals))
        (length_equals (strip (take_until ends_key (c ∷ cs))) c cs equals)
  | inr other ↦ omega (
    arith,
    length-read_equals (strip (take_until ends_key (c ∷ cs)))
        (lstrip (drop_until ends_key (c ∷ cs))),
    length-lstrip (drop_until ends_key (c ∷ cs)),
    ap (λ (t : List ℕ). length t) (in_key c cs h other),
    length-drop_until ends_key cs,
  )
]

loop_body-some :
    (loop : List ℕ → Dict → Option Dict) (text left : List ℕ) (params : Dict)
    → skip_separators text ≡ left
    → ((rest : List ℕ) (p : Dict) → length rest < length text → (d : Dict) × (loop rest p ≡ some d))
    → (d : Dict) × (loop_body loop left params ≡ some d)
loop_body-some loop text [] params e next = (params, refl)
loop_body-some loop text (c ∷ cs) params e next =
    next (read_entry (c ∷ cs)).1 (put_entry (read_entry (c ∷ cs)).0 params) (
      omega (
        arith,
        length-read_entry c cs
            (stopped c cs (drop_until_head (λ c. not (is_separator c)) text c cs e)),
        ap (λ (t : List ℕ). length t) e,
        length-drop_until (λ c. not (is_separator c)) text,
      ))
  where
    stopped : (c : ℕ) (cs : List ℕ) → not (is_separator c) ≡ true → is_separator c ≡ false
    stopped c cs h = ground (arith, h)

-- With more fuel than the text has characters, the loop of `parse_digest_params` ends.
pub parse_loop_total :
    (fuel : ℕ) (text : List ℕ) (params : Dict)
    → length text < fuel
    → (result : Dict) × (parse_loop fuel text params ≡ some result)
unfolding parse_loop
parse_loop_total zero text params h = absurd (omega arith)
parse_loop_total (suc fuel) text params h =
    loop_body-some (parse_loop fuel) text (skip_separators text) params refl
      (λ rest p shorter. parse_loop_total fuel rest p (omega arith))

-- ===== src/Sip/Digest/RoundTrip.antt =====
-- `parse_digest_params` of rfcvoip/SIPAuth.py on the fields that its headers are printed from.
use mathlib.Core.Path.{subst}
use rfcvoip.Prelude.{
  ℕ, zero, suc, ◌≤◌, ◌<◌, ◌≡◌, refl, sym, ap, ◌∙◌, false, Option, some, inl, inr, List, [], ◌∷◌,
  ◌++◌, append_assoc, append-nil, length, length-append, if◌then◌else◌, All, arith,
}
use rfcvoip.Text.{is_empty, lower, is_space, strip, lstrip, rstrip, characters, IsFree}
use rfcvoip.Sip.Dict.{Dict, put}
use rfcvoip.Sip.Digest.{
  ends_key, quote, read_entry, skip_separators, loop_body, loop_on, or_no_params, parse_loop,
  without_scheme, parse_digest_params,
}
use rfcvoip.Sip.Digest.Fields.{
  quote_text, Field, quoted, bare, field_text, behind_field, join_fields,
}
use rfcvoip.Sip.Digest.Reading.{name_start, IsField, entry, Ends, read_entry-field}

-- The dictionary that the fields set, the later ones over the earlier.
abbrev pub entries : List Field → Dict → Dict
entries [] params = params
entries (f ∷ fs) params = entries fs (put (entry f).0 (entry f).1 params)

behind-Ends : (fs : List Field) → Ends (behind_field fs) (join_fields fs)
behind-Ends [] = inl (refl, refl)
behind-Ends (f ∷ fs) = inr refl

named_start :
    (name t : List ℕ)
    → is_empty name ≡ false
    → IsFree ends_key name
    → (loop : List ℕ → Dict → Option Dict) (params : Dict)
    → loop_body loop (skip_separators (name ++ t)) params
      ≡ loop_on loop (read_entry (name ++ t)) params
named_start [] t filled free loop params = absurd (ground (arith, filled))
named_start (c ∷ name) t filled (h, free) loop params =
    ap (λ (l : List ℕ). loop_body loop l params) (name_start c (name ++ t) h)

field_start :
    (f : Field) (tail : List ℕ) (loop : List ℕ → Dict → Option Dict) (params : Dict)
    → IsField f
    → loop_body loop (skip_separators (field_text f ++ tail)) params
      ≡ loop_on loop (read_entry (field_text f ++ tail)) params
field_start (quoted name value) tail loop params (filled, free, plain, same) =
    subst
      (λ (t : List ℕ).
        loop_body loop (skip_separators t) params ≡ loop_on loop (read_entry t) params)
      (sym (append_assoc name (b'=' ∷ quote ∷ (quote_text value ++ quote ∷ [])) tail))
      (named_start name _ filled free loop params)
field_start (bare name value) tail loop params ((filled, free, plain, same), b) =
    subst
      (λ (t : List ℕ).
        loop_body loop (skip_separators t) params ≡ loop_on loop (read_entry t) params)
      (sym (append_assoc name (b'=' ∷ value) tail)) (named_start name _ filled free loop params)

-- The loop reads the joined fields one by one.
parse_loop-join_fields :
    (fuel : ℕ) (fs : List Field) (params : Dict)
    → length fs < fuel
    → All IsField fs
    → parse_loop fuel (join_fields fs) params ≡ some (entries fs params)
unfolding parse_loop
parse_loop-join_fields zero fs params h fields = absurd (omega arith)
parse_loop-join_fields (suc fuel) [] params h fields = refl
parse_loop-join_fields (suc fuel) (f ∷ fs) params h (field, fields) =
    field_start f (behind_field fs) (parse_loop fuel) params field
    ∙ ap (λ r. loop_on (parse_loop fuel) r params)
        (read_entry-field f (behind_field fs) (join_fields fs) field (behind-Ends fs))
    ∙ parse_loop-join_fields fuel fs _ (omega arith) fields

length-field : (f : Field) → 1 ≤ length (field_text f)
length-field (quoted name value) =
    omega (arith, length-append name (b'=' ∷ quote ∷ (quote_text value ++ quote ∷ [])))
length-field (bare name value) = omega (arith, length-append name (b'=' ∷ value))

length-behind : (fs : List Field) → length fs ≤ length (behind_field fs)
length-behind [] = omega arith
length-behind (f ∷ fs) =
    omega (arith, length-append (field_text f) (behind_field fs), length-behind fs)

length-join_fields : (fs : List Field) → length fs ≤ length (join_fields fs)
length-join_fields [] = omega arith
length-join_fields (f ∷ fs) =
    omega (arith, length-append (field_text f) (behind_field fs), length-behind fs, length-field f)

-- A text whose last character is no white space.
abbrev Closed : List ℕ → Type 0
Closed text = (a : List ℕ) × (c : ℕ) × (text ≡ a ++ c ∷ []) × (is_space c ≡ false)

append-Closed : (a t : List ℕ) → Closed t → Closed (a ++ t)
append-Closed a t (b, c, e, h) =
    (a ++ b, c, ap (λ (r : List ℕ). a ++ r) e ∙ sym (append_assoc a b (c ∷ [])), h)

bare-Closed : (value : List ℕ) → is_empty value ≡ false → IsFree is_space value → Closed value
bare-Closed [] filled plain = absurd (ground (arith, filled))
bare-Closed (c ∷ []) filled (h, plain) = ([], c, refl, h)
bare-Closed (c ∷ d ∷ value) filled (h, plain) =
    append-Closed (c ∷ []) (d ∷ value) (bare-Closed (d ∷ value) refl plain)

quote-Closed : Closed (quote ∷ [])
unfolding is_space
quote-Closed = ([], quote, refl, refl)

field-Closed : (f : Field) → IsField f → Closed (field_text f)
field-Closed (quoted name value) h =
    append-Closed name _ (append-Closed (b'=' ∷ quote ∷ quote_text value) (quote ∷ []) quote-Closed)
field-Closed (bare name value) (h, (filled, free, plain, unquoted)) =
    append-Closed name _ (append-Closed (b'=' ∷ []) value (bare-Closed value filled plain))

join-Closed :
    (f : Field) (fs : List Field) → IsField f → All IsField fs → Closed (join_fields (f ∷ fs))
join-Closed f [] h hs = subst Closed (sym (append-nil (field_text f))) (field-Closed f h)
join-Closed f (g ∷ fs) h (hg, hs) =
    append-Closed (field_text f) (b',' ∷ join_fields (g ∷ fs))
      (append-Closed (b',' ∷ []) (join_fields (g ∷ fs)) (join-Closed g fs hg hs))

rstrip_cons :
    (c : ℕ) (t : List ℕ) (d : ℕ) (ds : List ℕ) → rstrip t ≡ d ∷ ds → rstrip (c ∷ t) ≡ c ∷ d ∷ ds
rstrip_cons c t d ds h =
    ap
      (λ (r : List ℕ). elim r as (λ _. List ℕ) [
        | [] ↦ if is_space c then [] else c ∷ []
        | e ∷ es ↦ c ∷ e ∷ es
      ])
      h

rstrip_last : (a : List ℕ) (c : ℕ) → is_space c ≡ false → rstrip (a ++ c ∷ []) ≡ a ++ c ∷ []
rstrip_last [] c h = rw h refl
rstrip_last (x ∷ []) c h = rstrip_cons x (c ∷ []) c [] (rstrip_last [] c h)
rstrip_last (x ∷ y ∷ a) c h =
    rstrip_cons x ((y ∷ a) ++ c ∷ []) y (a ++ c ∷ []) (rstrip_last (y ∷ a) c h)

rstrip-Closed : (t : List ℕ) → Closed t → rstrip t ≡ t
rstrip-Closed t (a, c, e, h) = ap rstrip e ∙ rstrip_last a c h ∙ sym e

field_plain_start :
    (f : Field) (tail : List ℕ) → IsField f → lstrip (field_text f ++ tail) ≡ field_text f ++ tail
field_plain_start (quoted [] value) tail (filled, free, plain, same) =
    absurd (ground (arith, filled))
field_plain_start (quoted (c ∷ name) value) tail (filled, free, (h, plain), same) = rw h refl
field_plain_start (bare [] value) tail ((filled, free, plain, same), b) =
    absurd (ground (arith, filled))
field_plain_start (bare (c ∷ name) value) tail ((filled, free, (h, plain), same), b) = rw h refl

scheme_dropped :
    (text : List ℕ) → lstrip text ≡ text → without_scheme (characters "Digest " ++ text) ≡ text
unfolding lower is_space
scheme_dropped text h = h

scheme_starts :
    (text : List ℕ) → lstrip (characters "Digest " ++ text) ≡ characters "Digest " ++ text
unfolding is_space
scheme_starts text = refl

-- The parameters of a header, with the name of the scheme before them, are its fields, with the
-- values as they were before they were quoted, the later fields over the earlier of the same name.
-- The names are in lower case, without white space, comma or `=`; a value that is not quoted is
-- not empty and has no comma, white space or quote; a quoted one is any text.
pub parse_digest_params-join_fields :
    (f : Field) (fs : List Field)
    → IsField f
    → All IsField fs
    → parse_digest_params (characters "Digest " ++ join_fields (f ∷ fs)) ≡ entries (f ∷ fs) []
unfolding parse_digest_params
parse_digest_params-join_fields f fs h hs =
    let text = join_fields (f ∷ fs) in
    let stripped : without_scheme (strip (characters "Digest " ++ text)) ≡ text =
      ap (λ (t : List ℕ). without_scheme (rstrip t)) (scheme_starts text)
      ∙ ap without_scheme
          (rstrip-Closed _ (append-Closed (characters "Digest ") text (join-Closed f fs h hs)))
      ∙ scheme_dropped text (field_plain_start f (behind_field fs) h) in
    ap (λ (t : List ℕ). or_no_params (parse_loop (suc (length t)) t [])) stripped
    ∙ ap or_no_params (
        parse_loop-join_fields (suc (length text)) (f ∷ fs) []
          (omega (arith, length-join_fields (f ∷ fs))) (h, hs))

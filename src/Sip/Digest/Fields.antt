-- ===== src/Sip/Digest/Fields.antt =====
-- How rfcvoip/SIPAuth.py prints parameters: `_quote`, and the fields of a header.
use rfcvoip.Prelude.{ℕ, List, [], ◌∷◌, ◌++◌, ◌==◌, if◌then◌else◌}
use rfcvoip.Sip.Digest.{quote, backslash}

-- `text.replace(old, new)` of one character
unfoldable pub replace : (old : ℕ) → (new text : List ℕ) → List ℕ
replace old new [] = []
replace old new (c ∷ cs) = if c == old then new ++ replace old new cs else c ∷ replace old new cs

-- `_quote`
unfoldable pub quote_text : List ℕ → List ℕ
quote_text value =
    replace quote (backslash ∷ quote ∷ []) (replace backslash (backslash ∷ backslash ∷ []) value)

-- `name="value"`, with the value quoted, or `name=value`
pub data Field : Type 0 where
  quoted bare : (name value : List ℕ) → Field

abbrev pub field_text : Field → List ℕ
field_text (quoted name value) = name ++ (b'=' ∷ quote ∷ (quote_text value ++ quote ∷ []))
field_text (bare name value) = name ++ (b'=' ∷ value)

-- `",".join(fields)`, and the text behind its first field
abbrev pub behind_field : List Field → List ℕ
behind_field [] = []
behind_field (f ∷ fs) = b',' ∷ (field_text f ++ behind_field fs)

abbrev pub join_fields : List Field → List ℕ
join_fields [] = []
join_fields (f ∷ fs) = field_text f ++ behind_field fs

-- ===== src/Text.antt =====
-- Text as a list of code points, with the methods of `str` that the program calls. `upper` and
-- `lower` change the ASCII letters, and the other letters whose upper or lower case is one ASCII
-- letter; they keep all other characters, so that they are those of Python where the result is
-- compared with ASCII text. A key of digest parameters with other capitals keeps them.
use Prim.Native.Char.{code}
use Prim.Native.String.{String}
use rfcvoip.Prelude.{
  ℕ, ◌+◌, ◌-◌, ◌*◌, ◌≤◌, ◌≡◌, refl, ◌↔◌, Bool, true, false, ◌&&◌, ◌||◌, not, List, [], ◌∷◌, ◌++◌,
  All, leb, ◌==◌, if◌then◌else◌, arith, length, Bool-cases, inl, inr, sym, ◌∙◌,
}

-- `str.upper` of one character
unfoldable pub upper : ℕ → ℕ
upper c =
    if leb b'a' c && leb c b'z'
    then c - 32
    else if c == 0x131
    then b'I'
    else if c == 0x17f
    then b'S'
    else c

-- `str.isspace` of one character
unfoldable pub is_space : ℕ → Bool
is_space c =
    leb 9 c && leb c 13
    || leb 28 c && leb c 32
    || c == 0x85
    || c == 0xa0
    || c == 0x1680
    || leb 0x2000 c && leb c 0x200a
    || c == 0x2028
    || c == 0x2029
    || c == 0x202f
    || c == 0x205f
    || c == 0x3000

-- `str.lower` of one character; the Kelvin sign is a capital k.
unfoldable pub lower : ℕ → ℕ
lower c = if leb b'A' c && leb c b'Z' then c + 32 else if c == 0x212a then b'k' else c

-- The characters of a name of the source.
abbrev pub characters : String → List ℕ
characters String.[] = []
characters (String.◌∷◌ first rest) = code first ∷ characters rest

abbrev pub same_text : List ℕ → List ℕ → Bool
same_text [] [] = true
same_text (c ∷ cs) (d ∷ ds) = c == d && same_text cs ds
same_text _ _ = false

-- `str.strip`, from the left
abbrev pub lstrip : List ℕ → List ℕ
lstrip [] = []
lstrip (c ∷ cs) = if is_space c then lstrip cs else c ∷ cs

abbrev pub rstrip : List ℕ → List ℕ
rstrip [] = []
rstrip (c ∷ cs) = elim (rstrip cs) [ [] ↦ if is_space c then [] else c ∷ [] | d ∷ ds ↦ c ∷ d ∷ ds ]

abbrev pub is_empty : List ℕ → Bool
is_empty [] = true
is_empty (c ∷ cs) = false

-- `str.strip`
abbrev pub strip : List ℕ → List ℕ
strip text = rstrip (lstrip text)

-- The characters before the first that passes the test, and the text from it on.
abbrev pub take_until : (ℕ → Bool) → List ℕ → List ℕ
take_until test [] = []
take_until test (c ∷ cs) = if test c then [] else c ∷ take_until test cs

abbrev pub drop_until : (ℕ → Bool) → List ℕ → List ℕ
drop_until test [] = []
drop_until test (c ∷ cs) = if test c then c ∷ cs else drop_until test cs

-- `text.startswith(prefix)`
abbrev pub starts_with : (prefix text : List ℕ) → Bool
starts_with [] text = true
starts_with (p ∷ ps) [] = false
starts_with (p ∷ ps) (c ∷ cs) = p == c && starts_with ps cs

-- `re.fullmatch("[0-9]+", text)`, and the number that `int` reads there.
abbrev pub is_digit : ℕ → Bool
is_digit c = leb b'0' c && leb c b'9'

abbrev pub every : (ℕ → Bool) → List ℕ → Bool
every test [] = true
every test (c ∷ cs) = test c && every test cs

unfoldable pub number_from : ℕ → List ℕ → ℕ
number_from n [] = n
number_from n (c ∷ cs) = number_from (n * 10 + (c - b'0')) cs

-- No character of the text passes the test.
abbrev pub IsFree : (ℕ → Bool) → List ℕ → Type 0
IsFree test = All (λ c. test c ≡ false)

pub same_text_iff : (a b : List ℕ) → (same_text a b ≡ true) ↔ (a ≡ b)
same_text_iff [] [] = (λ h. refl, λ h. refl)
same_text_iff [] (d ∷ ds) = (λ h. cc, λ h. cc)
same_text_iff (c ∷ cs) [] = (λ h. cc, λ h. cc)
same_text_iff (c ∷ cs) (d ∷ ds) =
    (λ h. ground (arith, h, same_text_iff cs ds), λ h. ground (arith, h, same_text_iff cs ds))

pub same_text_self : (a : List ℕ) → same_text a a ≡ true
same_text_self a = (same_text_iff a a).1 refl

pub take_until-append :
    (test : ℕ → Bool) (a : List ℕ) (c : ℕ) (b : List ℕ)
    → IsFree test a
    → test c ≡ true
    → take_until test (a ++ c ∷ b) ≡ a
take_until-append test [] c b free found = rw found
take_until-append test (d ∷ a) c b (h, free) found = rw (h, take_until-append test a c b free found)

pub drop_until-append :
    (test : ℕ → Bool) (a : List ℕ) (c : ℕ) (b : List ℕ)
    → IsFree test a
    → test c ≡ true
    → drop_until test (a ++ c ∷ b) ≡ c ∷ b
drop_until-append test [] c b free found = rw found
drop_until-append test (d ∷ a) c b (h, free) found =
    rw (h) (drop_until-append test a c b free found)

pub take_until_all : (test : ℕ → Bool) (a : List ℕ) → IsFree test a → take_until test a ≡ a
take_until_all test [] free = refl
take_until_all test (c ∷ a) (h, free) = rw (h, take_until_all test a free)

pub drop_until_all : (test : ℕ → Bool) (a : List ℕ) → IsFree test a → drop_until test a ≡ []
drop_until_all test [] free = refl
drop_until_all test (c ∷ a) (h, free) = rw (h) (drop_until_all test a free)

-- A text without white space keeps all its characters.
pub rstrip_free : (a : List ℕ) → IsFree is_space a → rstrip a ≡ a
rstrip_free [] free = refl
rstrip_free (c ∷ a) (h, free) = rw (rstrip_free a free) (rstrip_last a)
  where
    rstrip_last :
        (b : List ℕ)
        → elim b [ [] ↦ if is_space c then [] else c ∷ [] | d ∷ ds ↦ c ∷ d ∷ ds ] ≡ c ∷ b
    rstrip_last [] = rw h
    rstrip_last (d ∷ ds) = refl

pub lstrip_free : (a : List ℕ) → IsFree is_space a → lstrip a ≡ a
lstrip_free [] free = refl
lstrip_free (c ∷ a) (h, free) = rw h

pub strip_free : (a : List ℕ) → IsFree is_space a → strip a ≡ a
strip_free a free = rw (lstrip_free a free) (rstrip_free a free)

-- To show of a given text that it is free of a character.
pub every-IsFree :
    (test : ℕ → Bool) (a : List ℕ) → every (λ c. not (test c)) a ≡ true → IsFree test a
every-IsFree test [] h = tt
every-IsFree test (c ∷ a) h = (ground (arith, h), every-IsFree test a (ground (arith, h)))

pub length-lstrip : (a : List ℕ) → length (lstrip a) ≤ length a
length-lstrip [] = omega arith
length-lstrip (c ∷ a) = ground (arith, length-lstrip a)

pub length-drop_until : (test : ℕ → Bool) (a : List ℕ) → length (drop_until test a) ≤ length a
length-drop_until test [] = omega arith
length-drop_until test (c ∷ a) = ground (arith, length-drop_until test a)

-- What `drop_until` stops at passes the test.
pub drop_until_head :
    (test : ℕ → Bool) (a : List ℕ) (c : ℕ) (cs : List ℕ)
    → drop_until test a ≡ c ∷ cs
    → test c ≡ true
drop_until_head test [] c cs h = absurd (ground (arith, h))
drop_until_head test (x ∷ a) c cs h = elim (Bool-cases (test x)) [
  | inl found ↦ found_at found h
  | inr other ↦ drop_until_head test a c cs (sym (rw other refl) ∙ h)
]
  where
    found_at :
        test x ≡ true → (if test x then x ∷ a else drop_until test a) ≡ c ∷ cs → test c ≡ true
    found_at found e = ground (arith, found, e)

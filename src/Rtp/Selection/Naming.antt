-- ===== src/Rtp/Selection/Naming.antt =====
-- `payload_type_from_name` of rfcvoip/RTP.py: the payload type of an SDP codec name. Names are lists of
-- code points; `rate` and `channels` are what `int` makes of the arguments, `none` where they are
-- missing, empty or no integers.
use rfcvoip.Text.{characters, lower, lstrip, rstrip, same_text}
use Prim.Native.String.{String}
use rfcvoip.Prelude.{
  ℕ, ◌≡◌, refl, sym, ap, ◌∙◌, Bool, true, ◌&&◌, ◌||◌, Option, none, some, inl, inr, List, [], ◌∷◌,
  map, filter, find?, ◌==◌, if◌then◌else◌, Bool-cases,
}
use rfcvoip.Rtp.Payload.{
  PayloadValue, number, name, PayloadType, members, value, rate, channel, description,
}

-- `PayloadType.__str__`
abbrev text_of : PayloadValue → String → String
text_of (number n) described = described
text_of (name s) described = s

-- `needle in names`: the text of the codec, its description, and its value if that is a name.
unfoldable pub is_named : List ℕ → PayloadType → Bool
is_named needle codec =
    same_text needle (map lower (characters (text_of (value codec) (description codec))))
    || same_text needle (map lower (characters (description codec)))

-- The channel count of the codec's class, if it has one that is not 0, else of the payload type.
abbrev rtpmap_channel_count : (PayloadType → Option ℕ) → PayloadType → ℕ
rtpmap_channel_count classes codec = elim (classes codec) [
  | none ↦ channel codec
  | some channels ↦ if channels == 0 then channel codec else channels
]

abbrev is_desired : Option ℕ → ℕ → Bool
is_desired none n = true
is_desired (some desired) n = n == desired

-- A filter whose empty result is the `ValueError`.
abbrev some_of : List PayloadType → Option (List PayloadType)
some_of [] = none
some_of (c ∷ cs) = some (c ∷ cs)

abbrev narrow : Option ℕ → (PayloadType → ℕ) → Option (List PayloadType) → Option (List PayloadType)
narrow desired attribute none = none
narrow none attribute (some matches) = some matches
narrow (some desired) attribute (some matches) =
    some_of (filter (λ c. is_desired (some desired) (attribute c)) matches)

abbrev first_match : Option (List PayloadType) → Option PayloadType
first_match none = none
first_match (some []) = none
first_match (some (c ∷ cs)) = some c

abbrev pub strip_lower : List ℕ → List ℕ
strip_lower text = map lower (rstrip (lstrip text))

abbrev from_needle :
    (classes : PayloadType → Option ℕ)
    → (needle : List ℕ) → (desired_rate desired_channels : Option ℕ) → Option PayloadType
from_needle classes [] desired_rate desired_channels = none
from_needle classes (c ∷ cs) desired_rate desired_channels = first_match (
    narrow desired_channels (rtpmap_channel_count classes)
      (narrow desired_rate rate (some_of (filter (is_named (c ∷ cs)) members))))

-- `payload_type_from_name`, with the channel counts of the codec classes; `none` is the `ValueError`.
unfoldable pub payload_type_from_name :
    (classes : PayloadType → Option ℕ)
    → (text : List ℕ) → (desired_rate desired_channels : Option ℕ) → Option PayloadType
payload_type_from_name classes text desired_rate desired_channels =
    from_needle classes (strip_lower text) desired_rate desired_channels

abbrev list_of : Option (List PayloadType) → List PayloadType
list_of none = []
list_of (some cs) = cs

list_of-some_of : (cs : List PayloadType) → list_of (some_of cs) ≡ cs
list_of-some_of [] = refl
list_of-some_of (c ∷ cs) = refl

filter-true : (cs : List PayloadType) → filter (λ c. true) cs ≡ cs
filter-true [] = refl
filter-true (c ∷ cs) = ap (λ (ds : List PayloadType). c ∷ ds) (filter-true cs)

list_of-narrow :
    (desired : Option ℕ) (attribute : PayloadType → ℕ) (m : Option (List PayloadType))
    → list_of (narrow desired attribute m)
      ≡ filter (λ c. is_desired desired (attribute c)) (list_of m)
list_of-narrow none attribute none = refl
list_of-narrow (some desired) attribute none = refl
list_of-narrow none attribute (some matches) = sym (filter-true matches)
list_of-narrow (some desired) attribute (some matches) = list_of-some_of _

filter-filter :
    (p q : PayloadType → Bool) (cs : List PayloadType)
    → filter q (filter p cs) ≡ filter (λ c. p c && q c) cs
filter-filter p q [] = refl
filter-filter p q (c ∷ cs) = elim (Bool-cases (p c)) [
  | inl kept ↦
      rw kept (ap (λ (ds : List PayloadType). if q c then c ∷ ds else ds) (filter-filter p q cs))
  | inr left ↦ rw left (filter-filter p q cs)
]

first_match-list_of :
    (m : Option (List PayloadType)) → first_match m ≡ find? (λ c. true) (list_of m)
first_match-list_of none = refl
first_match-list_of (some []) = refl
first_match-list_of (some (c ∷ cs)) = refl

find-filter :
    (p : PayloadType → Bool) (cs : List PayloadType) → find? (λ c. true) (filter p cs) ≡ find? p cs
find-filter p [] = refl
find-filter p (c ∷ cs) = elim (Bool-cases (p c)) [
  | inl kept ↦ rw kept
  | inr left ↦ rw left (find-filter p cs)
]

-- A codec that has the name, and the rate and the channels where these are given.
abbrev pub is_match :
    (PayloadType → Option ℕ)
    → List ℕ
    → (desired_rate desired_channels : Option ℕ) → PayloadType
    → Bool
is_match classes needle desired_rate desired_channels c =
    (is_named needle c && is_desired desired_rate (rate c))
    && is_desired desired_channels (rtpmap_channel_count classes c)

-- For a name that is not blank, `payload_type_from_name` returns the first member of `PayloadType`
-- that has the name, ignoring case, and the rate and the channels where these are given; it raises
-- where there is none.
pub payload_type_from_name-find :
    (classes : PayloadType → Option ℕ) (text : List ℕ) (desired_rate desired_channels : Option ℕ)
    (c : ℕ) (cs : List ℕ)
    → strip_lower text ≡ c ∷ cs
    → payload_type_from_name classes text desired_rate desired_channels
      ≡ find? (is_match classes (c ∷ cs) desired_rate desired_channels) members
unfolding payload_type_from_name
payload_type_from_name-find classes text desired_rate desired_channels c cs h =
    let named = some_of (filter (is_named (c ∷ cs)) members) in
    let rated = narrow desired_rate rate named in
    let with_rate = λ (d : PayloadType). is_desired desired_rate (rate d) in
    let with_channels =
      λ (d : PayloadType). is_desired desired_channels (rtpmap_channel_count classes d) in
    ap (λ (needle : List ℕ). from_needle classes needle desired_rate desired_channels) h
    ∙ first_match-list_of (narrow desired_channels (rtpmap_channel_count classes) rated)
    ∙ ap (find? (λ d. true)) (
        list_of-narrow desired_channels (rtpmap_channel_count classes) rated
        ∙ ap (filter with_channels) (
            list_of-narrow desired_rate rate named
            ∙ ap (filter with_rate) (list_of-some_of (filter (is_named (c ∷ cs)) members)))
        ∙ ap (filter with_channels) (filter-filter (is_named (c ∷ cs)) with_rate members)
        ∙ filter-filter (λ d. is_named (c ∷ cs) d && with_rate d) with_channels members)
    ∙ find-filter (λ d. (is_named (c ∷ cs) d && with_rate d) && with_channels d) members

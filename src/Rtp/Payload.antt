-- ===== src/Rtp/Payload.antt =====
-- `class PayloadType` of rfcvoip/RTP.py: the known RTP payload types and their attributes.
use rfcvoip.Prelude.{
  true, find?, find?_sound, ap, ==_iff, arith, ℕ, ◌≡◌, ◌↔◌, Bool, false, Option, some, List, [],
  ◌∷◌, ◌==◌,
}
use Prim.Native.String.{String}

-- The `_value_` of a member: a static payload number, or the name of a dynamic payload.
pub data PayloadValue : Type 0 where
  number : ℕ → PayloadValue
  name : String → PayloadValue

pub data PayloadType : Type 0 where
  pcmu : PayloadType
  gsm : PayloadType
  g723 : PayloadType
  dvi4_8000 : PayloadType
  dvi4_16000 : PayloadType
  lpc : PayloadType
  pcma : PayloadType
  pcmu_wb : PayloadType
  pcma_wb : PayloadType
  g722 : PayloadType
  l16_2 : PayloadType
  l16 : PayloadType
  qcelp : PayloadType
  cn : PayloadType
  mpa : PayloadType
  g728 : PayloadType
  dvi4_11025 : PayloadType
  dvi4_22050 : PayloadType
  g729 : PayloadType
  opus : PayloadType
  silk_24000 : PayloadType
  silk_16000 : PayloadType
  silk_12000 : PayloadType
  silk_8000 : PayloadType
  celb : PayloadType
  jpeg : PayloadType
  nv : PayloadType
  h261 : PayloadType
  mpv : PayloadType
  mp2t : PayloadType
  h263 : PayloadType
  event : PayloadType
  unknown : PayloadType

-- The members in the order of the class body, which iteration over the class follows.
abbrev pub members : List PayloadType
members =
    pcmu ∷ gsm ∷ g723 ∷ dvi4_8000 ∷ dvi4_16000 ∷ lpc ∷ pcma ∷ pcmu_wb ∷ pcma_wb ∷ g722 ∷ l16_2 ∷ l16
    ∷ qcelp ∷ cn ∷ mpa ∷ g728 ∷ dvi4_11025 ∷ dvi4_22050 ∷ g729 ∷ opus ∷ silk_24000 ∷ silk_16000
    ∷ silk_12000 ∷ silk_8000 ∷ celb ∷ jpeg ∷ nv ∷ h261 ∷ mpv ∷ mp2t ∷ h263 ∷ event ∷ unknown ∷ []

abbrev pub value : PayloadType → PayloadValue
value pcmu = number 0
value gsm = number 3
value g723 = number 4
value dvi4_8000 = number 5
value dvi4_16000 = number 6
value lpc = number 7
value pcma = number 8
value pcmu_wb = name "PCMU-WB"
value pcma_wb = name "PCMA-WB"
value g722 = number 9
value l16_2 = number 10
value l16 = number 11
value qcelp = number 12
value cn = number 13
value mpa = number 14
value g728 = number 15
value dvi4_11025 = number 16
value dvi4_22050 = number 17
value g729 = number 18
value opus = name "opus"
value silk_24000 = name "SILK/24000"
value silk_16000 = name "SILK/16000"
value silk_12000 = name "SILK/12000"
value silk_8000 = name "SILK/8000"
value celb = number 25
value jpeg = number 26
value nv = number 28
value h261 = number 31
value mpv = number 32
value mp2t = number 33
value h263 = number 34
value event = name "telephone-event"
value unknown = name "UNKNOWN"

abbrev pub rate : PayloadType → ℕ
rate pcmu = 8000
rate gsm = 8000
rate g723 = 8000
rate dvi4_8000 = 8000
rate dvi4_16000 = 16000
rate lpc = 8000
rate pcma = 8000
rate pcmu_wb = 16000
rate pcma_wb = 16000
rate g722 = 8000
rate l16_2 = 44100
rate l16 = 44100
rate qcelp = 8000
rate cn = 8000
rate mpa = 90000
rate g728 = 8000
rate dvi4_11025 = 11025
rate dvi4_22050 = 22050
rate g729 = 8000
rate opus = 48000
rate silk_24000 = 24000
rate silk_16000 = 16000
rate silk_12000 = 12000
rate silk_8000 = 8000
rate celb = 90000
rate jpeg = 90000
rate nv = 90000
rate h261 = 90000
rate mpv = 90000
rate mp2t = 90000
rate h263 = 90000
rate event = 8000
rate unknown = 0

abbrev pub channel : PayloadType → ℕ
channel pcmu = 1
channel gsm = 1
channel g723 = 1
channel dvi4_8000 = 1
channel dvi4_16000 = 1
channel lpc = 1
channel pcma = 1
channel pcmu_wb = 1
channel pcma_wb = 1
channel g722 = 1
channel l16_2 = 2
channel l16 = 1
channel qcelp = 1
channel cn = 1
channel mpa = 0
channel g728 = 1
channel dvi4_11025 = 1
channel dvi4_22050 = 1
channel g729 = 1
channel opus = 1
channel silk_24000 = 1
channel silk_16000 = 1
channel silk_12000 = 1
channel silk_8000 = 1
channel celb = 0
channel jpeg = 0
channel nv = 0
channel h261 = 0
channel mpv = 0
channel mp2t = 1
channel h263 = 0
channel event = 0
channel unknown = 0

abbrev pub description : PayloadType → String
description pcmu = "PCMU"
description gsm = "GSM"
description g723 = "G723"
description dvi4_8000 = "DVI4"
description dvi4_16000 = "DVI4"
description lpc = "LPC"
description pcma = "PCMA"
description pcmu_wb = "PCMU-WB"
description pcma_wb = "PCMA-WB"
description g722 = "G722"
description l16_2 = "L16"
description l16 = "L16"
description qcelp = "QCELP"
description cn = "CN"
description mpa = "MPA"
description g728 = "G728"
description dvi4_11025 = "DVI4"
description dvi4_22050 = "DVI4"
description g729 = "G729"
description opus = "opus"
description silk_24000 = "SILK"
description silk_16000 = "SILK"
description silk_12000 = "SILK"
description silk_8000 = "SILK"
description celb = "CelB"
description jpeg = "JPEG"
description nv = "nv"
description h261 = "H261"
description mpv = "MPV"
description mp2t = "MP2T"
description h263 = "H263"
description event = "telephone-event"
description unknown = "UNKNOWN CODEC"

abbrev value_is : ℕ → PayloadValue → Bool
value_is n (number m) = m == n
value_is n (name s) = false

-- `PayloadType(n)` of a number; `none` is the `ValueError`.
unfoldable pub of_number : ℕ → Option PayloadType
of_number n = find? (λ c. value_is n (value c)) members

pub of_number_sound : (n : ℕ) (c : PayloadType) → of_number n ≡ some c → value c ≡ number n
unfolding of_number
of_number_sound n c h = is_value (value c) (find?_sound (λ d. value_is n (value d)) members c h)
  where
    is_value : (v : PayloadValue) → value_is n v ≡ true → v ≡ number n
    is_value (number m) e = ap number ((==_iff m n).0 e)
    is_value (name s) e = cc

pub of_number_complete : (c : PayloadType) (n : ℕ) → value c ≡ number n → of_number n ≡ some c
unfolding of_number
of_number_complete pcmu n h = ground arith
of_number_complete _ n h = ground arith

-- For every number and every member, `PayloadType(n)` is that member exactly if its value is the
-- number: no static payload number is shared or missed, and no dynamic payload is found by a number.
pub of_number_iff : (n : ℕ) (c : PayloadType) → (of_number n ≡ some c) ↔ (value c ≡ number n)
of_number_iff n c = (of_number_sound n c, of_number_complete c n)

-- ===== src/Rtp/Selection.antt =====
-- The choice of a codec in rfcvoip/RTP.py: `prioritize_payload_type_map` and
-- `select_transmittable_audio_codec`, over a registry of codecs that gives each payload type its score
-- and says whether it can be transmitted.
pub mod Order
pub mod Best
pub mod Naming
mod Tests
use rfcvoip.Prelude.{
  ℕ, Bool, true, false, ◌&&◌, not, Option, none, some, List, [], ◌∷◌, leb, if◌then◌else◌,
}
use rfcvoip.Prelude.Int.{ℤ, ltb_ℤ}
use rfcvoip.Rtp.Payload.{PayloadType}
use rfcvoip.Rtp.Packet.{Assoc}

-- What the functions ask of rfcvoip/codecs, and the enabled codecs that they are given:
-- `codec_priority_score`, the membership in the compatible codecs, and `codec_can_transmit_audio`, none
-- where it raises.
pub record Registry : Type 0 where
  pub codec_priority_score : PayloadType → ℤ
  pub is_compatible : PayloadType → Bool
  pub codec_can_transmit_audio : PayloadType → Option Bool

-- `except Exception: return False`
abbrev pub or_false : Option Bool → Bool
or_false none = false
or_false (some answer) = answer

-- `is_transmittable_audio_codec`
abbrev pub is_transmittable_audio_codec : Registry → PayloadType → Bool
is_transmittable_audio_codec g codec =
    if not (g.is_compatible codec) then false else or_false (g.codec_can_transmit_audio codec)

abbrev pub Entry : Type 0
Entry = ℕ × PayloadType

-- Whether an entry stays before a later one when they are sorted by their negated scores and then by
-- their indices.
abbrev pub stays_before : Registry → Entry → Entry → Bool
stays_before g e f = not (ltb_ℤ (g.codec_priority_score e.1) (g.codec_priority_score f.1))

pub insert_entry : Registry → Entry → List Entry → List Entry
insert_entry g e [] = e ∷ []
insert_entry g e (f ∷ es) = if stays_before g e f then e ∷ f ∷ es else f ∷ insert_entry g e es

-- The sort by the pairs of the negated score and the index.
pub sort_entries : Registry → List Entry → List Entry
sort_entries g [] = []
sort_entries g (e ∷ es) = insert_entry g e (sort_entries g es)

-- `prioritize_payload_type_map`
pub prioritize_payload_type_map : Registry → Assoc → Assoc
prioritize_payload_type_map g assoc = sort_entries g assoc

-- An entry that the loop of `select_transmittable_audio_codec` makes a candidate.
abbrev pub is_candidate : Registry → Entry → Bool
is_candidate g e = leb e.0 127 && is_transmittable_audio_codec g e.1

-- The loop: the candidates, and the entries that are rejected.
pub split_candidates : Registry → List Entry → List Entry × List Entry
split_candidates g [] = ([], [])
split_candidates g (e ∷ es) =
    let rest = split_candidates g es in
    if is_candidate g e then (e ∷ rest.0, rest.1) else (rest.0, e ∷ rest.1)

abbrev pub first_entry : List Entry → Option Entry
first_entry [] = none
first_entry (e ∷ es) = some e

-- `select_transmittable_audio_codec`; `none` is the `RTPParseError` that names the rejected entries.
pub select_transmittable_audio_codec : Registry → Assoc → Option Entry
select_transmittable_audio_codec g assoc = first_entry (sort_entries g (split_candidates g assoc).0)

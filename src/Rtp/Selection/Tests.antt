-- ===== src/Rtp/Selection/Tests.antt =====
-- The selection among three codecs.
use rfcvoip.Text.{is_space, lower}
use rfcvoip.Prelude.{
  ℕ, ◌≡◌, refl, Bool, true, Option, none, some, List, [], ◌∷◌, find?, filter, leb,
}
use rfcvoip.Prelude.Int.{ℤ, pos, negsuc}
use rfcvoip.Rtp.Payload.{PayloadType, members, silk_16000, pcmu, pcma, opus, event}
use rfcvoip.Rtp.Packet.{Assoc}
use rfcvoip.Rtp.Selection.{
  Registry, is_candidate, prioritize_payload_type_map, sort_entries, insert_entry, split_candidates,
  select_transmittable_audio_codec,
}
use rfcvoip.Rtp.Selection.Order.{IsSorted, has_score, prioritize-IsSorted}
use rfcvoip.Rtp.Selection.Naming.{
  payload_type_from_name, is_match, strip_lower, is_named, payload_type_from_name-find,
}
use rfcvoip.Rtp.Selection.Best.{select-prioritize}

abbrev score : PayloadType → ℤ
score event = negsuc 0
score opus = pos 900
score _ = pos 500

abbrev transmittable : PayloadType → Option Bool
transmittable event = none
transmittable _ = some true

abbrev small_registry : Registry
small_registry = record {
  codec_priority_score = score;
  is_compatible = λ codec. true;
  codec_can_transmit_audio = transmittable;
}

abbrev offered : Assoc
offered = (101, event) ∷ (8, pcma) ∷ (0, pcmu) ∷ (130, opus) ∷ []

-- Opus has the best score and no valid number; of the other two the first offered is selected.
selects_first : select_transmittable_audio_codec small_registry offered ≡ some (8, pcma)
unfolding select_transmittable_audio_codec split_candidates sort_entries insert_entry
selects_first = refl

select-prioritize_example :
    select_transmittable_audio_codec small_registry offered
    ≡ find? (is_candidate small_registry) (prioritize_payload_type_map small_registry offered)
select-prioritize_example = select-prioritize small_registry offered

prioritize-IsSorted_example :
    IsSorted small_registry (prioritize_payload_type_map small_registry offered)
    × ((s : ℤ)
        → filter (has_score small_registry s) (prioritize_payload_type_map small_registry offered)
          ≡ filter (has_score small_registry s) offered)
    × (filter (λ e. leb e.0 127) (prioritize_payload_type_map small_registry offered)
        ≡ prioritize_payload_type_map small_registry (filter (λ e. leb e.0 127) offered))
prioritize-IsSorted_example = prioritize-IsSorted small_registry offered (λ e. leb e.0 127)

-- No codec class is loaded.
abbrev no_classes : PayloadType → Option ℕ
no_classes codec = none

-- "silk"
abbrev silk_text : List ℕ
silk_text = b's' ∷ b'i' ∷ b'l' ∷ b'k' ∷ []

silk_text_bare : strip_lower silk_text ≡ silk_text
unfolding is_space lower
silk_text_bare = refl

finds_silk : payload_type_from_name no_classes silk_text (some 16000) none ≡ some silk_16000
unfolding payload_type_from_name is_space lower is_named
finds_silk = refl

payload_type_from_name-find_example :
    payload_type_from_name no_classes silk_text (some 16000) none
    ≡ find? (is_match no_classes silk_text (some 16000) none) members
payload_type_from_name-find_example =
    payload_type_from_name-find no_classes silk_text (some 16000) none b's'
      (b'i' ∷ b'l' ∷ b'k' ∷ []) silk_text_bare

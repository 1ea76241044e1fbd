-- ===== src/Rtp/Selection/Best.antt =====
-- The codec that is selected.
use rfcvoip.Prelude.{
  ◌≡◌, refl, sym, ap, ◌∙◌, Bool, inl, inr, List, [], ◌∷◌, filter, find?, Bool-cases,
}
use rfcvoip.Rtp.Packet.{Assoc}
use rfcvoip.Rtp.Selection.{
  Registry, Entry, is_candidate, split_candidates, first_entry, sort_entries,
  prioritize_payload_type_map, select_transmittable_audio_codec,
}
use rfcvoip.Rtp.Selection.Order.{filter-sort}

split-filter :
    (g : Registry) (es : List Entry) → (split_candidates g es).0 ≡ filter (is_candidate g) es
unfolding split_candidates
split-filter g [] = refl
split-filter g (e ∷ es) = elim (Bool-cases (is_candidate g e)) [
  | inl candidate ↦ rw candidate (ap (λ (ds : List Entry). e ∷ ds) (split-filter g es))
  | inr rejected ↦ rw rejected (split-filter g es)
]

pub first-filter : (p : Entry → Bool) (es : List Entry) → first_entry (filter p es) ≡ find? p es
first-filter p [] = refl
first-filter p (e ∷ es) = elim (Bool-cases (p e)) [
  | inl found ↦ rw found
  | inr other ↦ rw other (first-filter p es)
]

-- The codec selected for transmission is the first entry of the prioritized map that is a candidate:
-- its payload number is at most 127, and the registry can transmit its codec. Without a candidate
-- there is no selection.
pub select-prioritize :
    (g : Registry) (assoc : Assoc)
    → select_transmittable_audio_codec g assoc
      ≡ find? (is_candidate g) (prioritize_payload_type_map g assoc)
unfolding select_transmittable_audio_codec prioritize_payload_type_map
select-prioritize g assoc =
    ap (λ (es : List Entry). first_entry (sort_entries g es)) (split-filter g assoc)
    ∙ ap first_entry (sym (filter-sort g (is_candidate g) assoc))
    ∙ first-filter (is_candidate g) (sort_entries g assoc)

-- ===== src/Voip/Media/Offer.antt =====
-- `VoIPPhone._has_assignable_audio_ports` of rfcvoip/VoIP/VoIP.py: the test of an offer before it is
-- accepted.
use rfcvoip.Prelude.{
  ℕ, zero, suc, ◌+◌, ◌-◌, ◌≡◌, refl, ap, ◌∙◌, Bool, true, false, ◌&&◌, ◌||◌, not, Option, none,
  some, inl, inr, ◌⊎◌, List, [], ◌∷◌, length, filter, All, ltb, ◌==◌, if◌then◌else◌, arith,
}
use rfcvoip.Prelude.Int.{ℤ, pos, negsuc}
use rfcvoip.Voip.Media.{
  port_out_of_range, ports_too_high, Checked, failed, passed, ◌>>=◌, Connection, Expanded,
  expanded_media_connections, Target, number_targets, within_ports, media_rtp_targets,
}

-- `RTPProtocol`, and the other texts of a protocol.
pub data Protocol : Type 0 where
  avp savp udp unknown_protocol : Protocol

-- A media section of an offer. A port or a count that is no integer is `none`, a missing protocol too;
-- a missing count is 1.
pub record MediaSection : Type 0 where
  pub is_audio : Bool
  pub protocol : Option Protocol
  pub port : Option ℤ
  pub port_count : Option ℤ
  pub connections : List Connection

-- `_media_uses_supported_rtp_profile`
abbrev pub uses_supported_rtp_profile : Option Protocol → Bool
uses_supported_rtp_profile none = true
uses_supported_rtp_profile (some avp) = true
uses_supported_rtp_profile (some _) = false

-- `_media_port_is_enabled`
abbrev pub port_is_enabled : Option ℤ → Bool
port_is_enabled (some (pos (suc n))) = true
port_is_enabled _ = false

-- The sections that the loop does not skip.
abbrev pub is_considered : MediaSection → Bool
is_considered m =
    m.is_audio && not (not (uses_supported_rtp_profile m.protocol) || not (port_is_enabled m.port))

-- `_media_connection_count`, and the tests of the section behind it. An error is false.
abbrev pub fits_count : Option ℤ → Option ℤ → ℕ → Bool
fits_count (some (pos count)) (some (pos port)) connections =
    not (connections == 0 || not (count == connections)) && not (ltb 65535 (port + count - 1))
fits_count _ _ connections = false

abbrev pub fits_expanded : MediaSection → Checked (List Expanded) → Bool
fits_expanded m (failed error) = false
fits_expanded m (passed es) = fits_count m.port_count m.port (length es)

unfoldable pub is_assignable : (session all : Option (List Connection)) → MediaSection → Bool
is_assignable session all m = fits_expanded m (expanded_media_connections m.connections session all)

-- The loop over the sections.
unfoldable pub assignable_from :
    (session all : Option (List Connection)) → (found : Bool) → List MediaSection → Bool
assignable_from session all found [] = found
assignable_from session all found (m ∷ ms) =
    if not (is_considered m)
    then assignable_from session all found ms
    else if not (is_assignable session all m)
    then false
    else assignable_from session all true ms

-- `_has_assignable_audio_ports`
unfoldable pub has_assignable_audio_ports :
    (session all : Option (List Connection)) → List MediaSection → Bool
has_assignable_audio_ports session all ms = assignable_from session all false ms

-- The targets of a section, from the port that it names.
abbrev pub section_targets :
    (session all : Option (List Connection)) → MediaSection → (port : ℤ) → Checked (List Target)
section_targets session all m port = media_rtp_targets m.connections session all port

-- The section has a port, and its targets can be computed from it.
abbrev pub HasTargets : (session all : Option (List Connection)) → MediaSection → Type 0
HasTargets session all m =
    (port : ℤ) × (ts : List Target) × (m.port ≡ some port)
    × (section_targets session all m port ≡ passed ts)

fits_count-passed :
    (count port : Option ℤ) (connections : ℕ)
    → fits_count count port connections ≡ true
    → port_is_enabled port ≡ true
    → (n : ℕ) × (port ≡ some (pos (suc n)))
      × ((ltb (suc n) 1 || ltb 65535 (suc n)) ≡ false)
      × (ltb 65535 (suc n + connections - 1) ≡ false)
fits_count-passed (some (pos count)) (some (pos (suc n))) connections h e =
    (n, refl, ground (arith, h), ground (arith, h))
fits_count-passed (some (pos count)) (some (pos zero)) connections h e = absurd (ground (arith, e))
fits_count-passed (some (pos count)) (some (negsuc n)) connections h e = absurd (ground (arith, e))
fits_count-passed (some (pos count)) none connections h e = absurd (ground (arith, e))
fits_count-passed (some (negsuc n)) port connections h e = absurd (ground (arith, h))
fits_count-passed none port connections h e = absurd (ground (arith, h))

within_ports-passed :
    (port : ℕ) (es : List Expanded)
    → ltb 65535 (port + length es - 1) ≡ false
    → within_ports port es ≡ passed (number_targets port 0 es)
within_ports-passed port es low =
    ap (λ (b : Bool). if b then failed ports_too_high else passed (number_targets port 0 es)) low

targets_found :
    (session all : Option (List Connection)) (m : MediaSection) (n : ℕ) (es : List Expanded)
    → expanded_media_connections m.connections session all ≡ passed es
    → (ltb (suc n) 1 || ltb 65535 (suc n)) ≡ false
    → ltb 65535 (suc n + length es - 1) ≡ false
    → section_targets session all m (pos (suc n)) ≡ passed (number_targets (suc n) 0 es)
unfolding media_rtp_targets
targets_found session all m n es expanded inside low =
    ap
      (λ (b : Bool).
        if b
        then failed port_out_of_range
        else (expanded_media_connections m.connections session all >>= within_ports (suc n)))
      inside
    ∙ ap (λ (o : Checked (List Expanded)). o >>= within_ports (suc n)) expanded
    ∙ within_ports-passed (suc n) es low

found_targets :
    (session all : Option (List Connection)) (m : MediaSection) (o : Checked (List Expanded))
    → expanded_media_connections m.connections session all ≡ o
    → fits_expanded m o ≡ true
    → port_is_enabled m.port ≡ true
    → HasTargets session all m
found_targets session all m (failed error) expanded fits enabled = absurd (ground (arith, fits))
found_targets session all m (passed es) expanded fits enabled =
    let found = fits_count-passed m.port_count m.port (length es) fits enabled in
    (
      pos (suc found.0),
      number_targets (suc found.0) 0 es,
      found.1,
      targets_found session all m found.0 es expanded found.2 found.3,
    )

is_assignable-HasTargets :
    (session all : Option (List Connection)) (m : MediaSection)
    → is_considered m ≡ true
    → is_assignable session all m ≡ true
    → HasTargets session all m
unfolding is_assignable
is_assignable-HasTargets session all m considered assignable =
    found_targets session all m (expanded_media_connections m.connections session all) refl
      assignable (ground (arith, considered))

-- The ways in which the loop goes on and ends true.
loop_cases :
    (considered assignable skipped rest : Bool)
    → (if not considered then skipped else if not assignable then false else rest) ≡ true
    → (considered ≡ false) × (skipped ≡ true)
      ⊎ (considered ≡ true) × (assignable ≡ true) × (rest ≡ true)
loop_cases false assignable skipped rest h = inl (refl, h)
loop_cases true true skipped rest h = inr (refl, refl, h)
loop_cases true false skipped rest h = absurd (ground (arith, h))

assignable_from-All :
    (session all : Option (List Connection)) (found : Bool) (ms : List MediaSection)
    → assignable_from session all found ms ≡ true
    → All (HasTargets session all) (filter is_considered ms)
unfolding assignable_from
assignable_from-All session all found [] h = tt
assignable_from-All session all found (m ∷ ms) h =
    elim (loop_cases (is_considered m) (is_assignable session all m)
      (assignable_from session all found ms) (assignable_from session all true ms) h) [
        | inl (skipped, rest) ↦ rw (skipped) (assignable_from-All session all found ms rest)
        | inr (considered, assignable, rest) ↦ rw (considered) (
          is_assignable-HasTargets session all m considered assignable,
          assignable_from-All session all true ms rest,
        )
      ]

assignable_from-some :
    (session all : Option (List Connection)) (ms : List MediaSection)
    → assignable_from session all false ms ≡ true
    → ltb 0 (length (filter is_considered ms)) ≡ true
unfolding assignable_from
assignable_from-some session all [] h = absurd (ground (arith, h))
assignable_from-some session all (m ∷ ms) h =
    elim (loop_cases (is_considered m) (is_assignable session all m)
      (assignable_from session all false ms) (assignable_from session all true ms) h) [
        | inl (skipped, rest) ↦ rw (skipped) (assignable_from-some session all ms rest)
        | inr (considered, assignable, rest) ↦ rw (considered) (ground arith)
      ]

-- An offer is assignable only when it has an audio section with a supported protocol and an enabled
-- port, and when `_media_rtp_targets`, from the port that the section names, computes the targets of
-- every such section without an error.
pub has_assignable_audio_ports-HasTargets :
    (session all : Option (List Connection)) (ms : List MediaSection)
    → has_assignable_audio_ports session all ms ≡ true
    → (ltb 0 (length (filter is_considered ms)) ≡ true)
      × All (HasTargets session all) (filter is_considered ms)
unfolding has_assignable_audio_ports
has_assignable_audio_ports-HasTargets session all ms h =
    (assignable_from-some session all ms h, assignable_from-All session all false ms h)

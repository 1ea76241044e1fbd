-- ===== src/Voip/Media/Tests.antt =====
-- The negotiation of streams, and the theorems about it, at concrete descriptions.
use rfcvoip.Prelude.{
  ◌≡◌, refl, ◌&&◌, true, false, none, some, List, [], ◌∷◌, length, filter, All, ltb,
}
use rfcvoip.Prelude.Int.{pos}
use rfcvoip.Rtp.TransmitType.{sendrecv, sendonly}
use rfcvoip.Voip.Media.{
  sends, receives, negotiate_local_transmit_type, literal, ipv4, passed, Connection, Target,
  connection_address_at, expand_offsets, expand_connections, expanded_media_connections,
  media_rtp_targets,
}
use rfcvoip.Voip.Media.Direction.{reversed, negotiate-reversed}
use rfcvoip.Voip.Media.Offer.{
  avp, MediaSection, is_considered, is_assignable, assignable_from, has_assignable_audio_ports,
  HasTargets, has_assignable_audio_ports-HasTargets,
}
use rfcvoip.Voip.Media.Targets.{IsTargets, media_rtp_targets-IsTargets}

negotiate-reversed_example :
    (sends (negotiate_local_transmit_type sendonly sendrecv)
      ≡ (sends sendrecv && receives sendonly))
    × (receives (negotiate_local_transmit_type sendonly sendrecv)
        ≡ (receives sendrecv && sends sendonly))
    × (negotiate_local_transmit_type sendrecv sendonly
        ≡ reversed (negotiate_local_transmit_type sendonly sendrecv))
negotiate-reversed_example = negotiate-reversed sendonly sendrecv

-- Two addresses from 10.0.0.255 on, and a single one.
abbrev two_sources : List Connection
two_sources =
    record { address = literal ipv4 167772415; address_count = some (pos 2) }
    ∷ record { address = literal ipv4 1; address_count = none }
    ∷ []

abbrev three_targets : List Target
three_targets =
    record {
      address = literal ipv4 167772415;
      port = 4000;
      connection = record {
        address = literal ipv4 167772415;
        source_address = literal ipv4 167772415;
        source_address_count = 2;
        connection_index = 0;
      };
    }
    ∷ record {
      address = literal ipv4 167772416;
      port = 4001;
      connection = record {
        address = literal ipv4 167772416;
        source_address = literal ipv4 167772415;
        source_address_count = 2;
        connection_index = 1;
      };
    }
    ∷ record {
      address = literal ipv4 1;
      port = 4002;
      connection = record {
        address = literal ipv4 1;
        source_address = literal ipv4 1;
        source_address_count = 1;
        connection_index = 2;
      };
    }
    ∷ []

targets_found : media_rtp_targets two_sources none none (pos 4000) ≡ passed three_targets
unfolding media_rtp_targets expanded_media_connections expand_connections expand_offsets
    connection_address_at
targets_found = refl

media_rtp_targets-IsTargets_example : IsTargets 4000 three_targets
media_rtp_targets-IsTargets_example =
    media_rtp_targets-IsTargets two_sources none none 4000 three_targets targets_found

-- A section of video, and one of audio for the three targets.
abbrev offered : List MediaSection
offered =
    record {
      is_audio = false;
      protocol = some avp;
      port = some (pos 5000);
      port_count = some (pos 1);
      connections = [];
    }
    ∷ record {
      is_audio = true;
      protocol = some avp;
      port = some (pos 4000);
      port_count = some (pos 3);
      connections = two_sources;
    }
    ∷ []

offered_assignable : has_assignable_audio_ports none none offered ≡ true
unfolding has_assignable_audio_ports assignable_from is_assignable expanded_media_connections
    expand_connections expand_offsets connection_address_at
offered_assignable = refl

has_assignable_audio_ports-HasTargets_example :
    (ltb 0 (length (filter is_considered offered)) ≡ true)
    × All (HasTargets none none) (filter is_considered offered)
has_assignable_audio_ports-HasTargets_example =
    has_assignable_audio_ports-HasTargets none none offered offered_assignable

-- ===== src/Voip/Media/Direction.antt =====
-- The negotiated direction of a stream.
use rfcvoip.Prelude.{arith, ◌≡◌, ◌&&◌}
use rfcvoip.Rtp.TransmitType.{TransmitType, recvonly, sendrecv, sendonly, inactive}
use rfcvoip.Voip.Media.{sends, receives, negotiate_local_transmit_type}

-- The direction of the same stream at its other end.
abbrev pub reversed : TransmitType → TransmitType
reversed sendrecv = sendrecv
reversed sendonly = recvonly
reversed recvonly = sendonly
reversed inactive = inactive

-- The negotiated direction sends exactly if this end wants to send and the remote end receives, and
-- receives exactly if this end wants to receive and the remote end sends. With the two ends
-- exchanged, the negotiation gives the reversed direction.
pub negotiate-reversed :
    (remote desired : TransmitType)
    → (sends (negotiate_local_transmit_type remote desired) ≡ (sends desired && receives remote))
      × (receives (negotiate_local_transmit_type remote desired)
          ≡ (receives desired && sends remote))
      × (negotiate_local_transmit_type desired remote
          ≡ reversed (negotiate_local_transmit_type remote desired))
unfolding negotiate_local_transmit_type
negotiate-reversed remote desired = ground arith

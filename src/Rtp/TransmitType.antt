-- ===== src/Rtp/TransmitType.antt =====
-- `class TransmitType` of rfcvoip/RTP.py: the direction of a media stream.
use rfcvoip.Prelude.{Bool, true, false}

pub data TransmitType : Type 0 where
  recvonly sendrecv sendonly inactive : TransmitType

-- `t in (TransmitType.RECVONLY, TransmitType.INACTIVE)`
abbrev pub is_silent : TransmitType → Bool
is_silent recvonly = true
is_silent inactive = true
is_silent sendrecv = false
is_silent sendonly = false

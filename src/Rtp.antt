-- ===== src/Rtp.antt =====
-- rfcvoip/RTP.py, part by part.
pub mod Payload
pub mod Packet
pub mod BytesIo
pub mod PacketManager
pub mod AudioOutput
pub mod TransmitType
pub mod Dtmf
pub mod Selection

-- ===== src/Voip.antt =====
-- rfcvoip/VoIP/VoIP.py, part by part.
pub mod Ports
pub mod Media

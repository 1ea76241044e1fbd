-- ===== src/Sip.antt =====
-- rfcvoip/SIPTransport.py and rfcvoip/SIPAuth.py, part by part: framing, digests and redaction.
pub mod Result
pub mod Utf8
pub mod Framing
pub mod Dict
pub mod Digest
pub mod Redaction

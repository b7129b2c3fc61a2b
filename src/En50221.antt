-- ===== src/En50221.antt =====
-- lib/libdvben50221: the common interface to a conditional access module.
pub mod Asn1
pub mod Transport
pub mod Link
pub mod Session
pub mod App

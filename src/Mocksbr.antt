-- ===== src/Mocksbr.antt =====
-- Package mocksbr: virtual devices, their network, and the in-process transport.
pub mod Device
pub mod Requests
pub mod Values
pub mod Responses
pub mod Network
pub mod Handlers
pub mod Transport
pub mod Exchange

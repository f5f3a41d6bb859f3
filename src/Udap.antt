-- ===== src/Udap.antt =====
-- Package udap: the wire formats, the parameter table, and the client.
pub mod Mac
pub mod Tlv
pub mod Packet
pub mod Parameters
pub mod GetData
pub mod GetIp
pub mod GetUuid
pub mod Discovery
pub mod Transport
pub mod Interfaces
pub mod MultiTransport
pub mod UdpTransport
pub mod Logger
pub mod Client
pub mod Actions
pub mod Replies
pub mod Operations
pub mod Validation
pub mod LocalIps

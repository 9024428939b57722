-- ===== src/Fluent.antt =====
-- The package fluent: records, the MessagePack writer, the decoder and the forwarding client.
pub mod Value
pub mod Record
pub mod Msgpack
pub mod Pack
pub mod Decode
pub mod Client
pub mod Protocol

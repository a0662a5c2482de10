-- ===== src/Concox.antt =====
-- The Concox binary protocol: tcp-server/parser/concoxCrc.js and tcp-server/parser/concoxParser.js.
pub mod Crc
pub mod Tables
pub mod Fields
pub mod Packets
pub mod Parsers
pub mod Acks
pub mod Frames
pub mod Devices

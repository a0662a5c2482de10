-- ===== src/Server.antt =====
-- tcp-server/server.js: the connection caps and the sessions of the Concox port.
pub mod Caps
pub mod Session
pub mod TextPort

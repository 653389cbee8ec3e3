-- ===== src/Server.antt =====
-- The server: src/server.rs and the files of src/server.
pub mod Adaptor
pub mod Settings
pub mod Proc
pub mod Service
pub mod Connections
pub mod EndToEnd
pub mod System
pub mod Start
pub mod TestServer

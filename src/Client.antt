-- ===== src/Client.antt =====
-- The client: src/client.rs and the files of src/client.
pub mod Socket
pub mod Proc
pub mod Queue
pub mod Task
pub mod System

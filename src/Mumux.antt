-- ===== src/Mumux.antt =====
-- mumux/: the HTTP and WebSocket server library.
pub mod Ascii
pub mod Connection
pub mod Base64
pub mod Frame
pub mod Peek
pub mod Read
pub mod Request
pub mod Response
pub mod Serve
pub mod Server
pub mod Memory
pub mod Slots
pub mod Update
pub mod Sha
pub mod Socket
pub mod Token
pub mod Upgrade
pub mod Url
pub mod Write

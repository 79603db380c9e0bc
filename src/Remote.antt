-- ===== src/Remote.antt =====
-- src/mbdeploy/remote.py: the client's half of the network protocols.
pub mod Header
pub mod Protocol
pub mod Resolve
pub mod Deploy
pub mod Listing
pub mod Socket
mod Tests

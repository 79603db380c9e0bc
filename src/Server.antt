-- ===== src/Server.antt =====
-- src/mbdeploy/server.py: the fleet daemon's boards, sessions and wire protocols.
pub mod Board
pub mod Sessions
pub mod Wire
pub mod Header
pub mod Serve
pub mod Accept
pub mod Supervisor
mod Tests

-- ===== src/Daemon.antt =====
-- src/daemon/anythingd.c: the handlers of the tool plane and of the admin plane.
pub mod World
pub mod Tool
pub mod Admin
pub mod Keeps
pub mod Timed
pub mod Steps
pub mod Serve
pub mod Start
pub mod Replies
pub mod Traverse
pub mod Logs
pub mod Runs
pub mod Loop
pub mod Heard

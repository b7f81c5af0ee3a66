-- ===== src/DataSocket.antt =====
-- The data connection of a client: its setup, its use by a child process, and its end.
pub mod Passive
pub mod Active
pub mod Destroy
pub mod Transfer
pub mod Frames
pub mod Speaking

-- ===== src/Commands.antt =====
-- src/commands: one module for the handlers of each kind of command.
pub mod Login
pub mod Simple
pub mod Directory
pub mod Delete
pub mod Frames
pub mod Confinement
pub mod DirectoryFrames
pub mod Connect
pub mod Files
pub mod Contents
pub mod Speaking
pub mod DataSpeaking
pub mod Child
pub mod Retrieved
pub mod PassiveSetup
pub mod PassivePort
pub mod PassiveUp
pub mod PortNumbers
pub mod Listing

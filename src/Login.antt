-- ===== src/Login.antt =====
-- The login of a session, as the protocol describes it, and the handlers that implement it.
pub mod Spec
pub mod Table
pub mod Handlers
pub mod Frames
pub mod Refinement

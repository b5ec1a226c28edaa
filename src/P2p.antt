-- ===== src/P2p.antt =====
pub mod Wire
pub mod Message
pub mod Node
pub mod Dispatch
pub mod Send
pub mod Steps

-- ===== src/Tests.antt =====
-- The properties at concrete inputs.
mod Codec
mod Wire
mod Storage
mod Keys
mod Peer
mod Session
mod Raid
mod Chain
mod Query
mod Accounts
mod Network

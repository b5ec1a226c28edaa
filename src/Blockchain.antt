-- ===== src/Blockchain.antt =====
-- blockchain.py: the blocks, the proof of work, the chain and its queries. What hashlib and json
-- compute is a parameter; readings of the clock are arguments.
pub mod Tx
pub mod Block
pub mod Pow
pub mod Nonce
pub mod Merkle
pub mod Chain
pub mod Query
pub mod Hasher

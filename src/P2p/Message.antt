-- ===== src/P2p/Message.antt =====
-- The messages of the protocol of p2p.py as values, and base64, which carries a chunk as text.
use cloudmer_cloud_storage.Prelude.{ℕ, String, Option, List, Bytes}
use cloudmer_cloud_storage.Blockchain.Tx.{Tx}
use cloudmer_cloud_storage.Blockchain.Block.{BlockDict}

-- A message is named by its `cmd`. An argument that is `none` is a missing or null key, or an
-- empty dict, which the handlers do not tell apart; `other` is any other `cmd`.
pub data Message : Type 0 where
  hello : (addr : Option String) (node_id : String) → Message
  hello_ack : (node_id : String) (peers : List String) (height : ℕ) → Message
  get_chain : Message
  chain : (blocks : Option (List BlockDict)) (height : Option ℕ) → Message
  new_block : (block : Option BlockDict) → Message
  new_tx : (tx : Option Tx) → Message
  get_chunk : (chunk_hash : Option String) → Message
  chunk : (chunk_hash text : String) → Message
  chunk_not_found : (chunk_hash : Option String) → Message
  get_peers : Message
  peers : (known : List String) → Message
  other : String → Message

-- `base64.b64encode(...).decode()` and `base64.b64decode`
pub record Base64 : Type 0 where
  pub b64encode : Bytes → String
  pub b64decode : String → Bytes

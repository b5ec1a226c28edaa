-- ===== src/P2p/Steps.antt =====
-- The steps of a node of p2p.py, in any order: a message, a thread, a round of the mining loop and
-- the calls of the upload server.
pub mod Unchanged
pub mod Safety
use cloudmer_cloud_storage.Prelude.{ℕ, ◌≡◌, String, Option, some, Result}
use cloudmer_cloud_storage.Blockchain.Hasher.{Hasher}
use cloudmer_cloud_storage.Blockchain.Tx.{Tx}
use cloudmer_cloud_storage.P2p.Message.{Message, Base64}
use cloudmer_cloud_storage.P2p.Node.{Node, Task}
use cloudmer_cloud_storage.P2p.Dispatch.{dispatch}
use cloudmer_cloud_storage.P2p.Send.{
  Network, run_task, submit_transaction, connect_to_peer, request_chunk, mining_round,
}

-- The network of a step is what the connections come to during it.
pub data Step (h : Hasher) (c : Base64) : Node → Node → Type 0 where
  on_message :
      (msg : Message) (sender : String) (n : Node) → Step h c n (dispatch h c msg sender n).0
  on_task : (net : Network) (t : Task) (n : Node) → Step h c n (run_task net h t n).0
  on_submit : (net : Network) (tx : Tx) (n : Node) → Step h c n (submit_transaction net tx n).0
  on_connect :
      (net : Network) (peer : String) (n : Node) → Step h c n (connect_to_peer net h peer n).0
  on_request :
      (net : Network) (chunk_hash : String) (n : Node)
      → Step h c n (request_chunk net c chunk_hash n).0
  on_mining :
      (net : Network) (fuel now now' : ℕ) (n : Node) (r : Node × Result (Unit {0}))
      → mining_round net h fuel now now' n ≡ some r
      → Step h c n r.0

pub data Reaches (h : Hasher) (c : Base64) : Node → Node → Type 0 where
  here : (n : Node) → Reaches h c n n
  go_on : (n m k : Node) → Step h c n m → Reaches h c m k → Reaches h c n k

-- ===== src/P2p/Dispatch/Seen.antt =====
-- Which blocks a node of p2p.py has seen.
use cloudmer_cloud_storage.Prelude.{
  ◌≡◌, refl, String, true, inl, inr, Bool-cases, arith, List, Result, ok, err,
}
use cloudmer_cloud_storage.Blockchain.Hasher.{Hasher}
use cloudmer_cloud_storage.Blockchain.Tx.{contains, or_else}
use cloudmer_cloud_storage.Blockchain.Block.{Block, BlockDict, from_dict}
use cloudmer_cloud_storage.Blockchain.Chain.{last_block}
use cloudmer_cloud_storage.Blockchain.Query.{add}
use cloudmer_cloud_storage.Blockchain.Query.Disagree.{contains-add}
use cloudmer_cloud_storage.P2p.Node.{Node, persist_chain}
use cloudmer_cloud_storage.P2p.Dispatch.Receive.{
  with_seen, receive_block-seen, receive_block-unseen,
}
use cloudmer_cloud_storage.P2p.Dispatch.{accept_block, judge_block, rebuilt_block, receive_block}

module _ (h : Hasher) where
  -- The hashes that a node has seen are kept by what follows the mark.
  judge_block-seen :
      (d : BlockDict) (sender : String) (b : Block) (last : Result Block) (n : Node)
      → (judge_block h d sender b last n).0.seen_block_hashes ≡ n.seen_block_hashes
  unfolding judge_block accept_block persist_chain
  judge_block-seen d sender b (err e) n = refl
  judge_block-seen d sender b (ok last) n = ground arith

  rebuilt_block-seen :
      (d : BlockDict) (sender : String) (b : Result Block) (n : Node)
      → (rebuilt_block h d sender b n).0.seen_block_hashes ≡ n.seen_block_hashes
  unfolding rebuilt_block judge_block
  rebuilt_block-seen d sender (err e) n = refl
  rebuilt_block-seen d sender (ok b) n = judge_block-seen d sender b (last_block n.blockchain) n

  receive_block_marked :
      (d : BlockDict) (sender : String) (n : Node)
      → contains (receive_block h d sender n).0.seen_block_hashes (or_else d.hash "") ≡ true
  receive_block_marked d sender n =
      elim (Bool-cases (contains n.seen_block_hashes (or_else d.hash ""))) [
        | inl seen ↦ rw (receive_block-seen h d sender n seen) seen
        | inr unseen ↦
            let hashes : List String = add (or_else d.hash "") n.seen_block_hashes in
            rw (receive_block-unseen h d sender n unseen) (
              rw (rebuilt_block-seen d sender (from_dict d) (with_seen h hashes n))
                (contains-add (or_else d.hash "") n.seen_block_hashes))
      ]

  -- A block that a node has been sent, with whatever outcome, is ignored the next time: any dict
  -- with the same hash, from any sender, leaves the node as it is.
  pub receive_block_twice :
      (d d' : BlockDict) (sender sender' : String) (n : Node)
      → or_else d'.hash "" ≡ or_else d.hash ""
      → receive_block h d' sender' (receive_block h d sender n).0
        ≡ ((receive_block h d sender n).0, ok tt)
  receive_block_twice d d' sender sender' n e =
      receive_block-seen h d' sender' (receive_block h d sender n).0
        (rw e (receive_block_marked d sender n))

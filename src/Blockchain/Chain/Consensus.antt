-- ===== src/Blockchain/Chain/Consensus.antt =====
-- `replace_chain` of blockchain.py: the longest valid chain wins.
use cloudmer_cloud_storage.Prelude.{
  suc, ◌≤◌, ◌<◌, ◌≡◌, ◌≢◌, refl, ap, Bool, true, false, arith, Bool-cases, inl, inr, ◌⊎◌, List, [],
  ◌∷◌, map, length, Result, ok, err, leb, ◌>>=◌,
}
use cloudmer_cloud_storage.Blockchain.Hasher.{Hasher}
use cloudmer_cloud_storage.Blockchain.Block.{Block, BlockDict, to_dict, from_dict}
use cloudmer_cloud_storage.Blockchain.Chain.{
  CloudBlockchain, is_valid_chain, is_valid, from_dicts, adopt, replace_chain, save,
}
use cloudmer_cloud_storage.Blockchain.Chain.Laws.{from_dicts-map}

length-from_dicts :
    (ds : List BlockDict) (bs : List Block) → from_dicts ds ≡ ok bs → length bs ≡ length ds
unfolding from_dicts
length-from_dicts [] [] e = refl
length-from_dicts [] (b ∷ bs) e = cc
length-from_dicts (d ∷ ds) bs e = go (from_dict d) (from_dicts ds) (length-from_dicts ds) e
  where
    go :
        (x : Result Block) (xs : Result (List Block))
        → ((cs : List Block) → xs ≡ ok cs → length cs ≡ length ds)
        → (do b ← x; rest ← xs; ok (b ∷ rest)) ≡ ok bs
        → length bs ≡ suc (length ds)
    go (ok b) (ok rest) ih e = let same : b ∷ rest ≡ bs = cc in rw (← same) (ap suc (ih rest refl))
    go (ok b) (err x) ih e = cc
    go (err x) xs ih e = cc

module _ (h : Hasher) (bc : CloudBlockchain) where
  -- What the adoption of a longer chain may come to.
  pub record Adopted (new_chain_data : List BlockDict) (bc' : CloudBlockchain) : Type 0 where
    pub taken : from_dicts new_chain_data ≡ ok bc'.chain
    pub longer : length bc.chain < length bc'.chain
    pub valid : is_valid h bc' ≡ true
    pub queue_kept : bc'.pending_transactions ≡ bc.pending_transactions
    pub difficulty_kept : bc'.difficulty ≡ bc.difficulty

  replace_chain-short :
      (new_chain_data : List BlockDict)
      → length new_chain_data ≤ length bc.chain
      → replace_chain h bc new_chain_data ≡ (bc, ok false)
  unfolding replace_chain
  replace_chain-short ds l =
      let short : leb (length ds) (length bc.chain) ≡ true = ground arith in rw short

  replace_chain-long :
      (new_chain_data : List BlockDict)
      → length bc.chain < length new_chain_data
      → replace_chain h bc new_chain_data ≡ adopt h bc (from_dicts new_chain_data)
  unfolding replace_chain
  replace_chain-long ds l =
      let long : leb (length ds) (length bc.chain) ≡ false = ground arith in rw long

  -- Either the chain object is as before and the answer is not True, or the answer is True and the
  -- incoming chain, longer than the old one and valid, has been taken.
  abbrev pub Outcome : List BlockDict → CloudBlockchain × Result Bool → Type 0
  Outcome new_chain_data (bc', r) =
      ((bc' ≡ bc) × (r ≢ ok true)) ⊎ ((r ≡ ok true) × Adopted new_chain_data bc')

  adopt-Outcome :
      (ds : List BlockDict) (r : Result (List Block))
      → from_dicts ds ≡ r
      → length bc.chain < length ds
      → Outcome ds (adopt h bc r)
  adopt-Outcome ds (err e) found l = inl (refl, λ z. cc)
  adopt-Outcome ds (ok bs) found l = elim (Bool-cases (is_valid_chain h bc.difficulty bs)) [
    | inl good ↦ rw good (
        inr (
          refl,
          record {
            taken = found;
            longer = omega (arith, length-from_dicts ds bs found);
            valid = good;
            queue_kept = refl;
            difficulty_kept = refl;
          },
        ))
    | inr bad ↦ rw bad (inl (refl, λ z. cc))
  ]

  -- `replace_chain` either leaves the chain object as it is, with an answer other than True, or
  -- answers True and has taken exactly the incoming chain, which is longer than the old one and
  -- valid; the queue and the difficulty are kept.
  pub replace_chain-Outcome :
      (new_chain_data : List BlockDict) → Outcome new_chain_data (replace_chain h bc new_chain_data)
  replace_chain-Outcome ds = elim (Bool-cases (leb (length ds) (length bc.chain))) [
    | inl short ↦ rw (replace_chain-short ds (ground arith)) (inl (refl, λ z. cc))
    | inr long ↦
        let l : length bc.chain < length ds = ground arith in
        rw (replace_chain-long ds l) (adopt-Outcome ds (from_dicts ds) refl l)
  ]

  -- A peer's chain, as the peer sends it, is taken when it is longer and valid.
  pub replace_chain-save :
      (peer : CloudBlockchain)
      → length bc.chain < length peer.chain
      → is_valid_chain h bc.difficulty peer.chain ≡ true
      → replace_chain h bc (save peer) ≡ (record bc { chain = peer.chain }, ok true)
  unfolding save
  replace_chain-save peer l v =
      rw
        (replace_chain-long (map to_dict peer.chain) (
          omega (
            arith,
            length-from_dicts (map to_dict peer.chain) peer.chain (from_dicts-map peer.chain),
          )))
        (rw (from_dicts-map peer.chain) (rw v))

  -- After the call the chain is at least as long as any valid chain that was offered.
  pub replace_chain_best :
      (new_chain_data : List BlockDict) (candidate : List Block)
      → from_dicts new_chain_data ≡ ok candidate
      → is_valid_chain h bc.difficulty candidate ≡ true
      → length candidate ≤ length (replace_chain h bc new_chain_data).0.chain
  replace_chain_best ds bs found v = elim (Bool-cases (leb (length ds) (length bc.chain))) [
    | inl short ↦
        rw (replace_chain-short ds (ground arith)) (ground (arith, length-from_dicts ds bs found))
    | inr long ↦ rw (replace_chain-long ds (ground arith)) (rw found (rw v (omega arith)))
  ]

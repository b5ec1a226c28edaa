-- ===== src/Blockchain/Chain/Laws.antt =====
-- Validity of chains block by block, and the dicts that blocks are saved as.
use cloudmer_cloud_storage.Prelude.{
  ℕ, ◌≡◌, ◌↔◌, refl, true, arith, Bool-cases, inl, inr, starts_with, str_eq, eq_iff, List, [], ◌∷◌,
  ◌++◌, map, ok,
}
use cloudmer_cloud_storage.Blockchain.Hasher.{Hasher}
use cloudmer_cloud_storage.Blockchain.Block.{Block, compute_hash, to_dict, from_dict}
use cloudmer_cloud_storage.Blockchain.Pow.{zeros, is_valid_proof}
use cloudmer_cloud_storage.Blockchain.Chain.{
  CloudBlockchain, last_of, links, valid_from, is_valid_chain, from_dicts, save, load,
}

-- A dict that comes from a block gives the block back.
pub from_dict-to_dict : (b : Block) → from_dict (to_dict b) ≡ ok b
unfolding from_dict to_dict
from_dict-to_dict b = refl

pub from_dicts-map : (bs : List Block) → from_dicts (map to_dict bs) ≡ ok bs
unfolding from_dicts
from_dicts-map [] = refl
from_dicts-map (b ∷ bs) = rw (from_dict-to_dict b) (rw (from_dicts-map bs))

-- A chain that is saved and loaded, into any chain object, is the same chain.
pub load-save :
    (bc other : CloudBlockchain) → load other (save bc) ≡ (record other { chain = bc.chain }, ok tt)
unfolding load save
load-save bc other = rw (from_dicts-map bc.chain)

module _ (h : Hasher) (d : ℕ) where
  -- What the three tests come to.
  pub record IsNext (previous current : Block) : Type 0 where
    pub own_hash : current.hash ≡ compute_hash h current
    pub linked : current.previous_hash ≡ previous.hash
    pub worked : starts_with current.hash (zeros d) ≡ true

  pub links-IsNext :
      (previous current : Block) → links h d previous current ≡ true → IsNext previous current
  unfolding links is_valid_proof
  links-IsNext p c e = record {
    own_hash = (eq_iff c.hash (compute_hash h c)).0 (ground arith);
    linked = (eq_iff c.previous_hash p.hash).0 (ground arith);
    worked = ground arith;
  }

  pub IsNext-links :
      (previous current : Block) → IsNext previous current → links h d previous current ≡ true
  unfolding links is_valid_proof
  IsNext-links p c n =
      let own : str_eq c.hash (compute_hash h c) ≡ true =
        (eq_iff c.hash (compute_hash h c)).1 n.own_hash in
      let link : str_eq c.previous_hash p.hash ≡ true =
        (eq_iff c.previous_hash p.hash).1 n.linked in
      let work : starts_with c.hash (zeros d) ≡ true = n.worked in ground arith

  pub valid_from-append :
      (p last : Block) (bs : List Block) (b : Block)
      → last_of (p ∷ bs) ≡ ok last
      → valid_from h d p bs ≡ true
      → links h d last b ≡ true
      → valid_from h d p (bs ++ b ∷ []) ≡ true
  unfolding valid_from last_of
  valid_from-append p last [] b e v l =
      let e' : ok p ≡ ok last = e in
      let same : p ≡ last = cc in let good : links h d p b ≡ true = cc in rw (good, valid_from)
  valid_from-append p last (c ∷ bs) b e v l = elim (Bool-cases (links h d p c)) [
    | inl good ↦
        rw (good, valid_from) (valid_from-append c last bs b e (rw (good, valid_from) at v) l)
    | inr bad ↦ cc (rw (bad, valid_from) at v)
  ]

  -- A valid chain stays valid with a block that passes the three tests against the last one.
  pub is_valid_chain-append :
      (bs : List Block) (last b : Block)
      → last_of bs ≡ ok last
      → is_valid_chain h d bs ≡ true
      → links h d last b ≡ true
      → is_valid_chain h d (bs ++ b ∷ []) ≡ true
  unfolding is_valid_chain
  is_valid_chain-append [] last b e v l = refl
  is_valid_chain-append (p ∷ bs) last b e v l = valid_from-append p last bs b e v l

  valid_from-head :
      (p c : Block) (bs : List Block)
      → valid_from h d p (c ∷ bs) ≡ true
      → IsNext p c × (valid_from h d c bs ≡ true)
  unfolding valid_from
  valid_from-head p c bs v = elim (Bool-cases (links h d p c)) [
    | inl good ↦ (links-IsNext p c good, rw (good, valid_from) at v)
    | inr bad ↦ cc (rw (bad, valid_from) at v)
  ]

  -- Every block but the first follows the one before it.
  abbrev pub AllNext : Block → List Block → Type 0
  AllNext p [] = Unit
  AllNext p (c ∷ bs) = IsNext p c × AllNext c bs

  valid_from-AllNext : (p : Block) (bs : List Block) → valid_from h d p bs ≡ true → AllNext p bs
  valid_from-AllNext p [] v = tt
  valid_from-AllNext p (c ∷ bs) v =
      let (n, rest) = valid_from-head p c bs v in (n, valid_from-AllNext c bs rest)

  AllNext-valid_from : (p : Block) (bs : List Block) → AllNext p bs → valid_from h d p bs ≡ true
  unfolding valid_from
  AllNext-valid_from p [] a = refl
  AllNext-valid_from p (c ∷ bs) (n, a) =
      rw (IsNext-links p c n, valid_from) (AllNext-valid_from c bs a)

  -- `is_valid` accepts a chain exactly when each block after the first has the hash of its own
  -- contents, names the hash of the block before it, and starts with the zeros of the difficulty.
  pub is_valid_chain_iff :
      (genesis : Block) (bs : List Block)
      → (is_valid_chain h d (genesis ∷ bs) ≡ true) ↔ AllNext genesis bs
  unfolding is_valid_chain
  is_valid_chain_iff g bs = (valid_from-AllNext g bs, AllNext-valid_from g bs)

  valid_from-same_hash :
      (g g' : Block) (bs : List Block)
      → g.hash ≡ g'.hash
      → valid_from h d g bs ≡ valid_from h d g' bs
  unfolding valid_from
  valid_from-same_hash g g' [] e = refl
  valid_from-same_hash g g' (c ∷ bs) e = rw e

  -- The genesis block itself is not checked: any contents under the same hash field, also one that
  -- is not the hash of the contents, make no difference to `is_valid`.
  pub is_valid_chain_genesis :
      (g g' : Block) (bs : List Block)
      → g.hash ≡ g'.hash
      → is_valid_chain h d (g ∷ bs) ≡ is_valid_chain h d (g' ∷ bs)
  unfolding is_valid_chain
  is_valid_chain_genesis g g' bs e = valid_from-same_hash g g' bs e

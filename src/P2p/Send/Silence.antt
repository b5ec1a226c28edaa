-- ===== src/P2p/Send/Silence.antt =====
-- What a node of p2p.py answers to an announcement, and what becomes of the peers of the sender.
use text.Mathlib.TextPositions.{eq_refl}
use cloudmer_cloud_storage.Prelude.{
  ◌≡◌, refl, ap, ◌∙◌, sym, String, true, false, ◌||◌, ◌⊎◌, inl, inr, Bool-cases, arith, str_eq,
  eq_iff, Option, none, some, List, [], ◌∷◌, Result, ok, err,
}
use cloudmer_cloud_storage.Blockchain.Hasher.{Hasher}
use cloudmer_cloud_storage.Blockchain.Tx.{Tx, contains}
use cloudmer_cloud_storage.Blockchain.Block.{BlockDict}
use cloudmer_cloud_storage.Blockchain.Query.{discard}
use cloudmer_cloud_storage.P2p.Message.{Message, new_block, new_tx, Base64}
use cloudmer_cloud_storage.P2p.Node.{Node}
use cloudmer_cloud_storage.P2p.Dispatch.{receive_block, receive_tx, no_reply, dispatch}
use cloudmer_cloud_storage.P2p.Send.{
  unreachable, answered, Network, delivered, discard_all, note_dead, drop_dead, send_to_peer,
  send_all, broadcast,
}

contains-discard :
    (y x : String) (xs : List String)
    → contains (discard y xs) x ≡ true
    → (contains xs x ≡ true) × (str_eq y x ≡ false)
unfolding discard
contains-discard y x [] m = cc
contains-discard y x (z ∷ xs) m = elim (Bool-cases (str_eq z y)) [
  | inl gone ↦
      let (old, apart) = contains-discard y x xs (rw (gone, discard) at m) in
      (ground (arith, old), apart)
  | inr kept ↦
      let m' : (str_eq z x || contains (discard y xs) x) ≡ true = rw (kept, discard) at m in
      elim (Bool-cases (str_eq z x)) [
        | inl here ↦ (rw here refl, apart_from z kept here)
        | inr there ↦
            let (old, apart) = contains-discard y x xs (rw there at m') in (rw there old, apart)
      ]
]
  where
    apart_from : (z : String) → str_eq z y ≡ false → str_eq z x ≡ true → str_eq y x ≡ false
    apart_from z kept here = elim (Bool-cases (str_eq y x)) [
      | inl same ↦
          let back : str_eq z y ≡ true =
            (eq_iff z y).1 ((eq_iff z x).0 here ∙ sym ((eq_iff y x).0 same)) in
          cc
      | inr apart ↦ apart
    ]

abbrev Within : List String → List String → Type 0
Within xs ys = (x : String) → contains xs x ≡ true → contains ys x ≡ true

Within-nil : (xs : List String) → Within xs [] → xs ≡ []
Within-nil [] w = refl
Within-nil (x ∷ xs) w = let found : contains (x ∷ xs) x ≡ true = rw (eq_refl x) in cc (w x found)

discard_all-Within : (ys xs : List String) → Within xs ys → discard_all ys xs ≡ []
unfolding discard_all
discard_all-Within [] xs w = Within-nil xs w
discard_all-Within (y ∷ ys) xs w = discard_all-Within ys (discard y xs) (λ x m.
    let (old, apart) = contains-discard y x xs m in
    let known : contains (y ∷ ys) x ≡ true = w x old in ground arith)

-- No delivery of the message has a reply.
abbrev Silent : Network → Message → Type 0
Silent net msg = (p : String) → (net p msg ≡ unreachable) ⊎ (net p msg ≡ answered none)

note_dead-Silent :
    (net : Network) (msg : Message) (p : String) (dead : List String) (n : Node)
    → (net p msg ≡ unreachable) ⊎ (net p msg ≡ answered none)
    → Within (note_dead p dead (send_to_peer net p msg n)).0.peers n.peers
      × ((note_dead p dead (send_to_peer net p msg n)).1 ≡ p ∷ dead)
unfolding send_to_peer delivered
note_dead-Silent net msg p dead n (inl down) =
    rw down (λ x m. (contains-discard p x n.peers m).0, refl)
note_dead-Silent net msg p dead n (inr quiet) = rw quiet (λ x m. m, refl)

send_all-Silent :
    (net : Network) (msg : Message) (ps dead : List String) (n : Node)
    → Silent net msg
    → Within (send_all net ps msg dead n).0.peers n.peers
      × Within dead (send_all net ps msg dead n).1
      × Within ps (send_all net ps msg dead n).1
unfolding send_all
send_all-Silent net msg [] dead n silent = (λ x m. m, λ x m. m, λ x m. cc)
send_all-Silent net msg (p ∷ ps) dead n silent =
    let r : Node × List String = note_dead p dead (send_to_peer net p msg n) in
    let (fewer, noted) = note_dead-Silent net msg p dead n (silent p) in
    let (within, kept, all) = send_all-Silent net msg ps (r.1) (r.0) silent in
    let marked : Within (p ∷ dead) (send_all net ps msg (r.1) (r.0)).1 =
      λ x m. kept x (rw noted m) in
    (
      λ x m. fewer x (within x m),
      λ x m. marked x (ground (arith, m)),
      λ x m. elim (Bool-cases (str_eq p x)) [
        | inl here ↦ marked x (rw here refl)
        | inr there ↦ all x (rw there at m)
      ],
    )

-- A message that none of the peers replies to leaves the sender of a broadcast without peers.
broadcast-Silent :
    (net : Network) (msg : Message) (n : Node) → Silent net msg → (broadcast net msg n).peers ≡ []
unfolding broadcast drop_dead
broadcast-Silent net msg n silent =
    let (within, _, all) = send_all-Silent net msg n.peers [] n silent in
    discard_all-Within (send_all net n.peers msg [] n).1 (send_all net n.peers msg [] n).0.peers
      (λ x m. all x (within x m))

-- What the sender of a message gets from a handler: an exception closes the connection.
abbrev pub reply_of : Node × Result (Option Message) → Option Message
reply_of (n, err e) = none
reply_of (n, ok reply) = reply

pub data IsAnnouncement : Message → Type 0 where
  of_block : (b : Option BlockDict) → IsAnnouncement (new_block b)
  of_tx : (tx : Option Tx) → IsAnnouncement (new_tx tx)

no_reply_lem : (r : Node × Result (Unit {0})) → reply_of (no_reply r) ≡ none
no_reply_lem (n, err e) = refl
no_reply_lem (n, ok _) = refl

module _ (h : Hasher) (c : Base64) where
  dispatch-IsAnnouncement :
      (msg : Message) (sender : String) (m : Node)
      → IsAnnouncement msg
      → reply_of (dispatch h c msg sender m) ≡ none
  unfolding dispatch
  dispatch-IsAnnouncement _ sender m (of_block none) = refl
  dispatch-IsAnnouncement _ sender m (of_block (some b)) = no_reply_lem (receive_block h b sender m)
  dispatch-IsAnnouncement _ sender m (of_tx none) = refl
  dispatch-IsAnnouncement _ sender m (of_tx (some tx)) = no_reply_lem (receive_tx tx m)

  -- Each delivery fails or has the reply that a node gives by `_dispatch`.
  abbrev pub RunsNodes : Network → Type 0
  RunsNodes net =
      (p : String) (msg : Message)
      → (net p msg ≡ unreachable)
        ⊎ ((sender : String) × (m : Node) × (net p msg
              ≡ answered (reply_of (dispatch h c msg sender m))))

  -- Where the peers run this node, the broadcast of a block or of a transaction leaves its sender
  -- without any peer: the handlers do not reply, and a peer that does not reply is dropped.
  pub broadcast-RunsNodes :
      (net : Network) (msg : Message) (n : Node)
      → RunsNodes net
      → IsAnnouncement msg
      → (broadcast net msg n).peers ≡ []
  broadcast-RunsNodes net msg n runs a = broadcast-Silent net msg n (λ p. elim (runs p msg) [
    | inl down ↦ inl down
    | inr (sender, m, e) ↦ inr (e ∙ ap answered (dispatch-IsAnnouncement msg sender m a))
  ])

-- ===== src/Client/Link.antt =====
-- A client and the session that serves it, message by message: the client waits for each reply,
-- and the server handles what has arrived before the client goes on.
use cloudmer_cloud_storage.Prelude.{
  ℕ, zero, suc, ◌+◌, ◌≡◌, ◌<◌, refl, ap, String, Bool, true, false, Option, none, some, List, [],
  ◌∷◌, ◌++◌, Bytes, length, Result, ok, if◌then◌else◌, arith,
}
use cloudmer_cloud_storage.Server.{Server}
use cloudmer_cloud_storage.Server.Uploads.{Inputs}
use cloudmer_cloud_storage.Server.Dispatch.{Env, Outcome, Turn, answer, handle_request, login_owner}

-- The messages that neither side has read yet; `served` requests have been handled.
pub record Link : Type 0 where
  pub server : Server
  pub session_owner : String
  pub served : ℕ
  pub is_open : Bool
  pub unread : List Bytes
  pub replies : List Bytes

-- `recv_with_AES` where each message has arrived whole; the end is a closed connection.
unfoldable pub recv_message : List Bytes → Result (Option Bytes) × List Bytes
recv_message [] = (ok none, [])
recv_message (m ∷ ms) = (ok (some m), ms)

module _ (env : Env) (inputs : ℕ → Inputs) where
  abbrev pub settled : String → Link → Outcome (List Bytes) → Turn → Link
  settled owner l o (answer to_send finish) = record {
    server = o.server;
    session_owner = owner;
    served = l.served + 1;
    is_open = if finish then false else true;
    unread = o.sock;
    replies = l.replies ++ o.sent ++ reply to_send;
  }
    where
      reply : Option Bytes → List Bytes
      reply none = []
      reply (some r) = r ∷ []
  settled owner l o _ = record l {
    server = o.server;
    is_open = false;
    unread = o.sock;
    replies = l.replies ++ o.sent;
  }

  -- One round of `handle_client`.
  abbrev pub round : Bool → List Bytes → Link → Link
  round false unread l = l
  round true [] l = l
  round true ([] ∷ ms) l = record l { is_open = false; unread = ms }
  round true ((x ∷ xs) ∷ ms) l =
      let owner = login_owner (env.codecs.decode (x ∷ xs)) l.session_owner in
      let o = handle_request env recv_message (inputs l.served) (x ∷ xs) ms owner l.server in
      settled owner l o o.turn

  unfoldable pub rounds : ℕ → Link → Link
  rounds zero l = l
  rounds (suc n) l = rounds n (round l.is_open l.unread l)

  abbrev pub next_reply : List Bytes → Link → Result (Option Bytes) × Link
  next_reply [] l = (ok none, l)
  next_reply (r ∷ rs) l = (ok (some r), record l { replies = rs })

  abbrev pub first_reply : Link → Result (Option Bytes) × Link
  first_reply l = next_reply l.replies l

  -- The client sends messages in a row, the session handles them, and the client reads one reply.
  -- This puts the two programs together and stands for no single function of either.
  unfoldable pub talk : List Bytes → Link → Result (Option Bytes) × Link
  unfolding rounds
  talk messages l =
      first_reply
        (rounds (length (l.unread ++ messages)) (record l { unread = l.unread ++ messages }))

-- The connection between two requests.
abbrev pub idle : Server → String → ℕ → Link
idle st owner served = record {
  server = st;
  session_owner = owner;
  served = served;
  is_open = true;
  unread = [];
  replies = [];
}

module _ (env : Env) (inputs : ℕ → Inputs) where
  rounds-idle :
      (n : ℕ) (st : Server) (owner : String) (served : ℕ) (replies : List Bytes)
      → rounds env inputs n (record (idle st owner served) { replies = replies })
        ≡ record (idle st owner served) { replies = replies }
  unfolding rounds
  rounds-idle zero st owner served replies = refl
  rounds-idle (suc n) st owner served replies = rounds-idle n st owner served replies

  -- A request that the server answers, with all that the client sent after it.
  pub talk_answered :
      (st st' : Server) (owner owner' : String) (served : ℕ) (m : Bytes) (more : List Bytes)
      (reply : Bytes)
      → 0 < length m
      → login_owner (env.codecs.decode m) owner ≡ owner'
      → handle_request env recv_message (inputs served) m more owner' st
        ≡ record { server = st'; sock = []; sent = []; turn = answer (some reply) false }
      → talk env inputs (m ∷ more) (idle st owner served)
        ≡ (ok (some reply), idle st' owner' (served + 1))
  unfolding talk rounds
  talk_answered st st' owner owner' served [] more reply filled same handled = absurd (omega arith)
  talk_answered st st' owner owner' served (x ∷ xs) more reply filled same handled = rw same (
      rw handled (
        ap (first_reply env inputs)
          (rounds-idle (length more) st' owner' (served + 1) (reply ∷ []))))

-- ===== src/Server/Dispatch.antt =====
-- The dispatcher of cloudmer_SRV.py and the loop of a session. `recv` is `recv_with_AES` on the
-- client's socket; what is sent is the list of the messages, in order.
pub mod Requests
pub mod Finite
use cloudmer_cloud_storage.Prelude.{
  ℕ, zero, suc, String, ◌<>◌, Bool, true, false, Option, none, some, List, [], ◌∷◌, ◌++◌, Bytes,
  length, leb, str_eq, Error, timeout_error, Result, ok, err, lookup, if◌then◌else◌,
}
use cloudmer_cloud_storage.Text.{split, begins_with, first_chars}
use cloudmer_cloud_storage.Chunks.{Codecs}
use cloudmer_cloud_storage.Blockchain.Hasher.{Hasher}
use cloudmer_cloud_storage.Server.{Server, Transfer, Files, Reply, replied, raised, mining}
use cloudmer_cloud_storage.Server.Files.{handle_star, handle_delete, handle_restore, handle_purge}
use cloudmer_cloud_storage.Server.Listing.{Os, handle_file_list}
use cloudmer_cloud_storage.Server.Accounts.{handle_login, handle_signup}
use cloudmer_cloud_storage.Server.Uploads.{
  Inputs, handle_upload_init, handle_chunk, handle_upload_done,
}
use cloudmer_cloud_storage.Server.Downloads.{handle_download}
use cloudmer_cloud_storage.Server.Queries.{
  Dumps, handle_file_metadata, handle_file_history, handle_get_chain,
}

-- `to_send` and `finish`, an exception, or nothing while the proof of work goes on.
pub data Turn : Type 0 where
  answer : Option Bytes → Bool → Turn
  failed : Error → Turn
  unfinished : Turn

abbrev pub owner_of : Option Transfer → String → String
owner_of none session_owner = session_owner
owner_of (some transfer) session_owner = transfer.owner

abbrev pub transfer_owner : List String → List (String × Transfer) → String → String
transfer_owner (_ ∷ tid ∷ _) transfers session_owner = owner_of (lookup tid transfers) session_owner
transfer_owner _ transfers session_owner = owner_of (lookup "" transfers) session_owner

-- What one request leaves: the state, the socket, what has been sent, and the turn's end.
pub record Outcome (S : Type 0) : Type 0 where
  pub server : Server
  pub sock : S
  pub sent : List Bytes
  pub turn : Turn

-- What the program uses of its libraries.
pub record Env : Type 0 where
  pub codecs : Codecs
  pub dumps : Dumps
  pub hasher : Hasher
  pub digest : String → String
  pub os : Os

module _ (k : Codecs) where
  abbrev pub reported : Turn → Turn
  reported (answer to_send finish) = answer to_send finish
  reported (failed _) = answer (some (k.encode "ERRR~001~General error")) true
  reported unfinished = unfinished

abbrev pub second_part : List String → String → String
second_part (_ ∷ email ∷ _) owner = email
second_part _ owner = owner

-- The owner of the session is set by a request to log in, before the request is served.
abbrev pub login_owner : Result String → String → String
login_owner (err _) session_owner = session_owner
login_owner (ok decoded) session_owner =
    if begins_with decoded "LOGN~"
    then second_part (split b'~' decoded) session_owner
    else session_owner

-- How a session ends: the client is gone or has left, an exception of the socket or of the
-- cipher, the proof of work still runs, or `fuel` rounds have been made.
pub data Ending : Type 0 where
  disconnected finished broken waiting out_of_fuel : Ending

module _ (env : Env) {S : Type 0} (recv : S → Result (Option Bytes) × S) where
  abbrev pub said : String → S → Server → Outcome S
  said text sock st = record {
    server = st;
    sock = sock;
    sent = [];
    turn = answer (some (env.codecs.encode text)) false;
  }

  abbrev pub ended : Server × Reply → S → Outcome S
  ended (st, replied text) sock = said text sock st
  ended (st, raised e) sock = record { server = st; sock = sock; sent = []; turn = failed e }
  ended (st, mining) sock = record { server = st; sock = sock; sent = []; turn = unfinished }

  abbrev pub with_files : Files × String → S → Server → Outcome S
  with_files (files, text) sock st = said text sock (record st { files = files })

  -- The chain of tests on the code.
  unfoldable pub route : Inputs → String → List String → S → String → Server → Outcome S
  unfolding handle_login handle_signup handle_file_list handle_star handle_delete handle_restore
      handle_purge handle_upload_init handle_chunk handle_upload_done handle_download
      handle_file_metadata handle_file_history handle_get_chain
  route inputs code parts sock session_owner st =
      if str_eq code "EXIT"
      then record {
        server = st;
        sock = sock;
        sent = [];
        turn = answer (some (env.codecs.encode "EXTR")) true;
      }
      else if str_eq code "LOGN"
      then said (handle_login env.digest st.users parts) sock st
      else if str_eq code "RGST"
      then (let (users, text) = handle_signup env.digest inputs.salt st.users parts in
          said text sock (record st { users = users }))
      else if str_eq code "FLST"
      then said (handle_file_list env.codecs env.os parts st.files) sock st
      else if str_eq code "STAR"
      then with_files (handle_star parts st.files) sock st
      else if str_eq code "DELT"
      then with_files (handle_delete parts st.files) sock st
      else if str_eq code "RDLT"
      then with_files (handle_restore parts st.files) sock st
      else if str_eq code "PRGE"
      then with_files (handle_purge parts st.files) sock st
      else if str_eq code "UPLD"
      then ended (handle_upload_init inputs parts session_owner st) sock
      else if str_eq code "CHNK"
      then (let (result, after) = handle_chunk env.codecs recv parts sock st in ended result after)
      else if str_eq code "DONE"
      then ended
          (handle_upload_done env.codecs env.hasher inputs parts
            (transfer_owner parts st.active_transfers session_owner) st)
          sock
      else if str_eq code "DWNL"
      then (let (sent, after) = handle_download env.codecs recv parts st.files sock in
          record { server = st; sock = after; sent = sent; turn = answer none false })
      else if str_eq code "FMTA"
      then said (handle_file_metadata env.dumps parts st.blockchain) sock st
      else if str_eq code "FHST"
      then said (handle_file_history env.dumps parts st.blockchain) sock st
      else if str_eq code "BLCH"
      then said (handle_get_chain env.dumps env.hasher st.blockchain) sock st
      else said "ERRR~002~code not supported" sock st

  -- A text without a bar is its only part, as `split` has it.
  abbrev pub protocol_on : Inputs → Result String → S → String → Server → Outcome S
  protocol_on inputs (err _) sock session_owner st = said "ERRR~004~Invalid encoding" sock st
  protocol_on inputs (ok decoded) sock session_owner st =
      route inputs (first_chars 4 decoded) (split b'~' decoded) sock session_owner st

  abbrev pub protocol_build_reply : Inputs → Bytes → S → String → Server → Outcome S
  protocol_build_reply inputs request sock session_owner st =
      protocol_on inputs (env.codecs.decode request) sock session_owner st

  unfoldable pub handle_request : Inputs → Bytes → S → String → Server → Outcome S
  handle_request inputs request sock session_owner st =
      let o = protocol_build_reply inputs request sock session_owner st in
      record o { turn = reported env.codecs o.turn }

  abbrev pub Session : Type 0
  Session = Server × List Bytes × Ending

  abbrev pub sent_first : List Bytes → Session → Session
  sent_first first (st, sent, ending) = (st, first ++ sent, ending)

  abbrev pub after_turn : Outcome S → Turn → (Server → S → Session) → Session
  after_turn o (answer none finish) next =
      sent_first o.sent (if finish then (o.server, [], finished) else next o.server o.sock)
  after_turn o (answer (some to_send) finish) next =
      sent_first (o.sent ++ to_send ∷ [])
        (if finish then (o.server, [], finished) else next o.server o.sock)
  after_turn o (failed _) next = (o.server, o.sent, broken)
  after_turn o unfinished next = (o.server, o.sent, waiting)

  -- What the loop does with a message: a request is served, a timeout of the socket is not the end.
  abbrev pub with_request :
      Result (Option Bytes) × S → Server → (Bytes → S → Session) → (S → Session) → Session
  with_request (err timeout_error, after) st next again = again after
  with_request (err _, after) st next again = (st, [], broken)
  with_request (ok none, after) st next again = (st, [], disconnected)
  with_request (ok (some []), after) st next again = (st, [], disconnected)
  with_request (ok (some (x ∷ xs)), after) st next again = next (x ∷ xs) after

  -- The loop of `handle_client`; `inputs n` are those of the request at which `n` rounds are left.
  unfoldable pub serve : (ℕ → Inputs) → ℕ → S → String → Server → Session
  unfolding handle_request
  serve inputs zero sock session_owner st = (st, [], out_of_fuel)
  serve inputs (suc n) sock session_owner st =
      with_request (recv sock) st
        (λ request after.
          let owner = login_owner (env.codecs.decode request) session_owner in
          let o = handle_request (inputs n) request after owner st in
          after_turn o o.turn (λ st' sock'. serve inputs n sock' owner st'))
        (λ after. serve inputs n after session_owner st)

-- ===== src/Server/Dispatch/Finite.antt =====
-- A session that is served message by message comes to its end.
use cloudmer_cloud_storage.Prelude.{
  ℕ, zero, suc, ◌+◌, ◌≡◌, ◌≤◌, ◌<◌, refl, String, Bool, true, false, Option, none, some, List, [],
  ◌∷◌, Bytes, length, not, ◌||◌, Bool-cases, inl, inr, str_eq, lookup, Result, ok, err, arith,
  if◌then◌else◌,
}
use cloudmer_cloud_storage.Text.{codes, int_of, split, first_chars}
use cloudmer_cloud_storage.Chunks.{Codecs, chunk_size, count_chunks}
use cloudmer_cloud_storage.Server.{
  Server, Transfer, Files, Reply, replied, raised, mining, path_join, uploads_dir,
}
use cloudmer_cloud_storage.Server.Uploads.{Inputs, handle_chunk, chunk_for}
use cloudmer_cloud_storage.Server.Downloads.{
  basename, has_dots, send_pieces, send_file, handle_download, acknowledged,
}
use cloudmer_cloud_storage.Server.Dispatch.{
  Env, Outcome, Turn, answer, failed, unfinished, route, ended, handle_request, protocol_on, serve,
  after_turn, Ending, disconnected, finished, broken, waiting, out_of_fuel, login_owner,
}

-- The messages that have arrived, and then the end of the stream.
unfoldable pub next_message : List Bytes → Result (Option Bytes) × List Bytes
next_message [] = (ok none, [])
next_message (m ∷ ms) = (ok (some m), ms)

next_message_shorter : (inbox : List Bytes) → length (next_message inbox).1 ≤ length inbox
unfolding next_message
next_message_shorter [] = omega arith
next_message_shorter (m ∷ ms) = omega arith

module _ (k : Codecs) where
  chunk_for_shorter :
      (tid : String) (is_comp : Bool) (idx : Result ℕ) (found : Option Transfer)
      (inbox : List Bytes) (st : Server)
      → length (chunk_for k next_message tid is_comp idx found inbox st).1 ≤ length inbox
  chunk_for_shorter tid is_comp (err e) found inbox st = omega arith
  chunk_for_shorter tid is_comp (ok idx) none inbox st = omega arith
  chunk_for_shorter tid is_comp (ok idx) (some transfer) inbox st = next_message_shorter inbox

  handle_chunk_shorter :
      (parts : List String) (inbox : List Bytes) (st : Server)
      → length (handle_chunk k next_message parts inbox st).1 ≤ length inbox
  unfolding handle_chunk
  handle_chunk_shorter [] inbox st = omega arith
  handle_chunk_shorter (_ ∷ []) inbox st = omega arith
  handle_chunk_shorter (_ ∷ _ ∷ []) inbox st = omega arith
  handle_chunk_shorter (_ ∷ _ ∷ _ ∷ []) inbox st = omega arith
  handle_chunk_shorter (_ ∷ _ ∷ _ ∷ _ ∷ []) inbox st = omega arith
  handle_chunk_shorter (_ ∷ tid ∷ idx ∷ _ ∷ is_comp ∷ _) inbox st =
      chunk_for_shorter tid (str_eq is_comp "1") (int_of (codes idx))
        (lookup tid st.active_transfers) inbox st

  send_pieces_shorter :
      (size : ℕ) (contents : Bytes) (i n : ℕ) (inbox : List Bytes)
      → length (send_pieces k next_message size contents i n inbox).1 ≤ length inbox
  unfolding send_pieces
  send_pieces_shorter size contents i zero inbox = omega arith
  send_pieces_shorter size contents i (suc n) inbox =
      let after = (next_message inbox).1 in
      let one = next_message_shorter inbox in
      elim (Bool-cases (acknowledged k next_message (next_message inbox).0)) [
        | inl yes_ ↦ rw yes_ (omega (arith, one, send_pieces_shorter size contents (i + 1) n after))
        | inr no_ ↦ rw no_ one
      ]

  handle_download_shorter :
      (parts : List String) (files : Files) (inbox : List Bytes)
      → length (handle_download k next_message parts files inbox).1 ≤ length inbox
  unfolding handle_download
  handle_download_shorter [] files inbox = omega arith
  handle_download_shorter (_ ∷ []) files inbox = omega arith
  handle_download_shorter (_ ∷ filename ∷ _) files inbox =
      elim (Bool-cases (not (str_eq (basename filename) filename) || has_dots (codes filename))) [
        | inl refused_ ↦ rw refused_ (omega arith)
        | inr plain_ ↦ rw plain_ (sent (lookup (path_join uploads_dir filename) files))
      ]
    where
      sent :
          (found : Option Bytes)
          → length (send_file k next_message filename found inbox).1 ≤ length inbox
      sent none = omega arith
      sent (some contents) =
          send_pieces_shorter chunk_size contents 0 (count_chunks chunk_size (length contents))
            inbox

-- The outcome has no more messages waiting than there are in a list.
abbrev IsWithin : List Bytes → Outcome (List Bytes) → Type 0
IsWithin inbox o = length o.sock ≤ length inbox

either-IsWithin :
    (inbox : List Bytes) (c : Bool) (a b : Outcome (List Bytes))
    → IsWithin inbox a
    → IsWithin inbox b
    → IsWithin inbox (if c then a else b)
either-IsWithin inbox true a b p q = p
either-IsWithin inbox false a b p q = q

-- Whether the rounds of the session have run out before its end.
abbrev pub cut_off : Server × List Bytes × Ending → Bool
cut_off (st, sent, disconnected) = false
cut_off (st, sent, finished) = false
cut_off (st, sent, broken) = false
cut_off (st, sent, waiting) = false
cut_off (st, sent, out_of_fuel) = true

module _ (env : Env) where
  ended-IsWithin :
      (inbox : List Bytes) (r : Server × Reply) (sock : List Bytes)
      → length sock ≤ length inbox
      → IsWithin inbox (ended env next_message r sock)
  ended-IsWithin inbox (st, replied text) sock h = h
  ended-IsWithin inbox (st, raised e) sock h = h
  ended-IsWithin inbox (st, mining) sock h = h

  route-IsWithin :
      (inputs : Inputs) (code : String) (parts : List String) (inbox : List Bytes) (owner : String)
      (st : Server)
      → IsWithin inbox (route env next_message inputs code parts inbox owner st)
  unfolding route
  route-IsWithin inputs code parts inbox owner st =
      let same : length inbox ≤ length inbox = omega arith in
      either-IsWithin inbox (str_eq code "EXIT") _ _ same (
        either-IsWithin inbox (str_eq code "LOGN") _ _ same (
          either-IsWithin inbox (str_eq code "RGST") _ _ same (
            either-IsWithin inbox (str_eq code "FLST") _ _ same (
              either-IsWithin inbox (str_eq code "STAR") _ _ same (
                either-IsWithin inbox (str_eq code "DELT") _ _ same (
                  either-IsWithin inbox (str_eq code "RDLT") _ _ same (
                    either-IsWithin inbox (str_eq code "PRGE") _ _ same (
                      either-IsWithin inbox (str_eq code "UPLD") _ _
                        (ended-IsWithin inbox _ inbox same)
                        (either-IsWithin inbox (str_eq code "CHNK") _ _
                          (ended-IsWithin inbox _ _
                            (handle_chunk_shorter env.codecs parts inbox st))
                          (either-IsWithin inbox (str_eq code "DONE") _ _
                            (ended-IsWithin inbox _ inbox same)
                            (either-IsWithin inbox (str_eq code "DWNL") _ _
                              (handle_download_shorter env.codecs parts st.files inbox)
                              (either-IsWithin inbox (str_eq code "FMTA") _ _ same (
                                either-IsWithin inbox (str_eq code "FHST") _ _ same (
                                  either-IsWithin inbox (str_eq code "BLCH") _ _ same
                                    same))))))))))))))

  protocol_on-IsWithin :
      (inputs : Inputs) (decoded : Result String) (inbox : List Bytes) (owner : String)
      (st : Server)
      → IsWithin inbox (protocol_on env next_message inputs decoded inbox owner st)
  protocol_on-IsWithin inputs (err _) inbox owner st = omega arith
  protocol_on-IsWithin inputs (ok decoded) inbox owner st =
      route-IsWithin inputs (first_chars 4 decoded) (split b'~' decoded) inbox owner st

  -- A request takes none of the messages twice: what waits after it waited before.
  handle_request-IsWithin :
      (inputs : Inputs) (request : Bytes) (inbox : List Bytes) (owner : String) (st : Server)
      → IsWithin inbox (handle_request env next_message inputs request inbox owner st)
  unfolding handle_request
  handle_request-IsWithin inputs request inbox owner st =
      protocol_on-IsWithin inputs (env.codecs.decode request) inbox owner st

  after_turn-ends :
      (o : Outcome (List Bytes)) (turn : Turn)
      (next : Server → List Bytes → Server × List Bytes × Ending)
      → cut_off (next o.server o.sock) ≡ false
      → cut_off (after_turn env next_message o turn next) ≡ false
  after_turn-ends o (answer none true) next h = refl
  after_turn-ends o (answer none false) next h = h
  after_turn-ends o (answer (some to_send) true) next h = refl
  after_turn-ends o (answer (some to_send) false) next h = h
  after_turn-ends o (failed _) next h = refl
  after_turn-ends o unfinished next h = refl

  -- For every handler, state and input: with more rounds than messages have arrived, after which the
  -- stream is at its end, the loop of a session is not stopped by its rounds: the client is gone or
  -- has left, a request failed, or the proof of work of an upload is not finished.
  pub serve-ends :
      (inputs : ℕ → Inputs) (n : ℕ) (inbox : List Bytes) (owner : String) (st : Server)
      → length inbox < n
      → cut_off (serve env next_message inputs n inbox owner st) ≡ false
  unfolding serve next_message
  serve-ends inputs zero inbox owner st h = absurd (omega (arith, h))
  serve-ends inputs (suc n) [] owner st h = refl
  serve-ends inputs (suc n) ([] ∷ ms) owner st h = refl
  serve-ends inputs (suc n) ((x ∷ xs) ∷ ms) owner st h =
      let after = login_owner (env.codecs.decode (x ∷ xs)) owner in
      let o = handle_request env next_message (inputs n) (x ∷ xs) ms after st in
      let within = handle_request-IsWithin (inputs n) (x ∷ xs) ms after st in
      after_turn-ends o o.turn (λ st' sock'. serve env next_message inputs n sock' after st')
        (serve-ends inputs n o.sock after o.server (omega (arith, h, within)))

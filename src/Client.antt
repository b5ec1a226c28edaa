-- ===== src/Client.antt =====
-- cloudmer_CLIENT.py: the upload and the download against a server, and the list of files. What a
-- slot tells the window is a value of `Signal`; progress is left out.
pub mod Link
pub mod Listing
pub mod Requests
pub mod Uploading
pub mod Empty
pub mod Ownership
pub mod Download
pub mod Downloading
-- pub mod Stars
use cloudmer_cloud_storage.Prelude.{
  ℕ, zero, suc, ◌+◌, String, ◌<>◌, Bool, true, false, not, Option, none, some, List, [], ◌∷◌, ◌++◌,
  Bytes, length, str_eq, Error, attribute_error, index_error, Result, ok, err, ◌>>=◌, insert,
  if◌then◌else◌,
}
use cloudmer_cloud_storage.Text.{codes, str, split, int_of}
use cloudmer_cloud_storage.Chunks.{
  Codecs, chunk_size, count_chunks, piece, packed, unpacked, flag, put_piece, assemble,
}
use cloudmer_cloud_storage.Server.{line, path_join}

-- The success, the reason that the window shows, or the exception whose text it shows.
pub data Signal : Type 0 where
  succeeded : String → Signal
  refused : String → Signal
  raised : Error → Signal

-- `resp.split('~')` on a reply that `recv_with_AES(...).decode()` reads; no reply has no `decode`.
abbrev pub reply_parts : Codecs → Result (Option Bytes) → Result (List String)
reply_parts k (err e) = err e
reply_parts k (ok none) = err attribute_error
reply_parts k (ok (some raw)) = do resp ← k.decode raw; ok (split b'~' resp)

-- `parts[2] if len(parts) > 2 else default`
abbrev pub third_or : String → List String → String
third_or default (_ ∷ _ ∷ part ∷ _) = part
third_or default _ = default

module _ (k : Codecs) {W : Type 0} (talk : List Bytes → W → Result (Option Bytes) × W) where
  -- `talk` sends messages one after the other and receives one.
  abbrev pub Ended : Type 0
  Ended = Signal × W

  abbrev pub with_parts : Result (List String) → W → (List String → W → Ended) → Ended
  with_parts (err e) w next = (raised e, w)
  with_parts (ok parts) w next = next parts w

  abbrev pub with_reply : Result (Option Bytes) × W → (List String → W → Ended) → Ended
  with_reply (r, w) next = with_parts (reply_parts k r) w next

  -- `if parts[1] == 'OK'`
  abbrev pub if_ok : List String → String → W → Ended → Ended
  if_ok (code ∷ status ∷ rest) default w next =
      if str_eq status "OK" then next else (refused (third_or default (code ∷ status ∷ rest)), w)
  if_ok _ default w next = (raised index_error, w)

  abbrev pub chunk_messages : String → ℕ → Bytes × Bool → List Bytes
  chunk_messages transfer_id i (payload, is_comp) =
      k.encode (line ("CHNK" ∷ transfer_id ∷ str i ∷ str (length payload) ∷ flag is_comp ∷ []))
      ∷ payload
      ∷ []

  -- The reply to a piece is read and not looked at.
  abbrev pub and_next :
      Result (Option Bytes) × W → (W → Result (Unit {0}) × W) → Result (Unit {0}) × W
  and_next (err e, w) next = (err e, w)
  and_next (ok _, w) next = next w

  unfoldable pub send_chunks : ℕ → Bytes → String → ℕ → ℕ → W → Result (Unit {0}) × W
  unfolding piece
  send_chunks size contents transfer_id i zero w = (ok tt, w)
  send_chunks size contents transfer_id i (suc n) w =
      and_next (talk (chunk_messages transfer_id i (packed k (piece size contents i))) w)
        (λ w'. send_chunks size contents transfer_id (i + 1) n w')

  abbrev pub finished : String → List String → W → Ended
  finished filename parts w =
      if_ok parts "Unknown error" w (succeeded (filename <> ("|" <> third_or "" parts)), w)

  abbrev pub finish_upload : String → Bytes → String → Result (Unit {0}) × W → Ended
  finish_upload filename contents transfer_id (err e, w) = (raised e, w)
  finish_upload filename contents transfer_id (ok _, w) =
      with_reply (talk (k.encode (line ("DONE" ∷ transfer_id ∷ k.md5_hex contents ∷ [])) ∷ []) w)
        (finished filename)

  abbrev pub after_init : ℕ → String → Bytes → List String → W → Ended
  after_init size filename contents (_ ∷ _ ∷ transfer_id ∷ _) w =
      finish_upload filename contents transfer_id
        (send_chunks size contents transfer_id 0 (count_chunks size (length contents)) w)
  after_init size filename contents _ w = (raised index_error, w)

  unfoldable pub upload_in : ℕ → String → Bytes → W → Ended
  unfolding send_chunks
  upload_in size filename contents w =
      with_reply
        (talk
          (k.encode (
              line (
                "UPLD"
                ∷ filename
                ∷ str (length contents)
                ∷ str (count_chunks size (length contents))
                ∷ []))
            ∷ [])
          w)
        (λ parts w'. if_ok parts "UPLD rejected" w' (after_init size filename contents parts w'))

  -- `uploadFile` on a file with these contents.
  abbrev pub upload_file : String → Bytes → W → Ended
  upload_file filename contents w = upload_in chunk_size filename contents w

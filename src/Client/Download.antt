-- ===== src/Client/Download.antt =====
-- `downloadFile` of cloudmer_CLIENT.py. `recv` is `recv_with_AES` on the shared socket; what is sent
-- is the list of the messages, in order, and `files` are those of the client's machine.
use cloudmer_cloud_storage.Prelude.{
  ℕ, zero, suc, ◌+◌, String, not, Option, none, some, List, [], ◌∷◌, Bytes, str_eq, attribute_error,
  index_error, Result, ok, err, ◌>>=◌, insert, if◌then◌else◌,
}
use cloudmer_cloud_storage.Text.{codes, str, int_of}
use cloudmer_cloud_storage.Chunks.{Codecs, unpacked, put_piece, assemble}
use cloudmer_cloud_storage.Server.{Files, line, path_join}
use cloudmer_cloud_storage.Client.{Signal, succeeded, refused, raised, reply_parts, third_or}

-- `total_size`, `num_chunks` and `server_md5`, read in this order.
abbrev pub sizes : List String → Result (ℕ × ℕ × String)
sizes (total_size ∷ num_chunks ∷ server_md5 ∷ _) = do
  total ← int_of (codes total_size)
  n ← int_of (codes num_chunks)
  ok (total, n, server_md5)
sizes (total_size ∷ num_chunks ∷ []) = do
  total ← int_of (codes total_size)
  n ← int_of (codes num_chunks)
  err index_error
sizes (total_size ∷ []) = do total ← int_of (codes total_size); err index_error
sizes [] = err index_error

module _ (k : Codecs) where
  -- The index and the contents of a piece.
  abbrev pub piece_of : List String → Option Bytes → Result (ℕ × Bytes)
  piece_of (_ ∷ idx ∷ is_comp ∷ _) (some raw) = do
    chunk ← unpacked k (str_eq is_comp "1") raw
    i ← int_of (codes idx)
    ok (i, chunk)
  piece_of (_ ∷ _ ∷ _ ∷ _) none = err attribute_error
  piece_of _ payload = err index_error

  abbrev pub ack : ℕ → Bytes
  ack i = k.encode (line ("DACK" ∷ str i ∷ []))

  module _ {S : Type 0} (recv : S → Result (Option Bytes) × S) where
    -- The pieces so far, what has been sent, and the socket.
    abbrev pub Pieces : Type 0
    Pieces = Result (List (ℕ × Bytes)) × List Bytes × S

    abbrev pub after_ack : ℕ → Pieces → Pieces
    after_ack i (chunks, sent, sock) = (chunks, ack i ∷ sent, sock)

    abbrev pub with_piece :
        Result (ℕ × Bytes) → List (ℕ × Bytes) → S → (List (ℕ × Bytes) → S → Pieces) → Pieces
    with_piece (err e) chunks sock next = (err e, [], sock)
    with_piece (ok (idx, chunk)) chunks sock next = next (put_piece idx chunk chunks) sock

    -- The payload is acknowledged before it is looked at.
    abbrev pub with_payload :
        ℕ
        → List String
        → Result (Option Bytes) × S
        → List (ℕ × Bytes)
        → (List (ℕ × Bytes) → S → Pieces)
        → Pieces
    with_payload i h (err e, sock) chunks next = (err e, [], sock)
    with_payload i h (ok payload, sock) chunks next =
        after_ack i (with_piece (piece_of h payload) chunks sock next)

    abbrev pub with_header :
        ℕ → Result (List String) → S → List (ℕ × Bytes) → (List (ℕ × Bytes) → S → Pieces) → Pieces
    with_header i (err e) sock chunks next = (err e, [], sock)
    with_header i (ok h) sock chunks next = with_payload i h (recv sock) chunks next

    -- The loop: `n` pieces are left, and `i` is the next.
    unfoldable pub receive_pieces : ℕ → ℕ → S → List (ℕ × Bytes) → Pieces
    receive_pieces i zero sock chunks = (ok chunks, [], sock)
    receive_pieces i (suc n) sock chunks =
        let (header, after) = recv sock in
        with_header i (reply_parts k header) after chunks
          (λ chunks' sock'. receive_pieces (i + 1) n sock' chunks')

    abbrev pub Download : Type 0
    Download = Signal × Files × List Bytes × S

    abbrev pub check_and_save : String → String → Result Bytes → Files → List Bytes → S → Download
    check_and_save save_path server_md5 (err e) files sent sock = (raised e, files, sent, sock)
    check_and_save save_path server_md5 (ok file_data) files sent sock =
        if not (str_eq (k.md5_hex file_data) server_md5)
        then (refused "MD5 mismatch - file corrupted", files, sent, sock)
        else (succeeded save_path, insert save_path file_data files, sent, sock)

    abbrev pub put_together : String → String → ℕ → Pieces → Files → Download
    put_together save_path server_md5 num_chunks (err e, sent, sock) files =
        (raised e, files, sent, sock)
    put_together save_path server_md5 num_chunks (ok chunks, sent, sock) files =
        check_and_save save_path server_md5 (assemble chunks 0 num_chunks) files sent sock

    abbrev pub download_sized : String → Result (ℕ × ℕ × String) → Files → S → Download
    download_sized save_path (err e) files sock = (raised e, files, [], sock)
    download_sized save_path (ok (_, num_chunks, server_md5)) files sock =
        put_together save_path server_md5 num_chunks (receive_pieces 0 num_chunks sock []) files

    abbrev pub download_parts : String → List String → Files → S → Download
    download_parts save_path (code ∷ status ∷ rest) files sock =
        if str_eq status "OK"
        then download_sized save_path (sizes rest) files sock
        else (refused (third_or "Download rejected" (code ∷ status ∷ rest)), files, [], sock)
    download_parts save_path _ files sock = (raised index_error, files, [], sock)

    abbrev pub with_announcement : String → Result (List String) → Files → S → Download
    with_announcement save_path (err e) files sock = (raised e, files, [], sock)
    with_announcement save_path (ok parts) files sock = download_parts save_path parts files sock

    abbrev pub after_request : String → Download → Download
    after_request filename (signal, files, sent, sock) =
        (signal, files, k.encode (line ("DWNL" ∷ filename ∷ [])) ∷ sent, sock)

    unfoldable pub download_file : String → String → Files → S → Download
    download_file filename save_dir files sock =
        let (resp, after) = recv sock in
        after_request filename
          (with_announcement (path_join save_dir filename) (reply_parts k resp) files after)

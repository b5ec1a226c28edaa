-- ===== src/Server/Downloads.antt =====
-- `handle_download` of cloudmer_SRV.py: the messages that it sends, in order, and the
-- acknowledgements that it reads. `recv` is `recv_with_AES` on the client's socket.
use cloudmer_cloud_storage.Prelude.{
  ℕ, zero, suc, ◌+◌, String, ◌<>◌, Bool, false, not, ◌&&◌, ◌||◌, Option, none, some, List, [], ◌∷◌,
  Bytes, length, str_eq, ◌==◌, Result, ok, err, lookup, if◌then◌else◌,
}
use cloudmer_cloud_storage.Text.{begins_with, codes, str, split}
use cloudmer_cloud_storage.Chunks.{Codecs, chunk_size, count_chunks, piece, packed, flag}
use cloudmer_cloud_storage.Server.{Files, path_join, uploads_dir, line}

abbrev pub last_part : List String → String
last_part [] = ""
last_part (p ∷ []) = p
last_part (_ ∷ q ∷ ps) = last_part (q ∷ ps)

-- `os.path.basename(path)`
unfoldable pub basename : String → String
unfolding split
basename path = last_part (split b'/' path)

-- `'..' in text`
abbrev pub has_dots : Bytes → Bool
has_dots [] = false
has_dots (c ∷ []) = false
has_dots (c ∷ d ∷ s) = (c == b'.' && d == b'.') || has_dots (d ∷ s)

module _ (k : Codecs) {S : Type 0} (recv : S → Result (Option Bytes) × S) where
  abbrev pub is_ack : Result String → Bool
  is_ack (err _) = false
  is_ack (ok ack) = begins_with ack "DACK"

  -- An exception ends the loop too: it is reported and logged.
  abbrev pub acknowledged : Result (Option Bytes) → Bool
  acknowledged (err _) = false
  acknowledged (ok none) = false
  acknowledged (ok (some [])) = false
  acknowledged (ok (some (x ∷ xs))) = is_ack (k.decode (x ∷ xs))

  abbrev pub piece_header : ℕ → Bytes × Bool → Bytes
  piece_header i (payload, is_comp) =
      k.encode (line ("DCNK" ∷ str i ∷ flag is_comp ∷ str (length payload) ∷ []))

  -- The loop: `n` pieces are left, and `i` is the next.
  unfoldable pub send_pieces : ℕ → Bytes → ℕ → ℕ → S → List Bytes × S
  unfolding piece
  send_pieces size file_data i zero sock = ([], sock)
  send_pieces size file_data i (suc n) sock =
      let p = packed k (piece size file_data i) in
      let (ack, after) = recv sock in
      let rest = send_pieces size file_data (i + 1) n after in
      let more = if acknowledged ack then rest else ([], after) in
      (piece_header i p ∷ p.0 ∷ more.0, more.1)

  abbrev pub download_header : ℕ → Bytes → Bytes
  download_header size file_data = k.encode (
      line (
        "DWNL"
        ∷ "OK"
        ∷ str (length file_data)
        ∷ str (count_chunks size (length file_data))
        ∷ k.md5_hex file_data
        ∷ []))

  abbrev pub send_file : String → Option Bytes → S → List Bytes × S
  send_file filename none sock = (k.encode ("DWNL~FAIL~file not found: " <> filename) ∷ [], sock)
  send_file filename (some file_data) sock =
      let (sent, after) =
        send_pieces chunk_size file_data 0 (count_chunks chunk_size (length file_data)) sock in
      (download_header chunk_size file_data ∷ sent, after)

  unfoldable pub handle_download : List String → Files → S → List Bytes × S
  unfolding basename lookup path_join
  handle_download (_ ∷ filename ∷ _) files sock =
      if not (str_eq (basename filename) filename) || has_dots (codes filename)
      then (k.encode "DWNL~FAIL~invalid filename" ∷ [], sock)
      else send_file filename (lookup (path_join uploads_dir filename) files) sock
  handle_download _ files sock = (k.encode "DWNL~FAIL~missing filename" ∷ [], sock)

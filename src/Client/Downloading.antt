-- ===== src/Client/Downloading.antt =====
-- A download from end to end: what `handle_download` of the server sends and `downloadFile` of the
-- client makes of it, and the acknowledgements in the other direction.
use cloudmer_cloud_storage.Prelude.{
  ℕ, zero, suc, ◌+◌, ◌≡◌, ◌≤◌, ◌<◌, refl, ap, ◌∙◌, sym, String, ◌<>◌, true, false, some, List, [],
  ◌∷◌, Bytes, length, length-append, Bool, str_eq, eq_iff, lookup, insert, ok, arith,
}
use cloudmer_cloud_storage.Text.{codes, str, join, begins_with}
use cloudmer_cloud_storage.Text.Split.{Lacks, codes-append}
use cloudmer_cloud_storage.Text.Decimal.{int_of-str}
use cloudmer_cloud_storage.Text.Prefix.{begins_with_append}
use cloudmer_cloud_storage.Chunks.{
  Codecs, chunk_size, count_chunks, piece, packed, flag, put_piece, assemble,
}
use cloudmer_cloud_storage.Chunks.Cutting.{joined-pieces, unpacked-packed}
use cloudmer_cloud_storage.Chunks.Reassembly.{
  arrivals, indexes, occurs-indexes, pieces_of, length-pieces_of, arrivals-Carries,
  assemble-Carries,
}
use cloudmer_cloud_storage.Server.{Files, line, path_join, uploads_dir}
use cloudmer_cloud_storage.Server.Downloads.{
  basename, has_dots, acknowledged, piece_header, send_pieces, download_header, handle_download,
}
use cloudmer_cloud_storage.Server.Dispatch.Requests.{split-line}
use cloudmer_cloud_storage.Server.Uploads.Arrivals.{str_eq-flag}
use cloudmer_cloud_storage.Client.{succeeded, reply_parts}
use cloudmer_cloud_storage.Client.Link.{recv_message}
use cloudmer_cloud_storage.Client.Requests.{word, number, flag-Lacks}
use cloudmer_cloud_storage.Client.Download.{
  ack, piece_of, with_header, with_piece, after_ack, receive_pieces, put_together, after_request,
  with_announcement, download_sized, check_and_save, download_file, sizes,
}

sizes-str : (total n : ℕ) (md5 : String) → sizes (str total ∷ str n ∷ md5 ∷ []) ≡ ok (total, n, md5)
sizes-str total n md5 = rw (int_of-str total) (rw (int_of-str n) refl)

module _ (k : Codecs) where
  -- The acknowledgements of the pieces from the i-th on, and the messages that carry them.
  abbrev pub acks : ℕ → ℕ → List Bytes
  acks i zero = []
  acks i (suc n) = ack k i ∷ acks (i + 1) n

  abbrev pub messages : (ℕ → Bytes) → ℕ → ℕ → List Bytes
  messages f i zero = []
  messages f i (suc n) =
      piece_header k recv_message i (packed k (f i)) ∷ (packed k (f i)).0 ∷ messages f (i + 1) n

module _ (k : Codecs) (decode-encode : (s : String) → k.decode (k.encode s) ≡ ok s)
    (encode_long : (s : String) → length (codes s) ≤ length (k.encode s))
    (decompress-compress : (bytes : Bytes) → k.decompress (k.compress bytes) ≡ ok bytes) where
  acknowledged_filled :
      (bytes : Bytes) (s : String)
      → 0 < length bytes
      → k.decode bytes ≡ ok s
      → begins_with s "DACK" ≡ true
      → acknowledged k recv_message (ok (some bytes)) ≡ true
  acknowledged_filled [] s filled plain h = absurd (omega arith)
  acknowledged_filled (x ∷ xs) s filled plain h = rw plain h

  acknowledged-ack : (i : ℕ) → acknowledged k recv_message (ok (some (ack k i))) ≡ true
  unfolding join
  acknowledged-ack i =
      let text = "DACK" <> ("~" <> str i) in
      acknowledged_filled (k.encode text) text
        (omega (
          arith,
          encode_long text,
          ap length (codes-append "DACK" ("~" <> str i)),
          length-append (codes "DACK") (codes ("~" <> str i)),
        ))
        (decode-encode text) (begins_with_append "DACK" ("~" <> str i))

  send_pieces-acks :
      (size : ℕ) (contents : Bytes) (i n : ℕ)
      → send_pieces k recv_message size contents i n (acks k i n)
        ≡ (messages k (piece size contents) i n, [])
  unfolding send_pieces recv_message
  send_pieces-acks size contents i zero = refl
  send_pieces-acks size contents i (suc n) = rw (acknowledged-ack i) (
      ap
        (λ r. (
          piece_header k recv_message i (packed k (piece size contents i))
              ∷ (packed k (piece size contents i)).0
              ∷ r.0,
          r.1,
        ))
        (send_pieces-acks size contents (i + 1) n))

  header_parts :
      (i : ℕ) (p : Bytes × Bool)
      → reply_parts k (ok (some (piece_header k recv_message i p)))
        ≡ ok ("DCNK" ∷ str i ∷ flag p.1 ∷ str (length p.0) ∷ [])
  header_parts i (payload, is_comp) =
      rw (decode-encode (line ("DCNK" ∷ str i ∷ flag is_comp ∷ str (length payload) ∷ []))) (
        rw
          (split-line "DCNK" (str i ∷ flag is_comp ∷ str (length payload) ∷ [])
            (word "DCNK" refl, (number i, (flag-Lacks is_comp, (number (length payload), tt)))))
          refl)

  piece_of-packed :
      (i : ℕ) (chunk : Bytes) (size : String)
      → piece_of k ("DCNK" ∷ str i ∷ flag (packed k chunk).1 ∷ size ∷ []) (some (packed k chunk).0)
        ≡ ok (i, chunk)
  piece_of-packed i chunk size =
      rw (str_eq-flag (packed k chunk).1)
        (rw (unpacked-packed k decompress-compress chunk) (rw (int_of-str i) refl))

  receive_pieces-messages :
      (f : ℕ → Bytes) (i n : ℕ) (chunks : List (ℕ × Bytes))
      → receive_pieces k recv_message i n (messages k f i n) chunks
        ≡ (ok (arrivals f (indexes i n) chunks), acks k i n, [])
  unfolding receive_pieces recv_message
  receive_pieces-messages f i zero chunks = refl
  receive_pieces-messages f i (suc n) chunks =
      let rest = messages k f (i + 1) n in
      let p = packed k (f i) in
      ap
        (λ h.
          with_header k recv_message i h (p.0 ∷ rest) chunks
            (λ chunks' sock'. receive_pieces k recv_message (i + 1) n sock' chunks'))
        (header_parts i p)
      ∙ ap
          (λ r. after_ack k recv_message i (
            with_piece k recv_message r chunks rest
              (λ chunks' sock'. receive_pieces k recv_message (i + 1) n sock' chunks')))
          (piece_of-packed i (f i) (str (length p.0)))
      ∙ ap (after_ack k recv_message i)
          (receive_pieces-messages f (i + 1) n (put_piece i (f i) chunks))

  handle_download_found :
      (name : String) (contents : Bytes) (files : Files)
      → str_eq (basename name) name ≡ true
      → has_dots (codes name) ≡ false
      → lookup (path_join uploads_dir name) files ≡ some contents
      → let n = count_chunks chunk_size (length contents) in
        handle_download k recv_message ("DWNL" ∷ name ∷ []) files (acks k 0 n) ≡ (
          download_header k recv_message chunk_size contents
              ∷ messages k (piece chunk_size contents) 0 n,
          [],
        )
  unfolding handle_download
  handle_download_found name contents files flat dotless here =
      let n = count_chunks chunk_size (length contents) in
      rw flat (
        rw dotless (
          rw here (
            ap (λ r. (download_header k recv_message chunk_size contents ∷ r.0, r.1))
              (send_pieces-acks chunk_size contents 0 n))))

  announcement_parts :
      (contents : Bytes)
      → Lacks b'~' (k.md5_hex contents)
      → reply_parts k (ok (some (download_header k recv_message chunk_size contents)))
        ≡ ok (
            "DWNL"
            ∷ "OK"
            ∷ str (length contents)
            ∷ str (count_chunks chunk_size (length contents))
            ∷ k.md5_hex contents
            ∷ [])
  announcement_parts contents lack =
      let size = str (length contents) in
      let n = str (count_chunks chunk_size (length contents)) in
      rw (decode-encode (line ("DWNL" ∷ "OK" ∷ size ∷ n ∷ k.md5_hex contents ∷ []))) (
        rw
          (split-line "DWNL" ("OK" ∷ size ∷ n ∷ k.md5_hex contents ∷ []) (
            word "DWNL" refl,
            (
              word "OK" refl,
              (
                number (length contents),
                (number (count_chunks chunk_size (length contents)), (lack, tt)),
              ),
            ),
          ))
          refl)

  -- A file that is among the uploads, under a plain name, goes to the client whole: the server sends
  -- all its pieces where the acknowledgements are those that the client sends, and the client saves
  -- the same contents.
  pub download_file-handle_download :
      (name save_dir : String) (contents : Bytes) (files local : Files)
      → str_eq (basename name) name ≡ true
      → has_dots (codes name) ≡ false
      → lookup (path_join uploads_dir name) files ≡ some contents
      → Lacks b'~' (k.md5_hex contents)
      → let answers = acks k 0 (count_chunks chunk_size (length contents)) in
        (sent : List Bytes) × (handle_download k recv_message ("DWNL" ∷ name ∷ []) files answers
          ≡ (sent, []))
        × (download_file k recv_message name save_dir local sent ≡ (
          succeeded (path_join save_dir name),
          insert (path_join save_dir name) contents local,
          k.encode (line ("DWNL" ∷ name ∷ [])) ∷ answers,
          [],
        ))
  unfolding download_file recv_message
  download_file-handle_download name save_dir contents files local flat dotless here lack =
      let n = count_chunks chunk_size (length contents) in
      let f = piece chunk_size contents in
      let path = path_join save_dir name in
      let md5 = k.md5_hex contents in
      let whole : assemble (arrivals f (indexes 0 n) []) 0 n ≡ ok contents =
        ap (assemble (arrivals f (indexes 0 n) []) 0) (sym (length-pieces_of f 0 n))
        ∙ assemble-Carries (arrivals f (indexes 0 n) []) 0 (pieces_of f 0 n) (
            arrivals-Carries f (indexes 0 n) [] 0 n
              (λ j b. occurs-indexes j 0 n (omega arith) (omega arith)))
        ∙ ap ok (joined-pieces chunk_size contents (omega arith)) in
      let same : str_eq md5 md5 ≡ true = (eq_iff md5 md5).1 refl in
      (
        download_header k recv_message chunk_size contents ∷ messages k f 0 n,
        handle_download_found name contents files flat dotless here,
        ap
              (λ h.
                after_request k recv_message name
                  (with_announcement k recv_message path h local (messages k f 0 n)))
              (announcement_parts contents lack)
            ∙ ap
                (λ s.
                  after_request k recv_message name
                    (download_sized k recv_message path s local (messages k f 0 n)))
                (sizes-str (length contents) n md5)
            ∙ ap
                (λ r.
                  after_request k recv_message name
                    (put_together k recv_message path md5 n r local))
                (receive_pieces-messages f 0 n [])
            ∙ ap
                (λ b.
                  after_request k recv_message name
                    (check_and_save k recv_message path md5 b local (acks k 0 n) []))
                whole
            ∙ rw same refl,
      )

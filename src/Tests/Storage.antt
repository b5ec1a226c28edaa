-- ===== src/Tests/Storage.antt =====
-- The properties of the server and of the client on a server with one chain and few files.
use cloudmer_cloud_storage.Prelude.{
  ℕ, zero, suc, ◌+◌, ◌≡◌, ◌≢◌, ◌<◌, refl, arith, true, String, none, some, List, [], ◌∷◌, Bytes, ok,
  length, str_eq, apart-str_eq, lookup, insert,
}
use cloudmer_cloud_storage.Text.{str, join, begins_with}
use cloudmer_cloud_storage.Text.Decimal.{str-Lacks}
use cloudmer_cloud_storage.Text.Split.{lacks, lacks-Lacks, Lacks}
use cloudmer_cloud_storage.Blockchain.Tx.{Tx, make_upload_tx}
use cloudmer_cloud_storage.Blockchain.Block.{Block, new_block}
use cloudmer_cloud_storage.Blockchain.Chain.{
  CloudBlockchain, last_of, reward_tx, mined, mine_pending_transactions, save,
}
use cloudmer_cloud_storage.Chunks.{packed, chunk_size, count_chunks}
use cloudmer_cloud_storage.Chunks.Reassembly.{occurs}
use cloudmer_cloud_storage.Aes.{Delivers}
use cloudmer_cloud_storage.Database.{refused, login_user}
use cloudmer_cloud_storage.Server.{
  Server, Files, path_join, uploads_dir, trash_dir, starred_dir, replied, line,
}
use cloudmer_cloud_storage.Server.Files.{handle_star, handle_delete, handle_restore}
use cloudmer_cloud_storage.Server.Files.Laws.{
  IsEntryName, handle_restore-handle_delete, handle_star_twice,
}
use cloudmer_cloud_storage.Server.Listing.{newest_first, size_str, handle_file_list}
use cloudmer_cloud_storage.Server.Uploads.{Inputs, handle_upload_done}
use cloudmer_cloud_storage.Server.Uploads.Arrivals.{new_transfer, with_transfer, arrive}
use cloudmer_cloud_storage.Server.Uploads.Done.{handle_upload_done-arrive}
use cloudmer_cloud_storage.Server.Downloads.{basename, handle_download}
use cloudmer_cloud_storage.Server.Dispatch.{Env}
use cloudmer_cloud_storage.Client.{succeeded, refused as refused_upload, upload_in}
use cloudmer_cloud_storage.Client.Link.{idle, talk, recv_message}
use cloudmer_cloud_storage.Client.Uploading.{upload_in-Stored}
use cloudmer_cloud_storage.Client.Empty.{upload_in-empty}
use cloudmer_cloud_storage.Client.Ownership.{talk-refused_login}
use cloudmer_cloud_storage.Client.Download.{download_file}
use cloudmer_cloud_storage.Client.Downloading.{acks, download_file-handle_download}
use cloudmer_cloud_storage.Client.Listing.{
  AllPlain, rows, entry_text, parse_file_list, listed, parse_file_list-handle_file_list,
}
use cloudmer_cloud_storage.Tests.Codec.{
  plain, plain_decode-encode, plain_long, plain_inflate, plain_filled,
}
use cloudmer_cloud_storage.Tests.Chain.{marked, genesis}

word : (s : String) → lacks b'~' s ≡ true → Lacks b'~' s
word s h = lacks-Lacks b'~' s h

abbrev pub env : Env
env = record {
  codecs = plain;
  dumps = record { dump_tx = λ tx. "{}"; dump_history = λ h. "[]"; dump_summaries = λ s. "[]" };
  hasher = marked;
  digest = λ s. s;
  os = record {
    listdir = λ folder files. "a.txt" ∷ [];
    mtime = λ path. 1;
    date = λ path. "01/01/2026";
  };
}

abbrev pub now : Inputs
now = record {
  transfer_id = "t1";
  salt = "s";
  tx_time = 5;
  reward_time = 7;
  block_time = 8;
  fuel = 2;
}

abbrev base : CloudBlockchain
base = record { chain = genesis ∷ []; pending_transactions = []; difficulty = 1 }

abbrev some_files : Files
some_files = ("uploads/a.txt", 1 ∷ 2 ∷ 3 ∷ []) ∷ ("uploads/b.txt", 4 ∷ []) ∷ []

abbrev pub server : Server
server = record {
  files = some_files;
  active_transfers = [];
  blockchain = base;
  chain_file = none;
  users = [];
}

abbrev contents : Bytes
contents = 1 ∷ 2 ∷ 3 ∷ []

abbrev uploaded_tx : ℕ → Tx
uploaded_tx n = make_upload_tx 5 "alice" "h" "c.txt" 3 n ("local" ∷ []) none none

unfoldable upload_block : ℕ → Block
unfolding new_block
upload_block n = new_block marked 8 1 (uploaded_tx n ∷ reward_tx 7 "server" ∷ []) "g" 0

unfoldable uploaded : ℕ → CloudBlockchain
unfolding upload_block
uploaded n = record {
  chain = genesis ∷ upload_block n ∷ [];
  pending_transactions = [];
  difficulty = 1;
}

upload_mined :
    mine_pending_transactions marked 2 7 8 "server"
      (record base { pending_transactions = uploaded_tx 2 ∷ [] })
    ≡ mined (uploaded 2) (upload_block 2)
unfolding mine_pending_transactions new_block uploaded
upload_mined = refl

abbrev two : ℕ → Bytes
two zero = 1 ∷ 2 ∷ []
two (suc _) = 3 ∷ []

two_filled : (i : ℕ) → 0 < length (packed plain (two i)).0
two_filled zero = omega arith
two_filled (suc i) = omega arith

two_complete : (i : ℕ) → i < 2 → occurs i (1 ∷ 0 ∷ 1 ∷ []) ≡ true
two_complete zero h = refl
two_complete (suc zero) h = refl
two_complete (suc (suc i)) h = absurd (omega arith)

base_last : last_of base.chain ≡ ok genesis
unfolding last_of
base_last = refl

payloads :
    Delivers recv_message
      ((3 ∷ []) ∷ (1 ∷ 2 ∷ []) ∷ (3 ∷ []) ∷ [])
      ((3 ∷ []) ∷ (1 ∷ 2 ∷ []) ∷ (3 ∷ []) ∷ [])
unfolding recv_message
payloads = ((1 ∷ 2 ∷ []) ∷ (3 ∷ []) ∷ [], refl, ((3 ∷ []) ∷ [], refl, ([], refl, tt)))

bob_unknown : login_user env.digest [] "bob" "pw" ≡ refused "Account not found."
unfolding login_user
bob_unknown = refl

a_flat : str_eq (basename "a.txt") "a.txt" ≡ true
unfolding basename
a_flat = refl

a_there : lookup (path_join uploads_dir "a.txt") some_files ≡ some contents
unfolding lookup path_join begins_with
a_there = refl

a_unstarred : lookup (path_join starred_dir "a.txt") some_files ≡ none
unfolding lookup path_join begins_with
a_unstarred = refl

a_entry : IsEntryName "a.txt"
a_entry = record {
  one_part = lacks-Lacks b'/' "a.txt" refl;
  filled = apart-str_eq "a.txt" "" refl;
  not_here = apart-str_eq "a.txt" "." refl;
  not_parent = apart-str_eq "a.txt" ".." refl;
  not_trash = apart-str_eq "a.txt" ".trash" refl;
  not_starred = apart-str_eq "a.txt" ".starred" refl;
}

a_plain : AllPlain (listed plain env.os ("FLST" ∷ "all" ∷ []) some_files)
unfolding rows lookup path_join begins_with newest_first size_str str entry_text join
a_plain = (
  (
    (
      lacks-Lacks b'|' "a.txt" refl,
      (
        lacks-Lacks b'|' "3 B" refl,
        (lacks-Lacks b'|' "01/01/2026" refl, (lacks-Lacks b'|' "h" refl, tt)),
      ),
    ),
    lacks-Lacks b';' "a.txt|3 B|01/01/2026|h" refl,
  ),
  tt,
)

upload_done_example :
    let end =
      handle_upload_done plain marked now
        ("DONE" ∷ "t1" ∷ plain.md5_hex contents ∷ [])
        "alice"
        (arrive plain recv_message two "t1"
          (1 ∷ 0 ∷ 1 ∷ [])
          ((3 ∷ []) ∷ (1 ∷ 2 ∷ []) ∷ (3 ∷ []) ∷ [])
          (with_transfer "t1" (new_transfer "c.txt" 2 "alice") server)).0 in
    (end.1 ≡ replied (line ("DONE" ∷ "OK" ∷ "h" ∷ [])))
    × (lookup (path_join uploads_dir "c.txt") end.0.files ≡ some contents)
    × (end.0.blockchain ≡ uploaded 2)
    × (end.0.chain_file ≡ some (save (uploaded 2)))
    × (lookup "t1" end.0.active_transfers ≡ none)
upload_done_example =
    handle_upload_done-arrive plain marked now recv_message two 2 (1 ∷ 0 ∷ 1 ∷ []) "t1" "c.txt"
      "alice" server ((3 ∷ []) ∷ (1 ∷ 2 ∷ []) ∷ (3 ∷ []) ∷ []) (uploaded 2) genesis (upload_block 2)
      plain_inflate (λ i h. two_filled i) two_complete payloads base_last upload_mined

abbrev path_c : String
path_c = path_join uploads_dir "c.txt"

upload_example :
    (st' : Server) × (upload_in plain
        (talk env (λ n. now))
        2
        "c.txt"
        contents
        (idle server "alice" 0)
      ≡ (succeeded "c.txt|h", idle st' "alice" (0 + 1 + count_chunks 2 3 + 1)))
    × (lookup path_c st'.files ≡ some contents)
    × ((path : String) → path ≢ path_c → lookup path st'.files ≡ lookup path server.files)
    × (st'.blockchain ≡ uploaded 2)
    × (st'.chain_file ≡ some (save (uploaded 2)))
    × (lookup "t1" st'.active_transfers ≡ none)
    × (st'.users ≡ [])
upload_example =
    upload_in-Stored env (λ n. now) plain_decode-encode plain_long plain_inflate plain_filled 2
      "c.txt" "alice" contents server 0 (uploaded 2) genesis (upload_block 2) (omega arith)
      (omega arith) (word "c.txt" refl) (word "t1" refl) (str-Lacks b'~' 3 (omega arith))
      (word "h" refl) base_last upload_mined

empty_example :
    (st' : Server) × (upload_in plain (talk env (λ n. now)) 2 "c.txt" [] (idle server "alice" 0)
      ≡ (refused_upload "Missing chunk 0", idle st' "alice" (0 + 3)))
    × (st'.files ≡ some_files)
    × (st'.blockchain ≡ base)
    × (st'.users ≡ [])
empty_example =
    upload_in-empty env (λ n. now) plain_decode-encode plain_long 2 "c.txt" "alice" server 0
      (omega arith) (word "c.txt" refl) (word "t1" refl) (str-Lacks b'~' 0 (omega arith))

refused_login_example :
    (talk env (λ n. now) (plain.encode (line ("LOGN" ∷ "bob" ∷ "pw" ∷ [])) ∷ []) (idle server "" 0)
      ≡ (
        ok (some (plain.encode (line ("LOGN" ∷ "FAIL" ∷ "Account not found." ∷ [])))),
        idle server "bob" (0 + 1),
      ))
    × (talk env
          (λ n. now)
          (plain.encode (line ("UPLD" ∷ "c.txt" ∷ str 3 ∷ str 2 ∷ [])) ∷ [])
          (idle server "bob" (0 + 1))
        ≡ (
          ok (some (plain.encode (line ("UPLD" ∷ "OK" ∷ "t1" ∷ [])))),
          idle (with_transfer "t1" (new_transfer "c.txt" 2 "bob") server) "bob" (0 + 1 + 1),
        ))
refused_login_example =
    talk-refused_login env (λ n. now) plain_decode-encode plain_long "bob" "pw" "Account not found."
      "c.txt" "" 3 2 server 0 (word "bob" refl) (word "pw" refl) (word "c.txt" refl) bob_unknown

download_example :
    let answers = acks plain 0 (count_chunks chunk_size 3) in
    (sent : List Bytes) × (handle_download plain recv_message
        ("DWNL" ∷ "a.txt" ∷ [])
        some_files
        answers
      ≡ (sent, []))
    × (download_file plain recv_message "a.txt" "home" [] sent ≡ (
      succeeded (path_join "home" "a.txt"),
      insert (path_join "home" "a.txt") contents [],
      plain.encode (line ("DWNL" ∷ "a.txt" ∷ [])) ∷ answers,
      [],
    ))
download_example =
    download_file-handle_download plain plain_decode-encode plain_long plain_inflate "a.txt" "home"
      contents some_files [] a_flat refl a_there (str-Lacks b'~' 3 (omega arith))

restore_example :
    (gone back : Files) × (handle_delete ("DELT" ∷ "a.txt" ∷ []) some_files
      ≡ (gone, "DELT~OK~a.txt"))
    × (lookup (path_join uploads_dir "a.txt") gone ≡ none)
    × (handle_restore ("RDLT" ∷ "a.txt" ∷ []) gone ≡ (back, "RDLT~OK~a.txt"))
    × (lookup (path_join uploads_dir "a.txt") back ≡ some contents)
    × (lookup (path_join trash_dir "a.txt") back ≡ none)
    × (lookup (path_join starred_dir "a.txt") back ≡ none)
    × ((path : String)
        → path ≢ path_join uploads_dir "a.txt"
        → path ≢ path_join trash_dir "a.txt"
        → path ≢ path_join starred_dir "a.txt"
        → lookup path back ≡ lookup path some_files)
restore_example = handle_restore-handle_delete "a.txt" contents some_files a_entry a_there

star_example :
    (on off : Files) × (handle_star ("STAR" ∷ "a.txt" ∷ []) some_files ≡ (on, "STAR~OK~1"))
    × (lookup (path_join starred_dir "a.txt") on ≡ some contents)
    × (handle_star ("STAR" ∷ "a.txt" ∷ []) on ≡ (off, "STAR~OK~0"))
    × ((path : String) → lookup path off ≡ lookup path some_files)
star_example = handle_star_twice "a.txt" contents some_files a_there a_unstarred

listing_example :
    (payload : String) × (handle_file_list plain env.os ("FLST" ∷ "all" ∷ []) some_files
      ≡ line ("FLST" ∷ "OK" ∷ payload ∷ []))
    × (parse_file_list payload ≡ listed plain env.os ("FLST" ∷ "all" ∷ []) some_files)
listing_example =
    parse_file_list-handle_file_list plain env.os ("FLST" ∷ "all" ∷ []) some_files a_plain

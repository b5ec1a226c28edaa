-- ===== src/Server.antt =====
-- cloudmer_SRV.py: the state that the threads of the server share, and what one request does to
-- it. A file is a path with its contents; the folders are there, and times of files are left out.
-- Two paths are two files, as they are for the names of entries of a folder; that a name with '..'
-- may be a second spelling of a path, or lead to a folder that is missing, is left out.
pub mod Files
pub mod Listing
pub mod Accounts
pub mod Uploads
pub mod Downloads
pub mod Queries
pub mod Dispatch
pub mod Peer
use cloudmer_cloud_storage.Prelude.{
  ℕ, String, ◌<>◌, Option, none, some, List, [], ◌∷◌, Bytes, Error, Result, if◌then◌else◌,
}
use cloudmer_cloud_storage.Text.{begins_with, join}
use cloudmer_cloud_storage.Blockchain.Block.{BlockDict}
use cloudmer_cloud_storage.Blockchain.Chain.{CloudBlockchain}
use cloudmer_cloud_storage.Database.{User}

pub record Transfer : Type 0 where
  pub filename : String
  pub total_chunks : ℕ
  pub chunks : List (ℕ × Bytes)
  pub owner : String

abbrev pub Files : Type 0
Files = List (String × Bytes)

-- `chain_file` is what the file at `CHAIN_PATH` holds.
pub record Server : Type 0 where
  pub files : Files
  pub active_transfers : List (String × Transfer)
  pub blockchain : CloudBlockchain
  pub chain_file : Option (List BlockDict)
  pub users : List User

-- What a handler returns: the text of a reply, an exception, or nothing while the proof of work
-- goes on.
pub data Reply : Type 0 where
  replied : String → Reply
  raised : Error → Reply
  mining : Reply

-- `os.path.join(folder, name)` for a folder that does not end in a slash.
unfoldable pub path_join : String → String → String
path_join folder name = if begins_with name "/" then name else folder <> ("/" <> name)

abbrev pub uploads_dir : String
uploads_dir = "uploads"

abbrev pub trash_dir : String
trash_dir = "uploads/.trash"

abbrev pub starred_dir : String
starred_dir = "uploads/.starred"

-- The texts with bars: `f'{a}~{b}~{c}'` is the list of `a`, `b` and `c`, joined.
abbrev pub line : List String → String
line parts = join "~" parts

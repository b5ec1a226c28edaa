-- ===== src/Blockchain/Tx.antt =====
-- The transactions of blockchain.py: dicts that are read by `tx.get(key)`, so each key is an
-- optional field, and a key that is missing or holds null reads as none. Times are in ticks of
-- `time.time()`.
use cloudmer_cloud_storage.Prelude.{
  ℕ, String, Bool, false, Option, none, some, List, [], ◌∷◌, ◌||◌, str_eq,
}

pub record Tx : Type 0 where
  pub type : Option String
  pub owner : Option String
  pub file_hash : Option String
  pub file_name : Option String
  pub file_size : Option ℕ
  pub chunk_count : Option ℕ
  pub storage_nodes : Option (List String)
  pub access_list : Option (List String)
  pub target_user : Option String
  pub encrypted_file_key : Option String
  pub expires_at : Option ℕ
  pub miner : Option String
  pub reward_storage_credits : Option ℕ
  pub signature : Option String
  pub signer : Option String
  pub timestamp : Option ℕ

abbrev pub empty_tx : Tx
empty_tx = record {
  type = none;
  owner = none;
  file_hash = none;
  file_name = none;
  file_size = none;
  chunk_count = none;
  storage_nodes = none;
  access_list = none;
  target_user = none;
  encrypted_file_key = none;
  expires_at = none;
  miner = none;
  reward_storage_credits = none;
  signature = none;
  signer = none;
  timestamp = none;
}

-- `tx.get(key) == text`
abbrev pub holds : Option String → String → Bool
holds none text = false
holds (some value) text = str_eq value text

-- `value in list`
abbrev pub contains : List String → String → Bool
contains [] value = false
contains (x ∷ xs) value = str_eq x value || contains xs value

-- `value or default`
abbrev pub or_else {ℓ} : {A : Type ℓ} → Option A → A → A
or_else none default = default
or_else (some value) default = value

abbrev pub upload : String
upload = "UPLOAD"

abbrev pub delete : String
delete = "DELETE"

abbrev pub grant_access : String
grant_access = "GRANT_ACCESS"

abbrev pub revoke_access : String
revoke_access = "REVOKE_ACCESS"

abbrev pub make_upload_tx :
    ℕ → String → String → String → ℕ → ℕ → List String → Option (List String) → Option String → Tx
make_upload_tx now owner_key hash name size chunks nodes access sig = record empty_tx {
  type = some upload;
  owner = some owner_key;
  file_hash = some hash;
  file_name = some name;
  file_size = some size;
  chunk_count = some chunks;
  storage_nodes = some nodes;
  access_list = some (or_else access []);
  signature = some (or_else sig "");
  timestamp = some now;
}

abbrev pub make_grant_tx : ℕ → String → String → String → String → Option ℕ → Option String → Tx
make_grant_tx now owner_key hash target_key file_key expires sig = record empty_tx {
  type = some grant_access;
  owner = some owner_key;
  file_hash = some hash;
  target_user = some target_key;
  encrypted_file_key = some file_key;
  expires_at = expires;
  signature = some (or_else sig "");
  timestamp = some now;
}

abbrev pub make_revoke_tx : ℕ → String → String → String → Option String → Tx
make_revoke_tx now owner_key hash target_key sig = record empty_tx {
  type = some revoke_access;
  owner = some owner_key;
  file_hash = some hash;
  target_user = some target_key;
  signature = some (or_else sig "");
  timestamp = some now;
}

abbrev pub make_delete_tx : ℕ → String → String → Option String → Tx
make_delete_tx now owner_key hash sig = record empty_tx {
  type = some delete;
  owner = some owner_key;
  file_hash = some hash;
  signature = some (or_else sig "");
  timestamp = some now;
}

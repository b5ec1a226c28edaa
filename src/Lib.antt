-- ===== src/Lib.antt =====
-- Cloudmer cloud storage: the RAID-5 array, the blockchain that indexes the files, the network of
-- nodes that keep it, the accounts, and the server with its client.
--
-- The parts. Files go through a storage array (raid5.py). What happens to a file (upload, grant,
-- revocation, deletion) is a transaction, queued and mined into blocks by proof of work
-- (blockchain.py), and queries replay the chain. A node (p2p.py) owns a chain, takes blocks,
-- transactions and chains from its peers, mines, and adopts longer valid chains. Users register
-- and log in against a table (database.py). A client (cloudmer_CLIENT.py) sends requests to the
-- server (cloudmer_SRV.py) as texts with bars, under AES (aes_functions.py), in frames with a
-- decimal header (tcp_by_size.py); files go up and down in compressed pieces, and an upload that
-- is complete is mined into a block.
--
-- The files. Prelude holds the shared helpers: Tests for Boolean tests on numbers, Lists, Xor,
-- Dicts, and Errors for Python's exceptions as values.
--   Raid5: Raid5Storage of raid5.py; its methods are `init`, `write`, `read`,
--     `simulate_disk_failure` and `recover_disk`, each loop a function of its name.
--   Blockchain.Block, .Tx, .Pow, .Chain, .Query: blockchain.py. `Block` with `compute_hash` and
--     `compute_merkle_root`; the make_*_tx functions; `mine` and `is_valid_proof` of ProofOfWork;
--     the state `CloudBlockchain` with `add_transaction`, `mine_pending_transactions`, `is_valid`,
--     `replace_chain`, `save` and `load`; the query engine.
--   P2p.Wire: encode_message, decode_message and _recv_exactly of p2p.py. P2p.Node: the state of
--     P2PNode. P2p.Dispatch: _dispatch and _receive_block. P2p.Send: send_to_peer, broadcast,
--     sync_chain, connect_to_peer, submit_transaction, request_chunk and a round of _mining_loop.
--     P2p.Steps: all of them as steps in any order.
--   Database: register_user, login_user, get_user_by_email and update_role of database.py.
--   Text: `split`, `join`, `int`, `str` and `startswith` of Python on the texts that the programs
--     write. TcpBySize: send_with_size and recv_by_size of tcp_by_size.py. Aes: send_with_AES and
--     recv_with_AES of aes_functions.py.
--   Chunks: what the server and the client share, the pieces of a file and their reassembly.
--   Server: cloudmer_SRV.py. Its state, and in child modules the handlers: Files for stars and the
--     trash, Listing for handle_file_list, Accounts, Uploads, Downloads, Queries; Dispatch has
--     protocol_build_reply (`route` is its chain of tests), handle_request and handle_client; Peer
--     is handle_upload_done of cloudmer_SRV_p2p_patch.py (`publish_upload_done`).
--   Client: uploadFile (`upload_file`) of cloudmer_CLIENT.py; Client.Download is downloadFile,
--     Client.Listing parse_file_list, and Client.Link puts a client and a session together.
--   Crypto: crypto.py, KeyPair and the functions on keys and transactions; Crypto.Files has
--     chunk_and_encrypt_file and reconstruct_file.
--   Tests: the properties at concrete inputs.
--
-- State and errors. A method that changes its object takes the state and returns the new one; where
-- it may raise, the result stands beside the state, so that what changed before the exception is
-- kept. A dict with string keys is a record of optional fields. Times, random salts and the answers
-- of the network are arguments. The chain lock makes each handler one step; a thread that a handler
-- starts is a task that is run in a later step.
--
-- Fuel. The proof of work takes a number of rounds and may go on after them; it ends when some
-- nonce is valid. The Merkle loop takes as many rounds as there are hashes, and the receiving loop
-- one more than the bytes it asks for: both are enough. The loop of a session takes one round for
-- each message and each timeout.
--
-- Parameters. SHA-256 and json (Hasher, Json, Dumps), base64 (Base64), MD5, zlib and UTF-8
-- (Codecs), AES and its padding (Cipher), the folders and times of the operating system (Os),
-- the package cryptography with hmac (Library), and the network (Network) are code outside the
-- repository. `recv` in the server and the client stands for recv_with_AES on their socket.
--
-- Not modelled: the RSA handshake, threads and sleeping; the interleaving of two sessions within
-- one request; the callbacks of a node, of which the fired events are kept; printing, logging
-- and the demos; SQLite beyond its statements; folders as such, of which only the files count,
-- so that no call fails for a missing one; paths with '..' or with folders in a name, which may
-- be two spellings of one file: a path of the model is one file, and paths are POSIX's; a
-- `sock.send` that takes a part of a frame only; a key of a transaction that holds null, which
-- is read as a missing one; signs, spaces and underscores in the texts of numbers; the PEM
-- export and get_file_hash of crypto.py; Qt, and the slots of the client that send one request
-- and pass on its reply; the QML views. Negative numbers do not occur in the modelled calls and
-- are left out.
pub mod Prelude
pub mod Raid5
pub mod Blockchain
pub mod P2p
pub mod Database
pub mod Text
pub mod TcpBySize
pub mod Chunks
pub mod Aes
pub mod Server
pub mod Client
pub mod Crypto
mod Tests

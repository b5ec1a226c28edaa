-- ===== src/Aes.antt =====
-- aes_functions.py: messages under AES in CBC mode, sent as frames of tcp_by_size.py. The hash, the
-- cipher and the padding are of hashlib and pycryptodome: parameters. `iv` is the random vector.
pub mod RoundTrip
use cloudmer_cloud_storage.Prelude.{
  ℕ, ◌≡◌, Option, none, some, List, [], ◌∷◌, ◌++◌, take, drop, Bytes, Result, ok, err, ◌>>=◌,
}
use cloudmer_cloud_storage.P2p.Wire.{Socket}
use cloudmer_cloud_storage.TcpBySize.{send_with_size, recv_by_size}

-- A receiver yields these messages, one after the other.
abbrev pub Delivers : {S : Type 0} → (S → Result (Option Bytes) × S) → List Bytes → S → Type 0
Delivers recv [] sock = Unit
Delivers {S} recv (m ∷ ms) sock =
    (after : S) × (recv sock ≡ (ok (some m), after)) × Delivers recv ms after

-- `sha256(key).digest()`, `AES.new(key, AES.MODE_CBC, iv)` with its two methods, and `pad` and
-- `unpad` to blocks of `AES.block_size`.
pub record Cipher : Type 0 where
  pub hash_key : Bytes → Bytes
  pub encrypt : Bytes → Bytes → Bytes → Bytes
  pub decrypt : Bytes → Bytes → Bytes → Result Bytes
  pub pad : Bytes → Bytes
  pub unpad : Bytes → Result Bytes

module _ (c : Cipher) (key : Bytes) where
  -- The bytes that go to the socket.
  unfoldable pub send_with_aes : Bytes → Bytes → Bytes
  unfolding send_with_size
  send_with_aes iv bytes = send_with_size (iv ++ c.encrypt (c.hash_key key) iv (c.pad bytes))

  abbrev pub open_message : Bytes → Result (Option Bytes)
  open_message [] = ok none
  open_message (x ∷ xs) = do
    padded ← c.decrypt (c.hash_key key) (take 16 (x ∷ xs)) (drop 16 (x ∷ xs))
    bytes ← c.unpad padded
    ok (some bytes)

  abbrev pub opened : Result Bytes × Socket → Result (Option Bytes) × Socket
  opened (received, sock) = (received >>= open_message, sock)

  -- No data at the end of the stream is Python's `None`.
  unfoldable pub recv_with_aes : Socket → Result (Option Bytes) × Socket
  unfolding recv_by_size
  recv_with_aes sock = opened (recv_by_size sock)

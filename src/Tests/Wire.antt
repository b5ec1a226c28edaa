-- ===== src/Tests/Wire.antt =====
-- The frames of tcp_by_size.py and the messages of aes_functions.py in segments.
use cloudmer_cloud_storage.Prelude.{◌≡◌, refl, arith, some, [], ◌∷◌, ◌++◌, drop, Bytes, ok}
use cloudmer_cloud_storage.Text.{str}
use cloudmer_cloud_storage.P2p.Wire.{Socket}
use cloudmer_cloud_storage.P2p.Wire.Frames.{stream, IsOpen}
use cloudmer_cloud_storage.TcpBySize.{zfill, send_with_size, recv_by_size}
use cloudmer_cloud_storage.TcpBySize.RoundTrip.{recv_by_size-send_with_size}
use cloudmer_cloud_storage.Aes.{Cipher, send_with_aes, recv_with_aes}
use cloudmer_cloud_storage.Aes.RoundTrip.{recv_with_aes-send_with_aes}

abbrev sized : Socket
sized = (b'0' ∷ b'0' ∷ b'0' ∷ []) ∷ (b'0' ∷ b'0' ∷ b'0' ∷ b'2' ∷ b'|' ∷ 7 ∷ []) ∷ (8 ∷ 9 ∷ []) ∷ []

sized-IsOpen : IsOpen sized
sized-IsOpen = (omega arith, (omega arith, (omega arith, tt)))

sized_held : stream sized ≡ send_with_size (7 ∷ 8 ∷ []) ++ 9 ∷ []
unfolding send_with_size zfill str
sized_held = refl

recv_by_size_example :
    (after : Socket) × (recv_by_size sized ≡ (ok (7 ∷ 8 ∷ []), after))
    × (stream after ≡ 9 ∷ [])
    × IsOpen after
recv_by_size_example =
    recv_by_size-send_with_size (7 ∷ 8 ∷ []) (9 ∷ []) sized (omega arith) sized-IsOpen sized_held

-- Padding with a zero, and no encryption.
abbrev clear : Cipher
clear = record {
  hash_key = λ key. key;
  encrypt = λ key iv bytes. bytes;
  decrypt = λ key iv bytes. ok bytes;
  pad = λ bytes. 0 ∷ bytes;
  unpad = λ bytes. ok (drop 1 bytes);
}

abbrev vector : Bytes
vector = 1 ∷ 2 ∷ 3 ∷ 4 ∷ 5 ∷ 6 ∷ 7 ∷ 8 ∷ 9 ∷ 10 ∷ 11 ∷ 12 ∷ 13 ∷ 14 ∷ 15 ∷ 16 ∷ []

abbrev sent : Socket
sent = (b'0' ∷ b'0' ∷ []) ∷ (b'0' ∷ b'0' ∷ b'0' ∷ b'1' ∷ b'8' ∷ b'|' ∷ (vector ++ 0 ∷ 65 ∷ [])) ∷ []

sent-IsOpen : IsOpen sent
sent-IsOpen = (omega arith, (omega arith, tt))

sent_held : stream sent ≡ send_with_aes clear (3 ∷ []) vector (65 ∷ []) ++ []
unfolding send_with_aes send_with_size zfill str
sent_held = refl

recv_with_aes_example :
    (after : Socket) × (recv_with_aes clear (3 ∷ []) sent ≡ (ok (some (65 ∷ [])), after))
    × (stream after ≡ [])
    × IsOpen after
recv_with_aes_example =
    recv_with_aes-send_with_aes clear (λ bytes. refl) (λ k iv bytes h. refl)
      (λ k iv bytes. omega arith) (3 ∷ []) vector (65 ∷ []) [] sent refl (omega arith) sent-IsOpen
      sent_held

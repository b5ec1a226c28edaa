-- ===== src/Aes/RoundTrip.antt =====
-- Messages of aes_functions.py end to end.
use cloudmer_cloud_storage.Prelude.{
  ◌+◌, ◌≤◌, ◌<◌, ◌≡◌, ◌≢◌, refl, ap, sym, some, List, [], ◌∷◌, ◌++◌, length, take, drop, Bytes, ok,
  map, arith, length-append, take-append, drop-append,
}
use cloudmer_cloud_storage.P2p.Wire.{Socket}
use cloudmer_cloud_storage.P2p.Wire.Frames.{stream, IsOpen}
use cloudmer_cloud_storage.TcpBySize.{recv_by_size}
use cloudmer_cloud_storage.TcpBySize.RoundTrip.{recv_by_size-send_with_size}
use cloudmer_cloud_storage.Aes.{Delivers, Cipher, send_with_aes, open_message, recv_with_aes}

module _ (c : Cipher) (unpad-pad : (bytes : Bytes) → c.unpad (c.pad bytes) ≡ ok bytes)
    (decrypt-encrypt : (k iv bytes : Bytes)
      → length iv ≡ 16
      → c.decrypt k iv (c.encrypt k iv (c.pad bytes)) ≡ ok (c.pad bytes))
    (length-encrypt : (k iv bytes : Bytes)
      → length (c.encrypt k iv (c.pad bytes)) ≤ length bytes + 16) where
  open_message-steps :
      (key bytes iv sealed padded data_ : Bytes)
      → bytes ≢ []
      → take 16 bytes ≡ iv
      → drop 16 bytes ≡ sealed
      → c.decrypt (c.hash_key key) iv sealed ≡ ok padded
      → c.unpad padded ≡ ok data_
      → open_message c key bytes ≡ ok (some data_)
  open_message-steps key [] iv sealed padded data_ filled front back plain whole =
      absurd (filled refl)
  open_message-steps key (x ∷ xs) iv sealed padded data_ filled front back plain whole =
      rw front (rw back (rw plain (rw whole refl)))

  open_message-sealed :
      (key iv bytes : Bytes)
      → length iv ≡ 16
      → open_message c key (iv ++ c.encrypt (c.hash_key key) iv (c.pad bytes)) ≡ ok (some bytes)
  open_message-sealed key iv bytes h =
      let sealed = c.encrypt (c.hash_key key) iv (c.pad bytes) in
      let long : length (iv ++ sealed) ≡ length iv + length sealed = length-append iv sealed in
      open_message-steps key (iv ++ sealed) iv sealed (c.pad bytes) bytes
        (λ e. (let nothing : length (iv ++ sealed) ≡ 0 = ap length e in omega arith))
        (take-append iv sealed 16 (sym h)) (drop-append iv sealed 16 (sym h))
        (decrypt-encrypt (c.hash_key key) iv bytes h) (unpad-pad bytes)

  recv_with_aes-steps :
      (key bytes data_ : Bytes) (sock after : Socket)
      → recv_by_size sock ≡ (ok bytes, after)
      → open_message c key bytes ≡ ok (some data_)
      → recv_with_aes c key sock ≡ (ok (some data_), after)
  unfolding recv_with_aes
  recv_with_aes-steps key bytes data_ sock after first second = rw first (rw second refl)

  -- What `send_with_AES` sends of fewer than 9999968 bytes comes back from `recv_with_AES` under
  -- the same key, however the stream is split into segments, and what follows it stays on the socket.
  pub recv_with_aes-send_with_aes :
      (key iv bytes more : Bytes) (sock : Socket)
      → length iv ≡ 16
      → length bytes < 9999968
      → IsOpen sock
      → stream sock ≡ send_with_aes c key iv bytes ++ more
      → (after : Socket) × (recv_with_aes c key sock ≡ (ok (some bytes), after))
        × (stream after ≡ more)
        × IsOpen after
  unfolding send_with_aes
  recv_with_aes-send_with_aes key iv bytes more sock h small open_ held =
      let sealed = c.encrypt (c.hash_key key) iv (c.pad bytes) in
      let bound : length (iv ++ sealed) < 10000000 =
        omega (arith, length-append iv sealed, length-encrypt (c.hash_key key) iv bytes) in
      let (after, got, left, still) =
        recv_by_size-send_with_size (iv ++ sealed) more sock bound open_ held in
      (
        after,
        recv_with_aes-steps key (iv ++ sealed) bytes sock after got
            (open_message-sealed key iv bytes h),
        left,
        still,
      )

  -- The bytes of messages that are sent one after the other, each with its vector.
  abbrev pub sent_all : Bytes → List (Bytes × Bytes) → Bytes
  sent_all key [] = []
  sent_all key ((iv, bytes) ∷ ms) = send_with_aes c key iv bytes ++ sent_all key ms

  abbrev pub AllSendable : List (Bytes × Bytes) → Type 0
  AllSendable [] = Unit
  AllSendable ((iv, bytes) ∷ ms) = ((length iv ≡ 16) × (length bytes < 9999968)) × AllSendable ms

  -- Messages that are sent one after the other are received one after the other, however the stream
  -- is split into segments.
  pub recv_with_aes-Delivers :
      (key : Bytes) (ms : List (Bytes × Bytes)) (sock : Socket)
      → AllSendable ms
      → IsOpen sock
      → stream sock ≡ sent_all key ms
      → Delivers (recv_with_aes c key) (map (λ m. m.1) ms) sock
  recv_with_aes-Delivers key [] sock small open_ held = tt
  recv_with_aes-Delivers key ((iv, bytes) ∷ ms) sock ((h, small), rest) open_ held =
      let (after, got, left, still) =
        recv_with_aes-send_with_aes key iv bytes (sent_all key ms) sock h small open_ held in
      (after, got, recv_with_aes-Delivers key ms after rest still left)

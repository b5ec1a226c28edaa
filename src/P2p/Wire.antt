-- ===== src/P2p/Wire.antt =====
-- The frames of p2p.py: four bytes of length, big-endian, and the JSON text. A socket is the list
-- of the segments that have not been received; the end of the list is the end of the stream. An
-- exception that `decode_message` turns into `None` is the end of the stream too.
pub mod Frames
use cloudmer_cloud_storage.Prelude.{
  ℕ, zero, suc, ◌+◌, ◌-◌, ◌*◌, ◌/◌, ◌%◌, Option, none, some, List, [], ◌∷◌, ◌++◌, length, take,
  drop, leb, ltb, Bytes, true, false, if◌then◌else◌, Result, ok, err, struct_error,
}
use cloudmer_cloud_storage.P2p.Message.{Message}

abbrev pub Socket : Type 0
Socket = List Bytes

-- `sock.recv(n)`: at most `n` bytes of the first segment.
unfoldable pub recv : ℕ → Socket → Bytes × Socket
recv n [] = ([], [])
recv n (s ∷ rest) = if leb (length s) n then (s, rest) else (take n s, drop n s ∷ rest)

-- An empty read is the end of the stream.
abbrev pub with_chunk :
    Bytes × Socket → (Bytes → Socket → Option Bytes × Socket) → Option Bytes × Socket
with_chunk ([], sock) next = (none, sock)
with_chunk (x ∷ xs, sock) next = next (x ∷ xs) sock

-- `while len(data) < n`, for at most `fuel` rounds.
unfoldable pub recv_loop : ℕ → ℕ → Bytes → Socket → Option Bytes × Socket
unfolding recv
recv_loop zero n received sock = (none, sock)
recv_loop (suc fuel) n received sock = elim (ltb (length received) n) [
  | true ↦
      with_chunk (recv (n - length received) sock)
        (λ chunk rest. recv_loop fuel n (received ++ chunk) rest)
  | false ↦ (some received, sock)
]

unfoldable pub recv_exactly : ℕ → Socket → Option Bytes × Socket
unfolding recv_loop
recv_exactly n sock = recv_loop (suc n) n [] sock

-- `struct.pack(">I", n)`
unfoldable pub pack : ℕ → Result Bytes
pack n =
    if ltb n 4294967296
    then ok (n / 16777216 ∷ n / 65536 % 256 ∷ n / 256 % 256 ∷ n % 256 ∷ [])
    else err struct_error

-- `struct.unpack(">I", raw)[0]`
unfoldable pub unpack : Bytes → Result ℕ
unpack (a ∷ b ∷ c ∷ d ∷ []) = ok (a * 16777216 + b * 65536 + c * 256 + d)
unpack _ = err struct_error

-- `json.dumps(msg).encode("utf-8")` and `json.loads(raw.decode("utf-8"))`, which is `ok none` on
-- text that is not JSON.
pub record Json : Type 0 where
  pub dumps : Message → Bytes
  pub loads : Bytes → Result (Option Message)

module _ (j : Json) where
  abbrev pub framed : Bytes → Result Bytes → Result Bytes
  framed raw (err e) = err e
  framed raw (ok header) = ok (header ++ raw)

  unfoldable pub encode_message : Message → Result Bytes
  unfolding pack
  encode_message msg = let raw = j.dumps msg in framed raw (pack (length raw))

  abbrev pub decode_body : Option Bytes × Socket → Result (Option Message) × Socket
  decode_body (none, sock) = (ok none, sock)
  decode_body (some raw, sock) = (j.loads raw, sock)

  abbrev pub decode_sized : Result ℕ → Socket → Result (Option Message) × Socket
  unfolding recv_exactly
  decode_sized (err e) sock = (err e, sock)
  decode_sized (ok n) sock = decode_body (recv_exactly n sock)

  abbrev pub decode_header : Option Bytes × Socket → Result (Option Message) × Socket
  unfolding unpack
  decode_header (none, sock) = (ok none, sock)
  decode_header (some raw_len, sock) = decode_sized (unpack raw_len) sock

  unfoldable pub decode_message : Socket → Result (Option Message) × Socket
  unfolding recv_exactly
  decode_message sock = decode_header (recv_exactly 4 sock)

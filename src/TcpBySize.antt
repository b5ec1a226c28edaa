-- ===== src/TcpBySize.antt =====
-- tcp_by_size.py: frames with a decimal header of seven digits and a bar. A socket is as for the
-- frames of p2p.py: the segments that have not been received.
pub mod RoundTrip
use cloudmer_cloud_storage.Prelude.{
  ℕ, zero, suc, ◌+◌, ◌-◌, String, ◌<>◌, Option, none, some, List, [], ◌∷◌, ◌++◌, length, take,
  replicate, Bytes, Result, ok, err, ◌==◌, true, false,
}
use cloudmer_cloud_storage.Text.{codes, str, int_of}
use cloudmer_cloud_storage.P2p.Wire.{Socket, recv_exactly}

abbrev pub size_header_size : ℕ
size_header_size = 8

-- `s.zfill(width)` on a text of digits.
unfoldable pub zfill : Bytes → ℕ → Bytes
zfill s width = replicate (width - length s) b'0' ++ s

-- The bytes that `send_with_size` hands to the socket, which takes them all.
unfoldable pub send_with_size : Bytes → Bytes
unfolding zfill str
send_with_size bdata = zfill (codes (str (length bdata))) (size_header_size - 1) ++ b'|' ∷ bdata

-- `data` after the second loop: partial data is like no data.
abbrev pub received : Option Bytes × Socket → Bytes × Socket
received (none, sock) = ([], sock)
received (some bytes, sock) = (bytes, sock)

abbrev pub recv_body : Result ℕ → Socket → Result Bytes × Socket
unfolding recv_exactly
recv_body (err e) sock = (err e, sock)
recv_body (ok data_len) sock = let r = received (recv_exactly data_len sock) in (ok (r.0), r.1)

-- The end of the stream within the header gives no data; a header that is no number raises.
abbrev pub recv_sized : Option Bytes × Socket → Result Bytes × Socket
unfolding recv_body int_of
recv_sized (none, sock) = (ok [], sock)
recv_sized (some size_header, sock) =
    recv_body (int_of (take (size_header_size - 1) size_header)) sock

-- Both loops read as `_recv_exactly` does.
unfoldable pub recv_by_size : Socket → Result Bytes × Socket
unfolding recv_sized recv_exactly
recv_by_size sock = recv_sized (recv_exactly size_header_size sock)

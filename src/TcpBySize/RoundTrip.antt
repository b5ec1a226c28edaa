-- ===== src/TcpBySize/RoundTrip.antt =====
-- Frames of tcp_by_size.py end to end.
use cloudmer_cloud_storage.Prelude.{
  ℕ, ◌↔◌, ltb, ltb→lt, Bool-cases, inl, inr, zero, suc, ◌+◌, ◌-◌, ◌≤◌, ◌<◌, ◌≡◌, refl, ap, ◌∙◌, sym,
  some, [], ◌∷◌, ◌++◌, append_assoc, length, take, drop, replicate, Bytes, ok, arith, length-append,
  length-replicate, take-append, drop-append,
}
use cloudmer_cloud_storage.Text.{codes, str, scan, int_of}
use cloudmer_cloud_storage.Text.Decimal.{
  int_of-str, scan-str, length-str, length-str_long, AllZero, scan-zeros,
}
use cloudmer_cloud_storage.P2p.Wire.{Socket, recv_exactly}
use cloudmer_cloud_storage.P2p.Wire.Frames.{stream, IsOpen, recv_exactly_lem}
use cloudmer_cloud_storage.TcpBySize.{zfill, send_with_size, recv_sized, recv_body, recv_by_size}

replicate-AllZero : (n : ℕ) → AllZero (replicate n b'0')
replicate-AllZero zero = tt
replicate-AllZero (suc n) = (refl, replicate-AllZero n)

length-zfill : (s : Bytes) (width : ℕ) → length s ≤ width → length (zfill s width) ≡ width
unfolding zfill
length-zfill s width h = omega (
  arith,
  length-append (replicate (width - length s) b'0') s,
  length-replicate {A = ℕ} (width - length s) b'0',
)

int_of-zeros : (n k : ℕ) → int_of (replicate k b'0' ++ codes (str n)) ≡ ok n
unfolding int_of scan
int_of-zeros n zero = int_of-str n
int_of-zeros n (suc k) =
    scan-zeros (codes (str n)) (replicate k b'0') (replicate-AllZero k) ∙ scan-str n

int_of-zfill : (n width : ℕ) → int_of (zfill (codes (str n)) width) ≡ ok n
unfolding zfill
int_of-zfill n width = int_of-zeros n (width - length (codes (str n)))

recv_by_size-steps :
    (sock sock1 sock2 : Socket) (header bytes : Bytes) (n : ℕ)
    → recv_exactly 8 sock ≡ (some header, sock1)
    → int_of (take 7 header) ≡ ok n
    → recv_exactly n sock1 ≡ (some bytes, sock2)
    → recv_by_size sock ≡ (ok bytes, sock2)
unfolding recv_by_size recv_sized recv_body
recv_by_size-steps sock sock1 sock2 header bytes n first size second =
    rw first (rw size (rw second refl))

bar-append :
    (digits bytes more : Bytes)
    → (digits ++ b'|' ∷ bytes) ++ more ≡ (digits ++ b'|' ∷ []) ++ (bytes ++ more)
bar-append digits bytes more =
    append_assoc digits (b'|' ∷ bytes) more ∙ sym (append_assoc digits (b'|' ∷ []) (bytes ++ more))

send_with_size_lem :
    (bytes more : Bytes)
    → send_with_size bytes ++ more
      ≡ (zfill (codes (str (length bytes))) 7 ++ b'|' ∷ []) ++ (bytes ++ more)
unfolding send_with_size
send_with_size_lem bytes more = bar-append (zfill (codes (str (length bytes))) 7) bytes more

-- What `send_with_size` sends of fewer than ten million bytes comes back from `recv_by_size`,
-- however the stream is split into segments, and what follows it stays on the socket.
pub recv_by_size-send_with_size :
    (bytes more : Bytes) (sock : Socket)
    → length bytes < 10000000
    → IsOpen sock
    → stream sock ≡ send_with_size bytes ++ more
    → (after : Socket) × (recv_by_size sock ≡ (ok bytes, after))
      × (stream after ≡ more)
      × IsOpen after
recv_by_size-send_with_size bytes more sock small open_ held =
    let digits : Bytes = zfill (codes (str (length bytes))) 7 in
    let seven : length digits ≡ 7 =
      length-zfill (codes (str (length bytes))) 7 (length-str 6 (length bytes) small) in
    let header : Bytes = digits ++ b'|' ∷ [] in
    let eight : 8 ≡ length header = omega (arith, seven, length-append digits (b'|' ∷ [])) in
    let split : stream sock ≡ header ++ (bytes ++ more) = held ∙ send_with_size_lem bytes more in
    let long : length (stream sock) ≡ 8 + (length bytes + length more) =
      ap length split
      ∙ omega (arith, eight, length-append header (bytes ++ more), length-append bytes more) in
    let (sock1, took, left, open1) = recv_exactly_lem 8 sock open_ (omega arith) in
    let left1 : stream sock1 ≡ bytes ++ more =
      left ∙ ap (drop 8) split ∙ drop-append header (bytes ++ more) 8 eight in
    let (sock2, took2, left2, open2) =
      recv_exactly_lem (length bytes) sock1 open1
        (omega (arith, ap length left1, length-append bytes more)) in
    (
      sock2,
      recv_by_size-steps sock sock1 sock2 header bytes (length bytes)
          (took
            ∙ ap (λ t. (some t, sock1))
                (ap (take 8) split ∙ take-append header (bytes ++ more) 8 eight))
          (ap int_of (take-append digits (b'|' ∷ []) 7 (sym seven)) ∙ int_of-zfill (length bytes) 7)
          (took2
            ∙ ap (λ t. (some t, sock2))
                (ap (take (length bytes)) left1 ∙ take-append bytes more (length bytes) refl)),
      left2 ∙ ap (drop (length bytes)) left1 ∙ drop-append bytes more (length bytes) refl,
      open2,
    )

length-send_with_size :
    (bytes : Bytes)
    → length (send_with_size bytes)
      ≡ (7 - length (codes (str (length bytes))))
        + length (codes (str (length bytes)))
        + 1
        + length bytes
unfolding send_with_size zfill
length-send_with_size bytes =
    let digits = codes (str (length bytes)) in measured (7 - length digits) digits
  where
    measured :
        (n : ℕ) (s : Bytes)
        → length ((replicate n b'0' ++ s) ++ b'|' ∷ bytes) ≡ n + length s + 1 + length bytes
    measured n s = omega (
      arith,
      length-append (replicate n b'0' ++ s) (b'|' ∷ bytes),
      length-append (replicate n b'0') s,
      length-replicate {A = ℕ} n b'0',
    )

-- A frame has the eight bytes of the header that the receiver reads, and its data, exactly where
-- there are fewer than ten million bytes.
pub length-send_with_size_iff :
    (bytes : Bytes) → (length (send_with_size bytes) ≡ 8 + length bytes) ↔ (length bytes < 10000000)
length-send_with_size_iff bytes = (
  λ e. elim (Bool-cases (ltb (length bytes) 10000000)) [
    | inl small ↦ ltb→lt (length bytes) 10000000 small
    | inr large ↦
        let much : 10000000 ≤ length bytes = ground arith in
        absurd
          (omega (arith, e, length-send_with_size bytes, length-str_long 6 (length bytes) much))
  ],
  λ small. omega (arith, length-send_with_size bytes, length-str 6 (length bytes) small),
)

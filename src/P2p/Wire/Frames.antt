-- ===== src/P2p/Wire/Frames.antt =====
-- The receiving loop of p2p.py on any split of the stream into segments, and frames end to end.
use cloudmer_cloud_storage.Prelude.{
  ℕ, zero, suc, ◌+◌, ◌-◌, ◌/◌, ◌%◌, ◌≤◌, ◌<◌, ◌≡◌, refl, ap, ◌∙◌, sym, some, [], ◌∷◌, ◌++◌,
  append_assoc, length, take, drop, leb, ltb, Bytes, true, false, ok, err, struct_error, arith,
  Bool-cases, inl, inr, length-append, take-append-drop, take-append, drop-append, length-drop,
  length-take,
}
use cloudmer_cloud_storage.P2p.Message.{Message}
use cloudmer_cloud_storage.P2p.Wire.{
  Socket, recv, recv_loop, recv_exactly, pack, unpack, Json, encode_message, decode_header,
  decode_message,
}

-- The bytes that a socket still holds.
abbrev pub stream : Socket → Bytes
stream [] = []
stream (s ∷ rest) = s ++ stream rest

-- No segment is empty: an empty read is the end of the stream.
abbrev pub IsOpen : Socket → Type 0
IsOpen [] = Unit
IsOpen (s ∷ rest) = (0 < length s) × IsOpen rest

-- A read of at least one byte of an open stream that has more.
recv_more :
    (n : ℕ) (sock : Socket)
    → IsOpen sock
    → 0 < n
    → 0 < length (stream sock)
    → (x : ℕ) × (xs : Bytes) × (after : Socket) × (recv n sock ≡ (x ∷ xs, after))
      × ((x ∷ xs) ++ stream after ≡ stream sock)
      × IsOpen after
      × (length xs < n)
unfolding recv
recv_more n [] open_ pos more = absurd (omega arith)
recv_more n ([] ∷ rest) (filled, open_) pos more = absurd (omega arith)
recv_more zero ((x ∷ xs) ∷ rest) (filled, open_) pos more = absurd (omega arith)
recv_more (suc n) ((x ∷ xs) ∷ rest) (filled, open_) pos more =
    elim (Bool-cases (leb (suc (length xs)) (suc n))) [
      | inl all ↦ (x, xs, rest, rw all refl, refl, open_, ground arith)
      | inr part ↦ (
        x,
        take n xs,
        drop n xs ∷ rest,
        rw part refl,
        ap (λ t. x ∷ t)
            (sym (append_assoc (take n xs) (drop n xs) (stream rest))
              ∙ ap (λ t. t ++ stream rest) (take-append-drop n xs)),
        (ground (arith, length-drop n xs), open_),
        ground (arith, length-take n xs),
      )
    ]

recv_loop-more :
    (fuel n : ℕ) (received : Bytes) (sock : Socket) (x : ℕ) (xs : Bytes) (after : Socket)
    → ltb (length received) n ≡ true
    → recv (n - length received) sock ≡ (x ∷ xs, after)
    → recv_loop (suc fuel) n received sock ≡ recv_loop fuel n (received ++ x ∷ xs) after
unfolding recv_loop
recv_loop-more fuel n received sock x xs after more e = rw (more, recv_loop) (rw e refl)

recv_loop-done :
    (fuel n : ℕ) (received : Bytes) (sock : Socket)
    → ltb (length received) n ≡ false
    → recv_loop (suc fuel) n received sock ≡ (some received, sock)
unfolding recv_loop
recv_loop-done fuel n received sock done = rw (done, recv_loop) refl

pub recv_loop_lem :
    (fuel n : ℕ) (received : Bytes) (sock : Socket)
    → IsOpen sock
    → length received ≤ n
    → n ≤ length received + length (stream sock)
    → n < length received + fuel
    → (after : Socket) × (recv_loop fuel n received sock
        ≡ (some (take n (received ++ stream sock)), after))
      × (stream after ≡ drop n (received ++ stream sock))
      × IsOpen after
recv_loop_lem zero n received sock open_ low enough fueled = absurd (omega arith)
recv_loop_lem (suc fuel) n received sock open_ low enough fueled =
    elim (Bool-cases (ltb (length received) n)) [
      | inl more ↦
          let below : length received < n = ground arith in
          let (x, xs, next, e, whole, still, short) =
            recv_more (n - length received) sock open_ (omega arith) (omega arith) in
          let grown : length (received ++ x ∷ xs) ≡ length received + suc (length xs) =
            length-append received (x ∷ xs) in
          let rest : suc (length xs) + length (stream next) ≡ length (stream sock) =
            sym (length-append (x ∷ xs) (stream next)) ∙ ap length whole in
          let same : (received ++ x ∷ xs) ++ stream next ≡ received ++ stream sock =
            append_assoc received (x ∷ xs) (stream next) ∙ ap (λ t. received ++ t) whole in
          let (after, took, left, end) =
            recv_loop_lem fuel n (received ++ x ∷ xs) next still (omega arith) (omega arith)
              (omega arith) in
          (
            after,
            recv_loop-more fuel n received sock x xs next more e
                ∙ took
                ∙ ap (λ t. (some (take n t), after)) same,
            left ∙ ap (drop n) same,
            end,
          )
      | inr done ↦
          let full : n ≡ length received = ground arith in
          (
            sock,
            recv_loop-done fuel n received sock done
                ∙ ap (λ t. (some t, sock)) (sym (take-append received (stream sock) n full)),
            sym (drop-append received (stream sock) n full),
            open_,
          )
    ]

-- `_recv_exactly(sock, n)`, however the stream is split into segments: where the stream holds `n`
-- bytes, the result is the first `n` of them and the others stay on the socket.
pub recv_exactly_lem :
    (n : ℕ) (sock : Socket)
    → IsOpen sock
    → n ≤ length (stream sock)
    → (after : Socket) × (recv_exactly n sock ≡ (some (take n (stream sock)), after))
      × (stream after ≡ drop n (stream sock))
      × IsOpen after
unfolding recv_exactly
recv_exactly_lem n sock open_ enough =
    recv_loop_lem (suc n) n [] sock open_ (omega arith) (omega arith) (omega arith)

abbrev header : ℕ → Bytes
header n = n / 16777216 ∷ n / 65536 % 256 ∷ n / 256 % 256 ∷ n % 256 ∷ []

unpack-header : (n : ℕ) → n < 4294967296 → unpack (header n) ≡ ok n
unfolding unpack
unpack-header n small = ap ok (omega arith)

module _ (j : Json) (msg : Message) where
  encode_message_lem :
      (frame : Bytes)
      → encode_message j msg ≡ ok frame
      → (length (j.dumps msg) < 4294967296) × (frame ≡ header (length (j.dumps msg)) ++ j.dumps msg)
  unfolding encode_message pack
  encode_message_lem frame e = elim (Bool-cases (ltb (length (j.dumps msg)) 4294967296)) [
    | inl small ↦
        let e' : ok (header (length (j.dumps msg)) ++ j.dumps msg) ≡ ok frame =
          sym (small_frame small) ∙ e in
        (ground arith, cc)
    | inr large ↦ absurd (let e' : err struct_error ≡ ok frame = sym (large_frame large) ∙ e in cc)
  ]
    where
      small_frame :
          ltb (length (j.dumps msg)) 4294967296 ≡ true
          → encode_message j msg ≡ ok (header (length (j.dumps msg)) ++ j.dumps msg)
      small_frame small = rw (small, pack) refl

      large_frame :
          ltb (length (j.dumps msg)) 4294967296 ≡ false → encode_message j msg ≡ err struct_error
      large_frame large = rw (large, pack) refl

  decode_message-steps :
      (sock sock1 sock2 : Socket) (raw_len raw : Bytes) (n : ℕ)
      → recv_exactly 4 sock ≡ (some raw_len, sock1)
      → unpack raw_len ≡ ok n
      → recv_exactly n sock1 ≡ (some raw, sock2)
      → decode_message j sock ≡ (j.loads raw, sock2)
  unfolding decode_message decode_header
  decode_message-steps sock sock1 sock2 raw_len raw n first size second =
      rw first (rw size (rw second refl))

  -- A frame that `encode_message` makes comes back from `decode_message`, however the stream is
  -- split into segments, and what follows it stays on the socket, where `json.loads` reads what
  -- `json.dumps` writes.
  pub decode_message-encode_message :
      (frame more : Bytes) (sock : Socket)
      → j.loads (j.dumps msg) ≡ ok (some msg)
      → encode_message j msg ≡ ok frame
      → IsOpen sock
      → stream sock ≡ frame ++ more
      → (after : Socket) × (decode_message j sock ≡ (ok (some msg), after))
        × (stream after ≡ more)
        × IsOpen after
  decode_message-encode_message frame more sock loads e open_ held =
      let raw : Bytes = j.dumps msg in
      let (small, shape) = encode_message_lem frame e in
      let split : stream sock ≡ header (length raw) ++ (raw ++ more) =
        held ∙ ap (λ t. t ++ more) shape in
      let long : length (stream sock) ≡ 4 + (length raw + length more) =
        ap length split ∙ omega (arith, length-append raw more) in
      let (sock1, took, left, open1) = recv_exactly_lem 4 sock open_ (omega arith) in
      let left1 : stream sock1 ≡ raw ++ more = left ∙ ap (drop 4) split in
      let (sock2, took2, left2, open2) =
        recv_exactly_lem (length raw) sock1 open1
          (omega (arith, ap length left1, length-append raw more)) in
      let body : take (length raw) (stream sock1) ≡ raw =
        ap (take (length raw)) left1 ∙ take-append raw more (length raw) refl in
      let head : take 4 (stream sock) ≡ header (length raw) = ap (take 4) split in
      (
        sock2,
        decode_message-steps sock sock1 sock2 (header (length raw)) raw (length raw)
              (took ∙ ap (λ t. (some t, sock1)) head) (unpack-header (length raw) small)
              (took2 ∙ ap (λ t. (some t, sock2)) body)
            ∙ ap (λ t. (t, sock2)) loads,
        left2 ∙ ap (drop (length raw)) left1 ∙ drop-append raw more (length raw) refl,
        open2,
      )

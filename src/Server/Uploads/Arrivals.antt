-- ===== src/Server/Uploads/Arrivals.antt =====
-- The pieces of an upload in any order.
use cloudmer_cloud_storage.Prelude.{
  ℕ, ◌≡◌, ◌<◌, refl, ap, ◌∙◌, String, Bool, ◌||◌, ◌==◌, true, false, Option, some, List, [], ◌∷◌,
  Bytes, length, str_eq, map, lookup, insert, lookup-insert, insert-insert, Result, ok, arith,
}
use cloudmer_cloud_storage.Text.{str}
use cloudmer_cloud_storage.Text.Decimal.{int_of-str}
use cloudmer_cloud_storage.Aes.{Delivers}
use cloudmer_cloud_storage.Chunks.{Codecs, packed, unpacked, flag, put_piece}
use cloudmer_cloud_storage.Chunks.Cutting.{unpacked-packed}
use cloudmer_cloud_storage.Chunks.Reassembly.{arrivals, occurs}
use cloudmer_cloud_storage.Server.{Server, Transfer, replied, line}
use cloudmer_cloud_storage.Server.Uploads.{handle_chunk}

abbrev pub with_transfer : String → Transfer → Server → Server
with_transfer tid transfer st = record st {
  active_transfers = insert tid transfer st.active_transfers;
}

abbrev pub new_transfer : String → ℕ → String → Transfer
new_transfer filename n owner = record {
  filename = filename;
  total_chunks = n;
  chunks = [];
  owner = owner;
}

pub str_eq-flag : (b : Bool) → str_eq (flag b) "1" ≡ b
str_eq-flag true = refl
str_eq-flag false = refl

or-true : (b : Bool) → (b || true) ≡ true
or-true true = refl
or-true false = refl

first : (i : ℕ) (order : List ℕ) → occurs i (i ∷ order) ≡ true
first i order = let same : (i == i) ≡ true = ground arith in rw same refl

module _ (k : Codecs) {S : Type 0} (recv : S → Result (Option Bytes) × S) where
  -- A payload that unpacks to a piece of a known transfer is stored under its index.
  pub handle_chunk_stored :
      (code tid size : String) (i : ℕ) (payload chunk : Bytes) (is_comp : Bool) (t : Transfer)
      (st : Server) (sock after : S)
      → lookup tid st.active_transfers ≡ some t
      → recv sock ≡ (ok (some payload), after)
      → 0 < length payload
      → unpacked k is_comp payload ≡ ok chunk
      → handle_chunk k recv (code ∷ tid ∷ str i ∷ size ∷ flag is_comp ∷ []) sock st ≡ (
        (
          with_transfer tid (record t { chunks = put_piece i chunk t.chunks }) st,
          replied (line ("CHNK" ∷ "OK" ∷ str i ∷ [])),
        ),
        after,
      )
  unfolding handle_chunk
  handle_chunk_stored code tid size i [] chunk is_comp t st sock after known got filled whole =
      absurd (omega arith)
  handle_chunk_stored code tid size i (x ∷ xs) chunk is_comp t st sock after known got filled
        whole =
      rw (int_of-str i) (rw known (rw got (rw (str_eq-flag is_comp) (rw whole refl))))

  -- The requests for the pieces `f i`, for the indexes of a list in its order.
  unfoldable pub arrive : (ℕ → Bytes) → String → List ℕ → S → Server → Server × S
  arrive f tid [] sock st = (st, sock)
  arrive f tid (i ∷ order) sock st =
      let p = packed k (f i) in
      let ((st', _), after) =
        handle_chunk k recv ("CHNK" ∷ tid ∷ str i ∷ str (length p.0) ∷ flag p.1 ∷ []) sock st in
      arrive f tid order after st'

  pub arrive-arrivals :
      (f : ℕ → Bytes) (tid : String) (order : List ℕ) (t : Transfer) (st : Server) (sock : S)
      → ((bytes : Bytes) → k.decompress (k.compress bytes) ≡ ok bytes)
      → ((i : ℕ) → occurs i order ≡ true → 0 < length (packed k (f i)).0)
      → Delivers recv (map (λ i. (packed k (f i)).0) order) sock
      → (arrive f tid order sock (with_transfer tid t st)).0
        ≡ with_transfer tid (record t { chunks = arrivals f order t.chunks }) st
  unfolding arrive
  arrive-arrivals f tid [] t st sock zlib filled delivers = refl
  arrive-arrivals f tid (i ∷ order) t st sock zlib filled (after, got, delivers) =
      let p = packed k (f i) in
      let t' = record t { chunks = put_piece i (f i) t.chunks } in
      let one =
        handle_chunk_stored "CHNK" tid (str (length p.0)) i p.0 (f i) p.1 t (with_transfer tid t st)
          sock after (lookup-insert tid t st.active_transfers) got (filled i (first i order))
          (unpacked-packed k zlib (f i)) in
      ap (λ r. (arrive f tid order r.1 r.0.0).0) one
      ∙ ap (λ a. (arrive f tid order after (record st { active_transfers = a })).0)
          (insert-insert tid t' t st.active_transfers)
      ∙ arrive-arrivals f tid order t' st after zlib
          (λ j later. filled j (rw later (or-true (i == j)))) delivers

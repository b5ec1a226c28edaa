-- ===== src/P2p/Dispatch/Purge.antt =====
-- What `_receive_block` takes from the queue, told without the code's set of hashes.
use cloudmer_cloud_storage.Prelude.{
  ◌≡◌, ◌≢◌, refl, ap, ◌∙◌, ◌⊎◌, inl, inr, String, true, Option, none, some, List, [], ◌∷◌, str_eq,
  eq_iff, apart-str_eq, Bool-cases, arith, if◌then◌else◌,
}
use cloudmer_cloud_storage.Blockchain.Tx.{Tx, contains, or_else}
use cloudmer_cloud_storage.P2p.Dispatch.{confirmed_hashes, is_confirmed, unconfirmed}

-- Some of the transactions is about the file.
abbrev pub Mentions : String → List Tx → Type 0
Mentions file [] = ⊥
Mentions file (t ∷ ts) = (t.file_hash ≡ some file) ⊎ Mentions file ts

-- The transaction is about a file that some transaction of the block is about.
abbrev pub IsSettled : List Tx → Tx → Type 0
IsSettled sealed tx =
    (file : String) × (tx.file_hash ≡ some file) × (file ≢ "") × Mentions file sealed

-- The queue without the settled transactions, in the same order.
pub data Purged (sealed : List Tx) : List Tx → List Tx → Type 0 where
  emptied : Purged sealed [] []
  dropped :
      {tx : Tx} {queue left : List Tx}
      → IsSettled sealed tx
      → Purged sealed queue left
      → Purged sealed (tx ∷ queue) left
  kept :
      {tx : Tx} {queue left : List Tx}
      → (IsSettled sealed tx → ⊥)
      → Purged sealed queue left
      → Purged sealed (tx ∷ queue) (tx ∷ left)

abbrev with_hash : Option String → List String → List String
with_hash o rest = let f = or_else o "" in if str_eq f "" then rest else f ∷ rest

with_hash-found :
    (f : String) (o : Option String) (rest : List String)
    → contains (with_hash o rest) f ≡ true
    → ((f ≢ "") × (o ≡ some f)) ⊎ (contains rest f ≡ true)
with_hash-found f none rest h = inr h
with_hash-found f (some g) rest h = elim (Bool-cases (str_eq g "")) [
  | inl blank ↦ inr (rw blank at h)
  | inr filled ↦ elim (Bool-cases (str_eq g f)) [
    | inl same ↦
        let e : g ≡ f = (eq_iff g f).0 same in
        inl (λ b. apart-str_eq g "" filled (e ∙ b), ap some e)
    | inr other ↦ inr (rw (filled, other) at h)
  ]
]

with_hash_rest :
    (f : String) (o : Option String) (rest : List String)
    → contains rest f ≡ true
    → contains (with_hash o rest) f ≡ true
with_hash_rest f none rest h = h
with_hash_rest f (some g) rest h = ground (arith, h)

with_hash_here :
    (f : String) (rest : List String) → f ≢ "" → contains (with_hash (some f) rest) f ≡ true
with_hash_here f rest filled = elim (Bool-cases (str_eq f "")) [
  | inl blank ↦ absurd (filled ((eq_iff f "").0 blank))
  | inr other ↦ rw other (rw ((eq_iff f f).1 refl) refl)
]

confirmed_hashes-Mentions :
    (f : String) (sealed : List Tx)
    → contains (confirmed_hashes sealed) f ≡ true
    → (f ≢ "") × Mentions f sealed
unfolding confirmed_hashes
confirmed_hashes-Mentions f [] h = cc
confirmed_hashes-Mentions f (t ∷ ts) h =
    elim (with_hash-found f t.file_hash (confirmed_hashes ts) h) [
      | inl (filled, here) ↦ (filled, inl here)
      | inr later ↦
          let (filled, there) = confirmed_hashes-Mentions f ts later in (filled, inr there)
    ]

Mentions-confirmed_hashes :
    (f : String) (sealed : List Tx)
    → f ≢ ""
    → Mentions f sealed
    → contains (confirmed_hashes sealed) f ≡ true
unfolding confirmed_hashes
Mentions-confirmed_hashes f [] filled nowhere = elim nowhere [ ]
Mentions-confirmed_hashes f (t ∷ ts) filled (inl here) =
    rw here (with_hash_here f (confirmed_hashes ts) filled)
Mentions-confirmed_hashes f (t ∷ ts) filled (inr there) =
    with_hash_rest f t.file_hash (confirmed_hashes ts) (Mentions-confirmed_hashes f ts filled there)

is_confirmed-IsSettled :
    (sealed : List Tx) (o : Option String)
    → is_confirmed (confirmed_hashes sealed) o ≡ true
    → (file : String) × (o ≡ some file) × (file ≢ "") × Mentions file sealed
is_confirmed-IsSettled sealed none h = cc
is_confirmed-IsSettled sealed (some f) h =
    let (filled, there) = confirmed_hashes-Mentions f sealed h in (f, refl, filled, there)

IsSettled-is_confirmed :
    (sealed : List Tx) (tx : Tx)
    → IsSettled sealed tx
    → is_confirmed (confirmed_hashes sealed) tx.file_hash ≡ true
IsSettled-is_confirmed sealed tx (f, here, filled, there) =
    rw here (Mentions-confirmed_hashes f sealed filled there)

-- The filter keeps exactly the transactions that are not settled.
pub unconfirmed-Purged :
    (sealed queue : List Tx) → Purged sealed queue (unconfirmed (confirmed_hashes sealed) queue)
unfolding unconfirmed
unconfirmed-Purged sealed [] = emptied
unconfirmed-Purged sealed (tx ∷ queue) =
    let rest = unconfirmed-Purged sealed queue in
    elim (Bool-cases (is_confirmed (confirmed_hashes sealed) tx.file_hash)) [
      | inl yes_ ↦ rw yes_ (dropped (is_confirmed-IsSettled sealed tx.file_hash yes_) rest)
      | inr no_ ↦
          let open_ : IsSettled sealed tx → ⊥ =
            λ s. let y = IsSettled-is_confirmed sealed tx s in cc in
          rw no_ (kept open_ rest)
    ]

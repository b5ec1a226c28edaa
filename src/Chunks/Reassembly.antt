-- ===== src/Chunks/Reassembly.antt =====
-- Pieces that arrive in any order, and repeatedly, are put together again.
use cloudmer_cloud_storage.Prelude.{
  ℕ, zero, suc, ◌+◌, ◌≤◌, ◌<◌, ◌≡◌, ◌≢◌, refl, ap, ◌∙◌, Bool, true, false, ◌||◌, none, some, List,
  [], ◌∷◌, length, ◌==◌, Bool-cases, inl, inr, Bytes, ok, err, key_error, arith, Option-cases,
}
use cloudmer_cloud_storage.Raid5.{joined}
use cloudmer_cloud_storage.Chunks.{get, put_piece, missing, assemble}

pub get-put_piece : (i : ℕ) (v : Bytes) (d : List (ℕ × Bytes)) → get i (put_piece i v d) ≡ some v
unfolding get put_piece
get-put_piece i v [] = ground arith
get-put_piece i v ((j, b) ∷ d) = ground (arith, get-put_piece i v d)

pub get-put_other :
    (i j : ℕ) (v : Bytes) (d : List (ℕ × Bytes)) → i ≢ j → get j (put_piece i v d) ≡ get j d
unfolding get put_piece
get-put_other i j v [] apart = ground arith
get-put_other i j v ((l, b) ∷ d) apart = ground (arith, get-put_other i j v d apart)

-- The dict has the pieces under the indexes from `i`.
abbrev pub Carries : List (ℕ × Bytes) → ℕ → List Bytes → Type 0
Carries chunks i [] = Unit
Carries chunks i (p ∷ ps) = (get i chunks ≡ some p) × Carries chunks (i + 1) ps

pub missing-Carries :
    (chunks : List (ℕ × Bytes)) (i : ℕ) (pieces : List Bytes)
    → Carries chunks i pieces
    → missing chunks i (length pieces) ≡ none
unfolding missing
missing-Carries chunks i [] c = refl
missing-Carries chunks i (p ∷ ps) (here, there) =
    rw (here, missing) (missing-Carries chunks (i + 1) ps there)

pub assemble-Carries :
    (chunks : List (ℕ × Bytes)) (i : ℕ) (pieces : List Bytes)
    → Carries chunks i pieces
    → assemble chunks i (length pieces) ≡ ok (joined pieces)
unfolding assemble
assemble-Carries chunks i [] c = refl
assemble-Carries chunks i (p ∷ ps) (here, there) =
    rw (here, assemble-Carries chunks (i + 1) ps there) refl

-- The loop stops at the least index that has no piece.
pub missing-least :
    (chunks : List (ℕ × Bytes)) (i n j : ℕ)
    → i ≤ j
    → j < i + n
    → get j chunks ≡ none
    → ((l : ℕ) → l < j → get l chunks ≢ none)
    → missing chunks i n ≡ some j
unfolding missing
missing-least chunks i zero j low high gone kept = absurd (omega arith)
missing-least chunks i (suc n) j low high gone kept = elim (Option-cases (get i chunks)) [
  | inl hole ↦ elim (Bool-cases (i == j)) [
    | inl same ↦ rw (hole, missing) (ap some (ground arith))
    | inr other ↦ absurd (kept i (ground arith) hole)
  ]
  | inr (b, here) ↦ elim (Bool-cases (i == j)) [
    | inl same ↦ let e : i ≡ j = ground arith in cc
    | inr other ↦
        let low' : i + 1 ≤ j = ground arith in
        rw (here, missing) (missing-least chunks (i + 1) n j low' (omega arith) gone kept)
  ]
]

-- Where an index is missing, `join` would raise.
pub assemble-missing :
    (chunks : List (ℕ × Bytes)) (i n j : ℕ)
    → missing chunks i n ≡ some j
    → assemble chunks i n ≡ err key_error
unfolding missing assemble
assemble-missing chunks i zero j h = cc
assemble-missing chunks i (suc n) j h = elim (Option-cases (get i chunks)) [
  | inl gone ↦ rw gone refl
  | inr (b, here) ↦ rw (here, assemble-missing chunks (i + 1) n j (rw (here, missing) at h)) refl
]

-- The pieces `f i` are stored for the indexes of a list, in its order.
abbrev pub arrivals : (ℕ → Bytes) → List ℕ → List (ℕ × Bytes) → List (ℕ × Bytes)
arrivals f [] chunks = chunks
arrivals f (i ∷ order) chunks = arrivals f order (put_piece i (f i) chunks)

abbrev pub occurs : ℕ → List ℕ → Bool
occurs i [] = false
occurs i (j ∷ js) = (j == i) || occurs i js

get-arrivals_kept :
    (f : ℕ → Bytes) (order : List ℕ) (i : ℕ) (chunks : List (ℕ × Bytes))
    → get i chunks ≡ some (f i)
    → get i (arrivals f order chunks) ≡ some (f i)
get-arrivals_kept f [] i chunks h = h
get-arrivals_kept f (j ∷ js) i chunks h = elim (Bool-cases (j == i)) [
  | inl same ↦
      let e : j ≡ i = ground arith in
      get-arrivals_kept f js i (put_piece j (f j) chunks) (rw e (get-put_piece i (f i) chunks))
  | inr other ↦
      get-arrivals_kept f js i (put_piece j (f j) chunks)
        (get-put_other j i (f j) chunks (λ e. ground arith) ∙ h)
]

get-arrivals :
    (f : ℕ → Bytes) (order : List ℕ) (i : ℕ) (chunks : List (ℕ × Bytes))
    → occurs i order ≡ true
    → get i (arrivals f order chunks) ≡ some (f i)
get-arrivals f [] i chunks h = cc
get-arrivals f (j ∷ js) i chunks h = elim (Bool-cases (j == i)) [
  | inl same ↦
      let e : j ≡ i = ground arith in
      get-arrivals_kept f js i (put_piece j (f j) chunks) (rw e (get-put_piece i (f i) chunks))
  | inr other ↦ get-arrivals f js i (put_piece j (f j) chunks) (rw other at h)
]

-- `f i`, `f (i + 1)`, ...
abbrev pub pieces_of : (ℕ → Bytes) → ℕ → ℕ → List Bytes
pieces_of f i zero = []
pieces_of f i (suc n) = f i ∷ pieces_of f (i + 1) n

pub length-pieces_of : (f : ℕ → Bytes) (i n : ℕ) → length (pieces_of f i n) ≡ n
length-pieces_of f i zero = refl
length-pieces_of f i (suc n) = ap suc (length-pieces_of f (i + 1) n)

pub arrivals-Carries :
    (f : ℕ → Bytes) (order : List ℕ) (chunks : List (ℕ × Bytes)) (i n : ℕ)
    → ((j : ℕ) → j < i + n → occurs j order ≡ true)
    → Carries (arrivals f order chunks) i (pieces_of f i n)
arrivals-Carries f order chunks i zero h = tt
arrivals-Carries f order chunks i (suc n) h = (
  get-arrivals f order i chunks (h i (omega arith)),
  arrivals-Carries f order chunks (i + 1) n (λ j b. h j (omega arith)),
)

-- `i`, `i + 1`, ...
abbrev pub indexes : ℕ → ℕ → List ℕ
indexes i zero = []
indexes i (suc n) = i ∷ indexes (i + 1) n

pub occurs-indexes : (j i n : ℕ) → i ≤ j → j < i + n → occurs j (indexes i n) ≡ true
occurs-indexes j i zero p q = absurd (omega arith)
occurs-indexes j i (suc n) p q = elim (Bool-cases (i == j)) [
  | inl here ↦ rw here refl
  | inr there ↦ rw there (occurs-indexes j (i + 1) n (ground arith) (omega arith))
]

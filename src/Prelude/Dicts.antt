-- ===== src/Prelude/Dicts.antt =====
-- Python's dicts with string keys, in insertion order, and strings that differ.
use text.Mathlib.TextPositions.{eq_refl}
use Prim.Native.String.{String}
use mathlib.Core.Path.{◌≡◌, refl, sym, ap, ◌∙◌}
use mathlib.Core.Logic.{◌≢◌, inl, inr}
use text.Mathlib.TextEquality.{eq_iff}
use mathlib.Core.Bool.{true, false}
use mathlib.Core.Option.{Option, none, some}
use mathlib.Core.List.{List, [], ◌∷◌}
use text.Mathlib.Text.{◌==◌ as str_eq}
use cloudmer_cloud_storage.Prelude.Tests.{if◌then◌else◌, Bool-cases}

module _ {ℓ} {A : Type ℓ} where
  unfoldable pub lookup : String → List (String × A) → Option A
  lookup k [] = none
  lookup k ((j, w) ∷ d) = let rest = lookup k d in if str_eq j k then some w else rest

  -- `d[k] = v`
  unfoldable pub insert : String → A → List (String × A) → List (String × A)
  insert k v [] = (k, v) ∷ []
  insert k v ((j, w) ∷ d) =
      let rest = insert k v d in if str_eq j k then (k, v) ∷ d else (j, w) ∷ rest

  -- `del d[k]`, or nothing on a missing key
  unfoldable pub remove : String → List (String × A) → List (String × A)
  remove k [] = []
  remove k ((j, w) ∷ d) = let rest = remove k d in if str_eq j k then rest else (j, w) ∷ rest

module _ {ℓ} {A : Type ℓ} where
  pub lookup-insert :
      (k : String) (v : A) (d : List (String × A)) → lookup k (insert k v d) ≡ some v
  unfolding lookup insert
  lookup-insert k v [] = rw (eq_refl k)
  lookup-insert k v ((j, w) ∷ d) = elim (Bool-cases (str_eq j k)) [
    | inl same ↦ rw same (rw (eq_refl k))
    | inr other ↦ rw other (rw other (lookup-insert k v d))
  ]

pub str_eq-apart : (a b : String) → a ≢ b → str_eq a b ≡ false
str_eq-apart a b apart = elim (Bool-cases (str_eq a b)) [
  | inl same ↦ absurd (apart ((eq_iff a b).0 same))
  | inr other ↦ other
]

module _ {ℓ} {A : Type ℓ} where
  pub lookup-remove : (k : String) (d : List (String × A)) → lookup k (remove k d) ≡ none
  unfolding lookup remove
  lookup-remove k [] = refl
  lookup-remove k ((j, w) ∷ d) = elim (Bool-cases (str_eq j k)) [
    | inl same ↦ rw same (lookup-remove k d)
    | inr other ↦ rw other (rw other (lookup-remove k d))
  ]

  pub lookup-insert_other :
      (k i : String) (v : A) (d : List (String × A)) → i ≢ k → lookup i (insert k v d) ≡ lookup i d
  unfolding lookup insert
  lookup-insert_other k i v [] apart = let no = str_eq-apart k i (λ e. apart (sym e)) in rw no
  lookup-insert_other k i v ((j, w) ∷ d) apart = elim (Bool-cases (str_eq j k)) [
    | inl same ↦
        let e : j ≡ k = (eq_iff j k).0 same in
        let no = str_eq-apart k i (λ e. apart (sym e)) in
        let no' = str_eq-apart j i (λ f. apart (sym f ∙ e)) in rw same (rw no (rw no' refl))
    | inr other ↦ rw other (rw (lookup-insert_other k i v d apart) refl)
  ]

  pub lookup-remove_other :
      (k i : String) (d : List (String × A)) → i ≢ k → lookup i (remove k d) ≡ lookup i d
  unfolding lookup remove
  lookup-remove_other k i [] apart = refl
  lookup-remove_other k i ((j, w) ∷ d) apart = elim (Bool-cases (str_eq j k)) [
    | inl same ↦
        let e : j ≡ k = (eq_iff j k).0 same in
        let no = str_eq-apart j i (λ f. apart (sym f ∙ e)) in
        rw same (rw no (lookup-remove_other k i d apart))
    | inr other ↦ rw other (rw (lookup-remove_other k i d apart) refl)
  ]

pub apart-str_eq : (a b : String) → str_eq a b ≡ false → a ≢ b
apart-str_eq a b other same = let again : str_eq a b ≡ true = (eq_iff a b).1 same in cc

module _ {ℓ} {A : Type ℓ} where
  pub insert-insert :
      (k : String) (v w : A) (d : List (String × A)) → insert k v (insert k w d) ≡ insert k v d
  unfolding insert
  insert-insert k v w [] = rw (eq_refl k)
  insert-insert k v w ((j, u) ∷ d) = elim (Bool-cases (str_eq j k)) [
    | inl same ↦ rw same (rw (eq_refl k) refl)
    | inr other ↦ rw other (rw other (ap (λ t. (j, u) ∷ t) (insert-insert k v w d)))
  ]

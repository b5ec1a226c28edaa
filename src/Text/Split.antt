-- ===== src/Text/Split.antt =====
-- Splitting undoes joining.
use Prim.Native.Char.{Char, code}
use cloudmer_cloud_storage.Prelude.{
  ℕ, Bool, not, ◌&&◌, ◌≡◌, ◌≢◌, refl, ap, ◌∙◌, String, ◌<>◌, List, [], ◌∷◌, ◌++◌, ◌==◌, arith, true,
}
use text.Mathlib.TextLemmas.{nil-append, cons-append}
use cloudmer_cloud_storage.Text.{codes, split, join}

pub codes-append : (s t : String) → codes (s <> t) ≡ codes s ++ codes t
codes-append String.[] t = ap codes (nil-append t)
codes-append (String.◌∷◌ c s) t =
    ap codes (cons-append c s t) ∙ ap (λ x. code c ∷ x) (codes-append s t)

-- The code does not occur in the text.
abbrev pub Lacks : ℕ → String → Type 0
Lacks sep String.[] = Unit
Lacks sep (String.◌∷◌ c s) = (code c ≢ sep) × Lacks sep s

pub split-Lacks : (sep : ℕ) (p : String) → Lacks sep p → split sep p ≡ p ∷ []
unfolding split
split-Lacks sep String.[] h = refl
split-Lacks sep (String.◌∷◌ c s) (h, hs) = ground (arith, split-Lacks sep s hs)

-- Reading up to a separator.
pub split_at :
    (sep : ℕ) (c : Char) (p rest : String)
    → code c ≡ sep
    → Lacks sep p
    → split sep (p <> String.◌∷◌ c rest) ≡ p ∷ split sep rest
unfolding split
split_at sep c String.[] rest e h = rw (nil-append (String.◌∷◌ c rest)) (ground arith)
split_at sep c (String.◌∷◌ d s) rest e (h, hs) =
    rw (cons-append d s (String.◌∷◌ c rest)) (ground (arith, split_at sep c s rest e hs))

abbrev pub AllLack : ℕ → List String → Type 0
AllLack sep [] = Unit
AllLack sep (p ∷ ps) = Lacks sep p × AllLack sep ps

-- Splitting a joined list at the separator gives the list back, where it is not empty and no part
-- holds the separator.
pub split-join :
    (c : Char) (p : String) (ps : List String)
    → AllLack (code c) (p ∷ ps)
    → split (code c) (join (String.◌∷◌ c "") (p ∷ ps)) ≡ p ∷ ps
unfolding join
split-join c p [] (h, _) = split-Lacks (code c) p h
split-join c p (q ∷ ps) (h, hs) =
    ap (λ t. split (code c) (p <> t)) (glued (join (String.◌∷◌ c "") (q ∷ ps)))
    ∙ split_at (code c) c p (join (String.◌∷◌ c "") (q ∷ ps)) refl h
    ∙ ap (λ t. p ∷ t) (split-join c q ps hs)
  where
    glued : (t : String) → String.◌∷◌ c "" <> t ≡ String.◌∷◌ c t
    glued t = cons-append c "" t ∙ ap (String.◌∷◌ c) (nil-append t)

-- The same as a test, for words that are given.
abbrev pub lacks : ℕ → String → Bool
lacks sep String.[] = true
lacks sep (String.◌∷◌ c s) = not (code c == sep) && lacks sep s

pub lacks-Lacks : (sep : ℕ) (s : String) → lacks sep s ≡ true → Lacks sep s
lacks-Lacks sep String.[] h = tt
lacks-Lacks sep (String.◌∷◌ c s) h = (λ e. ground arith, lacks-Lacks sep s (ground arith))

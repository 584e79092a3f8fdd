-- ===== src/Prelude/Texts.antt =====
-- `str.split(",")` and `",".join`, and that the one undoes the other.
use Prim.Native.String.{String, [] as empty, ◌∷◌ as ◌+∷◌, ◌++◌ as str_append}
use Prim.Native.Char.{Char, code}
use Prim.Native.String.append
use text.Mathlib.TextLemmas.{nil-append}
use mathlib.Core.Path.{◌≡◌, refl, ap, ◌∙◌}
use mathlib.Core.Logic.{inl, inr}
use mathlib.Core.Bool.{Bool, true, not, ◌&&◌}
use mathlib.Core.List.{List, [], ◌∷◌}
use open_llmops.Prelude.Equality.{◌==◌, nat_eq, string_eq, if◌then◌else◌, Bool-cases}
use open_llmops.Prelude.Lists.{All}

abbrev pub is_comma : Char → Bool
is_comma c = code c == 44

-- A character before the first piece.
abbrev pub push : Char → List String → List String
push c [] = (c +∷ "") ∷ []
push c (p ∷ ps) = (c +∷ p) ∷ ps

unfoldable pub split_commas : String → List String
split_commas empty = "" ∷ []
split_commas (c +∷ s) = if is_comma c then "" ∷ split_commas s else push c (split_commas s)

unfoldable pub join_commas : List String → String
join_commas [] = ""
join_commas (p ∷ []) = p
join_commas (p ∷ q ∷ ps) = str_append p (str_append "," (join_commas (q ∷ ps)))

-- No piece ends in this text before its end.
abbrev pub is_plain : String → Bool
is_plain empty = true
is_plain (c +∷ s) = not (is_comma c) && is_plain s

split_plain : (s : String) → is_plain s ≡ true → split_commas s ≡ s ∷ []
unfolding split_commas
split_plain empty h = refl
split_plain (c +∷ s) h = elim (Bool-cases (is_comma c)) [
  | inl comma ↦ absurd (cc (rw comma at h))
  | inr other ↦ rw (other, split_plain s (rw other at h)) refl
]

split-append :
    (p rest : String)
    → is_plain p ≡ true
    → split_commas (str_append p (str_append "," rest)) ≡ p ∷ split_commas rest
unfolding split_commas
split-append empty rest h =
    rw (nil-append (str_append "," rest), append.cons "," "" rest, append.nil rest) refl
split-append (c +∷ p) rest h = elim (Bool-cases (is_comma c)) [
  | inl comma ↦ absurd (cc (rw comma at h))
  | inr other ↦
      rw (append.cons c p (str_append "," rest), other, split-append p rest (rw other at h)) refl
]

-- Plain pieces, at least one, are found again.
pub split_commas-join_commas :
    (p : String) (ps : List String)
    → All (λ s. is_plain s ≡ true) (p ∷ ps)
    → split_commas (join_commas (p ∷ ps)) ≡ p ∷ ps
unfolding join_commas
split_commas-join_commas p [] h = split_plain p h.0
split_commas-join_commas p (q ∷ ps) h =
    split-append p (join_commas (q ∷ ps)) h.0 ∙ ap (λ r. p ∷ r) (split_commas-join_commas q ps h.1)

-- ===== src/Assignors/Sort.antt =====
-- Python's `sorted`, by insertion: equal keys keep their order.
use Prim.Native.String.{compare}
use text.Mathlib.Text.{is_lt}
use kafka_python.Common.{
  suc, String, Bool, not, List, [], ◌∷◌, ◌≡◌, refl, length, if◌then◌else◌, ap, Bool-cases, inl, inr,
  ◌∙◌,
}

module _ {ℓ} {A : Type ℓ} (le : A → A → Bool) where
  unfoldable pub insert_sorted : A → List A → List A
  insert_sorted x [] = x ∷ []
  insert_sorted x (y ∷ ys) =
      let rest = insert_sorted x ys in if le x y then x ∷ y ∷ ys else y ∷ rest

  unfoldable pub sort : List A → List A
  sort [] = []
  sort (x ∷ xs) = insert_sorted x (sort xs)

  length-insert_sorted : (x : A) (xs : List A) → length (insert_sorted x xs) ≡ suc (length xs)
  unfolding insert_sorted
  length-insert_sorted x [] = refl
  length-insert_sorted x (y ∷ ys) = elim (Bool-cases (le x y)) [
    | inl c ↦ rw c refl
    | inr c ↦ rw c (ap suc (length-insert_sorted x ys))
  ]

  pub length-sort : (xs : List A) → length (sort xs) ≡ length xs
  unfolding sort
  length-sort [] = refl
  length-sort (x ∷ xs) = length-insert_sorted x (sort xs) ∙ ap suc (length-sort xs)

-- The order of texts by their characters.
abbrev pub text_le : String → String → Bool
text_le s t = not (is_lt (compare t s))

-- ===== src/Common/Set.antt =====
-- Python's `set` as a list of its members, oldest first. The program reads membership and
-- emptiness; where it iterates over a set, this order stands for the one that Python picks.
use mathlib.Core.Path.{◌≡◌, refl}
use mathlib.Core.Bool.{Bool, true, false, not, ◌||◌, ◌&&◌}
use mathlib.Core.List.{List, [], ◌∷◌, ◌++◌}
use native.Mathlib.Omega.{arith}
use kafka_python.Common.Tests.{if◌then◌else◌}
use kafka_python.Common.Eq.{Eq, ◌==◌}

module _ {ℓ} {A : Type ℓ} ⦃e : Eq A⦄ where
  -- a in s
  unfoldable pub contains : List A → A → Bool
  contains [] a = false
  contains (x ∷ xs) a = x == a || contains xs a

  -- s.add(a)
  unfoldable pub add : List A → A → List A
  add s a = if contains s a then s else s ++ a ∷ []

  -- s.update(xs)
  unfoldable pub update : List A → List A → List A
  update s [] = s
  update s (x ∷ xs) = update (add s x) xs

  -- s - xs
  unfoldable pub difference : List A → List A → List A
  difference [] xs = []
  difference (x ∷ s) xs = let rest = difference s xs in if contains xs x then rest else x ∷ rest

  -- s & xs
  unfoldable pub intersection : List A → List A → List A
  intersection [] xs = []
  intersection (x ∷ s) xs = let rest = intersection s xs in if contains xs x then x ∷ rest else rest

  pub contains-append :
      (xs ys : List A) (a : A) → contains (xs ++ ys) a ≡ (contains xs a || contains ys a)
  unfolding contains
  contains-append [] ys a = refl
  contains-append (x ∷ xs) ys a = ground (arith, contains-append xs ys a)

  pub contains-add : (s : List A) (a b : A) → contains (add s a) b ≡ (contains s b || a == b)
  unfolding add contains
  contains-add s a b = ground (arith, contains-append s (a ∷ []) b, e.same_iff a b)

  pub contains-update :
      (s xs : List A) (b : A) → contains (update s xs) b ≡ (contains s b || contains xs b)
  unfolding update contains
  contains-update s [] b = ground arith
  contains-update s (x ∷ xs) b = ground (arith, contains-update (add s x) xs b, contains-add s x b)

  pub contains-difference :
      (s xs : List A) (b : A) → contains (difference s xs) b ≡ (contains s b && not (contains xs b))
  unfolding difference contains
  contains-difference [] xs b = refl
  contains-difference (x ∷ s) xs b = ground (arith, contains-difference s xs b, e.same_iff x b)

  -- Every member of `s` is in `xs`.
  unfoldable pub subset : List A → List A → Bool
  subset [] xs = true
  subset (x ∷ s) xs = contains xs x && subset s xs

  -- s == xs
  unfoldable pub same_members : List A → List A → Bool
  unfolding subset
  same_members s xs = subset s xs && subset xs s

  pub subset-contains :
      (s xs : List A) (b : A) → subset s xs ≡ true → contains s b ≡ true → contains xs b ≡ true
  unfolding subset contains
  subset-contains [] xs b h k = absurd (ground arith)
  subset-contains (x ∷ s) xs b h k = ground (arith, subset-contains s xs b, e.same_iff x b)

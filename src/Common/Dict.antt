-- ===== src/Common/Dict.antt =====
-- Python's `dict` as an association list in insertion order: a write to a known key keeps its place.
use mathlib.Core.Logic.{inl, inr}
use mathlib.Core.Path.{subst}
use kafka_python.Common.Tests.{is_some, Bool-cases}
use kafka_python.Common.Lists.{All, All-append}
use mathlib.Core.Path.{◌≡◌, refl}
use mathlib.Core.Option.{Option, none, some}
use mathlib.Core.List.{List, [], ◌∷◌, ◌++◌}
use mathlib.Core.Bool.{Bool, false, ◌||◌}
use native.Mathlib.Omega.{arith}
use kafka_python.Common.Tests.{if◌then◌else◌}
use kafka_python.Common.Eq.{Eq, ◌==◌}

abbrev pub Dict {ℓ κ} : Type ℓ → Type κ → Type (ℓ ⊔ κ)
Dict K V = List (K × V)

module _ {ℓ κ} {K : Type ℓ} {V : Type κ} ⦃e : Eq K⦄ where
  -- d.get(k)
  unfoldable pub lookup : Dict K V → K → Option V
  lookup [] k = none
  lookup ((j, v) ∷ d) k = if j == k then some v else lookup d k

  -- d[k] = v
  unfoldable pub insert : Dict K V → K → V → Dict K V
  insert [] k v = (k, v) ∷ []
  insert ((j, w) ∷ d) k v = if j == k then (j, v) ∷ d else (j, w) ∷ insert d k v

  -- d.pop(k, None)
  unfoldable pub erase : Dict K V → K → Dict K V
  erase [] k = []
  erase ((j, w) ∷ d) k = let rest = erase d k in if j == k then rest else (j, w) ∷ rest

  pub lookup-insert :
      (d : Dict K V) (k j : K) (v : V)
      → lookup (insert d k v) j ≡ (if k == j then some v else lookup d j)
  unfolding lookup insert
  lookup-insert [] k j v = refl
  lookup-insert ((i, w) ∷ d) k j v =
      ground (arith, lookup-insert d k j v, e.same_iff i k, e.same_iff i j, e.same_iff k j)

  pub lookup-erase :
      (d : Dict K V) (k j : K) → lookup (erase d k) j ≡ (if k == j then none else lookup d j)
  unfolding lookup erase
  lookup-erase [] k j = ground arith
  lookup-erase ((i, w) ∷ d) k j =
      ground (arith, lookup-erase d k j, e.same_iff i k, e.same_iff i j, e.same_iff k j)

  -- k in d
  unfoldable pub member : Dict K V → K → Bool
  member [] k = false
  member ((j, v) ∷ d) k = j == k || member d k

  -- d.keys()
  abbrev pub keys_of : Dict K V → List K
  keys_of [] = []
  keys_of ((j, v) ∷ d) = j ∷ keys_of d

  -- d.move_to_end(k), where the key is known
  abbrev pub moved : Option V → Dict K V → K → Dict K V
  moved none d k = d
  moved (some v) d k = erase d k ++ (k, v) ∷ []

  unfoldable pub move_to_end : Dict K V → K → Dict K V
  move_to_end d k = moved (lookup d k) d k

  pub member-insert :
      (d : Dict K V) (k j : K) (v : V) → member (insert d k v) j ≡ (member d j || k == j)
  unfolding member insert
  member-insert [] k j v = ground arith
  member-insert ((i, w) ∷ d) k j v =
      ground (arith, member-insert d k j v, e.same_iff i k, e.same_iff i j, e.same_iff k j)

  pub member-lookup : (d : Dict K V) (k : K) → member d k ≡ is_some (lookup d k)
  unfolding member lookup
  member-lookup [] k = refl
  member-lookup ((i, w) ∷ d) k = ground (arith, member-lookup d k)

  lookup-append :
      (d : Dict K V) (k j : K) (v : V)
      → lookup (d ++ (k, v) ∷ []) j
        ≡ (if is_some (lookup d j) then lookup d j else if k == j then some v else none)
  unfolding lookup
  lookup-append [] k j v = refl
  lookup-append ((i, w) ∷ d) k j v = ground (arith, lookup-append d k j v)

  -- To move a key changes no lookup.
  pub lookup-move_to_end : (d : Dict K V) (k j : K) → lookup (move_to_end d k) j ≡ lookup d j
  unfolding move_to_end
  lookup-move_to_end d k j = case (lookup d k) refl
    where
      case : (o : Option V) → lookup d k ≡ o → lookup (moved o d k) j ≡ lookup d j
      case none q = refl
      case (some v) q =
          ground (arith, lookup-append (erase d k) k j v, lookup-erase d k j, e.same_iff k j, q)

-- What a `defaultdict(list)` has for a key.
abbrev pub listed {ℓ} : {A : Type ℓ} → Option (List A) → List A
listed none = []
listed (some xs) = xs

module _ {ℓ κ} {K : Type ℓ} {A : Type κ} ⦃e : Eq K⦄ where
  -- d[k].append(a), on a `defaultdict(list)`
  unfoldable pub append_at : Dict K (List A) → K → A → Dict K (List A)
  append_at [] k a = (k, a ∷ []) ∷ []
  append_at ((j, xs) ∷ d) k a =
      let rest = append_at d k a in if j == k then (j, xs ++ a ∷ []) ∷ d else (j, xs) ∷ rest

  pub lookup-append_at :
      (d : Dict K (List A)) (k j : K) (a : A)
      → lookup (append_at d k a) j
        ≡ (if k == j then some (listed (lookup d k) ++ a ∷ []) else lookup d j)
  unfolding lookup append_at
  lookup-append_at [] k j a = refl
  lookup-append_at ((i, xs) ∷ d) k j a =
      ground (arith, lookup-append_at d k j a, e.same_iff i k, e.same_iff i j, e.same_iff k j)

module _ {ℓ κ μ} {K : Type ℓ} {V : Type κ} ⦃e : Eq K⦄ (P : V → Type μ) where
  -- Every value satisfies `P`.
  abbrev pub Values : Dict K V → Type μ
  Values d = All (λ p. P p.1) d

  pub Values-insert : (d : Dict K V) (k : K) (v : V) → Values d → P v → Values (insert d k v)
  unfolding insert
  Values-insert [] k v h p = (p, tt)
  Values-insert ((i, w) ∷ d) k v h p = elim (Bool-cases (i == k)) [
    | inl q ↦ rw q (p, h.1)
    | inr q ↦ rw q (h.0, Values-insert d k v h.1 p)
  ]

  pub Values-erase : (d : Dict K V) (k : K) → Values d → Values (erase d k)
  unfolding erase
  Values-erase [] k h = tt
  Values-erase ((i, w) ∷ d) k h = elim (Bool-cases (i == k)) [
    | inl q ↦ rw q (Values-erase d k h.1)
    | inr q ↦ rw q (h.0, Values-erase d k h.1)
  ]

  pub Values-lookup : (d : Dict K V) (k : K) (v : V) → Values d → lookup d k ≡ some v → P v
  unfolding lookup
  Values-lookup [] k v h q = absurd cc
  Values-lookup ((i, w) ∷ d) k v h q = elim (Bool-cases (i == k)) [
    | inl c ↦ let o : some w ≡ some v = rw c at q in let same : w ≡ v = cc in subst P same h.0
    | inr c ↦ let o : lookup d k ≡ some v = rw c at q in Values-lookup d k v h.1 o
  ]

  pub Values-move_to_end : (d : Dict K V) (k : K) → Values d → Values (move_to_end d k)
  unfolding move_to_end
  Values-move_to_end d k h = case (lookup d k) refl
    where
      case : (o : Option V) → lookup d k ≡ o → Values (moved o d k)
      case none q = h
      case (some v) q =
          All-append (λ p. P p.1) (erase d k) ((k, v) ∷ []) (Values-erase d k h)
            (Values-lookup d k v h q, tt)

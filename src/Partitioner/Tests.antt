-- ===== src/Partitioner/Tests.antt =====
-- Hashes and choices at concrete inputs.
use kafka_python.Common.{ℕ, ◌<◌, ◌≡◌, refl, some, List, [], ◌∷◌, length, arith, Any, inl}
use kafka_python.Partitioner.{murmur2, rounds, finish, mix, partition}
use kafka_python.Partitioner.Choice.{partition_lem, candidates}

-- The first and the last partition of two.
hash_empty : murmur2 [] ≡ 275646681
unfolding murmur2 rounds finish mix
hash_empty = refl

-- random.choice, always the first one.
abbrev first : List ℕ → ℕ
first [] = 0
first (p ∷ l) = p

first-Any : (l : List ℕ) → 0 < length l → Any (λ q. q ≡ first l) l
first-Any [] h = absurd (omega arith)
first-Any (p ∷ l) h = inl refl

partition_example :
    (p : ℕ) × (partition first (some (1 ∷ 2 ∷ 3 ∷ [])) (0 ∷ 1 ∷ 2 ∷ []) (1 ∷ []) ≡ some p)
    × Any (λ q. q ≡ p) (candidates (some (1 ∷ 2 ∷ 3 ∷ [])) (0 ∷ 1 ∷ 2 ∷ []) (1 ∷ []))
partition_example =
    partition_lem first (some (1 ∷ 2 ∷ 3 ∷ [])) (0 ∷ 1 ∷ 2 ∷ []) (1 ∷ []) (omega arith) first-Any

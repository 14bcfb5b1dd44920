-- ===== src/Partitioner/Choice.antt =====
-- What the partitioner picks.
use kafka_python.Common.{
  ℕ, zero, suc, ◌<◌, ◌≡◌, ◌%◌, ◌^◌, refl, Option, none, some, List, [], ◌∷◌, length, get_elem?,
  arith, Any, inl, inr,
}
use native.Mathlib.Nat.{mod-lt}
use kafka_python.Partitioner.{murmur2, partition}

get_elem?-Any :
    (l : List ℕ) (i : ℕ) → i < length l → (p : ℕ) × (get_elem? l i ≡ some p) × Any (λ q. q ≡ p) l
get_elem?-Any [] i h = absurd (omega arith)
get_elem?-Any (x ∷ l) zero h = (x, refl, inl refl)
get_elem?-Any (x ∷ l) (suc i) h = let (p, e, a) = get_elem?-Any l i (omega arith) in (p, e, inr a)

-- Where the partition is looked for.
abbrev pub candidates : Option (List ℕ) → List ℕ → List ℕ → List ℕ
candidates (some key) all_partitions available = all_partitions
candidates none all_partitions [] = all_partitions
candidates none all_partitions (p ∷ available) = p ∷ available

-- With at least one partition, the partitioner returns one. With a key it is one of all partitions;
-- without a key it is one of the available partitions, or of all if none is available.
pub partition_lem :
    (choice : List ℕ → ℕ) (key : Option (List ℕ)) (all_partitions available : List ℕ)
    → 0 < length all_partitions
    → ((l : List ℕ) → 0 < length l → Any (λ q. q ≡ choice l) l)
    → (p : ℕ) × (partition choice key all_partitions available ≡ some p)
      × Any (λ q. q ≡ p) (candidates key all_partitions available)
unfolding partition
partition_lem choice none all_partitions [] h k = (choice all_partitions, refl, k all_partitions h)
partition_lem choice none all_partitions (p ∷ available) h k =
    (choice (p ∷ available), refl, k (p ∷ available) (omega arith))
partition_lem choice (some key) all_partitions available h k =
    get_elem?-Any all_partitions (murmur2 key % 2 ^ 31 % length all_partitions)
      (mod-lt (murmur2 key % 2 ^ 31) h)

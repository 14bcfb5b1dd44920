-- ===== src/Partitioner.antt =====
-- kafka/partitioner/default.py: the partition of a message.
pub mod Choice
mod Tests
use Prim.Native.Nat.{bit_xor, bit_and}
use kafka_python.Common.{
  ℕ, zero, suc, ◌+◌, ◌*◌, ◌/◌, ◌%◌, ◌^◌, Option, none, some, List, [], ◌∷◌, length, get_elem?,
  is_empty, if◌then◌else◌,
}

-- Every `& 0xffffffff` is `% 2 ^ 32`. The hash works on 32 bits throughout.
abbrev pub word : ℕ → ℕ
word x = x % 2 ^ 32

abbrev pub m : ℕ
m = 0x5bd1e995

-- The mix of four bytes; `>> 24` is `/ 2 ^ 24`.
unfoldable pub mix : ℕ → ℕ → ℕ → ℕ → ℕ
mix b0 b1 b2 b3 =
    let k = word (word (b0 + b1 * 2 ^ 8 + b2 * 2 ^ 16 + b3 * 2 ^ 24) * m) in
    word (bit_xor k (k / 2 ^ 24) * m)

-- The rounds over four bytes each, and the switch on what is left.
unfoldable pub rounds : List ℕ → ℕ → ℕ
unfolding mix
rounds [] h = h
rounds (b0 ∷ []) h = word (bit_xor h b0 * m)
rounds (b0 ∷ b1 ∷ []) h = word (bit_xor (word (bit_xor h (b1 * 2 ^ 8))) b0 * m)
rounds (b0 ∷ b1 ∷ b2 ∷ []) h =
    word (bit_xor (word (bit_xor (word (bit_xor h (b2 * 2 ^ 16))) (b1 * 2 ^ 8))) b0 * m)
rounds (b0 ∷ b1 ∷ b2 ∷ b3 ∷ rest) h = rounds rest (word (bit_xor (word (h * m)) (mix b0 b1 b2 b3)))

-- The last steps.
unfoldable pub finish : ℕ → ℕ
finish h = let h1 = word (word (bit_xor h (h / 2 ^ 13)) * m) in word (bit_xor h1 (h1 / 2 ^ 15))

-- The hash of bytes, each below 256.
unfoldable pub murmur2 : List ℕ → ℕ
unfolding rounds finish
murmur2 key = finish (rounds key (bit_xor 0x9747b28c (length key)))

-- `DefaultPartitioner.__call__`; `choice` is random.choice.
module _ (choice : List ℕ → ℕ) where
  unfoldable pub partition : Option (List ℕ) → List ℕ → List ℕ → Option ℕ
  partition none all_partitions [] = some (choice all_partitions)
  partition none all_partitions (p ∷ available) = some (choice (p ∷ available))
  partition (some key) all_partitions available =
      get_elem? all_partitions (murmur2 key % 2 ^ 31 % length all_partitions)

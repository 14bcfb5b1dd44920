-- ===== src/Assignors/Range/Cover.antt =====
-- The slices of a topic cover its partitions.
use native.Mathlib.Nat.{mul-suc, mul-zero, mul_comm, div-add-mod, mod-lt, mul-le-mul_left}
use kafka_python.Common.{
  ℕ, zero, suc, ◌+◌, ◌/◌, ◌%◌, ◌≤◌, ◌<◌, ◌≡◌, refl, String, List, [], ◌∷◌, ◌++◌, length, take, drop,
  leb, arith, subst, ap, sym, All,
}
use kafka_python.Assignors.Sort.{sort, text_le, length-sort}
use kafka_python.Assignors.Range.{
  partitions_per_consumer, consumers_with_extra, start_of, length_of, slices, assign_topic,
}

-- The partitions that the slices hold, in order.
abbrev pub partitions_in : List (String × List ℕ) → List ℕ
partitions_in [] = []
partitions_in ((member, slice) ∷ rest) = slice ++ partitions_in rest

take-drop_zero : (k : ℕ) (xs : List ℕ) → take k xs ++ drop k xs ≡ xs
take-drop_zero zero xs = refl
take-drop_zero (suc k) [] = refl
take-drop_zero (suc k) (x ∷ xs) = ap (λ l. x ∷ l) (take-drop_zero k xs)

take_empty : (k : ℕ) → take {A = ℕ} k [] ++ [] ≡ []
take_empty zero = refl
take_empty (suc k) = refl

take-drop : (k s : ℕ) (xs : List ℕ) → take k (drop s xs) ++ drop (s + k) xs ≡ drop s xs
take-drop k zero xs = let e : 0 + k ≡ k = omega arith in rw e (take-drop_zero k xs)
take-drop k (suc s) [] = let e : suc s + k ≡ suc (s + k) = omega arith in rw e (take_empty k)
take-drop k (suc s) (x ∷ xs) =
    let e : suc s + k ≡ suc (s + k) = omega arith in rw e (take-drop k s xs)

start_of-suc :
    (per extra i : ℕ) → start_of per extra (i + 1) ≡ start_of per extra i + length_of per extra i
unfolding start_of length_of
start_of-suc per extra i =
    let e : i + 1 ≡ suc i = omega arith in rw e (rw (mul-suc per i) (ground arith))

drop-length : (xs : List ℕ) (n : ℕ) → length xs ≤ n → drop n xs ≡ []
drop-length [] zero h = refl
drop-length [] (suc n) h = refl
drop-length (x ∷ xs) zero h = absurd (omega arith)
drop-length (x ∷ xs) (suc n) h = drop-length xs n (omega arith)

partitions_in-slices :
    (per extra : ℕ) (xs : List ℕ) (i : ℕ) (members : List String)
    → length xs ≤ start_of per extra (i + length members)
    → partitions_in (slices per extra xs i members) ≡ drop (start_of per extra i) xs
unfolding slices
partitions_in-slices per extra xs i [] h =
    let e : i + 0 ≡ i = omega arith in sym (drop-length xs (start_of per extra i) (rw e at h))
partitions_in-slices per extra xs i (m ∷ members) h =
    let e : i + suc (length members) ≡ i + 1 + length members = omega arith in
    let h' : length xs ≤ start_of per extra (i + 1 + length members) = rw e at h in
    rw (partitions_in-slices per extra xs (i + 1) members h', start_of-suc per extra i)
      (take-drop (length_of per extra i) (start_of per extra i) xs)

length-take-drop : (k s : ℕ) (xs : List ℕ) → s + k ≤ length xs → length (take k (drop s xs)) ≡ k
length-take-drop zero zero xs h = refl
length-take-drop (suc k) zero [] h = absurd (omega arith)
length-take-drop (suc k) zero (x ∷ xs) h = ap suc (length-take-drop k zero xs (omega arith))
length-take-drop k (suc s) [] h = absurd (omega arith)
length-take-drop k (suc s) (x ∷ xs) h = length-take-drop k s xs (omega arith)

start_of-le : (per extra i n : ℕ) → i ≤ n → start_of per extra i ≤ start_of per extra n
unfolding start_of
start_of-le per extra i n h = let m = mul-le-mul_left per h in ground (arith, m)

-- Each slice has `per` partitions, or one more.
abbrev pub IsBalanced : ℕ → String × List ℕ → Type 0
IsBalanced per e = (per ≤ length e.1) × (length e.1 ≤ per + 1)

slices-IsBalanced :
    (per extra : ℕ) (xs : List ℕ) (i : ℕ) (members : List String)
    → start_of per extra (i + length members) ≤ length xs
    → All (IsBalanced per) (slices per extra xs i members)
unfolding slices
slices-IsBalanced per extra xs i [] h = tt
slices-IsBalanced per extra xs i (m ∷ members) h =
    let e : i + suc (length members) ≡ i + 1 + length members = omega arith in
    let h' : start_of per extra (i + 1 + length members) ≤ length xs = rw e at h in
    let fits = length-take-drop (length_of per extra i) (start_of per extra i) xs (
      omega (
        arith,
        start_of-suc per extra i,
        start_of-le per extra (i + 1) (i + 1 + length members) (omega arith),
        h',
      )) in
    (rw fits (unfold length_of in ground arith), slices-IsBalanced per extra xs (i + 1) members h')

-- With at least one consumer, the slices of a topic hold its partitions, each once and in order,
-- and their sizes differ by one at most.
pub assign_topic_lem :
    (partitions : List ℕ) (consumers : List String)
    → 0 < length consumers
    → (partitions_in (assign_topic partitions consumers) ≡ sort leb partitions)
      × All
          (IsBalanced (partitions_per_consumer partitions consumers))
          (assign_topic partitions consumers)
unfolding assign_topic partitions_per_consumer consumers_with_extra
assign_topic_lem partitions consumers h =
    let n = length consumers in
    let per = length partitions / n in
    let extra = length partitions % n in
    let size : length (sort text_le consumers) ≡ n = length-sort text_le consumers in
    let total : start_of per extra (0 + length (sort text_le consumers))
        ≡ length (sort leb partitions) =
      rw (size, length-sort leb partitions)
        (unfold start_of in
          omega (
            arith,
            div-add-mod (length partitions) n,
            mul_comm per n,
            mod-lt (length partitions) h,
          )) in
    let none : start_of per extra 0 ≡ 0 = unfold start_of in omega (arith, mul-zero per) in
    (
      subst
          (λ x.
            partitions_in (slices per extra (sort leb partitions) 0 (sort text_le consumers))
            ≡ drop x (sort leb partitions))
          none
          (partitions_in-slices per extra (sort leb partitions) 0 (sort text_le consumers)
            (omega (arith, total))),
      slices-IsBalanced per extra (sort leb partitions) 0 (sort text_le consumers)
          (omega (arith, total)),
    )

-- ===== src/Protocol/Frame/Writes.antt =====
-- Writes within a buffer: they keep its size, and two in a row are one.
use kafka_python.Common.{
  ℕ, zero, suc, ◌+◌, ◌≤◌, ◌≡◌, refl, List, [], ◌∷◌, ◌++◌, length, length-append, take, drop, arith,
  ap,
}
use kafka_python.Protocol.Frame.{KafkaBytes, write, zeros}

module _ {ℓ} {A : Type ℓ} where
  pub length-take : (n : ℕ) (xs : List A) → n ≤ length xs → length (take n xs) ≡ n
  length-take zero xs h = refl
  length-take (suc n) [] h = absurd (omega arith)
  length-take (suc n) (x ∷ xs) h = omega (arith, length-take n xs (omega arith))

  pub length-drop : (n : ℕ) (xs : List A) → n ≤ length xs → length (drop n xs) + n ≡ length xs
  length-drop zero xs h = omega arith
  length-drop (suc n) [] h = absurd (omega arith)
  length-drop (suc n) (x ∷ xs) h = omega (arith, length-drop n xs (omega arith))

  drop-nil : (n : ℕ) → drop {A = A} n [] ≡ []
  drop-nil zero = refl
  drop-nil (suc n) = refl

  drop-drop : (m n : ℕ) (xs : List A) → drop n (drop m xs) ≡ drop (m + n) xs
  drop-drop zero n xs = let e : 0 + n ≡ n = omega arith in rw e refl
  drop-drop (suc m) n [] = rw (drop-nil n, drop-nil (suc m + n)) refl
  drop-drop (suc m) n (x ∷ xs) =
      let e : suc m + n ≡ suc (m + n) = omega arith in rw e (drop-drop m n xs)

  drop_past :
      (r n : ℕ) (xs : List A) (y : A) (zs : List A)
      → r ≤ length xs
      → drop (suc (r + n)) (take r xs ++ y ∷ zs) ≡ drop n zs
  drop_past zero n xs y zs h = let e : 0 + n ≡ n = omega arith in rw e refl
  drop_past (suc r) n [] y zs h = absurd (omega arith)
  drop_past (suc r) n (x ∷ xs) y zs h =
      let e : suc r + n ≡ suc (r + n) = omega arith in rw e (drop_past r n xs y zs (omega arith))

  take_past :
      (r : ℕ) (xs : List A) (y : A) (zs : List A)
      → r ≤ length xs
      → take (suc r) (take r xs ++ y ∷ zs) ≡ take r xs ++ y ∷ []
  take_past zero xs y zs h = refl
  take_past (suc r) [] y zs h = absurd (omega arith)
  take_past (suc r) (x ∷ xs) y zs h = ap (λ l. x ∷ l) (take_past r xs y zs (omega arith))

  append_single : (xs : List A) (y : A) (zs : List A) → (xs ++ y ∷ []) ++ zs ≡ xs ++ y ∷ zs
  append_single [] y zs = refl
  append_single (x ∷ xs) y zs = ap (λ l. x ∷ l) (append_single xs y zs)

-- A write that ends within the buffer keeps the size.
pub length-write :
    (chunk : List ℕ) (b : KafkaBytes)
    → b.idx + length chunk ≤ length b.bytes
    → length (write chunk b).bytes ≡ length b.bytes
unfolding write
length-write chunk b h = omega (
  arith,
  length-append (take b.idx b.bytes) (chunk ++ drop (b.idx + length chunk) b.bytes),
  length-append chunk (drop (b.idx + length chunk) b.bytes),
  length-take b.idx b.bytes (omega arith),
  length-drop (b.idx + length chunk) b.bytes h,
)

-- To write byte after byte is to write all at once.
pub write-write :
    (x : ℕ) (chunk : List ℕ) (b : KafkaBytes)
    → b.idx ≤ length b.bytes
    → write chunk (write (x ∷ []) b) ≡ write (x ∷ chunk) b
unfolding write
write-write x chunk b h =
    let one : b.idx + 1 ≡ suc b.idx = omega arith in
    let more : b.idx + suc (length chunk) ≡ suc (b.idx + length chunk) = omega arith in
    let more' : suc b.idx + length chunk ≡ suc (b.idx + length chunk) = omega arith in
    rw
      (
        one,
        more,
        more',
        take_past b.idx b.bytes x (drop (suc b.idx) b.bytes) h,
        drop_past b.idx (length chunk) b.bytes x (drop (suc b.idx) b.bytes) h,
        drop-drop (suc b.idx) (length chunk) b.bytes,
        more',
        append_single (take b.idx b.bytes) x (chunk ++ drop (suc (b.idx + length chunk)) b.bytes),
      )
      refl

pub length-zeros : (n : ℕ) → length (zeros n) ≡ n
unfolding zeros
length-zeros zero = refl
length-zeros (suc n) = ap suc (length-zeros n)

pub idx_write : (chunk : List ℕ) (b : KafkaBytes) → (write chunk b).idx ≡ b.idx + length chunk
unfolding write
idx_write chunk b = refl

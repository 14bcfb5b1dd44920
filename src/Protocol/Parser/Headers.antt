-- ===== src/Protocol/Parser/Headers.antt =====
-- The bytes of the size in front of a payload, received one after the other or at once.
use kafka_python.Common.{
  ℕ, zero, suc, ◌+◌, ◌-◌, ◌≤◌, ◌<◌, ◌≡◌, refl, sym, ◌∙◌, List, [], ◌∷◌, length, take, drop, arith,
  some, true, false, min, nat_beq, ltb, ◌⊎◌, inl, inr,
}
use kafka_python.Common.Int.{ℤ, pos, negsuc}
use kafka_python.Exec.{Result, ok, err}
use kafka_python.Protocol.Frame.{KafkaBytes, write, seek, read, create, of_size}
use kafka_python.Protocol.Frame.Writes.{write-write, length-zeros, idx_write, length-take}
use kafka_python.Protocol.Ints.{unpack}
use kafka_python.Protocol.Parser.{Api, KafkaProtocol}
use kafka_python.Protocol.Parser.Receiving.{
  check_header, read_header, check_payload, receive_loop, after_payload, after_header, opened,
  buffer_for,
}
use kafka_python.Protocol.Parser.Payload.{
  live, and_then, behind-nil, loop_payload, check_open, closed,
}

-- The size, once it is complete.
abbrev pub size_of : KafkaBytes → Result ℤ
size_of h = unpack 3 (read (some 4) (seek 0 h)).0

abbrev pub rewound : KafkaBytes → KafkaBytes
rewound h = (read (some 4) (seek 0 h)).1

module _ {Request : Type 0} where
  -- Receiving a size into `h`.
  abbrev pub idle : KafkaProtocol Request → KafkaBytes → KafkaProtocol Request
  idle s h = record s { receiving = false; header = h }

  pub check_header_open :
      (h c : KafkaBytes) (rest : List ℕ) (s : KafkaProtocol Request)
      → h.idx < 4
      → check_header h rest (idle s c) ≡ (ok rest, idle s h)
  unfolding check_header
  check_header_open h c rest s l =
      let open_yet : nat_beq h.idx 4 ≡ false = ground arith in
      let within : ltb 4 h.idx ≡ false = ground arith in rw (open_yet, within) refl

  check_header-idle :
      (h c d : KafkaBytes) (rest : List ℕ) (s : KafkaProtocol Request)
      → h.idx ≤ 4
      → check_header h rest (idle s c) ≡ check_header h rest (idle s d)
  unfolding check_header
  check_header-idle h c d rest s l =
      let within : ltb 4 h.idx ≡ false = ground arith in rw within refl

  pub check_header_full :
      (h c : KafkaBytes) (rest : List ℕ) (s : KafkaProtocol Request)
      → h.idx ≡ 4
      → check_header h rest (idle s c) ≡ opened (buffer_for (size_of h)) rest (idle s (rewound h))
  unfolding check_header
  check_header_full h c rest s e = let full : nat_beq h.idx 4 ≡ true = ground arith in rw full refl

module _ {Request Response : Type 0} (api : Api Request Response) where
  pub loop_header :
      (f x : ℕ) (rest : List ℕ) (s : KafkaProtocol Request) (h : KafkaBytes) (n : ℕ)
      → min (4 - h.idx) (suc (length rest)) ≡ n
      → receive_loop api (suc f) (x ∷ rest) (idle s h)
        ≡ after_header api
            (receive_loop api f)
            (check_header (write (take n (x ∷ rest)) h) (drop n (x ∷ rest)) (idle s h))
  unfolding receive_loop read_header
  loop_header f x rest s h n hn = rw hn refl

  pub loop_nil : (f : ℕ) (s : KafkaProtocol Request) → receive_loop api f [] s ≡ (ok [], s)
  unfolding receive_loop
  loop_nil zero s = refl
  loop_nil (suc f) s = refl

  -- The next byte of a size that is not the last.
  pub header_byte :
      (f x : ℕ) (s : KafkaProtocol Request) (h : KafkaBytes)
      → h.idx + 1 < 4
      → receive_loop api (suc f) (x ∷ []) (idle s h) ≡ (ok [], idle s (write (x ∷ []) h))
  header_byte f x s h l =
      rw
        (
          loop_header f x [] s h 1 (omega arith),
          check_header_open (write (x ∷ []) h) h [] s (rw (idx_write (x ∷ []) h) l),
        )
        (loop_nil f (idle s (write (x ∷ []) h)))

  pub header_more :
      (f x : ℕ) (rest : List ℕ) (s : KafkaProtocol Request) (h : KafkaBytes)
      → length h.bytes ≡ 4
      → h.idx + 1 < 4
      → receive_loop api (suc f) (x ∷ rest) (idle s h)
        ≡ receive_loop api (suc f) rest (idle s (write (x ∷ []) h))
  header_more f x [] s h e l = header_byte f x s h l ∙ unfold receive_loop in refl
  header_more f x (y ∷ ys) s h e l =
      let n = min (4 - (h.idx + 1)) (suc (length ys)) in
      let size : length (take n (y ∷ ys)) ≡ n = length-take n (y ∷ ys) (omega arith) in
      let here = loop_header f x (y ∷ ys) s h (suc n) (omega arith) in
      let there = loop_header f y ys s (write (x ∷ []) h) n (rw (idx_write (x ∷ []) h) refl) in
      let again = write-write x (take n (y ∷ ys)) h (omega arith) in
      here
      ∙ sym (
          there
          ∙ rw
              (
                again,
                check_header-idle (write (x ∷ take n (y ∷ ys)) h) (write (x ∷ []) h) h
                    (drop n (y ∷ ys)) s (omega (arith, size, idx_write (x ∷ take n (y ∷ ys)) h)),
              )
              refl)

  -- The two ways in which the bytes behind the next one are taken.
  abbrev pub IsStep : ℕ → ℕ → List ℕ → KafkaProtocol Request → Type 0
  IsStep f x rest s =
      (receive_loop api (suc f) (x ∷ rest) s
        ≡ and_then (receive_loop api 1 (x ∷ []) s) (receive_loop api f rest))
      ⊎ (receive_loop api (suc f) (x ∷ rest) s
          ≡ and_then (receive_loop api 1 (x ∷ []) s) (receive_loop api (suc f) rest))

  abbrev IsOpening : ℕ → List ℕ → Result ℤ → KafkaProtocol Request → Type 0
  IsOpening f rest size s =
      let first = after_header api (receive_loop api 0) (opened (buffer_for size) [] s) in
      let whole = after_header api (receive_loop api f) (opened (buffer_for size) rest s) in
      (whole ≡ and_then first (receive_loop api f rest))
      ⊎ (whole ≡ and_then first (receive_loop api (suc f) rest))

  pub payload_at_once :
      (f : ℕ) (rest : List ℕ) (s : KafkaProtocol Request) (b : KafkaBytes) (n total : ℕ)
      → length b.bytes ≡ total
      → min (total - b.idx) (length rest) ≡ n
      → after_header api (receive_loop api f) (ok rest, live s b)
        ≡ after_payload
            (receive_loop api f (drop n rest))
            (check_payload api total (write (take n rest) b) (live s b))
  payload_at_once f rest s b n total ht hn = rw (ht, hn) refl

  pub write_nothing : (size : ℕ) → write [] (of_size size) ≡ of_size size
  unfolding write of_size
  write_nothing size = refl

  opening_full :
      (f m : ℕ) (rest : List ℕ) (s : KafkaProtocol Request)
      → after_header api (receive_loop api f) (ok rest, live s (of_size (suc m)))
        ≡ receive_loop api (suc f) rest (live s (of_size (suc m)))
  opening_full f m [] s =
      let b = of_size (suc m) in
      let size : length b.bytes ≡ suc m = unfold of_size in length-zeros (suc m) in
      let start : b.idx ≡ 0 = unfold of_size in refl in
      rw
        (
          payload_at_once f [] s b 0 (suc m) size (omega arith),
          write_nothing (suc m),
          check_open api (suc m) b b s (omega arith),
        )
        (unfold receive_loop in refl)
  opening_full f m (y ∷ ys) s =
      let b = of_size (suc m) in
      let size : length b.bytes ≡ suc m = unfold of_size in length-zeros (suc m) in
      let n = min (suc m - b.idx) (suc (length ys)) in
      payload_at_once f (y ∷ ys) s b n (suc m) size refl
      ∙ sym (loop_payload api f y ys s b n (suc m) size refl)

  pub opening :
      (f : ℕ) (rest : List ℕ) (size : Result ℤ) (s : KafkaProtocol Request)
      → IsOpening f rest size s
  unfolding create
  opening f rest (err e) s = inl refl
  opening f rest (ok (negsuc n)) s = inl refl
  opening f rest (ok (pos zero)) s =
      let b = of_size 0 in
      let size : length b.bytes ≡ 0 = unfold of_size in length-zeros 0 in
      let start : b.idx ≡ 0 = unfold of_size in refl in
      inl (
        rw
          (
            payload_at_once f rest s b 0 0 size (omega arith),
            payload_at_once 0 [] s b 0 0 size (omega arith),
          )
          (closed api f rest (live s b) 0 (write [] b) (rw (write_nothing 0) start)))
  opening f rest (ok (pos (suc m))) s = inr (
      rw (opening_full f m rest s, opening_full 0 m [] s)
        (unfold receive_loop in sym (behind-nil _)))

  -- The last byte of a size.
  pub header_last :
      (f x : ℕ) (rest : List ℕ) (s : KafkaProtocol Request) (h : KafkaBytes)
      → h.idx + 1 ≡ 4
      → IsStep f x rest (idle s h)
  header_last f x rest s h e =
      let there = check_header_full (write (x ∷ []) h) h rest s (idx_write (x ∷ []) h ∙ e) in
      let alone = check_header_full (write (x ∷ []) h) h [] s (idx_write (x ∷ []) h ∙ e) in
      rw
        (
          loop_header f x rest s h 1 (omega arith),
          loop_header 0 x [] s h 1 (omega arith),
          there,
          alone,
        )
        (opening f rest (size_of (write (x ∷ []) h)) (idle s (rewound (write (x ∷ []) h))))

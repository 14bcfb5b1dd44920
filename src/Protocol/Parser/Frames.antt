-- ===== src/Protocol/Parser/Frames.antt =====
-- A frame that is received becomes the response to the oldest request in flight.
use mathlib.Core.List.{append-nil}
use kafka_python.Common.{
  ℕ, zero, suc, ◌+◌, ◌≡◌, refl, ◌∙◌, ap, List, [], ◌∷◌, ◌++◌, length, take, drop, arith, some, true,
  false, nat_beq, ltb, subst, length-append,
}
use kafka_python.Common.Int.{ℤ, pos}
use kafka_python.Exec.{Result, ok, err}
use kafka_python.Protocol.Frame.{KafkaBytes, write, read, seek, of_size, zeros, create}
use kafka_python.Protocol.Frame.Writes.{idx_write, length-zeros}
use kafka_python.Protocol.Ints.{pack, unpack}
use kafka_python.Protocol.Ints.RoundTrip.{unpack-pack}
use kafka_python.Protocol.Parser.{Api, KafkaProtocol}
use kafka_python.Protocol.Parser.Receiving.{
  Answers, receive_loop, receive_bytes, process_response, finished, after_payload, check_payload,
  reset_buffer, after_header,
}
use kafka_python.Protocol.Parser.Payload.{live}
use kafka_python.Protocol.Parser.Headers.{
  idle, loop_header, loop_nil, check_header_full, size_of, rewound, payload_at_once,
}

take_all {ℓ} : {A : Type ℓ} (xs : List A) → (take (length xs) xs ≡ xs) × (drop (length xs) xs ≡ [])
take_all [] = (refl, refl)
take_all (x ∷ xs) = let (t, d) = take_all xs in (ap (λ l. x ∷ l) t, d)

drop-zeros : (n : ℕ) → drop n (zeros n) ≡ []
unfolding zeros
drop-zeros zero = refl
drop-zeros (suc n) = drop-zeros n

take_four : (xs ys : List ℕ) → length xs ≡ 4 → (take 4 (xs ++ ys) ≡ xs) × (drop 4 (xs ++ ys) ≡ ys)
take_four (a ∷ b ∷ c ∷ d ∷ []) ys h = (refl, refl)
take_four [] ys h = absurd (omega arith)
take_four (a ∷ []) ys h = absurd (omega arith)
take_four (a ∷ b ∷ []) ys h = absurd (omega arith)
take_four (a ∷ b ∷ c ∷ []) ys h = absurd (omega arith)
take_four (a ∷ b ∷ c ∷ d ∷ e ∷ xs) ys h = absurd (omega arith)

write_four :
    (xs : List ℕ) (h : KafkaBytes)
    → length xs ≡ 4
    → length h.bytes ≡ 4
    → h.idx ≡ 0
    → write xs h ≡ record { bytes = xs; idx = 4 }
unfolding write
write_four xs h e l i =
    let none_left : drop 4 h.bytes ≡ [] = subst (λ n. drop n h.bytes ≡ []) l (take_all h.bytes).1 in
    rw (i, e, none_left, append-nil xs) refl

read_four :
    (xs : List ℕ) (i : ℕ)
    → length xs ≡ 4
    → read (some 4) (seek 0 (record { bytes = xs; idx = i })) ≡ (xs, record { bytes = xs; idx = 4 })
unfolding read seek
read_four xs i h = rw (h, subst (λ n. take n xs ≡ xs) h (take_all xs).0) refl

size_of-four :
    (xs : List ℕ) → length xs ≡ 4 → size_of (record { bytes = xs; idx = 4 }) ≡ unpack 3 xs
size_of-four xs h = rw (read_four xs 4 h) refl

rewound-four :
    (xs : List ℕ)
    → length xs ≡ 4
    → rewound (record { bytes = xs; idx = 4 }) ≡ record { bytes = xs; idx = 4 }
rewound-four xs h = ap (λ r. r.1) (read_four xs 4 h)

-- A buffer that is filled at once.
write-of_size : (p : List ℕ) → seek 0 (write p (of_size (length p))) ≡ record { bytes = p; idx = 0 }
unfolding write seek of_size
write-of_size p =
    let start : 0 + length p ≡ length p = omega arith in
    rw (start, drop-zeros (length p), append-nil p) refl

module _ {Request Response : Type 0} (api : Api Request Response) where
  -- The payload `p` was received behind the size `size`.
  abbrev pub received : List ℕ → List ℕ → KafkaProtocol Request → KafkaProtocol Request
  received size p s = record s {
    receiving = false;
    header = record { bytes = size; idx = 4 };
    rbuffer = some (record { bytes = p; idx = 0 });
  }

  payload_frame :
      (f : ℕ) (p : List ℕ) (s : KafkaProtocol Request)
      → after_header api (receive_loop api f) (ok p, live s (of_size (length p)))
        ≡ after_payload (receive_loop api f []) (
            finished (
              process_response api
                (record { bytes = p; idx = 0 })
                (record s { receiving = false; rbuffer = some (record { bytes = p; idx = 0 }) })))
  payload_frame f p s =
      let b = of_size (length p) in
      let size : length b.bytes ≡ length p = unfold of_size in length-zeros (length p) in
      let start : b.idx ≡ 0 = unfold of_size in refl in
      let within : ltb (length p) (write p b).idx ≡ false = ground (arith, idx_write p b) in
      let full : nat_beq (write p b).idx (length p) ≡ true = ground (arith, idx_write p b) in
      rw
        (
          payload_at_once api f p s b (length p) (length p) size (omega arith),
          (take_all p).0,
          (take_all p).1,
        )
        (unfold check_payload in rw (within, full, write-of_size p) refl)

  after_payload_same :
      (r : Result (ℤ × Response) × KafkaProtocol Request)
      (f g : KafkaProtocol Request → Answers Request Response)
      → ((s : KafkaProtocol Request) → f s ≡ g s)
      → after_payload f (finished r) ≡ after_payload g (finished r)
  after_payload_same (err e, s) f g h = refl
  after_payload_same (ok response, s) f g h = rw (h (reset_buffer s)) refl

  pub receive_size :
      (size p : List ℕ) (s : KafkaProtocol Request) (h : KafkaBytes)
      → pack 3 (pos (length p)) ≡ ok size
      → length h.bytes ≡ 4
      → h.idx ≡ 0
      → receive_bytes api (size ++ p) (idle s h)
        ≡ after_payload
            (λ t. (ok [], t))
            (finished (process_response api (record { bytes = p; idx = 0 }) (received size p s)))
  unfolding receive_bytes
  receive_size [] p s h e l i = absurd (omega (arith, (unpack-pack 3 (pos (length p)) [] e).0))
  receive_size (x ∷ xs) p s h e l i =
      let (four, value) = unpack-pack 3 (pos (length p)) (x ∷ xs) e in
      let (t, d) = take_four (x ∷ xs) p four in
      let f = length (xs ++ p) in
      rw
        (
          loop_header api (suc f) x (xs ++ p) s h 4 (omega (arith, four, length-append xs p)),
          t,
          d,
          write_four (x ∷ xs) h four l i,
          check_header_full (record { bytes = x ∷ xs; idx = 4 }) h p s refl,
        )
        (rw (size_of-four (x ∷ xs) four, rewound-four (x ∷ xs) four, value)
          (unfold create in
            payload_frame (suc f) p (idle s (record { bytes = x ∷ xs; idx = 4 }))
            ∙ after_payload_same _ _ _ (loop_nil api (suc f))))

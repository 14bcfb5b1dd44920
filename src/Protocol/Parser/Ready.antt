-- ===== src/Protocol/Parser/Ready.antt =====
-- A byte that raises nothing leaves room for the next.
use kafka_python.Common.{
  ℕ, zero, suc, ◌+◌, ◌<◌, ◌≡◌, refl, ◌∙◌, List, [], ◌∷◌, length, arith, some, true, false, nat_beq,
  ltb, Bool-cases, inl, inr,
}
use kafka_python.Common.Int.{ℤ, pos, negsuc}
use kafka_python.Exec.{Result, ok, err}
use kafka_python.Protocol.Frame.{KafkaBytes, write, seek, read, create, of_size}
use kafka_python.Protocol.Frame.Writes.{length-write, length-zeros, idx_write}
use kafka_python.Protocol.Parser.{Api, KafkaProtocol}
use kafka_python.Protocol.Parser.Receiving.{
  Answers, reset_buffer, check_payload, receive_loop, process_response, after_payload, after_header,
  finished, opened, buffer_for, process_next, matched, decoded, accepts,
}
use kafka_python.Protocol.Parser.Payload.{IsReady, live, loop_payload, payload_byte, check_open}
use kafka_python.Protocol.Parser.Headers.{
  idle, loop_header, header_byte, check_header_full, size_of, rewound, payload_at_once,
  write_nothing,
}

module _ {Request Response : Type 0} (api : Api Request Response) where
  header-matched :
      (id : ℤ) (request : Request) (r : Result ℤ × KafkaBytes) (s : KafkaProtocol Request)
      → (matched api id request r s).1.header ≡ s.header
  header-matched id request (err e, b) s = refl
  header-matched id request (ok received, b) s =
      elim (Bool-cases (accepts api id received request s)) [
        | inl c ↦ rw c (case (api.decode request b))
        | inr c ↦ rw c refl
      ]
    where
      case : (d : Result Response × KafkaBytes) → (decoded id d s).1.header ≡ s.header
      case (ok response, b') = refl
      case (err e, b') = refl

  pub header-process_response :
      (b : KafkaBytes) (s : KafkaProtocol Request) → (process_response api b s).1.header ≡ s.header
  unfolding process_response
  header-process_response b s = case s.in_flight_requests
    where
      case : (requests : List (ℤ × Request)) → (process_next api requests b s).1.header ≡ s.header
      case [] = refl
      case ((id, request) ∷ requests) =
          header-matched id request (api.parse_header request b)
            (record s { in_flight_requests = requests })

  -- A call that returns leaves a state between two bytes.
  abbrev pub Settles : Answers Request Response → Type 0
  Settles (err e, s) = Unit
  Settles (ok responses, s) = IsReady s

  Settles-after :
      (r : Result (ℤ × Response) × KafkaProtocol Request)
      → length r.1.header.bytes ≡ 4
      → Settles (after_payload (receive_loop api 0 []) (finished r))
  Settles-after (err e, s) h = tt
  Settles-after (ok response, s) h = unfold receive_loop reset_buffer seek in (h, omega arith)

  Settles-full :
      (total : ℕ) (b : KafkaBytes) (s : KafkaProtocol Request)
      → length s.header.bytes ≡ 4
      → b.idx ≡ total
      → Settles (after_payload (receive_loop api 0 []) (check_payload api total b s))
  unfolding check_payload
  Settles-full total b s h e =
      let within : ltb total b.idx ≡ false = ground arith in
      let full : nat_beq b.idx total ≡ true = ground arith in
      let t = record s { receiving = false; rbuffer = some (seek 0 b) } in
      rw (within, full)
        (Settles-after (process_response api (seek 0 b) t)
          (rw (header-process_response (seek 0 b) t) h))

  pub payload-Settles :
      (x : ℕ) (s : KafkaProtocol Request) (b : KafkaBytes)
      → IsReady (live s b)
      → Settles (receive_loop api 1 (x ∷ []) (live s b))
  payload-Settles x s b h = elim (Bool-cases (nat_beq (b.idx + 1) (length b.bytes))) [
    | inl c ↦ rw (loop_payload api 0 x [] s b 1 (length b.bytes) refl (omega (arith, h.1))) (
        Settles-full (length b.bytes) (write (x ∷ []) b) (live s b) h.0
          (idx_write (x ∷ []) b ∙ ground arith))
    | inr c ↦
        let l : b.idx + 1 < length b.bytes = ground arith in
        rw (payload_byte api 0 x s b l)
          (h.0, rw (length-write (x ∷ []) b (omega arith), idx_write (x ∷ []) b) l)
  ]

  opened-Settles :
      (size : Result ℤ) (s : KafkaProtocol Request)
      → length s.header.bytes ≡ 4
      → Settles (after_header api (receive_loop api 0) (opened (buffer_for size) [] s))
  unfolding create of_size
  opened-Settles (err e) s h = tt
  opened-Settles (ok (negsuc n)) s h = tt
  opened-Settles (ok (pos zero)) s h =
      let b = of_size 0 in
      rw (payload_at_once api 0 [] s b 0 0 (length-zeros 0) (omega arith))
        (Settles-full 0 (write [] b) (live s b) h (idx_write [] b))
  opened-Settles (ok (pos (suc m))) s h =
      let b = of_size (suc m) in
      rw
        (
          payload_at_once api 0 [] s b 0 (suc m) (length-zeros (suc m)) (omega arith),
          write_nothing api (suc m),
          check_open api (suc m) b b s (omega arith),
        )
        (h, omega (arith, length-zeros (suc m)))

  pub header-Settles :
      (x : ℕ) (s : KafkaProtocol Request) (h : KafkaBytes)
      → length h.bytes ≡ 4
      → h.idx < 4
      → Settles (receive_loop api 1 (x ∷ []) (idle s h))
  header-Settles x s h e l = elim (Bool-cases (nat_beq (h.idx + 1) 4)) [
    | inl c ↦
        let w = write (x ∷ []) h in
        let full = check_header_full w h [] s (idx_write (x ∷ []) h ∙ ground arith) in
        rw (loop_header api 0 x [] s h 1 (omega arith), full)
          (opened-Settles (size_of w) (idle s (rewound w))
            (unfold read seek in (length-write (x ∷ []) h (omega arith) ∙ e)))
    | inr c ↦
        let more : h.idx + 1 < 4 = ground arith in
        rw (header_byte api 0 x s h more)
          (length-write (x ∷ []) h (omega arith) ∙ e, rw (idx_write (x ∷ []) h) more)
  ]

-- ===== src/Protocol/Parser/Payload.antt =====
-- The bytes of a payload, received one after the other or at once.
use mathlib.Core.List.{append_assoc}
use kafka_python.Common.{
  ℕ, suc, ◌+◌, ◌-◌, ◌<◌, ◌≡◌, refl, sym, ◌∙◌, ap, List, [], ◌∷◌, ◌++◌, length, take, drop, arith,
  Option, none, some, Bool, true, false, min, nat_beq, ltb,
}
use kafka_python.Common.Int.{ℤ}
use kafka_python.Exec.{Result, ok, err}
use kafka_python.Protocol.Frame.{KafkaBytes, write}
use kafka_python.Protocol.Frame.Writes.{length-write, write-write, idx_write}
use kafka_python.Protocol.Parser.{Api, KafkaProtocol}
use kafka_python.Protocol.Parser.Receiving.{
  Answers, incomplete, reset_buffer, read_header, check_payload, receive_loop, after_payload,
  finished, responded,
}

-- Between two bytes: the header or the payload has room for the next.
abbrev pub HasRoom : Bool → Option KafkaBytes → KafkaBytes → Type 0
HasRoom false rbuffer header = header.idx < 4
HasRoom true none header = ⊥
HasRoom true (some b) header = b.idx < length b.bytes

module _ {Request : Type 0} where
  -- Receiving a payload into `b`.
  abbrev pub live : KafkaProtocol Request → KafkaBytes → KafkaProtocol Request
  live s b = record s { receiving = true; rbuffer = some b }

  abbrev pub IsReady : KafkaProtocol Request → Type 0
  IsReady s = (length s.header.bytes ≡ 4) × HasRoom s.receiving s.rbuffer s.header

module _ {Request Response : Type 0} where
  abbrev pub behind : List (ℤ × Response) → Answers Request Response → Answers Request Response
  behind responses (ok later, s) = (ok (responses ++ later), s)
  behind responses (err e, s) = (err e, s)

  -- One call after another: the responses of the second come behind those of the first.
  abbrev pub and_then :
      Answers Request Response
      → (KafkaProtocol Request → Answers Request Response)
      → Answers Request Response
  and_then (err e, s) more = (err e, s)
  and_then (ok responses, s) more = behind responses (more s)

  pub behind-nil : (r : Answers Request Response) → behind [] r ≡ r
  behind-nil (ok later, s) = refl
  behind-nil (err e, s) = refl

  behind-append :
      (xs ys : List (ℤ × Response)) (r : Answers Request Response)
      → behind xs (behind ys r) ≡ behind (xs ++ ys) r
  behind-append xs ys (err e, s) = refl
  behind-append xs ys (ok later, s) = ap (λ l. (ok l, s)) (sym (append_assoc xs ys later))

  pub and_then_assoc :
      (r : Answers Request Response) (f g : KafkaProtocol Request → Answers Request Response)
      → and_then (and_then r f) g ≡ and_then r (λ s. and_then (f s) g)
  and_then_assoc (err e, s) f g = refl
  and_then_assoc (ok xs, s) f g = case (f s)
    where
      case : (r : Answers Request Response) → and_then (behind xs r) g ≡ behind xs (and_then r g)
      case (err e, t) = refl
      case (ok ys, t) = sym (behind-append xs ys (g t))

  -- What comes after a complete payload, or not.
  after_finished :
      (r : Result (ℤ × Response) × KafkaProtocol Request)
      (more : KafkaProtocol Request → Answers Request Response)
      (last : KafkaProtocol Request → Answers Request Response)
      → ((s : KafkaProtocol Request) → last s ≡ (ok [], s))
      → after_payload more (finished r) ≡ and_then (after_payload last (finished r)) more
  after_finished (err e, s) more last h = refl
  after_finished (ok response, s) more last h =
      rw (h (reset_buffer s)) (case (more (reset_buffer s)))
    where
      case : (r : Answers Request Response) → responded response r ≡ behind (response ∷ []) r
      case (err e, t) = refl
      case (ok ys, t) = refl

module _ {Request Response : Type 0} (api : Api Request Response) where
  pub loop_payload :
      (f x : ℕ) (rest : List ℕ) (s : KafkaProtocol Request) (b : KafkaBytes) (n total : ℕ)
      → length b.bytes ≡ total
      → min (total - b.idx) (suc (length rest)) ≡ n
      → receive_loop api (suc f) (x ∷ rest) (live s b)
        ≡ after_payload
            (receive_loop api f (drop n (x ∷ rest)))
            (check_payload api total (write (take n (x ∷ rest)) b) (live s b))
  unfolding receive_loop read_header
  loop_payload f x rest s b n total ht hn = rw (ht, hn) refl

  pub check_open :
      (total : ℕ) (b c : KafkaBytes) (s : KafkaProtocol Request)
      → b.idx < total
      → check_payload api total b (live s c) ≡ (ok incomplete, live s b)
  unfolding check_payload
  check_open total b c s h =
      let within : ltb total b.idx ≡ false = ground arith in
      let open_yet : nat_beq b.idx total ≡ false = ground arith in rw (within, open_yet) refl

  check-live :
      (total : ℕ) (b c d : KafkaBytes) (s : KafkaProtocol Request)
      → check_payload api total b (live s c) ≡ check_payload api total b (live s d)
  unfolding check_payload
  check-live total b c d s = refl

  -- The next byte of a payload that is not the last.
  pub payload_byte :
      (f x : ℕ) (s : KafkaProtocol Request) (b : KafkaBytes)
      → b.idx + 1 < length b.bytes
      → receive_loop api (suc f) (x ∷ []) (live s b) ≡ (ok [], live s (write (x ∷ []) b))
  payload_byte f x s b h =
      rw
        (
          loop_payload f x [] s b 1 (length b.bytes) refl (omega arith),
          check_open (length b.bytes) (write (x ∷ []) b) b s (rw (idx_write (x ∷ []) b) h),
        )
        refl

  pub payload_more :
      (f x : ℕ) (rest : List ℕ) (s : KafkaProtocol Request) (b : KafkaBytes)
      → b.idx + 1 < length b.bytes
      → receive_loop api (suc f) (x ∷ rest) (live s b)
        ≡ receive_loop api (suc f) rest (live s (write (x ∷ []) b))
  payload_more f x [] s b h = payload_byte f x s b h ∙ unfold receive_loop in refl
  payload_more f x (y ∷ ys) s b h =
      let n = min (length b.bytes - (b.idx + 1)) (suc (length ys)) in
      let size : length (write (x ∷ []) b).bytes ≡ length b.bytes =
        length-write (x ∷ []) b (omega arith) in
      let here = loop_payload f x (y ∷ ys) s b (suc n) (length b.bytes) refl (omega arith) in
      let there =
        loop_payload f y ys s (write (x ∷ []) b) n (length b.bytes) size
          (rw (idx_write (x ∷ []) b) refl) in
      let again = write-write x (take n (y ∷ ys)) b (omega arith) in
      here
      ∙ sym (
          there
          ∙ rw
              (
                again,
                check-live (length b.bytes) (write (x ∷ take n (y ∷ ys)) b) (write (x ∷ []) b) b s,
              )
              refl)

  pub closed :
      (f : ℕ) (rest : List ℕ) (s : KafkaProtocol Request) (total : ℕ) (b : KafkaBytes)
      → b.idx ≡ total
      → after_payload (receive_loop api f rest) (check_payload api total b s)
        ≡ and_then
            (after_payload (receive_loop api 0 []) (check_payload api total b s))
            (receive_loop api f rest)
  unfolding check_payload
  closed f rest s total b h =
      let within : ltb total b.idx ≡ false = ground arith in
      let full : nat_beq b.idx total ≡ true = ground arith in
      rw (within, full)
        (after_finished _ (receive_loop api f rest) (receive_loop api 0 [])
          (λ t. unfold receive_loop in refl))

  -- The last byte of a payload.
  pub payload_last :
      (f x : ℕ) (rest : List ℕ) (s : KafkaProtocol Request) (b : KafkaBytes)
      → b.idx + 1 ≡ length b.bytes
      → receive_loop api (suc f) (x ∷ rest) (live s b)
        ≡ and_then (receive_loop api 1 (x ∷ []) (live s b)) (receive_loop api f rest)
  payload_last f x rest s b h =
      rw
        (
          loop_payload f x rest s b 1 (length b.bytes) refl (omega arith),
          loop_payload 0 x [] s b 1 (length b.bytes) refl (omega arith),
        )
        (closed f rest (live s b) (length b.bytes) (write (x ∷ []) b) (idx_write (x ∷ []) b ∙ h))

-- ===== src/Protocol/Parser/Chunks.antt =====
-- The bytes received may be cut anywhere.
use kafka_python.Common.{
  ℕ, zero, suc, ◌+◌, ◌≤◌, ◌<◌, ◌≡◌, refl, sym, ◌∙◌, List, [], ◌∷◌, ◌++◌, length, arith, Option,
  none, some, Bool, true, false, nat_beq, Bool-cases, inl, inr, subst,
}
use kafka_python.Exec.{ok, err}
use kafka_python.Protocol.Frame.{KafkaBytes}
use kafka_python.Protocol.Parser.{Api, KafkaProtocol}
use kafka_python.Protocol.Parser.Receiving.{Answers, receive_loop, receive_bytes}
use kafka_python.Protocol.Parser.Payload.{
  IsReady, live, and_then, and_then_assoc, behind, behind-nil, payload_more, payload_byte,
  payload_last,
}
use kafka_python.Protocol.Parser.Headers.{
  idle, header_more, header_byte, header_last, loop_nil, IsStep,
}
use kafka_python.Protocol.Parser.Ready.{Settles, payload-Settles, header-Settles}

module _ {Request Response : Type 0} (api : Api Request Response) where
  -- What the next byte does, for a state between two bytes.
  abbrev IsByte : ℕ → ℕ → List ℕ → KafkaProtocol Request → Type 0
  IsByte f x rest s = IsStep api f x rest s × Settles api (receive_loop api 1 (x ∷ []) s)

  payload-IsByte :
      (f x : ℕ) (rest : List ℕ) (s : KafkaProtocol Request) (b : KafkaBytes)
      → IsReady (live s b)
      → IsByte f x rest (live s b)
  payload-IsByte f x rest s b h = (
    elim (Bool-cases (nat_beq (b.idx + 1) (length b.bytes))) [
      | inl c ↦ inl (payload_last api f x rest s b (ground arith))
      | inr c ↦
          let l : b.idx + 1 < length b.bytes = ground (arith, h.1) in
          inr
            (rw (payload_byte api 0 x s b l, payload_more api f x rest s b l) (sym (behind-nil _)))
    ],
    payload-Settles api x s b h,
  )

  header-IsByte :
      (f x : ℕ) (rest : List ℕ) (s : KafkaProtocol Request) (h : KafkaBytes)
      → length h.bytes ≡ 4
      → h.idx < 4
      → IsByte f x rest (idle s h)
  header-IsByte f x rest s h e l = (
    elim (Bool-cases (nat_beq (h.idx + 1) 4)) [
      | inl c ↦ header_last api f x rest s h (ground arith)
      | inr c ↦
          let more : h.idx + 1 < 4 = ground arith in
          inr (
            rw (header_byte api 0 x s h more, header_more api f x rest s h e more)
              (sym (behind-nil _)))
    ],
    header-Settles api x s h e l,
  )

  byte_lem : (f x : ℕ) (rest : List ℕ) (s : KafkaProtocol Request) → IsReady s → IsByte f x rest s
  byte_lem f x rest s h = case s.receiving s.rbuffer refl refl h
    where
      case :
          (receiving : Bool) (rbuffer : Option KafkaBytes)
          → s.receiving ≡ receiving
          → s.rbuffer ≡ rbuffer
          → IsReady (record s { receiving = receiving; rbuffer = rbuffer })
          → IsByte f x rest s
      case false rbuffer er eb k =
          let same : s ≡ idle s s.header = rw (← er) refl in
          subst (IsByte f x rest) (sym same) (header-IsByte f x rest s s.header k.0 k.1)
      case true none er eb k = absurd k.1
      case true (some b) er eb k =
          let same : s ≡ live s b = rw (← er, ← eb) refl in
          subst (IsByte f x rest) (sym same) (payload-IsByte f x rest s b k)

  -- Byte after byte.
  feed : List ℕ → KafkaProtocol Request → Answers Request Response
  feed [] s = (ok [], s)
  feed (x ∷ rest) s = and_then (receive_loop api 1 (x ∷ []) s) (feed rest)

  and_then_congr :
      (r : Answers Request Response) (f g : KafkaProtocol Request → Answers Request Response)
      → Settles api r
      → ((s : KafkaProtocol Request) → IsReady s → f s ≡ g s)
      → and_then r f ≡ and_then r g
  and_then_congr (err e, s) f g h k = refl
  and_then_congr (ok responses, s) f g h k = rw (k s h) refl

  Settles-and_then :
      (r : Answers Request Response) (f : KafkaProtocol Request → Answers Request Response)
      → Settles api r
      → ((s : KafkaProtocol Request) → IsReady s → Settles api (f s))
      → Settles api (and_then r f)
  Settles-and_then (err e, s) f h k = tt
  Settles-and_then (ok responses, s) f h k = case (f s) (k s h)
    where
      case : (r : Answers Request Response) → Settles api r → Settles api (behind responses r)
      case (err e, t) c = tt
      case (ok later, t) c = c

  and_then_same :
      (r : Answers Request Response) (f g : KafkaProtocol Request → Answers Request Response)
      → ((s : KafkaProtocol Request) → f s ≡ g s)
      → and_then r f ≡ and_then r g
  and_then_same (err e, s) f g k = refl
  and_then_same (ok responses, s) f g k = rw (k s) refl

  -- Fuel for each byte is enough.
  loop-feed :
      (rest : List ℕ) (f : ℕ) (s : KafkaProtocol Request)
      → length rest ≤ f
      → IsReady s
      → receive_loop api f rest s ≡ feed rest s
  unfolding feed
  loop-feed [] f s l h = loop_nil api f s
  loop-feed (x ∷ rest) zero s l h = absurd (omega arith)
  loop-feed (x ∷ rest) (suc f) s l h =
      let (step, settles) = byte_lem f x rest s h in
      elim step [
        | inl e ↦ e ∙ and_then_congr _ _ _ settles (λ t k. loop-feed rest f t (omega arith) k)
        | inr e ↦ e ∙ and_then_congr _ _ _ settles (λ t k. loop-feed rest (suc f) t (omega arith) k)
      ]

  feed-append :
      (a b : List ℕ) (s : KafkaProtocol Request) → feed (a ++ b) s ≡ and_then (feed a s) (feed b)
  unfolding feed
  feed-append [] b s = sym (behind-nil _)
  feed-append (x ∷ a) b s =
      rw (and_then_assoc (receive_loop api 1 (x ∷ []) s) (feed a) (feed b))
        (and_then_same (receive_loop api 1 (x ∷ []) s) _ _ (λ t. feed-append a b t))

  feed-Settles : (a : List ℕ) (s : KafkaProtocol Request) → IsReady s → Settles api (feed a s)
  unfolding feed
  feed-Settles [] s h = h
  feed-Settles (x ∷ a) s h =
      Settles-and_then (receive_loop api 1 (x ∷ []) s) (feed a) (byte_lem 0 x [] s h).1
        (λ t k. feed-Settles a t k)

  -- However the bytes received are cut into chunks, the responses and the state are the same: to
  -- receive two chunks joined is to receive the one and then the other, unless the first raises.
  -- This holds for a state between two bytes, which the call leaves again if it returns.
  pub receive_bytes-append :
      (a b : List ℕ) (s : KafkaProtocol Request)
      → IsReady s
      → (receive_bytes api (a ++ b) s ≡ and_then (receive_bytes api a s) (receive_bytes api b))
        × Settles api (receive_bytes api a s)
  unfolding receive_bytes
  receive_bytes-append a b s h =
      let whole = loop-feed (a ++ b) (suc (length (a ++ b))) s (omega arith) h in
      let first = loop-feed a (suc (length a)) s (omega arith) h in
      let settles = feed-Settles a s h in
      (
        rw (whole, first)
            (feed-append a b s
              ∙ and_then_congr (feed a s) _ _ settles
                  (λ t k. sym (loop-feed b (suc (length b)) t (omega arith) k))),
        rw first settles,
      )

-- ===== src/Protocol/Parser/Answers.antt =====
-- The frames that come in answer the requests in flight, in their order.
use kafka_python.Common.{
  ℕ, ◌≡◌, refl, sym, ◌∙◌, List, [], ◌∷◌, ◌++◌, length, arith, Bool, true, false, map, All, subst,
  ◌||◌,
}
use kafka_python.Common.Int.{ℤ, pos, int_beq_iff}
use kafka_python.Exec.{Result, ok, err}
use kafka_python.Protocol.Frame.{KafkaBytes, seek}
use kafka_python.Protocol.Ints.{pack}
use kafka_python.Protocol.Ints.RoundTrip.{unpack-pack}
use kafka_python.Protocol.Parser.{Api, KafkaProtocol, framed, join, frame_of}
use kafka_python.Protocol.Parser.Receiving.{
  Answers, receive_loop, receive_bytes, process_response, finished, after_payload, accepts,
  reset_buffer,
}
use kafka_python.Protocol.Parser.Payload.{IsReady, and_then, behind}
use kafka_python.Protocol.Parser.Headers.{idle}
use kafka_python.Protocol.Parser.Frames.{receive_size, received}
use kafka_python.Protocol.Parser.Chunks.{receive_bytes-append}

-- A request in flight, the payload that answers it, the frame of the payload, and the response.
pub record Exchange (Request Response : Type 0) : Type 0 where
  pub id : ℤ
  pub request : Request
  pub payload : List ℕ
  pub frame : List ℕ
  pub response : Response

framed-pack :
    (p : List ℕ) (r : Result (List ℕ)) → pack 3 (pos (length p)) ≡ r → framed p ≡ frame_of r p
unfolding framed
framed-pack p r q = rw q refl

module _ {Request : Type 0} where
  -- Between two frames, with these requests in flight.
  abbrev pub IsIdle : List (ℤ × Request) → KafkaProtocol Request → Type 0
  IsIdle requests s =
      (s.receiving ≡ false)
      × (length s.header.bytes ≡ 4)
      × (s.header.idx ≡ 0)
      × (s.in_flight_requests ≡ requests)

module _ {Request Response : Type 0} where
  abbrev pub in_flight : List (Exchange Request Response) → List (ℤ × Request)
  in_flight = map (λ e. (e.id, e.request))

  abbrev pub responses_of : List (Exchange Request Response) → List (ℤ × Response)
  responses_of = map (λ e. (e.id, e.response))

  -- The call returns these responses and is between two frames again.
  abbrev pub Returns : List (ℤ × Response) → List (ℤ × Request) → Answers Request Response → Type 0
  Returns responses requests r = (r.0 ≡ ok responses) × IsIdle requests r.1

  Returns-behind :
      (xs ys : List (ℤ × Response)) (requests : List (ℤ × Request)) (r : Answers Request Response)
      → Returns ys requests r
      → Returns (xs ++ ys) requests (behind xs r)
  Returns-behind xs ys requests (err e, s) h = let no = h.0 in absurd cc
  Returns-behind xs ys requests (ok later, s) h =
      let same : later ≡ ys = let q = h.0 in cc in (rw same refl, h.1)

module _ {Request Response : Type 0} (api : Api Request Response) where
  -- The header of the payload has the id of the request, and the rest decodes to the response.
  abbrev pub IsAnswer : Exchange Request Response → Type 0
  IsAnswer e =
      (framed e.payload ≡ ok e.frame)
      × ((b : KafkaBytes) × (api.parse_header e.request (record { bytes = e.payload; idx = 0 })
            ≡ (ok e.id, b))
          × ((c : KafkaBytes) × (api.decode e.request b ≡ (ok e.response, c))))

  or_true : (b : Bool) → (b || true) ≡ true
  or_true true = refl
  or_true false = refl

  accepts_same :
      (id : ℤ) (request : Request) (s : KafkaProtocol Request) → accepts api id id request s ≡ true
  unfolding accepts
  accepts_same id request s = rw ((int_beq_iff id id).1 refl) (or_true _)

  process_answer :
      (e : Exchange Request Response) (requests : List (ℤ × Request)) (s : KafkaProtocol Request)
      → IsAnswer e
      → length s.header.bytes ≡ 4
      → s.in_flight_requests ≡ (e.id, e.request) ∷ requests
      → Returns ((e.id, e.response) ∷ []) requests (
          after_payload
            (λ t. (ok [], t))
            (finished (process_response api (record { bytes = e.payload; idx = 0 }) s)))
  unfolding process_response reset_buffer seek
  process_answer e requests s (f, (b, hp, (c, hd))) hl hi =
      rw (hi, hp, accepts_same e.id e.request, hd) (refl, (refl, hl, refl, refl))

  receive_answer :
      (e : Exchange Request Response) (requests : List (ℤ × Request)) (s : KafkaProtocol Request)
      → IsAnswer e
      → IsIdle ((e.id, e.request) ∷ requests) s
      → Returns ((e.id, e.response) ∷ []) requests (receive_bytes api e.frame s)
  receive_answer e requests s a h = case (pack 3 (pos (length e.payload))) refl
    where
      case :
          (size : Result (List ℕ))
          → pack 3 (pos (length e.payload)) ≡ size
          → Returns ((e.id, e.response) ∷ []) requests (receive_bytes api e.frame s)
      case (err x) q =
          let none : err x ≡ ok e.frame = sym (framed-pack e.payload _ q) ∙ a.0 in absurd cc
      case (ok size) q =
          let some_frame : ok (size ++ e.payload) ≡ ok e.frame =
            sym (framed-pack e.payload _ q) ∙ a.0 in
          let bytes : e.frame ≡ size ++ e.payload = cc in
          let same : s ≡ idle s s.header = rw (← h.0) refl in
          let four = (unpack-pack 3 (pos (length e.payload)) size q).0 in
          rw bytes (
            subst
              (λ t.
                Returns ((e.id, e.response) ∷ []) requests
                  (receive_bytes api (size ++ e.payload) t))
              (sym same)
              (rw (receive_size api size e.payload s s.header q h.1 h.2)
                (process_answer e requests (received api size e.payload s) a four h.3)))

  Returns-and_then :
      (xs ys : List (ℤ × Response)) (before after : List (ℤ × Request))
      (r : Answers Request Response) (f : KafkaProtocol Request → Answers Request Response)
      → Returns xs before r
      → ((s : KafkaProtocol Request) → IsIdle before s → Returns ys after (f s))
      → Returns (xs ++ ys) after (and_then r f)
  Returns-and_then xs ys before after (err e, s) f h k = let no = h.0 in absurd cc
  Returns-and_then xs ys before after (ok found, s) f h k =
      let same : found ≡ xs = let q = h.0 in cc in
      rw same (Returns-behind xs ys after (f s) (k s h.1))

  IsIdle-IsReady :
      (requests : List (ℤ × Request)) (s : KafkaProtocol Request) → IsIdle requests s → IsReady s
  IsIdle-IsReady requests s h = (h.1, rw h.0 (omega (arith, h.2)))

  -- To parse what was sent: a parser that is between two frames, with the requests of these exchanges
  -- first in flight, is given in one chunk the frames that answer them, in their order. Each frame
  -- is the one of its payload, from which the class of its request reads the id and the response.
  -- It returns their responses, in that order and each with the id of its request; no request is
  -- left in flight but the later ones.
  pub receive_bytes_lem :
      (exchanges : List (Exchange Request Response)) (requests : List (ℤ × Request))
      (s : KafkaProtocol Request)
      → All IsAnswer exchanges
      → IsIdle (in_flight exchanges ++ requests) s
      → Returns
          (responses_of exchanges)
          requests
          (receive_bytes api (join (map (λ e. e.frame) exchanges)) s)
  unfolding join
  receive_bytes_lem [] requests s a h = unfold receive_bytes receive_loop in (refl, h)
  receive_bytes_lem (e ∷ exchanges) requests s a h =
      let rest = join (map (λ x. x.frame) exchanges) in
      let cut = (receive_bytes-append api e.frame rest s (IsIdle-IsReady _ s h)).0 in
      let first = receive_answer e (in_flight exchanges ++ requests) s a.0 h in
      rw cut (
        Returns-and_then ((e.id, e.response) ∷ []) (responses_of exchanges)
          (in_flight exchanges ++ requests) requests (receive_bytes api e.frame s) _ first
          (λ t k. receive_bytes_lem exchanges requests t a.1 k))

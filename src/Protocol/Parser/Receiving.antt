-- ===== src/Protocol/Parser/Receiving.antt =====
-- kafka/protocol/parser.py: the bytes received are cut into responses.
use kafka_python.Common.{
  ℕ, zero, suc, ◌-◌, Bool, true, false, ◌&&◌, ◌||◌, not, List, [], ◌∷◌, length, take, drop, min,
  Option, none, some, ltb, nat_beq, if◌then◌else◌,
}
use kafka_python.Common.Int.{ℤ, pos, int_beq}
use kafka_python.Errors.{
  Exc, kafka_error, correlation_id_error, kafka_protocol_error, type_error, value_error,
}
use kafka_python.Exec.{Exec, Result, ok, err}
use kafka_python.Protocol.Frame.{KafkaBytes, create, read, write, seek}
use kafka_python.Protocol.Ints.{unpack}
use kafka_python.Protocol.Parser.{Api, KafkaProtocol}

-- `(0, 8, 2)`
abbrev is_082 : List ℕ → Bool
is_082 (a ∷ b ∷ c ∷ []) = nat_beq a 0 && nat_beq b 8 && nat_beq c 2
is_082 _ = false

abbrev pub maybe_082 : Option (List ℕ) → Bool
maybe_082 none = true
maybe_082 (some version) = is_082 version

-- What an iteration of the loop in `receive_bytes` comes to once the payload was read on: it breaks,
-- or a response is complete.
pub data Progress (Response : Type 0) : Type 0 where
  incomplete : Progress Response
  complete : ℤ × Response → Progress Response

abbrev pub buffer_for : Result ℤ → Result KafkaBytes
buffer_for (ok nbytes) = create nbytes
buffer_for (err e) = err e

-- How many bytes the payload took.
abbrev pub taken : Option KafkaBytes → List ℕ → ℕ
taken none rest = 0
taken (some b) rest = min (length b.bytes - b.idx) (length rest)

abbrev pub Answers : Type 0 → Type 0 → Type 0
Answers Request Response = Result (List (ℤ × Response)) × KafkaProtocol Request

-- A ValueError of the decoder, which is logged with the whole buffer, becomes another; the other
-- exceptions pass.
abbrev pub wrapped : Exc → Exc
wrapped value_error = kafka_protocol_error
wrapped e = e

abbrev pub looked_at : Exc → KafkaBytes → KafkaBytes
looked_at value_error b = (read none (seek 0 b)).1
looked_at e b = b

module _ {Request : Type 0} where
  unfoldable pub reset_buffer : KafkaProtocol Request → KafkaProtocol Request
  reset_buffer s = record s { receiving = false; header = seek 0 s.header; rbuffer = none }

  abbrev pub opened : Result KafkaBytes → List ℕ → Exec (KafkaProtocol Request) (List ℕ)
  opened (ok b) rest s = (ok rest, record s { rbuffer = some b; receiving = true })
  opened (err e) rest s = (err e, s)

  -- The header was written to, and `rest` are the bytes from `i` on.
  unfoldable pub check_header : KafkaBytes → List ℕ → Exec (KafkaProtocol Request) (List ℕ)
  check_header h rest s =
      if nat_beq h.idx 4
      then (let (size, h') = read (some 4) (seek 0 h) in
          opened (buffer_for (unpack 3 size)) rest (record s { header = h' }))
      else if ltb 4 h.idx
      then (err kafka_error, record s { header = h })
      else (ok rest, record s { header = h })

  -- `if not self._receiving`, which returns the bytes left
  unfoldable pub read_header : List ℕ → Exec (KafkaProtocol Request) (List ℕ)
  read_header rest s =
      if s.receiving
      then (ok rest, s)
      else (let bytes_to_read = min (4 - s.header.idx) (length rest) in
          check_header (write (take bytes_to_read rest) s.header) (drop bytes_to_read rest) s)

module _ {Request Response : Type 0} where
  abbrev pub decoded :
      ℤ → Result Response × KafkaBytes → Exec (KafkaProtocol Request) (ℤ × Response)
  decoded id (ok response, b) s = (ok (id, response), record s { rbuffer = some b })
  decoded id (err e, b) s = (err (wrapped e), record s { rbuffer = some (looked_at e b) })

  abbrev pub finished :
      Result (ℤ × Response) × KafkaProtocol Request
      → Result (Progress Response) × KafkaProtocol Request
  finished (ok response, s) = (ok (complete response), reset_buffer s)
  finished (err e, s) = (err e, s)

  -- `responses.append(resp)`, before those of the iterations to come
  abbrev pub responded : ℤ × Response → Answers Request Response → Answers Request Response
  responded response (ok responses, s) = (ok (response ∷ responses), s)
  responded response (err e, s) = (err e, s)

  abbrev pub after_payload :
      (KafkaProtocol Request → Answers Request Response)
      → Result (Progress Response) × KafkaProtocol Request
      → Answers Request Response
  after_payload more (err e, s) = (err e, s)
  after_payload more (ok incomplete, s) = (ok [], s)
  after_payload more (ok (complete response), s) = responded response (more s)

module _ {Request Response : Type 0} (api : Api Request Response) where
  -- The 0.8.2 quirk, or the same correlation id.
  unfoldable pub accepts : ℤ → ℤ → Request → KafkaProtocol Request → Bool
  accepts id received request s =
      (int_beq received (pos 0)
        && not (int_beq id (pos 0))
        && api.is_find_coordinator_v0 request
        && maybe_082 s.api_version)
      || int_beq id received

  abbrev pub matched :
      ℤ → Request → Result ℤ × KafkaBytes → Exec (KafkaProtocol Request) (ℤ × Response)
  matched id request (err e, b) s = (err e, record s { rbuffer = some b })
  matched id request (ok received, b) s =
      if accepts id received request s
      then decoded id (api.decode request b) s
      else (err correlation_id_error, record s { rbuffer = some b })

  abbrev pub process_next :
      List (ℤ × Request) → KafkaBytes → Exec (KafkaProtocol Request) (ℤ × Response)
  process_next [] b s = (err correlation_id_error, s)
  process_next ((id, request) ∷ requests) b s =
      matched id request (api.parse_header request b) (record s { in_flight_requests = requests })

  unfoldable pub process_response : KafkaBytes → Exec (KafkaProtocol Request) (ℤ × Response)
  process_response b s = process_next s.in_flight_requests b s

  -- The payload was written to; it had `total_bytes`.
  unfoldable pub check_payload : ℕ → KafkaBytes → Exec (KafkaProtocol Request) (Progress Response)
  check_payload total_bytes b s =
      if ltb total_bytes b.idx
      then (err kafka_error, record s { rbuffer = some b })
      else if nat_beq b.idx total_bytes
      then finished
          (process_response (seek 0 b) (record s { receiving = false; rbuffer = some (seek 0 b) }))
      else (ok incomplete, record s { rbuffer = some b })

  -- `if self._receiving`. A missing buffer has no `len`.
  abbrev pub read_payload :
      Option KafkaBytes → List ℕ → Exec (KafkaProtocol Request) (Progress Response)
  read_payload none rest s = (err type_error, s)
  read_payload (some b) rest s =
      let bytes_to_read = min (length b.bytes - b.idx) (length rest) in
      check_payload (length b.bytes) (write (take bytes_to_read rest) b) s

  abbrev pub after_header :
      (List ℕ → KafkaProtocol Request → Answers Request Response)
      → Result (List ℕ) × KafkaProtocol Request
      → Answers Request Response
  after_header more (err e, s) = (err e, s)
  after_header more (ok rest, s) =
      if s.receiving
      then after_payload (more (drop (taken s.rbuffer rest) rest)) (read_payload s.rbuffer rest s)
      else more rest s

  -- `while i < n`, on the bytes from `i` on. Each iteration takes a byte, but for the first where an
  -- earlier call has raised.
  unfoldable pub receive_loop : ℕ → List ℕ → KafkaProtocol Request → Answers Request Response
  receive_loop zero rest s = (ok [], s)
  receive_loop (suc fuel) [] s = (ok [], s)
  receive_loop (suc fuel) (b ∷ rest) s = after_header (receive_loop fuel) (read_header (b ∷ rest) s)

  unfoldable pub receive_bytes : List ℕ → Exec (KafkaProtocol Request) (List (ℤ × Response))
  receive_bytes chunk s = receive_loop (suc (length chunk)) chunk s

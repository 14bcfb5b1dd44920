-- ===== src/Protocol/Parser.antt =====
-- kafka/protocol/parser.py: requests are queued as frames, and the bytes that come back are cut into
-- responses.
pub mod Receiving
pub mod Payload
pub mod Headers
pub mod Ready
pub mod Chunks
pub mod Frames
pub mod Answers
use kafka_python.Common.{
  ℕ, ◌+◌, ◌%◌, ◌^◌, Bool, false, List, [], ◌∷◌, ◌++◌, length, Option, none, some, if◌then◌else◌,
}
use kafka_python.Common.Int.{ℤ, pos}
use kafka_python.Exec.{Exec, Result, ok, err}
use kafka_python.Protocol.Frame.{KafkaBytes, of_size}
use kafka_python.Protocol.Ints.{pack}

-- What the parser calls of the classes of requests: the bytes of the header and of the request,
-- the correlation id in the header of the response, and the response. The last two read the buffer
-- on, also where they raise.
pub record Api (Request Response : Type 0) : Type 0 where
  pub build_header : Request → ℤ → List ℕ → Result (List ℕ)
  pub encode : Request → Result (List ℕ)
  pub expect_response : Request → Bool
  pub parse_header : Request → KafkaBytes → Result ℤ × KafkaBytes
  pub decode : Request → KafkaBytes → Result Response × KafkaBytes
  -- `response_type is FindCoordinatorResponse[0]`
  pub is_find_coordinator_v0 : Request → Bool

pub record KafkaProtocol (Request : Type 0) : Type 0 where
  pub client_id : List ℕ
  pub api_version : Option (List ℕ)
  pub correlation_id : ℕ
  pub header : KafkaBytes
  pub rbuffer : Option KafkaBytes
  pub receiving : Bool
  pub in_flight_requests : List (ℤ × Request)
  pub bytes_to_send : List (List ℕ)

-- `b''.join`
unfoldable pub join : List (List ℕ) → List ℕ
join [] = []
join (xs ∷ rest) = xs ++ join rest

-- 'kafka-python' and the version 2.2.10; a `str` stands for its bytes in UTF-8.
unfoldable pub gen_client_id : List ℕ
gen_client_id =
    107 ∷ 97 ∷ 102 ∷ 107 ∷ 97 ∷ 45 ∷ 112 ∷ 121 ∷ 116 ∷ 104 ∷ 111 ∷ 110 ∷ 50 ∷ 46 ∷ 50 ∷ 46 ∷ 49 ∷ 48
    ∷ []

abbrev client_id_or : Option (List ℕ) → List ℕ
client_id_or none = gen_client_id
client_id_or (some client_id) = client_id

abbrev pub frame_of : Result (List ℕ) → List ℕ → Result (List ℕ)
frame_of (ok size) message = ok (size ++ message)
frame_of (err e) message = err e

-- `Int32.encode(len(message)) + message`
unfoldable pub framed : List ℕ → Result (List ℕ)
framed message = frame_of (pack 3 (pos (length message))) message

abbrev pub joined : Result (List ℕ) → Result (List ℕ) → Result (List ℕ)
joined (ok header) (ok request) = framed (header ++ request)
joined (ok header) (err e) = err e
joined (err e) request = err e

module _ {Request : Type 0} where
  unfoldable pub init : Option (List ℕ) → Option (List ℕ) → KafkaProtocol Request
  unfolding gen_client_id
  init client_id api_version = record {
    client_id = client_id_or client_id;
    api_version = api_version;
    correlation_id = 0;
    header = of_size 4;
    rbuffer = none;
    receiving = false;
    in_flight_requests = [];
    bytes_to_send = [];
  }

  unfoldable pub next_correlation_id : KafkaProtocol Request → KafkaProtocol Request
  next_correlation_id s = record s { correlation_id = (s.correlation_id + 1) % 2 ^ 31 }

  unfoldable pub send_bytes : KafkaProtocol Request → List ℕ × KafkaProtocol Request
  send_bytes s = (join s.bytes_to_send, record s { bytes_to_send = [] })

module _ {Request Response : Type 0} (api : Api Request Response) where
  abbrev pub queued : Result (List ℕ) → ℤ → Request → Exec (KafkaProtocol Request) ℤ
  queued (err e) id request s = (err e, s)
  queued (ok frame) id request s = (
    ok id,
    record s {
      bytes_to_send = s.bytes_to_send ++ frame ∷ [];
      in_flight_requests =
          if api.expect_response request
          then s.in_flight_requests ++ (id, request) ∷ []
          else s.in_flight_requests;
    },
  )

  abbrev send_as : ℤ → Request → Exec (KafkaProtocol Request) ℤ
  send_as id request s =
      queued (joined (api.build_header request id s.client_id) (api.encode request)) id request s

  unfoldable pub send_request : Request → Option ℤ → Exec (KafkaProtocol Request) ℤ
  send_request request (some id) s = send_as id request s
  send_request request none s =
      let t = next_correlation_id s in send_as (pos t.correlation_id) request t

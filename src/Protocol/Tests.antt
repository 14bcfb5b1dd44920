-- ===== src/Protocol/Tests.antt =====
-- Runs of the parser and the codec on concrete bytes.
use kafka_python.Common.{ℕ, ◌≡◌, refl, false, List, [], ◌∷◌, ◌++◌, none, some, arith, map}
use kafka_python.Common.Int.{pos, negsuc}
use kafka_python.Exec.{ok}
use kafka_python.Protocol.Types.{
  array_of, int32, string, end, ◌▸◌, ◌⦂◌, Ty, encode, encode_all, encode_sized,
}
use kafka_python.Protocol.Decoding.{decode}
use kafka_python.Protocol.Decoding.RoundTrip.{decode-encode}
use kafka_python.Protocol.Frame.{of_size, zeros}
use kafka_python.Protocol.Ints.{pack, big_endian}
use kafka_python.Protocol.Utf8.{is_utf8, utf8_loop, leading, continues}
use kafka_python.Protocol.Message.{build_header, encode_request, Request, Response}
use kafka_python.Protocol.Messages.SyncGroup.{heartbeat_request_v0, heartbeat_response_v0}
use kafka_python.Protocol.Classes.{api, expect_response, get_int}
use kafka_python.Protocol.Classes.Answered.{send-receive, exchange, exchange-IsAnswer}
use kafka_python.Protocol.Parser.{KafkaProtocol, gen_client_id, framed, init, send_request, join}
use kafka_python.Protocol.Parser.Receiving.{receive_bytes}
use kafka_python.Protocol.Parser.Payload.{and_then}
use kafka_python.Protocol.Parser.Ready.{Settles}
use kafka_python.Protocol.Parser.Chunks.{receive_bytes-append}
use kafka_python.Protocol.Parser.Answers.{
  IsAnswer, Exchange, Returns, receive_bytes_lem, responses_of,
}

-- HeartbeatRequest_v0('g', 1, 'm')
abbrev beat : Request
beat = record {
  type_of = heartbeat_request_v0;
  values = (some (103 ∷ []), (pos 1, (some (109 ∷ []), tt)));
}

-- KafkaProtocol(), and after the request was sent with the id 5.
abbrev fresh : KafkaProtocol Request
fresh = record {
  client_id = gen_client_id;
  api_version = none;
  correlation_id = 0;
  header = record { bytes = 0 ∷ 0 ∷ 0 ∷ 0 ∷ []; idx = 0 };
  rbuffer = none;
  receiving = false;
  in_flight_requests = [];
  bytes_to_send = [];
}

abbrev message : List ℕ
unfolding gen_client_id
message =
    0 ∷ 12 ∷ 0 ∷ 0 ∷ 0 ∷ 0 ∷ 0 ∷ 5 ∷ 0 ∷ 18 ∷ gen_client_id
    ++ 0 ∷ 1 ∷ 103 ∷ 0 ∷ 0 ∷ 0 ∷ 1 ∷ 0 ∷ 1 ∷ 109 ∷ []

abbrev waiting : KafkaProtocol Request
waiting = record fresh {
  in_flight_requests = (pos 5, beat) ∷ [];
  bytes_to_send = (0 ∷ 0 ∷ 0 ∷ 38 ∷ message) ∷ [];
}

-- To run the parser is to unfold this.
machine : Unit {0}
unfolding init send_request gen_client_id api build_header encode_request encode encode_sized pack
    big_endian framed expect_response get_int
machine = tt

new : init none none ≡ fresh
unfolding machine of_size zeros
new = refl

sends : send_request api beat (some (pos 5)) fresh ≡ (ok (pos 5), waiting)
unfolding machine
sends = refl

-- The response of no error to the request 5.
abbrev answer : Exchange Request Response
answer =
    exchange (pos 5) beat (pos 0, tt) (0 ∷ 0 ∷ 0 ∷ 5 ∷ []) (0 ∷ 0 ∷ [])
      (0 ∷ 0 ∷ 0 ∷ 6 ∷ 0 ∷ 0 ∷ 0 ∷ 5 ∷ 0 ∷ 0 ∷ [])

answer-IsAnswer : IsAnswer api answer
unfolding machine
answer-IsAnswer =
    exchange-IsAnswer (pos 5) beat (pos 0, tt) _ _ (answer.frame) refl (tt, tt) refl refl refl

send-receive_example :
    Returns
      ((pos 5, record { type_of = heartbeat_response_v0; values = (pos 0, tt) }) ∷ [])
      []
      (receive_bytes api (0 ∷ 0 ∷ 0 ∷ 6 ∷ 0 ∷ 0 ∷ 0 ∷ 5 ∷ 0 ∷ 0 ∷ []) waiting)
unfolding machine
send-receive_example =
    send-receive beat (pos 5) (pos 5) fresh waiting (pos 0, tt) (0 ∷ 0 ∷ 0 ∷ 5 ∷ []) (0 ∷ 0 ∷ [])
      (0 ∷ 0 ∷ 0 ∷ 6 ∷ 0 ∷ 0 ∷ 0 ∷ 5 ∷ 0 ∷ 0 ∷ []) (refl, refl, refl, refl) refl sends refl (tt, tt)
      refl refl refl

receive_bytes_example :
    Returns
      (responses_of (answer ∷ []))
      []
      (receive_bytes api (join (map (λ e. e.frame) (answer ∷ []))) waiting)
receive_bytes_example =
    receive_bytes_lem api (answer ∷ []) [] waiting (answer-IsAnswer, tt) (refl, refl, refl, refl)

receive_bytes-append_example :
    (receive_bytes api ((0 ∷ 0 ∷ []) ++ 0 ∷ 6 ∷ 0 ∷ []) waiting
      ≡ and_then (receive_bytes api (0 ∷ 0 ∷ []) waiting) (receive_bytes api (0 ∷ 6 ∷ 0 ∷ [])))
    × Settles api (receive_bytes api (0 ∷ 0 ∷ []) waiting)
receive_bytes-append_example =
    receive_bytes-append api (0 ∷ 0 ∷ []) (0 ∷ 6 ∷ 0 ∷ []) waiting (refl, omega arith)

-- An array of two structures, a null string in the second.
abbrev pairs : Ty
pairs = array_of ("name" ⦂ string ▸ "value" ⦂ int32 ▸ end)

decode-encode_example :
    decode pairs (
      (0 ∷ 0 ∷ 0 ∷ 2 ∷ 0 ∷ 1 ∷ 97 ∷ 0 ∷ 0 ∷ 1 ∷ 2 ∷ 255 ∷ 255 ∷ 255 ∷ 255 ∷ 255 ∷ 254 ∷ [])
      ++ 9 ∷ [])
    ≡ (ok (some ((some (97 ∷ []), (pos 258, tt)) ∷ (none, (negsuc 1, tt)) ∷ [])), 9 ∷ [])
unfolding machine is_utf8 utf8_loop leading continues encode_all
decode-encode_example =
    decode-encode pairs (some ((some (97 ∷ []), (pos 258, tt)) ∷ (none, (negsuc 1, tt)) ∷ []))
      (0 ∷ 0 ∷ 0 ∷ 2 ∷ 0 ∷ 1 ∷ 97 ∷ 0 ∷ 0 ∷ 1 ∷ 2 ∷ 255 ∷ 255 ∷ 255 ∷ 255 ∷ 255 ∷ 254 ∷ []) (9 ∷ [])
      ((refl, (tt, tt)), ((tt, (tt, tt)), tt)) refl

-- ===== src/Protocol/Classes/Answered.antt =====
-- A request that was sent, and the response that a broker encodes for it.
use mathlib.Core.List.{append-nil}
use kafka_python.Common.{
  ℕ, ◌-◌, ◌≡◌, refl, ap, subst, true, false, List, [], ◌∷◌, ◌++◌, length, length-append, drop,
  Bool-cases, inl, inr, some, arith, if◌then◌else◌,
}
use kafka_python.Common.Int.{ℤ}
use kafka_python.Exec.{Result, ok, err}
use kafka_python.Protocol.Types.{Item, encode_item}
use kafka_python.Protocol.Frame.{seek}
use kafka_python.Protocol.Decoding.{decode_item}
use kafka_python.Protocol.Decoding.Reads.{take-append}
use kafka_python.Protocol.Decoding.RoundTrip.{IsItem, IsItem-Inverts}
use kafka_python.Protocol.Message.{
  ResponseType, Request, Response, response_header, response_header_v2, parse_header,
}
use kafka_python.Protocol.Classes.{api, on_buffer, decode_response, decode_struct, expect_response}
use kafka_python.Protocol.Parser.{join, KafkaProtocol, send_request, framed, queued}
use kafka_python.Protocol.Parser.Receiving.{receive_bytes}
use kafka_python.Protocol.Parser.Answers.{Exchange, IsAnswer, IsIdle, Returns, receive_bytes_lem}

-- The header that a broker puts in front of a response.
abbrev pub answer_header : ResponseType → ℤ → Result (List ℕ)
answer_header type id =
    if type.flexible_version
    then encode_item response_header_v2 (id, ([], tt))
    else encode_item response_header (id, tt)

parse_header_lem :
    (type : ResponseType) (id : ℤ) (header body : List ℕ)
    → answer_header type id ≡ ok header
    → parse_header type (header ++ body) ≡ (ok id, body)
unfolding parse_header
parse_header_lem type id header body h = elim (Bool-cases type.flexible_version) [
  | inl c ↦
      let e : encode_item response_header_v2 (id, ([], tt)) ≡ ok header = rw c at h in
      rw (c, IsItem-Inverts response_header_v2 (id, ([], tt)) header body (tt, (refl, tt)) e) refl
  | inr c ↦
      let e : encode_item response_header (id, tt) ≡ ok header = rw c at h in
      rw (c, IsItem-Inverts response_header (id, tt) header body (tt, tt) e) refl
]

decode_response_lem :
    (type : ResponseType) (values : Item type.fields) (body : List ℕ)
    → type.v0_on_error ≡ false
    → IsItem type.fields values
    → encode_item type.fields values ≡ ok body
    → decode_response type body ≡ (ok (record { type_of = type; values = values }), [])
unfolding decode_response decode_struct
decode_response_lem type values body h p e =
    let read : decode_item type.fields body ≡ (ok values, []) =
      rw⁻¹ (append-nil body) (IsItem-Inverts type.fields values body [] p e) in
    rw (h, read) refl

behind_header :
    (header body : List ℕ) → drop (length (header ++ body) - length body) (header ++ body) ≡ body
behind_header header body =
    let size : length (header ++ body) - length body ≡ length header =
      omega (arith, length-append header body) in
    rw (size, (take-append header body).1) refl

-- An exchange for the request, with the response of these values.
abbrev pub exchange :
    ℤ
    → (r : Request) → Item r.type_of.response_type.fields
    → List ℕ
    → List ℕ
    → List ℕ
    → Exchange Request Response
exchange id r values header body frame = record {
  id = id;
  request = r;
  payload = header ++ body;
  frame = frame;
  response = record { type_of = r.type_of.response_type; values = values };
}

pub exchange-IsAnswer :
    (id : ℤ) (r : Request) (values : Item r.type_of.response_type.fields)
    (header body frame : List ℕ)
    → r.type_of.response_type.v0_on_error ≡ false
    → IsItem r.type_of.response_type.fields values
    → answer_header r.type_of.response_type id ≡ ok header
    → encode_item r.type_of.response_type.fields values ≡ ok body
    → framed (header ++ body) ≡ ok frame
    → IsAnswer api (exchange id r values header body frame)
unfolding api on_buffer seek
exchange-IsAnswer id r values header body frame h p hh hb hf =
    let type = r.type_of.response_type in
    (
      hf,
      (
        record { bytes = header ++ body; idx = length (header ++ body) - length body },
        rw (parse_header_lem type id header body hh) refl,
        (
          record { bytes = header ++ body; idx = length (header ++ body) - 0 },
          rw (behind_header header body, decode_response_lem type values body h p hb) refl,
        ),
      ),
    )

-- What is sent is in flight.
send_request-IsIdle :
    (r : Request) (id sent : ℤ) (requests : List (ℤ × Request)) (s t : KafkaProtocol Request)
    → expect_response r ≡ true
    → IsIdle requests s
    → send_request api r (some id) s ≡ (ok sent, t)
    → IsIdle (requests ++ (id, r) ∷ []) t
unfolding send_request api
send_request-IsIdle r id sent requests s t h i e = case _ e
  where
    case :
        (frame : Result (List ℕ))
        → queued api frame id r s ≡ (ok sent, t)
        → IsIdle (requests ++ (id, r) ∷ []) t
    case (err x) q = let no : err x ≡ ok sent = ap (λ p. p.0) q in absurd cc
    case (ok frame) q =
        subst (IsIdle (requests ++ (id, r) ∷ [])) (ap (λ p. p.1) q)
          (i.0, i.1, i.2, rw (h, i.3) refl)

-- A request that was sent, with a given id, by a parser that is between two frames and has nothing
-- in flight, and of which the bytes of a response are then received in one chunk, is answered: the
-- call returns the response with the id of the request and leaves nothing in flight, whatever the
-- values of the response. The class of the request expects a response, the class of the response
-- does not fall back to version 0 on an error, the values satisfy `IsItem` (what decoding reads back
-- as it was), and the header, the values and the frame can be encoded.
pub send-receive :
    (r : Request) (id sent : ℤ) (s t : KafkaProtocol Request)
    (values : Item r.type_of.response_type.fields) (header body frame : List ℕ)
    → IsIdle [] s
    → expect_response r ≡ true
    → send_request api r (some id) s ≡ (ok sent, t)
    → r.type_of.response_type.v0_on_error ≡ false
    → IsItem r.type_of.response_type.fields values
    → answer_header r.type_of.response_type id ≡ ok header
    → encode_item r.type_of.response_type.fields values ≡ ok body
    → framed (header ++ body) ≡ ok frame
    → Returns
        ((id, record { type_of = r.type_of.response_type; values = values }) ∷ [])
        []
        (receive_bytes api frame t)
unfolding join
send-receive r id sent s t values header body frame i ex e h p hh hb hf =
    let answered = exchange-IsAnswer id r values header body frame h p hh hb hf in
    rw⁻¹ (append-nil frame) (
      receive_bytes_lem api (exchange id r values header body frame ∷ []) [] t (answered, tt)
        (send_request-IsIdle r id sent [] s t ex i e))

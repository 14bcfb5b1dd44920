-- ===== src/Subscriptions/TopicName.antt =====
-- kafka/util.py, ensure_valid_topic_name.
use Prim.Native.Char.{Char, code}
use Prim.Native.String.{String, [], ◌∷◌, count}
use kafka_python.Common.{
  ℕ, Bool, true, false, not, ◌&&◌, ◌||◌, nat_beq, leb, ltb, Option, none, some, if◌then◌else◌,
}
use kafka_python.Common.Eq.{◌==◌, string_eq}
use kafka_python.Errors.{Exc, value_error}

abbrev pub topic_max_length : ℕ
topic_max_length = 249

abbrev within : ℕ → ℕ → ℕ → Bool
within low high n = leb low n && leb n high

-- [a-zA-Z0-9._-]
unfoldable pub legal_char : Char → Bool
legal_char c =
    within b'a' b'z' (code c)
    || within b'A' b'Z' (code c)
    || within b'0' b'9' (code c)
    || nat_beq (code c) b'.'
    || nat_beq (code c) b'_'
    || nat_beq (code c) b'-'

-- What `[a-zA-Z0-9._-]*$` matches: `$` stands at the end and before a last line feed.
unfoldable pub legal_rest : String → Bool
unfolding legal_char
legal_rest [] = true
legal_rest (c ∷ []) = legal_char c || nat_beq (code c) 10
legal_rest (c ∷ d ∷ cs) = legal_char c && legal_rest (d ∷ cs)

-- TOPIC_LEGAL_CHARS.match
unfoldable pub legal_chars : String → Bool
unfolding legal_rest
legal_chars [] = false
legal_chars (c ∷ cs) = legal_char c && legal_rest cs

-- What the call raises.
unfoldable pub ensure_valid_topic_name : String → Option Exc
unfolding legal_chars
ensure_valid_topic_name topic =
    if nat_beq (count topic) 0
    then some value_error
    else if topic == "." || topic == ".."
    then some value_error
    else if ltb topic_max_length (count topic)
    then some value_error
    else if not (legal_chars topic)
    then some value_error
    else none

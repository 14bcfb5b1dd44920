-- ===== src/Protocol/Frame.antt =====
-- kafka/protocol/frame.py: a byte buffer with a position.
pub mod Writes
use kafka_python.Common.{
  ℕ, zero, suc, ◌+◌, ◌-◌, List, [], ◌∷◌, ◌++◌, Option, none, some, length, take, drop, min,
}
use kafka_python.Common.Int.{ℤ, pos, negsuc}
use kafka_python.Errors.{value_error}
use kafka_python.Exec.{Result, ok, err}

pub record KafkaBytes : Type 0 where
  pub bytes : List ℕ
  pub idx : ℕ

unfoldable pub zeros : ℕ → List ℕ
zeros zero = []
zeros (suc n) = 0 ∷ zeros n

unfoldable pub of_size : ℕ → KafkaBytes
of_size size = record { bytes = zeros size; idx = 0 }

-- `KafkaBytes(size)`: `bytearray` raises on a negative size.
unfoldable pub create : ℤ → Result KafkaBytes
create (pos size) = ok (of_size size)
create (negsuc n) = err value_error

-- `nbytes`, where None stands for the bytes left. Past the end that number is negative, and the
-- sum that `read` makes of it is the size, which is not above the position.
abbrev pub wanted : Option ℕ → KafkaBytes → ℕ
wanted (some nbytes) s = nbytes
wanted none s = length s.bytes - s.idx

unfoldable pub read : Option ℕ → KafkaBytes → List ℕ × KafkaBytes
read nbytes s =
    let stop = min (s.idx + wanted nbytes s) (length s.bytes) in
    (take (stop - s.idx) (drop s.idx s.bytes), record s { idx = stop })

-- A slice assignment, which makes the buffer longer where it ends past the end.
unfoldable pub write : List ℕ → KafkaBytes → KafkaBytes
write chunk s =
    let stop = s.idx + length chunk in
    record { bytes = take s.idx s.bytes ++ (chunk ++ drop stop s.bytes); idx = stop }

unfoldable pub seek : ℕ → KafkaBytes → KafkaBytes
seek idx s = record s { idx = idx }

-- ===== src/Go/Numbers.antt =====
-- Go's numbers. `int` values that count things are native numbers; a signed field is `ℤ`. A
-- `float64` is its IEEE 754 bit pattern, and `time.Time` the nanoseconds since its zero value.
use epistemic_engine.Prelude.{ℕ, Bool, true, false, List, is_zero}

-- `negsuc n` is -(n + 1).
pub data ℤ : Type 0 where
  pos : ℕ → ℤ
  negsuc : ℕ → ℤ

abbrev pub int_is_zero : ℤ → Bool
int_is_zero (pos n) = is_zero n
int_is_zero (negsuc n) = false

abbrev pub is_negative : ℤ → Bool
is_negative (pos n) = false
is_negative (negsuc n) = true

abbrev pub Float64 : Type 0
Float64 = ℕ

abbrev pub float_zero : Float64
float_zero = 0

abbrev pub float_one : Float64
float_one = 0x3ff0000000000000

abbrev pub Time : Type 0
Time = ℕ

-- `t.IsZero()`
abbrev pub time_is_zero : Time → Bool
time_is_zero t = is_zero t

-- `json.RawMessage`, `[]byte`
abbrev pub RawMessage : Type 0
RawMessage = List ℕ

-- ===== src/Book/Bybit/Refused.antt =====
-- What a Bybit book is after a message that it refuses (src/data/bybit_replay.py).
use greenfield.Base.{Bool, true, false, ◌≡◌, Result, ok, err, if◌then◌else◌}
use greenfield.Book.Event.{Error, sequence_gap, sequence_regression}
use greenfield.Book.Side.{Side}
use greenfield.Book.Bybit.{BybitOrderBook, invalidate}

-- SequenceGap and SequenceRegression
abbrev pub is_out_of_step : Error → Bool
is_out_of_step sequence_gap = true
is_out_of_step sequence_regression = true
is_out_of_step _ = false

-- A result that has no error out of step.
abbrev InStep : {A : Type 0} → Result Error A → Type 0
InStep (ok a) = Unit
InStep (err e) = is_out_of_step e ≡ false

-- The book after a call: invalidated by an error out of step, and as it was by any other.
abbrev Left : BybitOrderBook → Result Error (Unit {0}) × BybitOrderBook → Type 0
Left b (ok done, b') = Unit
Left b (err e, b') = b' ≡ (if is_out_of_step e then invalidate b else b)

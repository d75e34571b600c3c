-- ===== src/Book/Ticker.antt =====
-- `BybitTickerState` (src/data/bybit_replay.py).
pub mod Delta
use greenfield.Base.{
  ℤ, leb_ℤ, Bool, true, false, not, ◌||◌, Option, none, some, String, ◌=$◌, Result, ok, err, ◌>>=◌,
  ◌>>◌, if◌then◌else◌,
}
use greenfield.Book.Event.{
  Error, replay_error, snapshot_required, sequence_regression, Json, object, Fields, end, field,
  get, Python, RawMarketEvent, payload, required_int,
}
use greenfield.Book.Bybit.{is_text}

pub record BybitTickerState : Type 0 where
  pub symbol : String
  pub data_fields : Option Fields
  pub sequence : Option ℤ

-- `BybitTickerState.__init__`
abbrev pub new_ticker : String → BybitTickerState
new_ticker symbol = record { symbol = symbol; data_fields = none; sequence = none }

abbrev pub invalidate : BybitTickerState → BybitTickerState
invalidate t = new_ticker t.symbol

-- `data[key] = value`
unfoldable pub set : String → Json → Fields → Fields
set k v end = field k v end
set k v (field j w fs) = if j =$ k then field j v fs else field j w (set k v fs)

-- `data.update(fields)`
unfoldable pub update : Fields → Fields → Fields
unfolding set
update fs end = fs
update fs (field k v gs) = update (set k v fs) gs

-- What `apply_event` reads from a message.
pub record TickerMessage : Type 0 where
  pub message_type : Json
  pub data_fields : Fields
  pub sequence : ℤ

abbrev data_of : Json → Result Error Fields
data_of (object fs) = ok fs
data_of _ = err replay_error

unfoldable pub read_ticker : Python → RawMarketEvent → Result Error TickerMessage
read_ticker py e = do
  message ← payload py e
  fs ← data_of (get "data" message)
  sequence ← required_int py (get "cs" message)
  ok (record { message_type = get "type" message; data_fields = fs; sequence = sequence })

-- a delta, on the data and the sequence that the ticker has
abbrev pub advance_ticker :
    TickerMessage
    → BybitTickerState
    → Option Fields
    → Option ℤ
    → Result Error (Unit {0}) × BybitTickerState
advance_ticker m t (some fs) (some s) =
    if leb_ℤ m.sequence s then (err sequence_regression, invalidate t) else (
      ok tt,
      record t { data_fields = some (update fs m.data_fields); sequence = some m.sequence },
    )
advance_ticker m t (some fs) none = (err snapshot_required, t)
advance_ticker m t none s = (err snapshot_required, t)

unfoldable pub accept_ticker :
    TickerMessage → BybitTickerState → Result Error (Unit {0}) × BybitTickerState
unfolding update
accept_ticker m t =
    if is_text "snapshot" m.message_type
    then (ok tt, record t { data_fields = some m.data_fields; sequence = some m.sequence })
    else if not (is_text "delta" m.message_type)
    then (err replay_error, t)
    else advance_ticker m t t.data_fields t.sequence

-- `BybitTickerState.apply_event`
unfoldable pub apply_ticker :
    Python → RawMarketEvent → BybitTickerState → Result Error (Unit {0}) × BybitTickerState
unfolding read_ticker accept_ticker
apply_ticker py e t =
    if not (e.exchange =$ "bybit") || not (e.channel =$ "ticker")
    then (err replay_error, t)
    else if not (e.symbol =$ t.symbol)
    then (err replay_error, t)
    else elim (read_ticker py e) [ ok m ↦ accept_ticker m t | err x ↦ (err x, t) ]

-- ===== src/Book/Event.antt =====
-- Raw market events and their JSON payloads (src/data/raw_event.py). What Python's library does with
-- a payload is a parameter: `json.loads`, `int` of a JSON value, and `Decimal(str(...))` of one.
use greenfield.Base.{
  none, some, ◌≡◌, Option-cases, arith, raise_if, ◌>>◌, ℤ, pos, eqb_ℤ, Bool, true, false, not,
  Option, String, ◌=$◌, Decimal, Result, ok, err, ◌>>=◌, or_raise, if◌then◌else◌,
}

pub data Error : Type 0 where
  -- RawEventError, ValueError
  raw_event_error value_error : Error
  -- ReplayError of a venue, and its subclasses
  replay_error snapshot_required sequence_gap sequence_regression invalid_order_book : Error

-- What `json.loads` returns.
mutual
  pub data Json : Type 0 where
    null : Json
    boolean : Bool → Json
    integer : ℤ → Json
    real : String → Json
    text : String → Json
    array : Items → Json
    object : Fields → Json

  pub data Items : Type 0 where
    nil : Items
    cons : Json → Items → Items

  pub data Fields : Type 0 where
    end : Fields
    field : String → Json → Fields → Fields

-- `message.get(key)`, with None as `null`
unfoldable pub get : String → Fields → Json
get k end = null
get k (field j v fs) = if j =$ k then v else get k fs

-- `payload.get(key, default)`
unfoldable pub get_or : String → Json → Fields → Json
get_or k d end = d
get_or k d (field j v fs) = if j =$ k then v else get_or k d fs

-- The calls of Python's library; `none` stands for the exception that each of them raises.
pub record Python : Type 0 where
  pub loads : String → Option Json
  pub to_int : Json → Option ℤ
  pub to_decimal : Json → Option Decimal
  -- whether a number with a fraction or an exponent is zero
  pub real_is_zero : String → Bool

-- `not value`
unfoldable pub is_falsy : Python → Json → Bool
is_falsy py null = true
is_falsy py (boolean b) = not b
is_falsy py (integer n) = eqb_ℤ n (pos 0)
is_falsy py (real r) = py.real_is_zero r
is_falsy py (text t) = t =$ ""
is_falsy py (array nil) = true
is_falsy py (array (cons j js)) = false
is_falsy py (object end) = true
is_falsy py (object (field k j fs)) = false

pub record RawMarketEvent : Type 0 where
  pub schema_version : ℤ
  pub ingestion_version : String
  pub event_id : String
  pub exchange : String
  pub market_type : String
  pub channel : String
  pub topic : String
  pub symbol : String
  pub message_type : String
  pub exchange_ts_ms : Option ℤ
  pub receive_ts_ns : ℤ
  pub receive_sequence : ℤ
  pub matching_ts_ms : Option ℤ
  pub sequence : Option ℤ
  pub update_id : Option ℤ
  pub connection_id : String
  pub payload_sha256 : String
  pub payload_text : String

abbrev fields_of : Json → Result Error Fields
fields_of (object fs) = ok fs
fields_of _ = err raw_event_error

-- `RawMarketEvent.payload`
unfoldable pub payload : Python → RawMarketEvent → Result Error Fields
payload py e = do value ← or_raise (py.loads e.payload_text) value_error; fields_of value

-- `isinstance(value, bool)` or None: what `_required_int` refuses before `int`
abbrev pub no_int : Json → Bool
no_int null = true
no_int (boolean _) = true
no_int _ = false

-- `_optional_int` of the adapters, at a value of metadata
abbrev pub optional_int : Python → Json → Result Error (Option ℤ)
optional_int py null = ok none
optional_int py (boolean _) = err raw_event_error
optional_int py (text t) =
    if t =$ "" then ok none else (do n ← or_raise (py.to_int (text t)) raw_event_error; ok (some n))
optional_int py j = do n ← or_raise (py.to_int j) raw_event_error; ok (some n)

-- `_required_int` of the adapters
unfoldable pub metadata_int : Python → Json → Result Error ℤ
metadata_int py j = do o ← optional_int py j; or_raise o replay_error

-- `_required_int` of the replays
unfoldable pub required_int : Python → Json → Result Error ℤ
required_int py j = do raise_if (no_int j) replay_error; or_raise (py.to_int j) replay_error

-- A number that an adapter reads is read alike by the replay.
pub required_int-metadata_int :
    (py : Python) (j : Json) (n : ℤ) → metadata_int py j ≡ ok n → required_int py j ≡ ok n
unfolding metadata_int required_int
required_int-metadata_int py null n h = ground arith
required_int-metadata_int py (boolean b) n h = ground arith
required_int-metadata_int py (integer i) n h = ground (arith, Option-cases (py.to_int (integer i)))
required_int-metadata_int py (real r) n h = ground (arith, Option-cases (py.to_int (real r)))
required_int-metadata_int py (text t) n h = ground (arith, Option-cases (py.to_int (text t)))
required_int-metadata_int py (array a) n h = ground (arith, Option-cases (py.to_int (array a)))
required_int-metadata_int py (object f) n h = ground (arith, Option-cases (py.to_int (object f)))

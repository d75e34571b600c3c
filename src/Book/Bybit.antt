-- ===== src/Book/Bybit.antt =====
-- `BybitOrderBook` (src/data/bybit_replay.py). A method returns its result and the book that it
-- leaves, also when it raises.
pub mod Sound
pub mod Chain
pub mod Refused
use greenfield.Base.{
  ℤ, pos, ◌+ℤ◌, leb_ℤ, ltb_ℤ, Bool, true, false, not, ◌&&◌, ◌||◌, Option, none, some, String, ◌=$◌,
  List, [], ◌∷◌, Decimal, Result, ok, err, ◌>>=◌, ◌>>◌, or_raise, raise_if, if◌then◌else◌, is_some,
}
use greenfield.Book.Event.{
  Error, replay_error, snapshot_required, sequence_gap, sequence_regression, Json, text, object,
  Fields, get, Python, RawMarketEvent, payload, required_int,
}
use greenfield.Book.Side.{Side, exactly_two, levels, apply_levels, from_levels, validate_book}

pub record BybitOrderBook : Type 0 where
  pub symbol : String
  pub bids : Side
  pub asks : Side
  pub update_id : Option ℤ
  pub sequence : Option ℤ

abbrev pub is_empty : Side → Bool
is_empty [] = true
is_empty (l ∷ side) = false

-- `BybitOrderBook.__init__`
abbrev pub new_book : String → BybitOrderBook
new_book symbol = record {
  symbol = symbol;
  bids = [];
  asks = [];
  update_id = none;
  sequence = none;
}

abbrev pub is_ready : BybitOrderBook → Bool
is_ready b = not (is_empty b.bids) && not (is_empty b.asks) && is_some b.update_id

abbrev pub invalidate : BybitOrderBook → BybitOrderBook
invalidate b = new_book b.symbol

-- What `apply_message` reads from a message before it looks at the book.
pub record Message : Type 0 where
  pub message_type : Json
  pub update_id : ℤ
  pub sequence : ℤ
  pub bids : List (Decimal × Decimal)
  pub asks : List (Decimal × Decimal)

abbrev object_of : Json → Result Error Fields
object_of (object fs) = ok fs
object_of _ = err replay_error

unfoldable pub read_message : Python → Fields → Result Error Message
unfolding required_int
read_message py message = do
  fs ← object_of (get "data" message)
  update_id ← required_int py (get "u" fs)
  sequence ← required_int py (get "seq" fs)
  bids ← levels py exactly_two (get "b" fs)
  asks ← levels py exactly_two (get "a" fs)
  ok (record {
    message_type = get "type" message;
    update_id = update_id;
    sequence = sequence;
    bids = bids;
    asks = asks;
  })

-- `message_type == name`
abbrev pub is_text : String → Json → Bool
is_text name (text t) = t =$ name
is_text name _ = false

-- The book after `_validate_book` has accepted the two sides, or as it was.
unfoldable pub install :
    BybitOrderBook
    → (update_id sequence : ℤ) → (bids asks : Side) → Result Error (Unit {0}) × BybitOrderBook
install b u s bids asks = elim (validate_book bids asks) [
  | ok _ ↦ (ok tt, record b { bids = bids; asks = asks; update_id = some u; sequence = some s })
  | err e ↦ (err e, b)
]

-- The delta branch, at the update id and the sequence that the book has.
unfoldable pub advance :
    Message → BybitOrderBook → (update_id sequence : ℤ) → Result Error (Unit {0}) × BybitOrderBook
unfolding install
advance m b u s =
    if ltb_ℤ (u +ℤ pos 1) m.update_id
    then (err sequence_gap, invalidate b)
    else if leb_ℤ m.update_id u
    then (err sequence_regression, invalidate b)
    else if leb_ℤ m.sequence s
    then (err sequence_regression, invalidate b)
    else install b m.update_id m.sequence (apply_levels b.bids m.bids) (apply_levels b.asks m.asks)

abbrev delta :
    Message → BybitOrderBook → Option ℤ → Option ℤ → Result Error (Unit {0}) × BybitOrderBook
delta m b (some u) (some s) = advance m b u s
delta m b (some u) none = (err snapshot_required, b)
delta m b none s = (err snapshot_required, b)

unfoldable pub accept : Message → BybitOrderBook → Result Error (Unit {0}) × BybitOrderBook
unfolding advance
accept m b =
    if is_text "snapshot" m.message_type
    then install b m.update_id m.sequence (from_levels [] m.bids) (from_levels [] m.asks)
    else if not (is_text "delta" m.message_type)
    then (err replay_error, b)
    else if not (is_ready b)
    then (err snapshot_required, b)
    else delta m b b.update_id b.sequence

-- `BybitOrderBook.apply_message`
unfoldable pub apply_message :
    Python → Fields → BybitOrderBook → Result Error (Unit {0}) × BybitOrderBook
unfolding read_message accept
apply_message py message b = elim (read_message py message) [
  | ok m ↦ accept m b
  | err e ↦ (err e, b)
]

-- `BybitOrderBook.apply_event`
unfoldable pub apply_event :
    Python → RawMarketEvent → BybitOrderBook → Result Error (Unit {0}) × BybitOrderBook
unfolding apply_message
apply_event py e b =
    if not (e.exchange =$ "bybit") || not (e.channel =$ "orderbook")
    then (err replay_error, b)
    else if not (e.symbol =$ b.symbol)
    then (err replay_error, b)
    else elim (payload py e) [ ok message ↦ apply_message py message b | err x ↦ (err x, b) ]

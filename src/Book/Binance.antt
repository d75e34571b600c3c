-- ===== src/Book/Binance.antt =====
-- `BinanceDepthSequenceGate` (src/data/binance_adapter.py), `BinanceOrderBook` and
-- `BinanceReplaySession` (src/data/binance_replay.py). What mutates an object returns it beside its
-- result, also when it raises.
pub mod Reads
pub mod Agree
pub mod Sound
use greenfield.Base.{
  ℤ, pos, ◌+ℤ◌, eqb_ℤ, ltb_ℤ, leb_ℤ, Bool, true, false, not, ◌&&◌, ◌||◌, Option, none, some, String,
  ◌=$◌, Dict, lookup, List, [], ◌∷◌, Decimal, Result, ok, err, ◌>>=◌, ◌>>◌, or_raise, raise_if,
  if◌then◌else◌,
}
use greenfield.Book.Event.{
  Error, value_error, replay_error, snapshot_required, sequence_gap, Json, object, Fields, get,
  get_or, Python, RawMarketEvent, payload, metadata_int, required_int,
}
use greenfield.Book.Side.{exactly_two, levels, apply_levels, from_levels}
use greenfield.Book.Replay.{
  SequencedBook, is_ready, install, Session, counted, or_default, book_of, with_book, with_gate,
}

pub record BinanceDepthSequenceGate : Type 0 where
  pub symbol : String
  pub update_id : Option ℤ
  pub connection_id : Option String
  pub first_stream_event : Bool

abbrev pub new_gate : String → BinanceDepthSequenceGate
new_gate symbol = record {
  symbol = symbol;
  update_id = none;
  connection_id = none;
  first_stream_event = true;
}

-- `bootstrap`
unfoldable pub bootstrap :
    ℤ → String → BinanceDepthSequenceGate → Result Error BinanceDepthSequenceGate
bootstrap n connection g =
    if leb_ℤ n (pos 0) || connection =$ ""
    then err value_error
    else ok (record g {
      update_id = some n;
      connection_id = some connection;
      first_stream_event = true;
    })

abbrev pub invalidate : BinanceDepthSequenceGate → BinanceDepthSequenceGate
invalidate g = new_gate g.symbol

-- `_stream_message`
abbrev pub object_of : Json → Result Error Fields
object_of (object fs) = ok fs
object_of _ = err replay_error

unfoldable pub stream_message : Fields → Result Error Fields
stream_message fs = object_of (get_or "data" (object fs) fs)

-- What the gate reads from the payload of an event.
pub record Update : Type 0 where
  pub message : Fields
  pub first_update : ℤ
  pub final_update : ℤ
  pub previous_final : ℤ

unfoldable pub read_update : Python → RawMarketEvent → Result Error Update
unfolding stream_message metadata_int
read_update py e = do
  fs ← payload py e
  message ← stream_message fs
  first ← metadata_int py (get "U" message)
  final ← metadata_int py (get "u" message)
  previous ← metadata_int py (get "pu" message)
  ok (record {
    message = message;
    first_update = first;
    final_update = final;
    previous_final = previous;
  })

-- whether the update follows the update id `n` of the gate
abbrev pub follows : Update → BinanceDepthSequenceGate → ℤ → Bool
follows u g n =
    if g.first_stream_event
    then leb_ℤ u.first_update (n +ℤ pos 1) && leb_ℤ (n +ℤ pos 1) u.final_update
    else eqb_ℤ u.previous_final n

-- the body of `apply` after the payload has been read
unfoldable pub admit :
    Update → BinanceDepthSequenceGate → ℤ → Result Error Bool × BinanceDepthSequenceGate
admit u g n =
    if ltb_ℤ u.final_update u.first_update
    then (err sequence_gap, invalidate g)
    else if leb_ℤ u.final_update n
    then (ok false, g)
    else if not (follows u g n)
    then (err sequence_gap, invalidate g)
    else (ok true, record g { update_id = some u.final_update; first_stream_event = false })

-- `apply` at the update id and the connection that the gate has
unfoldable pub receive :
    Python
    → RawMarketEvent
    → BinanceDepthSequenceGate
    → ℤ
    → String
    → Result Error Bool × BinanceDepthSequenceGate
unfolding read_update admit
receive py e g n c =
    if not (e.connection_id =$ c)
    then (err snapshot_required, invalidate g)
    else elim (read_update py e) [ ok u ↦ admit u g n | err x ↦ (err x, g) ]

abbrev pub receive_or_raise :
    Python
    → RawMarketEvent
    → BinanceDepthSequenceGate
    → Option ℤ
    → Option String
    → Result Error Bool × BinanceDepthSequenceGate
receive_or_raise py e g (some n) (some c) = receive py e g n c
receive_or_raise py e g (some n) none = (err snapshot_required, g)
receive_or_raise py e g none c = (err snapshot_required, g)

-- `BinanceDepthSequenceGate.apply`
unfoldable pub gate_apply :
    Python
    → RawMarketEvent
    → BinanceDepthSequenceGate
    → Result Error Bool × BinanceDepthSequenceGate
unfolding receive
gate_apply py e g =
    if not (e.exchange =$ "binance") || not (e.channel =$ "orderbook")
    then (err replay_error, g)
    else if not (e.symbol =$ g.symbol)
    then (err replay_error, g)
    else receive_or_raise py e g g.update_id g.connection_id

-- `BinanceOrderBook.load_snapshot`
unfoldable pub load_snapshot :
    Python → (bids asks : Json) → ℤ → SequencedBook → Result Error SequencedBook
load_snapshot py bids asks n b = do
  next_bids ← levels py exactly_two bids
  next_asks ← levels py exactly_two asks
  install b (from_levels [] next_bids) (from_levels [] next_asks) n

-- `BinanceOrderBook.apply_delta`
unfoldable pub apply_delta :
    Python → (bids asks : Json) → ℤ → SequencedBook → Result Error SequencedBook
apply_delta py bids asks n b = do
  raise_if (not (is_ready b)) snapshot_required
  next_bids ← levels py exactly_two bids
  next_asks ← levels py exactly_two asks
  install b (apply_levels b.bids next_bids) (apply_levels b.asks next_asks) n

-- the book and the update id of a snapshot event
unfoldable pub book_snapshot :
    Python → RawMarketEvent → SequencedBook → Result Error (SequencedBook × ℤ)
unfolding required_int load_snapshot
book_snapshot py e b = do
  fs ← payload py e
  n ← required_int py (get "lastUpdateId" fs)
  b' ← load_snapshot py (get "bids" fs) (get "asks" fs) n b
  ok (b', n)

-- the book after a delta that the gate accepted
unfoldable pub book_delta : Python → RawMarketEvent → SequencedBook → Result Error SequencedBook
unfolding stream_message required_int apply_delta
book_delta py e b = do
  fs ← payload py e
  message ← stream_message fs
  n ← required_int py (get "u" message)
  apply_delta py (get "b" message) (get "a" message) n b

abbrev pub Out : Type 0
Out = Result Error (Unit {0}) × Session BinanceDepthSequenceGate

abbrev pub bootstrapped :
    String → Session BinanceDepthSequenceGate → Result Error BinanceDepthSequenceGate → Out
bootstrapped symbol s (ok g) = (ok tt, with_gate symbol g s)
bootstrapped symbol s (err x) = (err x, s)

-- the session after a snapshot event: the book has changed when `bootstrap` raises
abbrev pub after_snapshot :
    RawMarketEvent
    → BinanceDepthSequenceGate
    → Session BinanceDepthSequenceGate
    → Result Error (SequencedBook × ℤ)
    → Out
after_snapshot e g s (ok (b, n)) =
    bootstrapped e.symbol (with_book e.symbol b s) (bootstrap n e.connection_id g)
after_snapshot e g s (err x) = (err x, s)

abbrev pub write_book : String → Session BinanceDepthSequenceGate → Result Error SequencedBook → Out
write_book symbol s (ok b) = (ok tt, with_book symbol b s)
write_book symbol s (err x) = (err x, s)

-- the session after the gate has answered
abbrev pub after_gate :
    Python
    → RawMarketEvent
    → SequencedBook
    → Session BinanceDepthSequenceGate
    → Result Error Bool
    → Out
after_gate py e b s (err x) = (err x, s)
after_gate py e b s (ok false) = (ok tt, s)
after_gate py e b s (ok true) = write_book e.symbol s (book_delta py e b)

abbrev pub gate_of : String → Dict BinanceDepthSequenceGate → BinanceDepthSequenceGate
gate_of symbol gates = or_default (new_gate symbol) (lookup symbol gates)

-- an order-book event, at the book and the gate of its symbol
unfoldable pub orderbook_apply :
    Python
    → RawMarketEvent
    → SequencedBook
    → BinanceDepthSequenceGate
    → Session BinanceDepthSequenceGate
    → Out
unfolding bootstrap gate_apply book_snapshot book_delta
orderbook_apply py e b g s =
    if e.message_type =$ "snapshot"
    then after_snapshot e g s (book_snapshot py e b)
    else let (r, g') = gate_apply py e g in after_gate py e b (with_gate e.symbol g' s) r

-- the session in which the symbol of an event has a book and a gate
abbrev pub prepared :
    RawMarketEvent
    → SequencedBook
    → BinanceDepthSequenceGate
    → Session BinanceDepthSequenceGate
    → Session BinanceDepthSequenceGate
prepared e b g s = with_gate e.symbol g (with_book e.symbol b (counted e s))

-- `BinanceReplaySession.apply`
unfoldable pub session_apply : Python → RawMarketEvent → Session BinanceDepthSequenceGate → Out
unfolding orderbook_apply counted
session_apply py e s =
    if not (e.exchange =$ "binance")
    then (err replay_error, s)
    else if not (e.channel =$ "orderbook")
    then (ok tt, counted e s)
    else let b = book_of e.symbol s.books in
      let g = gate_of e.symbol s.gates in orderbook_apply py e b g (prepared e b g s)

-- the loop of `replay_binance_stream`, which the first error ends
unfoldable pub replay :
    Python
    → List RawMarketEvent
    → Session BinanceDepthSequenceGate
    → Result Error (Session BinanceDepthSequenceGate)
unfolding session_apply
replay py [] s = ok s
replay py (e ∷ es) s = let (r, s') = session_apply py e s in let rest = replay py es s' in r >> rest

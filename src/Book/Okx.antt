-- ===== src/Book/Okx.antt =====
-- `OkxSequenceGate` (src/data/okx_adapter.py), `OkxOrderBook.apply_message` and `OkxReplaySession`
-- (src/data/okx_replay.py). What mutates an object returns it beside its result, also when it raises.
pub mod Agree
pub mod Sound
use greenfield.Base.{
  ℤ, eqb_ℤ, ltb_ℤ, Bool, true, false, not, ◌&&◌, ◌||◌, Option, none, some, String, Decimal, Dict,
  ◌=$◌, lookup, List, [], ◌∷◌, Result, ok, err, ◌>>=◌, ◌>>◌, or_raise, raise_if, if◌then◌else◌,
}
use greenfield.Book.Event.{
  Error, replay_error, snapshot_required, sequence_gap, Json, array, object, Items, nil, cons,
  Fields, get, is_falsy, Python, RawMarketEvent, payload, metadata_int, required_int,
}
use greenfield.Book.Side.{at_least_two, levels, apply_levels, from_levels}
use greenfield.Book.Replay.{
  SequencedBook, is_ready, install, Session, new_session, counted, or_default, book_of, with_book,
  with_gate,
}

pub record OkxSequenceGate : Type 0 where
  pub symbol : String
  pub sequence : Option ℤ
  pub connection_id : Option String

abbrev pub new_gate : String → OkxSequenceGate
new_gate symbol = record { symbol = symbol; sequence = none; connection_id = none }

abbrev pub invalidate : OkxSequenceGate → OkxSequenceGate
invalidate g = new_gate g.symbol

-- `_first_data`
abbrev pub first_of : Json → Result Error Fields
first_of (array (cons (object fs) nil)) = ok fs
first_of _ = err replay_error

unfoldable pub first_data : Fields → Result Error Fields
first_data message = first_of (get "data" message)

-- What the gate reads from the payload of an event.
pub record Numbers : Type 0 where
  pub data_fields : Fields
  pub sequence : ℤ
  pub previous : ℤ

unfoldable pub read_numbers : Python → RawMarketEvent → Result Error Numbers
unfolding first_data metadata_int
read_numbers py e = do
  message ← payload py e
  fs ← first_data message
  sequence ← metadata_int py (get "seqId" fs)
  previous ← metadata_int py (get "prevSeqId" fs)
  ok (record { data_fields = fs; sequence = sequence; previous = previous })

-- `self.connection_id is not None and event.connection_id != self.connection_id`
abbrev pub connection_changed : String → Option String → Bool
connection_changed c none = false
connection_changed c (some d) = not (c =$ d)

-- the checks of a delta against the sequence that the gate has
unfoldable pub follow : Python → Numbers → OkxSequenceGate → ℤ → Result Error Bool × OkxSequenceGate
follow py n g s =
    if not (eqb_ℤ n.previous s)
    then (err sequence_gap, invalidate g)
    else if ltb_ℤ n.sequence n.previous
    then (err sequence_gap, invalidate g)
    else (
      ok (
          not (
            eqb_ℤ n.sequence n.previous
            && is_falsy py (get "bids" n.data_fields)
            && is_falsy py (get "asks" n.data_fields))),
      record g { sequence = some n.sequence },
    )

abbrev pub follow_or_raise :
    Python → Numbers → OkxSequenceGate → Option ℤ → Result Error Bool × OkxSequenceGate
follow_or_raise py n g (some s) = follow py n g s
follow_or_raise py n g none = (err snapshot_required, g)

-- the body of `apply` after the payload has been read
unfoldable pub admit :
    Python → RawMarketEvent → Numbers → OkxSequenceGate → Result Error Bool × OkxSequenceGate
unfolding follow
admit py e n g =
    if e.message_type =$ "snapshot"
    then (ok true, record g { sequence = some n.sequence; connection_id = some e.connection_id })
    else if not (e.message_type =$ "delta")
    then (err snapshot_required, g)
    else follow_or_raise py n g g.sequence

-- `OkxSequenceGate.apply`
unfoldable pub gate_apply :
    Python → RawMarketEvent → OkxSequenceGate → Result Error Bool × OkxSequenceGate
unfolding read_numbers admit
gate_apply py e g =
    if not (e.exchange =$ "okx") || not (e.channel =$ "orderbook")
    then (err replay_error, g)
    else if not (e.symbol =$ g.symbol)
    then (err replay_error, g)
    else if connection_changed e.connection_id g.connection_id
    then (err snapshot_required, invalidate g)
    else elim (read_numbers py e) [ ok n ↦ admit py e n g | err x ↦ (err x, g) ]

-- the book after the levels of a message have been read
abbrev pub write_levels :
    String → ℤ → SequencedBook → (bids asks : List (Decimal × Decimal)) → Result Error SequencedBook
write_levels message_type sequence b bids asks =
    if message_type =$ "snapshot"
    then install b (from_levels [] bids) (from_levels [] asks) sequence
    else if not (is_ready b)
    then err snapshot_required
    else install b (apply_levels b.bids bids) (apply_levels b.asks asks) sequence

-- `OkxOrderBook.apply_message`; a book changes only when nothing is raised
unfoldable pub apply_message :
    Python → String → Fields → ℤ → SequencedBook → Result Error SequencedBook
apply_message py message_type fs sequence b = do
  bids ← levels py at_least_two (get "bids" fs)
  asks ← levels py at_least_two (get "asks" fs)
  write_levels message_type sequence b bids asks

-- what `OkxReplaySession.apply` does to the book of an event that the gate accepted
unfoldable pub book_apply : Python → RawMarketEvent → SequencedBook → Result Error SequencedBook
unfolding apply_message first_data required_int
book_apply py e b = do
  message ← payload py e
  fs ← first_data message
  sequence ← required_int py (get "seqId" fs)
  apply_message py e.message_type fs sequence b

abbrev pub write_book :
    String
    → Session OkxSequenceGate
    → Result Error SequencedBook
    → Result Error (Unit {0}) × Session OkxSequenceGate
write_book symbol s (ok b) = (ok tt, with_book symbol b s)
write_book symbol s (err x) = (err x, s)

-- the session after the gate of the event's symbol has answered
abbrev pub after_gate :
    Python
    → RawMarketEvent
    → Session OkxSequenceGate
    → Result Error Bool
    → Result Error (Unit {0}) × Session OkxSequenceGate
after_gate py e s (err x) = (err x, s)
after_gate py e s (ok false) = (ok tt, s)
after_gate py e s (ok true) =
    let b = book_of e.symbol s.books in
    write_book e.symbol (with_book e.symbol b s) (book_apply py e b)

abbrev pub gate_of : String → Dict OkxSequenceGate → OkxSequenceGate
gate_of symbol gates = or_default (new_gate symbol) (lookup symbol gates)

-- `OkxReplaySession.apply`
unfoldable pub session_apply :
    Python
    → RawMarketEvent
    → Session OkxSequenceGate
    → Result Error (Unit {0}) × Session OkxSequenceGate
unfolding gate_apply book_apply counted
session_apply py e s =
    if not (e.exchange =$ "okx")
    then (err replay_error, s)
    else if not (e.channel =$ "orderbook")
    then (ok tt, counted e s)
    else let (r, g) = gate_apply py e (gate_of e.symbol s.gates) in
      after_gate py e (with_gate e.symbol g (counted e s)) r

-- the loop of `replay_okx_stream`, which the first error ends
unfoldable pub replay :
    Python → List RawMarketEvent → Session OkxSequenceGate → Result Error (Session OkxSequenceGate)
unfolding session_apply
replay py [] s = ok s
replay py (e ∷ es) s = let (r, s') = session_apply py e s in let rest = replay py es s' in r >> rest

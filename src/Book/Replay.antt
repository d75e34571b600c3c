-- ===== src/Book/Replay.antt =====
-- What the replays of OKX and Binance share (src/data/okx_replay.py, src/data/binance_replay.py): the
-- book of a symbol, and a session that has a book and a gate for each symbol.
pub mod Sound
use greenfield.Base.{
  ℕ, ◌+◌, ℤ, Bool, true, false, not, ◌&&◌, Option, none, some, is_some, String, Dict, lookup,
  insert, Result, ok, err, ◌>>=◌, ◌>>◌, [], ◌∷◌,
}
use greenfield.Book.Event.{Error, RawMarketEvent}
use greenfield.Book.Side.{Side, validate_book}

-- `OkxOrderBook`, and `BinanceOrderBook` with `update_id` for `sequence`
pub record SequencedBook : Type 0 where
  pub symbol : String
  pub bids : Side
  pub asks : Side
  pub sequence : Option ℤ

-- `__init__` of a book
abbrev pub new_book : String → SequencedBook
new_book symbol = record { symbol = symbol; bids = []; asks = []; sequence = none }

abbrev pub is_empty : Side → Bool
is_empty [] = true
is_empty (l ∷ side) = false

-- the property `is_ready`
abbrev pub is_ready : SequencedBook → Bool
is_ready b = not (is_empty b.bids) && not (is_empty b.asks) && is_some b.sequence

-- `_validate_book`, and the three assignments after it
unfoldable pub install : SequencedBook → Side → Side → ℤ → Result Error SequencedBook
install b bids asks n = do
  _ ← validate_book bids asks
  ok (record b { bids = bids; asks = asks; sequence = some n })

-- The state of a session whose gates have the type `G`.
pub record Session (G : Type 0) : Type 0 where
  pub books : Dict SequencedBook
  pub gates : Dict G
  pub channel_counts : Dict ℕ
  pub raw_event_count : ℕ

-- `__init__` of a session
abbrev pub new_session : {G : Type 0} → Session G
new_session = record { books = []; gates = []; channel_counts = []; raw_event_count = 0 }

-- `d.get(key, default)`
abbrev pub or_default : {V : Type 0} → V → Option V → V
or_default d none = d
or_default d (some v) = v

-- the two counters that `apply` moves first
unfoldable pub counted : {G : Type 0} → RawMarketEvent → Session G → Session G
counted e s = record s {
  raw_event_count = s.raw_event_count + 1;
  channel_counts =
      insert e.channel (or_default 0 (lookup e.channel s.channel_counts) + 1) s.channel_counts;
}

-- `self.books.setdefault(symbol, ...)`
abbrev pub book_of : String → Dict SequencedBook → SequencedBook
book_of symbol books = or_default (new_book symbol) (lookup symbol books)

abbrev pub with_book : {G : Type 0} → String → SequencedBook → Session G → Session G
with_book symbol b s = record s { books = insert symbol b s.books }

abbrev pub with_gate : {G : Type 0} → String → G → Session G → Session G
with_gate symbol g s = record s { gates = insert symbol g s.gates }

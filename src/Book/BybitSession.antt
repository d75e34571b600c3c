-- ===== src/Book/BybitSession.antt =====
-- `BybitReplaySession.apply` (src/data/bybit_replay.py), which keeps a book and a ticker for each
-- symbol, with the connection that each of them came from.
pub mod Connection
pub mod Position
use greenfield.Base.{
  ℕ, ◌+◌, Bool, true, false, Option, none, some, String, ◌=$◌, opt_text_eq, Dict, lookup, insert,
  Result, ok, err, List, [], ◌∷◌, if◌then◌else◌,
}
use greenfield.Book.Event.{Error, Python, RawMarketEvent}
use greenfield.Book.Bybit
use greenfield.Book.Bybit.{BybitOrderBook, apply_event}
use greenfield.Book.Ticker
use greenfield.Book.Ticker.{BybitTickerState, apply_ticker}
use greenfield.Book.Replay.{or_default}

pub record BybitReplaySession : Type 0 where
  pub books : Dict BybitOrderBook
  pub tickers : Dict BybitTickerState
  pub book_connections : Dict String
  pub ticker_connections : Dict String
  pub channel_counts : Dict ℕ
  pub raw_event_count : ℕ

-- `BybitReplaySession.__init__`
abbrev pub new_bybit_session : BybitReplaySession
new_bybit_session = record {
  books = [];
  tickers = [];
  book_connections = [];
  ticker_connections = [];
  channel_counts = [];
  raw_event_count = 0;
}

-- the book of the event's symbol, invalidated if the event is from another connection
unfoldable pub book_before : RawMarketEvent → BybitReplaySession → BybitOrderBook
book_before e s =
    let book = or_default (Bybit.new_book e.symbol) (lookup e.symbol s.books) in
    if opt_text_eq (lookup e.symbol s.book_connections) (some e.connection_id)
    then book
    else Bybit.invalidate book

unfoldable pub ticker_before : RawMarketEvent → BybitReplaySession → BybitTickerState
ticker_before e s =
    let ticker = or_default (Ticker.new_ticker e.symbol) (lookup e.symbol s.tickers) in
    if opt_text_eq (lookup e.symbol s.ticker_connections) (some e.connection_id)
    then ticker
    else Ticker.invalidate ticker

unfoldable pub count_event : RawMarketEvent → BybitReplaySession → BybitReplaySession
count_event e s = record s {
  raw_event_count = s.raw_event_count + 1;
  channel_counts =
      insert e.channel (or_default 0 (lookup e.channel s.channel_counts) + 1) s.channel_counts;
}

-- `BybitReplaySession.apply`
unfoldable pub session_apply :
    Python → RawMarketEvent → BybitReplaySession → Result Error (Unit {0}) × BybitReplaySession
unfolding apply_event apply_ticker book_before ticker_before count_event
session_apply py e s =
    if e.channel =$ "orderbook"
    then (let (r, book) = apply_event py e (book_before e s) in
        (
          r,
          record (count_event e s) {
            books = insert e.symbol book s.books;
            book_connections = insert e.symbol e.connection_id s.book_connections;
          },
        ))
    else if e.channel =$ "ticker"
    then (let (r, ticker) = apply_ticker py e (ticker_before e s) in
        (
          r,
          record (count_event e s) {
            tickers = insert e.symbol ticker s.tickers;
            ticker_connections = insert e.symbol e.connection_id s.ticker_connections;
          },
        ))
    else (ok tt, count_event e s)

-- the loop of `replay_bybit_stream`, which the first error ends
unfoldable pub bybit_replay :
    Python → List RawMarketEvent → BybitReplaySession → Result Error (Unit {0}) × BybitReplaySession
unfolding session_apply
bybit_replay py [] s = (ok tt, s)
bybit_replay py (e ∷ es) s =
    let (r, s') = session_apply py e s in
    let rest = bybit_replay py es s' in elim r [ ok _ ↦ rest | err x ↦ (err x, s') ]

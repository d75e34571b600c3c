-- ===== src/Book/Tests.antt =====
-- The books and their replays on concrete messages.
use greenfield.Base.{
  ◌≢◌, ◌<ℤ◌, ℕ, Bool, true, false, ◌≡◌, refl, Option, none, some, String, ◌=$◌, List, [], ◌∷◌,
  arith, ℤ, pos, ◌+ℤ◌, Decimal, Result, ok, err, if◌then◌else◌, ◌*◌, lookup, ◌⊎◌, length,
}
use greenfield.Book.Event.{
  get, get_or, Error, Json, null, text, integer, array, object, Items, nil, cons, Fields, end,
  field, Python, RawMarketEvent,
}
use greenfield.Book.Side.{Side, size_at, apply_levels}
use greenfield.Book.Side.Laws.{Uncrossed, size_after, size_at-apply_levels}
use greenfield.Book.Bybit
use greenfield.Book.Bybit.{BybitOrderBook, apply_message}
use greenfield.Book.Bybit.Sound.{feed, feed-Uncrossed}
use greenfield.Book.Ticker.{BybitTickerState, TickerMessage, apply_ticker}
use greenfield.Book.BybitSession
use greenfield.Book.BybitSession.{BybitReplaySession, bybit_replay, new_bybit_session}
use greenfield.Book.BybitSession.Position.{position, expected_all, bybit_replay-position}
use greenfield.Book.BybitSession.Connection.{session_apply-connection}
use greenfield.Book.Ticker.Delta.{apply_ticker-delta}
use greenfield.Book.Replay.{SequencedBook, Session, new_session, book_of, is_ready}
use greenfield.Book.Okx
use greenfield.Book.Okx.{OkxSequenceGate}
use greenfield.Book.Okx.Sound.{okx_replay-agrees, okx_replay-Uncrossed}
use greenfield.Book.Binance
use greenfield.Book.Binance.{BinanceDepthSequenceGate}
use greenfield.Book.Binance.Sound.{binance_replay-agrees, binance_replay-Uncrossed}

abbrev dec : ℕ → Decimal
dec n = record { finite = true; units = pos (n * 1000000000000000000); places = 0 }

-- `[[price, size]]`
abbrev one_level : (price size : ℕ) → Json
one_level p s = array (cons (array (cons (integer (pos p)) (cons (integer (pos s)) nil))) nil)

abbrev no_levels : Json
no_levels = array nil

abbrev to_int_of : Json → Option ℤ
to_int_of (integer n) = some n
to_int_of _ = none

abbrev to_decimal_of : Json → Option Decimal
to_decimal_of (integer (pos n)) = some (dec n)
to_decimal_of _ = none

abbrev bybit_message : String → (u seq : ℕ) → (bids asks : Json) → Fields
bybit_message t u n bids asks = field "type" (text t) (
    field "data"
      (object (
        field "u" (integer (pos u))
          (field "seq" (integer (pos n)) (field "b" bids (field "a" asks end)))))
      end)

abbrev okx_message : (n previous : ℕ) → (bids asks : Json) → Json
okx_message n p bids asks = object (
    field "data"
      (array (
        cons
          (object (
            field "seqId" (integer (pos n))
              (field "prevSeqId" (integer (pos p)) (field "bids" bids (field "asks" asks end)))))
          nil))
      end)

abbrev binance_snapshot : (n : ℕ) → (bids asks : Json) → Json
binance_snapshot n bids asks =
    object (field "lastUpdateId" (integer (pos n)) (field "bids" bids (field "asks" asks end)))

abbrev binance_update : (first final previous : ℕ) → (bids asks : Json) → Json
binance_update f u p bids asks = object (
    field "U" (integer (pos f)) (
      field "u" (integer (pos u))
        (field "pu" (integer (pos p)) (field "b" bids (field "a" asks end)))))

abbrev price_update : Fields
price_update = field "lastPrice" (text "101") end

-- The payloads that the tests use.
abbrev loads_of : String → Option Json
loads_of t =
    if t =$ "okx 1"
    then some (okx_message 7 0 (one_level 100 2) (one_level 101 3))
    else if t =$ "okx 2"
    then some (okx_message 9 7 (one_level 99 4) no_levels)
    else if t =$ "binance 1"
    then some (binance_snapshot 20 (one_level 100 2) (one_level 101 3))
    else if t =$ "binance 2"
    then some (binance_update 19 22 18 (one_level 99 4) no_levels)
    else if t =$ "ticker 2"
    then some (
        object (
          field "type" (text "delta")
            (field "cs" (integer (pos 12)) (field "data" (object price_update) end))))
    else if t =$ "bybit 5"
    then some (object (bybit_message "snapshot" 5 50 (one_level 100 2) (one_level 101 3)))
    else if t =$ "bybit 6"
    then some (object (bybit_message "delta" 6 60 no_levels no_levels))
    else none

abbrev python : Python
python = record {
  loads = loads_of;
  to_int = to_int_of;
  to_decimal = to_decimal_of;
  real_is_zero = λ t. false;
}

abbrev book_at : (u seq : ℕ) → Side → BybitOrderBook
book_at u n bids = record {
  symbol = "BTCUSDT";
  bids = bids;
  asks = (dec 101, dec 3) ∷ [];
  update_id = some (pos u);
  sequence = some (pos n);
}

abbrev snapshot_message : Fields
snapshot_message = bybit_message "snapshot" 5 50 (one_level 100 2) (one_level 101 3)

abbrev deltas : List Fields
deltas =
    bybit_message "delta" 6 60 (one_level 99 4) no_levels
    ∷ bybit_message "delta" 7 70 (one_level 100 0) no_levels
    ∷ []

feed-Uncrossed_example :
    Uncrossed
      (feed python (snapshot_message ∷ deltas) (Bybit.new_book "BTCUSDT")).bids
      (feed python (snapshot_message ∷ deltas) (Bybit.new_book "BTCUSDT")).asks
unfolding feed apply_message greenfield.Book.Event.get greenfield.Book.Side.levels
    greenfield.Book.Side.levels_of greenfield.Book.Side.validate_book
    greenfield.Book.Side.from_levels greenfield.Book.Side.put greenfield.Book.Side.min_price
    greenfield.Book.Side.max_price ◌+ℤ◌ apply_levels greenfield.Book.Side.apply_level
    greenfield.Book.Side.pop
feed-Uncrossed_example = feed-Uncrossed python (snapshot_message ∷ deltas) "BTCUSDT" refl

abbrev side_of_two : Side
side_of_two = (dec 100, dec 2) ∷ (dec 99, dec 1) ∷ []

abbrev some_levels : List (Decimal × Decimal)
some_levels = (dec 99, dec 0) ∷ (dec 100, dec 5) ∷ []

size_at-apply_levels_example :
    size_at (dec 99) (apply_levels side_of_two some_levels)
    ≡ size_after (dec 99) some_levels (size_at (dec 99) side_of_two)
unfolding size_at
size_at-apply_levels_example =
    size_at-apply_levels (dec 99) side_of_two some_levels
      ((omega arith, omega arith), ((omega arith, omega arith), tt))
      (omega arith, omega arith, refl, (omega arith, omega arith, refl, tt))

abbrev event : (exchange message_type payload : String) → RawMarketEvent
event exchange message_type payload_text = record {
  schema_version = pos 1;
  ingestion_version = "1";
  event_id = "e";
  exchange = exchange;
  market_type = "linear";
  channel = "orderbook";
  topic = "books";
  symbol = "BTC";
  message_type = message_type;
  exchange_ts_ms = none;
  receive_ts_ns = pos 1;
  receive_sequence = pos 1;
  matching_ts_ms = none;
  sequence = none;
  update_id = none;
  connection_id = "c1";
  payload_sha256 = "";
  payload_text = payload_text;
}

abbrev sequenced_book : ℕ → SequencedBook
sequenced_book n = record {
  symbol = "BTC";
  bids = (dec 100, dec 2) ∷ (dec 99, dec 4) ∷ [];
  asks = (dec 101, dec 3) ∷ [];
  sequence = some (pos n);
}

abbrev okx_events : List RawMarketEvent
okx_events = event "okx" "snapshot" "okx 1" ∷ event "okx" "delta" "okx 2" ∷ []

abbrev okx_end : Session OkxSequenceGate
okx_end = record {
  books = ("BTC", sequenced_book 9) ∷ [];
  gates =
      ("BTC", record { symbol = "BTC"; sequence = some (pos 9); connection_id = some "c1" }) ∷ [];
  channel_counts = ("orderbook", 2) ∷ [];
  raw_event_count = 2;
}

okx_replay-agrees_example :
    (book_of "BTC" okx_end.books).sequence ≡ (Okx.gate_of "BTC" okx_end.gates).sequence
unfolding Okx.replay lookup greenfield.Book.Event.payload greenfield.Book.Event.get
    greenfield.Book.Side.levels greenfield.Book.Side.levels_of greenfield.Book.Replay.install
    greenfield.Book.Side.validate_book greenfield.Book.Side.from_levels greenfield.Book.Side.put
    greenfield.Book.Side.min_price greenfield.Book.Side.max_price greenfield.Base.insert
    apply_levels greenfield.Book.Side.apply_level
okx_replay-agrees_example = okx_replay-agrees python okx_events okx_end "BTC" refl

okx_replay-Uncrossed_example :
    Uncrossed (book_of "BTC" okx_end.books).bids (book_of "BTC" okx_end.books).asks
unfolding Okx.replay lookup greenfield.Book.Event.payload greenfield.Book.Event.get
    greenfield.Book.Side.levels greenfield.Book.Side.levels_of greenfield.Book.Replay.install
    greenfield.Book.Side.validate_book greenfield.Book.Side.from_levels greenfield.Book.Side.put
    greenfield.Book.Side.min_price greenfield.Book.Side.max_price greenfield.Base.insert
    apply_levels greenfield.Book.Side.apply_level
okx_replay-Uncrossed_example = okx_replay-Uncrossed python okx_events okx_end "BTC" refl refl

abbrev binance_events : List RawMarketEvent
binance_events = event "binance" "snapshot" "binance 1" ∷ event "binance" "delta" "binance 2" ∷ []

abbrev binance_end : Session BinanceDepthSequenceGate
binance_end = record {
  books = ("BTC", sequenced_book 22) ∷ [];
  gates =
      (
        "BTC",
        record {
          symbol = "BTC";
          update_id = some (pos 22);
          connection_id = some "c1";
          first_stream_event = false;
        },
      )
      ∷ [];
  channel_counts = ("orderbook", 2) ∷ [];
  raw_event_count = 2;
}

binance_replay-agrees_example :
    (book_of "BTC" binance_end.books).sequence ≡ (Binance.gate_of "BTC" binance_end.gates).update_id
unfolding Binance.replay greenfield.Book.Event.payload greenfield.Book.Event.get
    greenfield.Book.Side.levels greenfield.Book.Side.levels_of greenfield.Book.Replay.install
    greenfield.Book.Side.validate_book greenfield.Book.Side.from_levels greenfield.Book.Side.put
    greenfield.Book.Side.min_price greenfield.Book.Side.max_price lookup greenfield.Base.insert
    greenfield.Book.Event.get_or ◌+ℤ◌ apply_levels greenfield.Book.Side.apply_level
binance_replay-agrees_example = binance_replay-agrees python binance_events binance_end "BTC" refl

binance_replay-Uncrossed_example :
    Uncrossed (book_of "BTC" binance_end.books).bids (book_of "BTC" binance_end.books).asks
unfolding Binance.replay lookup greenfield.Book.Event.payload greenfield.Book.Event.get
    greenfield.Book.Side.levels greenfield.Book.Side.levels_of greenfield.Book.Replay.install
    greenfield.Book.Side.validate_book greenfield.Book.Side.from_levels greenfield.Book.Side.put
    greenfield.Book.Side.min_price greenfield.Book.Side.max_price greenfield.Base.insert
    greenfield.Book.Event.get_or ◌+ℤ◌ apply_levels greenfield.Book.Side.apply_level
binance_replay-Uncrossed_example =
    binance_replay-Uncrossed python binance_events binance_end "BTC" refl refl

abbrev ticker_fields : String → Fields
ticker_fields price = field "lastPrice" (text price) (field "symbol" (text "BTC") end)

abbrev ticker_at : String → ℕ → BybitTickerState
ticker_at price n = record {
  symbol = "BTC";
  data_fields = some (ticker_fields price);
  sequence = some (pos n);
}

abbrev ticker_event : RawMarketEvent
ticker_event = record (event "bybit" "delta" "ticker 2") { channel = "ticker" }

abbrev ticker_delta : TickerMessage
ticker_delta = record { message_type = text "delta"; data_fields = price_update; sequence = pos 12 }

apply_ticker-delta_example :
    (fs gs : Fields) × (s : ℤ) × ((ticker_at "100" 10).data_fields ≡ some fs)
    × ((ticker_at "100" 10).sequence ≡ some s)
    × (s <ℤ pos 12)
    × ((ticker_at "101" 12).sequence ≡ some (pos 12))
    × ((ticker_at "101" 12).data_fields ≡ some gs)
    × (get "lastPrice" gs ≡ get_or "lastPrice" (get "lastPrice" fs) price_update)
unfolding apply_ticker greenfield.Book.Event.payload get greenfield.Book.Event.required_int
    greenfield.Book.Ticker.Delta.has_unique_keys greenfield.Book.Ticker.Delta.has
apply_ticker-delta_example =
    apply_ticker-delta python ticker_event ticker_delta (ticker_at "100" 10) (ticker_at "101" 12)
      "lastPrice" refl refl refl refl

-- A session whose book came from another connection.
abbrev old_session : BybitReplaySession
old_session = record {
  books = ("BTC", record (book_at 5 50 ((dec 100, dec 2) ∷ [])) { symbol = "BTC" }) ∷ [];
  tickers = [];
  book_connections = ("BTC", "c0") ∷ [];
  ticker_connections = [];
  channel_counts = [];
  raw_event_count = 0;
}

session_apply-connection_example :
    (BybitSession.session_apply python (event "bybit" "delta" "bybit 6") old_session).0 ≢ ok tt
unfolding lookup greenfield.Book.Event.payload get
session_apply-connection_example =
    session_apply-connection python (event "bybit" "delta" "bybit 6")
      (bybit_message "delta" 6 60 no_levels no_levels) old_session refl refl refl refl

-- A snapshot of one symbol, a trade, a change of the symbol and a snapshot of another.
abbrev bybit_events : List RawMarketEvent
bybit_events =
    event "bybit" "snapshot" "bybit 5"
    ∷ record (event "bybit" "delta" "trade") { channel = "trade" }
    ∷ event "bybit" "delta" "bybit 6"
    ∷ record (event "bybit" "snapshot" "bybit 5") { symbol = "ETH"; connection_id = "c2" }
    ∷ []

abbrev bybit_end : BybitReplaySession
bybit_end = (bybit_replay python bybit_events new_bybit_session).1

applied : bybit_replay python bybit_events new_bybit_session ≡ (ok tt, bybit_end)
unfolding bybit_replay lookup greenfield.Book.Event.payload get greenfield.Book.Side.levels
    greenfield.Book.Side.levels_of greenfield.Book.Side.validate_book
    greenfield.Book.Side.from_levels greenfield.Book.Side.put greenfield.Book.Side.min_price
    greenfield.Book.Side.max_price greenfield.Base.insert ◌+ℤ◌ apply_levels
applied = refl

at_six : position "BTC" bybit_end ≡ some (pos 6, "c1")
unfolding bybit_replay lookup greenfield.Book.Event.payload get greenfield.Book.Side.levels
    greenfield.Book.Side.levels_of greenfield.Book.Side.validate_book
    greenfield.Book.Side.from_levels greenfield.Book.Side.put greenfield.Book.Side.min_price
    greenfield.Book.Side.max_price greenfield.Base.insert ◌+ℤ◌ apply_levels
at_six = refl

bybit_replay-position_example :
    position "BTC" bybit_end ≡ expected_all python "BTC" bybit_events none
unfolding lookup
bybit_replay-position_example =
    bybit_replay-position python bybit_events new_bybit_session bybit_end "BTC" applied

-- ===== src/Book/BybitSession/Connection.antt =====
-- Events of a new connection in `BybitReplaySession` (src/data/bybit_replay.py).
use greenfield.Base.{true, false, ◌≡◌, ◌≢◌, none, some, ◌=$◌, opt_text_eq, lookup, ok, arith}
use greenfield.Book.Event.{Fields, get, Python, RawMarketEvent, payload}
use greenfield.Book.Bybit.{BybitOrderBook, is_text, apply_message, apply_event}
use greenfield.Book.Bybit.Chain.{message-Next}
use greenfield.Book.BybitSession.{BybitReplaySession, book_before, session_apply}

apply_event-unready :
    (py : Python) (e : RawMarketEvent) (message : Fields) (b : BybitOrderBook)
    → payload py e ≡ ok message
    → is_text "snapshot" (get "type" message) ≡ false
    → b.update_id ≡ none
    → (apply_event py e b).0 ≢ ok tt
unfolding apply_event
apply_event-unready py e message b read other empty h =
    let b' : BybitOrderBook = (apply_message py message b).1 in
    let step : apply_message py message b ≡ (ok tt, b') = ground arith in
    let (u, from, to) = message-Next py message b b' other step in absurd (ground arith)

-- An order-book event of a symbol whose book came from another connection, or from none, and whose
-- message is not a snapshot is never applied by a Bybit session: it raises.
pub session_apply-connection :
    (py : Python) (e : RawMarketEvent) (message : Fields) (s : BybitReplaySession)
    → (e.channel =$ "orderbook") ≡ true
    → opt_text_eq (lookup e.symbol s.book_connections) (some e.connection_id) ≡ false
    → payload py e ≡ ok message
    → is_text "snapshot" (get "type" message) ≡ false
    → (session_apply py e s).0 ≢ ok tt
unfolding session_apply book_before
session_apply-connection py e message s channel changed read other h =
    let empty : (book_before e s).update_id ≡ none = ground arith in
    apply_event-unready py e message (book_before e s) read other empty (ground arith)

-- ===== src/Book/BybitSession/Position.antt =====
-- Where the books of a Bybit session are after a replay (src/data/bybit_replay.py).
use greenfield.Base.{
  ℤ, pos, ◌+ℤ◌, true, false, ◌&&◌, Option, none, some, String, ◌=$◌, =$_iff, opt_text_eq, ◌≡◌, refl,
  sym, ◌∙◌, ap, List, [], ◌∷◌, lookup, insert, lookup-insert, Result, ok, err, ◌>>=◌, arith,
  Bool-cases, Result-cases, Option-cases, inl, inr, if◌then◌else◌, text_refl,
}
use greenfield.Book.Event.{Error, Python, RawMarketEvent, payload}
use greenfield.Book.Bybit.{
  BybitOrderBook, Message, is_text, read_message, accept, apply_message, apply_event,
}
use greenfield.Book.Bybit.Chain.{accept-Change, accept-snapshot}
use greenfield.Book.Replay.{or_default}
use greenfield.Book.Bybit
use greenfield.Book.BybitSession.{
  BybitReplaySession, count_event, book_before, session_apply, bybit_replay,
}

-- An update id, and the connection that it came from.
abbrev pub Position : Type 0
Position = Option (ℤ × String)

abbrev at_id : Option ℤ → Option String → Position
at_id (some u) (some c) = some (u, c)
at_id (some u) none = none
at_id none c = none

abbrev id_of : Option BybitOrderBook → Option ℤ
id_of (some b) = b.update_id
id_of none = none

-- The position of the book of a symbol in a session.
abbrev pub position : String → BybitReplaySession → Position
position symbol s = at_id (id_of (lookup symbol s.books)) (lookup symbol s.book_connections)

-- What order-book messages should lead to: a snapshot begins at its own id on its connection, and
-- another message is the next one, on the same connection.
abbrev pub next_on : String → Position → Position
next_on connection none = none
next_on connection (some (u, c)) = if c =$ connection then some (u +ℤ pos 1, c) else none

abbrev pub moved : String → Result Error Message → Position → Position
moved connection (ok m) p =
    if is_text "snapshot" m.message_type
    then some (m.update_id, connection)
    else next_on connection p
moved connection (err x) p = none

unfoldable pub message_of : Python → RawMarketEvent → Result Error Message
message_of py e = do message ← payload py e; read_message py message

unfoldable pub expected : Python → String → RawMarketEvent → Position → Position
expected py symbol e p =
    if e.channel =$ "orderbook" && e.symbol =$ symbol
    then moved e.connection_id (message_of py e) p
    else p

unfoldable pub expected_all : Python → String → List RawMarketEvent → Position → Position
expected_all py symbol [] p = p
expected_all py symbol (e ∷ es) p = expected_all py symbol es (expected py symbol e p)

-- An event that a book accepts has been read to a message that it has accepted.
apply_event-accepts :
    (py : Python) (e : RawMarketEvent) (b b' : BybitOrderBook)
    → apply_event py e b ≡ (ok tt, b')
    → (m : Message) × (message_of py e ≡ ok m) × (accept m b ≡ (ok tt, b'))
unfolding apply_event apply_message message_of
apply_event-accepts py e b b' h = elim (Result-cases (payload py e)) [
  | inr (x, bad) ↦ absurd (ground arith)
  | inl (message, good) ↦ elim (Result-cases (read_message py message)) [
    | inr (x, bad) ↦ absurd (ground arith)
    | inl (m, read) ↦ (m, ground arith, ground arith)
  ]
]

-- The position that an accepted message leads to from the book before it.
accept-moved :
    (m : Message) (c : String) (b b' : BybitOrderBook)
    → accept m b ≡ (ok tt, b')
    → at_id b'.update_id (some c) ≡ moved c (ok m) (at_id b.update_id (some c))
accept-moved m c b b' h = elim (Bool-cases (is_text "snapshot" m.message_type)) [
  | inl first ↦ rw (first, accept-snapshot m b b' first h) refl
  | inr later ↦
      let change = accept-Change m b b' later h in
      let at : b'.update_id ≡ some (change.from +ℤ pos 1) =
        ap (λ x. x.update_id) change.written ∙ ap some change.contiguous in
      rw (later, at, change.at_update, text_refl c) refl
]

next_on-other :
    (c o : String) (u : Option ℤ) → (o =$ c) ≡ false → next_on c (at_id u (some o)) ≡ none
next_on-other c o none other = refl
next_on-other c o (some u) other = rw other refl

-- A book from another connection is invalidated first, and so no position but a snapshot follows.
before-next :
    (c symbol : String) (found : Option BybitOrderBook) (owner : Option String)
    → next_on c (
        at_id
          (if opt_text_eq owner (some c)
            then or_default (Bybit.new_book symbol) found
            else Bybit.invalidate (or_default (Bybit.new_book symbol) found)).update_id
          (some c))
      ≡ next_on c (at_id (id_of found) owner)
before-next c symbol none none = refl
before-next c symbol (some b) none = elim (Option-cases b.update_id) [
  | inl unset ↦ rw unset refl
  | inr (u, set) ↦ rw set refl
]
before-next c symbol none (some o) = elim (Bool-cases (o =$ c)) [
  | inl same ↦ rw same refl
  | inr other ↦ rw other refl
]
before-next c symbol (some b) (some o) = elim (Bool-cases (o =$ c)) [
  | inr other ↦ rw other (sym (next_on-other c o b.update_id other))
  | inl same ↦
      rw same (ap (λ x. next_on c (at_id b.update_id (some x))) (sym ((=$_iff o c).0 same)))
]

before-moved :
    (m : Message) (e : RawMarketEvent) (s : BybitReplaySession)
    → moved e.connection_id (ok m) (at_id (book_before e s).update_id (some e.connection_id))
      ≡ moved e.connection_id (ok m) (position e.symbol s)
unfolding book_before
before-moved m e s = elim (Bool-cases (is_text "snapshot" m.message_type)) [
  | inl first ↦ rw first refl
  | inr later ↦ rw later (
      before-next e.connection_id e.symbol (lookup e.symbol s.books)
        (lookup e.symbol s.book_connections))
]

-- The position of a symbol after its book and its connection have been written.
written-position :
    (symbol k c : String) (b : BybitOrderBook) (s s' : BybitReplaySession)
    → s'.books ≡ insert k b s.books
    → s'.book_connections ≡ insert k c s.book_connections
    → position symbol s' ≡ (if k =$ symbol then at_id b.update_id (some c) else position symbol s)
written-position symbol k c b s s' hb hc =
    let books = ap (lookup symbol) hb ∙ lookup-insert k symbol b s.books in
    let owners = ap (lookup symbol) hc ∙ lookup-insert k symbol c s.book_connections in
    elim (Bool-cases (k =$ symbol)) [
      | inl same ↦
          let new_book : lookup symbol s'.books ≡ some b = books ∙ (rw same refl) in
          let owner : lookup symbol s'.book_connections ≡ some c = owners ∙ (rw same refl) in
          rw (same, new_book, owner) refl
      | inr other ↦
          let old_book : lookup symbol s'.books ≡ lookup symbol s.books = books ∙ (rw other refl) in
          let owner : lookup symbol s'.book_connections ≡ lookup symbol s.book_connections =
            owners ∙ (rw other refl) in
          rw (other, old_book, owner) refl
    ]

-- An event of another channel leaves the books and their connections alone.
session_apply-quiet :
    (py : Python) (e : RawMarketEvent) (s s' : BybitReplaySession)
    → session_apply py e s ≡ (ok tt, s')
    → (e.channel =$ "orderbook") ≡ false
    → (s'.books ≡ s.books) × (s'.book_connections ≡ s.book_connections)
unfolding session_apply count_event
session_apply-quiet py e s s' h quiet = elim (Bool-cases (e.channel =$ "ticker")) [
  | inl ticker ↦ (ground arith, ground arith)
  | inr neither ↦ (ground arith, ground arith)
]

-- An order-book event writes the book that has accepted it, and its connection.
session_apply-book :
    (py : Python) (e : RawMarketEvent) (s s' : BybitReplaySession)
    → session_apply py e s ≡ (ok tt, s')
    → (e.channel =$ "orderbook") ≡ true
    → (b : BybitOrderBook) × (apply_event py e (book_before e s) ≡ (ok tt, b))
      × (s'.books ≡ insert e.symbol b s.books)
      × (s'.book_connections ≡ insert e.symbol e.connection_id s.book_connections)
unfolding session_apply count_event
session_apply-book py e s s' h channel =
    ((apply_event py e (book_before e s)).1, ground arith, ground arith, ground arith)

session_apply-position :
    (py : Python) (e : RawMarketEvent) (symbol : String) (s s' : BybitReplaySession)
    → session_apply py e s ≡ (ok tt, s')
    → position symbol s' ≡ expected py symbol e (position symbol s)
unfolding expected
session_apply-position py e symbol s s' h = elim (Bool-cases (e.channel =$ "orderbook")) [
  | inr other ↦
      let (books, owners) = session_apply-quiet py e s s' h other in rw (other, books, owners) refl
  | inl channel ↦
      let (b, applied, books, owners) = session_apply-book py e s s' h channel in
      let (m, read, accepted) = apply_event-accepts py e (book_before e s) b applied in
      let to = written-position symbol e.symbol e.connection_id b s s' books owners in
      elim (Bool-cases (e.symbol =$ symbol)) [
        | inr elsewhere ↦ to ∙ (rw (channel, elsewhere) refl)
        | inl here ↦
            let same : position e.symbol s ≡ position symbol s =
              ap (λ k. position k s) ((=$_iff e.symbol symbol).0 here) in
            let reached =
              accept-moved m e.connection_id (book_before e s) b accepted
              ∙ before-moved m e s
              ∙ ap (moved e.connection_id (ok m)) same in
            to ∙ (rw (channel, here, read) reached)
      ]
]

-- After a replay of Bybit events by a session that raises nothing, the update id and the connection
-- of the book of each symbol are what the order-book messages of the symbol lead to from those
-- before the replay, other events aside: a snapshot begins at its own update id on its connection,
-- and any other message is the next update id on the same connection, so that no update is skipped,
-- none is applied twice and no connection continues another.
pub bybit_replay-position :
    (py : Python) (es : List RawMarketEvent) (s s' : BybitReplaySession) (symbol : String)
    → bybit_replay py es s ≡ (ok tt, s')
    → position symbol s' ≡ expected_all py symbol es (position symbol s)
unfolding bybit_replay expected_all
bybit_replay-position py [] s s' symbol h = ap (λ x. position symbol x.1) (sym h)
bybit_replay-position py (e ∷ es) s s' symbol h = elim (Result-cases (session_apply py e s).0) [
  | inr (x, refused) ↦ absurd (ground arith)
  | inl (done, applied) ↦
      let mid : BybitReplaySession = (session_apply py e s).1 in
      let step : session_apply py e s ≡ (ok tt, mid) = ground arith in
      bybit_replay-position py es mid s' symbol (ground arith)
      ∙ ap (expected_all py symbol es) (session_apply-position py e symbol s mid step)
]

-- ===== src/Book/Binance/Sound.antt =====
-- The books of a Binance replay (src/data/binance_replay.py).
use greenfield.Base.{
  ap, ℤ, Bool, true, false, ◌≡◌, sym, subst, String, ◌=$◌, List, [], ◌∷◌, Result, ok, err,
  Result-cases, Bool-cases, inl, inr, arith, >>=-eq-ok, ok_eq, ◌>>=◌,
}
use greenfield.Book.Event.{required_int, Error, Json, get, Python, RawMarketEvent, payload}
use greenfield.Book.Side.{exactly_two, levels, apply_levels, from_levels}
use greenfield.Book.Side.Laws.{Uncrossed, apply_levels-IsSide, from_levels-IsSide}
use greenfield.Book.Side.Levels.{levels-IsLevel}
use greenfield.Book.Replay.{
  SequencedBook, is_ready, install, Session, new_session, counted, book_of, with_gate,
}
use greenfield.Book.Replay.Sound.{
  IsSound, AllSound, install-IsSound, insert-AllSound, none-AllSound,
}
use greenfield.Book.Binance.Agree.{new_session-Agree, replay-Agree}
use greenfield.Book.Binance.{
  BinanceDepthSequenceGate, bootstrap, stream_message, gate_apply, load_snapshot, apply_delta,
  book_snapshot, book_delta, after_snapshot, after_gate, gate_of, orderbook_apply, prepared,
  session_apply, replay,
}

load_snapshot-IsSound :
    (py : Python) (bids asks : Json) (n : ℤ) (b b' : SequencedBook)
    → load_snapshot py bids asks n b ≡ ok b'
    → IsSound b'
unfolding load_snapshot
load_snapshot-IsSound py bids asks n b b' h =
    let (xs, ex, h₁) = >>=-eq-ok (levels py exactly_two bids) _ h in
    let (ys, ey, h₂) = >>=-eq-ok (levels py exactly_two asks) _ h₁ in
    install-IsSound b b' (from_levels [] xs) (from_levels [] ys) n
      (from_levels-IsSide [] xs (levels-IsLevel py exactly_two bids xs ex) tt)
      (from_levels-IsSide [] ys (levels-IsLevel py exactly_two asks ys ey) tt) h₂

apply_delta-IsSound :
    (py : Python) (bids asks : Json) (n : ℤ) (b b' : SequencedBook)
    → IsSound b
    → apply_delta py bids asks n b ≡ ok b'
    → IsSound b'
unfolding apply_delta
apply_delta-IsSound py bids asks n b b' v h = elim (Bool-cases (is_ready b)) [
  | inr early ↦ absurd (ground arith)
  | inl ready ↦
      let h₀ : (levels py exactly_two bids >>= λ xs. levels py exactly_two asks >>= λ ys.
      install b (apply_levels b.bids xs) (apply_levels b.asks ys) n)
          ≡ ok b' =
        ground arith in
      let (xs, ex, h₁) = >>=-eq-ok (levels py exactly_two bids) _ h₀ in
      let (ys, ey, h₂) = >>=-eq-ok (levels py exactly_two asks) _ h₁ in
      install-IsSound b b' (apply_levels b.bids xs) (apply_levels b.asks ys) n
        (apply_levels-IsSide b.bids xs (levels-IsLevel py exactly_two bids xs ex) v.bids)
        (apply_levels-IsSide b.asks ys (levels-IsLevel py exactly_two asks ys ey) v.asks) h₂
]

book_delta-IsSound :
    (py : Python) (e : RawMarketEvent) (b b' : SequencedBook)
    → IsSound b
    → book_delta py e b ≡ ok b'
    → IsSound b'
unfolding book_delta
book_delta-IsSound py e b b' v h =
    let (fs, _, h₁) = >>=-eq-ok (payload py e) _ h in
    let (m, _, h₂) = >>=-eq-ok (stream_message fs) _ h₁ in
    let (n, _, h₃) = >>=-eq-ok (required_int py (get "u" m)) _ h₂ in
    apply_delta-IsSound py (get "b" m) (get "a" m) n b b' v h₃

book_snapshot-IsSound :
    (py : Python) (e : RawMarketEvent) (b b' : SequencedBook) (n : ℤ)
    → book_snapshot py e b ≡ ok (b', n)
    → IsSound b'
unfolding book_snapshot
book_snapshot-IsSound py e b b' n h =
    let (fs, _, h₁) = >>=-eq-ok (payload py e) _ h in
    let (m, _, h₂) = >>=-eq-ok (required_int py (get "lastUpdateId" fs)) _ h₁ in
    let (c, ec, h₃) = >>=-eq-ok (load_snapshot py (get "bids" fs) (get "asks" fs) m b) _ h₂ in
    let same : c ≡ b' = ap (λ x. x.0) (ok_eq _ _ h₃) in
    subst IsSound same (load_snapshot-IsSound py (get "bids" fs) (get "asks" fs) m b c ec)

module _ (py : Python) (e : RawMarketEvent) (b : SequencedBook) (g : BinanceDepthSequenceGate)
    (s : Session BinanceDepthSequenceGate) where
  after_gate-AllSound :
      (r : Result Error Bool)
      → IsSound b
      → AllSound s.books
      → AllSound (after_gate py e b s r).1.books
  after_gate-AllSound (err x) own v = v
  after_gate-AllSound (ok false) own v = v
  after_gate-AllSound (ok true) own v = elim (Result-cases (book_delta py e b)) [
    | inl (b', done) ↦
        rw done (insert-AllSound e.symbol b' s.books (book_delta-IsSound py e b b' own done) v)
    | inr (x, refused) ↦ rw refused v
  ]

  after_snapshot-AllSound :
      AllSound s.books → AllSound (after_snapshot e g s (book_snapshot py e b)).1.books
  after_snapshot-AllSound v = elim (Result-cases (book_snapshot py e b)) [
    | inr (x, bad) ↦ rw bad v
    | inl ((b', n), good) ↦
        let kept = insert-AllSound e.symbol b' s.books (book_snapshot-IsSound py e b b' n good) v in
        elim (Result-cases (bootstrap n e.connection_id g)) [
          | inl (g', started) ↦ rw (good, started) kept
          | inr (x, bad) ↦ rw (good, bad) kept
        ]
  ]

orderbook_apply-AllSound :
    (py : Python) (e : RawMarketEvent) (b : SequencedBook) (g : BinanceDepthSequenceGate)
    (s : Session BinanceDepthSequenceGate)
    → IsSound b
    → AllSound s.books
    → AllSound (orderbook_apply py e b g s).1.books
unfolding orderbook_apply
orderbook_apply-AllSound py e b g s own v = elim (Bool-cases (e.message_type =$ "snapshot")) [
  | inl snapshot ↦
      let left : orderbook_apply py e b g s ≡ after_snapshot e g s (book_snapshot py e b) =
        ground arith in
      subst (λ x. AllSound x.1.books) (sym left) (after_snapshot-AllSound py e b g s v)
  | inr delta ↦
      let out = gate_apply py e g in
      let left : orderbook_apply py e b g s ≡ after_gate py e b (with_gate e.symbol out.1 s) out.0 =
        ground arith in
      subst (λ x. AllSound x.1.books) (sym left)
        (after_gate-AllSound py e b g (with_gate e.symbol out.1 s) out.0 own v)
]

-- Every event leaves the books of a session sound, whether it is applied or raises.
session_apply-AllSound :
    (py : Python) (e : RawMarketEvent) (s : Session BinanceDepthSequenceGate)
    → AllSound s.books
    → AllSound (session_apply py e s).1.books
unfolding session_apply counted
session_apply-AllSound py e s v = elim (Bool-cases (e.exchange =$ "binance")) [
  | inr foreign ↦ rw foreign v
  | inl venue ↦ elim (Bool-cases (e.channel =$ "orderbook")) [
    | inr other ↦ rw (venue, other) v
    | inl book ↦
        let b : SequencedBook = book_of e.symbol s.books in
        let g : BinanceDepthSequenceGate = gate_of e.symbol s.gates in
        let left : session_apply py e s ≡ orderbook_apply py e b g (prepared e b g s) =
          ground arith in
        subst (λ x. AllSound x.1.books) (sym left)
          (orderbook_apply-AllSound py e b g (prepared e b g s) (v e.symbol)
            (insert-AllSound e.symbol b s.books (v e.symbol) v))
  ]
]

replay-AllSound :
    (py : Python) (es : List RawMarketEvent) (s s' : Session BinanceDepthSequenceGate)
    → replay py es s ≡ ok s'
    → AllSound s.books
    → AllSound s'.books
unfolding replay
replay-AllSound py [] s s' h v = rw (sym (ok_eq s s' h)) v
replay-AllSound py (e ∷ es) s s' h v = elim (Result-cases (session_apply py e s).0) [
  | inr (x, refused) ↦ absurd (ground arith)
  | inl (done, applied) ↦
      replay-AllSound py es (session_apply py e s).1 s' (ground arith)
        (session_apply-AllSound py e s v)
]

-- After a replay of Binance events from a new session that raises nothing, the book of every symbol
-- is at the update id of the gate of that symbol.
pub binance_replay-agrees :
    (py : Python) (es : List RawMarketEvent) (s : Session BinanceDepthSequenceGate)
    (symbol : String)
    → replay py es new_session ≡ ok s
    → (book_of symbol s.books).sequence ≡ (gate_of symbol s.gates).update_id
binance_replay-agrees py es s symbol h = replay-Agree py es new_session s h new_session-Agree symbol

-- After a replay of Binance events from a new session that raises nothing, in a book that is ready
-- both sides are there and every bid is below every ask.
pub binance_replay-Uncrossed :
    (py : Python) (es : List RawMarketEvent) (s : Session BinanceDepthSequenceGate)
    (symbol : String)
    → replay py es new_session ≡ ok s
    → is_ready (book_of symbol s.books) ≡ true
    → Uncrossed (book_of symbol s.books).bids (book_of symbol s.books).asks
binance_replay-Uncrossed py es s symbol h ready =
    (replay-AllSound py es new_session s h none-AllSound symbol).uncrossed ready

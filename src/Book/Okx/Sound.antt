-- ===== src/Book/Okx/Sound.antt =====
-- The books of an OKX replay (src/data/okx_replay.py).
use greenfield.Base.{
  ℤ, Bool, true, false, ◌≡◌, sym, subst, Decimal, String, ◌=$◌, insert, List, [], ◌∷◌, All, Result,
  ok, err, Result-cases, Bool-cases, inl, inr, arith, >>=-eq-ok, ok_eq,
}
use greenfield.Book.Event.{required_int, Error, Fields, get, Python, RawMarketEvent, payload}
use greenfield.Book.Side.{at_least_two, levels, apply_levels, from_levels}
use greenfield.Book.Side.Laws.{Uncrossed, IsLevel, apply_levels-IsSide, from_levels-IsSide}
use greenfield.Book.Side.Levels.{levels-IsLevel}
use greenfield.Book.Replay.{
  SequencedBook, is_ready, Session, new_session, counted, book_of, with_gate,
}
use greenfield.Book.Replay.Sound.{
  IsSound, AllSound, install-IsSound, insert-AllSound, none-AllSound,
}
use greenfield.Book.Okx.Agree.{new_session-Agree, replay-Agree}
use greenfield.Book.Okx.{
  OkxSequenceGate, first_data, gate_apply, write_levels, apply_message, book_apply, after_gate,
  gate_of, session_apply, replay,
}

write_levels-IsSound :
    (message_type : String) (n : ℤ) (b b' : SequencedBook) (bids asks : List (Decimal × Decimal))
    → All IsLevel bids
    → All IsLevel asks
    → IsSound b
    → write_levels message_type n b bids asks ≡ ok b'
    → IsSound b'
write_levels-IsSound t n b b' bids asks hb ha v h = elim (Bool-cases (t =$ "snapshot")) [
  | inl snapshot ↦
      install-IsSound b b' (from_levels [] bids) (from_levels [] asks) n
        (from_levels-IsSide [] bids hb tt) (from_levels-IsSide [] asks ha tt) (ground arith)
  | inr other ↦ elim (Bool-cases (is_ready b)) [
    | inr early ↦ absurd (ground arith)
    | inl ready ↦
        install-IsSound b b' (apply_levels b.bids bids) (apply_levels b.asks asks) n
          (apply_levels-IsSide b.bids bids hb v.bids) (apply_levels-IsSide b.asks asks ha v.asks)
          (ground arith)
  ]
]

apply_message-IsSound :
    (py : Python) (message_type : String) (fs : Fields) (n : ℤ) (b b' : SequencedBook)
    → IsSound b
    → apply_message py message_type fs n b ≡ ok b'
    → IsSound b'
unfolding apply_message
apply_message-IsSound py t fs n b b' v h =
    let (bids, eb, h₁) = >>=-eq-ok (levels py at_least_two (get "bids" fs)) _ h in
    let (asks, ea, h₂) = >>=-eq-ok (levels py at_least_two (get "asks" fs)) _ h₁ in
    write_levels-IsSound t n b b' bids asks (levels-IsLevel py at_least_two (get "bids" fs) bids eb)
      (levels-IsLevel py at_least_two (get "asks" fs) asks ea) v h₂

book_apply-IsSound :
    (py : Python) (e : RawMarketEvent) (b b' : SequencedBook)
    → IsSound b
    → book_apply py e b ≡ ok b'
    → IsSound b'
unfolding book_apply
book_apply-IsSound py e b b' v h =
    let (m, _, h₁) = >>=-eq-ok (payload py e) _ h in
    let (fs, _, h₂) = >>=-eq-ok (first_data m) _ h₁ in
    let (n, _, h₃) = >>=-eq-ok (required_int py (get "seqId" fs)) _ h₂ in
    apply_message-IsSound py e.message_type fs n b b' v h₃

after_gate-AllSound :
    (py : Python) (e : RawMarketEvent) (s : Session OkxSequenceGate) (r : Result Error Bool)
    → AllSound s.books
    → AllSound (after_gate py e s r).1.books
after_gate-AllSound py e s (err x) v = v
after_gate-AllSound py e s (ok false) v = v
after_gate-AllSound py e s (ok true) v =
    let b = book_of e.symbol s.books in
    let kept : AllSound (insert e.symbol b s.books) =
      insert-AllSound e.symbol b s.books (v e.symbol) v in
    elim (Result-cases (book_apply py e b)) [
      | inl (b', done) ↦ rw done (
          insert-AllSound e.symbol b' (insert e.symbol b s.books)
            (book_apply-IsSound py e b b' (v e.symbol) done) kept)
      | inr (x, refused) ↦ rw refused kept
    ]

-- Every event leaves the books of a session sound, whether it is applied or raises.
pub session_apply-AllSound :
    (py : Python) (e : RawMarketEvent) (s : Session OkxSequenceGate)
    → AllSound s.books
    → AllSound (session_apply py e s).1.books
unfolding session_apply counted
session_apply-AllSound py e s v = elim (Bool-cases (e.exchange =$ "okx")) [
  | inr foreign ↦ rw foreign v
  | inl venue ↦ elim (Bool-cases (e.channel =$ "orderbook")) [
    | inr other ↦ rw (venue, other) v
    | inl book ↦
        let out = gate_apply py e (gate_of e.symbol s.gates) in
        let mid : Session OkxSequenceGate = with_gate e.symbol out.1 (counted e s) in
        let left : session_apply py e s ≡ after_gate py e mid out.0 = ground arith in
        subst (λ x. AllSound x.1.books) (sym left) (after_gate-AllSound py e mid out.0 v)
  ]
]

replay-AllSound :
    (py : Python) (es : List RawMarketEvent) (s s' : Session OkxSequenceGate)
    → replay py es s ≡ ok s'
    → AllSound s.books
    → AllSound s'.books
unfolding replay
replay-AllSound py [] s s' h v = rw (sym (ok_eq s s' h)) v
replay-AllSound py (e ∷ es) s s' h v = elim (Result-cases (session_apply py e s).0) [
  | inr (x, refused) ↦ absurd (ground arith)
  | inl (done, applied) ↦
      replay-AllSound py es (session_apply py e s).1 s' (ground arith)
        (session_apply-AllSound py e s v)
]

-- After a replay of OKX events from a new session that raises nothing, the book of every symbol is
-- at the sequence of the gate of that symbol.
pub okx_replay-agrees :
    (py : Python) (es : List RawMarketEvent) (s : Session OkxSequenceGate) (symbol : String)
    → replay py es new_session ≡ ok s
    → (book_of symbol s.books).sequence ≡ (gate_of symbol s.gates).sequence
okx_replay-agrees py es s symbol h = replay-Agree py es new_session s h new_session-Agree symbol

-- After a replay of OKX events from a new session that raises nothing, in a book that is ready both
-- sides are there and every bid is below every ask.
pub okx_replay-Uncrossed :
    (py : Python) (es : List RawMarketEvent) (s : Session OkxSequenceGate) (symbol : String)
    → replay py es new_session ≡ ok s
    → is_ready (book_of symbol s.books) ≡ true
    → Uncrossed (book_of symbol s.books).bids (book_of symbol s.books).asks
okx_replay-Uncrossed py es s symbol h ready =
    (replay-AllSound py es new_session s h none-AllSound symbol).uncrossed ready
